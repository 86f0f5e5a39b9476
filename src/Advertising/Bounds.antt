-- ===== src/Advertising/Bounds.antt =====
-- The size limit of legacy advertising (btstack-core/src/advertising.rs, `to_bytes`).
use btstack_gatt_rs.Prelude.{
  ℕ, ◌≤◌, ◌≡◌, ◌↔◌, List, ◌∷◌, ◌++◌, ok, arith, length, length-append, All, Result-cases, inl, inr,
  ap, ◌∙◌,
}
use btstack_gatt_rs.Types.{IsUuid}
use btstack_gatt_rs.Advertising.{
  AdvertisingData, name_length, services_length, service_field, name_field, to_bytes,
}
use btstack_gatt_rs.Advertising.Fields.{
  Fits, payload_size, services_size, name_length_lem, services_length_lem, name_length_inv,
  services_length_inv, length-service_field, length-name_field,
}

-- The payload that a successful encoding holds.
unfoldable pub encoding : AdvertisingData → List ℕ
encoding d = 2 ∷ 1 ∷ 6 ∷ (service_field (services_size d.services) d.services ++ name_field d.name)

pub to_bytes_of_Fits : (d : AdvertisingData) → Fits d → to_bytes d ≡ ok (encoding d)
unfolding to_bytes encoding
to_bytes_of_Fits d (t, h) = ground (arith, name_length_lem d.name t, services_length_lem d.services)

pub to_bytes_inv :
    (d : AdvertisingData) (payload : List ℕ)
    → to_bytes d ≡ ok payload
    → Fits d × (payload ≡ encoding d)
unfolding to_bytes encoding
to_bytes_inv d payload h = elim (Result-cases (name_length d.name)) [
  | inl (n, e) ↦ elim (Result-cases (services_length d.services)) [
    | inl (m, f) ↦ ground (arith, name_length_inv d.name n e, services_length_inv d.services m f)
    | inr (b, f) ↦ ground arith
  ]
  | inr (b, e) ↦ ground arith
]

pub length-encoding :
    (d : AdvertisingData) → All IsUuid d.services → length (encoding d) ≡ payload_size d
unfolding encoding
length-encoding d u = omega (
  arith,
  length-append (service_field (services_size d.services) d.services) (name_field d.name),
  length-service_field d.services u,
  length-name_field d.name,
)

-- Encoding succeeds exactly when the name, if there is one, is not empty and the flags, the list of
-- UUIDs and the name together take at most 31 bytes.
pub to_bytes-Fits : (d : AdvertisingData) → ((bs : List ℕ) × (to_bytes d ≡ ok bs)) ↔ Fits d
to_bytes-Fits d = ((λ (bs, e). (to_bytes_inv d bs e).0), λ f. (encoding d, to_bytes_of_Fits d f))

-- With UUIDs of 16 bytes, a payload has exactly the size of its parts, three bytes of flags and two
-- bytes of header for each part that is there, and so it is at most 31 bytes long and never cut short.
pub length-to_bytes :
    (d : AdvertisingData) (payload : List ℕ)
    → All IsUuid d.services
    → to_bytes d ≡ ok payload
    → (length payload ≡ payload_size d) × (length payload ≤ 31)
length-to_bytes d payload u e =
    let i = to_bytes_inv d payload e in
    (ap length i.1 ∙ length-encoding d u, omega (arith, ap length i.1, length-encoding d u, i.0))
