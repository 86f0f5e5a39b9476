-- ===== src/Server/Advertised.antt =====
-- What a server advertises (btstack-gatt/src/lib.rs).
use mathlib.Core.Option
use btstack_gatt_rs.Prelude.{
  ℕ, ◌≡◌, Bool, List, [], ◌∷◌, ◌++◌, none, some, ok, All, ◌⊎◌, true, Option, refl, arith, any,
  any-Absent, Absent, list_eq, list_beq, list_beq_iff, nat_eq, ◌==◌, Bool-cases, inl, inr,
}
use btstack_gatt_rs.Types.{Uuid, IsUuid}
use btstack_gatt_rs.Advertising.{AdvertisingData, service_uuid, contains, to_bytes}
use btstack_gatt_rs.Advertising.Bounds.{to_bytes_of_Fits}
use btstack_gatt_rs.Advertising.Layout.{interpret, scan, scan-to_bytes}
use btstack_gatt_rs.Gatt.Validity.{IsValidDatabase}
use btstack_gatt_rs.Runtime.Start.Reserve.{reserve-Advertises}
use btstack_gatt_rs.Server.{GattServerBuilder, unwrap_or_default, advertise_service_uuid, start}

All-snoc {ℓ κ} :
    {A : Type ℓ} (P : A → Type κ) (xs : List A) (x : A) → All P xs → P x → All P (xs ++ x ∷ [])
All-snoc P [] x h p = (p, tt)
All-snoc P (y ∷ ys) x h p = (h.0, All-snoc P ys x h.1 p)

service_uuid-All :
    (d : AdvertisingData) (uuid : Uuid)
    → All IsUuid d.services
    → IsUuid uuid
    → All IsUuid (service_uuid d uuid).services
unfolding service_uuid
service_uuid-All d uuid h p = elim (Bool-cases (contains d.services uuid)) [
  | inl e ↦ rw (e, service_uuid) h
  | inr e ↦ rw (e, service_uuid) (All-snoc IsUuid d.services uuid h p)
]

-- The advertising data that was configured; without any, it is empty.
abbrev pub configured : Option AdvertisingData → AdvertisingData
configured none = record { name = none; services = [] }
configured (some d) = d

abbrev pub IsIn : Uuid → List Uuid → Type 0
IsIn uuid [] = ⊥
IsIn uuid (u ∷ us) = (u ≡ uuid) ⊎ IsIn uuid us

-- These data with this UUID at the end, unless it is there.
pub record Added (uuid : Uuid) (before after : AdvertisingData) : Type 0 where
  pub name : after.name ≡ before.name
  pub services :
      (IsIn uuid before.services × (after.services ≡ before.services))
      ⊎ (Absent uuid before.services × (after.services ≡ before.services ++ uuid ∷ []))

any-IsIn : (us : List Uuid) (uuid : Uuid) → any (λ u. u == uuid) us ≡ true → IsIn uuid us
unfolding any
any-IsIn [] uuid h = cc
any-IsIn (u ∷ us) uuid h = elim (Bool-cases (list_beq u uuid)) [
  | inl e ↦ inl ((list_beq_iff u uuid).0 e)
  | inr e ↦ inr (any-IsIn us uuid (ground (arith, e, h)))
]

service_uuid-Added :
    (o : Option AdvertisingData) (uuid : Uuid)
    → Added uuid (configured o) (service_uuid (unwrap_or_default o) uuid)
unfolding service_uuid contains
service_uuid-Added none uuid = record { name = refl; services = inr (tt, refl) }
service_uuid-Added (some d) uuid = elim (Bool-cases (contains d.services uuid)) [
  | inl e ↦ record {
    name = ground (arith, e);
    services = inl (any-IsIn d.services uuid e, ground (arith, e));
  }
  | inr e ↦ record {
    name = ground (arith, e);
    services = inr (any-Absent uuid d.services e, ground (arith, e));
  }
]

module _ {T App : Type 0} where
  -- A server that advertises a service UUID, once it starts, sends exactly that: reading its payload back
  -- gives the advertising data that was configured, with the UUID behind its others unless it is one of
  -- them, or the UUID alone without a name, if none was; and its name and its services are a valid
  -- database.
  pub advertise_service_uuid-start :
      (active : Bool) (b : GattServerBuilder T App) (uuid : Uuid) (bytes : List ℕ)
      → IsUuid uuid
      → All IsUuid (unwrap_or_default b.advertising).services
      → (start active (advertise_service_uuid b uuid)).0 ≡ ok bytes
      → (d : AdvertisingData) × (Option.map interpret (scan 4 bytes) ≡ some d)
        × Added uuid (configured b.advertising) d
        × IsValidDatabase b.name b.services
  unfolding start advertise_service_uuid
  advertise_service_uuid-start active b uuid bytes p h e =
      let d = service_uuid (unwrap_or_default b.advertising) uuid in
      let (a, v, (f, g)) = (reserve-Advertises active b.name b.services (some d) bytes).0 e in
      let encoded : to_bytes d ≡ ok bytes = rw g (to_bytes_of_Fits d f) in
      (
        d,
        scan-to_bytes d bytes (service_uuid-All (unwrap_or_default b.advertising) uuid h p) encoded,
        service_uuid-Added b.advertising uuid,
        v,
      )
