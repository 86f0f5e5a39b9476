-- ===== src/Advertising/Fields.antt =====
-- Lemmas on the parts of an encoded payload (btstack-core/src/advertising.rs).
use btstack_gatt_rs.Prelude.{
  ℕ, ◌+◌, ◌*◌, ◌≤◌, ◌<◌, ◌≡◌, refl, List, [], ◌∷◌, Option, none, some, ok, arith, length,
  length-append, length-reverse, All, reverse,
}
use btstack_gatt_rs.Types.{Uuid, IsUuid}
use btstack_gatt_rs.Advertising.{
  AdvertisingData, name_length, services_length, reversed_uuids, service_field, name_field,
}

-- What the two optional fields take: two bytes of header each, and their contents.
abbrev pub name_size : Option (List ℕ) → ℕ
name_size none = 0
name_size (some name) = length name + 2

abbrev pub services_size : List Uuid → ℕ
services_size [] = 0
services_size (u ∷ us) = length (u ∷ us) * 16 + 2

abbrev pub payload_size : AdvertisingData → ℕ
payload_size d = 3 + name_size d.name + services_size d.services

-- A name that is given is not empty.
abbrev pub HasText : Option (List ℕ) → Type 0
HasText none = Unit
HasText (some name) = 0 < length name

abbrev pub Fits : AdvertisingData → Type 0
Fits d = HasText d.name × (payload_size d ≤ 31)

pub name_length_lem :
    (n : Option (List ℕ)) → HasText n → name_size n ≤ 31 → name_length n ≡ ok (name_size n)
unfolding name_length
name_length_lem none t h = refl
name_length_lem (some []) t h = absurd (omega arith)
name_length_lem (some (x ∷ xs)) t h = ground arith

pub services_length_lem :
    (us : List Uuid) → services_size us ≤ 31 → services_length us ≡ ok (services_size us)
unfolding services_length
services_length_lem [] h = refl
services_length_lem (u ∷ us) h = ground arith

pub name_length_inv :
    (n : Option (List ℕ)) (k : ℕ) → name_length n ≡ ok k → HasText n × (k ≡ name_size n)
unfolding name_length
name_length_inv none k h = ground arith
name_length_inv (some []) k h = ground arith
name_length_inv (some (x ∷ xs)) k h = ground arith

pub services_length_inv :
    (us : List Uuid) (k : ℕ) → services_length us ≡ ok k → k ≡ services_size us
unfolding services_length
services_length_inv [] k h = ground arith
services_length_inv (u ∷ us) k h = ground arith

pub length-reversed_uuids :
    (us : List Uuid) → All IsUuid us → length (reversed_uuids us) ≡ length us * 16
unfolding reversed_uuids
length-reversed_uuids [] h = refl
length-reversed_uuids (u ∷ us) h = omega (
  arith,
  length-append (reverse u) (reversed_uuids us),
  length-reverse u,
  h.0.sixteen,
  length-reversed_uuids us h.1,
)

pub length-service_field :
    (us : List Uuid)
    → All IsUuid us
    → length (service_field (services_size us) us) ≡ services_size us
unfolding service_field
length-service_field [] h = refl
length-service_field (u ∷ us) h = omega (arith, length-reversed_uuids (u ∷ us) h)

pub length-name_field : (n : Option (List ℕ)) → length (name_field n) ≡ name_size n
unfolding name_field
length-name_field none = refl
length-name_field (some n) = omega arith
