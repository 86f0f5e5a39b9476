-- ===== src/Advertising.antt =====
-- btstack-core/src/advertising.rs: the builder of the legacy advertising payload and its encoder.
-- A `String` is the list of its UTF-8 bytes; `usize` has 64 bits.
pub mod Fields
pub mod Bounds
pub mod Layout
use btstack_gatt_rs.Prelude.{
  ℕ, ◌+◌, ◌-◌, ◌*◌, ◌%◌, Bool, List, [], ◌∷◌, ◌++◌, Option, none, some, Result, ok, err, ◌>>=◌,
  ok_or, if◌then◌else◌, ltb, length, is_empty, reverse, any, ◌==◌, list_beq, nat_eq, list_eq, ◌>>◌,
}
use btstack_gatt_rs.Types.{
  Uuid, Error, advertising_name_empty, advertising_too_large, advertising_exceeds_31,
}

pub record AdvertisingData : Type 0 where
  pub name : Option (List ℕ)
  pub services : List Uuid

abbrev pub new : AdvertisingData
new = record { name = none; services = [] }

unfoldable pub local_name : AdvertisingData → List ℕ → AdvertisingData
local_name d name = record d { name = some name }

-- `services.contains(&uuid)`.
unfoldable pub contains : List Uuid → Uuid → Bool
unfolding any list_beq
contains services uuid = any (λ u. u == uuid) services

unfoldable pub service_uuid : AdvertisingData → Uuid → AdvertisingData
unfolding contains
service_uuid d uuid =
    if contains d.services uuid then d else record d { services = d.services ++ uuid ∷ [] }

abbrev pub usize_mod : ℕ
usize_mod = 0x1_0000_0000_0000_0000

abbrev pub checked_add : ℕ → ℕ → Option ℕ
checked_add a b = if ltb (a + b) usize_mod then some (a + b) else none

abbrev pub checked_mul : ℕ → ℕ → Option ℕ
checked_mul a b = if ltb (a * b) usize_mod then some (a * b) else none

abbrev pub and_then : Option ℕ → (ℕ → Option ℕ) → Option ℕ
and_then none f = none
and_then (some n) f = f n

unfoldable pub name_length : Option (List ℕ) → Result ℕ Error
name_length none = ok 0
name_length (some name) =
    if is_empty name
    then err advertising_name_empty
    else ok_or (checked_add (length name) 2) advertising_too_large

unfoldable pub services_length : List Uuid → Result ℕ Error
services_length services =
    if is_empty services
    then ok 0
    else ok_or (and_then (checked_mul (length services) 16) (λ n. checked_add n 2))
        advertising_too_large

-- `for uuid in &self.services { data.extend(uuid.iter().rev()) }`.
unfoldable pub reversed_uuids : List Uuid → List ℕ
reversed_uuids [] = []
reversed_uuids (u ∷ us) = reverse u ++ reversed_uuids us

unfoldable pub service_field : ℕ → List Uuid → List ℕ
unfolding reversed_uuids
service_field services_len services =
    if is_empty services then [] else ((services_len - 1) % 256) ∷ 0x07 ∷ reversed_uuids services

unfoldable pub name_field : Option (List ℕ) → List ℕ
name_field none = []
name_field (some name) = ((length name + 1) % 256) ∷ 0x09 ∷ name

unfoldable pub to_bytes : AdvertisingData → Result (List ℕ) Error
unfolding name_length services_length service_field name_field
to_bytes d = do
  name_len ← name_length d.name
  services_len ← services_length d.services
  total ←
      ok_or (and_then (checked_add 3 name_len) (λ n. checked_add n services_len))
        advertising_too_large
  if ltb 31 total
      then err advertising_exceeds_31
      else ok (2 ∷ 1 ∷ 6 ∷ (service_field services_len d.services ++ name_field d.name))
