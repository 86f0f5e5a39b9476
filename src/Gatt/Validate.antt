-- ===== src/Gatt/Validate.antt =====
-- `validate` of btstack-core/src/gatt.rs. The set of UUIDs seen is the list of them; the counter does
-- not overflow.
use btstack_gatt_rs.Prelude.{
  ℕ, ◌+◌, Bool, true, false, List, [], ◌∷◌, Option, none, some, Result, ok, err, ◌>>=◌,
  if◌then◌else◌, ◌&&◌, ◌||◌, ltb, length, is_empty, ◌==◌, nat_eq,
}
use btstack_gatt_rs.Types.{
  Uuid, Error, advertising_name_length, no_service, service_without_characteristic,
  duplicate_characteristic, missing_handler, too_many_characteristics,
}
use btstack_gatt_rs.Advertising
use btstack_gatt_rs.Gatt.{GattCharacteristic, GattService, has_bits}

abbrev pub is_none {ℓ} : {A : Type ℓ} → Option A → Bool
is_none none = true
is_none (some a) = false

-- The variables `uuids` and `count` of the loops.
pub record Seen : Type 0 where
  pub uuids : List Uuid
  pub count : ℕ

module _ {App : Type 0} where
  unfoldable pub lacks_handler : GattCharacteristic App → Bool
  lacks_handler c =
      (c.properties == 0)
      || (has_bits c.properties 2 && is_none c.read)
      || (has_bits c.properties 12 && is_none c.write)

  -- The inner loop's body.
  unfoldable pub check_characteristic : GattCharacteristic App → Seen → Result Seen Error
  unfolding lacks_handler
  check_characteristic c s =
      if Advertising.contains s.uuids c.uuid
      then err duplicate_characteristic
      else if lacks_handler c
      then err missing_handler
      else ok (record { uuids = c.uuid ∷ s.uuids; count = s.count + 1 })

  unfoldable pub check_characteristics : List (GattCharacteristic App) → Seen → Result Seen Error
  unfolding check_characteristic
  check_characteristics [] s = ok s
  check_characteristics (c ∷ cs) s = do s' ← check_characteristic c s; check_characteristics cs s'

  unfoldable pub check_services : List (GattService App) → Seen → Result Seen Error
  unfolding check_characteristics
  check_services [] s = ok s
  check_services (v ∷ vs) s =
      if is_empty v.characteristics
      then err service_without_characteristic
      else do s' ← check_characteristics v.characteristics s; check_services vs s'

  unfoldable pub validate : List ℕ → List (GattService App) → Result (List ℕ) Error
  unfolding check_services Advertising.to_bytes Advertising.local_name
  validate name services =
      if is_empty name || ltb 26 (length name)
      then err advertising_name_length
      else if is_empty services
      then err no_service
      else do
        seen ← check_services services (record { uuids = []; count = 0 })
        if ltb 64 seen.count || ltb 16 (length services)
            then err too_many_characteristics
            else Advertising.to_bytes (Advertising.local_name Advertising.new name)
