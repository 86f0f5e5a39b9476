-- ===== src/Tests/Units/Payloads.antt =====
-- The tests of btstack-core/src/gatt.rs, btstack-core/src/advertising.rs and btstack-gatt/src/lib.rs.
use btstack_gatt_rs.Prelude.{
  ℕ, ◌≡◌, refl, Bool, true, false, List, [], ◌∷◌, ◌++◌, Option, none, some, Result, ok, err,
  returned, ◌==◌, nat_eq, list_eq, list_beq,
}
use btstack_gatt_rs.Types.{Uuid, Error, advertising_exceeds_31}
use btstack_gatt_rs.Advertising.{AdvertisingData, to_bytes, service_uuid, local_name, contains}
use btstack_gatt_rs.Advertising
use btstack_gatt_rs.Gatt.{
  GattService, ReadHandler, characteristic_new, allow_read, allow_notify, on_read, service_new,
  add_characteristic, has_bits,
}
use btstack_gatt_rs.Gatt.Validate.{validate}
use btstack_gatt_rs.Server.{
  GattServerBuilder, builder, set_name, advertise_service_uuid, advertising_data, start,
}
use btstack_gatt_rs.Server
use btstack_gatt_rs.Tests.Units.{asserts, is_err, repeat, has_length}

abbrev reads_empty : ReadHandler (Unit {0})
reads_empty c app = (app, returned (ok []))

abbrev test_service : GattService (Unit {0})
test_service =
    add_characteristic (service_new (repeat 16 0))
      (on_read (allow_read (characteristic_new (repeat 16 1))) reads_empty)

-- "test"
abbrev test_name : List ℕ
test_name = 116 ∷ 101 ∷ 115 ∷ 116 ∷ []

-- Three letters of three bytes each.
abbrev kana : List ℕ
kana = 227 ∷ 129 ∷ 130 ∷ 227 ∷ 129 ∷ 132 ∷ 227 ∷ 129 ∷ 134 ∷ []

abbrev advertising_limits_count_bytes_and_validate_handlers : Bool
advertising_limits_count_bytes_and_validate_handlers =
    let unread : GattService (Unit {0}) =
      add_characteristic (service_new (repeat 16 0))
        (allow_read (characteristic_new (repeat 16 1))) in
    let nine : List ℕ = 227 ∷ 129 ∷ 130 ∷ [] in
    asserts (
      has_length (validate (repeat 26 97) (test_service ∷ [])) 31
      ∷ is_err (validate (repeat 27 97) (test_service ∷ []))
      ∷ is_err (
          validate (nine ++ nine ++ nine ++ nine ++ nine ++ nine ++ nine ++ nine ++ nine)
            (test_service ∷ []))
      ∷ is_err (validate test_name (unread ∷ []))
      ∷ is_err (validate test_name (test_service ∷ test_service ∷ []))
      ∷ [])

limits_pass : advertising_limits_count_bytes_and_validate_handlers ≡ true
unfolding validate to_bytes local_name contains characteristic_new allow_read on_read service_new
    add_characteristic has_bits list_beq
limits_pass = refl

abbrev bytes_are : Result (List ℕ) Error → List ℕ → Bool
bytes_are (ok found) bytes = found == bytes
bytes_are (err e) bytes = false

abbrev flags_and_uuid_use_bluetooth_byte_order : Bool
flags_and_uuid_use_bluetooth_byte_order =
    let uuid : Uuid =
      0 ∷ 17 ∷ 34 ∷ 51 ∷ 68 ∷ 85 ∷ 102 ∷ 119 ∷ 136 ∷ 153 ∷ 170 ∷ 187 ∷ 204 ∷ 221 ∷ 238 ∷ 255 ∷ [] in
    asserts (
      bytes_are (to_bytes Advertising.new) (2 ∷ 1 ∷ 6 ∷ [])
      ∷ bytes_are (to_bytes (service_uuid Advertising.new uuid)) (
          2 ∷ 1 ∷ 6 ∷ 17 ∷ 7 ∷ 255 ∷ 238 ∷ 221 ∷ 204 ∷ 187 ∷ 170 ∷ 153 ∷ 136 ∷ 119 ∷ 102 ∷ 85 ∷ 68
          ∷ 51 ∷ 34 ∷ 17 ∷ 0 ∷ [])
      ∷ [])

byte_order_passes : flags_and_uuid_use_bluetooth_byte_order ≡ true
unfolding to_bytes service_uuid contains list_beq
byte_order_passes = refl

abbrev byte_limits_are_exact_and_never_truncate : Bool
byte_limits_are_exact_and_never_truncate =
    let uuid = service_uuid Advertising.new (repeat 16 1) in
    asserts (
      has_length (to_bytes (local_name Advertising.new (repeat 26 97))) 31
      ∷ is_err (to_bytes (local_name Advertising.new (repeat 27 97)))
      ∷ is_err (to_bytes (local_name Advertising.new []))
      ∷ has_length (to_bytes (local_name uuid (49 ∷ 50 ∷ 51 ∷ 52 ∷ 53 ∷ 54 ∷ 55 ∷ 56 ∷ []))) 31
      ∷ is_err (to_bytes (local_name uuid (49 ∷ 50 ∷ 51 ∷ 52 ∷ 53 ∷ 54 ∷ 55 ∷ 56 ∷ 57 ∷ [])))
      ∷ is_err (to_bytes (local_name uuid kana))
      ∷ has_length (to_bytes (service_uuid uuid (repeat 16 1))) 21
      ∷ is_err (to_bytes (service_uuid uuid (repeat 16 2)))
      ∷ [])

byte_limits_pass : byte_limits_are_exact_and_never_truncate ≡ true
unfolding to_bytes service_uuid local_name contains list_beq
byte_limits_pass = refl

-- A transport without any operation.
abbrev no_io : Unit {0}
no_io = tt

-- "GAP name"
abbrev gap_name : List ℕ
gap_name = 71 ∷ 65 ∷ 80 ∷ 32 ∷ 110 ∷ 97 ∷ 109 ∷ 101 ∷ []

abbrev unset : Option AdvertisingData → Bool
unset none = true
unset (some d) = false

abbrev uuid_opt_in_replaces_default_name_but_preserves_gap_name : Bool
uuid_opt_in_replaces_default_name_but_preserves_gap_name =
    let b : GattServerBuilder (Unit {0}) (Unit {0}) =
      advertise_service_uuid (set_name (builder no_io) gap_name) (repeat 16 1) in
    let plain : GattServerBuilder (Unit {0}) (Unit {0}) = builder no_io in
    asserts (
      (b.name == gap_name)
      ∷ elim b.advertising [ none ↦ false | some d ↦ has_length (to_bytes d) 21 ]
      ∷ unset plain.advertising
      ∷ [])

opt_in_passes : uuid_opt_in_replaces_default_name_but_preserves_gap_name ≡ true
unfolding to_bytes service_uuid contains list_beq builder set_name advertise_service_uuid
opt_in_passes = refl

-- The message that contains "31 bytes".
abbrev names_the_limit : Result (List ℕ) Error → Bool
names_the_limit (ok bytes) = false
names_the_limit (err e) = elim e [ advertising_exceeds_31 ↦ true | _ ↦ false ]

abbrev explicit_payload_is_extended_and_overflow_fails_before_io : Bool
explicit_payload_is_extended_and_overflow_fails_before_io =
    let named =
      advertising_data (builder no_io)
        (local_name Advertising.new (49 ∷ 50 ∷ 51 ∷ 52 ∷ 53 ∷ 54 ∷ 55 ∷ 56 ∷ 57 ∷ [])) in
    let b : GattServerBuilder (Unit {0}) (Unit {0}) =
      Server.service (advertise_service_uuid named (repeat 16 1)) (
        add_characteristic (service_new (repeat 16 1))
          (allow_notify (characteristic_new (repeat 16 2)))) in
    names_the_limit (start false b).0

explicit_payload_passes : explicit_payload_is_extended_and_overflow_fails_before_io ≡ true
unfolding to_bytes service_uuid local_name contains list_beq builder Server.service
    advertise_service_uuid advertising_data start btstack_gatt_rs.Runtime.Start.reserve validate
    characteristic_new allow_notify service_new add_characteristic has_bits
explicit_payload_passes = refl
