-- ===== src/Tests/Encoding.antt =====
-- Advertising data, databases and packets of btstack-core at concrete inputs.
use mathlib.Core.Option
use btstack_gatt_rs.Prelude.{ℕ, ◌≡◌, ◌↔◌, refl, List, [], ◌∷◌, none, some, ok, err, All, arith}
use btstack_gatt_rs.Types.{IsUuid, advertising_exceeds_31, duplicate_characteristic}
use btstack_gatt_rs.Advertising.{AdvertisingData, to_bytes}
use btstack_gatt_rs.Advertising.Fields.{Fits}
use btstack_gatt_rs.Advertising.Layout.{interpret, scan, scan-to_bytes}
use btstack_gatt_rs.Advertising.Bounds.{to_bytes-Fits}
use btstack_gatt_rs.Gatt.Validate.{validate}
use btstack_gatt_rs.Gatt.Validity.{IsValidDatabase, name_only, validate-IsValidDatabase}
use btstack_gatt_rs.Runtime.Packet.{
  validate_packet, WellFramed, event_packet, validate_packet-WellFramed,
}
use btstack_gatt_rs.Tests.World.{uuid, counters}

-- The name "Zhu" and one UUID.
abbrev zhu : AdvertisingData
zhu = record { name = some (90 ∷ 104 ∷ 117 ∷ []); services = uuid 1 ∷ [] }

abbrev zhu_bytes : List ℕ
zhu_bytes =
    2 ∷ 1 ∷ 6 ∷ 17 ∷ 7 ∷ 1 ∷ 202 ∷ 220 ∷ 36 ∷ 14 ∷ 229 ∷ 169 ∷ 224 ∷ 147 ∷ 243 ∷ 163 ∷ 181 ∷ 0 ∷ 0
    ∷ 64 ∷ 110 ∷ 4 ∷ 9 ∷ 90 ∷ 104 ∷ 117 ∷ []

zhu_encoded : to_bytes zhu ≡ ok zhu_bytes
unfolding to_bytes
zhu_encoded = refl

zhu-IsUuid : All IsUuid zhu.services
zhu-IsUuid = (record { sixteen = refl; in_range = ground arith }, tt)

-- Two UUIDs do not fit.
two_uuids_err :
    to_bytes (record { name = none; services = uuid 1 ∷ uuid 2 ∷ [] }) ≡ err advertising_exceeds_31
unfolding to_bytes
two_uuids_err = refl

scan-to_bytes_example : Option.map interpret (scan 4 zhu_bytes) ≡ some zhu
scan-to_bytes_example = scan-to_bytes zhu zhu_bytes zhu-IsUuid zhu_encoded

to_bytes-Fits_example : ((bs : List ℕ) × (to_bytes zhu ≡ ok bs)) ↔ Fits zhu
to_bytes-Fits_example = to_bytes-Fits zhu

validate-IsValidDatabase_example :
    (validate (90 ∷ []) (counters ∷ []) ≡ ok (name_only (90 ∷ [])))
    ↔ (IsValidDatabase (90 ∷ []) (counters ∷ []) × (name_only (90 ∷ []) ≡ name_only (90 ∷ [])))
validate-IsValidDatabase_example =
    validate-IsValidDatabase (90 ∷ []) (name_only (90 ∷ [])) (counters ∷ [])

-- The same characteristic in two services.
twice_err : validate (90 ∷ []) (counters ∷ counters ∷ []) ≡ err duplicate_characteristic
unfolding validate btstack_gatt_rs.Advertising.contains btstack_gatt_rs.Gatt.has_bits
twice_err = refl

validate_packet-WellFramed_example :
    (validate_packet (event_packet 5 (0 ∷ 64 ∷ [])) ≡ ok tt)
    ↔ WellFramed (event_packet 5 (0 ∷ 64 ∷ []))
validate_packet-WellFramed_example = validate_packet-WellFramed (event_packet 5 (0 ∷ 64 ∷ []))

event_ok : validate_packet (event_packet 5 (0 ∷ 64 ∷ [])) ≡ ok tt
unfolding validate_packet
event_ok = refl
