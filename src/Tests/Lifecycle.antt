-- ===== src/Tests/Lifecycle.antt =====
-- The start and the end of a server at concrete inputs.
use mathlib.Core.Option
use btstack_gatt_rs.Prelude.{
  ℕ, ◌+◌, ◌≡◌, ◌↔◌, refl, true, false, List, [], ◌∷◌, none, some, Result, ok, err, arith, any, leb,
}
use btstack_gatt_rs.Types.{IsUuid, Error, already_active, external}
use btstack_gatt_rs.Advertising.{AdvertisingData, new, service_uuid, local_name}
use btstack_gatt_rs.Advertising.Layout.{interpret, scan}
use btstack_gatt_rs.Gatt.{GattConnection, error}
use btstack_gatt_rs.Gatt.Validity.{IsValidDatabase, name_only}
use btstack_gatt_rs.Runtime.Bridge.Worker.{Worker}
use btstack_gatt_rs.Runtime.Loop.{Loop, Step, fails}
use btstack_gatt_rs.Runtime.Start.{reserve, conclude}
use btstack_gatt_rs.Runtime.Start.Reserve.{Advertises, reserve-Advertises}
use btstack_gatt_rs.Runtime.Start.Conclusion.{Concluded, conclude-Concluded}
use btstack_gatt_rs.Server.{GattServerBuilder, advertise_service_uuid, start}
use btstack_gatt_rs.Server.Advertised.{Added, configured, advertise_service_uuid-start}
use btstack_gatt_rs.Tests.World.{uuid, counters, toy, inbox, worker, started}

abbrev zhu_name : List ℕ
zhu_name = 90 ∷ 104 ∷ 117 ∷ []

reserve-Advertises_example :
    ((reserve false zhu_name (counters ∷ []) none).0 ≡ ok (name_only zhu_name)) ↔ (
      (false ≡ false)
      × IsValidDatabase zhu_name (counters ∷ [])
      × Advertises zhu_name none (name_only zhu_name))
reserve-Advertises_example =
    reserve-Advertises false zhu_name (counters ∷ []) none (name_only zhu_name)

second_refused : (reserve true zhu_name (counters ∷ []) none).0 ≡ err already_active
unfolding reserve btstack_gatt_rs.Gatt.Validate.validate btstack_gatt_rs.Advertising.contains
    btstack_gatt_rs.Gatt.has_bits
second_refused = refl

-- A server as an application builds it.
abbrev built : GattServerBuilder ℕ ℕ
built = record { transport = 0; name = zhu_name; services = counters ∷ []; advertising = none }

abbrev built_bytes : List ℕ
built_bytes =
    2 ∷ 1 ∷ 6 ∷ 17 ∷ 7 ∷ 1 ∷ 202 ∷ 220 ∷ 36 ∷ 14 ∷ 229 ∷ 169 ∷ 224 ∷ 147 ∷ 243 ∷ 163 ∷ 181 ∷ 0 ∷ 0
    ∷ 64 ∷ 110 ∷ []

built_started : (start false (advertise_service_uuid built (uuid 1))).0 ≡ ok built_bytes
unfolding start advertise_service_uuid btstack_gatt_rs.Gatt.Validate.validate reserve
    btstack_gatt_rs.Advertising.contains btstack_gatt_rs.Gatt.has_bits service_uuid
built_started = refl

uuid_one : IsUuid (uuid 1)
uuid_one = record { sixteen = refl; in_range = ground arith }

advertise_service_uuid-start_example :
    (d : AdvertisingData) × (Option.map interpret (scan 4 built_bytes) ≡ some d)
    × Added (uuid 1) (configured none) d
    × IsValidDatabase zhu_name (counters ∷ [])
advertise_service_uuid-start_example =
    advertise_service_uuid-start false built (uuid 1) built_bytes uuid_one tt built_started

-- The loop has failed on the transport.
abbrev lost : Step (Loop toy inbox ℕ)
lost =
    fails
      (record {
        worker = worker [] [] [];
        started = started;
        commands = [];
        closed = false;
        answers = [];
      })
      (external [])

lost_late : any (leb (100 + 3000)) (101 ∷ 3100 ∷ []) ≡ true
unfolding any
lost_late = refl

conclude-Concluded_example :
    (w : Worker toy inbox ℕ) × (r : Result (Unit {0}) Error) × (conclude 100 (101 ∷ 3100 ∷ []) lost
      ≡ some (w, r))
    × Concluded lost w r
conclude-Concluded_example = conclude-Concluded 100 (101 ∷ 3100 ∷ []) lost lost_late (λ e. cc)
