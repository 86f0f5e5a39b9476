-- ===== src/Tests/Units/Sessions.antt =====
-- The tests of examples/gatt-peripheral-android/native/src/lib.rs.
use btstack_gatt_rs.Prelude.{
  ◌≡◌, refl, Bool, true, false, [], ◌∷◌, Option, none, some, Result, ok, err, remove_at, nat_eq,
}
use btstack_gatt_rs.Android.{
  ServerError, Session, unpolled, running, stop_server, poll_future, drop_future,
}
use btstack_gatt_rs.Android.Moves.{is_ended}
use btstack_gatt_rs.Tests.Units.{asserts}

-- The thread of the tests waits for the flag and then sends a success.
abbrev outcome : Option (Result (Unit {0}) ServerError)
outcome = some (ok tt)

abbrev session : Session
session = record {
  server = record { stop = false; worker = true; completion = true; thread = running };
  handles = 1;
  futures = [];
}

abbrev worker_released : Session → Bool
worker_released s = is_ended s.server.thread

-- `server.clone().run()`, and `server.run()` with the last handle.
abbrev clone_and_run : Session → Session
clone_and_run s = record s { futures = unpolled ∷ s.futures }

abbrev run_last : Session → Session
run_last s = record s { handles = 0; futures = unpolled ∷ s.futures }

abbrev stop_session : Session → Session
stop_session s = record s { server = stop_server outcome s.server }

abbrev is_pending : Option (Result (Unit {0}) ServerError) → Bool
is_pending none = true
is_pending (some r) = false

abbrev is_ready_ok : Option (Result (Unit {0}) ServerError) → Bool
is_ready_ok none = false
is_ready_ok (some (ok u)) = true
is_ready_ok (some (err e)) = false

abbrev is_ready_err : Option (Result (Unit {0}) ServerError) → Bool
is_ready_err none = false
is_ready_err (some (ok u)) = false
is_ready_err (some (err e)) = true

abbrev cancelling_future_joins_worker_before_returning : Bool
cancelling_future_joins_worker_before_returning =
    let (polled, answer) = poll_future outcome 0 (clone_and_run session) in
    let dropped = drop_future outcome 0 polled in
    asserts
      (is_pending answer ∷ worker_released dropped ∷ worker_released (stop_session dropped) ∷ [])

cancelling_passes : cancelling_future_joins_worker_before_returning ≡ true
unfolding poll_future drop_future stop_server remove_at
cancelling_passes = refl

abbrev stop_before_first_poll_releases_worker_and_completes : Bool
stop_before_first_poll_releases_worker_and_completes =
    let stopped = stop_session session in
    let (polled, answer) = poll_future outcome 0 (clone_and_run stopped) in
    let (again, duplicate) = poll_future outcome 0 (run_last polled) in
    asserts (worker_released stopped ∷ is_ready_ok answer ∷ is_ready_err duplicate ∷ [])

stop_first_passes : stop_before_first_poll_releases_worker_and_completes ≡ true
unfolding poll_future stop_server remove_at
stop_first_passes = refl
