-- ===== src/Tests/Android.antt =====
-- The session of the Android example at concrete inputs.
use btstack_gatt_rs.Prelude.{
  ◌≤◌, ◌≡◌, refl, arith, true, false, [], ◌∷◌, none, some, ok, err, count, remove_at,
}
use btstack_gatt_rs.Android.{
  run_called_twice, running, ended, stop_server, unpolled, waiting, Session, references,
  drop_future, poll_future, new_server, connection_closed,
}
use btstack_gatt_rs.Android.Moves.{
  Ending, is_ended, is_waiting, runs, polls, opened, Reach, start_of, later,
}
use btstack_gatt_rs.Android.Release.{session_released}

-- `run` has been called twice; then the first future is polled, and then the other.
abbrev twice : Session
twice = record opened { futures = unpolled ∷ unpolled ∷ [] }

abbrev first_waits : Session
first_waits = (poll_future none 0 twice).0

first_waits-Reach : Reach first_waits
unfolding poll_future remove_at
first_waits-Reach =
    later (later (later start_of (runs (omega arith))) (runs (omega arith))) (polls none 0)

one_waits : first_waits.futures ≡ waiting ∷ unpolled ∷ []
unfolding poll_future remove_at
one_waits = refl

second_refused : (poll_future none 1 first_waits).1 ≡ some (err run_called_twice)
unfolding poll_future remove_at
second_refused = refl

-- Dropping the future that waits ends the thread; dropping the other does not.
waiting_dropped : (drop_future none 0 first_waits).server.thread ≡ ended none
unfolding poll_future drop_future remove_at
waiting_dropped = refl

unpolled_dropped : (drop_future none 1 first_waits).server.thread ≡ running
unfolding poll_future drop_future remove_at
unpolled_dropped = refl

closed : new_server 0xffff_ffff true (ok tt) (ok tt) ≡ err connection_closed
unfolding new_server
closed = refl

session_released_example :
    (count is_waiting first_waits.futures ≤ 1)
    × ((o : Ending) → is_ended (stop_server o first_waits.server).thread ≡ true)
    × (first_waits.server.completion ≡ false
        → count is_waiting first_waits.futures ≡ 0
        → is_ended first_waits.server.thread ≡ true)
    × (references first_waits ≡ 0 → is_ended first_waits.server.thread ≡ true)
session_released_example = session_released first_waits first_waits-Reach
