-- ===== src/Android.antt =====
-- examples/gatt-peripheral-android/native/src: a session of the native library (lib.rs) and the server
-- that its thread runs (android.rs). Android/Output is the redirection of the output; other logging is
-- left out.
pub mod Moves
pub mod Guard
pub mod Release
pub mod Output
use btstack_gatt_rs.Prelude.{
  ℕ, ◌+◌, ◌^◌, Bool, true, false, List, [], ◌∷◌, Option, none, some, Result, ok, err, ◌>>=◌, ◌>>◌,
  if◌then◌else◌, leb, length, remove_at, ◌==◌, nat_eq,
}
use btstack_gatt_rs.Types.{Error}
use btstack_gatt_rs.Gatt.{GattConnection}
use btstack_gatt_rs.Peripheral.{Round, serve_until}

-- An error of the source is a message; here it is a constructor for each.
pub data ServerError : Type 0 where
  failed : Error → ServerError
  output_not_redirected connection_closed run_called_twice canceled : ServerError

-- `serve`: the flag, the descriptor's device, the start of the server, its loop, and its shutdown; the
-- results of the others' operations are arguments.
unfoldable pub serve :
    (List GattConnection → List GattConnection)
    → Bool
    → Result (Unit {0}) Error
    → Result (Unit {0}) Error
    → ℕ
    → List Round
    → Result (Unit {0}) Error
    → Option (Result (Unit {0}) Error)
unfolding serve_until
serve order stopped opened started tick rounds shutdown =
    if stopped then some (ok tt) else elim (opened >> started) [
      | err e ↦ some (err e)
      | ok u ↦ serve_until order none tick rounds shutdown
    ]

-- The thread of a session: `serve` runs and owns the descriptor; its result has been sent; the thread has
-- ended, after it has sent that result or by a panic.
pub data Thread : Type 0 where
  running : Thread
  sent : Result (Unit {0}) ServerError → Thread
  ended : Option (Result (Unit {0}) ServerError) → Thread

-- The flag, and whether `worker` and `completion` still hold their handles.
pub record NativeServer : Type 0 where
  pub stop : Bool
  pub worker : Bool
  pub completion : Bool
  pub thread : Thread

-- `map_err(failed)?`.
abbrev pub or_failed : {A : Type 0} → Result A Error → Result A ServerError
or_failed (ok a) = ok a
or_failed (err e) = err (failed e)

-- `NativeServer::new` on Android, with the results of the calls of the system. The descriptor is a 32-bit
-- pattern, negative from 2 ^ 31 on.
unfoldable pub new_server :
    ℕ → Bool → Result (Unit {0}) Error → Result (Unit {0}) Error → Result NativeServer ServerError
new_server fd redirected duplicated spawned =
    if redirected
    then (if leb (2 ^ 31) fd
        then err connection_closed
        else or_failed duplicated
          >> or_failed spawned
          >> ok (record { stop = false; worker = true; completion = true; thread = running }))
    else err output_not_redirected

-- How the thread ends, if it has not.
abbrev pub join_with : Option (Result (Unit {0}) ServerError) → Thread → Thread
join_with outcome running = ended outcome
join_with outcome (sent r) = ended (some r)
join_with outcome (ended o) = ended o

-- `stop`; `outcome` is how a thread that still runs will end.
unfoldable pub stop_server : Option (Result (Unit {0}) ServerError) → NativeServer → NativeServer
stop_server outcome s =
    if s.worker
    then record s { stop = true; worker = false; thread = join_with outcome s.thread }
    else record s { stop = true }

-- A future of `run`: its body has not begun, or it waits for the completion behind its guard.
pub data Future : Type 0 where
  unpolled waiting : Future

-- The references to a session: those of the application, and its futures that are neither done nor
-- dropped. The list of futures is in no order.
pub record Session : Type 0 where
  pub server : NativeServer
  pub handles : ℕ
  pub futures : List Future

abbrev pub references : Session → ℕ
references s = s.handles + length s.futures

-- A reference has gone; with the last one the server is dropped, which stops it.
unfoldable pub release : Option (Result (Unit {0}) ServerError) → Session → Session
unfolding stop_server
release outcome s =
    if references s == 0 then record s { server = stop_server outcome s.server } else s

-- The guard of a future that waits stops the server before its reference goes.
unfoldable pub drop_waiting : Option (Result (Unit {0}) ServerError) → Session → Session
unfolding stop_server release
drop_waiting outcome s = release outcome (record s { server = stop_server outcome s.server })

unfoldable pub drop_future : Option (Result (Unit {0}) ServerError) → ℕ → Session → Session
unfolding release drop_waiting
drop_future outcome i s = elim (remove_at i s.futures) [
  | none ↦ s
  | some (unpolled, rest) ↦ release outcome (record s { futures = rest })
  | some (waiting, rest) ↦ drop_waiting outcome (record s { futures = rest })
]

unfoldable pub drop_handle : Option (Result (Unit {0}) ServerError) → ℕ → Session → Session
unfolding release
drop_handle outcome others s = release outcome (record s { handles = others })

-- `completion.await`, in a session from which the future has been taken out.
unfoldable pub await_completion :
    Option (Result (Unit {0}) ServerError)
    → Session
    → Session × Option (Result (Unit {0}) ServerError)
unfolding drop_waiting
await_completion outcome s = elim s.server.thread [
  | running ↦ (record s { futures = waiting ∷ s.futures }, none)
  | sent r ↦ (drop_waiting outcome s, some r)
  | ended (some r) ↦ (drop_waiting outcome s, some r)
  | ended none ↦ (drop_waiting outcome s, some (err canceled))
]

-- The body of `run` from its beginning, on whether `completion` is still there.
unfoldable pub begin_run :
    Option (Result (Unit {0}) ServerError)
    → Bool
    → Session
    → Session × Option (Result (Unit {0}) ServerError)
unfolding release await_completion
begin_run outcome true s =
    await_completion outcome (record s { server = record s.server { completion = false } })
begin_run outcome false s = (release outcome s, some (err run_called_twice))

-- `none` is `Pending`.
unfoldable pub poll_future :
    Option (Result (Unit {0}) ServerError)
    → ℕ
    → Session
    → Session × Option (Result (Unit {0}) ServerError)
unfolding begin_run await_completion
poll_future outcome i s = elim (remove_at i s.futures) [
  | none ↦ (s, none)
  | some (waiting, rest) ↦ await_completion outcome (record s { futures = rest })
  | some (unpolled, rest) ↦ begin_run outcome s.server.completion (record s { futures = rest })
]
