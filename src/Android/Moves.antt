-- ===== src/Android/Moves.antt =====
-- What may happen to a session (examples/gatt-peripheral-android/native/src/lib.rs).
use btstack_gatt_rs.Prelude.{
  ℕ, suc, ◌<◌, ◌≡◌, Bool, true, false, [], ◌∷◌, Option, none, some, Result, nat_eq,
}
use btstack_gatt_rs.Android.{
  ServerError, Thread, running, sent, ended, stop_server, Future, unpolled, waiting, Session,
  references, drop_future, drop_handle, poll_future,
}

abbrev pub Ending : Type 0
Ending = Option (Result (Unit {0}) ServerError)

-- The thread has ended, and so it has given the descriptor back.
abbrev pub is_ended : Thread → Bool
is_ended running = false
is_ended (sent r) = false
is_ended (ended o) = true

abbrev pub is_waiting : Future → Bool
is_waiting unpolled = false
is_waiting waiting = true

-- What may happen to a session, in any order: its thread moves, or the application uses a reference.
pub data Move (s : Session) : Session → Type 0 where
  sends :
      (r : Result (Unit {0}) ServerError)
      → s.server.thread ≡ running
      → Move s (record s { server = record s.server { thread = sent r } })
  returns :
      (r : Result (Unit {0}) ServerError)
      → s.server.thread ≡ sent r
      → Move s (record s { server = record s.server { thread = ended (some r) } })
  dies :
      s.server.thread ≡ running
      → Move s (record s { server = record s.server { thread = ended none } })
  stops : (o : Ending) → 0 < references s → Move s (record s { server = stop_server o s.server })
  clones : 0 < s.handles → Move s (record s { handles = suc s.handles })
  runs : 0 < s.handles → Move s (record s { futures = unpolled ∷ s.futures })
  polls : (o : Ending) (i : ℕ) → Move s (poll_future o i s).0
  drops : (o : Ending) (i : ℕ) → Move s (drop_future o i s)
  drops_handle :
      (o : Ending) (others : ℕ) → s.handles ≡ suc others → Move s (drop_handle o others s)

abbrev pub opened : Session
opened = record {
  server = record { stop = false; worker = true; completion = true; thread = running };
  handles = 1;
  futures = [];
}

pub data Reach : Session → Type 0 where
  start_of : Reach opened
  later : {s t : Session} → Reach s → Move s t → Reach t
