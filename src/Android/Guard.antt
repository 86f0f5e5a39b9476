-- ===== src/Android/Guard.antt =====
-- What keeps the thread of a session joinable (examples/gatt-peripheral-android/native/src/lib.rs).
use btstack_gatt_rs.Prelude.{
  ◌+◌, ◌≤◌, ◌≡◌, refl, true, false, arith, if◌then◌else◌, count, Bool-cases, inl, inr, ◌==◌, nat_eq,
}
use btstack_gatt_rs.Android.{
  Thread, running, sent, ended, NativeServer, join_with, stop_server, Session, references, release,
  drop_waiting,
}
use btstack_gatt_rs.Android.Moves.{Ending, is_ended, is_waiting, opened}

-- Where a reference may just have gone.
pub record Guarded (s : Session) : Type 0 where
  pub joinable : s.server.worker ≡ false → is_ended s.server.thread ≡ true
  pub awaited :
      s.server.completion ≡ false → count is_waiting s.futures ≡ 0 → is_ended s.server.thread ≡ true
  pub single : count is_waiting s.futures + (if s.server.completion then 1 else 0) ≤ 1

pub record Safe (s : Session) : Type 0 where
  pub guarded : Guarded s
  pub owned : references s ≡ 0 → is_ended s.server.thread ≡ true

pub opened-Safe : Safe opened
unfolding count
opened-Safe = record {
  guarded = record { joinable = λ h. cc; awaited = λ h. cc; single = omega arith };
  owned = λ h. absurd (omega (arith, h));
}

pub join_with_lem : (o : Ending) (t : Thread) → is_ended (join_with o t) ≡ true
join_with_lem o running = refl
join_with_lem o (sent r) = refl
join_with_lem o (ended p) = refl

pub stop_server_ended :
    (o : Ending) (s : NativeServer)
    → (s.worker ≡ false → is_ended s.thread ≡ true)
    → is_ended (stop_server o s).thread ≡ true
unfolding stop_server
stop_server_ended o s h = ground (arith, h, join_with_lem o s.thread)

pub stop_server_completion :
    (o : Ending) (s : NativeServer) → (stop_server o s).completion ≡ s.completion
unfolding stop_server
stop_server_completion o s = ground arith

-- Where the thread has ended only the number of futures that wait is left to show.
pub ended-Safe :
    (s : Session)
    → is_ended s.server.thread ≡ true
    → count is_waiting s.futures + (if s.server.completion then 1 else 0) ≤ 1
    → Safe s
ended-Safe s e n = record {
  guarded = record { joinable = λ h. e; awaited = λ h k. e; single = n };
  owned = λ h. e;
}

pub stop-Safe :
    (o : Ending) (s : Session)
    → (s.server.worker ≡ false → is_ended s.server.thread ≡ true)
    → count is_waiting s.futures + (if s.server.completion then 1 else 0) ≤ 1
    → Safe (record s { server = stop_server o s.server })
stop-Safe o s j n =
    ended-Safe (record s { server = stop_server o s.server }) (stop_server_ended o s.server j)
      (rw (stop_server_completion o s.server) n)

pub release-Safe : (o : Ending) (s : Session) → Guarded s → Safe (release o s)
unfolding release
release-Safe o s g = elim (Bool-cases (references s == 0)) [
  | inl h ↦ rw (h, release) (stop-Safe o s g.joinable g.single)
  | inr h ↦ rw (h, release) (record { guarded = g; owned = λ z. ground (arith, h, z) })
]

pub drop_waiting-Safe :
    (o : Ending) (s : Session)
    → (s.server.worker ≡ false → is_ended s.server.thread ≡ true)
    → count is_waiting s.futures + (if s.server.completion then 1 else 0) ≤ 1
    → Safe (drop_waiting o s)
unfolding drop_waiting
drop_waiting-Safe o s j n =
    release-Safe o (record s { server = stop_server o s.server }) (stop-Safe o s j n).guarded
