-- ===== src/Android/Release.antt =====
-- When a session has released its descriptor (examples/gatt-peripheral-android/native/src/lib.rs).
use btstack_gatt_rs.Prelude.{
  ℕ, ◌≤◌, ◌≡◌, refl, Bool, true, false, List, ◌∷◌, none, some, arith, remove_at, count,
  count-remove_at, Option-cases, inl, inr, nat_eq,
}
use btstack_gatt_rs.Android.{
  Thread, running, sent, ended, stop_server, Future, unpolled, waiting, Session, references,
  drop_waiting, drop_future, drop_handle, await_completion, begin_run, poll_future,
}
use btstack_gatt_rs.Android.Moves.{
  Ending, is_ended, is_waiting, Move, sends, returns, dies, stops, clones, runs, polls, drops,
  drops_handle, Reach, start_of, later,
}
use btstack_gatt_rs.Android.Guard.{
  Guarded, Safe, opened-Safe, stop_server_ended, ended-Safe, stop-Safe, release-Safe,
  drop_waiting-Safe,
}

-- A future begins to wait, or it is done.
await_completion-Safe :
    (o : Ending) (s : Session)
    → (s.server.worker ≡ false → is_ended s.server.thread ≡ true)
    → s.server.completion ≡ false
    → count is_waiting s.futures ≡ 0
    → Safe (await_completion o s).0
unfolding await_completion count
await_completion-Safe o s j c n = go s.server.thread refl
  where
    done : Safe (drop_waiting o s)
    done = drop_waiting-Safe o s j (rw (c, n) omega arith)

    waits : Safe (record s { futures = waiting ∷ s.futures })
    waits = record {
      guarded = record {
        joinable = j;
        awaited = λ h k. absurd (omega (arith, k));
        single = rw (c, n) omega arith;
      };
      owned = λ h. absurd (omega (arith, h));
    }

    go : (t : Thread) → s.server.thread ≡ t → Safe (await_completion o s).0
    go running e = rw (e, await_completion) waits
    go (sent r) e = rw (e, await_completion) done
    go (ended (some r)) e = rw (e, await_completion) done
    go (ended none) e = rw (e, await_completion) done

module _ (o : Ending) (i : ℕ) (s : Session) (v : Safe s) where
  -- A future that has not begun goes away.
  removed-Guarded :
      (rest : List Future)
      → remove_at i s.futures ≡ some (unpolled, rest)
      → Guarded (record s { futures = rest })
  removed-Guarded rest e =
      let n = count-remove_at is_waiting i s.futures rest unpolled e in
      let g = v.guarded in
      record {
        joinable = g.joinable;
        awaited = λ h k. g.awaited h (ground (arith, n, k));
        single = ground (arith, n, g.single);
      }

  -- No other future waits, and the completion has been taken.
  alone :
      (rest : List Future)
      → remove_at i s.futures ≡ some (waiting, rest)
      → (s.server.completion ≡ false) × (count is_waiting rest ≡ 0)
  alone rest e =
      let n = count-remove_at is_waiting i s.futures rest waiting e in
      (ground (arith, n, v.guarded.single), ground (arith, n, v.guarded.single))

  drop_future-Safe : Safe (drop_future o i s)
  unfolding drop_future
  drop_future-Safe = elim (Option-cases (remove_at i s.futures)) [
    | inl e ↦ rw (e, drop_future) v
    | inr ((unpolled, rest), e) ↦
        rw (e, drop_future) (release-Safe o (record s { futures = rest }) (removed-Guarded rest e))
    | inr ((waiting, rest), e) ↦
        let (c, n) = alone rest e in
        rw (e, drop_future)
          (drop_waiting-Safe o (record s { futures = rest }) v.guarded.joinable
            (rw (c, n) omega arith))
  ]

  begin_run-Safe :
      (rest : List Future)
      → remove_at i s.futures ≡ some (unpolled, rest)
      → (b : Bool) → s.server.completion ≡ b
      → Safe (begin_run o b (record s { futures = rest })).0
  unfolding begin_run
  begin_run-Safe rest e true c =
      let n = count-remove_at is_waiting i s.futures rest unpolled e in
      await_completion-Safe o
        (record s { server = record s.server { completion = false }; futures = rest })
        v.guarded.joinable refl (ground (arith, n, c, v.guarded.single))
  begin_run-Safe rest e false c =
      release-Safe o (record s { futures = rest }) (removed-Guarded rest e)

  poll_future-Safe : Safe (poll_future o i s).0
  unfolding poll_future
  poll_future-Safe = elim (Option-cases (remove_at i s.futures)) [
    | inl e ↦ rw (e, poll_future) v
    | inr ((waiting, rest), e) ↦
        let (c, n) = alone rest e in
        rw (e, poll_future)
          (await_completion-Safe o (record s { futures = rest }) v.guarded.joinable c n)
    | inr ((unpolled, rest), e) ↦
        rw (e, poll_future) (begin_run-Safe rest e s.server.completion refl)
  ]

Move-Safe : {s t : Session} → Move s t → Safe s → Safe t
unfolding drop_handle
Move-Safe {s} (sends r e) v = record {
  guarded = record {
    joinable = λ h. absurd (ground (arith, e, v.guarded.joinable h));
    awaited = λ h k. absurd (ground (arith, e, v.guarded.awaited h k));
    single = v.guarded.single;
  };
  owned = λ h. absurd (ground (arith, e, v.owned h));
}
Move-Safe {s} (returns r e) v =
    ended-Safe (record s { server = record s.server { thread = ended (some r) } }) refl
      v.guarded.single
Move-Safe {s} (dies e) v =
    ended-Safe (record s { server = record s.server { thread = ended none } }) refl v.guarded.single
Move-Safe {s} (stops o h) v = stop-Safe o s v.guarded.joinable v.guarded.single
Move-Safe {s} (clones h) v = record {
  guarded = record {
    joinable = v.guarded.joinable;
    awaited = v.guarded.awaited;
    single = v.guarded.single;
  };
  owned = λ k. absurd (omega (arith, k));
}
Move-Safe {s} (runs h) v = record {
  guarded = record {
    joinable = v.guarded.joinable;
    awaited = λ c k. v.guarded.awaited c (unfold count in omega (arith, k));
    single = unfold count in omega (arith, v.guarded.single);
  };
  owned = λ k. absurd (omega (arith, k));
}
Move-Safe {s} (polls o i) v = poll_future-Safe o i s v
Move-Safe {s} (drops o i) v = drop_future-Safe o i s v
Move-Safe {s} (drops_handle o others e) v =
    release-Safe o (record s { handles = others })
      (record {
        joinable = v.guarded.joinable;
        awaited = v.guarded.awaited;
        single = v.guarded.single;
      })

Reach-Safe : {s : Session} → Reach s → Safe s
Reach-Safe start_of = opened-Safe
Reach-Safe (later r m) = Move-Safe m (Reach-Safe r)

-- Whatever an application does with a session and however its thread ends: at most one future of `run`
-- waits; and the thread has ended, and with it the descriptor is released, as soon as `stop` has
-- returned, as soon as the future that has waited is done or dropped, and as soon as no reference is
-- left.
pub session_released :
    (s : Session)
    → Reach s
    → (count is_waiting s.futures ≤ 1)
      × ((o : Ending) → is_ended (stop_server o s.server).thread ≡ true)
      × (s.server.completion ≡ false
          → count is_waiting s.futures ≡ 0
          → is_ended s.server.thread ≡ true)
      × (references s ≡ 0 → is_ended s.server.thread ≡ true)
session_released s r =
    let v = Reach-Safe r in
    (
      omega (arith, v.guarded.single),
      (λ o. stop_server_ended o s.server v.guarded.joinable),
      v.guarded.awaited,
      v.owned,
    )
