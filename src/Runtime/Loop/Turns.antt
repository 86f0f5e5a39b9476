-- ===== src/Runtime/Loop/Turns.antt =====
-- The invariant of the loop from turn to turn (btstack-core/src/runtime.rs, `run`).
use btstack_gatt_rs.Prelude.{
  ℕ, ◌≡◌, inl, inr, List, [], ◌∷◌, ◌++◌, some, ok, err, arith, Option-cases, subst, if◌then◌else◌,
}
use btstack_gatt_rs.Runtime.Bridge.{Stack, Transport}
use btstack_gatt_rs.Runtime.Bridge.Worker.{Worker}
use btstack_gatt_rs.Runtime.Drain.{drain}
use btstack_gatt_rs.Runtime.Loop.{
  Loop, Turn, Step, goes, finishes, fails, panics, take_commands, pump, check_clock, handle_events,
  after_pump, after_commands, turn, run,
}
use btstack_gatt_rs.Runtime.Loop.Service.{
  Sound, Keeps, KeepsWorker, drain-After, pump-Keeps, check_clock-Keeps, take_commands-Keeps,
}

module _ {K : Stack} {R : Transport} {App : Type 0} where
  handle_events-Keeps :
      (fuel elapsed : ℕ) (l : Loop K R App) (w : Worker K R App) (r : Step (Loop K R App))
      → Sound w l.started
      → handle_events fuel elapsed l w ≡ some r
      → Keeps r
  unfolding handle_events
  handle_events-Keeps fuel elapsed l w r s h = elim (Option-cases (drain fuel w l.started)) [
    | inl e ↦ absurd (ground arith)
    | inr (ok (v, b), e) ↦
        let l' = record l { worker = v; started = b } in
        subst Keeps {x = check_clock elapsed l'} (ground arith)
          (check_clock-Keeps elapsed l' (drain-After fuel w l.started (ok (v, b)) s e))
    | inr (err (v, x), e) ↦
        subst Keeps {x = fails (record l { worker = v }) x} (ground arith)
          (drain-After fuel w l.started (err (v, x)) s e)
  ]

  after_pump-Keeps :
      (fuel elapsed : ℕ) (l : Loop K R App) (p : Step (Worker K R App)) (r : Step (Loop K R App))
      → l.started.told ≡ (if l.started.started then 1 else 0)
      → KeepsWorker p
      → after_pump fuel elapsed l p ≡ some r
      → Keeps r
  unfolding after_pump
  after_pump-Keeps fuel elapsed l (goes w) r t v h =
      handle_events-Keeps fuel elapsed l w r (record { state = v; told = t }) h
  after_pump-Keeps fuel elapsed l (finishes w) r t v h =
      subst Keeps {x = finishes (record l { worker = w })} (ground arith)
        (record { state = v; told = t })
  after_pump-Keeps fuel elapsed l (fails w e) r t v h =
      subst Keeps {x = fails (record l { worker = w }) e} (ground arith) v
  after_pump-Keeps fuel elapsed l (panics w) r t v h =
      subst Keeps {x = panics (record l { worker = w })} (ground arith) v

  after_commands-Keeps :
      (fuel elapsed : ℕ) (c r : Step (Loop K R App))
      → Keeps c
      → after_commands fuel elapsed c ≡ some r
      → Keeps r
  unfolding after_commands
  after_commands-Keeps fuel elapsed (goes l) r k h =
      after_pump-Keeps fuel elapsed l (pump l.worker) r k.told (pump-Keeps l.worker k.state) h
  after_commands-Keeps fuel elapsed (finishes l) r k h =
      subst Keeps {x = finishes l} (ground arith) k
  after_commands-Keeps fuel elapsed (fails l e) r k h = subst Keeps {x = fails l e} (ground arith) k
  after_commands-Keeps fuel elapsed (panics l) r k h = subst Keeps {x = panics l} (ground arith) k

  turn-Keeps :
      (fuel : ℕ) (t : Turn) (l : Loop K R App) (r : Step (Loop K R App))
      → Sound l.worker l.started
      → turn fuel t l ≡ some r
      → Keeps r
  unfolding turn
  turn-Keeps fuel t l r s h =
      let l' : Loop K R App = record l { commands = l.commands ++ t.arrived; closed = t.closed } in
      after_commands-Keeps fuel t.elapsed (take_commands 128 l') r
        (take_commands-Keeps 128 l' (record { state = s.state; told = s.told })) h

  -- If the loop starts in a well-formed state, then throughout it, and at its end however it ends, the
  -- state is well formed, whatever commands, packets, events and callbacks come; and while it goes on
  -- or finishes, `start` has been told that the server is ready exactly once if advertising has
  -- started, and otherwise not at all.
  pub run-Keeps :
      (fuel : ℕ) (ts : List Turn) (l : Loop K R App) (r : Step (Loop K R App))
      → Sound l.worker l.started
      → run fuel ts l ≡ some r
      → Keeps r
  unfolding run
  run-Keeps fuel [] l r s h = subst Keeps {x = goes l} (ground arith) s
  run-Keeps fuel (t ∷ ts) l r s h = elim (Option-cases (turn fuel t l)) [
    | inl e ↦ absurd (ground arith)
    | inr (goes l', e) ↦ run-Keeps fuel ts l' r (turn-Keeps fuel t l (goes l') s e) (ground arith)
    | inr (finishes l', e) ↦
        subst Keeps {x = finishes l'} (ground arith) (turn-Keeps fuel t l (finishes l') s e)
    | inr (fails l' x, e) ↦
        subst Keeps {x = fails l' x} (ground arith) (turn-Keeps fuel t l (fails l' x) s e)
    | inr (panics l', e) ↦
        subst Keeps {x = panics l'} (ground arith) (turn-Keeps fuel t l (panics l') s e)
  ]
