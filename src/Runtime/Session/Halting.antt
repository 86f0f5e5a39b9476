-- ===== src/Runtime/Session/Halting.antt =====
-- A shutdown stops the loop (`shutdown` and `run` of btstack-core/src/runtime.rs).
use mathlib.Core.List.{append-nil, append_assoc, map-append}
use btstack_gatt_rs.Prelude.{
  ℕ, zero, suc, ◌<◌, ◌≡◌, refl, true, false, List, [], ◌∷◌, ◌++◌, some, Result, arith, length, sym,
  ◌∙◌, ap,
}
use btstack_gatt_rs.Types.{Error}
use btstack_gatt_rs.Runtime.Bridge.{Stack, Transport}
use btstack_gatt_rs.Runtime.Bridge.Worker.{Worker}
use btstack_gatt_rs.Runtime.Loop.Commands.{callers, answered}
use btstack_gatt_rs.Runtime.Loop.{
  Loop, Turn, Command, Step, stop, notify, finishes, on_notify, take_commands, turn, run,
}
use btstack_gatt_rs.Runtime.Session.{Joined, join_result, shutdown}

-- The commands ahead of the first stop.
unfoldable pub until_stop : List Command → List Command
until_stop [] = []
until_stop (stop ∷ cs) = []
until_stop (notify answer c uuid value ∷ cs) = notify answer c uuid value ∷ until_stop cs

module _ {K : Stack} {R : Transport} {App : Type 0} where
  -- The turn has ended the loop, and has answered those callers.
  pub record Halts (s : Step (Loop K R App)) (answers : List ℕ) : Type 0 where
    pub end : Loop K R App
    pub halted : s ≡ finishes end
    pub served : answered end ≡ answers

  answered-snoc :
      (l : Loop K R App) (w : Worker K R App) (cs : List Command) (answer : ℕ)
      (r : Result (Unit {0}) Error) (more : List ℕ)
      → answered (record l { worker = w; commands = cs; answers = l.answers ++ (answer, r) ∷ [] })
          ++ more
        ≡ answered l ++ answer ∷ more
  answered-snoc l w cs answer r more =
      ap (λ xs. xs ++ more) (map-append (λ p. p.0) l.answers ((answer, r) ∷ []))
      ∙ append_assoc (answered l) (answer ∷ []) more

  -- A stop among the commands that a turn takes ends the turn.
  take_commands-Halts :
      (left : ℕ) (l : Loop K R App) (before after : List Command)
      → l.commands ≡ before ++ stop ∷ after
      → length before < left
      → Halts (take_commands left l) (answered l ++ callers (until_stop (before ++ stop ∷ after)))
  unfolding take_commands until_stop
  take_commands-Halts zero l before after q h = absurd (omega arith)
  take_commands-Halts (suc left) l [] after q h = record {
    end = record l { commands = after };
    halted = rw (q, take_commands) refl;
    served = sym (append-nil (answered l));
  }
  take_commands-Halts (suc left) l (stop ∷ before) after q h = record {
    end = record l { commands = before ++ stop ∷ after };
    halted = rw (q, take_commands) refl;
    served = sym (append-nil (answered l));
  }
  take_commands-Halts (suc left) l (notify answer c uuid value ∷ before) after q h =
      let r = on_notify l.worker c uuid value in
      let rest = before ++ stop ∷ after in
      let l' = record l {
        worker = r.0;
        commands = rest;
        answers = l.answers ++ (answer, r.1) ∷ [];
      } in
      let ih = take_commands-Halts left l' before after refl (omega (arith, h)) in
      record {
        end = ih.end;
        halted = rw (q, take_commands) ih.halted;
        served = ih.served ∙ answered-snoc l r.0 rest answer r.1 (callers (until_stop rest));
      }

  -- A shutdown from another thread than the worker's ends the loop in its next turn, whatever arrives
  -- after it and whatever the clock reads. Every caller whose notification was ahead of a stop has been
  -- answered by then. The handle gives up the worker, and the caller of the shutdown gets the result of
  -- the thread. (The queue has room, for which `send` waits.)
  pub shutdown-Halts :
      (fuel : ℕ) (t : Turn) (ts : List Turn) (l : Loop K R App) (joined : Joined)
      → length l.commands < 128
      → let (worker, queue, result) = shutdown false true l.commands joined in
        (worker ≡ false)
        × (result ≡ join_result joined)
        × ((s : Step (Loop K R App)) × (run fuel (t ∷ ts) (record l { commands = queue }) ≡ some s)
            × Halts s (answered l ++ callers (until_stop (l.commands ++ stop ∷ t.arrived))))
  unfolding shutdown run
  shutdown-Halts fuel t ts l joined h =
      let q = l.commands ++ stop ∷ [] in
      let taken =
        take_commands-Halts 128 (record l { commands = q ++ t.arrived; closed = t.closed })
          l.commands t.arrived (append_assoc l.commands (stop ∷ []) t.arrived) h in
      (
        refl,
        refl,
        (
          finishes taken.end,
          rw (taken.halted, run, turn) refl,
          record { end = taken.end; halted = refl; served = taken.served },
        ),
      )
