-- ===== src/Runtime/Loop/Usual.antt =====
-- Whether the loop of btstack-core/src/runtime.rs handles only usual events, on the way that it takes.
use btstack_gatt_rs.Prelude.{
  ℕ, zero, suc, ◌+◌, Bool, true, false, List, [], ◌∷◌, ◌++◌, Option, none, some, ok, err, ltb, ◌&&◌,
  ◌||◌, not, ◌==◌, nat_eq,
}
use btstack_gatt_rs.Gatt.{GattConnection}
use btstack_gatt_rs.Runtime.Link.{u64_mod}
use btstack_gatt_rs.Runtime.Bridge.{Stack, Transport}
use btstack_gatt_rs.Runtime.Bridge.Worker.{Worker, Event}
use btstack_gatt_rs.Runtime.Drain.{Started, on_event}
use btstack_gatt_rs.Runtime.Loop.{
  Loop, Turn, Step, goes, finishes, fails, panics, take_commands, pump, turn,
}

abbrev pub is_free : Option GattConnection → Bool
is_free none = true
is_free (some c) = false

module _ {K : Stack} {R : Transport} {App : Type 0} where
  -- The counter of connections has room, and a connection is on a handle that is not in use.
  abbrev pub usual_event : Worker K R App → Event → Bool
  usual_event w e =
      ltb (w.generation + 1) u64_mod
      && (not (e.kind == 3) || is_free (w.state.connections e.handle))

  -- Every event that `drain` handles is usual when it is handled.
  unfoldable pub drain_usual : ℕ → Worker K R App → Started → Bool
  unfolding on_event
  drain_usual zero w b = true
  drain_usual (suc fuel) w b = elim w.queue [
    | [] ↦ true
    | e ∷ rest ↦ usual_event w e && elim (on_event (record w { queue = rest }) b e) [
      | ok r ↦ drain_usual fuel r.0 r.1
      | err x ↦ true
    ]
  ]

  abbrev pub pump_usual : ℕ → Started → Step (Worker K R App) → Bool
  pump_usual fuel b (goes w) = drain_usual fuel w b
  pump_usual fuel b (finishes w) = true
  pump_usual fuel b (fails w e) = true
  pump_usual fuel b (panics w) = true

  abbrev pub commands_usual : ℕ → Step (Loop K R App) → Bool
  commands_usual fuel (goes l) = pump_usual fuel l.started (pump l.worker)
  commands_usual fuel (finishes l) = true
  commands_usual fuel (fails l e) = true
  commands_usual fuel (panics l) = true

  unfoldable pub turn_usual : ℕ → Turn → Loop K R App → Bool
  unfolding take_commands drain_usual pump
  turn_usual fuel t l =
      commands_usual fuel
        (take_commands 128 (record l { commands = l.commands ++ t.arrived; closed = t.closed }))

  -- Every event that the loop handles is.
  unfoldable pub run_usual : ℕ → List Turn → Loop K R App → Bool
  unfolding turn_usual turn
  run_usual fuel [] l = true
  run_usual fuel (t ∷ ts) l = turn_usual fuel t l && elim (turn fuel t l) [
    | none ↦ true
    | some s ↦ elim s [
      | goes l' ↦ run_usual fuel ts l'
      | finishes l' ↦ true
      | fails l' e ↦ true
      | panics l' ↦ true
    ]
  ]
