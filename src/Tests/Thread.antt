-- ===== src/Tests/Thread.antt =====
-- The BTstack thread of btstack-core/src/runtime.rs at concrete inputs.
use btstack_gatt_rs.Prelude.{
  ℕ, ◌+◌, ◌<◌, ◌≤◌, ◌≡◌, refl, true, false, List, [], ◌∷◌, none, some, Result, ok, arith, get_elem?,
  any, leb, if◌then◌else◌,
}
use btstack_gatt_rs.Types.{Error}
use btstack_gatt_rs.Gatt.{has_bits}
use btstack_gatt_rs.Gatt.Fresh.{all_characteristics}
use btstack_gatt_rs.Runtime.{Attribute, State, find_attribute}
use btstack_gatt_rs.Runtime.Packet.{event_packet}
use btstack_gatt_rs.Runtime.Bridge.{Stack}
use btstack_gatt_rs.Runtime.Bridge.Worker.{Worker, Event}
use btstack_gatt_rs.Runtime.Drain.{Started, on_event, on_link, drain}
use btstack_gatt_rs.Runtime.Drain.Progress.{drain_ends}
use btstack_gatt_rs.Runtime.Drain.Generations.{HasUnique}
use btstack_gatt_rs.Runtime.Loop.{Loop, Turn, Step, Command, goes, stop, notify, run}
use btstack_gatt_rs.Runtime.Loop.Service.{Sound, Keeps}
use btstack_gatt_rs.Runtime.Loop.Turns.{run-Keeps}
use btstack_gatt_rs.Runtime.Loop.Total.{Settles, run-Settles}
use btstack_gatt_rs.Runtime.Stop.{Stopped, stop_controller, stop_controller-Stopped}
use btstack_gatt_rs.Runtime.Start.{prepare}
use btstack_gatt_rs.Runtime.Start.Handles.{Allocates, Covers, characteristics_of, prepare-finds}
use btstack_gatt_rs.Tests.World.{
  uuid, counters, attribute, peer, waiting, busy-Inv, toy, inbox, worker, started,
}

-- Two notifications wait, and the stack permits to send one.
abbrev permitted : Worker toy inbox ℕ
permitted =
    worker (waiting 1 ∷ waiting 2 ∷ []) (record { kind = 5; handle = 64; value = 0 } ∷ []) []

drain_ends_example :
    (fuel : ℕ) × (r : Result (Worker toy inbox ℕ × Started) (Worker toy inbox ℕ × Error)) × (drain
        fuel permitted started
      ≡ some r)
drain_ends_example = drain_ends permitted started

-- One flush makes the stack ask for the next.
both_sent : drain 3 permitted started ≡ some (ok (worker [] [] [], started))
unfolding drain btstack_gatt_rs.Runtime.Bridge.Worker.exec
both_sent = refl

abbrev reached : Worker toy inbox ℕ
reached = worker (waiting 1 ∷ waiting 2 ∷ []) [] []

reached-HasUnique : HasUnique reached
reached-HasUnique = record { below = λ h c e. ground arith; apart = λ g h c d e f k. ground arith }

-- A second peer connects.
abbrev joining : Event
joining = record { kind = 3; handle = 65; value = 23 }

abbrev joined : Worker toy inbox ℕ
joined = on_link reached joining

joining_ok : on_event reached started joining ≡ ok (joined, started)
unfolding on_event
joining_ok = refl

-- The loop with a packet to receive.
abbrev looping : List Command → Loop toy inbox ℕ
looping commands = record {
  worker = worker (waiting 1 ∷ waiting 2 ∷ []) [] (event_packet 5 (0 ∷ []) ∷ []);
  started = started;
  commands = commands;
  closed = false;
  answers = [];
}

abbrev turns : List Turn
turns =
    record { arrived = notify 9 peer (uuid 1) (3 ∷ []) ∷ []; closed = false; elapsed = 5 }
    ∷ record { arrived = stop ∷ []; closed = false; elapsed = 10 }
    ∷ []

looping-Sound : Sound (looping []).worker started
looping-Sound = record { state = busy-Inv; told = refl }

abbrev result : Step (Loop toy inbox ℕ)
result = elim (run 9 turns (looping [])) [ some r ↦ r | none ↦ goes (looping []) ]

run-result : run 9 turns (looping []) ≡ some result
unfolding run btstack_gatt_rs.Runtime.Bridge.Worker.exec
    btstack_gatt_rs.Runtime.Packet.validate_packet
run-result = refl

run-Keeps_example : Keeps result
run-Keeps_example = run-Keeps 9 turns (looping []) result looping-Sound run-result

run-Settles_example : Settles (λ fuel. run fuel turns (looping []))
run-Settles_example = run-Settles turns (looping [])

abbrev asked : Loop toy inbox ℕ
asked = looping (notify 9 peer (uuid 1) (3 ∷ []) ∷ notify 8 peer (uuid 2) (3 ∷ []) ∷ stop ∷ [])

late : any (leb (100 + 3000)) (101 ∷ 2000 ∷ 3100 ∷ []) ≡ true
unfolding any
late = refl

stop_controller-Stopped_example : Stopped (stop_controller 100 (101 ∷ 2000 ∷ 3100 ∷ []) reached)
stop_controller-Stopped_example = stop_controller-Stopped 100 (101 ∷ 2000 ∷ 3100 ∷ []) reached late

toy_next : (p s : ℕ) → s + 1 < (if has_bits p 16 then s + 3 else s + 2)
toy_next p s = ground arith

toy_cccd : (p s : ℕ) → has_bits p 16 ≡ true → s + 1 + 1 < (if has_bits p 16 then s + 3 else s + 2)
toy_cccd p s e = ground (arith, e)

abbrev toy_Allocates : Allocates toy
toy_Allocates = record {
  next = λ s. s;
  service_above = λ u s. omega arith;
  value_above = λ u p s. omega arith;
  next_above = λ u p s. toy_next p s;
  cccd_reserved = λ u p s e. toy_cccd p s e;
}

abbrev prepared : Worker toy inbox ℕ
prepared = prepare {K = toy} {R = inbox} (90 ∷ []) (counters ∷ []) 1 0 []

prepared_room : prepared.stack ≤ 65535
unfolding prepare btstack_gatt_rs.Gatt.has_bits
prepared_room = ground arith

prepared_first : get_elem? prepared.state.attributes 0 ≡ some attribute
unfolding prepare
prepared_first = refl

attribute-Covers : Covers attribute 4
unfolding btstack_gatt_rs.Gatt.has_bits
attribute-Covers = ground arith

prepare-finds_example :
    (characteristics_of prepared.state.attributes ≡ all_characteristics (counters ∷ []))
    × (find_attribute prepared.state 4 ≡ some attribute)
prepare-finds_example =
    prepare-finds toy inbox toy_Allocates (90 ∷ []) (counters ∷ []) 1 0 [] 0 4 attribute
      prepared_room prepared_first attribute-Covers
