-- ===== src/Tests/History.antt =====
-- The events of a server, its tables and the example that receives them, at concrete inputs.
use btstack_gatt_rs.Prelude.{
  ℕ, ◌≡◌, ◌≢◌, ◌↔◌, refl, true, false, List, [], ◌∷◌, none, some, arith, flag_or_false, empty_map,
  find, if◌then◌else◌, All, list_beq, ◌==◌, nat_eq, list_eq,
}
use btstack_gatt_rs.Gatt.{
  GattConnection, has_bits, ServerEvent, connected, subscription_changed, notify,
}
use btstack_gatt_rs.Runtime.{Attribute, State, answers, find_attribute}
use btstack_gatt_rs.Runtime.Bridge.{Stack, Calls, return, call_event, call_write}
use btstack_gatt_rs.Runtime.Bridge.Worker.{Worker, Event, exec}
use btstack_gatt_rs.Runtime.Drain.{on_event, on_link}
use btstack_gatt_rs.Runtime.Link.{connect}
use btstack_gatt_rs.Runtime.Write.{write}
use btstack_gatt_rs.Runtime.History.{told}
use btstack_gatt_rs.Runtime.History.Moves.{Steps, start_of, later, calls, handles}
use btstack_gatt_rs.Runtime.History.Steps.{Logged, told-Steps}
use btstack_gatt_rs.Runtime.History.Lifecycle.{life, unknown, alive, broken, Owner}
use btstack_gatt_rs.Runtime.History.Lifecycle.Steps.{IsFollowed, life-Steps}
use btstack_gatt_rs.Peripheral.{
  Round, event, Serving, tx, hear, send_ticks, serve_loop, subscribe_to, is_over,
}
use btstack_gatt_rs.Peripheral.Subscribers.{lookup, heard}
use btstack_gatt_rs.Peripheral.Rate.{at_start}
use btstack_gatt_rs.Peripheral.Agreement.{OnlyTx, Subscribes, serve_loop-told}
use btstack_gatt_rs.Runtime.Loop.{Loop, Turn, Step, goes, last, run}
use btstack_gatt_rs.Runtime.Loop.Usual.{run_usual}
use btstack_gatt_rs.Runtime.Packet.{event_packet, validate_packet}
use btstack_gatt_rs.Runtime.History.Runs.{Informs, run-Informs}
use btstack_gatt_rs.Tests.World.{counter, toy, inbox, worker, started, busy}

abbrev tx_attribute : Attribute ℕ
tx_attribute = record { handle = 3; characteristic = record counter { uuid = tx } }

abbrev fresh_state : State ℕ
fresh_state = record (busy []) {
  attributes = tx_attribute ∷ [];
  connections = empty_map;
  subscriptions = empty_map;
}

abbrev fresh : Worker toy inbox ℕ
fresh = record (worker [] [] []) { state = fresh_state }

only_attribute :
    (x : ℕ) (a : Attribute ℕ) → find (answers x) (tx_attribute ∷ []) ≡ some a → a ≡ tx_attribute
unfolding find
only_attribute x a e = ground (arith, e)

same_attribute : (tx == tx) ≡ (tx_attribute.handle == tx_attribute.handle)
unfolding list_beq
same_attribute = refl

fresh-Log : Logged fresh
unfolding told
fresh-Log = record {
  agrees = λ h x c a e f. cc;
  ahead = λ g u l. refl;
  idle = λ h k e. refl;
  unique = record { below = λ h c e. cc; apart = λ g h c d e f k. cc };
  distinct = λ x y a b e f. rw (only_attribute x a e, only_attribute y b f) same_attribute;
}

fresh-Followed : IsFollowed fresh.state fresh.generation
unfolding life
fresh-Followed = record {
  lives = record {
    current = λ h c e. cc;
    ahead = λ g l. refl;
    whole = λ g e. cc;
    only = λ g e. cc;
    unique = record { below = λ h c e. cc; apart = λ g h c d e f k. cc };
  };
  keyed = λ h c e. cc;
  queued = tt;
}

-- A peer connects and subscribes.
abbrev joining : Event
joining = record { kind = 3; handle = 65; value = 23 }

abbrev joined : Worker toy inbox ℕ
joined = on_link fresh joining

abbrev subscription : Calls ℕ ℕ
subscription = call_write 65 4 0 0 (1 ∷ 0 ∷ []) (λ code. return 7 code)

abbrev subscribed : Worker toy inbox ℕ
subscribed = (exec subscription joined).0

subscribed-Steps : Steps fresh subscribed
unfolding on_event
subscribed-Steps =
    later (later start_of (handles started started joining joined (omega arith) (λ e. refl) refl))
      (calls subscription)

abbrev newcomer : GattConnection
newcomer = record { handle = 65; generation = 6; mtu = 23 }

newcomer_live : subscribed.state.connections 65 ≡ some newcomer
unfolding exec write on_link connect
newcomer_live = refl

its_value : find_attribute subscribed.state 3 ≡ some tx_attribute
unfolding exec write on_link connect find_attribute answers has_bits
its_value = refl

told-Steps_example :
    told 6 tx false subscribed.state.events ≡ flag_or_false (subscribed.state.subscriptions (65, 3))
told-Steps_example =
    told-Steps fresh subscribed 65 3 newcomer tx_attribute subscribed-Steps fresh-Log newcomer_live
      its_value

it_is_subscribed : told 6 tx false subscribed.state.events ≡ true
unfolding exec write on_link connect told find_attribute answers has_bits list_beq
it_is_subscribed = refl

life-Steps_example :
    (life 6 unknown subscribed.state.events ≢ broken)
    × ((life 6 unknown subscribed.state.events ≡ alive) ↔ Owner subscribed.state.connections 6)
life-Steps_example = life-Steps fresh subscribed subscribed-Steps fresh-Followed 6

it_is_alive : life 6 unknown subscribed.state.events ≡ alive
unfolding exec write on_link connect life find_attribute answers has_bits
it_is_alive = refl

-- The example receives both events, at the start of its first second.
abbrev round_of : ServerEvent → Round
round_of e = record {
  stop = false;
  checked = 0;
  received = event e;
  ticked = 0;
  printed = 0;
  reset = 0;
}

abbrev both : List Round
both = round_of (connected newcomer) ∷ round_of (subscription_changed newcomer tx notify) ∷ []

abbrev aware : Serving
aware = record { subscribers = (6, newcomer) ∷ []; tick = 0; calls = [] }

as_kept : List GattConnection → List GattConnection
as_kept m = m

aware_lem : serve_loop as_kept none both (at_start 0) ≡ goes aware
unfolding serve_loop hear send_ticks subscribe_to is_over
aware_lem = refl

all_heard : heard both ≡ subscribed.state.events
unfolding exec write on_link connect find_attribute answers has_bits
all_heard = refl

about_tx : All OnlyTx subscribed.state.events
unfolding exec write on_link connect find_attribute answers has_bits
about_tx = (tt, (refl, tt))

serve_loop-told_example :
    ((d : GattConnection) × (lookup 6 aware.subscribers ≡ some d) × (d.generation ≡ 6))
    ↔ Subscribes subscribed.state 6 3
serve_loop-told_example =
    serve_loop-told as_kept none 0 both aware fresh subscribed 3 6 tx_attribute aware_lem all_heard
      about_tx subscribed-Steps fresh-Log fresh-Followed its_value refl

-- A BTstack to which an event packet is a peer that connects, and any other its subscription.
abbrev lively : Stack
lively = record toy {
  receive = λ k p s.
      if k == 4
      then call_event 3 64 23 (return s tt)
      else call_write 64 4 0 0 (1 ∷ 0 ∷ []) (λ code. return s tt);
}

abbrev two_packets : Loop lively inbox ℕ
two_packets = record {
  worker = record {
    state = fresh_state;
    app = 0;
    queue = [];
    failure = none;
    generation = 6;
    stack = 7;
    transport = event_packet 5 (0 ∷ []) ∷ record { kind = 2; payload = 64 ∷ 0 ∷ 0 ∷ 0 ∷ [] } ∷ [];
  };
  started = started;
  commands = [];
  closed = false;
  answers = [];
}

abbrev two_turns : List Turn
two_turns =
    record { arrived = []; closed = false; elapsed = 5 }
    ∷ record { arrived = []; closed = false; elapsed = 10 }
    ∷ []

abbrev its_end : Step (Loop lively inbox ℕ)
its_end = elim (run 9 two_turns two_packets) [ some r ↦ r | none ↦ goes two_packets ]

two_turns-run : run 9 two_turns two_packets ≡ some its_end
unfolding run exec validate_packet
two_turns-run = refl

two_turns_usual : run_usual 9 two_turns two_packets ≡ true
unfolding run_usual exec validate_packet
two_turns_usual = refl

run-Informs_example : Informs (last its_end).worker
run-Informs_example =
    run-Informs 9 two_turns two_packets its_end fresh-Log fresh-Followed two_turns_usual
      two_turns-run

then_subscribed : told 6 tx false (last its_end).worker.state.events ≡ true
unfolding run exec validate_packet write on_link connect told find_attribute answers has_bits
    list_beq
then_subscribed = refl
