-- ===== src/Runtime/History/Runs.antt =====
-- The loop of the thread takes the steps of its histories (`run` of btstack-core/src/runtime.rs).
use btstack_gatt_rs.Prelude.{
  ℕ, ◌+◌, ◌<◌, ◌≡◌, ◌≢◌, ◌↔◌, refl, true, false, List, Option, some, none, ok, arith, nat_eq,
  flag_or_false,
}
use btstack_gatt_rs.Gatt.{GattConnection}
use btstack_gatt_rs.Runtime.{Attribute, find_attribute}
use btstack_gatt_rs.Runtime.Link.{u64_mod}
use btstack_gatt_rs.Runtime.Bridge.{Stack, Transport}
use btstack_gatt_rs.Runtime.Bridge.Worker.{Worker, Event}
use btstack_gatt_rs.Runtime.Drain.{Started, on_event}
use btstack_gatt_rs.Runtime.Loop.{Loop, Turn, Step, last, run}
use btstack_gatt_rs.Runtime.Loop.Usual.{is_free, usual_event, run_usual}
use btstack_gatt_rs.Runtime.Loop.Rule.{Stays, run-Stays}
use btstack_gatt_rs.Runtime.History.{told}
use btstack_gatt_rs.Runtime.History.Moves.{calls, handles, notifies, turns, Steps, start_of, later}
use btstack_gatt_rs.Runtime.History.Steps.{Logged, told-Steps}
use btstack_gatt_rs.Runtime.History.Lifecycle.{unknown, alive, broken, life, Owner}
use btstack_gatt_rs.Runtime.History.Lifecycle.Steps.{IsFollowed, life-Steps}

free_lem : (o : Option GattConnection) → is_free o ≡ true → o ≡ none
free_lem none e = refl
free_lem (some c) e = cc

module _ {K : Stack} {R : Transport} {App : Type 0} where
  usual_room :
      (u : Worker K R App) (e : Event) → usual_event u e ≡ true → u.generation + 1 < u64_mod
  usual_room u e h = ground (arith, h)

  usual_free :
      (u : Worker K R App) (e : Event)
      → usual_event u e ≡ true
      → e.kind ≡ 3
      → u.state.connections e.handle ≡ none
  usual_free u e h k = free_lem (u.state.connections e.handle) (ground (arith, h, k))

  handles-Steps :
      (w u v : Worker K R App) (b b' : Started) (e : Event) (rest : List Event)
      → usual_event u e ≡ true
      → on_event (record u { queue = rest }) b e ≡ ok (v, b')
      → Steps w u
      → Steps w v
  handles-Steps w u v b b' e rest h f r =
      later (later r (turns (record u { queue = rest }) refl refl))
        (handles b b' e v (usual_room u e h) (usual_free u e h) f)

  Steps-Stays : (w : Worker K R App) → Stays (Steps w)
  Steps-Stays w = record {
    calls = λ c u r. later r (calls c);
    notifies = λ u c uuid value r. later r (notifies c uuid value);
    handles = λ u v b b' e rest q h f r. handles-Steps w u v b b' e rest h f r;
    drops = λ u rest r. later r (turns (record u { queue = rest }) refl refl);
    transports = λ u t r. later r (turns (record u { transport = t }) refl refl);
    failures = λ u r. later r (turns (record u { failure = none }) refl refl);
  }

  -- The last state of the loop comes from its first by the steps of a history.
  pub run-Steps :
      (fuel : ℕ) (ts : List Turn) (l : Loop K R App) (r : Step (Loop K R App))
      → run_usual fuel ts l ≡ true
      → run fuel ts l ≡ some r
      → Steps l.worker (last r).worker
  run-Steps fuel ts l r usual h = run-Stays (Steps-Stays l.worker) fuel ts l r start_of usual h

  -- What an application can conclude from the events that it has been sent.
  pub record Informs (w : Worker K R App) : Type 0 where
    pub in_order : (g : ℕ) → life g unknown w.state.events ≢ broken
    pub connected : (g : ℕ) → (life g unknown w.state.events ≡ alive) ↔ Owner w.state.connections g
    pub subscribed :
        (h x : ℕ) (c : GattConnection) (a : Attribute App)
        → w.state.connections h ≡ some c
        → find_attribute w.state x ≡ some a
        → told c.generation a.characteristic.uuid false w.state.events
          ≡ flag_or_false (w.state.subscriptions (h, a.handle))

  -- The loop of the thread, from a state in which the events agree with the tables, with whatever
  -- commands, packets, callbacks and failures, and however it ends: at its end no event of any connection
  -- has been out of order, exactly the connections that the events leave alive are in the table, and every
  -- live connection has been told of exactly the subscriptions that the server holds for it. (Every event
  -- that the loop handles on its way finds room in the counter of connections, and a connection a handle
  -- that is not in use.)
  pub run-Informs :
      (fuel : ℕ) (ts : List Turn) (l : Loop K R App) (r : Step (Loop K R App))
      → Logged l.worker
      → IsFollowed l.worker.state l.worker.generation
      → run_usual fuel ts l ≡ true
      → run fuel ts l ≡ some r
      → Informs (last r).worker
  run-Informs fuel ts l r logged followed usual h =
      let s = run-Steps fuel ts l r usual h in
      let v = (last r).worker in
      record {
        in_order = λ g. (life-Steps l.worker v s followed g).0;
        connected = λ g. (life-Steps l.worker v s followed g).1;
        subscribed = λ k x c a e f. told-Steps l.worker v k x c a s logged e f;
      }
