-- ===== src/Runtime/History/Moves.antt =====
-- What the thread of btstack-core/src/runtime.rs does once its services are registered, as a relation.
use btstack_gatt_rs.Prelude.{ℕ, ◌+◌, ◌<◌, ◌≡◌, List, none, ok, nat_eq}
use btstack_gatt_rs.Types.{Uuid}
use btstack_gatt_rs.Gatt.{GattConnection}
use btstack_gatt_rs.Runtime.Link.{u64_mod}
use btstack_gatt_rs.Runtime.Bridge.{Stack, Transport, Calls}
use btstack_gatt_rs.Runtime.Bridge.Worker.{Worker, Event, exec}
use btstack_gatt_rs.Runtime.Drain.{Started, on_event}
use btstack_gatt_rs.Runtime.Loop.{on_notify}

module _ {K : Stack} {R : Transport} {App : Type 0} where
  -- A call of the C side with all its callbacks, an event from the queue, a command, and what leaves the
  -- server's state alone. Of an event it is said that a connection has a handle that is not in use, and
  -- that the counter of connections has room.
  pub data Move (w : Worker K R App) : Worker K R App → Type 1 where
    calls : {A : Type 0} (c : Calls K.S A) → Move w (exec c w).0
    handles :
        (b b' : Started) (e : Event) (v : Worker K R App)
        → w.generation + 1 < u64_mod
        → (e.kind ≡ 3 → w.state.connections e.handle ≡ none)
        → on_event w b e ≡ ok (v, b')
        → Move w v
    notifies :
        (c : GattConnection) (uuid : Uuid) (value : List ℕ) → Move w (on_notify w c uuid value).0
    turns : (v : Worker K R App) → v.state ≡ w.state → v.generation ≡ w.generation → Move w v

  pub data Steps (w : Worker K R App) : Worker K R App → Type 1 where
    start_of : Steps w w
    later : {u v : Worker K R App} → Steps w u → Move u v → Steps w v
