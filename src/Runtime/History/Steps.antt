-- ===== src/Runtime/History/Steps.antt =====
-- The application's view of subscriptions, over any run of the thread (btstack-core/src/runtime.rs).
use btstack_gatt_rs.Prelude.{ℕ, ◌≡◌, sym, false, some, flag_or_false}
use btstack_gatt_rs.Gatt.{GattConnection}
use btstack_gatt_rs.Runtime.{Attribute, find_attribute}
use btstack_gatt_rs.Runtime.Bridge.{Stack, Transport}
use btstack_gatt_rs.Runtime.Bridge.Worker.{Worker}
use btstack_gatt_rs.Runtime.History.{told, HasLog}
use btstack_gatt_rs.Runtime.History.Moves.{Steps}
use btstack_gatt_rs.Runtime.History.Stable.{Steps-Stable}
use btstack_gatt_rs.Runtime.History.Links.{Log-Stable}

module _ {K : Stack} {R : Transport} {App : Type 0} where
  abbrev pub Logged : Worker K R App → Type 0
  Logged w = HasLog w.state w.generation

  -- Whatever the stack calls back, whatever peers write and whichever of them come and go, in any
  -- order: what the application has been told, by the latest event on a subscription of a live
  -- connection to a characteristic, is what the server holds and by which it accepts and sends
  -- notifications. (It is so at first, with no two live connections of one generation and each
  -- characteristic known by its UUID as by its handle; a new connection has a handle that is not in
  -- use, and the counter of connections does not wrap.)
  pub told-Steps :
      (w v : Worker K R App) (h x : ℕ) (c : GattConnection) (a : Attribute App)
      → Steps w v
      → Logged w
      → v.state.connections h ≡ some c
      → find_attribute v.state x ≡ some a
      → told c.generation a.characteristic.uuid false v.state.events
        ≡ flag_or_false (v.state.subscriptions (h, a.handle))
  unfolding find_attribute
  told-Steps w v h x c a r l e f = sym ((Steps-Stable Log-Stable r l).agrees h x c a e f)
