-- ===== src/Runtime/Invariant.antt =====
-- The well-formedness of the state of btstack-core/src/runtime.rs.
pub mod Links
pub mod Queue
pub mod Accesses
use btstack_gatt_rs.Prelude.{
  ℕ, ◌+◌, ◌-◌, ◌≤◌, ◌<◌, ◌≡◌, ◌≢◌, List, Option, none, some, All, length, Bool,
}
use btstack_gatt_rs.Gatt.{GattConnection}
use btstack_gatt_rs.Runtime.{Queued, State}

module _ {App : Type 0} where
  -- The entries of the queue belong to live connections, and fit the MTU at which they were accepted.
  pub record Fits (s : State App) (q : Queued) : Type 0 where
    pub live : s.connections q.connection.handle ≢ none
    pub fits : length q.value ≤ q.connection.mtu - 3

  pub record Inv (s : State App) : Type 0 where
    -- A connection stands under its own handle.
    pub keyed : (h : ℕ) (c : GattConnection) → s.connections h ≡ some c → c.handle ≡ h
    -- Nothing is kept for a handle that is not connected.
    pub subscribed : (h a : ℕ) (b : Bool) → s.subscriptions (h, a) ≡ some b → s.connections h ≢ none
    pub cached :
        (h a : ℕ) (v : List ℕ)
        → s.reads (h, a) ≡ some v
        → (s.connections h ≢ none) × (length v ≤ 512)
    pub queued : All (Fits s) s.pending
    pub bounded : length s.pending ≤ 128
