-- ===== src/Runtime/Link.antt =====
-- The arms 3, 4 and 7 of the event loop in `run` of btstack-core/src/runtime.rs (connected,
-- disconnected, MTU exchanged), and the head of `flush_notification`. `generation` is the counter
-- `NEXT_CONNECTION`, which wraps.
pub mod Tables
pub mod Stale
use btstack_gatt_rs.Prelude.{
  ℕ, ◌+◌, ◌%◌, Bool, List, [], ◌∷◌, ◌++◌, Option, none, some, not, position, remove_at, retain,
  retain_keys, any, insert_key, remove_key, ◌==◌, nat_eq,
}
use btstack_gatt_rs.Gatt.{GattConnection, connected, disconnected}
use btstack_gatt_rs.Runtime.{Queued, State}

abbrev pub u64_mod : ℕ
u64_mod = 0x1_0000_0000_0000_0000

module _ {App : Type 0} where
  -- `NEXT_CONNECTION.fetch_add(1)` beside the new state.
  unfoldable pub connect : State App → ℕ → ℕ → ℕ → State App × ℕ
  connect s generation handle mtu =
      let c : GattConnection = record { handle = handle; generation = generation; mtu = mtu } in
      (
        record s {
          connections = insert_key handle c s.connections;
          events = s.events ++ connected c ∷ [];
        },
        (generation + 1) % u64_mod,
      )

  -- `if let Some(c) = s.connections.remove(&handle)`, on the state whose other tables are cleared.
  unfoldable pub forget : State App → ℕ → Option GattConnection → State App
  forget s handle none = record s { connections = remove_key handle s.connections }
  forget s handle (some c) = record s {
    connections = remove_key handle s.connections;
    events = s.events ++ disconnected c ∷ [];
  }

  unfoldable pub disconnect : State App → ℕ → State App
  unfolding forget retain
  disconnect s handle =
      let cleared : State App = record s {
        subscriptions = retain_keys (λ k. not (k.0 == handle)) s.subscriptions;
        reads = retain_keys (λ k. not (k.0 == handle)) s.reads;
        pending = retain (λ q. not (q.connection.handle == handle)) s.pending;
      } in
      forget cleared handle (s.connections handle)

  unfoldable pub set_mtu : State App → ℕ → ℕ → Option GattConnection → State App
  set_mtu s handle mtu none = s
  set_mtu s handle mtu (some c) = record s {
    connections = insert_key handle (record c { mtu = mtu }) s.connections;
  }

  unfoldable pub exchange_mtu : State App → ℕ → ℕ → State App
  unfolding set_mtu
  exchange_mtu s handle mtu = set_mtu s handle mtu (s.connections handle)

  -- The notification that `flush_notification` takes from the queue, and the state without it.
  unfoldable pub take_removed :
      State App → Option (Queued × List Queued) → Option (Queued × State App)
  take_removed s none = none
  take_removed s (some (q, rest)) = some (q, record s { pending = rest })

  unfoldable pub next_pending : State App → ℕ → Option (Queued × State App)
  unfolding take_removed position remove_at
  next_pending s handle =
      take_removed s (elim (position (λ q. q.connection.handle == handle) s.pending) [
        | none ↦ none
        | some index ↦ remove_at index s.pending
      ])

  -- `more` at the end of `flush_notification`.
  unfoldable pub has_pending : State App → ℕ → Bool
  unfolding any
  has_pending s handle = any (λ q. q.connection.handle == handle) s.pending
