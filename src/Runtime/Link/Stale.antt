-- ===== src/Runtime/Link/Stale.antt =====
-- A connection that has ended (btstack-core/src/runtime.rs, `NEXT_CONNECTION`).
use btstack_gatt_rs.Prelude.{ℕ, ◌≡◌, List, some, err, arith}
use btstack_gatt_rs.Types.{Uuid, connection_not_active}
use btstack_gatt_rs.Gatt.{GattConnection}
use btstack_gatt_rs.Runtime.{State}
use btstack_gatt_rs.Runtime.Link.{connect, disconnect}
use btstack_gatt_rs.Runtime.Link.Tables.{connect_afresh, disconnect-Cleared}
use btstack_gatt_rs.Runtime.Notify.{enqueue}
use btstack_gatt_rs.Runtime.Acceptance.{enqueue_stale, enqueue_gone}
use btstack_gatt_rs.Runtime.Drain.Generations.{Unique}

-- A connection that has ended is refused, both while its handle is free and after the next connection has
-- taken the same handle: the counter was above its generation, so the new one differs.
pub disconnect_stale :
    {App : Type 0} (s : State App) (counter mtu : ℕ) (c : GattConnection) (uuid : Uuid)
    (value : List ℕ)
    → Unique s.connections counter
    → s.connections c.handle ≡ some c
    → let gone = disconnect s c.handle in
      (enqueue gone c uuid value ≡ err connection_not_active)
      × (enqueue (connect gone counter c.handle mtu).0 c uuid value ≡ err connection_not_active)
disconnect_stale s counter mtu c uuid value u live =
    let gone = disconnect s c.handle in
    let fresh : GattConnection = record { handle = c.handle; generation = counter; mtu = mtu } in
    let old = u.below c.handle c live in
    (
      enqueue_gone gone c uuid value (disconnect-Cleared s c.handle).connection,
      enqueue_stale (connect gone counter c.handle mtu).0 c fresh uuid value
          (connect_afresh s counter c.handle mtu 0).2 (λ e. omega (arith, old, e)),
    )
