-- ===== src/Runtime/Notify.antt =====
-- The arm of `Command::Notify` in `run` of btstack-core/src/runtime.rs: the checks of a notification
-- and its way into the queue.
use btstack_gatt_rs.Prelude.{
  ℕ, ◌-◌, List, [], ◌∷◌, ◌++◌, Option, none, some, Result, ok, err, ◌>>=◌, ok_or, if◌then◌else◌,
  leb, ltb, not, length, find, list_beq, flag_or_false, ◌==◌, nat_eq, list_eq,
}
use btstack_gatt_rs.Types.{
  Uuid, Error, connection_not_active, unknown_characteristic, not_subscribed, exceeds_mtu,
  notification_queue_full,
}
use btstack_gatt_rs.Gatt.{GattConnection}
use btstack_gatt_rs.Runtime.{Attribute, Queued, State}

-- `.filter(|c| c.generation == connection.generation)`.
abbrev pub filter_generation : ℕ → Option GattConnection → Option GattConnection
filter_generation g none = none
filter_generation g (some c) = if c.generation == g then some c else none

module _ {App : Type 0} where
  unfoldable pub find_uuid : State App → Uuid → Option (Attribute App)
  unfolding find list_beq
  find_uuid s uuid = find (λ a. a.characteristic.uuid == uuid) s.attributes

  unfoldable pub enqueue : State App → GattConnection → Uuid → List ℕ → Result (State App) Error
  unfolding find_uuid
  enqueue s connection uuid value = do
    current ←
        ok_or (filter_generation connection.generation (s.connections connection.handle))
          connection_not_active
    attr ← ok_or (find_uuid s uuid) unknown_characteristic
    if not (flag_or_false (s.subscriptions (connection.handle, attr.handle)))
        then err not_subscribed
        else if ltb (current.mtu - 3) (length value)
        then err exceeds_mtu
        else if leb 128 (length s.pending)
        then err notification_queue_full
        else let entry : Queued = record {
          connection = current;
          attribute = attr.handle;
          value = value;
        } in
          ok (record s { pending = s.pending ++ entry ∷ [] })
