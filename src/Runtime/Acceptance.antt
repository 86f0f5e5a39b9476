-- ===== src/Runtime/Acceptance.antt =====
-- Which notifications are accepted (btstack-core/src/runtime.rs, `Command::Notify` in `run`).
use btstack_gatt_rs.Prelude.{
  ℕ, ◌-◌, ◌<◌, ◌≤◌, ◌≡◌, ◌≢◌, ◌↔◌, List, [], ◌∷◌, ◌++◌, some, none, ok, err, arith, Option-cases,
  inl, inr, length, true,
}
use btstack_gatt_rs.Types.{Uuid, connection_not_active}
use btstack_gatt_rs.Gatt.{GattConnection}
use btstack_gatt_rs.Runtime.{State, Attribute}
use btstack_gatt_rs.Runtime.Notify.{enqueue, find_uuid}

module _ {App : Type 0} where
  -- The connection is the live one of its handle, the characteristic exists and the peer has
  -- subscribed to it, the value fits the MTU and the queue has room.
  pub record Accepts (s : State App) (c current : GattConnection) (uuid : Uuid)
      (attr : Attribute App) (value : List ℕ) : Type 0 where
    pub active : s.connections c.handle ≡ some current
    pub same : current.generation ≡ c.generation
    pub known : find_uuid s uuid ≡ some attr
    pub subscribed : s.subscriptions (c.handle, attr.handle) ≡ some true
    pub fits : length value ≤ current.mtu - 3
    pub room : length s.pending < 128

  -- The state with one more notification at the end of the queue.
  abbrev pub queue_up : State App → GattConnection → Attribute App → List ℕ → State App
  queue_up s current attr value = record s {
    pending =
        s.pending ++ record { connection = current; attribute = attr.handle; value = value } ∷ [];
  }

  enqueue_of :
      (s : State App) (c current : GattConnection) (uuid : Uuid) (attr : Attribute App)
      (value : List ℕ)
      → Accepts s c current uuid attr value
      → enqueue s c uuid value ≡ ok (queue_up s current attr value)
  unfolding enqueue
  enqueue_of s c current uuid attr value a =
      ground (arith, a.active, a.same, a.known, a.subscribed, a.fits, a.room)

  enqueue_inv :
      (s s' : State App) (c : GattConnection) (uuid : Uuid) (value : List ℕ)
      → enqueue s c uuid value ≡ ok s'
      → (current : GattConnection) × (attr : Attribute App) × Accepts s c current uuid attr value
        × (s' ≡ queue_up s current attr value)
  unfolding enqueue
  enqueue_inv s s' c uuid value h = elim (Option-cases (s.connections c.handle)) [
    | inl e ↦ absurd (ground arith)
    | inr (current, e) ↦ elim (Option-cases (find_uuid s uuid)) [
      | inl f ↦ absurd (ground arith)
      | inr (attr, f) ↦ (
        current,
        attr,
        record {
          active = e;
          same = ground arith;
          known = f;
          subscribed = ground arith;
          fits = ground arith;
          room = ground arith;
        },
        ground arith,
      )
    ]
  ]

  pub enqueue-Accepts :
      (s s' : State App) (c : GattConnection) (uuid : Uuid) (value : List ℕ)
      → (enqueue s c uuid value ≡ ok s') ↔ (
          (current : GattConnection) × (attr : Attribute App) × Accepts s c current uuid attr value
          × (s' ≡ queue_up s current attr value))
  enqueue-Accepts s s' c uuid value = (
    enqueue_inv s s' c uuid value,
    λ (current, attr, a, e). ground (arith, enqueue_of s c current uuid attr value a),
  )

  pub enqueue_stale :
      (s : State App) (c current : GattConnection) (uuid : Uuid) (value : List ℕ)
      → s.connections c.handle ≡ some current
      → current.generation ≢ c.generation
      → enqueue s c uuid value ≡ err connection_not_active
  unfolding enqueue
  enqueue_stale s c current uuid value live other = ground (arith, live, other)

  pub enqueue_gone :
      (s : State App) (c : GattConnection) (uuid : Uuid) (value : List ℕ)
      → s.connections c.handle ≡ none
      → enqueue s c uuid value ≡ err connection_not_active
  unfolding enqueue
  enqueue_gone s c uuid value gone = ground (arith, gone)
