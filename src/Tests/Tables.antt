-- ===== src/Tests/Tables.antt =====
-- Notifications, connections and the queue of btstack-core/src/runtime.rs at concrete inputs.
use btstack_gatt_rs.Prelude.{ℕ, ◌≡◌, ◌≢◌, refl, [], ◌∷◌, some, ok, err, arith}
use btstack_gatt_rs.Types.{connection_not_active}
use btstack_gatt_rs.Runtime.{State}
use btstack_gatt_rs.Runtime.Link.{connect, disconnect, next_pending}
use btstack_gatt_rs.Runtime.Link.Tables.{Cleared, disconnect-Cleared}
use btstack_gatt_rs.Runtime.Notify.{enqueue, find_uuid}
use btstack_gatt_rs.Runtime.Acceptance.{queue_up}
use btstack_gatt_rs.Runtime.Mailbox.{mailbox}
use btstack_gatt_rs.Runtime.Mailbox.Acts.{performs}
use btstack_gatt_rs.Runtime.Mailbox.Runs.{acts, Steps-mailbox}
use btstack_gatt_rs.Runtime.Mailbox.Handed.{handed, handed_now}
use btstack_gatt_rs.Runtime.History.Moves.{Steps, start_of, later, handles, notifies}
use btstack_gatt_rs.Runtime.Bridge.Worker.{Worker, Event, exec}
use btstack_gatt_rs.Runtime.Drain.{flush_notification, on_event}
use btstack_gatt_rs.Runtime.Loop.{on_notify}
use btstack_gatt_rs.Runtime.Mailbox.Delivery.{flushes, flushes-mailbox}
use btstack_gatt_rs.Runtime.Link.Stale.{disconnect_stale}
use btstack_gatt_rs.Runtime.Drain.Generations.{Unique}
use btstack_gatt_rs.Tests.World.{
  worker, toy, inbox, started, uuid, attribute, peer, waiting, busy, busy-Inv,
}

abbrev two : State ℕ
two = busy (waiting 1 ∷ waiting 2 ∷ [])

abbrev three : State ℕ
three = queue_up two peer attribute (3 ∷ [])

accepted_third : enqueue two peer (uuid 1) (3 ∷ []) ≡ ok three
unfolding enqueue find_uuid
accepted_third = refl

two-Unique : Unique two.connections 6
two-Unique = record { below = λ h c e. ground arith; apart = λ g h c d e f k. ground arith }

disconnect_stale_example :
    (enqueue (disconnect two 64) peer (uuid 1) (3 ∷ []) ≡ err connection_not_active)
    × (enqueue (connect (disconnect two 64) 6 64 23).0 peer (uuid 1) (3 ∷ [])
        ≡ err connection_not_active)
disconnect_stale_example = disconnect_stale two 6 23 peer (uuid 1) (3 ∷ []) two-Unique refl

flushes-mailbox_example :
    (mailbox (flushes 2 (worker (waiting 1 ∷ waiting 2 ∷ []) [] []) 64).state 64 ≡ [])
    × ((g : ℕ)
        → g ≢ 64
        → mailbox (flushes 2 (worker (waiting 1 ∷ waiting 2 ∷ []) [] []) 64).state g
          ≡ mailbox two g)
flushes-mailbox_example = flushes-mailbox 2 (worker (waiting 1 ∷ waiting 2 ∷ []) [] []) 64 refl

-- The older of the two goes first.
first_taken : next_pending two 64 ≡ some (waiting 1, busy (waiting 2 ∷ []))
unfolding next_pending
first_taken = refl

disconnect-Cleared_example : Cleared 64 two (disconnect two 64)
disconnect-Cleared_example = disconnect-Cleared two 64

-- Two notifications are accepted, and BTstack permits to send one.
abbrev idle_worker : Worker toy inbox ℕ
idle_worker = worker [] [] []

abbrev once : Worker toy inbox ℕ
once = (on_notify idle_worker peer (uuid 1) (1 ∷ [])).0

abbrev both_queued : Worker toy inbox ℕ
both_queued = (on_notify once peer (uuid 1) (2 ∷ [])).0

abbrev permission : Event
permission = record { kind = 5; handle = 64; value = 0 }

abbrev first_sent : Worker toy inbox ℕ
first_sent = flush_notification both_queued 64

unfoldable first_sent-Steps : Steps idle_worker first_sent
unfolding on_event on_notify exec
first_sent-Steps =
    later
      (later (later start_of (notifies peer (uuid 1) (1 ∷ []))) (notifies peer (uuid 1) (2 ∷ [])))
      (handles started started permission first_sent (omega arith) (λ e. absurd (omega (arith, e)))
        refl)

Steps-mailbox_example :
    mailbox first_sent.state ≡ performs (acts first_sent-Steps) (mailbox idle_worker.state)
Steps-mailbox_example = Steps-mailbox first_sent-Steps busy-Inv.keyed

first_handed : handed 64 first_sent-Steps ≡ (3, 1 ∷ []) ∷ []
unfolding first_sent-Steps on_notify enqueue find_uuid exec flush_notification handed_now
first_handed = refl

second_waits : mailbox first_sent.state 64 ≡ (3, 2 ∷ []) ∷ []
unfolding on_notify enqueue find_uuid exec flush_notification
second_waits = refl
