-- ===== src/Runtime/Drain.antt =====
-- `flush_notification` and the loop over `EVENTS` in `run` of btstack-core/src/runtime.rs.
pub mod Progress
pub mod Safety
pub mod Generations
use btstack_gatt_rs.Prelude.{
  ℕ, zero, suc, Bool, true, false, List, [], ◌∷◌, ◌++◌, Option, none, some, Result, ok, err,
  if◌then◌else◌, not, flag_or_false, length, ◌==◌, nat_eq, ◌||◌, ◌%◌,
}
use btstack_gatt_rs.Types.{Error, advertising_failed, command_failed}
use btstack_gatt_rs.Gatt.{notification_failed}
use btstack_gatt_rs.Runtime.{Queued, State}
use btstack_gatt_rs.Runtime.Link.{connect, disconnect, exchange_mtu, next_pending, has_pending}
use btstack_gatt_rs.Runtime.Bridge.{Stack, Transport}
use btstack_gatt_rs.Runtime.Bridge.Worker.{Worker, Event, exec}

-- What the loop over the events carries: whether advertising has started, and how often `ready` was
-- told so.
pub record Started : Type 0 where
  pub started : Bool
  pub told : ℕ

module _ {K : Stack} {R : Transport} {App : Type 0} where
  -- `rs_request_send(handle)`.
  unfoldable pub request_send : Worker K R App → ℕ → Worker K R App
  request_send w handle = (exec (K.request_send handle w.stack) w).0

  unfoldable pub report_failure : Worker K R App → Queued → ℕ → Worker K R App
  report_failure w q status =
      if not (status == 0)
      then record w {
        state = record w.state {
          events = w.state.events ++ notification_failed q.connection status ∷ [];
        };
      }
      else w

  -- `rs_notify`, if the peer is still subscribed.
  unfoldable pub transmit : Worker K R App → ℕ → Queued → Worker K R App
  unfolding report_failure
  transmit w handle q =
      if flag_or_false (w.state.subscriptions (handle, q.attribute))
      then (let (w', status) = exec (K.notify handle q.attribute q.value w.stack) w in
          report_failure w' q status)
      else w

  -- `if more { rs_request_send(handle) }`.
  unfoldable pub request_more : Worker K R App → ℕ → Worker K R App
  unfolding request_send has_pending
  request_more w handle = if has_pending w.state handle then request_send w handle else w

  unfoldable pub flush_taken : Worker K R App → ℕ → Option (Queued × State App) → Worker K R App
  unfolding transmit request_more
  flush_taken w handle none = w
  flush_taken w handle (some (q, s)) =
      request_more (transmit (record w { state = s }) handle q) handle

  unfoldable pub flush_notification : Worker K R App → ℕ → Worker K R App
  unfolding flush_taken next_pending
  flush_notification w handle = flush_taken w handle (next_pending w.state handle)

  -- Arms 3, 4 and 7.
  unfoldable pub on_link : Worker K R App → Event → Worker K R App
  unfolding connect disconnect exchange_mtu
  on_link w e =
      if e.kind == 3
      then (let (s, g) = connect w.state w.generation e.handle e.value in
          record w { state = s; generation = g })
      else if e.kind == 4
      then record w { state = disconnect w.state e.handle }
      else record w { state = exchange_mtu w.state e.handle e.value }

  -- The `match kind` of the loop. Arm 1 and the unknown kinds do nothing.
  unfoldable pub on_event :
      Worker K R App → Started → Event → Result (Worker K R App × Started) (Worker K R App × Error)
  unfolding on_link flush_notification
  on_event w b e =
      if e.kind == 2
      then if not (e.value == 0)
        then err (w, advertising_failed e.value)
        else if not b.started
        then ok (w, record { started = true; told = suc b.told })
        else ok (w, b)
      else if e.kind == 3 || (e.kind == 4 || (e.kind == 7))
      then ok (on_link w e, b)
      else if e.kind == 5
      then ok (flush_notification w e.handle, b)
      else if e.kind == 6
      then err (w, command_failed e.handle e.value)
      else ok (w, b)

  -- `while let Some(…) = EVENTS.pop_front()`; `none` if the fuel runs out.
  unfoldable pub drain :
      ℕ
      → Worker K R App
      → Started
      → Option (Result (Worker K R App × Started) (Worker K R App × Error))
  unfolding on_event
  drain zero w b = none
  drain (suc fuel) w b = elim w.queue [
    | [] ↦ some (ok (w, b))
    | e ∷ rest ↦ elim (on_event (record w { queue = rest }) b e) [
      | ok r ↦ drain fuel r.0 r.1
      | err x ↦ some (err x)
    ]
  ]
