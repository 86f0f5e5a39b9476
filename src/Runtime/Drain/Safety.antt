-- ===== src/Runtime/Drain/Safety.antt =====
-- The invariants of the BTstack thread under the events (btstack-core/src/runtime.rs, `run`).
use btstack_gatt_rs.Prelude.{
  ℕ, zero, suc, ◌≡◌, ◌⊎◌, inl, inr, [], some, ok, arith, Bool-cases, List-cases, Option-cases,
  Result-cases, All-mono, nat_beq, flag_or_false,
}
use btstack_gatt_rs.Runtime.{Queued}
use btstack_gatt_rs.Runtime.Invariant.{Inv}
use btstack_gatt_rs.Runtime.Invariant.Links.{connect-Inv, disconnect-Inv, exchange_mtu-Inv}
use btstack_gatt_rs.Runtime.Invariant.Queue.{next_pending-Inv}
use btstack_gatt_rs.Runtime.Invariant.Accesses.{read-Inv}
use btstack_gatt_rs.Runtime.Write.Effects.{write-Inv}
use btstack_gatt_rs.Runtime.Link.{next_pending, has_pending}
use btstack_gatt_rs.Runtime.Bridge.{Stack, Transport, Calls}
use btstack_gatt_rs.Runtime.Bridge.Worker.{Worker, Event, exec, exec_keeps, push_event}
use btstack_gatt_rs.Runtime.Drain.{
  Started, report_failure, transmit, request_more, flush_notification, on_link, on_event, drain,
}
use btstack_gatt_rs.Runtime.Drain.Progress.{state-send}

module _ {K : Stack} {R : Transport} {App : Type 0} where
  pub exec-Inv :
      {A : Type 0} (calls : Calls K.S A) (w : Worker K R App)
      → Inv w.state
      → Inv (exec calls w).0.state
  unfolding push_event
  exec-Inv calls w =
      exec_keeps (λ v. Inv v.state) (λ v c a o n z. read-Inv v.state v.app c a o n z)
        (λ v c a m o x. write-Inv v.state v.app c a m o x) (λ v k i x h. h)
        (λ v k p h. rw (state-send v k p) h) (λ v s h. h) calls w

  report_failure-Inv :
      (w : Worker K R App) (q : Queued) (status : ℕ)
      → Inv w.state
      → Inv (report_failure w q status).state
  unfolding report_failure
  report_failure-Inv w q status v = elim (Bool-cases (nat_beq status 0)) [
    | inl e ↦ rw (e, report_failure) v
    | inr e ↦
        rw (e, report_failure)
          (record {
            keyed = v.keyed;
            subscribed = v.subscribed;
            cached = v.cached;
            queued =
                All-mono w.state.pending (λ p f. record { live = f.live; fits = f.fits }) v.queued;
            bounded = v.bounded;
          })
  ]

  transmit-Inv :
      (w : Worker K R App) (handle : ℕ) (q : Queued) → Inv w.state → Inv (transmit w handle q).state
  unfolding transmit
  transmit-Inv w handle q v =
      elim (Bool-cases (flag_or_false (w.state.subscriptions (handle, q.attribute)))) [
        | inl e ↦
            let r = exec (K.notify handle q.attribute q.value w.stack) w in
            rw (e, transmit)
              (report_failure-Inv r.0 q r.1
                (exec-Inv (K.notify handle q.attribute q.value w.stack) w v))
        | inr e ↦ rw (e, transmit) v
      ]

  request_more-Inv :
      (w : Worker K R App) (handle : ℕ) → Inv w.state → Inv (request_more w handle).state
  unfolding request_more
  request_more-Inv w handle v = elim (Bool-cases (has_pending w.state handle)) [
    | inl e ↦ rw (e, request_more) (exec-Inv (K.request_send handle w.stack) w v)
    | inr e ↦ rw (e, request_more) v
  ]

  pub flush_notification-Inv :
      (w : Worker K R App) (handle : ℕ) → Inv w.state → Inv (flush_notification w handle).state
  unfolding flush_notification
  flush_notification-Inv w handle v = elim (Option-cases (next_pending w.state handle)) [
    | inl e ↦ rw (e, flush_notification) v
    | inr ((q, s), e) ↦
        let w' = record w { state = s } in
        rw (e, flush_notification)
          (request_more-Inv (transmit w' handle q) handle
            (transmit-Inv w' handle q (next_pending-Inv w.state s handle q v e).0))
  ]

  on_link-Inv : (w : Worker K R App) (e : Event) → Inv w.state → Inv (on_link w e).state
  unfolding on_link
  on_link-Inv w e v = elim (Bool-cases (nat_beq e.kind 3)) [
    | inl a ↦ rw (a, on_link) (connect-Inv w.state w.generation e.handle e.value v)
    | inr a ↦ elim (Bool-cases (nat_beq e.kind 4)) [
      | inl b ↦ rw (a, b, on_link) (disconnect-Inv w.state e.handle v)
      | inr b ↦ rw (a, b, on_link) (exchange_mtu-Inv w.state e.handle e.value v)
    ]
  ]

  -- Where the handling of an event may lead.
  pub on_event_cases :
      (w w' : Worker K R App) (b b' : Started) (e : Event)
      → on_event w b e ≡ ok (w', b')
      → (w' ≡ w)
        ⊎ ((e.kind ≡ 3) ⊎ ((e.kind ≡ 4) ⊎ (e.kind ≡ 7))) × (w' ≡ on_link w e)
        ⊎ (w' ≡ flush_notification w e.handle)
  unfolding on_event
  on_event_cases w w' b b' e h = ground arith

  pub on_event-Inv :
      (w w' : Worker K R App) (b b' : Started) (e : Event)
      → Inv w.state
      → on_event w b e ≡ ok (w', b')
      → Inv w'.state
  on_event-Inv w w' b b' e v h = elim (on_event_cases w w' b b' e h) [
    | inl f ↦ rw f v
    | inr (inl (k, f)) ↦ rw f (on_link-Inv w e v)
    | inr (inr f) ↦ rw f (flush_notification-Inv w e.handle v)
  ]

  -- If it ends without an error, the loop over the events keeps the state well formed, whatever events
  -- the stack has posted and however it calls back: every connection under its own handle, nothing
  -- kept for a handle that is not connected, snapshots of at most 512 bytes, at most 128 queued
  -- notifications, and each of them within the MTU at which it was accepted.
  pub drain-Inv :
      (fuel : ℕ) (w w' : Worker K R App) (b b' : Started)
      → Inv w.state
      → drain fuel w b ≡ some (ok (w', b'))
      → Inv w'.state
  unfolding drain
  drain-Inv zero w w' b b' v h = cc
  drain-Inv (suc fuel) w w' b b' v h = elim (List-cases w.queue) [
    | inl q ↦ rw (ended w w' b b' fuel q h) v
    | inr (e, rest, q) ↦ elim (Result-cases (on_event (record w { queue = rest }) b e)) [
      | inl ((u, c), f) ↦
          drain-Inv fuel u w' c b' (on_event-Inv (record w { queue = rest }) u b c e v f)
            (ground arith)
      | inr (x, f) ↦ absurd (ground arith)
    ]
  ]
    where
      ended :
          (w w' : Worker K R App) (b b' : Started) (fuel : ℕ)
          → w.queue ≡ []
          → drain (suc fuel) w b ≡ some (ok (w', b'))
          → w' ≡ w
      ended w w' b b' fuel q h = ground arith
