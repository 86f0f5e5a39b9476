-- ===== src/Runtime/Drain/Progress.antt =====
-- The loop over `EVENTS` ends (btstack-core/src/runtime.rs, `run`).
use btstack_gatt_rs.Prelude.{
  ℕ, zero, suc, ◌≤◌, ◌<◌, ◌≡◌, ◌⊎◌, inl, inr, refl, List, [], ◌∷◌, some, Result, ok, err, Outcome,
  returned, panicked, arith, length, length-retain-le, List-cases, Option-cases, Result-cases, ap,
  ◌∙◌, nat_eq, ◌==◌, not,
}
use btstack_gatt_rs.Types.{Error}
use btstack_gatt_rs.Runtime.{State, Queued}
use btstack_gatt_rs.Runtime.Read.Frame.{pending-read}
use btstack_gatt_rs.Runtime.Write.Effects.{write-Isolated}
use btstack_gatt_rs.Runtime.Link.{next_pending}
use btstack_gatt_rs.Runtime.Link.Tables.{pending-disconnect, pending-exchange_mtu}
use btstack_gatt_rs.Runtime.Invariant.Queue.{length-next_pending}
use btstack_gatt_rs.Runtime.Bridge.{Stack, Transport, Calls}
use btstack_gatt_rs.Runtime.Bridge.Worker.{Worker, Event, exec, exec_keeps, push_event, send, sent}
use btstack_gatt_rs.Runtime.Drain.{
  Started, transmit, request_more, flush_notification, on_link, on_event, drain,
}

module _ {K : Stack} {R : Transport} {App : Type 0} where
  state-sent :
      (w : Worker K R App) (r : R.T × Outcome (Result (Unit {0}) Error))
      → (sent w r).0.state ≡ w.state
  unfolding sent
  state-sent w (t, returned (ok u)) = refl
  state-sent w (t, returned (err e)) = refl
  state-sent w (t, panicked) = refl

  pub state-send :
      (w : Worker K R App) (kind : ℕ) (packet : List ℕ) → (send w kind packet).0.state ≡ w.state
  unfolding send
  state-send w kind packet = state-sent w (R.send kind packet w.transport)

  -- No call of the C side changes the queue of notifications.
  pub pending-exec :
      {A : Type 0} (calls : Calls K.S A) (w : Worker K R App)
      → (exec calls w).0.state.pending ≡ w.state.pending
  unfolding push_event
  pending-exec calls w =
      exec_keeps (λ v. v.state.pending ≡ w.state.pending)
        (λ v c a o n z h. pending-read v.state v.app c a o n z ∙ h)
        (λ v c a m o x h. (write-Isolated v.state v.app c a m o x).pending ∙ h) (λ v k i x h. h)
        (λ v k p h. ap (λ (s : State App). s.pending) (state-send v k p) ∙ h) (λ v s h. h) calls w
        refl

  pub pending-request_more :
      (w : Worker K R App) (handle : ℕ) → (request_more w handle).state.pending ≡ w.state.pending
  unfolding request_more
  pending-request_more w handle = ground (arith, pending-exec (K.request_send handle w.stack) w)

  pub pending-transmit :
      (w : Worker K R App) (handle : ℕ) (q : Queued)
      → (transmit w handle q).state.pending ≡ w.state.pending
  unfolding transmit
  pending-transmit w handle q =
      ground (arith, pending-exec (K.notify handle q.attribute q.value w.stack) w)

  flush_notification-length :
      (w : Worker K R App) (handle : ℕ)
      → (flush_notification w handle ≡ w)
        ⊎ (length (flush_notification w handle).state.pending < length w.state.pending)
  unfolding flush_notification
  flush_notification-length w handle = elim (Option-cases (next_pending w.state handle)) [
    | inl e ↦ inl (rw (e, flush_notification) refl)
    | inr ((q, s), e) ↦
        let w' = record w { state = s } in
        inr (
          rw
            (
              e,
              flush_notification,
              pending-request_more (transmit w' handle q) handle,
              pending-transmit w' handle q,
            )
            (omega (arith, length-next_pending w.state s handle q e)))
  ]

  on_link-length :
      (w : Worker K R App) (e : Event)
      → (length (on_link w e).state.pending ≤ length w.state.pending)
        × ((on_link w e).queue ≡ w.queue)
  unfolding on_link
  on_link-length w e = ground (
    arith,
    pending-disconnect w.state e.handle,
    length-retain-le (λ (q : Queued). not (q.connection.handle == e.handle)) w.state.pending,
    pending-exchange_mtu w.state e.handle e.value,
  )

  -- One event: the queue of notifications gets shorter, or it gets no longer and the event is gone.
  abbrev Shrinks : Worker K R App → Worker K R App → Type 0
  Shrinks w w' =
      (length w'.state.pending < length w.state.pending)
      ⊎ ((length w'.state.pending ≤ length w.state.pending) × (w'.queue ≡ w.queue))

  flush-Shrinks : (w : Worker K R App) (handle : ℕ) → Shrinks w (flush_notification w handle)
  flush-Shrinks w handle = elim (flush_notification-length w handle) [
    | inl e ↦ inr (rw e (omega arith, refl))
    | inr l ↦ inl l
  ]

  on_event-Shrinks :
      (w w' : Worker K R App) (b b' : Started) (e : Event)
      → on_event w b e ≡ ok (w', b')
      → Shrinks w w'
  unfolding on_event
  on_event-Shrinks w w' b b' e h = ground (arith, flush-Shrinks w e.handle, on_link-length w e)

  abbrev Ends : Worker K R App → Started → Type 0
  Ends w b =
      (fuel : ℕ) × (r : Result (Worker K R App × Started) (Worker K R App × Error)) × (drain fuel w
          b
        ≡ some r)

  Ends-empty : (w : Worker K R App) (b : Started) → w.queue ≡ [] → Ends w b
  unfolding drain
  Ends-empty w b e = (1, ok (w, b), ground arith)

  -- If the rest ends, so does the loop that handles one more event first.
  Ends-step :
      (w : Worker K R App) (b : Started) (e : Event) (rest : List Event)
      → w.queue ≡ e ∷ rest
      → ((w' : Worker K R App) (b' : Started)
          → on_event (record w { queue = rest }) b e ≡ ok (w', b')
          → Ends w' b')
      → Ends w b
  unfolding drain
  Ends-step w b e rest q later = elim (Result-cases (on_event (record w { queue = rest }) b e)) [
    | inl ((w', b'), f) ↦ let (fuel, r, g) = later w' b' f in (suc fuel, r, rw (q, f, drain) g)
    | inr (x, f) ↦ (1, err x, rw (q, f, drain) refl)
  ]

  Ends-within :
      (n m : ℕ) (w : Worker K R App) (b : Started)
      → length w.state.pending ≤ n
      → length w.queue ≤ m
      → Ends w b
  Ends-within n zero w b p q = elim (List-cases w.queue) [
    | inl e ↦ Ends-empty w b e
    | inr (e, rest, f) ↦ absurd (omega (arith, ap length f))
  ]
  Ends-within zero (suc m) w b p q = elim (List-cases w.queue) [
    | inl e ↦ Ends-empty w b e
    | inr (e, rest, f) ↦ Ends-step w b e rest f λ w' b' h.
        elim (on_event-Shrinks (record w { queue = rest }) w' b b' e h) [
          | inl lt ↦ absurd (omega arith)
          | inr (le, same) ↦
              Ends-within zero m w' b' (omega arith) (omega (arith, ap length f, ap length same))
        ]
  ]
  Ends-within (suc n) (suc m) w b p q = elim (List-cases w.queue) [
    | inl e ↦ Ends-empty w b e
    | inr (e, rest, f) ↦ Ends-step w b e rest f λ w' b' h.
        elim (on_event-Shrinks (record w { queue = rest }) w' b b' e h) [
          | inl lt ↦ Ends-within n (length w'.queue) w' b' (omega arith) (omega arith)
          | inr (le, same) ↦
              Ends-within (suc n) m w' b' (omega arith) (omega (arith, ap length f, ap length same))
        ]
  ]

  -- The loop over the events ends from every state, whatever the stack, the transport and the
  -- application do: some fuel is enough, although each flush may make the stack post further events.
  pub drain_ends :
      (w : Worker K R App) (b : Started)
      → (fuel : ℕ) × (r : Result (Worker K R App × Started) (Worker K R App × Error)) × (drain fuel
            w b
          ≡ some r)
  drain_ends w b =
      Ends-within (length w.state.pending) (length w.queue) w b (omega arith) (omega arith)
