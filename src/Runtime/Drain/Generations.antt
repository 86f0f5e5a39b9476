-- ===== src/Runtime/Drain/Generations.antt =====
-- The generations by which btstack-core/src/runtime.rs tells connections apart.
use btstack_gatt_rs.Prelude.{
  ℕ, ◌+◌, ◌<◌, ◌≡◌, inl, inr, refl, Option, none, some, Result, ok, err, Outcome, returned,
  panicked, arith, Bool-cases, Option-cases, ap, ◌∙◌, nat_beq, nat_eq,
}
use btstack_gatt_rs.Types.{Error}
use btstack_gatt_rs.Gatt.{GattConnection}
use btstack_gatt_rs.Runtime.{State, Queued}
use btstack_gatt_rs.Runtime.Read.Frame.{read-OnlyReads}
use btstack_gatt_rs.Runtime.Write.Effects.{write-Isolated}
use btstack_gatt_rs.Runtime.Invariant.Queue.{next_pending-rest}
use btstack_gatt_rs.Runtime.Link.{connect, disconnect, exchange_mtu, set_mtu, u64_mod, next_pending}
use btstack_gatt_rs.Runtime.Link.Tables.{disconnect_lem}
use btstack_gatt_rs.Runtime.Bridge.{Stack, Transport, Calls}
use btstack_gatt_rs.Runtime.Bridge.Worker.{Worker, Event, exec, exec_keeps, push_event, send, sent}
use btstack_gatt_rs.Runtime.Drain.{
  Started, report_failure, transmit, request_more, flush_notification, on_link, on_event,
}
use btstack_gatt_rs.Runtime.Drain.Progress.{state-send}
use btstack_gatt_rs.Runtime.Drain.Safety.{on_event_cases}

-- Every live connection has a generation below the counter, and no two have the same.
pub record Unique (connections : ℕ → Option GattConnection) (counter : ℕ) : Type 0 where
  pub below : (h : ℕ) (c : GattConnection) → connections h ≡ some c → c.generation < counter
  pub apart :
      (g h : ℕ) (c d : GattConnection)
      → connections g ≡ some c
      → connections h ≡ some d
      → c.generation ≡ d.generation
      → g ≡ h

module _ {App : Type 0} where
  pub connect-Unique :
      (s : State App) (counter handle mtu : ℕ)
      → counter + 1 < u64_mod
      → Unique s.connections counter
      → let (s', counter') = connect s counter handle mtu in Unique s'.connections counter'
  unfolding connect
  connect-Unique s counter handle mtu room u = record {
    below = λ h c e. ground (arith, u.below h c);
    apart = λ g h c d e f k. ground (arith, u.below g c, u.below h d, u.apart g h c d);
  }

  pub disconnect-Unique :
      (s : State App) (counter handle : ℕ)
      → Unique s.connections counter
      → Unique (disconnect s handle).connections counter
  disconnect-Unique s counter handle u = rw (disconnect_lem s handle) (record {
    below = λ h c e. ground (arith, u.below h c);
    apart = λ g h c d e f k. ground (arith, u.apart g h c d);
  })

  pub set_mtu-Unique :
      (s : State App) (counter handle mtu : ℕ) (found : Option GattConnection)
      → s.connections handle ≡ found
      → Unique s.connections counter
      → Unique (set_mtu s handle mtu found).connections counter
  unfolding set_mtu
  set_mtu-Unique s counter handle mtu none e u = u
  set_mtu-Unique s counter handle mtu (some x) e u = record {
    below = λ h c f. ground (arith, u.below h c, u.below h x);
    apart = λ g h c d f k l.
        ground (arith, u.apart g h c d, u.apart g h x d, u.apart g h c x, u.apart g h x x);
  }

module _ {K : Stack} {R : Transport} {App : Type 0} where
  -- The part of the thread that generations are about.
  abbrev pub Same : Worker K R App → Worker K R App → Type 0
  Same w v = (v.state.connections ≡ w.state.connections) × (v.generation ≡ w.generation)

  pub generation-sent :
      (w : Worker K R App) (r : R.T × Outcome (Result (Unit {0}) Error))
      → (sent w r).0.generation ≡ w.generation
  unfolding sent
  generation-sent w (t, returned (ok u)) = refl
  generation-sent w (t, returned (err e)) = refl
  generation-sent w (t, panicked) = refl

  pub exec-Same : {A : Type 0} (calls : Calls K.S A) (w : Worker K R App) → Same w (exec calls w).0
  unfolding push_event send
  exec-Same calls w =
      exec_keeps (Same w)
        (λ v c a o n z h. ((read-OnlyReads v.state v.app c a o n z).connections ∙ h.0, h.1))
        (λ v c a m o x h. ((write-Isolated v.state v.app c a m o x).connections ∙ h.0, h.1))
        (λ v k i x h. h)
        (λ v k p h. (
          ap (λ (s : State App). s.connections) (state-send v k p) ∙ h.0,
          generation-sent v (R.send k p v.transport) ∙ h.1,
        ))
        (λ v s h. h) calls w (refl, refl)

  transmit-Same : (w : Worker K R App) (handle : ℕ) (q : Queued) → Same w (transmit w handle q)
  unfolding transmit report_failure
  transmit-Same w handle q =
      ground (arith, exec-Same (K.notify handle q.attribute q.value w.stack) w)

  request_more-Same : (w : Worker K R App) (handle : ℕ) → Same w (request_more w handle)
  unfolding request_more
  request_more-Same w handle = ground (arith, exec-Same (K.request_send handle w.stack) w)

  flush_notification-Same : (w : Worker K R App) (handle : ℕ) → Same w (flush_notification w handle)
  unfolding flush_notification
  flush_notification-Same w handle = elim (Option-cases (next_pending w.state handle)) [
    | inl e ↦ rw (e, flush_notification) (refl, refl)
    | inr ((q, s), e) ↦
        let w' = record w { state = s } in
        let sent_on = transmit-Same w' handle q in
        let more = request_more-Same (transmit w' handle q) handle in
        let kept = ap (λ (t : State App). t.connections) (next_pending-rest w.state s handle q e) in
        rw (e, flush_notification) (more.0 ∙ (sent_on.0 ∙ kept), more.1 ∙ sent_on.1)
  ]

  abbrev pub HasUnique : Worker K R App → Type 0
  HasUnique w = Unique w.state.connections w.generation

  on_link-Unique :
      (w : Worker K R App) (e : Event)
      → w.generation + 1 < u64_mod
      → HasUnique w
      → HasUnique (on_link w e)
  unfolding on_link
  on_link-Unique w e room u = elim (Bool-cases (nat_beq e.kind 3)) [
    | inl a ↦ rw (a, on_link) (connect-Unique w.state w.generation e.handle e.value room u)
    | inr a ↦ elim (Bool-cases (nat_beq e.kind 4)) [
      | inl b ↦ rw (a, b, on_link) (disconnect-Unique w.state w.generation e.handle u)
      | inr b ↦
          rw (a, b, on_link)
            (unfold exchange_mtu in
              set_mtu-Unique w.state w.generation e.handle e.value (w.state.connections e.handle)
                refl u)
    ]
  ]

  -- As long as the counter does not wrap, every event keeps the generations of the live connections
  -- below the counter and apart from one another: a generation names one connection.
  pub on_event-Unique :
      (w w' : Worker K R App) (b b' : Started) (e : Event)
      → w.generation + 1 < u64_mod
      → HasUnique w
      → on_event w b e ≡ ok (w', b')
      → HasUnique w'
  on_event-Unique w w' b b' e room u h = elim (on_event_cases w w' b b' e h) [
    | inl f ↦ rw f u
    | inr (inl (k, f)) ↦ rw f (on_link-Unique w e room u)
    | inr (inr f) ↦ let same = flush_notification-Same w e.handle in rw (f, same.0, same.1) u
  ]
