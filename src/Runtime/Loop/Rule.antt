-- ===== src/Runtime/Loop/Rule.antt =====
-- What holds of the worker throughout `run` of btstack-core/src/runtime.rs, as a rule.
use btstack_gatt_rs.Prelude.{
  true, ℕ, zero, suc, ◌≡◌, inl, inr, List, [], ◌∷◌, ◌++◌, Option, none, some, Result, ok, err,
  Outcome, returned, panicked, arith, Bool-cases, List-cases, Option-cases, Result-cases, subst,
  not, ◌&&◌, ltb,
}
use btstack_gatt_rs.Types.{Uuid, Error, HciPacket}
use btstack_gatt_rs.Gatt.{GattConnection}
use btstack_gatt_rs.Runtime.Packet.{validate_packet}
use btstack_gatt_rs.Runtime.Bridge.{Stack, Transport, Calls}
use btstack_gatt_rs.Runtime.Bridge.Worker.{Worker, Event, exec}
use btstack_gatt_rs.Runtime.Drain.{Started, on_event, drain}
use btstack_gatt_rs.Runtime.Loop.{
  Loop, Turn, Step, Step-cases, last, goes, finishes, fails, panics, stop, notify, on_notify,
  take_commands, hand_over, received, check_failure, pump, check_clock, handle_events, after_pump,
  after_commands, turn, run,
}
use btstack_gatt_rs.Runtime.Loop.Service.{on_event_failed}
use btstack_gatt_rs.Runtime.Loop.Usual.{
  usual_event, drain_usual, pump_usual, commands_usual, turn_usual, run_usual,
}

-- What each part of a turn must keep.
pub record Stays {K : Stack} {R : Transport} {App : Type 0} (P : Worker K R App → Type 1)
    : Type 1 where
  pub calls : {A : Type 0} (c : Calls K.S A) (w : Worker K R App) → P w → P (exec c w).0
  pub notifies :
      (w : Worker K R App) (c : GattConnection) (uuid : Uuid) (value : List ℕ)
      → P w
      → P (on_notify w c uuid value).0
  pub handles :
      (w v : Worker K R App) (b b' : Started) (e : Event) (rest : List Event)
      → w.queue ≡ e ∷ rest
      → usual_event w e ≡ true
      → on_event (record w { queue = rest }) b e ≡ ok (v, b')
      → P w
      → P v
  pub drops : (w : Worker K R App) (rest : List Event) → P w → P (record w { queue = rest })
  pub transports : (w : Worker K R App) (t : R.T) → P w → P (record w { transport = t })
  pub failures : (w : Worker K R App) → P w → P (record w { failure = none })

module _ {K : Stack} {R : Transport} {App : Type 0} {P : Worker K R App → Type 1}
    (k : Stays P) where
  abbrev WorkerOf : Step (Loop K R App) → Type 1
  WorkerOf r = P (last r).worker

  take_commands-Stays : (left : ℕ) (l : Loop K R App) → P l.worker → WorkerOf (take_commands left l)
  unfolding take_commands
  take_commands-Stays zero l p = p
  take_commands-Stays (suc left) l p = elim (List-cases l.commands) [
    | inl q ↦ elim (Bool-cases l.closed) [
      | inl c ↦ rw (q, c, take_commands) p
      | inr c ↦ rw (q, c, take_commands) p
    ]
    | inr (stop, rest, q) ↦ rw (q, take_commands) p
    | inr (notify answer c uuid value, rest, q) ↦
        let r = on_notify l.worker c uuid value in
        let l' = record l {
          worker = r.0;
          commands = rest;
          answers = l.answers ++ (answer, r.1) ∷ [];
        } in
        rw (q, take_commands) (take_commands-Stays left l' (k.notifies l.worker c uuid value p))
  ]

  hand_over-Stays : (w : Worker K R App) (p : HciPacket) → P w → P (last (hand_over w p))
  unfolding hand_over
  hand_over-Stays w p h = elim (Result-cases (validate_packet p)) [
    | inl (u, e) ↦ rw (e, hand_over) (k.calls (K.receive p.kind p.payload w.stack) w h)
    | inr (x, e) ↦ rw (e, hand_over) h
  ]

  received-Stays :
      (w : Worker K R App) (r : R.T × Outcome (Result (Option HciPacket) Error))
      → P w
      → P (last (received w r))
  unfolding received
  received-Stays w (t, returned (ok none)) h = k.transports w t h
  received-Stays w (t, returned (ok (some p))) h =
      hand_over-Stays (record w { transport = t }) p (k.transports w t h)
  received-Stays w (t, returned (err x)) h = k.transports w t h
  received-Stays w (t, panicked) h = k.transports w t h

  check_failure-Stays : (w : Worker K R App) → P w → P (last (check_failure w))
  unfolding check_failure
  check_failure-Stays w h = elim (Option-cases w.failure) [
    | inl e ↦ rw (e, check_failure) h
    | inr (x, e) ↦ rw (e, check_failure) (k.failures w h)
  ]

  pump-Stays : (w : Worker K R App) → P w → P (last (pump w))
  unfolding pump
  pump-Stays w h =
      let first = received-Stays w (R.receive w.transport) h in
      elim (Step-cases (received w (R.receive w.transport))) [
        | inl (u, e) ↦
            rw (e, pump)
              (check_failure-Stays (exec (K.poll u.stack) u).0
                (k.calls (K.poll u.stack) u (subst (λ x. P (last x)) e first)))
        | inr (inl (u, e)) ↦ rw (e, pump) (subst (λ x. P (last x)) e first)
        | inr (inr (inl (u, x, e))) ↦ rw (e, pump) (subst (λ x. P (last x)) e first)
        | inr (inr (inr (u, e))) ↦ rw (e, pump) (subst (λ x. P (last x)) e first)
      ]

  abbrev Drained : Result (Worker K R App × Started) (Worker K R App × Error) → Type 1
  Drained (ok (w, b)) = P w
  Drained (err (w, x)) = P w

  drain-Stays :
      (fuel : ℕ) (w : Worker K R App) (b : Started)
      (r : Result (Worker K R App × Started) (Worker K R App × Error))
      → P w
      → drain_usual fuel w b ≡ true
      → drain fuel w b ≡ some r
      → Drained r
  unfolding drain drain_usual
  drain-Stays zero w b r p m h = cc
  drain-Stays (suc fuel) w b r p m h = elim (List-cases w.queue) [
    | inl q ↦ subst Drained {x = ok (w, b)} (ground arith) p
    | inr (e, rest, q) ↦ elim (Result-cases (on_event (record w { queue = rest }) b e)) [
      | inl ((u, c), f) ↦
          let usual : usual_event w e ≡ true = ground (arith, m, q) in
          let others : drain_usual fuel u c ≡ true = ground (arith, m, q, f) in
          drain-Stays fuel u c r (k.handles w u b c e rest q usual f p) others (ground arith)
      | inr ((u, x), f) ↦
          subst Drained {x = err (u, x)} (ground arith)
            (rw (on_event_failed (record w { queue = rest }) u b e x f) (k.drops w rest p))
    ]
  ]

  check_clock-Stays :
      (elapsed : ℕ) (l : Loop K R App) → P l.worker → WorkerOf (check_clock elapsed l)
  unfolding check_clock
  check_clock-Stays elapsed l p = elim (Bool-cases (not l.started.started && ltb 20000 elapsed)) [
    | inl e ↦ rw (e, check_clock) p
    | inr e ↦ rw (e, check_clock) p
  ]

  handle_events-Stays :
      (fuel elapsed : ℕ) (l : Loop K R App) (w : Worker K R App) (r : Step (Loop K R App))
      → P w
      → drain_usual fuel w l.started ≡ true
      → handle_events fuel elapsed l w ≡ some r
      → WorkerOf r
  unfolding handle_events
  handle_events-Stays fuel elapsed l w r p m h = elim (Option-cases (drain fuel w l.started)) [
    | inl e ↦ absurd (ground arith)
    | inr (ok (v, b), e) ↦
        let l' = record l { worker = v; started = b } in
        let now : r ≡ check_clock elapsed l' = ground arith in
        rw now (check_clock-Stays elapsed l' (drain-Stays fuel w l.started (ok (v, b)) p m e))
    | inr (err (v, x), e) ↦
        let now : r ≡ fails (record l { worker = v }) x = ground arith in
        rw now (drain-Stays fuel w l.started (err (v, x)) p m e)
  ]

  after_pump-Stays :
      (fuel elapsed : ℕ) (l : Loop K R App) (s : Step (Worker K R App)) (r : Step (Loop K R App))
      → P (last s)
      → pump_usual fuel l.started s ≡ true
      → after_pump fuel elapsed l s ≡ some r
      → WorkerOf r
  unfolding after_pump
  after_pump-Stays fuel elapsed l (goes w) r p m h = handle_events-Stays fuel elapsed l w r p m h
  after_pump-Stays fuel elapsed l (finishes w) r p m h =
      let now : r ≡ finishes (record l { worker = w }) = ground arith in rw now p
  after_pump-Stays fuel elapsed l (fails w e) r p m h =
      let now : r ≡ fails (record l { worker = w }) e = ground arith in rw now p
  after_pump-Stays fuel elapsed l (panics w) r p m h =
      let now : r ≡ panics (record l { worker = w }) = ground arith in rw now p

  after_commands-Stays :
      (fuel elapsed : ℕ) (c r : Step (Loop K R App))
      → WorkerOf c
      → commands_usual fuel c ≡ true
      → after_commands fuel elapsed c ≡ some r
      → WorkerOf r
  unfolding after_commands
  after_commands-Stays fuel elapsed (goes l) r p m h =
      after_pump-Stays fuel elapsed l (pump l.worker) r (pump-Stays l.worker p) m h
  after_commands-Stays fuel elapsed (finishes l) r p m h =
      let now : r ≡ finishes l = ground arith in rw now p
  after_commands-Stays fuel elapsed (fails l e) r p m h =
      let now : r ≡ fails l e = ground arith in rw now p
  after_commands-Stays fuel elapsed (panics l) r p m h =
      let now : r ≡ panics l = ground arith in rw now p

  turn-Stays :
      (fuel : ℕ) (t : Turn) (l : Loop K R App) (r : Step (Loop K R App))
      → P l.worker
      → turn_usual fuel t l ≡ true
      → turn fuel t l ≡ some r
      → WorkerOf r
  unfolding turn turn_usual
  turn-Stays fuel t l r p m h =
      let l' : Loop K R App = record l { commands = l.commands ++ t.arrived; closed = t.closed } in
      after_commands-Stays fuel t.elapsed (take_commands 128 l') r (take_commands-Stays 128 l' p) m
        h

  pub run-Stays :
      (fuel : ℕ) (ts : List Turn) (l : Loop K R App) (r : Step (Loop K R App))
      → P l.worker
      → run_usual fuel ts l ≡ true
      → run fuel ts l ≡ some r
      → WorkerOf r
  unfolding run run_usual
  run-Stays fuel [] l r p m h = let now : r ≡ goes l = ground arith in rw now p
  run-Stays fuel (t ∷ ts) l r p m h =
      let now : turn_usual fuel t l ≡ true = ground (arith, m) in
      elim (Option-cases (turn fuel t l)) [
        | inl e ↦ absurd (ground arith)
        | inr (goes l', e) ↦
            run-Stays fuel ts l' r (turn-Stays fuel t l (goes l') p now e) (ground (arith, m, e))
              (ground arith)
        | inr (finishes l', e) ↦
            let ends : r ≡ finishes l' = ground arith in
            rw ends (turn-Stays fuel t l (finishes l') p now e)
        | inr (fails l' x, e) ↦
            let ends : r ≡ fails l' x = ground arith in
            rw ends (turn-Stays fuel t l (fails l' x) p now e)
        | inr (panics l', e) ↦
            let ends : r ≡ panics l' = ground arith in
            rw ends (turn-Stays fuel t l (panics l') p now e)
      ]
