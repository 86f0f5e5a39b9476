-- ===== src/Runtime/Loop/Service.antt =====
-- What holds throughout the loop of the BTstack thread (btstack-core/src/runtime.rs, `run`).
use btstack_gatt_rs.Prelude.{
  ℕ, zero, suc, ◌≡◌, inl, inr, refl, List, [], ◌∷◌, ◌++◌, Option, none, some, Result, ok, err,
  Outcome, returned, panicked, arith, Bool-cases, List-cases, Option-cases, Result-cases, subst,
  not, ◌&&◌, ltb, if◌then◌else◌,
}
use btstack_gatt_rs.Types.{Uuid, Error, HciPacket, initialization_timed_out}
use btstack_gatt_rs.Gatt.{GattConnection}
use btstack_gatt_rs.Runtime.{State}
use btstack_gatt_rs.Runtime.Packet.{validate_packet}
use btstack_gatt_rs.Runtime.Notify.{enqueue}
use btstack_gatt_rs.Runtime.Invariant.{Inv}
use btstack_gatt_rs.Runtime.Invariant.Queue.{enqueue-Inv}
use btstack_gatt_rs.Runtime.Bridge.{Stack, Transport}
use btstack_gatt_rs.Runtime.Bridge.Worker.{Worker, Event, exec}
use btstack_gatt_rs.Runtime.Drain.{Started, on_event, drain}
use btstack_gatt_rs.Runtime.Drain.Safety.{exec-Inv, on_event-Inv}
use btstack_gatt_rs.Runtime.Loop.{
  Loop, Step, Step-cases, goes, finishes, fails, panics, stop, notify, queued, on_notify,
  take_commands, hand_over, received, check_failure, pump, check_clock,
}

module _ {K : Stack} {R : Transport} {App : Type 0} where
  -- The state is well formed, and the starter has been told once if advertising has started, and
  -- not before.
  pub record Sound (w : Worker K R App) (b : Started) : Type 0 where
    pub state : Inv w.state
    pub told : b.told ≡ (if b.started then 1 else 0)

  on_event-Sound :
      (w w' : Worker K R App) (b b' : Started) (e : Event)
      → Sound w b
      → on_event w b e ≡ ok (w', b')
      → Sound w' b'
  unfolding on_event
  on_event-Sound w w' b b' e s h = record {
    state = on_event-Inv w w' b b' e s.state h;
    told = ground (arith, s.told);
  }

  pub on_event_failed :
      (w w' : Worker K R App) (b : Started) (e : Event) (x : Error)
      → on_event w b e ≡ err (w', x)
      → w' ≡ w
  unfolding on_event
  on_event_failed w w' b e x h = ground arith

  abbrev pub After : Result (Worker K R App × Started) (Worker K R App × Error) → Type 0
  After (ok (w, b)) = Sound w b
  After (err (w, x)) = Inv w.state

  pub drain-After :
      (fuel : ℕ) (w : Worker K R App) (b : Started)
      (r : Result (Worker K R App × Started) (Worker K R App × Error))
      → Sound w b
      → drain fuel w b ≡ some r
      → After r
  unfolding drain
  drain-After zero w b r s h = cc
  drain-After (suc fuel) w b r s h = elim (List-cases w.queue) [
    | inl q ↦ subst After (ended q) s
    | inr (e, rest, q) ↦ elim (Result-cases (on_event (record w { queue = rest }) b e)) [
      | inl ((u, c), f) ↦
          drain-After fuel u c r
            (on_event-Sound (record w { queue = rest }) u b c e
              (record { state = s.state; told = s.told }) f)
            (ground arith)
      | inr ((u, x), f) ↦
          subst After {x = err (u, x)} (ground arith)
            (rw (on_event_failed (record w { queue = rest }) u b e x f) s.state)
    ]
  ]
    where
      ended : w.queue ≡ [] → ok (w, b) ≡ r
      ended q = ground arith

  -- A step of the loop keeps its state well formed and what it was told, however it leads on.
  abbrev pub Keeps : Step (Loop K R App) → Type 0
  Keeps (goes l) = Sound l.worker l.started
  Keeps (finishes l) = Sound l.worker l.started
  Keeps (fails l e) = Inv l.worker.state
  Keeps (panics l) = Inv l.worker.state

  abbrev pub KeepsWorker : Step (Worker K R App) → Type 0
  KeepsWorker (goes w) = Inv w.state
  KeepsWorker (finishes w) = Inv w.state
  KeepsWorker (fails w e) = Inv w.state
  KeepsWorker (panics w) = Inv w.state

  queued-Inv :
      (w : Worker K R App) (handle : ℕ) (r : Result (State App) Error)
      → Inv w.state
      → ((s : State App) → r ≡ ok s → Inv s)
      → Inv (queued w handle r).0.state
  unfolding queued
  queued-Inv w handle (ok s) v k =
      exec-Inv (K.request_send handle w.stack) (record w { state = s }) (k s refl)
  queued-Inv w handle (err e) v k = v

  on_notify-Inv :
      (w : Worker K R App) (c : GattConnection) (uuid : Uuid) (value : List ℕ)
      → Inv w.state
      → Inv (on_notify w c uuid value).0.state
  unfolding on_notify
  on_notify-Inv w c uuid value v =
      queued-Inv w c.handle (enqueue w.state c uuid value) v
        λ s e. enqueue-Inv w.state s c uuid value v e

  pub take_commands-Keeps :
      (left : ℕ) (l : Loop K R App) → Sound l.worker l.started → Keeps (take_commands left l)
  unfolding take_commands
  take_commands-Keeps zero l s = s
  take_commands-Keeps (suc left) l s = elim (List-cases l.commands) [
    | inl q ↦ elim (Bool-cases l.closed) [
      | inl c ↦ subst Keeps {x = finishes l} (ground arith) s
      | inr c ↦ subst Keeps {x = goes l} (ground arith) s
    ]
    | inr (stop, rest, q) ↦
        subst Keeps {x = finishes (record l { commands = rest })} (ground arith)
          (record { state = s.state; told = s.told })
    | inr (notify answer c uuid value, rest, q) ↦
        let r = on_notify l.worker c uuid value in
        let l' = record l {
          worker = r.0;
          commands = rest;
          answers = l.answers ++ (answer, r.1) ∷ [];
        } in
        subst Keeps {x = take_commands left l'} (ground arith) (
          take_commands-Keeps left l'
            (record { state = on_notify-Inv l.worker c uuid value s.state; told = s.told }))
  ]

  hand_over-Keeps : (w : Worker K R App) (p : HciPacket) → Inv w.state → KeepsWorker (hand_over w p)
  unfolding hand_over
  hand_over-Keeps w p v = elim (Result-cases (validate_packet p)) [
    | inl (u, e) ↦ rw (e, hand_over) (exec-Inv (K.receive p.kind p.payload w.stack) w v)
    | inr (x, e) ↦ rw (e, hand_over) v
  ]

  received-Keeps :
      (w : Worker K R App) (r : R.T × Outcome (Result (Option HciPacket) Error))
      → Inv w.state
      → KeepsWorker (received w r)
  unfolding received
  received-Keeps w (t, returned (ok none)) v = v
  received-Keeps w (t, returned (ok (some p))) v = hand_over-Keeps (record w { transport = t }) p v
  received-Keeps w (t, returned (err x)) v = v
  received-Keeps w (t, panicked) v = v

  check_failure-Keeps : (w : Worker K R App) → Inv w.state → KeepsWorker (check_failure w)
  unfolding check_failure
  check_failure-Keeps w v = elim (Option-cases w.failure) [
    | inl e ↦ subst KeepsWorker {x = goes w} (ground arith) v
    | inr (x, e) ↦ subst KeepsWorker {x = fails (record w { failure = none }) x} (ground arith) v
  ]

  pub pump-Keeps : (w : Worker K R App) → Inv w.state → KeepsWorker (pump w)
  unfolding pump
  pump-Keeps w v =
      let first = received-Keeps w (R.receive w.transport) v in
      elim (Step-cases (received w (R.receive w.transport))) [
        | inl (u, e) ↦
            rw (e, pump)
              (check_failure-Keeps (exec (K.poll u.stack) u).0
                (exec-Inv (K.poll u.stack) u (subst KeepsWorker e first)))
        | inr (inl (u, e)) ↦ rw (e, pump) (subst KeepsWorker e first)
        | inr (inr (inl (u, x, e))) ↦ rw (e, pump) (subst KeepsWorker e first)
        | inr (inr (inr (u, e))) ↦ rw (e, pump) (subst KeepsWorker e first)
      ]

  pub check_clock-Keeps :
      (elapsed : ℕ) (l : Loop K R App) → Sound l.worker l.started → Keeps (check_clock elapsed l)
  unfolding check_clock
  check_clock-Keeps elapsed l s = elim (Bool-cases (not l.started.started && ltb 20000 elapsed)) [
    | inl e ↦ subst Keeps {x = fails l initialization_timed_out} (ground arith) s.state
    | inr e ↦ subst Keeps {x = goes l} (ground arith) s
  ]
