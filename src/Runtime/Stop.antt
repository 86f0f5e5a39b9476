-- ===== src/Runtime/Stop.antt =====
-- `stop_controller` of btstack-core/src/runtime.rs: power off, and pump until the controller is off or
-- three seconds have passed. The clock is the list of its readings in milliseconds, one for each pass.
use btstack_gatt_rs.Prelude.{
  ℕ, ◌+◌, ◌≡◌, ◌≢◌, inl, inr, true, false, List, [], ◌∷◌, Option, none, some, leb, any, arith,
  Bool-cases, Result, ok, err, Outcome, returned, panicked,
}
use btstack_gatt_rs.Types.{Error, HciPacket, shutdown_timed_out}
use btstack_gatt_rs.Runtime.Bridge.{Stack, Transport}
use btstack_gatt_rs.Runtime.Bridge.Worker.{Worker, exec}
use btstack_gatt_rs.Runtime.Loop.{
  Step, Step-cases, goes, finishes, fails, panics, pump, received, hand_over,
}

module _ {K : Stack} {R : Transport} {App : Type 0} where
  -- `goes` where the readings end before the loop does.
  unfoldable pub stop_loop : ℕ → List ℕ → Worker K R App → Step (Worker K R App)
  unfolding pump
  stop_loop deadline [] w = goes w
  stop_loop deadline (now ∷ later) w = elim (K.is_off w.stack) [
    | true ↦ finishes w
    | false ↦ elim (leb deadline now) [
      | true ↦ fails w shutdown_timed_out
      | false ↦ elim (pump w) [
        | goes v ↦ stop_loop deadline later v
        | finishes v ↦ finishes v
        | fails v e ↦ fails v e
        | panics v ↦ panics v
      ]
    ]
  ]

  unfoldable pub stop_controller : ℕ → List ℕ → Worker K R App → Step (Worker K R App)
  unfolding stop_loop
  stop_controller start readings w = stop_loop (start + 3000) readings (exec (K.stop w.stack) w).0

  hand_over_on : (w v : Worker K R App) (p : HciPacket) → hand_over w p ≢ finishes v
  unfolding hand_over
  hand_over_on w v p = λ e. ground arith

  received_on :
      (w v : Worker K R App) (r : R.T × Outcome (Result (Option HciPacket) Error))
      → received w r ≢ finishes v
  unfolding received
  received_on w v (t, returned (ok none)) = λ e. cc
  received_on w v (t, returned (ok (some p))) = hand_over_on (record w { transport = t }) v p
  received_on w v (t, returned (err x)) = λ e. cc
  received_on w v (t, panicked) = λ e. cc

  -- A pump goes on, fails or panics.
  pump_on : (w v : Worker K R App) → pump w ≢ finishes v
  unfolding pump
  pump_on w v = λ e. ground (arith, received_on w v (R.receive w.transport))

  -- The controller is off, or the attempt has ended in an error or a panic.
  abbrev pub Stopped : Step (Worker K R App) → Type 0
  Stopped (goes w) = ⊥
  Stopped (finishes w) = K.is_off w.stack ≡ true
  Stopped (fails w e) = Unit
  Stopped (panics w) = Unit

  stop_loop-Stopped :
      (deadline : ℕ) (readings : List ℕ) (w : Worker K R App)
      → any (leb deadline) readings ≡ true
      → Stopped (stop_loop deadline readings w)
  unfolding stop_loop any
  stop_loop-Stopped deadline [] w h = cc
  stop_loop-Stopped deadline (now ∷ later) w h = elim (Bool-cases (K.is_off w.stack)) [
    | inl e ↦ rw (e, stop_loop) e
    | inr e ↦ elim (Bool-cases (leb deadline now)) [
      | inl f ↦ rw (e, f, stop_loop) tt
      | inr f ↦ elim (Step-cases (pump w)) [
        | inl (v, g) ↦ rw (e, f, g, stop_loop) (stop_loop-Stopped deadline later v (ground arith))
        | inr (inl (v, g)) ↦ absurd (pump_on w v g)
        | inr (inr (inl (v, x, g))) ↦ rw (e, f, g, stop_loop) tt
        | inr (inr (inr (v, g))) ↦ rw (e, f, g, stop_loop) tt
      ]
    ]
  ]

  -- The shutdown ends: once the clock has been read three seconds or more after the start, the loop has
  -- been left, and it has been left without an error only with the controller off.
  pub stop_controller-Stopped :
      (start : ℕ) (readings : List ℕ) (w : Worker K R App)
      → any (leb (start + 3000)) readings ≡ true
      → Stopped (stop_controller start readings w)
  unfolding stop_controller
  stop_controller-Stopped start readings w h =
      stop_loop-Stopped (start + 3000) readings (exec (K.stop w.stack) w).0 h
