-- ===== src/Runtime/Loop/Total.antt =====
-- The loop gives a result with enough fuel (btstack-core/src/runtime.rs, `run`).
use btstack_gatt_rs.Prelude.{
  ℕ, zero, suc, ◌+◌, ◌≤◌, ◌≡◌, inl, inr, refl, List, [], ◌∷◌, ◌++◌, Option, some, Result, ok, err,
  arith, List-cases, Result-cases,
}
use btstack_gatt_rs.Types.{Error}
use btstack_gatt_rs.Runtime.Bridge.{Stack, Transport}
use btstack_gatt_rs.Runtime.Bridge.Worker.{Worker}
use btstack_gatt_rs.Runtime.Drain.{Started, on_event, drain}
use btstack_gatt_rs.Runtime.Drain.Progress.{drain_ends}
use btstack_gatt_rs.Runtime.Loop.{
  Loop, Turn, Step, goes, finishes, fails, panics, take_commands, pump, check_clock, handle_events,
  after_pump, after_commands, turn, run,
}

-- With this fuel and with any more the result is the same.
abbrev pub Settles {ℓ} : {A : Type ℓ} → (ℕ → Option A) → Type ℓ
Settles {A} f = (n : ℕ) × (r : A) × ((g : ℕ) → n ≤ g → f g ≡ some r)

module _ {K : Stack} {R : Transport} {App : Type 0} where
  drain_mono :
      (f g : ℕ) (w : Worker K R App) (b : Started)
      (r : Result (Worker K R App × Started) (Worker K R App × Error))
      → drain f w b ≡ some r
      → f ≤ g
      → drain g w b ≡ some r
  unfolding drain
  drain_mono zero g w b r h l = cc
  drain_mono (suc f) zero w b r h l = absurd (omega arith)
  drain_mono (suc f) (suc g) w b r h l = elim (List-cases w.queue) [
    | inl q ↦ ground arith
    | inr (e, rest, q) ↦ elim (Result-cases (on_event (record w { queue = rest }) b e)) [
      | inl ((u, c), k) ↦
          let later : drain f u c ≡ some r = ground arith in
          let more = drain_mono f g u c r later (omega arith) in ground (arith, more)
      | inr ((u, x), k) ↦ ground arith
    ]
  ]

  handle_events-Settles :
      (elapsed : ℕ) (l : Loop K R App) (w : Worker K R App)
      → Settles (λ f. handle_events f elapsed l w)
  unfolding handle_events
  handle_events-Settles elapsed l w = go (drain_ends w l.started)
    where
      go :
          (f : ℕ) × (r : Result (Worker K R App × Started) (Worker K R App × Error)) × (drain f w
                l.started
              ≡ some r)
          → Settles (λ f. handle_events f elapsed l w)
      go (f, ok (v, b), h) = (
        f,
        check_clock elapsed (record l { worker = v; started = b }),
        λ g k. rw (drain_mono f g w l.started (ok (v, b)) h k, handle_events) refl,
      )
      go (f, err (v, x), h) = (
        f,
        fails (record l { worker = v }) x,
        λ g k. rw (drain_mono f g w l.started (err (v, x)) h k, handle_events) refl,
      )

  after_pump-Settles :
      (elapsed : ℕ) (l : Loop K R App) (p : Step (Worker K R App))
      → Settles (λ f. after_pump f elapsed l p)
  unfolding after_pump
  after_pump-Settles elapsed l (goes w) = handle_events-Settles elapsed l w
  after_pump-Settles elapsed l (finishes w) = (0, finishes (record l { worker = w }), λ g k. refl)
  after_pump-Settles elapsed l (fails w e) = (0, fails (record l { worker = w }) e, λ g k. refl)
  after_pump-Settles elapsed l (panics w) = (0, panics (record l { worker = w }), λ g k. refl)

  after_commands-Settles :
      (elapsed : ℕ) (c : Step (Loop K R App)) → Settles (λ f. after_commands f elapsed c)
  unfolding after_commands
  after_commands-Settles elapsed (goes l) = after_pump-Settles elapsed l (pump l.worker)
  after_commands-Settles elapsed (finishes l) = (0, finishes l, λ g k. refl)
  after_commands-Settles elapsed (fails l e) = (0, fails l e, λ g k. refl)
  after_commands-Settles elapsed (panics l) = (0, panics l, λ g k. refl)

  turn-Settles : (t : Turn) (l : Loop K R App) → Settles (λ f. turn f t l)
  unfolding turn
  turn-Settles t l =
      after_commands-Settles t.elapsed
        (take_commands 128 (record l { commands = l.commands ++ t.arrived; closed = t.closed }))

  -- For any number of turns the loop has a result: from some fuel on it is the same one, so no turn
  -- waits for ever in the loop over the events.
  pub run-Settles : (ts : List Turn) (l : Loop K R App) → Settles (λ f. run f ts l)
  unfolding run
  run-Settles [] l = (0, goes l, λ g k. refl)
  run-Settles (t ∷ ts) l = first (turn-Settles t l) (run-Settles ts)
    where
      first :
          Settles (λ f. turn f t l)
          → ((l' : Loop K R App) → Settles (λ f. run f ts l'))
          → Settles (λ f. run f (t ∷ ts) l)
      first (n, goes l', h) later =
          let (m, r, k) = later l' in
          (n + m, r, λ g b. rw (h g (omega arith), run) (k g (omega arith)))
      first (n, finishes l', h) later = (n, finishes l', λ g b. rw (h g b, run) refl)
      first (n, fails l' e, h) later = (n, fails l' e, λ g b. rw (h g b, run) refl)
      first (n, panics l', h) later = (n, panics l', λ g b. rw (h g b, run) refl)
