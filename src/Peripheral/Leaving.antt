-- ===== src/Peripheral/Leaving.antt =====
-- How the example ends (examples/gatt-peripheral/src/main.rs).
use btstack_gatt_rs.Prelude.{
  ℕ, ◌≡◌, refl, Bool, true, false, List, [], ◌∷◌, Option, none, some, Result, err, arith,
  if◌then◌else◌, ◌||◌, find, Bool-cases, inl, inr, leb, ◌*◌, sym, ◌∙◌,
}
use btstack_gatt_rs.Types.{Error}
use btstack_gatt_rs.Gatt.{GattConnection}
use btstack_gatt_rs.Runtime.Loop.{Step, goes, finishes, fails, panics}
use btstack_gatt_rs.Peripheral.{Round, Serving, send_ticks, is_over, serve_loop, serve_until}
use btstack_gatt_rs.Peripheral.Subscribers.{raised, hear_cases}

-- The time of the program is over: so many seconds have passed at the head of the round.
abbrev pub time_over : Option ℕ → ℕ → Bool
time_over none checked = false
time_over (some seconds) checked = leb (1_000_000_000 * seconds) checked

-- The flag is set at the head of the round, or the time is over.
abbrev pub must_leave : Option ℕ → Round → Bool
must_leave seconds r = if r.stop then true else time_over seconds r.checked

is_over_lem : (seconds : Option ℕ) (r : Round) → is_over seconds r ≡ must_leave seconds r
unfolding is_over
is_over_lem none r = ground arith
is_over_lem (some seconds) r = ground arith

-- A round that ends the loop: at its head, or by what it receives.
abbrev pub is_last : Option ℕ → Round → Bool
is_last seconds r =
    must_leave seconds r || elim (raised r.received) [ some e ↦ true | none ↦ false ]

-- The result of the program, from the round that ends the loop.
abbrev pub result_of :
    Option ℕ → Result (Unit {0}) Error → Option Round → Option (Result (Unit {0}) Error)
result_of seconds shutdown none = none
result_of seconds shutdown (some r) = some (
    if must_leave seconds r
    then shutdown
    else elim (raised r.received) [ some e ↦ err e | none ↦ shutdown ])

abbrev pub leave : Result (Unit {0}) Error → Step Serving → Option (Result (Unit {0}) Error)
leave shutdown (goes x) = none
leave shutdown (finishes x) = some shutdown
leave shutdown (fails x e) = some (err e)
leave shutdown (panics x) = none

module _ (order : List GattConnection → List GattConnection) (seconds : Option ℕ) where
  serve_loop-leave :
      (shutdown : Result (Unit {0}) Error) (rounds : List Round) (x : Serving)
      → leave shutdown (serve_loop order seconds rounds x)
        ≡ result_of seconds shutdown (find (is_last seconds) rounds)
  unfolding serve_loop find
  serve_loop-leave shutdown [] x = refl
  serve_loop-leave shutdown (r ∷ rs) x = elim (Bool-cases (is_over seconds r)) [
    | inl e ↦
        let now : must_leave seconds r ≡ true = sym (is_over_lem seconds r) ∙ e in
        ground (arith, e, now)
    | inr e ↦
        let on : must_leave seconds r ≡ false = sym (is_over_lem seconds r) ∙ e in
        elim (hear_cases r.received x) [
          | inl (z, f, q, _, _) ↦
              rw (e, on, f, q, serve_loop) (serve_loop-leave shutdown rs (send_ticks order r z))
          | inr (w, f, q) ↦ ground (arith, e, on, f, q)
        ]
  ]

  -- The example, and the server of the Android example with no limit on the time, ends with the first
  -- round in which it finds the flag set or its time over, or receives an error or the end of the
  -- runtime, whatever else it receives and notifies. In the first two cases it gives the result of the
  -- shutdown, and otherwise the error.
  pub serve_until_lem :
      (tick : ℕ) (rounds : List Round) (shutdown : Result (Unit {0}) Error)
      → serve_until order seconds tick rounds shutdown
        ≡ result_of seconds shutdown (find (is_last seconds) rounds)
  unfolding serve_until
  serve_until_lem tick rounds shutdown =
      serve_loop-leave shutdown rounds (record { subscribers = []; tick = tick; calls = [] })
