-- ===== src/Peripheral/Subscribers.antt =====
-- Whom the example notifies (examples/gatt-peripheral/src/main.rs).
use mathlib.Core.List.{reverse-append}
use btstack_gatt_rs.Prelude.{
  ℕ, ◌≡◌, refl, List, [], ◌∷◌, ◌++◌, Option, none, some, arith, if◌then◌else◌, ◌⊎◌, reverse,
  Bool-cases, inl, inr, ◌==◌, nat_eq, ap, sym, ◌∙◌,
}
use btstack_gatt_rs.Types.{Error, runtime_stopped}
use btstack_gatt_rs.Gatt.{
  GattConnection, id, notify, unsubscribed, ServerEvent, connected, disconnected,
  subscription_changed, notification_failed, error,
}
use btstack_gatt_rs.Runtime.Loop.{goes, fails}
use btstack_gatt_rs.Peripheral.{
  Subscribers, unsubscribe, subscribe_to, Received, event, timed_out, hung_up, Round, Serving, hear,
  send_ticks, serve_loop, is_over,
}

-- `HashMap::get`.
abbrev pub lookup : ℕ → Subscribers → Option GattConnection
lookup key [] = none
lookup key ((k, c) ∷ m) = if k == key then some c else lookup key m

-- What an event says about the connection of this id, if it is about its subscription.
abbrev pub verdict : ℕ → ServerEvent → Option (Option GattConnection)
verdict key (subscription_changed c uuid notify) =
    if c.generation == key then some (some c) else none
verdict key (subscription_changed c uuid unsubscribed) =
    if c.generation == key then some none else none
verdict key (disconnected c) = if c.generation == key then some none else none
verdict key (connected c) = none
verdict key (notification_failed c code) = none
verdict key (error e) = none

-- The most recent verdict; the events have the newest first.
unfoldable pub latest : ℕ → List ServerEvent → Option GattConnection → Option GattConnection
latest key [] before = before
latest key (e ∷ older) before = elim (verdict key e) [ some v ↦ v | none ↦ latest key older before ]

abbrev pub received_events : Received → List ServerEvent
received_events (event e) = e ∷ []
received_events timed_out = []
received_events hung_up = []

abbrev pub heard : List Round → List ServerEvent
heard [] = []
heard (r ∷ rs) = received_events r.received ++ heard rs

pub latest-append :
    (key : ℕ) (newer older : List ServerEvent) (before : Option GattConnection)
    → latest key (newer ++ older) before ≡ latest key newer (latest key older before)
unfolding latest
latest-append key [] older before = refl
latest-append key (e ∷ newer) older before =
    ap (λ rest. elim (verdict key e) [ some v ↦ v | none ↦ rest ])
      (latest-append key newer older before)

pub lookup-unsubscribe :
    (key gone : ℕ) (m : Subscribers)
    → lookup key (unsubscribe gone m) ≡ (if gone == key then none else lookup key m)
unfolding unsubscribe
lookup-unsubscribe key gone [] = ground arith
lookup-unsubscribe key gone ((k, c) ∷ m) = ground (arith, lookup-unsubscribe key gone m)

pub hear-latest :
    (key : ℕ) (r : Received) (x y : Serving)
    → hear r x ≡ goes y
    → lookup key y.subscribers ≡ latest key (received_events r) (lookup key x.subscribers)
unfolding hear latest id subscribe_to
hear-latest key (event (subscription_changed c uuid notify)) x y h =
    ground (arith, h, lookup-unsubscribe key c.generation x.subscribers)
hear-latest key (event (subscription_changed c uuid unsubscribed)) x y h =
    ground (arith, h, lookup-unsubscribe key c.generation x.subscribers)
hear-latest key (event (disconnected c)) x y h =
    ground (arith, h, lookup-unsubscribe key c.generation x.subscribers)
hear-latest key (event (error e)) x y h = cc
hear-latest key (event (connected c)) x y h = ground (arith, h)
hear-latest key (event (notification_failed c code)) x y h = ground (arith, h)
hear-latest key timed_out x y h = ground (arith, h)
hear-latest key hung_up x y h = cc

pub send_ticks_subscribers :
    (order : List GattConnection → List GattConnection) (r : Round) (x : Serving)
    → (send_ticks order r x).subscribers ≡ x.subscribers
unfolding send_ticks
send_ticks_subscribers order r x = ground arith

pub received_events-reverse : (r : Received) → reverse (received_events r) ≡ received_events r
received_events-reverse (event e) = refl
received_events-reverse timed_out = refl
received_events-reverse hung_up = refl

-- The error with which the loop is left.
abbrev pub raised : Received → Option Error
raised (event (error e)) = some e
raised (event (subscription_changed c uuid kind)) = none
raised (event (disconnected c)) = none
raised (event (connected c)) = none
raised (event (notification_failed c code)) = none
raised timed_out = none
raised hung_up = some runtime_stopped

pub hear_cases :
    (r : Received) (x : Serving)
    → ((y : Serving) × (hear r x ≡ goes y)
        × (raised r ≡ none)
        × (y.tick ≡ x.tick)
        × (y.calls ≡ x.calls))
      ⊎ ((e : Error) × (hear r x ≡ fails x e) × (raised r ≡ some e))
unfolding hear
hear_cases (event (subscription_changed c uuid notify)) x = inl (_, refl, refl, refl, refl)
hear_cases (event (subscription_changed c uuid unsubscribed)) x = inl (_, refl, refl, refl, refl)
hear_cases (event (disconnected c)) x = inl (_, refl, refl, refl, refl)
hear_cases (event (connected c)) x = inl (_, refl, refl, refl, refl)
hear_cases (event (notification_failed c code)) x = inl (_, refl, refl, refl, refl)
hear_cases timed_out x = inl (_, refl, refl, refl, refl)
hear_cases (event (error e)) x = inr (e, refl, refl)
hear_cases hung_up x = inr (runtime_stopped, refl, refl)

module _ (order : List GattConnection → List GattConnection) (seconds : Option ℕ) where
  -- A loop that goes on after a round has been through the whole of it.
  pub serve_loop_inv :
      (r : Round) (rs : List Round) (x y : Serving)
      → serve_loop order seconds (r ∷ rs) x ≡ goes y
      → (z : Serving) × (hear r.received x ≡ goes z)
        × (serve_loop order seconds rs (send_ticks order r z) ≡ goes y)
  unfolding serve_loop
  serve_loop_inv r rs x y h = elim (Bool-cases (is_over seconds r)) [
    | inl e ↦ absurd (ground (arith, h, e))
    | inr e ↦ elim (hear_cases r.received x) [
      | inl (z, f, _, _, _) ↦ (z, f, ground (arith, h, e, f))
      | inr (w, f, _) ↦ absurd (ground (arith, h, e, f))
    ]
  ]

  -- What the table holds after the loop has heard all of these rounds.
  pub serve_loop-latest :
      (key : ℕ) (rounds : List Round) (x y : Serving)
      → serve_loop order seconds rounds x ≡ goes y
      → lookup key y.subscribers ≡ latest key (reverse (heard rounds)) (lookup key x.subscribers)
  unfolding serve_loop latest
  serve_loop-latest key [] x y h = ground (arith, h)
  serve_loop-latest key (r ∷ rs) x y h =
      let (z, f, more) = serve_loop_inv r rs x y h in
      let now = received_events r.received in
      serve_loop-latest key rs (send_ticks order r z) y more
      ∙ ap (λ m. latest key (reverse (heard rs)) (lookup key m)) (send_ticks_subscribers order r z)
      ∙ ap (latest key (reverse (heard rs))) (hear-latest key r.received x z f)
      ∙ sym (latest-append key (reverse (heard rs)) now (lookup key x.subscribers))
      ∙ ap (λ es. latest key es (lookup key x.subscribers))
          (ap (λ es. reverse (heard rs) ++ es) (sym (received_events-reverse r.received))
            ∙ sym (reverse-append now (heard rs)))
