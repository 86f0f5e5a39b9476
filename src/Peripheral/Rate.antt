-- ===== src/Peripheral/Rate.antt =====
-- How often the example notifies a connection (examples/gatt-peripheral/src/main.rs).
use btstack_gatt_rs.Prelude.{
  count, count-append, count-map, ℕ, ◌+◌, ◌-◌, ◌*◌, ◌≤◌, ◌≡◌, refl, Bool, List, [], ◌∷◌, ◌++◌,
  Option, none, some, arith, if◌then◌else◌, leb, reverse, map, All, Bool-cases, inl, inr, nat_eq,
  ap, sym, ◌∙◌, subst,
}
use btstack_gatt_rs.Gatt.{GattConnection}
use btstack_gatt_rs.Runtime.Loop.{goes, last}
use btstack_gatt_rs.Peripheral.{
  Subscribers, Received, Round, Serving, hear, send_ticks, serve_loop, is_over, tick_calls, second,
}
use btstack_gatt_rs.Peripheral.Subscribers.{
  lookup, hear-latest, received_events, send_ticks_subscribers, latest-append, hear_cases, latest,
  heard, serve_loop-latest, serve_loop_inv,
}
use btstack_gatt_rs.Peripheral.Counts.{is_to, calls_to, one_if, Keyed, hear-Keyed}

hear_keeps :
    (r : Received) (x y : Serving) → hear r x ≡ goes y → (y.tick ≡ x.tick) × (y.calls ≡ x.calls)
hear_keeps r x y h = elim (hear_cases r x) [
  | inl (z, f, _, t, c) ↦ let e : z ≡ y = ground (arith, f, h) in rw (← e) (t, c)
  | inr (e, f, _) ↦ absurd (ground (arith, h, f))
]

one_if-le : (o : Option GattConnection) → one_if o ≤ 1
one_if-le none = omega arith
one_if-le (some c) = omega arith

abbrev pub at_start : ℕ → Serving
at_start tick = record { subscribers = []; tick = tick; calls = [] }

at_start-Keyed : Keyed []
unfolding count
at_start-Keyed = record { named = tt; single = λ key. refl }

-- What is known of the order in which a hash map gives its values: it gives each of them once.
abbrev pub VisitsOnce : (List GattConnection → List GattConnection) → Type 0
VisitsOnce order =
    (p : GattConnection → Bool) (xs : List GattConnection) → count p (order xs) ≡ count p xs

module _ (order : List GattConnection → List GattConnection) (visits : VisitsOnce order)
    (key : ℕ) where
  tick_calls-count :
      (now : ℕ) (m : Subscribers)
      → Keyed m
      → calls_to key (tick_calls order now m) ≡ one_if (lookup key m)
  unfolding tick_calls
  tick_calls-count now m k =
      count-map (λ call. is_to key call.0) _ (order (map (λ e. e.1) m))
      ∙ visits (is_to key) (map (λ e. e.1) m)
      ∙ count-map (is_to key) (λ e. e.1) m
      ∙ k.single key

  send_ticks-count :
      (r : Round) (x : Serving)
      → Keyed x.subscribers
      → calls_to key (send_ticks order r x).calls
        ≡ calls_to key x.calls
          + (if leb second (r.ticked - x.tick) then one_if (lookup key x.subscribers) else 0)
  unfolding send_ticks
  send_ticks-count r x k = elim (Bool-cases (leb second (r.ticked - x.tick))) [
    | inl h ↦
        rw
          (
            h,
            send_ticks,
            count-append (λ call. is_to key call.0) x.calls
                (tick_calls order r.printed x.subscribers),
          )
          (ap (λ n. calls_to key x.calls + n) (tick_calls-count r.printed x.subscribers k))
    | inr h ↦ rw (h, send_ticks) (omega arith)
  ]

  -- No more calls than seconds have passed.
  record Rated (t0 : ℕ) (x : Serving) : Type 0 where
    keyed : Keyed x.subscribers
    paced : calls_to key x.calls * second + t0 ≤ x.tick

  send_ticks-Rated :
      (t0 : ℕ) (r : Round) (x : Serving)
      → r.ticked ≤ r.reset
      → Rated t0 x
      → Rated t0 (send_ticks order r x)
  unfolding send_ticks
  send_ticks-Rated t0 r x clock v = record {
    keyed = subst Keyed (sym (send_ticks_subscribers order r x)) v.keyed;
    paced = elim (Bool-cases (leb second (r.ticked - x.tick))) [
      | inl h ↦
          let one = one_if-le (lookup key x.subscribers) in
          let n = send_ticks-count r x v.keyed in ground (arith, h, n, one, clock, v.paced)
      | inr h ↦ rw (h, send_ticks) v.paced
    ];
  }

  hear-Rated : (t0 : ℕ) (r : Received) (x y : Serving) → hear r x ≡ goes y → Rated t0 x → Rated t0 y
  hear-Rated t0 r x y h v =
      let (t, c) = hear_keeps r x y h in
      record { keyed = hear-Keyed r x y h v.keyed; paced = rw (t, c) v.paced }

  serve_loop-Rated :
      (t0 : ℕ) (seconds : Option ℕ) (rounds : List Round) (x : Serving)
      → All (λ r. r.ticked ≤ r.reset) rounds
      → Rated t0 x
      → Rated t0 (last (serve_loop order seconds rounds x))
  unfolding serve_loop
  serve_loop-Rated t0 seconds [] x clocks v = v
  serve_loop-Rated t0 seconds (r ∷ rs) x (clock, clocks) v = elim (Bool-cases (is_over seconds r)) [
    | inl e ↦ rw (e, serve_loop) v
    | inr e ↦ elim (hear_cases r.received x) [
      | inl (z, f, _, _, _) ↦
          rw (e, f, serve_loop)
            (serve_loop-Rated t0 seconds rs (send_ticks order r z) clocks
              (send_ticks-Rated t0 r z clock (hear-Rated t0 r.received x z f v)))
      | inr (w, f, _) ↦ rw (e, f, serve_loop) v
    ]
  ]

  run-Keyed :
      (seconds : Option ℕ) (rounds : List Round) (x y : Serving)
      → serve_loop order seconds rounds x ≡ goes y
      → Keyed x.subscribers
      → Keyed y.subscribers
  unfolding serve_loop
  run-Keyed seconds [] x y h k = let e : x ≡ y = ground (arith, h) in rw (← e) k
  run-Keyed seconds (r ∷ rs) x y h k =
      let (z, f, more) = serve_loop_inv order seconds r rs x y h in
      run-Keyed seconds rs (send_ticks order r z) y more
        (subst Keyed (sym (send_ticks_subscribers order r z)) (hear-Keyed r.received x z f k))

  -- However often the loop comes round and whatever it receives: it makes at most one call of `notify`
  -- a second for a connection, counted from its start to its last tick. (The clock does not go back, and
  -- the hash map gives each value once.)
  pub serve_loop-rate :
      (tick : ℕ) (seconds : Option ℕ) (rounds : List Round)
      → All (λ r. r.ticked ≤ r.reset) rounds
      → let x = last (serve_loop order seconds rounds (at_start tick)) in
        calls_to key x.calls * second + tick ≤ x.tick
  unfolding count
  serve_loop-rate tick seconds rounds clocks =
      (serve_loop-Rated tick seconds rounds (at_start tick) clocks
        (record { keyed = at_start-Keyed; paced = omega arith })).paced

  -- In each round, once a second has passed since the last tick, the loop calls `notify` exactly once
  -- for each connection whose latest event on its subscription was that it subscribed, and for no
  -- other; before that it calls it for none. (The hash map gives each value once.)
  pub send_ticks-latest :
      (tick : ℕ) (seconds : Option ℕ) (rounds : List Round) (r : Round) (x y : Serving)
      → serve_loop order seconds rounds (at_start tick) ≡ goes x
      → hear r.received x ≡ goes y
      → calls_to key (send_ticks order r y).calls
        ≡ calls_to key x.calls
          + (if leb second (r.ticked - x.tick)
              then one_if (latest key (received_events r.received ++ reverse (heard rounds)) none)
              else 0)
  send_ticks-latest tick seconds rounds r x y h g =
      let (t, c) = hear_keeps r.received x y g in
      let l =
        hear-latest key r.received x y g
        ∙ ap (latest key (received_events r.received))
            (serve_loop-latest order seconds key rounds (at_start tick) x h)
        ∙ sym (latest-append key (received_events r.received) (reverse (heard rounds)) none) in
      let k =
        hear-Keyed r.received x y g (run-Keyed seconds rounds (at_start tick) x h at_start-Keyed) in
      rw (← c, ← t, ← l) (send_ticks-count r y k)
