-- ===== src/Peripheral/Live.antt =====
-- The entries of the example's table (examples/gatt-peripheral/src/main.rs) against the order of events.
use btstack_gatt_rs.Prelude.{
  ℕ, ◌≡◌, ◌≢◌, refl, Bool, true, List, [], ◌∷◌, none, some, arith, nat_eq, nat_beq, Bool-cases, inl,
  inr, list_eq, ap, subst, ◌∙◌,
}
use btstack_gatt_rs.Types.{Uuid}
use btstack_gatt_rs.Gatt.{
  GattConnection, notify, unsubscribed, ServerEvent, connected, disconnected, subscription_changed,
  notification_failed, error,
}
use btstack_gatt_rs.Runtime.History.{told, decide, verdict}
use btstack_gatt_rs.Runtime.History.Lifecycle.{
  Life, unknown, alive, gone, broken, begin, use_it, meet, life,
}
use btstack_gatt_rs.Peripheral.Subscribers.{latest}

-- An entry is a connection of its own id.
pub latest_generation :
    (g : ℕ) (es : List ServerEvent) (d : GattConnection)
    → latest g es none ≡ some d
    → d.generation ≡ g
unfolding latest
latest_generation g [] d h = cc
latest_generation g (subscription_changed c uuid notify ∷ es) d h =
    elim (Bool-cases (nat_beq c.generation g)) [
      | inl e ↦ ground (arith, e, h)
      | inr e ↦ latest_generation g es d (ground (arith, e, h))
    ]
latest_generation g (subscription_changed c uuid unsubscribed ∷ es) d h =
    elim (Bool-cases (nat_beq c.generation g)) [
      | inl e ↦ absurd (ground (arith, e, h))
      | inr e ↦ latest_generation g es d (ground (arith, e, h))
    ]
latest_generation g (disconnected c ∷ es) d h = elim (Bool-cases (nat_beq c.generation g)) [
  | inl e ↦ absurd (ground (arith, e, h))
  | inr e ↦ latest_generation g es d (ground (arith, e, h))
]
latest_generation g (connected c ∷ es) d h = latest_generation g es d h
latest_generation g (notification_failed c code ∷ es) d h = latest_generation g es d h
latest_generation g (error x ∷ es) d h = latest_generation g es d h

meet_broken : (g : ℕ) (e : ServerEvent) → meet g broken e ≡ broken
meet_broken g (connected c) = ground arith
meet_broken g (disconnected c) = ground arith
meet_broken g (subscription_changed c uuid kind) = ground arith
meet_broken g (notification_failed c code) = ground arith
meet_broken g (error e) = refl

begin_alive :
    (l : Life)
    → (before : Bool) → begin l ≢ broken
    → (before ≡ true → l ≡ alive)
    → before ≡ true
    → begin l ≡ alive
begin_alive unknown before n held b = refl
begin_alive alive before n held b = absurd (n refl)
begin_alive gone before n held b = absurd (n refl)
begin_alive broken before n held b = absurd (n refl)

use_it_alive : (l : Life) → use_it l ≢ broken → use_it l ≡ alive
use_it_alive unknown n = absurd (n refl)
use_it_alive alive n = refl
use_it_alive gone n = absurd (n refl)
use_it_alive broken n = absurd (n refl)

one_alive :
    (g : ℕ) (uuid : Uuid) (e : ServerEvent) (before : Bool) (l : Life)
    → meet g l e ≢ broken
    → (before ≡ true → l ≡ alive)
    → decide (verdict g uuid e) before ≡ true
    → meet g l e ≡ alive
one_alive g uuid (connected c) before l n held b = elim (Bool-cases (nat_beq c.generation g)) [
  | inl e ↦ rw e (begin_alive l before (subst (λ k. k ≢ broken) (ground (arith, e)) n) held b)
  | inr e ↦ rw e (held b)
]
one_alive g uuid (disconnected c) before l n held b = elim (Bool-cases (nat_beq c.generation g)) [
  | inl e ↦ absurd (ground (arith, e, b))
  | inr e ↦ rw e (held (ground (arith, e, b)))
]
one_alive g uuid (subscription_changed c u kind) before l n held b =
    elim (Bool-cases (nat_beq c.generation g)) [
      | inl e ↦ rw e (use_it_alive l (subst (λ k. k ≢ broken) (ground (arith, e)) n))
      | inr e ↦ rw e (held (ground (arith, e, b)))
    ]
one_alive g uuid (notification_failed c code) before l n held b =
    elim (Bool-cases (nat_beq c.generation g)) [
      | inl e ↦ rw e (use_it_alive l (subst (λ k. k ≢ broken) (ground (arith, e)) n))
      | inr e ↦ rw e (held b)
    ]
one_alive g uuid (error x) before l n held b = held b

life_broken : (g : ℕ) (es : List ServerEvent) → life g broken es ≡ broken
unfolding life
life_broken g [] = refl
life_broken g (e ∷ es) = ap (λ l. life g l es) (meet_broken g e) ∙ life_broken g es

-- Where no event is out of order, only a living connection is subscribed.
pub told_alive :
    (g : ℕ) (uuid : Uuid) (es : List ServerEvent) (before : Bool) (l : Life)
    → life g l es ≢ broken
    → (before ≡ true → l ≡ alive)
    → told g uuid before es ≡ true
    → life g l es ≡ alive
unfolding life told
told_alive g uuid [] before l whole held h = held h
told_alive g uuid (e ∷ es) before l whole held h =
    told_alive g uuid es (decide (verdict g uuid e) before) (meet g l e) whole
      (one_alive g uuid e before l (λ b. whole (ap (λ k. life g k es) b ∙ life_broken g es)) held) h
