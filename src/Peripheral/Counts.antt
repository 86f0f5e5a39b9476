-- ===== src/Peripheral/Counts.antt =====
-- The table of subscribers of examples/gatt-peripheral/src/main.rs has one entry for each key; counting.
use btstack_gatt_rs.Prelude.{
  count, ℕ, ◌≡◌, refl, Bool, List, [], ◌∷◌, Option, none, some, arith, if◌then◌else◌, All,
  Bool-cases, inl, inr, ◌==◌, nat_eq, subst,
}
use btstack_gatt_rs.Gatt.{
  GattConnection, id, notify, unsubscribed, connected, disconnected, subscription_changed,
  notification_failed, error,
}
use btstack_gatt_rs.Runtime.Loop.{goes}
use btstack_gatt_rs.Peripheral.{
  Subscribers, unsubscribe, subscribe_to, Received, event, timed_out, hung_up, Serving, hear,
}
use btstack_gatt_rs.Peripheral.Subscribers.{lookup, lookup-unsubscribe}

abbrev pub is_to : ℕ → GattConnection → Bool
is_to key c = c.generation == key

-- How many of the calls of `notify` are for the connection of this id.
abbrev pub calls_to : ℕ → List (GattConnection × List ℕ) → ℕ
calls_to key calls = count (λ call. is_to key call.0) calls

abbrev pub one_if : Option GattConnection → ℕ
one_if none = 0
one_if (some c) = 1

-- The key of an entry is the id of its value, and no key has two entries.
pub record Keyed (m : Subscribers) : Type 0 where
  pub named : All (λ e. e.0 ≡ e.1.generation) m
  pub single : (key : ℕ) → count (λ e. is_to key e.1) m ≡ one_if (lookup key m)

unsubscribe-named :
    (gone : ℕ) (m : Subscribers)
    → All (λ e. e.0 ≡ e.1.generation) m
    → All (λ e. e.0 ≡ e.1.generation) (unsubscribe gone m)
unfolding unsubscribe
unsubscribe-named gone [] a = tt
unsubscribe-named gone (e ∷ m) (a, others) = elim (Bool-cases (e.0 == gone)) [
  | inl h ↦ rw h (unsubscribe-named gone m others)
  | inr h ↦ rw h (a, unsubscribe-named gone m others)
]

count-unsubscribe :
    (key gone : ℕ) (m : Subscribers)
    → All (λ e. e.0 ≡ e.1.generation) m
    → count (λ e. is_to key e.1) (unsubscribe gone m)
      ≡ (if gone == key then 0 else count (λ e. is_to key e.1) m)
unfolding unsubscribe count
count-unsubscribe key gone [] a = ground arith
count-unsubscribe key gone (e ∷ m) (a, others) =
    ground (arith, a, count-unsubscribe key gone m others)

unsubscribe-Keyed : (gone : ℕ) (m : Subscribers) → Keyed m → Keyed (unsubscribe gone m)
unsubscribe-Keyed gone m k = record {
  named = unsubscribe-named gone m k.named;
  single = λ key.
      ground
        (arith, count-unsubscribe key gone m k.named, lookup-unsubscribe key gone m, k.single key);
}

subscribe_to-Keyed :
    (c : GattConnection) (m : Subscribers) → Keyed m → Keyed (subscribe_to c.generation c m)
unfolding subscribe_to count
subscribe_to-Keyed c m k = record {
  named = (refl, unsubscribe-named c.generation m k.named);
  single = λ key. ground (
    arith,
    count-unsubscribe key c.generation m k.named,
    lookup-unsubscribe key c.generation m,
    k.single key,
  );
}

pub hear-Keyed :
    (r : Received) (x y : Serving) → hear r x ≡ goes y → Keyed x.subscribers → Keyed y.subscribers
unfolding hear id
hear-Keyed (event (subscription_changed c uuid notify)) x y h k =
    subst Keyed (ground (arith, h)) (subscribe_to-Keyed c x.subscribers k)
hear-Keyed (event (subscription_changed c uuid unsubscribed)) x y h k =
    subst Keyed (ground (arith, h)) (unsubscribe-Keyed c.generation x.subscribers k)
hear-Keyed (event (disconnected c)) x y h k =
    subst Keyed (ground (arith, h)) (unsubscribe-Keyed c.generation x.subscribers k)
hear-Keyed (event (error e)) x y h k = cc
hear-Keyed (event (connected c)) x y h k = subst Keyed (ground (arith, h)) k
hear-Keyed (event (notification_failed c code)) x y h k = subst Keyed (ground (arith, h)) k
hear-Keyed timed_out x y h k = subst Keyed (ground (arith, h)) k
hear-Keyed hung_up x y h k = cc
