-- ===== src/Prelude/Counts.antt =====
-- Counting the elements that pass a test.
use Prim.Native.Nat.{ℕ, zero, suc, ◌+◌}
use mathlib.Core.Path.{◌≡◌, refl, ap}
use mathlib.Core.Logic.{inl, inr}
use mathlib.Core.Bool.{Bool}
use mathlib.Core.List.{List, [], ◌∷◌, ◌++◌, map}
use mathlib.Core.Option.{some}
use native.Mathlib.Omega.{arith}
use package.btstack_gatt_rs.Prelude.Tests.{if◌then◌else◌, Option-cases}
use package.btstack_gatt_rs.Prelude.Lists.{remove_at}

unfoldable pub count {ℓ} : {A : Type ℓ} → (A → Bool) → List A → ℕ
count p [] = 0
count p (x ∷ xs) = (if p x then 1 else 0) + count p xs

pub count-append {ℓ} :
    {A : Type ℓ} (p : A → Bool) (xs ys : List A) → count p (xs ++ ys) ≡ count p xs + count p ys
unfolding count
count-append p [] ys = omega arith
count-append p (x ∷ xs) ys = omega (arith, count-append p xs ys)

pub count-map {ℓ κ} :
    {A : Type ℓ} {B : Type κ} (p : B → Bool) (f : A → B) (xs : List A)
    → count p (map f xs) ≡ count (λ x. p (f x)) xs
unfolding count
count-map p f [] = refl
count-map p f (x ∷ xs) = ap (λ n. (if p (f x) then 1 else 0) + n) (count-map p f xs)

pub count-remove_at {ℓ} :
    {A : Type ℓ} (p : A → Bool) (i : ℕ) (xs rest : List A) (x : A)
    → remove_at i xs ≡ some (x, rest)
    → count p xs ≡ (if p x then 1 else 0) + count p rest
unfolding count remove_at
count-remove_at p i [] rest x h = cc
count-remove_at p zero (y ∷ xs) rest x h = ground (arith, h)
count-remove_at p (suc i) (y ∷ xs) rest x h = elim (Option-cases (remove_at i xs)) [
  | inl e ↦ absurd (ground (arith, h, e))
  | inr ((z, others), e) ↦ ground (arith, h, e, count-remove_at p i xs others z e)
]
