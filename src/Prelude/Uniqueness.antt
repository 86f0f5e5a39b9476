-- ===== src/Prelude/Uniqueness.antt =====
-- Lists without repetition, and membership tests by a Boolean equality.
use mathlib.Core.Path.{◌≡◌, refl}
use mathlib.Core.Logic.{inl, inr, ◌≢◌, ◌↔◌}
use mathlib.Core.Bool.{Bool, true, false}
use mathlib.Core.List.{List, [], ◌∷◌, ◌++◌}
use native.Mathlib.Omega.{arith}
use package.btstack_gatt_rs.Prelude.Tests.{Eq, Bool-cases, ◌==◌}
use package.btstack_gatt_rs.Prelude.Lists.{any, retain, All}

module _ {ℓ} {A : Type ℓ} where
  -- No two places of the list hold the same.
  abbrev pub Distinct : List A → Type ℓ
  Distinct [] = Unit
  Distinct (x ∷ xs) = All (λ y. x ≢ y) xs × Distinct xs

  abbrev pub Absent : A → List A → Type ℓ
  Absent x xs = All (λ y. x ≢ y) xs

  pub All-true : (xs : List A) → All (λ x. Unit {0}) xs
  All-true [] = tt
  All-true (x ∷ xs) = (tt, All-true xs)

  pub All-mono {κ μ} :
      {P : A → Type κ} {Q : A → Type μ} (xs : List A) → ((x : A) → P x → Q x) → All P xs → All Q xs
  All-mono [] f h = tt
  All-mono (x ∷ xs) f h = (f x h.0, All-mono xs f h.1)

  -- What passes the test of `retain` keeps its property, and may gain what the test says.
  pub All-retain {κ μ} :
      {P : A → Type κ} {Q : A → Type μ} (p : A → Bool) (xs : List A)
      → ((x : A) → p x ≡ true → P x → Q x)
      → All P xs
      → All Q (retain p xs)
  unfolding retain
  All-retain p [] f h = tt
  All-retain {P} {Q} p (x ∷ xs) f h = elim (Bool-cases (p x)) [
    | inl e ↦ rw e (f x e h.0, All-retain {P = P} {Q = Q} p xs f h.1)
    | inr e ↦ rw e (All-retain {P = P} {Q = Q} p xs f h.1)
  ]

  pub All-append {κ} : (P : A → Type κ) (xs ys : List A) → All P (xs ++ ys) ↔ (All P xs × All P ys)
  All-append P [] ys = ((λ h. (tt, h)), λ h. h.1)
  All-append P (x ∷ xs) ys =
      let (to, from) = All-append P xs ys in
      ((λ h. ((h.0, (to h.1).0), (to h.1).1)), λ h. (h.0.0, from (h.0.1, h.1)))

module _ {ℓ} {A : Type ℓ} ⦃e : Eq A⦄ where
  pub any-Absent : (x : A) (xs : List A) → any (λ y. y == x) xs ≡ false → Absent x xs
  unfolding any
  any-Absent x [] h = tt
  any-Absent x (y ∷ ys) h = ((λ p. ground (arith, e.decides y x)), any-Absent x ys (ground arith))

  pub any_of_Absent : (x : A) (xs : List A) → Absent x xs → any (λ y. y == x) xs ≡ false
  unfolding any
  any_of_Absent x [] h = refl
  any_of_Absent x (y ∷ ys) h =
      ground (arith, e.decides y x, any_of_Absent x ys h.1, λ (p : x ≡ y). h.0 p)
