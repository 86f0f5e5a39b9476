-- ===== src/Tests/Units.antt =====
-- The unit tests of the source, run on the definitions of its functions: a list of assertions for each.
pub mod Callbacks
pub mod Payloads
pub mod CommandLine
pub mod Sessions
use btstack_gatt_rs.Prelude.{
  ℕ, zero, suc, Bool, true, false, List, [], ◌∷◌, Option, none, some, Result, ok, err, ◌&&◌, ◌==◌,
  nat_eq, length,
}

-- `assert!` on each.
abbrev pub asserts : List Bool → Bool
asserts [] = true
asserts (b ∷ bs) = b && asserts bs

abbrev pub is_ok : {A E : Type 0} → Result A E → Bool
is_ok (ok a) = true
is_ok (err e) = false

abbrev pub is_err : {A E : Type 0} → Result A E → Bool
is_err (ok a) = false
is_err (err e) = true

-- `[n; 16]` and `"a".repeat(n)`.
abbrev pub repeat : ℕ → ℕ → List ℕ
repeat zero b = []
repeat (suc n) b = b ∷ repeat n b

abbrev pub has_length : {E : Type 0} → Result (List ℕ) E → ℕ → Bool
has_length (ok bytes) n = length bytes == n
has_length (err e) n = false
