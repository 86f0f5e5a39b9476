-- ===== src/Prelude/Maps.antt =====
-- `HashMap` as a partial function; its iteration order is not observed.
use mathlib.Core.Bool.{Bool, true, false}
use mathlib.Core.Option.{Option, none, some}
use package.btstack_gatt_rs.Prelude.Tests.{if◌then◌else◌, Eq, ◌==◌}

abbrev pub HashMap {ℓ κ} : Type ℓ → Type κ → Type (ℓ ⊔ κ)
HashMap K V = K → Option V

module _ {ℓ κ} {K : Type ℓ} {V : Type κ} where
  -- `retain`, for a test that looks at the key alone.
  abbrev pub retain_keys : (K → Bool) → HashMap K V → HashMap K V
  retain_keys p m k = if p k then m k else none

  abbrev pub contains_key : HashMap K V → K → Bool
  contains_key m k = elim (m k) [ some _ ↦ true | none ↦ false ]

  module _ ⦃e : Eq K⦄ where
    abbrev pub insert_key : K → V → HashMap K V → HashMap K V
    insert_key k v m j = if k == j then some v else m j

    abbrev pub remove_key : K → HashMap K V → HashMap K V
    remove_key k m j = if k == j then none else m j

abbrev pub empty_map {ℓ κ} : {K : Type ℓ} {V : Type κ} → HashMap K V
empty_map k = none

-- `get(k).copied().unwrap_or(false)`.
abbrev pub flag_or_false : Option Bool → Bool
flag_or_false none = false
flag_or_false (some b) = b
