-- ===== src/Advertising/Layout.antt =====
-- The layout of the payload (btstack-core/src/advertising.rs, `to_bytes`), read back by a scanner of
-- AD structures: a length byte, a type byte and the data, as Bluetooth lays them out.
use mathlib.Core.List.{append-nil, reverse-reverse}
use mathlib.Core.Option
use mathlib.Core.Path.{ap₂}
use btstack_gatt_rs.Prelude.{
  ℕ, zero, suc, ◌+◌, ◌-◌, ◌/◌, ◌%◌, ◌≤◌, ◌<◌, ◌≡◌, refl, List, [], ◌∷◌, ◌++◌, Option, none, some,
  ok, arith, length, length-append, length-reverse, All, take, drop, take-append, drop-append,
  reverse, leb, if◌then◌else◌, ◌==◌, nat_eq, ap, subst, ◌∙◌,
}
use btstack_gatt_rs.Types.{Uuid, IsUuid}
use btstack_gatt_rs.Advertising.{
  AdvertisingData, new, reversed_uuids, service_field, name_field, to_bytes,
}
use btstack_gatt_rs.Advertising.Fields.{name_size, services_size, length-reversed_uuids}
use btstack_gatt_rs.Advertising.Bounds.{encoding, to_bytes_inv}

-- The structures of a payload: type and data.
unfoldable pub scan : ℕ → List ℕ → Option (List (ℕ × List ℕ))
scan zero bs = none
scan (suc fuel) [] = some []
scan (suc fuel) (n ∷ []) = none
scan (suc fuel) (n ∷ t ∷ bs) =
    let rest = scan fuel (drop (n - 1) bs) in
    if leb 1 n
    then if leb (n - 1) (length bs) then Option.map (λ fs. (t, take (n - 1) bs) ∷ fs) rest else none
    else none

small_mod : (n : ℕ) → n < 256 → n % 256 ≡ n
small_mod n h = omega arith

shorter : (n : ℕ) → n + 1 - 1 ≡ n
shorter n = omega arith

-- One structure, with what follows it.
scan-structure :
    (fuel t : ℕ) (content rest : List ℕ)
    → scan (suc fuel) ((length content + 1) ∷ t ∷ (content ++ rest))
      ≡ Option.map (λ fs. (t, content) ∷ fs) (scan fuel rest)
unfolding scan
scan-structure fuel t content rest = ground (
  arith,
  length-append content rest,
  take-append content rest,
  drop-append content rest,
  shorter (length content),
)

unfoldable pub read_uuids : ℕ → List ℕ → List Uuid
read_uuids zero bs = []
read_uuids (suc fuel) bs = reverse (take 16 bs) ∷ read_uuids fuel (drop 16 bs)

-- What the structures say, in the terms of the builder.
unfoldable pub interpret : List (ℕ × List ℕ) → AdvertisingData
unfolding read_uuids
interpret [] = new
interpret ((t, content) ∷ fs) =
    let d = interpret fs in
    if t == 7
    then record d { services = read_uuids (length content / 16) content }
    else if t == 9
    then record d { name = some content }
    else d

abbrev name_structure : Option (List ℕ) → List (ℕ × List ℕ)
name_structure none = []
name_structure (some name) = (9, name) ∷ []

abbrev services_structure : List Uuid → List (ℕ × List ℕ)
services_structure [] = []
services_structure (u ∷ us) = (7, reversed_uuids (u ∷ us)) ∷ []

scan-nil : (fuel : ℕ) → scan (suc fuel) [] ≡ some []
unfolding scan
scan-nil fuel = refl

scan-name_field :
    (fuel : ℕ) (name : Option (List ℕ))
    → name_size name ≤ 31
    → scan (suc (suc fuel)) (name_field name) ≡ some (name_structure name)
unfolding name_field
scan-name_field fuel none h = scan-nil (suc fuel)
scan-name_field fuel (some name) h = ground (
  arith,
  append-nil name,
  scan-structure (suc fuel) 9 name [],
  scan-nil fuel,
  small_mod (length name + 1) (omega arith),
)

scan-fields :
    (fuel : ℕ) (us : List Uuid) (name : Option (List ℕ))
    → All IsUuid us
    → services_size us ≤ 31
    → name_size name ≤ 31
    → scan (suc (suc (suc fuel))) (service_field (services_size us) us ++ name_field name)
      ≡ some (services_structure us ++ name_structure name)
unfolding service_field
scan-fields fuel [] name u h k = scan-name_field (suc fuel) name k
scan-fields fuel (v ∷ us) name u h k =
    let size : services_size (v ∷ us) - 1 ≡ length (reversed_uuids (v ∷ us)) + 1 =
      omega (arith, length-reversed_uuids (v ∷ us) u) in
    rw
      (
        small_mod (services_size (v ∷ us) - 1) (omega arith),
        size,
        scan-structure (suc (suc fuel)) 7 (reversed_uuids (v ∷ us)) (name_field name),
        scan-name_field fuel name k,
      )
      refl

read_uuids-reversed_uuids :
    (us : List Uuid) → All IsUuid us → read_uuids (length us) (reversed_uuids us) ≡ us
unfolding read_uuids reversed_uuids
read_uuids-reversed_uuids [] h = refl
read_uuids-reversed_uuids (v ∷ us) h =
    let e : length (reverse v) ≡ 16 = length-reverse v ∙ h.0.sixteen in
    let t : take 16 (reverse v ++ reversed_uuids us) ≡ reverse v =
      subst (λ n. take n (reverse v ++ reversed_uuids us) ≡ reverse v) e
        (take-append (reverse v) (reversed_uuids us)) in
    let d : drop 16 (reverse v ++ reversed_uuids us) ≡ reversed_uuids us =
      subst (λ n. drop n (reverse v ++ reversed_uuids us) ≡ reversed_uuids us) e
        (drop-append (reverse v) (reversed_uuids us)) in
    ap₂ ◌∷◌ (ap reverse t ∙ reverse-reverse v)
      (ap (read_uuids (length us)) d ∙ read_uuids-reversed_uuids us h.1)

recover_uuids :
    (us : List Uuid)
    → All IsUuid us
    → read_uuids (length (reversed_uuids us) / 16) (reversed_uuids us) ≡ us
recover_uuids us u =
    let e : length (reversed_uuids us) / 16 ≡ length us =
      omega (arith, length-reversed_uuids us u) in
    rw e (read_uuids-reversed_uuids us u)

interpret-fields :
    (us : List Uuid) (name : Option (List ℕ))
    → All IsUuid us
    → interpret ((1, 6 ∷ []) ∷ (services_structure us ++ name_structure name))
      ≡ record { name = name; services = us }
unfolding interpret
interpret-fields [] none u = refl
interpret-fields [] (some name) u = refl
interpret-fields (v ∷ us) none u =
    ap (λ s. record { name = none; services = s }) (recover_uuids (v ∷ us) u)
interpret-fields (v ∷ us) (some name) u =
    ap (λ s. record { name = some name; services = s }) (recover_uuids (v ∷ us) u)

-- Whatever is encoded, with UUIDs of 16 bytes, is a well-formed sequence of AD structures, and reading
-- it back gives the name and the UUIDs that the builder held, in canonical byte order and whole.
pub scan-to_bytes :
    (d : AdvertisingData) (payload : List ℕ)
    → All IsUuid d.services
    → to_bytes d ≡ ok payload
    → Option.map interpret (scan 4 payload) ≡ some d
unfolding encoding
scan-to_bytes d payload u e =
    let i = to_bytes_inv d payload e in
    ground (
      arith,
      i,
      scan-structure 3 1 (6 ∷ [])
          (service_field (services_size d.services) d.services ++ name_field d.name),
      scan-fields 0 d.services d.name u,
      interpret-fields d.services d.name u,
    )
