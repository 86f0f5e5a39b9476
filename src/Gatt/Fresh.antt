-- ===== src/Gatt/Fresh.antt =====
-- What the loops of `validate` establish (btstack-core/src/gatt.rs), step by step.
use mathlib.Core.Logic.{◌↔◌}
use btstack_gatt_rs.Prelude.{
  ◌+◌, ◌<◌, ◌≡◌, ◌≢◌, true, false, List, [], ◌∷◌, ◌++◌, map, none, ok, arith, length, All, Absent,
  any-Absent, any_of_Absent, refl, Bool-cases, inl, inr, Result-cases, not_empty_inv, not_empty_of,
  is_empty, list_eq, nat_eq,
}
use btstack_gatt_rs.Types.{Uuid}
use btstack_gatt_rs.Advertising
use btstack_gatt_rs.Gatt.{GattCharacteristic, GattService, has_bits}
use btstack_gatt_rs.Gatt.Validate.{
  Seen, lacks_handler, check_characteristic, check_characteristics, check_services,
}

module _ {App : Type 0} where
  -- A property is set, and whatever is readable or writable has the handler for it.
  pub record HasHandlers (c : GattCharacteristic App) : Type 0 where
    pub some_property : c.properties ≢ 0
    pub reads : has_bits c.properties 2 ≡ true → c.read ≢ none
    pub writes : has_bits c.properties 12 ≡ true → c.write ≢ none

  pub lacks_handler_inv : (c : GattCharacteristic App) → lacks_handler c ≡ false → HasHandlers c
  unfolding lacks_handler
  lacks_handler_inv c h = ground arith

  pub lacks_handler_of : (c : GattCharacteristic App) → HasHandlers c → lacks_handler c ≡ false
  unfolding lacks_handler
  lacks_handler_of c h = ground (arith, h.reads, h.writes)

  abbrev pub uuids_of : List (GattCharacteristic App) → List Uuid
  uuids_of = map (λ c. c.uuid)

  abbrev pub all_characteristics : List (GattService App) → List (GattCharacteristic App)
  all_characteristics [] = []
  all_characteristics (v ∷ vs) = v.characteristics ++ all_characteristics vs

  -- Each characteristic is complete and new to the UUIDs before it.
  abbrev pub Fresh : List (GattCharacteristic App) → List Uuid → Type 0
  Fresh [] us = Unit
  Fresh (c ∷ cs) us = Absent c.uuid us × HasHandlers c × Fresh cs (c.uuid ∷ us)

  abbrev pub after : List (GattCharacteristic App) → Seen → Seen
  after [] s = s
  after (c ∷ cs) s = after cs (record { uuids = c.uuid ∷ s.uuids; count = s.count + 1 })

  check_characteristic_inv :
      (c : GattCharacteristic App) (s s' : Seen)
      → check_characteristic c s ≡ ok s'
      → Absent c.uuid s.uuids × HasHandlers c × (s' ≡ after (c ∷ []) s)
  unfolding check_characteristic Advertising.contains
  check_characteristic_inv c s s' h = elim (Bool-cases (Advertising.contains s.uuids c.uuid)) [
    | inl seen ↦ absurd (ground arith)
    | inr fresh ↦ elim (Bool-cases (lacks_handler c)) [
      | inl lacks ↦ absurd (ground arith)
      | inr has ↦ (any-Absent c.uuid s.uuids fresh, lacks_handler_inv c has, ground arith)
    ]
  ]

  check_characteristic_of :
      (c : GattCharacteristic App) (s : Seen)
      → Absent c.uuid s.uuids
      → HasHandlers c
      → check_characteristic c s ≡ ok (after (c ∷ []) s)
  unfolding check_characteristic Advertising.contains
  check_characteristic_of c s a h = rw (any_of_Absent c.uuid s.uuids a, lacks_handler_of c h) refl

  pub check_characteristics_inv :
      (cs : List (GattCharacteristic App)) (s s' : Seen)
      → check_characteristics cs s ≡ ok s'
      → Fresh cs s.uuids × (s' ≡ after cs s)
  unfolding check_characteristics Advertising.contains
  check_characteristics_inv [] s s' h = ground arith
  check_characteristics_inv (c ∷ cs) s s' h = elim (Result-cases (check_characteristic c s)) [
    | inl (t, e) ↦
        let (a, b, f) = check_characteristic_inv c s t e in
        let (fresh, g) = check_characteristics_inv cs (after (c ∷ []) s) s' (ground arith) in
        ((a, b, fresh), g)
    | inr (x, e) ↦ absurd (ground arith)
  ]

  pub check_characteristics_of :
      (cs : List (GattCharacteristic App)) (s : Seen)
      → Fresh cs s.uuids
      → check_characteristics cs s ≡ ok (after cs s)
  unfolding check_characteristics Advertising.contains
  check_characteristics_of [] s h = refl
  check_characteristics_of (c ∷ cs) s h =
      rw (check_characteristic_of c s h.0 h.1) (check_characteristics_of cs (after (c ∷ []) s) h.2)

  pub Fresh-append :
      (cs ds : List (GattCharacteristic App)) (s : Seen)
      → Fresh (cs ++ ds) s.uuids ↔ (Fresh cs s.uuids × Fresh ds (after cs s).uuids)
  Fresh-append [] ds s = ((λ h. (tt, h)), λ h. h.1)
  Fresh-append (c ∷ cs) ds s =
      let (to, from) = Fresh-append cs ds (after (c ∷ []) s) in
      ((λ h. let r = to h.2 in ((h.0, h.1, r.0), r.1)), λ h. (h.0.0, h.0.1, from (h.0.2, h.1)))

  pub after-append :
      (cs ds : List (GattCharacteristic App)) (s : Seen)
      → after (cs ++ ds) s ≡ after ds (after cs s)
  after-append [] ds s = refl
  after-append (c ∷ cs) ds s = after-append cs ds (after (c ∷ []) s)

  pub count-after :
      (cs : List (GattCharacteristic App)) (s : Seen) → (after cs s).count ≡ s.count + length cs
  count-after [] s = omega arith
  count-after (c ∷ cs) s = omega (arith, count-after cs (after (c ∷ []) s))

  abbrev pub NoneEmpty : List (GattService App) → Type 0
  NoneEmpty = All (λ v. 0 < length v.characteristics)

  pub check_services_inv :
      (vs : List (GattService App)) (s s' : Seen)
      → check_services vs s ≡ ok s'
      → NoneEmpty vs
        × Fresh (all_characteristics vs) s.uuids
        × (s' ≡ after (all_characteristics vs) s)
  unfolding check_services
  check_services_inv [] s s' h = ground arith
  check_services_inv (v ∷ vs) s s' h = elim (Bool-cases (is_empty v.characteristics)) [
    | inl e ↦ absurd (ground arith)
    | inr e ↦ elim (Result-cases (check_characteristics v.characteristics s)) [
      | inl (t, f) ↦
          let (fresh, g) = check_characteristics_inv v.characteristics s t f in
          let rest : check_services vs (after v.characteristics s) ≡ ok s' = ground arith in
          let (n, more, k) = check_services_inv vs (after v.characteristics s) s' rest in
          (
            (not_empty_inv v.characteristics e, n),
            (Fresh-append v.characteristics (all_characteristics vs) s).1 (fresh, more),
            rw (after-append v.characteristics (all_characteristics vs) s) k,
          )
      | inr (x, f) ↦ absurd (ground arith)
    ]
  ]

  pub check_services_of :
      (vs : List (GattService App)) (s : Seen)
      → NoneEmpty vs
      → Fresh (all_characteristics vs) s.uuids
      → check_services vs s ≡ ok (after (all_characteristics vs) s)
  unfolding check_services
  check_services_of [] s n h = refl
  check_services_of (v ∷ vs) s n h =
      let parts = (Fresh-append v.characteristics (all_characteristics vs) s).0 h in
      rw
        (
          not_empty_of v.characteristics n.0,
          check_characteristics_of v.characteristics s parts.0,
          after-append v.characteristics (all_characteristics vs) s,
        )
        (check_services_of vs (after v.characteristics s) n.1 parts.1)
