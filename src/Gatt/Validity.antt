-- ===== src/Gatt/Validity.antt =====
-- `validate` of btstack-core/src/gatt.rs against a description of the databases that it accepts.
use btstack_gatt_rs.Prelude.{
  ℕ, ◌+◌, ◌≤◌, ◌<◌, ◌≡◌, ◌↔◌, List, [], ◌∷◌, ok, arith, length, All, Absent, Distinct, Bool-cases,
  inl, inr, Result-cases, not_empty_inv, not_empty_of, is_empty, sym,
}
use btstack_gatt_rs.Types.{Uuid}
use btstack_gatt_rs.Advertising
use btstack_gatt_rs.Gatt.{GattCharacteristic, GattService}
use btstack_gatt_rs.Gatt.Validate.{Seen, check_services, validate}
use btstack_gatt_rs.Gatt.Fresh.{
  HasHandlers, uuids_of, all_characteristics, Fresh, NoneEmpty, count-after, check_services_inv,
  check_services_of,
}

-- The default payload: the flags, and the whole name.
abbrev pub name_only : List ℕ → List ℕ
name_only name = 2 ∷ 1 ∷ 6 ∷ (length name + 1) ∷ 9 ∷ name

name_only_lem :
    (name : List ℕ)
    → 0 < length name
    → length name ≤ 26
    → Advertising.to_bytes (Advertising.local_name Advertising.new name) ≡ ok (name_only name)
unfolding Advertising.to_bytes Advertising.local_name
name_only_lem [] h k = absurd (omega arith)
name_only_lem (x ∷ xs) h k = ground arith

module _ {App : Type 0} where
  Absent-split :
      (cs : List (GattCharacteristic App)) (v : Uuid) (us : List Uuid)
      → All (λ c. Absent c.uuid (v ∷ us)) cs
        ↔ (Absent v (uuids_of cs) × All (λ c. Absent c.uuid us) cs)
  Absent-split [] v us = ((λ h. (tt, tt)), λ h. tt)
  Absent-split (c ∷ cs) v us =
      let (to, from) = Absent-split cs v us in
      (
        (λ h. let r = to h.1 in (((λ e. h.0.0 (sym e)), r.0), (h.0.1, r.1))),
        λ h. (((λ e. h.0.0 (sym e)), h.1.0), from (h.0.1, h.1.1)),
      )

  Fresh-iff :
      (cs : List (GattCharacteristic App)) (us : List Uuid)
      → Fresh cs us ↔ (All HasHandlers cs × All (λ c. Absent c.uuid us) cs × Distinct (uuids_of cs))
  Fresh-iff [] us = ((λ h. (tt, tt, tt)), λ h. tt)
  Fresh-iff (c ∷ cs) us =
      let (to, from) = Fresh-iff cs (c.uuid ∷ us) in
      let (apart, join) = Absent-split cs c.uuid us in
      (
        (λ h. let r = to h.2 in let a = apart r.1 in ((h.1, r.0), (h.0, a.1), (a.0, r.2))),
        λ h. (h.1.0, h.0.0, from (h.0.1, join (h.2.0, h.1.1), h.2.1)),
      )

  All-Absent-nil : (cs : List (GattCharacteristic App)) → All (λ c. Absent c.uuid []) cs
  All-Absent-nil [] = tt
  All-Absent-nil (c ∷ cs) = (tt, All-Absent-nil cs)

  -- The databases that the server supports, under a name that can be advertised.
  pub record IsValidDatabase (name : List ℕ) (services : List (GattService App)) : Type 0 where
    pub name_text : 0 < length name
    pub name_fits : length name ≤ 26
    pub some_service : 0 < length services
    pub few_services : length services ≤ 16
    pub none_empty : NoneEmpty services
    pub few_characteristics : length (all_characteristics services) ≤ 64
    pub unique : Distinct (uuids_of (all_characteristics services))
    pub complete : All HasHandlers (all_characteristics services)

  validate_of :
      (name : List ℕ) (services : List (GattService App))
      → IsValidDatabase name services
      → validate name services ≡ ok (name_only name)
  unfolding validate
  validate_of name services v =
      let nothing : Seen = record { uuids = []; count = 0 } in
      let cs = all_characteristics services in
      let fresh = (Fresh-iff cs []).1 (v.complete, All-Absent-nil cs, v.unique) in
      ground (
        arith,
        not_empty_of name v.name_text,
        not_empty_of services v.some_service,
        check_services_of services nothing v.none_empty fresh,
        count-after cs nothing,
        name_only_lem name v.name_text v.name_fits,
      )

  validate_inv :
      (name payload : List ℕ) (services : List (GattService App))
      → validate name services ≡ ok payload
      → IsValidDatabase name services
  unfolding validate
  validate_inv name payload services h =
      let nothing : Seen = record { uuids = []; count = 0 } in
      let cs = all_characteristics services in
      elim (Bool-cases (is_empty name)) [
        | inl e ↦ absurd (ground arith)
        | inr e ↦ elim (Bool-cases (is_empty services)) [
          | inl f ↦ absurd (ground arith)
          | inr f ↦ elim (Result-cases (check_services services nothing)) [
            | inl (t, g) ↦
                let (n, fresh, i) = check_services_inv services nothing t g in
                let parts = (Fresh-iff cs []).0 fresh in
                record {
                  name_text = not_empty_inv name e;
                  name_fits = ground arith;
                  some_service = not_empty_inv services f;
                  few_services = ground arith;
                  none_empty = n;
                  few_characteristics = ground (arith, count-after cs nothing);
                  unique = parts.2;
                  complete = parts.0;
                }
            | inr (x, g) ↦ absurd (ground arith)
          ]
        ]
      ]

  -- `validate` accepts exactly the valid databases: a name of 1 to 26 bytes, 1 to 16 services with at
  -- least one characteristic each, at most 64 characteristics, no UUID twice among them, and for each
  -- a property and the handlers that its properties need. Its payload is the flags and the whole name.
  pub validate-IsValidDatabase :
      (name payload : List ℕ) (services : List (GattService App))
      → (validate name services ≡ ok payload)
        ↔ (IsValidDatabase name services × (payload ≡ name_only name))
  validate-IsValidDatabase name payload services = (
    (λ h.
        let v = validate_inv name payload services h in
        (v, ground (arith, validate_of name services v))),
    λ h. ground (arith, validate_of name services h.0),
  )
