-- ===== src/Runtime/Write/Cases.antt =====
-- The branches of `write` of btstack-core/src/runtime.rs, as a rule for any statement about its result.
use btstack_gatt_rs.Prelude.{
  ℕ, ◌≡◌, ◌≢◌, ◌≤◌, true, List, [], ◌∷◌, some, Outcome, returned, arith, Option-cases, Bool-cases,
  inl, inr, length, ◌==◌, nat_eq, ltb, not, ◌||◌, nat_beq, ap,
}
use btstack_gatt_rs.Gatt.{GattConnection}
use btstack_gatt_rs.Runtime.{Attribute, State, find_attribute}
use btstack_gatt_rs.Runtime.Write.{
  call_write, write_cccd, subscribe, accepted, write_attribute, write_body,
}

module _ {ℓ} {App : Type 0} (P : State App × App × Outcome ℕ → Type ℓ) (s : State App)
    (app : App) where
  write_cccd_cases :
      (c : GattConnection) (a : Attribute App) (connection attribute : ℕ) (value : List ℕ)
      → ((code : ℕ) → code ≢ 0 → P (s, app, returned code))
      → ((b : ℕ)
          → b ≤ 1
          → value ≡ b ∷ 0 ∷ []
          → P (subscribe s c a connection attribute (b == 1), app, returned 0))
      → P (
        (write_cccd s c a connection attribute value).0,
        app,
        returned (write_cccd s c a connection attribute value).1,
      )
  unfolding write_cccd
  write_cccd_cases c a connection attribute [] refused changed = refused 13 (omega arith)
  write_cccd_cases c a connection attribute (x ∷ []) refused changed = refused 13 (omega arith)
  write_cccd_cases c a connection attribute (x ∷ y ∷ []) refused changed =
      elim (Bool-cases (not (y == 0) || ltb 1 x)) [
        | inl e ↦ rw (e, write_cccd) (refused 19 (omega arith))
        | inr e ↦
            let zero_high : y ≡ 0 = ground arith in
            rw (e, write_cccd) (changed x (ground arith) (ap (λ t. x ∷ t ∷ []) zero_high))
      ]
  write_cccd_cases c a connection attribute (x ∷ y ∷ z ∷ value) refused changed =
      let long : not (length (x ∷ y ∷ z ∷ value) == 2) ≡ true = ground arith in
      rw (long, write_cccd) (refused 13 (omega arith))

  write_attribute_cases :
      (c : GattConnection) (a : Attribute App) (connection attribute : ℕ) (value : List ℕ)
      → ((code : ℕ) → code ≢ 0 → P (s, app, returned code))
      → ((b : ℕ)
          → b ≤ 1
          → value ≡ b ∷ 0 ∷ []
          → a.handle ≢ attribute
          → P (subscribe s c a connection attribute (b == 1), app, returned 0))
      → (a.handle ≡ attribute
          → length value ≤ 512
          → P (accepted s (call_write a.characteristic.write c value app) (connection, attribute)))
      → P (write_attribute s app c a connection attribute value)
  unfolding write_attribute
  write_attribute_cases c a connection attribute value refused changed handled =
      elim (Bool-cases (nat_beq a.handle attribute)) [
        | inl e ↦ elim (Bool-cases (ltb 512 (length value))) [
          | inl f ↦ rw (e, f, write_attribute) (refused 13 (omega arith))
          | inr f ↦ rw (e, f, write_attribute) (handled (ground arith) (ground arith))
        ]
        | inr e ↦
            rw (e, write_attribute)
              (write_cccd_cases c a connection attribute value refused
                (λ b l v. changed b l v (ground arith)))
      ]

  pub write_body_cases :
      (connection attribute mode offset : ℕ) (value : List ℕ)
      → ((code : ℕ) → code ≢ 0 → P (s, app, returned code))
      → ((c : GattConnection) (a : Attribute App) (b : ℕ)
          → s.connections connection ≡ some c
          → find_attribute s attribute ≡ some a
          → a.handle ≢ attribute
          → b ≤ 1
          → value ≡ b ∷ 0 ∷ []
          → P (subscribe s c a connection attribute (b == 1), app, returned 0))
      → ((c : GattConnection) (a : Attribute App)
          → s.connections connection ≡ some c
          → find_attribute s attribute ≡ some a
          → a.handle ≡ attribute
          → length value ≤ 512
          → P (accepted s (call_write a.characteristic.write c value app) (connection, attribute)))
      → P (write_body s app connection attribute mode offset value)
  unfolding write_body
  write_body_cases connection attribute mode offset value refused changed handled =
      elim (Bool-cases (nat_beq mode 0)) [
        | inr m ↦ rw (m, write_body) (refused 6 (omega arith))
        | inl m ↦ elim (Bool-cases (nat_beq offset 0)) [
          | inr o ↦ rw (m, o, write_body) (refused 7 (omega arith))
          | inl o ↦ elim (Option-cases (s.connections connection)) [
            | inl e ↦ rw (m, o, e, write_body) (refused 14 (omega arith))
            | inr (c, e) ↦ elim (Option-cases (find_attribute s attribute)) [
              | inl f ↦ rw (m, o, e, f, write_body) (refused 3 (omega arith))
              | inr (a, f) ↦
                  rw (m, o, e, f, write_body)
                    (write_attribute_cases c a connection attribute value refused
                      (λ b l v h. changed c a b e f h l v) (handled c a e f))
            ]
          ]
        ]
      ]
