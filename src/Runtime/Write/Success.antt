-- ===== src/Runtime/Write/Success.antt =====
-- When `write` of btstack-core/src/runtime.rs succeeds.
use btstack_gatt_rs.Prelude.{
  ℕ, ◌≡◌, ◌≢◌, ◌≤◌, ◌↔◌, ◌⊎◌, refl, true, false, List, [], ◌∷◌, Option, none, some, Result, ok, err,
  Outcome, returned, panicked, arith, length, inl, inr, nat_eq, nat_beq, Bool-cases, ltb,
}
use btstack_gatt_rs.Gatt.{
  GattConnection, GattStatus, WriteHandler, status_code, read_not_permitted, write_not_permitted,
  invalid_offset, request_not_supported, invalid_value_length, unlikely_error, value_not_allowed,
}
use btstack_gatt_rs.Runtime.{Attribute, State, find_attribute}
use btstack_gatt_rs.Runtime.Write.{
  caught, call_write, write_cccd, write_attribute, accepted, write_body, write,
}
use btstack_gatt_rs.Runtime.Write.Cases.{write_body_cases}

status_code_lem : (e : GattStatus) → status_code e ≢ 0
status_code_lem read_not_permitted = cc
status_code_lem write_not_permitted = cc
status_code_lem invalid_offset = cc
status_code_lem request_not_supported = cc
status_code_lem invalid_value_length = cc
status_code_lem unlikely_error = cc
status_code_lem value_not_allowed = cc

module _ {App : Type 0} where
  -- The handler of the attribute is there and accepts the value.
  abbrev pub HandlerAccepts : Option (WriteHandler App) → GattConnection → List ℕ → App → Type 0
  HandlerAccepts handler c value app =
      (f : WriteHandler App) × (handler ≡ some f) × ((f c value app).1 ≡ returned (ok tt))

  -- What may be written to an attribute or to its CCCD.
  abbrev pub MayWrite : GattConnection → Attribute App → ℕ → List ℕ → App → Type 0
  MayWrite c a attribute value app =
      ((a.handle ≢ attribute) × (b : ℕ) × (b ≤ 1) × (value ≡ b ∷ 0 ∷ []))
      ⊎ ((a.handle ≡ attribute)
          × (length value ≤ 512)
          × HandlerAccepts a.characteristic.write c value app)

  abbrev pub WriteAllowed : State App → App → ℕ → ℕ → ℕ → ℕ → List ℕ → Type 0
  WriteAllowed s app connection attribute mode offset value =
      (mode ≡ 0)
      × (offset ≡ 0)
      × (c : GattConnection) × (a : Attribute App) × (s.connections connection ≡ some c)
      × (find_attribute s attribute ≡ some a)
      × MayWrite c a attribute value app

  accepted_code :
      (s : State App) (r : App × Outcome (Result (Unit {0}) GattStatus)) (key : ℕ × ℕ)
      → (caught (accepted s r key).2 ≡ 0) ↔ (r.1 ≡ returned (ok tt))
  unfolding accepted
  accepted_code s (app, returned (ok u)) key = ((λ h. refl), λ h. refl)
  accepted_code s (app, returned (err e)) key = ((λ h. absurd (status_code_lem e h)), λ h. cc)
  accepted_code s (app, panicked) key = ((λ h. absurd (ground (arith, h))), λ h. cc)

  call_write-Accepts :
      (handler : Option (WriteHandler App)) (c : GattConnection) (value : List ℕ) (app : App)
      → ((call_write handler c value app).1 ≡ returned (ok tt)) ↔ HandlerAccepts handler c value app
  unfolding call_write
  call_write-Accepts none c value app = ((λ h. cc), λ (f, e, h). cc)
  call_write-Accepts (some f) c value app = ((λ h. (f, refl, h)), λ (g, e, h). ground (arith, e, h))

  allowed_write :
      (s : State App) (app : App) (connection attribute mode offset : ℕ) (value : List ℕ)
      → WriteAllowed s app connection attribute mode offset value
      → (write s app connection attribute mode offset value).2 ≡ 0
  unfolding write write_body write_attribute write_cccd
  allowed_write s app connection attribute mode offset value (m, o, c, a, e, f, inl (n, b, l, v)) =
      let other : nat_beq a.handle attribute ≡ false = ground (arith, n) in
      rw (m, o, e, f, other, v) (ground (arith, l))
  allowed_write s app connection attribute mode offset value (m, o, c, a, e, f, inr (h, l, g)) =
      let same : nat_beq a.handle attribute ≡ true = ground (arith, h) in
      let short : ltb 512 (length value) ≡ false = ground (arith, l) in
      rw (m, o, e, f, same, short)
        ((accepted_code s (call_write a.characteristic.write c value app) (connection, attribute)).1
          ((call_write-Accepts a.characteristic.write c value app).1 g))

  write_allowed :
      (s : State App) (app : App) (connection attribute mode offset : ℕ) (value : List ℕ)
      → (write s app connection attribute mode offset value).2 ≡ 0
      → WriteAllowed s app connection attribute mode offset value
  unfolding write
  write_allowed s app connection attribute mode offset value z =
      elim (Bool-cases (nat_beq mode 0)) [
        | inr m ↦ absurd (ground (arith, m, z))
        | inl m ↦ elim (Bool-cases (nat_beq offset 0)) [
          | inr o ↦ absurd (ground (arith, m, o, z))
          | inl o ↦
              write_body_cases
                (λ r. caught r.2 ≡ 0 → WriteAllowed s app connection attribute mode offset value) s
                app connection attribute mode offset value (λ code n y. absurd (n y))
                (λ c a b e f h l v y.
                  (ground (arith, m), ground (arith, o), c, a, e, f, inl (h, b, l, v)))
                (λ c a e f h l y. (
                  ground (arith, m),
                  ground (arith, o),
                  c,
                  a,
                  e,
                  f,
                  inr (
                    h,
                    l,
                    (call_write-Accepts a.characteristic.write c value app).0 (
                        (accepted_code s (call_write a.characteristic.write c value app)
                            (connection, attribute)).0
                          y),
                  ),
                ))
                z
        ]
      ]

  -- A write is answered with success exactly if it is a plain one from the start of the value, by a
  -- live connection, and either is to a CCCD and is the two bytes 0 0 or 1 0, or is to an attribute
  -- itself, of at most 512 bytes, and the characteristic has a write handler which accepts the value
  -- and does not panic.
  pub write-WriteAllowed :
      (s : State App) (app : App) (connection attribute mode offset : ℕ) (value : List ℕ)
      → ((write s app connection attribute mode offset value).2 ≡ 0)
        ↔ WriteAllowed s app connection attribute mode offset value
  write-WriteAllowed s app connection attribute mode offset value = (
    write_allowed s app connection attribute mode offset value,
    allowed_write s app connection attribute mode offset value,
  )
