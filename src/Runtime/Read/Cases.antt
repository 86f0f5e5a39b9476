-- ===== src/Runtime/Read/Cases.antt =====
-- The branches of `read` of btstack-core/src/runtime.rs, as a rule for any statement about its result.
use btstack_gatt_rs.Prelude.{
  ℕ, ◌≡◌, Bool, true, false, List, some, Outcome, returned, Option-cases, inl, inr, refl,
  contains_key,
}
use btstack_gatt_rs.Gatt.{GattConnection}
use btstack_gatt_rs.Runtime.{Attribute, State, find_attribute}
use btstack_gatt_rs.Runtime.Read.{Reply, status, fetch, deliver, store, read_attribute, read_body}

module _ {ℓ} {App : Type 0} (P : State App × App × Outcome Reply → Type ℓ) (s : State App)
    (app : App) where
  read_attribute_cases :
      (c : GattConnection) (a : Attribute App) (connection attribute offset : ℕ) (null : Bool)
      (size : ℕ)
      → P (store s (fetch s app c a connection attribute) (connection, attribute) offset null size)
      → ((value : List ℕ)
          → s.reads (connection, attribute) ≡ some value
          → null ≡ false
          → P (s, app, deliver (some value) offset null size))
      → P (read_attribute s app c a connection attribute offset null size)
  unfolding read_attribute
  read_attribute_cases c a connection attribute offset true size fresh stored = fresh
  read_attribute_cases c a connection attribute offset false size fresh stored =
      elim (Option-cases (s.reads (connection, attribute))) [
        | inl e ↦ rw (e, contains_key, read_attribute) fresh
        | inr (value, e) ↦ rw (e, contains_key, read_attribute) (stored value e refl)
      ]

  pub read_body_cases :
      (connection attribute offset : ℕ) (null : Bool) (size : ℕ)
      → P (s, app, returned (status 0xfe0e))
      → P (s, app, returned (status 0xfe02))
      → ((c : GattConnection) (a : Attribute App)
          → s.connections connection ≡ some c
          → find_attribute s attribute ≡ some a
          → P (
              store s
                (fetch s app c a connection attribute)
                (connection, attribute)
                offset
                null
                size))
      → ((value : List ℕ)
          → s.reads (connection, attribute) ≡ some value
          → null ≡ false
          → P (s, app, deliver (some value) offset null size))
      → P (read_body s app connection attribute offset null size)
  unfolding read_body
  read_body_cases connection attribute offset null size dead unknown fresh stored =
      elim (Option-cases (s.connections connection)) [
        | inl e ↦ rw (e, read_body) dead
        | inr (c, e) ↦ elim (Option-cases (find_attribute s attribute)) [
          | inl f ↦ rw (e, f, read_body) unknown
          | inr (a, f) ↦
              rw (e, f, read_body)
                (read_attribute_cases c a connection attribute offset null size (fresh c a e f)
                  stored)
        ]
      ]
