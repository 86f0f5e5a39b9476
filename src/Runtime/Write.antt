-- ===== src/Runtime/Write.antt =====
-- `write` of btstack-core/src/runtime.rs, the callback by which BTstack writes an attribute. `value`
-- is the buffer's `size` bytes.
pub mod Cases
pub mod Effects
pub mod Values
pub mod Success
use btstack_gatt_rs.Prelude.{
  ℕ, Bool, List, [], ◌∷◌, ◌++◌, Option, none, some, Result, ok, err, Outcome, returned, panicked,
  ◌||◌, not, if◌then◌else◌, ltb, length, get_or, insert_key, remove_key, ◌==◌, nat_eq, pair_eq,
}
use btstack_gatt_rs.Gatt.{
  GattConnection, GattStatus, status_code, WriteHandler, write_not_permitted, invalid_offset,
  request_not_supported, invalid_value_length, unlikely_error, value_not_allowed,
  subscription_changed, unsubscribed, notify,
}
use btstack_gatt_rs.Runtime.{Attribute, State, find_attribute}

-- `unwrap_or(UnlikelyError)` behind `catch_unwind`.
abbrev pub caught : Outcome ℕ → ℕ
caught (returned code) = code
caught panicked = status_code unlikely_error

module _ {App : Type 0} where
  unfoldable pub call_write :
      Option (WriteHandler App)
      → GattConnection
      → List ℕ
      → App
      → App × Outcome (Result (Unit {0}) GattStatus)
  call_write none c value app = (app, returned (err write_not_permitted))
  call_write (some f) c value app = f c value app

  -- The changes of a valid write to a CCCD.
  unfoldable pub subscribe : State App → GattConnection → Attribute App → ℕ → ℕ → Bool → State App
  subscribe s c a connection attribute enabled =
      let kind = if enabled then notify else unsubscribed in
      record s {
        subscriptions = insert_key (connection, a.handle) enabled s.subscriptions;
        reads = remove_key (connection, attribute) s.reads;
        events = s.events ++ subscription_changed c a.characteristic.uuid kind ∷ [];
      }

  -- A CCCD is written: the subscription of one connection to one attribute.
  unfoldable pub write_cccd :
      State App → GattConnection → Attribute App → ℕ → ℕ → List ℕ → State App × ℕ
  unfolding subscribe
  write_cccd s c a connection attribute value =
      if not (length value == 2)
      then (s, status_code invalid_value_length)
      else if not (get_or value 1 0 == 0) || ltb 1 (get_or value 0 0)
      then (s, status_code value_not_allowed)
      else (subscribe s c a connection attribute (get_or value 0 0 == 1), 0)

  -- The `match` on the handler's answer; a panic is caught outside.
  unfoldable pub accepted :
      State App → App × Outcome (Result (Unit {0}) GattStatus) → ℕ × ℕ → State App × App × Outcome ℕ
  accepted s (app, returned (ok u)) key =
      (record s { reads = remove_key key s.reads }, app, returned 0)
  accepted s (app, returned (err e)) key = (s, app, returned (status_code e))
  accepted s (app, panicked) key = (s, app, panicked)

  unfoldable pub write_attribute :
      State App
      → App
      → GattConnection
      → Attribute App
      → ℕ
      → ℕ
      → List ℕ
      → State App × App × Outcome ℕ
  unfolding write_cccd accepted call_write
  write_attribute s app c a connection attribute value =
      if not (a.handle == attribute)
      then (let (s', code) = write_cccd s c a connection attribute value in
          (s', app, returned code))
      else if ltb 512 (length value)
      then (s, app, returned (status_code invalid_value_length))
      else accepted s (call_write a.characteristic.write c value app) (connection, attribute)

  unfoldable pub write_body : State App → App → ℕ → ℕ → ℕ → ℕ → List ℕ → State App × App × Outcome ℕ
  unfolding write_attribute find_attribute
  write_body s app connection attribute mode offset value =
      if not (mode == 0)
      then (s, app, returned (status_code request_not_supported))
      else if not (offset == 0)
      then (s, app, returned (status_code invalid_offset))
      else elim (s.connections connection) [
        | none ↦ (s, app, returned (status_code unlikely_error))
        | some c ↦ elim (find_attribute s attribute) [
          | none ↦ (s, app, returned (status_code write_not_permitted))
          | some a ↦ write_attribute s app c a connection attribute value
        ]
      ]

  unfoldable pub write : State App → App → ℕ → ℕ → ℕ → ℕ → List ℕ → State App × App × ℕ
  unfolding write_body
  write s app connection attribute mode offset value =
      let (s', app', r) = write_body s app connection attribute mode offset value in
      (s', app', caught r)
