-- ===== src/Runtime/Read.antt =====
-- `read` of btstack-core/src/runtime.rs, the callback by which BTstack reads an attribute: with a null
-- buffer to learn the length, then with a buffer of `size` bytes to copy a part.
pub mod Cases
pub mod Frame
pub mod Bounds
use btstack_gatt_rs.Prelude.{
  ℕ, ◌+◌, ◌%◌, Bool, List, [], ◌∷◌, Option, none, some, Result, ok, err, Outcome, returned,
  panicked, ◌||◌, not, if◌then◌else◌, leb, ltb, min, length, take, drop, contains_key, insert_key,
  flag_or_false, ◌==◌, nat_eq, pair_eq,
}
use btstack_gatt_rs.Gatt.{GattConnection, GattStatus, status_code, ReadHandler, read_not_permitted}
use btstack_gatt_rs.Runtime.{Attribute, State, find_attribute}

-- What the callback returns, and what it has copied to the buffer.
pub record Reply : Type 0 where
  pub code : ℕ
  pub copied : List ℕ

abbrev pub status : ℕ → Reply
status code = record { code = code; copied = [] }

-- `unwrap_or(0xfe0e)` behind `catch_unwind`.
abbrev pub caught : Outcome Reply → Reply
caught (returned r) = r
caught panicked = status 0xfe0e

-- The `match` on the handler's answer: the value, or the code of an early return.
unfoldable pub checked : Outcome (Result (List ℕ) GattStatus) → Outcome (Result (List ℕ) ℕ)
checked (returned (ok value)) = returned (if leb (length value) 512 then ok value else err 0xfe0d)
checked (returned (err e)) = returned (err (0xfe00 + status_code e))
checked panicked = panicked

-- The end of `read`, on the stored value; a missing key would panic.
unfoldable pub deliver : Option (List ℕ) → ℕ → Bool → ℕ → Outcome Reply
deliver none offset null size = panicked
deliver (some value) offset null size =
    if ltb (length value) offset
    then returned (status 0xfe07)
    else if null
    then returned (status (length value % 65536))
    else let part = drop offset value in
      let len = min (length part) size in
      returned (record { code = len % 65536; copied = take len part })

module _ {App : Type 0} where
  unfoldable pub cccd_value : State App → ℕ → Attribute App → List ℕ
  cccd_value s connection a =
      (if flag_or_false (s.subscriptions (connection, a.handle)) then 1 else 0) ∷ 0 ∷ []

  unfoldable pub call_read :
      Option (ReadHandler App) → GattConnection → App → App × Outcome (Result (List ℕ) GattStatus)
  call_read none c app = (app, returned (err read_not_permitted))
  call_read (some f) c app = f c app

  -- The value that a fresh read stores, with the application after its handler has run.
  unfoldable pub fetch :
      State App → App → GattConnection → Attribute App → ℕ → ℕ → App × Outcome (Result (List ℕ) ℕ)
  unfolding cccd_value call_read checked
  fetch s app c a connection attribute =
      if not (a.handle == attribute)
      then (app, returned (ok (cccd_value s connection a)))
      else let (app', answer) = call_read a.characteristic.read c app in (app', checked answer)

  unfoldable pub store :
      State App
      → App × Outcome (Result (List ℕ) ℕ)
      → ℕ × ℕ
      → ℕ
      → Bool
      → ℕ
      → State App × App × Outcome Reply
  unfolding deliver
  store s (app, returned (ok value)) key offset null size =
      let s' = record s { reads = insert_key key value s.reads } in
      (s', app, deliver (s'.reads key) offset null size)
  store s (app, returned (err code)) key offset null size = (s, app, returned (status code))
  store s (app, panicked) key offset null size = (s, app, panicked)

  -- `read` from the point where the connection and the attribute are known.
  unfoldable pub read_attribute :
      State App
      → App
      → GattConnection
      → Attribute App
      → ℕ
      → ℕ
      → ℕ
      → Bool
      → ℕ
      → State App × App × Outcome Reply
  unfolding fetch store
  read_attribute s app c a connection attribute offset null size =
      let key : ℕ × ℕ = (connection, attribute) in
      if null || not (contains_key s.reads key)
      then store s (fetch s app c a connection attribute) key offset null size
      else (s, app, deliver (s.reads key) offset null size)

  unfoldable pub read_body :
      State App → App → ℕ → ℕ → ℕ → Bool → ℕ → State App × App × Outcome Reply
  unfolding read_attribute find_attribute
  read_body s app connection attribute offset null size = elim (s.connections connection) [
    | none ↦ (s, app, returned (status 0xfe0e))
    | some c ↦ elim (find_attribute s attribute) [
      | none ↦ (s, app, returned (status 0xfe02))
      | some a ↦ read_attribute s app c a connection attribute offset null size
    ]
  ]

  unfoldable pub read : State App → App → ℕ → ℕ → ℕ → Bool → ℕ → State App × App × Reply
  unfolding read_body
  read s app connection attribute offset null size =
      let (s', app', r) = read_body s app connection attribute offset null size in
      (s', app', caught r)
