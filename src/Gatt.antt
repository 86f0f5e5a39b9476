-- ===== src/Gatt.antt =====
-- btstack-core/src/gatt.rs: connections, statuses, characteristics with their handlers, services and
-- the events of a server. The application is a state `App`; a handler reads and changes it, and it
-- may panic. The length of a value is counted in bytes.
pub mod Validate
pub mod Fresh
pub mod Validity
use btstack_gatt_rs.Prelude.{
  ℕ, Bool, true, false, List, [], ◌∷◌, ◌++◌, Option, none, some, Result, Outcome, not, ◌==◌, nat_eq,
  bit_and, bit_or,
}
use btstack_gatt_rs.Types.{Uuid, Error}

pub record GattConnection : Type 0 where
  pub handle : ℕ
  pub generation : ℕ
  pub mtu : ℕ

unfoldable pub id : GattConnection → ℕ
id c = c.generation

pub data SubscriptionType : Type 0 where
  unsubscribed notify : SubscriptionType

pub data GattStatus : Type 0 where
  read_not_permitted write_not_permitted invalid_offset request_not_supported : GattStatus
  invalid_value_length unlikely_error value_not_allowed : GattStatus

-- `status as i32`.
abbrev pub status_code : GattStatus → ℕ
status_code read_not_permitted = 2
status_code write_not_permitted = 3
status_code invalid_offset = 7
status_code request_not_supported = 6
status_code invalid_value_length = 13
status_code unlikely_error = 14
status_code value_not_allowed = 19

abbrev pub ReadHandler : Type 0 → Type 0
ReadHandler App = GattConnection → App → App × Outcome (Result (List ℕ) GattStatus)

abbrev pub WriteHandler : Type 0 → Type 0
WriteHandler App = GattConnection → List ℕ → App → App × Outcome (Result (Unit {0}) GattStatus)

pub record GattCharacteristic (App : Type 0) : Type 0 where
  pub uuid : Uuid
  pub properties : ℕ
  pub read : Option (ReadHandler App)
  pub write : Option (WriteHandler App)

pub record GattService (App : Type 0) : Type 0 where
  pub uuid : Uuid
  pub characteristics : List (GattCharacteristic App)

pub data ServerEvent : Type 0 where
  connected : GattConnection → ServerEvent
  disconnected : GattConnection → ServerEvent
  subscription_changed : GattConnection → Uuid → SubscriptionType → ServerEvent
  notification_failed : GattConnection → ℕ → ServerEvent
  error : Error → ServerEvent

-- `properties & mask != 0`.
unfoldable pub has_bits : ℕ → ℕ → Bool
has_bits properties mask = not (bit_and properties mask == 0)

module _ {App : Type 0} where
  unfoldable pub characteristic_new : Uuid → GattCharacteristic App
  characteristic_new uuid = record { uuid = uuid; properties = 0; read = none; write = none }

  unfoldable pub allow_read : GattCharacteristic App → GattCharacteristic App
  allow_read c = record c { properties = bit_or c.properties 2 }

  unfoldable pub allow_write : GattCharacteristic App → GattCharacteristic App
  allow_write c = record c { properties = bit_or c.properties 8 }

  unfoldable pub allow_write_without_response : GattCharacteristic App → GattCharacteristic App
  allow_write_without_response c = record c { properties = bit_or c.properties 4 }

  unfoldable pub allow_notify : GattCharacteristic App → GattCharacteristic App
  allow_notify c = record c { properties = bit_or c.properties 16 }

  unfoldable pub on_read : GattCharacteristic App → ReadHandler App → GattCharacteristic App
  on_read c handler = record c { read = some handler }

  unfoldable pub on_write : GattCharacteristic App → WriteHandler App → GattCharacteristic App
  on_write c handler = record c { write = some handler }

  unfoldable pub service_new : Uuid → GattService App
  service_new uuid = record { uuid = uuid; characteristics = [] }

  unfoldable pub add_characteristic : GattService App → GattCharacteristic App → GattService App
  add_characteristic s c = record s { characteristics = s.characteristics ++ c ∷ [] }
