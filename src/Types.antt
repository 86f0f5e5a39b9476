-- ===== src/Types.antt =====
-- btstack-core/src/lib.rs, and the `Uuid` of gatt.rs: the types that every part of btstack-core uses.
-- An error of the source is a message; here it is a constructor for each message, with the numbers
-- that the message prints.
use btstack_gatt_rs.Prelude.{ℕ, ◌≡◌, ◌<◌, List, All, length}

-- A canonical, big-endian UUID, `[u8; 16]`.
abbrev pub Uuid : Type 0
Uuid = List ℕ

pub record IsUuid (u : Uuid) : Type 0 where
  pub sixteen : length u ≡ 16
  pub in_range : All (λ b. b < 256) u

pub data Error : Type 0 where
  advertising_name_length no_service service_without_characteristic : Error
  duplicate_characteristic missing_handler too_many_characteristics : Error
  advertising_name_empty advertising_too_large advertising_exceeds_31 : Error
  invalid_packet_header invalid_packet_length : Error
  connection_not_active unknown_characteristic not_subscribed : Error
  exceeds_mtu notification_queue_full : Error
  advertising_failed : ℕ → Error
  command_failed : ℕ → ℕ → Error
  initialization_timed_out shutdown_timed_out power_on_failed : Error
  runtime_panicked transport_panicked transport_callback_panicked : Error
  already_active startup_timed_out cannot_join thread_panicked runtime_stopped : Error
  called_from_callback value_exceeds_512 stopped_or_full enqueue_timed_out : Error
  -- An error of the operating system, by its number.
  io_error : ℕ → Error
  -- Of the USB transport.
  device_not_found several_devices : ℕ → ℕ → Error
  missing_setting missing_interrupt_in missing_bulk_in missing_bulk_out : Error
  android_needs_descriptor : Error
  acl_out_timeout short_acl_out unsupported_packet_type receive_worker_stopped : Error
  -- Any other message of the transport.
  external : List ℕ → Error

pub record HciPacket : Type 0 where
  pub kind : ℕ
  pub payload : List ℕ
