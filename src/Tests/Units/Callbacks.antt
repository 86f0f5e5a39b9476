-- ===== src/Tests/Units/Callbacks.antt =====
-- The tests of btstack-core/src/runtime.rs.
use btstack_gatt_rs.Prelude.{
  ℕ, suc, ◌≡◌, refl, Bool, true, false, List, [], ◌∷◌, ok, returned, panicked, empty_map,
  insert_key, ◌==◌, nat_eq, list_eq, list_beq,
}
use btstack_gatt_rs.Gatt.{
  GattConnection, GattCharacteristic, ReadHandler, WriteHandler, ServerEvent, connected,
  disconnected, subscription_changed, notification_failed, error, notify, unsubscribed,
  characteristic_new, allow_read, allow_write, allow_notify, on_read, on_write, has_bits,
}
use btstack_gatt_rs.Runtime.{State, find_attribute, answers}
use btstack_gatt_rs.Runtime.Packet.{validate_packet}
use btstack_gatt_rs.Runtime.Read.{read}
use btstack_gatt_rs.Runtime.Write.{write}
use btstack_gatt_rs.Tests.Units.{asserts, is_ok, is_err, repeat}

abbrev connection : ℕ → GattConnection
connection handle = record { handle = handle; generation = handle; mtu = 23 }

abbrev setup : {App : Type 0} → GattCharacteristic App → State App
setup characteristic = record {
  attributes = record { handle = 10; characteristic = characteristic } ∷ [];
  connections = insert_key 2 (connection 2) (insert_key 1 (connection 1) empty_map);
  subscriptions = empty_map;
  reads = empty_map;
  pending = [];
  events = [];
}

-- The application counts the calls of its handlers.
abbrev six_bytes : ReadHandler ℕ
six_bytes c calls = (suc calls, returned (ok (97 ∷ 98 ∷ 99 ∷ 100 ∷ 101 ∷ 102 ∷ [])))

abbrev accepts : WriteHandler ℕ
accepts c value calls = (suc calls, returned (ok tt))

abbrev read_panics : ReadHandler ℕ
read_panics c calls = (calls, panicked)

abbrev write_panics : WriteHandler ℕ
write_panics c value calls = (calls, panicked)

abbrev read_probe_and_copy_use_one_snapshot_and_handle_offsets : Bool
read_probe_and_copy_use_one_snapshot_and_handle_offsets =
    let s0 = setup (on_read (allow_read (characteristic_new (repeat 16 1))) six_bytes) in
    let (s1, n1, r1) = read s0 0 1 10 0 true 0 in
    let (s2, n2, r2) = read s1 n1 1 10 2 false 3 in
    let (s3, n3, r3) = read s2 n2 1 10 7 false 3 in
    let (s4, n4, r4) = read s3 n3 1 10 6 false 3 in
    asserts (
      (r1.code == 6)
      ∷ (r2.code == 3)
      ∷ (r2.copied == (99 ∷ 100 ∷ 101 ∷ []))
      ∷ (n2 == 1)
      ∷ (r3.code == 0xfe07)
      ∷ (r4.code == 0)
      ∷ [])

read_probe_passes : read_probe_and_copy_use_one_snapshot_and_handle_offsets ≡ true
unfolding read find_attribute answers characteristic_new allow_read on_read has_bits list_beq
read_probe_passes = refl

-- `matches!` on what `try_recv` gives first.
abbrev notify_first : List ServerEvent → Bool
notify_first [] = false
notify_first (subscription_changed c uuid notify ∷ es) = true
notify_first (subscription_changed c uuid unsubscribed ∷ es) = false
notify_first (connected c ∷ es) = false
notify_first (disconnected c ∷ es) = false
notify_first (notification_failed c status ∷ es) = false
notify_first (error e ∷ es) = false

abbrev cccd_is_per_connection_and_rejects_unsupported_bits : Bool
cccd_is_per_connection_and_rejects_unsupported_bits =
    let s0 = setup {App = ℕ} (allow_notify (characteristic_new (repeat 16 1))) in
    let (s1, n1, w1) = write s0 0 1 11 0 0 (1 ∷ 0 ∷ []) in
    let (s2, n2, r2) = read s1 n1 1 11 0 false 2 in
    let (s3, n3, r3) = read s2 n2 2 11 0 false 2 in
    let (s4, n4, w4) = write s3 n3 1 11 0 0 (2 ∷ 0 ∷ []) in
    let (s5, n5, w5) = write s4 n4 1 11 0 0 (1 ∷ []) in
    let (s6, n6, w6) = write s5 n5 1 11 0 0 (0 ∷ 0 ∷ []) in
    let (s7, n7, r7) = read s6 n6 1 11 0 false 2 in
    asserts (
      (w1 == 0)
      ∷ notify_first s1.events
      ∷ (r2.code == 2)
      ∷ (r2.copied == (1 ∷ 0 ∷ []))
      ∷ (r3.code == 2)
      ∷ (r3.copied == (0 ∷ 0 ∷ []))
      ∷ (w4 == 19)
      ∷ (w5 == 13)
      ∷ (w6 == 0)
      ∷ (r7.code == 2)
      ∷ (r7.copied == (0 ∷ 0 ∷ []))
      ∷ [])

cccd_passes : cccd_is_per_connection_and_rejects_unsupported_bits ≡ true
unfolding read write find_attribute answers characteristic_new allow_notify has_bits list_beq
cccd_passes = refl

abbrev prepared_and_offset_writes_never_invoke_application : Bool
prepared_and_offset_writes_never_invoke_application =
    let s0 = setup (on_write (allow_write (characteristic_new (repeat 16 1))) accepts) in
    let (s1, n1, w1) = write s0 0 1 10 1 0 (1 ∷ []) in
    let (s2, n2, w2) = write s1 n1 1 10 0 1 (1 ∷ []) in
    let (s3, n3, w3) = write s2 n2 1 10 0 0 [] in
    asserts ((w1 == 6) ∷ (w2 == 7) ∷ (n2 == 0) ∷ (w3 == 0) ∷ (n3 == 1) ∷ [])

prepared_passes : prepared_and_offset_writes_never_invoke_application ≡ true
unfolding write find_attribute answers characteristic_new allow_write on_write has_bits
prepared_passes = refl

abbrev application_panics_do_not_cross_c_boundary : Bool
application_panics_do_not_cross_c_boundary =
    let c = allow_write (allow_read (characteristic_new (repeat 16 1))) in
    let s0 = setup (on_write (on_read c read_panics) write_panics) in
    let (s1, n1, r1) = read s0 0 1 10 0 true 0 in
    let (s2, n2, w2) = write s1 n1 1 10 0 0 [] in asserts ((r1.code == 0xfe0e) ∷ (w2 == 14) ∷ [])

panics_pass : application_panics_do_not_cross_c_boundary ≡ true
unfolding read write find_attribute answers characteristic_new allow_read allow_write on_read
    on_write has_bits
panics_pass = refl

abbrev reject_malformed_hci_lengths : Bool
reject_malformed_hci_lengths = asserts (
    is_ok (validate_packet (record { kind = 4; payload = 0x0e ∷ 4 ∷ 1 ∷ 3 ∷ 0x0c ∷ 0 ∷ [] }))
    ∷ is_err (validate_packet (record { kind = 4; payload = 0x0e ∷ [] }))
    ∷ is_err (validate_packet (record { kind = 4; payload = 0x0e ∷ 4 ∷ 0 ∷ [] }))
    ∷ is_err (validate_packet (record { kind = 2; payload = 0 ∷ 0 ∷ 10 ∷ 0 ∷ 1 ∷ [] }))
    ∷ is_err (validate_packet (record { kind = 3; payload = 0 ∷ 0 ∷ [] }))
    ∷ [])

lengths_pass : reject_malformed_hci_lengths ≡ true
unfolding validate_packet
lengths_pass = refl
