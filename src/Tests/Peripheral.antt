-- ===== src/Tests/Peripheral.antt =====
-- The examples' server at concrete inputs.
use btstack_gatt_rs.Prelude.{
  ℕ, ◌+◌, ◌-◌, ◌*◌, ◌≤◌, ◌≡◌, ◌++◌, refl, false, List, [], ◌∷◌, none, some, Result, ok, err, ◌==◌,
  nat_eq, arith, leb, reverse, find, All, if◌then◌else◌, bytes,
}
use btstack_gatt_rs.Types.{Error, device_not_found, external, runtime_stopped}
use btstack_gatt_rs.Gatt.{
  characteristic_new, allow_read, allow_write, allow_write_without_response, allow_notify, on_read,
  on_write, service_new, add_characteristic, GattConnection, notify, subscription_changed,
  disconnected, connected,
}
use btstack_gatt_rs.Runtime.Loop.{goes, last}
use btstack_gatt_rs.Peripheral.{
  Round, Received, event, timed_out, hung_up, Serving, second, tx, uart_server, tick_value,
  decimal_digits, hear, send_ticks, serve_loop, serve_until, tick_calls,
}
use btstack_gatt_rs.Peripheral.Subscribers.{latest, heard, received_events}
use btstack_gatt_rs.Peripheral.Counts.{calls_to, one_if}
use btstack_gatt_rs.Peripheral.Rate.{at_start, VisitsOnce, serve_loop-rate, send_ticks-latest}
use btstack_gatt_rs.Server
use btstack_gatt_rs.Gatt.Validity.{name_only}
use btstack_gatt_rs.Usb.{UsbDeviceSelector}
use btstack_gatt_rs.Args.{Args, parse_u64, decimal}
use btstack_gatt_rs.Args.Printed.{Written, print}
use btstack_gatt_rs.Peripheral.Main.{main, run_of, main-print}

abbrev as_stored : List GattConnection → List GattConnection
as_stored m = m

as_stored_once : VisitsOnce as_stored
as_stored_once p xs = refl

abbrev guest : GattConnection
guest = record { handle = 64; generation = 7; mtu = 23 }

-- A round in which this is received, the clock reading so many seconds.
abbrev round_at : ℕ → Received → Round
round_at seconds r = record {
  stop = false;
  checked = seconds * second;
  received = r;
  ticked = seconds * second;
  printed = seconds * second;
  reset = seconds * second;
}

abbrev evening : List Round
evening =
    round_at 0 (event (connected guest))
    ∷ round_at 0 (event (subscription_changed guest tx notify))
    ∷ round_at 1 timed_out
    ∷ round_at 1 timed_out
    ∷ round_at 2 timed_out
    ∷ []

abbrev after_evening : Serving
after_evening = record {
  subscribers = (7, guest) ∷ [];
  tick = 2 * second;
  calls = (guest, bytes "tick 1") ∷ (guest, bytes "tick 2") ∷ [];
}

evening_lem : serve_loop as_stored (some 12) evening (at_start 0) ≡ goes after_evening
unfolding serve_loop hear send_ticks tick_calls tick_value decimal_digits
    btstack_gatt_rs.Peripheral.subscribe_to btstack_gatt_rs.Peripheral.is_over
evening_lem = refl

two_digits : tick_value 42 ≡ bytes "tick 42"
unfolding tick_value decimal_digits
two_digits = refl

forward : All (λ (r : Round). r.ticked ≤ r.reset) evening
forward = (omega arith, (omega arith, (omega arith, (omega arith, (omega arith, tt)))))

serve_loop-rate_example :
    let x = last (serve_loop as_stored (some 12) evening (at_start 0)) in
    calls_to 7 x.calls * second + 0 ≤ x.tick
serve_loop-rate_example = serve_loop-rate as_stored as_stored_once 7 0 (some 12) evening forward

-- The guest leaves just when the third tick is due.
abbrev goodbye : Round
goodbye = round_at 3 (event (disconnected guest))

abbrev alone : Serving
alone = record after_evening { subscribers = [] }

guest_gone : hear goodbye.received after_evening ≡ goes alone
unfolding hear btstack_gatt_rs.Peripheral.unsubscribe
guest_gone = refl

send_ticks-latest_example :
    calls_to 7 (send_ticks as_stored goodbye alone).calls
    ≡ calls_to 7 after_evening.calls
      + (if leb second (goodbye.ticked - after_evening.tick)
          then one_if (latest 7 (received_events goodbye.received ++ reverse (heard evening)) none)
          else 0)
send_ticks-latest_example =
    send_ticks-latest as_stored as_stored_once 7 0 (some 12) evening goodbye after_evening alone
      evening_lem guest_gone

-- Two seconds with the default adapter; only its ids open.
abbrev two_seconds : Args
two_seconds = record {
  selector = record { vendor_id = 0x0411; product_id = 0x0374 };
  seconds = some 2;
  probe = false;
  help = false;
}

abbrev only_default : UsbDeviceSelector → Result (Unit {0}) Error
only_default selector =
    if selector.product_id == 0x0374
    then ok tt
    else err (device_not_found selector.vendor_id selector.product_id)

written : Written (some 2) (some (50 ∷ []))
unfolding parse_u64 decimal
written = refl

main-print_example :
    main as_stored
      (ok tt)
      only_default
      (ok tt)
      0
      evening
      (ok tt)
      (print two_seconds (some (50 ∷ [])))
    ≡ run_of as_stored (ok tt) only_default (ok tt) 0 evening (ok tt) two_seconds
main-print_example =
    main-print as_stored (ok tt) only_default (ok tt) 0 evening (ok tt) two_seconds (some (50 ∷ []))
      (omega arith) (omega arith) written

-- It ends with the round at two seconds.
two_seconds_over :
    run_of as_stored (ok tt) only_default (ok tt) 0 evening (ok tt) two_seconds ≡ some (ok tt)
unfolding btstack_gatt_rs.Peripheral.is_over find
two_seconds_over = refl

time_over : serve_until as_stored (some 2) 0 evening (err (external [])) ≡ some (err (external []))
unfolding serve_until btstack_gatt_rs.Peripheral.is_over
time_over = refl

worker_gone :
    serve_until as_stored none 0 (round_at 0 hung_up ∷ []) (ok tt) ≡ some (err runtime_stopped)
unfolding serve_until btstack_gatt_rs.Peripheral.is_over hear
worker_gone = refl

-- The database of the examples is valid, and advertises the name.
uart_started :
    (Server.start {T = ℕ} {App = ℕ} false (uart_server 0)).0 ≡ ok (name_only (bytes "Rust GATT"))
unfolding Server.start uart_server btstack_gatt_rs.Runtime.Start.reserve
    btstack_gatt_rs.Gatt.Validate.validate btstack_gatt_rs.Advertising.contains
    btstack_gatt_rs.Gatt.has_bits Server.builder Server.set_name Server.service characteristic_new
    allow_read allow_write allow_write_without_response allow_notify on_read on_write service_new
    add_characteristic
uart_started = refl
