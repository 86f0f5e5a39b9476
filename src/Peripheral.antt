-- ===== src/Peripheral.antt =====
-- examples/gatt-peripheral/src/main.rs: the example peripheral, and the server that both examples run.
-- Time is in nanoseconds since `start`. Output on the console is left out.
pub mod Subscribers
pub mod Counts
pub mod Rate
pub mod Leaving
pub mod Live
pub mod Agreement
pub mod Main
use btstack_gatt_rs.Prelude.{
  ℕ, zero, suc, ◌+◌, ◌-◌, ◌*◌, ◌/◌, ◌%◌, Bool, true, false, List, [], ◌∷◌, ◌++◌, Option, none, some,
  Result, ok, err, Outcome, returned, if◌then◌else◌, leb, ltb, not, retain, find, map, ◌||◌, ◌==◌,
  nat_eq, bytes,
}
use btstack_gatt_rs.Types.{Uuid, Error, runtime_stopped}
use btstack_gatt_rs.Gatt.{
  GattConnection, id, GattStatus, GattCharacteristic, GattService, ReadHandler, WriteHandler,
  SubscriptionType, notify, unsubscribed, ServerEvent, connected, disconnected,
  subscription_changed, notification_failed, error, characteristic_new, allow_read, allow_write,
  allow_write_without_response, allow_notify, on_read, on_write, service_new, add_characteristic,
}
use btstack_gatt_rs.Runtime.Loop.{Step, goes, finishes, fails, panics}
use btstack_gatt_rs.Server.{GattServerBuilder}
use btstack_gatt_rs.Server

-- The UUIDs of the service, of RX and of TX differ in one byte.
abbrev pub nordic_uuid : ℕ → Uuid
nordic_uuid n =
    0x6e ∷ 0x40 ∷ 0 ∷ n ∷ 0xb5 ∷ 0xa3 ∷ 0xf3 ∷ 0x93 ∷ 0xe0 ∷ 0xa9 ∷ 0xe5 ∷ 0x0e ∷ 0x24 ∷ 0xdc ∷ 0xca
    ∷ 0x9e ∷ []

abbrev pub uart_uuid : Uuid
uart_uuid = nordic_uuid 1

abbrev pub rx : Uuid
rx = nordic_uuid 2

abbrev pub tx : Uuid
tx = nordic_uuid 3

abbrev pub print_value : {App : Type 0} → WriteHandler App
print_value c value app = (app, returned (ok tt))

abbrev pub hello : {App : Type 0} → ReadHandler App
hello c app = (app, returned (ok (bytes "hello from Rust")))

module _ {App : Type 0} where
  abbrev pub uart_service : GattService App
  uart_service =
      add_characteristic
        (add_characteristic (service_new uart_uuid) (
          on_write (allow_write_without_response (allow_write (characteristic_new rx)))
            print_value))
        (on_read (allow_notify (allow_read (characteristic_new tx))) hello)

  unfoldable pub uart_server : {T : Type 0} → T → GattServerBuilder T App
  uart_server transport =
      Server.service (Server.set_name (Server.builder transport) (bytes "Rust GATT")) uart_service

-- `format!("tick {}", n)`: decimal digits, the last one first in `digits`; a number below 2 ^ 64 has at
-- most twenty.
unfoldable pub decimal_digits : ℕ → ℕ → List ℕ
decimal_digits zero n = []
decimal_digits (suc left) n =
    let rest = decimal_digits left (n / 10) in
    if ltb n 10 then (48 + n) ∷ [] else rest ++ (48 + n % 10) ∷ []

unfoldable pub tick_value : ℕ → List ℕ
unfolding decimal_digits
tick_value seconds = bytes "tick " ++ decimal_digits 20 seconds

-- `HashMap<u64, GattConnection>`.
abbrev pub Subscribers : Type 0
Subscribers = List (ℕ × GattConnection)

unfoldable pub unsubscribe : ℕ → Subscribers → Subscribers
unfolding retain
unsubscribe key m = retain (λ e. not (e.0 == key)) m

unfoldable pub subscribe_to : ℕ → GattConnection → Subscribers → Subscribers
unfolding unsubscribe
subscribe_to key c m = (key, c) ∷ unsubscribe key m

-- What `recv_timeout` gives.
pub data Received : Type 0 where
  event : ServerEvent → Received
  timed_out hung_up : Received

-- What one round of the loop reads: the flag `stop`, the clock at the head of the loop, what is received,
-- and the clock in `tick.elapsed()`, in `start.elapsed()` and where `tick` is set.
pub record Round : Type 0 where
  pub stop : Bool
  pub checked : ℕ
  pub received : Received
  pub ticked : ℕ
  pub printed : ℕ
  pub reset : ℕ

-- The loop's variables, and the calls of `notify` that it has made, with the connection and the value;
-- the characteristic is always `tx`. A call that fails is only reported.
pub record Serving : Type 0 where
  pub subscribers : Subscribers
  pub tick : ℕ
  pub calls : List (GattConnection × List ℕ)

abbrev pub second : ℕ
second = 1_000_000_000

-- The `match` on what is received.
unfoldable pub hear : Received → Serving → Step Serving
unfolding subscribe_to unsubscribe id
hear (event (subscription_changed c uuid notify)) x =
    goes (record x { subscribers = subscribe_to (id c) c x.subscribers })
hear (event (subscription_changed c uuid unsubscribed)) x =
    goes (record x { subscribers = unsubscribe (id c) x.subscribers })
hear (event (disconnected c)) x = goes (record x { subscribers = unsubscribe (id c) x.subscribers })
hear (event (error e)) x = fails x e
hear (event (connected c)) x = goes x
hear (event (notification_failed c code)) x = goes x
hear timed_out x = goes x
hear hung_up x = fails x runtime_stopped

-- The condition of the loop, negated.
unfoldable pub is_over : Option ℕ → Round → Bool
is_over none r = r.stop
is_over (some seconds) r = r.stop || not (ltb r.checked (seconds * second))

-- `order` is the order in which the hash map gives its values.
module _ (order : List GattConnection → List GattConnection) where
  unfoldable pub tick_calls : ℕ → Subscribers → List (GattConnection × List ℕ)
  unfolding tick_value
  tick_calls now m = map (λ c. (c, tick_value (now / second))) (order (map (λ e. e.1) m))

  unfoldable pub send_ticks : Round → Serving → Serving
  unfolding tick_calls
  send_ticks r x =
      if leb second (r.ticked - x.tick)
      then record x { tick = r.reset; calls = x.calls ++ tick_calls r.printed x.subscribers }
      else x

  -- `goes` where the rounds end before the loop does.
  unfoldable pub serve_loop : Option ℕ → List Round → Serving → Step Serving
  unfolding hear send_ticks is_over
  serve_loop seconds [] x = goes x
  serve_loop seconds (r ∷ rs) x =
      if is_over seconds r then finishes x else elim (hear r.received x) [
        | goes y ↦ serve_loop seconds rs (send_ticks r y)
        | finishes y ↦ finishes y
        | fails y e ↦ fails y e
        | panics y ↦ panics y
      ]

  -- From the start of the server on; `tick` is the first reading of the clock, and `shutdown` is the
  -- result of the server's. An error ends the program, and the server is dropped.
  unfoldable pub serve_until :
      Option ℕ → ℕ → List Round → Result (Unit {0}) Error → Option (Result (Unit {0}) Error)
  unfolding serve_loop
  serve_until seconds tick rounds shutdown =
      elim (serve_loop seconds rounds (record { subscribers = []; tick = tick; calls = [] })) [
        | goes x ↦ none
        | finishes x ↦ some shutdown
        | fails x e ↦ some (err e)
        | panics x ↦ none
      ]
