-- ===== src/Runtime/Start.antt =====
-- `Runtime::start_with_advertising` of btstack-core/src/runtime.rs: the checks before the thread, the
-- thread from the registration of the services to its result, and the guards of `notify`.
pub mod Handles
pub mod Reserve
pub mod Conclusion
use btstack_gatt_rs.Prelude.{
  ℕ, ◌%◌, Bool, true, false, List, [], ◌∷◌, ◌++◌, Option, none, some, Result, ok, err, ◌>>=◌,
  if◌then◌else◌, Outcome, returned, panicked, not, ltb, length, empty_map, leb, ◌||◌, ◌==◌, nat_eq,
}
use btstack_gatt_rs.Types.{
  Uuid, Error, already_active, power_on_failed, runtime_panicked, transport_panicked,
  called_from_callback, value_exceeds_512, stopped_or_full,
}
use btstack_gatt_rs.Advertising.{AdvertisingData}
use btstack_gatt_rs.Advertising
use btstack_gatt_rs.Gatt.{GattConnection, GattCharacteristic, GattService, error}
use btstack_gatt_rs.Gatt.Validate.{validate}
use btstack_gatt_rs.Runtime.{State, Attribute}
use btstack_gatt_rs.Runtime.Bridge.{Stack, Transport}
use btstack_gatt_rs.Runtime.Bridge.Worker.{Worker, exec}
use btstack_gatt_rs.Runtime.Drain.{Started}
use btstack_gatt_rs.Runtime.Loop.{
  Loop, Turn, Step, Command, goes, finishes, fails, panics, run, notify, last,
}
use btstack_gatt_rs.Runtime.Stop.{stop_controller}

module _ {App : Type 0} where
  -- The payload: `validate` comes first, also where explicit data replaces its default.
  unfoldable pub payload :
      List ℕ → List (GattService App) → Option AdvertisingData → Result (List ℕ) Error
  payload name services advertising = do
    default_adv ← validate name services
    elim advertising [ some d ↦ Advertising.to_bytes d | none ↦ ok default_adv ]

  -- The checks, then `ACTIVE.compare_exchange(false, true)`; `ACTIVE` beside the result.
  unfoldable pub reserve :
      Bool → List ℕ → List (GattService App) → Option AdvertisingData → Result (List ℕ) Error × Bool
  unfolding payload
  reserve active name services advertising = elim (payload name services advertising) [
    | err e ↦ (err e, active)
    | ok adv ↦ if active then (err already_active, true) else (ok adv, true)
  ]

-- `start`, without advertising data of its own.
unfoldable pub start_default :
    {App : Type 0} → Bool → List ℕ → List (GattService App) → Result (List ℕ) Error × Bool
unfolding reserve
start_default active name services = reserve active name services none

module _ (K : Stack) {App : Type 0} where
  -- `rs_characteristic`, and the push of the attribute.
  unfoldable pub register_characteristics :
      List (GattCharacteristic App) → K.S × List (Attribute App) → K.S × List (Attribute App)
  register_characteristics [] r = r
  register_characteristics (c ∷ cs) r =
      let (s, handle) = K.add_characteristic c.uuid c.properties r.0 in
      register_characteristics cs (s, r.1 ++ record { handle = handle; characteristic = c } ∷ [])

  unfoldable pub register_services :
      List (GattService App) → K.S × List (Attribute App) → K.S × List (Attribute App)
  unfolding register_characteristics
  register_services [] r = r
  register_services (v ∷ vs) r =
      register_services vs
        (register_characteristics v.characteristics (K.add_service v.uuid r.0, r.1))

-- `result.and(shutdown_result)`, where a panic of either part has become its error.
unfoldable pub combine : Result (Unit {0}) Error → Result (Unit {0}) Error → Result (Unit {0}) Error
combine (ok u) shutdown = shutdown
combine (err e) shutdown = err e

-- What `catch_unwind` and `unwrap_or_else` make of a part that has ended.
unfoldable pub ended {ℓ} : {A : Type ℓ} → Error → Step A → Option (Result (Unit {0}) Error)
ended on_panic (goes a) = none
ended on_panic (finishes a) = some (ok tt)
ended on_panic (fails a e) = some (err e)
ended on_panic (panics a) = some (err on_panic)

module _ {K : Stack} {R : Transport} {App : Type 0} where
  -- The thread's state before `rs_start`.
  unfoldable pub prepare : List ℕ → List (GattService App) → ℕ → App → R.T → Worker K R App
  unfolding register_services
  prepare name services generation app transport =
      let (s, attributes) = register_services K services (K.gap_name name K.init, []) in
      record {
        state = record {
          attributes = attributes;
          connections = empty_map;
          subscriptions = empty_map;
          reads = empty_map;
          pending = [];
          events = [];
        };
        app = app;
        queue = [];
        failure = none;
        generation = generation;
        stack = s;
        transport = transport;
      }

  -- `rs_start` with `adv.len() as u8`, and `run` if it gives 0.
  unfoldable pub launch : ℕ → List Turn → List ℕ → Worker K R App → Option (Step (Loop K R App))
  unfolding run
  launch fuel turns adv w =
      let (w', code) = exec (K.start adv w.stack) w in
      let l : Loop K R App = record {
        worker = w';
        started = record { started = false; told = 0 };
        commands = [];
        closed = false;
        answers = [];
      } in
      if not (code == 0) then some (fails l power_on_failed) else run fuel turns l

  -- `if let Err(e) = &result { event_tx.send(Error) }`.
  unfoldable pub announce : Worker K R App → Result (Unit {0}) Error → Worker K R App
  announce w (ok u) = w
  announce w (err e) = record w {
    state = record w.state { events = w.state.events ++ error e ∷ [] };
  }

  -- The thread from `rs_start` on: the loop, and the shutdown however the loop has ended. `none` while
  -- either of them still runs.
  unfoldable pub conclude :
      ℕ → List ℕ → Step (Loop K R App) → Option (Worker K R App × Result (Unit {0}) Error)
  conclude now readings s = elim (ended runtime_panicked s) [
    | none ↦ none
    | some result ↦
        let stopped = stop_controller now readings (last s).worker in
        elim (ended transport_panicked stopped) [
          | none ↦ none
          | some shutdown ↦ let r = combine result shutdown in some (announce (last stopped) r, r)
        ]
  ]

-- Who calls `Runtime::notify`: another thread; the thread itself inside a method of the transport, with
-- `STATE` not borrowed; or the thread itself inside a read or write handler, for which `read` and `write`
-- hold `STATE` mutably borrowed.
pub data Caller : Type 0 where
  elsewhere in_transport in_handler : Caller

module _ {K : Stack} {R : Transport} {App : Type 0} where
  -- `try_send` to the queue of 128 commands, after the guard on the length.
  unfoldable pub send_command :
      Bool → Loop K R App → ℕ → GattConnection → Uuid → List ℕ → Result (Loop K R App) Error
  send_command dead l answer connection uuid value =
      if ltb 512 (length value)
      then err value_exceeds_512
      else if dead || leb 128 (length l.commands)
      then err stopped_or_full
      else ok (record l { commands = l.commands ++ notify answer connection uuid value ∷ [] })

  -- `Runtime::notify` until it waits for the answer. `dead` says whether the thread has gone. In a handler
  -- `STATE.borrow()` panics, since `STATE` is mutably borrowed, and the guard does not come to its error.
  unfoldable pub submit :
      Caller
      → Bool
      → Loop K R App
      → ℕ
      → GattConnection
      → Uuid
      → List ℕ
      → Outcome (Result (Loop K R App) Error)
  unfolding send_command
  submit elsewhere dead l answer connection uuid value =
      returned (send_command dead l answer connection uuid value)
  submit in_transport dead l answer connection uuid value = returned (err called_from_callback)
  submit in_handler dead l answer connection uuid value = panicked
