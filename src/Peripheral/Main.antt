-- ===== src/Peripheral/Main.antt =====
-- `main` of examples/gatt-peripheral/src/main.rs, from the command line to the exit. What the other
-- parts give is an argument: the handler of the signal, the transport for a selector, the start of the
-- server and its shutdown.
use btstack_gatt_rs.Prelude.{
  ℕ, ◌<◌, ◌≡◌, arith, List, Option, none, some, Result, ok, err, if◌then◌else◌, find,
}
use btstack_gatt_rs.Types.{Error}
use btstack_gatt_rs.Gatt.{GattConnection}
use btstack_gatt_rs.Usb.{UsbDeviceSelector}
use btstack_gatt_rs.Args.{Args, ArgsError, parse}
use btstack_gatt_rs.Args.Printed.{Written, print, parse-print}
use btstack_gatt_rs.Peripheral.{Round, serve_until}
use btstack_gatt_rs.Peripheral.Leaving.{result_of, is_last, serve_until_lem}

pub data MainError : Type 0 where
  invalid_arguments : ArgsError → MainError
  failed : Error → MainError

abbrev pub or_failed : Result (Unit {0}) Error → Result (Unit {0}) MainError
or_failed (ok u) = ok u
or_failed (err e) = err (failed e)

abbrev pub finally : Option (Result (Unit {0}) Error) → Option (Result (Unit {0}) MainError)
finally none = none
finally (some r) = some (or_failed r)

module _ (order : List GattConnection → List GattConnection) (handler : Result (Unit {0}) Error)
    (opened : UsbDeviceSelector → Result (Unit {0}) Error) (started : Result (Unit {0}) Error)
    (tick : ℕ) (rounds : List Round) (shutdown : Result (Unit {0}) Error) where
  unfoldable pub serve_started :
      Option ℕ → Result (Unit {0}) Error → Option (Result (Unit {0}) MainError)
  unfolding serve_until
  serve_started seconds (err e) = some (err (failed e))
  serve_started seconds (ok u) = finally (serve_until order seconds tick rounds shutdown)

  unfoldable pub with_device : Args → Result (Unit {0}) Error → Option (Result (Unit {0}) MainError)
  unfolding serve_started
  with_device a (err e) = some (err (failed e))
  with_device a (ok u) = if a.probe then some (ok tt) else serve_started a.seconds started

  unfoldable pub with_handler :
      Args → Result (Unit {0}) Error → Option (Result (Unit {0}) MainError)
  unfolding with_device
  with_handler a (err e) = some (err (failed e))
  with_handler a (ok u) = with_device a (opened a.selector)

  unfoldable pub main : List (List ℕ) → Option (Result (Unit {0}) MainError)
  unfolding parse with_handler
  main args = elim (parse args) [
    | err e ↦ some (err (invalid_arguments e))
    | ok a ↦ if a.help then some (ok tt) else with_handler a handler
  ]

  -- The exits in the order of the code, for settings and not for a command line.
  abbrev pub run_of : Args → Option (Result (Unit {0}) MainError)
  run_of a = if a.help then some (ok tt) else elim handler [
    | err e ↦ some (err (failed e))
    | ok u ↦ elim (opened a.selector) [
      | err e ↦ some (err (failed e))
      | ok d ↦ if a.probe then some (ok tt) else elim started [
        | err e ↦ some (err (failed e))
        | ok s ↦ finally (result_of a.seconds shutdown (find (is_last a.seconds) rounds))
      ]
    ]
  ]

  -- The program does what its command line says. Given ids below 65536 in four hexadecimal digits, the
  -- seconds if there are any and the flags that are set, it ends after the usage message if asked for
  -- it, it opens the device of these ids and ends if it is only to probe, and else it serves until the
  -- first round in which the flag is set, these seconds are over or the server has failed. Its result
  -- is that of the shutdown, or the first error.
  pub main-print :
      (a : Args) (word : Option (List ℕ))
      → a.selector.vendor_id < 65536
      → a.selector.product_id < 65536
      → Written a.seconds word
      → main (print a word) ≡ run_of a
  unfolding main
  main-print a word v p w =
      ground (arith, parse-print a word v p w, serve_until_lem order a.seconds tick rounds shutdown)
