-- ===== src/Usb/Driver.antt =====
-- The transport of btstack-nusb/src/lib.rs, as the runtime drives it.
use btstack_gatt_rs.Prelude.{ℕ, List, [], ◌∷◌, Option, Result, Outcome, returned, nat_eq}
use btstack_gatt_rs.Types.{Error, HciPacket}
use btstack_gatt_rs.Runtime.Bridge.{Transport}
use btstack_gatt_rs.Usb.{Completion, Receiver, worker_pass, receive_packet}
use btstack_gatt_rs.Usb.Sending.{UsbIo, send_packet}

-- The passes that the thread makes before each `receive`.
abbrev pub Schedule : Type 0
Schedule = List (List (Option Completion × Option Completion))

unfoldable pub passes : List (Option Completion × Option Completion) → Receiver → Receiver
unfolding worker_pass
passes [] r = r
passes ((events, acl) ∷ ps) r = passes ps (worker_pass events acl r)

module _ (io : UsbIo) where
  unfoldable pub receive_scheduled :
      io.T × Receiver × Schedule
      → (io.T × Receiver × Schedule) × Outcome (Result (Option HciPacket) Error)
  unfolding passes receive_packet
  receive_scheduled (t, r, []) =
      let (r', result) = receive_packet r in ((t, r', []), returned result)
  receive_scheduled (t, r, ps ∷ later) =
      let (r', result) = receive_packet (passes ps r) in ((t, r', later), returned result)

  unfoldable pub send_scheduled :
      ℕ
      → List ℕ
      → io.T × Receiver × Schedule
      → (io.T × Receiver × Schedule) × Outcome (Result (Unit {0}) Error)
  unfolding send_packet
  send_scheduled kind packet (t, r, later) =
      let (t', result) = send_packet io kind packet t in ((t', r, later), returned result)

  -- The transport that the runtime drives.
  abbrev pub usb_transport : Transport
  usb_transport = record {
    T = io.T × Receiver × Schedule;
    send = send_scheduled;
    receive = receive_scheduled;
  }
