-- ===== src/Tests/Usb.antt =====
-- The USB transport of btstack-nusb/src/lib.rs at concrete inputs.
use btstack_gatt_rs.Prelude.{
  ℕ, zero, suc, ◌≤◌, ◌≡◌, ◌↔◌, ◌++◌, refl, true, false, ◌⊎◌, List, [], ◌∷◌, none, some, ok, err,
  find, ◌==◌, nat_eq, length, Option, arith, min, ap,
}
use btstack_gatt_rs.Types.{Error, HciPacket, external, acl_out_timeout, short_acl_out}
use btstack_gatt_rs.Gatt.{has_bits}
use btstack_gatt_rs.Usb.{
  UsbDeviceSelector, Endpoint, Setting, Pipes, interrupt, bulk, other_transfer, note_endpoint,
  discover, pipes, choose, Completion, opened, DeviceInfo, open_selected, Device, from_device,
  one_match,
}
use btstack_gatt_rs.Usb.Delivery.{Item, Action, pass, take_one, offers, act}
use btstack_gatt_rs.Usb.Pending.{Ready}
use btstack_gatt_rs.Usb.Ended.{has_error, Full}
use btstack_gatt_rs.Usb.Order.{act-opened}
use btstack_gatt_rs.Usb.Discovery.{is_event, is_input, is_output, last_with, from_device_lem}
use btstack_gatt_rs.Usb.Driver.{Schedule, usb_transport}
use btstack_gatt_rs.Usb.Received.{packets, received_by, actions, received_by-offers}
use btstack_gatt_rs.Usb.Sending.{UsbIo, OutCompletion, send_packet}
use btstack_gatt_rs.Usb.Sent.{Fifo, Own, acl_packets, sends, sends-Own}

-- The endpoints of a common adapter; the isochronous ones are for audio.
abbrev adapter : List Setting
adapter =
    record { alternate_setting = 1; endpoints = [] }
    ∷ record {
      alternate_setting = 0;
      endpoints =
          record { address = 0x81; transfer_type = interrupt }
          ∷ record { address = 0x82; transfer_type = bulk }
          ∷ record { address = 0x02; transfer_type = bulk }
          ∷ record { address = 0x83; transfer_type = other_transfer }
          ∷ [];
    }
    ∷ []

abbrev adapter_pipes : Pipes
adapter_pipes = record { event = 0x81; input = 0x82; output = 0x02 }

adapter_chosen : choose adapter ≡ ok adapter_pipes
unfolding choose discover note_endpoint pipes has_bits find
adapter_chosen = refl

-- A device that works, and two of them on the bus.
abbrev device : Device
device = record {
  claim = ok adapter;
  open_event = λ a. ok tt;
  open_input = λ a. ok tt;
  open_output = λ a. ok tt;
  spawn = ok tt;
}

abbrev dongle : DeviceInfo
dongle = record { vendor_id = 0x0bda; product_id = 0x8771; device = ok device }

abbrev selector : UsbDeviceSelector
selector = record { vendor_id = 0x0bda; product_id = 0x8771 }

from_device_lem_example : (from_device device ≡ ok adapter_pipes) ↔ (
    (settings : List Setting) × (s : Setting) × (device.claim ≡ ok settings)
    × (find (λ t. t.alternate_setting == 0) settings ≡ some s)
    × (last_with is_event s.endpoints none ≡ some adapter_pipes.event)
    × (last_with is_input s.endpoints none ≡ some adapter_pipes.input)
    × (last_with is_output s.endpoints none ≡ some adapter_pipes.output)
    × (device.open_event adapter_pipes.event ≡ ok tt)
    × (device.open_input adapter_pipes.input ≡ ok tt)
    × (device.open_output adapter_pipes.output ≡ ok tt)
    × (device.spawn ≡ ok tt))
from_device_lem_example = from_device_lem device adapter_pipes

one_dongle :
    open_selected selector (ok (record dongle { product_id = 1 } ∷ dongle ∷ [])) ≡ ok adapter_pipes
unfolding open_selected from_device choose discover note_endpoint pipes has_bits find
one_dongle = refl

two_dongles :
    open_selected selector (ok (dongle ∷ dongle ∷ []))
    ≡ err (btstack_gatt_rs.Types.several_devices 0x0bda 0x8771)
unfolding open_selected
two_dongles = refl

-- An event and ACL data are completed, one is received, and then the device is pulled out.
abbrev pulled_out : List Action
pulled_out =
    pass (some (record { status = ok tt; buffer = 0x0e ∷ 0 ∷ [] }))
      (some (record { status = ok tt; buffer = 1 ∷ 2 ∷ 3 ∷ 4 ∷ [] }))
    ∷ take_one
    ∷ pass (some (record { status = err (external []); buffer = [] })) none
    ∷ take_one
    ∷ take_one
    ∷ take_one
    ∷ []

all_handed_on :
    (act pulled_out opened).1
    ≡ ok (record { kind = 4; payload = 0x0e ∷ 0 ∷ [] })
      ∷ ok (record { kind = 2; payload = 1 ∷ 2 ∷ 3 ∷ 4 ∷ [] })
      ∷ err (external [])
      ∷ []
unfolding act btstack_gatt_rs.Usb.worker_pass btstack_gatt_rs.Usb.receive_packet
all_handed_on = refl

act-opened_example :
    let (r, got) = act pulled_out opened in
    (lost : List Item) × (offers pulled_out ≡ got ++ (r.incoming ++ lost))
    × (r.alive ≡ true → lost ≡ [])
    × (r.alive ≡ false → (has_error (offers pulled_out) ≡ true) ⊎ Full pulled_out opened)
    × (length r.incoming ≤ 256)
    × Ready r
act-opened_example = act-opened pulled_out

-- An adapter that takes at most four bytes of a bulk transfer, and completes only so many more of them in
-- time.
abbrev next_of : ℕ → List (List ℕ) → (ℕ × List (List ℕ)) × Option OutCompletion
next_of zero queue = ((0, queue), none)
next_of (suc n) [] = ((suc n, []), none)
next_of (suc n) (p ∷ queue) =
    ((n, queue), some (record { status = ok tt; buffer = p; actual_len = min (length p) 4 }))

abbrev four_bytes : UsbIo
four_bytes = record {
  T = ℕ × List (List ℕ);
  control_out = λ packet t. (t, ok tt);
  submit_out = λ packet (n, queue). (n, queue ++ packet ∷ []);
  wait_next_complete = λ (n, queue). next_of n queue;
}

next_of_waits :
    (n : ℕ) (queue : List (List ℕ)) → (next_of n queue).1 ≡ none → (next_of n queue).0.1 ≡ queue
next_of_waits zero queue h = refl
next_of_waits (suc n) [] h = refl
next_of_waits (suc n) (p ∷ queue) h = cc

next_of_completes :
    (n : ℕ) (queue : List (List ℕ)) (c : OutCompletion)
    → (next_of n queue).1 ≡ some c
    → queue ≡ c.buffer ∷ (next_of n queue).0.1
next_of_completes zero queue c h = cc
next_of_completes (suc n) [] c h = cc
next_of_completes (suc n) (p ∷ queue) c h = ground (arith, h)

abbrev four_bytes-Fifo : Fifo four_bytes
four_bytes-Fifo = record {
  pending = λ t. t.1;
  submits = λ p t. refl;
  controls = λ p t. refl;
  times_out = λ (n, queue) h. next_of_waits n queue h;
  completes = λ (n, queue) c h. next_of_completes n queue c h;
}

five_bytes : (send_packet four_bytes 2 (1 ∷ 2 ∷ 3 ∷ 4 ∷ 5 ∷ []) (1, [])).1 ≡ err short_acl_out
unfolding send_packet
five_bytes = refl

abbrev two_and_reset : List (ℕ × List ℕ)
two_and_reset = (2, 1 ∷ 2 ∷ []) ∷ (1, 3 ∷ 12 ∷ 0 ∷ []) ∷ (2, 3 ∷ []) ∷ []

both_sent : sends four_bytes two_and_reset (2, []) ≡ (
  (0, []),
  record { status = ok tt; buffer = 1 ∷ 2 ∷ []; actual_len = 2 }
      ∷ record { status = ok tt; buffer = 3 ∷ []; actual_len = 1 }
      ∷ [],
  ok tt,
)
unfolding sends send_packet
both_sent = refl

sends-Own_example :
    Own four_bytes four_bytes-Fifo
      (acl_packets two_and_reset)
      (sends four_bytes two_and_reset (2, [])).1
      (sends four_bytes two_and_reset (2, [])).0
sends-Own_example =
    sends-Own four_bytes four_bytes-Fifo two_and_reset (2, []) refl (ap (λ r. r.2) both_sent)

-- A packet that has timed out still waits; the next one is then taken for sent when the first is, and
-- waits in its place.
after_timeout :
    (send_packet four_bytes 2 (1 ∷ []) (0, []) ≡ ((0, (1 ∷ []) ∷ []), err acl_out_timeout))
    × (send_packet four_bytes 2 (2 ∷ []) (1, (1 ∷ []) ∷ []) ≡ ((0, (2 ∷ []) ∷ []), ok tt))
unfolding send_packet
after_timeout = (refl, refl)

-- Both packets are there before the first call, and the error before the third.
abbrev schedule : Schedule
schedule =
    ((
      some (record { status = ok tt; buffer = 0x0e ∷ 0 ∷ [] }),
      some (record { status = ok tt; buffer = 1 ∷ 2 ∷ 3 ∷ 4 ∷ [] }),
    )
      ∷ [])
    ∷ []
    ∷ ((some (record { status = err (external []); buffer = [] }), none) ∷ [])
    ∷ []

received_by-offers_example :
    (rest : List HciPacket) × (packets (offers (actions 3 schedule))
      ≡ received_by (usb_transport four_bytes) 3 ((0, []), opened, schedule) ++ rest)
received_by-offers_example = received_by-offers four_bytes 3 (0, []) schedule

both_received :
    received_by (usb_transport four_bytes) 3 ((0, []), opened, schedule)
    ≡ record { kind = 4; payload = 0x0e ∷ 0 ∷ [] }
      ∷ record { kind = 2; payload = 1 ∷ 2 ∷ 3 ∷ 4 ∷ [] }
      ∷ []
unfolding btstack_gatt_rs.Usb.Driver.receive_scheduled btstack_gatt_rs.Usb.receive_packet
both_received = refl
