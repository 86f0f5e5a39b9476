-- ===== src/Usb.antt =====
-- btstack-nusb/src/lib.rs: the USB transport. What the library nusb does is a parameter: the devices
-- that it lists, the results of its calls, and the transfers that it completes. Output on the console is
-- left out.
pub mod Discovery
pub mod Delivery
pub mod Passes
pub mod Pending
pub mod Ended
pub mod Order
pub mod Sending
pub mod Opening
pub mod Sent
pub mod Driver
pub mod Received
use btstack_gatt_rs.Prelude.{
  ℕ, Bool, true, false, List, [], ◌∷◌, ◌++◌, Option, none, some, Result, ok, err, Outcome, returned,
  ◌>>=◌, ◌>>◌, ok_or, if◌then◌else◌, leb, not, length, is_empty, find, retain, ◌&&◌, ◌||◌, ◌+◌, ◌-◌,
  ◌==◌, nat_eq,
}
use btstack_gatt_rs.Types.{
  Error, HciPacket, device_not_found, several_devices, missing_setting, missing_interrupt_in,
  missing_bulk_in, missing_bulk_out, acl_out_timeout, short_acl_out, unsupported_packet_type,
  receive_worker_stopped,
}
use btstack_gatt_rs.Gatt.{has_bits}
use btstack_gatt_rs.Runtime.Bridge.{Transport}

pub record UsbDeviceSelector : Type 0 where
  pub vendor_id : ℕ
  pub product_id : ℕ

-- Of the types of transfers the code names two.
pub data TransferType : Type 0 where
  interrupt bulk other_transfer : TransferType

pub record Endpoint : Type 0 where
  pub address : ℕ
  pub transfer_type : TransferType

pub record Setting : Type 0 where
  pub alternate_setting : ℕ
  pub endpoints : List Endpoint

-- The variables of the loop over the endpoints.
pub record Found : Type 0 where
  pub event : Option ℕ
  pub input : Option ℕ
  pub output : Option ℕ

pub record Pipes : Type 0 where
  pub event : ℕ
  pub input : ℕ
  pub output : ℕ

-- The `match` on the type and the direction.
unfoldable pub note_endpoint : TransferType → Bool → ℕ → Found → Found
note_endpoint interrupt true address f = record f { event = some address }
note_endpoint interrupt false address f = f
note_endpoint bulk true address f = record f { input = some address }
note_endpoint bulk false address f = record f { output = some address }
note_endpoint other_transfer inward address f = f

unfoldable pub discover : List Endpoint → Found → Found
unfolding note_endpoint
discover [] f = f
discover (e ∷ es) f =
    discover es (note_endpoint e.transfer_type (has_bits e.address 128) e.address f)

unfoldable pub pipes : Found → Result Pipes Error
pipes f = do
  event ← ok_or f.event missing_interrupt_in
  input ← ok_or f.input missing_bulk_in
  output ← ok_or f.output missing_bulk_out
  ok (record { event = event; input = input; output = output })

unfoldable pub choose : List Setting → Result Pipes Error
choose settings = do
  setting ← ok_or (find (λ s. s.alternate_setting == 0) settings) missing_setting
  pipes (discover setting.endpoints (record { event = none; input = none; output = none }))

-- An open device of nusb, by the results that its calls will have; `claim` gives the settings of
-- interface 0.
pub record Device : Type 0 where
  pub claim : Result (List Setting) Error
  pub open_event : ℕ → Result (Unit {0}) Error
  pub open_input : ℕ → Result (Unit {0}) Error
  pub open_output : ℕ → Result (Unit {0}) Error
  pub spawn : Result (Unit {0}) Error

unfoldable pub from_device : Device → Result Pipes Error
from_device d = do
  settings ← d.claim
  p ← choose settings
  d.open_event p.event
  d.open_input p.input
  d.open_output p.output
  d.spawn
  ok p

pub record DeviceInfo : Type 0 where
  pub vendor_id : ℕ
  pub product_id : ℕ
  pub device : Result Device Error

unfoldable pub one_match : UsbDeviceSelector → List DeviceInfo → Result DeviceInfo Error
one_match selector [] = err (device_not_found selector.vendor_id selector.product_id)
one_match selector (info ∷ []) = ok info
one_match selector (info ∷ other ∷ more) =
    err (several_devices selector.vendor_id selector.product_id)

-- `open` away from Android, on what `list_devices` gives.
unfoldable pub open_selected :
    UsbDeviceSelector → Result (List DeviceInfo) Error → Result Pipes Error
unfolding one_match retain
open_selected selector listed = do
  devices ← listed
  info ← one_match selector (
      retain (λ d. (d.vendor_id == selector.vendor_id) && (d.product_id == selector.product_id))
        devices)
  device ← info.device
  from_device device

-- A transfer that has completed.
pub record Completion : Type 0 where
  pub status : Result (Unit {0}) Error
  pub buffer : List ℕ

-- The channel `incoming` and the thread that fills it: whether the thread still runs, the flag `stop`,
-- and the number of transfers that are submitted on each of its endpoints. `cancel_all` at its end has
-- no effect that is seen here.
pub record Receiver : Type 0 where
  pub incoming : List (Result HciPacket Error)
  pub alive : Bool
  pub stop : Bool
  pub events_pending : ℕ
  pub acl_pending : ℕ

abbrev pub opened : Receiver
opened = record { incoming = []; alive = true; stop = false; events_pending = 1; acl_pending = 1 }

-- `try_send` on the channel of 256.
unfoldable pub try_send :
    Result HciPacket Error → List (Result HciPacket Error) → Option (List (Result HciPacket Error))
try_send item queue = if leb 256 (length queue) then none else some (queue ++ item ∷ [])

-- An error is sent if there is room, and ends the thread either way.
unfoldable pub fail_with : Error → Receiver → Receiver
unfolding try_send
fail_with e r = elim (try_send (err e) r.incoming) [
  | none ↦ record r { alive = false }
  | some queue ↦ record r { incoming = queue; alive = false }
]

-- A packet that finds no room ends the thread.
unfoldable pub deliver_packet : HciPacket → Receiver → Receiver
unfolding try_send
deliver_packet p r = elim (try_send (ok p) r.incoming) [
  | none ↦ record r { alive = false }
  | some queue ↦ record r { incoming = queue }
]

-- `wait_next_complete` on both endpoints hands back what has been completed.
abbrev pub handed_back : Option Completion → ℕ
handed_back none = 0
handed_back (some c) = 1

unfoldable pub await_both : Option Completion → Option Completion → Receiver → Receiver
await_both events acl r = record r {
  events_pending = r.events_pending - handed_back events;
  acl_pending = r.acl_pending - handed_back acl;
}

-- The buffer is submitted again on its endpoint, if the thread goes on.
unfoldable pub resubmit : ℕ → Receiver → Receiver
resubmit kind r =
    if not r.alive
    then r
    else if kind == 4
    then record r { events_pending = r.events_pending + 1 }
    else record r { acl_pending = r.acl_pending + 1 }

unfoldable pub on_completion : ℕ → Option Completion → Receiver → Receiver
unfolding fail_with deliver_packet resubmit
on_completion kind none r = r
on_completion kind (some c) r = elim c.status [
  | err e ↦ fail_with e r
  | ok u ↦ resubmit kind (
      if is_empty c.buffer
      then r
      else deliver_packet (record { kind = kind; payload = c.buffer }) r)
]

-- One pass of the thread's loop, on what the two endpoints have completed. A wait on an endpoint
-- without a transfer would panic, which ends the thread.
unfoldable pub worker_pass : Option Completion → Option Completion → Receiver → Receiver
unfolding on_completion await_both
worker_pass events acl r =
    if not r.alive
    then r
    else if r.stop
    then record r { alive = false }
    else if (r.events_pending == 0) || (r.acl_pending == 0)
    then record r { alive = false }
    else let r' = on_completion 4 events (await_both events acl r) in
      if r'.alive then on_completion 2 acl r' else r'

unfoldable pub received_item :
    Receiver → List (Result HciPacket Error) → Receiver × Result (Option HciPacket) Error
received_item r [] = (r, if r.alive then ok none else err receive_worker_stopped)
received_item r (ok p ∷ queue) = (record r { incoming = queue }, ok (some p))
received_item r (err e ∷ queue) = (record r { incoming = queue }, err e)

-- `receive`: the wait is over, with an item, by the timeout or with the thread gone.
unfoldable pub receive_packet : Receiver → Receiver × Result (Option HciPacket) Error
unfolding received_item
receive_packet r = received_item r r.incoming

-- `Drop`: the thread sees the flag and is joined.
unfoldable pub drop_transport : Receiver → Receiver
drop_transport r = record r { stop = true; alive = false }
