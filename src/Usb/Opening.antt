-- ===== src/Usb/Opening.antt =====
-- The other ways to a transport of btstack-nusb/src/lib.rs. What nusb and the system make of a
-- descriptor is an argument.
use btstack_gatt_rs.Prelude.{ℕ, Result, err, ◌>>=◌, ◌>>◌}
use btstack_gatt_rs.Types.{Error, android_needs_descriptor}
use btstack_gatt_rs.Usb.{UsbDeviceSelector, Device, Pipes, from_device}

unfoldable pub selector_new : ℕ → ℕ → UsbDeviceSelector
selector_new vendor_id product_id = record { vendor_id = vendor_id; product_id = product_id }

-- `open` on Android.
unfoldable pub open_on_android : UsbDeviceSelector → Result Pipes Error
open_on_android selector = err android_needs_descriptor

unfoldable pub from_fd : Result Device Error → Result Pipes Error
unfolding from_device
from_fd opened = do device ← opened; from_device device

-- `duplicated` is what the copy of the descriptor gives.
unfoldable pub from_borrowed_fd : Result (Unit {0}) Error → Result Device Error → Result Pipes Error
unfolding from_fd
from_borrowed_fd duplicated opened = do duplicated; from_fd opened
