-- ===== src/Args.antt =====
-- examples/gatt-peripheral/src/args.rs: the arguments of the example peripheral. A string is the list of
-- its bytes; `UsbDeviceSelector` is of btstack-nusb/src/lib.rs.
pub mod Ids
pub mod Bounds
pub mod Printed
use btstack_gatt_rs.Prelude.{
  ℕ, ◌+◌, ◌-◌, ◌*◌, ◌^◌, Bool, true, false, List, [], ◌∷◌, Option, none, some, Result, ok, err,
  ◌>>=◌, ◌&&◌, ◌||◌, not, if◌then◌else◌, leb, ltb, length, is_empty, all, ok_or, ◌==◌, nat_eq,
  list_eq, list_beq,
}
use btstack_gatt_rs.Usb.{UsbDeviceSelector}

-- An error of the source is a message; here it is a constructor for each.
pub data ArgsError : Type 0 where
  duplicate_id missing_id_value invalid_usb_id unknown_argument : List ℕ → ArgsError
  duplicate_seconds missing_seconds invalid_seconds partial_selector : ArgsError

pub record Args : Type 0 where
  pub selector : UsbDeviceSelector
  pub seconds : Option ℕ
  pub probe : Bool
  pub help : Bool

-- `u8::is_ascii_hexdigit`, and the value of such a byte.
unfoldable pub is_ascii_hexdigit : ℕ → Bool
is_ascii_hexdigit b = (leb 48 b && leb b 57) || (leb 65 b && leb b 70) || (leb 97 b && leb b 102)

unfoldable pub hex_value : ℕ → ℕ
hex_value b = if leb b 57 then b - 48 else if leb b 70 then b - 55 else b - 87

-- `u16::from_str_radix` on at most four hexadecimal digits, which do not overflow.
unfoldable pub from_hex : ℕ → List ℕ → ℕ
unfolding hex_value
from_hex acc [] = acc
from_hex acc (b ∷ bs) = from_hex (acc * 16 + hex_value b) bs

-- `strip_prefix("0x")`, then `strip_prefix("0X")`, then the whole.
unfoldable pub strip_hex : List ℕ → List ℕ
strip_hex [] = []
strip_hex (a ∷ []) = a ∷ []
strip_hex (a ∷ b ∷ rest) = if (a == 48) && ((b == 120) || (b == 88)) then rest else a ∷ b ∷ rest

unfoldable pub parse_usb_id : List ℕ → Result ℕ ArgsError
unfolding strip_hex from_hex is_ascii_hexdigit all
parse_usb_id value =
    let digits = strip_hex value in
    if is_empty digits || ltb 4 (length digits) || not (all is_ascii_hexdigit digits)
    then err (invalid_usb_id value)
    else ok (from_hex 0 digits)

-- `str::parse::<u64>`: an optional `+`, and decimal digits whose value fits.
unfoldable pub decimal : ℕ → List ℕ → Option ℕ
decimal acc [] = some acc
decimal acc (b ∷ bs) =
    let next = acc * 10 + (b - 48) in
    let rest = decimal next bs in if leb 48 b && leb b 57 && ltb next (2 ^ 64) then rest else none

unfoldable pub parse_u64 : List ℕ → Option ℕ
unfolding decimal
parse_u64 [] = none
parse_u64 (b ∷ []) = decimal 0 (b ∷ [])
parse_u64 (b ∷ c ∷ bs) = if b == 43 then decimal 0 (c ∷ bs) else decimal 0 (b ∷ c ∷ bs)

abbrev pub vid_name : List ℕ
vid_name = 45 ∷ 45 ∷ 118 ∷ 105 ∷ 100 ∷ []

abbrev pub pid_name : List ℕ
pid_name = 45 ∷ 45 ∷ 112 ∷ 105 ∷ 100 ∷ []

abbrev pub did_name : List ℕ
did_name = 45 ∷ 45 ∷ 100 ∷ 105 ∷ 100 ∷ []

abbrev pub seconds_name : List ℕ
seconds_name = 45 ∷ 45 ∷ 115 ∷ 101 ∷ 99 ∷ 111 ∷ 110 ∷ 100 ∷ 115 ∷ []

abbrev pub probe_name : List ℕ
probe_name = 45 ∷ 45 ∷ 112 ∷ 114 ∷ 111 ∷ 98 ∷ 101 ∷ []

abbrev pub help_name : List ℕ
help_name = 45 ∷ 45 ∷ 104 ∷ 101 ∷ 108 ∷ 112 ∷ []

abbrev pub h_name : List ℕ
h_name = 45 ∷ 104 ∷ []

-- The arms of the `match` on an argument.
pub data Kind : Type 0 where
  vendor product duration probing helping other : Kind

unfoldable pub kind_of : List ℕ → Kind
unfolding list_beq
kind_of arg =
    if arg == vid_name
    then vendor
    else if (arg == pid_name) || (arg == did_name)
    then product
    else if arg == seconds_name
    then duration
    else if arg == probe_name
    then probing
    else if (arg == help_name) || (arg == h_name)
    then helping
    else other

-- The variables of the loop.
pub record Options : Type 0 where
  pub vid : Option ℕ
  pub pid : Option ℕ
  pub seconds : Option ℕ
  pub probe : Bool
  pub help : Bool

-- The next argument as the value of an option.
unfoldable pub fill :
    Option ℕ
    → ArgsError
    → ArgsError
    → Option (List ℕ)
    → (List ℕ → Result ℕ ArgsError)
    → Result ℕ ArgsError
fill (some old) duplicate missing value parse = err duplicate
fill none duplicate missing none parse = err missing
fill none duplicate missing (some value) parse = parse value

unfoldable pub seconds_of : List ℕ → Result ℕ ArgsError
unfolding parse_u64
seconds_of value = ok_or (parse_u64 value) invalid_seconds

-- One pass of the loop, with the argument that follows; an option takes that as its value.
unfoldable pub set_option : Kind → List ℕ → Option (List ℕ) → Options → Result Options ArgsError
unfolding fill
set_option vendor arg next o = do
  id ← fill o.vid (duplicate_id arg) (missing_id_value arg) next parse_usb_id
  ok (record o { vid = some id })
set_option product arg next o = do
  id ← fill o.pid (duplicate_id arg) (missing_id_value arg) next parse_usb_id
  ok (record o { pid = some id })
set_option duration arg next o = do
  n ← fill o.seconds duplicate_seconds missing_seconds next seconds_of
  ok (record o { seconds = some n })
set_option probing arg next o = ok (record o { probe = true })
set_option helping arg next o = ok (record o { help = true })
set_option other arg next o = err (unknown_argument arg)

abbrev pub takes_value : Kind → Bool
takes_value vendor = true
takes_value product = true
takes_value duration = true
takes_value probing = false
takes_value helping = false
takes_value other = false

unfoldable pub parse_loop : List (List ℕ) → Options → Result Options ArgsError
unfolding kind_of set_option
parse_loop [] o = ok o
parse_loop (arg ∷ []) o = set_option (kind_of arg) arg none o
parse_loop (arg ∷ next ∷ rest) o = do
  o' ← set_option (kind_of arg) arg (some next) o
  (let skipped = parse_loop rest o' in
      let kept = parse_loop (next ∷ rest) o' in if takes_value (kind_of arg) then skipped else kept)

unfoldable pub selector_of : Option ℕ → Option ℕ → Result UsbDeviceSelector ArgsError
selector_of (some vid) (some pid) = ok (record { vendor_id = vid; product_id = pid })
selector_of none none = ok (record { vendor_id = 0x0411; product_id = 0x0374 })
selector_of (some vid) none = err partial_selector
selector_of none (some pid) = err partial_selector

unfoldable pub parse : List (List ℕ) → Result Args ArgsError
unfolding parse_loop selector_of
parse args = do
  o ←
      parse_loop args
        (record { vid = none; pid = none; seconds = none; probe = false; help = false })
  selector ← selector_of o.vid o.pid
  ok (record { selector = selector; seconds = o.seconds; probe = o.probe; help = o.help })
