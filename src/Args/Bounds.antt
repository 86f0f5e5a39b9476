-- ===== src/Args/Bounds.antt =====
-- The ids that are parsed fit in 16 bits (examples/gatt-peripheral/src/args.rs).
use btstack_gatt_rs.Prelude.{
  ℕ, ◌<◌, ◌≤◌, ◌≡◌, inl, inr, true, false, List, [], ◌∷◌, Option, none, some, ok, arith, all,
  length, Result-cases, Bool-cases, subst,
}
use btstack_gatt_rs.Usb.{UsbDeviceSelector}
use btstack_gatt_rs.Args.{
  Args, ArgsError, duplicate_id, missing_id_value, duplicate_seconds, missing_seconds, seconds_of,
  Options, Kind, vendor, product, duration, probing, helping, other, is_ascii_hexdigit, hex_value,
  from_hex, strip_hex, parse_usb_id, kind_of, fill, set_option, takes_value, parse_loop,
  selector_of, parse,
}

hex_value-lt : (b : ℕ) → is_ascii_hexdigit b ≡ true → hex_value b < 16
unfolding hex_value is_ascii_hexdigit
hex_value-lt b h = ground (arith, h)

from_hex-lt :
    (digits : List ℕ)
    → all is_ascii_hexdigit digits ≡ true
    → length digits ≤ 4
    → from_hex 0 digits < 65536
unfolding from_hex all
from_hex-lt [] h l = omega arith
from_hex-lt (a ∷ []) h l = ground (arith, hex_value-lt a)
from_hex-lt (a ∷ b ∷ []) h l = ground (arith, hex_value-lt a, hex_value-lt b)
from_hex-lt (a ∷ b ∷ c ∷ []) h l = ground (arith, hex_value-lt a, hex_value-lt b, hex_value-lt c)
from_hex-lt (a ∷ b ∷ c ∷ d ∷ []) h l =
    ground (arith, hex_value-lt a, hex_value-lt b, hex_value-lt c, hex_value-lt d)
from_hex-lt (a ∷ b ∷ c ∷ d ∷ e ∷ rest) h l = absurd (omega (arith, l))

parse_usb_id-lt : (value : List ℕ) (n : ℕ) → parse_usb_id value ≡ ok n → n < 65536
unfolding parse_usb_id
parse_usb_id-lt value n h = ground (arith, h, from_hex-lt (strip_hex value))

abbrev IsId : Option ℕ → Type 0
IsId none = Unit
IsId (some n) = n < 65536

abbrev InRange : Options → Type 0
InRange o = IsId o.vid × IsId o.pid

fill-lt :
    (old : Option ℕ) (d m : ArgsError) (next : Option (List ℕ)) (n : ℕ)
    → fill old d m next parse_usb_id ≡ ok n
    → n < 65536
unfolding fill
fill-lt (some x) d m next n h = cc
fill-lt none d m none n h = cc
fill-lt none d m (some value) n h = parse_usb_id-lt value n h

set_option-InRange :
    (k : Kind) (arg : List ℕ) (next : Option (List ℕ)) (o o' : Options)
    → InRange o
    → set_option k arg next o ≡ ok o'
    → InRange o'
unfolding set_option
set_option-InRange vendor arg next o o' r h =
    elim (Result-cases (fill o.vid (duplicate_id arg) (missing_id_value arg) next parse_usb_id)) [
      | inl (n, e) ↦
          subst InRange {x = record o { vid = some n }} {y = o'} (ground (arith, e, h))
            (fill-lt o.vid (duplicate_id arg) (missing_id_value arg) next n e, r.1)
      | inr (x, e) ↦ absurd (ground (arith, e, h))
    ]
set_option-InRange product arg next o o' r h =
    elim (Result-cases (fill o.pid (duplicate_id arg) (missing_id_value arg) next parse_usb_id)) [
      | inl (n, e) ↦
          subst InRange {x = record o { pid = some n }} {y = o'} (ground (arith, e, h))
            (r.0, fill-lt o.pid (duplicate_id arg) (missing_id_value arg) next n e)
      | inr (x, e) ↦ absurd (ground (arith, e, h))
    ]
set_option-InRange duration arg next o o' r h =
    elim (Result-cases (fill o.seconds duplicate_seconds missing_seconds next seconds_of)) [
      | inl (n, e) ↦
          subst InRange {x = record o { seconds = some n }} {y = o'} (ground (arith, e, h))
            (r.0, r.1)
      | inr (x, e) ↦ absurd (ground (arith, e, h))
    ]
set_option-InRange probing arg next o o' r h = ground (arith, r, h)
set_option-InRange helping arg next o o' r h = ground (arith, r, h)
set_option-InRange other arg next o o' r h = cc

parse_loop-InRange :
    (args : List (List ℕ)) (o o' : Options) → InRange o → parse_loop args o ≡ ok o' → InRange o'
unfolding parse_loop
parse_loop-InRange [] o o' r h = subst InRange {x = o} {y = o'} (ground (arith, h)) r
parse_loop-InRange (arg ∷ []) o o' r h = set_option-InRange (kind_of arg) arg none o o' r h
parse_loop-InRange (arg ∷ next ∷ rest) o o' r h =
    elim (Result-cases (set_option (kind_of arg) arg (some next) o)) [
      | inl (u, e) ↦
          let s = set_option-InRange (kind_of arg) arg (some next) o u r e in
          elim (Bool-cases (takes_value (kind_of arg))) [
            | inl t ↦ parse_loop-InRange rest u o' s (ground (arith, h, e, t))
            | inr t ↦ parse_loop-InRange (next ∷ rest) u o' s (ground (arith, h, e, t))
          ]
      | inr (x, e) ↦ absurd (ground (arith, h, e))
    ]

abbrev pub Fits16 : UsbDeviceSelector → Type 0
Fits16 s = (s.vendor_id < 65536) × (s.product_id < 65536)

selector_of-Fits16 :
    (v p : Option ℕ) (s : UsbDeviceSelector) → IsId v → IsId p → selector_of v p ≡ ok s → Fits16 s
unfolding selector_of
selector_of-Fits16 none none s a b h = ground (arith, h)
selector_of-Fits16 none (some y) s a b h = cc
selector_of-Fits16 (some x) none s a b h = cc
selector_of-Fits16 (some x) (some y) s a b h = ground (arith, h, a, b)

-- Whatever command line is accepted, the ids of the device that it selects fit in 16 bits.
pub parse-Fits16 : (args : List (List ℕ)) (a : Args) → parse args ≡ ok a → Fits16 a.selector
unfolding parse
parse-Fits16 args a h =
    let o : Options = record {
      vid = none;
      pid = none;
      seconds = none;
      probe = false;
      help = false;
    } in
    elim (Result-cases (parse_loop args o)) [
      | inl (u, e) ↦
          let r = parse_loop-InRange args o u (tt, tt) e in
          elim (Result-cases (selector_of u.vid u.pid)) [
            | inl (s, f) ↦
                subst Fits16 {x = s} {y = a.selector} (ground (arith, h, e, f))
                  (selector_of-Fits16 u.vid u.pid s r.0 r.1 f)
            | inr (x, f) ↦ absurd (ground (arith, h, e, f))
          ]
      | inr (x, e) ↦ absurd (ground (arith, h, e))
    ]
