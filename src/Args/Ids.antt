-- ===== src/Args/Ids.antt =====
-- USB ids (examples/gatt-peripheral/src/args.rs, `parse_usb_id`).
use btstack_gatt_rs.Prelude.{
  ℕ, ◌+◌, ◌/◌, ◌%◌, ◌<◌, ◌≡◌, refl, true, List, [], ◌∷◌, ok, arith, ltb, if◌then◌else◌, all,
}
use btstack_gatt_rs.Args.{is_ascii_hexdigit, hex_value, from_hex, strip_hex, parse_usb_id}

-- A hexadecimal digit, and a number in four of them.
abbrev pub hex_digit : ℕ → ℕ
hex_digit d = if ltb d 10 then 48 + d else 87 + d

unfoldable pub hex4 : ℕ → List ℕ
hex4 n =
    hex_digit (n / 4096)
    ∷ hex_digit (n / 256 % 16)
    ∷ hex_digit (n / 16 % 16)
    ∷ hex_digit (n % 16)
    ∷ []

hex_digit_valid : (d : ℕ) → d < 16 → is_ascii_hexdigit (hex_digit d) ≡ true
unfolding is_ascii_hexdigit
hex_digit_valid d h = ground arith

hex_digit_value : (d : ℕ) → d < 16 → hex_value (hex_digit d) ≡ d
unfolding hex_value
hex_digit_value d h = ground arith

strip_digits :
    (a b : ℕ) (rest : List ℕ) → b < 16 → strip_hex (a ∷ hex_digit b ∷ rest) ≡ a ∷ hex_digit b ∷ rest
unfolding strip_hex
strip_digits a b rest h = ground arith

hex4_value : (n : ℕ) → n < 65536 → from_hex 0 (hex4 n) ≡ n
unfolding from_hex hex4
hex4_value n h =
    rw
      (
        hex_digit_value (n / 4096) (omega arith),
        hex_digit_value (n / 256 % 16) (omega arith),
        hex_digit_value (n / 16 % 16) (omega arith),
        hex_digit_value (n % 16) (omega arith),
      )
      (omega arith)

hex4_valid : (n : ℕ) → n < 65536 → all is_ascii_hexdigit (hex4 n) ≡ true
unfolding all hex4
hex4_valid n h =
    rw
      (
        hex_digit_valid (n / 4096) (omega arith),
        hex_digit_valid (n / 256 % 16) (omega arith),
        hex_digit_valid (n / 16 % 16) (omega arith),
        hex_digit_valid (n % 16) (omega arith),
      )
      refl

hex4_strip : (n : ℕ) → strip_hex (hex4 n) ≡ hex4 n
unfolding hex4
hex4_strip n = strip_digits (hex_digit (n / 4096)) (n / 256 % 16) _ (omega arith)

-- An id below 65536 that is written in four hexadecimal digits is read back.
pub parse_usb_id-hex4 : (n : ℕ) → n < 65536 → parse_usb_id (hex4 n) ≡ ok n
unfolding parse_usb_id hex4
parse_usb_id-hex4 n h = ground (arith, hex4_strip n, hex4_valid n h, hex4_value n h)
