-- ===== src/Tests/Units/CommandLine.antt =====
-- The tests of examples/gatt-peripheral/src/args.rs.
use btstack_gatt_rs.Prelude.{
  ℕ, ◌≡◌, refl, Bool, true, false, List, [], ◌∷◌, none, some, ok, err, ◌==◌, nat_eq, list_beq,
}
use btstack_gatt_rs.Args.{
  Args, parse, parse_usb_id, parse_u64, seconds_of, vid_name, pid_name, did_name, seconds_name,
  probe_name, help_name,
}
use btstack_gatt_rs.Tests.Units.{asserts, is_err}

-- Assertions on the arguments, if they are accepted.
abbrev parsed : List (List ℕ) → (Args → List Bool) → Bool
parsed words assertions = elim (parse words) [ err e ↦ false | ok a ↦ asserts (assertions a) ]

abbrev accepts_hex_ids_and_did_alias : Bool
accepts_hex_ids_and_did_alias = asserts (
    parsed
      (vid_name
        ∷ (48 ∷ 120 ∷ 48 ∷ 52 ∷ 49 ∷ 49 ∷ [])
        ∷ did_name
        ∷ (48 ∷ 51 ∷ 55 ∷ 52 ∷ [])
        ∷ seconds_name
        ∷ (50 ∷ [])
        ∷ probe_name
        ∷ [])
      (λ a.
        (a.selector.vendor_id == 0x0411)
        ∷ (a.selector.product_id == 0x0374)
        ∷ elim a.seconds [ none ↦ false | some n ↦ n == 2 ]
        ∷ a.probe
        ∷ [])
    ∷ parsed
        (vid_name ∷ (48 ∷ 66 ∷ 68 ∷ 65 ∷ []) ∷ pid_name ∷ (48 ∷ 88 ∷ 70 ∷ 70 ∷ 70 ∷ 70 ∷ []) ∷ [])
        (λ a. (a.selector.product_id == 0xffff) ∷ [])
    ∷ [])

hex_ids_pass : accepts_hex_ids_and_did_alias ≡ true
unfolding parse parse_usb_id parse_u64 seconds_of list_beq
hex_ids_pass = refl

abbrev rejects_partial_duplicate_and_invalid_ids : Bool
rejects_partial_duplicate_and_invalid_ids = asserts (
    is_err (parse (vid_name ∷ (48 ∷ 52 ∷ 49 ∷ 49 ∷ []) ∷ []))
    ∷ is_err (parse (pid_name ∷ (48 ∷ 51 ∷ 55 ∷ 52 ∷ []) ∷ []))
    ∷ is_err (parse (vid_name ∷ []))
    ∷ is_err (parse (vid_name ∷ (45 ∷ 49 ∷ []) ∷ pid_name ∷ (48 ∷ 51 ∷ 55 ∷ 52 ∷ []) ∷ []))
    ∷ is_err (
        parse (vid_name ∷ (49 ∷ 48 ∷ 48 ∷ 48 ∷ 48 ∷ []) ∷ pid_name ∷ (48 ∷ 51 ∷ 55 ∷ 52 ∷ []) ∷ []))
    ∷ is_err (parse (vid_name ∷ (43 ∷ 49 ∷ []) ∷ pid_name ∷ (48 ∷ 51 ∷ 55 ∷ 52 ∷ []) ∷ []))
    ∷ is_err (parse (vid_name ∷ (48 ∷ 120 ∷ []) ∷ pid_name ∷ (48 ∷ 51 ∷ 55 ∷ 52 ∷ []) ∷ []))
    ∷ is_err (
        parse (
          vid_name
          ∷ (48 ∷ 52 ∷ 49 ∷ 49 ∷ [])
          ∷ pid_name
          ∷ (48 ∷ 51 ∷ 55 ∷ 52 ∷ [])
          ∷ did_name
          ∷ (48 ∷ 51 ∷ 55 ∷ 52 ∷ [])
          ∷ []))
    ∷ is_err (parse (seconds_name ∷ []))
    ∷ is_err (parse (seconds_name ∷ (45 ∷ 49 ∷ []) ∷ []))
    ∷ is_err (parse ((45 ∷ 45 ∷ 117 ∷ 110 ∷ 107 ∷ 110 ∷ 111 ∷ 119 ∷ 110 ∷ []) ∷ []))
    ∷ [])

invalid_ids_pass : rejects_partial_duplicate_and_invalid_ids ≡ true
unfolding parse parse_usb_id parse_u64 seconds_of list_beq
invalid_ids_pass = refl

abbrev preserves_defaults_and_parses_help : Bool
preserves_defaults_and_parses_help = asserts (
    parsed [] (λ a.
      (a.selector.vendor_id == 0x0411)
      ∷ (a.selector.product_id == 0x0374)
      ∷ elim a.seconds [ none ↦ true | some n ↦ false ]
      ∷ [])
    ∷ parsed (help_name ∷ []) (λ a. a.help ∷ [])
    ∷ [])

defaults_pass : preserves_defaults_and_parses_help ≡ true
unfolding parse parse_usb_id parse_u64 seconds_of list_beq
defaults_pass = refl
