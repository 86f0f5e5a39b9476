-- ===== src/Tests/Arguments.antt =====
-- Command lines of the example peripheral, those of the tests of args.rs among them.
use btstack_gatt_rs.Prelude.{ℕ, ◌≡◌, refl, true, false, List, [], ◌∷◌, none, some, ok, err}
use btstack_gatt_rs.Args.{
  Args, parse_usb_id, parse, vid_name, pid_name, did_name, seconds_name, partial_selector,
  duplicate_id, missing_seconds, invalid_usb_id, parse_u64,
}
use btstack_gatt_rs.Args.Ids.{hex4}
use btstack_gatt_rs.Args.Printed.{print}

-- Two seconds, and only a probe.
abbrev probing_two : Args
probing_two = record {
  selector = record { vendor_id = 0x0411; product_id = 0x0374 };
  seconds = some 2;
  probe = true;
  help = false;
}

-- "0411"
abbrev id_0411 : List ℕ
id_0411 = 48 ∷ 52 ∷ 49 ∷ 49 ∷ []

one_id : parse (vid_name ∷ id_0411 ∷ []) ≡ err partial_selector
unfolding parse parse_usb_id
one_id = refl

alias_twice : parse (pid_name ∷ id_0411 ∷ did_name ∷ id_0411 ∷ []) ≡ err (duplicate_id did_name)
unfolding parse parse_usb_id
alias_twice = refl

-- "0x" and "10000".
prefix_alone : parse_usb_id (48 ∷ 120 ∷ []) ≡ err (invalid_usb_id (48 ∷ 120 ∷ []))
unfolding parse_usb_id
prefix_alone = refl

five_digits :
    parse_usb_id (49 ∷ 48 ∷ 48 ∷ 48 ∷ 48 ∷ []) ≡ err (invalid_usb_id (49 ∷ 48 ∷ 48 ∷ 48 ∷ 48 ∷ []))
unfolding parse_usb_id
five_digits = refl

no_seconds : parse (seconds_name ∷ []) ≡ err missing_seconds
unfolding parse
no_seconds = refl

no_arguments :
    parse []
    ≡ ok (record {
      selector = record { vendor_id = 0x0411; product_id = 0x0374 };
      seconds = none;
      probe = false;
      help = false;
    })
unfolding parse
no_arguments = refl

probing_two_parsed : parse (print probing_two (some (50 ∷ []))) ≡ ok probing_two
unfolding parse parse_usb_id print hex4 parse_u64 btstack_gatt_rs.Args.seconds_of
probing_two_parsed = refl
