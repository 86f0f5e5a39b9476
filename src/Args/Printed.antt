-- ===== src/Args/Printed.antt =====
-- A command line that is printed and parsed (examples/gatt-peripheral/src/args.rs).
use btstack_gatt_rs.Prelude.{
  ℕ, ◌<◌, ◌≡◌, refl, Bool, true, false, List, [], ◌∷◌, ◌++◌, Option, none, some, ok, if◌then◌else◌,
}
use btstack_gatt_rs.Args.{
  Args, Options, vid_name, pid_name, seconds_name, probe_name, help_name, parse_u64, seconds_of,
  parse_loop, parse,
}
use btstack_gatt_rs.Args.Ids.{hex4, parse_usb_id-hex4}

-- A number of seconds and the word for it, both or neither.
abbrev pub Written : Option ℕ → Option (List ℕ) → Type 0
Written none none = Unit
Written none (some word) = ⊥
Written (some n) none = ⊥
Written (some n) (some word) = parse_u64 word ≡ some n

abbrev pub flags : Bool → Bool → List (List ℕ)
flags probe help = (if probe then probe_name ∷ [] else []) ++ (if help then help_name ∷ [] else [])

abbrev pub timed : Option (List ℕ) → List (List ℕ)
timed none = []
timed (some word) = seconds_name ∷ word ∷ []

-- The arguments for these settings, in the order of the usage message.
unfoldable pub print : Args → Option (List ℕ) → List (List ℕ)
print a word =
    vid_name
    ∷ hex4 a.selector.vendor_id
    ∷ pid_name
    ∷ hex4 a.selector.product_id
    ∷ (timed word ++ flags a.probe a.help)

-- The settings after the ids and the seconds.
abbrev so_far : Option ℕ → Option ℕ → Option ℕ → Options
so_far vid pid seconds = record {
  vid = vid;
  pid = pid;
  seconds = seconds;
  probe = false;
  help = false;
}

parse_loop-flags :
    (v p s : Option ℕ) (probe help : Bool)
    → parse_loop (flags probe help) (so_far v p s)
      ≡ ok (record { vid = v; pid = p; seconds = s; probe = probe; help = help })
unfolding parse_loop
parse_loop-flags v p s true true = refl
parse_loop-flags v p s true false = refl
parse_loop-flags v p s false true = refl
parse_loop-flags v p s false false = refl

seconds_of-word : (word : List ℕ) (n : ℕ) → parse_u64 word ≡ some n → seconds_of word ≡ ok n
unfolding seconds_of
seconds_of-word word n w = rw w refl

parse_loop-timed :
    (v p s : Option ℕ) (word : Option (List ℕ)) (rest : List (List ℕ))
    → Written s word
    → parse_loop (timed word ++ rest) (so_far v p none) ≡ parse_loop rest (so_far v p s)
unfolding parse_loop
parse_loop-timed v p none none rest w = refl
parse_loop-timed v p none (some word) rest w = absurd w
parse_loop-timed v p (some n) none rest w = absurd w
parse_loop-timed v p (some n) (some word) rest w = rw (seconds_of-word word n w) refl

-- A command line that gives both ids, below 65536, in four hexadecimal digits, the seconds if there
-- are any, and the flags that are set is parsed to exactly these settings.
pub parse-print :
    (a : Args) (word : Option (List ℕ))
    → a.selector.vendor_id < 65536
    → a.selector.product_id < 65536
    → Written a.seconds word
    → parse (print a word) ≡ ok a
unfolding parse print
parse-print a word v p w =
    let vid = some a.selector.vendor_id in
    let pid = some a.selector.product_id in
    rw
      (
        parse_usb_id-hex4 a.selector.vendor_id v,
        parse_usb_id-hex4 a.selector.product_id p,
        parse_loop-timed vid pid a.seconds word (flags a.probe a.help) w,
        parse_loop-flags vid pid a.seconds a.probe a.help,
      )
      refl
