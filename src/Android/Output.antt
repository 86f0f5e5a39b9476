-- ===== src/Android/Output.antt =====
-- `redirect_output` of examples/gatt-peripheral-android/native/src/android.rs. The calls of the system
-- are parameters; a message of the log is a list of bytes.
use mathlib.Core.List.{append-nil, append_assoc}
use btstack_gatt_rs.Prelude.{
  ℕ, ◌≡◌, ◌⊎◌, inl, inr, refl, false, List, [], ◌∷◌, ◌++◌, map, Option, none, some, Result, ok, err,
  arith, retain, not, any, is_empty, ◌==◌, nat_eq, nat_beq, if◌then◌else◌, ap, sym, ◌∙◌, Bool-cases,
}
use btstack_gatt_rs.Types.{Error}

-- The calls: a pipe with its two ends, the thread that owns the reading end, a copy of a descriptor onto
-- another, and the end of one.
pub record System : Type 1 where
  pub T : Type 0
  pub pipe : T → T × Result (ℕ × ℕ) Error
  pub spawn : ℕ → T → T × Result (Unit {0}) Error
  pub dup2 : ℕ → ℕ → T → T × Result (Unit {0}) Error
  pub close : ℕ → T → T

module _ (S : System) where
  -- The loop over the destinations, up to the first error.
  unfoldable pub duplicate : ℕ → List ℕ → S.T → S.T × Result (Unit {0}) Error
  duplicate writer [] t = (t, ok tt)
  duplicate writer (destination ∷ more) t =
      let (t', copied) = S.dup2 writer destination t in
      elim copied [ err e ↦ (t', err e) | ok u ↦ duplicate writer more t' ]

  -- The thread behind the pipe, and the copies onto the standard output (1) and the standard error (2).
  unfoldable pub forward : ℕ → ℕ → S.T → S.T × Result (Unit {0}) Error
  unfolding duplicate
  forward reader writer t =
      let (t', spawned) = S.spawn reader t in
      elim spawned [ err e ↦ (t', err e) | ok u ↦ duplicate writer (1 ∷ 2 ∷ []) t' ]

  -- The closure of `get_or_init`; the writing end is closed at its end.
  unfoldable pub redirect : S.T → S.T × Result (Unit {0}) Error
  unfolding forward
  redirect t =
      let (t', piped) = S.pipe t in
      elim piped [
        | err e ↦ (t', err e)
        | ok (reader, writer) ↦
            let (t'', result) = forward reader writer t' in (S.close writer t'', result)
      ]

  -- `INIT` is what an earlier call has found.
  unfoldable pub redirect_output :
      Option (Result (Unit {0}) Error)
      → S.T
      → Option (Result (Unit {0}) Error) × S.T × Result (Unit {0}) Error
  unfolding redirect
  redirect_output (some result) t = (some result, t, result)
  redirect_output none t = let (t', result) = redirect t in (some result, t', result)

-- `split` of `BufRead` at the newline (10): the lines without it, and what is left at the end if it is
-- not empty. `line` is what has been read of the current one.
unfoldable pub split_lines : List ℕ → List ℕ → List (List ℕ)
split_lines line [] = if is_empty line then [] else line ∷ []
split_lines line (b ∷ bs) =
    if b == 10 then line ∷ split_lines [] bs else split_lines (line ++ b ∷ []) bs

-- `CString::new` takes no NUL.
unfoldable pub cstring : List ℕ → Option (List ℕ)
cstring line = if any (λ b. b == 0) line then none else some line

unfoldable pub log_line : List ℕ → List (List ℕ)
unfolding cstring retain
log_line line = elim (cstring (retain (λ b. not (b == 0)) line)) [
  | none ↦ []
  | some message ↦ message ∷ []
]

unfoldable pub log_lines : List (List ℕ) → List (List ℕ)
unfolding log_line
log_lines [] = []
log_lines (line ∷ lines) = log_line line ++ log_lines lines

-- The messages that the thread writes of the bytes that go through the pipe.
unfoldable pub messages : List ℕ → List (List ℕ)
unfolding log_lines split_lines
messages bytes = log_lines (split_lines [] bytes)

-- The bytes of lines that each end with a newline.
abbrev joined : List (List ℕ) → List ℕ
joined [] = []
joined (line ∷ lines) = line ++ 10 ∷ joined lines

abbrev cleaned : List (List ℕ) → List (List ℕ)
cleaned lines = map (retain (λ b. not (b == 0))) lines

no_nul : (line : List ℕ) → any (λ b. b == 0) (retain (λ b. not (b == 0)) line) ≡ false
unfolding any retain
no_nul [] = refl
no_nul (b ∷ line) = ground (arith, no_nul line)

log_lines_lem : (lines : List (List ℕ)) → log_lines lines ≡ cleaned lines
unfolding log_lines
log_lines_lem [] = refl
log_lines_lem (line ∷ lines) =
    let kept : log_line line ≡ retain (λ b. not (b == 0)) line ∷ [] = ground (arith, no_nul line) in
    rw kept (ap (λ ls. retain (λ b. not (b == 0)) line ∷ ls) (log_lines_lem lines))

joined-split_lines :
    (line bytes : List ℕ)
    → (joined (split_lines line bytes) ≡ line ++ bytes)
      ⊎ (joined (split_lines line bytes) ≡ (line ++ bytes) ++ 10 ∷ [])
unfolding split_lines
joined-split_lines [] [] = inl refl
joined-split_lines (c ∷ line) [] = inr (rw (append-nil line) refl)
joined-split_lines line (b ∷ bytes) = elim (Bool-cases (nat_beq b 10)) [
  | inl e ↦
      let newline : b ≡ 10 = ground (arith, e) in
      rw newline (elim (joined-split_lines [] bytes) [
        | inl h ↦ inl (ap (λ bs. line ++ 10 ∷ bs) h)
        | inr h ↦
            inr (ap (λ bs. line ++ 10 ∷ bs) h ∙ sym (append_assoc line (10 ∷ bytes) (10 ∷ [])))
      ])
  | inr e ↦ rw (e, ← append_assoc line (b ∷ []) bytes) (joined-split_lines (line ++ b ∷ []) bytes)
]

-- Every line that comes through the pipe is logged, in order, each without its NULs: the lines, each with
-- its newline, are the bytes, and one more newline if the last line had none.
pub messages_lem :
    (bytes : List ℕ)
    → (lines : List (List ℕ)) × (messages bytes ≡ cleaned lines)
      × ((joined lines ≡ bytes) ⊎ (joined lines ≡ bytes ++ 10 ∷ []))
unfolding messages
messages_lem bytes =
    (split_lines [] bytes, log_lines_lem (split_lines [] bytes), joined-split_lines [] bytes)
