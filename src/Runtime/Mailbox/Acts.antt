-- ===== src/Runtime/Mailbox/Acts.antt =====
-- The abstract machine of the mailboxes (the queue of btstack-core/src/runtime.rs).
use mathlib.Core.List.{append-nil, append_assoc}
use btstack_gatt_rs.Prelude.{
  ℕ, ◌≡◌, ◌≢◌, refl, inl, inr, List, [], ◌∷◌, ◌++◌, arith, if◌then◌else◌, ◌==◌, nat_eq, List-cases,
  All, take, ap, sym, ◌∙◌,
}
use btstack_gatt_rs.Runtime.Mailbox.{Letter, Mailbox, post, discard}

-- A letter comes into a box, the oldest of a box goes, or a box is emptied.
pub data Act : Type 0 where
  posts : ℕ → Letter → Act
  takes discards : ℕ → Act

abbrev pub tail : List Letter → List Letter
tail [] = []
tail (l ∷ ls) = ls

abbrev pub drop_oldest : ℕ → Mailbox → Mailbox
drop_oldest h m g = if h == g then tail (m g) else m g

abbrev pub perform : Act → Mailbox → Mailbox
perform (posts h l) m = post h l m
perform (takes h) m = drop_oldest h m
perform (discards h) m = discard h m

abbrev pub performs : List Act → Mailbox → Mailbox
performs [] m = m
performs (a ∷ xs) m = performs xs (perform a m)

pub performs-append :
    (xs ys : List Act) (m : Mailbox) → performs (xs ++ ys) m ≡ performs ys (performs xs m)
performs-append [] ys m = refl
performs-append (a ∷ xs) ys m = performs-append xs ys (perform a m)

-- The letters that come into the box of a handle, and those that are taken out of it.
abbrev pub posted_now : ℕ → Act → List Letter
posted_now h (posts g l) = if g == h then l ∷ [] else []
posted_now h (takes g) = []
posted_now h (discards g) = []

abbrev pub taken_now : ℕ → Act → Mailbox → List Letter
taken_now h (posts g l) m = []
taken_now h (takes g) m = if g == h then take 1 (m h) else []
taken_now h (discards g) m = []

abbrev pub posted : ℕ → List Act → List Letter
posted h [] = []
posted h (a ∷ xs) = posted_now h a ++ posted h xs

abbrev pub taken : ℕ → List Act → Mailbox → List Letter
taken h [] m = []
taken h (a ∷ xs) m = taken_now h a m ++ taken h xs (perform a m)

-- The box of this handle is not emptied.
abbrev pub Spares : ℕ → Act → Type 0
Spares h (posts g l) = Unit
Spares h (takes g) = Unit
Spares h (discards g) = g ≢ h

one_in_order :
    (h : ℕ) (a : Act) (m : Mailbox)
    → Spares h a
    → m h ++ posted_now h a ≡ taken_now h a m ++ perform a m h
one_in_order h (posts g l) m n = ground (arith, append-nil (m h))
one_in_order h (takes g) m n = elim (List-cases (m h)) [
  | inl e ↦ ground (arith, e)
  | inr (l, ls, e) ↦ ground (arith, e, append-nil (l ∷ ls))
]
one_in_order h (discards g) m n = ground (arith, n, append-nil (m h))

pub in_order :
    (h : ℕ) (xs : List Act) (m : Mailbox)
    → All (Spares h) xs
    → m h ++ posted h xs ≡ taken h xs m ++ performs xs m h
in_order h [] m n = append-nil (m h)
in_order h (a ∷ xs) m (n, ns) =
    sym (append_assoc (m h) (posted_now h a) (posted h xs))
    ∙ ap (λ ls. ls ++ posted h xs) (one_in_order h a m n)
    ∙ append_assoc (taken_now h a m) (perform a m h) (posted h xs)
    ∙ ap (λ ls. taken_now h a m ++ ls) (in_order h xs (perform a m) ns)
    ∙ sym (append_assoc (taken_now h a m) (taken h xs (perform a m)) (performs xs (perform a m) h))
