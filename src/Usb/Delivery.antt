-- ===== src/Usb/Delivery.antt =====
-- From completed transfers to received packets (the thread of btstack-nusb/src/lib.rs and `receive`).
use mathlib.Core.List.{append-nil, append_assoc}
use btstack_gatt_rs.Prelude.{
  ℕ, ◌≤◌, ◌≡◌, refl, true, false, List, [], ◌∷◌, ◌++◌, Option, none, some, Result, ok, err, arith,
  if◌then◌else◌, leb, length, length-append, is_empty, ap, sym, ◌∙◌, Bool-cases, nat_eq,
  Result-cases, inl, inr,
}
use btstack_gatt_rs.Types.{Error, HciPacket}
use btstack_gatt_rs.Usb.{
  Completion, Receiver, try_send, fail_with, deliver_packet, resubmit, on_completion, worker_pass,
  receive_packet,
}

abbrev pub Item : Type 0
Item = Result HciPacket Error

-- What a completed transfer is worth: an error, or a packet if it is not empty.
abbrev pub offer : ℕ → Option Completion → List Item
offer kind none = []
offer kind (some c) = elim c.status [
  | err e ↦ err e ∷ []
  | ok u ↦ if is_empty c.buffer then [] else ok (record { kind = kind; payload = c.buffer }) ∷ []
]

-- What happens to a transport, in any order: the thread makes a pass with what has been completed, or
-- the stack receives.
pub data Action : Type 0 where
  pass : Option Completion → Option Completion → Action
  take_one : Action

abbrev pub offers : List Action → List Item
offers [] = []
offers (pass events acl ∷ later) = offer 4 events ++ (offer 2 acl ++ offers later)
offers (take_one ∷ later) = offers later

-- The items that `receive` hands on; not a timeout, and not that the thread has gone.
abbrev pub item_of : Result (Option HciPacket) Error → List Item
item_of (ok none) = []
item_of (ok (some p)) = ok p ∷ []
item_of (err e) = err e ∷ []

abbrev pub taken : Receiver → List Item
taken r = elim r.incoming [ [] ↦ [] | item ∷ queue ↦ item_of (receive_packet r).1 ]

unfoldable pub act : List Action → Receiver → Receiver × List Item
unfolding worker_pass receive_packet
act [] r = (r, [])
act (pass events acl ∷ later) r = act later (worker_pass events acl r)
act (take_one ∷ later) r = let (r', got) = act later (receive_packet r).0 in (r', taken r ++ got)

-- One step loses nothing while the thread runs on, and a thread that has ended does not come back.
pub record Kept (r : Receiver) (offered got : List Item) (r' : Receiver) : Type 0 where
  pub lost : List Item
  pub balance : r.incoming ++ offered ≡ got ++ (r'.incoming ++ lost)
  pub complete : r'.alive ≡ true → lost ≡ []
  pub bounded : length r.incoming ≤ 256 → length r'.incoming ≤ 256

room_bound :
    (items : List Item) (item : Item)
    → leb 256 (length items) ≡ false
    → length (items ++ item ∷ []) ≤ 256
room_bound items item h = ground (arith, h, length-append items (item ∷ []))

fail_with-Kept : (e : Error) (r : Receiver) → Kept r (err e ∷ []) [] (fail_with e r)
unfolding fail_with
fail_with-Kept e r = elim (Bool-cases (leb 256 (length r.incoming))) [
  | inl full ↦
      rw (full, fail_with, try_send)
        (record { lost = err e ∷ []; balance = refl; complete = λ h. cc; bounded = λ h. h })
  | inr room ↦
      rw (room, fail_with, try_send)
        (record {
          lost = [];
          balance = sym (append-nil (r.incoming ++ err e ∷ []));
          complete = λ h. refl;
          bounded = λ h. room_bound r.incoming (err e) room;
        })
]

deliver_packet-Kept : (p : HciPacket) (r : Receiver) → Kept r (ok p ∷ []) [] (deliver_packet p r)
unfolding deliver_packet
deliver_packet-Kept p r = elim (Bool-cases (leb 256 (length r.incoming))) [
  | inl full ↦
      rw (full, deliver_packet, try_send)
        (record { lost = ok p ∷ []; balance = refl; complete = λ h. cc; bounded = λ h. h })
  | inr room ↦
      rw (room, deliver_packet, try_send)
        (record {
          lost = [];
          balance = sym (append-nil (r.incoming ++ ok p ∷ []));
          complete = λ h. refl;
          bounded = λ h. room_bound r.incoming (ok p) room;
        })
]

-- Nothing is offered and nothing is taken.
same-Kept : (r : Receiver) → Kept r [] [] r
same-Kept r = record { lost = []; balance = refl; complete = λ h. refl; bounded = λ h. h }

resubmit-Kept :
    (kind : ℕ) (r r' : Receiver) (offered got : List Item)
    → Kept r offered got r'
    → Kept r offered got (resubmit kind r')
unfolding resubmit
resubmit-Kept kind r r' offered got k = record {
  lost = k.lost;
  balance = k.balance ∙ ap (λ xs. got ++ (xs ++ k.lost)) (ground arith);
  complete = λ h. k.complete (ground (arith, h));
  bounded = λ h. ground (arith, k.bounded h);
}

pub on_completion-Kept :
    (kind : ℕ) (c : Option Completion) (r : Receiver)
    → Kept r (offer kind c) [] (on_completion kind c r)
unfolding on_completion
on_completion-Kept kind none r = same-Kept r
on_completion-Kept kind (some c) r = elim (Result-cases c.status) [
  | inl (u, e) ↦ elim (Bool-cases (is_empty c.buffer)) [
    | inl b ↦ rw (e, b, on_completion) (resubmit-Kept kind r r [] [] (same-Kept r))
    | inr b ↦
        rw (e, b, on_completion)
          (resubmit-Kept kind r _ _ []
            (deliver_packet-Kept (record { kind = kind; payload = c.buffer }) r))
  ]
  | inr (x, e) ↦ rw (e, on_completion) (fail_with-Kept x r)
]

-- A thread that has ended loses what is offered.
pub ended-Kept :
    (r r' : Receiver) (offered more got : List Item)
    → Kept r offered got r'
    → r'.alive ≡ false
    → Kept r (offered ++ more) got r'
ended-Kept r r' offered more got k dead = record {
  lost = k.lost ++ more;
  balance =
      sym (append_assoc r.incoming offered more)
      ∙ ap (λ xs. xs ++ more) k.balance
      ∙ append_assoc got (r'.incoming ++ k.lost) more
      ∙ ap (λ xs. got ++ xs) (append_assoc r'.incoming k.lost more);
  complete = λ h. ground (arith, dead, h);
  bounded = k.bounded;
}

-- One step after the other, if the first left the thread alive.
pub then-Kept :
    (r r' r'' : Receiver) (offered more got rest : List Item)
    → Kept r offered got r'
    → r'.alive ≡ true
    → Kept r' more rest r''
    → Kept r (offered ++ more) (got ++ rest) r''
then-Kept r r' r'' offered more got rest k alive m = record {
  lost = m.lost;
  balance =
      sym (append_assoc r.incoming offered more)
      ∙ ap (λ xs. xs ++ more) k.balance
      ∙ append_assoc got (r'.incoming ++ k.lost) more
      ∙ ap (λ xs. got ++ ((r'.incoming ++ xs) ++ more)) (k.complete alive)
      ∙ ap (λ xs. got ++ (xs ++ more)) (append-nil r'.incoming)
      ∙ ap (λ xs. got ++ xs) m.balance
      ∙ sym (append_assoc got rest (r''.incoming ++ m.lost));
  complete = m.complete;
  bounded = λ h. m.bounded (k.bounded h);
}
