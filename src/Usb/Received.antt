-- ===== src/Usb/Received.antt =====
-- What the runtime receives from the transport of btstack-nusb/src/lib.rs.
use btstack_gatt_rs.Prelude.{
  ℕ, zero, suc, ◌≡◌, refl, List, [], ◌∷◌, ◌++◌, Option, none, some, Result, ok, err, Outcome,
  returned, panicked, Bool-cases, inl, inr, ap, sym, ◌∙◌,
}
use btstack_gatt_rs.Types.{Error, HciPacket}
use btstack_gatt_rs.Runtime.Bridge.{Transport}
use btstack_gatt_rs.Usb.{Completion, Receiver, opened, receive_packet, received_item, worker_pass}
use btstack_gatt_rs.Usb.Sending.{UsbIo}
use btstack_gatt_rs.Usb.Driver.{Schedule, passes, receive_scheduled, usb_transport}
use btstack_gatt_rs.Usb.Delivery.{Item, Action, pass, take_one, offers, item_of, taken, act}
use btstack_gatt_rs.Usb.Order.{act-opened}

-- The packets among the items; an error ends the runtime.
abbrev pub packets : List Item → List HciPacket
packets [] = []
packets (ok p ∷ items) = p ∷ packets items
packets (err e ∷ items) = packets items

abbrev pub packet_of : Outcome (Result (Option HciPacket) Error) → List HciPacket
packet_of (returned (ok none)) = []
packet_of (returned (ok (some p))) = p ∷ []
packet_of (returned (err e)) = []
packet_of panicked = []

-- The packets that so many calls of a transport's `receive` give.
abbrev pub received_by : (R : Transport) → ℕ → R.T → List HciPacket
received_by R zero t = []
received_by R (suc n) t = packet_of (R.receive t).1 ++ received_by R n (R.receive t).0

abbrev pub actions_of : List (Option Completion × Option Completion) → List Action → List Action
actions_of [] later = later
actions_of ((events, acl) ∷ ps) later = pass events acl ∷ actions_of ps later

-- The passes before each of so many calls of `receive`, and the calls.
abbrev pub actions : ℕ → Schedule → List Action
actions zero schedule = []
actions (suc n) [] = take_one ∷ actions n []
actions (suc n) (ps ∷ schedule) = actions_of ps (take_one ∷ actions n schedule)

packets-append : (xs ys : List Item) → packets (xs ++ ys) ≡ packets xs ++ packets ys
packets-append [] ys = refl
packets-append (ok p ∷ xs) ys = ap (λ ps. p ∷ ps) (packets-append xs ys)
packets-append (err e ∷ xs) ys = packets-append xs ys

act-actions_of :
    (ps : List (Option Completion × Option Completion)) (later : List Action) (r : Receiver)
    → act (actions_of ps later) r ≡ act later (passes ps r)
unfolding act passes
act-actions_of [] later r = refl
act-actions_of ((events, acl) ∷ ps) later r = act-actions_of ps later (worker_pass events acl r)

packets-item :
    (r : Receiver) (queue : List Item) (out : Result (Option HciPacket) Error)
    → out ≡ (received_item r queue).1
    → packet_of (returned out) ≡ packets (elim queue [ [] ↦ [] | item ∷ later ↦ item_of out ])
unfolding received_item
packets-item r [] out h = elim (Bool-cases r.alive) [
  | inl e ↦ rw (h, e) refl
  | inr e ↦ rw (h, e) refl
]
packets-item r (ok p ∷ queue) out h = rw h refl
packets-item r (err e ∷ queue) out h = rw h refl

packets-taken : (r : Receiver) → packet_of (returned (receive_packet r).1) ≡ packets (taken r)
unfolding receive_packet
packets-taken r = packets-item r r.incoming (receive_packet r).1 refl

module _ (io : UsbIo) where
  received_by-act :
      (n : ℕ) (t : io.T) (r : Receiver) (schedule : Schedule)
      → received_by (usb_transport io) n (t, r, schedule) ≡ packets (act (actions n schedule) r).1
  unfolding receive_scheduled act
  received_by-act zero t r schedule = refl
  received_by-act (suc n) t r [] =
      ap (λ ps. ps ++ received_by (usb_transport io) n (t, (receive_packet r).0, []))
        (packets-taken r)
      ∙ ap (λ ps. packets (taken r) ++ ps) (received_by-act n t (receive_packet r).0 [])
      ∙ sym (packets-append (taken r) _)
  received_by-act (suc n) t r (ps ∷ schedule) =
      let r' = passes ps r in
      ap (λ qs. qs ++ received_by (usb_transport io) n (t, (receive_packet r').0, schedule))
        (packets-taken r')
      ∙ ap (λ qs. packets (taken r') ++ qs) (received_by-act n t (receive_packet r').0 schedule)
      ∙ sym (packets-append (taken r') _)
      ∙ sym (ap (λ z. packets z.1) (act-actions_of ps (take_one ∷ actions n schedule) r))

  -- Through the transport as the runtime drives it, from its opening on: the packets that any number of
  -- calls of `receive` give are the packets that the controller has completed by then, in their order and
  -- from the first on without a gap, whenever the receiving thread runs between the calls.
  pub received_by-offers :
      (n : ℕ) (t : io.T) (schedule : Schedule)
      → (rest : List HciPacket) × (packets (offers (actions n schedule))
          ≡ received_by (usb_transport io) n (t, opened, schedule) ++ rest)
  received_by-offers n t schedule =
      let o = act-opened (actions n schedule) in
      let (r, got) = act (actions n schedule) opened in
      let (lost, e, _, _, _, _) = o in
      (
        packets (r.incoming ++ lost),
        ap packets e
            ∙ packets-append got (r.incoming ++ lost)
            ∙ ap (λ ps. ps ++ packets (r.incoming ++ lost))
                (sym (received_by-act n t opened schedule)),
      )
