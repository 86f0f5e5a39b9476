-- ===== src/Usb/Order.antt =====
-- Any run of the USB transport's receiving side (btstack-nusb/src/lib.rs).
use mathlib.Core.List.{append_assoc}
use btstack_gatt_rs.Prelude.{
  ◌≤◌, ◌≡◌, refl, true, false, List, [], ◌∷◌, ◌++◌, ok, err, arith, length, ap, subst, sym, ◌∙◌,
  Bool-cases, List-cases, inl, inr, ◌⊎◌,
}
use btstack_gatt_rs.Usb.{Receiver, opened, worker_pass, receive_packet}
use btstack_gatt_rs.Usb.Passes.{worker_pass-Kept}
use btstack_gatt_rs.Usb.Pending.{Ready, worker_pass-Ready, receive_packet-Ready}
use btstack_gatt_rs.Usb.Ended.{has_error, Full, act_ends}
use btstack_gatt_rs.Usb.Delivery.{
  Item, offer, Action, pass, take_one, offers, taken, act, Kept, then-Kept, ended-Kept,
}

-- What is taken is the head of the channel.
record Taken (r r' : Receiver) (got : List Item) : Type 0 where
  balance : r.incoming ≡ got ++ r'.incoming
  alive : r'.alive ≡ r.alive
  shorter : length r'.incoming ≤ length r.incoming

receive-Taken : (r : Receiver) → Taken r (receive_packet r).0 (taken r)
unfolding receive_packet
receive-Taken r = elim (List-cases r.incoming) [
  | inl q ↦ record {
    balance = ground (arith, q);
    alive = ground (arith, q);
    shorter = ground (arith, q);
  }
  | inr (ok p, queue, q) ↦ record {
    balance = ground (arith, q);
    alive = ground (arith, q);
    shorter = ground (arith, q);
  }
  | inr (err e, queue, q) ↦ record {
    balance = ground (arith, q);
    alive = ground (arith, q);
    shorter = ground (arith, q);
  }
]

-- Once the thread has ended, what waits is handed on and no more comes.
act_ended :
    (later : List Action) (r : Receiver)
    → r.alive ≡ false
    → let (r', got) = act later r in
      (r.incoming ≡ got ++ r'.incoming)
      × (r'.alive ≡ false)
      × (length r'.incoming ≤ length r.incoming)
unfolding act
act_ended [] r dead = (refl, dead, omega arith)
act_ended (pass events acl ∷ later) r dead =
    let same : worker_pass events acl r ≡ r = ground (arith, dead) in
    subst
      (λ x.
        let (r', got) = act later x in
        (r.incoming ≡ got ++ r'.incoming)
        × (r'.alive ≡ false)
        × (length r'.incoming ≤ length r.incoming))
      (sym same) (act_ended later r dead)
act_ended (take_one ∷ later) r dead =
    let t = receive-Taken r in
    let (b, d, l) = act_ended later (receive_packet r).0 (t.alive ∙ dead) in
    (
      t.balance
          ∙ ap (λ xs. taken r ++ xs) b
          ∙ sym (append_assoc (taken r) (act later (receive_packet r).0).1 _),
      d,
      omega (arith, l, t.shorter),
    )

act-Kept :
    (later : List Action) (r : Receiver) → Kept r (offers later) (act later r).1 (act later r).0
unfolding act
act-Kept [] r = record { lost = []; balance = refl; complete = λ h. refl; bounded = λ h. h }
act-Kept (pass events acl ∷ later) r =
    let r' = worker_pass events acl r in
    let now = offer 4 events ++ offer 2 acl in
    let k = worker_pass-Kept events acl r in
    rw (← append_assoc (offer 4 events) (offer 2 acl) (offers later)) (elim (Bool-cases r'.alive) [
      | inl on ↦
          then-Kept r r' (act later r').0 now (offers later) [] (act later r').1 k on
            (act-Kept later r')
      | inr off ↦
          let (b, d, l) = act_ended later r' off in
          let (r'', got) = act later r' in
          let e = ended-Kept r r' now (offers later) [] k off in
          record {
            lost = e.lost;
            balance = e.balance ∙ ap (λ xs. xs ++ e.lost) b ∙ append_assoc got r''.incoming e.lost;
            complete = λ h. ground (arith, d, h);
            bounded = λ h. omega (arith, l, k.bounded h);
          }
    ])
act-Kept (take_one ∷ later) r =
    let t = receive-Taken r in
    let k = act-Kept later (receive_packet r).0 in
    let (r'', got) = act later (receive_packet r).0 in
    record {
      lost = k.lost;
      balance =
          ap (λ xs. xs ++ offers later) t.balance
          ∙ append_assoc (taken r) (receive_packet r).0.incoming (offers later)
          ∙ ap (λ xs. taken r ++ xs) k.balance
          ∙ sym (append_assoc (taken r) got (r''.incoming ++ k.lost));
      complete = k.complete;
      bounded = λ h. k.bounded (omega (arith, t.shorter, h));
    }

act-Ready : (later : List Action) (r : Receiver) → Ready r → Ready (act later r).0
unfolding act
act-Ready [] r ready = ready
act-Ready (pass events acl ∷ later) r ready =
    act-Ready later (worker_pass events acl r) (worker_pass-Ready events acl r ready)
act-Ready (take_one ∷ later) r ready =
    act-Ready later (receive_packet r).0 (receive_packet-Ready r ready)

-- Whatever the controller completes and whenever the stack receives: what has been received, and then
-- what still waits, is what was completed, empty transfers apart, in its order and without a gap, and
-- nothing is missing while the thread runs. Once it has ended, what waits is still received, and what is
-- missing is at the end; and it has ended only if some transfer completed with an error, or after 256
-- items waited, which is the most that wait at any time. So empty transfers neither count nor end the
-- thread. While the thread runs, it has one transfer submitted on each endpoint, so that it never waits
-- for none, which would panic. (The transport is not dropped meanwhile.)
pub act-opened :
    (later : List Action)
    → let (r, got) = act later opened in
      (lost : List Item) × (offers later ≡ got ++ (r.incoming ++ lost))
      × (r.alive ≡ true → lost ≡ [])
      × (r.alive ≡ false → (has_error (offers later) ≡ true) ⊎ Full later opened)
      × (length r.incoming ≤ 256)
      × Ready r
act-opened later =
    let k = act-Kept later opened in
    (
      k.lost,
      k.balance,
      k.complete,
      act_ends later opened refl refl (λ h. (refl, refl)),
      k.bounded (omega arith),
      act-Ready later opened (λ h. (refl, refl)),
    )
