-- ===== src/Usb/Passes.antt =====
-- A pass of the receiving thread of btstack-nusb/src/lib.rs loses nothing while the thread runs on.
use btstack_gatt_rs.Prelude.{
  ◌≡◌, refl, true, false, List, [], ◌++◌, Option, arith, subst, Bool-cases, ◌||◌, ◌==◌, nat_eq, inl,
  inr,
}
use btstack_gatt_rs.Usb.{Completion, Receiver, await_both, on_completion, worker_pass}
use btstack_gatt_rs.Usb.Delivery.{Item, offer, Kept, on_completion-Kept, then-Kept, ended-Kept}

module _ (events acl : Option Completion) (r : Receiver) (alive : r.alive ≡ true)
    (running : r.stop ≡ false)
    (submitted : ((r.events_pending == 0) || (r.acl_pending == 0)) ≡ false) where
  abbrev waited : Receiver
  waited = await_both events acl r

  pub pass_equation_on :
      (on_completion 4 events waited).alive ≡ true
      → on_completion 2 acl (on_completion 4 events waited) ≡ worker_pass events acl r
  unfolding worker_pass
  pass_equation_on on = ground (arith, alive, running, submitted, on)

  pub pass_equation_off :
      (on_completion 4 events waited).alive ≡ false
      → on_completion 4 events waited ≡ worker_pass events acl r
  unfolding worker_pass
  pass_equation_off off = ground (arith, alive, running, submitted, off)

awaited-Kept :
    {offered got : List Item} {r' : Receiver} (events acl : Option Completion) (r : Receiver)
    → Kept (await_both events acl r) offered got r'
    → Kept r offered got r'
unfolding await_both
awaited-Kept events acl r k = record {
  lost = k.lost;
  balance = k.balance;
  complete = k.complete;
  bounded = k.bounded;
}

pub worker_pass-Kept :
    (events acl : Option Completion) (r : Receiver)
    → Kept r (offer 4 events ++ offer 2 acl) [] (worker_pass events acl r)
unfolding worker_pass
worker_pass-Kept events acl r = elim (Bool-cases r.alive) [
  | inr dead ↦
      rw (dead, worker_pass)
        (record {
          lost = offer 4 events ++ offer 2 acl;
          balance = refl;
          complete = λ h. ground (arith, dead, h);
          bounded = λ h. h;
        })
  | inl alive ↦ elim (Bool-cases r.stop) [
    | inl stopped ↦
        rw (alive, stopped, worker_pass)
          (record {
            lost = offer 4 events ++ offer 2 acl;
            balance = refl;
            complete = λ h. cc;
            bounded = λ h. h;
          })
    | inr running ↦ elim (Bool-cases ((r.events_pending == 0) || (r.acl_pending == 0))) [
      | inl bare ↦
          rw (alive, running, bare, worker_pass)
            (record {
              lost = offer 4 events ++ offer 2 acl;
              balance = refl;
              complete = λ h. cc;
              bounded = λ h. h;
            })
      | inr submitted ↦
          let r' = on_completion 4 events (await_both events acl r) in
          let k =
            awaited-Kept events acl r (on_completion-Kept 4 events (await_both events acl r)) in
          elim (Bool-cases r'.alive) [
            | inl on ↦
                subst (λ x. Kept r (offer 4 events ++ offer 2 acl) [] x)
                  (pass_equation_on events acl r alive running submitted on)
                  (then-Kept r r' (on_completion 2 acl r') (offer 4 events) (offer 2 acl) [] [] k on
                    (on_completion-Kept 2 acl r'))
            | inr off ↦
                subst (λ x. Kept r (offer 4 events ++ offer 2 acl) [] x)
                  (pass_equation_off events acl r alive running submitted off)
                  (ended-Kept r r' (offer 4 events) (offer 2 acl) [] k off)
          ]
    ]
  ]
]
