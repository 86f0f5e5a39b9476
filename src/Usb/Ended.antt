-- ===== src/Usb/Ended.antt =====
-- Why the receiving thread of btstack-nusb/src/lib.rs ends.
use btstack_gatt_rs.Prelude.{
  ℕ, ◌≤◌, ◌≡◌, ◌⊎◌, ◌∙◌, ap, sym, refl, Bool, true, false, List, [], ◌∷◌, ◌++◌, Option, none, some,
  ok, err, arith, leb, length, is_empty, Bool-cases, List-cases, Result-cases, inl, inr, ◌||◌, ◌==◌,
  nat_eq, subst,
}
use btstack_gatt_rs.Types.{HciPacket}
use btstack_gatt_rs.Usb.{
  Completion, Receiver, try_send, fail_with, deliver_packet, await_both, resubmit, on_completion,
  worker_pass, receive_packet,
}
use btstack_gatt_rs.Usb.Delivery.{Item, offer, Action, pass, take_one, offers, act}
use btstack_gatt_rs.Usb.Pending.{Ready, worker_pass-Ready, receive_packet-Ready}
use btstack_gatt_rs.Usb.Passes.{pass_equation_on, pass_equation_off}

abbrev pub has_error : List Item → Bool
has_error [] = false
has_error (ok p ∷ items) = has_error items
has_error (err e ∷ items) = true

has_error-append : (xs ys : List Item) → has_error (xs ++ ys) ≡ (has_error xs || has_error ys)
has_error-append [] ys = refl
has_error-append (ok p ∷ xs) ys = has_error-append xs ys
has_error-append (err e ∷ xs) ys = refl

-- After some of the actions 256 items wait.
pub record Full (later : List Action) (r : Receiver) : Type 0 where
  pub before : List Action
  pub after : List Action
  pub split : later ≡ before ++ after
  pub full : 256 ≤ length (act before r).0.incoming

abbrev Cause : List Item → Receiver → Type 0
Cause offered r = (has_error offered ≡ true) ⊎ (256 ≤ length r.incoming)

deliver_packet_ends :
    (p : HciPacket) (r : Receiver)
    → r.alive ≡ true
    → (deliver_packet p r).alive ≡ false
    → 256 ≤ length (deliver_packet p r).incoming
unfolding deliver_packet try_send
deliver_packet_ends p r on off = elim (Bool-cases (leb 256 (length r.incoming))) [
  | inl full ↦ rw (full, deliver_packet, try_send) (ground (arith, full))
  | inr room ↦ absurd (ground (arith, room, on, off))
]

resubmit_same : (kind : ℕ) (r : Receiver) → (resubmit kind r).alive ≡ r.alive
unfolding resubmit
resubmit_same kind r = ground arith

resubmit_waiting : (kind : ℕ) (r : Receiver) → (resubmit kind r).incoming ≡ r.incoming
unfolding resubmit
resubmit_waiting kind r = ground arith

on_completion_ends :
    (kind : ℕ) (c : Option Completion) (r : Receiver)
    → r.alive ≡ true
    → (on_completion kind c r).alive ≡ false
    → Cause (offer kind c) (on_completion kind c r)
unfolding on_completion
on_completion_ends kind none r on off = absurd (ground (arith, on, off))
on_completion_ends kind (some c) r on off = elim (Result-cases c.status) [
  | inr (x, e) ↦ inl (ground (arith, e))
  | inl (u, e) ↦ elim (Bool-cases (is_empty c.buffer)) [
    | inl b ↦ absurd (ground (arith, e, b, on, off, resubmit_same kind r))
    | inr b ↦
        let r' = deliver_packet (record { kind = kind; payload = c.buffer }) r in
        let now : on_completion kind (some c) r ≡ resubmit kind r' = ground (arith, e, b) in
        let ended : r'.alive ≡ false =
          sym (resubmit_same kind r') ∙ sym (ap (λ (x : Receiver). x.alive) now) ∙ off in
        let waiting : (on_completion kind (some c) r).incoming ≡ r'.incoming =
          ap (λ (x : Receiver). x.incoming) now ∙ resubmit_waiting kind r' in
        inr (
          subst (λ xs. 256 ≤ length xs) (sym waiting)
            (deliver_packet_ends (record { kind = kind; payload = c.buffer }) r on ended))
  ]
]

-- A thread that is not asked to stop ends for an error or with 256 items waiting.
worker_pass_ends :
    (events acl : Option Completion) (r : Receiver)
    → r.alive ≡ true
    → r.stop ≡ false
    → Ready r
    → (worker_pass events acl r).alive ≡ false
    → Cause (offer 4 events ++ offer 2 acl) (worker_pass events acl r)
unfolding await_both
worker_pass_ends events acl r alive running ready ended =
    let (one, another) = ready alive in
    let submitted : ((r.events_pending == 0) || (r.acl_pending == 0)) ≡ false =
      ground (arith, one, another) in
    let waited = await_both events acl r in
    let r' = on_completion 4 events waited in
    let join = has_error-append (offer 4 events) (offer 2 acl) in
    elim (Bool-cases r'.alive) [
      | inr off ↦
          let now = pass_equation_off events acl r alive running submitted off in
          subst (λ x. Cause (offer 4 events ++ offer 2 acl) x) now
            (elim (on_completion_ends 4 events waited alive off) [
              | inl e ↦ inl (ground (arith, join, e))
              | inr l ↦ inr l
            ])
      | inl on ↦
          let now = pass_equation_on events acl r alive running submitted on in
          let off = ap (λ (x : Receiver). x.alive) now ∙ ended in
          subst (λ x. Cause (offer 4 events ++ offer 2 acl) x) now
            (elim (on_completion_ends 2 acl r' on off) [
              | inl e ↦ inl (ground (arith, join, e))
              | inr l ↦ inr l
            ])
    ]

on_completion_stop :
    (kind : ℕ) (c : Option Completion) (r : Receiver) → (on_completion kind c r).stop ≡ r.stop
unfolding on_completion fail_with deliver_packet try_send resubmit
on_completion_stop kind none r = refl
on_completion_stop kind (some c) r = ground arith

worker_pass_stop :
    (events acl : Option Completion) (r : Receiver) → (worker_pass events acl r).stop ≡ r.stop
unfolding worker_pass await_both
worker_pass_stop events acl r =
    let waited = await_both events acl r in
    ground (
      arith,
      on_completion_stop 4 events waited,
      on_completion_stop 2 acl (on_completion 4 events waited),
    )

receive_packet_same :
    (r : Receiver) → ((receive_packet r).0.stop ≡ r.stop) × ((receive_packet r).0.alive ≡ r.alive)
unfolding receive_packet
receive_packet_same r = elim (List-cases r.incoming) [
  | inl q ↦ rw (q, receive_packet) (refl, refl)
  | inr (ok p, queue, q) ↦ rw (q, receive_packet) (refl, refl)
  | inr (err e, queue, q) ↦ rw (q, receive_packet) (refl, refl)
]

more :
    (a : Action) (later : List Action) (r s : Receiver)
    → ((before : List Action) → (act (a ∷ before) r).0 ≡ (act before s).0)
    → Full later s
    → Full (a ∷ later) r
more a later r s same f = record {
  before = a ∷ f.before;
  after = f.after;
  split = ap (λ xs. a ∷ xs) f.split;
  full = subst (λ x. 256 ≤ length x.incoming) (sym (same f.before)) f.full;
}

pub act_ends :
    (later : List Action) (r : Receiver)
    → r.alive ≡ true
    → r.stop ≡ false
    → Ready r
    → (act later r).0.alive ≡ false
    → (has_error (offers later) ≡ true) ⊎ Full later r
unfolding act
act_ends [] r on running ready ended = absurd (ground (arith, on, ended))
act_ends (pass events acl ∷ later) r on running ready ended =
    let r' = worker_pass events acl r in
    let first = has_error-append (offer 4 events) (offer 2 acl ++ offers later) in
    let second = has_error-append (offer 2 acl) (offers later) in
    let both = has_error-append (offer 4 events) (offer 2 acl) in
    elim (Bool-cases r'.alive) [
      | inr off ↦ elim (worker_pass_ends events acl r on running ready off) [
        | inl e ↦ inl (ground (arith, first, second, both, e))
        | inr l ↦
            inr (record { before = pass events acl ∷ []; after = later; split = refl; full = l })
      ]
      | inl still ↦
          elim (act_ends later r' still (worker_pass_stop events acl r ∙ running)
            (worker_pass-Ready events acl r ready) ended) [
              | inl e ↦ inl (ground (arith, first, second, e))
              | inr f ↦ inr (more (pass events acl) later r r' (λ before. refl) f)
            ]
    ]
act_ends (take_one ∷ later) r on running ready ended =
    let (s, a) = receive_packet_same r in
    elim (act_ends later (receive_packet r).0 (a ∙ on) (s ∙ running) (receive_packet-Ready r ready)
      ended) [
        | inl e ↦ inl e
        | inr f ↦ inr (more take_one later r (receive_packet r).0 (λ before. refl) f)
      ]
