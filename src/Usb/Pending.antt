-- ===== src/Usb/Pending.antt =====
-- The transfers that the receiving thread of btstack-nusb/src/lib.rs has submitted.
use btstack_gatt_rs.Prelude.{
  ℕ, ◌+◌, ◌≤◌, ◌≡◌, ap, sym, ◌∙◌, refl, true, false, Option, none, some, ok, err, arith,
  if◌then◌else◌, leb, length, is_empty, Bool-cases, List-cases, Result-cases, inl, inr, ◌||◌, ◌==◌,
  nat_eq,
}
use btstack_gatt_rs.Types.{Error, HciPacket}
use btstack_gatt_rs.Usb.Passes.{pass_equation_on, pass_equation_off}
use btstack_gatt_rs.Usb.{
  Completion, Receiver, try_send, fail_with, deliver_packet, handed_back, await_both, resubmit,
  on_completion, worker_pass, receive_packet,
}

-- While the thread runs, one transfer is submitted on each endpoint.
abbrev pub Ready : Receiver → Type 0
Ready r = r.alive ≡ true → (r.events_pending ≡ 1) × (r.acl_pending ≡ 1)

-- If the thread goes on, so many transfers have been submitted on the endpoint of this kind.
Submits : ℕ → ℕ → Receiver → Receiver → Type 0
Submits kind n r r' =
    r'.alive ≡ true
    → (r'.events_pending ≡ r.events_pending + (if kind == 4 then n else 0))
      × (r'.acl_pending ≡ r.acl_pending + (if kind == 4 then 0 else n))

fail_with_ends : (e : Error) (r : Receiver) → (fail_with e r).alive ≡ false
unfolding fail_with
fail_with_ends e r = elim (Bool-cases (leb 256 (length r.incoming))) [
  | inl full ↦ rw (full, fail_with, try_send) refl
  | inr room ↦ rw (room, fail_with, try_send) refl
]

deliver_packet-Submits :
    (kind : ℕ) (p : HciPacket) (r : Receiver) → Submits kind 0 r (deliver_packet p r)
unfolding deliver_packet Submits
deliver_packet-Submits kind p r = elim (Bool-cases (leb 256 (length r.incoming))) [
  | inl full ↦ rw (full, deliver_packet, try_send) (λ h. cc)
  | inr room ↦ rw (room, deliver_packet, try_send) (λ h. (ground arith, ground arith))
]

same-Submits : (kind : ℕ) (r : Receiver) → Submits kind 0 r r
unfolding Submits
same-Submits kind r h = (ground arith, ground arith)

ended-Submits : (kind n : ℕ) (r r' : Receiver) → r'.alive ≡ false → Submits kind n r r'
unfolding Submits
ended-Submits kind n r r' dead h = absurd (ground (arith, dead, h))

resubmit-Submits :
    (kind : ℕ) (r r' : Receiver) → Submits kind 0 r r' → Submits kind 1 r (resubmit kind r')
unfolding resubmit Submits
resubmit-Submits kind r r' s h =
    let on : r'.alive ≡ true = ground (arith, h) in
    let (a, b) = s on in (ground (arith, on, a), ground (arith, on, b))

on_completion-Submits :
    (kind : ℕ) (c : Option Completion) (r : Receiver)
    → Submits kind (handed_back c) r (on_completion kind c r)
unfolding on_completion
on_completion-Submits kind none r = same-Submits kind r
on_completion-Submits kind (some c) r = elim (Result-cases c.status) [
  | inr (x, e) ↦ rw (e, on_completion) (ended-Submits kind 1 r (fail_with x r) (fail_with_ends x r))
  | inl (u, e) ↦ elim (Bool-cases (is_empty c.buffer)) [
    | inl b ↦ rw (e, b, on_completion) (resubmit-Submits kind r r (same-Submits kind r))
    | inr b ↦
        let p : HciPacket = record { kind = kind; payload = c.buffer } in
        rw (e, b, on_completion)
          (resubmit-Submits kind r (deliver_packet p r) (deliver_packet-Submits kind p r))
  ]
]

handed_back_le : (c : Option Completion) → handed_back c ≤ 1
handed_back_le none = omega arith
handed_back_le (some c) = omega arith

pub worker_pass-Ready :
    (events acl : Option Completion) (r : Receiver) → Ready r → Ready (worker_pass events acl r)
unfolding worker_pass await_both Submits
worker_pass-Ready events acl r ready h = elim (Bool-cases r.alive) [
  | inr dead ↦ absurd (ground (arith, dead, h))
  | inl alive ↦ elim (Bool-cases r.stop) [
    | inl stopped ↦ absurd (ground (arith, alive, stopped, h))
    | inr running ↦
        let (one, another) = ready alive in
        let submitted : ((r.events_pending == 0) || (r.acl_pending == 0)) ≡ false =
          ground (arith, one, another) in
        let waited = await_both events acl r in
        let r' = on_completion 4 events waited in
        elim (Bool-cases r'.alive) [
          | inr off ↦
              let now = pass_equation_off events acl r alive running submitted off in
              absurd (ground (arith, off, ap (λ (x : Receiver). x.alive) now, h))
          | inl on ↦
              let now = pass_equation_on events acl r alive running submitted on in
              let (a, b) = on_completion-Submits 4 events waited on in
              let (c, d) =
                on_completion-Submits 2 acl r' (ap (λ (x : Receiver). x.alive) now ∙ h) in
              let few = handed_back_le events in
              let fewer = handed_back_le acl in
              (
                sym (ap (λ (x : Receiver). x.events_pending) now) ∙ omega (arith, a, c, one, few),
                sym (ap (λ (x : Receiver). x.acl_pending) now)
                    ∙ omega (arith, b, d, another, fewer),
              )
        ]
  ]
]

pub receive_packet-Ready : (r : Receiver) → Ready r → Ready (receive_packet r).0
unfolding receive_packet
receive_packet-Ready r ready = elim (List-cases r.incoming) [
  | inl q ↦ rw (q, receive_packet) ready
  | inr (ok p, queue, q) ↦ rw (q, receive_packet) ready
  | inr (err e, queue, q) ↦ rw (q, receive_packet) ready
]
