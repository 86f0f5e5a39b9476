-- ===== src/Usb/Sent.antt =====
-- Which transfer a success of `send` of btstack-nusb/src/lib.rs is about.
use mathlib.Core.List.{map-append}
use btstack_gatt_rs.Prelude.{
  ℕ, ◌≡◌, refl, List, [], ◌∷◌, ◌++◌, map, All, All-append, Option, none, some, Result, ok, err,
  arith, length, Bool-cases, Result-cases, inl, inr, ◌==◌, nat_eq, nat_beq, if◌then◌else◌, ap, sym,
  ◌∙◌,
}
use btstack_gatt_rs.Types.{Error}
use btstack_gatt_rs.Usb.Sending.{UsbIo, OutCompletion, IsComplete, acl_result_iff, send_packet}

-- What the documentation of nusb says of an endpoint: transfers wait in the order of their submission, a
-- completion is that of the one that has waited longest and hands its buffer back, and a wait that ends
-- without a completion leaves the transfers where they are.
pub record Fifo (io : UsbIo) : Type 0 where
  pub pending : io.T → List (List ℕ)
  pub submits : (p : List ℕ) (t : io.T) → pending (io.submit_out p t) ≡ pending t ++ p ∷ []
  pub controls : (p : List ℕ) (t : io.T) → pending (io.control_out p t).0 ≡ pending t
  pub times_out :
      (t : io.T)
      → (io.wait_next_complete t).1 ≡ none
      → pending (io.wait_next_complete t).0 ≡ pending t
  pub completes :
      (t : io.T) (c : OutCompletion)
      → (io.wait_next_complete t).1 ≡ some c
      → pending t ≡ c.buffer ∷ pending (io.wait_next_complete t).0

abbrev pub acl_packets : List (ℕ × List ℕ) → List (List ℕ)
acl_packets [] = []
acl_packets ((kind, p) ∷ ps) = (if kind == 2 then p ∷ [] else []) ++ acl_packets ps

abbrev one : Option OutCompletion → List OutCompletion
one none = []
one (some c) = c ∷ []

module _ (io : UsbIo) where
  -- The bulk transfer that a call of `send` waits for.
  abbrev awaited : ℕ → List ℕ → io.T → List OutCompletion
  awaited kind p t = if kind == 2 then one (io.wait_next_complete (io.submit_out p t)).1 else []

  -- One call of `send` after the other up to the first that fails, with the transfers that have
  -- completed.
  unfoldable pub sends :
      List (ℕ × List ℕ) → io.T → io.T × List OutCompletion × Result (Unit {0}) Error
  sends [] t = (t, [], ok tt)
  sends ((kind, p) ∷ ps) t =
      let r = send_packet io kind p t in
      let done = awaited kind p t in
      elim r.1 [
        | err e ↦ (r.0, done, err e)
        | ok u ↦ let (t', cs, result) = sends ps r.0 in (t', done ++ cs, result)
      ]

  module _ (f : Fifo io) where
    -- The transfers are those of these packets, whole, and no other waits.
    pub record Own (packets : List (List ℕ)) (cs : List OutCompletion) (t : io.T) : Type 0 where
      pub idle : f.pending t ≡ []
      pub theirs : map (λ (c : OutCompletion). c.buffer) cs ≡ packets
      pub whole : All (λ c. IsComplete (length c.buffer) c) cs

    send_packet-Own :
        (kind : ℕ) (p : List ℕ) (t : io.T)
        → f.pending t ≡ []
        → (send_packet io kind p t).1 ≡ ok tt
        → Own (if kind == 2 then p ∷ [] else []) (awaited kind p t) (send_packet io kind p t).0
    unfolding send_packet
    send_packet-Own kind p t idle h = elim (Bool-cases (nat_beq kind 1)) [
      | inl e ↦
          let k : kind ≡ 1 = ground (arith, e) in
          rw k (record { idle = f.controls p t ∙ idle; theirs = refl; whole = tt })
      | inr e ↦ elim (Bool-cases (nat_beq kind 2)) [
        | inl k ↦
            let two : kind ≡ 2 = ground (arith, k) in
            let u = io.submit_out p t in
            let (c, got, done) =
              (acl_result_iff p (io.wait_next_complete u).1).0 (ground (arith, e, k, h)) in
            let queue : c.buffer ∷ f.pending (io.wait_next_complete u).0 ≡ p ∷ [] =
              sym (f.completes u c got) ∙ f.submits p t ∙ ap (λ ps. ps ++ p ∷ []) idle in
            rw (two, got)
              (record {
                idle = ground (arith, queue);
                theirs = ground (arith, queue);
                whole = ((done.0, ground (arith, queue, done.1)), tt);
              })
        | inr k ↦ absurd (ground (arith, e, k, h))
      ]
    ]

    Own-append :
        (ps qs : List (List ℕ)) (cs ds : List OutCompletion) (t t' : io.T)
        → Own ps cs t
        → Own qs ds t'
        → Own (ps ++ qs) (cs ++ ds) t'
    Own-append ps qs cs ds t t' o p = record {
      idle = p.idle;
      theirs =
          map-append (λ (c : OutCompletion). c.buffer) cs ds
          ∙ ap (λ x. x ++ map (λ (c : OutCompletion). c.buffer) ds) o.theirs
          ∙ ap (λ x. ps ++ x) p.theirs;
      whole = (All-append (λ c. IsComplete (length c.buffer) c) cs ds).1 (o.whole, p.whole);
    }

    -- Packets that are sent one after the other, the first at a time when no bulk transfer waits: if
    -- all of them count as sent, then the bulk transfers that were waited for are those of the ACL
    -- packets, each once and in their order; each has completed without an error and with as many
    -- bytes as it has; and none waits. (Of the endpoint it is assumed that transfers complete in the
    -- order of their submission.)
    pub sends-Own :
        (ps : List (ℕ × List ℕ)) (t : io.T)
        → f.pending t ≡ []
        → (sends ps t).2 ≡ ok tt
        → Own (acl_packets ps) (sends ps t).1 (sends ps t).0
    unfolding sends
    sends-Own [] t idle h = record { idle = idle; theirs = refl; whole = tt }
    sends-Own ((kind, p) ∷ ps) t idle h = elim (Result-cases (send_packet io kind p t).1) [
      | inr (x, e) ↦ absurd (ground (arith, e, h))
      | inl (u, e) ↦
          let o = send_packet-Own kind p t idle e in
          let later = sends-Own ps (send_packet io kind p t).0 o.idle (ground (arith, e, h)) in
          rw (e, sends) (Own-append _ _ _ _ _ _ o later)
    ]
