-- ===== src/Runtime/Mailbox/Delivery.antt =====
-- Flushes empty a mailbox in order (`flush_notification` of btstack-core/src/runtime.rs).
use btstack_gatt_rs.Prelude.{
  ℕ, zero, suc, ◌≡◌, ◌≢◌, ◌⊎◌, inl, inr, refl, List, [], ◌∷◌, arith, length, ap, ◌∙◌, sym,
}
use btstack_gatt_rs.Runtime.Bridge.{Stack, Transport}
use btstack_gatt_rs.Runtime.Bridge.Worker.{Worker}
use btstack_gatt_rs.Runtime.Drain.{flush_notification, transmit}
use btstack_gatt_rs.Runtime.Drain.Progress.{pending-request_more, pending-transmit}
use btstack_gatt_rs.Runtime.Mailbox.{Letter, letters, mailbox, mailbox-next_pending}

length-zero : (ls : List Letter) → length ls ≡ 0 → ls ≡ []
length-zero [] l = refl
length-zero (x ∷ ls) l = absurd (omega (arith, l))

module _ {K : Stack} {R : Transport} {App : Type 0} where
  -- `times` permissions to send, one after the other.
  unfoldable pub flushes : ℕ → Worker K R App → ℕ → Worker K R App
  unfolding flush_notification
  flushes zero w handle = w
  flushes (suc times) w handle = flushes times (flush_notification w handle) handle

  -- One flush takes the oldest letter of the box of its handle, if there is one, and no other.
  pub flush-mailbox :
      (w : Worker K R App) (handle : ℕ)
      → ((mailbox w.state handle ≡ []) × (flush_notification w handle ≡ w))
        ⊎ ((l : Letter) × (mailbox w.state handle
              ≡ l ∷ mailbox (flush_notification w handle).state handle)
            × ((g : ℕ)
                → g ≢ handle
                → mailbox (flush_notification w handle).state g ≡ mailbox w.state g))
  unfolding flush_notification
  flush-mailbox w handle = elim (mailbox-next_pending w.state handle) [
    | inl (e, f) ↦ inl (f, rw (e, flush_notification) refl)
    | inr (q, s, e, f, others) ↦
        let w' = record w { state = s } in
        let same : (flush_notification w handle).state.pending ≡ s.pending =
          rw (e, flush_notification)
            (pending-request_more (transmit w' handle q) handle ∙ pending-transmit w' handle q) in
        inr (
          (q.attribute, q.value),
          f ∙ ap (λ qs. (q.attribute, q.value) ∷ letters handle qs) (sym same),
          λ g n. ap (letters g) same ∙ others g n,
        )
  ]

  -- As many permissions to send as there are letters in a box empty it, whatever BTstack does with each
  -- of them, and the boxes of all other connections stay as they are.
  pub flushes-mailbox :
      (times : ℕ) (w : Worker K R App) (handle : ℕ)
      → length (mailbox w.state handle) ≡ times
      → (mailbox (flushes times w handle).state handle ≡ [])
        × ((g : ℕ) → g ≢ handle → mailbox (flushes times w handle).state g ≡ mailbox w.state g)
  unfolding flushes
  flushes-mailbox zero w handle l = (length-zero (mailbox w.state handle) l, λ g n. refl)
  flushes-mailbox (suc times) w handle l = elim (flush-mailbox w handle) [
    | inl (e, f) ↦ absurd (ground (arith, e, l))
    | inr (x, e, others) ↦
        let ih =
          flushes-mailbox times (flush_notification w handle) handle (ground (arith, e, l)) in
        (ih.0, λ g n. ih.1 g n ∙ others g n)
  ]
