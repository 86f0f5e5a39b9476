-- ===== src/Runtime/Mailbox.antt =====
-- The queue of btstack-core/src/runtime.rs seen from outside: for each connection, the notifications
-- that wait, the oldest first. The one list with entries of all connections implements it.
pub mod Delivery
pub mod Acts
pub mod Runs
pub mod Handed
use mathlib.Core.List.{append-nil}
use btstack_gatt_rs.Prelude.{
  ℕ, ◌≡◌, ◌≢◌, ◌⊎◌, inl, inr, refl, List, [], ◌∷◌, ◌++◌, none, some, ok, arith, if◌then◌else◌, ◌==◌,
  nat_eq, retain, not, split_first, Bool-cases, nat_beq, nat_beq_iff, fun_ext,
}
use btstack_gatt_rs.Types.{Uuid}
use btstack_gatt_rs.Gatt.{GattConnection}
use btstack_gatt_rs.Runtime.{Queued, State, Attribute}
use btstack_gatt_rs.Runtime.Link.{next_pending, take_removed, disconnect}
use btstack_gatt_rs.Runtime.Link.Tables.{pending-disconnect}
use btstack_gatt_rs.Runtime.Notify.{enqueue, find_uuid}
use btstack_gatt_rs.Runtime.Acceptance.{enqueue-Accepts}
use btstack_gatt_rs.Runtime.Invariant.Queue.{next_pending_lem}

abbrev pub Letter : Type 0
Letter = ℕ × List ℕ

abbrev pub Mailbox : Type 0
Mailbox = ℕ → List Letter

abbrev pub letters : ℕ → List Queued → List Letter
letters h [] = []
letters h (q ∷ qs) =
    if q.connection.handle == h then (q.attribute, q.value) ∷ letters h qs else letters h qs

-- The abstract operations: one more at the end of a box, and a box emptied.
abbrev pub post : ℕ → Letter → Mailbox → Mailbox
post h l m g = if h == g then m g ++ l ∷ [] else m g

abbrev pub discard : ℕ → Mailbox → Mailbox
discard h m g = if h == g then [] else m g

letters-append : (h : ℕ) (qs rs : List Queued) → letters h (qs ++ rs) ≡ letters h qs ++ letters h rs
letters-append h [] rs = refl
letters-append h (q ∷ qs) rs = ground (arith, letters-append h qs rs)

letters-retain_self :
    (h : ℕ) (qs : List Queued) → letters h (retain (λ q. not (q.connection.handle == h)) qs) ≡ []
unfolding retain
letters-retain_self h [] = refl
letters-retain_self h (q ∷ qs) = ground (arith, letters-retain_self h qs)

letters-retain_ne :
    (g h : ℕ) (qs : List Queued)
    → h ≢ g
    → letters g (retain (λ q. not (q.connection.handle == h)) qs) ≡ letters g qs
unfolding retain
letters-retain_ne g h [] n = refl
letters-retain_ne g h (q ∷ qs) n = ground (arith, letters-retain_ne g h qs n)

-- What is split off is the oldest of its box, and the other boxes keep theirs.
letters-split_first :
    (h : ℕ) (qs : List Queued)
    → ((split_first (λ q. q.connection.handle == h) qs ≡ none) × (letters h qs ≡ []))
      ⊎ ((q : Queued) × (rest : List Queued) × (split_first (λ p. p.connection.handle == h) qs
            ≡ some (q, rest))
          × (letters h qs ≡ (q.attribute, q.value) ∷ letters h rest)
          × ((g : ℕ) → g ≢ h → letters g rest ≡ letters g qs))
letters-split_first h [] = inl (refl, refl)
letters-split_first h (q ∷ qs) = elim (Bool-cases (nat_beq q.connection.handle h)) [
  | inl e ↦ inr (q, qs, rw e refl, rw e refl, λ g n. ground arith)
  | inr e ↦ elim (letters-split_first h qs) [
    | inl (f, k) ↦ inl (ground (arith, f), ground (arith, k))
    | inr (p, rest, f, k, others) ↦
        inr (p, q ∷ rest, ground (arith, f), ground (arith, k), λ g n. ground (arith, others g n))
  ]
]

module _ {App : Type 0} where
  -- What a state means to a client.
  abbrev pub mailbox : State App → Mailbox
  mailbox s h = letters h s.pending

  abbrev pub Keyed : State App → Type 0
  Keyed s = (h : ℕ) (c : GattConnection) → s.connections h ≡ some c → c.handle ≡ h

  -- With each connection under its own handle: accepting a notification posts it at the end of its
  -- connection's box, and changes no other box.
  pub mailbox-enqueue :
      (s s' : State App) (c : GattConnection) (uuid : Uuid) (value : List ℕ)
      → Keyed s
      → enqueue s c uuid value ≡ ok s'
      → (attr : Attribute App) × (find_uuid s uuid ≡ some attr)
        × (mailbox s' ≡ post c.handle (attr.handle, value) (mailbox s))
  mailbox-enqueue s s' c uuid value v e =
      let (current, attr, a, f) = (enqueue-Accepts s s' c uuid value).0 e in
      (
        attr,
        a.known,
        fun_ext (λ h. rw f (
            ground (
              arith,
              letters-append h s.pending
                  (record { connection = current; attribute = attr.handle; value = value } ∷ []),
              v c.handle current a.active,
              append-nil (letters h s.pending),
            ))),
      )

  -- Taking a notification for a connection takes the oldest of its box, and nothing when the box is
  -- empty; every other box stays.
  pub mailbox-next_pending :
      (s : State App) (handle : ℕ)
      → ((next_pending s handle ≡ none) × (mailbox s handle ≡ []))
        ⊎ ((q : Queued) × (s' : State App) × (next_pending s handle ≡ some (q, s'))
            × (mailbox s handle ≡ (q.attribute, q.value) ∷ mailbox s' handle)
            × ((g : ℕ) → g ≢ handle → mailbox s' g ≡ mailbox s g))
  unfolding take_removed
  mailbox-next_pending s handle = elim (letters-split_first handle s.pending) [
    | inl (e, f) ↦ inl (ground (arith, next_pending_lem s handle, e), f)
    | inr (q, rest, e, f, others) ↦
        inr
          (q, record s { pending = rest }, ground (arith, next_pending_lem s handle, e), f, others)
  ]

  -- A disconnection empties the box of its handle, and no other.
  pub mailbox-disconnect :
      (s : State App) (handle : ℕ) → mailbox (disconnect s handle) ≡ discard handle (mailbox s)
  mailbox-disconnect s handle = fun_ext λ g.
      rw (pending-disconnect s handle) (elim (Bool-cases (nat_beq handle g)) [
        | inl e ↦
            rw (← (nat_beq_iff handle g).0 e) (ground (arith, letters-retain_self handle s.pending))
        | inr e ↦ rw e (letters-retain_ne g handle s.pending (ground arith))
      ])
