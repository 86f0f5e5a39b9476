-- ===== src/Runtime/Invariant/Queue.antt =====
-- The invariant under the queue of notifications (btstack-core/src/runtime.rs, `Command::Notify` and
-- `flush_notification`).
use btstack_gatt_rs.Prelude.{
  ℕ, ◌≡◌, List, [], ◌∷◌, some, ok, All, All-mono, All-true, All-append, arith, Option-cases, inl,
  inr, refl, split_first, remove_at-position, Bool, length, length-append, ◌≤◌, suc, ◌==◌, nat_eq,
  Bool-cases, true,
}
use btstack_gatt_rs.Types.{Uuid}
use btstack_gatt_rs.Gatt.{GattConnection}
use btstack_gatt_rs.Runtime.{Queued, State, Attribute}
use btstack_gatt_rs.Runtime.Link.{next_pending, take_removed}
use btstack_gatt_rs.Runtime.Notify.{enqueue}
use btstack_gatt_rs.Runtime.Acceptance.{Accepts, queue_up, enqueue-Accepts}
use btstack_gatt_rs.Runtime.Invariant.{Fits, Inv}

-- Whatever is split off, the rest is no longer and keeps its properties.
split_first-All {ℓ κ} :
    {A : Type ℓ} (P : A → Type κ) (p : A → Bool) (xs : List A) (x : A) (rest : List A)
    → All P xs
    → split_first p xs ≡ some (x, rest)
    → P x × All P rest × (length xs ≡ suc (length rest)) × (p x ≡ true)
split_first-All P p [] x rest h e = cc
split_first-All P p (y ∷ ys) x rest h e = elim (Bool-cases (p y)) [
  | inl t ↦ ground arith
  | inr f ↦ elim (Option-cases (split_first p ys)) [
    | inl g ↦ absurd (ground arith)
    | inr ((z, zs), g) ↦ let r = split_first-All P p ys z zs h.1 g in ground (arith, r, h.0)
  ]
]

module _ {App : Type 0} where
  -- `next_pending` takes the first entry of the connection, and leaves the others in their order.
  pub next_pending_lem :
      (s : State App) (handle : ℕ)
      → next_pending s handle
        ≡ take_removed s (split_first (λ q. q.connection.handle == handle) s.pending)
  unfolding next_pending
  next_pending_lem s handle = rw (remove_at-position (λ q. q.connection.handle == handle) s.pending)

  queue_up-Inv :
      (s : State App) (c current : GattConnection) (uuid : Uuid) (attr : Attribute App)
      (value : List ℕ)
      → Inv s
      → Accepts s c current uuid attr value
      → Inv (queue_up s current attr value)
  queue_up-Inv s c current uuid attr value v a = record {
    keyed = v.keyed;
    subscribed = v.subscribed;
    cached = v.cached;
    queued = (All-append (Fits (queue_up s current attr value)) s.pending _).1 (
      All-mono s.pending (λ q f. record { live = f.live; fits = f.fits }) v.queued,
      (record { live = ground (arith, a.active, v.keyed c.handle current); fits = a.fits }, tt),
    );
    bounded = omega (arith, length-append {0} s.pending, a.room);
  }

  pub enqueue-Inv :
      (s s' : State App) (c : GattConnection) (uuid : Uuid) (value : List ℕ)
      → Inv s
      → enqueue s c uuid value ≡ ok s'
      → Inv s'
  enqueue-Inv s s' c uuid value v e =
      let (current, attr, a, f) = (enqueue-Accepts s s' c uuid value).0 e in
      rw f (queue_up-Inv s c current uuid attr value v a)

  shrink-Inv :
      (s : State App) (rest : List Queued)
      → Inv s
      → All (Fits s) rest
      → length rest ≤ 128
      → Inv (record s { pending = rest })
  shrink-Inv s rest v h l = record {
    keyed = v.keyed;
    subscribed = v.subscribed;
    cached = v.cached;
    queued = All-mono rest (λ q f. record { live = f.live; fits = f.fits }) h;
    bounded = l;
  }

  -- Taking from the queue shortens it by one.
  pub next_pending-Inv :
      (s s' : State App) (handle : ℕ) (q : Queued)
      → Inv s
      → next_pending s handle ≡ some (q, s')
      → Inv s'
        × Fits s q
        × (q.connection.handle ≡ handle)
        × (length s.pending ≡ suc (length s'.pending))
        × (s' ≡ record s { pending = s'.pending })
  unfolding take_removed
  next_pending-Inv s s' handle q v e =
      elim (Option-cases (split_first (λ (p : Queued). p.connection.handle == handle) s.pending)) [
        | inl g ↦ absurd (ground (arith, next_pending_lem s handle))
        | inr ((p, rest), g) ↦
            let r =
              split_first-All (Fits s) (λ (p : Queued). p.connection.handle == handle) s.pending p
                rest v.queued g in
            let same : s' ≡ record s { pending = rest } =
              ground (arith, next_pending_lem s handle) in
            let taken : q ≡ p = ground (arith, next_pending_lem s handle) in
            rw (same, taken)
              (
                shrink-Inv s rest v r.1 (omega (arith, r.2, v.bounded)),
                r.0,
                ground (arith, r.3),
                r.2,
                refl,
              )
      ]

  -- The queue as it shortens, whatever state it is in.
  pub length-next_pending :
      (s s' : State App) (handle : ℕ) (q : Queued)
      → next_pending s handle ≡ some (q, s')
      → length s.pending ≡ suc (length s'.pending)
  unfolding take_removed
  length-next_pending s s' handle q e =
      elim (Option-cases (split_first (λ (p : Queued). p.connection.handle == handle) s.pending)) [
        | inl g ↦ absurd (ground (arith, next_pending_lem s handle))
        | inr ((p, rest), g) ↦
            let r =
              split_first-All (λ x. Unit {0}) (λ (p : Queued). p.connection.handle == handle)
                s.pending p rest (All-true s.pending) g in
            let same : s' ≡ record s { pending = rest } =
              ground (arith, next_pending_lem s handle) in
            rw same r.2
      ]

  -- What holds of all entries holds of the one that is taken and of the rest.
  pub next_pending-All :
      (P : Queued → Type 0) (s s' : State App) (handle : ℕ) (q : Queued)
      → All P s.pending
      → next_pending s handle ≡ some (q, s')
      → P q × All P s'.pending
  unfolding take_removed
  next_pending-All P s s' handle q h e =
      elim (Option-cases (split_first (λ (p : Queued). p.connection.handle == handle) s.pending)) [
        | inl g ↦ absurd (ground (arith, next_pending_lem s handle))
        | inr ((p, rest), g) ↦
            let r =
              split_first-All P (λ (p : Queued). p.connection.handle == handle) s.pending p rest h
                g in
            let same : s' ≡ record s { pending = rest } =
              ground (arith, next_pending_lem s handle) in
            let taken : q ≡ p = ground (arith, next_pending_lem s handle) in
            rw (same, taken) (r.0, r.1)
      ]

  -- Nothing but the queue changes.
  pub next_pending-rest :
      (s s' : State App) (handle : ℕ) (q : Queued)
      → next_pending s handle ≡ some (q, s')
      → s' ≡ record s { pending = s'.pending }
  unfolding take_removed
  next_pending-rest s s' handle q e =
      elim (Option-cases (split_first (λ (p : Queued). p.connection.handle == handle) s.pending)) [
        | inl g ↦ absurd (ground (arith, next_pending_lem s handle))
        | inr ((p, rest), g) ↦
            let same : s' ≡ record s { pending = rest } =
              ground (arith, next_pending_lem s handle) in
            rw same refl
      ]
