-- ===== src/Runtime/Write/Effects.antt =====
-- What `write` of btstack-core/src/runtime.rs changes, and what it leaves.
use btstack_gatt_rs.Prelude.{
  ℕ, ◌≡◌, ◌≢◌, Bool, List, some, Result, ok, err, Outcome, returned, panicked, arith, refl, ◌==◌,
  nat_eq, pair_eq, All-mono, remove_key,
}
use btstack_gatt_rs.Gatt.{GattConnection, GattStatus}
use btstack_gatt_rs.Runtime.{Attribute, State}
use btstack_gatt_rs.Runtime.Write.{caught, call_write, subscribe, accepted, write}
use btstack_gatt_rs.Runtime.Write.Cases.{write_body_cases}
use btstack_gatt_rs.Runtime.Invariant.{Inv}

module _ {App : Type 0} where
  uncache-Inv :
      (s : State App) (key : ℕ × ℕ) → Inv s → Inv (record s { reads = remove_key key s.reads })
  uncache-Inv s key v = record {
    keyed = v.keyed;
    subscribed = v.subscribed;
    cached = λ h a w e. ground (arith, v.cached h a w);
    queued = All-mono s.pending (λ q f. record { live = f.live; fits = f.fits }) v.queued;
    bounded = v.bounded;
  }

  subscribe-Inv :
      (s : State App) (c d : GattConnection) (a : Attribute App) (connection attribute : ℕ)
      (b : Bool)
      → Inv s
      → s.connections connection ≡ some d
      → Inv (subscribe s c a connection attribute b)
  unfolding subscribe
  subscribe-Inv s c d a connection attribute b v live = record {
    keyed = v.keyed;
    subscribed = λ h k e f. ground (arith, v.subscribed h k e, live);
    cached = λ h k w e. ground (arith, v.cached h k w);
    queued = All-mono s.pending (λ q f. record { live = f.live; fits = f.fits }) v.queued;
    bounded = v.bounded;
  }

  accepted-Inv :
      (s : State App) (r : App × Outcome (Result (Unit {0}) GattStatus)) (key : ℕ × ℕ)
      → Inv s
      → Inv (accepted s r key).0
  unfolding accepted
  accepted-Inv s (app, returned (ok u)) key v = uncache-Inv s key v
  accepted-Inv s (app, returned (err e)) key v = v
  accepted-Inv s (app, panicked) key v = v

  pub write-Inv :
      (s : State App) (app : App) (connection attribute mode offset : ℕ) (value : List ℕ)
      → Inv s
      → Inv (write s app connection attribute mode offset value).0
  unfolding write
  write-Inv s app connection attribute mode offset value v =
      write_body_cases (λ r. Inv r.0) s app connection attribute mode offset value (λ code n. v)
        (λ c a b e f h l w. subscribe-Inv s c c a connection attribute (b == 1) v e)
        (λ c a e f h l.
          accepted-Inv s (call_write a.characteristic.write c value app) (connection, attribute) v)

  -- What one peer's write leaves alone.
  pub record Isolated (connection : ℕ) (s s' : State App) : Type 0 where
    pub attributes : s'.attributes ≡ s.attributes
    pub connections : s'.connections ≡ s.connections
    pub pending : s'.pending ≡ s.pending
    pub subscriptions :
        (h a : ℕ) → h ≢ connection → s'.subscriptions (h, a) ≡ s.subscriptions (h, a)
    pub reads : (h a : ℕ) → h ≢ connection → s'.reads (h, a) ≡ s.reads (h, a)

  same-Isolated : (connection : ℕ) (s : State App) → Isolated connection s s
  same-Isolated connection s = record {
    attributes = refl;
    connections = refl;
    pending = refl;
    subscriptions = λ h a n. refl;
    reads = λ h a n. refl;
  }

  subscribe-Isolated :
      (s : State App) (c : GattConnection) (a : Attribute App) (connection attribute : ℕ) (b : Bool)
      → Isolated connection s (subscribe s c a connection attribute b)
  unfolding subscribe
  subscribe-Isolated s c a connection attribute b = record {
    attributes = refl;
    connections = refl;
    pending = refl;
    subscriptions = λ h k n. ground arith;
    reads = λ h k n. ground arith;
  }

  accepted-Isolated :
      (s : State App) (r : App × Outcome (Result (Unit {0}) GattStatus)) (connection attribute : ℕ)
      → Isolated connection s (accepted s r (connection, attribute)).0
  unfolding accepted
  accepted-Isolated s (app, returned (ok u)) connection attribute = record {
    attributes = refl;
    connections = refl;
    pending = refl;
    subscriptions = λ h k n. refl;
    reads = λ h k n. ground arith;
  }
  accepted-Isolated s (app, returned (err e)) connection attribute = same-Isolated connection s
  accepted-Isolated s (app, panicked) connection attribute = same-Isolated connection s

  -- A write of one peer never changes what another peer has subscribed to, nor its snapshots; the
  -- attributes, the connections and the queue of notifications stay as they are.
  pub write-Isolated :
      (s : State App) (app : App) (connection attribute mode offset : ℕ) (value : List ℕ)
      → Isolated connection s (write s app connection attribute mode offset value).0
  unfolding write
  write-Isolated s app connection attribute mode offset value =
      write_body_cases (λ r. Isolated connection s r.0) s app connection attribute mode offset value
        (λ code n. same-Isolated connection s)
        (λ c a b e f h l w. subscribe-Isolated s c a connection attribute (b == 1))
        (λ c a e f h l.
          accepted-Isolated s (call_write a.characteristic.write c value app) connection attribute)

  accepted_failed :
      (s : State App) (r : App × Outcome (Result (Unit {0}) GattStatus)) (key : ℕ × ℕ)
      → caught (accepted s r key).2 ≢ 0
      → (accepted s r key).0 ≡ s
  unfolding accepted
  accepted_failed s (app, returned (ok u)) key n = absurd (n refl)
  accepted_failed s (app, returned (err e)) key n = refl
  accepted_failed s (app, panicked) key n = refl

  -- A write that is answered with an error code changes nothing of the server's state: no
  -- subscription, no snapshot and no event.
  pub write_failed :
      (s : State App) (app : App) (connection attribute mode offset : ℕ) (value : List ℕ)
      → (write s app connection attribute mode offset value).2 ≢ 0
      → (write s app connection attribute mode offset value).0 ≡ s
  unfolding write
  write_failed s app connection attribute mode offset value =
      write_body_cases (λ r. caught r.2 ≢ 0 → r.0 ≡ s) s app connection attribute mode offset value
        (λ code n m. refl) (λ c a b e f h l w m. absurd (m refl))
        (λ c a e f h l m.
          accepted_failed s (call_write a.characteristic.write c value app) (connection, attribute)
            m)
