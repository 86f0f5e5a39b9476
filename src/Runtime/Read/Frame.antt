-- ===== src/Runtime/Read/Frame.antt =====
-- What `read` of btstack-core/src/runtime.rs leaves alone.
use btstack_gatt_rs.Prelude.{ℕ, ◌≡◌, refl, Bool, List, ok, err, Result, Outcome, returned, panicked}
use btstack_gatt_rs.Runtime.{State}
use btstack_gatt_rs.Runtime.Read.{read, store, fetch}
use btstack_gatt_rs.Runtime.Read.Cases.{read_body_cases}

module _ {App : Type 0} where
  -- Only the snapshots change.
  pub record OnlyReads (s s' : State App) : Type 0 where
    pub attributes : s'.attributes ≡ s.attributes
    pub connections : s'.connections ≡ s.connections
    pub subscriptions : s'.subscriptions ≡ s.subscriptions
    pub pending : s'.pending ≡ s.pending
    pub events : s'.events ≡ s.events

  same-OnlyReads : (s : State App) → OnlyReads s s
  same-OnlyReads s = record {
    attributes = refl;
    connections = refl;
    subscriptions = refl;
    pending = refl;
    events = refl;
  }

  store-OnlyReads :
      (s : State App) (r : App × Outcome (Result (List ℕ) ℕ)) (key : ℕ × ℕ) (offset : ℕ)
      (null : Bool) (size : ℕ)
      → OnlyReads s (store s r key offset null size).0
  unfolding store
  store-OnlyReads s (app, returned (ok value)) key offset null size = record {
    attributes = refl;
    connections = refl;
    subscriptions = refl;
    pending = refl;
    events = refl;
  }
  store-OnlyReads s (app, returned (err code)) key offset null size = same-OnlyReads s
  store-OnlyReads s (app, panicked) key offset null size = same-OnlyReads s

  pub read-OnlyReads :
      (s : State App) (app : App) (connection attribute offset : ℕ) (null : Bool) (size : ℕ)
      → OnlyReads s (read s app connection attribute offset null size).0
  unfolding read
  read-OnlyReads s app connection attribute offset null size =
      read_body_cases (λ r. OnlyReads s r.0) s app connection attribute offset null size
        (same-OnlyReads s) (same-OnlyReads s)
        (λ c a e f.
          store-OnlyReads s (fetch s app c a connection attribute) (connection, attribute) offset
            null size)
        (λ value e f. same-OnlyReads s)

  pub pending-read :
      (s : State App) (app : App) (connection attribute offset : ℕ) (null : Bool) (size : ℕ)
      → (read s app connection attribute offset null size).0.pending ≡ s.pending
  pending-read s app connection attribute offset null size =
      (read-OnlyReads s app connection attribute offset null size).pending
