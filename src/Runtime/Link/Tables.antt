-- ===== src/Runtime/Link/Tables.antt =====
-- What the tables of btstack-core/src/runtime.rs hold after the events of a connection.
use mathlib.Core.List.{append-nil}
use btstack_gatt_rs.Prelude.{
  All-true, ℕ, ◌≡◌, ◌≢◌, refl, List, [], ◌∷◌, ◌++◌, Option, none, some, arith, retain, not, ◌==◌,
  nat_eq, pair_eq, retain_keys, remove_key, All, All-retain, ap, sym,
}
use btstack_gatt_rs.Gatt.{GattConnection, ServerEvent, disconnected}
use btstack_gatt_rs.Runtime.{Queued, State}
use btstack_gatt_rs.Runtime.Link.{connect, forget, disconnect, set_mtu, exchange_mtu}

-- The event of a disconnection, if the handle was connected.
abbrev pub farewell : Option GattConnection → List ServerEvent
farewell none = []
farewell (some c) = disconnected c ∷ []

module _ {App : Type 0} where
  forget-fields :
      (s : State App) (handle : ℕ) (found : Option GattConnection)
      → forget s handle found ≡ record s {
        connections = remove_key handle s.connections;
        events = s.events ++ farewell found;
      }
  unfolding forget
  forget-fields s handle none =
      ap
        (λ (es : List ServerEvent). record s {
          connections = remove_key handle s.connections;
          events = es;
        })
        (sym (append-nil s.events))
  forget-fields s handle (some c) = refl

  -- A disconnection, as one change of the tables.
  pub disconnect_lem :
      (s : State App) (handle : ℕ)
      → disconnect s handle ≡ record s {
        connections = remove_key handle s.connections;
        subscriptions = retain_keys (λ k. not (k.0 == handle)) s.subscriptions;
        reads = retain_keys (λ k. not (k.0 == handle)) s.reads;
        pending = retain (λ q. not (q.connection.handle == handle)) s.pending;
        events = s.events ++ farewell (s.connections handle);
      }
  unfolding disconnect
  disconnect_lem s handle = forget-fields _ handle (s.connections handle)

  pub pending-disconnect :
      (s : State App) (handle : ℕ)
      → (disconnect s handle).pending ≡ retain (λ q. not (q.connection.handle == handle)) s.pending
  pending-disconnect s handle = ap (λ (t : State App). t.pending) (disconnect_lem s handle)

  set_mtu-pending :
      (s : State App) (handle mtu : ℕ) (found : Option GattConnection)
      → (set_mtu s handle mtu found).pending ≡ s.pending
  unfolding set_mtu
  set_mtu-pending s handle mtu none = refl
  set_mtu-pending s handle mtu (some c) = refl

  pub pending-exchange_mtu :
      (s : State App) (handle mtu : ℕ) → (exchange_mtu s handle mtu).pending ≡ s.pending
  unfolding exchange_mtu
  pending-exchange_mtu s handle mtu = set_mtu-pending s handle mtu (s.connections handle)

  -- Nothing is kept for the handle, and nothing of the others is touched.
  pub record Cleared (handle : ℕ) (s s' : State App) : Type 0 where
    pub connection : s'.connections handle ≡ none
    pub subscriptions : (a : ℕ) → s'.subscriptions (handle, a) ≡ none
    pub reads : (a : ℕ) → s'.reads (handle, a) ≡ none
    pub pending : All (λ q. q.connection.handle ≢ handle) s'.pending
    pub others :
        (h : ℕ)
        → h ≢ handle
        → (s'.connections h ≡ s.connections h)
          × ((a : ℕ) → s'.subscriptions (h, a) ≡ s.subscriptions (h, a))
          × ((a : ℕ) → s'.reads (h, a) ≡ s.reads (h, a))
    pub attributes : s'.attributes ≡ s.attributes
    pub event : s'.events ≡ s.events ++ farewell (s.connections handle)

  -- After a disconnection nothing is kept for the handle: no connection, subscription, snapshot or
  -- queued notification. What is kept for other handles is unchanged, and the application is told of
  -- the connection that ended, if there was one.
  pub disconnect-Cleared : (s : State App) (handle : ℕ) → Cleared handle s (disconnect s handle)
  disconnect-Cleared s handle = rw (disconnect_lem s handle) (record {
    connection = ground arith;
    subscriptions = λ a. ground arith;
    reads = λ a. ground arith;
    pending =
        All-retain {P = λ q. Unit {0}} {Q = λ (q : Queued). q.connection.handle ≢ handle}
          (λ q. not (q.connection.handle == handle)) s.pending (λ q t u. ground arith)
          (All-true s.pending);
    others = λ h n. (ground arith, (λ a. ground arith), λ a. ground arith);
    attributes = refl;
    event = refl;
  })

  -- A new connection on a handle that was disconnected starts with no subscription and no snapshot, and
  -- under the next generation, so that the old one stays stale.
  pub connect_afresh :
      (s : State App) (generation handle mtu attribute : ℕ)
      → let s' = (connect (disconnect s handle) generation handle mtu).0 in
        (s'.subscriptions (handle, attribute) ≡ none)
        × (s'.reads (handle, attribute) ≡ none)
        × (s'.connections handle
            ≡ some (record { handle = handle; generation = generation; mtu = mtu }))
  unfolding connect
  connect_afresh s generation handle mtu attribute =
      let c = disconnect-Cleared s handle in
      (c.subscriptions attribute, c.reads attribute, ground arith)
