-- ===== src/Runtime/Invariant/Links.antt =====
-- The invariant under the events of a connection (btstack-core/src/runtime.rs, arms 3, 4 and 7).
use btstack_gatt_rs.Prelude.{
  ℕ, Bool, ◌≡◌, ◌≢◌, Option, none, some, All, All-mono, All-retain, arith, refl, length-retain-le,
  retain, ◌==◌, nat_eq, not,
}
use btstack_gatt_rs.Gatt.{GattConnection}
use btstack_gatt_rs.Runtime.{Queued, State}
use btstack_gatt_rs.Runtime.Link.{connect, forget, disconnect, set_mtu, exchange_mtu}
use btstack_gatt_rs.Runtime.Invariant.{Fits, Inv}

module _ {App : Type 0} where
  pub connect-Inv :
      (s : State App) (generation handle mtu : ℕ) → Inv s → Inv (connect s generation handle mtu).0
  unfolding connect
  connect-Inv s generation handle mtu v = record {
    keyed = λ h c e. ground (arith, v.keyed h c);
    subscribed = λ h a b e. ground (arith, v.subscribed h a b e);
    cached = λ h a b e. ground (arith, v.cached h a b e);
    queued =
        All-mono s.pending (λ q f. record { live = ground (arith, f.live); fits = f.fits })
          v.queued;
    bounded = v.bounded;
  }

  set_mtu-Inv :
      (s : State App) (handle mtu : ℕ) (found : Option GattConnection)
      → s.connections handle ≡ found
      → Inv s
      → Inv (set_mtu s handle mtu found)
  unfolding set_mtu
  set_mtu-Inv s handle mtu none e v = v
  set_mtu-Inv s handle mtu (some d) e v = record {
    keyed = λ h c f. ground (arith, v.keyed h c, v.keyed h d);
    subscribed = λ h a b f. ground (arith, v.subscribed h a b f);
    cached = λ h a b f. ground (arith, v.cached h a b f);
    queued =
        All-mono s.pending (λ q f. record { live = ground (arith, f.live); fits = f.fits })
          v.queued;
    bounded = v.bounded;
  }

  pub exchange_mtu-Inv : (s : State App) (handle mtu : ℕ) → Inv s → Inv (exchange_mtu s handle mtu)
  unfolding exchange_mtu
  exchange_mtu-Inv s handle mtu v = set_mtu-Inv s handle mtu (s.connections handle) refl v

  abbrev Apart : State App → ℕ → Queued → Type 0
  Apart s handle q = Fits s q × (q.connection.handle ≢ handle)

  -- A state in which nothing is kept for the handle may lose its connection.
  forget-Inv :
      (s : State App) (handle : ℕ) (found : Option GattConnection)
      → Inv s
      → ((a : ℕ) → s.subscriptions (handle, a) ≡ none)
      → ((a : ℕ) → s.reads (handle, a) ≡ none)
      → All (Apart s handle) s.pending
      → Inv (forget s handle found)
  unfolding forget
  forget-Inv s handle none v ns nr np = record {
    keyed = λ h c e. ground (arith, v.keyed h c);
    subscribed = λ h a b e. ground (arith, v.subscribed h a b e, ns a);
    cached = λ h a b e. ground (arith, v.cached h a b e, nr a);
    queued =
        All-mono s.pending (λ q f. record { live = ground (arith, f.0.live, f.1); fits = f.0.fits })
          np;
    bounded = v.bounded;
  }
  forget-Inv s handle (some d) v ns nr np = record {
    keyed = λ h c e. ground (arith, v.keyed h c);
    subscribed = λ h a b e. ground (arith, v.subscribed h a b e, ns a);
    cached = λ h a b e. ground (arith, v.cached h a b e, nr a);
    queued =
        All-mono s.pending (λ q f. record { live = ground (arith, f.0.live, f.1); fits = f.0.fits })
          np;
    bounded = v.bounded;
  }

  pub disconnect-Inv : (s : State App) (handle : ℕ) → Inv s → Inv (disconnect s handle)
  unfolding disconnect
  disconnect-Inv s handle v =
      let other : Queued → Bool = λ q. not (q.connection.handle == handle) in
      let apart : All (Apart s handle) (retain other s.pending) =
        All-retain other s.pending (λ q t f. (f, ground arith)) v.queued in
      forget-Inv _ handle (s.connections handle)
        (record {
          keyed = v.keyed;
          subscribed = λ h a b e. ground (arith, v.subscribed h a b);
          cached = λ h a b e. ground (arith, v.cached h a b);
          queued =
              All-mono (retain other s.pending) (λ q f. record { live = f.0.live; fits = f.0.fits })
                apart;
          bounded = omega (arith, v.bounded, length-retain-le other s.pending);
        })
        (λ a. ground arith) (λ a. ground arith)
        (All-mono (retain other s.pending)
          (λ q f. (record { live = f.0.live; fits = f.0.fits }, f.1)) apart)
