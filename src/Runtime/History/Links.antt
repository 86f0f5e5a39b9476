-- ===== src/Runtime/History/Links.antt =====
-- What the changes of the tables of btstack-core/src/runtime.rs tell the application.
use btstack_gatt_rs.Prelude.{
  List, ok, refl, ℕ, ◌+◌, ◌<◌, ◌≡◌, Bool, false, [], ◌∷◌, ◌++◌, Option, none, some, arith,
  if◌then◌else◌, nat_eq, pair_eq, list_eq, nat_beq, subst, sym, ◌∙◌, Bool-cases, inl, inr,
}
use btstack_gatt_rs.Gatt.{
  GattConnection, notify, unsubscribed, connected, subscription_changed, notification_failed,
}
use btstack_gatt_rs.Runtime.{Attribute, State, find_attribute}
use btstack_gatt_rs.Runtime.Link.{connect, disconnect, exchange_mtu, set_mtu, u64_mod}
use btstack_gatt_rs.Runtime.Link.Tables.{disconnect_lem}
use btstack_gatt_rs.Runtime.Drain.Generations.{
  Unique, connect-Unique, disconnect-Unique, set_mtu-Unique,
}
use btstack_gatt_rs.Runtime.Write.{subscribe}
use btstack_gatt_rs.Types.{Uuid}
use btstack_gatt_rs.Runtime.Notify.{enqueue}
use btstack_gatt_rs.Runtime.Invariant.Queue.{next_pending-rest}
use btstack_gatt_rs.Runtime.History.Stable.{Stable}
use btstack_gatt_rs.Runtime.History.{told-snoc, told_farewell_other, same_generation, HasLog}

module _ {App : Type 0} where
  subscribe-Log :
      (s : State App) (counter h x : ℕ) (c : GattConnection) (a : Attribute App) (b : Bool)
      → s.connections h ≡ some c
      → find_attribute s x ≡ some a
      → HasLog s counter
      → HasLog (subscribe s c a h x b) counter
  unfolding subscribe find_attribute
  subscribe-Log s counter h x c a b e f v = record {
    agrees = λ k y d t i j.
        let now =
          told-snoc d.generation t.characteristic.uuid false s.events
            (subscription_changed c a.characteristic.uuid (if b then notify else unsubscribed)) in
        let g = same_generation s.connections counter h k c d v.unique e i in
        let u = v.distinct x y a t f j in rw (now, g, u) (ground (arith, v.agrees k y d t i j));
    ahead = λ g uuid l.
        rw
          (told-snoc g uuid false s.events
            (subscription_changed c a.characteristic.uuid (if b then notify else unsubscribed)))
          (ground (arith, l, v.ahead g uuid l, v.unique.below h c e));
    idle = λ k j n. ground (arith, v.idle k j n, e, n);
    unique = v.unique;
    distinct = v.distinct;
  }

  -- A new connection has a handle that no live one has.
  connect-Log :
      (s : State App) (counter handle mtu : ℕ)
      → counter + 1 < u64_mod
      → s.connections handle ≡ none
      → HasLog s counter
      → let (s', counter') = connect s counter handle mtu in HasLog s' counter'
  unfolding connect
  connect-Log s counter handle mtu room free v =
      let c : GattConnection = record { handle = handle; generation = counter; mtu = mtu } in
      record {
        agrees = λ k y d t i j.
            rw (told-snoc d.generation t.characteristic.uuid false s.events (connected c))
              (elim (Bool-cases (nat_beq handle k)) [
                | inl q ↦
                    let same : handle ≡ k = ground (arith, q) in
                    let g : d.generation ≡ counter = ground (arith, i, q) in
                    rw (g, ← same)
                      (v.idle handle t.handle free
                        ∙ sym (v.ahead counter t.characteristic.uuid (omega arith)))
                | inr q ↦ v.agrees k y d t (ground (arith, i, q)) j
              ]);
        ahead = λ g uuid l.
            rw (told-snoc g uuid false s.events (connected c))
              (v.ahead g uuid (ground (arith, l, room)));
        idle = λ k j n. ground (arith, v.idle k j, n);
        unique = connect-Unique s counter handle mtu room v.unique;
        distinct = v.distinct;
      }

  disconnect-Log :
      (s : State App) (counter handle : ℕ) → HasLog s counter → HasLog (disconnect s handle) counter
  disconnect-Log s counter handle v = rw (disconnect_lem s handle) (record {
    agrees = λ k y d t i j.
        let n : nat_beq handle k ≡ false = ground (arith, i) in
        let live : s.connections k ≡ some d = ground (arith, i) in
        let kept =
          told_farewell_other d.generation t.characteristic.uuid s.events (s.connections handle)
            (λ x e. same_generation s.connections counter handle k x d v.unique e live ∙ n) in
        rw kept (ground (arith, n, v.agrees k y d t live j));
    ahead = λ g uuid l.
        told_farewell_other g uuid s.events (s.connections handle)
          (λ x e. ground (arith, l, v.unique.below handle x e))
        ∙ v.ahead g uuid l;
    idle = λ k j n. ground (arith, n, v.idle k j);
    unique =
        subst (λ (u : State App). Unique u.connections counter) (disconnect_lem s handle)
          (disconnect-Unique s counter handle v.unique);
    distinct = v.distinct;
  })

  set_mtu-Log :
      (s : State App) (counter handle mtu : ℕ) (found : Option GattConnection)
      → s.connections handle ≡ found
      → HasLog s counter
      → HasLog (set_mtu s handle mtu found) counter
  unfolding set_mtu
  set_mtu-Log s counter handle mtu none e v = v
  set_mtu-Log s counter handle mtu (some x) e v = record {
    agrees = λ k y d t i j. elim (Bool-cases (nat_beq handle k)) [
      | inl q ↦
          let same : handle ≡ k = ground (arith, q) in
          let g : d.generation ≡ x.generation = ground (arith, i, q) in
          rw (g, ← same) (v.agrees handle y x t e j)
      | inr q ↦ v.agrees k y d t (ground (arith, i, q)) j
    ];
    ahead = v.ahead;
    idle = λ k j n. ground (arith, v.idle k j, e, n);
    unique = set_mtu-Unique s counter handle mtu (some x) e v.unique;
    distinct = v.distinct;
  }

  failure-Log :
      (s : State App) (counter : ℕ) (c : GattConnection) (status : ℕ)
      → HasLog s counter
      → HasLog (record s { events = s.events ++ notification_failed c status ∷ [] }) counter
  failure-Log s counter c status v = record {
    agrees = λ k y d t i j.
        rw
          (told-snoc d.generation t.characteristic.uuid false s.events
            (notification_failed c status))
          (v.agrees k y d t i j);
    ahead = λ g uuid l.
        rw (told-snoc g uuid false s.events (notification_failed c status)) (v.ahead g uuid l);
    idle = v.idle;
    unique = v.unique;
    distinct = v.distinct;
  }

  pub enqueue_rest :
      (s t : State App) (c : GattConnection) (uuid : Uuid) (value : List ℕ)
      → enqueue s c uuid value ≡ ok t
      → t ≡ record s { pending = t.pending }
  unfolding enqueue
  enqueue_rest s t c uuid value e = ground (arith, e)

  exchange_mtu-Log :
      (s : State App) (n handle mtu : ℕ) → HasLog s n → HasLog (exchange_mtu s handle mtu) n
  unfolding exchange_mtu
  exchange_mtu-Log s n handle mtu v = set_mtu-Log s n handle mtu (s.connections handle) refl v

  pub Log-Stable : Stable {App = App} HasLog (λ m c. Unit {0})
  Log-Stable = record {
    caches = λ s n r v. v;
    subscribes = λ s n h x c a b e f v. subscribe-Log s n h x c a b e f v;
    connects = λ s n handle mtu room free v. connect-Log s n handle mtu room free v;
    disconnects = λ s n handle v. disconnect-Log s n handle v;
    exchanges = λ s n handle mtu v. exchange_mtu-Log s n handle mtu v;
    queues = λ s t n c uuid value e v. rw (enqueue_rest s t c uuid value e) v;
    takes = λ s t n handle q e v. (rw (next_pending-rest s t handle q e) v, tt);
    fails = λ s n c status o v. failure-Log s n c status v;
  }
