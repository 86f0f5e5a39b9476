-- ===== src/Runtime/History/Lifecycle/Steps.antt =====
-- The events of one connection are in order, over any run of the thread (btstack-core/src/runtime.rs).
use btstack_gatt_rs.Prelude.{
  ℕ, ◌+◌, ◌%◌, ◌<◌, ◌≡◌, ◌≢◌, ◌↔◌, refl, Bool, List, [], ◌∷◌, ◌++◌, Option, none, some, ok, arith,
  HashMap, All, All-mono, All-append, All-retain, not, ◌==◌, nat_eq, subst, if◌then◌else◌,
}
use btstack_gatt_rs.Types.{Uuid}
use btstack_gatt_rs.Gatt.{
  GattConnection, notify, unsubscribed, ServerEvent, subscription_changed, notification_failed,
}
use btstack_gatt_rs.Runtime.{Attribute, State, Queued}
use btstack_gatt_rs.Runtime.Notify.{enqueue}
use btstack_gatt_rs.Runtime.Acceptance.{enqueue-Accepts}
use btstack_gatt_rs.Runtime.Link.{connect, disconnect, exchange_mtu, set_mtu, next_pending, u64_mod}
use btstack_gatt_rs.Runtime.Link.Tables.{disconnect_lem}
use btstack_gatt_rs.Runtime.Invariant.Queue.{next_pending-All, next_pending-rest}
use btstack_gatt_rs.Runtime.Drain.Generations.{
  Unique, connect-Unique, disconnect-Unique, set_mtu-Unique,
}
use btstack_gatt_rs.Runtime.Write.{subscribe}
use btstack_gatt_rs.Runtime.Bridge.{Stack, Transport}
use btstack_gatt_rs.Runtime.Bridge.Worker.{Worker}
use btstack_gatt_rs.Runtime.History.Moves.{Steps}
use btstack_gatt_rs.Runtime.History.Stable.{Stable, Steps-Stable}
use btstack_gatt_rs.Runtime.History.Lifecycle.{unknown, alive, broken, life, IsLive, Owner, Lives}
use btstack_gatt_rs.Runtime.History.Lifecycle.Tables.{
  use-Lives, connect-Lives, disconnect-Lives, insert-IsLive, replace-Lives,
}

-- The lives of the connections; each connection under its own handle; and the queued notifications are
-- for live ones.
pub record Followed (connections : HashMap ℕ GattConnection) (pending : List Queued)
    (events : List ServerEvent) (counter : ℕ) : Type 0 where
  pub lives : Lives connections events counter
  pub keyed : (h : ℕ) (c : GattConnection) → connections h ≡ some c → c.handle ≡ h
  pub queued : All (λ q. IsLive connections q.connection) pending

module _ {App : Type 0} where
  abbrev pub IsFollowed : State App → ℕ → Type 0
  IsFollowed s n = Followed s.connections s.pending s.events n

  subscribe-Followed :
      (s : State App) (n h x : ℕ) (c : GattConnection) (a : Attribute App) (b : Bool)
      → s.connections h ≡ some c
      → IsFollowed s n
      → IsFollowed (subscribe s c a h x b) n
  unfolding subscribe
  subscribe-Followed s n h x c a b e v = record {
    lives =
        use-Lives s.connections s.events n h c c
          (subscription_changed c a.characteristic.uuid (if b then notify else unsubscribed)) e refl
          (λ g l. refl) v.lives;
    keyed = v.keyed;
    queued = v.queued;
  }

  connect-Followed :
      (s : State App) (n handle mtu : ℕ)
      → n + 1 < u64_mod
      → s.connections handle ≡ none
      → IsFollowed s n
      → let (s', n') = connect s n handle mtu in IsFollowed s' n'
  unfolding connect
  connect-Followed s n handle mtu room free v =
      let c : GattConnection = record { handle = handle; generation = n; mtu = mtu } in
      let next : (n + 1) % u64_mod ≡ n + 1 = omega (arith, room) in
      let u = connect-Unique s n handle mtu room v.lives.unique in
      record {
        lives =
            rw next
              (connect-Lives s.connections s.events n handle c free refl (rw (← next) u) v.lives);
        keyed = λ h d e. ground (arith, e, v.keyed h d);
        queued =
            All-mono s.pending
              (λ q l.
                insert-IsLive s.connections handle c q.connection
                  (λ x i. absurd (ground (arith, free, i))) l)
              v.queued;
      }

  disconnect-Followed :
      (s : State App) (n handle : ℕ) → IsFollowed s n → IsFollowed (disconnect s handle) n
  disconnect-Followed s n handle v = rw (disconnect_lem s handle) (record {
    lives =
        disconnect-Lives s.connections s.events n handle (s.connections handle) refl
          (subst (λ (t : State App). Unique t.connections n) (disconnect_lem s handle)
            (disconnect-Unique s n handle v.lives.unique))
          v.lives;
    keyed = λ h d e. ground (arith, e, v.keyed h d);
    queued =
        All-retain (λ (q : Queued). not (q.connection.handle == handle)) s.pending
          (λ q t (d, e, f). (d, ground (arith, t, e), f)) v.queued;
  })

  set_mtu-Followed :
      (s : State App) (n handle mtu : ℕ) (found : Option GattConnection)
      → s.connections handle ≡ found
      → IsFollowed s n
      → IsFollowed (set_mtu s handle mtu found) n
  unfolding set_mtu
  set_mtu-Followed s n handle mtu none e v = v
  set_mtu-Followed s n handle mtu (some x) e v = record {
    lives =
        replace-Lives s.connections s.events n handle (record x { mtu = mtu }) x e refl
          (set_mtu-Unique s n handle mtu (some x) e v.lives.unique) v.lives;
    keyed = λ h d i. ground (arith, i, e, v.keyed h d, v.keyed h x);
    queued =
        All-mono s.pending
          (λ q l.
            insert-IsLive s.connections handle (record x { mtu = mtu }) q.connection
              (λ y i. ground (arith, i, e)) l)
          v.queued;
  }

  queues-Followed :
      (s t : State App) (n : ℕ) (c : GattConnection) (uuid : Uuid) (value : List ℕ)
      → enqueue s c uuid value ≡ ok t
      → IsFollowed s n
      → IsFollowed t n
  queues-Followed s t n c uuid value e v =
      let (current, attr, a, f) = (enqueue-Accepts s t c uuid value).0 e in
      rw f (record {
        lives = v.lives;
        keyed = v.keyed;
        queued =
            (All-append (λ (q : Queued). IsLive s.connections q.connection) s.pending _).1
              (v.queued, ((current, ground (arith, a.active, v.keyed c.handle current), refl), tt));
      })

  exchange_mtu-Followed :
      (s : State App) (n handle mtu : ℕ) → IsFollowed s n → IsFollowed (exchange_mtu s handle mtu) n
  unfolding exchange_mtu
  exchange_mtu-Followed s n handle mtu v =
      set_mtu-Followed s n handle mtu (s.connections handle) refl v

  takes-Followed :
      (s t : State App) (n handle : ℕ) (q : Queued)
      → next_pending s handle ≡ some (q, t)
      → IsFollowed s n
      → IsFollowed t n × IsLive t.connections q.connection
  takes-Followed s t n handle q e v =
      let (known, rest) =
        next_pending-All (λ q. IsLive s.connections q.connection) s t handle q v.queued e in
      rw (next_pending-rest s t handle q e)
        (record { lives = v.lives; keyed = v.keyed; queued = rest }, known)

  fails-Followed :
      (s : State App) (n : ℕ) (c : GattConnection) (status : ℕ)
      → IsLive s.connections c
      → IsFollowed s n
      → IsFollowed (record s { events = s.events ++ notification_failed c status ∷ [] }) n
  fails-Followed s n c status (d, e, f) v = record {
    lives =
        use-Lives s.connections s.events n c.handle c d (notification_failed c status) e f
          (λ g l. refl) v.lives;
    keyed = v.keyed;
    queued = v.queued;
  }

  Followed-Stable : Stable {App = App} IsFollowed IsLive
  Followed-Stable = record {
    caches = λ s n r v. v;
    subscribes = λ s n h x c a b e f v. subscribe-Followed s n h x c a b e v;
    connects = λ s n handle mtu room free v. connect-Followed s n handle mtu room free v;
    disconnects = λ s n handle v. disconnect-Followed s n handle v;
    exchanges = λ s n handle mtu v. exchange_mtu-Followed s n handle mtu v;
    queues = λ s t n c uuid value e v. queues-Followed s t n c uuid value e v;
    takes = λ s t n handle q e v. takes-Followed s t n handle q e v;
    fails = λ s n c status o v. fails-Followed s n c status o v;
  }

-- For each connection that there ever was, the application is told in order: first that it began, then
-- of what happens on it, and last, if it has ended, that it ended, and nothing after that; and it has
-- been told of a beginning without an end exactly of the connections that the server now has. (It is
-- so at first; a new connection has a handle that is not in use, and the counter of connections does
-- not wrap.)
pub life-Steps :
    {K : Stack} {R : Transport} {App : Type 0} (w v : Worker K R App)
    → Steps w v
    → IsFollowed w.state w.generation
    → (g : ℕ)
    → (life g unknown v.state.events ≢ broken)
      × ((life g unknown v.state.events ≡ alive) ↔ Owner v.state.connections g)
life-Steps w v r f g =
    let l = (Steps-Stable Followed-Stable r f).lives in
    (
      l.whole g,
      (
        l.only g,
        λ (h, c, e, i). subst (λ k. life k unknown v.state.events ≡ alive) i (l.current h c e),
      ),
    )
