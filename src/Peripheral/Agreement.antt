-- ===== src/Peripheral/Agreement.antt =====
-- The example and its server: the table of subscribers of examples/gatt-peripheral/src/main.rs against
-- the state of btstack-core/src/runtime.rs.
use mathlib.Core.List.{reverse-append}
use btstack_gatt_rs.Prelude.{
  ℕ, ◌≡◌, refl, Bool, true, false, List, [], ◌∷◌, Option, none, some, arith, reverse, All,
  flag_or_false, nat_eq, list_eq, list_beq, list_beq_iff, ap, sym, ◌∙◌, ◌↔◌,
}
use btstack_gatt_rs.Gatt.{
  GattConnection, notify, unsubscribed, ServerEvent, connected, disconnected, subscription_changed,
  notification_failed, error,
}
use btstack_gatt_rs.Runtime.{Attribute, State, find_attribute}
use btstack_gatt_rs.Runtime.Bridge.{Stack, Transport}
use btstack_gatt_rs.Runtime.Bridge.Worker.{Worker}
use btstack_gatt_rs.Runtime.Loop.{goes}
use btstack_gatt_rs.Runtime.History.{told, decide, verdict}
use btstack_gatt_rs.Runtime.History.Moves.{Steps}
use btstack_gatt_rs.Runtime.History.Steps.{Logged, told-Steps}
use btstack_gatt_rs.Runtime.History.Lifecycle.{unknown}
use btstack_gatt_rs.Runtime.History.Lifecycle.Steps.{IsFollowed, life-Steps}
use btstack_gatt_rs.Peripheral.Live.{latest_generation, told_alive}
use btstack_gatt_rs.Peripheral.{Round, Serving, serve_loop, tx}
use btstack_gatt_rs.Peripheral.Subscribers.{lookup, latest, latest-append, heard, serve_loop-latest}
use btstack_gatt_rs.Peripheral.Rate.{at_start}

abbrev pub is_there : Option GattConnection → Bool
is_there none = false
is_there (some c) = true

-- A subscription is to `tx`: it is the one characteristic of the example that notifies.
abbrev pub OnlyTx : ServerEvent → Type 0
OnlyTx (subscription_changed c uuid kind) = uuid ≡ tx
OnlyTx (disconnected c) = Unit
OnlyTx (connected c) = Unit
OnlyTx (notification_failed c code) = Unit
OnlyTx (error e) = Unit

one_event :
    (g : ℕ) (e : ServerEvent) (before : Option GattConnection)
    → OnlyTx e
    → is_there (latest g (e ∷ []) before) ≡ decide (verdict g tx e) (is_there before)
unfolding latest
one_event g (subscription_changed c uuid notify) before o =
    let same : list_beq uuid tx ≡ true = (list_beq_iff uuid tx).1 o in ground (arith, same)
one_event g (subscription_changed c uuid unsubscribed) before o =
    let same : list_beq uuid tx ≡ true = (list_beq_iff uuid tx).1 o in ground (arith, same)
one_event g (disconnected c) before o = ground arith
one_event g (connected c) before o = refl
one_event g (notification_failed c code) before o = refl
one_event g (error e) before o = refl

latest-told :
    (g : ℕ) (es : List ServerEvent) (before : Option GattConnection)
    → All OnlyTx es
    → is_there (latest g (reverse es) before) ≡ told g tx (is_there before) es
unfolding told latest
latest-told g [] before o = refl
latest-told g (e ∷ es) before (o, others) =
    ap (λ xs. is_there (latest g xs before)) (reverse-append (e ∷ []) es)
    ∙ ap is_there (latest-append g (reverse es) (e ∷ []) before)
    ∙ latest-told g es (latest g (e ∷ []) before) others
    ∙ ap (λ b. told g tx b es) (one_event g e before o)

there_lem :
    (found : Option GattConnection)
    → is_there found ≡ true
    → (d : GattConnection) × (found ≡ some d)
there_lem none e = cc
there_lem (some d) e = (d, refl)

-- The connection is live and subscribed to the characteristic at this handle.
abbrev pub Subscribes : {App : Type 0} → State App → ℕ → ℕ → Type 0
Subscribes s g value_handle =
    (h : ℕ) × (c : GattConnection) × (s.connections h ≡ some c)
    × (c.generation ≡ g)
    × (flag_or_false (s.subscriptions (h, value_handle)) ≡ true)

module _ {K : Stack} {R : Transport} {App : Type 0} where
  -- The example with its server, over any run of both: once the loop has received all events that the
  -- thread has sent, its table has an entry under an id exactly if a live connection of that id is
  -- subscribed to `tx` in the state of the server, and the entry is then a connection of that id. So
  -- nothing is left of connections that have gone or unsubscribed. (The events agree with the tables at
  -- first, as in `told-Steps` and `life-Steps`; the server has `tx`, and all subscriptions are to it.)
  pub serve_loop-told :
      (order : List GattConnection → List GattConnection) (seconds : Option ℕ) (tick : ℕ)
      (rounds : List Round) (x : Serving) (w v : Worker K R App) (n g : ℕ) (a : Attribute App)
      → serve_loop order seconds rounds (at_start tick) ≡ goes x
      → heard rounds ≡ v.state.events
      → All OnlyTx v.state.events
      → Steps w v
      → Logged w
      → IsFollowed w.state w.generation
      → find_attribute v.state n ≡ some a
      → a.characteristic.uuid ≡ tx
      → ((d : GattConnection) × (lookup g x.subscribers ≡ some d) × (d.generation ≡ g))
        ↔ Subscribes v.state g a.handle
  serve_loop-told order seconds tick rounds x w v n g a s q o r l followed f u =
      let table : lookup g x.subscribers ≡ latest g (reverse v.state.events) none =
        serve_loop-latest order seconds g rounds (at_start tick) x s
        ∙ ap (λ es. latest g (reverse es) none) q in
      let known : is_there (lookup g x.subscribers) ≡ told g tx false v.state.events =
        ap is_there table ∙ latest-told g v.state.events none o in
      let (whole, living) = life-Steps w v r followed g in
      (
        λ (d, e, i).
            let t : told g tx false v.state.events ≡ true = sym known ∙ ap is_there e in
            let (h, c, j, k) =
              living.0 (told_alive g tx v.state.events false unknown whole (λ b. cc) t) in
            (
              h,
              c,
              j,
              k,
              sym (told-Steps w v h n c a r l j f)
                  ∙ ap (λ t. told c.generation t false v.state.events) u
                  ∙ ap (λ m. told m tx false v.state.events) k
                  ∙ t,
            ),
        λ (h, c, j, k, b).
            let t : told g tx false v.state.events ≡ true =
              ap (λ m. told m tx false v.state.events) (sym k)
              ∙ ap (λ t. told c.generation t false v.state.events) (sym u)
              ∙ told-Steps w v h n c a r l j f
              ∙ b in
            let (d, e) = there_lem (lookup g x.subscribers) (known ∙ t) in
            (d, e, latest_generation g (reverse v.state.events) d (sym table ∙ e)),
      )
