-- ===== src/Runtime/History/Stable.antt =====
-- What holds throughout the steps of the thread (btstack-core/src/runtime.rs), from what each change
-- of its tables keeps.
use btstack_gatt_rs.Prelude.{
  ℕ, ◌+◌, ◌<◌, ◌≡◌, inl, inr, Bool, List, [], ◌∷◌, ◌++◌, none, some, Result, ok, err, Outcome,
  returned, panicked, arith, HashMap, Bool-cases, Option-cases, Result-cases, flag_or_false,
  nat_beq, ◌==◌, nat_eq, subst, sym,
}
use btstack_gatt_rs.Types.{Uuid}
use btstack_gatt_rs.Gatt.{GattConnection, GattStatus, notification_failed}
use btstack_gatt_rs.Runtime.{Attribute, State, Queued, find_attribute}
use btstack_gatt_rs.Runtime.Read.{read}
use btstack_gatt_rs.Runtime.Read.Frame.{read-OnlyReads}
use btstack_gatt_rs.Runtime.Write.{call_write, accepted, subscribe, write}
use btstack_gatt_rs.Runtime.Write.Cases.{write_body_cases}
use btstack_gatt_rs.Runtime.Notify.{enqueue}
use btstack_gatt_rs.Runtime.Link.{
  connect, disconnect, exchange_mtu, u64_mod, next_pending, has_pending,
}
use btstack_gatt_rs.Runtime.Bridge.{Stack, Transport, Calls}
use btstack_gatt_rs.Runtime.Bridge.Worker.{Worker, Event, exec, exec_keeps, push_event, send}
use btstack_gatt_rs.Runtime.Drain.{
  Started, report_failure, transmit, request_more, flush_notification, on_link, on_event,
}
use btstack_gatt_rs.Runtime.Drain.Progress.{state-send}
use btstack_gatt_rs.Runtime.Drain.Safety.{on_event_cases}
use btstack_gatt_rs.Runtime.Drain.Generations.{generation-sent, exec-Same}
use btstack_gatt_rs.Runtime.Loop.{queued, on_notify}
use btstack_gatt_rs.Runtime.History.Moves.{
  Move, calls, handles, notifies, turns, Steps, start_of, later,
}

-- What keeps a property of the state and of the counter of connections: each change that the thread makes
-- of its tables. `Known` is what is known, from the connections alone, of a connection whose notification
-- has been taken from the queue.
pub record Stable {App : Type 0} (P : State App → ℕ → Type 0)
    (Known : HashMap ℕ GattConnection → GattConnection → Type 0) : Type 0 where
  pub caches :
      (s : State App) (n : ℕ) (r : HashMap (ℕ × ℕ) (List ℕ)) → P s n → P (record s { reads = r }) n
  pub subscribes :
      (s : State App) (n h x : ℕ) (c : GattConnection) (a : Attribute App) (b : Bool)
      → s.connections h ≡ some c
      → find_attribute s x ≡ some a
      → P s n
      → P (subscribe s c a h x b) n
  pub connects :
      (s : State App) (n handle mtu : ℕ)
      → n + 1 < u64_mod
      → s.connections handle ≡ none
      → P s n
      → let (s', n') = connect s n handle mtu in P s' n'
  pub disconnects : (s : State App) (n handle : ℕ) → P s n → P (disconnect s handle) n
  pub exchanges : (s : State App) (n handle mtu : ℕ) → P s n → P (exchange_mtu s handle mtu) n
  pub queues :
      (s t : State App) (n : ℕ) (c : GattConnection) (uuid : Uuid) (value : List ℕ)
      → enqueue s c uuid value ≡ ok t
      → P s n
      → P t n
  pub takes :
      (s t : State App) (n handle : ℕ) (q : Queued)
      → next_pending s handle ≡ some (q, t)
      → P s n
      → P t n × Known t.connections q.connection
  pub fails :
      (s : State App) (n : ℕ) (c : GattConnection) (status : ℕ)
      → Known s.connections c
      → P s n
      → P (record s { events = s.events ++ notification_failed c status ∷ [] }) n

module _ {App : Type 0} {P : State App → ℕ → Type 0}
    {Known : HashMap ℕ GattConnection → GattConnection → Type 0} (k : Stable P Known) where
  accepted-Stable :
      (s : State App) (n : ℕ) (r : App × Outcome (Result (Unit {0}) GattStatus)) (key : ℕ × ℕ)
      → P s n
      → P (accepted s r key).0 n
  unfolding accepted
  accepted-Stable s n (app, returned (ok u)) key v = k.caches s n _ v
  accepted-Stable s n (app, returned (err e)) key v = v
  accepted-Stable s n (app, panicked) key v = v

  write-Stable :
      (s : State App) (n : ℕ) (app : App) (connection attribute mode offset : ℕ) (value : List ℕ)
      → P s n
      → P (write s app connection attribute mode offset value).0 n
  unfolding write
  write-Stable s n app connection attribute mode offset value v =
      write_body_cases (λ r. P r.0 n) s app connection attribute mode offset value (λ code m. v)
        (λ c a b e f h l w. k.subscribes s n connection attribute c a (b == 1) e f v)
        (λ c a e f h l.
          accepted-Stable s n (call_write a.characteristic.write c value app)
            (connection, attribute) v)

  read-Stable :
      (s : State App) (n : ℕ) (app : App) (connection attribute offset : ℕ) (null : Bool) (size : ℕ)
      → P s n
      → P (read s app connection attribute offset null size).0 n
  read-Stable s n app connection attribute offset null size v =
      let t = (read s app connection attribute offset null size).0 in
      let o = read-OnlyReads s app connection attribute offset null size in
      let same : record s { reads = t.reads } ≡ t =
        ground (arith, o.attributes, o.connections, o.subscriptions, o.pending, o.events) in
      subst (λ (u : State App). P u n) same (k.caches s n t.reads v)

  module _ {K : Stack} {R : Transport} where
    abbrev Holds : Worker K R App → Type 0
    Holds w = P w.state w.generation

    exec-Stable :
        {A : Type 0} (calls : Calls K.S A) (w : Worker K R App) → Holds w → Holds (exec calls w).0
    unfolding push_event send
    exec-Stable cs w =
        exec_keeps Holds (λ v c a o n z. read-Stable v.state v.generation v.app c a o n z)
          (λ v c a m o x. write-Stable v.state v.generation v.app c a m o x) (λ v i j x h. h)
          (λ v i p h. rw (state-send v i p, generation-sent v (R.send i p v.transport)) h)
          (λ v s h. h) cs w

    report_failure-Stable :
        (w : Worker K R App) (q : Queued) (status : ℕ)
        → Known w.state.connections q.connection
        → Holds w
        → Holds (report_failure w q status)
    unfolding report_failure
    report_failure-Stable w q status o v = elim (Bool-cases (nat_beq status 0)) [
      | inl e ↦ rw (e, report_failure) v
      | inr e ↦ rw (e, report_failure) (k.fails w.state w.generation q.connection status o v)
    ]

    transmit-Stable :
        (w : Worker K R App) (handle : ℕ) (q : Queued)
        → Known w.state.connections q.connection
        → Holds w
        → Holds (transmit w handle q)
    unfolding transmit
    transmit-Stable w handle q o v =
        elim (Bool-cases (flag_or_false (w.state.subscriptions (handle, q.attribute)))) [
          | inl e ↦
              let c = K.notify handle q.attribute q.value w.stack in
              let r = exec c w in
              rw (e, transmit)
                (report_failure-Stable r.0 q r.1
                  (subst (λ m. Known m q.connection) (sym (exec-Same c w).0) o) (exec-Stable c w v))
          | inr e ↦ rw (e, transmit) v
        ]

    request_more-Stable :
        (w : Worker K R App) (handle : ℕ) → Holds w → Holds (request_more w handle)
    unfolding request_more
    request_more-Stable w handle v = elim (Bool-cases (has_pending w.state handle)) [
      | inl e ↦ rw (e, request_more) (exec-Stable (K.request_send handle w.stack) w v)
      | inr e ↦ rw (e, request_more) v
    ]

    flush_notification-Stable :
        (w : Worker K R App) (handle : ℕ) → Holds w → Holds (flush_notification w handle)
    unfolding flush_notification
    flush_notification-Stable w handle v = elim (Option-cases (next_pending w.state handle)) [
      | inl e ↦ rw (e, flush_notification) v
      | inr ((q, s), e) ↦
          let w' = record w { state = s } in
          let (kept, o) = k.takes w.state s w.generation handle q e v in
          rw (e, flush_notification)
            (request_more-Stable (transmit w' handle q) handle (transmit-Stable w' handle q o kept))
    ]

    on_link-Stable :
        (w : Worker K R App) (e : Event)
        → w.generation + 1 < u64_mod
        → (e.kind ≡ 3 → w.state.connections e.handle ≡ none)
        → Holds w
        → Holds (on_link w e)
    unfolding on_link
    on_link-Stable w e room free v = elim (Bool-cases (nat_beq e.kind 3)) [
      | inl a ↦
          rw (a, on_link)
            (k.connects w.state w.generation e.handle e.value room (free (ground (arith, a))) v)
      | inr a ↦ elim (Bool-cases (nat_beq e.kind 4)) [
        | inl b ↦ rw (a, b, on_link) (k.disconnects w.state w.generation e.handle v)
        | inr b ↦ rw (a, b, on_link) (k.exchanges w.state w.generation e.handle e.value v)
      ]
    ]

    on_event-Stable :
        (w v : Worker K R App) (b b' : Started) (e : Event)
        → w.generation + 1 < u64_mod
        → (e.kind ≡ 3 → w.state.connections e.handle ≡ none)
        → on_event w b e ≡ ok (v, b')
        → Holds w
        → Holds v
    on_event-Stable w v b b' e room free h l = elim (on_event_cases w v b b' e h) [
      | inl f ↦ rw f l
      | inr (inl (_, f)) ↦ rw f (on_link-Stable w e room free l)
      | inr (inr f) ↦ rw f (flush_notification-Stable w e.handle l)
    ]

    on_notify-Stable :
        (w : Worker K R App) (c : GattConnection) (uuid : Uuid) (value : List ℕ)
        → Holds w
        → Holds (on_notify w c uuid value).0
    unfolding on_notify queued
    on_notify-Stable w c uuid value l = elim (Result-cases (enqueue w.state c uuid value)) [
      | inl (t, e) ↦
          rw (e, on_notify)
            (exec-Stable (K.request_send c.handle w.stack) (record w { state = t })
              (k.queues w.state t w.generation c uuid value e l))
      | inr (x, e) ↦ rw (e, on_notify) l
    ]

    Move-Stable : {w v : Worker K R App} → Move w v → Holds w → Holds v
    Move-Stable {w} (calls c) l = exec-Stable c w l
    Move-Stable {w} (handles b b' e v room free h) l = on_event-Stable w v b b' e room free h l
    Move-Stable {w} (notifies c uuid value) l = on_notify-Stable w c uuid value l
    Move-Stable {w} (turns v s g) l = rw (s, g) l

    pub Steps-Stable : {w v : Worker K R App} → Steps w v → Holds w → Holds v
    Steps-Stable start_of l = l
    Steps-Stable (later r m) l = Move-Stable m (Steps-Stable r l)
