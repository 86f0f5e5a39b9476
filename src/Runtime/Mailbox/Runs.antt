-- ===== src/Runtime/Mailbox/Runs.antt =====
-- Any run of the thread, seen as a run on mailboxes (btstack-core/src/runtime.rs).
use btstack_gatt_rs.Prelude.{
  ℕ, ◌≡◌, inl, inr, refl, List, [], ◌∷◌, ◌++◌, none, some, ok, err, arith, if◌then◌else◌, ◌==◌,
  nat_eq, nat_beq, Bool-cases, Result-cases, Option, fun_ext, ap, subst, All, sym, ◌∙◌,
}
use btstack_gatt_rs.Types.{Uuid}
use btstack_gatt_rs.Gatt.{GattConnection}
use btstack_gatt_rs.Runtime.{State}
use btstack_gatt_rs.Runtime.Notify.{enqueue, find_uuid}
use btstack_gatt_rs.Runtime.Link.{connect, disconnect, set_mtu, exchange_mtu}
use btstack_gatt_rs.Runtime.Link.Tables.{pending-exchange_mtu, disconnect_lem}
use btstack_gatt_rs.Runtime.Invariant.Queue.{next_pending-rest}
use btstack_gatt_rs.Runtime.Write.{subscribe}
use btstack_gatt_rs.Runtime.Bridge.{Stack, Transport}
use btstack_gatt_rs.Runtime.Bridge.Worker.{Worker, Event, exec}
use btstack_gatt_rs.Runtime.Drain.{Started, flush_notification, on_link, on_event}
use btstack_gatt_rs.Runtime.Drain.Progress.{pending-exec}
use btstack_gatt_rs.Runtime.Loop.{queued, on_notify}
use btstack_gatt_rs.Runtime.History.Moves.{
  Move, calls, handles, notifies, turns, Steps, start_of, later,
}
use btstack_gatt_rs.Runtime.History.Stable.{Stable, Steps-Stable}
use btstack_gatt_rs.Runtime.History.Links.{enqueue_rest}
use btstack_gatt_rs.Runtime.Mailbox.{
  Mailbox, letters, mailbox, Keyed, mailbox-enqueue, mailbox-disconnect,
}
use btstack_gatt_rs.Runtime.Mailbox.Acts.{
  Act, posts, takes, discards, tail, perform, performs, performs-append, posted, taken, Spares,
  in_order,
}
use btstack_gatt_rs.Runtime.Mailbox.Delivery.{flush-mailbox}

same_queue : {App : Type 0} (s t : State App) → t.pending ≡ s.pending → mailbox t ≡ mailbox s
same_queue s t e = ap (λ qs h. letters h qs) e

-- What an event is to the boxes: a disconnection (4) discards one, and a permission to send (5) takes
-- from one.
abbrev pub event_acts : Event → List Act
event_acts e =
    if e.kind == 4 then discards e.handle ∷ [] else if e.kind == 5 then takes e.handle ∷ [] else []

module _ {App : Type 0} where
  set_mtu-Keyed :
      (s : State App) (handle mtu : ℕ) (found : Option GattConnection)
      → s.connections handle ≡ found
      → Keyed s
      → Keyed (set_mtu s handle mtu found)
  unfolding set_mtu
  set_mtu-Keyed s handle mtu none e k = k
  set_mtu-Keyed s handle mtu (some x) e k = λ h d i. ground (arith, i, e, k h d, k h x)

  Keyed-Stable : Stable {App = App} (λ s n. Keyed s) (λ m c. Unit {0})
  unfolding subscribe connect set_mtu exchange_mtu
  Keyed-Stable = record {
    caches = λ s n r k. k;
    subscribes = λ s n h x c a b e f k. k;
    connects = λ s n handle mtu room free k h c e. ground (arith, e, k h c);
    disconnects = λ s n handle k. rw (disconnect_lem s handle) (λ h c e. ground (arith, e, k h c));
    exchanges = λ s n handle mtu k. set_mtu-Keyed s handle mtu (s.connections handle) refl k;
    queues = λ s t n c uuid value e k. rw (enqueue_rest s t c uuid value e) k;
    takes = λ s t n handle q e k. (rw (next_pending-rest s t handle q e) k, tt);
    fails = λ s n c status o k. k;
  }

module _ {K : Stack} {R : Transport} {App : Type 0} where
  -- A notification that is accepted is posted to the box of its connection.
  abbrev pub notify_acts : Worker K R App → GattConnection → Uuid → List ℕ → List Act
  notify_acts w c uuid value = elim (enqueue w.state c uuid value) [
    | err e ↦ []
    | ok s ↦ elim (find_uuid w.state uuid) [
      | none ↦ []
      | some a ↦ posts c.handle (a.handle, value) ∷ []
    ]
  ]

  abbrev pub move_acts : {w v : Worker K R App} → Move w v → List Act
  move_acts (calls c) = []
  move_acts (handles b b' e v room free h) = event_acts e
  move_acts {w} (notifies c uuid value) = notify_acts w c uuid value
  move_acts (turns v s g) = []

  abbrev pub acts : {w v : Worker K R App} → Steps w v → List Act
  acts start_of = []
  acts (later r m) = acts r ++ move_acts m

  flush-takes :
      (w : Worker K R App) (h : ℕ)
      → mailbox (flush_notification w h).state ≡ perform (takes h) (mailbox w.state)
  flush-takes w h = elim (flush-mailbox w h) [
    | inl (e, f) ↦ rw f (
        fun_ext λ g. elim (Bool-cases (nat_beq h g)) [
          | inl q ↦
              let same : h ≡ g = ground (arith, q) in
              subst (λ x. mailbox w.state x ≡ tail (mailbox w.state x)) same (rw e refl) ∙ rw q refl
          | inr q ↦ rw q refl
        ])
    | inr (l, e, others) ↦ fun_ext λ g. elim (Bool-cases (nat_beq h g)) [
      | inl q ↦
          let same : h ≡ g = ground (arith, q) in
          subst (λ x. mailbox (flush_notification w h).state x ≡ tail (mailbox w.state x)) same
            (sym (ap tail e))
          ∙ rw q refl
      | inr q ↦ others g (ground (arith, q)) ∙ rw q refl
    ]
  ]

  on_event-mailbox :
      (w v : Worker K R App) (b b' : Started) (e : Event)
      → on_event w b e ≡ ok (v, b')
      → mailbox v.state ≡ performs (event_acts e) (mailbox w.state)
  unfolding on_event on_link connect exchange_mtu
  on_event-mailbox w v b b' e h = elim (Bool-cases (nat_beq e.kind 4)) [
    | inl k ↦
        let now : v.state ≡ disconnect w.state e.handle = ground (arith, k, h) in
        ap (λ (s : State App). mailbox s) now ∙ mailbox-disconnect w.state e.handle ∙ rw k refl
    | inr k ↦ elim (Bool-cases (nat_beq e.kind 5)) [
      | inl l ↦
          let now : v ≡ flush_notification w e.handle = ground (arith, l, k, h) in
          ap (λ (x : Worker K R App). mailbox x.state) now ∙ flush-takes w e.handle ∙ rw (k, l) refl
      | inr l ↦
          let now : v.state.pending ≡ w.state.pending =
            ground (arith, l, k, h, pending-exchange_mtu w.state e.handle e.value) in
          same_queue w.state v.state now ∙ rw (k, l) refl
    ]
  ]

  notify-mailbox :
      (w : Worker K R App) (c : GattConnection) (uuid : Uuid) (value : List ℕ)
      → Keyed w.state
      → mailbox (on_notify w c uuid value).0.state
        ≡ performs (notify_acts w c uuid value) (mailbox w.state)
  unfolding on_notify queued
  notify-mailbox w c uuid value k = elim (Result-cases (enqueue w.state c uuid value)) [
    | inr (x, e) ↦
        let nothing : notify_acts w c uuid value ≡ [] = ground (arith, e) in
        rw (nothing, e, on_notify) refl
    | inl (s, e) ↦
        let (a, known, boxes) = mailbox-enqueue w.state s c uuid value k e in
        let now : notify_acts w c uuid value ≡ posts c.handle (a.handle, value) ∷ [] =
          ground (arith, e, known) in
        rw (now, e, on_notify)
          (same_queue s (exec (K.request_send c.handle w.stack) (record w { state = s })).0.state
              (pending-exec (K.request_send c.handle w.stack) (record w { state = s }))
            ∙ boxes)
  ]

  Move-mailbox :
      {w v : Worker K R App} (m : Move w v)
      → Keyed w.state
      → mailbox v.state ≡ performs (move_acts m) (mailbox w.state)
  Move-mailbox {w} (calls c) k = same_queue w.state (exec c w).0.state (pending-exec c w)
  Move-mailbox {w} (handles b b' e v room free h) k = on_event-mailbox w v b b' e h
  Move-mailbox {w} (notifies c uuid value) k = notify-mailbox w c uuid value k
  Move-mailbox {w} (turns v s g) k = ap (λ (s : State App). mailbox s) s

  -- Any run of the thread is a run of the mailboxes: what waits for each connection is what is there
  -- after the notifications that the thread has accepted, the permissions to send that BTstack has
  -- given and the disconnections, in their order, are carried out on the mailboxes that there were,
  -- and nothing else of what BTstack, peers and handlers do counts. (Each connection is under its own
  -- handle at first; a new connection has a handle that is not in use, and the counter of connections
  -- does not wrap.)
  pub Steps-mailbox :
      {w v : Worker K R App} (r : Steps w v)
      → Keyed w.state
      → mailbox v.state ≡ performs (acts r) (mailbox w.state)
  Steps-mailbox start_of k = refl
  Steps-mailbox {w} (later r m) k =
      Move-mailbox m (Steps-Stable Keyed-Stable r k)
      ∙ ap (performs (move_acts m)) (Steps-mailbox r k)
      ∙ sym (performs-append (acts r) (move_acts m) (mailbox w.state))

  -- What is taken from the box of a handle that is not disconnected is what waited and was accepted.
  pub Steps-order :
      {w v : Worker K R App} (r : Steps w v)
      → Keyed w.state
      → (h : ℕ) → All (Spares h) (acts r)
      → mailbox w.state h ++ posted h (acts r)
        ≡ taken h (acts r) (mailbox w.state) ++ mailbox v.state h
  Steps-order {w} r k h n =
      in_order h (acts r) (mailbox w.state) n
      ∙ ap (λ (m : Mailbox). taken h (acts r) (mailbox w.state) ++ m h) (sym (Steps-mailbox r k))
