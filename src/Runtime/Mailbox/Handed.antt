-- ===== src/Runtime/Mailbox/Handed.antt =====
-- What `flush_notification` of btstack-core/src/runtime.rs hands to `rs_notify`, over any run.
use btstack_gatt_rs.Prelude.{
  ℕ, ◌≡◌, true, List, [], ◌∷◌, ◌++◌, if◌then◌else◌, ◌==◌, nat_eq, flag_or_false,
}
use btstack_gatt_rs.Runtime.Bridge.{Stack, Transport, return}
use btstack_gatt_rs.Runtime.Bridge.Worker.{Worker}
use btstack_gatt_rs.Runtime.Drain.{flush_notification}
use btstack_gatt_rs.Runtime.History.Moves.{
  Move, calls, handles, notifies, turns, Steps, start_of, later,
}
use btstack_gatt_rs.Runtime.Mailbox.{Letter, Mailbox, mailbox}

-- A BTstack that does nothing but keep what `rs_notify` is called with: the handle, and the attribute
-- and the value.
abbrev pub recorder : Stack
recorder = record {
  S = List (ℕ × Letter);
  init = [];
  gap_name = λ n s. s;
  add_service = λ u s. s;
  add_characteristic = λ u p s. (s, 0);
  start = λ adv s. return s 0;
  receive = λ k p s. return s tt;
  poll = λ s. return s tt;
  request_send = λ h s. return s tt;
  notify = λ h a v s. return (s ++ (h, (a, v)) ∷ []) 0;
  stop = λ s. return s tt;
  is_off = λ s. true;
}

abbrev pub letters_to : ℕ → List (ℕ × Letter) → List Letter
letters_to h [] = []
letters_to h ((g, l) ∷ log) = if g == h then l ∷ letters_to h log else letters_to h log

module _ {R : Transport} {App : Type 0} where
  abbrev flushed : (w : Worker recorder R App) → ℕ → Worker recorder R App
  flushed w h = flush_notification w h

module _ {K : Stack} {R : Transport} {App : Type 0} where
  -- The same worker over a BTstack that records.
  abbrev pub recorded : Worker K R App → Worker recorder R App
  recorded w = record {
    state = w.state;
    app = w.app;
    queue = w.queue;
    failure = w.failure;
    generation = w.generation;
    stack = [];
    transport = w.transport;
  }

  -- What `flush_notification` hands to `rs_notify` at a permission for `g`.
  unfoldable pub handed_now : Worker K R App → ℕ → List (ℕ × Letter)
  unfolding flush_notification
  handed_now w g = (flush_notification (recorded w) g).stack

  -- At a permission for this handle, the oldest letter of its box is still subscribed to.
  abbrev pub Subscribed : ℕ → Worker K R App → Type 0
  Subscribed h w =
      (l : Letter) (ls : List Letter)
      → mailbox w.state h ≡ l ∷ ls
      → flag_or_false (w.state.subscriptions (h, l.0)) ≡ true

  -- What a step of a run hands to `rs_notify` for a handle, and that it finds it subscribed.
  abbrev pub move_handed : ℕ → {w v : Worker K R App} → Move w v → List Letter
  move_handed h (calls c) = []
  move_handed h {w} (handles b b' e v room free f) =
      if e.kind == 5 then letters_to h (handed_now w e.handle) else []
  move_handed h (notifies c uuid value) = []
  move_handed h (turns v s g) = []

  abbrev pub MoveHeld : ℕ → {w v : Worker K R App} → Move w v → Type 0
  MoveHeld h (calls c) = Unit
  MoveHeld h {w} (handles b b' e v room free f) = e.kind ≡ 5 → e.handle ≡ h → Subscribed h w
  MoveHeld h (notifies c uuid value) = Unit
  MoveHeld h (turns v s g) = Unit

  abbrev pub handed : ℕ → {w v : Worker K R App} → Steps w v → List Letter
  handed h start_of = []
  handed h (later r m) = handed h r ++ move_handed h m

  abbrev pub Held : ℕ → {w v : Worker K R App} → Steps w v → Type 0
  Held h start_of = Unit
  Held h (later r m) = Held h r × MoveHeld h m
