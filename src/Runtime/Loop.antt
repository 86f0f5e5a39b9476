-- ===== src/Runtime/Loop.antt =====
-- `run` of btstack-core/src/runtime.rs: the loop of the BTstack thread. The environment decides, turn by
-- turn, which commands have arrived, whether the senders are gone and what the clock reads. Output on
-- the console is left out.
pub mod Service
pub mod Turns
pub mod Commands
pub mod Total
pub mod Usual
pub mod Rule
use btstack_gatt_rs.Prelude.{
  ℕ, zero, suc, Bool, true, false, List, [], ◌∷◌, ◌++◌, Option, none, some, Result, ok, err,
  Outcome, returned, panicked, if◌then◌else◌, ltb, not, ◌&&◌, ◌≡◌, ◌⊎◌, inl, inr, refl,
}
use btstack_gatt_rs.Types.{Uuid, Error, HciPacket, initialization_timed_out}
use btstack_gatt_rs.Gatt.{GattConnection}
use btstack_gatt_rs.Runtime.{State}
use btstack_gatt_rs.Runtime.Packet.{validate_packet}
use btstack_gatt_rs.Runtime.Notify.{enqueue}
use btstack_gatt_rs.Runtime.Bridge.{Stack, Transport}
use btstack_gatt_rs.Runtime.Bridge.Worker.{Worker, exec}
use btstack_gatt_rs.Runtime.Drain.{Started, request_send, drain}

-- `Command`; `answer` names the channel on which the caller waits.
pub data Command : Type 0 where
  stop : Command
  notify : (answer : ℕ) → GattConnection → Uuid → List ℕ → Command

-- Where a part of the loop leads: on, to `return Ok(())`, to an error or to a panic.
pub data Step {ℓ} (A : Type ℓ) : Type ℓ where
  goes : A → Step A
  finishes : A → Step A
  fails : A → Error → Step A
  panics : A → Step A

pub record Loop (K : Stack) (R : Transport) (App : Type 0) : Type 0 where
  pub worker : Worker K R App
  pub started : Started
  pub commands : List Command
  pub closed : Bool
  -- What has been sent to the callers of `notify`.
  pub answers : List (ℕ × Result (Unit {0}) Error)

-- What the environment does before a turn; `elapsed` is in milliseconds since the start of `run`.
pub record Turn : Type 0 where
  pub arrived : List Command
  pub closed : Bool
  pub elapsed : ℕ

pub Step-cases {ℓ} :
    {A : Type ℓ} (r : Step A)
    → ((a : A) × (r ≡ goes a))
      ⊎ ((a : A) × (r ≡ finishes a))
      ⊎ ((a : A) × (e : Error) × (r ≡ fails a e))
      ⊎ ((a : A) × (r ≡ panics a))
Step-cases (goes a) = inl (a, refl)
Step-cases (finishes a) = inr (inl (a, refl))
Step-cases (fails a e) = inr (inr (inl (a, e, refl)))
Step-cases (panics a) = inr (inr (inr (a, refl)))

-- The state in which a part of the loop ends.
abbrev pub last {ℓ} : {A : Type ℓ} → Step A → A
last (goes a) = a
last (finishes a) = a
last (fails a e) = a
last (panics a) = a

-- `?`: on only from `goes`.
abbrev pub and_then {ℓ κ} : {A : Type ℓ} {B : Type κ} → Step A → (A → B) → (A → Step B) → Step B
and_then (goes a) keep f = f a
and_then (finishes a) keep f = finishes (keep a)
and_then (fails a e) keep f = fails (keep a) e
and_then (panics a) keep f = panics (keep a)

module _ {K : Stack} {R : Transport} {App : Type 0} where
  -- The arm of `Command::Notify`: the state with the notification, and then `rs_request_send`.
  unfoldable pub queued :
      Worker K R App → ℕ → Result (State App) Error → Worker K R App × Result (Unit {0}) Error
  unfolding request_send
  queued w handle (ok s) = (request_send (record w { state = s }) handle, ok tt)
  queued w handle (err e) = (w, err e)

  unfoldable pub on_notify :
      Worker K R App → GattConnection → Uuid → List ℕ → Worker K R App × Result (Unit {0}) Error
  unfolding queued enqueue
  on_notify w connection uuid value =
      queued w connection.handle (enqueue w.state connection uuid value)

  -- `for _ in 0..128`.
  unfoldable pub take_commands : ℕ → Loop K R App → Step (Loop K R App)
  unfolding on_notify
  take_commands zero l = goes l
  take_commands (suc left) l = elim l.commands [
    | [] ↦ if l.closed then finishes l else goes l
    | c ∷ rest ↦ elim c [
      | stop ↦ finishes (record l { commands = rest })
      | notify answer connection uuid value ↦
          let (w, r) = on_notify l.worker connection uuid value in
          take_commands left
            (record l { worker = w; commands = rest; answers = l.answers ++ (answer, r) ∷ [] })
    ]
  ]

  -- A packet that has been received goes to the stack, if it is well formed.
  unfoldable pub hand_over : Worker K R App → HciPacket → Step (Worker K R App)
  hand_over w p = elim (validate_packet p) [
    | ok u ↦ goes (exec (K.receive p.kind p.payload w.stack) w).0
    | err e ↦ fails w e
  ]

  unfoldable pub received :
      Worker K R App → R.T × Outcome (Result (Option HciPacket) Error) → Step (Worker K R App)
  unfolding hand_over
  received w (t, returned (ok none)) = goes (record w { transport = t })
  received w (t, returned (ok (some p))) = hand_over (record w { transport = t }) p
  received w (t, returned (err e)) = fails (record w { transport = t }) e
  received w (t, panicked) = panics (record w { transport = t })

  -- `FAILURE.take()`.
  unfoldable pub check_failure : Worker K R App → Step (Worker K R App)
  check_failure w = elim w.failure [
    | none ↦ goes w
    | some e ↦ fails (record w { failure = none }) e
  ]

  -- Receive, `rs_receive`, `rs_poll`, and the check of `FAILURE`; `stop_controller` does the same.
  unfoldable pub pump : Worker K R App → Step (Worker K R App)
  unfolding received check_failure
  pump w =
      and_then (received w (R.receive w.transport)) (λ v. v)
        λ v. check_failure (exec (K.poll v.stack) v).0

  -- The timeout at the end of a turn.
  unfoldable pub check_clock : ℕ → Loop K R App → Step (Loop K R App)
  check_clock elapsed l =
      if not l.started.started && ltb 20000 elapsed
      then fails l initialization_timed_out
      else goes l

  -- The events after a pump, with fuel for their loop.
  unfoldable pub handle_events :
      ℕ → ℕ → Loop K R App → Worker K R App → Option (Step (Loop K R App))
  unfolding drain check_clock
  handle_events fuel elapsed l w = elim (drain fuel w l.started) [
    | none ↦ none
    | some (ok (v, b)) ↦ some (check_clock elapsed (record l { worker = v; started = b }))
    | some (err (v, e)) ↦ some (fails (record l { worker = v }) e)
  ]

  unfoldable pub after_pump :
      ℕ → ℕ → Loop K R App → Step (Worker K R App) → Option (Step (Loop K R App))
  unfolding handle_events
  after_pump fuel elapsed l (goes w) = handle_events fuel elapsed l w
  after_pump fuel elapsed l (finishes w) = some (finishes (record l { worker = w }))
  after_pump fuel elapsed l (fails w e) = some (fails (record l { worker = w }) e)
  after_pump fuel elapsed l (panics w) = some (panics (record l { worker = w }))

  unfoldable pub after_commands : ℕ → ℕ → Step (Loop K R App) → Option (Step (Loop K R App))
  unfolding after_pump pump
  after_commands fuel elapsed (goes l) = after_pump fuel elapsed l (pump l.worker)
  after_commands fuel elapsed (finishes l) = some (finishes l)
  after_commands fuel elapsed (fails l e) = some (fails l e)
  after_commands fuel elapsed (panics l) = some (panics l)

  -- One turn of `loop`.
  unfoldable pub turn : ℕ → Turn → Loop K R App → Option (Step (Loop K R App))
  unfolding after_commands take_commands
  turn fuel t l =
      after_commands fuel t.elapsed
        (take_commands 128 (record l { commands = l.commands ++ t.arrived; closed = t.closed }))

  -- The turns for as long as the loop goes on.
  unfoldable pub run : ℕ → List Turn → Loop K R App → Option (Step (Loop K R App))
  unfolding turn
  run fuel [] l = some (goes l)
  run fuel (t ∷ ts) l = elim (turn fuel t l) [
    | none ↦ none
    | some s ↦ elim s [
      | goes l' ↦ run fuel ts l'
      | finishes l' ↦ some (finishes l')
      | fails l' e ↦ some (fails l' e)
      | panics l' ↦ some (panics l')
    ]
  ]
