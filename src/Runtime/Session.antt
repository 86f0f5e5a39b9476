-- ===== src/Runtime/Session.antt =====
-- The handle that an application holds, `Runtime` of btstack-core/src/runtime.rs: the wait for readiness
-- in `start_with_advertising`, the wait for an answer in `notify`, `shutdown`, and what `start` and the
-- end of the thread do to the flag `ACTIVE` of the process.
pub mod Halting
pub mod Exclusion
use btstack_gatt_rs.Prelude.{
  ℕ, Bool, true, false, List, [], ◌∷◌, ◌++◌, Option, none, some, Result, ok, err, if◌then◌else◌,
  leb, length, ◌==◌, nat_eq,
}
use btstack_gatt_rs.Types.{
  Error, cannot_join, thread_panicked, startup_timed_out, enqueue_timed_out,
}
use btstack_gatt_rs.Advertising.{AdvertisingData}
use btstack_gatt_rs.Gatt.{GattService, ServerEvent}
use btstack_gatt_rs.Runtime.Loop.{Command, stop}
use btstack_gatt_rs.Runtime.Start.{reserve}

-- What `join` gives: the result of the thread, or that it has panicked.
pub data Joined : Type 0 where
  finished : Result (Unit {0}) Error → Joined
  thread_panic : Joined

unfoldable pub join_result : Joined → Result (Unit {0}) Error
join_result (finished r) = r
join_result thread_panic = err thread_panicked

-- `try_send` on the queue of 128 commands.
unfoldable pub try_send_stop : List Command → List Command
try_send_stop queue = if leb 128 (length queue) then queue else queue ++ stop ∷ []

-- What `shutdown` leaves: whether the handle still holds the worker, the queue of commands, and the
-- result. `own` says whether the caller is the worker itself; `joined` is what `join` will give.
-- `send` waits for room in the queue, so it is given a queue that has some.
unfoldable pub shutdown :
    Bool → Bool → List Command → Joined → Bool × List Command × Result (Unit {0}) Error
unfolding try_send_stop join_result
shutdown own false queue joined = (false, queue, ok tt)
shutdown true true queue joined = (true, try_send_stop queue, err cannot_join)
shutdown false true queue joined = (false, queue ++ stop ∷ [], join_result joined)

-- The end of `start_with_advertising`. `told` says whether `ready` is sent within 25 seconds; it is not
-- if the thread ends first. The handle holds the worker if there is one.
unfoldable pub await_ready :
    Bool → List Command → Joined → Bool × List Command × Result (Unit {0}) Error
unfolding shutdown
await_ready true queue joined = (true, queue, ok tt)
await_ready false queue joined =
    let (worker, queue', result) = shutdown false true queue joined in
    (worker, queue', elim result [ err e ↦ err e | ok u ↦ err startup_timed_out ])

-- The end of `notify`: the answer, if it comes within three seconds.
unfoldable pub await_answer : Option (Result (Unit {0}) Error) → Result (Unit {0}) Error
await_answer none = err enqueue_timed_out
await_answer (some r) = r

-- The end of a wait for an event without one: the time has passed, or the thread and its sender have
-- gone.
pub data RecvTimeoutError : Type 0 where
  no_event no_sender : RecvTimeoutError

-- `recv_timeout` on the events that have been sent and not received; `alive` says whether more can come.
unfoldable pub recv_timeout :
    Bool → List ServerEvent → List ServerEvent × Result ServerEvent RecvTimeoutError
recv_timeout alive [] = ([], err (if alive then no_event else no_sender))
recv_timeout alive (e ∷ events) = (events, ok e)

-- `Drop`: what `shutdown` leaves, without its result.
unfoldable pub drop_runtime : Bool → Bool → List Command → Joined → Bool × List Command
unfolding shutdown
drop_runtime own worker queue joined =
    let (worker', queue', result) = shutdown own worker queue joined in (worker', queue')

-- Where one call of `start` and its thread are. `reserved` is between the exchange of `ACTIVE` and the
-- thread; `released` is after the end of the thread, which gives `ACTIVE` back.
pub data Phase : Type 0 where
  absent reserved running : Phase
  released : Joined → Phase

-- A process with its calls of `start`, by number.
pub record Process : Type 0 where
  pub active : Bool
  pub phase : ℕ → Phase

abbrev pub set_phase : ℕ → Phase → (ℕ → Phase) → ℕ → Phase
set_phase i q phase j = if i == j then q else phase j

-- The checks and the exchange: the call has reserved the runtime, or it has returned an error.
unfoldable pub reserve_call :
    {App : Type 0}
    → List ℕ
    → List (GattService App)
    → Option AdvertisingData
    → ℕ
    → Process
    → Process
unfolding reserve
reserve_call name services advertising i p =
    let (result, active) = reserve p.active name services advertising in
    record {
      active = active;
      phase = set_phase i (elim result [ ok adv ↦ reserved | err e ↦ absent ]) p.phase;
    }

-- `spawn` fails, or the thread starts.
unfoldable pub spawn_call : Option Error → ℕ → Process → Process
spawn_call (some e) i p = record { active = false; phase = set_phase i absent p.phase }
spawn_call none i p = record p { phase = set_phase i running p.phase }

-- The guard of the thread is dropped, however the thread ends.
unfoldable pub end_thread : Joined → ℕ → Process → Process
end_thread joined i p = record { active = false; phase = set_phase i (released joined) p.phase }

unfoldable pub join_thread : ℕ → Process → Process
join_thread i p = record p { phase = set_phase i absent p.phase }
