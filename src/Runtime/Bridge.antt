-- ===== src/Runtime/Bridge.antt =====
-- The C side as btstack-core/src/runtime.rs meets it. BTstack and the transport are parameters. A call
-- of a `sys::rs_*` function is the sequence of calls that it makes back into the callbacks `read`,
-- `write`, `event` and `send`, each of which may decide what follows, and then its result: a
-- well-founded tree, since such a call returns.
pub mod Worker
use btstack_gatt_rs.Prelude.{ℕ, ◌%◌, ◌^◌, Bool, List, Option, Result, Outcome}
use btstack_gatt_rs.Types.{Error, HciPacket}
use btstack_gatt_rs.Runtime.Read.{Reply}

pub data Calls (S A : Type 0) : Type 0 where
  return : S → A → Calls S A
  call_read : ℕ → ℕ → ℕ → Bool → ℕ → (Reply → Calls S A) → Calls S A
  call_write : ℕ → ℕ → ℕ → ℕ → List ℕ → (ℕ → Calls S A) → Calls S A
  call_event : ℕ → ℕ → ℕ → Calls S A → Calls S A
  -- `send` answers 0, or -1 for a failure: whether it succeeded.
  call_send : ℕ → List ℕ → (Bool → Calls S A) → Calls S A

-- `time_ms`: the milliseconds since the start, in 32 bits.
unfoldable pub time_ms : ℕ → ℕ
time_ms elapsed = elapsed % 2 ^ 32

-- The functions of the bridge, with the state of the C side. `init` is the state after `rs_init`;
-- `add_characteristic` gives the handle of the value; `start` gives 0 for success.
pub record Stack : Type 1 where
  pub S : Type 0
  pub init : S
  pub gap_name : List ℕ → S → S
  pub add_service : List ℕ → S → S
  pub add_characteristic : List ℕ → ℕ → S → S × ℕ
  pub start : List ℕ → S → Calls S ℕ
  pub receive : ℕ → List ℕ → S → Calls S (Unit {0})
  pub poll : S → Calls S (Unit {0})
  pub request_send : ℕ → S → Calls S (Unit {0})
  pub notify : ℕ → ℕ → List ℕ → S → Calls S ℕ
  pub stop : S → Calls S (Unit {0})
  pub is_off : S → Bool

-- An `HciTransport`: its methods may return, fail or panic.
pub record Transport : Type 1 where
  pub T : Type 0
  pub send : ℕ → List ℕ → T → T × Outcome (Result (Unit {0}) Error)
  pub receive : T → T × Outcome (Result (Option HciPacket) Error)
