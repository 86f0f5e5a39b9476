-- ===== src/Runtime/Bridge/Worker.antt =====
-- The BTstack thread of btstack-core/src/runtime.rs with all that it owns, and its callbacks `event` and
-- `send`; `exec` runs a call of the C side on it.
use btstack_gatt_rs.Prelude.{
  ℕ, Bool, true, false, List, [], ◌∷◌, ◌++◌, Option, some, Result, ok, err, Outcome, returned,
  panicked,
}
use btstack_gatt_rs.Types.{Error, transport_callback_panicked}
use btstack_gatt_rs.Runtime.{State}
use btstack_gatt_rs.Runtime.Read.{read}
use btstack_gatt_rs.Runtime.Write.{write}
use btstack_gatt_rs.Runtime.Bridge.{
  Calls, return, call_read, call_write, call_event, call_send, Stack, Transport,
}

-- `EVENTS` holds triples of kind, handle and value.
pub record Event : Type 0 where
  pub kind : ℕ
  pub handle : ℕ
  pub value : ℕ

module _ (K : Stack) (R : Transport) (App : Type 0) where
  pub record Worker : Type 0 where
    pub state : State App
    pub app : App
    pub queue : List Event
    pub failure : Option Error
    pub generation : ℕ
    pub stack : K.S
    pub transport : R.T

module _ {K : Stack} {R : Transport} {App : Type 0} where
  -- `event`.
  unfoldable pub push_event : Worker K R App → ℕ → ℕ → ℕ → Worker K R App
  push_event w kind handle value = record w {
    queue = w.queue ++ record { kind = kind; handle = handle; value = value } ∷ [];
  }

  -- `send`: 0 for success, and -1 with the message in `FAILURE`.
  unfoldable pub sent :
      Worker K R App → R.T × Outcome (Result (Unit {0}) Error) → Worker K R App × Bool
  sent w (t, returned (ok u)) = (record w { transport = t }, true)
  sent w (t, returned (err e)) = (record w { transport = t; failure = some e }, false)
  sent w (t, panicked) =
      (record w { transport = t; failure = some transport_callback_panicked }, false)

  unfoldable pub send : Worker K R App → ℕ → List ℕ → Worker K R App × Bool
  unfolding sent
  send w kind packet = sent w (R.send kind packet w.transport)

  unfoldable pub exec : {A : Type 0} → Calls K.S A → Worker K R App → Worker K R App × A
  unfolding push_event send
  exec (return s a) w = (record w { stack = s }, a)
  exec (call_read connection attribute offset null size k) w =
      let (s, app, r) = read w.state w.app connection attribute offset null size in
      exec (k r) (record w { state = s; app = app })
  exec (call_write connection attribute mode offset value k) w =
      let (s, app, code) = write w.state w.app connection attribute mode offset value in
      exec (k code) (record w { state = s; app = app })
  exec (call_event kind handle value k) w = exec k (push_event w kind handle value)
  exec (call_send kind packet k) w = let (w', success) = send w kind packet in exec (k success) w'

  -- A callback of the C side keeps what `read`, `write`, `event` and `send` keep.
  pub exec_keeps {ℓ} :
      (P : Worker K R App → Type ℓ)
      → ((w : Worker K R App) (c a o : ℕ) (n : Bool) (z : ℕ)
          → P w
          → P (record w {
            state = (read w.state w.app c a o n z).0;
            app = (read w.state w.app c a o n z).1;
          }))
      → ((w : Worker K R App) (c a m o : ℕ) (v : List ℕ)
          → P w
          → P (record w {
            state = (write w.state w.app c a m o v).0;
            app = (write w.state w.app c a m o v).1;
          }))
      → ((w : Worker K R App) (k h v : ℕ) → P w → P (push_event w k h v))
      → ((w : Worker K R App) (k : ℕ) (p : List ℕ) → P w → P (send w k p).0)
      → ((w : Worker K R App) (s : K.S) → P w → P (record w { stack = s }))
      → {A : Type 0} (calls : Calls K.S A) (w : Worker K R App) → P w
      → P (exec calls w).0
  unfolding exec
  exec_keeps P on_read on_write on_event on_send on_return (return s a) w h = on_return w s h
  exec_keeps P on_read on_write on_event on_send on_return (call_read c a o n z k) w h =
      exec_keeps P on_read on_write on_event on_send on_return (k (read w.state w.app c a o n z).2)
        _ (on_read w c a o n z h)
  exec_keeps P on_read on_write on_event on_send on_return (call_write c a m o v k) w h =
      exec_keeps P on_read on_write on_event on_send on_return (k (write w.state w.app c a m o v).2)
        _ (on_write w c a m o v h)
  exec_keeps P on_read on_write on_event on_send on_return (call_event i j v k) w h =
      exec_keeps P on_read on_write on_event on_send on_return k _ (on_event w i j v h)
  exec_keeps P on_read on_write on_event on_send on_return (call_send i p k) w h =
      exec_keeps P on_read on_write on_event on_send on_return (k (send w i p).1) _
        (on_send w i p h)
