-- ===== src/Runtime.antt =====
-- btstack-core/src/runtime.rs: the state of the BTstack thread. `STATE` holds it between the start and
-- the end of the thread, where every callback runs. The channel `events` is the list of the events
-- sent so far, the oldest first; a `VecDeque` is a list with its front first.
pub mod Packet
pub mod Read
pub mod Write
pub mod Notify
pub mod Snapshot
pub mod Link
pub mod Acceptance
pub mod Bridge
pub mod Drain
pub mod Mailbox
pub mod Loop
pub mod Stop
pub mod Start
pub mod Session
pub mod Invariant
pub mod History
use btstack_gatt_rs.Prelude.{
  ℕ, ◌+◌, ◌%◌, Bool, List, Option, HashMap, find, ◌&&◌, ◌||◌, ◌==◌, nat_eq,
}
use btstack_gatt_rs.Gatt.{GattConnection, GattCharacteristic, ServerEvent, has_bits}

pub record Attribute (App : Type 0) : Type 0 where
  pub handle : ℕ
  pub characteristic : GattCharacteristic App

-- An entry of `pending`: the connection as it was, the attribute's handle and the value.
pub record Queued : Type 0 where
  pub connection : GattConnection
  pub attribute : ℕ
  pub value : List ℕ

pub record State (App : Type 0) : Type 0 where
  pub attributes : List (Attribute App)
  pub connections : HashMap ℕ GattConnection
  pub subscriptions : HashMap (ℕ × ℕ) Bool
  pub reads : HashMap (ℕ × ℕ) (List ℕ)
  pub pending : List Queued
  pub events : List ServerEvent

module _ {App : Type 0} where
  -- The test of `find` in `read` and `write`: the value of an attribute has its handle, and the CCCD
  -- of one that can notify has the next. `u16` addition wraps, as in a
  -- release build; a build with overflow checks panics for a value handle of 65535, which the callback
  -- catches.
  unfoldable pub answers : ℕ → Attribute App → Bool
  unfolding has_bits
  answers attribute a =
      (a.handle == attribute)
      || (has_bits a.characteristic.properties 16 && ((a.handle + 1) % 65536 == attribute))

  unfoldable pub find_attribute : State App → ℕ → Option (Attribute App)
  unfolding answers find
  find_attribute s attribute = find (answers attribute) s.attributes
