-- ===== src/Runtime/History/Lifecycle.antt =====
-- The order of the events of one connection (btstack-core/src/runtime.rs).
pub mod Tables
pub mod Steps
use mathlib.Core.List.{append-nil}
use btstack_gatt_rs.Prelude.{
  ℕ, ◌+◌, ◌<◌, ◌≤◌, ◌≡◌, ◌≢◌, refl, Bool, true, false, List, [], ◌∷◌, ◌++◌, Option, none, some, ok,
  arith, if◌then◌else◌, HashMap, All, All-mono, retain, insert_key, remove_key, ◌==◌, nat_eq,
  nat_beq, ap, subst, sym, ◌∙◌, Bool-cases, Option-cases, inl, inr, not,
}
use btstack_gatt_rs.Types.{Uuid}
use btstack_gatt_rs.Gatt.{
  GattConnection, notify, unsubscribed, ServerEvent, connected, disconnected, subscription_changed,
  notification_failed, error,
}
use btstack_gatt_rs.Runtime.{Attribute, State, Queued, find_attribute}
use btstack_gatt_rs.Runtime.Notify.{enqueue}
use btstack_gatt_rs.Runtime.Link.{connect, disconnect, exchange_mtu, set_mtu, next_pending, u64_mod}
use btstack_gatt_rs.Runtime.Link.Tables.{disconnect_lem, farewell}
use btstack_gatt_rs.Runtime.Drain.Generations.{
  Unique, connect-Unique, disconnect-Unique, set_mtu-Unique,
}
use btstack_gatt_rs.Runtime.Write.{subscribe}
use btstack_gatt_rs.Runtime.History.{same_generation}

-- What an application knows of a connection: nothing yet, that it has begun, or that it has ended. An
-- event that does not fit is an error of the server's.
pub data Life : Type 0 where
  unknown alive gone broken : Life

abbrev pub begin : Life → Life
begin unknown = alive
begin alive = broken
begin gone = broken
begin broken = broken

abbrev pub use_it : Life → Life
use_it unknown = broken
use_it alive = alive
use_it gone = broken
use_it broken = broken

abbrev pub end_it : Life → Life
end_it unknown = broken
end_it alive = gone
end_it gone = broken
end_it broken = broken

-- What an event does to the connection of this generation.
abbrev pub meet : ℕ → Life → ServerEvent → Life
meet g l (connected c) = if c.generation == g then begin l else l
meet g l (disconnected c) = if c.generation == g then end_it l else l
meet g l (subscription_changed c uuid kind) = if c.generation == g then use_it l else l
meet g l (notification_failed c code) = if c.generation == g then use_it l else l
meet g l (error e) = l

-- The life of a connection in these events, the oldest first.
unfoldable pub life : ℕ → Life → List ServerEvent → Life
life g l [] = l
life g l (e ∷ es) = life g (meet g l e) es

pub life-snoc :
    (g : ℕ) (l : Life) (es : List ServerEvent) (e : ServerEvent)
    → life g l (es ++ e ∷ []) ≡ meet g (life g l es) e
unfolding life
life-snoc g l [] e = refl
life-snoc g l (d ∷ es) e = life-snoc g (meet g l d) es e

-- The connection of a queued notification, as it is now.
abbrev pub IsLive : HashMap ℕ GattConnection → GattConnection → Type 0
IsLive connections c =
    (d : GattConnection) × (connections c.handle ≡ some d) × (d.generation ≡ c.generation)

abbrev pub Owner : HashMap ℕ GattConnection → ℕ → Type 0
Owner connections g = (h : ℕ) × (c : GattConnection) × (connections h ≡ some c) × (c.generation ≡ g)

-- Exactly the live connections are alive, and no event was out of place.
pub record Lives (connections : HashMap ℕ GattConnection) (events : List ServerEvent) (counter : ℕ)
    : Type 0 where
  pub current :
      (h : ℕ) (c : GattConnection)
      → connections h ≡ some c
      → life c.generation unknown events ≡ alive
  pub ahead : (g : ℕ) → counter ≤ g → life g unknown events ≡ unknown
  pub whole : (g : ℕ) → life g unknown events ≢ broken
  pub only : (g : ℕ) → life g unknown events ≡ alive → Owner connections g
  pub unique : Unique connections counter
