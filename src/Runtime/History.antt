-- ===== src/Runtime/History.antt =====
-- The events that an application has received, against the tables of btstack-core/src/runtime.rs.
pub mod Links
pub mod Moves
pub mod Stable
pub mod Steps
pub mod Lifecycle
pub mod Runs
use mathlib.Core.List.{append-nil}
use btstack_gatt_rs.Prelude.{
  ℕ, ◌+◌, ◌%◌, ◌<◌, ◌≤◌, ◌≡◌, ◌≢◌, ◌↔◌, refl, Bool, true, false, List, [], ◌∷◌, ◌++◌, Option, none,
  some, arith, if◌then◌else◌, flag_or_false, insert_key, remove_key, retain_keys, HashMap, not,
  ◌&&◌, ◌==◌, nat_eq, pair_eq, list_eq, find, nat_beq, ap, subst, sym, ◌∙◌, Bool-cases,
  Option-cases, inl, inr,
}
use btstack_gatt_rs.Types.{Uuid}
use btstack_gatt_rs.Gatt.{
  GattConnection, SubscriptionType, notify, unsubscribed, ServerEvent, connected, disconnected,
  subscription_changed, notification_failed, error,
}
use btstack_gatt_rs.Runtime.{Attribute, State, answers, find_attribute}
use btstack_gatt_rs.Runtime.Link.{connect, disconnect, exchange_mtu, set_mtu, u64_mod}
use btstack_gatt_rs.Runtime.Link.Tables.{disconnect_lem, farewell}
use btstack_gatt_rs.Runtime.Drain.Generations.{
  Unique, connect-Unique, disconnect-Unique, set_mtu-Unique,
}
use btstack_gatt_rs.Runtime.Write.{subscribe}

abbrev pub is_notify : SubscriptionType → Bool
is_notify notify = true
is_notify unsubscribed = false

-- What an event says of the subscription of this generation to this characteristic.
abbrev pub verdict : ℕ → Uuid → ServerEvent → Option Bool
verdict g uuid (subscription_changed c u kind) =
    if (c.generation == g) && (u == uuid) then some (is_notify kind) else none
verdict g uuid (disconnected c) = if c.generation == g then some false else none
verdict g uuid (connected c) = none
verdict g uuid (notification_failed c code) = none
verdict g uuid (error e) = none

abbrev pub decide : Option Bool → Bool → Bool
decide none before = before
decide (some b) before = b

-- What an application knows that has received these events, the oldest first.
unfoldable pub told : ℕ → Uuid → Bool → List ServerEvent → Bool
told g uuid before [] = before
told g uuid before (e ∷ es) = told g uuid (decide (verdict g uuid e) before) es

pub told-snoc :
    (g : ℕ) (uuid : Uuid) (before : Bool) (es : List ServerEvent) (e : ServerEvent)
    → told g uuid before (es ++ e ∷ []) ≡ decide (verdict g uuid e) (told g uuid before es)
unfolding told
told-snoc g uuid before [] e = refl
told-snoc g uuid before (d ∷ es) e = told-snoc g uuid (decide (verdict g uuid d) before) es e

pub told_farewell_other :
    (g : ℕ) (uuid : Uuid) (es : List ServerEvent) (found : Option GattConnection)
    → ((x : GattConnection) → found ≡ some x → nat_beq x.generation g ≡ false)
    → told g uuid false (es ++ farewell found) ≡ told g uuid false es
told_farewell_other g uuid es none h = rw (append-nil es) refl
told_farewell_other g uuid es (some x) h =
    rw (told-snoc g uuid false es (disconnected x), h x refl) refl

pub same_generation :
    (connections : HashMap ℕ GattConnection) (counter h g : ℕ) (c d : GattConnection)
    → Unique connections counter
    → connections h ≡ some c
    → connections g ≡ some d
    → nat_beq c.generation d.generation ≡ nat_beq h g
same_generation connections counter h g c d u e f = elim (Bool-cases (nat_beq h g)) [
  | inl s ↦
      let q : h ≡ g = ground (arith, s) in
      let p : connections h ≡ connections g = ap connections q in ground (arith, e, f, p, s)
  | inr s ↦ ground (arith, s, u.apart h g c d e f)
]

-- The events tell of every live connection what it has subscribed to, and nothing of generations to come.
-- A characteristic is known by its UUID as by its handle.
pub record Log {App : Type 0} (attributes : List (Attribute App))
    (connections : HashMap ℕ GattConnection) (subscriptions : HashMap (ℕ × ℕ) Bool)
    (events : List ServerEvent) (counter : ℕ) : Type 0 where
  pub agrees :
      (h x : ℕ) (c : GattConnection) (a : Attribute App)
      → connections h ≡ some c
      → find (answers x) attributes ≡ some a
      → flag_or_false (subscriptions (h, a.handle))
        ≡ told c.generation a.characteristic.uuid false events
  pub ahead : (g : ℕ) (uuid : Uuid) → counter ≤ g → told g uuid false events ≡ false
  pub idle : (h k : ℕ) → connections h ≡ none → flag_or_false (subscriptions (h, k)) ≡ false
  pub unique : Unique connections counter
  pub distinct :
      (x y : ℕ) (a b : Attribute App)
      → find (answers x) attributes ≡ some a
      → find (answers y) attributes ≡ some b
      → (a.characteristic.uuid == b.characteristic.uuid) ≡ (a.handle == b.handle)

module _ {App : Type 0} where
  abbrev pub HasLog : State App → ℕ → Type 0
  HasLog s counter = Log s.attributes s.connections s.subscriptions s.events counter
