-- ===== src/Runtime/Session/Exclusion.antt =====
-- One runtime at a time (`ACTIVE` of btstack-core/src/runtime.rs).
use btstack_gatt_rs.Prelude.{
  ℕ, ◌≡◌, ◌↔◌, ◌⊎◌, refl, Bool, true, false, List, Option, none, some, ok, err, arith, nat_eq,
  Result-cases, Bool-cases, inl, inr,
}
use btstack_gatt_rs.Types.{Error, already_active}
use btstack_gatt_rs.Advertising.{AdvertisingData}
use btstack_gatt_rs.Gatt.{GattService}
use btstack_gatt_rs.Runtime.Start.{reserve, payload}
use btstack_gatt_rs.Runtime.Session.{
  Joined, Phase, absent, reserved, running, released, Process, set_phase, reserve_call, spawn_call,
  end_thread, join_thread,
}

-- A step of one of the calls; the others do not move.
pub data Move (App : Type 0) (p : Process) : Process → Type 1 where
  reserves :
      (i : ℕ) (name : List ℕ) (services : List (GattService App))
      (advertising : Option AdvertisingData)
      → p.phase i ≡ absent
      → Move App p (reserve_call name services advertising i p)
  spawns :
      (i : ℕ) (failure : Option Error) → p.phase i ≡ reserved → Move App p (spawn_call failure i p)
  ends : (i : ℕ) (joined : Joined) → p.phase i ≡ running → Move App p (end_thread joined i p)
  joins : (i : ℕ) (joined : Joined) → p.phase i ≡ released joined → Move App p (join_thread i p)

abbrev pub at_rest : Process
at_rest = record { active = false; phase = λ i. absent }

pub data Reach (App : Type 0) : Process → Type 1 where
  start_of : Reach App at_rest
  later : {p q : Process} → Reach App p → Move App p q → Reach App q

-- A call that has reserved the runtime, or whose thread runs.
abbrev pub owns : Phase → Bool
owns absent = false
owns reserved = true
owns running = true
owns (released joined) = false

pub record Exclusive (p : Process) : Type 0 where
  pub held : p.active ≡ true → (i : ℕ) × (owns (p.phase i) ≡ true)
  pub taken : (i : ℕ) → owns (p.phase i) ≡ true → p.active ≡ true
  pub one : (i j : ℕ) → owns (p.phase i) ≡ true → owns (p.phase j) ≡ true → i ≡ j

at_rest-Exclusive : Exclusive at_rest
at_rest-Exclusive = record { held = λ e. cc; taken = λ i o. cc; one = λ i j o. cc }

-- The flag goes to a call, comes back from one, or stays.
module _ (p : Process) (v : Exclusive p) (i : ℕ) (q : Phase) where
  Exclusive-acquire :
      p.active ≡ false
      → owns q ≡ true
      → Exclusive (record { active = true; phase = set_phase i q p.phase })
  Exclusive-acquire free o = record {
    held = λ e. (i, ground (arith, o));
    taken = λ j e. refl;
    one = λ j k a b. ground (arith, free, v.taken j, v.taken k, a, b);
  }

  Exclusive-release :
      owns (p.phase i) ≡ true
      → owns q ≡ false
      → Exclusive (record { active = false; phase = set_phase i q p.phase })
  Exclusive-release h o = record {
    held = λ e. cc;
    taken = λ j e. ground (arith, v.one i j h, o, e);
    one = λ j k a b. ground (arith, v.one j k, o, a, b);
  }

  Exclusive-keep :
      owns q ≡ owns (p.phase i) → Exclusive (record p { phase = set_phase i q p.phase })
  Exclusive-keep o = record {
    held = λ e. let (j, h) = v.held e in (j, ground (arith, o, h));
    taken = λ j e. ground (arith, v.taken j, v.taken i, o, e);
    one = λ j k a b. ground (arith, v.one j k, o, a, b);
  }

-- A call returns an error and leaves the flag, or it takes the free flag.
reserve_cases :
    {App : Type 0} (active : Bool) (name : List ℕ) (services : List (GattService App))
    (advertising : Option AdvertisingData)
    → ((e : Error) × (reserve active name services advertising ≡ (err e, active)))
      ⊎ ((bytes : List ℕ) × (active ≡ false)
          × (reserve active name services advertising ≡ (ok bytes, true)))
unfolding reserve
reserve_cases active name services advertising =
    elim (Result-cases (payload name services advertising)) [
      | inl (b, h) ↦ elim (Bool-cases active) [
        | inl a ↦ inl (already_active, ground (arith, h, a))
        | inr a ↦ inr (b, a, ground (arith, h, a))
      ]
      | inr (x, h) ↦ inl (x, ground (arith, h))
    ]

reserve_call-Exclusive :
    {App : Type 0} (name : List ℕ) (services : List (GattService App))
    (advertising : Option AdvertisingData) (i : ℕ) (p : Process)
    → p.phase i ≡ absent
    → Exclusive p
    → Exclusive (reserve_call name services advertising i p)
unfolding reserve_call
reserve_call-Exclusive name services advertising i p e v =
    elim (reserve_cases p.active name services advertising) [
      | inl (x, h) ↦ rw (reserve_call, h) (Exclusive-keep p v i absent (rw e refl))
      | inr (adv, free, h) ↦ rw (reserve_call, h) (Exclusive-acquire p v i reserved free refl)
    ]

Move-Exclusive : {App : Type 0} {p q : Process} → Move App p q → Exclusive p → Exclusive q
unfolding spawn_call end_thread join_thread
Move-Exclusive {p} (reserves i name services advertising e) v =
    reserve_call-Exclusive name services advertising i p e v
Move-Exclusive {p} (spawns i (some x) e) v = Exclusive-release p v i absent (rw e refl) refl
Move-Exclusive {p} (spawns i none e) v = Exclusive-keep p v i running (rw e refl)
Move-Exclusive {p} (ends i joined e) v = Exclusive-release p v i (released joined) (rw e refl) refl
Move-Exclusive {p} (joins i joined e) v = Exclusive-keep p v i absent (rw e refl)

Reach-Exclusive : {App : Type 0} {p : Process} → Reach App p → Exclusive p
Reach-Exclusive start_of = at_rest-Exclusive
Reach-Exclusive (later r m) = Move-Exclusive m (Reach-Exclusive r)

-- Whatever calls of `start` a process makes from whatever threads, with any inputs, and however their
-- threads fail to start or end: no two of them have the runtime at once, and a new call with a valid
-- database and advertising data is refused exactly while one of them has it.
pub one_owner :
    {App : Type 0} (p : Process) (name bytes : List ℕ) (services : List (GattService App))
    (advertising : Option AdvertisingData)
    → Reach App p
    → payload name services advertising ≡ ok bytes
    → ((i j : ℕ) → owns (p.phase i) ≡ true → owns (p.phase j) ≡ true → i ≡ j)
      × (((reserve p.active name services advertising).0 ≡ err already_active)
          ↔ ((i : ℕ) × (owns (p.phase i) ≡ true)))
unfolding reserve
one_owner p name bytes services advertising r e =
    let v = Reach-Exclusive r in
    (
      v.one,
      ((λ h. v.held (ground (arith, e, h))), λ (i, o). let a = v.taken i o in ground (arith, e, a)),
    )
