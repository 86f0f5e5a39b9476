-- ===== src/Runtime/Start/Handles.antt =====
-- The handles of the registered attributes (btstack-core/src/runtime.rs, `start_with_advertising`).
-- BTstack allocates them; what it documents of that is a hypothesis here.
use mathlib.Core.List.{append-nil, append_assoc, map-append}
use btstack_gatt_rs.Prelude.{
  ℕ, zero, suc, ◌+◌, ◌≤◌, ◌<◌, ◌≡◌, true, false, List, [], ◌∷◌, ◌++◌, some, arith, find, get_elem?,
  map, if◌then◌else◌, nat_eq, ◌∙◌, sym, subst,
}
use btstack_gatt_rs.Gatt.{GattCharacteristic, GattService, has_bits}
use btstack_gatt_rs.Gatt.Fresh.{all_characteristics}
use btstack_gatt_rs.Runtime.{Attribute, answers, find_attribute}
use btstack_gatt_rs.Runtime.Bridge.{Stack, Transport}
use btstack_gatt_rs.Runtime.Start.{register_characteristics, register_services, prepare}

-- Handles rise; a characteristic that notifies has its CCCD right behind its value, and the next
-- attribute comes behind both. `next` bounds what has been allocated.
pub record Allocates (K : Stack) : Type 0 where
  pub next : K.S → ℕ
  pub service_above : (u : List ℕ) (s : K.S) → next s ≤ next (K.add_service u s)
  pub value_above : (u : List ℕ) (p : ℕ) (s : K.S) → next s ≤ (K.add_characteristic u p s).1
  pub next_above :
      (u : List ℕ) (p : ℕ) (s : K.S)
      → (K.add_characteristic u p s).1 < next (K.add_characteristic u p s).0
  pub cccd_reserved :
      (u : List ℕ) (p : ℕ) (s : K.S)
      → has_bits p 16 ≡ true
      → (K.add_characteristic u p s).1 + 1 < next (K.add_characteristic u p s).0

module _ {App : Type 0} where
  -- The last handle that an attribute answers to.
  abbrev pub end_of : Attribute App → ℕ
  end_of a = if has_bits a.characteristic.properties 16 then a.handle + 1 else a.handle

  -- The attributes lie one behind the other between two bounds.
  abbrev pub Spaced : ℕ → List (Attribute App) → ℕ → Type 0
  Spaced lo [] hi = lo ≤ hi
  Spaced lo (a ∷ rest) hi = (lo ≤ a.handle) × (end_of a < hi) × Spaced (end_of a + 1) rest hi

  Spaced-append :
      (lo mid hi : ℕ) (xs : List (Attribute App)) (a : Attribute App)
      → Spaced lo xs mid
      → mid ≤ a.handle
      → end_of a < hi
      → Spaced lo (xs ++ a ∷ []) hi
  Spaced-append lo mid hi [] a s m h = ground (arith, s)
  Spaced-append lo mid hi (x ∷ xs) a s m h =
      (s.0, ground (arith, s.1), Spaced-append (end_of x + 1) mid hi xs a s.2 m h)

  Spaced-mono :
      (lo mid hi : ℕ) (xs : List (Attribute App)) → Spaced lo xs mid → mid ≤ hi → Spaced lo xs hi
  Spaced-mono lo mid hi [] s m = omega (arith, s)
  Spaced-mono lo mid hi (x ∷ xs) s m =
      (s.0, omega (arith, s.1), Spaced-mono (end_of x + 1) mid hi xs s.2 m)

  Spaced-bounds :
      (lo hi i : ℕ) (xs : List (Attribute App)) (a : Attribute App)
      → Spaced lo xs hi
      → get_elem? xs i ≡ some a
      → (lo ≤ a.handle) × (end_of a < hi)
  Spaced-bounds lo hi i [] a s e = cc
  Spaced-bounds lo hi zero (x ∷ xs) a s e = ground (arith, s)
  Spaced-bounds lo hi (suc i) (x ∷ xs) a s e =
      let r = Spaced-bounds (end_of x + 1) hi i xs a s.2 e in ground (arith, r, s.0)

  -- An attribute answers to its handle, and to the next one for its CCCD.
  abbrev pub Covers : Attribute App → ℕ → Type 0
  Covers a h = (a.handle ≤ h) × (h ≤ end_of a)

  answers_of : (a : Attribute App) (h : ℕ) → end_of a < 65536 → Covers a h → answers h a ≡ true
  unfolding answers
  answers_of a h l c = ground (arith, c)

  answers_not : (a : Attribute App) (h : ℕ) → end_of a < 65535 → end_of a < h → answers h a ≡ false
  unfolding answers
  answers_not a h l c = ground arith

  find-Spaced :
      (lo hi i h : ℕ) (xs : List (Attribute App)) (a : Attribute App)
      → Spaced lo xs hi
      → hi ≤ 65535
      → get_elem? xs i ≡ some a
      → Covers a h
      → find (answers h) xs ≡ some a
  unfolding find
  find-Spaced lo hi i h [] a s l e c = cc
  find-Spaced lo hi zero h (x ∷ xs) a s l e c =
      let same : a ≡ x = cc in
      rw (answers_of x h (omega (arith, s.1)) (subst (λ b. Covers b h) same c)) e
  find-Spaced lo hi (suc i) h (x ∷ xs) a s l e c =
      let b = Spaced-bounds (end_of x + 1) hi i xs a s.2 e in
      rw (answers_not x h (omega (arith, s.1)) (omega (arith, b.0, c.0)))
        (find-Spaced (end_of x + 1) hi i h xs a s.2 l e c)

  abbrev pub characteristics_of : List (Attribute App) → List (GattCharacteristic App)
  characteristics_of = map (λ a. a.characteristic)

module _ (K : Stack) {App : Type 0} where
  characteristics_of-register :
      (cs : List (GattCharacteristic App)) (r : K.S × List (Attribute App))
      → characteristics_of (register_characteristics K cs r).1 ≡ characteristics_of r.1 ++ cs
  unfolding register_characteristics
  characteristics_of-register [] r = sym (append-nil (characteristics_of r.1))
  characteristics_of-register (c ∷ cs) r =
      let (s, handle) = K.add_characteristic c.uuid c.properties r.0 in
      let a : Attribute App = record { handle = handle; characteristic = c } in
      characteristics_of-register cs (s, r.1 ++ a ∷ []) ∙ simp (map-append, append_assoc)

  characteristics_of-services :
      (vs : List (GattService App)) (r : K.S × List (Attribute App))
      → characteristics_of (register_services K vs r).1
        ≡ characteristics_of r.1 ++ all_characteristics vs
  unfolding register_services
  characteristics_of-services [] r = sym (append-nil (characteristics_of r.1))
  characteristics_of-services (v ∷ vs) r =
      let r' = register_characteristics K v.characteristics (K.add_service v.uuid r.0, r.1) in
      rw
        (
          characteristics_of-services vs r',
          characteristics_of-register v.characteristics (K.add_service v.uuid r.0, r.1),
        )
        (append_assoc (characteristics_of r.1) v.characteristics (all_characteristics vs))

  module _ (A : Allocates K) where
    register-Spaced :
        (cs : List (GattCharacteristic App)) (r : K.S × List (Attribute App))
        → Spaced 0 r.1 (A.next r.0)
        → let r' = register_characteristics K cs r in Spaced 0 r'.1 (A.next r'.0)
    unfolding register_characteristics
    register-Spaced [] r h = h
    register-Spaced (c ∷ cs) r h =
        let (s, handle) = K.add_characteristic c.uuid c.properties r.0 in
        let a : Attribute App = record { handle = handle; characteristic = c } in
        register-Spaced cs (s, r.1 ++ a ∷ [])
          (Spaced-append 0 (A.next r.0) (A.next s) r.1 a h (A.value_above c.uuid c.properties r.0) (
            ground (
              arith,
              A.next_above c.uuid c.properties r.0,
              A.cccd_reserved c.uuid c.properties r.0,
            )))

    services-Spaced :
        (vs : List (GattService App)) (r : K.S × List (Attribute App))
        → Spaced 0 r.1 (A.next r.0)
        → let r' = register_services K vs r in Spaced 0 r'.1 (A.next r'.0)
    unfolding register_services
    services-Spaced [] r h = h
    services-Spaced (v ∷ vs) r h =
        services-Spaced vs
          (register_characteristics K v.characteristics (K.add_service v.uuid r.0, r.1))
          (register-Spaced v.characteristics (K.add_service v.uuid r.0, r.1)
            (Spaced-mono 0 (A.next r.0) (A.next (K.add_service v.uuid r.0)) r.1 h
              (A.service_above v.uuid r.0)))

-- The thread starts with one attribute for each characteristic, in the order of the services, and no
-- other; and if the handles that BTstack allocates stay below 65535, a request for the handle of an
-- attribute finds that attribute, and so does one for the next handle, its CCCD, if it can notify.
pub prepare-finds :
    (K : Stack) (R : Transport) {App : Type 0} (A : Allocates K) (name : List ℕ)
    (services : List (GattService App)) (generation : ℕ) (app : App) (transport : R.T) (i h : ℕ)
    (a : Attribute App)
    → A.next (prepare {K = K} {R = R} name services generation app transport).stack ≤ 65535
    → get_elem? (prepare {K = K} {R = R} name services generation app transport).state.attributes i
      ≡ some a
    → Covers a h
    → let s = (prepare {K = K} {R = R} name services generation app transport).state in
      (characteristics_of s.attributes ≡ all_characteristics services)
      × (find_attribute s h ≡ some a)
unfolding prepare find_attribute
prepare-finds K R A name services generation app transport i h a room e c =
    let r = register_services K services (K.gap_name name K.init, []) in
    (
      characteristics_of-services K services (K.gap_name name K.init, []),
      find-Spaced 0 (A.next r.0) i h r.1 a
          (services-Spaced K A services (K.gap_name name K.init, []) (omega arith)) room e c,
    )
