-- ===== src/Runtime/Read/Bounds.antt =====
-- The answers of `read` of btstack-core/src/runtime.rs: no copy runs past the buffer, and a length is
-- told apart from an error code.
use btstack_gatt_rs.Prelude.{
  ℕ, ◌≤◌, ◌≡◌, ◌⊎◌, inl, inr, refl, Bool, true, false, List, [], some, Result, ok, err, Outcome,
  returned, panicked, arith, Bool-cases, length, min, take, drop, insert_key, nat_eq, pair_eq,
  length-take, length-drop, ltb,
}
use btstack_gatt_rs.Gatt.{GattConnection, GattStatus}
use btstack_gatt_rs.Runtime.{State, Attribute}
use btstack_gatt_rs.Runtime.Read.{
  Reply, status, caught, fetch, checked, call_read, deliver, store, read,
}
use btstack_gatt_rs.Runtime.Read.Cases.{read_body_cases}
use btstack_gatt_rs.Runtime.Invariant.{Inv}
use btstack_gatt_rs.Runtime.Invariant.Accesses.{fetch-length}

-- A length of at most 512, with as many bytes copied if there is a buffer; or an error code, and
-- nothing copied. In no case are more than `size` bytes copied.
pub record IsAnswer (null : Bool) (size : ℕ) (r : Reply) : Type 0 where
  pub within : length r.copied ≤ size
  pub outcome : ((r.code ≤ 512) × (null ≡ false → length r.copied ≡ r.code)) ⊎ (0xfe00 ≤ r.code)
  pub probe : null ≡ true → r.copied ≡ []
  pub failure : 0xfe00 ≤ r.code → r.copied ≡ []

status-IsAnswer : (null : Bool) (size code : ℕ) → 0xfe00 ≤ code → IsAnswer null size (status code)
status-IsAnswer null size code h = record {
  within = omega arith;
  outcome = inr h;
  probe = λ e. refl;
  failure = λ e. refl;
}

deliver-IsAnswer :
    (value : List ℕ) (offset : ℕ) (null : Bool) (size : ℕ)
    → length value ≤ 512
    → IsAnswer null size (caught (deliver (some value) offset null size))
unfolding deliver
deliver-IsAnswer value offset true size l = elim (Bool-cases (ltb (length value) offset)) [
  | inl e ↦ rw e (status-IsAnswer true size 0xfe07 (omega arith))
  | inr e ↦ rw e (record {
    within = omega arith;
    outcome = inl (omega arith, λ f. cc);
    probe = λ f. refl;
    failure = λ f. refl;
  })
]
deliver-IsAnswer value offset false size l = elim (Bool-cases (ltb (length value) offset)) [
  | inl e ↦ rw e (status-IsAnswer false size 0xfe07 (omega arith))
  | inr e ↦
      let part = drop offset value in
      let n = min (length part) size in
      let copied : length (take n part) ≡ n = omega (arith, length-take n part) in
      let small : n ≤ 512 = omega (arith, length-drop offset value) in
      rw e (record {
        within = omega (arith, copied);
        outcome = inl (omega (arith, small), λ f. omega (arith, small, copied));
        probe = λ f. cc;
        failure = λ f. absurd (omega (arith, small));
      })
]

checked-code :
    (r : Outcome (Result (List ℕ) GattStatus)) (code : ℕ)
    → checked r ≡ returned (err code)
    → 0xfe00 ≤ code
unfolding checked
checked-code (returned (ok w)) code e = ground arith
checked-code (returned (err x)) code e = ground arith
checked-code panicked code e = cc

module _ {App : Type 0} where
  store-IsAnswer :
      (s : State App) (r : App × Outcome (Result (List ℕ) ℕ)) (connection attribute offset : ℕ)
      (null : Bool) (size : ℕ)
      → ((app' : App) (value : List ℕ) → r ≡ (app', returned (ok value)) → length value ≤ 512)
      → ((app' : App) (code : ℕ) → r ≡ (app', returned (err code)) → 0xfe00 ≤ code)
      → IsAnswer null size (caught (store s r (connection, attribute) offset null size).2)
  unfolding store
  store-IsAnswer s (app, returned (ok value)) connection attribute offset null size l k =
      let kept : insert_key (connection, attribute) value s.reads (connection, attribute)
          ≡ some value =
        ground arith in
      rw kept (deliver-IsAnswer value offset null size (l app value refl))
  store-IsAnswer s (app, returned (err code)) connection attribute offset null size l k =
      status-IsAnswer null size code (k app code refl)
  store-IsAnswer s (app, panicked) connection attribute offset null size l k =
      status-IsAnswer null size 0xfe0e (omega arith)

  fetch-code :
      (s : State App) (app app' : App) (c : GattConnection) (a : Attribute App)
      (connection attribute code : ℕ)
      → fetch s app c a connection attribute ≡ (app', returned (err code))
      → 0xfe00 ≤ code
  unfolding fetch
  fetch-code s app app' c a connection attribute code e =
      checked-code (call_read a.characteristic.read c app).1 code (ground arith)

  -- In a well-formed state, every answer of `read`, with any buffer, offset and request: a length of
  -- at most 512, with exactly that many bytes copied when there is a buffer, or a code from 0xfe00 up
  -- and nothing copied. The copy never runs past the `size` bytes of the buffer, whatever the handlers
  -- do.
  pub read-IsAnswer :
      (s : State App) (app : App) (connection attribute offset : ℕ) (null : Bool) (size : ℕ)
      → Inv s
      → IsAnswer null size (read s app connection attribute offset null size).2
  unfolding read
  read-IsAnswer s app connection attribute offset null size v =
      read_body_cases (λ r. IsAnswer null size (caught r.2)) s app connection attribute offset null
        size (status-IsAnswer null size 0xfe0e (omega arith))
        (status-IsAnswer null size 0xfe02 (omega arith))
        (λ c a e f.
          store-IsAnswer s (fetch s app c a connection attribute) connection attribute offset null
            size (λ app' value g. fetch-length s app app' c a connection attribute value g)
            (λ app' code g. fetch-code s app app' c a connection attribute code g))
        (λ value e f.
          deliver-IsAnswer value offset null size (v.cached connection attribute value e).1)
