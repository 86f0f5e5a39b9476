-- ===== src/Runtime/Invariant/Accesses.antt =====
-- The invariant under the callbacks `read` and `write` of btstack-core/src/runtime.rs.
use btstack_gatt_rs.Prelude.{
  ℕ, ◌≤◌, ◌≡◌, ◌≢◌, inl, inr, refl, Bool, List, none, Result, ok, err, Outcome, returned, panicked,
  All-mono, arith, Bool-cases, length, insert_key, nat_eq, pair_eq, nat_beq,
}
use btstack_gatt_rs.Gatt.{GattConnection, GattStatus}
use btstack_gatt_rs.Runtime.{State, Attribute}
use btstack_gatt_rs.Runtime.Read.{fetch, checked, call_read, cccd_value, store, read}
use btstack_gatt_rs.Runtime.Read.Cases.{read_body_cases}
use btstack_gatt_rs.Runtime.Invariant.{Inv}

-- What a fresh read stores is at most 512 bytes long.
checked-length :
    (r : Outcome (Result (List ℕ) GattStatus)) (value : List ℕ)
    → checked r ≡ returned (ok value)
    → length value ≤ 512
unfolding checked
checked-length (returned (ok w)) value e = ground arith
checked-length (returned (err x)) value e = cc
checked-length panicked value e = cc

module _ {App : Type 0} where
  cccd-length :
      (s : State App) (connection : ℕ) (a : Attribute App)
      → length (cccd_value s connection a) ≤ 512
  unfolding cccd_value
  cccd-length s connection a = omega arith

  pub fetch-length :
      (s : State App) (app app' : App) (c : GattConnection) (a : Attribute App)
      (connection attribute : ℕ) (value : List ℕ)
      → fetch s app c a connection attribute ≡ (app', returned (ok value))
      → length value ≤ 512
  unfolding fetch
  fetch-length s app app' c a connection attribute value e =
      elim (Bool-cases (nat_beq a.handle attribute)) [
        | inl same ↦ checked-length (call_read a.characteristic.read c app).1 value (ground arith)
        | inr other ↦
            let w : value ≡ cccd_value s connection a = ground arith in
            rw w (cccd-length s connection a)
      ]

  cache-Inv :
      (s : State App) (connection attribute : ℕ) (value : List ℕ)
      → Inv s
      → s.connections connection ≢ none
      → length value ≤ 512
      → Inv (record s { reads = insert_key (connection, attribute) value s.reads })
  cache-Inv s connection attribute value v live l = record {
    keyed = v.keyed;
    subscribed = v.subscribed;
    cached = λ h a w e. ground (arith, v.cached h a w, live);
    queued = All-mono s.pending (λ q f. record { live = f.live; fits = f.fits }) v.queued;
    bounded = v.bounded;
  }

  store-Inv :
      (s : State App) (r : App × Outcome (Result (List ℕ) ℕ)) (connection attribute offset : ℕ)
      (null : Bool) (size : ℕ)
      → Inv s
      → s.connections connection ≢ none
      → ((app' : App) (value : List ℕ) → r ≡ (app', returned (ok value)) → length value ≤ 512)
      → Inv (store s r (connection, attribute) offset null size).0
  unfolding store
  store-Inv s (app, returned (ok value)) connection attribute offset null size v live l =
      cache-Inv s connection attribute value v live (l app value refl)
  store-Inv s (app, returned (err code)) connection attribute offset null size v live l = v
  store-Inv s (app, panicked) connection attribute offset null size v live l = v

  pub read-Inv :
      (s : State App) (app : App) (connection attribute offset : ℕ) (null : Bool) (size : ℕ)
      → Inv s
      → Inv (read s app connection attribute offset null size).0
  unfolding read
  read-Inv s app connection attribute offset null size v =
      read_body_cases (λ r. Inv r.0) s app connection attribute offset null size v v
        (λ c a e f.
          store-Inv s (fetch s app c a connection attribute) connection attribute offset null size v
            (ground arith) λ app' value g. fetch-length s app app' c a connection attribute value g)
        (λ value e f. v)
