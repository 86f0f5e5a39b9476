-- ===== src/Runtime/Start/Reserve.antt =====
-- The checks before the thread (btstack-core/src/runtime.rs, `start_with_advertising`).
use btstack_gatt_rs.Prelude.{
  ℕ, ◌≡◌, ◌↔◌, refl, Bool, false, List, Option, none, some, ok, err, arith, Result-cases, inl, inr,
}
use btstack_gatt_rs.Types.{Error}
use btstack_gatt_rs.Advertising.{AdvertisingData}
use btstack_gatt_rs.Advertising.Fields.{Fits}
use btstack_gatt_rs.Advertising.Bounds.{encoding, to_bytes_inv, to_bytes_of_Fits}
use btstack_gatt_rs.Gatt.{GattService}
use btstack_gatt_rs.Gatt.Validate.{validate}
use btstack_gatt_rs.Gatt.Validity.{IsValidDatabase, name_only, validate-IsValidDatabase}
use btstack_gatt_rs.Runtime.Start.{payload, reserve}

-- The payload that is to be advertised: the explicit one, or the name by default.
abbrev pub Advertises : List ℕ → Option AdvertisingData → List ℕ → Type 0
Advertises name none bytes = bytes ≡ name_only name
Advertises name (some d) bytes = Fits d × (bytes ≡ encoding d)

module _ {App : Type 0} where
  payload-Advertises :
      (name : List ℕ) (services : List (GattService App)) (advertising : Option AdvertisingData)
      (bytes : List ℕ)
      → (payload name services advertising ≡ ok bytes)
        ↔ (IsValidDatabase name services × Advertises name advertising bytes)
  unfolding payload
  payload-Advertises name services none bytes = (
    (λ h. (validate-IsValidDatabase name bytes services).0 (ground (arith, h))),
    λ v. ground (arith, (validate-IsValidDatabase name bytes services).1 v),
  )
  payload-Advertises name services (some d) bytes = (
    (λ h. elim (Result-cases (validate name services)) [
      | inl (b, e) ↦ (
        ((validate-IsValidDatabase name b services).0 e).0,
        to_bytes_inv d bytes (ground (arith, h, e)),
      )
      | inr (x, e) ↦ absurd (ground (arith, h, e))
    ]),
    λ (v, a).
        let valid = (validate-IsValidDatabase name (name_only name) services).1 (v, refl) in
        let fits = to_bytes_of_Fits d a.0 in ground (arith, valid, fits, a.1),
  )

  pub reserve_inv :
      (active : Bool) (name : List ℕ) (services : List (GattService App))
      (advertising : Option AdvertisingData) (bytes : List ℕ)
      → (reserve active name services advertising).0 ≡ ok bytes
      → (active ≡ false) × (payload name services advertising ≡ ok bytes)
  unfolding reserve
  reserve_inv active name services advertising bytes h = ground arith

  -- A start goes on to the thread exactly if no other runtime is active, the database is valid, also
  -- where explicit advertising data replaces the name, and that data fits; and then with the payload that
  -- was asked for.
  pub reserve-Advertises :
      (active : Bool) (name : List ℕ) (services : List (GattService App))
      (advertising : Option AdvertisingData) (bytes : List ℕ)
      → ((reserve active name services advertising).0 ≡ ok bytes)
        ↔ ((active ≡ false) × IsValidDatabase name services × Advertises name advertising bytes)
  unfolding reserve
  reserve-Advertises active name services advertising bytes =
      let p = payload-Advertises name services advertising bytes in
      (
        (λ h.
            let (a, e) = reserve_inv active name services advertising bytes h in
            (a, (p.0 e).0, (p.0 e).1)),
        λ (a, v, d). let e = p.1 (v, d) in ground (arith, a, e),
      )

  -- A start that is refused leaves the process as it was: what was active stays so, and what was not is
  -- not reserved.
  pub reserve_failed :
      (active : Bool) (name : List ℕ) (services : List (GattService App))
      (advertising : Option AdvertisingData) (e : Error)
      → (reserve active name services advertising).0 ≡ err e
      → (reserve active name services advertising).1 ≡ active
  unfolding reserve
  reserve_failed active name services advertising e h = ground arith
