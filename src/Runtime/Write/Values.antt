-- ===== src/Runtime/Write/Values.antt =====
-- What is read after a write (`write` and `read` of btstack-core/src/runtime.rs).
use btstack_gatt_rs.Prelude.{
  ℕ, ◌≡◌, ◌≢◌, ◌≤◌, false, List, [], ◌∷◌, none, some, ok, returned, arith, length, refl, ◌==◌,
  nat_eq, pair_eq, take, min, take-min, take_of_le, remove_key, insert_key,
}
use btstack_gatt_rs.Gatt.{GattConnection, WriteHandler, ReadHandler}
use btstack_gatt_rs.Runtime.{Attribute, State, find_attribute}
use btstack_gatt_rs.Runtime.Read.{read, Reply, cccd_value, fetch, store, deliver}
use btstack_gatt_rs.Runtime.Snapshot.{fetch_value}
use btstack_gatt_rs.Runtime.Write.{write, subscribe}

whole_reply :
    (size b : ℕ)
    → 2 ≤ size
    → ◌≡◌ {A = Reply}
        (record { code = min 2 size; copied = take size (b ∷ 0 ∷ []) })
        (record { code = 2; copied = b ∷ 0 ∷ [] })
whole_reply size b h =
    let e : min 2 size ≡ 2 = omega arith in rw (e, take_of_le size (b ∷ 0 ∷ []) h)

module _ {App : Type 0} where
  write_cccd_lem :
      (s : State App) (app : App) (c : GattConnection) (a : Attribute App)
      (connection attribute b : ℕ)
      → s.connections connection ≡ some c
      → find_attribute s attribute ≡ some a
      → a.handle ≢ attribute
      → b ≤ 1
      → write s app connection attribute 0 0 (b ∷ 0 ∷ [])
        ≡ (subscribe s c a connection attribute (b == 1), app, 0)
  unfolding write
  write_cccd_lem s app c a connection attribute b live found other l =
      ground (arith, live, found, other)

  write_value_lem :
      (s : State App) (app app' : App) (c : GattConnection) (a : Attribute App) (connection : ℕ)
      (w : WriteHandler App) (value : List ℕ)
      → s.connections connection ≡ some c
      → find_attribute s a.handle ≡ some a
      → a.characteristic.write ≡ some w
      → w c value app ≡ (app', returned (ok tt))
      → length value ≤ 512
      → write s app connection a.handle 0 0 value
        ≡ (record s { reads = remove_key (connection, a.handle) s.reads }, app', 0)
  unfolding write
  write_value_lem s app app' c a connection w value live found writable accepts l =
      ground (arith, live, found, writable, accepts)

  -- A copy that finds no snapshot fetches the value itself.
  read_fresh :
      (s : State App) (app app' : App) (c : GattConnection) (a : Attribute App)
      (connection attribute size : ℕ) (value : List ℕ)
      → s.connections connection ≡ some c
      → find_attribute s attribute ≡ some a
      → s.reads (connection, attribute) ≡ none
      → fetch s app c a connection attribute ≡ (app', returned (ok value))
      → length value ≤ 512
      → read s app connection attribute 0 false size ≡ (
        record s { reads = insert_key (connection, attribute) value s.reads },
        app',
        record { code = min (length value) size; copied = take size value },
      )
  unfolding read store deliver
  read_fresh s app app' c a connection attribute size value live found none_kept fetched l =
      ground (arith, live, found, none_kept, fetched, take-min size value)

  fetch_cccd :
      (s : State App) (app : App) (c : GattConnection) (a : Attribute App)
      (connection attribute b : ℕ)
      → a.handle ≢ attribute
      → cccd_value s connection a ≡ b ∷ 0 ∷ []
      → fetch s app c a connection attribute ≡ (app, returned (ok (b ∷ 0 ∷ [])))
  unfolding fetch
  fetch_cccd s app c a connection attribute b other e = ground (arith, other, e)

  module _ (s : State App) (app : App) (c : GattConnection) (a : Attribute App) (connection : ℕ)
      (live : s.connections connection ≡ some c) where
    -- A peer that writes 0 or 1 to a CCCD sets its subscription, without a call of the application,
    -- and reads back what it wrote with a buffer of at least two bytes.
    pub read-write_cccd :
        (attribute b size : ℕ)
        → find_attribute s attribute ≡ some a
        → a.handle ≢ attribute
        → b ≤ 1
        → 2 ≤ size
        → let (s', app', code) = write s app connection attribute 0 0 (b ∷ 0 ∷ []) in
          (code ≡ 0)
          × (app' ≡ app)
          × (s'.subscriptions (connection, a.handle) ≡ some (b == 1))
          × ((read s' app' connection attribute 0 false size).2
              ≡ record { code = 2; copied = b ∷ 0 ∷ [] })
    unfolding subscribe find_attribute cccd_value
    read-write_cccd attribute b size found other l m =
        let enabled = b == 1 in
        let s' = subscribe s c a connection attribute enabled in
        let fresh =
          read_fresh s' app app c a connection attribute size (b ∷ 0 ∷ []) live found (ground arith)
            (fetch_cccd s' app c a connection attribute b other (ground arith)) (omega arith) in
        rw (write_cccd_lem s app c a connection attribute b live found other l, fresh)
          (refl, refl, ground arith, whole_reply size b m)

    -- After an accepted write the snapshot is gone: the next copy runs the read handler on the
    -- application as the write handler left it, and gives its new value.
    pub read-write_value :
        (w : WriteHandler App) (f : ReadHandler App) (app1 app2 : App) (value value' : List ℕ)
        (size : ℕ)
        → find_attribute s a.handle ≡ some a
        → a.characteristic.write ≡ some w
        → w c value app ≡ (app1, returned (ok tt))
        → length value ≤ 512
        → a.characteristic.read ≡ some f
        → f c app1 ≡ (app2, returned (ok value'))
        → length value' ≤ 512
        → let (s', app', code) = write s app connection a.handle 0 0 value in
          let (s'', app'', r) = read s' app' connection a.handle 0 false size in
          (code ≡ 0) × (app'' ≡ app2) × (r.copied ≡ take size value')
    unfolding find_attribute
    read-write_value w f app1 app2 value value' size found writable accepts l readable answer k =
        let s' : State App = record s { reads = remove_key (connection, a.handle) s.reads } in
        let fresh =
          read_fresh s' app1 app2 c a connection a.handle size value' live found (ground arith)
            (fetch_value s' app1 app2 c a connection f value' readable answer k) k in
        rw (write_value_lem s app app1 c a connection w value live found writable accepts l, fresh)
          (refl, refl, refl)
