-- ===== src/Runtime/Snapshot.antt =====
-- Long reads (`read` of btstack-core/src/runtime.rs): a length probe takes a snapshot of the value, and
-- the copies that follow read parts of that snapshot.
use btstack_gatt_rs.Prelude.{
  ℕ, zero, suc, ◌+◌, ◌-◌, ◌≤◌, ◌<◌, ◌≡◌, refl, true, false, List, [], ◌++◌, some, ok, returned,
  arith, length, take, drop, min, length-drop, drop-drop, take-append-drop, take_of_le, take-min,
  ap, if◌then◌else◌, ltb, inl, inr, nat_eq, pair_eq, insert_key, Bool-cases,
}
use btstack_gatt_rs.Gatt.{GattConnection, ReadHandler}
use btstack_gatt_rs.Runtime.{Attribute, State, find_attribute}
use btstack_gatt_rs.Runtime.Read.{status, caught, fetch, deliver, store, read}

-- What is copied from a stored value of at most 512 bytes: the part at the offset, as far as the
-- buffer goes.
deliver_part :
    (value : List ℕ) (offset size : ℕ)
    → offset ≤ length value
    → length value ≤ 512
    → deliver (some value) offset false size
      ≡ returned (record {
        code = min (length value - offset) size;
        copied = take size (drop offset value);
      })
unfolding deliver
deliver_part value offset size h l =
    ground (arith, length-drop offset value, take-min size (drop offset value))

module _ {App : Type 0} where
  -- The request reaches an attribute of a live connection, whose value `value` is stored.
  pub record Stored (s : State App) (connection attribute : ℕ) (value : List ℕ) : Type 0 where
    pub peer : GattConnection
    pub live : s.connections connection ≡ some peer
    pub target : Attribute App
    pub found : find_attribute s attribute ≡ some target
    pub snapshot : s.reads (connection, attribute) ≡ some value

  -- A copy from a stored value.
  pub read-Stored :
      (s : State App) (app : App) (connection attribute offset size : ℕ) (value : List ℕ)
      → Stored s connection attribute value
      → read s app connection attribute offset false size
        ≡ (s, app, caught (deliver (some value) offset false size))
  unfolding read
  read-Stored s app connection attribute offset size value t =
      ground (arith, t.live, t.found, t.snapshot)

  -- The client's loop: copy after copy, from where the last one ended, until one is short.
  pub read_long : ℕ → State App → App → ℕ → ℕ → ℕ → ℕ → State App × App × List ℕ
  read_long zero s app connection attribute offset size = (s, app, [])
  read_long (suc fuel) s app connection attribute offset size =
      let (s', app', r) = read s app connection attribute offset false size in
      let (s'', app'', rest) = read_long fuel s' app' connection attribute (offset + r.code) size in
      if ltb r.code size then (s', app', r.copied) else (s'', app'', r.copied ++ rest)

  read_step :
      (s : State App) (app : App) (connection attribute offset size : ℕ) (value : List ℕ)
      → Stored s connection attribute value
      → offset ≤ length value
      → length value ≤ 512
      → read s app connection attribute offset false size ≡ (
        s,
        app,
        record { code = min (length value - offset) size; copied = take size (drop offset value) },
      )
  read_step s app connection attribute offset size value t o l = rw (
    read-Stored s app connection attribute offset size value t,
    deliver_part value offset size o l,
  )

  read_long-drop :
      (fuel : ℕ) (s : State App) (app : App) (connection attribute offset size : ℕ) (value : List ℕ)
      → Stored s connection attribute value
      → length value ≤ 512
      → 0 < size
      → offset ≤ length value
      → length value < offset + fuel
      → read_long fuel s app connection attribute offset size ≡ (s, app, drop offset value)
  unfolding read_long
  read_long-drop zero s app connection attribute offset size value t l p o f = absurd (omega arith)
  read_long-drop (suc fuel) s app connection attribute offset size value t l p o f =
      let part = drop offset value in
      let n = min (length value - offset) size in
      elim (Bool-cases (ltb n size)) [
        | inl short ↦
            rw (read_step s app connection attribute offset size value t o l, short)
              (ap (λ bs. (s, app, bs))
                (take_of_le size part (ground (arith, length-drop offset value))))
        | inr full ↦
            let ih =
              read_long-drop fuel s app connection attribute (offset + n) size value t l p
                (ground arith) (ground arith) in
            let e : n ≡ size = ground arith in
            let joined : take size part ++ drop (offset + n) value ≡ part =
              rw (e, ← drop-drop offset size value) (take-append-drop size part) in
            rw (read_step s app connection attribute offset size value t o l, full, ih)
              (ap (λ bs. (s, app, bs)) joined)
      ]

  -- A probe runs the handler, keeps its value and reports its length.
  read_probe :
      (s : State App) (app app' : App) (c : GattConnection) (a : Attribute App)
      (connection attribute size : ℕ) (value : List ℕ)
      → s.connections connection ≡ some c
      → find_attribute s attribute ≡ some a
      → fetch s app c a connection attribute ≡ (app', returned (ok value))
      → length value ≤ 512
      → read s app connection attribute 0 true size ≡ (
        record s { reads = insert_key (connection, attribute) value s.reads },
        app',
        status (length value),
      )
  unfolding read store deliver
  read_probe s app app' c a connection attribute size value live found fetched l =
      ground (arith, live, found, fetched)

  probe-Stored :
      (s : State App) (c : GattConnection) (a : Attribute App) (connection attribute : ℕ)
      (value : List ℕ)
      → s.connections connection ≡ some c
      → find_attribute s attribute ≡ some a
      → Stored
          (record s { reads = insert_key (connection, attribute) value s.reads })
          connection
          attribute
          value
  unfolding find_attribute
  probe-Stored s c a connection attribute value live found = record {
    peer = c;
    live = live;
    target = a;
    found = found;
    snapshot = ground arith;
  }

  pub fetch_value :
      (s : State App) (app app' : App) (c : GattConnection) (a : Attribute App) (connection : ℕ)
      (f : ReadHandler App) (value : List ℕ)
      → a.characteristic.read ≡ some f
      → f c app ≡ (app', returned (ok value))
      → length value ≤ 512
      → fetch s app c a connection a.handle ≡ (app', returned (ok value))
  unfolding fetch
  fetch_value s app app' c a connection f value readable answer l = ground (arith, readable, answer)

  -- A long read of a value whose handler returns at most 512 bytes: the probe runs the handler once
  -- and reports the length, and then a client that copies in parts of any size gets the whole value,
  -- with the application and the state as the probe left them.
  pub read_long-whole :
      (s : State App) (app app' : App) (c : GattConnection) (a : Attribute App)
      (connection size : ℕ) (f : ReadHandler App) (value : List ℕ)
      → s.connections connection ≡ some c
      → find_attribute s a.handle ≡ some a
      → a.characteristic.read ≡ some f
      → f c app ≡ (app', returned (ok value))
      → length value ≤ 512
      → 0 < size
      → let (s1, app1, r) = read s app connection a.handle 0 true 0 in
        (r.code ≡ length value)
        × (app1 ≡ app')
        × (read_long 513 s1 app1 connection a.handle 0 size ≡ (s1, app', value))
  read_long-whole s app app' c a connection size f value live found readable answer l p =
      let fetched = fetch_value s app app' c a connection f value readable answer l in
      let stored = probe-Stored s c a connection a.handle value live found in
      rw (read_probe s app app' c a connection a.handle 0 value live found fetched l) (
        refl,
        refl,
        read_long-drop 513 _ app' connection a.handle 0 size value stored l p (omega arith)
            (omega arith),
      )
