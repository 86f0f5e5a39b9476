-- ===== src/Tests/Attributes.antt =====
-- Reads and writes of btstack-core/src/runtime.rs at concrete inputs.
use btstack_gatt_rs.Prelude.{
  ℕ, ◌≡◌, ◌↔◌, inr, refl, true, false, [], ◌∷◌, some, arith, take, nat_eq,
}
use btstack_gatt_rs.Runtime.{State, find_attribute}
use btstack_gatt_rs.Runtime.Read.{read}
use btstack_gatt_rs.Runtime.Read.Bounds.{IsAnswer, read-IsAnswer}
use btstack_gatt_rs.Runtime.Snapshot.{read_long, read_long-whole}
use btstack_gatt_rs.Runtime.Write.{write}
use btstack_gatt_rs.Runtime.Write.Effects.{Isolated, write-Isolated, write_failed}
use btstack_gatt_rs.Runtime.Write.Success.{WriteAllowed, write-WriteAllowed}
use btstack_gatt_rs.Runtime.Write.Values.{read-write_cccd, read-write_value}
use btstack_gatt_rs.Tests.World.{
  counter_read, counter_write, attribute, peer, waiting, busy, busy-Inv,
}

abbrev idle : State ℕ
idle = busy []

value_found : find_attribute idle 3 ≡ some attribute
unfolding find_attribute
value_found = refl

cccd_found : find_attribute idle 4 ≡ some attribute
unfolding find_attribute
cccd_found = refl

read_long-whole_example :
    let (s1, app1, r) = read idle 41 64 3 0 true 0 in
    (r.code ≡ 3) × (app1 ≡ 42) × (read_long 513 s1 app1 64 3 0 2 ≡ (s1, 42, 41 ∷ 7 ∷ 8 ∷ []))
read_long-whole_example =
    read_long-whole idle 41 42 peer attribute 64 2 counter_read (41 ∷ 7 ∷ 8 ∷ []) refl value_found
      refl refl (omega arith) (omega arith)

read-IsAnswer_example :
    IsAnswer false 2 (read (busy (waiting 1 ∷ waiting 2 ∷ [])) 41 64 3 1 false 2).2
read-IsAnswer_example = read-IsAnswer (busy (waiting 1 ∷ waiting 2 ∷ [])) 41 64 3 1 false 2 busy-Inv

-- Past the end of the value: the code for an invalid offset.
read_past : (read idle 41 64 3 4 false 2).2 ≡ record { code = 0xfe07; copied = [] }
unfolding read find_attribute
read_past = refl

read-write_cccd_example :
    let (s', app', code) = write idle 41 64 4 0 0 (0 ∷ 0 ∷ []) in
    (code ≡ 0)
    × (app' ≡ 41)
    × (s'.subscriptions (64, 3) ≡ some false)
    × ((read s' app' 64 4 0 false 16).2 ≡ record { code = 2; copied = 0 ∷ 0 ∷ [] })
read-write_cccd_example =
    read-write_cccd idle 41 peer attribute 64 refl 4 0 16 cccd_found (ground arith) (omega arith)
      (omega arith)

read-write_value_example :
    let (s', app', code) = write idle 41 64 3 0 0 (9 ∷ 9 ∷ []) in
    let (s'', app'', r) = read s' app' 64 3 0 false 2 in
    (code ≡ 0) × (app'' ≡ 3) × (r.copied ≡ take 2 (2 ∷ 7 ∷ 8 ∷ []))
read-write_value_example =
    read-write_value idle 41 peer attribute 64 refl counter_write counter_read 2 3 (9 ∷ 9 ∷ [])
      (2 ∷ 7 ∷ 8 ∷ []) 2 value_found refl refl (omega arith) refl refl (omega arith)

write-WriteAllowed_example :
    ((write idle 41 64 3 0 0 (9 ∷ [])).2 ≡ 0) ↔ WriteAllowed idle 41 64 3 0 0 (9 ∷ [])
write-WriteAllowed_example = write-WriteAllowed idle 41 64 3 0 0 (9 ∷ [])

nine_allowed : WriteAllowed idle 41 64 3 0 0 (9 ∷ [])
nine_allowed = (
  refl,
  refl,
  peer,
  attribute,
  refl,
  value_found,
  inr (refl, omega arith, (counter_write, refl, refl)),
)

write-Isolated_example : Isolated 64 idle (write idle 41 64 4 0 0 (1 ∷ 0 ∷ [])).0
write-Isolated_example = write-Isolated idle 41 64 4 0 0 (1 ∷ 0 ∷ [])

-- A CCCD cannot hold 2.
bad_cccd : (write idle 41 64 4 0 0 (2 ∷ 0 ∷ [])).2 ≡ 19
unfolding write find_attribute
bad_cccd = refl

write_failed_example : (write idle 41 64 4 0 0 (2 ∷ 0 ∷ [])).0 ≡ idle
write_failed_example = write_failed idle 41 64 4 0 0 (2 ∷ 0 ∷ []) (λ e. ground (arith, bad_cccd, e))
