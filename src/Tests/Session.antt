-- ===== src/Tests/Session.antt =====
-- The handle and the process of btstack-core/src/runtime.rs at concrete inputs.
use btstack_gatt_rs.Prelude.{
  ℕ, ◌<◌, ◌≡◌, ◌↔◌, ◌++◌, refl, true, false, List, [], ◌∷◌, none, some, ok, err, arith, length,
}
use btstack_gatt_rs.Types.{already_active, external, startup_timed_out}
use btstack_gatt_rs.Gatt.Validity.{name_only}
use btstack_gatt_rs.Runtime.Loop.{Loop, Step, Command, stop, notify, run}
use btstack_gatt_rs.Runtime.Loop.Commands.{answered, callers}
use btstack_gatt_rs.Runtime.Start.{reserve, payload}
use btstack_gatt_rs.Runtime.Session.{
  finished, thread_panic, join_result, shutdown, await_ready, Process, reserve_call, spawn_call,
}
use btstack_gatt_rs.Runtime.Session.Halting.{until_stop, Halts, shutdown-Halts}
use btstack_gatt_rs.Runtime.Session.Exclusion.{
  Reach, start_of, later, reserves, spawns, at_rest, owns, one_owner,
}
use btstack_gatt_rs.Tests.World.{uuid, counters, peer, toy, inbox, worker, started}

abbrev zhu : List ℕ
zhu = 90 ∷ 104 ∷ 117 ∷ []

-- The first call has a thread.
abbrev one_running : Process
one_running = spawn_call none 0 (reserve_call zhu (counters ∷ []) none 0 at_rest)

one_running-Reach : Reach ℕ one_running
unfolding reserve_call reserve btstack_gatt_rs.Gatt.Validate.validate
    btstack_gatt_rs.Advertising.contains btstack_gatt_rs.Gatt.has_bits
one_running-Reach =
    later (later start_of (reserves 0 zhu (counters ∷ []) none refl)) (spawns 0 none refl)

payload_valid : payload zhu (counters ∷ []) none ≡ ok (name_only zhu)
unfolding payload btstack_gatt_rs.Gatt.Validate.validate btstack_gatt_rs.Advertising.contains
    btstack_gatt_rs.Gatt.has_bits
payload_valid = refl

one_owner_example :
    ((i j : ℕ) → owns (one_running.phase i) ≡ true → owns (one_running.phase j) ≡ true → i ≡ j)
    × (((reserve one_running.active zhu (counters ∷ []) none).0 ≡ err already_active)
        ↔ ((i : ℕ) × (owns (one_running.phase i) ≡ true)))
one_owner_example =
    one_owner one_running zhu (name_only zhu) (counters ∷ []) none one_running-Reach payload_valid

-- A notification is ahead of the shutdown, and one is behind it.
abbrev halting : Loop toy inbox ℕ
halting = record {
  worker = worker [] [] [];
  started = started;
  commands = notify 1 peer (uuid 1) (9 ∷ []) ∷ [];
  closed = false;
  answers = [];
}

abbrev behind : List Command
behind = notify 2 peer (uuid 1) (9 ∷ []) ∷ []

short_queue : length halting.commands < 128
short_queue = omega arith

only_first : until_stop (halting.commands ++ stop ∷ behind) ≡ notify 1 peer (uuid 1) (9 ∷ []) ∷ []
unfolding until_stop
only_first = refl

shutdown-Halts_example :
    let (worker, queue, result) = shutdown false true halting.commands thread_panic in
    (worker ≡ false)
    × (result ≡ join_result thread_panic)
    × ((s : Step (Loop toy inbox ℕ)) × (run 3
            (record { arrived = behind; closed = false; elapsed = 5 } ∷ [])
            (record halting { commands = queue })
          ≡ some s)
        × Halts s (answered halting ++ callers (until_stop (halting.commands ++ stop ∷ behind))))
shutdown-Halts_example =
    shutdown-Halts 3 (record { arrived = behind; closed = false; elapsed = 5 }) [] halting
      thread_panic short_queue

-- A start that times out reports that only if its thread has no error of its own.
timed_out : (await_ready false [] (finished (ok tt))).2 ≡ err startup_timed_out
unfolding await_ready
timed_out = refl

own_error : (await_ready false [] (finished (err (external [])))).2 ≡ err (external [])
unfolding await_ready
own_error = refl
