-- ===== src/Tests/World.antt =====
-- A small server for the tests: an application that counts, one service, a peer, and a BTstack and a
-- transport that do as little as they may.
use btstack_gatt_rs.Prelude.{
  ℕ, suc, ◌+◌, true, List, [], ◌∷◌, Option, none, some, Result, ok, Outcome, returned, arith,
  length, empty_map, insert_key, ◌==◌, nat_eq, pair_eq, if◌then◌else◌,
}
use btstack_gatt_rs.Types.{Uuid, Error, HciPacket}
use btstack_gatt_rs.Gatt.{
  GattConnection, GattCharacteristic, GattService, ReadHandler, WriteHandler, has_bits,
}
use btstack_gatt_rs.Runtime.{Attribute, Queued, State}
use btstack_gatt_rs.Runtime.Invariant.{Inv}
use btstack_gatt_rs.Runtime.Bridge.{Stack, Transport, return, call_event}
use btstack_gatt_rs.Runtime.Bridge.Worker.{Worker, Event}
use btstack_gatt_rs.Runtime.Drain.{Started}

-- The UUIDs that end in this byte.
abbrev pub uuid : ℕ → Uuid
uuid n = 110 ∷ 64 ∷ 0 ∷ 0 ∷ 181 ∷ 163 ∷ 243 ∷ 147 ∷ 224 ∷ 169 ∷ 229 ∷ 14 ∷ 36 ∷ 220 ∷ 202 ∷ n ∷ []

-- Reading gives the counter in three bytes and counts; writing sets the counter to the length.
abbrev pub counter_read : ReadHandler ℕ
counter_read c n = (suc n, returned (ok (n ∷ 7 ∷ 8 ∷ [])))

abbrev pub counter_write : WriteHandler ℕ
counter_write c value n = (length value, returned (ok tt))

abbrev pub counter : GattCharacteristic ℕ
counter = record {
  uuid = uuid 1;
  properties = 26;
  read = some counter_read;
  write = some counter_write;
}

abbrev pub counters : GattService ℕ
counters = record { uuid = uuid 0; characteristics = counter ∷ [] }

abbrev pub attribute : Attribute ℕ
attribute = record { handle = 3; characteristic = counter }

abbrev pub peer : GattConnection
peer = record { handle = 64; generation = 5; mtu = 23 }

abbrev pub waiting : ℕ → Queued
waiting b = record { connection = peer; attribute = 3; value = b ∷ [] }

-- A peer that has subscribed, with these bytes in the queue.
abbrev pub busy : List Queued → State ℕ
busy pending = record {
  attributes = attribute ∷ [];
  connections = insert_key 64 peer empty_map;
  subscriptions = insert_key (64, 3) true empty_map;
  reads = empty_map;
  pending = pending;
  events = [];
}

pub busy-Inv : Inv (busy (waiting 1 ∷ waiting 2 ∷ []))
busy-Inv = record {
  keyed = λ h c e. ground arith;
  subscribed = λ h a b e. ground arith;
  cached = λ h a v e. cc;
  queued = (
    record { live = ground arith; fits = omega arith },
    (record { live = ground arith; fits = omega arith }, tt),
  );
  bounded = omega arith;
}

-- A BTstack whose state is the next free handle: a service takes one, a characteristic two and one
-- more for a CCCD. It is off at 0. Each packet that it receives posts a connection, and each request to
-- send is answered by the permission to do so.
abbrev pub toy_add_characteristic : List ℕ → ℕ → ℕ → ℕ × ℕ
toy_add_characteristic u p s = (if has_bits p 16 then s + 3 else s + 2, s + 1)

abbrev pub toy : Stack
toy = record {
  S = ℕ;
  init = 1;
  gap_name = λ n s. s;
  add_service = λ u s. s + 1;
  add_characteristic = toy_add_characteristic;
  start = λ adv s. call_event 2 0 0 (return s 0);
  receive = λ k p s. call_event 3 64 23 (return s tt);
  poll = λ s. return s tt;
  request_send = λ h s. call_event 5 h 0 (return s tt);
  notify = λ h a v s. return s 0;
  stop = λ s. return 0 tt;
  is_off = λ s. s == 0;
}

abbrev pub inbox_receive :
    List HciPacket → List HciPacket × Outcome (Result (Option HciPacket) Error)
inbox_receive [] = ([], returned (ok none))
inbox_receive (p ∷ ps) = (ps, returned (ok (some p)))

-- A transport that sends everything and receives what is on its list.
abbrev pub inbox : Transport
inbox = record {
  T = List HciPacket;
  send = λ k p t. (t, returned (ok tt));
  receive = inbox_receive;
}

abbrev pub worker : List Queued → List Event → List HciPacket → Worker toy inbox ℕ
worker pending queue packets = record {
  state = busy pending;
  app = 0;
  queue = queue;
  failure = none;
  generation = 6;
  stack = 7;
  transport = packets;
}

abbrev pub started : Started
started = record { started = true; told = 1 }
