-- ===== src/Lib.antt =====
-- btstack-gatt-rs: a GATT peripheral server in Rust on top of BTstack.
--
-- An application registers services whose characteristics have read and write handlers, and starts a
-- server. One thread owns BTstack, a C library, and the HCI transport. It takes commands from the
-- application, hands incoming packets to BTstack, answers BTstack's callbacks from the server's state,
-- and works off the events that BTstack posts. This development is about the crate btstack-core, which
-- holds all of that logic, about the builder of btstack-gatt in front of it, about the USB transport of
-- btstack-nusb behind it, and about the two examples.
--
-- Files and code (paths from the repository's root):
--   Types           btstack-core/src/lib.rs, and `Uuid`; a constructor of `Error` for each message
--   Advertising     btstack-core/src/advertising.rs: the builder and `to_bytes`
--   Gatt            btstack-core/src/gatt.rs: types and builders; Gatt/Validate is `validate`
--   Runtime         btstack-core/src/runtime.rs: `State` and the search for an attribute
--   Runtime/Packet  `validate_packet`
--   Runtime/Read    `read`; the buffer is the list of bytes copied
--   Runtime/Write   `write`
--   Runtime/Notify  the checks of `Command::Notify` in `run`
--   Runtime/Link    the arms 3, 4 and 7 of the loop over the events, and the queue of notifications
--   Runtime/Bridge  the C side and the transport as parameters, `event` and `send`
--   Runtime/Drain   `flush_notification` and the loop over the events
--   Runtime/Loop    `run`, turn by turn
--   Runtime/Stop    `stop_controller`
--   Runtime/Start   `start_with_advertising` and the guards of `notify`
--   Runtime/Session the waits in `start_with_advertising` and `notify`, `shutdown`, and the flag `ACTIVE`
--   Server          btstack-gatt/src/lib.rs: the builder
--   Usb             btstack-nusb/src/lib.rs: the device, its endpoints, the receiving thread, sending
--   Args            examples/gatt-peripheral/src/args.rs: the command line
--   Peripheral      examples/gatt-peripheral/src/main.rs: the service, and the loop of both examples;
--                   Peripheral/Main is `main`
--   Android         examples/gatt-peripheral-android/native/src: the session, and `serve`;
--                   Android/Output is `redirect_output`
-- The files below these hold the proofs, and are named for what they prove. Runtime/Invariant is the
-- well-formedness of the state. Runtime/Loop/Rule is what a part of a turn must keep for a property to hold
-- throughout the loop, and Runtime/Loop/Usual tells whether the events that the loop meets are usual ones.
-- Runtime/History is about the events that the application receives: its Moves are the steps of the thread
-- as a relation, its Runs show that the loop takes such steps and what follows from it, and its Stable is an
-- interface, a record of what each change of the tables must keep, from which a property follows for any
-- run. Runtime/Mailbox is the abstract view of the queue, a mailbox for each connection, and the abstract
-- machine that a run of the thread is a run of; its Handed is what goes to `rs_notify`. Prelude is shared:
-- tests, results, byte lists, hash maps.
-- Tests has runs at concrete inputs; Tests/Units are the unit tests of the crates, `mod tests` at the end of
-- their files, on the definitions.
--
-- How the code is modelled. A call of `sys::rs_*` is a well-founded tree of the callbacks that it makes,
-- each of which may depend on the answers to the earlier ones, and then of its result; `exec` runs it on
-- the state of the thread. So every statement about the loop holds for every behaviour of BTstack whose
-- calls return. The application is a state that its handlers read and change; a handler may panic, and
-- `catch_unwind` is written out. The transport may return, fail or panic. Hash maps are partial
-- functions where their order is not observed; the one that the examples go through is a list, and the
-- order of its values a parameter. Channels are lists. Machine arithmetic keeps its
-- wrap-around (`% 65536`), `saturating_sub` is subtraction that stops at 0, and `checked_add` and
-- `checked_mul` are bounded by 2 ^ 64.
--
-- Bounds and fuel. The loop over the events takes fuel; it is shown that some fuel is enough from every
-- state, since each flush either shortens the queue of notifications or posts no event. The loop over
-- commands runs 128 times, as in the code. The loop of the thread runs over a list of turns, each with
-- the commands that have arrived and the reading of the clock; the shutdown runs over the readings of
-- its clock.
--
-- Threads. What a wait or a `join` yields is an argument of the operation that waits. The threads of a
-- process that start a runtime are a step relation on the flag `ACTIVE` and on where each call is. The
-- receiving thread of the USB transport makes passes, in any order with the calls of `receive`. The loop
-- of the examples runs over a list of rounds, each with what it receives and the readings of its clock.
--
-- Not modelled: console output and logging, the C bridge and BTstack in btstack-sys and the library nusb
-- (parameters), what the system and nusb make of a file descriptor (arguments), and the tests on real
-- adapters. Three things are assumed, and only where they are named: of BTstack, that handles of attributes
-- rise and a characteristic that can notify has its CCCD right behind its value, and that a new connection
-- has a handle that is not in use; of nusb, that an endpoint completes its transfers in the order of their
-- submission.
pub mod Prelude
pub mod Types
pub mod Advertising
pub mod Gatt
pub mod Runtime
pub mod Server
pub mod Usb
pub mod Args
pub mod Peripheral
pub mod Android
pub mod Tests
