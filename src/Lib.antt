-- ===== src/Lib.antt =====
-- monty-go: the Go client of the Monty worker, a sandboxed Python interpreter in a subprocess.
--
-- The client speaks a framed protobuf protocol. `wire.go` has the fields, frames and values,
-- `value.go` and `class_value.go` the value encoders and types, `snapshot.go` the dumps that carry
-- the worker's state with the host's budgets. `arena.go` sends the values of a message as one list of
-- nodes, `exception_data.go` and `protocol.go` the exceptions, events and requests; `print.go`
-- collects the events that are printed text. `session.go` drives a worker with these: a feed runs
-- until the worker suspends it at a call, and a later call answers it.
--
-- Files:
-- - Errors: Go's errors as data, `(value, error)` as `Result`, and `Run` for a closure that assigns
--   captured variables and returns an error.
-- - Wire/Proto: google.golang.org/protobuf/encoding/protowire, which is not of this repository, as
--   the parameter `Protowire`, with its documented behaviour as the hypotheses `Laws`.
-- - Wire/Fields, Wire/Parse: wire.go `fieldVarint` and the others, `parseFields`,
--   `consumeSingleField`; protocol.go `decodeStringField`, `decodeBytesField`, `decodeUint32List`;
--   arena.go `indexes`. Wire/Message and Wire/Invariant have the laws of `parseFields`.
-- - Wire/Frame: wire.go `writeFrame`, `readFrame`. Wire/Plain: a protowire for the examples.
-- - Snapshot: snapshot.go.
-- - Value, Value/Flat, Value/Encode, Value/Decode: value.go, class_value.go, the decoders of
--   wire.go, and `decodeModule` of module.go. The other files below Value have the proofs.
-- - Arena: arena.go. Arena/Encode has `arenaEncoder`, Arena/Decode `decodeArena`; the other files
--   below Arena have the proofs.
-- - Exceptions: exception_data.go in Exceptions/Payload, and `encodeRaised`, `decodeRaised` and
--   `decodeErrorEvent` of protocol.go in Exceptions/Raised, with the types of errors.go; the other
--   files below have the proofs.
-- - Events: protocol.go `decodeEvent`, `decodePrint`, `decodePrintSegments`, `decodeSourceRange`,
--   `decodeComplete`, `decodeFunctionCall`; Events/Kinds and Events/Total have the proofs.
--   Events/OsCall: `decodeOSCall`.
-- - Requests: protocol.go `encodeLimits`, `configureRequest`, `feedRequest` and the resume requests;
--   Requests/Order has the proofs.
-- - Session: session.go. Session/Exchange has `executionExchange` and `observeEvent`, Session/Advance
--   `progress`, Session/Operations the critical sections of `FeedStart`, `runState.exchange`, `Close`,
--   `snapshotDump`, `Dump` and `InstallDependencies`, Session/Load the loads, Session/Resume
--   the methods that answer a snapshot. Session/Machine is the
--   step relation of a session that several goroutines share: each section under the mutex is a step.
--   The worker is the list of its replies. The other files below Session have the proofs.
-- - Pool: pool.go `New`, `Checkout`, `release` and `Close`, section by section; Pool/Machine is the
--   step relation of a pool whose goroutines interleave, and the other files below have the proofs.
-- - OsPolicy: os_policy.go; OsPolicy/Seeds and OsPolicy/Cap have the proofs.
-- - Print: print.go; Print/Cap has the proofs.
-- - Examples: concrete runs.
--
-- Strings and byte slices are lists of bytes, a float is its IEEE 754 bit pattern, machine integers
-- are numbers with their conversions written out, and a Go map with a few keys is a list of keys.
-- A loop over bytes has the number of bytes as fuel, which is enough since each round takes a byte;
-- the recursions of `decodeValue` and `addLegacy` have one more than that, since a nested message is
-- shorter than its parent. `progress` calls itself once for each reply to an abort, so it is a
-- recursion on the replies; without a reply it waits. The length of a number in bits takes at most
-- as many rounds as the number.
--
-- Not modelled: reflection on host types in `encodeValue` (structs, maps, pointers); the options
-- of a feed, `FeedRun`, `ResumeAuto`, the futures and the callbacks of the host; the options of the
-- pool and the processes of its workers, the lookup in modules, host functions, the installer. Go's
-- limit on the stack is not modelled either, nor that the step of a run wraps after 2 ^ 64 answers.
mod Common
mod Errors
pub mod Wire
pub mod Snapshot
pub mod Value
pub mod Arena
pub mod Exceptions
pub mod Events
pub mod Requests
pub mod Session
pub mod OsPolicy
pub mod Pool
pub mod Print
mod Examples
