-- ===== src/Lib.antt =====
-- A verification library for the server of tccelta: dongles on OBD-II ports send signed blocks of
-- telemetry through a phone, and the server (backend/, in Go) authenticates each dongle with a
-- challenge, receives its blocks in batches, and confirms them with an ACK.
--
-- The parts and the files:
--   Common: shared names, lists and tests over native numbers, results, little-endian bytes, int32
--   words, texts as bytes, maps. No program logic.
--   Protocol (backend/internal/domain/protocol/tlv.go, block.go, messages.go): `Identity` has
--   DevID, TagInput, CompareTag and the profiles; `Tlv` ReadTLV, ReadBatch and AppendTLV; `Block`
--   DecodeBlock; `Records` ReadRecords; `Builder` BlockBuilder, BuildMarker and BuildBlockTLV;
--   `Messages` the messages 0x01, 0x02 and 0x04.
--   Ingestion (backend/internal/domain/ingestion/apply.go): `Generation` is assignGeneration,
--   `Apply` the function Apply with one function for each case of its loop.
--   Handshake (backend/internal/domain/handshake/rules.go): ApplyTail, EvaluateAnchor,
--   HandshakeGeneration and the roundings to a microsecond.
--   Guards (backend/internal/platform/breaker/breaker.go, backend/internal/http/ratelimit/ratelimit.go):
--   `Breaker` is the circuit breaker, `RateLimit` the local window of a minute and its fallback
--   over Redis, whose counter is an argument; a call is one step.
--   Registry (backend/internal/domain/dongle/dongle.go): the dongles, their state and VerifyAccess;
--   `Cache` (backend/internal/adapter/cache/dongles.go) is the cache in front of their repository.
--   Memory (backend/internal/adapter/memory/memory.go): the repositories of the handshake as
--   operations on a database, and its transaction (InTransaction, clone, restore); `Lifecycle` is their step
--   relation (with `Expiry`, challenges.Expire of backend/internal/adapter/memory/worker.go), `Replay` what it
--   keeps.
--   Timeline (backend/internal/domain/timeline/timeline.go): Unwrap, which extends a counter of 32
--   bits by a reference; `Groups` is GroupAnchors, `Fit` the line through the groups and the estimates
--   from anchors and from neighbours.
--   BootTime (backend/internal/usecase/boottime/boottime.go): ProcessOne, which takes a boot off the queue
--   (Boots/Queue) and calculates its time.
--   Exchange (backend/internal/usecase/handshake/issue_challenge.go, respond_challenge.go): the use
--   case IssueChallenge, and `Respond` for RespondChallenge, whose transaction is an `Action` (the
--   state passing with errors of Memory/Action); the answers of the KMS, the tokens, the random bytes
--   and the clock are arguments. Lock and EnsurePending do nothing in memory and are left out.
--   Pid (backend/internal/domain/pid): the catalogue and Decode.
--   Batch (backend/internal/usecase/ingestion/receive_batch.go, get_confirmation.go): `Verify` is what
--   ReceiveBatch does before its transaction, `Derive` and `Store` the rows of the batch, `Receive` the
--   transaction and Run, `Confirm` GetConfirmation, `Authenticate` the session of a token
--   (backend/internal/usecase/session/authenticate.go); the row types are in Ingestion/Rows, the tables in
--   Memory and the operations on them in Memory/Blocks. `Protocol.Signature` has the ECDSA tags
--   (backend/internal/domain/protocol/signature.go).
--   Trip (backend/internal/domain/trip/trip.go, request.go, list.go): a trip, its draft and its errors;
--   `Request` is NewDraft, `Listing` the cursors and pages, `Analysed` the entry of an analysis
--   (backend/internal/domain/tripanalysis/input.go), `Rows` and `Insert` the repository of the trips
--   (backend/internal/adapter/memory/trips.go), `Create` CreateTrip and GetTrip
--   (backend/internal/usecase/trip/create_trip.go, get_trip.go), `Calculate` the transaction of a
--   calculation (backend/internal/usecase/tripcalc/calculator.go), whose result is an argument.
--   `Lifecycle` is the step relation of the trips, with the operations as the use cases call them;
--   `Unique` is about all of them, `Moves` and `Onward` about what becomes of one.
--   Boots: the rows of the table boot (backend/internal/adapter/memory/worker.go) and the generation of
--   a boot; Memory/Tables adds the tables of boots, stored blocks and trips to those of Memory.
--   Reprocess (backend/internal/usecase/reprocess/reprocess.go): the readings and positions made again
--   from the stored blocks; `Store` has its operations on the tables (worker.go), `Window`, `Decoded`,
--   `Rounds` and `Rebuilt` follow its loop from one window to the whole.
--   Credentials (backend/internal/domain/clientauth/clientauth.go): the form of client credentials and
--   the policy of the block; `Counters` and `Store` (backend/internal/adapter/authblock/authblock.go)
--   count the failures, `Token` (backend/internal/usecase/clienttoken/clienttoken.go) is IssueToken over
--   the interface `Blocker`, which `local` fills with the counters of one replica.
--
-- Ingestion reads blocks by Protocol; the handshake infers the generation that Ingestion assigns. The
-- use cases Exchange and Batch share the database of Memory and its transaction. Trip reads the state
-- of a dongle and its boots; Reprocess reads blocks as Batch does and marks the trips it touches.
--
-- Representation: a byte is a number below 256 and a slice or a string the list of its bytes;
-- uint16 and uint32 are numbers with the wrap-around written out; int32 is an integer with its bit
-- pattern. int64 wraps in Unwrap; elsewhere it is taken as unbounded. A Go pair (value, error) is a `Result`; what a Go function returns beside an error
-- is left out, but for the time to wait of IssueChallenge: no caller uses it, except that the command
-- that reprocesses prints the summary of a run that has failed. Strings that the code compares only with constants
-- (reason, action, marker, cause) are data types. The catalogue of PIDs is a function from a PID to
-- its definition, if there is one. A text of a trip is the list of its runes, and what the code takes of
-- the packages strings, unicode, time, base64 and uuid is an argument.
--
-- Loops: those over a slice recur on the list. ReadBatch and ReadRecords take fuel, the length of
-- their input: a round takes three bytes at least in the one and five in the other. The result
-- `stuck`, which is no Go value, stands for a loop that runs out of fuel.
--
-- VerifyBlocks of the KMS is called for slices of the blocks, with fuel for one slice per block. A float
-- is its bit pattern, and the operations on floats are an argument.
--
-- The loop of the reprocessing takes as fuel one round more than its range has seqs, since each round
-- starts behind the last block of the round before; its transaction is tried five times, as in the code.
-- CreateTrip has three attempts, each an argument with the tables that its statements see.
--
-- Not modelled: the analysis of trips and the loading of its data (floating point), HTTP, SQL, the KMS
-- service and its Vault client, the scheduling of the workers and what calculates a trip, the
-- firmware, the app and the front end. Logs, metrics and the JSON details of alerts are left out of the
-- use cases.
pub mod Common
pub mod Protocol
pub mod Guards
pub mod Ingestion
pub mod Handshake
pub mod Registry
pub mod Memory
pub mod Pid
pub mod Batch
pub mod Credentials
pub mod Boots
pub mod BootTime
pub mod Reprocess
pub mod Timeline
pub mod Exchange
pub mod Trip
