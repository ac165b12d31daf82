-- ===== src/Lib.antt =====
-- guard-daemon: the parts that decide how much a rescue may cost and who may run it.
--
-- The daemon watches compromised accounts and pays, from a sponsor's account, for transactions that
-- bring what they hold to safety. Before it signs, the coordinator (internal/rescue) asks the fee
-- policy for a quote and the budget ledger for a reservation; once it holds one it may expose a
-- signed transaction, and the ledger learns the final charge or that the reservation was not used.
-- One coordinator at a time works for a sponsor on a network: it holds a lease in the store. What it
-- does for an asset is an incident of the store, whose record is updated before each step. What it
-- reads of the chain is what all of a quorum of providers answer.
--
-- Prelude/*     tests on numbers, byte slices, ordered association lists and sums over them
-- Instant       time.Time as nanoseconds since a fixed second; times later than the 64-bit second
--               count from year 1 can tell are compared as numbers here
-- External      github.com/holiman/uint256, go.etcd.io/bbolt and SHA-256: parameters with their
--               documented behaviour as laws, an instance argument of all that uses them
-- Budget/Types, Budget/Cost     internal/budget/interfaces.go and the capacity tests of ledger.go
-- Budget/Codec                  internal/budget/codec.go: the records of the ledger's file
-- Budget/State, Budget/Usage    validation, times and collectUsage of internal/budget/ledger.go;
--                               Usage/Sums and Usage/Overruns describe its result by the records
-- Budget/Operations             Reserve, MarkExposed, CommitFinalized, ReleaseProvenUnused and
--                               CheckSponsorCapacity; Operations/Reserved states what Reserve
--                               does, Operations/Moves and Operations/Sums what the others do
-- Budget/Queries, Budget/Opening   the queries and the opening of a ledger (initialize)
-- Rpc/*                         internal/rpc/quorum.go: the collection of the providers' answers,
--                               their agreement, blocks, logs, receipts, the check of the providers;
--                               Logs/Order and Logs/Listed say what is kept of an answer's logs
-- Rescue/Fees                   internal/rescue/fees.go: BuildFeeQuote, EvaluateMinimumValue
-- Store/Types, Store/Lease      internal/store/lease.go: Acquire, Renew, Validate, Release, Lost
-- Store/Incident                internal/store/rescue_state.go: the record of an incident; Valid its
--                               check, Transition the rules and the diagram, Codec the records,
--                               Operations the calls, pruning, the check of the bucket, migration
-- Tests/*                       a concrete instance of External and a small run of each part
--
-- A function keeps its name in the source, in lower case with underscores. A handler takes the state
-- and returns a result with the state after it; a transaction that fails leaves the state alone. A
-- context is what its two checks see, on entry and inside the transaction; `now` is what the clock
-- reads. A `uint256.Int` and an array of bytes are numbers, a `NetworkID` its 64-bit pattern. Loops
-- are recursion on the list of entries, so no fuel is needed.
--
-- Not modelled: failures of the disk inside bbolt, the directories, modes and lock of the file that
-- Open makes, mutexes (each operation is one step), and the parts of the repository that are I/O or
-- orchestration (the clients of internal/rpc, internal/watcher, internal/config, internal/observability,
-- internal/contracts, cmd/guard-daemon). The candidates and blocks of internal/store are not modelled
-- here.
pub mod Prelude
pub mod Instant
pub mod External
pub mod Budget
pub mod Rpc
pub mod Rescue
pub mod Store
pub mod Tests
