-- ===== src/Lib.antt =====
-- A model of postgres-test-harness, the Rust crate that gives tests disposable PostgreSQL databases,
-- and theorems about it.
--
-- The program. A harness (src/harness.rs) works on a server (src/server.rs), its own container or an
-- external one. Every database it creates is named (src/name.rs) inside the namespace of a project
-- (src/config.rs) and tagged by a comment (src/metadata.rs); a template is identified by a
-- fingerprint of what it is built from (src/fingerprint.rs). Creation goes through an admission
-- (src/admission.rs) of counted connection permits, which closes for good once a failed creation
-- may have left a database behind. Deletion goes through a queue of cleanup jobs (src/cleanup.rs),
-- whose workers retain permits, close the admission and keep failures for a later drain. Requests
-- run on a pool of administration sessions (src/admin.rs). Prewarmed databases wait in a bounded
-- pool (src/harness.rs). A stale pass (src/harness.rs) drops old databases that no process owns.
--
-- Which file models which part.
--   Base          lists, texts as lists of bytes, tests, and src/error.rs (Base/Errors): `Error`
--                 keeps every variant; of an error of another crate it keeps an identity.
--   Semaphore     the laws of tokio's Semaphore that the crate relies on: a parameter.
--   Config        src/config.rs: ProjectName (Project), the profile, HarnessConfig, its setters and
--                 ConnectionLimits (Harness), configurations that setters can make (Usable), and
--                 image references (Image, References).
--   Fingerprint   src/fingerprint.rs: hexadecimal (Hex), length-prefixed frames (Frames), the
--                 builder and identities (Identity); SHA-256 is a parameter (Lineage).
--   Name          src/name.rs: DatabaseName, made and recognised. The UUID is a parameter.
--   Metadata      src/metadata.rs: numbers (Decimal), fields (Fields), ResourceMetadata (Resource).
--   Admin         src/admin.rs: statements and quoting (Statements), and the calls on a
--                 client (Client). The server is a parameter (Postgres): a state, a response to each
--                 request, and which databases exist, with laws on that last part only. Several
--                 calls in a row, that stop at the first error, are an action (Action). Deadlines
--                 and what is left of them (Deadlines), the calls that prepare a session and wait
--                 for a lock (Settings), and advisory keys (Keys). PostgreSQL's documented laws on
--                 a session's settings and advisory locks are a second parameter (Tracking), on
--                 which stands what a prepared session has (Configured).
--   Admission     src/admission.rs, and the creation of a managed database of src/admin.rs and
--                 src/server.rs (Creation). What a creation leaves alone is in Others, what it makes in
--                 Made, and where permits are in Permits.
--   Cleanup       src/cleanup.rs: completion, submission, workers and drains, each a function of
--                 the state under its mutex (Completion, Submission, Worker, Drain), and the steps
--                 that threads can take, in any order (Steps). Refinement compares a completion
--                 with the plain record of which jobs have completed.
--   Sessions      src/admin.rs: AdminSessionPool, its critical sections (Pool), a checkout and an
--                 execution (Checkout), and the steps of threads that share it (Sharing).
--   Prewarm       src/harness.rs: PrewarmPoolState and the operations on it (State, Pool), with what
--                 callers hold and every step they may take (World); its public handles (Handles).
--   Stale         src/harness.rs: the decision about a database (Classify) and the pass (Pass).
--   Readiness     src/harness.rs: whether recorded metadata is that of the template asked for.
--   Server        src/server.rs: how pools and queues are sized, and shutdown results (Policy); the
--                 cache of templates (Templates), and callers that share it (Flights); the start of a
--                 server on a connected session (Start); the pools that a server registers, and its
--                 shutdown, with what the workers do meanwhile as a parameter (Shutdown). Halted, Pools
--                 and Room are about its parts, Stopped about what it leaves, and Returned about
--                 its end.
--   Initialization
--                 src/harness.rs: the loop that takes a template's locks and decides whether the
--                 template is ready or to be made, and the end of an initialization, by `finish` or
--                 by `abort`, with the initializer as a parameter. The other files are one for each
--                 thing that is proved of it.
--   Lease         src/harness.rs and src/server.rs: what the deletion of a leased database does with
--                 its session, its slot in the prewarmed pool and its replacement (Disposal, Slots),
--                 and how a lease queues it.
--   Harness       src/harness.rs: making a lease of a fresh database, and leasing one of a
--                 prewarmed pool, each an await at a time; the filling of a pool (Prewarming), its
--                 shutdown (Closing), and `get_or_initialize_template` (Acquired). What other
--                 threads do at an await, or in a round of a loop, is a parameter (`meanwhile`,
--                 `Round`). The other files are one for each thing that is proved: where permits
--                 are (Leases), tokens (Ready), prewarmed databases (Filled), what a call leaves
--                 (Calls) and returns (Handles), and the rounds that are enough (Decided).
--   Container     src/server.rs: what a container's end says (Evidence), the thread that owns it with
--                 the handle that commands it (Worker), and the wait for PostgreSQL to answer, with
--                 the engine and the connection as parameters (Waiting); its address, asked for
--                 again until the startup timeout, and its bounded log (Resolution).
--   Tests         the theorems at concrete inputs, and a server in memory that meets the laws.
--
-- How state is modelled. A mutex's contents are a record, a critical section is a function from the
-- record to a result and the record after it, and a data type of steps (`Step`, `Reach`) lets the
-- critical sections of any number of threads follow each other in any order. A wait on a condition
-- variable is a result of its own (`waits`, `idle`, `full`, `none`), after which the caller tries
-- again. A panic is a result, too. A `Drop` is an operation, or the step of the guard it belongs to.
--
-- Bounds and fuel. Sequence numbers are bounded by u64 where the source checks it; a usize and the
-- counts of databases are natural numbers. The loop that advances a completion has the size of its
-- set as fuel, since each round takes one number out of it; the retry loop of a checkout has one
-- more round than there are idle sessions, since each retry drops one. The loops of
-- `begin_template` and `get_or_initialize_template`, and the waits for a container's address and
-- its PostgreSQL, have rounds as fuel, and a result of their own for when these are used up; the
-- theorems on them say how many rounds are enough, or hold of any number. Saturating subtraction is
-- subtraction that stops at 0. A duration is a number of nanoseconds.
--
-- Not modelled: a poisoned mutex and the error that a few calls return of one, since no code that
-- holds these mutexes panics in the states that the theorems are about; the image, the labels and
-- the settings that a container is requested with, exit hooks and the registry behind them;
-- `ServerInner::start_blocking`, which chooses between a container and an external server; the
-- accessors and status reports of the harness and its pools; AdminDatabaseUrl and the opening of a
-- connection, which is a result that is given; the reading of environment variables; the
-- asynchronous wrappers, which only move the modelled calls to a blocking thread; `Debug` output;
-- and the examples, which are benchmarks.
pub mod Base
pub mod Semaphore
pub mod Config
pub mod Fingerprint
pub mod Name
pub mod Metadata
pub mod Admin
pub mod Admission
pub mod Cleanup
pub mod Sessions
pub mod Prewarm
pub mod Stale
pub mod Readiness
pub mod Initialization
pub mod Lease
pub mod Harness
pub mod Server
pub mod Container
pub mod Tests
