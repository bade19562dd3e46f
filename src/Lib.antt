-- ===== src/Lib.antt =====
-- Verification library of ocserv-fleet-agent, a controller and agents for a fleet of VPN servers.
--
-- The agent (crates/ocfleet-agent) takes signed-in connections of controllers and of peers, and answers
-- one request on each: it admits the endpoint, checks the request's version, identifier, deadline,
-- nonce and timestamp, registers the nonce in its replay cache, authorizes the caller for the method
-- and only then runs it. The controller (crates/ocfleet-cli) keeps a store: among other things it keeps
-- the change requests that operators draft, dry-run, approve or reject, the claims of the scheduler's
-- jobs, the observations that the scheduler's runs bring, the health of each node that follows from them,
-- the rollups of that health, and the report on the level of service that sums up the rollups.
--
-- Which file is about which code:
--  Common: lists, options, results, texts, 64-bit words, signed integers, maps as association lists.
--  Protocol/Method, Protocol/Error, Protocol/Json: method.rs and error.rs of
--    crates/ocfleet-protocol/src, and the JSON values that requests carry.
--  Protocol/Frame: frame.rs of crates/ocfleet-protocol/src, a frame as its list of bytes.
--  Agent/Nonce: crates/ocfleet-agent/src/nonce.rs. `NonceCache` is its struct, `register_at` and
--    `prune_expired_at` its functions on an explicit clock; Heap and Peers are about its two parts,
--    Validity about its invariant, Replay about registrations and their sequences.
--  Agent/Authz: crates/ocfleet-agent/src/authz.rs, `AgentAuthorization` and its decisions.
--  Agent/AuditLimiter: crates/ocfleet-agent/src/audit_limiter.rs, its buckets and `check` on an explicit
--    clock. The label of a write is kept as the key that it is the text of. Rate is about one
--    bucket while it is kept, Bounds about the number of buckets, Accounts about the suppressed
--    rejections of the whole limiter.
--  Agent/Limiters: `ServerLimiters` of crates/ocfleet-agent/src/server.rs with its guards, and the two
--    gauges of metrics.rs for each resource. A semaphore is its number of free permits. The
--    connections and the streams have the same code on other fields, and one model, `Pool`. The tasks of
--    the server run these functions at the same time, so each step between two atomic operations is a
--    function of its own: `acquire_global`, `acquire_per_controller`, then `return_refused` or
--    `return_guard`; and for a guard `drop_guard`, `release_global`, `release_per_controller`. The pool
--    lists the callers that stand at each place, and `Event` interleaves the steps. Balance is about
--    sequences of them. The counter of rejections is counted with the step before it.
--  Agent/Server: crates/ocfleet-agent/src/server.rs from `validate_and_dispatch_request` down. Clock
--    is the test of the timestamp, Request the tests of the other fields, Authorize the table of
--    methods, Gate the whole function on the state that it reads and changes.
--  Cli/Slo: crates/ocfleet-cli/src/slo.rs, `project_health_slo`. Data, Checks and Report
--    are its code; Rows is about the loop over the rows, Sums and Totals are about the sums, and
--    Projected is about the report.
--  Cli/Input: the text fields of crates/ocfleet-cli/src/input_validation.rs.
--  Cli/Change: crates/ocfleet-cli/src/controlled_writes.rs, with the tables of migrations.rs. State and
--    Records are its data, Validate its checks, Table its rows, Operations and Commands its functions.
--    Steps and Effects say what a command does when it commits; Machine is an abstract state machine, Refines
--    relates the commands to it, and Runs is about sequences of commands.
--  Cli/Observation: `safe_observation_summary` of crates/ocfleet-cli/src/observation.rs. Projection is
--    its code, Safe and Budget are about what it shows and how much.
--  Cli/Health: crates/ocfleet-cli/src/health.rs, with its records in store.rs. Records and Latest are its
--    data and its searches, Status is `compute_node_health`, Rollup is `build_health_rollup` and the
--    counters of `validate_health_rollup_write`. The latest observation is chosen by texts, as in the
--    code. Evidence and Healthy are about the status, Percentile, Slots, Readable and Counted about the
--    parts of a rollup, and Consistent relates it to the report of Cli/Slo.
--  Cli/Scheduler: the claims and runs of jobs in crates/ocfleet-cli/src/store.rs. Records, Checks, Claims,
--    Leases, Runs and Outcomes are its tables, its checks and its calls; Steps is a sequence of calls
--    (the creation and the enabling of a job are not among them). Effects,
--    RunEffects and OutcomeEffects say what a call does when it succeeds, Changes what any call does, and
--    Fence, Exclusive, Recovery and JobClock are about sequences of calls. Planning is the interval, the
--    next run, the missed intervals, the budget of a tick and the retry of a task in
--    crates/ocfleet-cli/src/scheduler.rs, and Retries is about the attempts of a tick: an executor is a
--    function from a task and the number of the attempt to what it observes.
--  Tests: runs on concrete inputs, and each theorem that has hypotheses at an input.
--
-- Numbers are natural numbers. A `u64` sum is checked (`Common.Words.checked`) or wraps as the source has
-- it; an `Instant` is a number of nanoseconds with a last value that is an argument; an
-- `OffsetDateTime` is an integer number of nanoseconds. All loops are recursions on a list, so there
-- is no fuel, but for the retry of a task, which counts down the three attempts that the source allows.
--
-- Third-party code is an argument: the parsers of time, base64, uuid and iroh, the digest and the test of
-- a signature, the platform's clock. Of the agent's server, what runs an allowed method is an argument
-- too, and so is the test of a JSON value in the change requests. A table of the store is a map from
-- its primary key or a list with its newest row first; a transaction is a function from a store to a
-- store or an error, with the store before it kept on an error. The only failures of the database are
-- those of its constraints, and there is one writer at a time. Sorting is written as an insertion sort
-- that keeps the order of equals. In the health and the projection, the typed form of a summary
-- (crates/ocfleet-cli/src/storage_payloads.rs), the value of a JSON number and the digest of a source are
-- arguments. In the scheduler, the canonical form of an observation's summary is an argument too, foreign
-- keys to nodes are left out, and the checks of an audit record and of a run's summary before they are
-- stored are left out, so those are taken to succeed, and an error names its field without the sentence
-- around it.
--
-- Not modelled: the transports, files, printing and argument parsing, the SQL of the other tables, the
-- scheduler's selectors, daemon and concurrency, alerts, retention, the read-only API and the PostgreSQL
-- back end.
pub mod Common
pub mod Protocol
pub mod Agent
pub mod Cli
pub mod Tests
