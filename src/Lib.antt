-- ===== src/Lib.antt =====
-- DeviceLane lets hosts share physical devices: clients lease devices, an agent on a Mac runs
-- Apple operations as jobs, and a dashboard follows what happens through a journal of activity
-- events. This library models the parts that keep state and decide, as functions from a state and
-- arguments to a state and a result, and proves what they promise.
--
-- - Shared: numbers, tests, lists, results (`?` is `>>=`), fixed-width arithmetic, decimal
--   printing, little-endian integers, texts, UTF-8 and Unix paths. Map: `HashMap` as an
--   association list with each key at most once.
-- - Dashboard.Model (src/dashboard/model.rs): the activity event with its parts and `validate`.
-- - Dashboard.Journal (src/dashboard/event_log.rs): `EventJournal`. State has `Inner`; Append,
--   Read and Subscribers have a function for each method under its name; Invariant says what a
--   journal is and Outcome what an append does; Eviction, Transaction, Filling, Paging, Delivery,
--   Acknowledgement, History, Attendance and Preflight have the theorems.
-- - Dashboard.Policy (src/dashboard/policy.rs): the policy engine. Rule, Request, Evaluation,
--   Engine and Approval have its types and methods; Order says which rule takes precedence,
--   Decisions what an evaluation decides, RuleSet and Changes what the rules of an engine are,
--   Managed what users cannot change, Nonces and Lifetime what an approval allows, Remembered and
--   Effects what decisions do later, Grant when a grant is valid.
-- - Authorization (src/lib.rs, module `authorization`): Engine has `PolicyEngine` and its methods,
--   with the clock as an argument; Exclusive is about leases over time, Guard about `execute`.
-- - RemoteApple (src/lib.rs, module `remote_apple_protocol`): Protocol and Envelope have requests
--   and their validation, Agent has `AppleAgent`; Threads has the agent with the threads that it
--   spawned; Invariant, EventLog, Reports, Joining, Jobs (runs of calls), Thread and Admission
--   have the theorems, JobId the ids of jobs.
-- - Registry (src/registry_runtime.rs): LeaseBook has the book of device leases, Leasing the
--   handler `lease` of lease requests; Invariant, Lookup, Protection and Handover have the
--   theorems.
-- - ControllerSession (src/lib.rs, module `controller_session`): Transport has the parameters,
--   Replay the replay cache, Session and Mesh the sessions and the mesh approvals; Once, Verified,
--   Issued and Approved have the theorems.
-- - Sessions (src/lib.rs, module `sessions`): Journal has the job journal and the resuming client,
--   Resume their theorems.
-- - EventStore (src/registry_event_store/codec.rs, events.rs): Codec has the segment headers,
--   Fields lemmas on fields of bytes, Header and Segment the theorems; Events has the writing and
--   reading of event batches, Reading the reads of a limited source and Batches the batches.
--
-- The mutex of the journal and that of the agent make each method one step; the theorems on
-- histories are about every sequence of such steps. A job's thread is there from the submission
-- that spawns it, and takes a step for each event that it appends. A panic of the source
-- (`expect`, `unwrap`, a checked subtraction) is `none`, and the theorems say where it cannot
-- happen.
--
-- Parameters: the JSON encoding and SHA-256 of the journal and of the policy (a `Codec` each),
-- about which nothing is assumed; the random draws of nonces; the precommit closure and the
-- adapter of `execute`, which act on a world that the models do not see; what `fs::canonicalize`
-- gives at each of the two calls of each validation of a request, under the root of the workspace;
-- the transport's signature of a lease grant, which may fail, whereupon the handler panics, and
-- what it leaves behind is not modelled; and, for controller sessions, its identity, signing and
-- verification of signatures, about which the theorems on what is issued assume that the verifier
-- accepts what the issuer signs (`Trusts`); the outcome of each file operation of the replay
-- cache. A lease request reads the clock once. Paths are read as on Unix. Sequence numbers and the
-- epoch keep the bound of `u64` where the source checks it; the clock's times and the counters of
-- leases and jobs are unbounded.
--
-- There is fuel in the reading client of Dashboard.Journal.Delivery, where the number of unread
-- events is enough, in decimal printing, where the number itself is, and in the loop that reads a
-- string of an event batch, where the string's length is.
--
-- Not modelled: input and output, the JSON and protobuf forms, TLS and pairing, the command-line
-- programs, and, so far, the dashboard's topology, managed policy file, audit and service, the
-- registry's jobs, writers and files, the writer and the reader of linked segments, and the other
-- modules of src/lib.rs.
mod Shared
pub mod Map
pub mod Authorization
pub mod Dashboard
pub mod Registry
pub mod EventStore
pub mod ControllerSession
pub mod Sessions
pub mod RemoteApple
