-- ===== src/Lib.antt =====
-- The Brain of the OnlyFans conversational analytics program: its ingestion of an Agent's
-- observations, its orchestration of commands to an Agent, its authority over an Agent's
-- configuration, and the scheduling and publication of its analytics.
--
-- An Agent (a browser extension) sends snapshots and deltas of chats and messages to the Brain.
-- The ingestion service turns them into the read model of an account and into the deltas that
-- are broadcast to the Bridges (the pages that show it). In the other direction the Brain sends
-- commands to the one Agent that holds the account's lease, records their results in an audit
-- log, and publishes configuration documents that Agents apply and report on. From the read models
-- the analytics are built in the background, under a scheduler that coalesces revisions.
--
-- The parts, and the files of the repository that they model:
-- - Prelude: shared helpers. Dict is Python's dict in insertion order, Errors a call that
--   returns or raises, Tokens the signed texts of app/transport/manager.py and app/api/security.py.
-- - Ingestion: app/transport/ingestion.py. Types has its dataclasses and the payloads of
--   app/protocol/common.py that it reads; RawChange has `_validated_snapshot` and
--   `_apply_raw_change`; Projection has `_project` and `_replace_projection`; Repository has
--   `InMemoryIngestionRepository`; Service has `IngestionService`. The other files below it hold
--   proofs: of the projection (Groups, Deltas, Refinement), of the invariant (Invariant,
--   Replacements, Commits), of the handlers (Contents, Handlers, Outcomes) and of whole runs
--   (Histories, Records, Resends).
-- - Commands: app/services/command_execution.py. Types has its dataclasses; Repository has
--   `InMemoryCommandRepository`; Service has `issue` and `reissue` with their shared tail
--   `deliver`; Results has `record_result` and `expire`. Proofs stand in Invariant, Preservation,
--   Recording, Expiry, Delivery and Histories.
-- - Configuration: app/services/agent_configuration.py. Revisions has the config-N revisions;
--   Repository has `InMemoryAgentConfigRepository`; Authority has `AgentConfigurationAuthority`
--   with `build_config_document`. Proofs stand in Invariant, Reports, Bindings, Publishing and
--   Publications.
-- - Graph: app/analytics/graph_store.py, of it the lifecycle of the generations of
--   `InMemoryGraphRepository` (Repository), without their nodes and edges and without the flag by
--   which a writer refuses calls after it validated, which the status refuses as well. Proofs stand
--   in Collection, Activity and Histories.
-- - Activation: app/persistence/projection_activation.py, its reference ledger
--   `InMemoryProjectionActivationRepository`, by which a projection is published: Types and Ledger
--   have its data and its methods, Steps the histories of its calls. Proofs stand in Changes,
--   Epochs, Invariant, Preservation and Witnesses.
-- - Security: app/api/security.py. Sessions has the session tokens, `get_auth_context` and the CSRF
--   tokens, without `verify_same_origin`; proofs stand in Csrf and Cookies.
-- - Scheduling: app/analytics/scheduling.py. Executor has `_OwnedBoundedExecutor`; Admission has
--   `schedule`, the launch of workers and the caches; Publication has the publication epochs and
--   the gate; Recovery has `request_recovery`, the recovery worker and `start`; Drain has `_worker`
--   and `_drain_account`; Closing has `state`, `close` and `abort`. Steps is the relation of their
--   interleavings. Proofs stand in Slots, Eviction, Ownership, Transfers, Launching, Rounds,
--   Raising, Advances, Soundness, Capacity, Admissions, Settlement, Closure, Progress, Losses and
--   Stranded.
-- - Transport: app/transport/manager.py. Leases has an Agent's lease from its handshake to its
--   expiry, and the target of a command; Presence has the observations of who is online and
--   `expire`; Tickets has the runtime tickets and the pairing grants, Authentication the three
--   `authenticate` methods. Proofs stand in Fences, Handover, Steps, Expiry, Observations and
--   Credentials.
-- How state and effects are modelled. A handler is a function from the state to its answer and
-- the new state; what the source copies deeply on the way in and out of a repository is a plain
-- value here. The ingestion handlers await nothing inside their lock, and the methods of the
-- configuration authority await nothing but theirs, so each is one step. `issue` and `reissue`
-- await a sender: it is a function that also returns the repository as other tasks leave it
-- meanwhile. `expire` of the manager awaits broadcasts between its steps; it is modelled without
-- what other tasks do there. A lease object that two dicts share is stored once, under its
-- connection id. A clock reading and a fresh identifier are arguments. Exceptions are the `err` of a
-- result type; where a call raises, the repository is as before the call, but for a handshake and a
-- heartbeat, which return the state beside the exception. Timestamps of
-- ingestion are compared as texts, as the source does; a datetime is a number of microseconds,
-- a UUID a number, and the texts of errors are constructors with the values they are formatted
-- from. Numbers are unbounded, as in Python.
--
-- The scheduler's tasks, threads and callers interleave between its blocks under the state lock:
-- each block is a function, and a step of the relation in Scheduling/Steps.antt. A task is the place
-- it waits at; work and cancellation tokens, compared and shared by identity, have numbers. A task is
-- cancelled in its build by anyone and elsewhere only by `close` and `abort`, and its event
-- loop runs. A discard may raise any error; the ghost `stranded` of the scheduler's record, which no
-- function reads, lists the accounts whose worker it has ended so.
-- `_publication_locks`, the join of tasks against the deadline, and the poll of `wait` are left out.
--
-- Fuel: only printing a number uses it (Configuration/Revisions.antt), the number itself; the
-- round trip shows that it is enough. All other loops are over lists or count down. The digits of a
-- revision are the ASCII ones; Python's `isdigit` also knows others.
--
-- Parameters: `json.dumps` for fingerprints (Fingerprints), the validation of a command's action
-- (Validator), pydantic's validation of a configuration document and its digest (Documents, with
-- the hypothesis IsSealing on it), base64 and hmac (Coding, with the hypothesis IsCoded on a text), json for
-- tickets (Signing) and for sessions (Sealing), the reader of an account's canonical identity
-- (IdentityReader), and the delivery to a socket (CommandSender), whose task is not cancelled.
--
-- Not modelled: the web framework, the sockets, their loops and broadcasts, the bindings of
-- Bridges, the SQLite stores and their SQL (with the history that a lease reports to), the other
-- analytics, the browser extension and the frontend.
pub mod Prelude
pub mod Graph
pub mod Ingestion
pub mod Activation
pub mod Commands
pub mod Configuration
pub mod Scheduling
pub mod Security
pub mod Transport
