-- ===== src/Lib.antt =====
-- The OneOps control plane (praveen-rpsg/oneops, Go): its governed configuration objects, the
-- operations on them, and the audit trail that records every operation.
--
-- Parts, and the files that model them:
-- - internal/domain is Domain: the closed sets of names (Enums), the errors of all packages as one
--   type with computations that may fail (Errors), the entities with their Validate (Objects), and
--   the audit event with its request (AuditTypes).
-- - internal/audit is Audit: the chain hash and the event id (Hash), the chain verifier (Verifier),
--   Resolve and Canonicalize (Resolve), anchors (Anchor) and VerifyAndPublish (Service). The audit
--   part of internal/store/postgres is Tables (audit_store.go) and Appender (audit_appender.go).
-- - internal/governance is Governance: planTransition (Transition) and Engine.Execute (Engine).
--   Tables is internal/store/postgres/governance_store.go, and fills the engine's ports with it and
--   with the audit appender.
-- - internal/authority is Authority: the port and its results (Graph, from internal/domain/authority.go),
--   the store that fills the port (Store, from authority_store.go, authority_responsibility_store.go,
--   authority_citation_store.go and authority_gap_store.go of internal/store/postgres),
--   computeActiveSet (ActiveSet), the clauses of the replacement test (Clauses), resolveOne with its
--   callers (Resolver) and the exported evaluators (Evaluators).
-- - internal/events is Events: the entities (Types), the tables of
--   internal/store/postgres/webhook_store.go and webhook_consume_store.go (Tables), the environment of
--   the workers (World), the relay, the dispatcher with the signatures, the replay worker and the
--   retention worker. Runs puts relay, dispatcher and audit appends in one step relation.
-- - internal/policy is Policy: conditions and executions (Types), the tables of
--   internal/store/postgres/policy_store.go (Tables), the consumer, the actions and the executor.
-- - internal/timeline is Timeline: the rows and entries (Entries), the port and
--   internal/store/postgres/timeline_store.go (Sources), the queries (Service) and their pages (Paging).
-- - internal/graph is Traversal: internal/domain/graphtraversal.go (Types), the service over the
--   traversal port (Service), and that its cycles are cycles (Cycles).
-- - internal/compliance is Compliance: the bundle and its rules (Evidence), the queries over the readers
--   (Service), and what a compliant object is (Decides).
-- - Base holds what the parts share; Examples holds concrete inputs and the theorems at them.
--
-- How the parts interact: Execute locks the object, plans the transition, applies it, writes the edge
-- if there is one, and calls AppendTx in its own transaction; AppendTx seals the event with ChainHash
-- on the head of the object's chain; the verifier reads the rows back and recomputes the hashes; an
-- anchor names the head that was verified. The relay reads the audit rows past its cursor
-- and enqueues deliveries, which the dispatcher claims, sends and marks; replay enqueues them anew and
-- retention deletes the old ones. The resolver reads the object rows and the edges, finds what
-- the current baseline reaches, and decides the authority of an object from that and its superseders.
--
-- How the code is read:
-- - A Go string or byte slice is the list of its bytes (Text). A type of named strings is a data type
--   with the constants and `other` for any other text.
-- - An int64 is its 64-bit pattern, with the wrap written out. A time is its nanoseconds since Go's
--   zero time. Slice lengths and row versions are natural numbers.
-- - A transaction is a state that the calls pass on; an error drops it, which is the rollback. Tables
--   are lists of rows, with the constraints of the schema as the errors of the calls. Failures of the
--   connection inside a call are not modelled; whether a transaction begins and commits is an argument.
-- - SHA-256, HMAC, encoding/json, the HTTP client, the cast to jsonb and the clock are arguments. What is said of SHA-256 is
--   either exact or up to an explicit collision.
-- - Loops are structural recursion; the cut by `errStop` is a flag. The search of computeActiveSet runs
--   on fuel and answers `none` without it; as many units as there are nodes are enough.
-- - The workers of internal/events and internal/policy run in a world of tables and a count of interactions. An environment
--   decides at each interaction the clock, the random bytes of an id (the program draws 16; the
--   environment may draw any number, since no 16 bytes keep the ids of an unbounded run apart), whether the context is cancelled,
--   and the fate of a call: it works, it fails without effect, or its answer is lost after the effect.
--   Tickers are left out: a worker is its RunOnce, and a pass is one step. The pages of replayWindow run
--   on fuel; more units than there are audit events are enough.
-- - Spans, metrics, logs and the texts that wrap errors are left out; validation messages leave out
--   the offending value. Locks are left out: a transaction on a chain or an object is one step.
--
-- Not modelled: the HTTP API, the SDK, the process set-up, token checks, metrics and migrations,
-- which are input and output; ResolveGraph of internal/authority, the queries of
-- the graph repositories, the object store and the integrity reports.
pub mod Base
pub mod Domain
pub mod Events
pub mod Audit
pub mod Governance
pub mod Authority
pub mod Policy
pub mod Timeline
pub mod Traversal
pub mod Compliance
pub mod Examples
