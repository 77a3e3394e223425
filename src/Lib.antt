-- ===== src/Lib.antt =====
-- AgentGuard, a control plane for agents: a model works through tools in a bounded loop, tools that
-- write wait for a person's approval, and everything that happens is recorded.
--
-- The parts and their files:
--   Values, Exceptions, Results, Columns, Exec: Python values, exceptions, and methods that change stored
--     state and may raise. An action maps a storage to a result and the storage afterwards; what was
--     committed before a raise stays.
--   Protocol: app/protocol.py, the messages and their dicts.
--   Storage: app/db_models.py, the six tables of the agent as lists of rows in the order of insertion, and
--     what lies outside them. Storage/Host: app/timing.py and app/provenance.py.
--   RunStore, ApprovalStore, AuditStore, Observability: app/run_store.py, app/approval_store.py,
--     app/audit_store.py and app/observability_store.py, a function for each method.
--   ToolRegistry: app/tool_registry.py, the gate on a tool's risk.
--   Agent: app/agent.py. Service has what `AgentService` holds and returns, Recording the methods that
--     measure and record, Loop `drive`, Entry `run`, `request_action` and `resolve_approval` with its
--     branches. Invariants shows what every method keeps, given what each write keeps; Governance,
--     Decisions, Settlement and Outcomes apply it. Plain, SafeWrites, SafeMethods, SafeCalls, SafeLoop,
--     Completion and DecisionCompletion show when nothing raises.
--   Reconciliation: app/reconciliation.py, the sweep over the runs that were left RUNNING, and in Effect what it ends.
--   Requests: the service as the routes of app/main.py use it, one request after the other; History is about
--     the records, and Decided about a decision and the requests after it.
--   PricingCleanup: app/pricing_cleanup.py and app/pricing_cleanup_runner.py. Record has the states and the row,
--     Ownership `check_ownership`, Store the methods of `PricingCleanupStore`, each one transaction, Console its
--     reads for people, Program what a pass can do in one action, Runner `run_once` as a sequence of such
--     actions, and WriteClient `remove_override` of app/connectors/pricelabs/write_client.py. System has the steps of any
--     number of passes beside each other and of the rest of the program. Permits is the discipline that a pass
--     keeps, whatever it is told; View, Effects, Surroundings, Kept, Acts and Outsiders are what each write does to what
--     the passes hold, and OneDelete follows. Queue compares the console's numbers with the queue.
--     Proven is what a pass has done before it sends a DELETE, Answered what a removal gives, and
--     Uninterrupted what a pass alone leaves.
--   Access: Identity is app/identity.py and app/authorization.py, Security app/security.py, Users app/user_store.py,
--     Routes app/auth.py and three routes of app/main.py. Callers is whom a route lets through, and Guarded what a
--     call changes without the permission.
--   Drafts: app/drafts.py. Histories is about one write after another, Rows about the table that any writes
--     leave, Kept about one row of it, and Later about a draft after any writes.
--   PricingSession: app/pricing_session.py. Window compares the slot with one that no reading touches, and
--     Promise with a specification of its own.
--   Tests: the demo of README.md, computed, and the theorems at it.
--
-- How they interact: `AgentService` calls the stores, the registry and the model. The model, the functions
-- of the tools and the price list are fields of the records `AgentService` and `Tool`, as in the constructors of
-- the source; they act on `Outside`, which stands for everything but the agent's tables. A tool that writes the
-- agent's own tables is not covered.
--
-- Methods that the source writes as one body are split where a guard or a handler decides: each part is a
-- function by clauses, and the whole is their composition.
--
-- Bounds and fuel: `drive` recurses on the number of iterations that are left, which is max_iterations at the
-- start, as in the source's `for`. The decimal text of a number recurses on fuel one above the number, which is
-- more than the number of its digits. Timestamps are microseconds on ℕ, since ISO texts in UTC order as the
-- instants do; a difference stops at 0. Costs are millionths of a dollar.
--
-- The provider of the prices, the owner's bands and the switch for writes are the record `Provider`, and
-- Python's float, round, format, truth and equality of values are `Numbers`. A call of the provider may raise
-- PriceLabsUnavailable, which a pass catches, or another exception, which ends the
-- pass, as rounding an infinity or NaN does. PyJWT, bcrypt, int, strip and lower are `Libraries`; the hex
-- digest of SHA-256 is a function of a text. A price is the literal of its float.
--
-- A JSON column holds the value that its text stands for, and a write raises a TypeError where `json.dumps`
-- does. Reading a message raises a TypeError on a field of a type that no writer produces.
--
-- The confirmation of a written override (`mark_active`) is a step of the system of PricingCleanup for rows that are
-- PENDING_WRITE alone: `_confirm` of app/connectors/pricelabs/pricing_tools.py calls it for the row that it recorded.
--
-- Not modelled: failures of the database, exceptions that are not an Exception, a process that stops in the
-- middle of a request (but passes of the cleanup do overlap and stop), requests to the agent that overlap, the reads that only the console uses, and
-- the components around the agent: the other HTTP routes, the rest of pricing, hospitality, knowledge,
-- the inbox and the connectors. The database's own timestamp of an audit event is left out of its row, and the id that the
-- database gives an event is the next above the largest.
mod Base
pub mod Values
pub mod Exceptions
pub mod Results
pub mod Columns
pub mod Exec
pub mod Protocol
pub mod Storage
pub mod RunStore
pub mod ApprovalStore
pub mod AuditStore
pub mod Observability
pub mod ToolRegistry
pub mod Agent
pub mod Reconciliation
pub mod Requests
pub mod PricingCleanup
pub mod Access
pub mod Drafts
pub mod PricingSession
mod Tests
