-- ===== src/Lib.antt =====
-- MiniCoder turns an approved backlog into merged pull requests. This library models the part of it
-- that decides: the state machines, the commands and their handlers, the merge gate, budgets, roles,
-- redaction, locks, the queues of events and the reconciliation with the code host.
--
-- How the parts interact. Every change of a feature run is a command. The executor
-- (packages/core/src/commands/executor.ts) checks the actor, looks for a cached result and calls the
-- command's handler, which runs in one transaction: it claims the idempotency key, checks the
-- execution lane's lease where the command needs it, reads the run, checks its version and the edge
-- of the transition matrix, writes the run, the event and the outbox event, and puts its result in
-- the claimed slot. The two gated commands first evaluate the merge gate in a transaction of their
-- own, which reads findings, approvals, the pull request and the budget, and leaves a row of evidence.
-- Automation commands do the same with a project's automation state, clarification commands with a
-- session of questions and plan commands with a plan, up to the first runs of its features. The outbox that the handlers fill
-- is emptied by dispatchers, of which any number may poll the same table; events from outside come in
-- through an inbox that works alike. The reconciliation compares what the code host reports with a
-- run's state and sends the executor the commands that are missing, up to five in a row.
--
-- Files and code.
--   Common: shared names of the library, tests, tables as lists of rows.
--   Domain: packages/core/src/domain/states.ts and constants.ts.
--   Machine: packages/core/src/statemachine. Machine.Defs has the matrix and the validator
--     (assertValid, isValid, validNextStates as assert_valid, is_valid, valid_next_states),
--     Machine.Feature and its neighbours the matrices, Machine.Validator and Machine.Graph theorems.
--   Auth: packages/core/src/auth: roles and guards, redaction.ts.
--   Store: the rows of migrations/ that the code uses, the database as a record of tables, and M, a
--     function from a database to an error or a value with a database. An error leaves no database
--     behind, as a transaction that is rolled back; committed is the transaction's end.
--   Command: packages/core/src/commands/helpers.ts and persistence/optimistic.ts.
--   Budget: packages/core/src/cost/budget-evaluator.ts; Budget.Newest, Budget.Spending and Budget.Limits
--     say which policy is evaluated, what its total is and what its limits give.
--   MergeGate: packages/core/src/merge-gate/evaluate-merge-gate.ts.
--   Handlers: packages/core/src/commands/handlers/feature and handlers/github, one function for each
--     execute method; Handlers.Commands has the command type and the dispatch, Handlers.Outcome,
--     Handlers.Evolution and Handlers.Moves what a handler may change, Handlers.Guards and
--     Handlers.Histories theorems.
--   Automation: packages/core/src/commands/handlers/automation.
--   Clarification: packages/core/src/commands/handlers/clarification: the steps that its commands
--     share; Clarification.Questions, Clarification.Answers and Clarification.Commands the rest.
--     Clarification.Moves and Clarification.Handled say what a command has done, Clarification.Rounds
--     what a sequence does, Clarification.Choosing and Clarification.Asking which
--     questions a round asks. Its tables are in
--     Store.Clarifications.
--   Backlog: hasCycle of packages/core/src/commands/handlers/planning/validate-backlog.ts;
--     Backlog.Searching and Backlog.Visits follow the search, Backlog.Cycles has the theorem.
--   Plans: handlers/plan and, of handlers/planning, submit-plan-for-approval.ts and activate-plan.ts;
--     Plans.Validation is validate-backlog.ts and Plans.Gaps resolve-planning-gap.ts; Plans.Gates,
--     Plans.Quality and Plans.Activation have theorems.
--   Executor: packages/core/src/commands/executor.ts; Executor.Slots, Executor.Fulfilling and
--     Executor.Replay follow the slot through every handler, Executor.Idempotency has the theorems,
--     Executor.Sweeping packages/workflow/src/sweep/idempotency-sweeper.ts.
--   Locks: packages/workflow/src/locks/manager.ts; Locks.Lane is lanes/execution-lane.ts.
--   Queue: packages/workflow/src/outbox/dispatcher.ts, the statements on the table; Queue.Worker has
--     pollAndDispatch, Queue.Inbox packages/workflow/src/inbox/processor.ts; Queue.Fits,
--     Queue.Interleaving, Queue.Polling, Queue.Settling, Queue.Batch and Queue.Counting theorems.
--   Reconcile: packages/core/src/scm/reconcile.ts: what a state and an observation call for;
--     Reconcile.Stepping does it, Reconcile.Mirror is handlers/github's pull-request-row.ts,
--     Reconcile.Decisions and Reconcile.Passes have theorems.
--   Tests: concrete data and runs.
--
-- Conventions. A table is the list of its rows, newest first. A transaction runs alone and reads the
-- clock once (Env.now); ids are drawn from a counter by Env.new_id, about which nothing is assumed.
-- That the ids of feature runs are distinct is the table's primary key, a hypothesis where it is
-- needed. The text redactor of redaction.ts and the policy's blocking labels are parameters
-- (Env.redact, Env.blocking_labels); labels are compared in ASCII lower case. Times are milliseconds
-- in the native natural numbers, and so are amounts and limits of money, which the database holds as
-- reals. JSON that is written to a column and read back is its value.
--
-- Bounds. to_text prints a number with fuel n + 1, and a number n has at most n + 1 digits.
-- The retries of the cascade (block_attempts) are bounded by the source's three attempts, the catch-up
-- loop (catch_up) by its five steps. The search for cycles (visit) has as much
-- fuel as there are features and dependencies, which its theorem shows to be enough. The heartbeat of a claim turns as often as its list of ticks says,
-- which is any finite list: a handler that never ends is not modelled. Every other definition is
-- structural.
--
-- Other workers. Between any two statements of a poll (after the recovery, between the SELECTs, before
-- and after each claim, at each turn of a heartbeat and before each end) any list of deeds of other workers may come, each a
-- statement that a worker sends: a recovery, a claim of a row that was read while it was waiting and
-- below the bound, and the ends and renewals of claims that were given. Queue.claims lists the claims that
-- were given; it is no column of the table. The inbox's status processed is the outbox's delivered.
--
-- Not modelled: project handlers and those of planning that write or export documents, forecasts and
-- the detection of disagreements,
-- which are services around the commands; the schemas of events, which are an argument; agents, code hosts, HTTP, terminal and web front ends,
-- which are effects; the SQL engine, whose statements are written here as functions on lists.

pub mod Common
pub mod Domain
pub mod Machine
pub mod Auth
pub mod Store
pub mod Command
pub mod Budget
pub mod MergeGate
pub mod Handlers
pub mod Automation
pub mod Executor
pub mod Locks
pub mod Queue
pub mod Reconcile
pub mod Clarification
pub mod Backlog
pub mod Plans
pub mod Tests
