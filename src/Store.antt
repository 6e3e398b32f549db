-- ===== src/Store.antt =====
-- The database as one value, and the transactions that run on it: packages/core/src/persistence
-- and packages/persistence-sqlite/src/client.ts. A transaction that throws is rolled back, so an
-- error carries no database.
pub mod Rows
pub mod Clarifications
pub mod Plans
use mini_coder.Common.{ℕ, zero, suc, ◌+◌, Bool, Option, none, some, List, [], ◌∷◌, String}
use mini_coder.Store.Rows.{
  FeatureRequest, FeatureDependency, FeatureRun, WorkflowState, IdempotencyKey, WorkflowLock,
  WorkflowEvent, OutboxEvent, PullRequest, ReviewFinding, HumanApproval, PolicyDecision,
  CoderResponse, DisagreementRecord, BudgetPolicy, CostRecord, Repository, MergeGateEvaluation,
}
use mini_coder.Store.Clarifications.{
  ClarificationSession, ClarificationQuestion, ClarificationAnswer, ClarificationDecision,
  PlanningAssessment, PlanningQuestion,
}
use mini_coder.Store.Plans.{ImplementationPlan, PlanningGap, FeatureText}

pub record Db : Type 0 where
  pub feature_requests : List FeatureRequest
  pub feature_dependencies : List FeatureDependency
  pub feature_runs : List FeatureRun
  pub workflow_states : List WorkflowState
  pub idempotency_keys : List IdempotencyKey
  pub workflow_locks : List WorkflowLock
  pub workflow_events : List WorkflowEvent
  pub outbox_events : List OutboxEvent
  pub pull_requests : List PullRequest
  pub review_findings : List ReviewFinding
  pub human_approvals : List HumanApproval
  pub policy_decisions : List PolicyDecision
  pub coder_responses : List CoderResponse
  pub disagreement_records : List DisagreementRecord
  pub budget_policies : List BudgetPolicy
  pub cost_records : List CostRecord
  pub repositories : List Repository
  pub merge_gate_evaluations : List MergeGateEvaluation
  pub clarification_sessions : List ClarificationSession
  pub clarification_questions : List ClarificationQuestion
  pub clarification_answers : List ClarificationAnswer
  pub clarification_decisions : List ClarificationDecision
  pub planning_assessments : List PlanningAssessment
  pub planning_questions : List PlanningQuestion
  pub implementation_plans : List ImplementationPlan
  pub planning_gaps : List PlanningGap
  pub acceptance_criteria : List FeatureText
  pub test_expectations : List FeatureText
  -- How many ids `generateId` has drawn.
  pub ids_drawn : ℕ

-- What a handler reads from outside: the clock (one reading for a whole command), the source of
-- ids, the regular expressions of the redactor, and the labels that block a merge (lower case,
-- from MERGE_GATE_BLOCKING_LABELS or its default).
pub record Env : Type 0 where
  pub now : ℕ
  pub new_id : ℕ → String
  pub redact : String → String
  pub blocking_labels : List String

-- The errors that are thrown, with what a caller tells them apart by; -1 for a version or a fence
-- that is not there is `none`.
pub data Error : Type 0 where
  command_error : (type : String) (status : ℕ) → Error
  optimistic_lock_error : (table id : String) (expected : ℕ) (actual : Option ℕ) → Error
  stale_fence_error : (lock_id : String) (held : ℕ) (current : Option ℕ) → Error
  transition_error : (machine from to : String) → Error
  authorization_error : (actor_id command : String) → Error
  merge_gate_blocked : (reasons : List String) → Error
  lock_conflict_error : (resource_key holder_id : String) → Error
  constraint_error : (table : String) → Error
  plain_error : (message : String) → Error

pub data Result {ℓ} (A : Type ℓ) : Type ℓ where
  ok : A → Result A
  err : Error → Result A

abbrev pub M : Type 0 → Type 0
M A = Db → Result (A × Db)

abbrev pub pure : {A : Type 0} → A → M A
pure a db = ok (a, db)

abbrev pub throw : {A : Type 0} → Error → M A
throw e db = err e

-- What follows an error is not run.
infixl 5 ◌>>=◌
abbrev pub ◌>>=◌ : {T U : Type 0} → M T → (T → M U) → M U
step >>= next = λ db. elim (step db) [ ok (t, db') ↦ next t db' | err e ↦ err e ]

infixl 5 ◌>>◌
abbrev pub ◌>>◌ : {T : Type 0} → M (Unit {0}) → M T → M T
step >> rest = step >>= λ done. rest

abbrev pub query : {A : Type 0} → (Db → A) → M A
query f db = ok (f db, db)

abbrev pub execute : (Db → Db) → M (Unit {0})
execute f db = ok (tt, f db)

-- The database after a call of `transaction`: what the callback left, or the old one.
abbrev pub committed : {A : Type 0} → Db → Result (A × Db) → Db
committed db (ok (a, db')) = db'
committed db (err e) = db
