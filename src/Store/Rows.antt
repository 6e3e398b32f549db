-- ===== src/Store/Rows.antt =====
-- packages/migrations/migrations: the rows of the tables that the modelled code reads and writes,
-- with the columns that it uses. An id or a key is a text, a time is a number of milliseconds
-- (the code writes ISO strings and compares them as texts, in the same order), a column that may
-- be NULL is an `Option`.
use mini_coder.Common.{ℕ, Bool, Option, List, String}
use mini_coder.Domain.{
  FeatureKind, FeatureExecutionState, AutomationState, FindingSeverity, BudgetScope,
  DisagreementState,
}
use mini_coder.Auth.Redaction.{Json}

pub record FeatureRequest : Type 0 where
  pub id : String
  pub project_id : String
  pub plan_id : Option String
  pub fr_id : String
  pub kind : FeatureKind
  pub created_at : ℕ

pub record FeatureDependency : Type 0 where
  pub id : String
  pub source_fr_id : String
  pub target_fr_id : String

pub record FeatureRun : Type 0 where
  pub id : String
  pub feature_request_id : String
  pub attempt_no : ℕ
  pub current_execution_state : FeatureExecutionState
  pub fix_attempt_count : ℕ
  pub version : ℕ
  pub updated_at : ℕ

pub record WorkflowState : Type 0 where
  pub id : String
  pub project_id : String
  pub active_feature_run_id : Option String
  pub automation_state : AutomationState
  pub version : ℕ
  pub updated_at : ℕ

-- commands/types.ts `CommandResult`.
pub record CommandResult : Type 0 where
  pub command_id : String
  pub accepted : Bool
  pub resulting_state : String
  pub emitted_event_ids : List String

pub record IdempotencyKey : Type 0 where
  pub id : String
  pub key : String
  pub scope : String
  pub result : Option CommandResult
  pub expires_at : ℕ
  pub version : ℕ
  pub updated_at : ℕ

pub record WorkflowLock : Type 0 where
  pub id : String
  pub project_id : String
  pub resource_key : String
  pub holder_id : String
  pub fence : ℕ
  pub expires_at : Option ℕ
  pub version : ℕ
  pub updated_at : ℕ

pub record WorkflowEvent : Type 0 where
  pub id : String
  pub feature_run_id : Option String
  pub project_id : Option String
  pub event_type : String
  pub from_state : String
  pub to_state : String
  pub actor : String
  pub occurred_at : ℕ

-- The last of these is `delivered` in the outbox and `processed` in the inbox.
pub data QueueStatus : Type 0 where
  pending processing failed delivered : QueueStatus

-- The columns that the two queues of events have in common.
pub record QueuedEvent : Type 0 where
  pub id : String
  pub event_type : String
  pub payload : Json
  pub payload_schema_version : String
  pub status : QueueStatus
  pub attempts : ℕ
  pub next_retry_at : Option ℕ
  pub version : ℕ
  pub created_at : ℕ
  pub updated_at : ℕ

abbrev pub OutboxEvent : Type 0
OutboxEvent = QueuedEvent

abbrev pub InboxEvent : Type 0
InboxEvent = QueuedEvent

-- events/schemas.ts `SCHEMA_VERSION`.
abbrev pub schema_version : String
schema_version = "1.0.0"

pub record PullRequest : Type 0 where
  pub id : String
  pub feature_run_id : String
  pub pr_number : ℕ
  pub branch_name : String
  pub base_branch : String
  pub head_sha : Option String
  pub state : String
  pub review_state : String
  pub ci_status : String
  pub mergeable : Option Bool
  pub blocking_labels : List String
  pub conversations_resolved : Bool
  pub merged_at : Option ℕ
  pub merge_sha : Option String
  pub closed_at : Option ℕ
  pub version : ℕ
  pub updated_at : ℕ

pub record ReviewFinding : Type 0 where
  pub id : String
  pub feature_run_id : String
  pub reviewer_run_id : Option String
  pub review_cycle : ℕ
  pub severity : FindingSeverity
  pub category : String
  pub description : String
  pub file_path : Option String
  pub line_start : Option ℕ
  pub line_end : Option ℕ
  pub resolved : Bool
  pub resolved_by_run_id : Option String
  pub version : ℕ
  pub updated_at : ℕ

pub record HumanApproval : Type 0 where
  pub id : String
  pub project_id : String
  pub feature_request_id : Option String
  pub feature_run_id : Option String
  pub context_type : String
  pub context_id : Option String
  pub decision : String
  pub actor : String
  pub actor_role : String
  pub notes : Option String
  pub updated_at : ℕ

pub record PolicyDecision : Type 0 where
  pub id : String
  pub project_id : String
  pub feature_run_id : Option String
  pub policy_type : String
  pub decision : String
  pub context : Json
  pub actor : String
  pub decided_at : ℕ

pub record CoderResponse : Type 0 where
  pub id : String
  pub finding_id : String
  pub coder_run_id : String
  pub response_type : String
  pub notes : Option String
  pub updated_at : ℕ

pub record DisagreementRecord : Type 0 where
  pub id : String
  pub feature_run_id : String
  pub finding_id : Option String
  pub review_cycle : ℕ
  pub state : DisagreementState
  pub arbiter_run_id : Option String
  pub resolution : Option String
  pub resolved_at : Option ℕ
  pub version : ℕ
  pub updated_at : ℕ

-- Amounts are whole numbers of the smallest unit that the records use.
pub record BudgetPolicy : Type 0 where
  pub id : String
  pub project_id : String
  pub scope : BudgetScope
  pub feature_request_id : Option String
  pub soft_limit : Option ℕ
  pub hard_limit : Option ℕ
  pub window_days : Option ℕ
  pub is_active : Bool
  pub updated_at : ℕ

pub record CostRecord : Type 0 where
  pub project_id : String
  pub feature_request_id : Option String
  pub scope : BudgetScope
  pub amount : ℕ
  pub recorded_at : ℕ

pub record Repository : Type 0 where
  pub project_id : String
  pub default_branch : String

pub record MergeGateEvaluation : Type 0 where
  pub id : String
  pub feature_run_id : String
  pub ci_status : Option String
  pub review_status : Option String
  pub unresolved_blocking_findings : ℕ
  pub budget_status : String
  pub human_approval_required : Bool
  pub human_approval_id : Option String
  pub branch_protection_ok : Bool
  pub final_decision : String
  pub evaluated_at : ℕ
