-- ===== src/Tests/Data.antt =====
-- A small project: feature A is with a human, and feature B waits for it.
use mini_coder.Common.{ℕ, true, false, Option, none, some, [], ◌∷◌, String, eq_iff}
use mini_coder.Domain.{FeatureKind, FeatureExecutionState, AutomationState, UserRole, BudgetScope}
use mini_coder.Auth.Guards.{ActorKind, ActorIdentity}
use mini_coder.Store.Rows.{
  FeatureRequest, FeatureRun, WorkflowState, WorkflowLock, PullRequest, BudgetPolicy, CostRecord,
}
use mini_coder.Store.{Db, Env}
use mini_coder.Command.Helpers.{LockContext, Envelope}
use mini_coder.Command.Text.{to_text, ◌&◌}
use mini_coder.Handlers.Steps.{FeaturePayload}
use mini_coder.Handlers.Evolution.{Distinct, run_ids}

abbrev pub sample_env : Env
sample_env = record {
  now = 100;
  new_id = λ n. "id-" & to_text n;
  redact = λ s. s;
  blocking_labels = "wip" ∷ [];
}

abbrev pub actor_of : UserRole → ActorKind → ActorIdentity
actor_of role kind = record { id = "actor"; role = role; actor_kind = kind }

abbrev pub sent : String → ActorIdentity → Option LockContext → Envelope
sent key actor context = record {
  command_id = "command";
  idempotency_key = key;
  actor = actor;
  lock_context = context;
}

abbrev pub approver : ActorIdentity
approver = actor_of UserRole.approver ActorKind.human

abbrev pub worker : ActorIdentity
worker = actor_of UserRole.admin ActorKind.system

abbrev pub lane_context : LockContext
lane_context = record {
  lock_id = "lock";
  fence = 4;
  holder_id = "worker";
  project_id = none;
  resource_key = none;
}

abbrev pub run_of : String → String → FeatureExecutionState → ℕ → FeatureRun
run_of id request state version = record {
  id = id;
  feature_request_id = request;
  attempt_no = 1;
  current_execution_state = state;
  fix_attempt_count = 0;
  version = version;
  updated_at = 0;
}

abbrev pub request_of : String → FeatureRequest
request_of id = record {
  id = id;
  project_id = "project";
  plan_id = some "plan";
  fr_id = id;
  kind = FeatureKind.feature;
  created_at = 0;
}

abbrev pub project_state : AutomationState → Option String → WorkflowState
project_state state active = record {
  id = "state";
  project_id = "project";
  active_feature_run_id = active;
  automation_state = state;
  version = 2;
  updated_at = 0;
}

abbrev pub lane_lock : WorkflowLock
lane_lock = record {
  id = "lock";
  project_id = "project";
  resource_key = "execution-lane:project";
  holder_id = "worker";
  fence = 4;
  expires_at = some 200;
  version = 4;
  updated_at = 0;
}

abbrev pub green_pull_request : PullRequest
green_pull_request = record {
  id = "pr";
  feature_run_id = "run-a";
  pr_number = 7;
  branch_name = "feature-a";
  base_branch = "main";
  head_sha = some "sha";
  state = "open";
  review_state = "approved";
  ci_status = "passed";
  mergeable = some true;
  blocking_labels = [];
  conversations_resolved = false;
  merged_at = none;
  merge_sha = none;
  closed_at = none;
  version = 1;
  updated_at = 0;
}

abbrev pub feature_policy : BudgetPolicy
feature_policy = record {
  id = "policy";
  project_id = "project";
  scope = BudgetScope.feature;
  feature_request_id = some "a";
  soft_limit = some 50;
  hard_limit = some 100;
  window_days = none;
  is_active = true;
  updated_at = 0;
}

abbrev pub feature_cost : CostRecord
feature_cost = record {
  project_id = "project";
  feature_request_id = some "a";
  scope = BudgetScope.feature;
  amount = 40;
  recorded_at = 0;
}

abbrev pub database : FeatureExecutionState → AutomationState → Option String → Db
database state automation active = record {
  feature_requests = request_of "a" ∷ (request_of "b" ∷ []);
  feature_dependencies = (record { id = "dep"; source_fr_id = "b"; target_fr_id = "a" }) ∷ [];
  feature_runs =
      run_of "run-a" "a" state 3
      ∷ (run_of "run-b" "b" FeatureExecutionState.approved_pending_execution 1 ∷ []);
  workflow_states = project_state automation active ∷ [];
  idempotency_keys = [];
  workflow_locks = lane_lock ∷ [];
  workflow_events = [];
  outbox_events = [];
  pull_requests = green_pull_request ∷ [];
  review_findings = [];
  human_approvals = [];
  policy_decisions = [];
  coder_responses = [];
  disagreement_records = [];
  budget_policies = feature_policy ∷ [];
  cost_records = feature_cost ∷ [];
  repositories = (record { project_id = "project"; default_branch = "main" }) ∷ [];
  merge_gate_evaluations = [];
  clarification_sessions = [];
  clarification_questions = [];
  clarification_answers = [];
  clarification_decisions = [];
  planning_assessments = [];
  planning_questions = [];
  implementation_plans = [];
  planning_gaps = [];
  acceptance_criteria = [];
  test_expectations = [];
  ids_drawn = 0;
}

abbrev pub escalated : Db
escalated = database FeatureExecutionState.human_required AutomationState.running (some "run-a")

abbrev pub payload_a : FeaturePayload
payload_a = record { feature_run_id = "run-a"; project_id = "project"; expected_version = 3 }

pub Distinct-runs :
    (state : FeatureExecutionState) (automation : AutomationState) (active : Option String)
    → Distinct (run_ids (database state automation active).feature_runs)
Distinct-runs state automation active = (((λ e. cc ((eq_iff "run-b" "run-a").1 e)), tt), (tt, tt))
