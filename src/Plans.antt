-- ===== src/Plans.antt =====
-- packages/core/src/commands/handlers/planning and handlers/plan: the way of a plan from its backlog
-- to its execution.
pub mod Validation
pub mod Gaps
pub mod Gates
pub mod Quality
pub mod Activation
use mini_coder.Common.{
  ℕ, suc, ◌+◌, ◌-◌, ◌*◌, Bool, true, false, not, ◌&&◌, ◌||◌, Option, none, some, List, [], ◌∷◌,
  ◌++◌, String, ◌==◌, ℕ_eq, String_eq, any, find, length, map, where_rows, update_rows, count_rows,
  option_beq, if◌then◌else◌,
}
use mini_coder.Domain.{
  FeatureKind, GapSeverity, gap_severity_value, FeatureExecutionState, PlanState, plan_state_eq,
  plan_state_value, user_role_value,
}
use mini_coder.Auth.Redaction.{Json, Fields, Items, nil, cons, str, num, arr, obj, field, end}
use mini_coder.Machine.Defs.{valid, transition_error, assert_valid}
use mini_coder.Machine.Lifecycle.{plan_lifecycle_matrix}
use mini_coder.Store.Rows.{CommandResult, FeatureDependency, FeatureRequest, FeatureRun}
use mini_coder.Store.Plans.{FeatureText, ImplementationPlan, PlanningGap}
use mini_coder.Store.{
  Db, Env, Error, command_error, optimistic_lock_error, transition_error as invalid_transition,
  Result, ok, err, M, pure, throw, ◌>>=◌, ◌>>◌, query, execute,
}
use mini_coder.Command.Helpers.{
  Envelope, accept, after_claim, assert_version, claim_idempotency_key, fulfill_idempotency_key,
  generate_id, insert_human_approval, next_version, reject_if, require_affected, with_claim,
  write_outbox_event, write_workflow_event,
}
use mini_coder.Command.Text.{◌&◌}
use mini_coder.Handlers.Steps.{is_empty, not_found}
use mini_coder.Clarification.{require_row}
use mini_coder.Backlog.{has_cycle}

-- What the commands on a plan carry.
pub record PlanPayload : Type 0 where
  pub plan_id : String
  pub project_id : String
  pub expected_version : ℕ

abbrev pub is_plan : PlanPayload → ImplementationPlan → Bool
is_plan p plan = plan.id == p.plan_id && plan.project_id == p.project_id

abbrev pub load_plan : PlanPayload → Db → Option ImplementationPlan
load_plan p db = find (is_plan p) db.implementation_plans

-- `validator.assertValid` of the plan machine.
abbrev pub assert_plan : PlanState → PlanState → M (Unit {0})
assert_plan from to = elim (assert_valid plan_lifecycle_matrix from to) [
  | valid r ↦ pure tt
  | transition_error f t ↦
      throw (invalid_transition "plan-lifecycle" (plan_state_value f) (plan_state_value t))
]

abbrev pub checked_plan : PlanPayload → PlanState → M ImplementationPlan
checked_plan p to = do
  found ← query (load_plan p)
  row ← require_row found
  plan ←
      assert_version "implementation_plans" p.plan_id (λ r. r.version) (some row) p.expected_version
  assert_plan plan.state to
  pure plan

abbrev pub plan_at : PlanPayload → ImplementationPlan → Bool
plan_at p plan = plan.id == p.plan_id && plan.version == p.expected_version

abbrev pub set_plan_state : Env → PlanState → ℕ → ImplementationPlan → ImplementationPlan
set_plan_state env to version plan = record plan {
  state = to;
  version = version;
  updated_at = env.now;
}

abbrev pub moved_plans : PlanPayload → (ImplementationPlan → ImplementationPlan) → Db → Db
moved_plans p f db = record db {
  implementation_plans = update_rows (plan_at p) f db.implementation_plans;
}

abbrev pub move_plan : PlanPayload → (ImplementationPlan → ImplementationPlan) → M (Unit {0})
move_plan p f = do
  affected ← λ db. ok (count_rows (plan_at p) db.implementation_plans, moved_plans p f db)
  require_affected affected
      (optimistic_lock_error "implementation_plans" p.plan_id p.expected_version none)

abbrev plan_payload : PlanPayload → Fields → Json
plan_payload p more =
    obj (field "planId" (str p.plan_id) (field "projectId" (str p.project_id) more))

-- The two events and the result.
abbrev close_plan :
    Env
    → Envelope
    → PlanPayload
    → String
    → String
    → PlanState
    → PlanState
    → Fields
    → M CommandResult
close_plan env envelope p claim_id event_type from to more = do
  event_id ←
      write_workflow_event env none (some p.project_id) event_type (plan_state_value from)
        (plan_state_value to) envelope.actor.id
  write_outbox_event env event_type (plan_payload p more)
  accept env envelope claim_id (plan_state_value to) (event_id ∷ [])

-- The backlog was validated as it is now.
abbrev pub is_validated : ImplementationPlan → Bool
is_validated plan =
    option_beq plan.backlog_validated_state (some "valid")
    && option_beq plan.backlog_validated_version (some plan.backlog_version)

abbrev pub is_open_time : Option ℕ → Bool
is_open_time none = true
is_open_time (some at) = false

abbrev is_blocking : GapSeverity → Bool
is_blocking GapSeverity.blocking = true
is_blocking GapSeverity.non_blocking = false

abbrev pub blocks : String → PlanningGap → Bool
blocks assessment_id gap =
    gap.assessment_id == assessment_id && (is_blocking gap.severity && is_open_time gap.resolved_at)

-- The unresolved blocking gaps of the plan's own assessment.
abbrev pub blocking_gaps : Option String → Db → List PlanningGap
blocking_gaps none db = []
blocking_gaps (some assessment_id) db = where_rows (blocks assessment_id) db.planning_gaps

-- `SubmitPlanForApprovalHandler.execute`.
unfoldable pub submit_plan : Env → Envelope → PlanPayload → M CommandResult
submit_plan env envelope p = with_claim env envelope "submit-plan-for-approval" λ claim_id. do
  plan ← checked_plan p PlanState.pending_approval
  reject_if (not (is_validated plan)) (command_error "backlog-not-validated" 409)
  gaps ← query (blocking_gaps plan.assessment_id)
  reject_if (not (is_empty gaps)) (command_error "unresolved-blocking-gaps" 409)
  move_plan p (set_plan_state env PlanState.pending_approval (next_version plan.version))
  close_plan env envelope p claim_id "plan.submitted_for_approval" PlanState.draft
      PlanState.pending_approval end

-- `ApprovePlanHandler.execute`; the approval's decision stays NULL, which is the empty text here.
unfoldable pub approve_plan : Env → Envelope → PlanPayload → M CommandResult
approve_plan env envelope p = with_claim env envelope "approve-plan" λ claim_id. do
  plan ← checked_plan p PlanState.approved
  move_plan p (set_plan_state env PlanState.approved (next_version plan.version))
  insert_human_approval env p.project_id none none "plan_approval" (some p.plan_id) ""
      envelope.actor none
  close_plan env envelope p claim_id "plan.approved" PlanState.pending_approval PlanState.approved
      end

abbrev pub is_executable : FeatureKind → Bool
is_executable FeatureKind.feature = true
is_executable FeatureKind.discovery = false

-- `WHERE plan_id = ? AND kind = 'feature'`.
abbrev pub in_plan : String → FeatureRequest → Bool
in_plan plan_id r = option_beq r.plan_id (some plan_id) && is_executable r.kind

-- `WHERE feature_request_id = ? AND attempt_no = 1`.
abbrev pub is_first_run : String → FeatureRun → Bool
is_first_run request_id run = run.feature_request_id == request_id && run.attempt_no == 1

abbrev pub first_run : Env → String → String → FeatureRun
first_run env id request_id = record {
  id = id;
  feature_request_id = request_id;
  attempt_no = 1;
  current_execution_state = FeatureExecutionState.approved_pending_execution;
  fix_attempt_count = 0;
  version = 1;
  updated_at = env.now;
}

-- One feature of the plan: a run of its own, unless it has one.
abbrev pub activate : Env → FeatureRequest → Db → Db
activate env r db = if any (is_first_run r.id) db.feature_runs then db else record db {
  ids_drawn = suc db.ids_drawn;
  feature_runs = first_run env (env.new_id db.ids_drawn) r.id ∷ db.feature_runs;
}

unfoldable pub activate_all : Env → List FeatureRequest → Db → Db
activate_all env [] db = db
activate_all env (r ∷ rs) db = activate_all env rs (activate env r db)

-- `ActivatePlanHandler.execute`.
unfoldable pub activate_plan : Env → Envelope → PlanPayload → M CommandResult
activate_plan env envelope p = with_claim env envelope "activate-plan" λ claim_id. do
  plan ← checked_plan p PlanState.activated_for_execution
  move_plan p (set_plan_state env PlanState.activated_for_execution (next_version plan.version))
  features ← query (λ db. where_rows (in_plan p.plan_id) db.feature_requests)
  before ← query (λ db. length db.feature_runs)
  execute (activate_all env features)
  after ← query (λ db. length db.feature_runs)
  close_plan env envelope p claim_id "plan.activated" PlanState.approved
      PlanState.activated_for_execution (field "activatedFeatureCount" (num (after - before)) end)
