-- ===== src/Automation.antt =====
-- packages/core/src/commands/handlers/automation: pausing and resuming a project.
pub mod Pauses
pub mod Overrides
use mini_coder.Common.{
  ℕ, zero, suc, ◌+◌, ◌*◌, Bool, true, false, not, ◌&&◌, ◌||◌, Option, none, some, List, [], ◌∷◌,
  ◌++◌, String, ◌==◌, ℕ_eq, String_eq, any, leb, ltb, find, where_rows, update_rows, count_rows,
  option_beq, map, if◌then◌else◌,
}
use mini_coder.Domain.{
  FeatureExecutionState, feature_execution_state_value, FindingSeverity, finding_severity_eq,
  BudgetScope, budget_scope_eq, AutomationState, automation_state_value, automation_state_eq,
}
use mini_coder.Auth.Redaction.{Json, Fields, str, num, null, field, end, obj}
use mini_coder.Store.Rows.{FeatureRun, CommandResult}
use mini_coder.Store
use mini_coder.Store.{
  Db, Env, Error, command_error, optimistic_lock_error, transition_error as invalid_transition,
  merge_gate_blocked, Result, ok, err, M, pure, throw, ◌>>=◌, ◌>>◌, query, execute,
}
use mini_coder.Command.Helpers.{
  Envelope, next_version, reject_if, require_affected, with_claim, insert_human_approval,
  generate_id, accept, write_workflow_event, write_outbox_event, insert_policy_decision,
  assert_version,
}
use mini_coder.Command.Text.{to_text, ◌&◌}
use mini_coder.Machine.Defs.{valid, transition_error, assert_valid}
use mini_coder.Machine.Lifecycle.{automation_control_matrix}
use mini_coder.Store.Rows.{WorkflowState}
use mini_coder.Handlers.Steps.{load_workflow_state}

-- What every automation command carries.
pub record ProjectPayload : Type 0 where
  pub project_id : String
  pub expected_version : ℕ

-- `validator.assertValid` of the automation-control machine.
abbrev pub assert_automation : AutomationState → AutomationState → M (Unit {0})
assert_automation from to = elim (assert_valid automation_control_matrix from to) [
  | valid r ↦ pure tt
  | transition_error f t ↦ throw (
      invalid_transition "automation-control" (automation_state_value f) (automation_state_value t))
]

abbrev pub state_at : String → ℕ → WorkflowState → Bool
state_at id version ws = ws.id == id && ws.version == version

abbrev pub set_automation : Env → AutomationState → ℕ → WorkflowState → WorkflowState
set_automation env to version ws = record ws {
  automation_state = to;
  version = version;
  updated_at = env.now;
}

abbrev pub update_state : String → ℕ → (WorkflowState → WorkflowState) → M ℕ
update_state id version f db = Store.ok (
  count_rows (state_at id version) db.workflow_states,
  record db { workflow_states = update_rows (state_at id version) f db.workflow_states },
)

-- The row, its version, the edge and the update: what all five commands begin with. It returns
-- the state that was left.
abbrev pub move_automation : Env → ProjectPayload → AutomationState → M AutomationState
move_automation env p to = do
  found ← query (load_workflow_state p.project_id)
  ws ← assert_version "workflow_states" p.project_id (λ r. r.version) found p.expected_version
  assert_automation ws.automation_state to
  affected ← update_state ws.id p.expected_version (set_automation env to (next_version ws.version))
  require_affected affected
      (optimistic_lock_error "workflow_states" p.project_id p.expected_version none)
  pure ws.automation_state

abbrev write_automation_event :
    Env
    → Envelope
    → ProjectPayload
    → Option String
    → String
    → AutomationState
    → AutomationState
    → M String
write_automation_event env envelope p run_id event_type from to =
    write_workflow_event env run_id (some p.project_id) event_type (automation_state_value from)
      (automation_state_value to) envelope.actor.id

abbrev project_payload : ProjectPayload → Fields → Json
project_payload p more = obj (field "projectId" (str p.project_id) more)

-- `PauseAutomationHandler.execute`.
unfoldable pub pause_automation : Env → Envelope → ProjectPayload → M CommandResult
pause_automation env envelope p = with_claim env envelope "pause-automation" λ claim_id. do
  from ← move_automation env p AutomationState.paused_by_operator
  event_id ←
      write_automation_event env envelope p none "automation.paused_by_operator"
        AutomationState.running AutomationState.paused_by_operator
  write_outbox_event env "automation.paused_by_operator"
      (project_payload p (field "reason" (str "operator") end))
  accept env envelope claim_id (automation_state_value AutomationState.paused_by_operator)
      (event_id ∷ [])

-- `ResumeAutomationHandler.execute`.
unfoldable pub resume_automation : Env → Envelope → ProjectPayload → M CommandResult
resume_automation env envelope p = with_claim env envelope "resume-automation" λ claim_id. do
  from ← move_automation env p AutomationState.running
  insert_policy_decision env p.project_id none "automation_resume" "resumed"
      (obj (field "fromState" (str (automation_state_value from)) end)) envelope.actor.id
  event_id ←
      write_automation_event env envelope p none "automation.resumed" from AutomationState.running
  write_outbox_event env "automation.resumed"
      (project_payload p (field "reason" (str "operator") end))
  accept env envelope claim_id (automation_state_value AutomationState.running) (event_id ∷ [])

-- What the two breach commands carry, with the hard or the soft limit.
pub record BreachPayload : Type 0 where
  pub project : ProjectPayload
  pub breached_policy_id : String
  pub current_spend : ℕ
  pub limit : ℕ
  pub feature_run_id : Option String

abbrev breach_payload : BreachPayload → String → Json
breach_payload q limit_name = project_payload q.project (
    field "breachedPolicyId" (str q.breached_policy_id)
      (field "currentSpend" (num q.current_spend) (field limit_name (num q.limit) end)))

-- `RecordBudgetExceededHandler.execute`.
unfoldable pub record_budget_exceeded : Env → Envelope → BreachPayload → M CommandResult
record_budget_exceeded env envelope q = with_claim env envelope "record-budget-exceeded" λ claim_id.
    do
      from ← move_automation env q.project AutomationState.paused_budget_exceeded
      event_id ←
          write_automation_event env envelope q.project q.feature_run_id
            "automation.budget_exceeded" AutomationState.running
            AutomationState.paused_budget_exceeded
      write_outbox_event env "automation.budget_exceeded" (breach_payload q "hardLimit")
      accept env envelope claim_id (automation_state_value AutomationState.paused_budget_exceeded)
          (event_id ∷ [])

-- `RecordBudgetApprovalWaitingHandler.execute`.
unfoldable pub record_budget_approval_waiting : Env → Envelope → BreachPayload → M CommandResult
record_budget_approval_waiting env envelope q =
    with_claim env envelope "record-budget-approval-waiting" λ claim_id. do
      from ← move_automation env q.project AutomationState.waiting_for_budget_approval
      event_id ←
          write_automation_event env envelope q.project none "automation.budget_approval_waiting"
            AutomationState.running AutomationState.waiting_for_budget_approval
      write_outbox_event env "automation.budget_approval_waiting" (breach_payload q "softLimit")
      accept env envelope claim_id
          (automation_state_value AutomationState.waiting_for_budget_approval) (event_id ∷ [])

pub record OverridePayload : Type 0 where
  pub project : ProjectPayload
  pub override_reason : String
  pub approved_budget_policy_id : String

abbrev override_fields : OverridePayload → AutomationState → Fields
override_fields q from = field "overrideReason" (str q.override_reason) (
    field "approvedBudgetPolicyId" (str q.approved_budget_policy_id)
      (field "fromState" (str (automation_state_value from)) end))

-- `ApproveBudgetOverrideHandler.execute`.
unfoldable pub approve_budget_override : Env → Envelope → OverridePayload → M CommandResult
approve_budget_override env envelope q =
    let p = q.project in
    with_claim env envelope "approve-budget-override" λ claim_id. do
      from ← move_automation env p AutomationState.running
      insert_policy_decision env p.project_id none "budget_override" "approved"
          (obj (override_fields q from)) envelope.actor.id
      override_id ←
          write_automation_event env envelope p none "automation.budget_override_approved" from
            AutomationState.running
      resumed_id ←
          write_automation_event env envelope p none "automation.resumed" from
            AutomationState.running
      write_outbox_event env "automation.budget_override_approved"
          (project_payload p (override_fields q from))
      write_outbox_event env "automation.resumed"
          (project_payload p (field "reason" (str "budget_override") end))
      accept env envelope claim_id (automation_state_value AutomationState.running)
          (override_id ∷ (resumed_id ∷ []))
