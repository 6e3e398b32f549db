-- ===== src/Automation/Overrides.antt =====
-- Every automation command moves its project along the matrix; and what resume-automation.ts
-- accepts, whatever stopped the project.
use mini_coder.Common.{
  ◌≡◌, ◌≢◌, refl, inl, inr, Bool, true, false, none, some, List, [], ◌∷◌, arith, find, count_rows,
  String, ◌==◌, String_eq, ℕ_eq, Bool-cases, eq_iff,
}
use mini_coder.Domain.{AutomationState, automation_state_eq, automation_state_value}
use mini_coder.Machine.Defs.{assert_valid, lookup}
use mini_coder.Machine.Lifecycle.{automation_control_matrix}
use mini_coder.Store.Rows.{WorkflowState, CommandResult}
use mini_coder.Store.{Db, Env, Result, ok, err, M}
use mini_coder.Command.Helpers.{Envelope, with_claim, claim_idempotency_key, in_slot, drop_expired}
use mini_coder.Handlers.Steps.{load_workflow_state}
use mini_coder.Automation.{
  ProjectPayload, BreachPayload, OverridePayload, state_at, pause_automation, resume_automation,
  record_budget_exceeded, record_budget_approval_waiting, approve_budget_override,
}
use mini_coder.Automation.Pauses.{
  Moved, moved_states, pause_automation-Moved, resume_automation-Moved,
  record_budget_exceeded-Moved, record_budget_approval_waiting-Moved, approve_budget_override-Moved,
}

pub data AutomationCommand : Type 0 where
  do_pause do_resume : ProjectPayload → AutomationCommand
  do_exceed do_wait : BreachPayload → AutomationCommand
  do_override : OverridePayload → AutomationCommand

unfoldable pub handle_automation : Env → Envelope → AutomationCommand → M CommandResult
handle_automation env envelope (do_pause p) = pause_automation env envelope p
handle_automation env envelope (do_resume p) = resume_automation env envelope p
handle_automation env envelope (do_exceed p) = record_budget_exceeded env envelope p
handle_automation env envelope (do_wait p) = record_budget_approval_waiting env envelope p
handle_automation env envelope (do_override p) = approve_budget_override env envelope p

abbrev pub project_of : AutomationCommand → ProjectPayload
project_of (do_pause p) = p
project_of (do_resume p) = p
project_of (do_exceed p) = p.project
project_of (do_wait p) = p.project
project_of (do_override p) = p.project

abbrev pub target_of : AutomationCommand → AutomationState
target_of (do_pause p) = AutomationState.paused_by_operator
target_of (do_resume p) = AutomationState.running
target_of (do_exceed p) = AutomationState.paused_budget_exceeded
target_of (do_wait p) = AutomationState.waiting_for_budget_approval
target_of (do_override p) = AutomationState.running

abbrev pub scope_of : AutomationCommand → String
scope_of (do_pause p) = "pause-automation"
scope_of (do_resume p) = "resume-automation"
scope_of (do_exceed p) = "record-budget-exceeded"
scope_of (do_wait p) = "record-budget-approval-waiting"
scope_of (do_override p) = "approve-budget-override"

-- An automation command that returns either returns the result cached under its key and leaves the
-- workflow states; or it found the project's state at the expected version with an edge of the
-- matrix to the command's target, and moved that row, and no other row of the table, to the target,
-- one version up.
pub handle_automation-Moved :
    (env : Env) (envelope : Envelope) (command : AutomationCommand) (db : Db)
    → Moved env envelope
        (scope_of command)
        (project_of command)
        (target_of command)
        db
        (handle_automation env envelope command db)
unfolding handle_automation
handle_automation-Moved env envelope (AutomationCommand.do_pause p) db =
    pause_automation-Moved env envelope p db
handle_automation-Moved env envelope (AutomationCommand.do_resume p) db =
    resume_automation-Moved env envelope p db
handle_automation-Moved env envelope (AutomationCommand.do_exceed p) db =
    record_budget_exceeded-Moved env envelope p db
handle_automation-Moved env envelope (AutomationCommand.do_wait p) db =
    record_budget_approval_waiting-Moved env envelope p db
handle_automation-Moved env envelope (AutomationCommand.do_override p) db =
    approve_budget_override-Moved env envelope p db

-- From every state but `running` the matrix has an edge to `running`.
resumable :
    (s : AutomationState)
    → s ≢ AutomationState.running
    → (r : _) × (lookup automation_control_matrix s AutomationState.running ≡ some r)
unfolding lookup
resumable AutomationState.running h = absurd (h refl)
resumable AutomationState.paused_by_operator h = (_, refl)
resumable AutomationState.paused_budget_exceeded h = (_, refl)
resumable AutomationState.waiting_for_budget_approval h = (_, refl)

count_found :
    {A : Type 0} (q r : A → Bool) (xs : List A) (x : A)
    → find q xs ≡ some x
    → r x ≡ true
    → (count_rows r xs == 0) ≡ false
count_found q r [] x h k = cc
count_found q r (y ∷ xs) x h k = elim (Bool-cases (q y)) [
  | inl hit ↦ ground (arith, h, k, hit)
  | inr miss ↦ ground (arith, h, miss, count_found q r xs x)
]

abbrev pub Resumed :
    Env → ProjectPayload → WorkflowState → Db → Result (CommandResult × Db) → Type 0
Resumed env p ws db (err e) = ⊥
Resumed env p ws db (ok (result, db')) =
    (result.resulting_state ≡ "running")
    × (db'.workflow_states ≡ moved_states env p AutomationState.running ws db.workflow_states)

-- ResumeAutomation is not only for a project that an operator paused: whatever state but `running`
-- the project is in, `paused_budget_exceeded` and `waiting_for_budget_approval` included, where the
-- idempotency slot is free and the version is the expected one the command succeeds and the
-- project is running.
pub resume_automation-Resumed :
    (env : Env) (envelope : Envelope) (p : ProjectPayload) (ws : WorkflowState) (db : Db)
    → find
        (in_slot envelope.idempotency_key "resume-automation")
        (drop_expired env.now envelope.idempotency_key "resume-automation" db.idempotency_keys)
      ≡ none
    → load_workflow_state p.project_id db ≡ some ws
    → ws.version ≡ p.expected_version
    → ws.automation_state ≢ AutomationState.running
    → Resumed env p ws db (resume_automation env envelope p db)
unfolding resume_automation with_claim claim_idempotency_key assert_valid automation_state_value
resume_automation-Resumed env envelope p ws db free found current stopped =
    let (r, edge) = resumable ws.automation_state stopped in
    let here : state_at ws.id p.expected_version ws ≡ true =
      ground (arith, current, (eq_iff ws.id ws.id).1 refl) in
    let touched =
      count_found (λ w. w.project_id == p.project_id) (state_at ws.id p.expected_version)
        db.workflow_states ws found here in
    ground (arith, free, found, current, edge, touched)
