-- ===== src/Automation/Pauses.antt =====
-- How the automation commands move a project, and what the matrix lets them do.
use mini_coder.Common.{
  ◌+◌, ◌≡◌, refl, sym, ◌∙◌, subst, ◌⊎◌, inl, inr, Bool, true, ◌&&◌, none, some, List, String, arith,
  update_rows, count_rows, ◌==◌, String_eq, ℕ_eq, Option-cases, Bool-cases,
}
use mini_coder.Domain.{AutomationState, automation_state_eq, automation_state_value}
use mini_coder.Machine.Defs.{assert_valid, is_valid, lookup}
use mini_coder.Machine.Lifecycle.{automation_control_matrix}
use mini_coder.Store.Rows.{WorkflowState, CommandResult, IdempotencyKey}
use mini_coder.Store.{
  Db, Env, Error, optimistic_lock_error, transition_error as invalid_transition, Result, ok, err, M,
  ◌>>=◌,
}
use mini_coder.Command.Helpers.{Envelope, with_claim}
use mini_coder.Command.Claims.{cached_result, with_keys, with_claim_replays}
use mini_coder.Handlers.Steps.{load_workflow_state}
use mini_coder.Automation.{
  ProjectPayload, state_at, set_automation, move_automation, pause_automation, resume_automation,
  record_budget_exceeded, record_budget_approval_waiting, approve_budget_override, BreachPayload,
  OverridePayload,
}

-- A project that an automation command may move to a state.
abbrev pub may_move_to : ProjectPayload → AutomationState → WorkflowState → Bool
may_move_to p to ws =
    ws.version == p.expected_version && is_valid automation_control_matrix ws.automation_state to

abbrev pub moved_states :
    Env → ProjectPayload → AutomationState → WorkflowState → List WorkflowState → List WorkflowState
moved_states env p to ws =
    update_rows (state_at ws.id p.expected_version) (set_automation env to (ws.version + 1))

-- A command that has moved its project.
abbrev pub MovedRow :
    Env → ProjectPayload → AutomationState → Db → Result (CommandResult × Db) → Type 0
MovedRow env p to db (err e) = Unit
MovedRow env p to db (ok (result, db')) =
    (ws : WorkflowState) × (load_workflow_state p.project_id db ≡ some ws)
    × (may_move_to p to ws ≡ true)
    × (db'.workflow_states ≡ moved_states env p to ws db.workflow_states)

-- What an automation command that returns has done.
abbrev pub Moved :
    Env
    → Envelope
    → String
    → ProjectPayload
    → AutomationState
    → Db
    → Result (CommandResult × Db)
    → Type 0
Moved env envelope scope p to db (err e) = Unit
Moved env envelope scope p to db (ok (result, db')) =
    ((cached_result env envelope scope db ≡ some result)
      × (db'.workflow_states ≡ db.workflow_states))
    ⊎ MovedRow env p to db (ok (result, db'))

module _ (env : Env) (p : ProjectPayload) (to : AutomationState)
    (k : AutomationState → M CommandResult) (db : Db) where
  move_automation_cases :
      ((ws : WorkflowState) × (load_workflow_state p.project_id db ≡ some ws)
        × (may_move_to p to ws ≡ true)
        × ((move_automation env p to >>= k) db
            ≡ k ws.automation_state
                (record db { workflow_states = moved_states env p to ws db.workflow_states })))
      ⊎ ((e : Error) × ((move_automation env p to >>= k) db ≡ err e))
  unfolding assert_valid is_valid
  move_automation_cases = elim (Option-cases (load_workflow_state p.project_id db)) [
    | inl missing ↦
        inr (
          optimistic_lock_error "workflow_states" p.project_id p.expected_version none,
          ground arith,
        )
    | inr (ws, found) ↦ elim (Bool-cases (ws.version == p.expected_version)) [
      | inr stale ↦ inr (
        optimistic_lock_error "workflow_states" p.project_id p.expected_version (some ws.version),
        ground (arith, found, stale),
      )
      | inl current ↦
          elim (Option-cases (lookup automation_control_matrix ws.automation_state to)) [
            | inl refused ↦ inr (
              invalid_transition "automation-control" (automation_state_value ws.automation_state)
                  (automation_state_value to),
              ground (arith, found, current, refused),
            )
            | inr (r, edge) ↦
                elim (Bool-cases
                  (count_rows (state_at ws.id p.expected_version) db.workflow_states == 0)) [
                    | inl untouched ↦ inr (
                      optimistic_lock_error "workflow_states" p.project_id p.expected_version none,
                      ground (arith, found, current, edge, untouched),
                    )
                    | inr touched ↦ inl (
                      ws,
                      found,
                      ground (arith, current, edge),
                      ground (arith, found, current, edge, touched),
                    )
                  ]
          ]
    ]
  ]

  moves :
      ((s : AutomationState) (db' : Db)
        → (r : CommandResult) × (db'' : Db) × (k s db' ≡ ok (r, db''))
          × (db''.workflow_states ≡ db'.workflow_states))
      → MovedRow env p to db ((move_automation env p to >>= k) db)
  moves ends = elim move_automation_cases [
    | inl (ws, found, may, e) ↦
        let (r, db'', f, same) =
          ends ws.automation_state
            (record db { workflow_states = moved_states env p to ws db.workflow_states }) in
        subst (MovedRow env p to db) (sym (e ∙ f)) (ws, found, may, same)
    | inr (error, e) ↦ subst (MovedRow env p to db) (sym e) tt
  ]

claimed :
    (env : Env) (envelope : Envelope) (scope : String) (p : ProjectPayload) (to : AutomationState)
    (db : Db) (rows : List IdempotencyKey) (r : Result (CommandResult × Db))
    → MovedRow env p to (with_keys db rows) r
    → Moved env envelope scope p to db r
claimed env envelope scope p to db rows (ok (result, db')) h = inr h
claimed env envelope scope p to db rows (err e) h = tt

module _ (env : Env) (envelope : Envelope) (scope : String) (p : ProjectPayload)
    (to : AutomationState) (k : String → AutomationState → M CommandResult) (db : Db) where
  -- The claim of the slot is no part of the move.
  with_claim-Moved :
      ((claim_id : String) (s : AutomationState) (db' : Db)
        → (r : CommandResult) × (db'' : Db) × (k claim_id s db' ≡ ok (r, db''))
          × (db''.workflow_states ≡ db'.workflow_states))
      → Moved env envelope scope p to db
          (with_claim env envelope scope (λ claim_id. move_automation env p to >>= k claim_id) db)
  with_claim-Moved ends =
      with_claim_replays (Moved env envelope scope p to db) env envelope scope _ db tt
        (λ result rows cached. inl (cached, refl))
        (λ claim_id rows.
          claimed env envelope scope p to db rows _
            (moves env p to (k claim_id) (with_keys db rows) (ends claim_id)))

pub pause_automation-Moved :
    (env : Env) (envelope : Envelope) (p : ProjectPayload) (db : Db)
    → Moved env envelope "pause-automation" p AutomationState.paused_by_operator db
        (pause_automation env envelope p db)
unfolding pause_automation
pause_automation-Moved env envelope p db =
    with_claim-Moved env envelope "pause-automation" p AutomationState.paused_by_operator _ db
      (λ claim_id s db'. (_, _, refl, refl))

pub resume_automation-Moved :
    (env : Env) (envelope : Envelope) (p : ProjectPayload) (db : Db)
    → Moved env envelope "resume-automation" p AutomationState.running db
        (resume_automation env envelope p db)
unfolding resume_automation
resume_automation-Moved env envelope p db =
    with_claim-Moved env envelope "resume-automation" p AutomationState.running _ db
      (λ claim_id s db'. (_, _, refl, refl))

pub record_budget_exceeded-Moved :
    (env : Env) (envelope : Envelope) (p : BreachPayload) (db : Db)
    → Moved env envelope "record-budget-exceeded" p.project AutomationState.paused_budget_exceeded
        db
        (record_budget_exceeded env envelope p db)
unfolding record_budget_exceeded
record_budget_exceeded-Moved env envelope p db =
    with_claim-Moved env envelope "record-budget-exceeded" p.project
      AutomationState.paused_budget_exceeded _ db (λ claim_id s db'. (_, _, refl, refl))

pub record_budget_approval_waiting-Moved :
    (env : Env) (envelope : Envelope) (p : BreachPayload) (db : Db)
    → Moved env envelope "record-budget-approval-waiting" p.project
        AutomationState.waiting_for_budget_approval db
        (record_budget_approval_waiting env envelope p db)
unfolding record_budget_approval_waiting
record_budget_approval_waiting-Moved env envelope p db =
    with_claim-Moved env envelope "record-budget-approval-waiting" p.project
      AutomationState.waiting_for_budget_approval _ db (λ claim_id s db'. (_, _, refl, refl))

pub approve_budget_override-Moved :
    (env : Env) (envelope : Envelope) (p : OverridePayload) (db : Db)
    → Moved env envelope "approve-budget-override" p.project AutomationState.running db
        (approve_budget_override env envelope p db)
unfolding approve_budget_override
approve_budget_override-Moved env envelope p db =
    with_claim-Moved env envelope "approve-budget-override" p.project AutomationState.running _ db
      (λ claim_id s db'. (_, _, refl, refl))
