-- ===== src/Handlers/Selection.antt =====
-- packages/core/src/commands/handlers/feature: selecting a feature run and starting to code it.
use mini_coder.Common.{
  ℕ, zero, suc, ◌+◌, Bool, true, false, not, ◌&&◌, Option, none, some, [], ◌∷◌, String, ◌==◌, ℕ_eq,
  String_eq, update_rows, count_rows, if◌then◌else◌,
}
use mini_coder.Domain.{
  FeatureExecutionState, AutomationState, feature_execution_state_value, automation_state_eq,
}
use mini_coder.Auth.Redaction.{str, field, end}
use mini_coder.Store.Rows.{WorkflowState, CommandResult}
use mini_coder.Store
use mini_coder.Store.{Db, Env, Error, command_error, M, pure, throw, ◌>>=◌, ◌>>◌, query}
use mini_coder.Command.Helpers.{
  Envelope, assert_version, next_version, reject_if, with_claim, accept, write_outbox_event,
}
use mini_coder.Command.Fence.{require_lane}
use mini_coder.Handlers.Steps.{
  FeaturePayload, load_run, require_run, assert_move, set_state, update_run, move_run, run_conflict,
  unmet_dependencies, is_empty, unmet_error, load_workflow_state, is_running, may_run,
  is_active_run, write_run_event, run_payload,
}

abbrev pub automation_paused : Error
automation_paused = command_error "automation-paused" 409

abbrev feature_already_active : Error
feature_already_active = command_error "feature-already-active" 409

-- A project whose automation runs and which has no active feature run.
abbrev pub is_free : String → WorkflowState → Bool
is_free project_id ws =
    ws.project_id == project_id
    && (ws.automation_state == AutomationState.running && is_none ws.active_feature_run_id)
  where
    is_none : Option String → Bool
    is_none none = true
    is_none (some id) = false

-- `UPDATE workflow_states SET active_feature_run_id = ? … WHERE …`, with its count.
abbrev pub activate_run : Env → FeaturePayload → M ℕ
activate_run env p db = Store.ok (
  count_rows (is_free p.project_id) db.workflow_states,
  record db {
    workflow_states =
        update_rows (is_free p.project_id)
          (λ ws. record ws {
            active_feature_run_id = some p.feature_run_id;
            version = ws.version + 1;
            updated_at = env.now;
          })
          db.workflow_states;
  },
)

-- Why the workflow state was not claimed.
abbrev pub require_active : FeaturePayload → ℕ → M (Unit {0})
require_active p (suc n) = pure tt
require_active p zero = do
  ws ← query (load_workflow_state p.project_id)
  reject_if (not (is_running ws)) automation_paused
  throw feature_already_active

-- `SelectFeatureHandler.execute`.
unfoldable pub select_feature : Env → Envelope → FeaturePayload → M CommandResult
select_feature env envelope p = with_claim env envelope "select-feature" λ claim_id. do
  found ← query (load_run p)
  row ← require_run found
  run ←
      assert_version "feature_runs" p.feature_run_id (λ r. r.version) (some row) p.expected_version
  assert_move run.current_execution_state FeatureExecutionState.selected
  unmet ← query (unmet_dependencies run.feature_request_id)
  reject_if (not (is_empty unmet)) unmet_error
  move_run env p run FeatureExecutionState.selected
  activated ← activate_run env p
  require_active p activated
  event_id ←
      write_run_event env envelope p "feature.selected"
        FeatureExecutionState.approved_pending_execution FeatureExecutionState.selected
  write_outbox_event env "feature.selected" (
      run_payload p (
        field "fromState" (str "approved_pending_execution")
          (field "toState" (str "selected") end)))
  accept env envelope claim_id (feature_execution_state_value FeatureExecutionState.selected)
      (event_id ∷ [])

-- `UPDATE feature_runs SET … WHERE id = ? AND version = ? AND EXISTS (… automation_state =
-- 'running')`, and why it matched no row.
abbrev pub move_running : Env → FeaturePayload → ℕ → FeatureExecutionState → M (Unit {0})
move_running env p version to = do
  running ← query (may_run p.project_id)
  affected ←
      if running
      then update_run p.feature_run_id p.expected_version (set_state env to (next_version version))
      else pure 0
  blame affected
  where
    blame : ℕ → M (Unit {0})
    blame (suc n) = pure tt
    blame zero = do
      ws ← query (load_workflow_state p.project_id)
      reject_if (not (is_running ws)) automation_paused
      throw (run_conflict p)

-- `StartCodingHandler.execute`.
unfoldable pub start_coding : Env → Envelope → FeaturePayload → M CommandResult
start_coding env envelope p = with_claim env envelope "start-coding" λ claim_id. do
  require_lane env envelope p.project_id
  ws ← query (load_workflow_state p.project_id)
  reject_if (not (is_active_run ws p.feature_run_id)) (command_error "not-active-feature-run" 409)
  found ← query (load_run p)
  run ← assert_version "feature_runs" p.feature_run_id (λ r. r.version) found p.expected_version
  assert_move run.current_execution_state FeatureExecutionState.coding
  move_running env p run.version FeatureExecutionState.coding
  event_id ←
      write_run_event env envelope p "feature.coding_started" FeatureExecutionState.selected
        FeatureExecutionState.coding
  write_outbox_event env "feature.coding_started" (run_payload p end)
  accept env envelope claim_id (feature_execution_state_value FeatureExecutionState.coding)
      (event_id ∷ [])
