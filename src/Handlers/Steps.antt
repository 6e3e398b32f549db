-- ===== src/Handlers/Steps.antt =====
-- packages/core/src/commands/handlers: the queries and updates that the feature handlers share.
use mini_coder.Common.{
  ℕ, ◌+◌, Bool, true, false, not, ◌&&◌, Option, none, some, List, [], ◌∷◌, String, ◌==◌, ℕ_eq,
  String_eq, any, find, where_rows, update_rows, count_rows, option_beq,
}
use mini_coder.Domain.{
  FeatureExecutionState, AutomationState, feature_execution_state_value, feature_execution_state_eq,
  automation_state_eq,
}
use mini_coder.Machine.Defs.{valid, transition_error, assert_valid}
use mini_coder.Machine.Feature.{feature_execution_matrix}
use mini_coder.Auth.Redaction.{Json, Fields, str, obj, field}
use mini_coder.Store.Rows.{FeatureDependency, FeatureRun, WorkflowState}
use mini_coder.Store.{
  Db, Env, Error, command_error, optimistic_lock_error, transition_error as invalid_transition, M,
  pure, throw, ◌>>=◌, ◌>>◌, query,
}
use mini_coder.Store
use mini_coder.Command.Helpers.{Envelope, next_version, require_affected, write_workflow_event}

-- What every feature command carries.
pub record FeaturePayload : Type 0 where
  pub feature_run_id : String
  pub project_id : String
  pub expected_version : ℕ

abbrev pub in_project : Db → String → FeatureRun → Bool
in_project db project_id run =
    any (λ q. q.id == run.feature_request_id && q.project_id == project_id) db.feature_requests

-- `SELECT … FROM feature_runs fr JOIN feature_requests freq … WHERE fr.id = ? AND
-- freq.project_id = ?`, first row.
abbrev pub load_run : FeaturePayload → Db → Option FeatureRun
load_run p db =
    find (λ run. run.id == p.feature_run_id && in_project db p.project_id run) db.feature_runs

abbrev pub not_found : Error
not_found = command_error "not-found" 404

abbrev pub require_run : Option FeatureRun → M FeatureRun
require_run none = throw not_found
require_run (some run) = pure run

-- `validator.assertValid` of the feature-execution machine.
abbrev pub assert_move : FeatureExecutionState → FeatureExecutionState → M (Unit {0})
assert_move from to = elim (assert_valid feature_execution_matrix from to) [
  | valid r ↦ pure tt
  | transition_error f t ↦ throw (
      invalid_transition "feature-execution" (feature_execution_state_value f)
        (feature_execution_state_value t))
]

abbrev pub at_version : String → ℕ → FeatureRun → Bool
at_version id version run = run.id == id && run.version == version

-- `UPDATE feature_runs SET … WHERE id = ? AND version = ?`, with its count.
abbrev pub update_run : String → ℕ → (FeatureRun → FeatureRun) → M ℕ
update_run id version f db = Store.ok (
  count_rows (at_version id version) db.feature_runs,
  record db { feature_runs = update_rows (at_version id version) f db.feature_runs },
)

abbrev pub set_state : Env → FeatureExecutionState → ℕ → FeatureRun → FeatureRun
set_state env to version run = record run {
  current_execution_state = to;
  version = version;
  updated_at = env.now;
}

abbrev pub run_conflict : FeaturePayload → Error
run_conflict p = optimistic_lock_error "feature_runs" p.feature_run_id p.expected_version none

-- The update of a run to a new state, which throws where no row has the expected version.
abbrev pub move_run : Env → FeaturePayload → FeatureRun → FeatureExecutionState → M (Unit {0})
move_run env p run to = do
  affected ←
      update_run p.feature_run_id p.expected_version (set_state env to (next_version run.version))
  require_affected affected (run_conflict p)

-- `SELECT … FROM feature_dependencies fd WHERE fd.source_fr_id = ? AND NOT EXISTS (… merged)`.
abbrev pub is_met : List FeatureRun → FeatureDependency → Bool
is_met runs dependency =
    any
      (λ run.
        run.feature_request_id == dependency.target_fr_id
        && run.current_execution_state == FeatureExecutionState.merged)
      runs

abbrev pub unmet_dependencies : String → Db → List FeatureDependency
unmet_dependencies feature_request_id db =
    where_rows (λ d. d.source_fr_id == feature_request_id && not (is_met db.feature_runs d))
      db.feature_dependencies

abbrev pub is_empty {ℓ} : {A : Type ℓ} → List A → Bool
is_empty [] = true
is_empty (x ∷ xs) = false

abbrev pub unmet_error : Error
unmet_error = command_error "unmet-dependencies" 409

abbrev pub load_workflow_state : String → Db → Option WorkflowState
load_workflow_state project_id db = find (λ ws. ws.project_id == project_id) db.workflow_states

abbrev pub is_running : Option WorkflowState → Bool
is_running none = false
is_running (some ws) = ws.automation_state == AutomationState.running

-- `EXISTS (SELECT 1 FROM workflow_states WHERE project_id = ? AND automation_state = 'running')`.
abbrev pub may_run : String → Db → Bool
may_run project_id db =
    any (λ ws. ws.project_id == project_id && ws.automation_state == AutomationState.running)
      db.workflow_states

-- `wsRows[0]?.active_feature_run_id === featureRunId`.
abbrev pub is_active_run : Option WorkflowState → String → Bool
is_active_run none run_id = false
is_active_run (some ws) run_id = option_beq ws.active_feature_run_id (some run_id)

-- `UPDATE workflow_states SET active_feature_run_id = NULL … WHERE project_id = ? AND
-- active_feature_run_id = ?`.
abbrev pub clear_active_run : Env → FeaturePayload → Db → Db
clear_active_run env p db = record db {
  workflow_states =
      update_rows
        (λ ws.
          ws.project_id == p.project_id
          && option_beq ws.active_feature_run_id (some p.feature_run_id))
        (λ ws. record ws {
          active_feature_run_id = none;
          version = ws.version + 1;
          updated_at = env.now;
        })
        db.workflow_states;
}

-- The workflow event of a feature transition.
abbrev pub write_run_event :
    Env
    → Envelope
    → FeaturePayload
    → String
    → FeatureExecutionState
    → FeatureExecutionState
    → M String
write_run_event env envelope p event_type from to =
    write_workflow_event env (some p.feature_run_id) (some p.project_id) event_type
      (feature_execution_state_value from) (feature_execution_state_value to) envelope.actor.id

-- `{ featureRunId, projectId }`, with further fields behind.
abbrev pub run_payload : FeaturePayload → Fields → Json
run_payload p more =
    obj (field "featureRunId" (str p.feature_run_id) (field "projectId" (str p.project_id) more))
