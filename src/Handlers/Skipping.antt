-- ===== src/Handlers/Skipping.antt =====
-- packages/core/src/commands/handlers/feature/skip-feature.ts.
use mini_coder.Common.{
  ℕ, zero, suc, Bool, true, false, ◌&&◌, Option, none, some, List, [], ◌∷◌, ◌++◌, String, ◌==◌,
  ℕ_eq, String_eq, find, if◌then◌else◌,
}
use mini_coder.Domain.{
  FeatureExecutionState, feature_execution_state_value, feature_execution_state_eq,
  finding_severity_eq, disagreement_state_eq, budget_scope_eq,
}
use mini_coder.Auth.Redaction.{str, obj, field, end}
use mini_coder.Store.Rows.{FeatureRun, FeatureDependency, CommandResult}
use mini_coder.Store.{Env, M, pure, ◌>>=◌, ◌>>◌, query, execute}
use mini_coder.Command.Helpers.{
  Envelope, next_version, with_claim, accept, write_outbox_event, write_workflow_event,
}
use mini_coder.Handlers.Steps.{
  FeaturePayload, set_state, update_run, move_run, clear_active_run, run_payload, write_run_event,
}
use mini_coder.Handlers.Transition.{present_run}
use mini_coder.Handlers.Steps.{assert_move}
use mini_coder.Handlers.Human.{NotedPayload, approve_escalation}

-- An id and a version, as the cascade's query returns them.
pub record Dependent : Type 0 where
  pub id : String
  pub version : ℕ

abbrev pub is_pending : FeatureRun → Bool
is_pending run = run.current_execution_state == FeatureExecutionState.approved_pending_execution

-- The pending runs of one feature request.
abbrev pub pending_runs : String → List FeatureRun → List Dependent
pending_runs request_id [] = []
pending_runs request_id (run ∷ runs) =
    if run.feature_request_id == request_id && is_pending run
    then record { id = run.id; version = run.version } ∷ pending_runs request_id runs
    else pending_runs request_id runs

-- `SELECT fr.id, fr.version FROM feature_dependencies fd JOIN feature_runs fr ON … WHERE
-- fd.target_fr_id = ? AND fr.current_execution_state = 'approved_pending_execution'`.
unfoldable pub dependents : String → List FeatureRun → List FeatureDependency → List Dependent
dependents target_id runs [] = []
dependents target_id runs (d ∷ ds) =
    if d.target_fr_id == target_id
    then pending_runs d.source_fr_id runs ++ dependents target_id runs ds
    else dependents target_id runs ds

-- Whether the loop reads the version again and goes on, and with which one.
abbrev pub fresh_version : Option FeatureRun → Option ℕ
fresh_version none = none
fresh_version (some run) = if is_pending run then some run.version else none

abbrev pub max_cascade_retries : ℕ
max_cascade_retries = 3

-- What follows an attempt: the next one where no row was affected and the run still waits.
abbrev pub after_attempt : (ℕ → M Bool) → ℕ → Option ℕ → M Bool
after_attempt again (suc affected) fresh = pure true
after_attempt again zero none = pure false
after_attempt again zero (some version) = again version

-- The loop over the attempts: whether the dependent was blocked.
unfoldable pub block_attempts : Env → ℕ → String → ℕ → M Bool
block_attempts env zero id version = pure false
block_attempts env (suc attempts) id version = do
  affected ←
      update_run id version (set_state env FeatureExecutionState.blocked (next_version version))
  fresh ← query λ db. fresh_version (find (λ run. run.id == id) db.feature_runs)
  after_attempt (block_attempts env attempts id) affected fresh

-- The events of a dependent that was blocked.
abbrev pub report_blocked : Env → Envelope → FeaturePayload → String → M (Unit {0})
report_blocked env envelope p id = do
  event_id ←
      write_workflow_event env (some id) (some p.project_id) "feature.blocked_by_skipped_dependency"
        (feature_execution_state_value FeatureExecutionState.approved_pending_execution)
        (feature_execution_state_value FeatureExecutionState.blocked) envelope.actor.id
  write_outbox_event env "feature.blocked_by_skipped_dependency" (
      obj (
        field "featureRunId" (str id) (
          field "projectId" (str p.project_id)
            (field "skippedFeatureRunId" (str p.feature_run_id) end))))

-- One turn of the cascade.
unfoldable pub block_dependent : Env → Envelope → FeaturePayload → Dependent → M (Unit {0})
block_dependent env envelope p d = do
  assert_move FeatureExecutionState.approved_pending_execution FeatureExecutionState.blocked
  blocked ← block_attempts env max_cascade_retries d.id d.version
  if blocked then report_blocked env envelope p d.id else pure tt

unfoldable pub cascade : Env → Envelope → FeaturePayload → List Dependent → M (Unit {0})
cascade env envelope p [] = pure tt
cascade env envelope p (d ∷ ds) = block_dependent env envelope p d >> cascade env envelope p ds

-- What `SkipFeatureHandler.execute` does once the run is skipped.
unfoldable pub finish_skip : Env → Envelope → NotedPayload → String → FeatureRun → M CommandResult
finish_skip env envelope q claim_id run =
    let p = q.run in
    do
      execute (clear_active_run env p)
      approve_escalation env envelope q run "rejected"
      event_id ←
          write_run_event env envelope p "feature.skipped" FeatureExecutionState.human_required
            FeatureExecutionState.skipped
      write_outbox_event env "feature.skipped" (run_payload p end)
      waiting ←
          query λ db. dependents run.feature_request_id db.feature_runs db.feature_dependencies
      cascade env envelope p waiting
      accept env envelope claim_id (feature_execution_state_value FeatureExecutionState.skipped)
          (event_id ∷ [])

-- The row and its checks, the move, and what comes after it.
abbrev pub skip_run : Env → FeaturePayload → (FeatureRun → M CommandResult) → M CommandResult
skip_run env p after = do
  run ← present_run p FeatureExecutionState.skipped
  move_run env p run FeatureExecutionState.skipped
  after run

-- `SkipFeatureHandler.execute`.
unfoldable pub skip_feature : Env → Envelope → NotedPayload → M CommandResult
skip_feature env envelope q =
    with_claim env envelope "skip-feature"
      λ claim_id. skip_run env q.run (finish_skip env envelope q claim_id)
