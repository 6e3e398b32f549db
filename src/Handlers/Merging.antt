-- ===== src/Handlers/Merging.antt =====
-- packages/core/src/commands/handlers/feature: the merge path, from the policy's approval to merged.
use mini_coder.Common.{◌+◌, Bool, some, String, ◌==◌, ℕ_eq, String_eq, update_rows, if◌then◌else◌}
use mini_coder.Domain.{FeatureExecutionState, finding_severity_eq, budget_scope_eq}
use mini_coder.Auth.Redaction.{bool, str, field, end}
use mini_coder.Store.Rows.{CommandResult}
use mini_coder.Store.{Db, Env, merge_gate_blocked, Result, ok, err, M, ◌>>=◌, ◌>>◌, query, execute}
use mini_coder.Command.Helpers.{Envelope, with_claim}
use mini_coder.Handlers.Steps.{
  FeaturePayload, move_run, clear_active_run, run_payload, load_run, require_run,
}
use mini_coder.Handlers.Transition.{checked_run, present_run, finish}
use mini_coder.MergeGate.{GateEvaluation, evaluate_merge_gate, is_approved}

-- The first transaction of the two gated commands: the run is looked up, the gate evaluated.
unfoldable pub gate : Env → FeaturePayload → M GateEvaluation
gate env p = do
  found ← query (load_run p)
  run ← require_run found
  evaluate_merge_gate env p.feature_run_id p.project_id run.feature_request_id

-- The second transaction, which makes the move.
unfoldable pub pass_gate :
    Env
    → Envelope
    → FeaturePayload
    → String
    → String
    → FeatureExecutionState
    → String
    → M CommandResult
pass_gate env envelope p scope event_type to evaluation_id =
    with_claim env envelope scope λ claim_id. do
      run ← checked_run p to
      move_run env p run to
      finish env envelope p claim_id event_type run.current_execution_state to event_type
          (run_payload p (field "mergeGateEvaluationId" (str evaluation_id) end))

-- A gated command, as what it returns and the database it leaves: the evidence of the first
-- transaction stays whatever becomes of the second.
abbrev pub Gated : Type 0
Gated = Result CommandResult × Db

abbrev pub result_of : Db → Result (CommandResult × Db) → Gated
result_of db (ok (result, db')) = (ok result, db')
result_of db (err e) = (err e, db)

abbrev pub after_gate : (String → M CommandResult) → Db → Result (GateEvaluation × Db) → Gated
after_gate move db (err e) = (err e, db)
after_gate move db (ok (evaluation, db')) =
    if is_approved evaluation.reasons
    then result_of db' (move evaluation.evaluation_id db')
    else (err (merge_gate_blocked evaluation.reasons), db')

-- `RecordApprovedByPolicyHandler.execute`.
unfoldable pub record_approved_by_policy : Env → Envelope → FeaturePayload → Db → Gated
record_approved_by_policy env envelope p db =
    after_gate
      (pass_gate env envelope p "record-approved-by-policy" "feature.approved_by_policy"
        FeatureExecutionState.approved_by_policy)
      db (gate env p db)

-- `MergeIfReadyHandler.execute`.
unfoldable pub merge_if_ready : Env → Envelope → FeaturePayload → Db → Gated
merge_if_ready env envelope p db =
    after_gate
      (pass_gate env envelope p "merge-if-ready" "feature.merge_ready"
        FeatureExecutionState.merge_ready)
      db (gate env p db)

pub record MergedPayload : Type 0 where
  pub run : FeaturePayload
  pub merge_sha : String

-- `UPDATE pull_requests SET state = 'merged', … WHERE feature_run_id = ?`.
abbrev pub mark_merged : Env → MergedPayload → M (Unit {0})
mark_merged env q = execute λ db. record db {
  pull_requests =
      update_rows (λ r. r.feature_run_id == q.run.feature_run_id)
        (λ r. record r {
          state = "merged";
          merge_sha = some q.merge_sha;
          merged_at = some env.now;
          version = r.version + 1;
          updated_at = env.now;
        })
        db.pull_requests;
}

-- `RecordMergedHandler.execute`.
unfoldable pub record_merged : Env → Envelope → MergedPayload → M CommandResult
record_merged env envelope q =
    let p = q.run in
    with_claim env envelope "record-merged" λ claim_id. do
      run ← present_run p FeatureExecutionState.merged
      move_run env p run FeatureExecutionState.merged
      mark_merged env q
      execute (clear_active_run env p)
      finish env envelope p claim_id "feature.merged" run.current_execution_state
          FeatureExecutionState.merged "feature.merged"
          (run_payload p (field "mergeSha" (str q.merge_sha) end))

pub record MergeFailedPayload : Type 0 where
  pub run : FeaturePayload
  pub reason : String
  pub auto_clearable : Bool

-- `RecordMergeFailedHandler.execute`.
unfoldable pub record_merge_failed : Env → Envelope → MergeFailedPayload → M CommandResult
record_merge_failed env envelope q =
    let p = q.run in
    with_claim env envelope "record-merge-failed" λ claim_id. do
      run ← present_run p FeatureExecutionState.merge_failed
      move_run env p run FeatureExecutionState.merge_failed
      finish env envelope p claim_id "feature.merge_failed" run.current_execution_state
          FeatureExecutionState.merge_failed "feature.merge_failed"
          (run_payload p
            (field "reason" (str q.reason) (field "autoClearable" (bool q.auto_clearable) end)))

-- `ReconcileMergeFailedHandler.execute`.
unfoldable pub reconcile_merge_failed : Env → Envelope → FeaturePayload → M CommandResult
reconcile_merge_failed env envelope p = with_claim env envelope "reconcile-merge-failed" λ claim_id.
    do
      run ← present_run p FeatureExecutionState.under_review
      move_run env p run FeatureExecutionState.under_review
      finish env envelope p claim_id "feature.returned_to_review" run.current_execution_state
          FeatureExecutionState.under_review "feature.returned_to_review" (run_payload p end)
