-- ===== src/Handlers/Human.antt =====
-- packages/core/src/commands/handlers/feature: what a human does with a run that needs one.
use mini_coder.Common.{ℕ, not, Option, none, some, List, String, ℕ_eq, String_eq}
use mini_coder.Domain.{FeatureExecutionState, feature_execution_state_eq}
use mini_coder.Auth.Redaction.{str, field, end}
use mini_coder.Store.Rows.{FeatureRun, CommandResult}
use mini_coder.Store.{Env, command_error, M, ◌>>=◌, ◌>>◌, query, execute}
use mini_coder.Command.Helpers.{Envelope, reject_if, with_claim, insert_human_approval}
use mini_coder.Handlers.Steps.{
  FeaturePayload, move_run, load_workflow_state, is_active_run, clear_active_run, run_payload,
}
use mini_coder.Handlers.Transition.{present_run, require_merged_dependencies, finish}
use mini_coder.Handlers.Findings.{NewFinding, insert_review_findings}
use mini_coder.Handlers.Reviews.{or_else}

pub record EscalatePayload : Type 0 where
  pub run : FeaturePayload
  pub reason : String
  pub reviewer_run_id : Option String
  pub review_cycle : Option ℕ
  pub findings : List NewFinding

-- `EscalateToHumanHandler.execute`.
unfoldable pub escalate_to_human : Env → Envelope → EscalatePayload → M CommandResult
escalate_to_human env envelope q =
    let p = q.run in
    with_claim env envelope "escalate-to-human" λ claim_id. do
      run ← present_run p FeatureExecutionState.human_required
      move_run env p run FeatureExecutionState.human_required
      insert_review_findings env p.feature_run_id q.reviewer_run_id (or_else q.review_cycle 1)
          q.findings
      finish env envelope p claim_id "feature.human_required" run.current_execution_state
          FeatureExecutionState.human_required "feature.human_required"
          (run_payload p (field "reason" (str q.reason) end))

-- What the human commands add: the notes, which only `UnblockFeature` has not.
pub record NotedPayload : Type 0 where
  pub run : FeaturePayload
  pub notes : String

-- The `human_approvals` row of a resolved escalation.
abbrev pub approve_escalation : Env → Envelope → NotedPayload → FeatureRun → String → M (Unit {0})
approve_escalation env envelope q run decision =
    let p = q.run in
    insert_human_approval env p.project_id (some run.feature_request_id) (some p.feature_run_id)
      "human_escalation_resolution" none decision envelope.actor (some q.notes)

-- `RetryFeatureHandler.execute`.
unfoldable pub retry_feature : Env → Envelope → NotedPayload → M CommandResult
retry_feature env envelope q =
    let p = q.run in
    with_claim env envelope "retry-feature" λ claim_id. do
      run ← present_run p FeatureExecutionState.selected
      ws ← query (load_workflow_state p.project_id)
      reject_if (not (is_active_run ws p.feature_run_id))
          (command_error "not-active-feature-run" 409)
      move_run env p run FeatureExecutionState.selected
      approve_escalation env envelope q run "approved"
      finish env envelope p claim_id "feature.retried" FeatureExecutionState.human_required
          FeatureExecutionState.selected "feature.retried" (run_payload p end)

-- `BlockFeatureHandler.execute`.
unfoldable pub block_feature : Env → Envelope → NotedPayload → M CommandResult
block_feature env envelope q =
    let p = q.run in
    with_claim env envelope "block-feature" λ claim_id. do
      run ← present_run p FeatureExecutionState.blocked
      move_run env p run FeatureExecutionState.blocked
      execute (clear_active_run env p)
      approve_escalation env envelope q run "deferred"
      finish env envelope p claim_id "feature.blocked_by_human" FeatureExecutionState.human_required
          FeatureExecutionState.blocked "feature.blocked_by_human" (run_payload p end)

-- `UnblockFeatureHandler.execute`.
unfoldable pub unblock_feature : Env → Envelope → FeaturePayload → M CommandResult
unblock_feature env envelope p = with_claim env envelope "unblock-feature" λ claim_id. do
  run ← present_run p FeatureExecutionState.approved_pending_execution
  require_merged_dependencies run
  move_run env p run FeatureExecutionState.approved_pending_execution
  finish env envelope p claim_id "feature.unblocked" FeatureExecutionState.blocked
      FeatureExecutionState.approved_pending_execution "feature.unblocked" (run_payload p end)

-- `HumanUnblockFeatureHandler.execute`.
unfoldable pub human_unblock_feature : Env → Envelope → NotedPayload → M CommandResult
human_unblock_feature env envelope q =
    let p = q.run in
    with_claim env envelope "human-unblock-feature" λ claim_id. do
      run ← present_run p FeatureExecutionState.approved_pending_execution
      require_merged_dependencies run
      move_run env p run FeatureExecutionState.approved_pending_execution
      approve_escalation env envelope q run "approved"
      finish env envelope p claim_id "feature.unblocked" FeatureExecutionState.blocked
          FeatureExecutionState.approved_pending_execution "feature.unblocked" (run_payload p end)
