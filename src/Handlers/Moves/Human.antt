-- ===== src/Handlers/Moves/Human.antt =====
-- What the handlers of packages/core/src/commands/handlers do to the feature runs: Human, Disagreement.
use mini_coder.Common.{◌+◌, refl, inl, arith}
use mini_coder.Domain.{FeatureExecutionState}
use mini_coder.Store.{Db, Env}
use mini_coder.Command.Helpers.{Envelope}
use mini_coder.Command.Claims.{with_claim_cases}
use mini_coder.Handlers.Steps.{FeaturePayload, set_state}
use mini_coder.Handlers.Outcome.{Outcome, any_run}
use mini_coder.Handlers.Human.{
  escalate_to_human, retry_feature, block_feature, unblock_feature, human_unblock_feature,
  EscalatePayload, NotedPayload,
}
use mini_coder.Handlers.Disagreement.{
  resolve_disagreement, resume_feature_execution, DispositionPayload,
}

pub escalate_to_human-Outcome :
    (env : Env) (envelope : Envelope) (p : EscalatePayload) (db : Db)
    → Outcome p.run FeatureExecutionState.human_required any_run
        (set_state env FeatureExecutionState.human_required (p.run.expected_version + 1))
        db
        (escalate_to_human env envelope p db)
unfolding escalate_to_human
escalate_to_human-Outcome env envelope p db =
    with_claim_cases
      (Outcome p.run FeatureExecutionState.human_required any_run
        (set_state env FeatureExecutionState.human_required (p.run.expected_version + 1)) db)
      env envelope _ _ db tt (λ result rows. inl refl) (λ claim_id rows. ground (arith))

pub retry_feature-Outcome :
    (env : Env) (envelope : Envelope) (p : NotedPayload) (db : Db)
    → Outcome p.run FeatureExecutionState.selected any_run
        (set_state env FeatureExecutionState.selected (p.run.expected_version + 1))
        db
        (retry_feature env envelope p db)
unfolding retry_feature
retry_feature-Outcome env envelope p db =
    with_claim_cases
      (Outcome p.run FeatureExecutionState.selected any_run
        (set_state env FeatureExecutionState.selected (p.run.expected_version + 1)) db)
      env envelope _ _ db tt (λ result rows. inl refl) (λ claim_id rows. ground (arith))

pub block_feature-Outcome :
    (env : Env) (envelope : Envelope) (p : NotedPayload) (db : Db)
    → Outcome p.run FeatureExecutionState.blocked any_run
        (set_state env FeatureExecutionState.blocked (p.run.expected_version + 1))
        db
        (block_feature env envelope p db)
unfolding block_feature
block_feature-Outcome env envelope p db =
    with_claim_cases
      (Outcome p.run FeatureExecutionState.blocked any_run
        (set_state env FeatureExecutionState.blocked (p.run.expected_version + 1)) db)
      env envelope _ _ db tt (λ result rows. inl refl) (λ claim_id rows. ground (arith))

pub unblock_feature-Outcome :
    (env : Env) (envelope : Envelope) (p : FeaturePayload) (db : Db)
    → Outcome p FeatureExecutionState.approved_pending_execution any_run
        (set_state env FeatureExecutionState.approved_pending_execution (p.expected_version + 1))
        db
        (unblock_feature env envelope p db)
unfolding unblock_feature
unblock_feature-Outcome env envelope p db =
    with_claim_cases
      (Outcome p FeatureExecutionState.approved_pending_execution any_run
        (set_state env FeatureExecutionState.approved_pending_execution (p.expected_version + 1))
        db)
      env envelope _ _ db tt (λ result rows. inl refl) (λ claim_id rows. ground (arith))

pub human_unblock_feature-Outcome :
    (env : Env) (envelope : Envelope) (p : NotedPayload) (db : Db)
    → Outcome p.run FeatureExecutionState.approved_pending_execution any_run
        (set_state env FeatureExecutionState.approved_pending_execution
          (p.run.expected_version + 1))
        db
        (human_unblock_feature env envelope p db)
unfolding human_unblock_feature
human_unblock_feature-Outcome env envelope p db =
    with_claim_cases
      (Outcome p.run FeatureExecutionState.approved_pending_execution any_run
        (set_state env FeatureExecutionState.approved_pending_execution
          (p.run.expected_version + 1))
        db)
      env envelope _ _ db tt (λ result rows. inl refl) (λ claim_id rows. ground (arith))

pub resolve_disagreement-Outcome :
    (env : Env) (envelope : Envelope) (p : DispositionPayload) (db : Db)
    → Outcome p.run FeatureExecutionState.changes_requested any_run
        (set_state env FeatureExecutionState.changes_requested (p.run.expected_version + 1))
        db
        (resolve_disagreement env envelope p db)
unfolding resolve_disagreement
resolve_disagreement-Outcome env envelope p db =
    with_claim_cases
      (Outcome p.run FeatureExecutionState.changes_requested any_run
        (set_state env FeatureExecutionState.changes_requested (p.run.expected_version + 1)) db)
      env envelope _ _ db tt (λ result rows. inl refl) (λ claim_id rows. ground (arith))

pub resume_feature_execution-Outcome :
    (env : Env) (envelope : Envelope) (p : DispositionPayload) (db : Db)
    → Outcome p.run FeatureExecutionState.under_review any_run
        (set_state env FeatureExecutionState.under_review (p.run.expected_version + 1))
        db
        (resume_feature_execution env envelope p db)
unfolding resume_feature_execution
resume_feature_execution-Outcome env envelope p db =
    with_claim_cases
      (Outcome p.run FeatureExecutionState.under_review any_run
        (set_state env FeatureExecutionState.under_review (p.run.expected_version + 1)) db)
      env envelope _ _ db tt (λ result rows. inl refl) (λ claim_id rows. ground (arith))
