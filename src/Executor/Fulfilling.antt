-- ===== src/Executor/Fulfilling.antt =====
-- Every handler writes its result into the slot that it claimed.
use mini_coder.Common.{arith, ◌∷◌}
use mini_coder.Store.{Db, Env}
use mini_coder.Command.Helpers.{Envelope, new_claim, idempotency_ttl_ms}
use mini_coder.Command.Claims.{with_keys, require_lane_cases}
use mini_coder.Executor.Slots.{Held, with_claim-Held}
use mini_coder.Handlers.Steps.{FeaturePayload}
use mini_coder.Handlers.Selection.{select_feature, start_coding}
use mini_coder.Handlers.Coding.{start_fixing}
use mini_coder.Handlers.Github.{
  CheckPayload, OpenedPayload, record_ci_failed, record_ci_passed, record_ci_running,
  record_pr_opened,
}
use mini_coder.Handlers.Reviews.{
  ReviewPayload, record_changes_requested, request_changes_after_ci_fail,
}
use mini_coder.Handlers.Human.{
  EscalatePayload, NotedPayload, block_feature, escalate_to_human, human_unblock_feature,
  retry_feature, unblock_feature,
}
use mini_coder.Handlers.Disagreement.{
  DispositionPayload, resolve_disagreement, resume_feature_execution,
}
use mini_coder.Handlers.Merging.{
  MergeFailedPayload, MergedPayload, reconcile_merge_failed, record_merge_failed, record_merged,
}

pub select_feature-Held :
    (env : Env) (envelope : Envelope) (p : FeaturePayload) (db : Db)
    → Held env.now envelope.idempotency_key "select-feature" (select_feature env envelope p db)
unfolding select_feature
select_feature-Held env envelope p db =
    with_claim-Held env envelope _ _ db (λ claim_id rows. ground (arith))

pub start_coding-Held :
    (env : Env) (envelope : Envelope) (p : FeaturePayload) (db : Db)
    → Held env.now envelope.idempotency_key "start-coding" (start_coding env envelope p db)
unfolding start_coding
start_coding-Held env envelope p db = with_claim-Held env envelope _ _ db (λ claim_id rows. ground (
  arith,
  require_lane_cases env envelope p.project_id (
      with_keys db
        (new_claim env claim_id envelope.idempotency_key "start-coding" idempotency_ttl_ms ∷ rows)),
))

pub start_fixing-Held :
    (env : Env) (envelope : Envelope) (p : FeaturePayload) (db : Db)
    → Held env.now envelope.idempotency_key "start-fixing" (start_fixing env envelope p db)
unfolding start_fixing
start_fixing-Held env envelope p db = with_claim-Held env envelope _ _ db (λ claim_id rows. ground (
  arith,
  require_lane_cases env envelope p.project_id (
      with_keys db
        (new_claim env claim_id envelope.idempotency_key "start-fixing" idempotency_ttl_ms ∷ rows)),
))

pub record_pr_opened-Held :
    (env : Env) (envelope : Envelope) (p : OpenedPayload) (db : Db)
    → Held env.now envelope.idempotency_key "record-pr-opened" (record_pr_opened env envelope p db)
unfolding record_pr_opened
record_pr_opened-Held env envelope p db = with_claim-Held env envelope _ _ db (λ claim_id rows.
    ground (
      arith,
      require_lane_cases env envelope p.run.project_id (
          with_keys db (
            new_claim env claim_id envelope.idempotency_key "record-pr-opened" idempotency_ttl_ms
            ∷ rows)),
    ))

pub record_ci_running-Held :
    (env : Env) (envelope : Envelope) (p : CheckPayload) (db : Db)
    → Held env.now envelope.idempotency_key "record-ci-running"
        (record_ci_running env envelope p db)
unfolding record_ci_running
record_ci_running-Held env envelope p db = with_claim-Held env envelope _ _ db (λ claim_id rows.
    ground (
      arith,
      require_lane_cases env envelope p.run.project_id (
          with_keys db (
            new_claim env claim_id envelope.idempotency_key "record-ci-running" idempotency_ttl_ms
            ∷ rows)),
    ))

pub record_ci_passed-Held :
    (env : Env) (envelope : Envelope) (p : CheckPayload) (db : Db)
    → Held env.now envelope.idempotency_key "record-ci-passed" (record_ci_passed env envelope p db)
unfolding record_ci_passed
record_ci_passed-Held env envelope p db =
    with_claim-Held env envelope _ _ db (λ claim_id rows. ground (arith))

pub record_ci_failed-Held :
    (env : Env) (envelope : Envelope) (p : CheckPayload) (db : Db)
    → Held env.now envelope.idempotency_key "record-ci-failed" (record_ci_failed env envelope p db)
unfolding record_ci_failed
record_ci_failed-Held env envelope p db =
    with_claim-Held env envelope _ _ db (λ claim_id rows. ground (arith))

pub record_changes_requested-Held :
    (env : Env) (envelope : Envelope) (p : ReviewPayload) (db : Db)
    → Held env.now envelope.idempotency_key "record-changes-requested"
        (record_changes_requested env envelope p db)
unfolding record_changes_requested
record_changes_requested-Held env envelope p db =
    with_claim-Held env envelope _ _ db (λ claim_id rows. ground (arith))

pub request_changes_after_ci_fail-Held :
    (env : Env) (envelope : Envelope) (p : FeaturePayload) (db : Db)
    → Held env.now envelope.idempotency_key "request-changes-after-ci-fail"
        (request_changes_after_ci_fail env envelope p db)
unfolding request_changes_after_ci_fail
request_changes_after_ci_fail-Held env envelope p db =
    with_claim-Held env envelope _ _ db (λ claim_id rows. ground (arith))

pub escalate_to_human-Held :
    (env : Env) (envelope : Envelope) (p : EscalatePayload) (db : Db)
    → Held env.now envelope.idempotency_key "escalate-to-human"
        (escalate_to_human env envelope p db)
unfolding escalate_to_human
escalate_to_human-Held env envelope p db =
    with_claim-Held env envelope _ _ db (λ claim_id rows. ground (arith))

pub retry_feature-Held :
    (env : Env) (envelope : Envelope) (p : NotedPayload) (db : Db)
    → Held env.now envelope.idempotency_key "retry-feature" (retry_feature env envelope p db)
unfolding retry_feature
retry_feature-Held env envelope p db =
    with_claim-Held env envelope _ _ db (λ claim_id rows. ground (arith))

pub block_feature-Held :
    (env : Env) (envelope : Envelope) (p : NotedPayload) (db : Db)
    → Held env.now envelope.idempotency_key "block-feature" (block_feature env envelope p db)
unfolding block_feature
block_feature-Held env envelope p db =
    with_claim-Held env envelope _ _ db (λ claim_id rows. ground (arith))

pub unblock_feature-Held :
    (env : Env) (envelope : Envelope) (p : FeaturePayload) (db : Db)
    → Held env.now envelope.idempotency_key "unblock-feature" (unblock_feature env envelope p db)
unfolding unblock_feature
unblock_feature-Held env envelope p db =
    with_claim-Held env envelope _ _ db (λ claim_id rows. ground (arith))

pub human_unblock_feature-Held :
    (env : Env) (envelope : Envelope) (p : NotedPayload) (db : Db)
    → Held env.now envelope.idempotency_key "human-unblock-feature"
        (human_unblock_feature env envelope p db)
unfolding human_unblock_feature
human_unblock_feature-Held env envelope p db =
    with_claim-Held env envelope _ _ db (λ claim_id rows. ground (arith))

pub resolve_disagreement-Held :
    (env : Env) (envelope : Envelope) (p : DispositionPayload) (db : Db)
    → Held env.now envelope.idempotency_key "resolve-disagreement"
        (resolve_disagreement env envelope p db)
unfolding resolve_disagreement
resolve_disagreement-Held env envelope p db =
    with_claim-Held env envelope _ _ db (λ claim_id rows. ground (arith))

pub resume_feature_execution-Held :
    (env : Env) (envelope : Envelope) (p : DispositionPayload) (db : Db)
    → Held env.now envelope.idempotency_key "resume-feature-execution"
        (resume_feature_execution env envelope p db)
unfolding resume_feature_execution
resume_feature_execution-Held env envelope p db =
    with_claim-Held env envelope _ _ db (λ claim_id rows. ground (arith))

pub record_merged-Held :
    (env : Env) (envelope : Envelope) (p : MergedPayload) (db : Db)
    → Held env.now envelope.idempotency_key "record-merged" (record_merged env envelope p db)
unfolding record_merged
record_merged-Held env envelope p db =
    with_claim-Held env envelope _ _ db (λ claim_id rows. ground (arith))

pub record_merge_failed-Held :
    (env : Env) (envelope : Envelope) (p : MergeFailedPayload) (db : Db)
    → Held env.now envelope.idempotency_key "record-merge-failed"
        (record_merge_failed env envelope p db)
unfolding record_merge_failed
record_merge_failed-Held env envelope p db =
    with_claim-Held env envelope _ _ db (λ claim_id rows. ground (arith))

pub reconcile_merge_failed-Held :
    (env : Env) (envelope : Envelope) (p : FeaturePayload) (db : Db)
    → Held env.now envelope.idempotency_key "reconcile-merge-failed"
        (reconcile_merge_failed env envelope p db)
unfolding reconcile_merge_failed
reconcile_merge_failed-Held env envelope p db =
    with_claim-Held env envelope _ _ db (λ claim_id rows. ground (arith))
