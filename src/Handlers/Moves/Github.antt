-- ===== src/Handlers/Moves/Github.antt =====
-- What the handlers of packages/core/src/commands/handlers do to the feature runs: Github, Reviews.
use mini_coder.Common.{◌+◌, refl, inl, arith}
use mini_coder.Domain.{FeatureExecutionState}
use mini_coder.Store.{Db, Env}
use mini_coder.Command.Helpers.{Envelope}
use mini_coder.Command.Claims.{with_keys, with_claim_cases, require_lane_cases}
use mini_coder.Handlers.Steps.{FeaturePayload, set_state}
use mini_coder.Handlers.Transition.{set_attempt}
use mini_coder.Handlers.Outcome.{Outcome, any_run, below_threshold}
use mini_coder.Handlers.Github.{
  record_pr_opened, record_ci_running, record_ci_passed, record_ci_failed, CheckPayload,
  OpenedPayload,
}
use mini_coder.Handlers.Reviews.{
  record_changes_requested, request_changes_after_ci_fail, ReviewPayload,
}

pub record_pr_opened-Outcome :
    (env : Env) (envelope : Envelope) (p : OpenedPayload) (db : Db)
    → Outcome p.run FeatureExecutionState.pr_opened any_run
        (set_state env FeatureExecutionState.pr_opened (p.run.expected_version + 1))
        db
        (record_pr_opened env envelope p db)
unfolding record_pr_opened
record_pr_opened-Outcome env envelope p db =
    with_claim_cases
      (Outcome p.run FeatureExecutionState.pr_opened any_run
        (set_state env FeatureExecutionState.pr_opened (p.run.expected_version + 1)) db)
      env envelope _ _ db tt (λ result rows. inl refl)
      (λ claim_id rows.
        ground (arith, require_lane_cases env envelope p.run.project_id (with_keys db rows)))

pub record_ci_running-Outcome :
    (env : Env) (envelope : Envelope) (p : CheckPayload) (db : Db)
    → Outcome p.run FeatureExecutionState.ci_running any_run
        (set_state env FeatureExecutionState.ci_running (p.run.expected_version + 1))
        db
        (record_ci_running env envelope p db)
unfolding record_ci_running
record_ci_running-Outcome env envelope p db =
    with_claim_cases
      (Outcome p.run FeatureExecutionState.ci_running any_run
        (set_state env FeatureExecutionState.ci_running (p.run.expected_version + 1)) db)
      env envelope _ _ db tt (λ result rows. inl refl)
      (λ claim_id rows.
        ground (arith, require_lane_cases env envelope p.run.project_id (with_keys db rows)))

pub record_ci_passed-Outcome :
    (env : Env) (envelope : Envelope) (p : CheckPayload) (db : Db)
    → Outcome p.run FeatureExecutionState.under_review any_run
        (set_state env FeatureExecutionState.under_review (p.run.expected_version + 1))
        db
        (record_ci_passed env envelope p db)
unfolding record_ci_passed
record_ci_passed-Outcome env envelope p db =
    with_claim_cases
      (Outcome p.run FeatureExecutionState.under_review any_run
        (set_state env FeatureExecutionState.under_review (p.run.expected_version + 1)) db)
      env envelope _ _ db tt (λ result rows. inl refl) (λ claim_id rows. ground (arith))

pub record_ci_failed-Outcome :
    (env : Env) (envelope : Envelope) (p : CheckPayload) (db : Db)
    → Outcome p.run FeatureExecutionState.ci_failed any_run
        (set_state env FeatureExecutionState.ci_failed (p.run.expected_version + 1))
        db
        (record_ci_failed env envelope p db)
unfolding record_ci_failed
record_ci_failed-Outcome env envelope p db =
    with_claim_cases
      (Outcome p.run FeatureExecutionState.ci_failed any_run
        (set_state env FeatureExecutionState.ci_failed (p.run.expected_version + 1)) db)
      env envelope _ _ db tt (λ result rows. inl refl) (λ claim_id rows. ground (arith))

pub record_changes_requested-Outcome :
    (env : Env) (envelope : Envelope) (p : ReviewPayload) (db : Db)
    → Outcome p.run FeatureExecutionState.changes_requested below_threshold
        (set_attempt env FeatureExecutionState.changes_requested (p.run.expected_version + 1))
        db
        (record_changes_requested env envelope p db)
unfolding record_changes_requested
record_changes_requested-Outcome env envelope p db =
    with_claim_cases
      (Outcome p.run FeatureExecutionState.changes_requested below_threshold
        (set_attempt env FeatureExecutionState.changes_requested (p.run.expected_version + 1)) db)
      env envelope _ _ db tt (λ result rows. inl refl) (λ claim_id rows. ground (arith))

pub request_changes_after_ci_fail-Outcome :
    (env : Env) (envelope : Envelope) (p : FeaturePayload) (db : Db)
    → Outcome p FeatureExecutionState.changes_requested below_threshold
        (set_attempt env FeatureExecutionState.changes_requested (p.expected_version + 1))
        db
        (request_changes_after_ci_fail env envelope p db)
unfolding request_changes_after_ci_fail
request_changes_after_ci_fail-Outcome env envelope p db =
    with_claim_cases
      (Outcome p FeatureExecutionState.changes_requested below_threshold
        (set_attempt env FeatureExecutionState.changes_requested (p.expected_version + 1)) db)
      env envelope _ _ db tt (λ result rows. inl refl) (λ claim_id rows. ground (arith))
