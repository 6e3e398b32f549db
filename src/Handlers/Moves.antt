-- ===== src/Handlers/Moves.antt =====
-- What the handlers of packages/core/src/commands/handlers/feature do to the feature runs.
pub mod Coding
pub mod Github
pub mod Human
pub mod Merging
pub mod Skipping
use mini_coder.Common.{◌+◌, ◌≡◌, refl, inl, inr, arith}
use mini_coder.Domain.{FeatureExecutionState}
use mini_coder.Store.{Db, Env}
use mini_coder.Command.Helpers.{Envelope, with_claim}
use mini_coder.Command.Fence.{require_lane}
use mini_coder.Command.Claims.{with_keys, with_claim_cases, require_lane_cases}
use mini_coder.Handlers.Steps.{FeaturePayload, set_state}
use mini_coder.Handlers.Outcome.{Outcome, any_run, below_threshold}
use mini_coder.Handlers.Selection.{select_feature, start_coding}

pub select_feature-Outcome :
    (env : Env) (envelope : Envelope) (p : FeaturePayload) (db : Db)
    → Outcome p FeatureExecutionState.selected any_run
        (set_state env FeatureExecutionState.selected (p.expected_version + 1))
        db
        (select_feature env envelope p db)
unfolding select_feature
select_feature-Outcome env envelope p db =
    with_claim_cases
      (Outcome p FeatureExecutionState.selected any_run
        (set_state env FeatureExecutionState.selected (p.expected_version + 1)) db)
      env envelope _ _ db tt (λ result rows. inl refl) (λ claim_id rows. ground arith)

pub start_coding-Outcome :
    (env : Env) (envelope : Envelope) (p : FeaturePayload) (db : Db)
    → Outcome p FeatureExecutionState.coding any_run
        (set_state env FeatureExecutionState.coding (p.expected_version + 1))
        db
        (start_coding env envelope p db)
unfolding start_coding
start_coding-Outcome env envelope p db =
    with_claim_cases
      (Outcome p FeatureExecutionState.coding any_run
        (set_state env FeatureExecutionState.coding (p.expected_version + 1)) db)
      env envelope _ _ db tt (λ result rows. inl refl)
      (λ claim_id rows.
        ground (arith, require_lane_cases env envelope p.project_id (with_keys db rows)))
