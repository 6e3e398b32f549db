-- ===== src/Handlers/Coding.antt =====
-- packages/core/src/commands/handlers/feature/record-code-pushed.ts and start-fixing.ts.
use mini_coder.Common.{ℕ, Option, List, String, ℕ_eq, String_eq}
use mini_coder.Domain.{FeatureExecutionState, feature_execution_state_eq}
use mini_coder.Auth.Redaction.{str, num, field, end}
use mini_coder.Store.Rows.{CommandResult}
use mini_coder.Store.{Env, M, ◌>>=◌, ◌>>◌}
use mini_coder.Command.Helpers.{Envelope, with_claim}
use mini_coder.Command.Fence.{require_lane}
use mini_coder.Handlers.Steps.{FeaturePayload, move_run, run_payload}
use mini_coder.Handlers.Transition.{checked_run, finish}
use mini_coder.Handlers.Selection.{move_running}
use mini_coder.Handlers.Findings.{resolve_pushed}

-- What `RecordCodePushedPayload` adds; `resolvedFindingIds` left out is the empty list.
pub record PushedPayload : Type 0 where
  pub run : FeaturePayload
  pub commit_sha : String
  pub branch_name : String
  pub files_changed : ℕ
  pub coder_run_id : Option String
  pub resolved_finding_ids : List String

-- `RecordCodePushedHandler.execute`.
unfoldable pub record_code_pushed : Env → Envelope → PushedPayload → M CommandResult
record_code_pushed env envelope q =
    let p = q.run in
    with_claim env envelope "record-code-pushed" λ claim_id. do
      require_lane env envelope p.project_id
      run ← checked_run p FeatureExecutionState.code_pushed
      move_run env p run FeatureExecutionState.code_pushed
      resolve_pushed env p.feature_run_id q.coder_run_id q.resolved_finding_ids
      finish env envelope p claim_id "feature.code_pushed" run.current_execution_state
          FeatureExecutionState.code_pushed "feature.code_pushed"
          (run_payload p (
            field "commitSha" (str q.commit_sha) (
              field "branchName" (str q.branch_name)
                (field "filesChanged" (num q.files_changed) end))))

-- `StartFixingHandler.execute`.
unfoldable pub start_fixing : Env → Envelope → FeaturePayload → M CommandResult
start_fixing env envelope p = with_claim env envelope "start-fixing" λ claim_id. do
  require_lane env envelope p.project_id
  run ← checked_run p FeatureExecutionState.fixing
  move_running env p run.version FeatureExecutionState.fixing
  finish env envelope p claim_id "feature.fixing_started" FeatureExecutionState.changes_requested
      FeatureExecutionState.fixing "feature.fixing_started" (run_payload p end)
