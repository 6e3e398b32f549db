-- ===== src/Handlers/Reviews.antt =====
-- packages/core/src/commands/handlers/github/record-changes-requested.ts and
-- request-changes-after-ci-fail.ts: the two ways to another fix attempt.
use mini_coder.Common.{ℕ, ◌+◌, Option, none, some, List, String, ℕ_eq, String_eq, leb}
use mini_coder.Domain.{FeatureExecutionState, feature_execution_state_eq}
use mini_coder.Auth.Redaction.{str, null, field, end}
use mini_coder.Store.Rows.{FeatureRun, CommandResult}
use mini_coder.Store.{Env, Error, command_error, M, ◌>>=◌, ◌>>◌}
use mini_coder.Command.Helpers.{Envelope, next_version, reject_if, require_affected, with_claim}
use mini_coder.Command.Text.{◌&◌}
use mini_coder.Handlers.Steps.{FeaturePayload, update_run, run_conflict, run_payload}
use mini_coder.Handlers.Transition.{checked_run, set_attempt, finish}
use mini_coder.Handlers.Findings.{NewFinding, insert_review_findings}
use mini_coder.Handlers.Github.{or_null}

-- What `RecordChangesRequestedPayload` adds; `findings` left out is the empty list.
pub record ReviewPayload : Type 0 where
  pub run : FeaturePayload
  pub review_id : String
  pub reviewer : Option String
  pub reviewer_run_id : Option String
  pub review_cycle : Option ℕ
  pub findings : List NewFinding

-- domain/constants.ts.
abbrev pub fix_attempt_threshold : ℕ
fix_attempt_threshold = 5

abbrev pub or_else {ℓ} : {A : Type ℓ} → Option A → A → A
or_else none a = a
or_else (some b) a = b

abbrev pub attempts_exceeded : Error
attempts_exceeded = command_error "fix-attempt-limit-exceeded" 409

-- The update that counts another attempt.
abbrev pub move_attempt : Env → FeaturePayload → FeatureRun → M (Unit {0})
move_attempt env p run = do
  affected ←
      update_run p.feature_run_id p.expected_version
        (set_attempt env FeatureExecutionState.changes_requested (next_version run.version))
  require_affected affected (run_conflict p)

-- `RecordChangesRequestedHandler.execute`.
unfoldable pub record_changes_requested : Env → Envelope → ReviewPayload → M CommandResult
record_changes_requested env envelope q =
    let p = q.run in
    with_claim env envelope "record-changes-requested" λ claim_id. do
      run ← checked_run p FeatureExecutionState.changes_requested
      reject_if (leb fix_attempt_threshold run.fix_attempt_count) attempts_exceeded
      move_attempt env p run
      insert_review_findings env p.feature_run_id q.reviewer_run_id
          (or_else q.review_cycle (run.fix_attempt_count + 1)) q.findings
      finish env envelope p claim_id "github.changes_requested" run.current_execution_state
          FeatureExecutionState.changes_requested "feature.changes_requested"
          (run_payload p
            (field "reviewId" (str q.review_id) (field "reviewer" (or_null q.reviewer) end)))

-- `RequestChangesAfterCiFailHandler.execute`.
unfoldable pub request_changes_after_ci_fail : Env → Envelope → FeaturePayload → M CommandResult
request_changes_after_ci_fail env envelope p =
    with_claim env envelope "request-changes-after-ci-fail" λ claim_id. do
      run ← checked_run p FeatureExecutionState.changes_requested
      reject_if (leb fix_attempt_threshold run.fix_attempt_count) attempts_exceeded
      move_attempt env p run
      finish env envelope p claim_id "github.changes_requested_after_ci_fail"
          run.current_execution_state FeatureExecutionState.changes_requested
          "feature.changes_requested"
          (run_payload p
            (field "reviewId" (str ("ci-failed:" & p.feature_run_id)) (field "reviewer" null end)))
