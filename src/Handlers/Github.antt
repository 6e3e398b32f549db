-- ===== src/Handlers/Github.antt =====
-- packages/core/src/commands/handlers/github: the pull request and its checks.
use mini_coder.Common.{
  ℕ, ◌+◌, false, Option, none, some, List, [], ◌∷◌, String, ◌==◌, ℕ_eq, String_eq, find,
  update_rows, if◌then◌else◌,
}
use mini_coder.Domain.{FeatureExecutionState, feature_execution_state_eq, FindingSeverity}
use mini_coder.Auth.Redaction.{Json, str, num, null, field, end}
use mini_coder.Store.Rows.{CommandResult}
use mini_coder.Store.{Db, Env, M, ◌>>=◌, ◌>>◌, execute}
use mini_coder.Command.Helpers.{Envelope, with_claim, generate_id}
use mini_coder.Command.Text.{◌&◌}
use mini_coder.Command.Fence.{require_lane}
use mini_coder.Handlers.Steps.{FeaturePayload, move_run, run_payload}
use mini_coder.Handlers.Transition.{checked_run, finish}
use mini_coder.Store.Rows.{PullRequest}
use mini_coder.Handlers.Findings.{NewFinding, insert_review_findings}

pub record OpenedPayload : Type 0 where
  pub run : FeaturePayload
  pub pr_number : ℕ
  pub branch_name : String
  pub base_branch : String
  pub head_sha : Option String

-- What `RecordCiRunningPayload`, `RecordCiPassedPayload` and `RecordCiFailedPayload` carry.
pub record CheckPayload : Type 0 where
  pub run : FeaturePayload
  pub check_run_id : String
  pub reason : Option String

-- `getPullRequestByFeatureRun`.
abbrev pub get_pull_request : String → Db → Option PullRequest
get_pull_request run_id db = find (λ r. r.feature_run_id == run_id) db.pull_requests

abbrev pub reopen : Env → OpenedPayload → PullRequest → PullRequest
reopen env q r = record r {
  pr_number = q.pr_number;
  branch_name = q.branch_name;
  base_branch = q.base_branch;
  head_sha = q.head_sha;
  state = "open";
  review_state = "none";
  ci_status = "pending";
  mergeable = none;
  blocking_labels = [];
  conversations_resolved = false;
  merged_at = none;
  merge_sha = none;
  closed_at = none;
  version = r.version + 1;
  updated_at = env.now;
}

abbrev pub new_pull_request : Env → String → OpenedPayload → PullRequest
new_pull_request env id q = record {
  id = id;
  feature_run_id = q.run.feature_run_id;
  pr_number = q.pr_number;
  branch_name = q.branch_name;
  base_branch = q.base_branch;
  head_sha = q.head_sha;
  state = "open";
  review_state = "none";
  ci_status = "pending";
  mergeable = none;
  blocking_labels = [];
  conversations_resolved = false;
  merged_at = none;
  merge_sha = none;
  closed_at = none;
  version = 1;
  updated_at = env.now;
}

-- `insertPullRequestRow`: the run's row is overwritten where there is one.
unfoldable pub put_pull_request :
    Env → String → OpenedPayload → Option PullRequest → List PullRequest → List PullRequest
put_pull_request env id q (some existing) rows =
    update_rows (λ r. r.feature_run_id == q.run.feature_run_id) (reopen env q) rows
put_pull_request env id q none rows = new_pull_request env id q ∷ rows

abbrev pub insert_pull_request_row : Env → String → OpenedPayload → M (Unit {0})
insert_pull_request_row env id q = execute λ db. record db {
  pull_requests =
      put_pull_request env id q (get_pull_request q.run.feature_run_id db) db.pull_requests;
}

-- `RecordPrOpenedHandler.execute`.
unfoldable pub record_pr_opened : Env → Envelope → OpenedPayload → M CommandResult
record_pr_opened env envelope q =
    let p = q.run in
    with_claim env envelope "record-pr-opened" λ claim_id. do
      require_lane env envelope p.project_id
      run ← checked_run p FeatureExecutionState.pr_opened
      move_run env p run FeatureExecutionState.pr_opened
      id ← generate_id env
      insert_pull_request_row env id q
      finish env envelope p claim_id "github.pr_opened" run.current_execution_state
          FeatureExecutionState.pr_opened "feature.pr_opened"
          (run_payload p (
            field "prNumber" (num q.pr_number) (
              field "branchName" (str q.branch_name) (field "baseBranch" (str q.base_branch) end))))

-- `RecordCiRunningHandler.execute`.
unfoldable pub record_ci_running : Env → Envelope → CheckPayload → M CommandResult
record_ci_running env envelope q =
    let p = q.run in
    with_claim env envelope "record-ci-running" λ claim_id. do
      require_lane env envelope p.project_id
      run ← checked_run p FeatureExecutionState.ci_running
      move_run env p run FeatureExecutionState.ci_running
      finish env envelope p claim_id "github.ci_running" run.current_execution_state
          FeatureExecutionState.ci_running "feature.ci_running"
          (run_payload p (field "checkRunId" (str q.check_run_id) end))

-- `RecordCiPassedHandler.execute`.
unfoldable pub record_ci_passed : Env → Envelope → CheckPayload → M CommandResult
record_ci_passed env envelope q =
    let p = q.run in
    with_claim env envelope "record-ci-passed" λ claim_id. do
      run ← checked_run p FeatureExecutionState.under_review
      move_run env p run FeatureExecutionState.under_review
      finish env envelope p claim_id "github.ci_passed" run.current_execution_state
          FeatureExecutionState.under_review "feature.ci_passed"
          (run_payload p
            (field "checkRunId" (str q.check_run_id) (field "conclusion" (str "success") end)))

-- `reason ? `: ${reason}` : ''`: the empty text counts as no reason.
abbrev reason_suffix : Option String → String
reason_suffix none = ""
reason_suffix (some reason) = if reason == "" then "" else ": " & reason

abbrev pub or_null : Option String → Json
or_null none = null
or_null (some s) = str s

abbrev pub ci_finding : CheckPayload → NewFinding
ci_finding q = record {
  severity = FindingSeverity.blocking;
  category = "ci_failure";
  description = "CI check " & (q.check_run_id & (" failed" & reason_suffix q.reason));
  file_path = none;
  line_start = none;
  line_end = none;
}

-- `RecordCiFailedHandler.execute`.
unfoldable pub record_ci_failed : Env → Envelope → CheckPayload → M CommandResult
record_ci_failed env envelope q =
    let p = q.run in
    with_claim env envelope "record-ci-failed" λ claim_id. do
      run ← checked_run p FeatureExecutionState.ci_failed
      move_run env p run FeatureExecutionState.ci_failed
      insert_review_findings env p.feature_run_id none (run.fix_attempt_count + 1)
          (ci_finding q ∷ [])
      finish env envelope p claim_id "github.ci_failed" run.current_execution_state
          FeatureExecutionState.ci_failed "feature.ci_failed"
          (run_payload p (
            field "checkRunId" (str q.check_run_id)
              (field "conclusion" (str "failure") (field "reason" (or_null q.reason) end))))
