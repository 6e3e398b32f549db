-- ===== src/Reconcile.antt =====
-- packages/core/src/scm/reconcile.ts: what the code host reports is turned into commands.
pub mod Mirror
pub mod Stepping
pub mod Decisions
pub mod Passes
use mini_coder.Common.{
  ℕ, zero, suc, ◌+◌, Bool, true, false, not, ◌&&◌, ◌||◌, Option, none, some, List, [], ◌∷◌, ◌++◌,
  String, ◌==◌, String_eq, any, find, leb, if◌then◌else◌,
}
use mini_coder.Domain.{FeatureExecutionState, feature_execution_state_value, UserRole}
use mini_coder.Auth.Guards.{ActorKind, ActorIdentity}
use mini_coder.Store.Rows.{FeatureRun, CommandResult}
use mini_coder.Store.{Db, Env, Error, plain_error, Result, ok, err}
use mini_coder.Command.Helpers.{Envelope, LockContext, next_version}
use mini_coder.Command.Text.{to_text, ◌&◌}
use mini_coder.Handlers.Steps.{FeaturePayload, load_run}
use mini_coder.Handlers.Github.{OpenedPayload, CheckPayload}
use mini_coder.Handlers.Reviews.{ReviewPayload, fix_attempt_threshold}
use mini_coder.Handlers.Human.{EscalatePayload}
use mini_coder.Handlers.Merging.{Gated}
use mini_coder.Handlers.Commands.{FeatureCommand}
use mini_coder.Executor.{execute_command}
use mini_coder.Reconcile.Mirror.{Observed, sync_pull_request_observed_state}

pub data ReconciliationAction : Type 0 where
  nothing pr_opened ci_running ci_passed ci_failed changes_requested : ReconciliationAction
  changes_requested_after_ci_fail fixing_started escalated lock_required : ReconciliationAction

-- `ReconcileGithubStateOptions`, less the database.
pub record ReconcileOptions : Type 0 where
  pub feature_run_id : String
  pub project_id : String
  pub observed : Observed
  pub lock_context : Option LockContext

abbrev pub is_state : FeatureExecutionState → String → Bool
is_state s current = current == feature_execution_state_value s

-- `requiresExecutionLock`.
unfoldable pub requires_execution_lock : FeatureExecutionState → Bool
requires_execution_lock FeatureExecutionState.code_pushed = true
requires_execution_lock FeatureExecutionState.pr_opened = true
requires_execution_lock FeatureExecutionState.changes_requested = true
requires_execution_lock _ = false

-- What one step does: nothing, a report that the lock is missing, or a command with its key.
pub data Decision : Type 0 where
  idle : Decision
  need_lock : Decision
  send : ReconciliationAction → String → Option LockContext → FeatureCommand → Decision

-- `terminalStates.includes(currentState)`.
abbrev pub is_settled : String → Bool
is_settled current =
    is_state FeatureExecutionState.merged current
    || (is_state FeatureExecutionState.human_required current
        || (is_state FeatureExecutionState.blocked current
            || is_state FeatureExecutionState.failed current))

abbrev pub is_absent_time : Option ℕ → Bool
is_absent_time none = true
is_absent_time (some t) = false

abbrev pub irreconcilably_closed : Observed → String → Bool
irreconcilably_closed o current =
    o.state == "closed" && (is_absent_time o.merged_at && not (is_settled current))

-- `headSha ?? 'nosha'`.
abbrev sha_text : Option String → String
sha_text none = "nosha"
sha_text (some sha) = sha

-- `<prefix>:${featureRunId}:${observed.prNumber}:${observed.headSha ?? 'nosha'}`.
abbrev observed_key : String → ReconcileOptions → String
observed_key prefix o =
    prefix
    & (":"
        & (o.feature_run_id
            & (":" & (to_text o.observed.pr_number & (":" & sha_text o.observed.head_sha)))))

abbrev versioned_key : String → ReconcileOptions → ℕ → String
versioned_key prefix o version = prefix & (":" & (o.feature_run_id & (":" & to_text version)))

abbrev pub payload_of : ReconcileOptions → ℕ → FeaturePayload
payload_of o version = record {
  feature_run_id = o.feature_run_id;
  project_id = o.project_id;
  expected_version = version;
}

-- `escalate`.
abbrev pub escalate : ReconcileOptions → ℕ → String → String → Decision
escalate o version reason key = send escalated (key & (":" & o.feature_run_id)) none (
    FeatureCommand.do_escalate_to_human (record {
      run = payload_of o version;
      reason = reason;
      reviewer_run_id = none;
      review_cycle = none;
      findings = [];
    }))

-- The commands that need the execution lane are not sent without a lock.
abbrev pub with_lock : Option LockContext → (LockContext → Decision) → Decision
with_lock none f = need_lock
with_lock (some context) f = f context

abbrev check_payload : ReconcileOptions → ℕ → CheckPayload
check_payload o version = record {
  run = payload_of o version;
  check_run_id = "pr-" & to_text o.observed.pr_number;
  reason = none;
}

abbrev send_opened : ReconcileOptions → ℕ → LockContext → Decision
send_opened o version context = send pr_opened (observed_key "record-pr-opened" o) (some context) (
    FeatureCommand.do_record_pr_opened (record {
      run = payload_of o version;
      pr_number = o.observed.pr_number;
      branch_name = o.observed.branch_name;
      base_branch = o.observed.base_branch;
      head_sha = o.observed.head_sha;
    }))

abbrev send_running : ReconcileOptions → ℕ → LockContext → Decision
send_running o version context =
    send ci_running (observed_key "record-ci-running" o) (some context)
      (FeatureCommand.do_record_ci_running (check_payload o version))

abbrev send_fixing : ReconcileOptions → ℕ → LockContext → Decision
send_fixing o version context =
    send fixing_started (versioned_key "start-fixing" o version) (some context)
      (FeatureCommand.do_start_fixing (payload_of o version))

abbrev send_changes : ReconcileOptions → ℕ → Decision
send_changes o version = send changes_requested (observed_key "changes-requested" o) none (
    FeatureCommand.do_record_changes_requested (record {
      run = payload_of o version;
      review_id = "pr-" & (to_text o.observed.pr_number & "-review");
      reviewer = none;
      reviewer_run_id = none;
      review_cycle = none;
      findings = [];
    }))

-- `fixAttemptRows[0]?.fix_attempt_count ?? 0`.
abbrev attempts_in : Option FeatureRun → ℕ
attempts_in none = 0
attempts_in (some run) = run.fix_attempt_count

abbrev pub fix_attempts : String → Db → ℕ
fix_attempts run_id db = attempts_in (find (λ run. run.id == run_id) db.feature_runs)

abbrev ci_done : String → Bool
ci_done ci_status = ci_status == "running" || (ci_status == "passed" || ci_status == "failed")

-- The branches of `runStep`, in order.
unfoldable pub decide : ReconcileOptions → String → ℕ → ℕ → Decision
decide o current version attempts =
    let seen = o.observed in
    let exhausted = leb fix_attempt_threshold attempts in
    if irreconcilably_closed seen current
    then escalate o version
        ("The linked repository's PR #"
          & (to_text seen.pr_number
              & (" closed without merging while feature run was in state '" & (current & "'"))))
        "escalate-human-github"
    else if is_state FeatureExecutionState.code_pushed current
    then with_lock o.lock_context (send_opened o version)
    else if is_state FeatureExecutionState.pr_opened current && ci_done seen.ci_status
    then with_lock o.lock_context (send_running o version)
    else if is_state FeatureExecutionState.ci_running current && seen.ci_status == "passed"
    then send ci_passed (observed_key "record-ci-passed" o) none
        (FeatureCommand.do_record_ci_passed (check_payload o version))
    else if is_state FeatureExecutionState.ci_running current && seen.ci_status == "failed"
    then send ci_failed (observed_key "record-ci-failed" o) none
        (FeatureCommand.do_record_ci_failed (check_payload o version))
    else if is_state FeatureExecutionState.ci_failed current
    then (if exhausted
        then escalate o version
            ("Fix-attempt threshold ("
              & (to_text fix_attempt_threshold & ") reached after repeated CI failures"))
            "escalate-human-ci-limit"
        else send changes_requested_after_ci_fail
            (versioned_key "changes-requested-after-ci" o version) none
            (FeatureCommand.do_request_changes_after_ci_fail (payload_of o version)))
    else if is_state FeatureExecutionState.changes_requested current
    then with_lock o.lock_context (send_fixing o version)
    else if is_state FeatureExecutionState.under_review current
        && seen.review_state == "changes_requested"
    then (if exhausted
        then escalate o version
            ("Fix-attempt threshold ("
              & (to_text fix_attempt_threshold & ") reached after repeated review cycles"))
            "escalate-human-review"
        else send_changes o version)
    else idle
