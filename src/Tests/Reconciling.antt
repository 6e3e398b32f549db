-- ===== src/Tests/Reconciling.antt =====
-- The reconciliation of the small project with its code host.
use mini_coder.Common.{ℕ, ◌≡◌, refl, ap, Bool, true, false, none, some, [], Option}
use mini_coder.Domain.{FeatureExecutionState, AutomationState, feature_execution_state_value}
use mini_coder.Store.{Db, Env}
use mini_coder.Command.Helpers.{LockContext}
use mini_coder.Handlers.Histories.{Evolved}
use mini_coder.Reconcile.{Decision, ReconcileOptions, decide}
use mini_coder.Reconcile.Stepping.{reconcile_github_state}
use mini_coder.Reconcile.Mirror.{Observed, sync_pull_request_observed_state, sync_twice}
use mini_coder.Reconcile.Decisions.{IsLegal, decide-IsLegal, has_edge, target_of}
use mini_coder.Machine.Defs.{is_valid, lookup}
use mini_coder.Reconcile.Passes.{reconcile_github_state-Evolved}
use mini_coder.Tests.Data.{sample_env, lane_context, database, Distinct-runs}

abbrev observed : Observed
observed = record {
  pr_number = 7;
  branch_name = "feature-a";
  base_branch = "main";
  head_sha = some "sha";
  state = "open";
  review_state = "pending";
  ci_status = "failed";
  mergeable = some true;
  blocking_labels = [];
  conversations_resolved = true;
  merged_at = none;
  merge_sha = none;
  closed_at = none;
}

abbrev closed : Observed
closed = record observed { state = "closed"; closed_at = some 90 }

abbrev seen : Observed → Option LockContext → ReconcileOptions
seen o context = record {
  feature_run_id = "run-a";
  project_id = "project";
  observed = o;
  lock_context = context;
}

abbrev clock : ℕ → Env
clock n = sample_env

abbrev pushed : Db
pushed = database FeatureExecutionState.code_pushed AutomationState.running (some "run-a")

reconcile_github_state-Evolved_example :
    Evolved pushed (reconcile_github_state clock (seen observed (some lane_context)) pushed).1
reconcile_github_state-Evolved_example =
    reconcile_github_state-Evolved clock (seen observed (some lane_context)) pushed
      (Distinct-runs FeatureExecutionState.code_pushed AutomationState.running (some "run-a"))

abbrev sent_to : Decision → Option FeatureExecutionState × Bool
sent_to (Decision.send action key lock command) =
    (target_of command, has_edge FeatureExecutionState.skipped (target_of command))
sent_to _ = (none, false)

abbrev not_skipped : FeatureExecutionState → Bool
not_skipped FeatureExecutionState.skipped = false
not_skipped _ = true

decide-IsLegal_example : IsLegal none observed FeatureExecutionState.code_pushed (
    decide
      (seen observed none)
      (feature_execution_state_value FeatureExecutionState.code_pushed)
      3
      0)
decide-IsLegal_example =
    decide-IsLegal (seen observed none) FeatureExecutionState.code_pushed 3 0
      (λ e. cc (ap not_skipped e))

-- A skipped run whose pull request is closed is escalated, for which the matrix has no edge.
skipped_test :
    sent_to
      (decide (seen closed none) (feature_execution_state_value FeatureExecutionState.skipped) 3 0)
    ≡ (some FeatureExecutionState.human_required, false)
unfolding decide feature_execution_state_value is_valid lookup
skipped_test = refl

sync_twice_example :
    sync_pull_request_observed_state
      (record sample_env { now = 200 })
      "run-a"
      observed
      (sync_pull_request_observed_state sample_env "run-a" observed pushed)
    ≡ sync_pull_request_observed_state sample_env "run-a" observed pushed
sync_twice_example = sync_twice sample_env (record sample_env { now = 200 }) "run-a" observed pushed
