-- ===== src/Tests/Commands.antt =====
-- The theorems about the commands, on the small project.
use mini_coder.Common.{arith, ◌<◌, ◌≡◌, refl, ◌⊎◌, inl, true, none, some, List, [], ◌∷◌, String}
use mini_coder.Domain.{FeatureExecutionState, AutomationState, feature_execution_state_value}
use mini_coder.Machine.Defs.{assert_valid, lookup}
use mini_coder.Auth.Guards.{is_authorized, meets_role}
use mini_coder.Store.Rows.{CommandResult, FeatureRun}
use mini_coder.Store.{Db, Env, ok}
use mini_coder.Command.Helpers.{with_claim, claim_idempotency_key}
use mini_coder.Command.Fence.{require_lane, assert_lock_fence, execution_lane_key}
use mini_coder.Command.Text.{to_text}
use mini_coder.Handlers.Selection.{select_feature, start_coding}
use mini_coder.Handlers.Human.{NotedPayload, retry_feature}
use mini_coder.Handlers.Skipping.{
  skip_feature, finish_skip, cascade, block_dependent, block_attempts, dependents,
}
use mini_coder.Handlers.Commands.{
  FeatureCommand, Issued, handle, handler_meta, exec_command, exec_all,
}
use mini_coder.Handlers.Evolution.{Pointwise}
use mini_coder.Handlers.Histories.{Evolved, StaysTerminal, exec_all-Evolved, exec_all-terminal}
use mini_coder.Handlers.Guards.{
  SelectGuarded, select_feature-SelectGuarded, LaneCommand, holds_lane, lane_guarded,
}
use mini_coder.Handlers.Moves.Skipping.{SkipOutcome, skip_feature-SkipOutcome}
use mini_coder.MergeGate.Evidence.{Recorded, gated-Recorded}
use mini_coder.Executor.{execute_command, check_idempotency_key}
use mini_coder.Executor.Idempotency.{
  live_until, execute_command-live_until, SameSlot, execute_command-replay,
}
use mini_coder.Tests.Data.{
  sample_env, sent, approver, worker, lane_context, run_of, database, escalated, payload_a,
  Distinct-runs,
}

abbrev skip_a : NotedPayload
skip_a = record { run = payload_a; notes = "no longer wanted" }

abbrev skip_issued : Issued
skip_issued = record {
  env = sample_env;
  envelope = sent "skip-1" approver none;
  command = FeatureCommand.do_skip_feature skip_a;
}

abbrev states_of : List FeatureRun → List String
states_of [] = []
states_of (r ∷ rs) = feature_execution_state_value r.current_execution_state ∷ states_of rs

-- The skip takes feature A out, and blocks feature B, which waits for it.
skip_test :
    states_of
      (exec_command sample_env
        (sent "skip-1" approver none)
        (FeatureCommand.do_skip_feature skip_a)
        escalated).feature_runs
    ≡ "skipped" ∷ ("blocked" ∷ [])
unfolding handle skip_feature finish_skip cascade block_dependent block_attempts dependents
    with_claim claim_idempotency_key assert_valid lookup feature_execution_state_value
skip_test = refl

exec_all-Evolved_example : Evolved escalated (exec_all (skip_issued ∷ []) escalated)
exec_all-Evolved_example =
    exec_all-Evolved (skip_issued ∷ []) escalated
      (Distinct-runs FeatureExecutionState.human_required AutomationState.running (some "run-a"))

abbrev finished : Db
finished = database FeatureExecutionState.merged AutomationState.running none

exec_all-terminal_example :
    Pointwise StaysTerminal finished.feature_runs
      (exec_all (skip_issued ∷ (skip_issued ∷ [])) finished).feature_runs
exec_all-terminal_example =
    exec_all-terminal (skip_issued ∷ (skip_issued ∷ [])) finished
      (Distinct-runs FeatureExecutionState.merged AutomationState.running none)

skip_feature-SkipOutcome_example :
    SkipOutcome sample_env
      (sent "skip-1" approver none)
      payload_a
      escalated
      (skip_feature sample_env (sent "skip-1" approver none) skip_a escalated)
skip_feature-SkipOutcome_example =
    skip_feature-SkipOutcome sample_env (sent "skip-1" approver none) skip_a escalated
      (Distinct-runs FeatureExecutionState.human_required AutomationState.running (some "run-a"))

-- A retry of feature A: its result, and the database that it leaves.
abbrev retry_a : FeatureCommand
retry_a = FeatureCommand.do_retry_feature skip_a

abbrev retry_result : CommandResult
retry_result = record {
  command_id = "command";
  accepted = true;
  resulting_state = "selected";
  emitted_event_ids = "id-2" ∷ [];
}

abbrev after_retry : Db
after_retry = exec_command sample_env (sent "retry-1" approver none) retry_a escalated

retry_executed :
    execute_command sample_env (sent "retry-1" approver none) retry_a escalated
    ≡ (ok retry_result, after_retry)
unfolding execute_command check_idempotency_key is_authorized meets_role handler_meta handle
    retry_feature with_claim claim_idempotency_key assert_valid lookup feature_execution_state_value
    to_text
retry_executed = refl

-- The same key again, a little later.
abbrev later_env : Env
later_env = record sample_env { now = 200 }

retry-SameSlot :
    SameSlot (sent "retry-1" approver none) (sent "retry-1" approver none) retry_a retry_a
unfolding is_authorized meets_role handler_meta
retry-SameSlot = record { same_key = refl; same_scope = refl; may_send = refl }

retry_not_expired :
    later_env.now
    < live_until sample_env.now "retry-1" (handler_meta retry_a).scope after_retry.idempotency_keys
unfolding handler_meta handle retry_feature with_claim claim_idempotency_key assert_valid lookup
    feature_execution_state_value to_text
retry_not_expired = omega arith

execute_command-live_until_example :
    sample_env.now
    < live_until sample_env.now "retry-1" (handler_meta retry_a).scope after_retry.idempotency_keys
execute_command-live_until_example =
    execute_command-live_until sample_env (sent "retry-1" approver none) retry_a escalated
      after_retry retry_result
      (Distinct-runs FeatureExecutionState.human_required AutomationState.running (some "run-a"))
      retry_executed

execute_command-replay_example :
    execute_command later_env (sent "retry-1" approver none) retry_a after_retry
    ≡ (ok retry_result, after_retry)
execute_command-replay_example =
    execute_command-replay sample_env later_env (sent "retry-1" approver none)
      (sent "retry-1" approver none) retry_a retry_a escalated after_retry retry_result
      (Distinct-runs FeatureExecutionState.human_required AutomationState.running (some "run-a"))
      retry_executed retry-SameSlot (omega arith) retry_not_expired

abbrev waiting : Db
waiting = database FeatureExecutionState.approved_pending_execution AutomationState.running none

select_feature-SelectGuarded_example :
    SelectGuarded sample_env
      (sent "select-1" approver none)
      payload_a
      waiting
      (select_feature sample_env (sent "select-1" approver none) payload_a waiting)
select_feature-SelectGuarded_example =
    select_feature-SelectGuarded sample_env (sent "select-1" approver none) payload_a waiting

abbrev chosen : Db
chosen = database FeatureExecutionState.selected AutomationState.running (some "run-a")

-- With the lane's lock the run is coded.
coding_test :
    states_of
      (exec_command sample_env
        (sent "code-1" worker (some lane_context))
        (FeatureCommand.do_start_coding payload_a)
        chosen).feature_runs
    ≡ "coding" ∷ ("approved_pending_execution" ∷ [])
unfolding handle start_coding require_lane assert_lock_fence execution_lane_key with_claim
    claim_idempotency_key assert_valid lookup feature_execution_state_value
coding_test = refl

lane_guarded_example :
    ((exec_command sample_env
        (sent "code-1" worker (some lane_context))
        (FeatureCommand.do_start_coding payload_a)
        chosen).feature_runs
      ≡ chosen.feature_runs)
    ⊎ (holds_lane sample_env (sent "code-1" worker (some lane_context)) "project" chosen ≡ true)
lane_guarded_example =
    lane_guarded sample_env (sent "code-1" worker (some lane_context))
      (FeatureCommand.do_start_coding payload_a) payload_a chosen (LaneCommand.coding payload_a)

abbrev reviewed : Db
reviewed = database FeatureExecutionState.under_review AutomationState.running (some "run-a")

gated-Recorded_example :
    Recorded sample_env payload_a
      (run_of "run-a" "a" FeatureExecutionState.under_review 3)
      reviewed
      (handle sample_env
        (sent "approve-1" worker none)
        (FeatureCommand.do_record_approved_by_policy payload_a)
        reviewed)
gated-Recorded_example =
    gated-Recorded sample_env (sent "approve-1" worker none)
      (FeatureCommand.do_record_approved_by_policy payload_a) payload_a
      (run_of "run-a" "a" FeatureExecutionState.under_review 3) reviewed (inl refl) refl
