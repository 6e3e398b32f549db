-- ===== src/Tests/Parts.antt =====
-- The theorems about the other parts, on the small project.
use mini_coder.Common.{
  ℕ, String, count_rows, String_eq, ◌≤◌, ◌≡◌, ◌≢◌, ◌↔◌, refl, ◌⊎◌, true, false, none, some, List,
  [], ◌∷◌, arith,
}
use mini_coder.Domain.{
  FeatureExecutionState, feature_execution_state_eq, AutomationState, BudgetScope,
}
use mini_coder.Machine.Defs.{valid, transition_error, TransitionRow, assert_valid, is_valid, lookup}
use mini_coder.Machine.Feature.{feature_execution_matrix}
use mini_coder.Machine.Validator.{LastMatch, assert_valid_cases}
use mini_coder.Machine.Graph.{
  Reach, Avoid, start, Reach-start, Reach-merged, Avoid-approved_by_policy,
}
use mini_coder.Auth.Redaction.{str, obj, field, end}
use mini_coder.Store.Rows.{WorkflowLock}
use mini_coder.Store.{ok, Env, Db, stale_fence_error, err}
use mini_coder.Command.Helpers.{write_outbox_event}
use mini_coder.Command.Outbox.{StaysClean, write_outbox_event-StaysClean}
use mini_coder.Budget.{budget_status, evaluate_budget}
use mini_coder.Budget.Limits.{Evaluated, evaluate_budget-Evaluated}
use mini_coder.MergeGate.{gate_reasons, gate_pushes}
use mini_coder.Automation.{ProjectPayload, resume_automation}
use mini_coder.Automation.Pauses.{Moved}
use mini_coder.Automation.Overrides.{
  AutomationCommand, handle_automation, handle_automation-Moved, Resumed, resume_automation-Resumed,
}
use mini_coder.Locks.{
  LockOptions, AcquiredLock, acquire, claim_lock, heartbeat, is_resource, release, assert_fence,
  deterministic_backoff,
}
use mini_coder.Locks.Fencing.{Acquired, acquire-Acquired, fence_at}
use mini_coder.Locks.Leases.{
  LockOp, after_ops, exec_lock, exec_locks, exec_locks_fence, assert_fence-overtaken,
  release-assert_fence,
}
use mini_coder.Tests.Data.{
  sample_env, sent, approver, lane_lock, project_state, database, escalated,
}

assert_valid_cases_example :
    ((r : TransitionRow FeatureExecutionState) × (assert_valid feature_execution_matrix
          FeatureExecutionState.selected FeatureExecutionState.coding
        ≡ valid r)
      × LastMatch feature_execution_matrix FeatureExecutionState.selected
          FeatureExecutionState.coding r
      × (is_valid feature_execution_matrix FeatureExecutionState.selected
            FeatureExecutionState.coding
          ≡ true))
    ⊎ ((assert_valid feature_execution_matrix FeatureExecutionState.selected
            FeatureExecutionState.coding
          ≡ transition_error FeatureExecutionState.selected FeatureExecutionState.coding)
        × (is_valid feature_execution_matrix FeatureExecutionState.selected
              FeatureExecutionState.coding
            ≡ false))
assert_valid_cases_example =
    assert_valid_cases feature_execution_matrix FeatureExecutionState.selected
      FeatureExecutionState.coding

Reach-start_example : Reach start FeatureExecutionState.ci_failed ↔ (false ≡ false)
Reach-start_example = Reach-start FeatureExecutionState.ci_failed

Reach-merged_example : Reach FeatureExecutionState.blocked FeatureExecutionState.merged
Reach-merged_example = Reach-merged FeatureExecutionState.blocked (λ e. cc)

straight_on :
    Avoid FeatureExecutionState.approved_by_policy FeatureExecutionState.selected
      FeatureExecutionState.coding
unfolding is_valid lookup
straight_on = Avoid.step Avoid.stay refl (λ e. cc)

Avoid-approved_by_policy_example :
    (FeatureExecutionState.coding ≢ FeatureExecutionState.merged)
    × (FeatureExecutionState.coding ≢ FeatureExecutionState.merge_ready)
    × (FeatureExecutionState.coding ≢ FeatureExecutionState.merge_failed)
Avoid-approved_by_policy_example = Avoid-approved_by_policy refl straight_on

write_outbox_event-StaysClean_example : StaysClean (
    write_outbox_event sample_env "feature.merged"
      (obj (field "data" (obj (field "Api_Key" (str "abc") end)) end))
      escalated)
write_outbox_event-StaysClean_example =
    write_outbox_event-StaysClean sample_env "feature.merged"
      (obj (field "data" (obj (field "Api_Key" (str "abc") end)) end)) escalated tt

evaluate_budget-Evaluated_example :
    Evaluated sample_env "project"
      (some "a")
      BudgetScope.feature
      escalated
      (evaluate_budget sample_env "project" (some "a") BudgetScope.feature escalated)
evaluate_budget-Evaluated_example =
    evaluate_budget-Evaluated sample_env "project" (some "a") BudgetScope.feature escalated

-- The sample's gate is open.
gate_test : gate_reasons sample_env "run-a" "project" "a" escalated ≡ []
unfolding gate_reasons gate_pushes evaluate_budget budget_status
gate_test = refl

abbrev resume_payload : ProjectPayload
resume_payload = record { project_id = "project"; expected_version = 2 }

abbrev broke : Db
broke = database FeatureExecutionState.coding AutomationState.paused_budget_exceeded (some "run-a")

handle_automation-Moved_example :
    Moved sample_env
      (sent "resume-1" approver none)
      "resume-automation"
      resume_payload
      AutomationState.running
      broke
      (handle_automation sample_env
        (sent "resume-1" approver none)
        (AutomationCommand.do_resume resume_payload)
        broke)
handle_automation-Moved_example =
    handle_automation-Moved sample_env (sent "resume-1" approver none)
      (AutomationCommand.do_resume resume_payload) broke

resume_automation-Resumed_example :
    Resumed sample_env resume_payload
      (project_state AutomationState.paused_budget_exceeded (some "run-a"))
      broke
      (resume_automation sample_env (sent "resume-1" approver none) resume_payload broke)
resume_automation-Resumed_example =
    resume_automation-Resumed sample_env (sent "resume-1" approver none) resume_payload
      (project_state AutomationState.paused_budget_exceeded (some "run-a")) broke refl refl refl
      (λ e. cc)

abbrev options : LockOptions
options = record { holder_id = "worker"; ttl_ms = 60 }

acquire-Acquired_example :
    Acquired sample_env "project" "execution-lane:project" options escalated.workflow_locks
      (acquire sample_env "project" "execution-lane:project" options escalated)
acquire-Acquired_example =
    acquire-Acquired sample_env "project" "execution-lane:project" options escalated (omega arith)

abbrev held_lease : AcquiredLock
held_lease = record {
  lock_id = "lock";
  resource_key = "execution-lane:project";
  fence = 4;
  expires_at = some 200;
  holder_id = "worker";
}

abbrev lock_ops : List LockOp
lock_ops =
    LockOp.op_release sample_env held_lease ∷ (LockOp.op_heartbeat sample_env held_lease 5 ∷ [])

exec_locks_fence_example :
    fence_at "project" "execution-lane:project" (lane_lock ∷ [])
    ≤ fence_at "project" "execution-lane:project" (exec_locks lock_ops (lane_lock ∷ []))
exec_locks_fence_example =
    exec_locks_fence lock_ops "project" "execution-lane:project" (lane_lock ∷ [])

-- The worker takes the lane, and a rival takes it after it has run out, and renews it.
abbrev leased : String → ℕ → ℕ → AcquiredLock
leased holder fence expires = record {
  lock_id = "lock";
  resource_key = "execution-lane:project";
  fence = fence;
  expires_at = some expires;
  holder_id = holder;
}

abbrev lane_of : String → ℕ → ℕ → ℕ → ℕ → Db
lane_of holder fence expires at drawn = record escalated {
  ids_drawn = drawn;
  workflow_locks =
      record lane_lock {
        holder_id = holder;
        fence = fence;
        expires_at = some expires;
        version = fence;
        updated_at = at;
      }
      ∷ [];
}

abbrev rival_env : Env
rival_env = record sample_env { now = 300 }

abbrev rival : LockOptions
rival = record { holder_id = "rival"; ttl_ms = 60 }

first_lease_test :
    acquire sample_env "project" "execution-lane:project" options escalated
    ≡ ok (leased "worker" 5 160, lane_of "worker" 5 160 100 1)
unfolding acquire claim_lock
first_lease_test = refl

second_lease_test :
    acquire rival_env "project" "execution-lane:project" rival
      (after_ops [] (lane_of "worker" 5 160 100 1))
    ≡ ok (leased "rival" 6 360, lane_of "rival" 6 360 300 2)
unfolding acquire claim_lock exec_locks
second_lease_test = refl

abbrev renewals : List LockOp
renewals = LockOp.op_heartbeat rival_env (leased "rival" 6 360) 90 ∷ []

abbrev renewed : WorkflowLock
renewed = record lane_lock {
  holder_id = "rival";
  fence = 6;
  expires_at = some 390;
  version = 7;
  updated_at = 300;
}

renewed_test : (after_ops renewals (lane_of "rival" 6 360 300 2)).workflow_locks ≡ renewed ∷ []
unfolding exec_locks exec_lock heartbeat
renewed_test = refl

once_test :
    count_rows
      (is_resource "project" "execution-lane:project")
      (after_ops [] (lane_of "worker" 5 160 100 1)).workflow_locks
    ≤ 1
unfolding exec_locks
once_test = omega arith

assert_fence-overtaken_example :
    assert_fence sample_env
      (leased "worker" 5 160)
      (after_ops renewals (lane_of "rival" 6 360 300 2))
    ≡ err (stale_fence_error "lock" 5 (some 6))
assert_fence-overtaken_example =
    assert_fence-overtaken sample_env rival_env sample_env "project" "execution-lane:project"
      options rival (leased "worker" 5 160) (leased "rival" 6 360) [] renewals renewed escalated
      (lane_of "worker" 5 160 100 1) (lane_of "rival" 6 360 300 2) (omega arith) first_lease_test
      once_test second_lease_test (rw renewed_test refl) (rw renewed_test refl)

release-assert_fence_example :
    assert_fence sample_env held_lease
      (record escalated { workflow_locks = release sample_env held_lease (lane_lock ∷ []) })
    ≡ err (stale_fence_error "lock" 4 (some 5))
release-assert_fence_example =
    release-assert_fence sample_env sample_env held_lease lane_lock escalated refl refl

-- The delays double up to their bound.
backoff_test :
    (deterministic_backoff 0 1000 60000 ≡ 0)
    × (deterministic_backoff 3 1000 60000 ≡ 4000)
    × (deterministic_backoff 10 1000 60000 ≡ 60000)
unfolding deterministic_backoff
backoff_test = (refl, refl, refl)
