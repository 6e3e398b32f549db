-- ===== src/Tests/Leasing.antt =====
-- The lane of a project, and the sweep of the idempotency slots.
use mini_coder.Common.{◌≡◌, refl, none, some, [], ◌∷◌, arith}
use mini_coder.Store.{Db, ok}
use mini_coder.Command.Helpers.{claim_idempotency_key}
use mini_coder.Command.Fence.{require_lane, execution_lane_key}
use mini_coder.Executor.{check_idempotency_key}
use mini_coder.Executor.Sweeping.{answer_of, sweep, sweep-unseen}
use mini_coder.Locks.{AcquiredLock, acquire, claim_lock}
use mini_coder.Locks.Lane.{acquire_for_project, acquire_for_project-require_lane, context_of}
use mini_coder.Tests.Data.{escalated, lane_lock, sample_env, sent, worker}

-- The lane's lock, which another holder had and which has run out.
abbrev run_out : Db
run_out = record escalated {
  workflow_locks = (record lane_lock { holder_id = "other"; expires_at = some 90 }) ∷ [];
}

abbrev taken : Db
taken = record run_out {
  workflow_locks =
      (record lane_lock { fence = 5; expires_at = some 600; version = 5; updated_at = 100 }) ∷ [];
  ids_drawn = 1;
}

abbrev lease : AcquiredLock
lease = record {
  lock_id = "lock";
  resource_key = "execution-lane:project";
  fence = 5;
  expires_at = some 600;
  holder_id = "worker";
}

lane_taken : acquire_for_project sample_env "project" "worker" 500 run_out ≡ ok (lease, taken)
unfolding acquire_for_project acquire claim_lock execution_lane_key
lane_taken = refl

acquire_for_project-require_lane_example :
    require_lane
      (record sample_env { now = 600 })
      (sent "code-1" worker (some (context_of lease)))
      "project"
      taken
    ≡ ok (tt, taken)
unfolding execution_lane_key
acquire_for_project-require_lane_example =
    acquire_for_project-require_lane sample_env (record sample_env { now = 600 })
      (sent "code-1" worker (some (context_of lease))) "project" "worker" 500 lease run_out taken
      (omega arith) lane_taken (tt, tt) (omega arith) refl

-- One slot that has expired, and one that has not.
abbrev slots : Db
slots = record escalated {
  idempotency_keys =
      (record {
        id = "old";
        key = "key";
        scope = "skip-feature";
        result = none;
        expires_at = 50;
        version = 1;
        updated_at = 0;
      })
      ∷ ((record {
        id = "new";
        key = "other-key";
        scope = "skip-feature";
        result = none;
        expires_at = 500;
        version = 1;
        updated_at = 0;
      })
          ∷ []);
}

sweep_test : (sweep 80 slots).0 ≡ 1
unfolding sweep
sweep_test = refl

sweep-unseen_example :
    (check_idempotency_key 100 "key" "skip-feature" (sweep 80 slots).1.idempotency_keys
      ≡ check_idempotency_key 100 "key" "skip-feature" slots.idempotency_keys)
    × (answer_of (claim_idempotency_key sample_env "key" "skip-feature" 1000 (sweep 80 slots).1)
        ≡ answer_of (claim_idempotency_key sample_env "key" "skip-feature" 1000 slots))
sweep-unseen_example = sweep-unseen sample_env 80 1000 "key" "skip-feature" slots (omega arith)
