-- ===== src/Locks.antt =====
-- packages/workflow/src/locks/manager.ts and outbox/backoff.ts: leases with fencing tokens, and the
-- delays between retries.
pub mod Fencing
pub mod Leases
pub mod Lane
use mini_coder.Common.{
  ℕ, zero, suc, ◌+◌, ◌*◌, ◌-◌, ◌^◌, Bool, true, false, not, ◌&&◌, ◌||◌, Option, none, some, List,
  [], ◌∷◌, String, ◌==◌, ℕ_eq, String_eq, leb, ltb, find, any, update_rows, count_rows,
  if◌then◌else◌, min,
}
use mini_coder.Store
use mini_coder.Store.Rows.{WorkflowLock}
use mini_coder.Command.Text.{◌&◌}
use mini_coder.Store.{
  plain_error, Db, Env, Error, lock_conflict_error, stale_fence_error, M, pure, throw, ◌>>=◌, ◌>>◌,
  query, execute,
}
use mini_coder.Command.Helpers.{generate_id, reject_if}

pub record LockOptions : Type 0 where
  pub holder_id : String
  pub ttl_ms : ℕ

pub record AcquiredLock : Type 0 where
  pub lock_id : String
  pub resource_key : String
  pub fence : ℕ
  pub expires_at : Option ℕ
  pub holder_id : String

abbrev pub is_resource : String → String → WorkflowLock → Bool
is_resource project_id resource_key l = l.project_id == project_id && l.resource_key == resource_key

-- `expires_at <= ?`, which is not true of NULL.
abbrev pub has_run_out : ℕ → WorkflowLock → Bool
has_run_out now l = elim l.expires_at [ none ↦ false | some t ↦ leb t now ]

-- The rows that the UPDATE of `acquire` claims.
abbrev pub claimable : ℕ → String → String → String → WorkflowLock → Bool
claimable now project_id resource_key holder_id l =
    is_resource project_id resource_key l && (has_run_out now l || l.holder_id == holder_id)

abbrev pub take : Env → LockOptions → WorkflowLock → WorkflowLock
take env options l = record l {
  holder_id = options.holder_id;
  fence = l.fence + 1;
  expires_at = some (env.now + options.ttl_ms);
  version = l.version + 1;
  updated_at = env.now;
}

abbrev pub new_lock : Env → String → String → String → LockOptions → WorkflowLock
new_lock env id project_id resource_key options = record {
  id = id;
  project_id = project_id;
  resource_key = resource_key;
  holder_id = options.holder_id;
  fence = 1;
  expires_at = some (env.now + options.ttl_ms);
  version = 1;
  updated_at = env.now;
}

-- The UPDATE, or the INSERT where it claims no row; `none` where the row is another's.
unfoldable pub claim_lock :
    Env → String → String → String → LockOptions → List WorkflowLock → Option (List WorkflowLock)
claim_lock env id project_id resource_key options locks =
    if count_rows (claimable env.now project_id resource_key options.holder_id) locks == 0
    then (if any (is_resource project_id resource_key) locks
        then none
        else some (new_lock env id project_id resource_key options ∷ locks))
    else some (
        update_rows (claimable env.now project_id resource_key options.holder_id) (take env options)
          locks)

abbrev pub lock_of : String → String → List WorkflowLock → Option WorkflowLock
lock_of project_id resource_key locks = find (is_resource project_id resource_key) locks

abbrev pub store_locks : Error → Option (List WorkflowLock) → M (Unit {0})
store_locks conflict none = throw conflict
store_locks conflict (some locks) = execute λ db. record db { workflow_locks = locks }

-- The row that is read back; `acquire` throws a plain Error where it is missing.
abbrev pub acquired : String → String → LockOptions → Option WorkflowLock → M AcquiredLock
acquired project_id resource_key options none =
    throw
      (plain_error ("Lock row missing after acquire for " & (project_id & ("/" & resource_key))))
acquired project_id resource_key options (some l) = pure (lease l)
  where
    lease : WorkflowLock → AcquiredLock
    lease l = record {
      lock_id = l.id;
      resource_key = resource_key;
      fence = l.fence;
      expires_at = l.expires_at;
      holder_id = options.holder_id;
    }

-- `WorkflowLockManager.acquire`.
unfoldable pub acquire : Env → String → String → LockOptions → M AcquiredLock
acquire env project_id resource_key options = do
  id ← generate_id env
  claimed ← query λ db. claim_lock env id project_id resource_key options db.workflow_locks
  store_locks (lock_conflict_error resource_key options.holder_id) claimed
  row ← query λ db. lock_of project_id resource_key db.workflow_locks
  acquired project_id resource_key options row

abbrev pub holds : AcquiredLock → WorkflowLock → Bool
holds lock l = l.id == lock.lock_id && (l.holder_id == lock.holder_id && l.fence == lock.fence)

-- `release`: the row is expired, and its fence goes on counting.
unfoldable pub release : Env → AcquiredLock → List WorkflowLock → List WorkflowLock
release env lock = update_rows (holds lock) λ l. record l {
  expires_at = some env.now;
  fence = l.fence + 1;
  version = l.version + 1;
  updated_at = env.now;
}

-- `heartbeat`.
unfoldable pub heartbeat : Env → AcquiredLock → ℕ → List WorkflowLock → List WorkflowLock
heartbeat env lock ttl_ms = update_rows (holds lock) λ l. record l {
  expires_at = some (env.now + ttl_ms);
  version = l.version + 1;
  updated_at = env.now;
}

abbrev pub is_past : ℕ → WorkflowLock → Bool
is_past now l = elim l.expires_at [ none ↦ false | some t ↦ ltb t now ]

abbrev pub check_held : ℕ → AcquiredLock → Option WorkflowLock → M (Unit {0})
check_held now lock none = throw (stale_fence_error lock.lock_id lock.fence none)
check_held now lock (some l) =
    reject_if (is_past now l || not (l.fence == lock.fence))
      (stale_fence_error lock.lock_id lock.fence (some l.fence))

-- `assertFence`.
unfoldable pub assert_fence : Env → AcquiredLock → M (Unit {0})
assert_fence env lock = do
  row ← query λ db. find (λ l. l.id == lock.lock_id) db.workflow_locks
  check_held env.now lock row

-- `deterministicBackoff`, for whole numbers.
unfoldable pub deterministic_backoff : ℕ → ℕ → ℕ → ℕ
deterministic_backoff zero base_ms max_ms = 0
deterministic_backoff (suc attempt) base_ms max_ms = min (base_ms * 2 ^ attempt) max_ms
