-- ===== src/Command/Fence.antt =====
-- packages/core/src/commands/helpers.ts `assertLockFence`.
use Prim.Native.String.{◌++◌ as append}
use mini_coder.Common.{
  ℕ, Bool, false, ◌||◌, not, Option, none, some, String, ◌==◌, ℕ_eq, String_eq, ltb, find,
}
use mini_coder.Store.Rows.{WorkflowLock}
use mini_coder.Store.{Env, command_error, stale_fence_error, M, throw, ◌>>=◌, query}
use mini_coder.Command.Helpers.{LockContext, Envelope, reject_if}

-- `execution-lane:${projectId}`.
unfoldable pub execution_lane_key : String → String
execution_lane_key project_id = append "execution-lane:" project_id

abbrev has_expired : ℕ → Option ℕ → Bool
has_expired now none = false
has_expired now (some expires_at) = ltb expires_at now

abbrev differs : Option String → String → Bool
differs none actual = false
differs (some wanted) actual = not (actual == wanted)

-- Why a lock row does not carry the context's fence.
abbrev pub is_stale : ℕ → LockContext → WorkflowLock → Bool
is_stale now context lock =
    has_expired now lock.expires_at
    || not (lock.fence == context.fence)
    || not (lock.holder_id == context.holder_id)
    || differs context.project_id lock.project_id
    || differs context.resource_key lock.resource_key

abbrev pub check_fence : ℕ → LockContext → Option WorkflowLock → M (Unit {0})
check_fence now context none = throw (stale_fence_error context.lock_id context.fence none)
check_fence now context (some lock) =
    reject_if (is_stale now context lock)
      (stale_fence_error context.lock_id context.fence (some lock.fence))

unfoldable pub assert_lock_fence : Env → LockContext → M (Unit {0})
assert_lock_fence env context = do
  lock ← query λ db. find (λ l. l.id == context.lock_id) db.workflow_locks
  check_fence env.now context lock

-- The guard of the handlers that need the execution lane.
unfoldable pub require_lane : Env → Envelope → String → M (Unit {0})
unfolding assert_lock_fence execution_lane_key
require_lane env envelope project_id = elim envelope.lock_context [
  | none ↦ throw (command_error "missing-lock" 400)
  | some context ↦ assert_lock_fence env (record context {
    project_id = some project_id;
    resource_key = some (execution_lane_key project_id);
  })
]
