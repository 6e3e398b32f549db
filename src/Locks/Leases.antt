-- ===== src/Locks/Leases.antt =====
-- Fences over time: no operation on the locks lowers one, and a lease that was overtaken or given
-- back is refused.
use mini_coder.Common.{
  ℕ, ◌+◌, ◌≤◌, ◌<◌, ◌≡◌, refl, subst, inl, inr, Bool, true, false, Option, none, some, List, [],
  ◌∷◌, String, arith, find, any, update_rows, count_rows, ◌==◌, String_eq, ℕ_eq, Bool-cases, eq_iff,
}
use mini_coder.Store.Rows.{WorkflowLock}
use mini_coder.Store.{Db, Env, ok, err, stale_fence_error}
use mini_coder.Locks.{
  LockOptions, AcquiredLock, acquire, is_resource, claimable, take, new_lock, claim_lock, lock_of,
  release, heartbeat, assert_fence, holds,
}
use mini_coder.Locks.Fencing.{Acquired, acquire-Acquired, fence_at}

-- An update that keeps a row's resource and does not lower its fence.
abbrev Raises : (WorkflowLock → WorkflowLock) → Type 0
Raises f =
    (l : WorkflowLock)
    → ((f l).project_id ≡ l.project_id)
      × ((f l).resource_key ≡ l.resource_key)
      × (l.fence ≤ (f l).fence)

update_fence :
    (project_id resource_key : String) (p : WorkflowLock → Bool) (f : WorkflowLock → WorkflowLock)
    (locks : List WorkflowLock)
    → Raises f
    → fence_at project_id resource_key locks
      ≤ fence_at project_id resource_key (update_rows p f locks)
unfolding fence_at
update_fence project_id resource_key p f [] r = omega arith
update_fence project_id resource_key p f (l ∷ ls) r =
    ground (arith, r l, update_fence project_id resource_key p f ls r)

-- What can happen to the locks.
pub data LockOp : Type 0 where
  op_claim : Env → String → String → String → LockOptions → LockOp
  op_release : Env → AcquiredLock → LockOp
  op_heartbeat : Env → AcquiredLock → ℕ → LockOp

abbrev or_same : List WorkflowLock → Option (List WorkflowLock) → List WorkflowLock
or_same locks none = locks
or_same locks (some locks') = locks'

unfoldable pub exec_lock : LockOp → List WorkflowLock → List WorkflowLock
exec_lock (op_claim env id project_id resource_key options) locks =
    or_same locks (claim_lock env id project_id resource_key options locks)
exec_lock (op_release env lock) locks = release env lock locks
exec_lock (op_heartbeat env lock ttl_ms) locks = heartbeat env lock ttl_ms locks

unfoldable pub exec_locks : List LockOp → List WorkflowLock → List WorkflowLock
exec_locks [] locks = locks
exec_locks (op ∷ ops) locks = exec_locks ops (exec_lock op locks)

unlocked :
    (project_id resource_key : String) (locks : List WorkflowLock)
    → any (is_resource project_id resource_key) locks ≡ false
    → fence_at project_id resource_key locks ≡ 0
unfolding fence_at
unlocked project_id resource_key [] h = refl
unlocked project_id resource_key (l ∷ ls) h = ground (arith, h, unlocked project_id resource_key ls)

fresh_fence :
    (project_id resource_key : String) (row : WorkflowLock) (locks : List WorkflowLock)
    → any (is_resource row.project_id row.resource_key) locks ≡ false
    → fence_at project_id resource_key locks ≤ fence_at project_id resource_key (row ∷ locks)
unfolding fence_at
fresh_fence project_id resource_key row locks h =
    elim (Bool-cases (is_resource project_id resource_key row)) [
      | inr miss ↦ rw miss (omega arith)
      | inl hit ↦
          let project : row.project_id ≡ project_id =
            (eq_iff row.project_id project_id).0 (ground (arith, hit)) in
          let resource : row.resource_key ≡ resource_key =
            (eq_iff row.resource_key resource_key).0 (ground (arith, hit)) in
          let none_there = unlocked project_id resource_key locks (
            subst (λ k. any (is_resource project_id k) locks ≡ false) resource
              (subst (λ q. any (is_resource q row.resource_key) locks ≡ false) project h)) in
          omega (arith, none_there)
    ]

claim_fence :
    (env : Env) (id p k project_id resource_key : String) (options : LockOptions)
    (locks : List WorkflowLock)
    → fence_at project_id resource_key locks
      ≤ fence_at project_id resource_key (or_same locks (claim_lock env id p k options locks))
unfolding claim_lock
claim_fence env id p k project_id resource_key options locks =
    elim (Bool-cases (count_rows (claimable env.now p k options.holder_id) locks == 0)) [
      | inr some_claimed ↦ rw some_claimed (
          update_fence project_id resource_key _ (take env options) locks
            (λ l. (refl, refl, omega arith)))
      | inl none_claimed ↦ elim (Bool-cases (any (is_resource p k) locks)) [
        | inl other ↦ rw (none_claimed, other) (omega arith)
        | inr fresh ↦
            rw (none_claimed, fresh)
              (fresh_fence project_id resource_key (new_lock env id p k options) locks fresh)
      ]
    ]

exec_lock_fence :
    (op : LockOp) (project_id resource_key : String) (locks : List WorkflowLock)
    → fence_at project_id resource_key locks ≤ fence_at project_id resource_key (exec_lock op locks)
unfolding exec_lock release heartbeat
exec_lock_fence (LockOp.op_claim env id p k options) project_id resource_key locks =
    claim_fence env id p k project_id resource_key options locks
exec_lock_fence (LockOp.op_release env lock) project_id resource_key locks =
    update_fence project_id resource_key (holds lock) _ locks (λ l. (refl, refl, omega arith))
exec_lock_fence (LockOp.op_heartbeat env lock ttl_ms) project_id resource_key locks =
    update_fence project_id resource_key (holds lock) _ locks (λ l. (refl, refl, omega arith))

-- Whatever sequence of acquisitions, releases and heartbeats, of whatever holders and at whatever
-- times, no resource's fence is lower after it.
pub exec_locks_fence :
    (ops : List LockOp) (project_id resource_key : String) (locks : List WorkflowLock)
    → fence_at project_id resource_key locks
      ≤ fence_at project_id resource_key (exec_locks ops locks)
unfolding exec_locks
exec_locks_fence [] project_id resource_key locks = omega arith
exec_locks_fence (op ∷ ops) project_id resource_key locks = omega (
  arith,
  exec_lock_fence op project_id resource_key locks,
  exec_locks_fence ops project_id resource_key (exec_lock op locks),
)

older_fence-assert_fence :
    (env : Env) (project_id resource_key : String) (lock : AcquiredLock) (row : WorkflowLock)
    (db : Db)
    → find (λ l. l.id == lock.lock_id) db.workflow_locks ≡ some row
    → lock_of project_id resource_key db.workflow_locks ≡ some row
    → lock.fence < fence_at project_id resource_key db.workflow_locks
    → assert_fence env lock db ≡ err (stale_fence_error lock.lock_id lock.fence (some row.fence))
unfolding assert_fence fence_at
older_fence-assert_fence env project_id resource_key lock row db found same less =
    ground (arith, found, same, less)

abbrev pub after_ops : List LockOp → Db → Db
after_ops ops db = record db { workflow_locks = exec_locks ops db.workflow_locks }

-- The lease of an `acquire` whose resource is acquired again, by whom and when ever, is refused by
-- `assertFence` from then on: whatever lock operations come between the two and after the second,
-- and whatever the time. The table has the resource at most once when it is acquired, and in the end
-- the row with the lease's id is the resource's.
pub assert_fence-overtaken :
    (env again env' : Env) (project_id resource_key : String) (options others : LockOptions)
    (lock lease : AcquiredLock) (between after : List LockOp) (row : WorkflowLock)
    (db first second : Db)
    → count_rows (is_resource project_id resource_key) db.workflow_locks ≤ 1
    → acquire env project_id resource_key options db ≡ ok (lock, first)
    → count_rows (is_resource project_id resource_key) (after_ops between first).workflow_locks ≤ 1
    → acquire again project_id resource_key others (after_ops between first) ≡ ok (lease, second)
    → find (λ l. l.id == lock.lock_id) (after_ops after second).workflow_locks ≡ some row
    → lock_of project_id resource_key (after_ops after second).workflow_locks ≡ some row
    → assert_fence env' lock (after_ops after second)
      ≡ err (stale_fence_error lock.lock_id lock.fence (some row.fence))
assert_fence-overtaken env again env' project_id resource_key options others lock lease between
      after row db first second once given once_more given_again found own =
    let held =
      subst (Acquired env project_id resource_key options db.workflow_locks) given
        (acquire-Acquired env project_id resource_key options db once) in
    let taken =
      subst (Acquired again project_id resource_key others (after_ops between first).workflow_locks)
        given_again
        (acquire-Acquired again project_id resource_key others (after_ops between first)
          once_more) in
    let (h0, h1, h2) = held in
    let (t0, t1, t2) = taken in
    older_fence-assert_fence env' project_id resource_key lock row (after_ops after second) found
      own
      (omega (
        arith,
        h1,
        t0,
        t1,
        exec_locks_fence between project_id resource_key first.workflow_locks,
        exec_locks_fence after project_id resource_key second.workflow_locks,
      ))

abbrev given_back : Env → WorkflowLock → WorkflowLock
given_back env l = record l {
  expires_at = some env.now;
  fence = l.fence + 1;
  version = l.version + 1;
  updated_at = env.now;
}

find_released :
    (env : Env) (lock : AcquiredLock) (row : WorkflowLock) (locks : List WorkflowLock)
    → find (λ l. l.id == lock.lock_id) locks ≡ some row
    → holds lock row ≡ true
    → find (λ l. l.id == lock.lock_id) (release env lock locks) ≡ some (given_back env row)
unfolding release
find_released env lock row [] found held = cc
find_released env lock row (l ∷ ls) found held = elim (Bool-cases (l.id == lock.lock_id)) [
  | inl hit ↦ ground (arith, found, held, hit)
  | inr miss ↦ ground (arith, found, miss, find_released env lock row ls)
]

-- A lease that its holder gives back is refused from then on: where its row is found by its id and
-- carries its holder and fence, `assertFence` after `release` throws.
pub release-assert_fence :
    (env env' : Env) (lock : AcquiredLock) (row : WorkflowLock) (db : Db)
    → find (λ l. l.id == lock.lock_id) db.workflow_locks ≡ some row
    → holds lock row ≡ true
    → assert_fence env' lock (record db { workflow_locks = release env lock db.workflow_locks })
      ≡ err (stale_fence_error lock.lock_id lock.fence (some (row.fence + 1)))
unfolding assert_fence
release-assert_fence env env' lock row db found held =
    ground (arith, held, find_released env lock row db.workflow_locks found held)
