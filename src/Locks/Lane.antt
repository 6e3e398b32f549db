-- ===== src/Locks/Lane.antt =====
-- packages/workflow/src/lanes/execution-lane.ts: the lock under which a project's features run one
-- after the other. Its key is the one that the handlers' lane guard asks for.
use mini_coder.Common.{
  ℕ, ◌+◌, ◌≤◌, ◌≡◌, ◌≢◌, refl, sym, ap, subst, inl, inr, Bool, true, false, none, some, List, [],
  ◌∷◌, String, arith, All, any, ltb, find, find-some, map, count_rows, Bool-cases, ◌==◌, String_eq,
  ℕ_eq, eq_iff,
}
use mini_coder.Store.Rows.{WorkflowLock}
use mini_coder.Store.{Db, Env, Result, ok, err, M}
use mini_coder.Command.Helpers.{Envelope, LockContext}
use mini_coder.Command.Fence.{assert_lock_fence, execution_lane_key, is_stale, require_lane}
use mini_coder.Handlers.Evolution.{Distinct}
use mini_coder.Locks.{
  AcquiredLock, LockOptions, acquire, claim_lock, claimable, is_resource, lock_of, new_lock,
  release, take,
}
use mini_coder.Locks.Fencing.{acquire_err, acquire_ok, taken_row}

-- `ExecutionLane.acquireForProject`.
unfoldable pub acquire_for_project : Env → String → String → ℕ → M AcquiredLock
acquire_for_project env project_id holder_id ttl_ms =
    acquire env project_id (execution_lane_key project_id)
      (record { holder_id = holder_id; ttl_ms = ttl_ms })

-- `ExecutionLane.releaseForProject`.
unfoldable pub release_for_project : Env → AcquiredLock → List WorkflowLock → List WorkflowLock
release_for_project = release

-- The row of a lease that was just given.
pub record Leased (env : Env) (project_id resource_key : String) (options : LockOptions)
    (lease : AcquiredLock) (locks : List WorkflowLock) : Type 0 where
  pub row : WorkflowLock
  pub found : lock_of project_id resource_key locks ≡ some row
  pub same_id : lease.lock_id ≡ row.id
  pub same_fence : lease.fence ≡ row.fence
  pub holder : lease.holder_id ≡ row.holder_id
  pub until : row.expires_at ≡ some (env.now + options.ttl_ms)

abbrev LeasedIn : Env → String → String → LockOptions → Result (AcquiredLock × Db) → Type 0
LeasedIn env project_id resource_key options (err e) = Unit
LeasedIn env project_id resource_key options (ok (lease, db')) =
    Leased env project_id resource_key options lease db'.workflow_locks

acquire-Leased :
    (env : Env) (project_id resource_key : String) (options : LockOptions) (db : Db)
    → count_rows (is_resource project_id resource_key) db.workflow_locks ≤ 1
    → LeasedIn env project_id resource_key options (acquire env project_id resource_key options db)
unfolding claim_lock
acquire-Leased env project_id resource_key options db u =
    let id = env.new_id db.ids_drawn in
    let locks = db.workflow_locks in
    let mine = claimable env.now project_id resource_key options.holder_id in
    let P = LeasedIn env project_id resource_key options in
    elim (Bool-cases (count_rows mine locks == 0)) [
      | inr some_claimed ↦
          let (l, found, own, after) =
            taken_row env id project_id resource_key options locks some_claimed u in
          subst P
            (sym (
              acquire_ok env project_id resource_key options db _ (take env options l)
                (rw some_claimed refl) after))
            (record {
              row = take env options l;
              found = after;
              same_id = refl;
              same_fence = refl;
              holder = refl;
              until = refl;
            })
      | inl none_claimed ↦ elim (Bool-cases (any (is_resource project_id resource_key) locks)) [
        | inl other ↦
            subst P
              (sym (
                acquire_err env project_id resource_key options db (rw (none_claimed, other) refl)))
              tt
        | inr fresh ↦
            let row = new_lock env id project_id resource_key options in
            let found : lock_of project_id resource_key (row ∷ locks) ≡ some row = ground (
              arith,
              (eq_iff project_id project_id).1 refl,
              (eq_iff resource_key resource_key).1 refl,
            ) in
            subst P
              (sym (
                acquire_ok env project_id resource_key options db (row ∷ locks) row
                  (rw (none_claimed, fresh) refl) found))
              (record {
                row = row;
                found = found;
                same_id = refl;
                same_fence = refl;
                holder = refl;
                until = refl;
              })
      ]
    ]

abbrev pub lock_ids : List WorkflowLock → List String
lock_ids = map λ l. l.id

-- A row that is found by its resource is found by its id, where the ids are distinct.
module _ (q : WorkflowLock → Bool) (row : WorkflowLock) where
  found_differs :
      (k : String) (xs : List WorkflowLock)
      → find q xs ≡ some row
      → All (λ l. l ≢ k) (lock_ids xs)
      → row.id ≢ k
  found_differs k [] f h = cc
  found_differs k (x ∷ xs) f h = elim (Bool-cases (q x)) [
    | inl hit ↦ let same : x ≡ row = ground (arith, hit, f) in subst (λ r. r.id ≢ k) same h.0
    | inr miss ↦ found_differs k xs (ground (arith, miss, f)) h.1
  ]

  find-id :
      (xs : List WorkflowLock)
      → find q xs ≡ some row
      → Distinct (lock_ids xs)
      → find (λ l. l.id == row.id) xs ≡ some row
  find-id [] f d = cc
  find-id (x ∷ xs) f d = elim (Bool-cases (q x)) [
    | inl hit ↦
        let same : x ≡ row = ground (arith, hit, f) in
        let here : (x.id == row.id) ≡ true = (eq_iff x.id row.id).1 (ap (λ r. r.id) same) in
        rw here (ap some same)
    | inr miss ↦
        let rest : find q xs ≡ some row = ground (arith, miss, f) in
        let differs = found_differs x.id xs rest d.0 in
        elim (Bool-cases (x.id == row.id)) [
          | inl here ↦ absurd (differs (sym ((eq_iff x.id row.id).0 here)))
          | inr other ↦ rw other (find-id xs rest d.1)
        ]
  ]

abbrev pub context_of : AcquiredLock → LockContext
context_of lease = record {
  lock_id = lease.lock_id;
  fence = lease.fence;
  holder_id = lease.holder_id;
  project_id = none;
  resource_key = none;
}

not_stale :
    (env' env : Env) (project_id key : String) (options : LockOptions) (lease : AcquiredLock)
    (locks : List WorkflowLock) (leased : Leased env project_id key options lease locks)
    → is_resource project_id key leased.row ≡ true
    → env'.now ≤ env.now + options.ttl_ms
    → is_stale env'.now
        (record (context_of lease) { project_id = some project_id; resource_key = some key })
        leased.row
      ≡ false
not_stale env' env project_id key options lease locks leased of_lane t =
    let row = leased.row in
    let in_time : ltb (env.now + options.ttl_ms) env'.now ≡ false = ground (arith, t) in
    let fence : (row.fence == lease.fence) ≡ true = ground (arith, leased.same_fence) in
    let holder = (eq_iff row.holder_id lease.holder_id).1 (sym leased.holder) in
    let project : (row.project_id == project_id) ≡ true = ground (arith, of_lane) in
    let resource : (row.resource_key == key) ≡ true = ground (arith, of_lane) in
    rw (leased.until, in_time, fence, holder, project, resource) refl

-- The lease of a project's lane passes the lane guard of the handlers until it expires: where the
-- table has the lane at most once and then distinct ids, a command whose lock context names the
-- lease that acquireForProject returned is let through, up to its last millisecond.
pub acquire_for_project-require_lane :
    (env env' : Env) (envelope : Envelope) (project_id holder_id : String) (ttl_ms : ℕ)
    (lease : AcquiredLock) (db db' : Db)
    → count_rows (is_resource project_id (execution_lane_key project_id)) db.workflow_locks ≤ 1
    → acquire_for_project env project_id holder_id ttl_ms db ≡ ok (lease, db')
    → Distinct (lock_ids db'.workflow_locks)
    → env'.now ≤ env.now + ttl_ms
    → envelope.lock_context ≡ some (context_of lease)
    → require_lane env' envelope project_id db' ≡ ok (tt, db')
unfolding acquire_for_project require_lane assert_lock_fence
acquire_for_project-require_lane env env' envelope project_id holder_id ttl_ms lease db db' u e d t
      c =
    let options : LockOptions = record { holder_id = holder_id; ttl_ms = ttl_ms } in
    let key = execution_lane_key project_id in
    let leased =
      subst (LeasedIn env project_id key options) e
        (acquire-Leased env project_id key options db u) in
    let row = leased.row in
    let of_lane : is_resource project_id key row ≡ true =
      find-some (is_resource project_id key) db'.workflow_locks row leased.found in
    let by_id : find (λ l. l.id == lease.lock_id) db'.workflow_locks ≡ some row =
      subst (λ i. find (λ l. l.id == i) db'.workflow_locks ≡ some row) (sym leased.same_id)
        (find-id (is_resource project_id key) row db'.workflow_locks leased.found d) in
    let context : LockContext = record (context_of lease) {
      project_id = some project_id;
      resource_key = some key;
    } in
    let fresh : is_stale env'.now context row ≡ false =
      not_stale env' env project_id key options lease db'.workflow_locks leased of_lane t in
    rw c (rw by_id (rw fresh refl))
