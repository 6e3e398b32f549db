-- ===== src/Locks/Fencing.antt =====
-- The fencing tokens of workflow locks count up, and a live lock is not taken away.
use mini_coder.Common.{
  ℕ, suc, ◌+◌, ◌≤◌, ◌≡◌, refl, sym, subst, inl, inr, Bool, true, false, ◌||◌, Option, none, some,
  List, [], ◌∷◌, String, arith, any, update_rows, count_rows, ◌==◌, String_eq, ℕ_eq, Bool-cases,
  eq_iff,
}
use mini_coder.Store.Rows.{WorkflowLock}
use mini_coder.Store.{Db, Env, Result, ok, err, lock_conflict_error}
use mini_coder.Locks.{
  LockOptions, AcquiredLock, is_resource, has_run_out, claimable, take, new_lock, claim_lock,
  lock_of, acquire,
}

-- The fence of a resource: 0 before its first lock.
abbrev pub fence_in : Option WorkflowLock → ℕ
fence_in none = 0
fence_in (some l) = l.fence

unfoldable pub fence_at : String → String → List WorkflowLock → ℕ
fence_at project_id resource_key locks = fence_in (lock_of project_id resource_key locks)

module _ (env : Env) (id project_id resource_key : String) (options : LockOptions) where
  -- A row of a resource that the table has once is claimable or there is no claim.
  abbrev mine : WorkflowLock → Bool
  mine = claimable env.now project_id resource_key options.holder_id

  none_mine :
      (locks : List WorkflowLock)
      → count_rows (is_resource project_id resource_key) locks ≡ 0
      → count_rows mine locks ≡ 0
  none_mine [] h = refl
  none_mine (x ∷ xs) h = ground (arith, h, none_mine xs)

  -- Unique rows: the claim is of the row that is found.
  pub taken_row :
      (locks : List WorkflowLock)
      → (count_rows mine locks == 0) ≡ false
      → count_rows (is_resource project_id resource_key) locks ≤ 1
      → (l : WorkflowLock) × (lock_of project_id resource_key locks ≡ some l)
        × (mine l ≡ true)
        × (lock_of project_id resource_key (update_rows mine (take env options) locks)
            ≡ some (take env options l))
  taken_row [] h u = cc
  taken_row (x ∷ xs) h u = elim (Bool-cases (is_resource project_id resource_key x)) [
    | inl hit ↦
        let own : mine x ≡ true = ground (arith, h, u, hit, none_mine xs) in
        (x, rw hit refl, own, ground (arith, own, hit))
    | inr miss ↦
        let (l, found, own, after) =
          taken_row xs (ground (arith, h, miss)) (ground (arith, u, miss)) in
        (l, ground (arith, miss, found), own, ground (arith, miss, after))
  ]

  -- Rows that are not claimable: the one that is found is another's and live.
  kept_row :
      (locks : List WorkflowLock)
      → (count_rows mine locks == 0) ≡ true
      → any (is_resource project_id resource_key) locks ≡ true
      → (l : WorkflowLock) × (lock_of project_id resource_key locks ≡ some l) × (mine l ≡ false)
  kept_row [] h a = cc
  kept_row (x ∷ xs) h a = elim (Bool-cases (is_resource project_id resource_key x)) [
    | inl hit ↦ (x, rw hit refl, ground (arith, h))
    | inr miss ↦
        let (l, found, other) = kept_row xs (ground (arith, h, miss)) (ground (arith, a, miss)) in
        (l, ground (arith, miss, found), other)
  ]

  no_row :
      (locks : List WorkflowLock)
      → any (is_resource project_id resource_key) locks ≡ false
      → lock_of project_id resource_key locks ≡ none
  no_row [] a = refl
  no_row (x ∷ xs) a = ground (arith, a, no_row xs)

-- No lock, one that has expired, or one's own.
abbrev pub may_take : ℕ → String → Option WorkflowLock → Bool
may_take now holder_id none = true
may_take now holder_id (some l) = has_run_out now l || l.holder_id == holder_id

-- What `acquire` answers.
abbrev pub Acquired :
    Env → String → String → LockOptions → List WorkflowLock → Result (AcquiredLock × Db) → Type 0
Acquired env project_id resource_key options locks (err e) =
    (l : WorkflowLock) × (lock_of project_id resource_key locks ≡ some l)
    × (claimable env.now project_id resource_key options.holder_id l ≡ false)
    × (e ≡ lock_conflict_error resource_key options.holder_id)
Acquired env project_id resource_key options locks (ok (lease, db')) =
    (lease.fence ≡ fence_at project_id resource_key locks + 1)
    × (fence_at project_id resource_key db'.workflow_locks ≡ lease.fence)
    × (may_take env.now options.holder_id (lock_of project_id resource_key locks) ≡ true)

module _ (env : Env) (project_id resource_key : String) (options : LockOptions) (db : Db) where
  -- `acquire` after its claim: the lease of the row that is read back.
  abbrev pub lease_of : WorkflowLock → AcquiredLock
  lease_of l = record {
    lock_id = l.id;
    resource_key = resource_key;
    fence = l.fence;
    expires_at = l.expires_at;
    holder_id = options.holder_id;
  }

  pub acquire_ok :
      (locks : List WorkflowLock) (row : WorkflowLock)
      → claim_lock env (env.new_id db.ids_drawn) project_id resource_key options db.workflow_locks
        ≡ some locks
      → lock_of project_id resource_key locks ≡ some row
      → acquire env project_id resource_key options db
        ≡ ok (lease_of row, record db { workflow_locks = locks; ids_drawn = suc db.ids_drawn })
  unfolding acquire
  acquire_ok locks row e f = ground (arith, e, f)

  pub acquire_err :
      claim_lock env (env.new_id db.ids_drawn) project_id resource_key options db.workflow_locks
        ≡ none
      → acquire env project_id resource_key options db
        ≡ err (lock_conflict_error resource_key options.holder_id)
  unfolding acquire
  acquire_err e = ground (arith, e)

-- Where the table has the resource at most once: `acquire` succeeds unless the resource's lock is
-- another holder's and has not expired, and then it throws a conflict. A lease that it gives has
-- the next fence after the resource's last one, which is now the resource's fence.
pub acquire-Acquired :
    (env : Env) (project_id resource_key : String) (options : LockOptions) (db : Db)
    → count_rows (is_resource project_id resource_key) db.workflow_locks ≤ 1
    → Acquired env project_id resource_key options db.workflow_locks
        (acquire env project_id resource_key options db)
unfolding acquire claim_lock fence_at
acquire-Acquired env project_id resource_key options db u =
    let id = env.new_id db.ids_drawn in
    let locks = db.workflow_locks in
    let mine = claimable env.now project_id resource_key options.holder_id in
    elim (Bool-cases (count_rows mine locks == 0)) [
      | inr some_claimed ↦
          let (l, found, own, after) =
            taken_row env id project_id resource_key options locks some_claimed u in
          subst (Acquired env project_id resource_key options locks)
            (sym (
              acquire_ok env project_id resource_key options db _ (take env options l)
                (rw some_claimed refl) after))
            (rw found refl, rw after refl, rw found (ground (arith, own)))
      | inl none_claimed ↦ elim (Bool-cases (any (is_resource project_id resource_key) locks)) [
        | inl other ↦
            let (l, found, live) =
              kept_row env id project_id resource_key options locks none_claimed other in
            subst (Acquired env project_id resource_key options locks)
              (sym (
                acquire_err env project_id resource_key options db (rw (none_claimed, other) refl)))
              (l, found, live, refl)
        | inr fresh ↦
            let missing = no_row env id project_id resource_key options locks fresh in
            let row = new_lock env id project_id resource_key options in
            let found : lock_of project_id resource_key (row ∷ locks) ≡ some row = ground (
              arith,
              (eq_iff project_id project_id).1 refl,
              (eq_iff resource_key resource_key).1 refl,
            ) in
            subst (Acquired env project_id resource_key options locks)
              (sym (
                acquire_ok env project_id resource_key options db (row ∷ locks) row
                  (rw (none_claimed, fresh) refl) found))
              (rw missing refl, rw found refl, rw missing refl)
      ]
    ]
