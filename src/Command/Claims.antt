-- ===== src/Command/Claims.antt =====
-- Case analysis of the frame and of the lane guard, for the proofs about the handlers.
use mini_coder.Common.{
  ℕ, ◌≡◌, refl, sym, subst, ◌⊎◌, inl, inr, suc, List, String, Option, none, some, arith, find,
  Option-cases, Bool-cases, ◌==◌, String_eq, ◌∷◌,
}
use mini_coder.Store.Rows.{CommandResult, IdempotencyKey, WorkflowLock}
use mini_coder.Store.{Db, Env, Error, Result, ok, err, M, command_error, stale_fence_error}
use mini_coder.Command.Helpers.{
  Envelope, LockContext, Claim, owned, replayed, concurrent_command, in_slot, drop_expired,
  new_claim, live_result, claim_idempotency_key, after_claim, with_claim, idempotency_ttl_ms,
}
use mini_coder.Command.Fence.{execution_lane_key, is_stale, check_fence, require_lane}

-- The database in which the slot was claimed: other idempotency rows, and one more id.
abbrev pub with_keys : Db → List IdempotencyKey → Db
with_keys db rows = record db { idempotency_keys = rows; ids_drawn = suc db.ids_drawn }

-- A replayed result is the one of the slot's live row.
abbrev pub IsLive : Env → String → String → Db → Claim → Type 0
IsLive env key scope db (owned id) = Unit
IsLive env key scope db (replayed result) =
    live_result env.now key scope (drop_expired env.now key scope db.idempotency_keys) ≡ some result

-- A claim changes the idempotency table and draws an id, or is refused.
pub claim_cases :
    (env : Env) (key scope : String) (ttl_ms : ℕ) (db : Db)
    → ((claim : Claim) × (rows : List IdempotencyKey) × (claim_idempotency_key env key scope ttl_ms
            db
          ≡ ok (claim, with_keys db rows))
        × IsLive env key scope db claim)
      ⊎ (claim_idempotency_key env key scope ttl_ms db ≡ err concurrent_command)
unfolding claim_idempotency_key
claim_cases env key scope ttl_ms db =
    let rows = drop_expired env.now key scope db.idempotency_keys in
    let id = env.new_id db.ids_drawn in
    elim (Option-cases (find (in_slot key scope) rows)) [
      | inl free ↦ inl (owned id, new_claim env id key scope ttl_ms ∷ rows, ground arith, tt)
      | inr (taken, e) ↦ elim (Option-cases (live_result env.now key scope rows)) [
        | inl busy ↦ inr (ground arith)
        | inr (result, cached) ↦ inl (replayed result, rows, ground arith, cached)
      ]
    ]

-- The result that a live row of the slot holds.
abbrev pub cached_result : Env → Envelope → String → Db → Option CommandResult
cached_result env envelope scope db =
    let key = envelope.idempotency_key in
    live_result env.now key scope (drop_expired env.now key scope db.idempotency_keys)

module _ {ℓ} (P : Result (CommandResult × Db) → Type ℓ) (env : Env) (envelope : Envelope)
    (scope : String) (body : String → M CommandResult) (db : Db) where
  -- What holds when the slot is refused, when its result is returned, and of the body, holds of
  -- the whole.
  pub with_claim_replays :
      P (err concurrent_command)
      → ((result : CommandResult) (rows : List IdempotencyKey)
          → cached_result env envelope scope db ≡ some result
          → P (ok (result, with_keys db rows)))
      → ((claim_id : String) (rows : List IdempotencyKey) → P (body claim_id (with_keys db rows)))
      → P (with_claim env envelope scope body db)
  unfolding with_claim
  with_claim_replays refused cached claimed =
      elim (claim_cases env envelope.idempotency_key scope idempotency_ttl_ms db) [
        | inl (owned id, rows, e, own) ↦
            subst (λ r. P (after_claim body r)) (sym e) (claimed id rows)
        | inl (replayed result, rows, e, live) ↦
            subst (λ r. P (after_claim body r)) (sym e) (cached result rows live)
        | inr e ↦ subst (λ r. P (after_claim body r)) (sym e) refused
      ]

  pub with_claim_cases :
      P (err concurrent_command)
      → ((result : CommandResult) (rows : List IdempotencyKey) → P (ok (result, with_keys db rows)))
      → ((claim_id : String) (rows : List IdempotencyKey) → P (body claim_id (with_keys db rows)))
      → P (with_claim env envelope scope body db)
  with_claim_cases refused cached claimed =
      with_claim_replays refused (λ result rows live. cached result rows) claimed

check_fence_cases :
    (now : ℕ) (context : LockContext) (lock : Option WorkflowLock) (db : Db)
    → (check_fence now context lock db ≡ ok (tt, db))
      ⊎ ((e : Error) × (check_fence now context lock db ≡ err e))
check_fence_cases now context none db =
    inr (stale_fence_error context.lock_id context.fence none, refl)
check_fence_cases now context (some lock) db = elim (Bool-cases (is_stale now context lock)) [
  | inl stale ↦ inr (stale_fence_error context.lock_id context.fence (some lock.fence), rw stale)
  | inr fresh ↦ inl (rw fresh)
]

-- The lane guard reads, and throws or goes on.
pub require_lane_cases :
    (env : Env) (envelope : Envelope) (project_id : String) (db : Db)
    → (require_lane env envelope project_id db ≡ ok (tt, db))
      ⊎ ((e : Error) × (require_lane env envelope project_id db ≡ err e))
unfolding require_lane
require_lane_cases env envelope project_id db = elim (Option-cases envelope.lock_context) [
  | inl missing ↦ inr (command_error "missing-lock" 400, rw (missing, require_lane))
  | inr (context, e) ↦
      rw (e, require_lane)
        (check_fence_cases env.now
          (record context {
            project_id = some project_id;
            resource_key = some (execution_lane_key project_id);
          })
          (find (λ l. l.id == context.lock_id) db.workflow_locks) db)
]
