-- ===== src/Executor/Sweeping.antt =====
-- packages/workflow/src/sweep/idempotency-sweeper.ts: expired slots are removed, and no command
-- can tell.
use mini_coder.Common.{
  ℕ, ◌≤◌, ◌≡◌, refl, inl, inr, Bool, not, ◌&&◌, List, [], ◌∷◌, String, arith, find, leb, ltb,
  where_rows, count_rows, Bool-cases, String_eq,
}
use mini_coder.Store.Rows.{IdempotencyKey}
use mini_coder.Store.{Db, Env, Result, ok, err}
use mini_coder.Command.Helpers.{Claim, claim_idempotency_key, drop_expired, in_slot, live_result}
use mini_coder.Executor.{check_idempotency_key, has_result}

abbrev pub is_outdated : ℕ → IdempotencyKey → Bool
is_outdated now r = leb r.expires_at now

-- `DELETE FROM idempotency_keys WHERE expires_at <= ?`.
abbrev pub unexpired : ℕ → List IdempotencyKey → List IdempotencyKey
unexpired now = where_rows (λ r. not (is_outdated now r))

-- `sweep`: the number of rows removed, and the database.
unfoldable pub sweep : ℕ → Db → ℕ × Db
sweep now db = (
  count_rows (is_outdated now) db.idempotency_keys,
  record db { idempotency_keys = unexpired now db.idempotency_keys },
)

-- What a claim answers, less the database.
abbrev pub answer_of : Result (Claim × Db) → Result Claim
answer_of (ok (claim, db)) = ok claim
answer_of (err e) = err e

module _ (t now : ℕ) (earlier : t ≤ now) (key scope : String) where
  check_unexpired :
      (rows : List IdempotencyKey)
      → check_idempotency_key now key scope (unexpired t rows)
        ≡ check_idempotency_key now key scope rows
  unfolding check_idempotency_key
  check_unexpired [] = refl
  check_unexpired (r ∷ rows) = elim (Bool-cases (is_outdated t r)) [
    | inl gone ↦ ground (arith, earlier, gone, check_unexpired rows)
    | inr kept ↦ elim (Bool-cases (in_slot key scope r && (ltb now r.expires_at && has_result r))) [
      | inl hit ↦ ground (arith, kept, hit)
      | inr miss ↦ ground (arith, kept, miss, check_unexpired rows)
    ]
  ]

  slot_unexpired :
      (rows : List IdempotencyKey)
      → find (in_slot key scope) (drop_expired now key scope (unexpired t rows))
        ≡ find (in_slot key scope) (drop_expired now key scope rows)
  slot_unexpired [] = refl
  slot_unexpired (r ∷ rows) = ground (arith, earlier, slot_unexpired rows)

  live_unexpired :
      (rows : List IdempotencyKey)
      → live_result now key scope (drop_expired now key scope (unexpired t rows))
        ≡ live_result now key scope (drop_expired now key scope rows)
  live_unexpired [] = refl
  live_unexpired (r ∷ rows) = ground (arith, earlier, live_unexpired rows)

-- A sweep at an earlier time is not seen by a command: the executor finds the same cached result,
-- and the handler's claim is owned, replayed or refused as it would have been without the sweep.
pub sweep-unseen :
    (env : Env) (t ttl_ms : ℕ) (key scope : String) (db : Db)
    → t ≤ env.now
    → (check_idempotency_key env.now key scope (sweep t db).1.idempotency_keys
        ≡ check_idempotency_key env.now key scope db.idempotency_keys)
      × (answer_of (claim_idempotency_key env key scope ttl_ms (sweep t db).1)
          ≡ answer_of (claim_idempotency_key env key scope ttl_ms db))
unfolding sweep claim_idempotency_key
sweep-unseen env t ttl_ms key scope db earlier = (
  check_unexpired t env.now earlier key scope db.idempotency_keys,
  ground (
    arith,
    slot_unexpired t env.now earlier key scope db.idempotency_keys,
    live_unexpired t env.now earlier key scope db.idempotency_keys,
  ),
)
