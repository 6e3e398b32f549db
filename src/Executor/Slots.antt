-- ===== src/Executor/Slots.antt =====
-- The idempotency slot of a command: after the frame returns, the slot holds what it returned.
use mini_coder.Common.{
  ℕ, ◌+◌, ◌≤◌, ◌<◌, ◌≡◌, refl, sym, subst, ◌⊎◌, inl, inr, ◌&&◌, some, List, [], ◌∷◌, String, arith,
  ◌==◌, String_eq, ℕ_eq, find, update_rows, ltb, Option-cases, Bool-cases, eq_iff,
}
use mini_coder.Store.Rows.{IdempotencyKey, CommandResult}
use mini_coder.Store.{Db, Env, Result, ok, err, M}
use mini_coder.Command.Helpers.{
  Envelope, owned, replayed, claim_idempotency_key, in_slot, drop_expired, new_claim, live_result,
  concurrent_command, idempotency_ttl_ms, after_claim, with_claim,
}
use mini_coder.Command.Claims.{with_keys}
use mini_coder.Executor.{check_idempotency_key}

-- The slot gives this result from now on, up to some later time.
abbrev pub Holds : ℕ → String → String → List IdempotencyKey → CommandResult → Type 0
Holds now key scope rows result =
    (until : ℕ) × (now < until)
    × ((t : ℕ) → now ≤ t → t < until → check_idempotency_key t key scope rows ≡ some result)

-- The slot holds the result that was returned.
abbrev pub Held : ℕ → String → String → Result (CommandResult × Db) → Type 0
Held now key scope (err e) = Unit
Held now key scope (ok (result, db)) = Holds now key scope db.idempotency_keys result

-- The row of a claim, with its result.
abbrev pub fulfilled : Env → CommandResult → IdempotencyKey → IdempotencyKey
fulfilled env result r = record r {
  result = some result;
  version = r.version + 1;
  updated_at = env.now;
}

-- The body wrote its result into the row that it claimed, and touched no other.
abbrev pub Fulfilled : Env → String → List IdempotencyKey → Result (CommandResult × Db) → Type 0
Fulfilled env claim_id keys (err e) = Unit
Fulfilled env claim_id keys (ok (result, db)) =
    db.idempotency_keys ≡ update_rows (λ r. r.id == claim_id) (fulfilled env result) keys

-- What the handler finds in the slot, the executor finds too.
live_result-Holds :
    (now : ℕ) (key scope : String) (rows : List IdempotencyKey) (result : CommandResult)
    → live_result now key scope rows ≡ some result
    → Holds now key scope rows result
unfolding check_idempotency_key
live_result-Holds now key scope [] result h = cc
live_result-Holds now key scope (r ∷ rows) result h =
    elim (Bool-cases (in_slot key scope r && ltb now r.expires_at)) [
      | inl hit ↦ (r.expires_at, ground (arith, h, hit), (λ t a b. ground (arith, h, hit, a, b)))
      | inr miss ↦
          let (until, less, holds) =
            live_result-Holds now key scope rows result (ground (arith, h, miss)) in
          (until, less, (λ t a b. ground (arith, miss, a, holds t a b)))
    ]

module _ (env : Env) (key scope : String) (claim_id : String) (rows : List IdempotencyKey) where
  Fulfilled-Held :
      (r : Result (CommandResult × Db))
      → Fulfilled env claim_id (new_claim env claim_id key scope idempotency_ttl_ms ∷ rows) r
      → Held env.now key scope r
  unfolding check_idempotency_key
  Fulfilled-Held (err e) h = tt
  Fulfilled-Held (ok (result, db)) h = (
    env.now + idempotency_ttl_ms,
    omega arith,
    (λ t a b. rw h (
        ground (
          arith,
          b,
          (eq_iff claim_id claim_id).1 refl,
          (eq_iff key key).1 refl,
          (eq_iff scope scope).1 refl,
        ))),
  )

-- The frame's claim, with what is known of the slot.
claim_slots :
    (env : Env) (key scope : String) (ttl_ms : ℕ) (db : Db)
    → ((id : String) × (rows : List IdempotencyKey) × (claim_idempotency_key env key scope ttl_ms db
          ≡ ok (owned id, with_keys db (new_claim env id key scope ttl_ms ∷ rows))))
      ⊎ ((result : CommandResult) × (rows : List IdempotencyKey) × (claim_idempotency_key env key
              scope ttl_ms db
            ≡ ok (replayed result, with_keys db rows))
          × (live_result env.now key scope rows ≡ some result))
      ⊎ (claim_idempotency_key env key scope ttl_ms db ≡ err concurrent_command)
unfolding claim_idempotency_key
claim_slots env key scope ttl_ms db =
    let rows = drop_expired env.now key scope db.idempotency_keys in
    let id = env.new_id db.ids_drawn in
    elim (Option-cases (find (in_slot key scope) rows)) [
      | inl free ↦ inl (id, rows, ground arith)
      | inr (taken, e) ↦ elim (Option-cases (live_result env.now key scope rows)) [
        | inl busy ↦ inr (inr (ground arith))
        | inr (result, cached) ↦ inr (inl (result, rows, ground arith, cached))
      ]
    ]

pub with_claim-Held :
    (env : Env) (envelope : Envelope) (scope : String) (body : String → M CommandResult) (db : Db)
    → ((claim_id : String) (rows : List IdempotencyKey)
        → Fulfilled env claim_id
            (new_claim env claim_id envelope.idempotency_key scope idempotency_ttl_ms ∷ rows)
            (body claim_id (
              with_keys db
                (new_claim env claim_id envelope.idempotency_key scope idempotency_ttl_ms ∷ rows))))
    → Held env.now envelope.idempotency_key scope (with_claim env envelope scope body db)
unfolding with_claim
with_claim-Held env envelope scope body db fulfils =
    let key = envelope.idempotency_key in
    elim (claim_slots env key scope idempotency_ttl_ms db) [
      | inl (id, rows, e) ↦
          subst (λ r. Held env.now key scope (after_claim body r)) (sym e)
            (Fulfilled-Held env key scope id rows _ (fulfils id rows))
      | inr (inl (result, rows, e, cached)) ↦
          subst (λ r. Held env.now key scope (after_claim body r)) (sym e)
            (live_result-Holds env.now key scope rows result cached)
      | inr (inr e) ↦ subst (λ r. Held env.now key scope (after_claim body r)) (sym e) tt
    ]
