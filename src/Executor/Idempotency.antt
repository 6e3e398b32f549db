-- ===== src/Executor/Idempotency.antt =====
-- packages/core/src/commands/executor.ts: how long a result that was returned is returned again.
use mini_coder.Common.{
  ℕ, ◌≤◌, ◌<◌, ◌&&◌, ltb, ◌≡◌, refl, inl, inr, true, Option, none, some, List, ◌∷◌, [], String,
  arith, String_eq, Bool-cases, find,
}
use mini_coder.Store.Rows.{CommandResult, IdempotencyKey}
use mini_coder.Store.{Db, Env, ok}
use mini_coder.Auth.Guards.{is_authorized}
use mini_coder.Command.Helpers.{Envelope, in_slot}
use mini_coder.Handlers.Commands.{FeatureCommand, handler_meta}
use mini_coder.Handlers.Evolution.{Distinct, run_ids}
use mini_coder.Executor.{has_result, check_idempotency_key, execute_command}
use mini_coder.Executor.Replay.{execute_command-Holds}

-- An envelope and a command that meet the same slot, from an actor who may send the command.
pub record SameSlot (envelope envelope' : Envelope) (command command' : FeatureCommand)
    : Type 0 where
  pub same_key : envelope'.idempotency_key ≡ envelope.idempotency_key
  pub same_scope : (handler_meta command').scope ≡ (handler_meta command).scope
  pub may_send :
      is_authorized envelope'.actor
        (handler_meta command').required_role
        (handler_meta command').required_kind
      ≡ true

abbrev pub expiry_in : Option IdempotencyKey → ℕ
expiry_in none = 0
expiry_in (some r) = r.expires_at

-- Until when the result that `checkIdempotencyKey` finds now is found: the expiry of its row.
abbrev pub live_until : ℕ → String → String → List IdempotencyKey → ℕ
live_until now key scope rows =
    expiry_in (find (λ r. in_slot key scope r && (ltb now r.expires_at && has_result r)) rows)

later_found :
    (now t : ℕ) (key scope : String) (rows : List IdempotencyKey) (result : CommandResult)
    → check_idempotency_key now key scope rows ≡ some result
    → now ≤ t
    → t < live_until now key scope rows
    → check_idempotency_key t key scope rows ≡ some result
unfolding check_idempotency_key
later_found now t key scope [] result h a b = cc
later_found now t key scope (r ∷ rows) result h a b =
    elim (Bool-cases (in_slot key scope r && (ltb now r.expires_at && has_result r))) [
      | inl hit ↦ ground (arith, h, hit, a, b)
      | inr miss ↦
          let there =
            later_found now t key scope rows result (ground (arith, h, miss)) a
              (ground (arith, b, miss)) in
          ground (arith, miss, a, there)
    ]

still_live :
    (now : ℕ) (key scope : String) (rows : List IdempotencyKey) (result : CommandResult)
    → check_idempotency_key now key scope rows ≡ some result
    → now < live_until now key scope rows
unfolding check_idempotency_key
still_live now key scope [] result h = cc
still_live now key scope (r ∷ rows) result h =
    elim (Bool-cases (in_slot key scope r && (ltb now r.expires_at && has_result r))) [
      | inl hit ↦ ground (arith, h, hit)
      | inr miss ↦
          let less = still_live now key scope rows result (ground (arith, h, miss)) in
          ground (arith, miss, less)
    ]

-- The result stands in the slot as soon as the command has returned.
result_found :
    (env : Env) (envelope : Envelope) (command : FeatureCommand) (db after : Db)
    (result : CommandResult)
    → Distinct (run_ids db.feature_runs)
    → execute_command env envelope command db ≡ (ok result, after)
    → check_idempotency_key env.now envelope.idempotency_key
        (handler_meta command).scope
        after.idempotency_keys
      ≡ some result
result_found env envelope command db after result d h =
    let (until, later, holds) = execute_command-Holds env envelope command db after result d h in
    holds env.now (omega arith) later

-- Where the ids of the feature runs are distinct and a command returned a result, the row that
-- holds the result in the command's slot has not expired at the time of the command.
pub execute_command-live_until :
    (env : Env) (envelope : Envelope) (command : FeatureCommand) (db after : Db)
    (result : CommandResult)
    → Distinct (run_ids db.feature_runs)
    → execute_command env envelope command db ≡ (ok result, after)
    → env.now
      < live_until env.now envelope.idempotency_key
          (handler_meta command).scope
          after.idempotency_keys
execute_command-live_until env envelope command db after result d h =
    still_live env.now _ _ _ result (result_found env envelope command db after result d h)

-- Where the ids of the feature runs are distinct and a command returned a result: until the row
-- that holds the result expires, whatever authorised actor sends a command of the same scope under
-- the same idempotency key, with whatever payload, gets the same result, and the database stays
-- exactly as the first command left it. This holds of every feature command.
pub execute_command-replay :
    (env env' : Env) (envelope envelope' : Envelope) (command command' : FeatureCommand)
    (db after : Db) (result : CommandResult)
    → Distinct (run_ids db.feature_runs)
    → execute_command env envelope command db ≡ (ok result, after)
    → SameSlot envelope envelope' command command'
    → env.now ≤ env'.now
    → env'.now
      < live_until env.now envelope.idempotency_key
          (handler_meta command).scope
          after.idempotency_keys
    → execute_command env' envelope' command' after ≡ (ok result, after)
unfolding execute_command
execute_command-replay env env' envelope envelope' command command' db after result d h same a b =
    let there =
      later_found env.now env'.now envelope.idempotency_key (handler_meta command).scope
        after.idempotency_keys result (result_found env envelope command db after result d h) a b in
    rw (same.may_send, same.same_key, same.same_scope, there, execute_command) refl
