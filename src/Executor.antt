-- ===== src/Executor.antt =====
-- packages/core/src/commands/executor.ts: the role check and the cached result around a handler.
pub mod Slots
pub mod Fulfilling
pub mod Replay
pub mod Idempotency
pub mod Sweeping
use mini_coder.Common.{
  ℕ, Bool, true, false, not, ◌&&◌, Option, none, some, List, [], ◌∷◌, String, ◌==◌, find, ltb,
  if◌then◌else◌,
}
use mini_coder.Auth.Guards.{is_authorized}
use mini_coder.Store.Rows.{IdempotencyKey, CommandResult}
use mini_coder.Store.{Db, Env, Error, authorization_error, ok, err}
use mini_coder.Command.Helpers.{Envelope, in_slot}
use mini_coder.Handlers.Merging.{Gated}
use mini_coder.Handlers.Commands.{FeatureCommand, HandlerMeta, handle, handler_meta}

abbrev pub has_result : IdempotencyKey → Bool
has_result r = elim r.result [ none ↦ false | some result ↦ true ]

abbrev pub result_in : Option IdempotencyKey → Option CommandResult
result_in none = none
result_in (some r) = r.result

-- `checkIdempotencyKey`.
unfoldable pub check_idempotency_key :
    ℕ → String → String → List IdempotencyKey → Option CommandResult
check_idempotency_key now key scope rows =
    result_in (find (λ r. in_slot key scope r && (ltb now r.expires_at && has_result r)) rows)

abbrev pub or_handle : Db → Gated → Option CommandResult → Gated
or_handle db handled none = handled
or_handle db handled (some result) = (ok result, db)

-- `TransactionalCommandExecutor.execute`.
unfoldable pub execute_command : Env → Envelope → FeatureCommand → Db → Gated
execute_command env envelope command db =
    let m = handler_meta command in
    if is_authorized envelope.actor m.required_role m.required_kind
    then or_handle db (handle env envelope command db)
        (check_idempotency_key env.now envelope.idempotency_key m.scope db.idempotency_keys)
    else (err (authorization_error envelope.actor.id m.command_name), db)
