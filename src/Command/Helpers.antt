-- ===== src/Command/Helpers.antt =====
-- packages/core/src/commands/helpers.ts and persistence/optimistic.ts: what every handler calls.
-- JSON text is its value: `JSON.stringify` and `parseJsonField` between them change nothing.
use mini_coder.Common.{
  ℕ, suc, ◌+◌, ◌*◌, Bool, true, false, not, ◌&&◌, Option, none, some, List, ◌∷◌, String, ◌==◌, ℕ_eq,
  String_eq, leb, ltb, find, where_rows, update_rows, if◌then◌else◌,
}
use mini_coder.Domain.{user_role_value}
use mini_coder.Auth.Guards.{ActorIdentity}
use mini_coder.Auth.Redaction.{Json, redact_object}
use mini_coder.Store.Rows.{CommandResult, IdempotencyKey, QueueStatus, schema_version}
use mini_coder.Store.{
  Db, Env, Error, command_error, optimistic_lock_error, Result, ok, err, M, pure, throw, ◌>>=◌,
  ◌>>◌, execute,
}

pub record LockContext : Type 0 where
  pub lock_id : String
  pub fence : ℕ
  pub holder_id : String
  pub project_id : Option String
  pub resource_key : Option String

-- A CommandEnvelope less its payload, which is the handler's own argument.
pub record Envelope : Type 0 where
  pub command_id : String
  pub idempotency_key : String
  pub actor : ActorIdentity
  pub lock_context : Option LockContext

abbrev pub generate_id : Env → M String
generate_id env db = ok (env.new_id db.ids_drawn, record db { ids_drawn = suc db.ids_drawn })

pub data Claim : Type 0 where
  owned : String → Claim
  replayed : CommandResult → Claim

abbrev pub in_slot : String → String → IdempotencyKey → Bool
in_slot key scope r = r.key == key && r.scope == scope

-- The expired row of a slot is removed, so that the slot can be used again.
abbrev pub drop_expired : ℕ → String → String → List IdempotencyKey → List IdempotencyKey
drop_expired now key scope = where_rows (λ r. not (in_slot key scope r && leb r.expires_at now))

abbrev pub new_claim : Env → String → String → String → ℕ → IdempotencyKey
new_claim env id key scope ttl_ms = record {
  id = id;
  key = key;
  scope = scope;
  result = none;
  expires_at = env.now + ttl_ms;
  version = 1;
  updated_at = env.now;
}

-- The live row's result, if there is one.
abbrev pub live_result : ℕ → String → String → List IdempotencyKey → Option CommandResult
live_result now key scope rows =
    elim (find (λ r. in_slot key scope r && ltb now r.expires_at) rows) [
      | none ↦ none
      | some r ↦ r.result
    ]

abbrev pub concurrent_command : Error
concurrent_command = command_error "concurrent-command" 409

-- `claimIdempotencyKey`: the INSERT does nothing where the slot is taken.
unfoldable pub claim_idempotency_key : Env → String → String → ℕ → M Claim
claim_idempotency_key env key scope ttl_ms db =
    let id = env.new_id db.ids_drawn in
    let rows = drop_expired env.now key scope db.idempotency_keys in
    let db' = record db { idempotency_keys = rows; ids_drawn = suc db.ids_drawn } in
    elim (find (in_slot key scope) rows) [
      | none ↦
          ok (owned id, record db' { idempotency_keys = new_claim env id key scope ttl_ms ∷ rows })
      | some taken ↦ elim (live_result env.now key scope rows) [
        | some result ↦ ok (replayed result, db')
        | none ↦ err concurrent_command
      ]
    ]

-- `fulfillIdempotencyKey`.
abbrev pub fulfill_idempotency_key : Env → String → CommandResult → M (Unit {0})
fulfill_idempotency_key env claim_id result = execute λ db. record db {
  idempotency_keys =
      update_rows (λ r. r.id == claim_id)
        (λ r. record r { result = some result; version = r.version + 1; updated_at = env.now })
        db.idempotency_keys;
}

-- `writeWorkflowEvent`; no modelled caller passes a payload.
abbrev pub write_workflow_event :
    Env → Option String → Option String → String → String → String → String → M String
write_workflow_event env feature_run_id project_id event_type from_state to_state actor_id = do
  id ← generate_id env
  execute λ db. record db {
    workflow_events =
        record {
          id = id;
          feature_run_id = feature_run_id;
          project_id = project_id;
          event_type = event_type;
          from_state = from_state;
          to_state = to_state;
          actor = actor_id;
          occurred_at = env.now;
        }
        ∷ db.workflow_events;
  }
  pure id

-- `writeOutboxEvent`; the id that it returns is used by no modelled caller.
abbrev pub write_outbox_event : Env → String → Json → M (Unit {0})
write_outbox_event env event_type payload = do
  id ← generate_id env
  execute λ db. record db {
    outbox_events =
        record {
          id = id;
          event_type = event_type;
          payload = redact_object env.redact payload;
          payload_schema_version = schema_version;
          status = QueueStatus.pending;
          attempts = 0;
          next_retry_at = none;
          version = 1;
          created_at = env.now;
          updated_at = env.now;
        }
        ∷ db.outbox_events;
  }

-- `insertPolicyDecision`.
abbrev pub insert_policy_decision :
    Env → String → Option String → String → String → Json → String → M (Unit {0})
insert_policy_decision env project_id feature_run_id policy_type decision context actor = do
  id ← generate_id env
  execute λ db. record db {
    policy_decisions =
        record {
          id = id;
          project_id = project_id;
          feature_run_id = feature_run_id;
          policy_type = policy_type;
          decision = decision;
          context = context;
          actor = actor;
          decided_at = env.now;
        }
        ∷ db.policy_decisions;
  }

-- `insertHumanApproval`.
abbrev pub insert_human_approval :
    Env
    → String
    → Option String
    → Option String
    → String
    → Option String
    → String
    → ActorIdentity
    → Option String
    → M (Unit {0})
insert_human_approval env project_id feature_request_id feature_run_id context_type context_id
      decision actor notes =
    do
      id ← generate_id env
      execute λ db. record db {
        human_approvals =
            record {
              id = id;
              project_id = project_id;
              feature_request_id = feature_request_id;
              feature_run_id = feature_run_id;
              context_type = context_type;
              context_id = context_id;
              decision = decision;
              actor = actor.id;
              actor_role = user_role_value actor.role;
              notes = notes;
              updated_at = env.now;
            }
            ∷ db.human_approvals;
      }

-- `assertVersion`: it hands the row on, which the caller then knows to be there.
abbrev pub assert_version : {A : Type 0} → String → String → (A → ℕ) → Option A → ℕ → M A
assert_version table id version none expected = throw (optimistic_lock_error table id expected none)
assert_version table id version (some row) expected =
    if version row == expected
    then pure row
    else throw (optimistic_lock_error table id expected (some (version row)))

abbrev pub next_version : ℕ → ℕ
next_version current = current + 1

-- `new CommandError` where a row is missing or a guard fails.
abbrev pub reject_if : Bool → Error → M (Unit {0})
reject_if true e = throw e
reject_if false e = pure tt

-- `if (affected === 0) throw …`.
abbrev pub require_affected : ℕ → Error → M (Unit {0})
require_affected n e = reject_if (n == 0) e

abbrev pub idempotency_ttl_ms : ℕ
idempotency_ttl_ms = 7 * 24 * 60 * 60 * 1000

abbrev pub after_claim :
    (String → M CommandResult) → Result (Claim × Db) → Result (CommandResult × Db)
after_claim body (ok (owned claim_id, db)) = body claim_id db
after_claim body (ok (replayed result, db)) = ok (result, db)
after_claim body (err e) = err e

-- The frame of every handler: claim the slot, or return what the slot holds.
unfoldable pub with_claim : Env → Envelope → String → (String → M CommandResult) → M CommandResult
with_claim env envelope scope body db =
    after_claim body
      (claim_idempotency_key env envelope.idempotency_key scope idempotency_ttl_ms db)

-- The end of every handler: the result is written into the slot and returned.
abbrev pub accept : Env → Envelope → String → String → List String → M CommandResult
accept env envelope claim_id resulting_state event_ids =
    let result = accepted_result in do fulfill_idempotency_key env claim_id result; pure result
  where
    accepted_result : CommandResult
    accepted_result = record {
      command_id = envelope.command_id;
      accepted = true;
      resulting_state = resulting_state;
      emitted_event_ids = event_ids;
    }
