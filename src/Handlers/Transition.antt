-- ===== src/Handlers/Transition.antt =====
-- packages/core/src/commands/handlers: how the feature handlers begin and end a transition.
use mini_coder.Common.{ℕ, not, ◌+◌, some, [], ◌∷◌, String, String_eq}
use mini_coder.Domain.{FeatureExecutionState, feature_execution_state_value}
use mini_coder.Auth.Redaction.{Json}
use mini_coder.Store.Rows.{FeatureRun, CommandResult}
use mini_coder.Store.{Env, M, pure, ◌>>=◌, ◌>>◌, query}
use mini_coder.Command.Helpers.{Envelope, assert_version, reject_if, accept, write_outbox_event}
use mini_coder.Handlers.Steps.{
  FeaturePayload, load_run, require_run, assert_move, set_state, unmet_dependencies, is_empty,
  unmet_error, write_run_event,
}

-- The row, its version and the edge of the matrix, checked before anything is written.
abbrev pub checked_run : FeaturePayload → FeatureExecutionState → M FeatureRun
checked_run p to = do
  found ← query (load_run p)
  run ← assert_version "feature_runs" p.feature_run_id (λ r. r.version) found p.expected_version
  assert_move run.current_execution_state to
  pure run

-- The same of a handler that answers 404 for a missing row.
abbrev pub present_run : FeaturePayload → FeatureExecutionState → M FeatureRun
present_run p to = do
  found ← query (load_run p)
  row ← require_run found
  run ←
      assert_version "feature_runs" p.feature_run_id (λ r. r.version) (some row) p.expected_version
  assert_move run.current_execution_state to
  pure run

-- The guard of both unblocking handlers.
abbrev pub require_merged_dependencies : FeatureRun → M (Unit {0})
require_merged_dependencies run = do
  unmet ← query (unmet_dependencies run.feature_request_id)
  reject_if (not (is_empty unmet)) unmet_error

-- `UPDATE feature_runs SET current_execution_state = ?, fix_attempt_count = fix_attempt_count + 1,
-- …`.
abbrev pub set_attempt : Env → FeatureExecutionState → ℕ → FeatureRun → FeatureRun
set_attempt env to version run = record (set_state env to version run) {
  fix_attempt_count = run.fix_attempt_count + 1;
}

-- The workflow event, the outbox event and the result of the slot.
abbrev pub finish :
    Env
    → Envelope
    → FeaturePayload
    → String
    → String
    → FeatureExecutionState
    → FeatureExecutionState
    → String
    → Json
    → M CommandResult
finish env envelope p claim_id event_type from to outbox_type payload = do
  event_id ← write_run_event env envelope p event_type from to
  write_outbox_event env outbox_type payload
  accept env envelope claim_id (feature_execution_state_value to) (event_id ∷ [])
