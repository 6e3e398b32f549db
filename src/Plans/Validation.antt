-- ===== src/Plans/Validation.antt =====
-- packages/core/src/commands/handlers/planning/validate-backlog.ts: the quality gate of a backlog. Its
-- transaction commits also where the backlog is invalid, and then the handler throws.
use mini_coder.Common.{
  ℕ, ◌*◌, Bool, true, false, not, ◌&&◌, List, [], ◌∷◌, ◌++◌, String, ◌==◌, String_eq, any, map,
  none, some, where_rows, update_rows, option_beq, if◌then◌else◌,
}
use mini_coder.Auth.Redaction.{Items, nil, cons, str, arr, obj, field, end}
use mini_coder.Store.Rows.{CommandResult, FeatureDependency, FeatureRequest}
use mini_coder.Store.Plans.{FeatureText, ImplementationPlan}
use mini_coder.Store.{Db, Env, command_error, Result, ok, err, M, pure, ◌>>=◌, ◌>>◌, query, execute}
use mini_coder.Command.Helpers.{
  Envelope, after_claim, claim_idempotency_key, fulfill_idempotency_key, reject_if,
  write_outbox_event, write_workflow_event,
}
use mini_coder.Command.Text.{◌&◌}
use mini_coder.Handlers.Steps.{is_empty}
use mini_coder.Handlers.Merging.{Gated}
use mini_coder.Backlog.{has_cycle}
use mini_coder.Plans.{is_executable}

pub record BacklogPayload : Type 0 where
  pub project_id : String
  pub plan_id : String

abbrev pub features_of : BacklogPayload → Db → List FeatureRequest
features_of p db =
    where_rows (λ r. option_beq r.plan_id (some p.plan_id) && r.project_id == p.project_id)
      db.feature_requests

-- The dependencies of the plan's features.
abbrev pub dependencies_of : String → Db → List FeatureDependency
dependencies_of plan_id db =
    where_rows
      (λ d.
        any (λ r. r.id == d.source_fr_id && option_beq r.plan_id (some plan_id))
          db.feature_requests)
      db.feature_dependencies

abbrev pub has_text : List FeatureText → FeatureRequest → Bool
has_text rows r = any (λ t. t.feature_request_id == r.id) rows

abbrev pub problem_if : Bool → String → List String
problem_if true problem = problem ∷ []
problem_if false problem = []

-- What one executable feature lacks.
abbrev pub text_problems : Db → FeatureRequest → List String
text_problems db r =
    if is_executable r.kind
    then problem_if (not (has_text db.acceptance_criteria r))
        (r.fr_id & " has no acceptance criteria")
      ++ problem_if (not (has_text db.test_expectations r)) (r.fr_id & " has no test expectations")
    else []

unfoldable pub all_text_problems : Db → List FeatureRequest → List String
all_text_problems db [] = []
all_text_problems db (r ∷ rs) = text_problems db r ++ all_text_problems db rs

abbrev pub request_ids : List FeatureRequest → List String
request_ids = map λ r. r.id

abbrev pub problems_of : BacklogPayload → Db → List String
problems_of p db =
    let features = features_of p db in
    problem_if (has_cycle (request_ids features) (dependencies_of p.plan_id db))
      "feature_dependencies contains a cycle"
    ++ all_text_problems db features

abbrev pub backlog_state : List String → String
backlog_state [] = "valid"
backlog_state (problem ∷ problems) = "invalid"

abbrev pub set_validated : Env → String → ImplementationPlan → ImplementationPlan
set_validated env state plan = record plan {
  backlog_validated_at = some env.now;
  backlog_validated_state = some state;
  backlog_validated_version = some plan.backlog_version;
  updated_at = env.now;
}

abbrev pub record_outcome : Env → BacklogPayload → String → Db → Db
record_outcome env p state db = record db {
  implementation_plans =
      update_rows (λ plan. plan.id == p.plan_id) (set_validated env state) db.implementation_plans;
}

abbrev texts : List String → Items
texts [] = nil
texts (t ∷ ts) = cons (str t) (texts ts)

-- `IDEMPOTENCY_TTL_MS` of this handler: a day.
abbrev pub backlog_ttl_ms : ℕ
backlog_ttl_ms = 24 * 60 * 60 * 1000

-- What the transaction writes.
abbrev pub record_check : Env → Envelope → BacklogPayload → String → List String → M CommandResult
record_check env envelope p claim_id problems = do
  execute (record_outcome env p (backlog_state problems))
  event_id ←
      write_workflow_event env none (some p.project_id) "backlog.validated" "generated"
        (backlog_state problems) envelope.actor.id
  write_outbox_event env "backlog.validated" (
      obj (
        field "projectId" (str p.project_id) (
          field "planId" (str p.plan_id) (
            field "resultingState" (str (backlog_state problems))
              (field "problems" (arr (texts problems)) end)))))
  let result : CommandResult = record {
    command_id = envelope.command_id;
    accepted = is_empty problems;
    resulting_state = backlog_state problems;
    emitted_event_ids = event_id ∷ [];
  } in
      do fulfill_idempotency_key env claim_id result; pure result

-- The transaction.
abbrev pub check_backlog : Env → Envelope → BacklogPayload → String → M CommandResult
check_backlog env envelope p claim_id = do
  features ← query (features_of p)
  reject_if (is_empty features) (command_error "empty-backlog" 409)
  problems ← query (problems_of p)
  record_check env envelope p claim_id problems

-- What the handler makes of the transaction.
abbrev pub after_check : Db → Result (CommandResult × Db) → Gated
after_check db (err e) = (err e, db)
after_check db (ok (result, db')) =
    if result.resulting_state == "invalid"
    then (err (command_error "backlog-invalid" 422), db')
    else (ok result, db')

-- `ValidateBacklogHandler.execute`.
unfoldable pub validate_backlog : Env → Envelope → BacklogPayload → Db → Gated
validate_backlog env envelope p db = after_check db (
    after_claim (check_backlog env envelope p)
      (claim_idempotency_key env envelope.idempotency_key "validate-backlog" backlog_ttl_ms db))
