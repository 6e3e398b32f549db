-- ===== src/Handlers/Disagreement.antt =====
-- packages/core/src/disagreement/write.ts and the two commands by which a human sends a run back
-- from human_required: resolve-disagreement.ts and resume-feature-execution.ts.
use mini_coder.Common.{
  ℕ, ◌+◌, Bool, false, not, ◌&&◌, ◌||◌, Option, none, some, List, [], ◌∷◌, String, ◌==◌, ℕ_eq,
  String_eq, ltb, find, where_rows, update_rows, count_rows, if◌then◌else◌,
}
use mini_coder.Domain.{
  FeatureExecutionState, feature_execution_state_eq, finding_severity_eq, DisagreementState,
  disagreement_state_eq, budget_scope_eq,
}
use mini_coder.Auth.Redaction.{str, field, end}
use mini_coder.Store.Rows.{CommandResult}
use mini_coder.Store
use mini_coder.Store.{
  Db, Env, Error, command_error, merge_gate_blocked, Result, ok, err, M, pure, throw, ◌>>=◌, ◌>>◌,
  query, execute,
}
use mini_coder.Command.Helpers.{Envelope, require_affected, with_claim, insert_human_approval}
use mini_coder.Handlers.Steps.{FeaturePayload, move_run, run_payload}
use mini_coder.Handlers.Transition.{present_run, finish}
use mini_coder.Store.Rows.{DisagreementRecord}

pub record DispositionPayload : Type 0 where
  pub run : FeaturePayload
  -- `resolution` of the one command, `notes` of the other.
  pub resolution : String
  pub disagreement_id : Option String

-- `state IN ('open', 'escalated')`.
abbrev pub is_unresolved : DisagreementState → Bool
is_unresolved state = state == DisagreementState.open_state || state == DisagreementState.escalated

-- The row that `ORDER BY … DESC LIMIT 1` returns, the first of several with one cycle.
abbrev pub latest : List DisagreementRecord → Option DisagreementRecord
latest [] = none
latest (r ∷ rows) = elim (latest rows) [
  | none ↦ some r
  | some s ↦ if ltb r.review_cycle s.review_cycle then some s else some r
]

-- `findOpenDisagreement`.
abbrev pub find_open_disagreement : String → Db → Option DisagreementRecord
find_open_disagreement run_id db =
    latest (
      where_rows (λ r. r.feature_run_id == run_id && is_unresolved r.state) db.disagreement_records)

abbrev pub of_disagreement : String → String → DisagreementRecord → Bool
of_disagreement id run_id r = r.id == id && (r.feature_run_id == run_id && is_unresolved r.state)

-- `findDisagreementForFeatureRun`; an empty id counts as none.
unfoldable pub find_disagreement : String → Option String → Db → Option DisagreementRecord
find_disagreement run_id none db = find_open_disagreement run_id db
find_disagreement run_id (some id) db =
    if id == ""
    then find_open_disagreement run_id db
    else find (of_disagreement id run_id) db.disagreement_records

-- `resolveDisagreementByHuman`, with its count.
abbrev pub resolve_by_human : Env → String → String → String → M ℕ
resolve_by_human env id run_id resolution db = Store.ok (
  count_rows (of_disagreement id run_id) db.disagreement_records,
  record db {
    disagreement_records =
        update_rows (of_disagreement id run_id)
          (λ r. record r {
            state = DisagreementState.resolved;
            resolution = some resolution;
            resolved_at = some env.now;
            version = r.version + 1;
            updated_at = env.now;
          })
          db.disagreement_records;
  },
)

abbrev pub no_open_disagreement : Error
no_open_disagreement = command_error "no-open-disagreement" 409

abbrev pub require_disagreement : Option DisagreementRecord → M DisagreementRecord
require_disagreement none = throw no_open_disagreement
require_disagreement (some r) = pure r

-- The disagreement is found, resolved, and its id returned.
abbrev pub settle : Env → DispositionPayload → M String
settle env q = do
  found ← query (find_disagreement q.run.feature_run_id q.disagreement_id)
  disagreement ← require_disagreement found
  affected ← resolve_by_human env disagreement.id q.run.feature_run_id q.resolution
  require_affected affected no_open_disagreement
  pure disagreement.id

-- `ResolveDisagreementHandler.execute`.
unfoldable pub resolve_disagreement : Env → Envelope → DispositionPayload → M CommandResult
resolve_disagreement env envelope q =
    let p = q.run in
    with_claim env envelope "resolve-disagreement" λ claim_id. do
      run ← present_run p FeatureExecutionState.changes_requested
      disagreement_id ← settle env q
      move_run env p run FeatureExecutionState.changes_requested
      insert_human_approval env p.project_id (some run.feature_request_id) (some p.feature_run_id)
          "disagreement_resolution" (some disagreement_id) "approved" envelope.actor
          (some q.resolution)
      finish env envelope p claim_id "feature.disagreement_resolved"
          FeatureExecutionState.human_required FeatureExecutionState.changes_requested
          "feature.disagreement_resolved"
          (run_payload p (
            field "disagreementId" (str disagreement_id)
              (field "resolution" (str q.resolution) end)))

-- `if (disagreementId)`.
abbrev pub is_given : Option String → Bool
is_given none = false
is_given (some id) = not (id == "")

abbrev pub settle_given : Env → DispositionPayload → M (Unit {0})
settle_given env q =
    if is_given q.disagreement_id then settle env q >>= (λ id. pure tt) else pure tt

-- `ResumeFeatureExecutionHandler.execute`.
unfoldable pub resume_feature_execution : Env → Envelope → DispositionPayload → M CommandResult
resume_feature_execution env envelope q =
    let p = q.run in
    with_claim env envelope "resume-feature-execution" λ claim_id. do
      run ← present_run p FeatureExecutionState.under_review
      settle_given env q
      move_run env p run FeatureExecutionState.under_review
      insert_human_approval env p.project_id (some run.feature_request_id) (some p.feature_run_id)
          (if is_given q.disagreement_id
            then "disagreement_resolution"
            else "human_escalation_resolution")
          q.disagreement_id "approved" envelope.actor (some q.resolution)
      finish env envelope p claim_id "feature.resumed_from_human_required"
          FeatureExecutionState.human_required FeatureExecutionState.under_review
          "feature.resumed_from_human_required" (run_payload p end)
