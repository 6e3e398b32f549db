-- ===== src/Plans/Gaps.antt =====
-- packages/core/src/commands/handlers/planning/resolve-planning-gap.ts: an approver accepts a gap.
use mini_coder.Common.{
  ℕ, Bool, not, ◌&&◌, none, some, [], ◌∷◌, String, ◌==◌, ℕ_eq, String_eq, any, find, update_rows,
  count_rows,
}
use mini_coder.Domain.{gap_severity_value}
use mini_coder.Auth.Redaction.{str, obj, field, end}
use mini_coder.Store.Rows.{CommandResult}
use mini_coder.Store.Plans.{PlanningGap}
use mini_coder.Store.{Db, Env, command_error, optimistic_lock_error, ok, M, ◌>>=◌, ◌>>◌, query}
use mini_coder.Command.Helpers.{
  Envelope, accept, assert_version, insert_human_approval, next_version, reject_if,
  require_affected, with_claim, write_outbox_event, write_workflow_event,
}
use mini_coder.Clarification.{require_row}
use mini_coder.Plans.{is_open_time}

pub record GapPayload : Type 0 where
  pub project_id : String
  pub assessment_id : String
  pub gap_id : String
  pub resolution : String
  pub expected_version : ℕ

abbrev pub is_gap : Db → GapPayload → PlanningGap → Bool
is_gap db p g =
    g.id == p.gap_id
    && (g.assessment_id == p.assessment_id
        && any (λ a. a.id == g.assessment_id && a.project_id == p.project_id)
            db.planning_assessments)

abbrev pub gap_at : GapPayload → PlanningGap → Bool
gap_at p g = g.id == p.gap_id && g.version == p.expected_version

abbrev pub set_resolved : Env → String → ℕ → PlanningGap → PlanningGap
set_resolved env resolution version g = record g {
  resolution = some resolution;
  resolved_at = some env.now;
  version = version;
  updated_at = env.now;
}

abbrev pub resolve_row : Env → GapPayload → ℕ → M (Unit {0})
resolve_row env p version = do
  affected ← λ db. ok (
    count_rows (gap_at p) db.planning_gaps,
    record db {
      planning_gaps =
          update_rows (gap_at p) (set_resolved env p.resolution version) db.planning_gaps;
    },
  )
  require_affected affected (optimistic_lock_error "planning_gaps" p.gap_id p.expected_version none)

-- `ResolvePlanningGapHandler.execute`.
unfoldable pub resolve_planning_gap : Env → Envelope → GapPayload → M CommandResult
resolve_planning_gap env envelope p = with_claim env envelope "resolve-planning-gap" λ claim_id. do
  found ← query (λ db. find (is_gap db p) db.planning_gaps)
  gap ← require_row found
  reject_if (not (is_open_time gap.resolved_at)) (command_error "gap-already-resolved" 409)
  current ← assert_version "planning_gaps" p.gap_id (λ g. g.version) (some gap) p.expected_version
  resolve_row env p (next_version current.version)
  insert_human_approval env p.project_id none none "planning_gap_resolution" (some p.gap_id)
      "approved" envelope.actor (some p.resolution)
  event_id ←
      write_workflow_event env none (some p.project_id) "planning_gap.resolved"
        (gap_severity_value current.severity) "resolved" envelope.actor.id
  write_outbox_event env "planning_gap.resolved" (
      obj (
        field "projectId" (str p.project_id) (
          field "assessmentId" (str p.assessment_id)
            (field "gapId" (str p.gap_id) (field "resolution" (str p.resolution) end)))))
  accept env envelope claim_id "resolved" (event_id ∷ [])
