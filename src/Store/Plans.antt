-- ===== src/Store/Plans.antt =====
-- The tables of a plan and its backlog, with the columns that the handlers read:
-- 0001_initial_schema.sqlite.sql and 0008_backlog_validation_tracking.sqlite.sql.
use mini_coder.Common.{ℕ, Option, String}
use mini_coder.Domain.{PlanState, GapSeverity}

pub record ImplementationPlan : Type 0 where
  pub id : String
  pub project_id : String
  pub assessment_id : Option String
  pub state : PlanState
  pub version : ℕ
  pub backlog_version : ℕ
  pub backlog_validated_at : Option ℕ
  pub backlog_validated_state : Option String
  pub backlog_validated_version : Option ℕ
  pub updated_at : ℕ

pub record PlanningGap : Type 0 where
  pub id : String
  pub assessment_id : String
  pub severity : GapSeverity
  pub resolution : Option String
  pub resolved_at : Option ℕ
  pub version : ℕ
  pub updated_at : ℕ

-- A row of `acceptance_criteria` or of `test_expectations`.
pub record FeatureText : Type 0 where
  pub id : String
  pub feature_request_id : String
