-- ===== src/Store/Clarifications.antt =====
-- The tables of a clarification: 0007_clarification_sessions.sqlite.sql and the planning questions
-- of 0001_initial_schema.sqlite.sql, with the columns that the handlers read.
use mini_coder.Common.{ℕ, Option, String}
use mini_coder.Domain.{ClarificationStatus}

pub record ClarificationSession : Type 0 where
  pub id : String
  pub project_id : String
  pub status : ClarificationStatus
  pub round : ℕ
  pub max_rounds : ℕ
  pub round_timeout_at : Option ℕ
  pub version : ℕ
  pub updated_at : ℕ

pub record ClarificationQuestion : Type 0 where
  pub id : String
  pub clarification_session_id : String
  pub question : String
  pub round : ℕ
  pub order_index : ℕ
  pub asked_at : Option ℕ
  pub answered_at : Option ℕ
  pub version : ℕ
  pub updated_at : ℕ

pub record ClarificationAnswer : Type 0 where
  pub id : String
  pub clarification_question_id : String
  pub answer : String
  pub actor : String
  pub actor_role : String
  pub answered_at : ℕ

pub record ClarificationDecision : Type 0 where
  pub id : String
  pub clarification_session_id : String
  pub decision_type : String
  pub actor : String
  pub actor_role : String
  pub notes : Option String
  pub decided_at : ℕ

pub record PlanningAssessment : Type 0 where
  pub id : String
  pub project_id : String

pub record PlanningQuestion : Type 0 where
  pub id : String
  pub assessment_id : String
  pub question : String
  pub answer : Option String
  pub round : ℕ
