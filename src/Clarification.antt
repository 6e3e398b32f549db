-- ===== src/Clarification.antt =====
-- packages/core/src/commands/handlers/clarification: asking the operator about a specification, in
-- rounds of questions.
pub mod Questions
pub mod Answers
pub mod Commands
pub mod Moves
pub mod Handled
pub mod Rounds
pub mod Choosing
pub mod Asking
use mini_coder.Common.{
  ℕ, zero, suc, ◌+◌, Bool, true, false, not, ◌&&◌, ◌||◌, Option, none, some, List, [], ◌∷◌, String,
  ◌==◌, ℕ_eq, String_eq, any, find, leb, ltb, where_rows, update_rows, count_rows, take,
  if◌then◌else◌,
}
use mini_coder.Domain.{
  ClarificationStatus, clarification_status_eq, clarification_status_value, user_role_value,
}
use mini_coder.Auth.Redaction.{Json, Fields, str, num, obj, field, end, codes}
use mini_coder.Machine.Defs.{valid, transition_error, assert_valid}
use mini_coder.Machine.Lifecycle.{clarification_matrix}
use mini_coder.Store.Rows.{CommandResult}
use mini_coder.Store.Clarifications.{
  ClarificationSession, ClarificationQuestion, ClarificationAnswer, ClarificationDecision,
  PlanningQuestion,
}
use mini_coder.Store.{
  Db, Env, Error, command_error, optimistic_lock_error, constraint_error,
  transition_error as invalid_transition, ok, M, pure, throw, ◌>>=◌, ◌>>◌, query, execute,
}
use mini_coder.Command.Helpers.{
  Envelope, accept, assert_version, generate_id, next_version, reject_if, require_affected,
  with_claim, write_outbox_event, write_workflow_event,
}
use mini_coder.Handlers.Steps.{is_empty, not_found}

-- What the commands on a session carry.
pub record SessionPayload : Type 0 where
  pub clarification_session_id : String
  pub project_id : String
  pub expected_version : ℕ

abbrev pub is_session : SessionPayload → ClarificationSession → Bool
is_session p s = s.id == p.clarification_session_id && s.project_id == p.project_id

abbrev pub load_session : SessionPayload → Db → Option ClarificationSession
load_session p db = find (is_session p) db.clarification_sessions

-- A row that must be there.
abbrev pub require_row : {A : Type 0} → Option A → M A
require_row none = throw not_found
require_row (some row) = pure row

-- `validator.assertValid` of the clarification machine.
abbrev pub assert_clarification : ClarificationStatus → ClarificationStatus → M (Unit {0})
assert_clarification from to = elim (assert_valid clarification_matrix from to) [
  | valid r ↦ pure tt
  | transition_error f t ↦ throw (
      invalid_transition "clarification" (clarification_status_value f)
        (clarification_status_value t))
]

-- The row, its version and the edge, checked before anything is written.
abbrev pub checked_session : SessionPayload → ClarificationStatus → M ClarificationSession
checked_session p to = do
  found ← query (load_session p)
  row ← require_row found
  session ←
      assert_version "clarification_sessions" p.clarification_session_id (λ s. s.version) (some row)
        p.expected_version
  assert_clarification session.status to
  pure session

-- `WHERE id = ? AND version = ?`.
abbrev pub session_at : SessionPayload → ClarificationSession → Bool
session_at p s = s.id == p.clarification_session_id && s.version == p.expected_version

abbrev pub set_status : Env → ClarificationStatus → ℕ → ClarificationSession → ClarificationSession
set_status env to version s = record s { status = to; version = version; updated_at = env.now }

-- The update of a start, which also counts the round.
abbrev pub set_round : Env → ℕ → ℕ → ClarificationSession → ClarificationSession
set_round env round version s = record (set_status env ClarificationStatus.in_progress version s) {
  round = round;
}

abbrev pub move_session :
    SessionPayload → (ClarificationSession → ClarificationSession) → M (Unit {0})
move_session p f = do
  affected ← λ db. ok (
    count_rows (session_at p) db.clarification_sessions,
    record db { clarification_sessions = update_rows (session_at p) f db.clarification_sessions },
  )
  require_affected affected (
      optimistic_lock_error "clarification_sessions" p.clarification_session_id p.expected_version
        none)

-- `NOT EXISTS (SELECT 1 FROM clarification_answers …)`.
abbrev pub has_answer : Db → String → Bool
has_answer db id = any (λ a. a.clarification_question_id == id) db.clarification_answers

abbrev pub unanswered : String → ℕ → Db → List ClarificationQuestion
unanswered id round db =
    where_rows
      (λ q. q.clarification_session_id == id && (q.round == round && not (has_answer db q.id)))
      db.clarification_questions

abbrev pub require_answered : SessionPayload → ℕ → M (Unit {0})
require_answered p round = do
  left ← query (unanswered p.clarification_session_id round)
  reject_if (not (is_empty left)) (command_error "unanswered-questions" 409)

abbrev pub round_limit : Error
round_limit = command_error "clarification-round-limit" 409

abbrev pub write_decision : Env → Envelope → SessionPayload → String → Option String → M (Unit {0})
write_decision env envelope p decision_type notes = do
  id ← generate_id env
  execute λ db. record db {
    clarification_decisions =
        record {
          id = id;
          clarification_session_id = p.clarification_session_id;
          decision_type = decision_type;
          actor = envelope.actor.id;
          actor_role = user_role_value envelope.actor.role;
          notes = notes;
          decided_at = env.now;
        }
        ∷ db.clarification_decisions;
  }

abbrev pub session_payload : SessionPayload → Fields → Json
session_payload p more = obj (
    field "clarificationSessionId" (str p.clarification_session_id)
      (field "projectId" (str p.project_id) more))

-- The two events and the result.
abbrev pub close :
    Env → Envelope → SessionPayload → String → String → String → String → Fields → M CommandResult
close env envelope p claim_id event_type from to more = do
  event_id ← write_workflow_event env none (some p.project_id) event_type from to envelope.actor.id
  write_outbox_event env event_type (session_payload p more)
  accept env envelope claim_id to (event_id ∷ [])
