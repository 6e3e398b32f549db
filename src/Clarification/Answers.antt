-- ===== src/Clarification/Answers.antt =====
-- packages/core/src/commands/handlers/clarification/record-clarification-answer.ts.
use mini_coder.Common.{
  ℕ, Bool, true, false, ◌&&◌, Option, none, some, [], ◌∷◌, String, ◌==◌, ℕ_eq, String_eq, find,
  update_rows, count_rows,
}
use mini_coder.Domain.{clarification_status_eq, clarification_status_value, user_role_value}
use mini_coder.Auth.Redaction.{str, obj, field, end}
use mini_coder.Store.Rows.{CommandResult}
use mini_coder.Store.Clarifications.{ClarificationQuestion}
use mini_coder.Store.{
  Db, Env, command_error, optimistic_lock_error, constraint_error, ok, M, ◌>>=◌, ◌>>◌, query,
  execute,
}
use mini_coder.Command.Helpers.{
  Envelope, accept, assert_version, generate_id, next_version, reject_if, require_affected,
  with_claim, write_outbox_event, write_workflow_event,
}
use mini_coder.Clarification.{SessionPayload, load_session, require_row, has_answer}

pub record AnswerPayload : Type 0 where
  pub clarification_question_id : String
  pub clarification_session_id : String
  pub project_id : String
  pub answer : String
  pub expected_question_version : ℕ

abbrev pub session_of : AnswerPayload → SessionPayload
session_of p = record {
  clarification_session_id = p.clarification_session_id;
  project_id = p.project_id;
  expected_version = 0;
}

abbrev pub load_question : AnswerPayload → Db → Option ClarificationQuestion
load_question p db =
    find
      (λ q.
        q.id == p.clarification_question_id
        && q.clarification_session_id == p.clarification_session_id)
      db.clarification_questions

abbrev pub is_set : Option ℕ → Bool
is_set none = false
is_set (some at) = true

abbrev pub question_at : AnswerPayload → ClarificationQuestion → Bool
question_at p q = q.id == p.clarification_question_id && q.version == p.expected_question_version

abbrev set_answered : Env → ℕ → ClarificationQuestion → ClarificationQuestion
set_answered env version q = record q {
  answered_at = some env.now;
  version = version;
  updated_at = env.now;
}

abbrev pub marked : Env → AnswerPayload → ℕ → Db → Db
marked env p version db = record db {
  clarification_questions =
      update_rows (question_at p) (set_answered env version) db.clarification_questions;
}

abbrev mark_answered : Env → AnswerPayload → ℕ → M (Unit {0})
mark_answered env p version = do
  affected ←
      λ db. ok (count_rows (question_at p) db.clarification_questions, marked env p version db)
  require_affected affected (
      optimistic_lock_error "clarification_questions" p.clarification_question_id
        p.expected_question_version none)

abbrev pub add_answer : Env → Envelope → AnswerPayload → String → Db → Db
add_answer env envelope p id db = record db {
  clarification_answers =
      record {
        id = id;
        clarification_question_id = p.clarification_question_id;
        answer = p.answer;
        actor = envelope.actor.id;
        actor_role = user_role_value envelope.actor.role;
        answered_at = env.now;
      }
      ∷ db.clarification_answers;
}

-- The INSERT, with the UNIQUE constraint on the question.
abbrev pub write_answer : Env → Envelope → AnswerPayload → M (Unit {0})
write_answer env envelope p = do
  id ← generate_id env
  taken ← query (λ db. has_answer db p.clarification_question_id)
  reject_if taken (constraint_error "clarification_answers")
  execute (add_answer env envelope p id)

-- `RecordClarificationAnswerHandler.execute`.
unfoldable pub record_clarification_answer : Env → Envelope → AnswerPayload → M CommandResult
record_clarification_answer env envelope p =
    with_claim env envelope "record-clarification-answer" λ claim_id. do
      found_session ← query (load_session (session_of p))
      session ← require_row found_session
      found ← query (load_question p)
      row ← require_row found
      question ←
          assert_version "clarification_questions" p.clarification_question_id (λ q. q.version)
            (some row) p.expected_question_version
      reject_if (is_set question.answered_at) (command_error "already-answered" 409)
      mark_answered env p (next_version question.version)
      write_answer env envelope p
      event_id ←
          write_workflow_event env none (some p.project_id) "clarification.answered"
            (clarification_status_value session.status) (clarification_status_value session.status)
            envelope.actor.id
      write_outbox_event env "clarification.answered" (
          obj (
            field "clarificationQuestionId" (str p.clarification_question_id) (
              field "clarificationSessionId" (str p.clarification_session_id)
                (field "projectId" (str p.project_id) end))))
      accept env envelope claim_id (clarification_status_value session.status) (event_id ∷ [])
