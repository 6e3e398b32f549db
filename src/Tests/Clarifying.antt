-- ===== src/Tests/Clarifying.antt =====
-- A session of clarification with one open planning question.
use mini_coder.Common.{ℕ, ◌≡◌, refl, none, List, [], ◌∷◌, String}
use mini_coder.Domain.{ClarificationStatus, UserRole, clarification_status_value}
use mini_coder.Machine.Defs.{assert_valid, lookup}
use mini_coder.Auth.Guards.{ActorKind}
use mini_coder.Store.Clarifications.{ClarificationSession}
use mini_coder.Store.{Db}
use mini_coder.Command.Helpers.{with_claim, claim_idempotency_key}
use mini_coder.Command.Text.{to_text}
use mini_coder.Clarification.{SessionPayload}
use mini_coder.Clarification.Answers.{AnswerPayload, record_clarification_answer}
use mini_coder.Clarification.Commands.{
  ClarificationCommand, complete_clarification, handle_clarification, start_clarification,
}
use mini_coder.Clarification.Questions.{ask_all, by_round, insert_question}
use mini_coder.Clarification.Moves.{Moved}
use mini_coder.Clarification.Handled.{handle_clarification-Moved}
use mini_coder.Clarification.Rounds.{
  Sent, SessionsAdvance, exec_clarifications, exec_clarifications-SessionsAdvance,
}
use mini_coder.Clarification.Asking.{Asked, start_clarification-Asked}
use mini_coder.Tests.Data.{actor_of, escalated, sample_env, sent}

abbrev unclear : Db
unclear = record escalated {
  clarification_sessions =
      (record {
        id = "session";
        project_id = "project";
        status = ClarificationStatus.required;
        round = 0;
        max_rounds = 3;
        round_timeout_at = none;
        version = 1;
        updated_at = 0;
      })
      ∷ [];
  planning_assessments = (record { id = "assessment"; project_id = "project" }) ∷ [];
  planning_questions =
      (record {
        id = "question";
        assessment_id = "assessment";
        question = "Which database?";
        answer = none;
        round = 1;
      })
      ∷ [];
}

abbrev payload_at : ℕ → SessionPayload
payload_at n = record {
  clarification_session_id = "session";
  project_id = "project";
  expected_version = n;
}

abbrev answer : AnswerPayload
answer = record {
  clarification_question_id = "id-1";
  clarification_session_id = "session";
  project_id = "project";
  answer = "SQLite";
  expected_question_version = 1;
}

abbrev send : String → ClarificationCommand → Sent
send key command = record {
  env = sample_env;
  envelope = sent key (actor_of UserRole.operator ActorKind.human) none;
  command = command;
}

abbrev statuses : List ClarificationSession → List String
statuses [] = []
statuses (s ∷ ss) = clarification_status_value s.status ∷ statuses ss

-- The session is not complete before its question is answered.
unanswered_test :
    statuses
      (exec_clarifications
        (send "start" (ClarificationCommand.do_start (payload_at 1))
          ∷ (send "complete" (ClarificationCommand.do_complete (payload_at 2)) ∷ []))
        unclear).clarification_sessions
    ≡ "clarification_in_progress" ∷ []
unfolding handle_clarification start_clarification complete_clarification with_claim
    claim_idempotency_key assert_valid lookup ask_all by_round insert_question to_text
    clarification_status_value
unanswered_test = refl

abbrev whole_round : List Sent
whole_round =
    send "start" (ClarificationCommand.do_start (payload_at 1))
    ∷ (send "answer" (ClarificationCommand.do_answer answer)
        ∷ (send "complete" (ClarificationCommand.do_complete (payload_at 2)) ∷ []))

answered_test :
    statuses (exec_clarifications whole_round unclear).clarification_sessions
    ≡ "clarification_complete" ∷ []
unfolding handle_clarification start_clarification complete_clarification
    record_clarification_answer with_claim claim_idempotency_key assert_valid lookup ask_all
    by_round insert_question to_text clarification_status_value
answered_test = refl

exec_clarifications-SessionsAdvance_example :
    SessionsAdvance unclear (exec_clarifications whole_round unclear)
exec_clarifications-SessionsAdvance_example =
    exec_clarifications-SessionsAdvance whole_round unclear (tt, tt)

abbrev first : Sent
first = send "start" (ClarificationCommand.do_start (payload_at 1))

handle_clarification-Moved_example :
    Moved sample_env first.envelope first.command unclear
      (handle_clarification sample_env first.envelope first.command unclear)
handle_clarification-Moved_example =
    handle_clarification-Moved sample_env first.envelope
      (ClarificationCommand.do_start (payload_at 1)) unclear

start_clarification-Asked_example :
    Asked sample_env first.envelope
      (payload_at 1)
      unclear
      (start_clarification sample_env first.envelope (payload_at 1) unclear)
start_clarification-Asked_example =
    start_clarification-Asked sample_env first.envelope (payload_at 1) unclear
