-- ===== src/Clarification/Commands.antt =====
-- packages/core/src/commands/handlers/clarification: the commands on a session, and their dispatch.
use mini_coder.Common.{ℕ, ◌+◌, Bool, true, Option, none, some, String, ℕ_eq, String_eq, leb, ltb}
use mini_coder.Domain.{ClarificationStatus, clarification_status_eq, clarification_status_value}
use mini_coder.Auth.Redaction.{str, num, field, end}
use mini_coder.Store.Rows.{CommandResult}
use mini_coder.Store.Clarifications.{ClarificationSession}
use mini_coder.Store.{Env, Error, command_error, M, ◌>>=◌, ◌>>◌, query, execute}
use mini_coder.Command.Helpers.{Envelope, next_version, reject_if, with_claim}
use mini_coder.Clarification.{
  SessionPayload, checked_session, set_status, set_round, move_session, require_answered,
  round_limit, write_decision, close,
}
use mini_coder.Clarification.Questions.{open_questions, ask_all}
use mini_coder.Clarification.Answers.{AnswerPayload, record_clarification_answer}

-- `StartClarificationHandler.execute`.
unfoldable pub start_clarification : Env → Envelope → SessionPayload → M CommandResult
start_clarification env envelope p = with_claim env envelope "start-clarification" λ claim_id. do
  session ← checked_session p ClarificationStatus.in_progress
  reject_if (leb session.max_rounds session.round) round_limit
  move_session p (set_round env (session.round + 1) (next_version session.version))
  questions ← query (open_questions p.project_id)
  execute (ask_all env p.clarification_session_id (session.round + 1) 0 questions)
  close env envelope p claim_id "clarification.started"
      (clarification_status_value ClarificationStatus.required)
      (clarification_status_value ClarificationStatus.in_progress)
      (field "round" (num (session.round + 1)) end)

-- `CompleteClarificationHandler.execute`.
unfoldable pub complete_clarification : Env → Envelope → SessionPayload → M CommandResult
complete_clarification env envelope p = with_claim env envelope "complete-clarification" λ claim_id.
    do
      session ← checked_session p ClarificationStatus.complete
      require_answered p session.round
      move_session p (set_status env ClarificationStatus.complete (next_version session.version))
      write_decision env envelope p "proceed" none
      close env envelope p claim_id "clarification.complete"
          (clarification_status_value ClarificationStatus.in_progress)
          (clarification_status_value ClarificationStatus.complete) end

-- `RequestAnotherClarificationRoundHandler.execute`.
unfoldable pub request_another_round : Env → Envelope → SessionPayload → M CommandResult
request_another_round env envelope p =
    with_claim env envelope "request-another-clarification-round" λ claim_id. do
      session ← checked_session p ClarificationStatus.required
      reject_if (leb session.max_rounds session.round) round_limit
      require_answered p session.round
      move_session p (set_status env ClarificationStatus.required (next_version session.version))
      close env envelope p claim_id "clarification.round_completed"
          (clarification_status_value ClarificationStatus.in_progress)
          (clarification_status_value ClarificationStatus.required)
          (field "round" (num session.round) end)

pub data BlockReason : Type 0 where
  round_limit_exceeded round_timeout : BlockReason

abbrev pub block_reason_value : BlockReason → String
block_reason_value round_limit_exceeded = "round_limit_exceeded"
block_reason_value round_timeout = "round_timeout"

abbrev pub not_reached : ℕ → Option ℕ → Bool
not_reached now none = true
not_reached now (some at) = ltb now at

-- The guard of each reason, and its error.
abbrev pub too_early : Env → BlockReason → ClarificationSession → Bool
too_early env round_limit_exceeded s = ltb s.round s.max_rounds
too_early env round_timeout s = not_reached env.now s.round_timeout_at

abbrev too_early_error : BlockReason → Error
too_early_error round_limit_exceeded = command_error "round-limit-not-exceeded" 409
too_early_error round_timeout = command_error "timeout-not-exceeded" 409

-- `BlockClarificationHandler.execute`.
unfoldable pub block_clarification : Env → Envelope → SessionPayload → BlockReason → M CommandResult
block_clarification env envelope p reason =
    with_claim env envelope "block-clarification" λ claim_id. do
      session ← checked_session p ClarificationStatus.blocked
      reject_if (too_early env reason session) (too_early_error reason)
      move_session p (set_status env ClarificationStatus.blocked (next_version session.version))
      write_decision env envelope p "block" (some (block_reason_value reason))
      close env envelope p claim_id "clarification.blocked"
          (clarification_status_value session.status)
          (clarification_status_value ClarificationStatus.blocked)
          (field "reason" (str (block_reason_value reason)) end)

pub data ClarificationCommand : Type 0 where
  do_start do_complete do_another_round : SessionPayload → ClarificationCommand
  do_block : BlockReason → SessionPayload → ClarificationCommand
  do_answer : AnswerPayload → ClarificationCommand

unfoldable pub handle_clarification : Env → Envelope → ClarificationCommand → M CommandResult
handle_clarification env envelope (do_start p) = start_clarification env envelope p
handle_clarification env envelope (do_complete p) = complete_clarification env envelope p
handle_clarification env envelope (do_another_round p) = request_another_round env envelope p
handle_clarification env envelope (do_block reason p) = block_clarification env envelope p reason
handle_clarification env envelope (do_answer p) = record_clarification_answer env envelope p
