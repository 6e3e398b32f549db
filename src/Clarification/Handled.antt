-- ===== src/Clarification/Handled.antt =====
-- packages/core/src/commands/handlers/clarification: every command moves its session along the
-- matrix, and only where its guard holds.
use mini_coder.Common.{
  ℕ, suc, ◌+◌, ◌≡◌, refl, sym, subst, inl, inr, not, Option, none, some, List, [], ◌∷◌, String,
  arith, leb, count_rows, ◌==◌, String_eq, ℕ_eq, Bool-cases,
}
use mini_coder.Domain.{ClarificationStatus}
use mini_coder.Store.Rows.{CommandResult}
use mini_coder.Store.Clarifications.{PlanningQuestion}
use mini_coder.Store.{
  Db, Env, Error, constraint_error, optimistic_lock_error, Result, err, M, ◌>>=◌, ◌>>◌,
}
use mini_coder.Command.Helpers.{Envelope, assert_version, next_version}
use mini_coder.Command.Claims.{with_keys}
use mini_coder.Clarification.{
  has_answer, SessionPayload, load_session, require_row, set_round, set_status,
}
use mini_coder.Clarification.Answers.{
  add_answer, marked, is_set, load_question, question_at, session_of, AnswerPayload,
  record_clarification_answer, write_answer,
}
use mini_coder.Clarification.Commands.{
  BlockReason, ClarificationCommand, block_clarification, complete_clarification,
  handle_clarification, request_another_round, start_clarification, too_early,
}
use mini_coder.Clarification.Questions.{ask, ask_all}
use mini_coder.Clarification.Moves.{
  Moved, MovedSession, with_claim-Moved, checked_session_cases, move_session_cases,
  no_questions_left, reject_if_cases,
}

-- The questions of a round are none of the sessions' table.
pub ask_all-clarification_sessions :
    (env : Env) (id : String) (round i : ℕ) (qs : List PlanningQuestion) (db : Db)
    → (ask_all env id round i qs db).clarification_sessions ≡ db.clarification_sessions
unfolding ask_all
ask_all-clarification_sessions env id round i [] db = refl
ask_all-clarification_sessions env id round i (q ∷ qs) db =
    ask_all-clarification_sessions env id round (i + 1) qs (ask env id round i q db)

module _ (env : Env) (envelope : Envelope) (p : SessionPayload) (db : Db) where
  start_clarification-Moved :
      Moved env envelope
        (ClarificationCommand.do_start p)
        db
        (start_clarification env envelope p db)
  unfolding start_clarification
  start_clarification-Moved =
      let command = ClarificationCommand.do_start p in
      with_claim-Moved env envelope command _ db λ claim_id rows.
        (let db' = with_keys db rows in
          let P = MovedSession env command db' in
          checked_session_cases P (λ e. tt) db' p ClarificationStatus.in_progress _
            λ s found may.
              reject_if_cases P (λ e. tt) db' (leb s.max_rounds s.round) _ _
                λ more.
                  move_session_cases P (λ e. tt) db' p
                    (set_round env (s.round + 1) (next_version s.version)) _
                    (record {
                      session = s;
                      found = found;
                      may = may;
                      guarded = rw more refl;
                      moved =
                          ask_all-clarification_sessions env p.clarification_session_id
                            (s.round + 1) 0 _ _;
                    }))

  complete_clarification-Moved :
      Moved env envelope
        (ClarificationCommand.do_complete p)
        db
        (complete_clarification env envelope p db)
  unfolding complete_clarification
  complete_clarification-Moved =
      let command = ClarificationCommand.do_complete p in
      with_claim-Moved env envelope command _ db λ claim_id rows.
        (let db' = with_keys db rows in
          let P = MovedSession env command db' in
          checked_session_cases P (λ e. tt) db' p ClarificationStatus.complete _
            λ s found may.
              reject_if_cases P (λ e. tt) db' (not (no_questions_left p db' s)) _ _
                λ none_left.
                  move_session_cases P (λ e. tt) db' p
                    (set_status env ClarificationStatus.complete (next_version s.version)) _
                    (record {
                      session = s;
                      found = found;
                      may = may;
                      guarded = ground (arith, none_left);
                      moved = refl;
                    }))

  request_another_round-Moved :
      Moved env envelope
        (ClarificationCommand.do_another_round p)
        db
        (request_another_round env envelope p db)
  unfolding request_another_round
  request_another_round-Moved =
      let command = ClarificationCommand.do_another_round p in
      with_claim-Moved env envelope command _ db λ claim_id rows.
        (let db' = with_keys db rows in
          let P = MovedSession env command db' in
          checked_session_cases P (λ e. tt) db' p ClarificationStatus.required _
            λ s found may.
              reject_if_cases P (λ e. tt) db' (leb s.max_rounds s.round) _ _
                λ more.
                  reject_if_cases P (λ e. tt) db' (not (no_questions_left p db' s)) _ _
                    λ none_left.
                      move_session_cases P (λ e. tt) db' p
                        (set_status env ClarificationStatus.required (next_version s.version)) _
                        (record {
                          session = s;
                          found = found;
                          may = may;
                          guarded = ground (arith, more, none_left);
                          moved = refl;
                        }))

  block_clarification-Moved :
      (reason : BlockReason)
      → Moved env envelope
          (ClarificationCommand.do_block reason p)
          db
          (block_clarification env envelope p reason db)
  unfolding block_clarification
  block_clarification-Moved reason =
      let command = ClarificationCommand.do_block reason p in
      with_claim-Moved env envelope command _ db λ claim_id rows.
        (let db' = with_keys db rows in
          let P = MovedSession env command db' in
          checked_session_cases P (λ e. tt) db' p ClarificationStatus.blocked _
            λ s found may.
              reject_if_cases P (λ e. tt) db' (too_early env reason s) _ _
                λ in_time.
                  move_session_cases P (λ e. tt) db' p
                    (set_status env ClarificationStatus.blocked (next_version s.version)) _
                    (record {
                      session = s;
                      found = found;
                      may = may;
                      guarded = rw in_time refl;
                      moved = refl;
                    }))

-- The other steps of an answer.
module _ (P : Result (CommandResult × Db) → Type 0) (throws : (e : Error) → P (err e))
    (db : Db) where
  require_row_cases :
      {A : Type 0} (o : Option A) (k : A → M CommandResult)
      → ((a : A) → P (k a db))
      → P ((require_row o >>= k) db)
  require_row_cases none k h = throws _
  require_row_cases (some a) k h = h a

  assert_version_cases :
      {A : Type 0} (table id : String) (version : A → ℕ) (a : A) (n : ℕ) (k : A → M CommandResult)
      → P (k a db)
      → P ((assert_version table id version (some a) n >>= k) db)
  assert_version_cases table id version a n k h = elim (Bool-cases (version a == n)) [
    | inl current ↦
        let e : (assert_version table id version (some a) n >>= k) db ≡ k a db = rw current refl in
        subst P (sym e) h
    | inr stale ↦
        let e : (assert_version table id version (some a) n >>= k) db
            ≡ err (optimistic_lock_error table id n (some (version a))) =
          rw stale refl in
        subst P (sym e) (throws _)
  ]

  write_answer_cases :
      (env : Env) (envelope : Envelope) (p : AnswerPayload) (k : M CommandResult)
      → P (
          k (
            add_answer env envelope p
              (env.new_id db.ids_drawn)
              (record db { ids_drawn = suc db.ids_drawn })))
      → P ((write_answer env envelope p >> k) db)
  write_answer_cases env envelope p k h =
      let db' =
        add_answer env envelope p (env.new_id db.ids_drawn)
          (record db { ids_drawn = suc db.ids_drawn }) in
      elim (Bool-cases (has_answer db p.clarification_question_id)) [
        | inl taken ↦
            let e : (write_answer env envelope p >> k) db
                ≡ err (constraint_error "clarification_answers") =
              ground (arith, taken) in
            subst P (sym e) (throws _)
        | inr fresh ↦
            let e : (write_answer env envelope p >> k) db ≡ k db' = ground (arith, fresh) in
            subst P (sym e) h
      ]

record_clarification_answer-Moved :
    (env : Env) (envelope : Envelope) (p : AnswerPayload) (db : Db)
    → Moved env envelope
        (ClarificationCommand.do_answer p)
        db
        (record_clarification_answer env envelope p db)
unfolding record_clarification_answer
record_clarification_answer-Moved env envelope p db =
    with_claim-Moved env envelope (ClarificationCommand.do_answer p) _ db λ claim_id rows.
      let db' = with_keys db rows in
      let P = MovedSession env (ClarificationCommand.do_answer p) db' in
      require_row_cases P (λ e. tt) db' (load_session (session_of p) db') _
        λ session.
          require_row_cases P (λ e. tt) db' (load_question p db') _
            λ q.
              assert_version_cases P (λ e. tt) db' "clarification_questions"
                p.clarification_question_id (λ r. r.version) q p.expected_question_version _
                (reject_if_cases P (λ e. tt) db' (is_set q.answered_at) _ _
                  λ free.
                    let db'' = marked env p (next_version q.version) db' in
                    reject_if_cases P (λ e. tt) db''
                      (count_rows (question_at p) db.clarification_questions == 0) _ _
                      λ touched. write_answer_cases P (λ e. tt) db'' env envelope p _ refl)

-- A clarification command that returns either returns the result cached under its key and leaves the
-- sessions as they were; or records an answer, and leaves them too; or found its session at the
-- expected version, with an edge of the matrix to the command's target, and moved that session, one
-- version up. A start had rounds left and counts one more; a completion found no unanswered question
-- of the round; another round had both; a block came after the last round, or after the round's
-- timeout, as its reason says.
pub handle_clarification-Moved :
    (env : Env) (envelope : Envelope) (command : ClarificationCommand) (db : Db)
    → Moved env envelope command db (handle_clarification env envelope command db)
unfolding handle_clarification
handle_clarification-Moved env envelope (ClarificationCommand.do_start p) db =
    start_clarification-Moved env envelope p db
handle_clarification-Moved env envelope (ClarificationCommand.do_complete p) db =
    complete_clarification-Moved env envelope p db
handle_clarification-Moved env envelope (ClarificationCommand.do_another_round p) db =
    request_another_round-Moved env envelope p db
handle_clarification-Moved env envelope (ClarificationCommand.do_block reason p) db =
    block_clarification-Moved env envelope p db reason
handle_clarification-Moved env envelope (ClarificationCommand.do_answer p) db =
    record_clarification_answer-Moved env envelope p db
