-- ===== src/Clarification/Moves.antt =====
-- packages/core/src/commands/handlers/clarification: what a command that returns has found and done.
use mini_coder.Common.{
  List, String, ◌∙◌, ◌+◌, ◌≡◌, refl, sym, subst, ◌⊎◌, inl, inr, Bool, true, false, not, ◌&&◌,
  Option, none, some, arith, leb, update_rows, count_rows, ◌==◌, String_eq, ℕ_eq, Option-cases,
  Bool-cases,
}
use mini_coder.Domain.{ClarificationStatus, clarification_status_eq, clarification_status_value}
use mini_coder.Machine.Defs.{assert_valid, is_valid, lookup}
use mini_coder.Machine.Lifecycle.{clarification_matrix}
use mini_coder.Store.Rows.{CommandResult, IdempotencyKey}
use mini_coder.Store.Clarifications.{ClarificationSession}
use mini_coder.Store.{
  Db, Env, Error, optimistic_lock_error, transition_error as invalid_transition, Result, ok, err, M,
  ◌>>=◌, ◌>>◌,
}
use mini_coder.Command.Helpers.{Envelope, reject_if, with_claim}
use mini_coder.Command.Claims.{cached_result, with_keys, with_claim_replays}
use mini_coder.Handlers.Steps.{is_empty, not_found}
use mini_coder.Clarification.{
  SessionPayload, checked_session, load_session, move_session, session_at, set_round, set_status,
  unanswered,
}
use mini_coder.Clarification.Commands.{ClarificationCommand, too_early}

-- A session that a command may move to a status.
abbrev pub may_move_to : SessionPayload → ClarificationStatus → ClarificationSession → Bool
may_move_to p to s = s.version == p.expected_version && is_valid clarification_matrix s.status to

checked_session_equation :
    (p : SessionPayload) (to : ClarificationStatus) (k : ClarificationSession → M CommandResult)
    (db : Db)
    → ((s : ClarificationSession) × (load_session p db ≡ some s)
        × (may_move_to p to s ≡ true)
        × ((checked_session p to >>= k) db ≡ k s db))
      ⊎ ((e : Error) × ((checked_session p to >>= k) db ≡ err e))
unfolding assert_valid is_valid
checked_session_equation p to k db = elim (Option-cases (load_session p db)) [
  | inl missing ↦ inr (not_found, ground arith)
  | inr (s, found) ↦ elim (Bool-cases (s.version == p.expected_version)) [
    | inr stale ↦ inr (
      optimistic_lock_error "clarification_sessions" p.clarification_session_id p.expected_version
          (some s.version),
      ground (arith, found, stale),
    )
    | inl current ↦ elim (Option-cases (lookup clarification_matrix s.status to)) [
      | inl refused ↦ inr (
        invalid_transition "clarification" (clarification_status_value s.status)
            (clarification_status_value to),
        ground (arith, found, current, refused),
      )
      | inr (r, edge) ↦
          inl (s, found, ground (arith, current, edge), ground (arith, found, current, edge))
    ]
  ]
]

abbrev pub moved_sessions : SessionPayload → (ClarificationSession → ClarificationSession) → Db → Db
moved_sessions p f db = record db {
  clarification_sessions = update_rows (session_at p) f db.clarification_sessions;
}

move_session_equation :
    (p : SessionPayload) (f : ClarificationSession → ClarificationSession) (k : M CommandResult)
    (db : Db)
    → ((move_session p f >> k) db ≡ k (moved_sessions p f db))
      ⊎ ((e : Error) × ((move_session p f >> k) db ≡ err e))
move_session_equation p f k db =
    elim (Bool-cases (count_rows (session_at p) db.clarification_sessions == 0)) [
      | inl untouched ↦ inr (
        optimistic_lock_error "clarification_sessions" p.clarification_session_id p.expected_version
            none,
        ground (arith, untouched),
      )
      | inr touched ↦ inl (ground (arith, touched))
    ]

-- The steps of a handler, one by one: what holds of every error and of what follows holds of all.
module _ {ℓ} (P : Result (CommandResult × Db) → Type ℓ) (throws : (e : Error) → P (err e))
    (db : Db) where
  pub reject_if_cases :
      (b : Bool) (e : Error) (k : M CommandResult)
      → (b ≡ false → P (k db))
      → P ((reject_if b e >> k) db)
  reject_if_cases true e k h = throws e
  reject_if_cases false e k h = h refl

  pub checked_session_cases :
      (p : SessionPayload) (to : ClarificationStatus) (k : ClarificationSession → M CommandResult)
      → ((s : ClarificationSession)
          → load_session p db ≡ some s
          → may_move_to p to s ≡ true
          → P (k s db))
      → P ((checked_session p to >>= k) db)
  checked_session_cases p to k h = elim (checked_session_equation p to k db) [
    | inl (s, found, may, e) ↦ subst P (sym e) (h s found may)
    | inr (error, e) ↦ subst P (sym e) (throws error)
  ]

  pub move_session_cases :
      (p : SessionPayload) (f : ClarificationSession → ClarificationSession) (k : M CommandResult)
      → P (k (moved_sessions p f db))
      → P ((move_session p f >> k) db)
  move_session_cases p f k h = elim (move_session_equation p f k db) [
    | inl e ↦ subst P (sym e) h
    | inr (error, e) ↦ subst P (sym e) (throws error)
  ]

-- What each command asks of the session, besides the edge, and what it makes of it.
abbrev pub target_of : ClarificationCommand → Option (SessionPayload × ClarificationStatus)
target_of (ClarificationCommand.do_start p) = some (p, ClarificationStatus.in_progress)
target_of (ClarificationCommand.do_complete p) = some (p, ClarificationStatus.complete)
target_of (ClarificationCommand.do_another_round p) = some (p, ClarificationStatus.required)
target_of (ClarificationCommand.do_block reason p) = some (p, ClarificationStatus.blocked)
target_of (ClarificationCommand.do_answer p) = none

abbrev pub no_questions_left : SessionPayload → Db → ClarificationSession → Bool
no_questions_left p db s = is_empty (unanswered p.clarification_session_id s.round db)

abbrev pub has_rounds : ClarificationSession → Bool
has_rounds s = not (leb s.max_rounds s.round)

abbrev pub guard_of : Env → ClarificationCommand → Db → ClarificationSession → Bool
guard_of env (ClarificationCommand.do_start p) db s = has_rounds s
guard_of env (ClarificationCommand.do_complete p) db s = no_questions_left p db s
guard_of env (ClarificationCommand.do_another_round p) db s =
    has_rounds s && no_questions_left p db s
guard_of env (ClarificationCommand.do_block reason p) db s = not (too_early env reason s)
guard_of env (ClarificationCommand.do_answer p) db s = true

abbrev pub change_of :
    Env → ClarificationCommand → ClarificationSession → ClarificationSession → ClarificationSession
change_of env (ClarificationCommand.do_start p) s = set_round env (s.round + 1) (s.version + 1)
change_of env (ClarificationCommand.do_complete p) s =
    set_status env ClarificationStatus.complete (s.version + 1)
change_of env (ClarificationCommand.do_another_round p) s =
    set_status env ClarificationStatus.required (s.version + 1)
change_of env (ClarificationCommand.do_block reason p) s =
    set_status env ClarificationStatus.blocked (s.version + 1)
change_of env (ClarificationCommand.do_answer p) s = λ row. row

-- The session that a command moved.
pub record MovedBy (env : Env) (command : ClarificationCommand) (p : SessionPayload)
    (to : ClarificationStatus) (db db' : Db) : Type 0 where
  pub session : ClarificationSession
  pub found : load_session p db ≡ some session
  pub may : may_move_to p to session ≡ true
  pub guarded : guard_of env command db session ≡ true
  pub moved :
      db'.clarification_sessions
      ≡ update_rows (session_at p) (change_of env command session) db.clarification_sessions

-- A command that has moved its session; an answer moves none.
abbrev pub MovedSession : Env → ClarificationCommand → Db → Result (CommandResult × Db) → Type 0
MovedSession env command db (err e) = Unit
MovedSession env command db (ok (result, db')) = elim (target_of command) [
  | none ↦ db'.clarification_sessions ≡ db.clarification_sessions
  | some (p, to) ↦ MovedBy env command p to db db'
]

abbrev pub scope_of : ClarificationCommand → String
scope_of (ClarificationCommand.do_start p) = "start-clarification"
scope_of (ClarificationCommand.do_complete p) = "complete-clarification"
scope_of (ClarificationCommand.do_another_round p) = "request-another-clarification-round"
scope_of (ClarificationCommand.do_block reason p) = "block-clarification"
scope_of (ClarificationCommand.do_answer p) = "record-clarification-answer"

-- What a command that returns has done to the sessions.
abbrev pub Moved : Env → Envelope → ClarificationCommand → Db → Result (CommandResult × Db) → Type 0
Moved env envelope command db (err e) = Unit
Moved env envelope command db (ok (result, db')) =
    ((cached_result env envelope (scope_of command) db ≡ some result)
      × (db'.clarification_sessions ≡ db.clarification_sessions))
    ⊎ MovedSession env command db (ok (result, db'))

-- The claim of the slot is no part of the move.
guard_of-with_keys :
    (env : Env) (command : ClarificationCommand) (db : Db) (rows : List IdempotencyKey)
    (s : ClarificationSession)
    → guard_of env command (with_keys db rows) s ≡ guard_of env command db s
guard_of-with_keys env (ClarificationCommand.do_start p) db rows s = refl
guard_of-with_keys env (ClarificationCommand.do_complete p) db rows s = refl
guard_of-with_keys env (ClarificationCommand.do_another_round p) db rows s = refl
guard_of-with_keys env (ClarificationCommand.do_block reason p) db rows s = refl
guard_of-with_keys env (ClarificationCommand.do_answer p) db rows s = refl

MovedBy-with_keys :
    (env : Env) (command : ClarificationCommand) (p : SessionPayload) (to : ClarificationStatus)
    (db : Db) (rows : List IdempotencyKey) (db' : Db)
    → MovedBy env command p to (with_keys db rows) db'
    → MovedBy env command p to db db'
MovedBy-with_keys env command p to db rows db' m = record {
  session = m.session;
  found = m.found;
  may = m.may;
  guarded = sym (guard_of-with_keys env command db rows m.session) ∙ m.guarded;
  moved = m.moved;
}

claimed :
    (env : Env) (envelope : Envelope) (command : ClarificationCommand) (db : Db)
    (rows : List IdempotencyKey) (r : Result (CommandResult × Db))
    → MovedSession env command (with_keys db rows) r
    → Moved env envelope command db r
claimed env envelope command db rows (err e) h = tt
claimed env envelope (ClarificationCommand.do_start p) db rows (ok (result, db')) m =
    inr (MovedBy-with_keys env _ p _ db rows db' m)
claimed env envelope (ClarificationCommand.do_complete p) db rows (ok (result, db')) m =
    inr (MovedBy-with_keys env _ p _ db rows db' m)
claimed env envelope (ClarificationCommand.do_another_round p) db rows (ok (result, db')) m =
    inr (MovedBy-with_keys env _ p _ db rows db' m)
claimed env envelope (ClarificationCommand.do_block reason p) db rows (ok (result, db')) m =
    inr (MovedBy-with_keys env _ p _ db rows db' m)
claimed env envelope (ClarificationCommand.do_answer p) db rows (ok (result, db')) same = inr same

pub with_claim-Moved :
    (env : Env) (envelope : Envelope) (command : ClarificationCommand)
    (body : String → M CommandResult) (db : Db)
    → ((claim_id : String) (rows : List IdempotencyKey)
        → MovedSession env command (with_keys db rows) (body claim_id (with_keys db rows)))
    → Moved env envelope command db (with_claim env envelope (scope_of command) body db)
with_claim-Moved env envelope command body db h =
    with_claim_replays (Moved env envelope command db) env envelope _ _ db tt
      (λ result rows cached. inl (cached, refl))
      (λ claim_id rows. claimed env envelope command db rows _ (h claim_id rows))
