-- ===== src/Clarification/Asking.antt =====
-- packages/core/src/commands/handlers/clarification/start-clarification.ts: the questions of a new
-- round.
use mini_coder.Common.{
  false, ℕ, ap, map, ◌+◌, ◌≡◌, refl, ◌∙◌, ◌⊎◌, inl, inr, none, some, List, [], ◌∷◌, ◌++◌, String,
  All, leb, where_rows,
}
use mini_coder.Domain.{ClarificationStatus}
use mini_coder.Store.Rows.{CommandResult, IdempotencyKey}
use mini_coder.Store.Clarifications.{ClarificationQuestion, ClarificationSession, PlanningQuestion}
use mini_coder.Store.{Db, Env, Result, ok, err}
use mini_coder.Command.Helpers.{Envelope, next_version}
use mini_coder.Command.Claims.{cached_result, with_keys, with_claim_replays}
use mini_coder.Clarification.{SessionPayload, load_session, set_round}
use mini_coder.Clarification.Commands.{start_clarification}
use mini_coder.Clarification.Questions.{ask, ask_all, is_open, open_questions}
use mini_coder.Clarification.Moves.{
  checked_session_cases, move_session_cases, moved_sessions, reject_if_cases,
}
use mini_coder.Clarification.Choosing.{IsChoice, open_questions-IsChoice}

abbrev pub reversed : List String → List String
reversed [] = []
reversed (t ∷ ts) = reversed ts ++ (t ∷ [])

-- A question of a round that waits for its answer.
abbrev pub IsAsked : String → ℕ → ClarificationQuestion → Type 0
IsAsked session_id round q =
    (q.clarification_session_id ≡ session_id) × (q.round ≡ round) × (q.answered_at ≡ none)

-- The new questions of a round, before the old ones, the last first: each has the text of one of
-- the planning questions.
pub record Added (session_id : String) (round : ℕ) (qs : List PlanningQuestion)
    (old new : List ClarificationQuestion) : Type 0 where
  pub added : List ClarificationQuestion
  pub before : new ≡ added ++ old
  pub texts : map (λ c. c.question) added ≡ reversed (map (λ q. q.question) qs)
  pub asked : All (IsAsked session_id round) added

append_one {ℓ} :
    {A : Type ℓ} (xs : List A) (x : A) (ys : List A) → xs ++ (x ∷ ys) ≡ (xs ++ (x ∷ [])) ++ ys
append_one [] x ys = refl
append_one (z ∷ xs) x ys = rw (append_one xs x ys) refl

All-append_one {ℓ κ} :
    {A : Type ℓ} (P : A → Type κ) (xs : List A) (x : A) → All P xs → P x → All P (xs ++ (x ∷ []))
All-append_one P [] x h p = (p, tt)
All-append_one P (z ∷ xs) x h p = (h.0, All-append_one P xs x h.1 p)

map-append_one :
    {A : Type 0} {B : Type 0} (f : A → B) (xs : List A) (x : A)
    → map f (xs ++ (x ∷ [])) ≡ map f xs ++ (f x ∷ [])
map-append_one f [] x = refl
map-append_one f (z ∷ xs) x = ap (λ ys. f z ∷ ys) (map-append_one f xs x)

ask_all-Added :
    (env : Env) (id : String) (round i : ℕ) (qs : List PlanningQuestion) (db : Db)
    → Added id round qs db.clarification_questions
        (ask_all env id round i qs db).clarification_questions
unfolding ask_all
ask_all-Added env id round i [] db = record { added = []; before = refl; texts = refl; asked = tt }
ask_all-Added env id round i (q ∷ qs) db =
    let rest = ask_all-Added env id round (i + 1) qs (ask env id round i q db) in
    let first = new_question in
    record {
      added = rest.added ++ (first ∷ []);
      before = rest.before ∙ append_one rest.added first db.clarification_questions;
      texts =
          map-append_one (λ c. c.question) rest.added first
          ∙ ap (λ ts. ts ++ (q.question ∷ [])) rest.texts;
      asked = All-append_one _ rest.added first rest.asked (refl, refl, refl);
    }
  where
    new_question : ClarificationQuestion
    new_question = record {
      id = env.new_id db.ids_drawn;
      clarification_session_id = id;
      question = q.question;
      round = round;
      order_index = i;
      asked_at = some env.now;
      answered_at = none;
      version = 1;
      updated_at = env.now;
    }

-- A start that has asked a round.
abbrev pub AskedRound : SessionPayload → Db → Result (CommandResult × Db) → Type 0
AskedRound p db (err e) = Unit
AskedRound p db (ok (result, db')) =
    (s : ClarificationSession) × (load_session p db ≡ some s)
    × (leb s.max_rounds s.round ≡ false)
    × (asked : List PlanningQuestion) × IsChoice
        (where_rows (is_open p.project_id db) db.planning_questions) asked
    × Added p.clarification_session_id (s.round + 1) asked db.clarification_questions
        db'.clarification_questions

-- What a start that returns has done to the questions.
abbrev pub Asked : Env → Envelope → SessionPayload → Db → Result (CommandResult × Db) → Type 0
Asked env envelope p db (err e) = Unit
Asked env envelope p db (ok (result, db')) =
    ((cached_result env envelope "start-clarification" db ≡ some result)
      × (db'.clarification_questions ≡ db.clarification_questions))
    ⊎ AskedRound p db (ok (result, db'))

claimed :
    (env : Env) (envelope : Envelope) (p : SessionPayload) (db : Db) (rows : List IdempotencyKey)
    (r : Result (CommandResult × Db))
    → AskedRound p (with_keys db rows) r
    → Asked env envelope p db r
claimed env envelope p db rows (err e) h = tt
claimed env envelope p db rows (ok (result, db')) h = inr h

-- A start that returns either returns the result cached under its key and leaves the questions as
-- they were; or the session had a round left, and it adds, to the session's next round, one question
-- with the text of each open planning question of the project and without an answer; where there
-- are more than seven of those, it chooses seven, and none of the rest has a lower round.
pub start_clarification-Asked :
    (env : Env) (envelope : Envelope) (p : SessionPayload) (db : Db)
    → Asked env envelope p db (start_clarification env envelope p db)
unfolding start_clarification
start_clarification-Asked env envelope p db =
    with_claim_replays (Asked env envelope p db) env envelope _ _ db tt
      (λ result rows cached. inl (cached, refl))
      λ claim_id rows. claimed env envelope p db rows _ (
        let db' = with_keys db rows in
        let P = AskedRound p db' in
        checked_session_cases P (λ e. tt) db' p ClarificationStatus.in_progress _
          λ s found may.
            reject_if_cases P (λ e. tt) db' (leb s.max_rounds s.round) _ _
              λ more.
                let change = set_round env (s.round + 1) (next_version s.version) in
                let asked =
                  ask_all-Added env p.clarification_session_id (s.round + 1) 0
                    (open_questions p.project_id db') (moved_sessions p change db') in
                move_session_cases P (λ e. tt) db' p change _
                  (
                    s,
                    found,
                    more,
                    open_questions p.project_id db',
                    open_questions-IsChoice p.project_id db',
                    asked,
                  ))
