-- ===== src/Clarification/Questions.antt =====
-- packages/core/src/commands/handlers/clarification: the open planning questions, and how a round asks
-- them.
use mini_coder.Common.{
  ℕ, suc, ◌+◌, Bool, true, false, ◌&&◌, ◌||◌, Option, none, some, List, [], ◌∷◌, String, ◌==◌, ℕ_eq,
  String_eq, any, ltb, where_rows, take, if◌then◌else◌,
}
use mini_coder.Domain.{clarification_status_eq}
use mini_coder.Auth.Redaction.{codes}
use mini_coder.Store.Clarifications.{PlanningQuestion}
use mini_coder.Store.{Db, Env}

-- `MAX_QUESTIONS`.
abbrev pub max_questions : ℕ
max_questions = 7

abbrev is_unset : Option String → Bool
is_unset none = true
is_unset (some s) = false

-- The open questions of a project's assessments.
abbrev pub is_open : String → Db → PlanningQuestion → Bool
is_open project_id db q =
    any (λ a. a.id == q.assessment_id && a.project_id == project_id) db.planning_assessments
    && is_unset q.answer

-- The order of texts by their characters.
abbrev pub codes_before : List ℕ → List ℕ → Bool
codes_before [] ds = true
codes_before (c ∷ cs) [] = false
codes_before (c ∷ cs) (d ∷ ds) = ltb c d || (c == d && codes_before cs ds)

-- `ORDER BY pq.round ASC, pq.id ASC`.
abbrev pub asked_before : PlanningQuestion → PlanningQuestion → Bool
asked_before q r =
    ltb q.round r.round || (q.round == r.round && codes_before (codes q.id) (codes r.id))

unfoldable pub insert_question : PlanningQuestion → List PlanningQuestion → List PlanningQuestion
insert_question q [] = q ∷ []
insert_question q (r ∷ rows) =
    if asked_before q r then q ∷ (r ∷ rows) else r ∷ insert_question q rows

unfoldable pub by_round : List PlanningQuestion → List PlanningQuestion
by_round [] = []
by_round (q ∷ rows) = insert_question q (by_round rows)

abbrev pub open_questions : String → Db → List PlanningQuestion
open_questions project_id db =
    take max_questions (by_round (where_rows (is_open project_id db) db.planning_questions))

abbrev pub ask : Env → String → ℕ → ℕ → PlanningQuestion → Db → Db
ask env session_id round i q db = record db {
  ids_drawn = suc db.ids_drawn;
  clarification_questions =
      record {
        id = env.new_id db.ids_drawn;
        clarification_session_id = session_id;
        question = q.question;
        round = round;
        order_index = i;
        asked_at = some env.now;
        answered_at = none;
        version = 1;
        updated_at = env.now;
      }
      ∷ db.clarification_questions;
}

-- The loop over the open questions.
unfoldable pub ask_all : Env → String → ℕ → ℕ → List PlanningQuestion → Db → Db
ask_all env session_id round i [] db = db
ask_all env session_id round i (q ∷ qs) db =
    ask_all env session_id round (i + 1) qs (ask env session_id round i q db)
