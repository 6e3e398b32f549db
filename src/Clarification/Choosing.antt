-- ===== src/Clarification/Choosing.antt =====
-- packages/core/src/commands/handlers/clarification/start-clarification.ts: which planning questions
-- a round asks.
use mini_coder.Common.{
  ℕ, zero, suc, ◌≤◌, take, Bool, ◌+◌, ◌≡◌, refl, inl, inr, List, [], ◌∷◌, String, arith, All,
  length, length-take, min, where_rows, count_rows, Bool-cases,
}
use mini_coder.Store.Clarifications.{PlanningQuestion}
use mini_coder.Store.{Db}
use mini_coder.Clarification.Questions.{
  asked_before, by_round, insert_question, is_open, max_questions, open_questions,
}

length-insert_question :
    (q : PlanningQuestion) (rows : List PlanningQuestion)
    → length (insert_question q rows) ≡ length rows + 1
unfolding insert_question
length-insert_question q [] = omega arith
length-insert_question q (r ∷ rows) = elim (Bool-cases (asked_before q r)) [
  | inl before ↦ rw before (omega arith)
  | inr after ↦ rw after (omega (arith, length-insert_question q rows))
]

length-by_round : (rows : List PlanningQuestion) → length (by_round rows) ≡ length rows
unfolding by_round
length-by_round [] = refl
length-by_round (q ∷ rows) =
    omega (arith, length-insert_question q (by_round rows), length-by_round rows)

-- The open questions that a round asks: they and the rest are the open ones, each as often as in the
-- table; seven are asked, or all; and none of the rest has a lower round.
pub record IsChoice (open_ones asked : List PlanningQuestion) : Type 0 where
  pub rest : List PlanningQuestion
  pub same_questions :
      (p : PlanningQuestion → Bool)
      → count_rows p asked + count_rows p rest ≡ count_rows p open_ones
  pub size : length asked ≡ min 7 (length open_ones)
  pub lowest : All (λ q. All (λ r. q.round ≤ r.round) rest) asked

-- The sort keeps every question, and puts the lower rounds first.
count_rows-insert_question :
    (p : PlanningQuestion → Bool) (q : PlanningQuestion) (rows : List PlanningQuestion)
    → count_rows p (insert_question q rows) ≡ count_rows p (q ∷ rows)
unfolding insert_question
count_rows-insert_question p q [] = refl
count_rows-insert_question p q (r ∷ rows) = elim (Bool-cases (asked_before q r)) [
  | inl before ↦ rw before refl
  | inr after ↦ rw after (omega (arith, count_rows-insert_question p q rows))
]

count_rows-by_round :
    (p : PlanningQuestion → Bool) (rows : List PlanningQuestion)
    → count_rows p (by_round rows) ≡ count_rows p rows
unfolding by_round
count_rows-by_round p [] = refl
count_rows-by_round p (q ∷ rows) =
    omega (arith, count_rows-insert_question p q (by_round rows), count_rows-by_round p rows)

abbrev NotAfter : PlanningQuestion → List PlanningQuestion → Type 0
NotAfter q = All λ r. q.round ≤ r.round

abbrev Sorted : List PlanningQuestion → Type 0
Sorted [] = Unit
Sorted (q ∷ rows) = NotAfter q rows × Sorted rows

NotAfter-trans :
    (q r : PlanningQuestion) (rows : List PlanningQuestion)
    → q.round ≤ r.round
    → NotAfter r rows
    → NotAfter q rows
NotAfter-trans q r [] le h = tt
NotAfter-trans q r (x ∷ rows) le h = (omega (arith, le, h.0), NotAfter-trans q r rows le h.1)

insert_question-NotAfter :
    (x q : PlanningQuestion) (rows : List PlanningQuestion)
    → x.round ≤ q.round
    → NotAfter x rows
    → NotAfter x (insert_question q rows)
unfolding insert_question
insert_question-NotAfter x q [] le h = (le, tt)
insert_question-NotAfter x q (r ∷ rows) le h = elim (Bool-cases (asked_before q r)) [
  | inl before ↦ rw before (le, h)
  | inr after ↦ rw after (h.0, insert_question-NotAfter x q rows le h.1)
]

insert_question-Sorted :
    (q : PlanningQuestion) (rows : List PlanningQuestion)
    → Sorted rows
    → Sorted (insert_question q rows)
unfolding insert_question
insert_question-Sorted q [] h = (tt, tt)
insert_question-Sorted q (r ∷ rows) h = elim (Bool-cases (asked_before q r)) [
  | inl before ↦
      let le : q.round ≤ r.round = ground (arith, before) in
      rw before ((le, NotAfter-trans q r rows le h.0), h)
  | inr after ↦
      let le : r.round ≤ q.round = ground (arith, after) in
      rw after (insert_question-NotAfter r q rows le h.0, insert_question-Sorted q rows h.1)
]

by_round-Sorted : (rows : List PlanningQuestion) → Sorted (by_round rows)
unfolding by_round
by_round-Sorted [] = tt
by_round-Sorted (q ∷ rows) = insert_question-Sorted q (by_round rows) (by_round-Sorted rows)

-- What is left of a list after its first rows.
abbrev left_of : ℕ → List PlanningQuestion → List PlanningQuestion
left_of zero rows = rows
left_of (suc n) [] = []
left_of (suc n) (q ∷ rows) = left_of n rows

left_of-NotAfter :
    (n : ℕ) (q : PlanningQuestion) (rows : List PlanningQuestion)
    → NotAfter q rows
    → NotAfter q (left_of n rows)
left_of-NotAfter zero q rows h = h
left_of-NotAfter (suc n) q [] h = tt
left_of-NotAfter (suc n) q (r ∷ rows) h = left_of-NotAfter n q rows h.1

take-lowest :
    (n : ℕ) (rows : List PlanningQuestion)
    → Sorted rows
    → All (λ q. NotAfter q (left_of n rows)) (take n rows)
take-lowest zero rows h = tt
take-lowest (suc n) [] h = tt
take-lowest (suc n) (q ∷ rows) h = (left_of-NotAfter n q rows h.0, take-lowest n rows h.1)

count_rows-take :
    (p : PlanningQuestion → Bool) (n : ℕ) (rows : List PlanningQuestion)
    → count_rows p (take n rows) + count_rows p (left_of n rows) ≡ count_rows p rows
count_rows-take p zero rows = omega arith
count_rows-take p (suc n) [] = refl
count_rows-take p (suc n) (q ∷ rows) = omega (arith, count_rows-take p n rows)

pub open_questions-IsChoice :
    (project_id : String) (db : Db)
    → IsChoice
        (where_rows (is_open project_id db) db.planning_questions)
        (open_questions project_id db)
open_questions-IsChoice project_id db =
    let found = where_rows (is_open project_id db) db.planning_questions in
    let sorted = by_round found in
    record {
      rest = left_of max_questions sorted;
      same_questions =
          λ p. omega (arith, count_rows-take p max_questions sorted, count_rows-by_round p found);
      size = omega (arith, length-take max_questions sorted, length-by_round found);
      lowest = take-lowest max_questions sorted (by_round-Sorted found);
    }
