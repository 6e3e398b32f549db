-- ===== src/MergeGate/Open.antt =====
-- What evaluate-merge-gate.ts asks for before a merge, and that it asks for no more and no less.
use mini_coder.Common.{
  ℕ, ◌≡◌, refl, ◌∙◌, ap, subst, inl, inr, Bool, true, false, not, Option, none, some, List, [], ◌∷◌,
  ◌++◌, String, arith, All, ◌==◌, String_eq, find, where_rows, count_rows, option_beq, ltb,
  Option-cases, eq_iff,
}
use mini_coder.Store.Rows.{PullRequest, Repository, HumanApproval}
use mini_coder.Store.{Db, Env}
use mini_coder.Handlers.Steps.{load_workflow_state}
use mini_coder.Handlers.Github.{get_pull_request}
use mini_coder.Budget.{BudgetStatus, is_ok, soft_breach, hard_breach, newest}
use mini_coder.MergeGate.{
  flatten, pull_request_pushes, gate_pushes, push_if, active_run_of, default_branch_of,
  other_branch, is_absent, pull_request_reasons, holds_back, matched_labels, is_mergeable,
  stands_against, approval_reasons, is_fine, feature_budget, gate_reasons,
}

-- The preconditions of a merge.
pub record GateOpen (env : Env) (run_id project_id request_id : String) (db : Db) : Type 0 where
  pub is_active : active_run_of (load_workflow_state project_id db) ≡ some run_id
  pub repository : Repository
  pub linked : find (λ r. r.project_id == project_id) db.repositories ≡ some repository
  pub pull_request : PullRequest
  pub tracked : get_pull_request run_id db ≡ some pull_request
  pub is_open : pull_request.state ≡ "open"
  pub on_default : pull_request.base_branch ≡ repository.default_branch
  pub passed : pull_request.ci_status ≡ "passed"
  pub no_changes_requested : (pull_request.review_state == "changes_requested") ≡ false
  pub mergeable : pull_request.mergeable ≡ some true
  pub no_findings : count_rows (holds_back run_id) db.review_findings ≡ 0
  pub no_labels : matched_labels env.blocking_labels (some pull_request) ≡ []
  pub in_budget : feature_budget env project_id request_id db ≡ is_ok
  pub no_objection : where_rows (stands_against run_id) db.human_approvals ≡ []

append-empty : {A : Type 0} (xs ys : List A) → xs ++ ys ≡ [] → (xs ≡ []) × (ys ≡ [])
append-empty [] ys h = (refl, h)
append-empty (x ∷ xs) ys h = cc

flatten-empty : (xss : List (List String)) → flatten xss ≡ [] → All (λ xs. xs ≡ []) xss
flatten-empty [] h = tt
flatten-empty (xs ∷ xss) h =
    let (a, b) = append-empty xs (flatten xss) h in (a, flatten-empty xss b)

push_if-empty : (b : Bool) (text : String) → push_if b text ≡ [] → b ≡ false
push_if-empty true text h = cc
push_if-empty false text h = refl

-- The newest of some rows is missing only where there is no row.
newest-none :
    {A : Type 0} (at : A → ℕ) (id : A → String) (xs : List A) → newest at id xs ≡ none → xs ≡ []
newest-none at id [] h = refl
newest-none at id (x ∷ xs) h = ground (arith, h)

approval_reasons-empty : (o : Option HumanApproval) → approval_reasons o ≡ [] → o ≡ none
approval_reasons-empty none h = refl
approval_reasons-empty (some a) h = cc

is_fine-ok : (b : BudgetStatus) → not (is_fine b) ≡ false → b ≡ is_ok
is_fine-ok is_ok h = refl
is_fine-ok soft_breach h = cc
is_fine-ok hard_breach h = cc

-- What the reasons about the pull request leave, where there are none.
pub record PullRequestFine (default : Option String) (o : Option PullRequest) : Type 0 where
  pub pull_request : PullRequest
  pub tracked : o ≡ some pull_request
  pub is_open : (pull_request.state == "open") ≡ true
  pub on_default : other_branch default pull_request.base_branch ≡ false
  pub passed : (pull_request.ci_status == "passed") ≡ true
  pub no_changes_requested : (pull_request.review_state == "changes_requested") ≡ false

not-false : (b : Bool) → not b ≡ false → b ≡ true
not-false true h = refl
not-false false h = cc

pull_request_reasons-empty :
    (default : Option String) (o : Option PullRequest)
    → pull_request_reasons default o ≡ []
    → PullRequestFine default o
pull_request_reasons-empty default none h = cc
pull_request_reasons-empty default (some pr) h =
    let (a, (b, (c, (d, e)))) = flatten-empty (pull_request_pushes default pr) h in
    record {
      pull_request = pr;
      tracked = refl;
      is_open = not-false _ (push_if-empty _ _ a);
      on_default = push_if-empty _ _ b;
      passed = not-false _ (push_if-empty _ _ c);
      no_changes_requested = push_if-empty _ _ d;
    }

option_beq-some : (o : Option String) (s : String) → option_beq o (some s) ≡ true → o ≡ some s
option_beq-some none s h = cc
option_beq-some (some t) s h = ap some ((eq_iff t s).0 h)

is_mergeable-some : (pr : PullRequest) → is_mergeable (some pr) ≡ true → pr.mergeable ≡ some true
is_mergeable-some pr h = elim (Option-cases pr.mergeable) [
  | inl missing ↦ cc (rw missing at h)
  | inr (b, e) ↦ e ∙ ap some (rw e at h)
]

same_branch :
    (o : Option Repository) (r : Repository) (base : String)
    → o ≡ some r
    → other_branch (default_branch_of o) base ≡ false
    → base ≡ r.default_branch
same_branch o r base e h = (eq_iff base r.default_branch).0 (not-false _ (rw e at h))

count-none : {A : Type 0} (xs : List A) → ltb 0 (count_rows (λ x. true) xs) ≡ false → xs ≡ []
count-none [] h = refl
count-none (x ∷ xs) h = ground (arith, h)

present : {A : Type 0} (o : Option A) → is_absent o ≡ false → (a : A) × (o ≡ some a)
present none h = cc
present (some a) h = (a, refl)

default_branch_of-some :
    (o : Option Repository)
    → is_absent (default_branch_of o) ≡ false
    → (r : Repository) × (o ≡ some r)
default_branch_of-some none h = cc
default_branch_of-some (some r) h = (r, refl)

-- No reason is given only where every precondition holds.
pub gate_reasons-GateOpen :
    (env : Env) (run_id project_id request_id : String) (db : Db)
    → gate_reasons env run_id project_id request_id db ≡ []
    → GateOpen env run_id project_id request_id db
unfolding gate_reasons gate_pushes
gate_reasons-GateOpen env run_id project_id request_id db h =
    let (active, (repo, (pr, (findings, (labels, (protection, (budget, (approvals, e)))))))) =
      flatten-empty (gate_pushes env run_id project_id request_id db) h in
    let (repository, linked) = default_branch_of-some _ (push_if-empty _ _ repo) in
    let fine = pull_request_reasons-empty _ _ pr in
    record {
      is_active = option_beq-some _ run_id (not-false _ (push_if-empty _ _ active));
      repository = repository;
      linked = linked;
      pull_request = fine.pull_request;
      tracked = fine.tracked;
      is_open = (eq_iff fine.pull_request.state "open").0 fine.is_open;
      on_default = same_branch _ repository fine.pull_request.base_branch linked fine.on_default;
      passed = (eq_iff fine.pull_request.ci_status "passed").0 fine.passed;
      no_changes_requested = fine.no_changes_requested;
      mergeable = is_mergeable-some fine.pull_request (
          subst (λ o. is_mergeable o ≡ true) fine.tracked
            (not-false _ (push_if-empty _ _ protection)));
      no_findings = ground (arith, push_if-empty _ _ findings);
      no_labels =
          subst (λ o. matched_labels env.blocking_labels o ≡ []) fine.tracked
            (count-none _ (push_if-empty _ _ labels));
      in_budget = is_fine-ok _ (push_if-empty _ _ budget);
      no_objection =
          newest-none (λ a. a.updated_at) (λ a. a.id) _ (approval_reasons-empty _ approvals);
    }
