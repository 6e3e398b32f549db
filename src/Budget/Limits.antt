-- ===== src/Budget/Limits.antt =====
-- What budget-evaluator.ts reports, against the limits of the policy.
use mini_coder.Common.{
  ℕ, ◌≤◌, ◌≡◌, ◌↔◌, inl, inr, All, String_eq, Option, none, some, true, arith, Option-cases,
  Bool-cases, String,
}
use mini_coder.Domain.{BudgetScope, budget_scope_eq}
use mini_coder.Store.Rows.{BudgetPolicy}
use mini_coder.Store.{Db, Env}
use mini_coder.Budget.{
  BudgetStatus, is_ok, soft_breach, hard_breach, BudgetEvaluation, is_reached, budget_status,
  evaluate_policy, evaluate_budget,
}
use mini_coder.Budget.Newest.{Applies, IsLatest, Newest, newest-Newest}
use mini_coder.Budget.Spending.{IsCounted, Sum, total-Sum}

-- A limit that the spend has reached.
abbrev pub Reached : Option ℕ → ℕ → Type 0
Reached none spend = ⊥
Reached (some limit) spend = limit ≤ spend

Reached-iff : (limit : Option ℕ) (spend : ℕ) → (is_reached limit spend ≡ true) ↔ Reached limit spend
Reached-iff none spend = (λ h. cc, λ h. absurd h)
Reached-iff (some limit) spend = (λ h. ground (arith, h), λ h. ground (arith, h))

-- The documented verdict: a hard breach goes before a soft one.
abbrev pub Verdict : BudgetPolicy → ℕ → BudgetStatus → Type 0
Verdict p spend hard_breach = Reached p.hard_limit spend
Verdict p spend soft_breach = ¬ Reached p.hard_limit spend × Reached p.soft_limit spend
Verdict p spend is_ok = ¬ Reached p.hard_limit spend × ¬ Reached p.soft_limit spend

budget_status-Verdict : (p : BudgetPolicy) (spend : ℕ) → Verdict p spend (budget_status p spend)
unfolding budget_status
budget_status-Verdict p spend =
    let (hard, hard') = Reached-iff p.hard_limit spend in
    let (soft, soft') = Reached-iff p.soft_limit spend in
    elim (Bool-cases (is_reached p.hard_limit spend)) [
      | inl h ↦ rw h (hard h)
      | inr h ↦ elim (Bool-cases (is_reached p.soft_limit spend)) [
        | inl s ↦ rw (h, s) ((λ r. cc (hard' r, h)), soft s)
        | inr s ↦ rw (h, s) ((λ r. cc (hard' r, h)), (λ r. cc (soft' r, s)))
      ]
    ]

abbrev pub severity : BudgetStatus → ℕ
severity is_ok = 0
severity soft_breach = 1
severity hard_breach = 2

-- Spending more never makes the status milder.
pub budget_status-monotone :
    (p : BudgetPolicy) (spend more : ℕ)
    → spend ≤ more
    → severity (budget_status p spend) ≤ severity (budget_status p more)
unfolding budget_status
budget_status-monotone p spend more h = elim (Option-cases p.hard_limit) [
  | inl e ↦ elim (Option-cases p.soft_limit) [
    | inl f ↦ rw (e, f) (omega arith)
    | inr (s, f) ↦ rw (e, f) (ground (arith, h))
  ]
  | inr (l, e) ↦ elim (Option-cases p.soft_limit) [
    | inl f ↦ rw (e, f) (ground (arith, h))
    | inr (s, f) ↦ rw (e, f) (ground (arith, h))
  ]
]

abbrev pub Evaluated :
    Env → String → Option String → BudgetScope → Db → Option BudgetEvaluation → Type 0
Evaluated env project_id request scope db none =
    All (λ q. ¬ Applies project_id scope request q) db.budget_policies
Evaluated env project_id request scope db (some e) =
    IsLatest project_id scope request db.budget_policies e.policy
    × Sum (IsCounted env.now project_id scope request e.policy.window_days) db.cost_records
        e.total_spend
    × Verdict e.policy e.total_spend e.status

evaluate_policy-Evaluated :
    (env : Env) (project_id : String) (request : Option String) (scope : BudgetScope) (db : Db)
    (o : Option BudgetPolicy)
    → Newest project_id scope request db.budget_policies o
    → Evaluated env project_id request scope db (evaluate_policy env project_id request scope db o)
evaluate_policy-Evaluated env project_id request scope db none h = h
evaluate_policy-Evaluated env project_id request scope db (some p) h =
    (h, total-Sum env.now project_id scope request p db.cost_records, budget_status-Verdict p _)

-- There is no evaluation exactly where no policy of the project, scope and request is active;
-- otherwise it is of an active one that none was updated later than, the total is the sum of the
-- amounts of the records of the project, scope and request that are in the policy's window, and the
-- status is a hard breach where the hard limit is reached, a soft breach where only the soft limit
-- is, and ok where neither is.
pub evaluate_budget-Evaluated :
    (env : Env) (project_id : String) (request : Option String) (scope : BudgetScope) (db : Db)
    → Evaluated env project_id request scope db (evaluate_budget env project_id request scope db)
unfolding evaluate_budget
evaluate_budget-Evaluated env project_id request scope db =
    evaluate_policy-Evaluated env project_id request scope db _
      (newest-Newest project_id scope request db.budget_policies)
