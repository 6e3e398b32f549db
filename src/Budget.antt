-- ===== src/Budget.antt =====
-- packages/core/src/cost/budget-evaluator.ts.
pub mod Newest
pub mod Spending
pub mod Limits
use mini_coder.Common.{
  ℕ, zero, suc, ◌+◌, ◌*◌, Bool, true, false, not, ◌&&◌, ◌||◌, Option, none, some, List, [], ◌∷◌,
  ◌++◌, String, ◌==◌, ℕ_eq, String_eq, any, leb, ltb, find, where_rows, update_rows, count_rows,
  option_beq, map, if◌then◌else◌,
}
use mini_coder.Domain.{
  FeatureExecutionState, feature_execution_state_value, feature_execution_state_eq, FindingSeverity,
  finding_severity_eq, DisagreementState, disagreement_state_eq, BudgetScope, budget_scope_eq,
}
use mini_coder.Auth.Redaction.{
  Json, Fields, str, num, null, bool, arr, Items, nil, cons, obj, field, end,
}
use mini_coder.Auth.Redaction.{codes}
use mini_coder.Store.Rows.{BudgetPolicy, CostRecord}
use mini_coder.Store.{Db, Env}

pub data BudgetStatus : Type 0 where
  is_ok soft_breach hard_breach : BudgetStatus

abbrev pub budget_status_value : BudgetStatus → String
budget_status_value is_ok = "ok"
budget_status_value soft_breach = "soft_breach"
budget_status_value hard_breach = "hard_breach"

pub record BudgetEvaluation : Type 0 where
  pub status : BudgetStatus
  pub policy : BudgetPolicy
  pub total_spend : ℕ

-- Texts in the order of their code points, which is the order of SQLite.
abbrev codes_lt : List ℕ → List ℕ → Bool
codes_lt [] [] = false
codes_lt [] (b ∷ bs) = true
codes_lt (a ∷ as') [] = false
codes_lt (a ∷ as') (b ∷ bs) = ltb a b || (a == b && codes_lt as' bs)

-- `ORDER BY updated_at DESC, id DESC`: whether the first row comes before the second.
abbrev pub is_newer : ℕ → String → ℕ → String → Bool
is_newer at_a id_a at_b id_b = ltb at_b at_a || (at_a == at_b && codes_lt (codes id_b) (codes id_a))

-- The first row in that order.
abbrev pub newest {ℓ} : {A : Type ℓ} → (A → ℕ) → (A → String) → List A → Option A
newest at id [] = none
newest at id (x ∷ xs) = elim (newest at id xs) [
  | none ↦ some x
  | some y ↦ if is_newer (at y) (id y) (at x) (id x) then some y else some x
]

abbrev pub of_scope : String → BudgetScope → Option String → BudgetPolicy → Bool
of_scope project_id scope feature_request_id p =
    p.project_id == project_id
    && (p.scope == scope && option_beq p.feature_request_id feature_request_id)

abbrev day_ms : ℕ
day_ms = 24 * 60 * 60 * 1000

-- `recorded_at >= now - window_days`, without the subtraction.
abbrev pub in_window : ℕ → Option ℕ → CostRecord → Bool
in_window now none c = true
in_window now (some days) c = leb now (c.recorded_at + days * day_ms)

abbrev pub of_request : Option String → CostRecord → Bool
of_request none c = true
of_request (some id) c = option_beq c.feature_request_id (some id)

abbrev pub total : List CostRecord → ℕ
total [] = 0
total (c ∷ cs) = c.amount + total cs

abbrev pub spend_of :
    ℕ → String → BudgetScope → Option String → BudgetPolicy → List CostRecord → List CostRecord
spend_of now project_id scope feature_request_id p = where_rows λ c.
    c.project_id == project_id
    && (c.scope == scope && (of_request feature_request_id c && in_window now p.window_days c))

abbrev pub is_reached : Option ℕ → ℕ → Bool
is_reached none spend = false
is_reached (some limit) spend = leb limit spend

-- The hard limit is looked at first.
unfoldable pub budget_status : BudgetPolicy → ℕ → BudgetStatus
budget_status p spend =
    if is_reached p.hard_limit spend
    then hard_breach
    else if is_reached p.soft_limit spend
    then soft_breach
    else is_ok

abbrev pub active_policy : Db → String → BudgetScope → Option String → Option BudgetPolicy
active_policy db project_id scope feature_request_id =
    newest (λ p. p.updated_at) (λ p. p.id)
      (where_rows (λ p. of_scope project_id scope feature_request_id p && p.is_active)
        db.budget_policies)

-- The evaluation of the policy that was found.
abbrev pub evaluate_policy :
    Env → String → Option String → BudgetScope → Db → Option BudgetPolicy → Option BudgetEvaluation
evaluate_policy env project_id feature_request_id scope db none = none
evaluate_policy env project_id feature_request_id scope db (some p) =
    let spend = total (spend_of env.now project_id scope feature_request_id p db.cost_records) in
    some (record { status = budget_status p spend; policy = p; total_spend = spend })

-- `evaluateBudget`.
unfoldable pub evaluate_budget :
    Env → String → Option String → BudgetScope → Db → Option BudgetEvaluation
evaluate_budget env project_id feature_request_id scope db =
    evaluate_policy env project_id feature_request_id scope db
      (active_policy db project_id scope feature_request_id)
