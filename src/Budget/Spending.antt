-- ===== src/Budget/Spending.antt =====
-- packages/core/src/cost/budget-evaluator.ts: which records make the total.
use mini_coder.Common.{
  ℕ, ◌≤◌, ◌≡◌, refl, sym, ◌∙◌, ◌+◌, ◌*◌, inl, inr, Bool, ◌&&◌, List, [], ◌∷◌, where_rows, ◌==◌,
  String_eq, eq_iff, eq_of_option_beq, option_beq_of_eq, Option, none, some, true, arith,
  Bool-cases, String,
}
use mini_coder.Domain.{BudgetScope, budget_scope_eq}
use mini_coder.Store.Rows.{BudgetPolicy, CostRecord}
use mini_coder.Budget.{of_request, in_window, total}

-- A record of the project and the scope, of the request where there is one, no older than the window.
abbrev pub IsCounted : ℕ → String → BudgetScope → Option String → Option ℕ → CostRecord → Type 0
IsCounted now project_id scope request window c =
    (c.project_id ≡ project_id)
    × (c.scope ≡ scope)
    × (((r : String) → request ≡ some r → c.feature_request_id ≡ some r))
    × ((days : ℕ) → window ≡ some days → now ≤ c.recorded_at + days * 86400000)

-- The sum of the amounts of the records that count.
pub data Sum (IsIn : CostRecord → Type 0) : List CostRecord → ℕ → Type 0 where
  nothing : Sum IsIn [] 0
  counted :
      {c : CostRecord} {cs : List CostRecord} {n : ℕ}
      → IsIn c
      → Sum IsIn cs n
      → Sum IsIn (c ∷ cs) (c.amount + n)
  left_out :
      {c : CostRecord} {cs : List CostRecord} {n : ℕ}
      → ¬ IsIn c
      → Sum IsIn cs n
      → Sum IsIn (c ∷ cs) n

module _ (now : ℕ) (project_id : String) (scope : BudgetScope) (request : Option String)
    (p : BudgetPolicy) where
  abbrev pub counts : CostRecord → Bool
  counts c =
      c.project_id == project_id
      && (c.scope == scope && (of_request request c && in_window now p.window_days c))

  abbrev pub IsMine : CostRecord → Type 0
  IsMine = IsCounted now project_id scope request p.window_days

  of_request-of :
      (o : Option String) (c : CostRecord)
      → of_request o c ≡ true
      → (r : String) → o ≡ some r
      → c.feature_request_id ≡ some r
  of_request-of none c h r e = cc
  of_request-of (some s) c h r e = eq_of_option_beq c.feature_request_id (some s) h ∙ e

  of-of_request :
      (o : Option String) (c : CostRecord)
      → ((r : String) → o ≡ some r → c.feature_request_id ≡ some r)
      → of_request o c ≡ true
  of-of_request none c h = refl
  of-of_request (some s) c h = option_beq_of_eq c.feature_request_id (some s) (h s refl)

  in_window-in :
      (o : Option ℕ) (c : CostRecord)
      → in_window now o c ≡ true
      → (days : ℕ) → o ≡ some days
      → now ≤ c.recorded_at + days * 86400000
  in_window-in none c h days e = cc
  in_window-in (some d) c h days e = let same : d ≡ days = cc in rw (sym same) (ground (arith, h))

  in-in_window :
      (o : Option ℕ) (c : CostRecord)
      → ((days : ℕ) → o ≡ some days → now ≤ c.recorded_at + days * 86400000)
      → in_window now o c ≡ true
  in-in_window none c h = refl
  in-in_window (some d) c h = ground (arith, h d refl)

  counts-IsMine : (c : CostRecord) → counts c ≡ true → IsMine c
  counts-IsMine c h = (
    (eq_iff c.project_id project_id).0 (ground (arith, h)),
    (budget_scope_eq.is_same_iff c.scope scope).0 (ground (arith, h)),
    of_request-of request c (ground (arith, h)),
    in_window-in p.window_days c (ground (arith, h)),
  )

  IsMine-counts : (c : CostRecord) → IsMine c → counts c ≡ true
  IsMine-counts c (project, of, req, window) =
      rw
        (
          (eq_iff c.project_id project_id).1 project,
          (budget_scope_eq.is_same_iff c.scope scope).1 of,
          of-of_request request c req,
          in-in_window p.window_days c window,
        )
        refl

  pub total-Sum : (cs : List CostRecord) → Sum IsMine cs (total (where_rows counts cs))
  total-Sum [] = nothing
  total-Sum (c ∷ cs) = elim (Bool-cases (counts c)) [
    | inl hit ↦ rw hit (counted (counts-IsMine c hit) (total-Sum cs))
    | inr miss ↦ rw miss (left_out (λ m. cc (IsMine-counts c m, miss)) (total-Sum cs))
  ]
