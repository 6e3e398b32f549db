-- ===== src/Budget/Newest.antt =====
-- packages/core/src/cost/budget-evaluator.ts: which policy is evaluated.
use mini_coder.Common.{
  ◌≤◌, ◌≡◌, refl, ◌⊎◌, inl, inr, Bool, ◌&&◌, false, List, [], ◌∷◌, All, where_rows, String_eq,
  eq_iff, eq_of_option_beq, option_beq_of_eq, if◌then◌else◌, Option, none, some, true, arith,
  Bool-cases, String,
}
use mini_coder.Domain.{BudgetScope, budget_scope_eq}
use mini_coder.Store.Rows.{BudgetPolicy}
use mini_coder.Budget.{is_newer, newest, of_scope}

-- A row that is in a table.
abbrev pub IsAmong : BudgetPolicy → List BudgetPolicy → Type 0
IsAmong p [] = ⊥
IsAmong p (q ∷ qs) = (p ≡ q) ⊎ IsAmong p qs

-- An active policy of the project, the scope and the request.
abbrev pub Applies : String → BudgetScope → Option String → BudgetPolicy → Type 0
Applies project_id scope request p =
    (p.project_id ≡ project_id)
    × (p.scope ≡ scope)
    × (p.feature_request_id ≡ request)
    × (p.is_active ≡ true)

-- The policy is in the table, applies, and none that applies was updated later.
pub record IsLatest (project_id : String) (scope : BudgetScope) (request : Option String)
    (policies : List BudgetPolicy) (p : BudgetPolicy) : Type 0 where
  pub there : IsAmong p policies
  pub applies : Applies project_id scope request p
  pub latest : All (λ q. Applies project_id scope request q → q.updated_at ≤ p.updated_at) policies

module _ (project_id : String) (scope : BudgetScope) (request : Option String) where
  abbrev pub applies : BudgetPolicy → Bool
  applies p = of_scope project_id scope request p && p.is_active

  applies-Applies : (p : BudgetPolicy) → applies p ≡ true → Applies project_id scope request p
  applies-Applies p h = (
    (eq_iff p.project_id project_id).0 (ground (arith, h)),
    (budget_scope_eq.is_same_iff p.scope scope).0 (ground (arith, h)),
    eq_of_option_beq p.feature_request_id request (ground (arith, h)),
    ground (arith, h),
  )

  Applies-applies : (p : BudgetPolicy) → Applies project_id scope request p → applies p ≡ true
  Applies-applies p (project, of, req, active) =
      rw
        (
          (eq_iff p.project_id project_id).1 project,
          (budget_scope_eq.is_same_iff p.scope scope).1 of,
          option_beq_of_eq p.feature_request_id request req,
          active,
        )
        refl

  -- What the newest of the rows that apply is.
  abbrev pub Newest : List BudgetPolicy → Option BudgetPolicy → Type 0
  Newest policies none = All (λ q. ¬ Applies project_id scope request q) policies
  Newest policies (some p) = IsLatest project_id scope request policies p

  pub newest-Newest :
      (policies : List BudgetPolicy)
      → Newest policies (newest (λ p. p.updated_at) (λ p. p.id) (where_rows applies policies))
  newest-Newest [] = tt
  newest-Newest (p ∷ ps) =
      let rest = newest-Newest ps in
      elim (Bool-cases (applies p)) [
        | inr miss ↦
            rw miss
              (behind (newest (λ p. p.updated_at) (λ p. p.id) (where_rows applies ps)) miss rest)
        | inl hit ↦
            rw hit
              (in_front (newest (λ p. p.updated_at) (λ p. p.id) (where_rows applies ps)) hit rest)
      ]
    where
      behind : (o : Option BudgetPolicy) → applies p ≡ false → Newest ps o → Newest (p ∷ ps) o
      behind none miss h = ((λ a. cc (Applies-applies p a, miss)), h)
      behind (some q) miss h = record {
        there = inr h.there;
        applies = h.applies;
        latest = ((λ a. cc (Applies-applies p a, miss)), h.latest);
      }

      mine :
          (q : BudgetPolicy)
          → q.updated_at ≤ p.updated_at
          → (qs : List BudgetPolicy)
          → All (λ r. Applies project_id scope request r → r.updated_at ≤ q.updated_at) qs
          → All (λ r. Applies project_id scope request r → r.updated_at ≤ p.updated_at) qs
      mine q le [] h = tt
      mine q le (r ∷ rs) h = ((λ a. omega (arith, le, h.0 a)), mine q le rs h.1)

      no_one :
          (qs : List BudgetPolicy)
          → All (λ r. ¬ Applies project_id scope request r) qs
          → All (λ r. Applies project_id scope request r → r.updated_at ≤ p.updated_at) qs
      no_one [] h = tt
      no_one (r ∷ rs) h = ((λ a. absurd (h.0 a)), no_one rs h.1)

      in_front :
          (o : Option BudgetPolicy)
          → applies p ≡ true
          → Newest ps o
          → Newest (p ∷ ps) (elim o [
            | none ↦ some p
            | some q ↦ if is_newer q.updated_at q.id p.updated_at p.id then some q else some p
          ])
      in_front none hit h = record {
        there = inl refl;
        applies = applies-Applies p hit;
        latest = ((λ a. omega arith), no_one ps h);
      }
      in_front (some q) hit h = elim (Bool-cases (is_newer q.updated_at q.id p.updated_at p.id)) [
        | inl newer ↦ rw newer (record {
          there = inr h.there;
          applies = h.applies;
          latest = ((λ a. ground (arith, newer)), h.latest);
        })
        | inr older ↦ rw older (record {
          there = inl refl;
          applies = applies-Applies p hit;
          latest = ((λ a. omega arith), mine q (ground (arith, older)) ps h.latest);
        })
      ]
