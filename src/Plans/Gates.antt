-- ===== src/Plans/Gates.antt =====
-- packages/core/src/commands/handlers/planning: what has passed when a backlog is valid, and when a
-- plan is submitted.
use mini_coder.Common.{
  ◌+◌, ◌≡◌, refl, sym, subst, ◌⊎◌, inl, inr, Bool, true, false, not, ◌&&◌, Option, none, some, List,
  [], ◌∷◌, String, ◌==◌, String_eq, ℕ_eq, arith, All, update_rows, where_rows, count_rows, eq_iff,
  eq_of_option_beq, Option-cases, Bool-cases,
}
use mini_coder.Domain.{GapSeverity, PlanState, plan_state_eq, plan_state_value}
use mini_coder.Machine.Defs.{assert_valid, is_valid, lookup}
use mini_coder.Machine.Lifecycle.{plan_lifecycle_matrix}
use mini_coder.Store.Rows.{CommandResult, IdempotencyKey}
use mini_coder.Store.Plans.{ImplementationPlan, PlanningGap}
use mini_coder.Store.{
  Db, Env, Error, optimistic_lock_error, transition_error as invalid_transition, Result, ok, err, M,
  ◌>>=◌, ◌>>◌,
}
use mini_coder.Command.Helpers.{Envelope, next_version}
use mini_coder.Command.Claims.{cached_result, with_keys, with_claim_replays}
use mini_coder.Handlers.Steps.{is_empty, not_found}
use mini_coder.Clarification.Moves.{reject_if_cases}
use mini_coder.Plans.{
  PlanPayload, blocking_gaps, blocks, is_open_time, checked_plan, is_validated, load_plan,
  move_plan, moved_plans, plan_at, set_plan_state, submit_plan,
}

-- A blocking gap of the assessment has been resolved.
abbrev pub Resolved : Option String → PlanningGap → Type 0
Resolved assessment_id gap =
    assessment_id ≡ some gap.assessment_id
    → gap.severity ≡ GapSeverity.blocking
    → is_open_time gap.resolved_at ≡ false

-- A plan that a command may move to a state.
abbrev pub may_move_plan : PlanPayload → PlanState → ImplementationPlan → Bool
may_move_plan p to plan =
    plan.version == p.expected_version && is_valid plan_lifecycle_matrix plan.state to

checked_plan_equation :
    (p : PlanPayload) (to : PlanState) (k : ImplementationPlan → M CommandResult) (db : Db)
    → ((plan : ImplementationPlan) × (load_plan p db ≡ some plan)
        × (may_move_plan p to plan ≡ true)
        × ((checked_plan p to >>= k) db ≡ k plan db))
      ⊎ ((e : Error) × ((checked_plan p to >>= k) db ≡ err e))
unfolding assert_valid is_valid
checked_plan_equation p to k db = elim (Option-cases (load_plan p db)) [
  | inl missing ↦ inr (not_found, ground arith)
  | inr (plan, found) ↦ elim (Bool-cases (plan.version == p.expected_version)) [
    | inr stale ↦ inr (
      optimistic_lock_error "implementation_plans" p.plan_id p.expected_version (some plan.version),
      ground (arith, found, stale),
    )
    | inl current ↦ elim (Option-cases (lookup plan_lifecycle_matrix plan.state to)) [
      | inl refused ↦ inr (
        invalid_transition "plan-lifecycle" (plan_state_value plan.state) (plan_state_value to),
        ground (arith, found, current, refused),
      )
      | inr (r, edge) ↦
          inl (plan, found, ground (arith, current, edge), ground (arith, found, current, edge))
    ]
  ]
]

move_plan_equation :
    (p : PlanPayload) (f : ImplementationPlan → ImplementationPlan) (k : M CommandResult) (db : Db)
    → ((move_plan p f >> k) db ≡ k (moved_plans p f db))
      ⊎ ((e : Error) × ((move_plan p f >> k) db ≡ err e))
move_plan_equation p f k db =
    elim (Bool-cases (count_rows (plan_at p) db.implementation_plans == 0)) [
      | inl untouched ↦ inr (
        optimistic_lock_error "implementation_plans" p.plan_id p.expected_version none,
        ground (arith, untouched),
      )
      | inr touched ↦ inl (ground (arith, touched))
    ]

module _ {ℓ} (P : Result (CommandResult × Db) → Type ℓ) (throws : (e : Error) → P (err e))
    (db : Db) where
  pub checked_plan_cases :
      (p : PlanPayload) (to : PlanState) (k : ImplementationPlan → M CommandResult)
      → ((plan : ImplementationPlan)
          → load_plan p db ≡ some plan
          → may_move_plan p to plan ≡ true
          → P (k plan db))
      → P ((checked_plan p to >>= k) db)
  checked_plan_cases p to k h = elim (checked_plan_equation p to k db) [
    | inl (plan, found, may, e) ↦ subst P (sym e) (h plan found may)
    | inr (error, e) ↦ subst P (sym e) (throws error)
  ]

  pub move_plan_cases :
      (p : PlanPayload) (f : ImplementationPlan → ImplementationPlan) (k : M CommandResult)
      → P (k (moved_plans p f db))
      → P ((move_plan p f >> k) db)
  move_plan_cases p f k h = elim (move_plan_equation p f k db) [
    | inl e ↦ subst P (sym e) h
    | inr (error, e) ↦ subst P (sym e) (throws error)
  ]

-- A plan that may be submitted: a draft as the client knew it, whose backlog was validated as it now
-- is, and whose assessment has no blocking gap left.
pub record Ready (p : PlanPayload) (db : Db) (plan : ImplementationPlan) : Type 0 where
  pub current : plan.version ≡ p.expected_version
  pub draft : plan.state ≡ PlanState.draft
  pub valid : plan.backlog_validated_state ≡ some "valid"
  pub as_it_is : plan.backlog_validated_version ≡ some plan.backlog_version
  pub resolved : All (Resolved plan.assessment_id) db.planning_gaps

-- A submission that has moved a plan.
abbrev pub SubmittedPlan : Env → PlanPayload → Db → Result (CommandResult × Db) → Type 0
SubmittedPlan env p db (err e) = Unit
SubmittedPlan env p db (ok (result, db')) =
    (plan : ImplementationPlan) × (load_plan p db ≡ some plan)
    × Ready p db plan
    × (db'.implementation_plans
        ≡ update_rows (plan_at p) (set_plan_state env PlanState.pending_approval (plan.version + 1))
            db.implementation_plans)

-- What a submission that returns has found and done.
abbrev pub Submitted : Env → Envelope → PlanPayload → Db → Result (CommandResult × Db) → Type 0
Submitted env envelope p db (err e) = Unit
Submitted env envelope p db (ok (result, db')) =
    ((cached_result env envelope "submit-plan-for-approval" db ≡ some result)
      × (db'.implementation_plans ≡ db.implementation_plans))
    ⊎ SubmittedPlan env p db (ok (result, db'))

from_draft :
    (s : PlanState)
    → is_valid plan_lifecycle_matrix s PlanState.pending_approval ≡ true
    → s ≡ PlanState.draft
unfolding is_valid lookup
from_draft PlanState.draft h = refl
from_draft PlanState.pending_approval h = cc
from_draft PlanState.approved h = cc
from_draft PlanState.activated_for_execution h = cc

no_blocking :
    (assessment_id : String) (gaps : List PlanningGap)
    → is_empty (where_rows (blocks assessment_id) gaps) ≡ true
    → All (Resolved (some assessment_id)) gaps
no_blocking assessment_id [] h = tt
no_blocking assessment_id (gap ∷ gaps) h = elim (Bool-cases (blocks assessment_id gap)) [
  | inl open_gap ↦ cc (rw open_gap at h)
  | inr fine ↦
      (λ own severe. resolved gap own severe fine, no_blocking assessment_id gaps (rw fine at h))
]
  where
    resolved :
        (gap : PlanningGap)
        → some assessment_id ≡ some gap.assessment_id
        → gap.severity ≡ GapSeverity.blocking
        → blocks assessment_id gap ≡ false
        → is_open_time gap.resolved_at ≡ false
    resolved gap own severe fine =
        let same : (gap.assessment_id == assessment_id) ≡ true =
          (eq_iff gap.assessment_id assessment_id).1 cc in
        rw (same, severe) at fine

unassessed : (gaps : List PlanningGap) → All (Resolved none) gaps
unassessed [] = tt
unassessed (gap ∷ gaps) = (λ own. cc, unassessed gaps)

no_gap :
    (a : Option String) (db : Db)
    → is_empty (blocking_gaps a db) ≡ true
    → All (Resolved a) db.planning_gaps
no_gap none db h = unassessed db.planning_gaps
no_gap (some assessment_id) db h = no_blocking assessment_id db.planning_gaps h

ready :
    (p : PlanPayload) (db : Db) (plan : ImplementationPlan)
    → may_move_plan p PlanState.pending_approval plan ≡ true
    → is_validated plan ≡ true
    → is_empty (blocking_gaps plan.assessment_id db) ≡ true
    → Ready p db plan
ready p db plan may valid none_left = record {
  current = ground (arith, may);
  draft = from_draft plan.state (ground (arith, may));
  valid = eq_of_option_beq plan.backlog_validated_state (some "valid") (ground (arith, valid));
  as_it_is =
      eq_of_option_beq plan.backlog_validated_version (some plan.backlog_version)
        (ground (arith, valid));
  resolved = no_gap plan.assessment_id db none_left;
}

claimed :
    (env : Env) (envelope : Envelope) (p : PlanPayload) (db : Db) (rows : List IdempotencyKey)
    (r : Result (CommandResult × Db))
    → SubmittedPlan env p (with_keys db rows) r
    → Submitted env envelope p db r
claimed env envelope p db rows (err e) h = tt
claimed env envelope p db rows (ok (result, db')) (plan, found, r, moved) = inr (
  plan,
  found,
  record {
    current = r.current;
    draft = r.draft;
    valid = r.valid;
    as_it_is = r.as_it_is;
    resolved = r.resolved;
  },
  moved,
)

-- A submission that returns either returns the result cached under its key and leaves the plans as
-- they were; or it found the plan, a draft at the expected version whose backlog was validated in
-- its current version and is valid, and whose assessment has every blocking gap resolved, and moved
-- it to pending_approval, one version up.
pub submit_plan-Submitted :
    (env : Env) (envelope : Envelope) (p : PlanPayload) (db : Db)
    → Submitted env envelope p db (submit_plan env envelope p db)
unfolding submit_plan
submit_plan-Submitted env envelope p db =
    with_claim_replays (Submitted env envelope p db) env envelope _ _ db tt
      (λ result rows cached. inl (cached, refl))
      λ claim_id rows. claimed env envelope p db rows _ (
        let db' = with_keys db rows in
        let P = SubmittedPlan env p db' in
        checked_plan_cases P (λ e. tt) db' p PlanState.pending_approval _
          λ plan found may.
            reject_if_cases P (λ e. tt) db' (not (is_validated plan)) _ _
              λ valid.
                reject_if_cases P (λ e. tt) db'
                  (not (is_empty (blocking_gaps plan.assessment_id db'))) _ _
                  λ left.
                    move_plan_cases P (λ e. tt) db' p
                      (set_plan_state env PlanState.pending_approval (next_version plan.version)) _
                      (
                        plan,
                        found,
                        ready p db' plan may (ground (arith, valid)) (ground (arith, left)),
                        refl,
                      ))
