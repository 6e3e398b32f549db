-- ===== src/Plans/Activation.antt =====
-- packages/core/src/commands/handlers/planning/activate-plan.ts: the runs that an activation makes.
use mini_coder.Common.{
  suc, ◌≤◌, ◌≡◌, refl, sym, ◌∙◌, subst, ◌⊎◌, inl, inr, Bool, true, false, some, List, [], ◌∷◌, ◌++◌,
  String, ◌==◌, String_eq, ℕ_eq, arith, All, any, update_rows, ◌+◌, where_rows, count_rows,
  Bool-cases, eq_iff,
}
use mini_coder.Domain.{FeatureExecutionState, PlanState, plan_state_eq}
use mini_coder.Store.Rows.{CommandResult, FeatureRequest, FeatureRun, IdempotencyKey}
use mini_coder.Store.Plans.{ImplementationPlan}
use mini_coder.Store.{Db, Env, Result, ok, err}
use mini_coder.Command.Helpers.{Envelope, next_version}
use mini_coder.Command.Claims.{cached_result, with_keys, with_claim_replays}
use mini_coder.Plans.{
  PlanPayload, activate_all, activate_plan, first_run, in_plan, is_first_run, load_plan, plan_at,
  moved_plans, set_plan_state,
}
use mini_coder.Plans.Gates.{checked_plan_cases, move_plan_cases}
use mini_coder.Machine.Defs.{is_valid, lookup}
use mini_coder.Machine.Lifecycle.{plan_lifecycle_matrix}

-- A new run waits for its execution.
abbrev pub IsNew : FeatureRun → Type 0
IsNew run =
    (run.attempt_no ≡ 1)
    × (run.current_execution_state ≡ FeatureExecutionState.approved_pending_execution)

-- Runs are only added, each feature then has a first run, and no feature gets a second one.
pub record AddsRuns (requests : List FeatureRequest) (old new : List FeatureRun) : Type 0 where
  pub added : List FeatureRun
  pub before : new ≡ added ++ old
  pub waiting : All IsNew added
  pub covered : All (λ r. any (is_first_run r.id) new ≡ true) requests
  pub single :
      (id : String)
      → (count_rows (is_first_run id) new ≤ count_rows (is_first_run id) old)
        ⊎ (count_rows (is_first_run id) new ≤ 1)

any_append :
    (p : FeatureRun → Bool) (xs ys : List FeatureRun) → any p ys ≡ true → any p (xs ++ ys) ≡ true
any_append p [] ys h = h
any_append p (x ∷ xs) ys h = ground (arith, any_append p xs ys h)

none_counted :
    (p : FeatureRun → Bool) (xs : List FeatureRun) → any p xs ≡ false → count_rows p xs ≡ 0
none_counted p [] h = refl
none_counted p (x ∷ xs) h = ground (arith, h, none_counted p xs (ground (arith, h)))

snoc : {A : Type 0} (xs : List A) (x : A) (ys : List A) → xs ++ (x ∷ ys) ≡ (xs ++ (x ∷ [])) ++ ys
snoc [] x ys = refl
snoc (z ∷ xs) x ys = rw (snoc xs x ys) refl

All-snoc :
    (xs : List FeatureRun) (x : FeatureRun) → All IsNew xs → IsNew x → All IsNew (xs ++ (x ∷ []))
All-snoc [] x h p = (p, tt)
All-snoc (z ∷ xs) x h p = (h.0, All-snoc xs x h.1 p)

covers_first :
    (r : FeatureRequest) (rs : List FeatureRequest) (middle new : List FeatureRun)
    → AddsRuns rs middle new
    → any (is_first_run r.id) middle ≡ true
    → any (is_first_run r.id) new ≡ true
covers_first r rs middle new a h =
    subst (λ runs. any (is_first_run r.id) runs ≡ true) (sym a.before)
      (any_append (is_first_run r.id) a.added middle h)

single_after :
    (env : Env) (run_id : String) (r : FeatureRequest) (id : String) (old new : List FeatureRun)
    → any (is_first_run r.id) old ≡ false
    → (count_rows (is_first_run id) new
        ≤ count_rows (is_first_run id) (first_run env run_id r.id ∷ old))
      ⊎ (count_rows (is_first_run id) new ≤ 1)
    → (count_rows (is_first_run id) new ≤ count_rows (is_first_run id) old)
      ⊎ (count_rows (is_first_run id) new ≤ 1)
single_after env run_id r id old new h (inr one) = inr one
single_after env run_id r id old new h (inl more) = elim (Bool-cases (r.id == id)) [
  | inl same ↦
      let none : count_rows (is_first_run id) old ≡ 0 =
        subst (λ k. count_rows (is_first_run k) old ≡ 0) ((eq_iff r.id id).0 same)
          (none_counted (is_first_run r.id) old h) in
      inr (ground (arith, more, none, same))
  | inr other ↦ inl (ground (arith, more, other))
]

activate_all-AddsRuns :
    (env : Env) (rs : List FeatureRequest) (db : Db)
    → AddsRuns rs db.feature_runs (activate_all env rs db).feature_runs
unfolding activate_all
activate_all-AddsRuns env [] db = record {
  added = [];
  before = refl;
  waiting = tt;
  covered = tt;
  single = λ id. inl (omega arith);
}
activate_all-AddsRuns env (r ∷ rs) db =
    let new_run = first_run env (env.new_id db.ids_drawn) r.id in
    elim (Bool-cases (any (is_first_run r.id) db.feature_runs)) [
      | inl has_one ↦
          let rest = activate_all-AddsRuns env rs db in
          rw (activate_all, has_one)
            (record {
              added = rest.added;
              before = rest.before;
              waiting = rest.waiting;
              covered = (covers_first r rs _ _ rest has_one, rest.covered);
              single = rest.single;
            })
      | inr has_none ↦
          let middle = record db {
            ids_drawn = suc db.ids_drawn;
            feature_runs = new_run ∷ db.feature_runs;
          } in
          let rest = activate_all-AddsRuns env rs middle in
          let own : is_first_run r.id new_run ≡ true = rw ((eq_iff r.id r.id).1 refl) refl in
          rw (activate_all, has_none)
            (record {
              added = rest.added ++ (new_run ∷ []);
              before = rest.before ∙ snoc rest.added new_run db.feature_runs;
              waiting = All-snoc rest.added new_run rest.waiting (refl, refl);
              covered = (covers_first r rs _ _ rest (rw own refl), rest.covered);
              single = λ id.
                  single_after env (env.new_id db.ids_drawn) r id _ _ has_none (rest.single id);
            })
    ]

-- An activation that has moved a plan.
abbrev pub ActivatedPlan : Env → PlanPayload → Db → Result (CommandResult × Db) → Type 0
ActivatedPlan env p db (err e) = Unit
ActivatedPlan env p db (ok (result, db')) =
    (plan : ImplementationPlan) × (load_plan p db ≡ some plan)
    × (plan.version ≡ p.expected_version)
    × (plan.state ≡ PlanState.approved)
    × (db'.implementation_plans
        ≡ update_rows (plan_at p)
            (set_plan_state env PlanState.activated_for_execution (plan.version + 1))
            db.implementation_plans)
    × AddsRuns (where_rows (in_plan p.plan_id) db.feature_requests) db.feature_runs db'.feature_runs

-- What an activation that returns has done.
abbrev pub Activated : Env → Envelope → PlanPayload → Db → Result (CommandResult × Db) → Type 0
Activated env envelope p db (err e) = Unit
Activated env envelope p db (ok (result, db')) =
    ((cached_result env envelope "activate-plan" db ≡ some result)
      × (db'.implementation_plans ≡ db.implementation_plans)
      × (db'.feature_runs ≡ db.feature_runs))
    ⊎ ActivatedPlan env p db (ok (result, db'))

from_approved :
    (s : PlanState)
    → is_valid plan_lifecycle_matrix s PlanState.activated_for_execution ≡ true
    → s ≡ PlanState.approved
unfolding is_valid lookup
from_approved PlanState.draft h = cc
from_approved PlanState.pending_approval h = cc
from_approved PlanState.approved h = refl
from_approved PlanState.activated_for_execution h = cc

activate_all-plans :
    (env : Env) (rs : List FeatureRequest) (db : Db)
    → (activate_all env rs db).implementation_plans ≡ db.implementation_plans
unfolding activate_all
activate_all-plans env [] db = refl
activate_all-plans env (r ∷ rs) db = elim (Bool-cases (any (is_first_run r.id) db.feature_runs)) [
  | inl has_one ↦ rw (activate_all, has_one) (activate_all-plans env rs db)
  | inr has_none ↦ rw (activate_all, has_none) (activate_all-plans env rs _)
]

claimed :
    (env : Env) (envelope : Envelope) (p : PlanPayload) (db : Db) (rows : List IdempotencyKey)
    (r : Result (CommandResult × Db))
    → ActivatedPlan env p (with_keys db rows) r
    → Activated env envelope p db r
claimed env envelope p db rows (err e) h = tt
claimed env envelope p db rows (ok (result, db')) h = inr h

-- An activation that returns either returns the result cached under its key and leaves plans and
-- runs as they were; or it found the plan, approved and at the expected version, moved it to
-- activated_for_execution, one version up, and then: runs were only added, all of them first
-- attempts that wait for execution; every executable feature of the plan has a first run; and no
-- feature has more than one, unless it had before.
pub activate_plan-Activated :
    (env : Env) (envelope : Envelope) (p : PlanPayload) (db : Db)
    → Activated env envelope p db (activate_plan env envelope p db)
unfolding activate_plan
activate_plan-Activated env envelope p db =
    with_claim_replays (Activated env envelope p db) env envelope _ _ db tt
      (λ result rows cached. inl (cached, refl, refl))
      λ claim_id rows. claimed env envelope p db rows _ (
        let db' = with_keys db rows in
        let P = ActivatedPlan env p db' in
        checked_plan_cases P (λ e. tt) db' p PlanState.activated_for_execution _
          λ plan found may.
            let change =
              set_plan_state env PlanState.activated_for_execution (next_version plan.version) in
            let features = where_rows (in_plan p.plan_id) db.feature_requests in
            let moved = moved_plans p change db' in
            move_plan_cases P (λ e. tt) db' p change _
              (
                plan,
                found,
                ground (arith, may),
                from_approved plan.state (ground (arith, may)),
                activate_all-plans env features moved,
                activate_all-AddsRuns env features moved,
              ))
