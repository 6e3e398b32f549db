-- ===== src/Handlers/Evolving.antt =====
-- A command's outcome is an evolution of the table.
use mini_coder.Common.{
  ◌+◌, ◌≡◌, refl, sym, subst, inl, inr, Bool, true, ◌&&◌, some, List, [], ◌∷◌, arith, All,
  update_rows, ◌==◌, ℕ_eq, String_eq, Option-cases, eq_iff,
}
use mini_coder.Domain.{FeatureExecutionState, feature_execution_state_eq}
use mini_coder.Machine.Defs.{assert_valid, is_valid, lookup}
use mini_coder.Machine.Feature.{feature_execution_matrix}
use mini_coder.Machine.Graph.{here, next, CanMove}
use mini_coder.Store.Rows.{FeatureRun, CommandResult}
use mini_coder.Store.{Db, Env, ok}
use mini_coder.Handlers.Steps.{FeaturePayload, load_run, in_project, at_version, set_state}
use mini_coder.Handlers.Transition.{set_attempt}
use mini_coder.Handlers.Outcome.{Outcome, may_move, below_threshold, is_accepted}
use mini_coder.Handlers.Evolution.{
  Pointwise, Pointwise-refl, update_rows-Pointwise, Distinct, run_ids, Evolves, Evolves-refl,
  find_unique,
}

pub accepted-CanMove :
    (s t : FeatureExecutionState)
    → is_accepted (assert_valid feature_execution_matrix s t) ≡ true
    → CanMove s t
unfolding assert_valid is_valid
accepted-CanMove s t h = elim (Option-cases (lookup feature_execution_matrix s t)) [
  | inl missing ↦ ground (arith, h, missing)
  | inr (r, found) ↦ ground (arith, h, found)
]

-- The run that a command may move.
pub record Movable (p : FeaturePayload) (to : FeatureExecutionState) (guard : FeatureRun → Bool)
    (db : Db) : Type 0 where
  pub run : FeatureRun
  pub found : load_run p db ≡ some run
  pub at_expected : run.version ≡ p.expected_version
  pub edge : CanMove run.current_execution_state to
  pub guarded : guard run ≡ true

pub may_move-Movable :
    (p : FeaturePayload) (to : FeatureExecutionState) (guard : FeatureRun → Bool) (db : Db)
    → may_move p to guard db ≡ true
    → Movable p to guard db
may_move-Movable p to guard db h = elim (Option-cases (load_run p db)) [
  | inl missing ↦ ground (arith, h, missing)
  | inr (run, found) ↦ record {
    run = run;
    found = found;
    at_expected = ground (arith, h, found);
    edge = accepted-CanMove run.current_execution_state to (ground (arith, h, found));
    guarded = ground (arith, h, found);
  }
]

-- A change that takes a run along the matrix and raises its version.
abbrev pub Advances :
    FeaturePayload
    → FeatureExecutionState
    → (FeatureRun → Bool)
    → (FeatureRun → FeatureRun)
    → Type 0
Advances p to guard change =
    (x : FeatureRun)
    → x.version ≡ p.expected_version
    → CanMove x.current_execution_state to
    → guard x ≡ true
    → Evolves x (change x)

pub set_state-Advances :
    (env : Env) (p : FeaturePayload) (to : FeatureExecutionState) (guard : FeatureRun → Bool)
    → Advances p to guard (set_state env to (p.expected_version + 1))
set_state-Advances env p to guard x v e g = record {
  same_id = refl;
  same_request = refl;
  reached = next here e;
  versioned = inr (omega (arith, v));
  bounded = inl (omega arith);
}

pub set_attempt-Advances :
    (env : Env) (p : FeaturePayload) (to : FeatureExecutionState)
    → Advances p to below_threshold (set_attempt env to (p.expected_version + 1))
set_attempt-Advances env p to x v e g = record {
  same_id = refl;
  same_request = refl;
  reached = next here e;
  versioned = inr (omega (arith, v));
  bounded = inr (ground (arith, g));
}

module _ (p : FeaturePayload) (to : FeatureExecutionState) (guard : FeatureRun → Bool)
    (change : FeatureRun → FeatureRun) (db : Db) (advances : Advances p to guard change)
    (distinct : Distinct (run_ids db.feature_runs)) where
  load_fits :
      (x : FeatureRun)
      → (x.id == p.feature_run_id && in_project db p.project_id x) ≡ true
      → x.id ≡ p.feature_run_id
  load_fits x h = (eq_iff x.id p.feature_run_id).0 (ground (arith, h))

  advanced :
      (m : Movable p to guard db) (xs : List FeatureRun)
      → All (λ x. x.id ≡ p.feature_run_id → x ≡ m.run) xs
      → All (λ x. at_version p.feature_run_id p.expected_version x ≡ true → Evolves x (change x)) xs
  advanced m [] h = tt
  advanced m (x ∷ xs) (h, hs) = (
    (λ hit.
        let same : x ≡ m.run = h ((eq_iff x.id p.feature_run_id).0 (ground (arith, hit))) in
        subst (λ r. Evolves r (change r)) (sym same)
          (advances m.run m.at_expected m.edge m.guarded)),
    advanced m xs hs,
  )

  pub Movable-Pointwise :
      Movable p to guard db
      → Pointwise Evolves db.feature_runs
          (update_rows (at_version p.feature_run_id p.expected_version) change db.feature_runs)
  Movable-Pointwise m = update_rows-Pointwise Evolves _ change db.feature_runs Evolves-refl (
      advanced m db.feature_runs (
        find_unique (λ r. r.id) _ p.feature_run_id load_fits m.run db.feature_runs distinct
          m.found))

  pub Outcome-Pointwise :
      (result : CommandResult) (db' : Db)
      → Outcome p to guard change db (ok (result, db'))
      → Pointwise Evolves db.feature_runs db'.feature_runs
  Outcome-Pointwise result db' (inl same) =
      subst (Pointwise Evolves db.feature_runs) (sym same)
        (Pointwise-refl Evolves Evolves-refl db.feature_runs)
  Outcome-Pointwise result db' (inr (may, moved)) =
      subst (Pointwise Evolves db.feature_runs) (sym moved)
        (Movable-Pointwise (may_move-Movable p to guard db may))
