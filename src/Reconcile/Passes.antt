-- ===== src/Reconcile/Passes.antt =====
-- packages/core/src/scm/reconcile.ts: what a whole call does to the feature runs.
use mini_coder.Common.{ℕ, zero, suc, sym, subst, inl, inr, Option, none, some, String, Bool-cases}
use mini_coder.Auth.Guards.{is_authorized}
use mini_coder.Store.Rows.{CommandResult, FeatureRun}
use mini_coder.Store.{Db, Env, ok, err}
use mini_coder.Command.Helpers.{Envelope}
use mini_coder.Handlers.Merging.{Gated}
use mini_coder.Handlers.Commands.{FeatureCommand, handle, handler_meta}
use mini_coder.Handlers.Evolution.{
  Pointwise-trans, Pointwise-run_ids, Distinct, run_ids, Evolves, Evolves-trans,
}
use mini_coder.Handlers.Histories.{Evolved, Evolved-refl, exec_command-Evolved}
use mini_coder.Executor.{execute_command, or_handle}
use mini_coder.Reconcile.{Decision, ReconcileOptions, ReconciliationAction}
use mini_coder.Reconcile.Stepping.{
  Left, Reconciled, StepResult, act, after_step, catch_up, is_lock_required, max_reconcile_steps,
  mirror_again, reconcile_github_state, reconcile_run, run_step, step_of,
}

Evolved-Distinct :
    (a b : Db) → Evolved a b → Distinct (run_ids a.feature_runs) → Distinct (run_ids b.feature_runs)
Evolved-Distinct a b e d = subst Distinct (sym (Pointwise-run_ids e)) d

or_handle-Evolved :
    (env : Env) (envelope : Envelope) (command : FeatureCommand) (db : Db)
    (cached : Option CommandResult)
    → Distinct (run_ids db.feature_runs)
    → Evolved db (or_handle db (handle env envelope command db) cached).1
or_handle-Evolved env envelope command db none d = exec_command-Evolved env envelope command db d
or_handle-Evolved env envelope command db (some result) d = Evolved-refl db

execute_command-Evolved :
    (env : Env) (envelope : Envelope) (command : FeatureCommand) (db : Db)
    → Distinct (run_ids db.feature_runs)
    → Evolved db (execute_command env envelope command db).1
unfolding execute_command
execute_command-Evolved env envelope command db d =
    let m = handler_meta command in
    elim (Bool-cases (is_authorized envelope.actor m.required_role m.required_kind)) [
      | inl may ↦ rw may (or_handle-Evolved env envelope command db _ d)
      | inr refused ↦ rw refused (Evolved-refl db)
    ]

step_of-Evolved :
    (action : ReconciliationAction) (db : Db) (g : Gated)
    → Evolved db g.1
    → Evolved db (step_of action g).1
step_of-Evolved action db (ok result, db') e = e
step_of-Evolved action db (err error, db') e = e

act-Evolved :
    (env : Env) (d : Decision) (db : Db)
    → Distinct (run_ids db.feature_runs)
    → Evolved db (act env d db).1
unfolding act
act-Evolved env Decision.idle db distinct = Evolved-refl db
act-Evolved env Decision.need_lock db distinct = Evolved-refl db
act-Evolved env (Decision.send action key lock command) db distinct =
    step_of-Evolved action db _ (execute_command-Evolved env _ command _ distinct)

catch_up-Evolved :
    (left : ℕ) (clock : ℕ → Env) (o : ReconcileOptions) (current : String) (version : ℕ)
    (r : Reconciled) (db : Db)
    → Distinct (run_ids db.feature_runs)
    → Evolved db (catch_up left clock o current version r db).1
unfolding catch_up
catch_up-Evolved zero clock o current version r db d = Evolved-refl db
catch_up-Evolved (suc left) clock o current version r db d =
    go (run_step (clock (suc left)) o current version db) (act-Evolved (clock (suc left)) _ db d)
      (λ current' version' r' db' d'. catch_up-Evolved left clock o current' version' r' db' d')
  where
    go :
        (step : Left (Option StepResult))
        → Evolved db step.1
        → ((current' : String) (version' : ℕ) (r' : Reconciled) (db' : Db)
            → Distinct (run_ids db'.feature_runs)
            → Evolved db' (catch_up left clock o current' version' r' db').1)
        → Evolved db (after_step (catch_up left clock o) current version r step).1
    go (err e, db') e' again = e'
    go (ok none, db') e' again = e'
    go (ok (some step), db') e' again = elim (Bool-cases (is_lock_required step.action)) [
      | inl locked ↦ rw locked e'
      | inr free ↦ rw free (
          Pointwise-trans Evolves Evolves-trans e' (again _ _ _ db' (Evolved-Distinct db db' e' d)))
    ]

mirror_again-Evolved :
    (env : Env) (o : ReconcileOptions) (db : Db) (l : Left Reconciled)
    → Evolved db l.1
    → Evolved db (mirror_again env o l).1
mirror_again-Evolved env o db (ok r, db') e = e
mirror_again-Evolved env o db (err error, db') e = e

-- Where the ids of the feature runs are distinct, whatever the code host reports and whatever the
-- times: after a reconciliation, also one that throws midway, the table of runs keeps its rows, and
-- every run is itself or the same run further along the matrix with a higher version.
pub reconcile_github_state-Evolved :
    (clock : ℕ → Env) (o : ReconcileOptions) (db : Db)
    → Distinct (run_ids db.feature_runs)
    → Evolved db (reconcile_github_state clock o db).1
unfolding reconcile_github_state
reconcile_github_state-Evolved clock o db d = go _
  where
    go : (found : Option FeatureRun) → Evolved db (reconcile_run clock o found db).1
    go none = Evolved-refl db
    go (some run) =
        mirror_again-Evolved (clock 0) o db _
          (catch_up-Evolved max_reconcile_steps clock o _ run.version _ _ d)
