-- ===== src/Handlers/Outcome.antt =====
-- What a feature command may do to the table of feature runs.
use mini_coder.Handlers.Reviews.{fix_attempt_threshold}
use mini_coder.Common.{
  not, leb, ◌≡◌, ◌⊎◌, Bool, true, false, ◌&&◌, none, some, ◌==◌, ℕ_eq, update_rows,
}
use mini_coder.Domain.{FeatureExecutionState, feature_execution_state_eq}
use mini_coder.Machine.Defs.{Verdict, valid, transition_error, assert_valid}
use mini_coder.Machine.Feature.{feature_execution_matrix}
use mini_coder.Store.Rows.{FeatureRun, CommandResult}
use mini_coder.Store.{Db, Result, ok, err}
use mini_coder.Handlers.Steps.{FeaturePayload, load_run, at_version}

abbrev pub is_accepted : Verdict FeatureExecutionState → Bool
is_accepted (valid r) = true
is_accepted (transition_error f t) = false

-- What a handler asks of the run besides: nothing, or that another fix attempt is allowed.
abbrev pub any_run : FeatureRun → Bool
any_run run = true

abbrev pub below_threshold : FeatureRun → Bool
below_threshold run = not (leb fix_attempt_threshold run.fix_attempt_count)

-- The run is there, at the expected version, and the matrix has its edge to `to`.
abbrev pub may_move : FeaturePayload → FeatureExecutionState → (FeatureRun → Bool) → Db → Bool
may_move p to guard db = elim (load_run p db) [
  | none ↦ false
  | some run ↦
      run.version == p.expected_version
      && (is_accepted (assert_valid feature_execution_matrix run.current_execution_state to)
          && guard run)
]

-- Either the runs are untouched, or the run of the payload made one move along the matrix.
abbrev pub Outcome :
    FeaturePayload
    → FeatureExecutionState
    → (FeatureRun → Bool)
    → (FeatureRun → FeatureRun)
    → Db
    → Result (CommandResult × Db)
    → Type 0
Outcome p to guard change db (err e) = Unit
Outcome p to guard change db (ok (result, db')) =
    (db'.feature_runs ≡ db.feature_runs)
    ⊎ ((may_move p to guard db ≡ true)
        × (db'.feature_runs
            ≡ update_rows (at_version p.feature_run_id p.expected_version) change db.feature_runs))
