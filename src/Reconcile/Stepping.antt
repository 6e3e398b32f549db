-- ===== src/Reconcile/Stepping.antt =====
-- packages/core/src/scm/reconcile.ts: what a decision does, and up to five in a row.
use mini_coder.Common.{
  ℕ, zero, suc, Bool, true, false, Option, none, some, List, [], ◌∷◌, ◌++◌, String, String_eq,
  if◌then◌else◌,
}
use mini_coder.Domain.{feature_execution_state_value, UserRole}
use mini_coder.Auth.Guards.{ActorKind, ActorIdentity}
use mini_coder.Store.Rows.{FeatureRun}
use mini_coder.Store.{Db, Env, plain_error, Result, ok, err}
use mini_coder.Command.Helpers.{Envelope, LockContext, next_version}
use mini_coder.Command.Text.{◌&◌}
use mini_coder.Handlers.Steps.{load_run}
use mini_coder.Handlers.Merging.{Gated}
use mini_coder.Executor.{execute_command}
use mini_coder.Reconcile.Mirror.{sync_pull_request_observed_state}
use mini_coder.Reconcile.{
  idle, need_lock, send, lock_required, ReconciliationAction, ReconcileOptions, Decision,
  payload_of, fix_attempts, decide,
}

-- `systemActor`.
abbrev pub system_actor : ActorIdentity
system_actor = record {
  id = "github-reconciliation";
  role = UserRole.admin;
  actor_kind = ActorKind.system;
}

-- What a step reports: an action, and the state of the command's result.
pub record StepResult : Type 0 where
  pub action : ReconciliationAction
  pub resulting_state : Option String

-- What a call returns or throws, and the database it leaves.
abbrev pub Left : Type 0 → Type 0
Left A = Result A × Db

abbrev pub step_of : ReconciliationAction → Gated → Left (Option StepResult)
step_of action (ok result, db) =
    (ok (some (record { action = action; resulting_state = some result.resulting_state })), db)
step_of action (err e, db) = (err e, db)

abbrev pub envelope_of : String → String → Option LockContext → Envelope
envelope_of id key lock = record {
  command_id = id;
  idempotency_key = key;
  actor = system_actor;
  lock_context = lock;
}

unfoldable pub act : Env → Decision → Db → Left (Option StepResult)
act env idle db = (ok none, db)
act env need_lock db = (ok (some (record { action = lock_required; resulting_state = none })), db)
act env (send action key lock command) db = step_of action (
    execute_command env (envelope_of (env.new_id db.ids_drawn) key lock) command
      (record db { ids_drawn = suc db.ids_drawn }))

-- `runStep`.
abbrev pub run_step : Env → ReconcileOptions → String → ℕ → Db → Left (Option StepResult)
run_step env o current version db =
    act env (decide o current version (fix_attempts o.feature_run_id db)) db

-- `ReconcileGithubStateResult`; its `action` is the last of `actions`.
pub record Reconciled : Type 0 where
  pub actions : List ReconciliationAction
  pub resulting_state : Option String

abbrev pub state_or : Option String → String → String
state_or none current = current
state_or (some s) current = s

abbrev pub is_lock_required : ReconciliationAction → Bool
is_lock_required lock_required = true
is_lock_required _ = false

-- What the loop does with a step: stop, or go on from where the step led.
abbrev pub after_step :
    (String → ℕ → Reconciled → Db → Left Reconciled)
    → String
    → ℕ
    → Reconciled
    → Left (Option StepResult)
    → Left Reconciled
after_step again current version r (err e, db) = (err e, db)
after_step again current version r (ok none, db) = (ok r, db)
after_step again current version r (ok (some step), db) =
    let actions = r.actions ++ step.action ∷ [] in
    if is_lock_required step.action
    then (ok (record r { actions = actions }), db)
    else again (state_or step.resulting_state current) (next_version version)
        (record { actions = actions; resulting_state = step.resulting_state }) db

-- The catch-up loop, for the steps that are left of MAX_RECONCILE_STEPS; `clock` has a reading for
-- each step.
unfoldable pub catch_up :
    ℕ → (ℕ → Env) → ReconcileOptions → String → ℕ → Reconciled → Db → Left Reconciled
catch_up zero clock o current version r db = (ok r, db)
catch_up (suc left) clock o current version r db =
    after_step (catch_up left clock o) current version r
      (run_step (clock (suc left)) o current version db)

abbrev pub max_reconcile_steps : ℕ
max_reconcile_steps = 5

-- The second pass of the mirror, where nothing was thrown.
abbrev pub mirror_again : Env → ReconcileOptions → Left Reconciled → Left Reconciled
mirror_again env o (err e, db) = (err e, db)
mirror_again env o (ok r, db) =
    (ok r, sync_pull_request_observed_state env o.feature_run_id o.observed db)

abbrev pub reconcile_run : (ℕ → Env) → ReconcileOptions → Option FeatureRun → Db → Left Reconciled
reconcile_run clock o none db = (
  err (
      plain_error (
        "reconcileGithubState: feature run "
        & (o.feature_run_id & (" not found in project " & o.project_id)))),
  db,
)
reconcile_run clock o (some run) db = mirror_again (clock 0) o (
    catch_up max_reconcile_steps clock o (feature_execution_state_value run.current_execution_state)
      run.version (record { actions = []; resulting_state = none })
      (sync_pull_request_observed_state (clock (suc max_reconcile_steps)) o.feature_run_id
        o.observed db))

-- `reconcileGithubState`; the clock counts down from the first pass of the mirror to the second.
unfoldable pub reconcile_github_state : (ℕ → Env) → ReconcileOptions → Db → Left Reconciled
reconcile_github_state clock o db = reconcile_run clock o (load_run (payload_of o 0) db) db
