-- ===== src/Handlers/Guards.antt =====
-- What has to hold before a run is selected, and before a step of the execution lane is recorded.
use mini_coder.Common.{
  ◌&&◌, leb, ℕ_eq, Option-cases, Bool-cases, ℕ, ◌+◌, ◌≡◌, refl, sym, subst, ◌⊎◌, inl, inr, Bool,
  true, false, Option, none, some, List, String, arith, find, update_rows, count_rows, ltb, ◌==◌,
  String_eq,
}
use mini_coder.Domain.{automation_state_eq}
use mini_coder.Store.Rows.{WorkflowState, IdempotencyKey, WorkflowLock, CommandResult}
use mini_coder.Store.{Error, command_error, stale_fence_error, Db, Env, Result, ok, err, M, ◌>>◌}
use mini_coder.Command.Helpers.{Envelope, LockContext, with_claim}
use mini_coder.Command.Fence.{
  execution_lane_key, is_stale, check_fence, assert_lock_fence, require_lane,
}
use mini_coder.Command.Claims.{cached_result, with_keys, with_claim_cases, with_claim_replays}
use mini_coder.Handlers.Steps.{FeaturePayload, load_run, unmet_dependencies, is_empty}
use mini_coder.Handlers.Selection.{select_feature, start_coding, is_free}
use mini_coder.Handlers.Coding.{PushedPayload, record_code_pushed, start_fixing}
use mini_coder.Handlers.Merging.{result_of}
use mini_coder.Handlers.Commands.{FeatureCommand, handle, exec_command}
use mini_coder.Handlers.Github.{OpenedPayload, CheckPayload, record_pr_opened, record_ci_running}

-- Every dependency of the run's request has a merged run.
abbrev pub dependencies_met : FeaturePayload → Db → Bool
dependencies_met p db = elim (load_run p db) [
  | none ↦ false
  | some run ↦ is_empty (unmet_dependencies run.feature_request_id db)
]

abbrev pub activated : Env → FeaturePayload → WorkflowState → WorkflowState
activated env p ws = record ws {
  active_feature_run_id = some p.feature_run_id;
  version = ws.version + 1;
  updated_at = env.now;
}

abbrev pub SelectGuarded :
    Env → Envelope → FeaturePayload → Db → Result (CommandResult × Db) → Type 0
SelectGuarded env envelope p db (err e) = Unit
SelectGuarded env envelope p db (ok (result, db')) =
    ((cached_result env envelope "select-feature" db ≡ some result)
      × (db'.feature_runs ≡ db.feature_runs)
      × (db'.workflow_states ≡ db.workflow_states))
    ⊎ ((dependencies_met p db ≡ true)
        × (ltb 0 (count_rows (is_free p.project_id) db.workflow_states) ≡ true)
        × (db'.workflow_states
            ≡ update_rows (is_free p.project_id) (activated env p) db.workflow_states))

-- A selection that returns either returns the result cached under its key and changes no run and no
-- workflow state, or every dependency of the request has a merged run, the project's automation is
-- running and had no active run, and the run of the payload is now the active one.
pub select_feature-SelectGuarded :
    (env : Env) (envelope : Envelope) (p : FeaturePayload) (db : Db)
    → SelectGuarded env envelope p db (select_feature env envelope p db)
unfolding select_feature
select_feature-SelectGuarded env envelope p db =
    with_claim_replays (SelectGuarded env envelope p db) env envelope _ _ db tt
      (λ result rows cached. inl (cached, refl, refl)) (λ claim_id rows. ground arith)

abbrev lasts : ℕ → Option ℕ → Bool
lasts now none = true
lasts now (some expires_at) = leb now expires_at

-- The row is the project's execution lane, has the context's holder and fence, and lasts.
abbrev pub is_held : ℕ → LockContext → String → WorkflowLock → Bool
is_held now context project_id lock =
    lock.project_id == project_id
    && (lock.resource_key == execution_lane_key project_id
        && (lock.holder_id == context.holder_id
            && (lock.fence == context.fence && lasts now lock.expires_at)))

abbrev lane_context : LockContext → String → LockContext
lane_context context project_id = record context {
  project_id = some project_id;
  resource_key = some (execution_lane_key project_id);
}

fresh-is_held :
    (now : ℕ) (context : LockContext) (project_id : String) (lock : WorkflowLock)
    → is_stale now (lane_context context project_id) lock ≡ false
    → is_held now context project_id lock ≡ true
fresh-is_held now context project_id lock h = elim (Option-cases lock.expires_at) [
  | inl e ↦ ground (arith, h, e)
  | inr (t, e) ↦ ground (arith, h, e)
]

abbrev pub live_lane : ℕ → LockContext → String → Db → Bool
live_lane now context project_id db = elim (find (λ l. l.id == context.lock_id) db.workflow_locks) [
  | none ↦ false
  | some lock ↦ is_held now context project_id lock
]

abbrev pub holds_lane : Env → Envelope → String → Db → Bool
holds_lane env envelope project_id db = elim envelope.lock_context [
  | none ↦ false
  | some context ↦ live_lane env.now context project_id db
]

check_fence_live :
    (now : ℕ) (context : LockContext) (project_id : String) (lock : Option WorkflowLock) (db : Db)
    → ((check_fence now (lane_context context project_id) lock db ≡ ok (tt, db))
        × (elim lock [ none ↦ false | some l ↦ is_held now context project_id l ] ≡ true))
      ⊎ ((e : Error) × (check_fence now (lane_context context project_id) lock db ≡ err e))
check_fence_live now context project_id none db =
    inr (stale_fence_error context.lock_id context.fence none, refl)
check_fence_live now context project_id (some lock) db =
    elim (Bool-cases (is_stale now (lane_context context project_id) lock)) [
      | inl stale ↦
          inr (stale_fence_error context.lock_id context.fence (some lock.fence), rw stale refl)
      | inr fresh ↦ inl (rw fresh refl, fresh-is_held now context project_id lock fresh)
    ]

lane_cases :
    (env : Env) (envelope : Envelope) (project_id : String) (db : Db)
    → ((require_lane env envelope project_id db ≡ ok (tt, db))
        × (holds_lane env envelope project_id db ≡ true))
      ⊎ ((e : Error) × (require_lane env envelope project_id db ≡ err e))
unfolding require_lane assert_lock_fence
lane_cases env envelope project_id db = elim (Option-cases envelope.lock_context) [
  | inl missing ↦ inr (command_error "missing-lock" 400, rw (missing, require_lane))
  | inr (context, e) ↦
      rw (e, require_lane)
        (check_fence_live env.now context project_id
          (find (λ l. l.id == context.lock_id) db.workflow_locks) db)
]

abbrev pub LaneGuarded : Env → Envelope → String → Db → Result (CommandResult × Db) → Type 0
LaneGuarded env envelope project_id db (err e) = Unit
LaneGuarded env envelope project_id db (ok (result, db')) =
    (db'.feature_runs ≡ db.feature_runs) ⊎ (holds_lane env envelope project_id db ≡ true)

-- A body that asks for the lane first.
guarded :
    (env : Env) (envelope : Envelope) (project_id : String) (db : Db) (rows : List IdempotencyKey)
    (body : M CommandResult)
    → LaneGuarded env envelope project_id db
        ((require_lane env envelope project_id >> body) (with_keys db rows))
guarded env envelope project_id db rows body =
    elim (lane_cases env envelope project_id (with_keys db rows)) [
      | inl (e, lane) ↦ subst after (sym e) (any_result (body (with_keys db rows)) lane)
      | inr (error, e) ↦ subst after (sym e) tt
    ]
  where
    after : Result (Unit {0} × Db) → Type 0
    after r =
        LaneGuarded env envelope project_id db (elim r [ ok (u, db') ↦ body db' | err e ↦ err e ])

    any_result :
        (r : Result (CommandResult × Db))
        → holds_lane env envelope project_id db ≡ true
        → LaneGuarded env envelope project_id db r
    any_result (ok (result, db')) lane = inr lane
    any_result (err e) lane = tt

with_claim-LaneGuarded :
    (env : Env) (envelope : Envelope) (scope project_id : String) (body : String → M CommandResult)
    (db : Db)
    → LaneGuarded env envelope project_id db (
        with_claim env envelope scope
          (λ claim_id. require_lane env envelope project_id >> body claim_id)
          db)
with_claim-LaneGuarded env envelope scope project_id body db =
    with_claim_cases (LaneGuarded env envelope project_id db) env envelope scope _ db tt
      (λ result rows. inl refl)
      (λ claim_id rows. guarded env envelope project_id db rows (body claim_id))

start_coding-LaneGuarded :
    (env : Env) (envelope : Envelope) (p : FeaturePayload) (db : Db)
    → LaneGuarded env envelope p.project_id db (start_coding env envelope p db)
unfolding start_coding
start_coding-LaneGuarded env envelope p db = with_claim-LaneGuarded env envelope _ p.project_id _ db

record_code_pushed-LaneGuarded :
    (env : Env) (envelope : Envelope) (p : PushedPayload) (db : Db)
    → LaneGuarded env envelope p.run.project_id db (record_code_pushed env envelope p db)
unfolding record_code_pushed
record_code_pushed-LaneGuarded env envelope p db =
    with_claim-LaneGuarded env envelope _ p.run.project_id _ db

start_fixing-LaneGuarded :
    (env : Env) (envelope : Envelope) (p : FeaturePayload) (db : Db)
    → LaneGuarded env envelope p.project_id db (start_fixing env envelope p db)
unfolding start_fixing
start_fixing-LaneGuarded env envelope p db = with_claim-LaneGuarded env envelope _ p.project_id _ db

record_pr_opened-LaneGuarded :
    (env : Env) (envelope : Envelope) (p : OpenedPayload) (db : Db)
    → LaneGuarded env envelope p.run.project_id db (record_pr_opened env envelope p db)
unfolding record_pr_opened
record_pr_opened-LaneGuarded env envelope p db =
    with_claim-LaneGuarded env envelope _ p.run.project_id _ db

record_ci_running-LaneGuarded :
    (env : Env) (envelope : Envelope) (p : CheckPayload) (db : Db)
    → LaneGuarded env envelope p.run.project_id db (record_ci_running env envelope p db)
unfolding record_ci_running
record_ci_running-LaneGuarded env envelope p db =
    with_claim-LaneGuarded env envelope _ p.run.project_id _ db

-- The commands that need the execution lane.
pub data LaneCommand : FeatureCommand → FeaturePayload → Type 0 where
  coding : (p : FeaturePayload) → LaneCommand (FeatureCommand.do_start_coding p) p
  pushed : (q : PushedPayload) → LaneCommand (FeatureCommand.do_record_code_pushed q) q.run
  fixing : (p : FeaturePayload) → LaneCommand (FeatureCommand.do_start_fixing p) p
  opened : (q : OpenedPayload) → LaneCommand (FeatureCommand.do_record_pr_opened q) q.run
  checking : (q : CheckPayload) → LaneCommand (FeatureCommand.do_record_ci_running q) q.run

lane_result :
    (env : Env) (envelope : Envelope) (project_id : String) (db : Db)
    (r : Result (CommandResult × Db))
    → LaneGuarded env envelope project_id db r
    → ((result_of db r).1.feature_runs ≡ db.feature_runs)
      ⊎ (holds_lane env envelope project_id db ≡ true)
lane_result env envelope project_id db (ok (result, db')) g = g
lane_result env envelope project_id db (err e) g = inl refl

-- A command of the execution lane (start coding, code pushed, start fixing, pull request opened, CI
-- running) changes a feature run only if the envelope has a lock context whose row carries the
-- context's holder and fence, is the project's execution lane, and is not expired.
pub lane_guarded :
    (env : Env) (envelope : Envelope) (command : FeatureCommand) (p : FeaturePayload) (db : Db)
    → LaneCommand command p
    → ((exec_command env envelope command db).feature_runs ≡ db.feature_runs)
      ⊎ (holds_lane env envelope p.project_id db ≡ true)
unfolding handle
lane_guarded env envelope command p db (LaneCommand.coding q) =
    lane_result env envelope _ db _ (start_coding-LaneGuarded env envelope q db)
lane_guarded env envelope command p db (LaneCommand.pushed q) =
    lane_result env envelope _ db _ (record_code_pushed-LaneGuarded env envelope q db)
lane_guarded env envelope command p db (LaneCommand.fixing q) =
    lane_result env envelope _ db _ (start_fixing-LaneGuarded env envelope q db)
lane_guarded env envelope command p db (LaneCommand.opened q) =
    lane_result env envelope _ db _ (record_pr_opened-LaneGuarded env envelope q db)
lane_guarded env envelope command p db (LaneCommand.checking q) =
    lane_result env envelope _ db _ (record_ci_running-LaneGuarded env envelope q db)
