-- ===== src/Reconcile/Decisions.antt =====
-- packages/core/src/scm/reconcile.ts: what a step decides, against the matrix and the lock.
use mini_coder.Common.{
  ℕ, ◌≡◌, ◌≢◌, refl, Bool, true, false, Option, none, some, arith, String_eq, eq_iff,
}
use mini_coder.Domain.{
  FeatureExecutionState, feature_execution_state_value, feature_execution_state_eq,
}
use mini_coder.Machine.Defs.{is_valid, lookup}
use mini_coder.Machine.Feature.{feature_execution_matrix}
use mini_coder.Command.Helpers.{LockContext}
use mini_coder.Handlers.Commands.{FeatureCommand}
use mini_coder.Reconcile.Mirror.{Observed}
use mini_coder.Reconcile.{ReconcileOptions, Decision, decide, requires_execution_lock}

-- The state that a command of the code host's reconciliation moves a run to.
abbrev pub target_of : FeatureCommand → Option FeatureExecutionState
target_of (FeatureCommand.do_record_pr_opened p) = some FeatureExecutionState.pr_opened
target_of (FeatureCommand.do_record_ci_running p) = some FeatureExecutionState.ci_running
target_of (FeatureCommand.do_record_ci_passed p) = some FeatureExecutionState.under_review
target_of (FeatureCommand.do_record_ci_failed p) = some FeatureExecutionState.ci_failed
target_of (FeatureCommand.do_record_changes_requested p) =
    some FeatureExecutionState.changes_requested
target_of (FeatureCommand.do_request_changes_after_ci_fail p) =
    some FeatureExecutionState.changes_requested
target_of (FeatureCommand.do_start_fixing p) = some FeatureExecutionState.fixing
target_of (FeatureCommand.do_escalate_to_human p) = some FeatureExecutionState.human_required
target_of _ = none

abbrev pub has_edge : FeatureExecutionState → Option FeatureExecutionState → Bool
has_edge s none = false
has_edge s (some t) = is_valid feature_execution_matrix s t

-- The commands that the execution lane guards.
abbrev pub needs_lane : FeatureCommand → Bool
needs_lane (FeatureCommand.do_record_pr_opened p) = true
needs_lane (FeatureCommand.do_record_ci_running p) = true
needs_lane (FeatureCommand.do_start_fixing p) = true
needs_lane _ = false

-- A command of the lane goes with the lock that the reconciliation was given.
abbrev pub HasLock : Bool → Option LockContext → Option LockContext → Type 0
HasLock false given sent = Unit {0}
HasLock true none sent = ⊥
HasLock true (some lock) sent = sent ≡ some lock

-- What a state waits for, which it does not find, where nothing is done.
abbrev pub IsQuiet : Observed → FeatureExecutionState → Type 0
IsQuiet seen FeatureExecutionState.code_pushed = ⊥
IsQuiet seen FeatureExecutionState.ci_failed = ⊥
IsQuiet seen FeatureExecutionState.changes_requested = ⊥
IsQuiet seen FeatureExecutionState.pr_opened =
    (seen.ci_status ≢ "running") × (seen.ci_status ≢ "passed") × (seen.ci_status ≢ "failed")
IsQuiet seen FeatureExecutionState.ci_running =
    (seen.ci_status ≢ "passed") × (seen.ci_status ≢ "failed")
IsQuiet seen FeatureExecutionState.under_review = seen.review_state ≢ "changes_requested"
IsQuiet seen _ = Unit {0}

-- A command with an edge from the state, and with the lock where the lane guards it; a report that
-- the lock is missing; or nothing.
abbrev pub IsLegal : Option LockContext → Observed → FeatureExecutionState → Decision → Type 0
IsLegal context seen s Decision.idle = IsQuiet seen s
IsLegal context seen s Decision.need_lock =
    (requires_execution_lock s ≡ true) × (context ≡ none) × ¬ IsQuiet seen s
IsLegal context seen s (Decision.send action key lock command) =
    (has_edge s (target_of command) ≡ true) × HasLock (needs_lane command) context lock

-- Whatever the code host reports, in every state but `skipped` a step decides on a command that the
-- matrix has an edge for, and that carries the lock given to the reconciliation where the execution
-- lane guards it; or it asks for a lock, and then none was given, the state requires one and there
-- is something to do; or it does nothing, and then the state does not wait for what is reported.
pub decide-IsLegal :
    (o : ReconcileOptions) (s : FeatureExecutionState) (version attempts : ℕ)
    → s ≢ FeatureExecutionState.skipped
    → IsLegal o.lock_context o.observed s
        (decide o (feature_execution_state_value s) version attempts)
unfolding decide feature_execution_state_value is_valid lookup requires_execution_lock
decide-IsLegal o FeatureExecutionState.skipped version attempts h = absurd (h refl)
decide-IsLegal o FeatureExecutionState.code_pushed version attempts h = ground arith
decide-IsLegal o FeatureExecutionState.pr_opened version attempts h =
    let ci = o.observed.ci_status in
    ground (arith, eq_iff ci "running", eq_iff ci "passed", eq_iff ci "failed")
decide-IsLegal o FeatureExecutionState.ci_running version attempts h =
    let ci = o.observed.ci_status in ground (arith, eq_iff ci "passed", eq_iff ci "failed")
decide-IsLegal o FeatureExecutionState.ci_failed version attempts h = ground arith
decide-IsLegal o FeatureExecutionState.changes_requested version attempts h = ground arith
decide-IsLegal o FeatureExecutionState.under_review version attempts h =
    ground (arith, eq_iff o.observed.review_state "changes_requested")
decide-IsLegal o _ version attempts h = ground arith
