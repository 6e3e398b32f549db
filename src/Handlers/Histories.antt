-- ===== src/Handlers/Histories.antt =====
-- What any sequence of commands does to the feature runs.
use mini_coder.Common.{◌+◌, ◌≡◌, sym, subst, inl, inr, ◌⊎◌, Bool, Bool-cases, false, List, [], ◌∷◌}
use mini_coder.Domain.{FeatureExecutionState}
use mini_coder.Machine.Graph.{is_terminal}
use mini_coder.Store.Rows.{FeatureRun, CommandResult}
use mini_coder.Store.{Db, Env, Result, ok, err}
use mini_coder.Command.Helpers.{Envelope}
use mini_coder.Handlers.Steps.{FeaturePayload, set_state}
use mini_coder.Handlers.Transition.{set_attempt}
use mini_coder.Handlers.Merging.{Gated, result_of}
use mini_coder.Handlers.Selection.{select_feature, start_coding}
use mini_coder.Handlers.Coding.{record_code_pushed, start_fixing}
use mini_coder.Handlers.Github.{
  record_ci_failed, record_ci_passed, record_ci_running, record_pr_opened,
}
use mini_coder.Handlers.Reviews.{record_changes_requested, request_changes_after_ci_fail}
use mini_coder.Handlers.Human.{
  block_feature, escalate_to_human, human_unblock_feature, retry_feature, unblock_feature,
}
use mini_coder.Handlers.Disagreement.{resolve_disagreement, resume_feature_execution}
use mini_coder.Handlers.Merging.{
  merge_if_ready, reconcile_merge_failed, record_approved_by_policy, record_merge_failed,
  record_merged,
}
use mini_coder.Handlers.Skipping.{skip_feature}
use mini_coder.Handlers.Commands.{FeatureCommand, handle, exec_command, exec_all, Issued}
use mini_coder.Handlers.Outcome.{Outcome, any_run, below_threshold}
use mini_coder.Handlers.Evolution.{
  Pointwise, Pointwise-refl, Pointwise-trans, Pointwise-map, Pointwise-run_ids, Distinct, run_ids,
  Evolves, Evolves-refl, Evolves-trans, Evolves-terminal,
}
use mini_coder.Handlers.Evolving.{
  Advances, may_move-Movable, Movable-Pointwise, Outcome-Pointwise, set_state-Advances,
  set_attempt-Advances,
}
use mini_coder.Handlers.Cascade.{Blocked-Evolves}
use mini_coder.Handlers.Moves.Merging.{GatedOutcome}
use mini_coder.Handlers.Moves.Skipping.{SkipOutcome}
use mini_coder.Handlers.Moves.{select_feature-Outcome, start_coding-Outcome}
use mini_coder.Handlers.Moves.Coding.{record_code_pushed-Outcome, start_fixing-Outcome}
use mini_coder.Handlers.Moves.Github.{
  record_pr_opened-Outcome, record_ci_running-Outcome, record_ci_passed-Outcome,
  record_ci_failed-Outcome, record_changes_requested-Outcome, request_changes_after_ci_fail-Outcome,
}
use mini_coder.Handlers.Moves.Human.{
  escalate_to_human-Outcome, retry_feature-Outcome, block_feature-Outcome, unblock_feature-Outcome,
  human_unblock_feature-Outcome, resolve_disagreement-Outcome, resume_feature_execution-Outcome,
}
use mini_coder.Handlers.Moves.Merging.{
  record_merged-Outcome, record_merge_failed-Outcome, reconcile_merge_failed-Outcome,
  record_approved_by_policy-GatedOutcome, merge_if_ready-GatedOutcome,
}
use mini_coder.Handlers.Moves.Skipping.{skip_feature-SkipOutcome}

abbrev pub Evolved : Db → Db → Type 0
Evolved db db' = Pointwise Evolves db.feature_runs db'.feature_runs

pub Evolved-refl : (db : Db) → Evolved db db
Evolved-refl db = Pointwise-refl Evolves Evolves-refl db.feature_runs

module _ (env : Env) (p : FeaturePayload) (to : FeatureExecutionState) (db : Db)
    (distinct : Distinct (run_ids db.feature_runs)) where
  abbrev move : FeatureRun → FeatureRun
  move = set_state env to (p.expected_version + 1)

  by-Outcome :
      (guard : FeatureRun → Bool) (change : FeatureRun → FeatureRun)
      (r : Result (CommandResult × Db))
      → Advances p to guard change
      → Outcome p to guard change db r
      → Evolved db (result_of db r).1
  by-Outcome guard change (ok (result, db')) a o =
      Outcome-Pointwise p to guard change db a distinct result db' o
  by-Outcome guard change (err e) a o = Evolved-refl db

  moves :
      (r : Result (CommandResult × Db))
      → Outcome p to any_run move db r
      → Evolved db (result_of db r).1
  moves r = by-Outcome any_run move r (set_state-Advances env p to any_run)

  attempts :
      (r : Result (CommandResult × Db))
      → Outcome p to below_threshold (set_attempt env to (p.expected_version + 1)) db r
      → Evolved db (result_of db r).1
  attempts r = by-Outcome below_threshold _ r (set_attempt-Advances env p to)

  gated : (g : Gated) → GatedOutcome p to move db g → Evolved db g.1
  gated (r, db') (inl same) = subst (Pointwise Evolves db.feature_runs) (sym same) (Evolved-refl db)
  gated (r, db') (inr (may, moved)) = subst (Pointwise Evolves db.feature_runs) (sym moved) (
      Movable-Pointwise p to any_run move db (set_state-Advances env p to any_run) distinct
        (may_move-Movable p to any_run db may))

skips :
    (env : Env) (envelope : Envelope) (p : FeaturePayload) (db : Db)
    (r : Result (CommandResult × Db))
    → Distinct (run_ids db.feature_runs)
    → SkipOutcome env envelope p db r
    → Evolved db (result_of db r).1
skips env envelope p db (err e) distinct o = Evolved-refl db
skips env envelope p db (ok (result, db')) distinct (inl (cached, same)) =
    subst (Pointwise Evolves db.feature_runs) (sym same) (Evolved-refl db)
skips env envelope p db (ok (result, db')) distinct (inr s) =
    Pointwise-trans Evolves Evolves-trans
      (Movable-Pointwise p FeatureExecutionState.skipped any_run _ db
        (set_state-Advances env p FeatureExecutionState.skipped any_run) distinct s.moved)
      (Pointwise-map (Blocked-Evolves _) s.blocked)

pub exec_command-Evolved :
    (env : Env) (envelope : Envelope) (command : FeatureCommand) (db : Db)
    → Distinct (run_ids db.feature_runs)
    → Evolved db (exec_command env envelope command db)
unfolding handle
exec_command-Evolved env envelope (FeatureCommand.do_select_feature p) db d =
    moves env p FeatureExecutionState.selected db d (select_feature env envelope p db)
      (select_feature-Outcome env envelope p db)
exec_command-Evolved env envelope (FeatureCommand.do_start_coding p) db d =
    moves env p FeatureExecutionState.coding db d (start_coding env envelope p db)
      (start_coding-Outcome env envelope p db)
exec_command-Evolved env envelope (FeatureCommand.do_record_code_pushed p) db d =
    moves env p.run FeatureExecutionState.code_pushed db d (record_code_pushed env envelope p db)
      (record_code_pushed-Outcome env envelope p db)
exec_command-Evolved env envelope (FeatureCommand.do_start_fixing p) db d =
    moves env p FeatureExecutionState.fixing db d (start_fixing env envelope p db)
      (start_fixing-Outcome env envelope p db)
exec_command-Evolved env envelope (FeatureCommand.do_record_pr_opened p) db d =
    moves env p.run FeatureExecutionState.pr_opened db d (record_pr_opened env envelope p db)
      (record_pr_opened-Outcome env envelope p db)
exec_command-Evolved env envelope (FeatureCommand.do_record_ci_running p) db d =
    moves env p.run FeatureExecutionState.ci_running db d (record_ci_running env envelope p db)
      (record_ci_running-Outcome env envelope p db)
exec_command-Evolved env envelope (FeatureCommand.do_record_ci_passed p) db d =
    moves env p.run FeatureExecutionState.under_review db d (record_ci_passed env envelope p db)
      (record_ci_passed-Outcome env envelope p db)
exec_command-Evolved env envelope (FeatureCommand.do_record_ci_failed p) db d =
    moves env p.run FeatureExecutionState.ci_failed db d (record_ci_failed env envelope p db)
      (record_ci_failed-Outcome env envelope p db)
exec_command-Evolved env envelope (FeatureCommand.do_record_changes_requested p) db d =
    attempts env p.run FeatureExecutionState.changes_requested db d
      (record_changes_requested env envelope p db)
      (record_changes_requested-Outcome env envelope p db)
exec_command-Evolved env envelope (FeatureCommand.do_request_changes_after_ci_fail p) db d =
    attempts env p FeatureExecutionState.changes_requested db d
      (request_changes_after_ci_fail env envelope p db)
      (request_changes_after_ci_fail-Outcome env envelope p db)
exec_command-Evolved env envelope (FeatureCommand.do_escalate_to_human p) db d =
    moves env p.run FeatureExecutionState.human_required db d (escalate_to_human env envelope p db)
      (escalate_to_human-Outcome env envelope p db)
exec_command-Evolved env envelope (FeatureCommand.do_retry_feature p) db d =
    moves env p.run FeatureExecutionState.selected db d (retry_feature env envelope p db)
      (retry_feature-Outcome env envelope p db)
exec_command-Evolved env envelope (FeatureCommand.do_block_feature p) db d =
    moves env p.run FeatureExecutionState.blocked db d (block_feature env envelope p db)
      (block_feature-Outcome env envelope p db)
exec_command-Evolved env envelope (FeatureCommand.do_unblock_feature p) db d =
    moves env p FeatureExecutionState.approved_pending_execution db d
      (unblock_feature env envelope p db) (unblock_feature-Outcome env envelope p db)
exec_command-Evolved env envelope (FeatureCommand.do_human_unblock_feature p) db d =
    moves env p.run FeatureExecutionState.approved_pending_execution db d
      (human_unblock_feature env envelope p db) (human_unblock_feature-Outcome env envelope p db)
exec_command-Evolved env envelope (FeatureCommand.do_resolve_disagreement p) db d =
    moves env p.run FeatureExecutionState.changes_requested db d
      (resolve_disagreement env envelope p db) (resolve_disagreement-Outcome env envelope p db)
exec_command-Evolved env envelope (FeatureCommand.do_resume_feature_execution p) db d =
    moves env p.run FeatureExecutionState.under_review db d
      (resume_feature_execution env envelope p db)
      (resume_feature_execution-Outcome env envelope p db)
exec_command-Evolved env envelope (FeatureCommand.do_record_merged p) db d =
    moves env p.run FeatureExecutionState.merged db d (record_merged env envelope p db)
      (record_merged-Outcome env envelope p db)
exec_command-Evolved env envelope (FeatureCommand.do_record_merge_failed p) db d =
    moves env p.run FeatureExecutionState.merge_failed db d (record_merge_failed env envelope p db)
      (record_merge_failed-Outcome env envelope p db)
exec_command-Evolved env envelope (FeatureCommand.do_reconcile_merge_failed p) db d =
    moves env p FeatureExecutionState.under_review db d (reconcile_merge_failed env envelope p db)
      (reconcile_merge_failed-Outcome env envelope p db)
exec_command-Evolved env envelope (FeatureCommand.do_record_approved_by_policy p) db d =
    gated env p FeatureExecutionState.approved_by_policy db d
      (record_approved_by_policy env envelope p db)
      (record_approved_by_policy-GatedOutcome env envelope p db)
exec_command-Evolved env envelope (FeatureCommand.do_merge_if_ready p) db d =
    gated env p FeatureExecutionState.merge_ready db d (merge_if_ready env envelope p db)
      (merge_if_ready-GatedOutcome env envelope p db)
exec_command-Evolved env envelope (FeatureCommand.do_skip_feature p) db d =
    skips env envelope p.run db (skip_feature env envelope p db) d
      (skip_feature-SkipOutcome env envelope p db d)

-- Where the ids of the feature runs are distinct, whatever commands are issued, with whatever
-- clocks and envelopes: the table keeps its rows in order, each with its id and its request; the
-- state of each is reachable in the matrix from what it was; a row that changed has a higher
-- version; and no count of fix attempts is higher than it was, except up to 5.
pub exec_all-Evolved :
    (commands : List Issued) (db : Db)
    → Distinct (run_ids db.feature_runs)
    → Evolved db (exec_all commands db)
exec_all-Evolved [] db d = Evolved-refl db
exec_all-Evolved (i ∷ is') db d =
    let first = exec_command-Evolved i.env i.envelope i.command db d in
    Pointwise-trans Evolves Evolves-trans first (
      exec_all-Evolved is' (exec_command i.env i.envelope i.command db)
        (subst Distinct (sym (Pointwise-run_ids first)) d))

abbrev pub StaysTerminal : FeatureRun → FeatureRun → Type 0
StaysTerminal x y =
    (is_terminal x.current_execution_state ≡ false)
    ⊎ (y.current_execution_state ≡ x.current_execution_state)

Evolves-StaysTerminal : (x y : FeatureRun) → Evolves x y → StaysTerminal x y
Evolves-StaysTerminal x y e = elim (Bool-cases (is_terminal x.current_execution_state)) [
  | inl ended ↦ inr (Evolves-terminal x y e ended)
  | inr goes_on ↦ inl goes_on
]

-- Where the ids of the feature runs are distinct, a run that is merged or skipped is still in that
-- state after any sequence of commands.
pub exec_all-terminal :
    (commands : List Issued) (db : Db)
    → Distinct (run_ids db.feature_runs)
    → Pointwise StaysTerminal db.feature_runs (exec_all commands db).feature_runs
exec_all-terminal commands db d =
    Pointwise-map Evolves-StaysTerminal (exec_all-Evolved commands db d)
