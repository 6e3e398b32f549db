-- ===== src/Handlers/Moves/Merging.antt =====
-- What the handlers of packages/core/src/commands/handlers do to the feature runs: Merging.
use mini_coder.Common.{
  suc, ◌∷◌, Option-cases, subst, sym, ◌⊎◌, String, update_rows, true, ◌+◌, ◌≡◌, refl, inl, inr,
  arith,
}
use mini_coder.Domain.{FeatureExecutionState}
use mini_coder.Store.Rows.{FeatureRun, MergeGateEvaluation, CommandResult}
use mini_coder.Store.{Db, Env, M, Error, ok, err}
use mini_coder.Command.Helpers.{Envelope}
use mini_coder.Command.Claims.{with_claim_cases}
use mini_coder.Handlers.Steps.{FeaturePayload, load_run, not_found, set_state, at_version}
use mini_coder.Handlers.Outcome.{may_move, Outcome, any_run}
use mini_coder.MergeGate.{GateEvaluation, evaluate_merge_gate}
use mini_coder.Handlers.Merging.{
  pass_gate, gate, after_gate, record_approved_by_policy, merge_if_ready, Gated, record_merged,
  record_merge_failed, reconcile_merge_failed, MergeFailedPayload, MergedPayload,
}

pub record_merged-Outcome :
    (env : Env) (envelope : Envelope) (p : MergedPayload) (db : Db)
    → Outcome p.run FeatureExecutionState.merged any_run
        (set_state env FeatureExecutionState.merged (p.run.expected_version + 1))
        db
        (record_merged env envelope p db)
unfolding record_merged
record_merged-Outcome env envelope p db =
    with_claim_cases
      (Outcome p.run FeatureExecutionState.merged any_run
        (set_state env FeatureExecutionState.merged (p.run.expected_version + 1)) db)
      env envelope _ _ db tt (λ result rows. inl refl) (λ claim_id rows. ground (arith))

pub record_merge_failed-Outcome :
    (env : Env) (envelope : Envelope) (p : MergeFailedPayload) (db : Db)
    → Outcome p.run FeatureExecutionState.merge_failed any_run
        (set_state env FeatureExecutionState.merge_failed (p.run.expected_version + 1))
        db
        (record_merge_failed env envelope p db)
unfolding record_merge_failed
record_merge_failed-Outcome env envelope p db =
    with_claim_cases
      (Outcome p.run FeatureExecutionState.merge_failed any_run
        (set_state env FeatureExecutionState.merge_failed (p.run.expected_version + 1)) db)
      env envelope _ _ db tt (λ result rows. inl refl) (λ claim_id rows. ground (arith))

pub reconcile_merge_failed-Outcome :
    (env : Env) (envelope : Envelope) (p : FeaturePayload) (db : Db)
    → Outcome p FeatureExecutionState.under_review any_run
        (set_state env FeatureExecutionState.under_review (p.expected_version + 1))
        db
        (reconcile_merge_failed env envelope p db)
unfolding reconcile_merge_failed
reconcile_merge_failed-Outcome env envelope p db =
    with_claim_cases
      (Outcome p FeatureExecutionState.under_review any_run
        (set_state env FeatureExecutionState.under_review (p.expected_version + 1)) db)
      env envelope _ _ db tt (λ result rows. inl refl) (λ claim_id rows. ground (arith))

-- The second transaction of both gated commands.
pub pass_gate-Outcome :
    (env : Env) (envelope : Envelope) (p : FeaturePayload) (scope event_type : String)
    (to : FeatureExecutionState) (evaluation_id : String) (db : Db)
    → Outcome p to any_run
        (set_state env to (p.expected_version + 1))
        db
        (pass_gate env envelope p scope event_type to evaluation_id db)
unfolding pass_gate
pass_gate-Outcome env envelope p scope event_type to evaluation_id db =
    with_claim_cases (Outcome p to any_run (set_state env to (p.expected_version + 1)) db) env
      envelope _ _ db tt (λ result rows. inl refl) (λ claim_id rows. ground arith)

-- The same of a gated command, whatever it returns.
abbrev pub GatedOutcome :
    FeaturePayload → FeatureExecutionState → (FeatureRun → FeatureRun) → Db → Gated → Type 0
GatedOutcome p to change db (r, db') =
    (db'.feature_runs ≡ db.feature_runs)
    ⊎ ((may_move p to any_run db ≡ true)
        × (db'.feature_runs
            ≡ update_rows (at_version p.feature_run_id p.expected_version) change db.feature_runs))

-- The database after the evaluation: one more row of evidence, and one more id.
abbrev pub with_evidence : Db → MergeGateEvaluation → Db
with_evidence db row = record db {
  merge_gate_evaluations = row ∷ db.merge_gate_evaluations;
  ids_drawn = suc db.ids_drawn;
}

pub gate_cases :
    (env : Env) (p : FeaturePayload) (db : Db)
    → ((evaluation : GateEvaluation) × (row : MergeGateEvaluation) × (gate env p db
          ≡ ok (evaluation, with_evidence db row)))
      ⊎ ((e : Error) × (gate env p db ≡ err e))
unfolding gate evaluate_merge_gate
gate_cases env p db = elim (Option-cases (load_run p db)) [
  | inl missing ↦ inr (not_found, rw missing)
  | inr (run, found) ↦ rw found (inl (_, _, refl))
]

module _ (env : Env) (p : FeaturePayload) (to : FeatureExecutionState) (db : Db)
    (move : String → M CommandResult)
    (moves : (id : String) (row : MergeGateEvaluation)
      → Outcome p to any_run
          (set_state env to (p.expected_version + 1))
          db
          (move id (with_evidence db row))) where
  after_gate-GatedOutcome :
      GatedOutcome p to
        (set_state env to (p.expected_version + 1))
        db
        (after_gate move db (gate env p db))
  after_gate-GatedOutcome = elim (gate_cases env p db) [
    | inl (evaluation, row, e) ↦
        subst
          (λ r.
            GatedOutcome p to (set_state env to (p.expected_version + 1)) db (after_gate move db r))
          (sym e) (ground (arith, moves evaluation.evaluation_id row))
    | inr (error, e) ↦
        subst
          (λ r.
            GatedOutcome p to (set_state env to (p.expected_version + 1)) db (after_gate move db r))
          (sym e) (inl refl)
  ]

pub record_approved_by_policy-GatedOutcome :
    (env : Env) (envelope : Envelope) (p : FeaturePayload) (db : Db)
    → GatedOutcome p FeatureExecutionState.approved_by_policy
        (set_state env FeatureExecutionState.approved_by_policy (p.expected_version + 1))
        db
        (record_approved_by_policy env envelope p db)
unfolding record_approved_by_policy
record_approved_by_policy-GatedOutcome env envelope p db =
    after_gate-GatedOutcome env p FeatureExecutionState.approved_by_policy db _
      (λ id row. pass_gate-Outcome env envelope p _ _ _ id (with_evidence db row))

pub merge_if_ready-GatedOutcome :
    (env : Env) (envelope : Envelope) (p : FeaturePayload) (db : Db)
    → GatedOutcome p FeatureExecutionState.merge_ready
        (set_state env FeatureExecutionState.merge_ready (p.expected_version + 1))
        db
        (merge_if_ready env envelope p db)
unfolding merge_if_ready
merge_if_ready-GatedOutcome env envelope p db =
    after_gate-GatedOutcome env p FeatureExecutionState.merge_ready db _
      (λ id row. pass_gate-Outcome env envelope p _ _ _ id (with_evidence db row))
