-- ===== src/MergeGate/Evidence.antt =====
-- The two gated commands leave their evidence, and move a run only through the open gate.
use mini_coder.Command.Claims.{with_claim_cases}
use mini_coder.Handlers.Moves.Merging.{with_evidence}
use mini_coder.Common.{
  ◌∙◌, ap, ◌≡◌, ◌≢◌, refl, sym, subst, ◌⊎◌, inl, inr, true, false, List, [], ◌∷◌, String, arith,
  some, Bool-cases, if◌then◌else◌,
}
use mini_coder.Domain.{FeatureExecutionState}
use mini_coder.Store.Rows.{CommandResult, FeatureRun, MergeGateEvaluation}
use mini_coder.Store.{Db, Env, merge_gate_blocked, Result, ok, err, M}
use mini_coder.Command.Helpers.{Envelope}
use mini_coder.Handlers.Steps.{FeaturePayload, load_run}
use mini_coder.Handlers.Merging.{
  Gated, gate, pass_gate, result_of, after_gate, record_approved_by_policy, merge_if_ready,
}
use mini_coder.Handlers.Commands.{FeatureCommand, handle}
use mini_coder.MergeGate.{GateEvaluation, evaluate_merge_gate, gate_reasons, is_approved}
use mini_coder.MergeGate.Open.{GateOpen, gate_reasons-GateOpen}

-- Evidence that was written, with the decision that the preconditions call for.
abbrev pub Decided : Env → FeaturePayload → FeatureRun → Db → MergeGateEvaluation → Gated → Type 0
Decided env p run db row (r, db') =
    ((row.final_decision ≡ "approved")
      × GateOpen env p.feature_run_id p.project_id run.feature_request_id db)
    ⊎ ((row.final_decision ≡ "rejected")
        × (gate_reasons env p.feature_run_id p.project_id run.feature_request_id db ≢ [])
        × (r
            ≡ err (
                merge_gate_blocked
                  (gate_reasons env p.feature_run_id p.project_id run.feature_request_id db)))
        × (db'.feature_runs ≡ db.feature_runs))

abbrev pub Recorded : Env → FeaturePayload → FeatureRun → Db → Gated → Type 0
Recorded env p run db (r, db') =
    (row : MergeGateEvaluation) × (db'.merge_gate_evaluations ≡ row ∷ db.merge_gate_evaluations)
    × (row.feature_run_id ≡ p.feature_run_id)
    × Decided env p run db row (r, db')

-- The transition keeps the evidence.
abbrev KeepsEvidence : Db → Result (CommandResult × Db) → Type 0
KeepsEvidence db (err e) = Unit
KeepsEvidence db (ok (result, db')) = db'.merge_gate_evaluations ≡ db.merge_gate_evaluations

pass_gate-KeepsEvidence :
    (env : Env) (envelope : Envelope) (p : FeaturePayload) (scope event_type : String)
    (to : FeatureExecutionState) (evaluation_id : String) (db : Db)
    → KeepsEvidence db (pass_gate env envelope p scope event_type to evaluation_id db)
unfolding pass_gate
pass_gate-KeepsEvidence env envelope p scope event_type to evaluation_id db =
    with_claim_cases (KeepsEvidence db) env envelope _ _ db tt (λ result rows. refl)
      (λ claim_id rows. ground arith)

-- The evaluation of a run that is there.
gate-evidence :
    (env : Env) (p : FeaturePayload) (run : FeatureRun) (db : Db)
    → load_run p db ≡ some run
    → (row : MergeGateEvaluation) × (evaluation : GateEvaluation) × (gate env p db
        ≡ ok (evaluation, with_evidence db row))
      × (row.feature_run_id ≡ p.feature_run_id)
      × (evaluation.reasons
          ≡ gate_reasons env p.feature_run_id p.project_id run.feature_request_id db)
      × (row.final_decision ≡ (if is_approved evaluation.reasons then "approved" else "rejected"))
unfolding gate evaluate_merge_gate
gate-evidence env p run db found = rw found (_, _, refl, refl, refl, refl)

module _ (env : Env) (p : FeaturePayload) (run : FeatureRun) (db : Db)
    (found : load_run p db ≡ some run) (move : String → M CommandResult)
    (keeps : (id : String) (db' : Db) → KeepsEvidence db' (move id db')) where
  after_move :
      (row : MergeGateEvaluation) (r : Result (CommandResult × Db))
      → KeepsEvidence (with_evidence db row) r
      → row.feature_run_id ≡ p.feature_run_id
      → row.final_decision ≡ "approved"
      → GateOpen env p.feature_run_id p.project_id run.feature_request_id db
      → Recorded env p run db (result_of (with_evidence db row) r)
  after_move row (ok (result, db')) k own approved g = (row, k, own, inl (approved, g))
  after_move row (err e) k own approved g = (row, refl, own, inl (approved, g))

  approved-empty : (reasons : List String) → is_approved reasons ≡ true → reasons ≡ []
  approved-empty [] h = refl
  approved-empty (r ∷ rs) h = cc

  rejected-nonempty : (reasons : List String) → is_approved reasons ≡ false → reasons ≢ []
  rejected-nonempty [] h = λ e. cc
  rejected-nonempty (r ∷ rs) h = λ e. cc

  decide :
      (row : MergeGateEvaluation) (evaluation : GateEvaluation)
      → row.feature_run_id ≡ p.feature_run_id
      → evaluation.reasons
        ≡ gate_reasons env p.feature_run_id p.project_id run.feature_request_id db
      → row.final_decision ≡ (if is_approved evaluation.reasons then "approved" else "rejected")
      → Recorded env p run db (after_gate move db (ok (evaluation, with_evidence db row)))
  decide row evaluation own reasons decision = elim (Bool-cases (is_approved evaluation.reasons)) [
    | inl approved ↦ rw approved (
        after_move row _ (keeps evaluation.evaluation_id (with_evidence db row)) own
          (rw approved at decision)
          (gate_reasons-GateOpen env p.feature_run_id p.project_id run.feature_request_id db
            (sym reasons ∙ approved-empty evaluation.reasons approved)))
    | inr rejected ↦ rw rejected (
      row,
      refl,
      own,
      inr (
        rw rejected at decision,
        (λ e. rejected-nonempty evaluation.reasons rejected (reasons ∙ e)),
        ap (λ rs. err (merge_gate_blocked rs)) reasons,
        refl,
      ),
    )
  ]

  after_gate-Recorded : Recorded env p run db (after_gate move db (gate env p db))
  after_gate-Recorded =
      let (row, evaluation, e, own, reasons, decision) = gate-evidence env p run db found in
      subst (λ r. Recorded env p run db (after_gate move db r)) (sym e)
        (decide row evaluation own reasons decision)

abbrev pub IsGated : FeatureCommand → FeaturePayload → Type 0
IsGated command p =
    (command ≡ FeatureCommand.do_record_approved_by_policy p)
    ⊎ (command ≡ FeatureCommand.do_merge_if_ready p)

-- A gated command (RecordApprovedByPolicy or MergeIfReady) on a run that is there always leaves one
-- more row of evidence for the run, even where the transition then fails. Either the row says
-- `approved` and every precondition of the gate held, or it says `rejected`, the reasons are not
-- empty and are what the command throws, and no feature run changed.
pub gated-Recorded :
    (env : Env) (envelope : Envelope) (command : FeatureCommand) (p : FeaturePayload)
    (run : FeatureRun) (db : Db)
    → IsGated command p
    → load_run p db ≡ some run
    → Recorded env p run db (handle env envelope command db)
unfolding handle record_approved_by_policy merge_if_ready
gated-Recorded env envelope command p run db (inl e) found =
    subst (λ c. Recorded env p run db (handle env envelope c db)) (sym e)
      (after_gate-Recorded env p run db found _
        (λ id db'. pass_gate-KeepsEvidence env envelope p _ _ _ id db'))
gated-Recorded env envelope command p run db (inr e) found =
    subst (λ c. Recorded env p run db (handle env envelope c db)) (sym e)
      (after_gate-Recorded env p run db found _
        (λ id db'. pass_gate-KeepsEvidence env envelope p _ _ _ id db'))
