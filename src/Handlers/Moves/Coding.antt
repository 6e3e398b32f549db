-- ===== src/Handlers/Moves/Coding.antt =====
-- What the handlers of packages/core/src/commands/handlers do to the feature runs: Coding.
use mini_coder.Common.{
  update_rows, ℕ_eq, List, [], ◌∷◌, String, Option, none, some, String_eq, ◌+◌, ◌≡◌, refl, ◌∙◌, inl,
  arith,
}
use mini_coder.Domain.{FeatureExecutionState}
use mini_coder.Store.{Db, Env, M, Result, ok, err}
use mini_coder.Handlers.Findings.{resolve_finding, resolve_findings, resolve_pushed}
use mini_coder.Command.Helpers.{Envelope}
use mini_coder.Command.Claims.{with_keys, with_claim_cases, require_lane_cases}
use mini_coder.Handlers.Steps.{FeaturePayload, set_state, at_version}
use mini_coder.Handlers.Outcome.{Outcome, any_run}
use mini_coder.Handlers.Coding.{record_code_pushed, start_fixing, PushedPayload}

abbrev SameRows : Db → Db → Type 0
SameRows before db =
    (db.feature_runs ≡ before.feature_runs) × (db.idempotency_keys ≡ before.idempotency_keys)

-- A step that leaves the feature runs and the idempotency rows alone, or throws.
abbrev pub Spares : Db → Result (Unit {0} × Db) → Type 0
Spares db (ok (u, db')) = SameRows db db'
Spares db (err e) = Unit

resolve_finding-Spares :
    (env : Env) (run_id coder_run_id finding : String) (db : Db)
    → Spares db (resolve_finding env run_id coder_run_id finding db)
resolve_finding-Spares env run_id coder_run_id finding db = ground arith

Spares-bind :
    (before db : Db) (k : M (Unit {0})) (r : Result (Unit {0} × Db))
    → Spares db r
    → SameRows before db
    → ((db' : Db) → SameRows before db' → Spares before (k db'))
    → Spares before (elim r [ ok (u, db') ↦ k db' | err e ↦ err e ])
Spares-bind before db k (ok (u, db')) same h rest = rest db' (same.0 ∙ h.0, same.1 ∙ h.1)
Spares-bind before db k (err e) same h rest = tt

resolve_findings-Spares :
    (env : Env) (run_id coder_run_id : String) (findings : List String) (before db : Db)
    → SameRows before db
    → Spares before (resolve_findings env run_id coder_run_id findings db)
unfolding resolve_findings
resolve_findings-Spares env run_id coder_run_id [] before db h = h
resolve_findings-Spares env run_id coder_run_id (finding ∷ findings) before db h =
    Spares-bind before db (resolve_findings env run_id coder_run_id findings)
      (resolve_finding env run_id coder_run_id finding db)
      (resolve_finding-Spares env run_id coder_run_id finding db) h
      (λ db' same. resolve_findings-Spares env run_id coder_run_id findings before db' same)

pub resolve_pushed-Spares :
    (env : Env) (run_id : String) (coder_run_id : Option String) (findings : List String) (db : Db)
    → Spares db (resolve_pushed env run_id coder_run_id findings db)
unfolding resolve_pushed
resolve_pushed-Spares env run_id none findings db = (refl, refl)
resolve_pushed-Spares env run_id (some coder_run_id) findings db =
    ground (arith, resolve_findings-Spares env run_id coder_run_id findings db db (refl, refl))

pub record_code_pushed-Outcome :
    (env : Env) (envelope : Envelope) (p : PushedPayload) (db : Db)
    → Outcome p.run FeatureExecutionState.code_pushed any_run
        (set_state env FeatureExecutionState.code_pushed (p.run.expected_version + 1))
        db
        (record_code_pushed env envelope p db)
unfolding record_code_pushed
record_code_pushed-Outcome env envelope p db =
    with_claim_cases
      (Outcome p.run FeatureExecutionState.code_pushed any_run
        (set_state env FeatureExecutionState.code_pushed (p.run.expected_version + 1)) db)
      env envelope _ _ db tt (λ result rows. inl refl)
      (λ claim_id rows. ground (
        arith,
        require_lane_cases env envelope p.run.project_id (with_keys db rows),
        resolve_pushed-Spares env p.run.feature_run_id p.coder_run_id p.resolved_finding_ids
            (record (with_keys db rows) {
              feature_runs =
                  update_rows (at_version p.run.feature_run_id p.run.expected_version)
                    (set_state env FeatureExecutionState.code_pushed (p.run.expected_version + 1))
                    db.feature_runs;
            }),
      ))

pub start_fixing-Outcome :
    (env : Env) (envelope : Envelope) (p : FeaturePayload) (db : Db)
    → Outcome p FeatureExecutionState.fixing any_run
        (set_state env FeatureExecutionState.fixing (p.expected_version + 1))
        db
        (start_fixing env envelope p db)
unfolding start_fixing
start_fixing-Outcome env envelope p db =
    with_claim_cases
      (Outcome p FeatureExecutionState.fixing any_run
        (set_state env FeatureExecutionState.fixing (p.expected_version + 1)) db)
      env envelope _ _ db tt (λ result rows. inl refl)
      (λ claim_id rows.
        ground (arith, require_lane_cases env envelope p.project_id (with_keys db rows)))
