-- ===== src/Handlers/Moves/Skipping.antt =====
-- What skip-feature.ts does to the feature runs: one is skipped, and no dependent is left waiting.
use mini_coder.Common.{
  [], ◌∷◌, some, suc, ◌+◌, ◌≡◌, refl, sym, ap, subst, ◌⊎◌, inl, inr, String, List, arith, All,
  update_rows, count_rows, Bool-cases, Option-cases, ◌==◌, ℕ_eq,
}
use mini_coder.Domain.{
  feature_execution_state_value, feature_execution_state_eq, FeatureExecutionState,
}
use mini_coder.Machine.Defs.{Verdict, TransitionRow, valid, transition_error, assert_valid}
use mini_coder.Machine.Feature.{feature_execution_matrix}
use mini_coder.Store.Rows.{FeatureRun, IdempotencyKey, CommandResult}
use mini_coder.Store.{
  optimistic_lock_error, transition_error as invalid_transition, Db, Env, Error, Result, ok, err, M,
}
use mini_coder.Command.Helpers.{Envelope, accept}
use mini_coder.Command.Claims.{cached_result, with_keys, with_claim_replays}
use mini_coder.Handlers.Steps.{
  not_found, run_conflict, FeaturePayload, load_run, at_version, set_state,
}
use mini_coder.Handlers.Human.{NotedPayload}
use mini_coder.Handlers.Skipping.{skip_run, finish_skip, skip_feature, dependents}
use mini_coder.Handlers.Outcome.{is_accepted, any_run}
use mini_coder.Handlers.Evolution.{Pointwise, Distinct, run_ids, Pointwise-run_ids}
use mini_coder.Handlers.Evolving.{accepted-CanMove, Movable, Movable-Pointwise, set_state-Advances}
use mini_coder.Handlers.Cascade.{Blocked}
use mini_coder.Handlers.Attempts.{cascade-Cascaded}
use mini_coder.Handlers.Waiting.{
  NoneWaits, depends_on, depends_on-source, dependents-IsGood, no_dependent_waits,
}

-- The runs after the move, before the cascade.
abbrev pub skipped_runs : Env → FeaturePayload → List FeatureRun → List FeatureRun
skipped_runs env p =
    update_rows (at_version p.feature_run_id p.expected_version)
      (set_state env FeatureExecutionState.skipped (p.expected_version + 1))

Verdict-cases :
    {S : Type 0} (v : Verdict S)
    → ((r : TransitionRow S) × (v ≡ valid r)) ⊎ ((f : S) × (t : S) × (v ≡ transition_error f t))
Verdict-cases (valid r) = inl (r, refl)
Verdict-cases (transition_error f t) = inr (f, t, refl)

pub skip_run_cases :
    (env : Env) (p : FeaturePayload) (after : FeatureRun → M CommandResult) (db : Db)
    → ((m : Movable p FeatureExecutionState.skipped any_run db) × (skip_run env p after db
          ≡ after m.run (record db { feature_runs = skipped_runs env p db.feature_runs })))
      ⊎ ((e : Error) × (skip_run env p after db ≡ err e))
skip_run_cases env p after db = elim (Option-cases (load_run p db)) [
  | inl missing ↦ inr (not_found, ground arith)
  | inr (run, found) ↦ elim (Bool-cases (run.version == p.expected_version)) [
    | inr stale ↦ inr (
      optimistic_lock_error "feature_runs" p.feature_run_id p.expected_version (some run.version),
      ground (arith, found, stale),
    )
    | inl current ↦
        elim (Verdict-cases (
          assert_valid feature_execution_matrix run.current_execution_state
            FeatureExecutionState.skipped)) [
              | inr (f, t, refused) ↦ inr (
                invalid_transition "feature-execution" (feature_execution_state_value f)
                    (feature_execution_state_value t),
                ground (arith, found, current, refused),
              )
              | inl (r, accepted) ↦
                  elim (Bool-cases (
                    count_rows (at_version p.feature_run_id p.expected_version) db.feature_runs
                    == 0)) [
                      | inl untouched ↦
                          inr (run_conflict p, ground (arith, found, current, accepted, untouched))
                      | inr touched ↦ inl (
                        record {
                          run = run;
                          found = found;
                          at_expected = ground (arith, current);
                          edge = accepted-CanMove _ _ (ap is_accepted accepted);
                          guarded = refl;
                        },
                        ground (arith, found, current, accepted, touched),
                      )
                    ]
            ]
  ]
]

-- What a skip comes to: the run is skipped, runs that waited are blocked, and none of those that
-- depend on the skipped request is left waiting.
pub record Skipped (env : Env) (p : FeaturePayload) (db db' : Db) : Type 0 where
  pub moved : Movable p FeatureExecutionState.skipped any_run db
  pub blocked :
      Pointwise
        (Blocked (depends_on moved.run.feature_request_id db.feature_dependencies))
        (skipped_runs env p db.feature_runs)
        db'.feature_runs
  pub none_waits :
      All
        (λ d.
          d.target_fr_id ≡ moved.run.feature_request_id → NoneWaits d.source_fr_id db'.feature_runs)
        db.feature_dependencies

abbrev pub SkippedRun : Env → FeaturePayload → Db → Result (CommandResult × Db) → Type 0
SkippedRun env p db (err e) = Unit
SkippedRun env p db (ok (result, db')) = Skipped env p db db'

abbrev pub SkipOutcome : Env → Envelope → FeaturePayload → Db → Result (CommandResult × Db) → Type 0
SkipOutcome env envelope p db (err e) = Unit
SkipOutcome env envelope p db (ok (result, db')) =
    ((cached_result env envelope "skip-feature" db ≡ some result)
      × (db'.feature_runs ≡ db.feature_runs))
    ⊎ Skipped env p db db'

module _ (env : Env) (envelope : Envelope) (q : NotedPayload) (claim_id : String) (db : Db)
    (distinct : Distinct (run_ids db.feature_runs))
    (m : Movable q.run FeatureExecutionState.skipped any_run db) where
  abbrev pub runs : List FeatureRun
  runs = skipped_runs env q.run db.feature_runs

  pub runs-Distinct : Distinct (run_ids runs)
  runs-Distinct =
      subst Distinct
        (sym (
          Pointwise-run_ids (
            Movable-Pointwise q.run FeatureExecutionState.skipped any_run _ db
              (set_state-Advances env q.run FeatureExecutionState.skipped any_run) distinct m)))
        distinct

  finish_skip-SkippedRun :
      SkippedRun env q.run db
        (finish_skip env envelope q claim_id m.run (record db { feature_runs = runs }))
  unfolding finish_skip
  finish_skip-SkippedRun =
      let k = depends_on m.run.feature_request_id db.feature_dependencies in
      let c =
        cascade-Cascaded k env envelope q.run
          (dependents m.run.feature_request_id runs db.feature_dependencies) _ runs-Distinct
          (dependents-IsGood k m.run.feature_request_id runs db.feature_dependencies
            (depends_on-source m.run.feature_request_id db.feature_dependencies) runs-Distinct) in
      subst
        (λ r. SkippedRun env q.run db (elim r [
          | ok (u, db') ↦
              accept env envelope claim_id
                (feature_execution_state_value FeatureExecutionState.skipped)
                (env.new_id (suc db.ids_drawn) ∷ []) db'
          | err e ↦ err e
        ]))
        (sym c.equation)
        (record {
          moved = m;
          blocked = c.blocked;
          none_waits =
              no_dependent_waits k m.run.feature_request_id db.feature_dependencies c.blocked
                c.past;
        })

skip_run-SkippedRun :
    (env : Env) (envelope : Envelope) (q : NotedPayload) (claim_id : String) (db : Db)
    → Distinct (run_ids db.feature_runs)
    → SkippedRun env q.run db (skip_run env q.run (finish_skip env envelope q claim_id) db)
skip_run-SkippedRun env envelope q claim_id db distinct =
    elim (skip_run_cases env q.run (finish_skip env envelope q claim_id) db) [
      | inl (m, e) ↦
          subst (SkippedRun env q.run db) (sym e)
            (finish_skip-SkippedRun env envelope q claim_id db distinct m)
      | inr (error, e) ↦ subst (SkippedRun env q.run db) (sym e) tt
    ]

-- The idempotency rows are no part of what a skip does.
without_keys :
    (env : Env) (envelope : Envelope) (p : FeaturePayload) (db : Db) (rows : List IdempotencyKey)
    (r : Result (CommandResult × Db))
    → SkippedRun env p (with_keys db rows) r
    → SkipOutcome env envelope p db r
without_keys env envelope p db rows (err e) h = tt
without_keys env envelope p db rows (ok (result, db')) s = inr (record {
  moved = record {
    run = s.moved.run;
    found = s.moved.found;
    at_expected = s.moved.at_expected;
    edge = s.moved.edge;
    guarded = refl;
  };
  blocked = s.blocked;
  none_waits = s.none_waits;
})

-- Where the ids of the runs are distinct, a skip that returns either returns the result cached under
-- its key and changes no run, or the run of the payload was there at the expected version with an edge to
-- `skipped`, it is skipped; of the other runs some are blocked, which were in
-- `approved_pending_execution` and whose request depends on the skipped one, and none is changed
-- otherwise; and no run of a request that depends on the skipped one is still in that state.
pub skip_feature-SkipOutcome :
    (env : Env) (envelope : Envelope) (q : NotedPayload) (db : Db)
    → Distinct (run_ids db.feature_runs)
    → SkipOutcome env envelope q.run db (skip_feature env envelope q db)
unfolding skip_feature
skip_feature-SkipOutcome env envelope q db distinct =
    with_claim_replays (SkipOutcome env envelope q.run db) env envelope _ _ db tt
      (λ result rows cached. inl (cached, refl))
      (λ claim_id rows.
        without_keys env envelope q.run db rows _
          (skip_run-SkippedRun env envelope q claim_id (with_keys db rows) distinct))
