-- ===== src/Executor/Replay.antt =====
-- A command that is sent again while its result is live: nothing happens a second time.
use mini_coder.Common.{
  ℕ, ◌&&◌, ltb, suc, ◌+◌, ◌≡◌, refl, sym, subst, inl, inr, Option, none, some, List, ◌∷◌, [],
  String, arith, update_rows, String_eq, Bool-cases,
}
use mini_coder.Domain.{FeatureExecutionState, feature_execution_state_value}
use mini_coder.Store.Rows.{CommandResult, IdempotencyKey}
use mini_coder.Store.{Db, Env, Result, ok, err, M}
use mini_coder.Auth.Guards.{is_authorized}
use mini_coder.Command.Helpers.{Envelope, in_slot, new_claim, idempotency_ttl_ms, accept}
use mini_coder.Command.Claims.{with_keys, require_lane_cases}
use mini_coder.Handlers.Steps.{FeaturePayload, set_state, at_version}
use mini_coder.Handlers.Coding.{PushedPayload, record_code_pushed}
use mini_coder.Handlers.Human.{NotedPayload}
use mini_coder.Handlers.Skipping.{skip_run, finish_skip, skip_feature, dependents}
use mini_coder.Handlers.Merging.{
  Gated, result_of, gate, after_gate, pass_gate, record_approved_by_policy, merge_if_ready,
}
use mini_coder.Handlers.Commands.{FeatureCommand, handle, handler_meta}
use mini_coder.Handlers.Outcome.{any_run}
use mini_coder.Handlers.Evolution.{Distinct, run_ids}
use mini_coder.Handlers.Evolving.{Movable}
use mini_coder.Handlers.Attempts.{cascade-Cascaded}
use mini_coder.Handlers.Waiting.{depends_on, depends_on-source, dependents-IsGood}
use mini_coder.Handlers.Moves.Coding.{resolve_pushed-Spares}
use mini_coder.Handlers.Moves.Skipping.{skip_run_cases, skipped_runs, runs-Distinct}
use mini_coder.Handlers.Moves.Merging.{gate_cases, with_evidence}
use mini_coder.Executor.{has_result, check_idempotency_key, or_handle, execute_command}
use mini_coder.Executor.Slots.{Held, Holds, Fulfilled, with_claim-Held}
use mini_coder.Executor.Fulfilling.{
  select_feature-Held, start_coding-Held, start_fixing-Held, record_pr_opened-Held,
  record_ci_running-Held, record_ci_passed-Held, record_ci_failed-Held,
  record_changes_requested-Held, request_changes_after_ci_fail-Held, escalate_to_human-Held,
  retry_feature-Held, block_feature-Held, unblock_feature-Held, human_unblock_feature-Held,
  resolve_disagreement-Held, resume_feature_execution-Held, record_merged-Held,
  record_merge_failed-Held, reconcile_merge_failed-Held,
}

record_code_pushed-Held :
    (env : Env) (envelope : Envelope) (p : PushedPayload) (db : Db)
    → Held env.now envelope.idempotency_key "record-code-pushed"
        (record_code_pushed env envelope p db)
unfolding record_code_pushed
record_code_pushed-Held env envelope p db = with_claim-Held env envelope _ _ db (λ claim_id rows.
    let db' = with_keys db (
      new_claim env claim_id envelope.idempotency_key "record-code-pushed" idempotency_ttl_ms
      ∷ rows) in
    ground (
      arith,
      require_lane_cases env envelope p.run.project_id db',
      resolve_pushed-Spares env p.run.feature_run_id p.coder_run_id p.resolved_finding_ids
          (record db' {
            feature_runs =
                update_rows (at_version p.run.feature_run_id p.run.expected_version)
                  (set_state env FeatureExecutionState.code_pushed (p.run.expected_version + 1))
                  db.feature_runs;
          }),
    ))

module _ (env : Env) (envelope : Envelope) (q : NotedPayload) (claim_id : String) (db : Db)
    (distinct : Distinct (run_ids db.feature_runs)) where
  finish_skip-Fulfilled :
      (m : Movable q.run FeatureExecutionState.skipped any_run db)
      → Fulfilled env claim_id db.idempotency_keys (
          finish_skip env envelope q claim_id m.run
            (record db { feature_runs = skipped_runs env q.run db.feature_runs }))
  unfolding finish_skip
  finish_skip-Fulfilled m =
      let k = depends_on m.run.feature_request_id db.feature_dependencies in
      let distinct' = runs-Distinct env envelope q claim_id db distinct m in
      let c =
        cascade-Cascaded k env envelope q.run
          (dependents m.run.feature_request_id (skipped_runs env q.run db.feature_runs)
            db.feature_dependencies)
          _ distinct'
          (dependents-IsGood k m.run.feature_request_id (skipped_runs env q.run db.feature_runs)
            db.feature_dependencies
            (depends_on-source m.run.feature_request_id db.feature_dependencies) distinct') in
      subst
        (λ r. Fulfilled env claim_id db.idempotency_keys (elim r [
          | ok (u, db') ↦
              accept env envelope claim_id
                (feature_execution_state_value FeatureExecutionState.skipped)
                (env.new_id (suc db.ids_drawn) ∷ []) db'
          | err e ↦ err e
        ]))
        (sym c.equation) (rw c.same_keys refl)

  skip_run-Fulfilled :
      Fulfilled env claim_id db.idempotency_keys
        (skip_run env q.run (finish_skip env envelope q claim_id) db)
  skip_run-Fulfilled = elim (skip_run_cases env q.run (finish_skip env envelope q claim_id) db) [
    | inl (m, e) ↦
        subst (Fulfilled env claim_id db.idempotency_keys) (sym e) (finish_skip-Fulfilled m)
    | inr (error, e) ↦ subst (Fulfilled env claim_id db.idempotency_keys) (sym e) tt
  ]

skip_feature-Held :
    (env : Env) (envelope : Envelope) (q : NotedPayload) (db : Db)
    → Distinct (run_ids db.feature_runs)
    → Held env.now envelope.idempotency_key "skip-feature" (skip_feature env envelope q db)
unfolding skip_feature
skip_feature-Held env envelope q db distinct =
    with_claim-Held env envelope _ _ db
      (λ claim_id rows. skip_run-Fulfilled env envelope q claim_id (with_keys db _) distinct)

pass_gate-Held :
    (env : Env) (envelope : Envelope) (p : FeaturePayload) (scope event_type : String)
    (to : FeatureExecutionState) (evaluation_id : String) (db : Db)
    → Held env.now envelope.idempotency_key scope
        (pass_gate env envelope p scope event_type to evaluation_id db)
unfolding pass_gate
pass_gate-Held env envelope p scope event_type to evaluation_id db =
    with_claim-Held env envelope _ _ db (λ claim_id rows. ground arith)

-- The same of a command as the executor sees it.
abbrev Kept : Env → Envelope → String → Gated → Type 0
Kept env envelope scope (err e, db) = Unit
Kept env envelope scope (ok result, db) =
    Holds env.now envelope.idempotency_key scope db.idempotency_keys result

result_of-Kept :
    (env : Env) (envelope : Envelope) (scope : String) (db : Db) (r : Result (CommandResult × Db))
    → Held env.now envelope.idempotency_key scope r
    → Kept env envelope scope (result_of db r)
result_of-Kept env envelope scope db (ok (result, db')) h = h
result_of-Kept env envelope scope db (err e) h = tt

after_gate-Kept :
    (env : Env) (envelope : Envelope) (p : FeaturePayload) (scope : String)
    (move : String → M CommandResult) (db : Db)
    → ((id : String) (db' : Db) → Held env.now envelope.idempotency_key scope (move id db'))
    → Kept env envelope scope (after_gate move db (gate env p db))
after_gate-Kept env envelope p scope move db held = elim (gate_cases env p db) [
  | inl (evaluation, row, e) ↦
      subst (λ r. Kept env envelope scope (after_gate move db r)) (sym e)
        (ground (arith, held evaluation.evaluation_id (with_evidence db row)))
  | inr (error, e) ↦ subst (λ r. Kept env envelope scope (after_gate move db r)) (sym e) tt
]

handle-Kept :
    (env : Env) (envelope : Envelope) (command : FeatureCommand) (db : Db)
    → Distinct (run_ids db.feature_runs)
    → Kept env envelope (handler_meta command).scope (handle env envelope command db)
unfolding handle handler_meta record_approved_by_policy merge_if_ready
handle-Kept env envelope (FeatureCommand.do_select_feature p) db d =
    result_of-Kept env envelope _ db _ (select_feature-Held env envelope p db)
handle-Kept env envelope (FeatureCommand.do_start_coding p) db d =
    result_of-Kept env envelope _ db _ (start_coding-Held env envelope p db)
handle-Kept env envelope (FeatureCommand.do_record_code_pushed p) db d =
    result_of-Kept env envelope _ db _ (record_code_pushed-Held env envelope p db)
handle-Kept env envelope (FeatureCommand.do_start_fixing p) db d =
    result_of-Kept env envelope _ db _ (start_fixing-Held env envelope p db)
handle-Kept env envelope (FeatureCommand.do_record_pr_opened p) db d =
    result_of-Kept env envelope _ db _ (record_pr_opened-Held env envelope p db)
handle-Kept env envelope (FeatureCommand.do_record_ci_running p) db d =
    result_of-Kept env envelope _ db _ (record_ci_running-Held env envelope p db)
handle-Kept env envelope (FeatureCommand.do_record_ci_passed p) db d =
    result_of-Kept env envelope _ db _ (record_ci_passed-Held env envelope p db)
handle-Kept env envelope (FeatureCommand.do_record_ci_failed p) db d =
    result_of-Kept env envelope _ db _ (record_ci_failed-Held env envelope p db)
handle-Kept env envelope (FeatureCommand.do_record_changes_requested p) db d =
    result_of-Kept env envelope _ db _ (record_changes_requested-Held env envelope p db)
handle-Kept env envelope (FeatureCommand.do_request_changes_after_ci_fail p) db d =
    result_of-Kept env envelope _ db _ (request_changes_after_ci_fail-Held env envelope p db)
handle-Kept env envelope (FeatureCommand.do_escalate_to_human p) db d =
    result_of-Kept env envelope _ db _ (escalate_to_human-Held env envelope p db)
handle-Kept env envelope (FeatureCommand.do_retry_feature p) db d =
    result_of-Kept env envelope _ db _ (retry_feature-Held env envelope p db)
handle-Kept env envelope (FeatureCommand.do_block_feature p) db d =
    result_of-Kept env envelope _ db _ (block_feature-Held env envelope p db)
handle-Kept env envelope (FeatureCommand.do_unblock_feature p) db d =
    result_of-Kept env envelope _ db _ (unblock_feature-Held env envelope p db)
handle-Kept env envelope (FeatureCommand.do_human_unblock_feature p) db d =
    result_of-Kept env envelope _ db _ (human_unblock_feature-Held env envelope p db)
handle-Kept env envelope (FeatureCommand.do_resolve_disagreement p) db d =
    result_of-Kept env envelope _ db _ (resolve_disagreement-Held env envelope p db)
handle-Kept env envelope (FeatureCommand.do_resume_feature_execution p) db d =
    result_of-Kept env envelope _ db _ (resume_feature_execution-Held env envelope p db)
handle-Kept env envelope (FeatureCommand.do_record_merged p) db d =
    result_of-Kept env envelope _ db _ (record_merged-Held env envelope p db)
handle-Kept env envelope (FeatureCommand.do_record_merge_failed p) db d =
    result_of-Kept env envelope _ db _ (record_merge_failed-Held env envelope p db)
handle-Kept env envelope (FeatureCommand.do_reconcile_merge_failed p) db d =
    result_of-Kept env envelope _ db _ (reconcile_merge_failed-Held env envelope p db)
handle-Kept env envelope (FeatureCommand.do_record_approved_by_policy p) db d =
    after_gate-Kept env envelope p "record-approved-by-policy" _ db
      (λ id db'. pass_gate-Held env envelope p _ _ _ id db')
handle-Kept env envelope (FeatureCommand.do_merge_if_ready p) db d =
    after_gate-Kept env envelope p "merge-if-ready" _ db
      (λ id db'. pass_gate-Held env envelope p _ _ _ id db')
handle-Kept env envelope (FeatureCommand.do_skip_feature p) db d =
    result_of-Kept env envelope _ db _ (skip_feature-Held env envelope p db d)

-- A result in the cache holds too.
check-Holds :
    (now : ℕ) (key scope : String) (rows : List IdempotencyKey) (result : CommandResult)
    → check_idempotency_key now key scope rows ≡ some result
    → Holds now key scope rows result
unfolding check_idempotency_key
check-Holds now key scope [] result h = cc
check-Holds now key scope (r ∷ rows) result h =
    elim (Bool-cases (in_slot key scope r && (ltb now r.expires_at && has_result r))) [
      | inl hit ↦ (r.expires_at, ground (arith, h, hit), (λ t a b. ground (arith, h, hit, a, b)))
      | inr miss ↦
          let (until, less, holds) =
            check-Holds now key scope rows result (ground (arith, h, miss)) in
          (until, less, (λ t a b. ground (arith, miss, a, holds t a b)))
    ]

-- What an accepted command leaves in its slot.
slot_after :
    (env : Env) (envelope : Envelope) (scope : String) (db after : Db) (handled : Gated)
    (cached : Option CommandResult) (result : CommandResult)
    → check_idempotency_key env.now envelope.idempotency_key scope db.idempotency_keys ≡ cached
    → Kept env envelope scope handled
    → or_handle db handled cached ≡ (ok result, after)
    → Holds env.now envelope.idempotency_key scope after.idempotency_keys result
slot_after env envelope scope db after handled none result e kept h =
    subst (Kept env envelope scope) h kept
slot_after env envelope scope db after handled (some r) result e kept h =
    subst (Kept env envelope scope) h (check-Holds env.now _ scope db.idempotency_keys r e)

pub execute_command-Holds :
    (env : Env) (envelope : Envelope) (command : FeatureCommand) (db after : Db)
    (result : CommandResult)
    → Distinct (run_ids db.feature_runs)
    → execute_command env envelope command db ≡ (ok result, after)
    → Holds env.now envelope.idempotency_key
        (handler_meta command).scope
        after.idempotency_keys
        result
unfolding execute_command
execute_command-Holds env envelope command db after result d h =
    let m = handler_meta command in
    elim (Bool-cases (is_authorized envelope.actor m.required_role m.required_kind)) [
      | inl may ↦
          slot_after env envelope m.scope db after (handle env envelope command db)
            (check_idempotency_key env.now envelope.idempotency_key m.scope db.idempotency_keys)
            result refl (handle-Kept env envelope command db d) (rw (may, execute_command) at h)
      | inr refused ↦ cc (rw (refused, execute_command) at h)
    ]
