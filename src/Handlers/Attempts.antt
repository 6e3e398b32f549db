-- ===== src/Handlers/Attempts.antt =====
-- The loops of skip-feature.ts: the attempts at one dependent, and the dependents in turn.
use mini_coder.Common.{
  ℕ, zero, suc, ◌≡◌, refl, sym, ◌∙◌, subst, inl, inr, Bool, true, false, Option, none, some, List,
  [], ◌∷◌, String, arith, All, find, ◌==◌, ℕ_eq, String_eq, Option-cases, eq_iff, if◌then◌else◌,
}
use mini_coder.Domain.{feature_execution_state_eq}
use mini_coder.Machine.Defs.{lookup, assert_valid}
use mini_coder.Store.Rows.{FeatureRun}
use mini_coder.Store.{Db, Env, Result, ok, err, M, pure}
use mini_coder.Command.Helpers.{Envelope}
use mini_coder.Handlers.Steps.{FeaturePayload}
use mini_coder.Handlers.Skipping.{
  Dependent, fresh_version, after_attempt, block_attempts, block_dependent, cascade, report_blocked,
}
use mini_coder.Handlers.Evolution.{
  Pointwise, Pointwise-refl, Pointwise-trans, Pointwise-map, Pointwise-run_ids, Distinct, run_ids,
  find_unique,
}
use mini_coder.Handlers.Cascade.{
  Blocked, Blocked-Named, Named, WaitingAt-Named, Blocked-trans, Blocked-Evolves,
  Blocked-PastVersion, Blocked-IsGood, WaitingAt, PastVersion, IsGood, IsGood-FromVersion,
  IsGood-WaitingAt, block_at, block_at-Pointwise, block_at-PastVersion, fresh-WaitingAt,
}

module _ (k : String → Bool) where
  -- What an attempt answers: from the runs `start` on, waiting runs were blocked, and nothing else
  -- of the database changed.
  pub record Attempted (db : Db) (start : List FeatureRun) (r : Result (Bool × Db)) : Type 0 where
    pub answer : Bool
    pub runs : List FeatureRun
    pub equation : r ≡ ok (answer, record db { feature_runs = runs })
    pub blocked : Pointwise (Blocked k) start runs

  after_attempt-Attempted :
      (db : Db) (start runs : List FeatureRun) (again : ℕ → M Bool) (affected : ℕ)
      (fresh : Option ℕ)
      → Pointwise (Blocked k) start runs
      → ((v : ℕ)
          → fresh ≡ some v
          → Attempted
              (record db { feature_runs = runs })
              runs
              (again v (record db { feature_runs = runs })))
      → Attempted db start (after_attempt again affected fresh (record db { feature_runs = runs }))
  after_attempt-Attempted db start runs again (suc n) fresh p h = record {
    answer = true;
    runs = runs;
    equation = refl;
    blocked = p;
  }
  after_attempt-Attempted db start runs again zero none p h = record {
    answer = false;
    runs = runs;
    equation = refl;
    blocked = p;
  }
  after_attempt-Attempted db start runs again zero (some v) p h =
      let a = h v refl in
      record {
        answer = a.answer;
        runs = a.runs;
        equation = a.equation;
        blocked = Pointwise-trans (Blocked k) (Blocked-trans k) p a.blocked;
      }

  Blocked-Distinct :
      {xs ys : List FeatureRun}
      → Pointwise (Blocked k) xs ys
      → Distinct (run_ids xs)
      → Distinct (run_ids ys)
  Blocked-Distinct p d =
      subst Distinct (sym (Pointwise-run_ids (Pointwise-map (Blocked-Evolves k) p))) d

  fresh_version-WaitingAt :
      (id : String) (v : ℕ) (runs : List FeatureRun)
      → Distinct (run_ids runs)
      → (Named k) id runs
      → fresh_version (find (λ run. run.id == id) runs) ≡ some v
      → (WaitingAt k) id v runs
  fresh_version-WaitingAt id v runs d n e = elim (Option-cases (find (λ run. run.id == id) runs)) [
    | inl missing ↦ ground (arith, e, missing)
    | inr (run, found) ↦
        (fresh-WaitingAt k) id v run runs
          (find_unique (λ r. r.id) (λ r. r.id == id) id (λ x h. (eq_iff x.id id).0 h) run runs d
            found)
          n (ground (arith, e, found))
  ]

  module _ (env : Env) (id : String) where
    -- One attempt and those that follow it, given what the latter do.
    attempt-Attempted :
        (n v : ℕ) (db : Db) (start : List FeatureRun)
        → Pointwise (Blocked k) start (block_at env id v db.feature_runs)
        → Distinct (run_ids db.feature_runs)
        → (WaitingAt k) id v db.feature_runs
        → ((v' : ℕ) (db' : Db)
            → Distinct (run_ids db'.feature_runs)
            → (WaitingAt k) id v' db'.feature_runs
            → Attempted db' db'.feature_runs (block_attempts env n id v' db'))
        → Attempted db start (block_attempts env (suc n) id v db)
    unfolding block_attempts
    attempt-Attempted n v db start p d w rest =
        let runs = block_at env id v db.feature_runs in
        let step = (block_at-Pointwise k) env id v db.feature_runs w in
        let d' = Blocked-Distinct step d in
        let n' = (Blocked-Named k) id step ((WaitingAt-Named k) id v db.feature_runs w) in
        after_attempt-Attempted db start runs (block_attempts env n id) _ _ p
          (λ v' e. rest v' _ d' (fresh_version-WaitingAt id v' runs d' n' e))

    block_attempts-Attempted :
        (n v : ℕ) (db : Db)
        → Distinct (run_ids db.feature_runs)
        → (WaitingAt k) id v db.feature_runs
        → Attempted db db.feature_runs (block_attempts env n id v db)
    unfolding block_attempts
    block_attempts-Attempted zero v db d w = record {
      answer = false;
      runs = db.feature_runs;
      equation = refl;
      blocked = Pointwise-refl (Blocked k) (λ x. inl refl) db.feature_runs;
    }
    block_attempts-Attempted (suc n) v db d w =
        attempt-Attempted n v db db.feature_runs ((block_at-Pointwise k) env id v db.feature_runs w)
          d w (λ v' db' d' w'. block_attempts-Attempted n v' db' d' w')

  -- What a good read comes to: the run is left behind blocked, or had moved on by itself.
  pub record Handled (db : Db) (d : Dependent) (r : Result (Unit {0} × Db)) : Type 0 where
    pub after : Db
    pub equation : r ≡ ok (tt, after)
    pub same_keys : after.idempotency_keys ≡ db.idempotency_keys
    pub blocked : Pointwise (Blocked k) db.feature_runs after.feature_runs
    pub past : PastVersion d.id d.version after.feature_runs

  module _ (env : Env) (envelope : Envelope) (p : FeaturePayload) where
    abbrev report : String → Result (Bool × Db) → Result (Unit {0} × Db)
    report id (ok (b, db)) = (if b then report_blocked env envelope p id else pure tt) db
    report id (err e) = err e

    reported :
        (d : Dependent) (db : Db) (answer : Bool) (runs : List FeatureRun)
        → Pointwise (Blocked k) db.feature_runs runs
        → PastVersion d.id d.version runs
        → Handled db d (report d.id (ok (answer, record db { feature_runs = runs })))
    reported d db true runs b h = record {
      after = _;
      equation = refl;
      same_keys = refl;
      blocked = b;
      past = h;
    }
    reported d db false runs b h = record {
      after = _;
      equation = refl;
      same_keys = refl;
      blocked = b;
      past = h;
    }

    pub block_dependent-Handled :
        (d : Dependent) (db : Db)
        → Distinct (run_ids db.feature_runs)
        → (IsGood k) db.feature_runs d
        → Handled db d (block_dependent env envelope p d db)
    unfolding block_dependent assert_valid lookup
    block_dependent-Handled d db distinct good =
        let w = (IsGood-WaitingAt k) d db.feature_runs good in
        let moved = (block_at-Pointwise k) env d.id d.version db.feature_runs w in
        let a =
          attempt-Attempted env d.id 2 d.version db (block_at env d.id d.version db.feature_runs)
            (Pointwise-refl (Blocked k) (λ x. inl refl) _) distinct w
            (λ v' db' d' w'. block_attempts-Attempted env d.id 2 v' db' d' w') in
        subst (λ r. Handled db d (report d.id r)) (sym a.equation)
          (reported d db a.answer a.runs
            (Pointwise-trans (Blocked k) (Blocked-trans k) moved a.blocked)
            ((Blocked-PastVersion k) d.id d.version a.blocked (
              block_at-PastVersion env d.id d.version db.feature_runs
                ((IsGood-FromVersion k) d db.feature_runs good))))

  -- What the whole cascade comes to: every run that was read is left behind.
  pub record Cascaded (db : Db) (ds : List Dependent) (r : Result (Unit {0} × Db)) : Type 0 where
    pub after : Db
    pub equation : r ≡ ok (tt, after)
    pub same_keys : after.idempotency_keys ≡ db.idempotency_keys
    pub blocked : Pointwise (Blocked k) db.feature_runs after.feature_runs
    pub past : All (λ d. PastVersion d.id d.version after.feature_runs) ds

  All-IsGood :
      (ds : List Dependent) {xs ys : List FeatureRun}
      → Pointwise (Blocked k) xs ys
      → All ((IsGood k) xs) ds
      → All ((IsGood k) ys) ds
  All-IsGood [] p h = tt
  All-IsGood (d ∷ ds) p (h, hs) = ((Blocked-IsGood k) d p h, All-IsGood ds p hs)

  pub cascade-Cascaded :
      (env : Env) (envelope : Envelope) (p : FeaturePayload) (ds : List Dependent) (db : Db)
      → Distinct (run_ids db.feature_runs)
      → All ((IsGood k) db.feature_runs) ds
      → Cascaded db ds (cascade env envelope p ds db)
  unfolding cascade
  cascade-Cascaded env envelope p [] db distinct h = record {
    after = db;
    equation = refl;
    same_keys = refl;
    blocked = Pointwise-refl (Blocked k) (λ x. inl refl) db.feature_runs;
    past = tt;
  }
  cascade-Cascaded env envelope p (d ∷ ds) db distinct (h, hs) =
      let first = block_dependent-Handled env envelope p d db distinct h in
      let rest =
        cascade-Cascaded env envelope p ds first.after (Blocked-Distinct first.blocked distinct)
          (All-IsGood ds first.blocked hs) in
      record {
        after = rest.after;
        equation =
            subst
              (λ r.
                elim r [ ok (u, db') ↦ cascade env envelope p ds db' | err e ↦ err e ]
                ≡ ok (tt, rest.after))
              (sym first.equation) rest.equation;
        same_keys = rest.same_keys ∙ first.same_keys;
        blocked = Pointwise-trans (Blocked k) (Blocked-trans k) first.blocked rest.blocked;
        past = ((Blocked-PastVersion k) d.id d.version rest.blocked first.past, rest.past);
      }
