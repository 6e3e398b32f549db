-- ===== src/Plans/Quality.antt =====
-- packages/core/src/commands/handlers/planning/validate-backlog.ts: what a backlog is that passes.
use mini_coder.Common.{
  ◌≡◌, refl, subst, ◌⊎◌, inl, inr, true, false, some, List, [], ◌∷◌, String, ◌==◌, String_eq, ℕ_eq,
  All, update_rows, Bool-cases,
}
use mini_coder.Domain.{plan_state_eq}
use mini_coder.Store.Rows.{CommandResult, FeatureRequest, IdempotencyKey}
use mini_coder.Store.Plans.{ImplementationPlan}
use mini_coder.Store.{Db, Env, Result, ok, err, command_error}
use mini_coder.Command.Helpers.{Envelope, owned, replayed}
use mini_coder.Command.Claims.{cached_result, claim_cases, with_keys}
use mini_coder.Handlers.Steps.{is_empty}
use mini_coder.Handlers.Merging.{Gated}
use mini_coder.Backlog.{has_cycle}
use mini_coder.Backlog.Searching.{Cycle, Ordered, is_in}
use mini_coder.Backlog.Cycles.{Found, has_cycle-Found}
use mini_coder.Plans.{is_executable}
use mini_coder.Plans.Validation.{
  BacklogPayload, after_check, all_text_problems, backlog_ttl_ms, check_backlog, dependencies_of,
  features_of, has_text, problems_of, record_check, request_ids, set_validated, validate_backlog,
}

-- A backlog in order: an order of the features for their dependencies, and both texts for each
-- executable feature.
abbrev pub HasTexts : Db → FeatureRequest → Type 0
HasTexts db r =
    (is_executable r.kind ≡ false)
    ⊎ ((has_text db.acceptance_criteria r ≡ true) × (has_text db.test_expectations r ≡ true))

abbrev pub SoundBacklog : BacklogPayload → Db → Type 0
SoundBacklog p db =
    ((order : List String) × Ordered (dependencies_of p.plan_id db) order
      × ((id : String) → is_in id (request_ids (features_of p db)) ≡ true → is_in id order ≡ true))
    × All (HasTexts db) (features_of p db)

no_text_problems :
    (db : Db) (rs : List FeatureRequest) → all_text_problems db rs ≡ [] → All (HasTexts db) rs
unfolding all_text_problems
no_text_problems db [] h = tt
no_text_problems db (r ∷ rs) h = elim (Bool-cases (is_executable r.kind)) [
  | inr other ↦ (inl other, no_text_problems db rs (rw other at h))
  | inl hit ↦ elim (Bool-cases (has_text db.acceptance_criteria r)) [
    | inr missing ↦ cc (rw (hit, missing) at h)
    | inl criteria ↦ elim (Bool-cases (has_text db.test_expectations r)) [
      | inr missing ↦ cc (rw (hit, criteria, missing) at h)
      | inl expectations ↦ (
        inr (criteria, expectations),
        no_text_problems db rs (rw (hit, criteria, expectations) at h),
      )
    ]
  ]
]

no_problems : (p : BacklogPayload) (db : Db) → problems_of p db ≡ [] → SoundBacklog p db
no_problems p db h =
    let ids = request_ids (features_of p db) in
    let deps = dependencies_of p.plan_id db in
    elim (Bool-cases (has_cycle ids deps)) [
      | inl cycle ↦ cc (rw cycle at h)
      | inr fine ↦ (
        subst (Found ids deps) fine (has_cycle-Found ids deps),
        no_text_problems db (features_of p db) (rw fine at h),
      )
    ]

has_no_texts :
    (db : Db) (rs : List FeatureRequest) → All (HasTexts db) rs → all_text_problems db rs ≡ []
unfolding all_text_problems
has_no_texts db [] h = refl
has_no_texts db (r ∷ rs) (inl other, h) = rw other (has_no_texts db rs h)
has_no_texts db (r ∷ rs) (inr (criteria, expectations), h) =
    elim (Bool-cases (is_executable r.kind)) [
      | inl hit ↦ rw (hit, criteria, expectations) (has_no_texts db rs h)
      | inr other ↦ rw other (has_no_texts db rs h)
    ]

-- What is wrong with a backlog: a cycle, or a text that some executable feature lacks.
abbrev pub UnsoundBacklog : BacklogPayload → Db → Type 0
UnsoundBacklog p db = Cycle (dependencies_of p.plan_id db) ⊎ ¬ All (HasTexts db) (features_of p db)

some_problem :
    (p : BacklogPayload) (db : Db) (problem : String) (problems : List String)
    → problems_of p db ≡ problem ∷ problems
    → UnsoundBacklog p db
some_problem p db problem problems h =
    let ids = request_ids (features_of p db) in
    let deps = dependencies_of p.plan_id db in
    elim (Bool-cases (has_cycle ids deps)) [
      | inl cycle ↦ inl (subst (Found ids deps) cycle (has_cycle-Found ids deps))
      | inr fine ↦ inr (λ texts. cc (rw (fine, has_no_texts db (features_of p db) texts) at h))
    ]

abbrev pub marked_plans : Env → BacklogPayload → String → Db → List ImplementationPlan
marked_plans env p state db =
    update_rows (λ plan. plan.id == p.plan_id) (set_validated env state) db.implementation_plans

-- What a validation returns or throws, and what it leaves.
abbrev pub Validated : Env → Envelope → BacklogPayload → Db → Gated → Type 0
Validated env envelope p db (ok result, db') =
    ((cached_result env envelope "validate-backlog" db ≡ some result)
      × (db'.implementation_plans ≡ db.implementation_plans))
    ⊎ (SoundBacklog p db × (db'.implementation_plans ≡ marked_plans env p "valid" db))
Validated env envelope p db (err e, db') =
    (db'.implementation_plans ≡ db.implementation_plans)
    ⊎ (UnsoundBacklog p db
        × (e ≡ command_error "backlog-invalid" 422)
        × (db'.implementation_plans ≡ marked_plans env p "invalid" db))

-- What a validation that owns its slot does.
abbrev pub Checked : Env → BacklogPayload → Db → Gated → Type 0
Checked env p db (ok result, db') =
    SoundBacklog p db × (db'.implementation_plans ≡ marked_plans env p "valid" db)
Checked env p db (err e, db') =
    (db'.implementation_plans ≡ db.implementation_plans)
    ⊎ (UnsoundBacklog p db
        × (e ≡ command_error "backlog-invalid" 422)
        × (db'.implementation_plans ≡ marked_plans env p "invalid" db))

check_backlog-Checked :
    (env : Env) (envelope : Envelope) (p : BacklogPayload) (claim_id : String) (db : Db)
    → Checked env p db (after_check db (check_backlog env envelope p claim_id db))
check_backlog-Checked env envelope p claim_id db = elim (Bool-cases (is_empty (features_of p db))) [
  | inl empty ↦ rw empty (inl refl)
  | inr some_features ↦ rw some_features (go (problems_of p db) refl)
]
  where
    go :
        (problems : List String)
        → problems_of p db ≡ problems
        → Checked env p db (after_check db (record_check env envelope p claim_id problems db))
    go [] e = (no_problems p db e, refl)
    go (problem ∷ problems) e = inr (some_problem p db problem problems e, refl, refl)

after_check-keys :
    (env : Env) (envelope : Envelope) (p : BacklogPayload) (db : Db) (rows : List IdempotencyKey)
    (r : Result (CommandResult × Db))
    → Checked env p (with_keys db rows) (after_check (with_keys db rows) r)
    → Validated env envelope p db (after_check db r)
after_check-keys env envelope p db rows (err e) h = inl refl
after_check-keys env envelope p db rows (ok (result, db')) h =
    elim (Bool-cases (result.resulting_state == "invalid")) [
      | inl bad ↦ rw bad (rw bad at h)
      | inr good ↦ rw good (inr (rw good at h))
    ]

-- A validation either leaves the plans as they were (it returns or throws the result cached under
-- its key, or it was refused, or the plan has no features), or records its outcome for the backlog
-- as it now is: `valid`, and then it returns, the features have an order for their dependencies and
-- each executable one has acceptance criteria and test expectations; or `invalid`, which stays
-- recorded though it throws backlog-invalid, and then the dependencies have a cycle or an
-- executable feature lacks a text.
pub validate_backlog-Validated :
    (env : Env) (envelope : Envelope) (p : BacklogPayload) (db : Db)
    → Validated env envelope p db (validate_backlog env envelope p db)
unfolding validate_backlog
validate_backlog-Validated env envelope p db =
    elim (claim_cases env envelope.idempotency_key "validate-backlog" backlog_ttl_ms db) [
      | inl (owned id, rows, e, own) ↦ rw e (
          after_check-keys env envelope p db rows
            (check_backlog env envelope p id (with_keys db rows))
            (check_backlog-Checked env envelope p id (with_keys db rows)))
      | inl (replayed result, rows, e, cached) ↦
          rw e (elim (Bool-cases (result.resulting_state == "invalid")) [
            | inl bad ↦ rw bad (inl refl)
            | inr good ↦ rw good (inl (cached, refl))
          ])
      | inr e ↦ rw e (inl refl)
    ]
