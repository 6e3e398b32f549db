-- ===== src/Handlers/Cascade.antt =====
-- The cascade of skip-feature.ts: it blocks waiting runs, and leaves no dependent waiting.
use mini_coder.Common.{
  ℕ, ◌≤◌, ◌<◌, ◌≡◌, refl, sym, ◌∙◌, subst, ◌⊎◌, inl, inr, Bool, true, false, List, [], ◌∷◌, String,
  arith, All, update_rows, ℕ_eq, String_eq, Bool-cases, eq_iff, if◌then◌else◌,
}
use mini_coder.Domain.{FeatureExecutionState, feature_execution_state_eq}
use mini_coder.Machine.Defs.{is_valid, lookup}
use mini_coder.Machine.Graph.{here, next}
use mini_coder.Store.Rows.{FeatureRun}
use mini_coder.Store.{Env}
use mini_coder.Command.Helpers.{next_version}
use mini_coder.Handlers.Steps.{at_version, set_state}
use mini_coder.Handlers.Skipping.{Dependent, is_pending}
use mini_coder.Handlers.Evolution.{
  Pointwise, done, and_then, update_rows-Pointwise, Evolves, Evolves-refl,
}

pub blocked_is_not_pending :
    (x : FeatureRun)
    → x.current_execution_state ≡ FeatureExecutionState.blocked
    → is_pending x ≡ false
blocked_is_not_pending x h = rw h refl

pending_state :
    (x : FeatureRun)
    → is_pending x ≡ true
    → x.current_execution_state ≡ FeatureExecutionState.approved_pending_execution
pending_state x h =
    (feature_execution_state_eq.is_same_iff x.current_execution_state
        FeatureExecutionState.approved_pending_execution).0
      h

-- The runs of an id whose version is at least, or more than, the one read.
abbrev pub FromVersion : String → ℕ → List FeatureRun → Type 0
FromVersion id v = All λ r. r.id ≡ id → v ≤ r.version

abbrev pub PastVersion : String → ℕ → List FeatureRun → Type 0
PastVersion id v = All λ r. r.id ≡ id → v < r.version

module _ {ℓ κ} {A : Type ℓ} {R : A → A → Type κ} (P Q : A → Type ℓ)
    (step : (x y : A) → R x y → P x → Q y) where
  -- What each row brings along.
  pub Pointwise-All : {xs ys : List A} → Pointwise R xs ys → All P xs → All Q ys
  Pointwise-All done h = tt
  Pointwise-All (and_then {x} {y} r p) (h, hs) = (step x y r h, Pointwise-All p hs)

module _ (env : Env) (id : String) (v : ℕ) where
  abbrev pub block_at : List FeatureRun → List FeatureRun
  block_at =
      update_rows (at_version id v) (set_state env FeatureExecutionState.blocked (next_version v))

  pub at_version-id : (x : FeatureRun) → at_version id v x ≡ true → x.id ≡ id
  at_version-id x h = (eq_iff x.id id).0 (ground (arith, h))

  at_version-version : (x : FeatureRun) → at_version id v x ≡ true → x.version ≡ v
  at_version-version x h = ground (arith, h)

  -- One attempt is enough to leave the version behind that was read.
  pub block_at-PastVersion :
      (xs : List FeatureRun) → FromVersion id v xs → PastVersion id v (block_at xs)
  block_at-PastVersion [] h = tt
  block_at-PastVersion (x ∷ xs) (h, hs) =
      (past (Bool-cases (at_version id v x)), block_at-PastVersion xs hs)
    where
      past :
          (at_version id v x ≡ true) ⊎ (at_version id v x ≡ false)
          → (if at_version id v x
              then set_state env FeatureExecutionState.blocked (next_version v) x
              else x).id
            ≡ id
          → v
            < (if at_version id v x
                then set_state env FeatureExecutionState.blocked (next_version v) x
                else x).version
      past (inl hit) e = rw hit (omega arith)
      past (inr miss) e = ground (arith, e, miss, h, (eq_iff x.id id).1)

-- The cascade blocks runs of chosen requests only.
module _ (k : String → Bool) where
  -- A waiting run that was blocked.
  pub record BlockedNow (x y : FeatureRun) : Type 0 where
    pub waited : is_pending x ≡ true
    pub chosen : k x.feature_request_id ≡ true
    pub same_id : y.id ≡ x.id
    pub same_request : y.feature_request_id ≡ x.feature_request_id
    pub same_attempts : y.fix_attempt_count ≡ x.fix_attempt_count
    pub blocked : y.current_execution_state ≡ FeatureExecutionState.blocked
    pub raised : x.version < y.version

  abbrev pub Blocked : FeatureRun → FeatureRun → Type 0
  Blocked x y = (y ≡ x) ⊎ BlockedNow x y

  pub Blocked-trans : (x y z : FeatureRun) → Blocked x y → Blocked y z → Blocked x z
  Blocked-trans x y z (inl e) (inl f) = inl (f ∙ e)
  Blocked-trans x y z (inl e) (inr b) = inr (subst (λ r. BlockedNow r z) e b)
  Blocked-trans x y z (inr b) (inl f) = inr (subst (BlockedNow x) (sym f) b)
  Blocked-trans x y z (inr b) (inr c) = cc (blocked_is_not_pending y b.blocked, c.waited)

  pub Blocked-Evolves : (x y : FeatureRun) → Blocked x y → Evolves x y
  unfolding is_valid lookup
  Blocked-Evolves x y (inl e) = subst (Evolves x) (sym e) (Evolves-refl x)
  Blocked-Evolves x y (inr b) = record {
    same_id = b.same_id;
    same_request = b.same_request;
    reached = rw (pending_state x b.waited, b.blocked) (next here refl);
    versioned = inr b.raised;
    bounded = inl (omega (arith, b.same_attempts));
  }

  -- The runs of an id are of a chosen request.
  abbrev pub Named : String → List FeatureRun → Type 0
  Named id = All λ r. r.id ≡ id → k r.feature_request_id ≡ true

  -- The runs of an id are of a chosen request, and those that an update at a version would touch are
  -- waiting.
  abbrev pub WaitingAt : String → ℕ → List FeatureRun → Type 0
  WaitingAt id v = All λ r.
      (r.id ≡ id → k r.feature_request_id ≡ true) × (at_version id v r ≡ true → is_pending r ≡ true)

  module _ (env : Env) (id : String) (v : ℕ) where
    waiting_blocked :
        (xs : List FeatureRun)
        → WaitingAt id v xs
        → All
            (λ x.
              at_version id v x ≡ true
              → Blocked x (set_state env FeatureExecutionState.blocked (next_version v) x))
            xs
    waiting_blocked [] h = tt
    waiting_blocked (x ∷ xs) (h, hs) = (
      (λ hit. inr (record {
        waited = h.1 hit;
        chosen = h.0 (at_version-id env id v x hit);
        same_id = refl;
        same_request = refl;
        same_attempts = refl;
        blocked = refl;
        raised = omega (arith, at_version-version env id v x hit);
      })),
      waiting_blocked xs hs,
    )

    pub block_at-Pointwise :
        (xs : List FeatureRun) → WaitingAt id v xs → Pointwise Blocked xs (block_at env id v xs)
    block_at-Pointwise xs h =
        update_rows-Pointwise Blocked _ _ xs (λ x. inl refl) (waiting_blocked xs h)

  pub Blocked-PastVersion :
      (id : String) (v : ℕ) {xs ys : List FeatureRun}
      → Pointwise Blocked xs ys
      → PastVersion id v xs
      → PastVersion id v ys
  Blocked-PastVersion id v = Pointwise-All _ _ step
    where
      step :
          (x y : FeatureRun) → Blocked x y → (x.id ≡ id → v < x.version) → y.id ≡ id → v < y.version
      step x y (inl e) h f = subst (λ r. r.id ≡ id → v < r.version) (sym e) h f
      step x y (inr b) h f = omega (arith, h (sym b.same_id ∙ f), b.raised)

  -- A read that is still good: the version is not ahead, and where it is current the run waits.
  abbrev pub IsGood : List FeatureRun → Dependent → Type 0
  IsGood runs d =
      All
        (λ r.
          r.id ≡ d.id
          → (d.version ≤ r.version)
            × (k r.feature_request_id ≡ true)
            × (r.version ≡ d.version → is_pending r ≡ true))
        runs

  pub Blocked-IsGood :
      (d : Dependent) {xs ys : List FeatureRun}
      → Pointwise Blocked xs ys
      → IsGood xs d
      → IsGood ys d
  Blocked-IsGood d = Pointwise-All _ _ step
    where
      step :
          (x y : FeatureRun)
          → Blocked x y
          → (x.id ≡ d.id
              → (d.version ≤ x.version)
                × (k x.feature_request_id ≡ true)
                × (x.version ≡ d.version → is_pending x ≡ true))
          → y.id ≡ d.id
          → (d.version ≤ y.version)
            × (k y.feature_request_id ≡ true)
            × (y.version ≡ d.version → is_pending y ≡ true)
      step x y (inl e) h f =
          subst
            (λ r.
              r.id ≡ d.id
              → (d.version ≤ r.version)
                × (k r.feature_request_id ≡ true)
                × (r.version ≡ d.version → is_pending r ≡ true))
            (sym e) h f
      step x y (inr b) h f =
          let (low, own, w) = h (sym b.same_id ∙ f) in
          (
            omega (arith, low, b.raised),
            subst (λ request. k request ≡ true) (sym b.same_request) own,
            (λ g. absurd (omega (arith, low, b.raised, g))),
          )

  pub IsGood-FromVersion :
      (d : Dependent) (xs : List FeatureRun) → IsGood xs d → FromVersion d.id d.version xs
  IsGood-FromVersion d [] h = tt
  IsGood-FromVersion d (x ∷ xs) (h, hs) = ((λ e. (h e).0), IsGood-FromVersion d xs hs)

  pub IsGood-WaitingAt :
      (d : Dependent) (xs : List FeatureRun) → IsGood xs d → WaitingAt d.id d.version xs
  IsGood-WaitingAt d [] h = tt
  IsGood-WaitingAt d (x ∷ xs) (h, hs) = (
    (
      (λ e. (h e).1),
      (λ hit. (h ((eq_iff x.id d.id).0 (ground (arith, hit)))).2 (ground (arith, hit))),
    ),
    IsGood-WaitingAt d xs hs,
  )

  -- The read of a run that the search finds waiting is good.
  pub fresh-WaitingAt :
      (id : String) (v : ℕ) (run : FeatureRun) (xs : List FeatureRun)
      → All (λ x. x.id ≡ id → x ≡ run) xs
      → Named id xs
      → is_pending run ≡ true
      → WaitingAt id v xs
  fresh-WaitingAt id v run [] h n w = tt
  fresh-WaitingAt id v run (x ∷ xs) (h, hs) (n, ns) w = (
    (
      n,
      (λ hit.
          subst (λ r. is_pending r ≡ true) (sym (h ((eq_iff x.id id).0 (ground (arith, hit))))) w),
    ),
    fresh-WaitingAt id v run xs hs ns w,
  )

  pub WaitingAt-Named :
      (id : String) (v : ℕ) (xs : List FeatureRun) → WaitingAt id v xs → Named id xs
  WaitingAt-Named id v [] h = tt
  WaitingAt-Named id v (x ∷ xs) h = (h.0.0, WaitingAt-Named id v xs h.1)

  pub Blocked-Named :
      (id : String) {xs ys : List FeatureRun} → Pointwise Blocked xs ys → Named id xs → Named id ys
  Blocked-Named id = Pointwise-All _ _ step
    where
      step :
          (x y : FeatureRun)
          → Blocked x y
          → (x.id ≡ id → k x.feature_request_id ≡ true)
          → y.id ≡ id
          → k y.feature_request_id ≡ true
      step x y (inl e) h f = subst (λ r. r.id ≡ id → k r.feature_request_id ≡ true) (sym e) h f
      step x y (inr b) h f =
          subst (λ request. k request ≡ true) (sym b.same_request) (h (sym b.same_id ∙ f))
