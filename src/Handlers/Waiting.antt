-- ===== src/Handlers/Waiting.antt =====
-- The dependents that skip-feature.ts reads, and what a skip leaves behind.
use mini_coder.Common.{
  ◌<◌, ◌≡◌, ◌≢◌, refl, any, Bool, sym, ap, subst, inl, inr, true, false, ◌&&◌, List, [], ◌∷◌, ◌++◌,
  String, arith, All, ◌==◌, ℕ_eq, String_eq, Bool-cases, eq_iff,
}
use mini_coder.Domain.{feature_execution_state_eq}
use mini_coder.Store.Rows.{FeatureRun, FeatureDependency}
use mini_coder.Handlers.Skipping.{Dependent, is_pending, pending_runs, dependents}
use mini_coder.Handlers.Evolution.{Pointwise, done, and_then, Distinct, run_ids}
use mini_coder.Handlers.Cascade.{Blocked, blocked_is_not_pending, PastVersion, IsGood}

module _ {ℓ} {A : Type ℓ} (P : A → Type ℓ) where
  All-append : (xs ys : List A) → All P xs → All P ys → All P (xs ++ ys)
  All-append [] ys h k = k
  All-append (x ∷ xs) ys (h, hs) k = (h, All-append xs ys hs k)

  All-append-left : (xs ys : List A) → All P (xs ++ ys) → All P xs
  All-append-left [] ys h = tt
  All-append-left (x ∷ xs) ys (h, hs) = (h, All-append-left xs ys hs)

  All-append-right : (xs ys : List A) → All P (xs ++ ys) → All P ys
  All-append-right [] ys h = h
  All-append-right (x ∷ xs) ys (h, hs) = All-append-right xs ys hs

-- No run of a request waits.
abbrev pub NoneWaits : String → List FeatureRun → Type 0
NoneWaits request = All λ r. r.feature_request_id ≡ request → is_pending r ≡ false

-- The cascade of chosen requests.
module _ (k : String → Bool) where
  -- A read of a run of the table is good.
  module _ (run : FeatureRun) (w : is_pending run ≡ true) where
    abbrev read : Dependent
    read = record { id = run.id; version = run.version }

    others-IsGood : (xs : List FeatureRun) → All (λ l. l ≢ run.id) (run_ids xs) → (IsGood k) xs read
    others-IsGood [] h = tt
    others-IsGood (x ∷ xs) (h, hs) = ((λ e. absurd (h e)), others-IsGood xs hs)

    first-IsGood :
        (xs : List FeatureRun)
        → k run.feature_request_id ≡ true
        → All (λ l. l ≢ run.id) (run_ids xs)
        → (IsGood k) (run ∷ xs) read
    first-IsGood xs own h = ((λ e. (omega arith, own, (λ g. w))), others-IsGood xs h)

  -- A row in front, with another id, changes nothing.
  IsGood-behind :
      (x : FeatureRun) (xs : List FeatureRun) (ds : List Dependent)
      → All (λ d. d.id ≢ x.id) ds
      → All ((IsGood k) xs) ds
      → All ((IsGood k) (x ∷ xs)) ds
  IsGood-behind x xs [] h k = tt
  IsGood-behind x xs (d ∷ ds) (h, hs) (k, ks) =
      (((λ e. absurd (h (sym e))), k), IsGood-behind x xs ds hs ks)

  pending_runs-differ :
      (k request : String) (xs : List FeatureRun)
      → All (λ l. l ≢ k) (run_ids xs)
      → All (λ d. d.id ≢ k) (pending_runs request xs)
  pending_runs-differ k request [] h = tt
  pending_runs-differ k request (x ∷ xs) (h, hs) =
      elim (Bool-cases (x.feature_request_id == request && is_pending x)) [
        | inl hit ↦ rw hit (h, pending_runs-differ k request xs hs)
        | inr miss ↦ rw miss (pending_runs-differ k request xs hs)
      ]

  pending_runs-IsGood :
      (request : String) (xs : List FeatureRun)
      → k request ≡ true
      → Distinct (run_ids xs)
      → All ((IsGood k) xs) (pending_runs request xs)
  pending_runs-IsGood request [] own d = tt
  pending_runs-IsGood request (x ∷ xs) own (d, ds) =
      let rest =
        IsGood-behind x xs (pending_runs request xs) (pending_runs-differ x.id request xs d)
          (pending_runs-IsGood request xs own ds) in
      elim (Bool-cases (x.feature_request_id == request && is_pending x)) [
        | inl hit ↦ rw hit (
          first-IsGood x (ground (arith, hit)) xs
              (subst (λ s. k s ≡ true)
                (sym ((eq_iff x.feature_request_id request).0 (ground (arith, hit)))) own)
              d,
          rest,
        )
        | inr miss ↦ rw miss rest
      ]

  pub dependents-IsGood :
      (target : String) (runs : List FeatureRun) (deps : List FeatureDependency)
      → All (λ d. (d.target_fr_id == target) ≡ true → k d.source_fr_id ≡ true) deps
      → Distinct (run_ids runs)
      → All ((IsGood k) runs) (dependents target runs deps)
  unfolding dependents
  dependents-IsGood target runs [] own d = tt
  dependents-IsGood target runs (x ∷ deps) own d = elim (Bool-cases (x.target_fr_id == target)) [
    | inl hit ↦
        rw (hit, dependents)
          (All-append ((IsGood k) runs) (pending_runs x.source_fr_id runs)
            (dependents target runs deps) (pending_runs-IsGood x.source_fr_id runs (own.0 hit) d)
            (dependents-IsGood target runs deps own.1 d))
    | inr miss ↦ rw (miss, dependents) (dependents-IsGood target runs deps own.1 d)
  ]

  -- A run that was read and left behind does not wait.
  unread_does_not_wait :
      (request : String) (x y : FeatureRun)
      → (Blocked k) x y
      → ((x.feature_request_id == request && is_pending x) ≡ true → x.version < y.version)
      → y.feature_request_id ≡ request
      → is_pending y ≡ false
  unread_does_not_wait request x y (inr b) h e = blocked_is_not_pending y b.blocked
  unread_does_not_wait request x y (inl same) h e = elim (Bool-cases (is_pending y)) [
    | inr moved ↦ moved
    | inl waits ↦
        let less : x.version < y.version = h (
          ground (
            arith,
            (eq_iff x.feature_request_id request).1
                (subst (λ r. r.feature_request_id ≡ request) same e),
            subst (λ r. is_pending r ≡ true) same waits,
          )) in
        absurd (omega (arith, less, ap (λ r. r.version) same))
  ]

  abbrev Left : List FeatureRun → Dependent → Type 0
  Left runs d = PastVersion d.id d.version runs

  Left-behind :
      (y : FeatureRun) (ys : List FeatureRun) (ds : List Dependent)
      → All (Left (y ∷ ys)) ds
      → All (Left ys) ds
  Left-behind y ys [] h = tt
  Left-behind y ys (d ∷ ds) ((a, b), hs) = (b, Left-behind y ys ds hs)

  Blocked-id : (x y : FeatureRun) → (Blocked k) x y → y.id ≡ x.id
  Blocked-id x y (inl e) = ap (λ r. r.id) e
  Blocked-id x y (inr b) = b.same_id

  none_waits :
      (request : String) {xs ys : List FeatureRun}
      → Pointwise (Blocked k) xs ys
      → All (Left ys) (pending_runs request xs)
      → NoneWaits request ys
  none_waits request done h = tt
  none_waits request (and_then {x} {y} {xs} {ys} r p) h =
      elim (Bool-cases (x.feature_request_id == request && is_pending x)) [
        | inl hit ↦
            let (first, rest) = rw hit at h in
            (
              unread_does_not_wait request x y r (λ g. first.0 (Blocked-id x y r)),
              none_waits request p (Left-behind y ys (pending_runs request xs) rest),
            )
        | inr miss ↦ (
          unread_does_not_wait request x y r (λ g. cc (g, miss)),
          none_waits request p (Left-behind y ys (pending_runs request xs) (rw miss at h)),
        )
      ]

  -- After the cascade no run waits on a request that depends on the skipped one.
  pub no_dependent_waits :
      (target : String) {xs ys : List FeatureRun} (deps : List FeatureDependency)
      → Pointwise (Blocked k) xs ys
      → All (λ d. PastVersion d.id d.version ys) (dependents target xs deps)
      → All (λ d. d.target_fr_id ≡ target → NoneWaits d.source_fr_id ys) deps
  unfolding dependents
  no_dependent_waits target [] p h = tt
  no_dependent_waits target {xs} {ys} (d ∷ deps) p h =
      elim (Bool-cases (d.target_fr_id == target)) [
        | inl hit ↦
            let both = rw (hit, dependents) at h in
            (
              (λ e.
                  none_waits d.source_fr_id p
                    (All-append-left (Left ys) (pending_runs d.source_fr_id xs) _ both)),
              no_dependent_waits target deps p
                  (All-append-right (Left ys) (pending_runs d.source_fr_id xs) _ both),
            )
        | inr miss ↦ (
          (λ e. cc ((eq_iff d.target_fr_id target).1 e, miss)),
          no_dependent_waits target deps p (rw (miss, dependents) at h),
        )
      ]

-- The requests that wait for another one.
abbrev pub depends_on : String → List FeatureDependency → String → Bool
depends_on target deps request =
    any (λ d. d.target_fr_id == target && d.source_fr_id == request) deps

-- Every dependency on the target is one that its source has.
pub depends_on-source :
    (target : String) (deps : List FeatureDependency)
    → All
        (λ d. (d.target_fr_id == target) ≡ true → depends_on target deps d.source_fr_id ≡ true)
        deps
depends_on-source target deps = go deps (λ request h. h)
  where
    go :
        (ds : List FeatureDependency)
        → ((request : String)
            → depends_on target ds request ≡ true
            → depends_on target deps request ≡ true)
        → All
            (λ d. (d.target_fr_id == target) ≡ true → depends_on target deps d.source_fr_id ≡ true)
            ds
    go [] h = tt
    go (d ∷ ds) h = (
      (λ hit.
          h d.source_fr_id (ground (arith, hit, (eq_iff d.source_fr_id d.source_fr_id).1 refl))),
      go ds (λ request below. h request (ground (arith, below))),
    )
