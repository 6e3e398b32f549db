-- ===== src/Handlers/Evolution.antt =====
-- How a feature run may change from one command to the next, and tables of runs that change so.
use mini_coder.Common.{
  ◌≤◌, ◌<◌, ◌≡◌, ◌≢◌, refl, sym, ◌∙◌, subst, ◌⊎◌, inl, inr, Bool, true, false, some, List, [], ◌∷◌,
  String, arith, All, find, update_rows, map, if◌then◌else◌, Bool-cases,
}
use mini_coder.Machine.Graph.{Reach, here, Reach-trans, Reach-terminal, is_terminal}
use mini_coder.Store.Rows.{FeatureRun}

module _ {ℓ κ} {A : Type ℓ} (R : A → A → Type κ) where
  -- Two tables of the same length, related row by row.
  pub data Pointwise : List A → List A → Type (ℓ ⊔ κ) where
    done : Pointwise [] []
    and_then : {x y : A} {xs ys : List A} → R x y → Pointwise xs ys → Pointwise (x ∷ xs) (y ∷ ys)

  pub Pointwise-refl : ((x : A) → R x x) → (xs : List A) → Pointwise xs xs
  Pointwise-refl r [] = done
  Pointwise-refl r (x ∷ xs) = and_then (r x) (Pointwise-refl r xs)

  pub Pointwise-trans :
      {xs ys zs : List A}
      → ((x y z : A) → R x y → R y z → R x z)
      → Pointwise xs ys
      → Pointwise ys zs
      → Pointwise xs zs
  Pointwise-trans t done done = done
  Pointwise-trans t (and_then {x} {y} r p) (and_then {y = z} s q) =
      and_then (t x y z r s) (Pointwise-trans t p q)

  -- An update whose rows change as R allows.
  pub update_rows-Pointwise :
      (p : A → Bool) (f : A → A) (xs : List A)
      → ((x : A) → R x x)
      → All (λ x. p x ≡ true → R x (f x)) xs
      → Pointwise xs (update_rows p f xs)
  update_rows-Pointwise p f [] r h = done
  update_rows-Pointwise p f (x ∷ xs) r (h, hs) =
      and_then (hit (p x) refl) (update_rows-Pointwise p f xs r hs)
    where
      hit : (b : Bool) → p x ≡ b → R x (if b then f x else x)
      hit true e = h e
      hit false e = r x

pub Pointwise-map {ℓ κ μ} :
    {A : Type ℓ} {R : A → A → Type κ} {S : A → A → Type μ} {xs ys : List A}
    → ((x y : A) → R x y → S x y)
    → Pointwise R xs ys
    → Pointwise S xs ys
Pointwise-map f done = done
Pointwise-map f (and_then {x} {y} r p) = and_then (f x y r) (Pointwise-map f p)

-- Distinct keys, as a primary key has them.
abbrev pub Distinct : List String → Type 0
Distinct [] = Unit
Distinct (k ∷ ks) = All (λ l. l ≢ k) ks × Distinct ks

abbrev pub run_ids : List FeatureRun → List String
run_ids = map λ run. run.id

-- What becomes of one run: itself, or the same run further along the machine and its versions.
pub record Evolves (x y : FeatureRun) : Type 0 where
  pub same_id : y.id ≡ x.id
  pub same_request : y.feature_request_id ≡ x.feature_request_id
  pub reached : Reach x.current_execution_state y.current_execution_state
  pub versioned : (y ≡ x) ⊎ (x.version < y.version)
  pub bounded : (y.fix_attempt_count ≤ x.fix_attempt_count) ⊎ (y.fix_attempt_count ≤ 5)

pub Evolves-refl : (x : FeatureRun) → Evolves x x
Evolves-refl x = record {
  same_id = refl;
  same_request = refl;
  reached = here;
  versioned = inl refl;
  bounded = inl (omega arith);
}

versioned_trans :
    (x y z : FeatureRun)
    → (y ≡ x) ⊎ (x.version < y.version)
    → (z ≡ y) ⊎ (y.version < z.version)
    → (z ≡ x) ⊎ (x.version < z.version)
versioned_trans x y z (inl a) (inl b) = inl (b ∙ a)
versioned_trans x y z (inl a) (inr b) = inr (subst (λ r. r.version < z.version) a b)
versioned_trans x y z (inr a) (inl b) = inr (subst (λ r. x.version < r.version) (sym b) a)
versioned_trans x y z (inr a) (inr b) = inr (omega (arith, a, b))

bounded_trans :
    (x y z : FeatureRun)
    → (y.fix_attempt_count ≤ x.fix_attempt_count) ⊎ (y.fix_attempt_count ≤ 5)
    → (z.fix_attempt_count ≤ y.fix_attempt_count) ⊎ (z.fix_attempt_count ≤ 5)
    → (z.fix_attempt_count ≤ x.fix_attempt_count) ⊎ (z.fix_attempt_count ≤ 5)
bounded_trans x y z (inl a) (inl b) = inl (omega (arith, a, b))
bounded_trans x y z (inr a) (inl b) = inr (omega (arith, a, b))
bounded_trans x y z _ (inr b) = inr b

pub Evolves-trans : (x y z : FeatureRun) → Evolves x y → Evolves y z → Evolves x z
Evolves-trans x y z e f = record {
  same_id = f.same_id ∙ e.same_id;
  same_request = f.same_request ∙ e.same_request;
  reached = Reach-trans e.reached f.reached;
  versioned = versioned_trans x y z e.versioned f.versioned;
  bounded = bounded_trans x y z e.bounded f.bounded;
}

-- A run that is merged or skipped stays so.
pub Evolves-terminal :
    (x y : FeatureRun)
    → Evolves x y
    → is_terminal x.current_execution_state ≡ true
    → y.current_execution_state ≡ x.current_execution_state
Evolves-terminal x y e h = Reach-terminal h e.reached

-- Evolution keeps the ids, and so what a primary key says of them.
pub Pointwise-run_ids :
    {xs ys : List FeatureRun} → Pointwise Evolves xs ys → run_ids ys ≡ run_ids xs
Pointwise-run_ids done = refl
Pointwise-run_ids (and_then {x} {y} {xs} {ys} e p) = rw (e.same_id, Pointwise-run_ids p)

-- The row that a search for a key returns is the only one with that key.
module _ {A : Type 0} (id_of : A → String) (q : A → Bool) (key : String)
    (fits : (x : A) → q x ≡ true → id_of x ≡ key) (run : A) where
  others_differ :
      (k : String) (xs : List A)
      → All (λ l. l ≢ k) (map id_of xs)
      → k ≡ key
      → All (λ x. id_of x ≡ key → x ≡ run) xs
  others_differ k [] h e = tt
  others_differ k (x ∷ xs) (h, hs) e = ((λ f. absurd (h (f ∙ sym e))), others_differ k xs hs e)

  found_differs :
      (k : String) (xs : List A) → All (λ l. l ≢ k) (map id_of xs) → find q xs ≡ some run → k ≢ key
  found_differs k [] h e = cc
  found_differs k (x ∷ xs) (h, hs) e = elim (Bool-cases (q x)) [
    | inl hit ↦ λ f. h (fits x hit ∙ sym f)
    | inr miss ↦ found_differs k xs hs (ground (arith, e, miss))
  ]

  pub find_unique :
      (xs : List A)
      → Distinct (map id_of xs)
      → find q xs ≡ some run
      → All (λ x. id_of x ≡ key → x ≡ run) xs
  find_unique [] d e = tt
  find_unique (x ∷ xs) (d, ds) e = elim (Bool-cases (q x)) [
    | inl hit ↦ ((λ f. ground (arith, e, hit)), others_differ (id_of x) xs d (fits x hit))
    | inr miss ↦ (
      (λ f. absurd (found_differs (id_of x) xs d (ground (arith, e, miss)) f)),
      find_unique xs ds (ground (arith, e, miss)),
    )
  ]
