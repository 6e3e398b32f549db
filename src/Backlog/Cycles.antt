-- ===== src/Backlog/Cycles.antt =====
-- packages/core/src/commands/handlers/planning/validate-backlog.ts `hasCycle`: it finds a cycle
-- exactly where there is one.
use mini_coder.Common.{
  ℕ, ◌+◌, ◌≤◌, ◌≡◌, refl, inl, inr, Bool, true, false, List, [], ◌∷◌, ◌++◌, String, ◌==◌, String_eq,
  arith, length, length-append, map, Bool-cases, eq_iff,
}
use mini_coder.Store.Rows.{FeatureDependency}
use mini_coder.Backlog.{
  Color, Colors, Visit, all_white, cyclic, finished, has_cycle, is_cyclic, out_of_fuel, search,
  targets_of, visit, visit_features, visit_white,
}
use mini_coder.Backlog.Searching.{Cycle, Edge, Left, Left-refl, Ordered, Sorted, is_in, whites}
use mini_coder.Backlog.Visits.{VisitedEach, Visits, and_go_on-VisitedEach, and_rest, visit-Visits}

module _ (deps : List FeatureDependency) (nodes : List String)
    (covers : (x y : String) → Edge deps x y → is_in y nodes ≡ true) where
  visit_features-VisitedEach :
      (n : ℕ) (v : String → Colors → Visit) (ids : List String) (c : Colors)
      → Visits deps nodes covers n v
      → ((y : String) → is_in y ids ≡ true → is_in y nodes ≡ true)
      → ((x : String) → c x ≡ Color.gray → ⊥)
      → Sorted deps c
      → VisitedEach deps nodes covers n ids c (visit_features v ids c)
  unfolding visit_features
  visit_features-VisitedEach n v [] c visits among none_gray s = (Left-refl deps c s, λ y i. cc)
  visit_features-VisitedEach n v (id ∷ ids) c visits among none_gray s =
      go
        (λ c' l.
          visit_features-VisitedEach n v ids c' visits (λ y i. among y (ground (arith, i)))
            (λ x g. none_gray x (l.grays x g)) l.sorted)
        (c id) refl
    where
      go :
          ((c' : Colors)
            → Left deps c c'
            → VisitedEach deps nodes covers n ids c' (visit_features v ids c'))
          → (k : Color) → c id ≡ k
          → VisitedEach deps nodes covers n
              (id ∷ ids)
              c
              (visit_white v id c k (visit_features v ids))
      go again Color.white e =
          and_go_on-VisitedEach deps nodes covers n id ids c (v id c) (visit_features v ids) again (
            visits id c e (among id (rw ((eq_iff id id).1 refl) refl))
              (λ x g. absurd (none_gray x g)) s)
      go again Color.gray e = absurd (none_gray id e)
      go again Color.black e =
          let same = Left-refl deps c s in
          and_rest deps nodes covers n id ids c c _ same e (again c same)

-- The nodes: the features, and what they depend on.
abbrev nodes_of : List String → List FeatureDependency → List String
nodes_of ids deps = ids ++ map (λ d. d.target_fr_id) deps

is_in-left : (y : String) (xs ys : List String) → is_in y xs ≡ true → is_in y (xs ++ ys) ≡ true
is_in-left y [] ys h = cc
is_in-left y (x ∷ xs) ys h = elim (Bool-cases (x == y)) [
  | inl same ↦ rw same refl
  | inr other ↦ ground (arith, other, is_in-left y xs ys (ground (arith, h, other)))
]

is_in-right : (y : String) (xs ys : List String) → is_in y ys ≡ true → is_in y (xs ++ ys) ≡ true
is_in-right y [] ys h = h
is_in-right y (x ∷ xs) ys h = ground (arith, is_in-right y xs ys h)

is_in-targets :
    (x y : String) (deps : List FeatureDependency)
    → is_in y (targets_of deps x) ≡ true
    → is_in y (map (λ d. d.target_fr_id) deps) ≡ true
is_in-targets x y [] h = cc
is_in-targets x y (d ∷ deps) h = elim (Bool-cases (d.source_fr_id == x)) [
  | inl hit ↦ elim (Bool-cases (d.target_fr_id == y)) [
    | inl same ↦ rw same refl
    | inr other ↦ ground (arith, other, is_in-targets x y deps (ground (arith, h, hit, other)))
  ]
  | inr miss ↦ ground (arith, is_in-targets x y deps (ground (arith, h, miss)))
]

length-targets :
    (deps : List FeatureDependency) → length (map (λ d. d.target_fr_id) deps) ≡ length deps
length-targets [] = refl
length-targets (d ∷ deps) = omega (arith, length-targets deps)

whites-length : (nodes : List String) → whites all_white nodes ≤ length nodes
whites-length [] = omega arith
whites-length (x ∷ xs) = omega (arith, whites-length xs)

-- What the search says of the features.
abbrev pub Found : List String → List FeatureDependency → Bool → Type 0
Found ids deps true = Cycle deps
Found ids deps false =
    (order : List String) × Ordered deps order
    × ((id : String) → is_in id ids ≡ true → is_in id order ≡ true)

-- hasCycle is right, and its recursion ends: where it answers true there is a chain of dependencies
-- from a feature to itself, and where it answers false there is an order of the features, all of
-- them in it, in which each stands before everything that it depends on.
pub has_cycle-Found :
    (ids : List String) (deps : List FeatureDependency) → Found ids deps (has_cycle ids deps)
unfolding has_cycle
has_cycle-Found ids deps = go (search ids deps) (
    visit_features-VisitedEach deps nodes covers (length ids + length deps)
      (visit (length ids + length deps) deps) ids all_white
      (visit-Visits deps nodes covers (length ids + length deps))
      (λ y i. is_in-left y ids (map (λ d. d.target_fr_id) deps) i) (λ x g. cc)
      (record { order = []; ordered = tt; complete = λ x b. cc }))
  where
    nodes : List String
    nodes = nodes_of ids deps

    covers : (x y : String) → Edge deps x y → is_in y nodes ≡ true
    covers x y e = is_in-right y ids _ (is_in-targets x y deps e)

    go :
        (r : Visit)
        → VisitedEach deps nodes covers (length ids + length deps) ids all_white r
        → Found ids deps (is_cyclic r)
    go out_of_fuel h = absurd (
        omega (
          arith,
          h,
          whites-length (nodes_of ids deps),
          length-append ids (map (λ d. d.target_fr_id) deps),
          length-targets deps,
        ))
    go cyclic h = h
    go (finished c') (l, h) =
        (l.sorted.order, l.sorted.ordered, λ id i. l.sorted.complete id (h id i))
