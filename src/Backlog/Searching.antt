-- ===== src/Backlog/Searching.antt =====
-- packages/core/src/commands/handlers/planning/validate-backlog.ts `hasCycle`: what one visit finds
-- and leaves, as long as it has fuel.
use mini_coder.Common.{
  ℕ, ◌≤◌, ◌<◌, ◌≡◌, ap, ◌∙◌, inl, inr, Bool, true, false, List, [], ◌∷◌, String, ◌==◌, String_eq,
  arith, any, count_rows, Bool-cases, eq_iff,
}
use mini_coder.Store.Rows.{FeatureDependency}
use mini_coder.Backlog.{Color, Colors, set_color, targets_of}

abbrev pub is_in : String → List String → Bool
is_in x xs = any (λ y. y == x) xs

abbrev pub is_white : Color → Bool
is_white Color.white = true
is_white _ = false

-- How many of the nodes are white.
abbrev pub whites : Colors → List String → ℕ
whites colors nodes = count_rows (λ x. is_white (colors x)) nodes

pub whites-fewer :
    (c c' : Colors) (nodes : List String)
    → ((x : String) → is_white (c' x) ≡ true → is_white (c x) ≡ true)
    → whites c' nodes ≤ whites c nodes
whites-fewer c c' [] h = omega arith
whites-fewer c c' (x ∷ xs) h =
    let rest = whites-fewer c c' xs h in
    elim (Bool-cases (is_white (c' x))) [
      | inl white ↦ rw (white, h x white) (omega (arith, rest))
      | inr other ↦ rw other (ground (arith, rest))
    ]

set_gray-white :
    (id : String) (c : Colors) (x : String)
    → is_white (set_color id Color.gray c x) ≡ true
    → is_white (c x) ≡ true
set_gray-white id c x h = elim (Bool-cases (x == id)) [
  | inl same ↦ cc (rw same at h)
  | inr other ↦ rw other at h
]

-- A visit makes a white node grey.
pub whites-set_gray :
    (id : String) (c : Colors) (nodes : List String)
    → is_in id nodes ≡ true
    → c id ≡ Color.white
    → whites (set_color id Color.gray c) nodes < whites c nodes
whites-set_gray id c [] i w = cc
whites-set_gray id c (x ∷ xs) i w = elim (Bool-cases (x == id)) [
  | inl same ↦
      let white : c x ≡ Color.white = ap c ((eq_iff x id).0 same) ∙ w in
      rw (same, white)
        (omega (arith, whites-fewer c (set_color id Color.gray c) xs (set_gray-white id c)))
  | inr other ↦ rw other (omega (arith, whites-set_gray id c xs (ground (arith, i, other)) w))
]

module _ (deps : List FeatureDependency) where
  abbrev pub Edge : String → String → Type 0
  Edge x y = is_in y (targets_of deps x) ≡ true

  -- A chain of dependencies.
  pub data Chain : String → String → Type 0 where
    here : {x : String} → Chain x x
    step : {x y z : String} → Edge x y → Chain y z → Chain x z

  pub further : {x y z : String} → Chain x y → Edge y z → Chain x z
  further here e = step e here
  further (step f p) e = step f (further p e)

  -- A feature that waits for itself.
  pub record Cycle : Type 0 where
    pub first : String
    pub second : String
    pub edge : Edge first second
    pub back : Chain second first

  -- Each stands before all that it depends on.
  abbrev pub Ordered : List String → Type 0
  Ordered [] = Unit
  Ordered (x ∷ xs) = ((y : String) → Edge x y → is_in y xs ≡ true) × Ordered xs

  pub record Sorted (c : Colors) : Type 0 where
    pub order : List String
    pub ordered : Ordered order
    pub complete : (x : String) → c x ≡ Color.black → is_in x order ≡ true

  pub record Left (c c' : Colors) : Type 0 where
    pub sorted : Sorted c'
    pub grays : (x : String) → c' x ≡ Color.gray → c x ≡ Color.gray
    pub still_gray : (x : String) → c x ≡ Color.gray → c' x ≡ Color.gray
    pub still_black : (x : String) → c x ≡ Color.black → c' x ≡ Color.black

  pub Left-refl : (c : Colors) → Sorted c → Left c c
  Left-refl c s = record {
    sorted = s;
    grays = λ x h. h;
    still_gray = λ x h. h;
    still_black = λ x h. h;
  }

  pub Left-trans : {c d e : Colors} → Left c d → Left d e → Left c e
  Left-trans a b = record {
    sorted = b.sorted;
    grays = λ x h. a.grays x (b.grays x h);
    still_gray = λ x h. b.still_gray x (a.still_gray x h);
    still_black = λ x h. b.still_black x (a.still_black x h);
  }
