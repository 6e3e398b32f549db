-- ===== src/Backlog/Visits.antt =====
-- packages/core/src/commands/handlers/planning/validate-backlog.ts `hasCycle`: with fuel for the white
-- nodes, a visit finds a cycle or leaves an order.
use mini_coder.Common.{
  ℕ, zero, suc, ◌≤◌, ◌<◌, ◌≡◌, refl, sym, ap, ◌∙◌, subst, inl, inr, true, List, [], ◌∷◌, String,
  ◌==◌, String_eq, arith, Bool-cases, eq_iff,
}
use mini_coder.Store.Rows.{FeatureDependency}
use mini_coder.Backlog.{
  Color, Colors, Visit, and_go_on, cyclic, finished, out_of_fuel, set_color, targets_of, visit,
  visit_each, visit_next,
}
use mini_coder.Backlog.Searching.{
  Cycle, Edge, Left, Left-refl, Left-trans, Chain, Sorted, further, is_in, is_white, whites,
  whites-fewer, whites-set_gray,
}

module _ (deps : List FeatureDependency) (nodes : List String)
    (covers : (x y : String) → Edge deps x y → is_in y nodes ≡ true) where
  -- What a visit comes to: no fuel for the white nodes, a cycle, or an order in which the visited
  -- node stands before all that it depends on.
  abbrev pub Visited : ℕ → String → Colors → Visit → Type 0
  Visited n id c out_of_fuel = n < whites c nodes
  Visited n id c cyclic = Cycle deps
  Visited n id c (finished c') = Left deps c c' × (c' id ≡ Color.black)

  abbrev pub VisitedEach : ℕ → List String → Colors → Visit → Type 0
  VisitedEach n todo c out_of_fuel = n < whites c nodes
  VisitedEach n todo c cyclic = Cycle deps
  VisitedEach n todo c (finished c') =
      Left deps c c' × ((y : String) → is_in y todo ≡ true → c' y ≡ Color.black)

  -- All that is being visited leads to a node.
  abbrev pub GraysReach : Colors → String → Type 0
  GraysReach c id = (x : String) → c x ≡ Color.gray → Chain deps x id

  abbrev pub Visits : ℕ → (String → Colors → Visit) → Type 0
  Visits n v =
      (id : String) (c : Colors)
      → c id ≡ Color.white
      → is_in id nodes ≡ true
      → GraysReach c id
      → Sorted deps c
      → Visited n id c (v id c)

  Left-white :
      (c c' : Colors) → Left deps c c' → (x : String) → c' x ≡ Color.white → c x ≡ Color.white
  Left-white c c' l x w = go (c x) refl
    where
      go : (k : Color) → c x ≡ k → k ≡ Color.white
      go Color.white e = refl
      go Color.gray e = cc (l.still_gray x e, w)
      go Color.black e = cc (l.still_black x e, w)

  pub Left-whites : (c c' : Colors) → Left deps c c' → whites c' nodes ≤ whites c nodes
  Left-whites c c' l = whites-fewer c c' nodes λ x w. white (c' x) refl w
    where
      white : {x : String} (k : Color) → c' x ≡ k → is_white k ≡ true → is_white (c x) ≡ true
      white {x} Color.white e w = rw (Left-white c c' l x e) refl
      white Color.gray e w = cc
      white Color.black e w = cc

  -- One node more.
  pub and_rest :
      (n : ℕ) (next : String) (rest : List String) (c c' : Colors) (r : Visit)
      → Left deps c c'
      → c' next ≡ Color.black
      → VisitedEach n rest c' r
      → VisitedEach n (next ∷ rest) c r
  and_rest n next rest c c' out_of_fuel l b h = omega (arith, h, Left-whites c c' l)
  and_rest n next rest c c' cyclic l b h = h
  and_rest n next rest c c' (finished c'') l b (l', h) = (Left-trans deps l l', all_black)
    where
      all_black : (y : String) → is_in y (next ∷ rest) ≡ true → c'' y ≡ Color.black
      all_black y i = elim (Bool-cases (next == y)) [
        | inl same ↦ l'.still_black y (ap c' (sym ((eq_iff next y).0 same)) ∙ b)
        | inr other ↦ h y (ground (arith, i, other))
      ]

  pub and_go_on-VisitedEach :
      (n : ℕ) (next : String) (rest : List String) (c : Colors) (r : Visit) (k : Colors → Visit)
      → ((c' : Colors) → Left deps c c' → VisitedEach n rest c' (k c'))
      → Visited n next c r
      → VisitedEach n (next ∷ rest) c (and_go_on r k)
  and_go_on-VisitedEach n next rest c out_of_fuel k again h = h
  and_go_on-VisitedEach n next rest c cyclic k again h = h
  and_go_on-VisitedEach n next rest c (finished c') k again (l, b) =
      and_rest n next rest c c' _ l b (again c' l)

  module _ (n : ℕ) (v : String → Colors → Visit) (visits : Visits n v) (id : String) where
    visit_each-VisitedEach :
        (todo : List String) (c : Colors)
        → ((y : String) → is_in y todo ≡ true → Edge deps id y)
        → GraysReach c id
        → Sorted deps c
        → VisitedEach n todo c (visit_each v todo c)
    unfolding visit_each
    visit_each-VisitedEach [] c edges reach s = (Left-refl deps c s, λ y i. cc)
    visit_each-VisitedEach (next ∷ rest) c edges reach s =
        go
          (λ c' l.
            visit_each-VisitedEach rest c' (λ y i. edges y (ground (arith, i)))
              (λ x g. reach x (l.grays x g)) l.sorted)
          (c next) refl
      where
        edge : Edge deps id next
        edge = edges next (rw ((eq_iff next next).1 refl) refl)

        go :
            ((c' : Colors) → Left deps c c' → VisitedEach n rest c' (visit_each v rest c'))
            → (k : Color) → c next ≡ k
            → VisitedEach n (next ∷ rest) c (visit_next v next c k (visit_each v rest))
        go again Color.gray e = record {
          first = id;
          second = next;
          edge = edge;
          back = reach next e;
        }
        go again Color.white e =
            and_go_on-VisitedEach n next rest c (v next c) (visit_each v rest) again
              (visits next c e (covers id next edge) (λ x g. further deps (reach x g) edge) s)
        go again Color.black e =
            let same = Left-refl deps c s in and_rest n next rest c c _ same e (again c same)

  -- While a node is grey, all its dependencies become black; then it is black too.
  module _ (id : String) (c : Colors) (w : c id ≡ Color.white) (reach : GraysReach c id)
      (s : Sorted deps c) where
    entered : Colors
    entered = set_color id Color.gray c

    entered-GraysReach : GraysReach entered id
    unfolding entered
    entered-GraysReach x g = elim (Bool-cases (x == id)) [
      | inl same ↦ subst (λ y. Chain deps y id) (sym ((eq_iff x id).0 same)) Chain.here
      | inr other ↦ reach x (rw other at g)
    ]

    entered-Sorted : Sorted deps entered
    unfolding entered
    entered-Sorted = record {
      order = s.order;
      ordered = s.ordered;
      complete = λ x b. elim (Bool-cases (x == id)) [
        | inl same ↦ cc (rw same at b)
        | inr other ↦ s.complete x (rw other at b)
      ];
    }

    -- What a visit leaves.
    left_black :
        (d : Colors)
        → Left deps entered d
        → ((y : String) → Edge deps id y → d y ≡ Color.black)
        → Left deps c (set_color id Color.black d)
    unfolding entered
    left_black d l targets = record {
      sorted = record {
        order = id ∷ l.sorted.order;
        ordered = ((λ y e. l.sorted.complete y (targets y e)), l.sorted.ordered);
        complete = λ x b. elim (Bool-cases (x == id)) [
          | inl same ↦ rw ((eq_iff id x).1 (sym ((eq_iff x id).0 same))) refl
          | inr other ↦ let seen = l.sorted.complete x (rw other at b) in ground (arith, seen)
        ];
      };
      grays = λ x g. elim (Bool-cases (x == id)) [
        | inl same ↦ cc (rw same at g)
        | inr other ↦
            let before : set_color id Color.gray c x ≡ Color.gray = l.grays x (rw other at g) in
            rw other at before
      ];
      still_gray = λ x g. elim (Bool-cases (x == id)) [
        | inl same ↦ cc (ap c ((eq_iff x id).0 same), w, g)
        | inr other ↦ rw other (l.still_gray x (rw other g))
      ];
      still_black = λ x b. elim (Bool-cases (x == id)) [
        | inl same ↦ rw same refl
        | inr other ↦ rw other (l.still_black x (rw other b))
      ];
    }

    visit-step :
        (n : ℕ) (r : Visit)
        → is_in id nodes ≡ true
        → VisitedEach n (targets_of deps id) entered r
        → Visited (suc n) id c (and_go_on r λ left. finished (set_color id Color.black left))
    unfolding entered
    visit-step n out_of_fuel i h = omega (arith, h, whites-set_gray id c nodes i w)
    visit-step n cyclic i h = h
    visit-step n (finished d) i (l, h) = (left_black d l h, rw ((eq_iff id id).1 refl) refl)

  pub visit-Visits : (n : ℕ) → Visits n (visit n deps)
  unfolding visit entered
  visit-Visits zero id c w i reach s = omega (arith, whites-set_gray id c nodes i w)
  visit-Visits (suc n) id c w i reach s = visit-step id c w reach s n _ i (
      visit_each-VisitedEach n (visit n deps) (visit-Visits n) id (targets_of deps id)
        (set_color id Color.gray c) (λ y e. e) (entered-GraysReach id c w reach s)
        (entered-Sorted id c w reach s))
