-- ===== src/Machine/Validator.antt =====
-- What the validator of packages/core/src/statemachine/validator.ts promises of any matrix.
use mini_coder.Common.{
  ◌≡◌, refl, ap, subst, ◌⊎◌, inl, inr, true, false, some, [], ◌∷◌, ◌++◌, arith, any, Eq, ◌==◌,
  Option-cases,
}
use mini_coder.Machine.Defs.{
  TransitionRow, StateMatrix, valid, transition_error, matches, lookup, assert_valid, is_valid,
  valid_next_states,
}

module _ {S : Type 0} ⦃e : Eq S⦄ where
  -- Where a lookup finds its row: the last one of its key.
  pub record LastMatch (matrix : StateMatrix S) (from to : S) (r : TransitionRow S) : Type 0 where
    pub before : StateMatrix S
    pub after : StateMatrix S
    pub splits : matrix ≡ before ++ r ∷ after
    pub from_fits : r.from_state ≡ from
    pub to_fits : r.to_state ≡ to
    pub is_last : is_valid after from to ≡ false

  matches_fits :
      (from to : S) (r : TransitionRow S)
      → matches from to r ≡ true
      → (r.from_state ≡ from) × (r.to_state ≡ to)
  matches_fits from to r h =
      ((e.is_same_iff _ _).0 (ground arith), (e.is_same_iff _ _).0 (ground arith))

  lookup-LastMatch :
      (matrix : StateMatrix S) (from to : S) (r : TransitionRow S)
      → lookup matrix from to ≡ some r
      → LastMatch matrix from to r
  unfolding lookup is_valid
  lookup-LastMatch [] from to r h = cc
  lookup-LastMatch (x ∷ rows) from to r h = elim (Option-cases (lookup rows from to)) [
    | inl missing ↦
        let hit : matches from to x ≡ true = ground arith in
        let same : x ≡ r = ground arith in
        let (f, t) = matches_fits from to x hit in
        record {
          before = [];
          after = rows;
          splits = ap (λ y. y ∷ rows) same;
          from_fits = subst (λ y. y.from_state ≡ from) same f;
          to_fits = subst (λ y. y.to_state ≡ to) same t;
          is_last = rw (missing, is_valid);
        }
    | inr (later, found) ↦
        let m = lookup-LastMatch rows from to r (ground arith) in
        record {
          before = x ∷ m.before;
          after = m.after;
          splits = ap (◌∷◌ x) m.splits;
          from_fits = m.from_fits;
          to_fits = m.to_fits;
          is_last = m.is_last;
        }
  ]

  -- `assertValid` returns the last row of the key, and throws exactly where `isValid` is false.
  pub assert_valid_cases :
      (matrix : StateMatrix S) (from to : S)
      → ((r : TransitionRow S) × (assert_valid matrix from to ≡ valid r)
          × LastMatch matrix from to r
          × (is_valid matrix from to ≡ true))
        ⊎ ((assert_valid matrix from to ≡ transition_error from to)
            × (is_valid matrix from to ≡ false))
  unfolding assert_valid is_valid
  assert_valid_cases matrix from to = elim (Option-cases (lookup matrix from to)) [
    | inl missing ↦ inr (rw (missing, assert_valid), rw (missing, is_valid))
    | inr (r, found) ↦
        inl (
          r,
          rw (found, assert_valid),
          lookup-LastMatch matrix from to r found,
          rw (found, is_valid),
        )
  ]

  -- `isValid` agrees with `validNextStates`, though one reads the map and the other the matrix.
  pub is_valid-valid_next_states :
      (matrix : StateMatrix S) (from to : S)
      → is_valid matrix from to ≡ any (λ s. s == to) (valid_next_states matrix from)
  unfolding is_valid lookup valid_next_states
  is_valid-valid_next_states [] from to = refl
  is_valid-valid_next_states (r ∷ rows) from to =
      ground (arith, is_valid-valid_next_states rows from to)
