-- ===== src/Machine/Defs.antt =====
-- packages/core/src/statemachine/types.ts and validator.ts: transition rows and the validator.
-- The prose of a row (`guardDescription`, `recoveryPath`) and the optional `guard`, which no
-- matrix sets, are left out. `new Map` keeps the last row of a key, so a lookup takes the last
-- match; the key `from→to` is read as the pair, since no state literal holds an arrow.
use mini_coder.Common.{
  Bool, true, false, ◌&&◌, Option, none, some, List, [], ◌∷◌, String, Eq, ◌==◌, if◌then◌else◌,
}
use mini_coder.Domain.{UserRole}

pub data RowActor : Type 0 where
  user : UserRole → RowActor
  system : RowActor

pub record TransitionRow (S : Type 0) : Type 0 where
  pub from_state : S
  pub to_state : S
  pub triggering_command : String
  pub actor : RowActor
  pub side_effects : List String
  pub emitted_events : List String
  pub idempotency_key_template : String

abbrev pub StateMatrix : Type 0 → Type 0
StateMatrix S = List (TransitionRow S)

abbrev pub row :
    {S : Type 0} → S → S → String → RowActor → List String → List String → String → TransitionRow S
row from to command actor effects events key = record {
  from_state = from;
  to_state = to;
  triggering_command = command;
  actor = actor;
  side_effects = effects;
  emitted_events = events;
  idempotency_key_template = key;
}

-- `assertValid` throws a TransitionError, which names both states.
pub data Verdict (S : Type 0) : Type 0 where
  valid : TransitionRow S → Verdict S
  transition_error : S → S → Verdict S

module _ {S : Type 0} ⦃e : Eq S⦄ where
  abbrev pub matches : S → S → TransitionRow S → Bool
  matches from to r = r.from_state == from && r.to_state == to

  -- The entry of `new Map(matrix.map(…))` under the key of `from` and `to`.
  unfoldable pub lookup : StateMatrix S → S → S → Option (TransitionRow S)
  lookup [] from to = none
  lookup (r ∷ rows) from to = elim (lookup rows from to) [
    | some later ↦ some later
    | none ↦ if matches from to r then some r else none
  ]

  unfoldable pub assert_valid : StateMatrix S → S → S → Verdict S
  assert_valid matrix from to = elim (lookup matrix from to) [
    | some r ↦ valid r
    | none ↦ transition_error from to
  ]

  unfoldable pub is_valid : StateMatrix S → S → S → Bool
  is_valid matrix from to = elim (lookup matrix from to) [ some r ↦ true | none ↦ false ]

  unfoldable pub valid_next_states : StateMatrix S → S → List S
  valid_next_states [] from = []
  valid_next_states (r ∷ rows) from =
      if r.from_state == from
      then r.to_state ∷ valid_next_states rows from
      else valid_next_states rows from
