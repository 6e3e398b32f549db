-- ===== src/Machine/Graph.antt =====
-- The feature-execution matrix read as a graph.
use mini_coder.Common.{
  ◌≡◌, ◌≢◌, ◌⊎◌, refl, ap, subst, ◌↔◌, inl, inr, Bool, true, false, [], Bool-cases,
}
use mini_coder.Domain.{FeatureExecutionState as State, feature_execution_state_eq}
use mini_coder.Machine.Defs.{lookup, is_valid, valid_next_states}
use mini_coder.Machine.Feature.{feature_execution_matrix}

-- An edge of the matrix, as `StateTransitionValidator.isValid` sees it.
abbrev pub CanMove : State → State → Type 0
CanMove s t = is_valid feature_execution_matrix s t ≡ true

-- A run of the machine.
pub data Reach (s : State) : State → Type 0 where
  here : Reach s s
  next : {t u : State} → Reach s t → CanMove t u → Reach s u

pub Reach-trans : {s t u : State} → Reach s t → Reach t u → Reach s u
Reach-trans p here = p
Reach-trans p (next q e) = next (Reach-trans p q) e

abbrev pub is_terminal : State → Bool
is_terminal State.merged = true
is_terminal State.skipped = true
is_terminal _ = false

-- A run ends only in `merged` or `skipped`: these two, and no other state, have no successor.
pub valid_next_states-terminal :
    (s : State) → (valid_next_states feature_execution_matrix s ≡ []) ↔ (is_terminal s ≡ true)
unfolding valid_next_states
valid_next_states-terminal State.merged = (λ h. refl, λ h. refl)
valid_next_states-terminal State.skipped = (λ h. refl, λ h. refl)
valid_next_states-terminal _ = (λ h. cc, λ h. cc)

no_exit : (s t : State) → is_terminal s ≡ true → is_valid feature_execution_matrix s t ≡ false
unfolding is_valid lookup
no_exit State.merged State.merged h = refl
no_exit State.merged _ h = refl
no_exit State.skipped State.merged h = refl
no_exit State.skipped _ h = refl
no_exit _ t h = cc

-- Nothing leaves a terminal state.
pub Reach-terminal : {s t : State} → is_terminal s ≡ true → Reach s t → t ≡ s
Reach-terminal h here = refl
Reach-terminal {s} {t} h (next p e) =
    let stuck : CanMove s t = subst (λ x. CanMove x t) (Reach-terminal h p) e in cc (no_exit s t h)

abbrev pub start : State
start = State.approved_pending_execution

-- The states that no row leads to.
abbrev is_orphan : State → Bool
is_orphan State.failed = true
is_orphan State.system_failed = true
is_orphan _ = false

no_entry : (s t : State) → is_orphan t ≡ true → is_valid feature_execution_matrix s t ≡ false
unfolding is_valid lookup
no_entry State.merged State.failed h = refl
no_entry _ State.failed h = refl
no_entry State.merged State.system_failed h = refl
no_entry _ State.system_failed h = refl
no_entry s _ h = cc

orphan_unreached : {s t : State} → is_orphan s ≡ false → Reach s t → is_orphan t ≡ false
orphan_unreached h here = h
orphan_unreached h (next {t = m} {u = u} p e) = elim (Bool-cases (is_orphan u)) [
  | inl orphan ↦ cc (no_entry m u orphan)
  | inr fine ↦ fine
]

-- The main flow, one prefix for each state on it.
to_selected : Reach start State.selected
unfolding is_valid lookup
to_selected = next here refl

to_coding : Reach start State.coding
unfolding is_valid lookup
to_coding = next to_selected refl

to_code_pushed : Reach start State.code_pushed
unfolding is_valid lookup
to_code_pushed = next to_coding refl

to_pr_opened : Reach start State.pr_opened
unfolding is_valid lookup
to_pr_opened = next to_code_pushed refl

to_ci_running : Reach start State.ci_running
unfolding is_valid lookup
to_ci_running = next to_pr_opened refl

to_under_review : Reach start State.under_review
unfolding is_valid lookup
to_under_review = next to_ci_running refl

to_approved_by_policy : Reach start State.approved_by_policy
unfolding is_valid lookup
to_approved_by_policy = next to_under_review refl

to_merge_ready : Reach start State.merge_ready
unfolding is_valid lookup
to_merge_ready = next to_approved_by_policy refl

to_merged : Reach start State.merged
unfolding is_valid lookup
to_merged = next to_merge_ready refl

to_human_required : Reach start State.human_required
unfolding is_valid lookup
to_human_required = next here refl

main_path : (s : State) → is_orphan s ≡ false → Reach start s
unfolding is_valid lookup
main_path State.approved_pending_execution h = here
main_path State.selected h = to_selected
main_path State.coding h = to_coding
main_path State.code_pushed h = to_code_pushed
main_path State.pr_opened h = to_pr_opened
main_path State.ci_running h = to_ci_running
main_path State.under_review h = to_under_review
main_path State.approved_by_policy h = to_approved_by_policy
main_path State.merge_ready h = to_merge_ready
main_path State.merged h = to_merged
main_path State.human_required h = to_human_required
main_path State.changes_requested h = next to_human_required refl
main_path State.fixing h = next {t = State.changes_requested} (next to_human_required refl) refl
main_path State.ci_failed h = next to_ci_running refl
main_path State.merge_failed h = next to_merge_ready refl
main_path State.blocked h = next here refl
main_path State.skipped h = next to_human_required refl
main_path State.failed h = cc
main_path State.system_failed h = cc

-- From `approved_pending_execution` a run reaches every state but `failed` and `system_failed`,
-- and never those two.
pub Reach-start : (s : State) → Reach start s ↔ (is_orphan s ≡ false)
Reach-start s = (orphan_unreached refl, main_path s)

-- Every state that is not terminal can move to `human_required` or is `human_required`, except
-- `blocked`, which a human or its dependencies release first.
to_escalation :
    (s : State)
    → is_terminal s ≡ false
    → (s ≡ State.human_required) ⊎ (s ≡ State.blocked) ⊎ CanMove s State.human_required
unfolding is_valid lookup
to_escalation State.human_required h = inl refl
to_escalation State.blocked h = inr (inl refl)
to_escalation State.merged h = cc
to_escalation State.skipped h = cc
to_escalation _ h = inr (inr refl)

review_to_merged : Reach State.human_required State.merged
unfolding is_valid lookup
review_to_merged =
    next {t = State.merge_ready}
      (next {t = State.approved_by_policy} (next {t = State.under_review} (next here refl) refl)
        refl)
      refl

-- No state is a dead end but `skipped`: from every other state a run can still be merged.
pub Reach-merged : (s : State) → s ≢ State.skipped → Reach s State.merged
unfolding is_valid lookup
Reach-merged State.merged h = here
Reach-merged State.skipped h = absurd (h refl)
Reach-merged State.human_required h = review_to_merged
Reach-merged State.blocked h =
    Reach-trans (next here refl) (Reach-trans to_human_required review_to_merged)
Reach-merged _ h = Reach-trans (next here refl) review_to_merged

-- A run of the machine that never visits the state `x`, its first state aside.
pub data Avoid (x s : State) : State → Type 0 where
  stay : Avoid x s s
  step : {t u : State} → Avoid x s t → CanMove t u → u ≢ x → Avoid x s u

-- What lies behind the merge gate.
abbrev is_gated : State → Bool
is_gated State.approved_by_policy = true
is_gated State.merge_ready = true
is_gated State.merge_failed = true
is_gated State.merged = true
is_gated _ = false

gate :
    (t u : State)
    → is_gated t ≡ false
    → CanMove t u
    → (u ≡ State.approved_by_policy) ⊎ (is_gated u ≡ false)
unfolding is_valid lookup
gate t State.approved_by_policy h e = inl refl
gate State.approved_by_policy u h e = cc
gate _ State.merge_ready h e = cc
gate _ State.merge_failed h e = cc
gate _ State.merged h e = cc
gate _ _ h e = inr refl

Avoid-gated :
    {s t : State} → is_gated s ≡ false → Avoid State.approved_by_policy s t → is_gated t ≡ false
Avoid-gated h stay = h
Avoid-gated h (step {t = m} {u = u} p e away) = elim (gate m u (Avoid-gated h p) e) [
  | inl there ↦ absurd (away there)
  | inr outside ↦ outside
]

-- A run that has not passed the merge gate is not merged: from a state before the gate, no path
-- that avoids `approved_by_policy` leads to `merged` (nor to `merge_ready` or `merge_failed`).
pub Avoid-approved_by_policy :
    {s t : State}
    → is_gated s ≡ false
    → Avoid State.approved_by_policy s t
    → (t ≢ State.merged) × (t ≢ State.merge_ready) × (t ≢ State.merge_failed)
Avoid-approved_by_policy h p = (
  λ e. cc (Avoid-gated h p, ap is_gated e),
  λ e. cc (Avoid-gated h p, ap is_gated e),
  λ e. cc (Avoid-gated h p, ap is_gated e),
)
