-- ===== src/MergeGate.antt =====
-- packages/core/src/merge-gate/evaluate-merge-gate.ts.
pub mod Open
pub mod Evidence
use mini_coder.Common.{
  ℕ, zero, suc, ◌+◌, ◌*◌, Bool, true, false, not, ◌&&◌, ◌||◌, Option, none, some, List, [], ◌∷◌,
  ◌++◌, String, ◌==◌, ℕ_eq, String_eq, any, leb, ltb, find, where_rows, update_rows, count_rows,
  option_beq, map, if◌then◌else◌,
}
use mini_coder.Domain.{
  FeatureExecutionState, feature_execution_state_value, FindingSeverity, finding_severity_eq,
  BudgetScope, budget_scope_eq, AutomationState, automation_state_value,
}
use mini_coder.Auth.Redaction.{Json, Fields, str, num, null, field, end, obj}
use mini_coder.Store.Rows.{FeatureRun, CommandResult}
use mini_coder.Store
use mini_coder.Store.{
  Db, Env, Error, command_error, optimistic_lock_error, transition_error as invalid_transition,
  merge_gate_blocked, Result, ok, err, M, pure, throw, ◌>>=◌, ◌>>◌, query, execute,
}
use mini_coder.Command.Helpers.{
  Envelope, next_version, reject_if, require_affected, with_claim, insert_human_approval,
  generate_id, accept, write_workflow_event, write_outbox_event, insert_policy_decision,
  assert_version,
}
use mini_coder.Command.Text.{to_text, ◌&◌}
use mini_coder.Auth.Redaction.{codes, same_text, lower_all}
use mini_coder.Store.Rows.{WorkflowState, Repository, PullRequest, ReviewFinding, HumanApproval}
use mini_coder.Handlers.Steps.{load_workflow_state}
use mini_coder.Handlers.Github.{get_pull_request}
use mini_coder.Budget.{
  BudgetStatus, is_ok, soft_breach, hard_breach, budget_status_value, evaluate_budget, newest,
}

-- `if (test) reasons.push(text)`.
abbrev pub push_if : Bool → String → List String
push_if true text = text ∷ []
push_if false text = []

abbrev pub text_or : Option String → String → String
text_or none default = default
text_or (some s) default = s

-- `workflowStateRows[0]?.active_feature_run_id ?? null`.
abbrev pub active_run_of : Option WorkflowState → Option String
active_run_of none = none
active_run_of (some ws) = ws.active_feature_run_id

abbrev pub default_branch_of : Option Repository → Option String
default_branch_of none = none
default_branch_of (some r) = some r.default_branch

abbrev pub other_branch : Option String → String → Bool
other_branch none base = false
other_branch (some default) base = not (base == default)

abbrev pub is_absent {ℓ} : {A : Type ℓ} → Option A → Bool
is_absent none = true
is_absent (some a) = false

-- Several pushes, one after the other.
abbrev pub flatten : List (List String) → List String
flatten [] = []
flatten (xs ∷ xss) = xs ++ flatten xss

abbrev pub pull_request_pushes : Option String → PullRequest → List (List String)
pull_request_pushes default pr =
    push_if (not (pr.state == "open")) ("pull request state is '" & (pr.state & "', not 'open'"))
    ∷ push_if (other_branch default pr.base_branch) (
        "pull request targets base branch '"
        & (pr.base_branch
            & ("', not the repository's default branch '" & (text_or default "" & "'"))))
    ∷ push_if (not (pr.ci_status == "passed"))
        ("CI status is '" & (pr.ci_status & "', not 'passed'"))
    ∷ push_if (pr.review_state == "changes_requested")
        "GitHub reports outstanding review changes-requested"
    ∷ []

abbrev pub pull_request_reasons : Option String → Option PullRequest → List String
pull_request_reasons default none = "no pull request is tracked for this feature run yet" ∷ []
pull_request_reasons default (some pr) = flatten (pull_request_pushes default pr)

-- The findings that the gate counts.
abbrev pub holds_back : String → ReviewFinding → Bool
holds_back run_id f =
    f.feature_run_id == run_id
    && (not f.resolved
        && (f.severity == FindingSeverity.blocking
            || f.severity == FindingSeverity.requires_human_decision))

-- `observedLower.has(label)`, for labels of the policy in ASCII.
abbrev pub carries : List String → String → Bool
carries observed label = any (λ l. same_text (codes label) (lower_all (codes l))) observed

abbrev pub matched_labels : List String → Option PullRequest → List String
matched_labels policy none = []
matched_labels policy (some pr) = where_rows (carries pr.blocking_labels) policy

abbrev pub join : List String → String
join [] = ""
join (s ∷ []) = s
join (s ∷ (t ∷ ts)) = s & (", " & join (t ∷ ts))

-- `pr ? Boolean(pr.mergeable) : false`.
abbrev pub is_mergeable : Option PullRequest → Bool
is_mergeable none = false
is_mergeable (some pr) = elim pr.mergeable [ none ↦ false | some b ↦ b ]

abbrev pub stands_against : String → HumanApproval → Bool
stands_against run_id a =
    option_beq a.feature_run_id (some run_id)
    && (a.decision == "rejected" || a.decision == "deferred")

abbrev pub outstanding_approval : String → Db → Option HumanApproval
outstanding_approval run_id db =
    newest (λ a. a.updated_at) (λ a. a.id) (where_rows (stands_against run_id) db.human_approvals)

abbrev pub approval_reasons : Option HumanApproval → List String
approval_reasons none = []
approval_reasons (some a) =
    ("a required human approval is '" & (a.decision & "', not 'approved'")) ∷ []

abbrev pub is_fine : BudgetStatus → Bool
is_fine is_ok = true
is_fine _ = false

-- `budgetEvaluation?.status ?? 'ok'`.
abbrev pub feature_budget : Env → String → String → Db → BudgetStatus
feature_budget env project_id request_id db =
    elim (evaluate_budget env project_id (some request_id) BudgetScope.feature db) [
      | none ↦ is_ok
      | some e ↦ e.status
    ]

-- Everything that is pushed to `reasons`, in order.
unfoldable pub gate_pushes : Env → String → String → String → Db → List (List String)
gate_pushes env run_id project_id request_id db =
    let active = active_run_of (load_workflow_state project_id db) in
    let default = default_branch_of (find (λ r. r.project_id == project_id) db.repositories) in
    let pr = get_pull_request run_id db in
    let open_findings = count_rows (holds_back run_id) db.review_findings in
    let labels = matched_labels env.blocking_labels pr in
    let budget = feature_budget env project_id request_id db in
    push_if (not (option_beq active (some run_id))) (
      "feature run is not the project's active feature run (active: "
      & (text_or active "none" & ")"))
    ∷ push_if (is_absent default)
        "no repository is linked for this project; cannot verify the target base branch"
    ∷ pull_request_reasons default pr
    ∷ push_if (ltb 0 open_findings)
        (to_text open_findings & " unresolved blocking/requires-human-decision finding(s)")
    ∷ push_if (ltb 0 (count_rows (λ l. true) labels)) ("blocking label(s) present: " & join labels)
    ∷ push_if (not (is_mergeable pr))
        "pull request is not currently mergeable (branch protection / mergeability check)"
    ∷ push_if (not (is_fine budget))
        ("feature budget status is '" & (budget_status_value budget & "'"))
    ∷ approval_reasons (outstanding_approval run_id db)
    ∷ []

unfoldable pub gate_reasons : Env → String → String → String → Db → List String
gate_reasons env run_id project_id request_id db =
    flatten (gate_pushes env run_id project_id request_id db)

-- The part of the result that the handlers use.
pub record GateEvaluation : Type 0 where
  pub evaluation_id : String
  pub reasons : List String

abbrev pub is_approved : List String → Bool
is_approved [] = true
is_approved (r ∷ rs) = false

abbrev pub column : {A B : Type 0} → (A → B) → Option A → Option B
column f none = none
column f (some a) = some (f a)

-- `evaluateMergeGate`: the evidence is written whatever the decision.
unfoldable pub evaluate_merge_gate : Env → String → String → String → M GateEvaluation
evaluate_merge_gate env run_id project_id request_id = do
  reasons ← query (gate_reasons env run_id project_id request_id)
  evaluation_id ← generate_id env
  execute λ db.
      let pr = get_pull_request run_id db in
      let outstanding = outstanding_approval run_id db in
      record db {
        merge_gate_evaluations =
            record {
              id = evaluation_id;
              feature_run_id = run_id;
              ci_status = column (λ r. r.ci_status) pr;
              review_status = column (λ r. r.review_state) pr;
              unresolved_blocking_findings = count_rows (holds_back run_id) db.review_findings;
              budget_status = budget_status_value (feature_budget env project_id request_id db);
              human_approval_required = not (is_absent outstanding);
              human_approval_id = column (λ a. a.id) outstanding;
              branch_protection_ok = is_mergeable pr;
              final_decision = if is_approved reasons then "approved" else "rejected";
              evaluated_at = env.now;
            }
            ∷ db.merge_gate_evaluations;
      }
  pure (evaluation evaluation_id reasons)
  where
    evaluation : String → List String → GateEvaluation
    evaluation id reasons = record { evaluation_id = id; reasons = reasons }
