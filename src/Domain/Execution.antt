-- ===== src/Domain/Execution.antt =====
-- packages/core/src/domain/states.ts: the states of a feature run and of the automation.
-- A constructor is the source's key in lower case.
use mini_coder.Common.{ℕ, String, ◌≡◌, refl, if◌then◌else◌, nat_eq, Eq, tag_eq}

pub data FeatureExecutionState : Type 0 where
  approved_pending_execution selected coding code_pushed pr_opened ci_running under_review
        changes_requested fixing approved_by_policy merge_ready merged ci_failed merge_failed
        human_required blocked failed system_failed skipped :
      FeatureExecutionState

-- The literal that the database holds.
unfoldable pub feature_execution_state_value : FeatureExecutionState → String
feature_execution_state_value FeatureExecutionState.approved_pending_execution =
    "approved_pending_execution"
feature_execution_state_value FeatureExecutionState.selected = "selected"
feature_execution_state_value FeatureExecutionState.coding = "coding"
feature_execution_state_value FeatureExecutionState.code_pushed = "code_pushed"
feature_execution_state_value FeatureExecutionState.pr_opened = "pr_opened"
feature_execution_state_value FeatureExecutionState.ci_running = "ci_running"
feature_execution_state_value FeatureExecutionState.under_review = "under_review"
feature_execution_state_value FeatureExecutionState.changes_requested = "changes_requested"
feature_execution_state_value FeatureExecutionState.fixing = "fixing"
feature_execution_state_value FeatureExecutionState.approved_by_policy = "approved_by_policy"
feature_execution_state_value FeatureExecutionState.merge_ready = "merge_ready"
feature_execution_state_value FeatureExecutionState.merged = "merged"
feature_execution_state_value FeatureExecutionState.ci_failed = "ci_failed"
feature_execution_state_value FeatureExecutionState.merge_failed = "merge_failed"
feature_execution_state_value FeatureExecutionState.human_required = "human_required"
feature_execution_state_value FeatureExecutionState.blocked = "blocked"
feature_execution_state_value FeatureExecutionState.failed = "failed"
feature_execution_state_value FeatureExecutionState.system_failed = "system_failed"
feature_execution_state_value FeatureExecutionState.skipped = "skipped"

abbrev pub feature_execution_state_tag : FeatureExecutionState → ℕ
feature_execution_state_tag FeatureExecutionState.approved_pending_execution = 0
feature_execution_state_tag FeatureExecutionState.selected = 1
feature_execution_state_tag FeatureExecutionState.coding = 2
feature_execution_state_tag FeatureExecutionState.code_pushed = 3
feature_execution_state_tag FeatureExecutionState.pr_opened = 4
feature_execution_state_tag FeatureExecutionState.ci_running = 5
feature_execution_state_tag FeatureExecutionState.under_review = 6
feature_execution_state_tag FeatureExecutionState.changes_requested = 7
feature_execution_state_tag FeatureExecutionState.fixing = 8
feature_execution_state_tag FeatureExecutionState.approved_by_policy = 9
feature_execution_state_tag FeatureExecutionState.merge_ready = 10
feature_execution_state_tag FeatureExecutionState.merged = 11
feature_execution_state_tag FeatureExecutionState.ci_failed = 12
feature_execution_state_tag FeatureExecutionState.merge_failed = 13
feature_execution_state_tag FeatureExecutionState.human_required = 14
feature_execution_state_tag FeatureExecutionState.blocked = 15
feature_execution_state_tag FeatureExecutionState.failed = 16
feature_execution_state_tag FeatureExecutionState.system_failed = 17
feature_execution_state_tag FeatureExecutionState.skipped = 18

abbrev pub feature_execution_state_of_tag : ℕ → FeatureExecutionState
feature_execution_state_of_tag n =
    if nat_eq n 0
    then FeatureExecutionState.approved_pending_execution
    else if nat_eq n 1
    then FeatureExecutionState.selected
    else if nat_eq n 2
    then FeatureExecutionState.coding
    else if nat_eq n 3
    then FeatureExecutionState.code_pushed
    else if nat_eq n 4
    then FeatureExecutionState.pr_opened
    else if nat_eq n 5
    then FeatureExecutionState.ci_running
    else if nat_eq n 6
    then FeatureExecutionState.under_review
    else if nat_eq n 7
    then FeatureExecutionState.changes_requested
    else if nat_eq n 8
    then FeatureExecutionState.fixing
    else if nat_eq n 9
    then FeatureExecutionState.approved_by_policy
    else if nat_eq n 10
    then FeatureExecutionState.merge_ready
    else if nat_eq n 11
    then FeatureExecutionState.merged
    else if nat_eq n 12
    then FeatureExecutionState.ci_failed
    else if nat_eq n 13
    then FeatureExecutionState.merge_failed
    else if nat_eq n 14
    then FeatureExecutionState.human_required
    else if nat_eq n 15
    then FeatureExecutionState.blocked
    else if nat_eq n 16
    then FeatureExecutionState.failed
    else if nat_eq n 17
    then FeatureExecutionState.system_failed
    else FeatureExecutionState.skipped

pub feature_execution_state_of_tag-feature_execution_state_tag :
    (s : FeatureExecutionState) → feature_execution_state_of_tag (feature_execution_state_tag s) ≡ s
feature_execution_state_of_tag-feature_execution_state_tag
      FeatureExecutionState.approved_pending_execution =
    refl
feature_execution_state_of_tag-feature_execution_state_tag _ = refl

instance abbrev pub feature_execution_state_eq : Eq FeatureExecutionState
feature_execution_state_eq =
    tag_eq feature_execution_state_tag feature_execution_state_of_tag
      feature_execution_state_of_tag-feature_execution_state_tag

pub data AutomationState : Type 0 where
  running paused_by_operator paused_budget_exceeded waiting_for_budget_approval : AutomationState

-- The literal that the database holds.
unfoldable pub automation_state_value : AutomationState → String
automation_state_value AutomationState.running = "running"
automation_state_value AutomationState.paused_by_operator = "paused_by_operator"
automation_state_value AutomationState.paused_budget_exceeded = "paused_budget_exceeded"
automation_state_value AutomationState.waiting_for_budget_approval = "waiting_for_budget_approval"

abbrev pub automation_state_tag : AutomationState → ℕ
automation_state_tag AutomationState.running = 0
automation_state_tag AutomationState.paused_by_operator = 1
automation_state_tag AutomationState.paused_budget_exceeded = 2
automation_state_tag AutomationState.waiting_for_budget_approval = 3

abbrev pub automation_state_of_tag : ℕ → AutomationState
automation_state_of_tag n =
    if nat_eq n 0
    then AutomationState.running
    else if nat_eq n 1
    then AutomationState.paused_by_operator
    else if nat_eq n 2
    then AutomationState.paused_budget_exceeded
    else AutomationState.waiting_for_budget_approval

pub automation_state_of_tag-automation_state_tag :
    (s : AutomationState) → automation_state_of_tag (automation_state_tag s) ≡ s
automation_state_of_tag-automation_state_tag AutomationState.running = refl
automation_state_of_tag-automation_state_tag _ = refl

instance abbrev pub automation_state_eq : Eq AutomationState
automation_state_eq =
    tag_eq automation_state_tag automation_state_of_tag automation_state_of_tag-automation_state_tag
