-- ===== src/Domain/Lifecycle.antt =====
-- packages/core/src/domain/states.ts: the states of a plan, a project and a clarification.
-- A constructor is the source's key in lower case.
use mini_coder.Common.{ℕ, String, ◌≡◌, refl, if◌then◌else◌, nat_eq, Eq, tag_eq}

pub data PlanState : Type 0 where
  draft pending_approval approved activated_for_execution : PlanState

-- The literal that the database holds.
unfoldable pub plan_state_value : PlanState → String
plan_state_value PlanState.draft = "draft"
plan_state_value PlanState.pending_approval = "pending_approval"
plan_state_value PlanState.approved = "approved"
plan_state_value PlanState.activated_for_execution = "activated_for_execution"

abbrev pub plan_state_tag : PlanState → ℕ
plan_state_tag PlanState.draft = 0
plan_state_tag PlanState.pending_approval = 1
plan_state_tag PlanState.approved = 2
plan_state_tag PlanState.activated_for_execution = 3

abbrev pub plan_state_of_tag : ℕ → PlanState
plan_state_of_tag n =
    if nat_eq n 0
    then PlanState.draft
    else if nat_eq n 1
    then PlanState.pending_approval
    else if nat_eq n 2
    then PlanState.approved
    else PlanState.activated_for_execution

pub plan_state_of_tag-plan_state_tag : (s : PlanState) → plan_state_of_tag (plan_state_tag s) ≡ s
plan_state_of_tag-plan_state_tag PlanState.draft = refl
plan_state_of_tag-plan_state_tag _ = refl

instance abbrev pub plan_state_eq : Eq PlanState
plan_state_eq = tag_eq plan_state_tag plan_state_of_tag plan_state_of_tag-plan_state_tag

pub data ProjectState : Type 0 where
  active implementation_complete design_document_generating design_document_ready_for_review
        design_document_revision_requested design_document_approved project_complete :
      ProjectState

-- The literal that the database holds.
unfoldable pub project_state_value : ProjectState → String
project_state_value ProjectState.active = "active"
project_state_value ProjectState.implementation_complete = "implementation_complete"
project_state_value ProjectState.design_document_generating = "design_document_generating"
project_state_value ProjectState.design_document_ready_for_review =
    "design_document_ready_for_review"
project_state_value ProjectState.design_document_revision_requested =
    "design_document_revision_requested"
project_state_value ProjectState.design_document_approved = "design_document_approved"
project_state_value ProjectState.project_complete = "project_complete"

abbrev pub project_state_tag : ProjectState → ℕ
project_state_tag ProjectState.active = 0
project_state_tag ProjectState.implementation_complete = 1
project_state_tag ProjectState.design_document_generating = 2
project_state_tag ProjectState.design_document_ready_for_review = 3
project_state_tag ProjectState.design_document_revision_requested = 4
project_state_tag ProjectState.design_document_approved = 5
project_state_tag ProjectState.project_complete = 6

abbrev pub project_state_of_tag : ℕ → ProjectState
project_state_of_tag n =
    if nat_eq n 0
    then ProjectState.active
    else if nat_eq n 1
    then ProjectState.implementation_complete
    else if nat_eq n 2
    then ProjectState.design_document_generating
    else if nat_eq n 3
    then ProjectState.design_document_ready_for_review
    else if nat_eq n 4
    then ProjectState.design_document_revision_requested
    else if nat_eq n 5
    then ProjectState.design_document_approved
    else ProjectState.project_complete

pub project_state_of_tag-project_state_tag :
    (s : ProjectState) → project_state_of_tag (project_state_tag s) ≡ s
project_state_of_tag-project_state_tag ProjectState.active = refl
project_state_of_tag-project_state_tag _ = refl

instance abbrev pub project_state_eq : Eq ProjectState
project_state_eq =
    tag_eq project_state_tag project_state_of_tag project_state_of_tag-project_state_tag

pub data ClarificationStatus : Type 0 where
  not_required required in_progress complete blocked : ClarificationStatus

-- The literal that the database holds.
unfoldable pub clarification_status_value : ClarificationStatus → String
clarification_status_value ClarificationStatus.not_required = "clarification_not_required"
clarification_status_value ClarificationStatus.required = "clarification_required"
clarification_status_value ClarificationStatus.in_progress = "clarification_in_progress"
clarification_status_value ClarificationStatus.complete = "clarification_complete"
clarification_status_value ClarificationStatus.blocked = "clarification_blocked"

abbrev pub clarification_status_tag : ClarificationStatus → ℕ
clarification_status_tag ClarificationStatus.not_required = 0
clarification_status_tag ClarificationStatus.required = 1
clarification_status_tag ClarificationStatus.in_progress = 2
clarification_status_tag ClarificationStatus.complete = 3
clarification_status_tag ClarificationStatus.blocked = 4

abbrev pub clarification_status_of_tag : ℕ → ClarificationStatus
clarification_status_of_tag n =
    if nat_eq n 0
    then ClarificationStatus.not_required
    else if nat_eq n 1
    then ClarificationStatus.required
    else if nat_eq n 2
    then ClarificationStatus.in_progress
    else if nat_eq n 3
    then ClarificationStatus.complete
    else ClarificationStatus.blocked

pub clarification_status_of_tag-clarification_status_tag :
    (s : ClarificationStatus) → clarification_status_of_tag (clarification_status_tag s) ≡ s
clarification_status_of_tag-clarification_status_tag ClarificationStatus.not_required = refl
clarification_status_of_tag-clarification_status_tag _ = refl

instance abbrev pub clarification_status_eq : Eq ClarificationStatus
clarification_status_eq =
    tag_eq clarification_status_tag clarification_status_of_tag
      clarification_status_of_tag-clarification_status_tag
