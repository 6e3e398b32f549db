-- ===== src/Domain/Policy.antt =====
-- packages/core/src/domain/states.ts: finding severities, user roles, budget scopes and disagreement states.
-- A constructor is the source's key in lower case.
use mini_coder.Common.{ℕ, String, ◌≡◌, refl, if◌then◌else◌, nat_eq, Eq, tag_eq}

pub data FindingSeverity : Type 0 where
  blocking non_blocking question nit out_of_scope requires_human_decision : FindingSeverity

-- The literal that the database holds.
unfoldable pub finding_severity_value : FindingSeverity → String
finding_severity_value FindingSeverity.blocking = "blocking"
finding_severity_value FindingSeverity.non_blocking = "non_blocking"
finding_severity_value FindingSeverity.question = "question"
finding_severity_value FindingSeverity.nit = "nit"
finding_severity_value FindingSeverity.out_of_scope = "out_of_scope"
finding_severity_value FindingSeverity.requires_human_decision = "requires_human_decision"

abbrev pub finding_severity_tag : FindingSeverity → ℕ
finding_severity_tag FindingSeverity.blocking = 0
finding_severity_tag FindingSeverity.non_blocking = 1
finding_severity_tag FindingSeverity.question = 2
finding_severity_tag FindingSeverity.nit = 3
finding_severity_tag FindingSeverity.out_of_scope = 4
finding_severity_tag FindingSeverity.requires_human_decision = 5

abbrev pub finding_severity_of_tag : ℕ → FindingSeverity
finding_severity_of_tag n =
    if nat_eq n 0
    then FindingSeverity.blocking
    else if nat_eq n 1
    then FindingSeverity.non_blocking
    else if nat_eq n 2
    then FindingSeverity.question
    else if nat_eq n 3
    then FindingSeverity.nit
    else if nat_eq n 4
    then FindingSeverity.out_of_scope
    else FindingSeverity.requires_human_decision

pub finding_severity_of_tag-finding_severity_tag :
    (s : FindingSeverity) → finding_severity_of_tag (finding_severity_tag s) ≡ s
finding_severity_of_tag-finding_severity_tag FindingSeverity.blocking = refl
finding_severity_of_tag-finding_severity_tag _ = refl

instance abbrev pub finding_severity_eq : Eq FindingSeverity
finding_severity_eq =
    tag_eq finding_severity_tag finding_severity_of_tag finding_severity_of_tag-finding_severity_tag

pub data UserRole : Type 0 where
  viewer operator approver admin : UserRole

-- The literal that the database holds.
unfoldable pub user_role_value : UserRole → String
user_role_value UserRole.viewer = "viewer"
user_role_value UserRole.operator = "operator"
user_role_value UserRole.approver = "approver"
user_role_value UserRole.admin = "admin"

abbrev pub user_role_tag : UserRole → ℕ
user_role_tag UserRole.viewer = 0
user_role_tag UserRole.operator = 1
user_role_tag UserRole.approver = 2
user_role_tag UserRole.admin = 3

abbrev pub user_role_of_tag : ℕ → UserRole
user_role_of_tag n =
    if nat_eq n 0
    then UserRole.viewer
    else if nat_eq n 1
    then UserRole.operator
    else if nat_eq n 2
    then UserRole.approver
    else UserRole.admin

pub user_role_of_tag-user_role_tag : (s : UserRole) → user_role_of_tag (user_role_tag s) ≡ s
user_role_of_tag-user_role_tag UserRole.viewer = refl
user_role_of_tag-user_role_tag _ = refl

instance abbrev pub user_role_eq : Eq UserRole
user_role_eq = tag_eq user_role_tag user_role_of_tag user_role_of_tag-user_role_tag

pub data BudgetScope : Type 0 where
  project feature review_cycle : BudgetScope

-- The literal that the database holds.
unfoldable pub budget_scope_value : BudgetScope → String
budget_scope_value BudgetScope.project = "project"
budget_scope_value BudgetScope.feature = "feature"
budget_scope_value BudgetScope.review_cycle = "review_cycle"

abbrev pub budget_scope_tag : BudgetScope → ℕ
budget_scope_tag BudgetScope.project = 0
budget_scope_tag BudgetScope.feature = 1
budget_scope_tag BudgetScope.review_cycle = 2

abbrev pub budget_scope_of_tag : ℕ → BudgetScope
budget_scope_of_tag n =
    if nat_eq n 0
    then BudgetScope.project
    else if nat_eq n 1
    then BudgetScope.feature
    else BudgetScope.review_cycle

pub budget_scope_of_tag-budget_scope_tag :
    (s : BudgetScope) → budget_scope_of_tag (budget_scope_tag s) ≡ s
budget_scope_of_tag-budget_scope_tag BudgetScope.project = refl
budget_scope_of_tag-budget_scope_tag _ = refl

instance abbrev pub budget_scope_eq : Eq BudgetScope
budget_scope_eq = tag_eq budget_scope_tag budget_scope_of_tag budget_scope_of_tag-budget_scope_tag

pub data DisagreementState : Type 0 where
  open_state resolved escalated : DisagreementState

-- The literal that the database holds.
unfoldable pub disagreement_state_value : DisagreementState → String
disagreement_state_value DisagreementState.open_state = "open"
disagreement_state_value DisagreementState.resolved = "resolved"
disagreement_state_value DisagreementState.escalated = "escalated"

abbrev pub disagreement_state_tag : DisagreementState → ℕ
disagreement_state_tag DisagreementState.open_state = 0
disagreement_state_tag DisagreementState.resolved = 1
disagreement_state_tag DisagreementState.escalated = 2

abbrev pub disagreement_state_of_tag : ℕ → DisagreementState
disagreement_state_of_tag n =
    if nat_eq n 0
    then DisagreementState.open_state
    else if nat_eq n 1
    then DisagreementState.resolved
    else DisagreementState.escalated

pub disagreement_state_of_tag-disagreement_state_tag :
    (s : DisagreementState) → disagreement_state_of_tag (disagreement_state_tag s) ≡ s
disagreement_state_of_tag-disagreement_state_tag DisagreementState.open_state = refl
disagreement_state_of_tag-disagreement_state_tag _ = refl

instance abbrev pub disagreement_state_eq : Eq DisagreementState
disagreement_state_eq =
    tag_eq disagreement_state_tag disagreement_state_of_tag
      disagreement_state_of_tag-disagreement_state_tag
