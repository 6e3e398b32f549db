-- ===== src/Machine/Lifecycle.antt =====
-- packages/core/src/statemachine/machines: plan-lifecycle.ts, project-lifecycle.ts, clarification.ts, automation-control.ts.
use mini_coder.Common.{[], ◌∷◌}
use mini_coder.Domain.{UserRole, PlanState, ProjectState, ClarificationStatus, AutomationState}
use mini_coder.Machine.Defs.{StateMatrix, row, user, system}

abbrev pub plan_lifecycle_matrix : StateMatrix PlanState
plan_lifecycle_matrix =
    (row PlanState.draft PlanState.pending_approval "SubmitPlanForApprovalCommand"
      (user UserRole.operator) ("write_workflow_event" ∷ "write_outbox_event" ∷ [])
      ("plan.submitted_for_approval" ∷ []) "submit-plan:{planId}")
    ∷ (row PlanState.pending_approval PlanState.approved "ApprovePlanCommand"
        (user UserRole.approver)
        ("record_human_approval" ∷ "write_workflow_event" ∷ "write_outbox_event" ∷ [])
        ("plan.approved" ∷ []) "approve-plan:{planId}")
    ∷ (row PlanState.approved PlanState.activated_for_execution "ActivatePlanCommand"
        (user UserRole.approver)
        ("set_feature_requests_to_approved_pending_execution" ∷ "write_workflow_event"
          ∷ "write_outbox_event" ∷ [])
        ("plan.activated" ∷ []) "activate-plan:{planId}")
    ∷ []

abbrev pub project_lifecycle_matrix : StateMatrix ProjectState
project_lifecycle_matrix =
    (row ProjectState.active ProjectState.implementation_complete
      "MarkImplementationCompleteCommand" system
      ("write_workflow_event" ∷ "write_outbox_event" ∷ []) ("project.implementation_complete" ∷ [])
      "implementation-complete:{projectId}")
    ∷ (row ProjectState.implementation_complete ProjectState.design_document_generating
        "GenerateDesignDocumentCommand" (user UserRole.operator)
        ("create_artifact_export_record" ∷ "write_workflow_event" ∷ "write_outbox_event" ∷ [])
        ("project.design_document_generating" ∷ []) "generate-design-doc:{projectId}")
    ∷ (row ProjectState.design_document_generating ProjectState.design_document_ready_for_review
        "RecordDesignDocumentReadyCommand" system
        ("mark_artifact_exported" ∷ "write_workflow_event" ∷ "write_outbox_event" ∷ [])
        ("project.design_document_ready" ∷ []) "design-doc-ready:{projectId}:{artifactId}")
    ∷ (row ProjectState.design_document_ready_for_review
        ProjectState.design_document_revision_requested "RequestDesignDocumentRevisionCommand"
        (user UserRole.approver)
        ("record_human_approval" ∷ "write_workflow_event" ∷ "write_outbox_event" ∷ [])
        ("project.design_document_revision_requested" ∷ []) "request-design-revision:{projectId}")
    ∷ (row ProjectState.design_document_revision_requested ProjectState.design_document_generating
        "RegenerateDesignDocumentCommand" (user UserRole.operator)
        ("create_artifact_export_record" ∷ "write_workflow_event" ∷ "write_outbox_event" ∷ [])
        ("project.design_document_regenerating" ∷ []) "regenerate-design-doc:{projectId}")
    ∷ (row ProjectState.design_document_ready_for_review ProjectState.design_document_approved
        "ApproveDesignDocumentCommand" (user UserRole.approver)
        ("record_human_approval" ∷ "write_workflow_event" ∷ "write_outbox_event" ∷ [])
        ("project.design_document_approved" ∷ []) "approve-design-doc:{projectId}")
    ∷ (row ProjectState.design_document_approved ProjectState.project_complete
        "CompleteProjectCommand" system ("write_workflow_event" ∷ "write_outbox_event" ∷ [])
        ("project.complete" ∷ []) "complete-project:{projectId}")
    ∷ []

abbrev pub clarification_matrix : StateMatrix ClarificationStatus
clarification_matrix =
    (row ClarificationStatus.not_required ClarificationStatus.complete
      "MarkClarificationNotRequiredCommand" system
      ("write_workflow_event" ∷ "write_outbox_event" ∷ []) ("clarification.not_required" ∷ [])
      "clarification-not-required:{projectId}")
    ∷ (row ClarificationStatus.required ClarificationStatus.in_progress "StartClarificationCommand"
        (user UserRole.operator) ("write_workflow_event" ∷ "write_outbox_event" ∷ [])
        ("clarification.started" ∷ []) "start-clarification:{projectId}:{round}")
    ∷ (row ClarificationStatus.in_progress ClarificationStatus.complete
        "CompleteClarificationCommand" (user UserRole.operator)
        ("write_workflow_event" ∷ "write_outbox_event" ∷ []) ("clarification.complete" ∷ [])
        "complete-clarification:{projectId}")
    ∷ (row ClarificationStatus.in_progress ClarificationStatus.required
        "RequestAnotherClarificationRoundCommand" system
        ("increment_round_count" ∷ "write_workflow_event" ∷ "write_outbox_event" ∷ [])
        ("clarification.round_completed" ∷ []) "clarification-next-round:{projectId}:{round}")
    ∷ (row ClarificationStatus.in_progress ClarificationStatus.blocked "BlockClarificationCommand"
        system ("write_workflow_event" ∷ "write_outbox_event" ∷ []) ("clarification.blocked" ∷ [])
        "clarification-blocked:{projectId}")
    ∷ (row ClarificationStatus.required ClarificationStatus.blocked "BlockClarificationCommand"
        system ("write_workflow_event" ∷ "write_outbox_event" ∷ []) ("clarification.blocked" ∷ [])
        "clarification-blocked-from-required:{projectId}")
    ∷ []

abbrev pub automation_control_matrix : StateMatrix AutomationState
automation_control_matrix =
    (row AutomationState.running AutomationState.paused_by_operator "PauseAutomationCommand"
      (user UserRole.operator) ("write_workflow_event" ∷ "write_outbox_event" ∷ [])
      ("automation.paused_by_operator" ∷ []) "pause-automation:{projectId}:{expectedVersion}")
    ∷ (row AutomationState.paused_by_operator AutomationState.running "ResumeAutomationCommand"
        (user UserRole.operator)
        ("record_policy_decision" ∷ "write_workflow_event" ∷ "write_outbox_event" ∷ [])
        ("automation.resumed" ∷ []) "resume-automation:{projectId}:{expectedVersion}")
    ∷ (row AutomationState.running AutomationState.paused_budget_exceeded
        "RecordBudgetExceededCommand" system ("write_workflow_event" ∷ "write_outbox_event" ∷ [])
        ("automation.budget_exceeded" ∷ [])
        "budget-exceeded:{projectId}:{policyId}:{expectedVersion}")
    ∷ (row AutomationState.paused_budget_exceeded AutomationState.running
        "ApproveBudgetOverrideCommand" (user UserRole.approver)
        ("record_policy_decision" ∷ "write_workflow_event" ∷ "write_outbox_event" ∷ [])
        ("automation.budget_override_approved" ∷ "automation.resumed" ∷ [])
        "budget-override:{projectId}:{expectedVersion}")
    ∷ (row AutomationState.running AutomationState.waiting_for_budget_approval
        "RecordBudgetApprovalWaitingCommand" system
        ("write_workflow_event" ∷ "write_outbox_event" ∷ [])
        ("automation.budget_approval_waiting" ∷ [])
        "budget-approval-waiting:{projectId}:{policyId}:{expectedVersion}")
    ∷ (row AutomationState.waiting_for_budget_approval AutomationState.running
        "ApproveBudgetOverrideCommand" (user UserRole.approver)
        ("record_policy_decision" ∷ "write_workflow_event" ∷ "write_outbox_event" ∷ [])
        ("automation.budget_override_approved" ∷ "automation.resumed" ∷ [])
        "budget-override-waiting:{projectId}:{expectedVersion}")
    ∷ []
