-- ===== src/Machine/Feature.antt =====
-- packages/core/src/statemachine/machines/feature-execution.ts, in its sections.
use mini_coder.Common.{◌++◌, [], ◌∷◌}
use mini_coder.Domain.{UserRole, FeatureExecutionState}
use mini_coder.Machine.Endings.{merge_path, failure_escalation, human_dispositions}
use mini_coder.Machine.Defs.{StateMatrix, row, user, system}

abbrev main_flow : StateMatrix FeatureExecutionState
main_flow =
    (row FeatureExecutionState.approved_pending_execution FeatureExecutionState.selected
      "SelectFeatureCommand" (user UserRole.operator)
      ("set_active_feature_run" ∷ "write_workflow_event" ∷ "write_outbox_event" ∷ [])
      ("feature.selected" ∷ []) "select-feature:{featureRunId}")
    ∷ (row FeatureExecutionState.selected FeatureExecutionState.coding "StartCodingCommand" system
        ("write_workflow_event" ∷ "write_outbox_event" ∷ []) ("feature.coding_started" ∷ [])
        "start-coding:{featureRunId}")
    ∷ (row FeatureExecutionState.coding FeatureExecutionState.code_pushed "RecordCodePushedCommand"
        system ("record_commit_sha" ∷ "write_workflow_event" ∷ "write_outbox_event" ∷ [])
        ("feature.code_pushed" ∷ []) "record-code-pushed:{featureRunId}:{commitSha}")
    ∷ (row FeatureExecutionState.code_pushed FeatureExecutionState.pr_opened "RecordPrOpenedCommand"
        system ("record_pr_number" ∷ "write_workflow_event" ∷ "write_outbox_event" ∷ [])
        ("feature.pr_opened" ∷ []) "record-pr-opened:{featureRunId}:{prNumber}")
    ∷ (row FeatureExecutionState.pr_opened FeatureExecutionState.ci_running "RecordCiRunningCommand"
        system ("record_ci_run_id" ∷ "write_workflow_event" ∷ "write_outbox_event" ∷ [])
        ("feature.ci_running" ∷ []) "record-ci-running:{featureRunId}:{checkRunId}")
    ∷ []

abbrev github_divergence : StateMatrix FeatureExecutionState
github_divergence =
    (row FeatureExecutionState.pr_opened FeatureExecutionState.human_required
      "EscalateToHumanCommand" system ("write_workflow_event" ∷ "write_outbox_event" ∷ [])
      ("feature.human_required" ∷ []) "escalate-human-github:{featureRunId}")
    ∷ (row FeatureExecutionState.ci_running FeatureExecutionState.human_required
        "EscalateToHumanCommand" system ("write_workflow_event" ∷ "write_outbox_event" ∷ [])
        ("feature.human_required" ∷ []) "escalate-human-github:{featureRunId}")
    ∷ (row FeatureExecutionState.approved_pending_execution FeatureExecutionState.human_required
        "EscalateToHumanCommand" system ("write_workflow_event" ∷ "write_outbox_event" ∷ [])
        ("feature.human_required" ∷ []) "escalate-human-github:{featureRunId}")
    ∷ (row FeatureExecutionState.selected FeatureExecutionState.human_required
        "EscalateToHumanCommand" system ("write_workflow_event" ∷ "write_outbox_event" ∷ [])
        ("feature.human_required" ∷ []) "escalate-human-github:{featureRunId}")
    ∷ (row FeatureExecutionState.coding FeatureExecutionState.human_required
        "EscalateToHumanCommand" system ("write_workflow_event" ∷ "write_outbox_event" ∷ [])
        ("feature.human_required" ∷ []) "escalate-human-github:{featureRunId}")
    ∷ (row FeatureExecutionState.code_pushed FeatureExecutionState.human_required
        "EscalateToHumanCommand" system ("write_workflow_event" ∷ "write_outbox_event" ∷ [])
        ("feature.human_required" ∷ []) "escalate-human-github:{featureRunId}")
    ∷ (row FeatureExecutionState.changes_requested FeatureExecutionState.human_required
        "EscalateToHumanCommand" system ("write_workflow_event" ∷ "write_outbox_event" ∷ [])
        ("feature.human_required" ∷ []) "escalate-human-github:{featureRunId}")
    ∷ (row FeatureExecutionState.fixing FeatureExecutionState.human_required
        "EscalateToHumanCommand" system ("write_workflow_event" ∷ "write_outbox_event" ∷ [])
        ("feature.human_required" ∷ []) "escalate-human-github:{featureRunId}")
    ∷ (row FeatureExecutionState.approved_by_policy FeatureExecutionState.human_required
        "EscalateToHumanCommand" system ("write_workflow_event" ∷ "write_outbox_event" ∷ [])
        ("feature.human_required" ∷ []) "escalate-human-github:{featureRunId}")
    ∷ (row FeatureExecutionState.merge_ready FeatureExecutionState.human_required
        "EscalateToHumanCommand" system ("write_workflow_event" ∷ "write_outbox_event" ∷ [])
        ("feature.human_required" ∷ []) "escalate-human-github:{featureRunId}")
    ∷ []

abbrev ci_outcomes : StateMatrix FeatureExecutionState
ci_outcomes =
    (row FeatureExecutionState.ci_running FeatureExecutionState.under_review "RecordCiPassedCommand"
      system ("write_workflow_event" ∷ "write_outbox_event" ∷ []) ("feature.ci_passed" ∷ [])
      "record-ci-passed:{featureRunId}:{checkRunId}")
    ∷ (row FeatureExecutionState.ci_running FeatureExecutionState.ci_failed "RecordCiFailedCommand"
        system ("record_blocking_finding" ∷ "write_workflow_event" ∷ "write_outbox_event" ∷ [])
        ("feature.ci_failed" ∷ []) "record-ci-failed:{featureRunId}:{checkRunId}")
    ∷ (row FeatureExecutionState.ci_failed FeatureExecutionState.changes_requested
        "RequestChangesAfterCiFailCommand" system
        ("increment_fix_attempt_count" ∷ "write_workflow_event" ∷ "write_outbox_event" ∷ [])
        ("feature.changes_requested" ∷ [])
        "changes-requested-after-ci:{featureRunId}:{expectedVersion}")
    ∷ (row FeatureExecutionState.ci_failed FeatureExecutionState.human_required
        "EscalateToHumanCommand" system ("write_workflow_event" ∷ "write_outbox_event" ∷ [])
        ("feature.human_required" ∷ []) "escalate-human-ci-limit:{featureRunId}")
    ∷ []

abbrev review_loop : StateMatrix FeatureExecutionState
review_loop =
    (row FeatureExecutionState.under_review FeatureExecutionState.changes_requested
      "RecordChangesRequestedCommand" system
      ("increment_fix_attempt_count" ∷ "write_workflow_event" ∷ "write_outbox_event" ∷ [])
      ("feature.changes_requested" ∷ []) "changes-requested:{featureRunId}:{reviewId}")
    ∷ (row FeatureExecutionState.under_review FeatureExecutionState.human_required
        "EscalateToHumanCommand" system ("write_workflow_event" ∷ "write_outbox_event" ∷ [])
        ("feature.human_required" ∷ []) "escalate-human-review:{featureRunId}")
    ∷ (row FeatureExecutionState.under_review FeatureExecutionState.approved_by_policy
        "RecordApprovedByPolicyCommand" system
        ("write_merge_gate_evaluation" ∷ "write_workflow_event" ∷ "write_outbox_event" ∷ [])
        ("feature.approved_by_policy" ∷ []) "approved-by-policy:{featureRunId}:{expectedVersion}")
    ∷ (row FeatureExecutionState.changes_requested FeatureExecutionState.fixing "StartFixingCommand"
        system ("write_workflow_event" ∷ "write_outbox_event" ∷ []) ("feature.fixing_started" ∷ [])
        "start-fixing:{featureRunId}:{expectedVersion}")
    ∷ (row FeatureExecutionState.fixing FeatureExecutionState.code_pushed "RecordCodePushedCommand"
        system ("record_commit_sha" ∷ "write_workflow_event" ∷ "write_outbox_event" ∷ [])
        ("feature.code_pushed" ∷ []) "record-code-pushed:{featureRunId}:{commitSha}")
    ∷ []

-- `FEATURE_EXECUTION_MATRIX`.
abbrev pub feature_execution_matrix : StateMatrix FeatureExecutionState
feature_execution_matrix =
    main_flow
    ++ (github_divergence
        ++ (ci_outcomes
            ++ (review_loop ++ (merge_path ++ (failure_escalation ++ human_dispositions)))))
