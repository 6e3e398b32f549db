-- ===== src/Machine/Endings.antt =====
-- packages/core/src/statemachine/machines/feature-execution.ts: merging, failures and human dispositions.
use mini_coder.Common.{[], ◌∷◌}
use mini_coder.Domain.{UserRole, FeatureExecutionState}
use mini_coder.Machine.Defs.{StateMatrix, row, user, system}

abbrev pub merge_path : StateMatrix FeatureExecutionState
merge_path =
    (row FeatureExecutionState.approved_by_policy FeatureExecutionState.merge_ready
      "MergeIfReadyCommand" (user UserRole.approver)
      ("write_merge_gate_evaluation" ∷ "write_workflow_event" ∷ "write_outbox_event" ∷ [])
      ("feature.merge_ready" ∷ []) "merge-ready:{featureRunId}:{expectedVersion}")
    ∷ (row FeatureExecutionState.merge_ready FeatureExecutionState.merged "RecordMergedCommand"
        system
        ("clear_active_feature_run" ∷ "record_merge_sha" ∷ "write_workflow_event"
          ∷ "write_outbox_event" ∷ [])
        ("feature.merged" ∷ []) "record-merged:{featureRunId}:{mergeSha}")
    ∷ (row FeatureExecutionState.merge_ready FeatureExecutionState.merge_failed
        "RecordMergeFailedCommand" system ("write_workflow_event" ∷ "write_outbox_event" ∷ [])
        ("feature.merge_failed" ∷ []) "record-merge-failed:{featureRunId}:{expectedVersion}")
    ∷ (row FeatureExecutionState.merge_failed FeatureExecutionState.under_review
        "ReconcileMergeFailedCommand" system ("write_workflow_event" ∷ "write_outbox_event" ∷ [])
        ("feature.returned_to_review" ∷ [])
        "reconcile-merge-failed:{featureRunId}:{expectedVersion}")
    ∷ (row FeatureExecutionState.merge_failed FeatureExecutionState.human_required
        "EscalateToHumanCommand" system ("write_workflow_event" ∷ "write_outbox_event" ∷ [])
        ("feature.human_required" ∷ [])
        "escalate-human-merge-failed:{featureRunId}:{expectedVersion}")
    ∷ []

abbrev pub failure_escalation : StateMatrix FeatureExecutionState
failure_escalation =
    (row FeatureExecutionState.failed FeatureExecutionState.human_required "EscalateToHumanCommand"
      system ("write_workflow_event" ∷ "write_outbox_event" ∷ []) ("feature.human_required" ∷ [])
      "escalate-human-failed:{featureRunId}")
    ∷ (row FeatureExecutionState.system_failed FeatureExecutionState.human_required
        "EscalateToHumanCommand" system ("write_workflow_event" ∷ "write_outbox_event" ∷ [])
        ("feature.human_required" ∷ []) "escalate-human-system-failed:{featureRunId}")
    ∷ (row FeatureExecutionState.blocked FeatureExecutionState.approved_pending_execution
        "UnblockFeatureCommand | HumanUnblockFeatureCommand" (user UserRole.approver)
        ("write_workflow_event" ∷ "write_outbox_event" ∷ []) ("feature.unblocked" ∷ [])
        "unblock-feature:{featureRunId} | human-unblock-feature:{featureRunId}:{expectedVersion}")
    ∷ []

abbrev pub human_dispositions : StateMatrix FeatureExecutionState
human_dispositions =
    (row FeatureExecutionState.human_required FeatureExecutionState.changes_requested
      "ResolveDisagreementCommand" (user UserRole.approver)
      ("resolve_disagreement_record" ∷ "write_human_approval" ∷ "write_workflow_event"
        ∷ "write_outbox_event" ∷ [])
      ("feature.disagreement_resolved" ∷ [])
      "resolve-disagreement:{featureRunId}:{expectedVersion}")
    ∷ (row FeatureExecutionState.human_required FeatureExecutionState.under_review
        "ResumeFeatureExecutionCommand" (user UserRole.approver)
        ("write_human_approval" ∷ "write_workflow_event" ∷ "write_outbox_event" ∷ [])
        ("feature.resumed_from_human_required" ∷ [])
        "resume-feature-execution:{featureRunId}:{expectedVersion}")
    ∷ (row FeatureExecutionState.human_required FeatureExecutionState.selected "RetryFeatureCommand"
        (user UserRole.approver)
        ("write_human_approval" ∷ "write_workflow_event" ∷ "write_outbox_event" ∷ [])
        ("feature.retried" ∷ []) "retry-feature:{featureRunId}:{expectedVersion}")
    ∷ (row FeatureExecutionState.human_required FeatureExecutionState.skipped "SkipFeatureCommand"
        (user UserRole.approver)
        ("write_human_approval" ∷ "write_workflow_event" ∷ "write_outbox_event" ∷ [])
        ("feature.skipped" ∷ []) "skip-feature:{featureRunId}:{expectedVersion}")
    ∷ (row FeatureExecutionState.human_required FeatureExecutionState.blocked "BlockFeatureCommand"
        (user UserRole.approver)
        ("write_human_approval" ∷ "write_workflow_event" ∷ "write_outbox_event" ∷ [])
        ("feature.blocked_by_human" ∷ []) "block-feature:{featureRunId}:{expectedVersion}")
    ∷ (row FeatureExecutionState.approved_pending_execution FeatureExecutionState.blocked
        "SkipFeatureCommand" system ("write_workflow_event" ∷ "write_outbox_event" ∷ [])
        ("feature.blocked_by_skipped_dependency" ∷ [])
        "skip-feature-cascade-block:{featureRunId}:{expectedVersion}")
    ∷ []
