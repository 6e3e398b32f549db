-- ===== src/Machine/Runs.antt =====
-- packages/core/src/statemachine/machines: agent-run.ts, workflow-run.ts, artifact-export.ts.
use mini_coder.Common.{[], ◌∷◌}
use mini_coder.Domain.{UserRole, AgentRunState, WorkflowRunState, ArtifactExportState}
use mini_coder.Machine.Defs.{StateMatrix, row, user, system}

abbrev pub agent_run_matrix : StateMatrix AgentRunState
agent_run_matrix =
    (row AgentRunState.queued AgentRunState.running "StartAgentRunCommand" system
      ("write_workflow_event" ∷ "write_outbox_event" ∷ []) ("agent_run.started" ∷ [])
      "start-agent-run:{agentRunId}")
    ∷ (row AgentRunState.running AgentRunState.succeeded "RecordAgentRunSucceededCommand" system
        ("store_adapter_output" ∷ "release_workflow_lock" ∷ "write_workflow_event"
          ∷ "write_outbox_event" ∷ [])
        ("agent_run.succeeded" ∷ []) "agent-run-succeeded:{agentRunId}")
    ∷ (row AgentRunState.running AgentRunState.failed "RecordAgentRunFailedCommand" system
        ("record_agent_error" ∷ "release_workflow_lock" ∷ "write_workflow_event"
          ∷ "write_outbox_event" ∷ [])
        ("agent_run.failed" ∷ []) "agent-run-failed:{agentRunId}")
    ∷ (row AgentRunState.running AgentRunState.cancelled "CancelAgentRunCommand"
        (user UserRole.operator)
        ("release_workflow_lock" ∷ "write_workflow_event" ∷ "write_outbox_event" ∷ [])
        ("agent_run.cancelled" ∷ []) "cancel-agent-run:{agentRunId}")
    ∷ (row AgentRunState.queued AgentRunState.cancelled "CancelAgentRunCommand"
        (user UserRole.operator) ("write_workflow_event" ∷ "write_outbox_event" ∷ [])
        ("agent_run.cancelled" ∷ []) "cancel-queued-agent-run:{agentRunId}")
    ∷ []

abbrev pub workflow_run_matrix : StateMatrix WorkflowRunState
workflow_run_matrix =
    (row WorkflowRunState.queued WorkflowRunState.running "StartWorkflowRunCommand" system
      ("write_workflow_event" ∷ "write_outbox_event" ∷ []) ("workflow_run.started" ∷ [])
      "start-workflow-run:{workflowRunId}")
    ∷ (row WorkflowRunState.running WorkflowRunState.waiting "RecordWorkflowWaitingCommand" system
        ("write_workflow_event" ∷ "write_outbox_event" ∷ []) ("workflow_run.waiting" ∷ [])
        "workflow-waiting:{workflowRunId}")
    ∷ (row WorkflowRunState.waiting WorkflowRunState.running "ResumeWorkflowRunCommand" system
        ("write_workflow_event" ∷ "write_outbox_event" ∷ []) ("workflow_run.resumed" ∷ [])
        "resume-workflow-run:{workflowRunId}")
    ∷ (row WorkflowRunState.running WorkflowRunState.succeeded "RecordWorkflowSucceededCommand"
        system ("write_workflow_event" ∷ "write_outbox_event" ∷ []) ("workflow_run.succeeded" ∷ [])
        "workflow-succeeded:{workflowRunId}")
    ∷ (row WorkflowRunState.running WorkflowRunState.failed "RecordWorkflowFailedCommand" system
        ("write_workflow_event" ∷ "write_outbox_event" ∷ []) ("workflow_run.failed" ∷ [])
        "workflow-failed:{workflowRunId}")
    ∷ (row WorkflowRunState.running WorkflowRunState.cancelled "CancelWorkflowRunCommand"
        (user UserRole.operator) ("write_workflow_event" ∷ "write_outbox_event" ∷ [])
        ("workflow_run.cancelled" ∷ []) "cancel-workflow-run:{workflowRunId}")
    ∷ (row WorkflowRunState.waiting WorkflowRunState.cancelled "CancelWorkflowRunCommand"
        (user UserRole.operator) ("write_workflow_event" ∷ "write_outbox_event" ∷ [])
        ("workflow_run.cancelled" ∷ []) "cancel-waiting-workflow-run:{workflowRunId}")
    ∷ (row WorkflowRunState.queued WorkflowRunState.cancelled "CancelWorkflowRunCommand"
        (user UserRole.operator) ("write_workflow_event" ∷ "write_outbox_event" ∷ [])
        ("workflow_run.cancelled" ∷ []) "cancel-queued-workflow-run:{workflowRunId}")
    ∷ []

abbrev pub artifact_export_matrix : StateMatrix ArtifactExportState
artifact_export_matrix =
    (row ArtifactExportState.pending ArtifactExportState.generating "StartArtifactGenerationCommand"
      system ("write_workflow_event" ∷ "write_outbox_event" ∷ [])
      ("artifact_export.generating" ∷ []) "start-artifact-generation:{artifactExportId}")
    ∷ (row ArtifactExportState.generating ArtifactExportState.exported
        "RecordArtifactExportedCommand" system
        ("store_artifact_content" ∷ "write_workflow_event" ∷ "write_outbox_event" ∷ [])
        ("artifact_export.exported" ∷ []) "artifact-exported:{artifactExportId}")
    ∷ (row ArtifactExportState.generating ArtifactExportState.failed
        "RecordArtifactExportFailedCommand" system
        ("write_workflow_event" ∷ "write_outbox_event" ∷ []) ("artifact_export.failed" ∷ [])
        "artifact-export-failed:{artifactExportId}")
    ∷ (row ArtifactExportState.exported ArtifactExportState.stale "MarkArtifactStaleCommand" system
        ("write_workflow_event" ∷ "write_outbox_event" ∷ []) ("artifact_export.stale" ∷ [])
        "artifact-stale:{artifactExportId}")
    ∷ (row ArtifactExportState.stale ArtifactExportState.generating "StartArtifactGenerationCommand"
        (user UserRole.operator) ("write_workflow_event" ∷ "write_outbox_event" ∷ [])
        ("artifact_export.generating" ∷ []) "restart-artifact-generation:{artifactExportId}")
    ∷ (row ArtifactExportState.failed ArtifactExportState.generating
        "StartArtifactGenerationCommand" (user UserRole.operator)
        ("write_workflow_event" ∷ "write_outbox_event" ∷ []) ("artifact_export.generating" ∷ [])
        "retry-artifact-generation:{artifactExportId}")
    ∷ []
