-- ===== src/Domain/Runs.antt =====
-- packages/core/src/domain/states.ts: the states of agent runs, workflow runs, artifact exports and queued events.
-- A constructor is the source's key in lower case.
use mini_coder.Common.{ℕ, String, ◌≡◌, refl, if◌then◌else◌, nat_eq, Eq, tag_eq}

pub data AgentRunState : Type 0 where
  queued running succeeded failed cancelled : AgentRunState

-- The literal that the database holds.
unfoldable pub agent_run_state_value : AgentRunState → String
agent_run_state_value AgentRunState.queued = "queued"
agent_run_state_value AgentRunState.running = "running"
agent_run_state_value AgentRunState.succeeded = "succeeded"
agent_run_state_value AgentRunState.failed = "failed"
agent_run_state_value AgentRunState.cancelled = "cancelled"

abbrev pub agent_run_state_tag : AgentRunState → ℕ
agent_run_state_tag AgentRunState.queued = 0
agent_run_state_tag AgentRunState.running = 1
agent_run_state_tag AgentRunState.succeeded = 2
agent_run_state_tag AgentRunState.failed = 3
agent_run_state_tag AgentRunState.cancelled = 4

abbrev pub agent_run_state_of_tag : ℕ → AgentRunState
agent_run_state_of_tag n =
    if nat_eq n 0
    then AgentRunState.queued
    else if nat_eq n 1
    then AgentRunState.running
    else if nat_eq n 2
    then AgentRunState.succeeded
    else if nat_eq n 3
    then AgentRunState.failed
    else AgentRunState.cancelled

pub agent_run_state_of_tag-agent_run_state_tag :
    (s : AgentRunState) → agent_run_state_of_tag (agent_run_state_tag s) ≡ s
agent_run_state_of_tag-agent_run_state_tag AgentRunState.queued = refl
agent_run_state_of_tag-agent_run_state_tag _ = refl

instance abbrev pub agent_run_state_eq : Eq AgentRunState
agent_run_state_eq =
    tag_eq agent_run_state_tag agent_run_state_of_tag agent_run_state_of_tag-agent_run_state_tag

pub data WorkflowRunState : Type 0 where
  queued running waiting succeeded failed cancelled : WorkflowRunState

-- The literal that the database holds.
unfoldable pub workflow_run_state_value : WorkflowRunState → String
workflow_run_state_value WorkflowRunState.queued = "queued"
workflow_run_state_value WorkflowRunState.running = "running"
workflow_run_state_value WorkflowRunState.waiting = "waiting"
workflow_run_state_value WorkflowRunState.succeeded = "succeeded"
workflow_run_state_value WorkflowRunState.failed = "failed"
workflow_run_state_value WorkflowRunState.cancelled = "cancelled"

abbrev pub workflow_run_state_tag : WorkflowRunState → ℕ
workflow_run_state_tag WorkflowRunState.queued = 0
workflow_run_state_tag WorkflowRunState.running = 1
workflow_run_state_tag WorkflowRunState.waiting = 2
workflow_run_state_tag WorkflowRunState.succeeded = 3
workflow_run_state_tag WorkflowRunState.failed = 4
workflow_run_state_tag WorkflowRunState.cancelled = 5

abbrev pub workflow_run_state_of_tag : ℕ → WorkflowRunState
workflow_run_state_of_tag n =
    if nat_eq n 0
    then WorkflowRunState.queued
    else if nat_eq n 1
    then WorkflowRunState.running
    else if nat_eq n 2
    then WorkflowRunState.waiting
    else if nat_eq n 3
    then WorkflowRunState.succeeded
    else if nat_eq n 4
    then WorkflowRunState.failed
    else WorkflowRunState.cancelled

pub workflow_run_state_of_tag-workflow_run_state_tag :
    (s : WorkflowRunState) → workflow_run_state_of_tag (workflow_run_state_tag s) ≡ s
workflow_run_state_of_tag-workflow_run_state_tag WorkflowRunState.queued = refl
workflow_run_state_of_tag-workflow_run_state_tag _ = refl

instance abbrev pub workflow_run_state_eq : Eq WorkflowRunState
workflow_run_state_eq =
    tag_eq workflow_run_state_tag workflow_run_state_of_tag
      workflow_run_state_of_tag-workflow_run_state_tag

pub data ArtifactExportState : Type 0 where
  pending generating exported stale failed : ArtifactExportState

-- The literal that the database holds.
unfoldable pub artifact_export_state_value : ArtifactExportState → String
artifact_export_state_value ArtifactExportState.pending = "pending"
artifact_export_state_value ArtifactExportState.generating = "generating"
artifact_export_state_value ArtifactExportState.exported = "exported"
artifact_export_state_value ArtifactExportState.stale = "stale"
artifact_export_state_value ArtifactExportState.failed = "failed"

abbrev pub artifact_export_state_tag : ArtifactExportState → ℕ
artifact_export_state_tag ArtifactExportState.pending = 0
artifact_export_state_tag ArtifactExportState.generating = 1
artifact_export_state_tag ArtifactExportState.exported = 2
artifact_export_state_tag ArtifactExportState.stale = 3
artifact_export_state_tag ArtifactExportState.failed = 4

abbrev pub artifact_export_state_of_tag : ℕ → ArtifactExportState
artifact_export_state_of_tag n =
    if nat_eq n 0
    then ArtifactExportState.pending
    else if nat_eq n 1
    then ArtifactExportState.generating
    else if nat_eq n 2
    then ArtifactExportState.exported
    else if nat_eq n 3
    then ArtifactExportState.stale
    else ArtifactExportState.failed

pub artifact_export_state_of_tag-artifact_export_state_tag :
    (s : ArtifactExportState) → artifact_export_state_of_tag (artifact_export_state_tag s) ≡ s
artifact_export_state_of_tag-artifact_export_state_tag ArtifactExportState.pending = refl
artifact_export_state_of_tag-artifact_export_state_tag _ = refl

instance abbrev pub artifact_export_state_eq : Eq ArtifactExportState
artifact_export_state_eq =
    tag_eq artifact_export_state_tag artifact_export_state_of_tag
      artifact_export_state_of_tag-artifact_export_state_tag

pub data EventStatus : Type 0 where
  pending delivered processed failed skipped : EventStatus

-- The literal that the database holds.
unfoldable pub event_status_value : EventStatus → String
event_status_value EventStatus.pending = "pending"
event_status_value EventStatus.delivered = "delivered"
event_status_value EventStatus.processed = "processed"
event_status_value EventStatus.failed = "failed"
event_status_value EventStatus.skipped = "skipped"

abbrev pub event_status_tag : EventStatus → ℕ
event_status_tag EventStatus.pending = 0
event_status_tag EventStatus.delivered = 1
event_status_tag EventStatus.processed = 2
event_status_tag EventStatus.failed = 3
event_status_tag EventStatus.skipped = 4

abbrev pub event_status_of_tag : ℕ → EventStatus
event_status_of_tag n =
    if nat_eq n 0
    then EventStatus.pending
    else if nat_eq n 1
    then EventStatus.delivered
    else if nat_eq n 2
    then EventStatus.processed
    else if nat_eq n 3
    then EventStatus.failed
    else EventStatus.skipped

pub event_status_of_tag-event_status_tag :
    (s : EventStatus) → event_status_of_tag (event_status_tag s) ≡ s
event_status_of_tag-event_status_tag EventStatus.pending = refl
event_status_of_tag-event_status_tag _ = refl

instance abbrev pub event_status_eq : Eq EventStatus
event_status_eq = tag_eq event_status_tag event_status_of_tag event_status_of_tag-event_status_tag
