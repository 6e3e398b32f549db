-- ===== src/Handlers/Commands.antt =====
-- Every command that moves a feature run, and a sequence of them: packages/core/src/commands and
-- its handlers. A handler's transaction is committed where it returns, and rolled back where it
-- throws.
use mini_coder.Common.{List, [], ◌∷◌, String, Option, some}
use mini_coder.Domain.{UserRole}
use mini_coder.Auth.Guards.{ActorKind}
use mini_coder.Store.{Db, Env}
use mini_coder.Command.Helpers.{Envelope}
use mini_coder.Handlers.Steps.{FeaturePayload}
use mini_coder.Handlers.Selection.{select_feature, start_coding}
use mini_coder.Handlers.Coding.{PushedPayload, record_code_pushed, start_fixing}
use mini_coder.Handlers.Github.{
  CheckPayload, OpenedPayload, record_ci_failed, record_ci_passed, record_ci_running,
  record_pr_opened,
}
use mini_coder.Handlers.Reviews.{
  ReviewPayload, record_changes_requested, request_changes_after_ci_fail,
}
use mini_coder.Handlers.Human.{
  EscalatePayload, NotedPayload, block_feature, escalate_to_human, human_unblock_feature,
  retry_feature, unblock_feature,
}
use mini_coder.Handlers.Disagreement.{
  DispositionPayload, resolve_disagreement, resume_feature_execution,
}
use mini_coder.Handlers.Merging.{
  Gated, result_of, MergeFailedPayload, MergedPayload, merge_if_ready, reconcile_merge_failed,
  record_approved_by_policy, record_merge_failed, record_merged,
}
use mini_coder.Handlers.Skipping.{skip_feature}

pub data FeatureCommand : Type 0 where
  do_select_feature : FeaturePayload → FeatureCommand
  do_start_coding : FeaturePayload → FeatureCommand
  do_record_code_pushed : PushedPayload → FeatureCommand
  do_start_fixing : FeaturePayload → FeatureCommand
  do_record_pr_opened : OpenedPayload → FeatureCommand
  do_record_ci_running : CheckPayload → FeatureCommand
  do_record_ci_passed : CheckPayload → FeatureCommand
  do_record_ci_failed : CheckPayload → FeatureCommand
  do_record_changes_requested : ReviewPayload → FeatureCommand
  do_request_changes_after_ci_fail : FeaturePayload → FeatureCommand
  do_escalate_to_human : EscalatePayload → FeatureCommand
  do_retry_feature : NotedPayload → FeatureCommand
  do_block_feature : NotedPayload → FeatureCommand
  do_unblock_feature : FeaturePayload → FeatureCommand
  do_human_unblock_feature : NotedPayload → FeatureCommand
  do_resolve_disagreement : DispositionPayload → FeatureCommand
  do_resume_feature_execution : DispositionPayload → FeatureCommand
  do_record_merged : MergedPayload → FeatureCommand
  do_record_merge_failed : MergeFailedPayload → FeatureCommand
  do_reconcile_merge_failed : FeaturePayload → FeatureCommand
  do_record_approved_by_policy : FeaturePayload → FeatureCommand
  do_merge_if_ready : FeaturePayload → FeatureCommand
  do_skip_feature : NotedPayload → FeatureCommand

-- `handler.execute`: what the command returns, and the database it leaves.
unfoldable pub handle : Env → Envelope → FeatureCommand → Db → Gated
handle env envelope (do_select_feature p) db = result_of db (select_feature env envelope p db)
handle env envelope (do_start_coding p) db = result_of db (start_coding env envelope p db)
handle env envelope (do_record_code_pushed p) db =
    result_of db (record_code_pushed env envelope p db)
handle env envelope (do_start_fixing p) db = result_of db (start_fixing env envelope p db)
handle env envelope (do_record_pr_opened p) db = result_of db (record_pr_opened env envelope p db)
handle env envelope (do_record_ci_running p) db = result_of db (record_ci_running env envelope p db)
handle env envelope (do_record_ci_passed p) db = result_of db (record_ci_passed env envelope p db)
handle env envelope (do_record_ci_failed p) db = result_of db (record_ci_failed env envelope p db)
handle env envelope (do_record_changes_requested p) db =
    result_of db (record_changes_requested env envelope p db)
handle env envelope (do_request_changes_after_ci_fail p) db =
    result_of db (request_changes_after_ci_fail env envelope p db)
handle env envelope (do_escalate_to_human p) db = result_of db (escalate_to_human env envelope p db)
handle env envelope (do_retry_feature p) db = result_of db (retry_feature env envelope p db)
handle env envelope (do_block_feature p) db = result_of db (block_feature env envelope p db)
handle env envelope (do_unblock_feature p) db = result_of db (unblock_feature env envelope p db)
handle env envelope (do_human_unblock_feature p) db =
    result_of db (human_unblock_feature env envelope p db)
handle env envelope (do_resolve_disagreement p) db =
    result_of db (resolve_disagreement env envelope p db)
handle env envelope (do_resume_feature_execution p) db =
    result_of db (resume_feature_execution env envelope p db)
handle env envelope (do_record_merged p) db = result_of db (record_merged env envelope p db)
handle env envelope (do_record_merge_failed p) db =
    result_of db (record_merge_failed env envelope p db)
handle env envelope (do_reconcile_merge_failed p) db =
    result_of db (reconcile_merge_failed env envelope p db)
handle env envelope (do_record_approved_by_policy p) db =
    record_approved_by_policy env envelope p db
handle env envelope (do_merge_if_ready p) db = merge_if_ready env envelope p db
handle env envelope (do_skip_feature p) db = result_of db (skip_feature env envelope p db)

-- `commandName`, `requiredRole`, `requiredActorKind` and `idempotencyScope` of the handler.
pub record HandlerMeta : Type 0 where
  pub command_name : String
  pub required_role : UserRole
  pub required_kind : Option ActorKind
  pub scope : String

abbrev meta : String → UserRole → ActorKind → String → HandlerMeta
meta name role kind scope = record {
  command_name = name;
  required_role = role;
  required_kind = some kind;
  scope = scope;
}

unfoldable pub handler_meta : FeatureCommand → HandlerMeta
handler_meta (do_select_feature p) =
    meta "SelectFeatureCommand" UserRole.operator ActorKind.human "select-feature"
handler_meta (do_start_coding p) =
    meta "StartCodingCommand" UserRole.admin ActorKind.system "start-coding"
handler_meta (do_record_code_pushed p) =
    meta "RecordCodePushedCommand" UserRole.admin ActorKind.system "record-code-pushed"
handler_meta (do_start_fixing p) =
    meta "StartFixingCommand" UserRole.admin ActorKind.system "start-fixing"
handler_meta (do_record_pr_opened p) =
    meta "RecordPrOpenedCommand" UserRole.admin ActorKind.system "record-pr-opened"
handler_meta (do_record_ci_running p) =
    meta "RecordCiRunningCommand" UserRole.admin ActorKind.system "record-ci-running"
handler_meta (do_record_ci_passed p) =
    meta "RecordCiPassedCommand" UserRole.admin ActorKind.system "record-ci-passed"
handler_meta (do_record_ci_failed p) =
    meta "RecordCiFailedCommand" UserRole.admin ActorKind.system "record-ci-failed"
handler_meta (do_record_changes_requested p) =
    meta "RecordChangesRequestedCommand" UserRole.admin ActorKind.system "record-changes-requested"
handler_meta (do_request_changes_after_ci_fail p) =
    meta "RequestChangesAfterCiFailCommand" UserRole.admin ActorKind.system
      "request-changes-after-ci-fail"
handler_meta (do_escalate_to_human p) =
    meta "EscalateToHumanCommand" UserRole.operator ActorKind.system "escalate-to-human"
handler_meta (do_retry_feature p) =
    meta "RetryFeatureCommand" UserRole.approver ActorKind.human "retry-feature"
handler_meta (do_block_feature p) =
    meta "BlockFeatureCommand" UserRole.approver ActorKind.human "block-feature"
handler_meta (do_unblock_feature p) =
    meta "UnblockFeatureCommand" UserRole.admin ActorKind.system "unblock-feature"
handler_meta (do_human_unblock_feature p) =
    meta "HumanUnblockFeatureCommand" UserRole.approver ActorKind.human "human-unblock-feature"
handler_meta (do_resolve_disagreement p) =
    meta "ResolveDisagreementCommand" UserRole.approver ActorKind.human "resolve-disagreement"
handler_meta (do_resume_feature_execution p) =
    meta "ResumeFeatureExecutionCommand" UserRole.approver ActorKind.human
      "resume-feature-execution"
handler_meta (do_record_merged p) =
    meta "RecordMergedCommand" UserRole.admin ActorKind.system "record-merged"
handler_meta (do_record_merge_failed p) =
    meta "RecordMergeFailedCommand" UserRole.admin ActorKind.system "record-merge-failed"
handler_meta (do_reconcile_merge_failed p) =
    meta "ReconcileMergeFailedCommand" UserRole.admin ActorKind.system "reconcile-merge-failed"
handler_meta (do_record_approved_by_policy p) =
    meta "RecordApprovedByPolicyCommand" UserRole.admin ActorKind.system "record-approved-by-policy"
handler_meta (do_merge_if_ready p) =
    meta "MergeIfReadyCommand" UserRole.approver ActorKind.human "merge-if-ready"
handler_meta (do_skip_feature p) =
    meta "SkipFeatureCommand" UserRole.approver ActorKind.human "skip-feature"

abbrev pub exec_command : Env → Envelope → FeatureCommand → Db → Db
exec_command env envelope command db = (handle env envelope command db).1

-- One command with its clock, its ids and its envelope.
pub record Issued : Type 0 where
  pub env : Env
  pub envelope : Envelope
  pub command : FeatureCommand

abbrev pub exec_all : List Issued → Db → Db
exec_all [] db = db
exec_all (i ∷ is') db = exec_all is' (exec_command i.env i.envelope i.command db)
