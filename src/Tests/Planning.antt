-- ===== src/Tests/Planning.antt =====
-- A backlog of three features, and the plan of the small project on its way.
use mini_coder.Common.{◌≡◌, refl, true, false, Option, none, some, List, [], ◌∷◌, String}
use mini_coder.Store.Rows.{FeatureDependency}
use mini_coder.Store.Plans.{ImplementationPlan}
use mini_coder.Store.{Db, committed}
use mini_coder.Domain.{GapSeverity, PlanState, plan_state_value}
use mini_coder.Machine.Defs.{assert_valid, lookup}
use mini_coder.Command.Helpers.{with_claim, claim_idempotency_key}
use mini_coder.Plans.{PlanPayload, activate_plan, submit_plan}
use mini_coder.Plans.Validation.{BacklogPayload, all_text_problems, validate_backlog}
use mini_coder.Plans.Gates.{Submitted, submit_plan-Submitted}
use mini_coder.Plans.Quality.{Validated, validate_backlog-Validated}
use mini_coder.Plans.Activation.{Activated, activate_plan-Activated}
use mini_coder.Tests.Data.{approver, escalated, sample_env, sent, worker}
use mini_coder.Backlog.{has_cycle, visit, visit_each, visit_features}
use mini_coder.Backlog.Cycles.{Found, has_cycle-Found}

abbrev depends : String → String → String → FeatureDependency
depends id source target = record { id = id; source_fr_id = source; target_fr_id = target }

abbrev features : List String
features = "a" ∷ ("b" ∷ ("c" ∷ []))

abbrev chain : List FeatureDependency
chain = depends "1" "a" "b" ∷ (depends "2" "b" "c" ∷ (depends "3" "a" "c" ∷ []))

chain_test : has_cycle features chain ≡ false
unfolding has_cycle visit_features visit visit_each
chain_test = refl

cycle_test : has_cycle features (depends "4" "c" "a" ∷ chain) ≡ true
unfolding has_cycle visit_features visit visit_each
cycle_test = refl

has_cycle-Found_example : Found features chain (has_cycle features chain)
has_cycle-Found_example = has_cycle-Found features chain

abbrev planned : PlanState → Db
planned state = record escalated {
  feature_runs = [];
  implementation_plans =
      (record {
        id = "plan";
        project_id = "project";
        assessment_id = some "assessment";
        state = state;
        version = 1;
        backlog_version = 2;
        backlog_validated_at = some 50;
        backlog_validated_state = some "valid";
        backlog_validated_version = some 2;
        updated_at = 50;
      })
      ∷ [];
  planning_gaps =
      (record {
        id = "gap";
        assessment_id = "assessment";
        severity = GapSeverity.blocking;
        resolution = some "accepted";
        resolved_at = some 60;
        version = 2;
        updated_at = 60;
      })
      ∷ [];
  acceptance_criteria = (record { id = "criterion"; feature_request_id = "a" }) ∷ [];
  test_expectations = (record { id = "expectation"; feature_request_id = "a" }) ∷ [];
}

abbrev the_plan : PlanPayload
the_plan = record { plan_id = "plan"; project_id = "project"; expected_version = 1 }

abbrev the_backlog : BacklogPayload
the_backlog = record { project_id = "project"; plan_id = "plan" }

abbrev states : List ImplementationPlan → List String
states [] = []
states (plan ∷ plans) = plan_state_value plan.state ∷ states plans

abbrev validated : List ImplementationPlan → List (Option String)
validated [] = []
validated (plan ∷ plans) = plan.backlog_validated_state ∷ validated plans

submit_test :
    states
      (committed (planned PlanState.draft) (
        submit_plan sample_env
          (sent "submit" approver none)
          the_plan
          (planned PlanState.draft))).implementation_plans
    ≡ "pending_approval" ∷ []
unfolding submit_plan with_claim claim_idempotency_key assert_valid lookup plan_state_value
submit_test = refl

-- Feature B has no texts, so the backlog is invalid, and that stays recorded.
invalid_test :
    validated
      (validate_backlog sample_env
        (sent "validate" worker none)
        the_backlog
        (planned PlanState.draft)).1.implementation_plans
    ≡ some "invalid" ∷ []
unfolding validate_backlog claim_idempotency_key all_text_problems has_cycle visit_features visit
    visit_each
invalid_test = refl

submit_plan-Submitted_example :
    Submitted sample_env
      (sent "submit" approver none)
      the_plan
      (planned PlanState.draft)
      (submit_plan sample_env (sent "submit" approver none) the_plan (planned PlanState.draft))
submit_plan-Submitted_example =
    submit_plan-Submitted sample_env (sent "submit" approver none) the_plan
      (planned PlanState.draft)

validate_backlog-Validated_example :
    Validated sample_env (sent "validate" worker none) the_backlog (planned PlanState.draft) (
      validate_backlog sample_env
        (sent "validate" worker none)
        the_backlog
        (planned PlanState.draft))
validate_backlog-Validated_example =
    validate_backlog-Validated sample_env (sent "validate" worker none) the_backlog
      (planned PlanState.draft)

activate_plan-Activated_example :
    Activated sample_env (sent "activate" approver none) the_plan (planned PlanState.approved) (
      activate_plan sample_env
        (sent "activate" approver none)
        the_plan
        (planned PlanState.approved))
activate_plan-Activated_example =
    activate_plan-Activated sample_env (sent "activate" approver none) the_plan
      (planned PlanState.approved)
