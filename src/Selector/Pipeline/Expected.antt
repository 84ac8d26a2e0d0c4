-- ===== src/Selector/Pipeline/Expected.antt =====
-- The stage that `_evaluate_candidate` (selector.py) is to exclude a candidate at, told by one test for
-- each stage.
use scarcity_router.Common.{
  ok, ◌≡◌, Bool, true, not, ◌||◌, Option, none, some, if◌then◌else◌, is_some, any, is_empty, All,
  Result, option_eq, contains, list_eq, pair_eq, string_eq, nat_eq, nat_order, string_order,
  pair_order, list_order,
}
use scarcity_router.Types.SafeId.{is_safe_id}
use scarcity_router.Types.Identity.{identity_eq, scope_eq}
use scarcity_router.Types.Catalog.{ModelCatalogEntry}
use scarcity_router.Types.Facts.{IsValidEntry}
use scarcity_router.Scarcity.Assessment.{reason_eq, reason_order, role_eq, label_eq, evidence_eq}
use scarcity_router.Scarcity.Applicable.{AreSnapshots}
use scarcity_router.Scarcity.Totality.Outcomes.{expected_state}
use scarcity_router.Policy.{policy_reason_eq, policy_reason_order, ReservationRule, WeeklyRule}
use scarcity_router.Policy.Schedule.{weekday_eq, weekday_order}
use scarcity_router.Policy.Unknown.{lets_through}
use scarcity_router.Policy.FirstRule.{Evaluates, HaveSafeIds}
use scarcity_router.Selector.{
  Stage, stage_eq, selection_reason_eq, selection_reason_order, CandidateEvaluation,
}
use scarcity_router.Selector.Constraints.{evaluate_hard_constraints}
use scarcity_router.Selector.Capability.{evaluate_capability_sufficiency}
use scarcity_router.Selector.Evaluate.{applicable_rules}
use scarcity_router.Selector.Inputs.{Inputs, blocking, report_for}
use scarcity_router.Selector.Holding.{holds_back}
use scarcity_router.Selector.Passing.{IsShown}

-- What the constructors of the inputs guarantee, and that the zones of the rules can be loaded. `blocks` and
-- `prefers` are the outcomes of the rules' tests.
pub record IsReady (i : Inputs) (entry : ModelCatalogEntry) (blocks prefers : WeeklyRule → Bool)
    : Type 0 where
  pub shown : IsShown entry
  pub bound : IsValidEntry entry
  pub snapshots : AreSnapshots i.snapshots
  pub blackouts :
      Evaluates i.zones entry.identity i.evaluated_at blocks i.policy.resource_policy.blackouts
  pub blackout_ids : HaveSafeIds i.policy.resource_policy.blackouts
  pub happy_hours :
      Evaluates i.zones entry.identity i.evaluated_at prefers i.policy.resource_policy.happy_hours
  pub happy_hour_ids : HaveSafeIds i.policy.resource_policy.happy_hours
  pub rule_ids :
      All
        (λ (r : ReservationRule). is_safe_id r.rule_id ≡ true)
        i.policy.resource_policy.reservations

-- The tests of the stages, in order.
abbrev pub is_not_allowed : Inputs → ModelCatalogEntry → Bool
is_not_allowed i entry = is_some (blocking (report_for i.eligibility_reports entry.identity))

abbrev pub is_blacked_out : Inputs → ModelCatalogEntry → (WeeklyRule → Bool) → Bool
is_blacked_out i entry blocks =
    contains i.policy_blocked_identities entry.identity
    || any blocks i.policy.resource_policy.blackouts

abbrev pub fails_constraints : Inputs → ModelCatalogEntry → Bool
fails_constraints i entry =
    not (is_empty (evaluate_hard_constraints i.requirement.hard_constraints entry))

abbrev pub lacks_capability : Inputs → ModelCatalogEntry → Bool
lacks_capability i entry =
    not (
      is_empty (evaluate_capability_sufficiency i.requirement.capability_minima entry.capabilities))

abbrev pub lacks_capacity : Inputs → ModelCatalogEntry → Bool
lacks_capacity i entry = not (
    lets_through i.policy.resource_policy.unknown_capacity_mode
      (expected_state i.snapshots entry.capacity_bindings))

abbrev pub is_held_back : Inputs → ModelCatalogEntry → Bool
is_held_back i entry =
    any (holds_back i.snapshots i.requirement.task_level)
      (applicable_rules i.policy.resource_policy.reservations entry.capacity_bindings)

-- The first stage whose test excludes the candidate.
abbrev pub stage_from_capacity : Inputs → ModelCatalogEntry → Option Stage
stage_from_capacity i entry =
    if lacks_capacity i entry
    then some Stage.capacity
    else if is_held_back i entry
    then some Stage.reservation
    else none

abbrev pub stage_from_constraints : Inputs → ModelCatalogEntry → Option Stage
stage_from_constraints i entry =
    if fails_constraints i entry
    then some Stage.hard_constraint
    else if lacks_capability i entry
    then some Stage.capability
    else stage_from_capacity i entry

abbrev pub expected_stage : Inputs → ModelCatalogEntry → (WeeklyRule → Bool) → Option Stage
expected_stage i entry blocks =
    if is_not_allowed i entry
    then some Stage.execution
    else if is_blacked_out i entry blocks
    then some Stage.policy_blackout
    else stage_from_constraints i entry

-- An evaluation of the entry that was excluded at the stage, or is eligible.
pub record IsEvaluated (entry : ModelCatalogEntry) (stage : Option Stage) (e : CandidateEvaluation)
    : Type 0 where
  pub same_identity : e.identity ≡ entry.identity
  pub at_stage : e.exclusion_stage ≡ stage
  pub eligible_without : e.eligible ≡ not (is_some stage)

abbrev pub Evaluation : Result CandidateEvaluation → ModelCatalogEntry → Option Stage → Type 0
Evaluation result entry stage =
    (e : CandidateEvaluation) × (result ≡ ok e) × IsEvaluated entry stage e
