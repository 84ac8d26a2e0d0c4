-- ===== src/Selector/Evaluate.antt =====
-- `_evaluate_candidate` (selector.py): the pipeline of stages for one catalog entry.
use scarcity_router.Common.{
  ok, ℕ, Bool, true, false, not, ◌&&◌, Option, none, some, List, [], ◌∷◌, ltb, if◌then◌else◌,
  is_empty, Result, ◌>>=◌, nat_eq, string_eq, option_eq, contains, list_eq, pair_eq, nat_order,
  string_order, pair_order, list_order, map_result, filter,
}
use scarcity_router.Types.Identity.{CapacityScopeRef, identity_eq, scope_eq}
use scarcity_router.Types.Catalog.{ModelCatalogEntry}
use scarcity_router.Scarcity.Assessment.{
  ScarcityAssessment, reason_eq, reason_order, role_eq, label_eq, evidence_eq, is_known,
}
use scarcity_router.Scarcity.Assess.{assess_scarcity}
use scarcity_router.Policy.{
  ReservationState, policy_reason_eq, policy_reason_order, ReservationRule, ReservationDecision,
  HappyHourDecision,
}
use scarcity_router.Policy.Schedule.{weekday_eq, weekday_order}
use scarcity_router.Policy.Rules.{evaluate_blackouts, evaluate_happy_hours}
use scarcity_router.Policy.Unknown.{apply_unknown_capacity_mode}
use scarcity_router.Policy.Reservation.{evaluate_reservation}
use scarcity_router.Selector.{
  Stage, stage_eq, SelectionReason, selection_reason_eq, selection_reason_order,
  CandidateEvaluation,
}
use scarcity_router.Selector.Constraints.{evaluate_hard_constraints}
use scarcity_router.Selector.Capability.{evaluate_capability_sufficiency}
use scarcity_router.Selector.Candidate.{resolved_short_window_floor, new_evaluation}
use scarcity_router.Selector.Inputs.{
  Assessed, Inputs, blocking, capacity_exclusion, excluded_at, replenishments, report_for,
}

-- The reservation rules on one of the bindings.
abbrev pub applicable_rules :
    List ReservationRule → Option (List CapacityScopeRef) → List ReservationRule
applicable_rules rules none = []
applicable_rules rules (some bindings) =
    filter (λ (r : ReservationRule). contains bindings r.scope) rules

unfoldable pub reservation_decisions :
    ModelCatalogEntry → Inputs → Result (List ReservationDecision)
unfolding evaluate_reservation contains
reservation_decisions entry i =
    map_result
      (λ (r : ReservationRule). evaluate_reservation r i.snapshots i.requirement.task_level)
      (applicable_rules i.policy.resource_policy.reservations entry.capacity_bindings)

abbrev pub is_unknown_reservation : ReservationState → Bool
is_unknown_reservation ReservationState.unknown = true
is_unknown_reservation ReservationState.known = false

abbrev pub is_true : Option Bool → Bool
is_true none = false
is_true (some b) = b

-- The loop over the decisions with its `break`.
unfoldable pub reservation_primary :
    Option SelectionReason → List ReservationDecision → Option SelectionReason
reservation_primary primary [] = primary
reservation_primary primary (d ∷ ds) =
    let rest =
      reservation_primary
        (if is_true d.blocked then some SelectionReason.reservation_blocked else primary) ds in
    if is_unknown_reservation d.state then some SelectionReason.reservation_unknown else rest

abbrev pub reservation_exclusion :
    ModelCatalogEntry → Assessed → List ReservationDecision → SelectionReason → CandidateEvaluation
reservation_exclusion entry a decisions primary =
    record (excluded_at entry Stage.reservation (primary ∷ [])) {
      scarcity_assessment = some a.scarcity;
      unknown_capacity_decision = some a.unknown_decision;
      reservation_decisions = decisions;
      replenishment_evaluations = a.evaluations;
    }

abbrev pub below_floor : ℕ → ScarcityAssessment → Bool
below_floor floor a =
    is_known a.state
    && elim a.tactical_window [ none ↦ false | some w ↦ ltb w.remaining_percent floor ]

abbrev pub if_preferred : HappyHourDecision → Option HappyHourDecision
if_preferred d = if d.preferred then some d else none

-- `if resource_policy.happy_hours: ...`
unfoldable pub preference : ModelCatalogEntry → Inputs → Result (Option HappyHourDecision)
unfolding evaluate_happy_hours
preference entry i =
    let rules = i.policy.resource_policy.happy_hours in
    let evaluated = evaluate_happy_hours i.zones rules entry.identity i.evaluated_at >>= λ d.
    ok (if_preferred d) in
    if is_empty rules then ok none else evaluated

abbrev pub eligible_evaluation :
    ModelCatalogEntry
    → Inputs
    → Assessed
    → List ReservationDecision
    → Option HappyHourDecision
    → CandidateEvaluation
eligible_evaluation entry i a decisions happy = record {
  identity = entry.identity;
  display_name = entry.display_name;
  eligible = true;
  reasoning_effort = entry.reasoning_effort;
  degraded = a.unknown_decision.degraded;
  exclusion_stage = none;
  execution_eligibility = none;
  hard_constraint_failures = [];
  capability_failures = [];
  blackout_decision = none;
  happy_hour_decision = happy;
  scarcity_assessment = some a.scarcity;
  unknown_capacity_decision = some a.unknown_decision;
  reservation_decisions = decisions;
  replenishment_evaluations = a.evaluations;
  reason_codes = [];
  short_window_below_floor = below_floor (resolved_short_window_floor i.policy) a.scarcity;
}

-- From the reservations on.
unfoldable pub evaluate_reserved :
    ModelCatalogEntry → Inputs → Assessed → Result CandidateEvaluation
unfolding reservation_decisions reservation_primary preference new_evaluation
evaluate_reserved entry i a = do
  decisions ← reservation_decisions entry i
  elim (reservation_primary none decisions) [
    | some primary ↦ new_evaluation (reservation_exclusion entry a decisions primary)
    | none ↦ do
      happy ← preference entry i
      new_evaluation (eligible_evaluation entry i a decisions happy)
  ]

-- From the scarcity on.
unfoldable pub evaluate_capacity : ModelCatalogEntry → Inputs → Result CandidateEvaluation
unfolding assess_scarcity apply_unknown_capacity_mode replenishments new_evaluation
    evaluate_reserved
evaluate_capacity entry i = do
  let resource_policy = i.policy.resource_policy
  scarcity ← assess_scarcity entry i.snapshots
  unknown_decision ← apply_unknown_capacity_mode resource_policy.unknown_capacity_mode scarcity
  evaluations ←
      replenishments resource_policy.replenishment_mode entry.identity i.replenishment_states
  let a : Assessed = record {
    scarcity = scarcity;
    unknown_decision = unknown_decision;
    evaluations = evaluations;
  }
  if not unknown_decision.eligible_by_unknown_policy
      then new_evaluation (capacity_exclusion entry a)
      else evaluate_reserved entry i a

-- From the hard constraints on.
unfoldable pub evaluate_suitability : ModelCatalogEntry → Inputs → Result CandidateEvaluation
unfolding evaluate_hard_constraints evaluate_capability_sufficiency new_evaluation evaluate_capacity
evaluate_suitability entry i =
    let hard_failures = evaluate_hard_constraints i.requirement.hard_constraints entry in
    let capability_failures =
      evaluate_capability_sufficiency i.requirement.capability_minima entry.capabilities in
    if not (is_empty hard_failures)
    then new_evaluation
        (record (excluded_at entry Stage.hard_constraint
          (SelectionReason.hard_constraint_failed ∷ [])) {
            hard_constraint_failures = hard_failures;
          })
    else if not (is_empty capability_failures)
    then new_evaluation
        (record (excluded_at entry Stage.capability (SelectionReason.capability_failed ∷ [])) {
          capability_failures = capability_failures;
        })
    else evaluate_capacity entry i

-- From the blackouts on.
unfoldable pub evaluate_blackout : ModelCatalogEntry → Inputs → Result CandidateEvaluation
unfolding evaluate_blackouts new_evaluation evaluate_suitability
evaluate_blackout entry i = do
  blackout ←
      evaluate_blackouts i.zones i.policy.resource_policy.blackouts entry.identity i.evaluated_at
  if blackout.blocked
      then new_evaluation
          (record (excluded_at entry Stage.policy_blackout (SelectionReason.policy_blocked ∷ [])) {
            blackout_decision = some blackout;
          })
      else evaluate_suitability entry i

-- `_evaluate_candidate`
unfoldable pub evaluate_candidate : Inputs → ModelCatalogEntry → Result CandidateEvaluation
unfolding new_evaluation contains evaluate_blackout
evaluate_candidate i entry = elim (blocking (report_for i.eligibility_reports entry.identity)) [
  | some (report, code) ↦ new_evaluation (record (excluded_at entry Stage.execution (code ∷ [])) {
    execution_eligibility = some report;
  })
  | none ↦
      if contains i.policy_blocked_identities entry.identity
      then new_evaluation
          (excluded_at entry Stage.policy_blackout (SelectionReason.policy_blocked ∷ []))
      else evaluate_blackout entry i
]
