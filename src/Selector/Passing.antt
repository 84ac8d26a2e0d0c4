-- ===== src/Selector/Passing.antt =====
-- The evaluations that the pipeline builds pass the checks of `CandidateEvaluation` (selector.py).
use scarcity_router.Common.{
  ok, ◌≡◌, refl, ap, inl, inr, Bool, true, false, not, ◌&&◌, ◌||◌, Option, none, some, List, [],
  ◌∷◌, arith, eqb_iff, Bool-cases, is_empty, guard, ◌==◌, option_eq, contains, list_eq, pair_eq,
  string_eq, nat_eq, nat_order, string_order, pair_order, list_order, ℕ, Result, ltb, ◌>>◌, is_some,
  ◌∙◌,
}
use scarcity_router.Types.SafeId.{codes}
use scarcity_router.Types.Identity.{identity_eq, scope_eq}
use scarcity_router.Types.Catalog.{ModelCatalogEntry}
use scarcity_router.Scarcity.Assessment.{
  GoverningWindowEvidence, is_known, ScarcityState, ScarcityAssessment, reason_eq, reason_order,
  role_eq, label_eq, evidence_eq,
}
use scarcity_router.Policy.{
  policy_reason_eq, policy_reason_order, UnknownCapacityDecision, ReservationDecision, WeeklyRule,
  BlackoutDecision, HappyHourDecision,
}
use scarcity_router.Policy.Schedule.{weekday_eq, weekday_order}
use scarcity_router.Policy.FirstRule.{Evaluates, HaveSafeIds, evaluate_happy_hours-first}
use scarcity_router.Selector.{
  Stage, stage_progress, stage_eq, SelectionReason, selection_reason_eq, selection_reason_order,
  HardConstraintFailure, CapabilityFailure, ExecutionEligibility, ReplenishmentEvaluation,
  CandidateEvaluation,
}
use scarcity_router.Selector.Candidate.{
  check_short_window, check_happy_hour, resolved_short_window_floor, stage_of_reason,
  new_evaluation,
}
use scarcity_router.Selector.Evaluate.{below_floor, if_preferred, preference, eligible_evaluation}
use scarcity_router.Selector.Inputs.{
  Inputs, excluded_at, is_recoverable, Assessed, capacity_codes, capacity_exclusion,
}

-- The display name is not empty.
abbrev pub IsShown : ModelCatalogEntry → Type 0
IsShown entry = (entry.display_name == "") ≡ false

abbrev pub one_code : SelectionReason → List SelectionReason
one_code c = c ∷ []

-- An exclusion for one reason, that of its stage.
pub execution-passes :
    (entry : ModelCatalogEntry) (report : ExecutionEligibility) (c : SelectionReason)
    → IsShown entry
    → stage_of_reason c ≡ some Stage.execution
    → new_evaluation (record (excluded_at entry Stage.execution (one_code c)) {
      execution_eligibility = some report;
    })
      ≡ ok (record (excluded_at entry Stage.execution (one_code c)) {
        execution_eligibility = some report;
      })
unfolding new_evaluation contains
execution-passes entry report c h k = rw (h, k) refl

pub exclusion-passes :
    (entry : ModelCatalogEntry) (stage : Stage) (c : SelectionReason)
    (hard : List HardConstraintFailure) (capability : List CapabilityFailure)
    (blackout : Option BlackoutDecision) (scarcity : Option ScarcityAssessment)
    (unknown : Option UnknownCapacityDecision) (reservations : List ReservationDecision)
    (evaluations : List ReplenishmentEvaluation)
    → IsShown entry
    → stage_of_reason c ≡ some stage
    → new_evaluation (record (excluded_at entry stage (one_code c)) {
      hard_constraint_failures = hard;
      capability_failures = capability;
      blackout_decision = blackout;
      scarcity_assessment = scarcity;
      unknown_capacity_decision = unknown;
      reservation_decisions = reservations;
      replenishment_evaluations = evaluations;
    })
      ≡ ok (record (excluded_at entry stage (one_code c)) {
        hard_constraint_failures = hard;
        capability_failures = capability;
        blackout_decision = blackout;
        scarcity_assessment = scarcity;
        unknown_capacity_decision = unknown;
        reservation_decisions = reservations;
        replenishment_evaluations = evaluations;
      })
unfolding new_evaluation contains
exclusion-passes entry stage c hard cap b s u r e h k =
    rw (h, k, (eqb_iff (stage_progress stage) (stage_progress stage)).1 refl) refl

pub capacity-passes :
    (entry : ModelCatalogEntry) (a : Assessed)
    → IsShown entry
    → (e : CandidateEvaluation) × (new_evaluation (capacity_exclusion entry a) ≡ ok e)
      × (e.exclusion_stage ≡ some Stage.capacity)
      × (e.identity ≡ entry.identity)
      × (e.eligible ≡ false)
unfolding new_evaluation contains
capacity-passes entry a h = by_codes a.scarcity.state (is_recoverable a.evaluations)
  where
    built : List SelectionReason → CandidateEvaluation
    built codes = record (excluded_at entry Stage.capacity codes) {
      scarcity_assessment = some a.scarcity;
      unknown_capacity_decision = some a.unknown_decision;
      replenishment_evaluations = a.evaluations;
    }

    by_codes :
        (s : ScarcityState) (b : Bool)
        → (e : CandidateEvaluation) × (new_evaluation (built (capacity_codes s b)) ≡ ok e)
          × (e.exclusion_stage ≡ some Stage.capacity)
          × (e.identity ≡ entry.identity)
          × (e.eligible ≡ false)
    by_codes ScarcityState.unavailable true =
        (built (capacity_codes ScarcityState.unavailable true), rw h refl, refl, refl, refl)
    by_codes ScarcityState.unavailable false =
        (built (capacity_codes ScarcityState.unavailable false), rw h refl, refl, refl, refl)
    by_codes ScarcityState.known b =
        (built (capacity_codes ScarcityState.known b), rw h refl, refl, refl, refl)
    by_codes ScarcityState.unknown b =
        (built (capacity_codes ScarcityState.unknown b), rw h refl, refl, refl, refl)

-- A happy-hour decision that is carried prefers.
abbrev pub IsPreference : Option HappyHourDecision → Type 0
IsPreference none = Unit
IsPreference (some d) = d.preferred ≡ true

pub preference-ok :
    (entry : ModelCatalogEntry) (i : Inputs) (hits : WeeklyRule → Bool)
    → Evaluates i.zones entry.identity i.evaluated_at hits i.policy.resource_policy.happy_hours
    → HaveSafeIds i.policy.resource_policy.happy_hours
    → (o : Option HappyHourDecision) × (preference entry i ≡ ok o) × IsPreference o
unfolding preference
preference-ok entry i hits h safe =
    let (d, built, _, _) =
      evaluate_happy_hours-first i.zones i.policy.resource_policy.happy_hours entry.identity
        i.evaluated_at hits h safe in
    elim (Bool-cases (is_empty i.policy.resource_policy.happy_hours)) [
      | inl e ↦ (none, rw e refl, tt)
      | inr e ↦ (if_preferred d, rw (e, built) refl, kept d d.preferred refl)
    ]
  where
    kept : (d : HappyHourDecision) (b : Bool) → d.preferred ≡ b → IsPreference (if_preferred d)
    kept d true e = rw e refl
    kept d false e = rw e tt

-- The advisory is given only with the evidence that it is about.
tactical :
    (floor : ℕ) (known : Bool) (o : Option GoverningWindowEvidence)
    → (known && elim o [ none ↦ false | some w ↦ ltb w.remaining_percent floor ]) ≡ true
    → (known && is_some o) ≡ true
tactical floor known none h = h
tactical floor known (some w) h = ground arith

short_window-passes :
    (entry : ModelCatalogEntry) (i : Inputs) (a : Assessed) (ds : List ReservationDecision)
    (happy : Option HappyHourDecision)
    → check_short_window (eligible_evaluation entry i a ds happy) ≡ ok tt
short_window-passes entry i a ds happy =
    let floor = resolved_short_window_floor i.policy in
    elim (Bool-cases (below_floor floor a.scarcity)) [
      | inl e ↦ rw (e, tactical floor (is_known a.scarcity.state) a.scarcity.tactical_window e) refl
      | inr e ↦ rw e refl
    ]

happy_hour-passes :
    (entry : ModelCatalogEntry) (i : Inputs) (a : Assessed) (ds : List ReservationDecision)
    (happy : Option HappyHourDecision)
    → IsPreference happy
    → check_happy_hour (eligible_evaluation entry i a ds happy) ≡ ok tt
happy_hour-passes entry i a ds none k = refl
happy_hour-passes entry i a ds (some d) k = rw k refl

pub eligible-passes :
    (entry : ModelCatalogEntry) (i : Inputs) (a : Assessed) (ds : List ReservationDecision)
    (happy : Option HappyHourDecision)
    → IsShown entry
    → IsPreference happy
    → new_evaluation (eligible_evaluation entry i a ds happy)
      ≡ ok (eligible_evaluation entry i a ds happy)
unfolding new_evaluation
eligible-passes entry i a ds happy h k =
    let e = eligible_evaluation entry i a ds happy in
    ap
      (λ (b : Bool).
        guard (not b) "display_name: must be non-empty"
        >> (check_happy_hour e >> (check_short_window e >> last)))
      h
    ∙ ap (λ (r : Result (Unit {0})). r >> (check_short_window e >> last))
        (happy_hour-passes entry i a ds happy k)
    ∙ ap (λ (r : Result (Unit {0})). r >> last) (short_window-passes entry i a ds happy)
    ∙ ap
        (λ (b : Bool).
          guard b "degraded=True requires a degraded unknown-capacity decision" >> ok e)
        (degrades a.unknown_decision.degraded)
  where
    last : Result CandidateEvaluation
    last =
        guard (not a.unknown_decision.degraded || a.unknown_decision.degraded)
          "degraded=True requires a degraded unknown-capacity decision"
        >> ok (eligible_evaluation entry i a ds happy)

    degrades : (b : Bool) → (not b || b) ≡ true
    degrades b = ground arith
