-- ===== src/Selector/Pipeline.antt =====
-- `_evaluate_candidate` (selector.py) excludes a candidate at the expected stage.
pub mod Expected
pub mod Parts
pub mod Stages
use scarcity_router.Common.{
  ◌>>=◌, ok, inl, inr, ◌≡◌, refl, ap, Bool, true, not, ◌||◌, Option, none, some, List, [], ◌∷◌,
  if◌then◌else◌, is_some, filter, any, is_empty, All, Result, ◌==◌, option_eq, contains, list_eq,
  pair_eq, string_eq, nat_eq, nat_order, string_order, pair_order, list_order, false, ◌∙◌, sym,
  Bool-cases, subst, some-injective,
}
use scarcity_router.Types.SafeId.{is_safe_id}
use scarcity_router.Types.Identity.{ModelIdentity, CapacityScopeRef, identity_eq, scope_eq}
use scarcity_router.Types.Catalog.{ModelCatalogEntry}
use scarcity_router.Types.Facts.{IsValidEntry}
use scarcity_router.Capacity.{CapacitySnapshot}
use scarcity_router.Scarcity.Assessment.{
  ScarcityReason, ScarcityAssessment, reason_eq, reason_order, role_eq, label_eq, evidence_eq,
}
use scarcity_router.Scarcity.Assess.{assess_scarcity}
use scarcity_router.Scarcity.Bindings.{unknown_assessment}
use scarcity_router.Scarcity.Applicable.{AreSnapshots}
use scarcity_router.Scarcity.Totality.Outcomes.{
  exhausted, incomplete, complete, state_of, expected_state, Outcome,
}
use scarcity_router.Scarcity.Totality.{assess_scarcity-total, assess_scarcity-unbound}
use scarcity_router.Policy.{
  HappyHourDecision, ReplenishmentMode, policy_reason_eq, policy_reason_order, ReservationRule,
  WeeklyRule, ReplenishmentState, ReservationDecision,
}
use scarcity_router.Policy.Schedule.{weekday_eq, weekday_order}
use scarcity_router.Policy.Unknown.{lets_through, apply_unknown_capacity_mode-total}
use scarcity_router.Policy.FirstRule.{evaluate_blackouts-first, Evaluates, HaveSafeIds}
use scarcity_router.Policy.Visibility.{apply_replenishment_mode-total}
use scarcity_router.Selector.{
  EligibilityState, ExecutionEligibility, Stage, stage_eq, selection_reason_eq,
  selection_reason_order, ReplenishmentEvaluation, CandidateEvaluation, SelectionReason,
}
use scarcity_router.Selector.Candidate.{stage_of_reason, new_evaluation}
use scarcity_router.Selector.Constraints.{evaluate_hard_constraints}
use scarcity_router.Selector.Capability.{evaluate_capability_sufficiency}
use scarcity_router.Selector.Evaluate.{
  evaluate_blackout, preference, eligible_evaluation, evaluate_suitability, applicable_rules,
  evaluate_reserved, evaluate_capacity, reservation_decisions, reservation_primary,
  reservation_exclusion, evaluate_candidate,
}
use scarcity_router.Selector.Inputs.{
  with_primary, state_primary, excluded_at, Inputs, blocking, report_for, replenishments, Assessed,
}
use scarcity_router.Selector.Holding.{
  reservation_decisions-ok, holds_back, excludes, map_result-any, IsReservationReason,
  reservation_primary-IsReservationReason, reservation_primary-any,
}
use scarcity_router.Selector.Passing.{
  execution-passes, IsShown, exclusion-passes, capacity-passes, eligible-passes, preference-ok,
  one_code,
}
use scarcity_router.Selector.Pipeline.Expected.{
  IsReady, is_not_allowed, is_blacked_out, fails_constraints, lacks_capability, lacks_capacity,
  is_held_back, stage_from_capacity, stage_from_constraints, expected_stage, IsEvaluated,
  Evaluation,
}
use scarcity_router.Selector.Pipeline.Stages.{blackout-Evaluation}
use scarcity_router.Selector.Pipeline.Parts.{excluded-IsEvaluated}

state_primary-stage :
    (s : EligibilityState) (c : SelectionReason)
    → state_primary s ≡ some c
    → stage_of_reason c ≡ some Stage.execution
state_primary-stage EligibilityState.eligible c h = cc
state_primary-stage EligibilityState.allowance_unavailable c h =
    ap stage_of_reason (sym (some-injective h))
state_primary-stage EligibilityState.policy_blocked c h =
    ap stage_of_reason (sym (some-injective h))
state_primary-stage EligibilityState.unknown c h = ap stage_of_reason (sym (some-injective h))

blocking-stage :
    (o : Option ExecutionEligibility) (report : ExecutionEligibility) (code : SelectionReason)
    → blocking o ≡ some (report, code)
    → stage_of_reason code ≡ some Stage.execution
blocking-stage none report code h = cc
blocking-stage (some r) report code h = by_state r.state report code h
  where
    by_primary :
        (o : Option SelectionReason) (report : ExecutionEligibility) (code : SelectionReason)
        → ((c : SelectionReason) → o ≡ some c → stage_of_reason c ≡ some Stage.execution)
        → with_primary r o ≡ some (report, code)
        → stage_of_reason code ≡ some Stage.execution
    by_primary none report code k h = cc
    by_primary (some c) report code k h = k code (ap some (ap (λ p. p.1) (some-injective h)))

    by_state :
        (s : EligibilityState) (report : ExecutionEligibility) (code : SelectionReason)
        → with_primary r (state_primary s) ≡ some (report, code)
        → stage_of_reason code ≡ some Stage.execution
    by_state s report code h = by_primary (state_primary s) report code (state_primary-stage s) h

-- A candidate with a display name and valid capacity bindings, under validated snapshots, at most one of a
-- provider, and rules that have safe ids and whose tests raise nothing (`blocks` and `prefers` are their outcomes),
-- is always evaluated without an error: to its own identity, excluded at the first stage whose test
-- excludes it (execution, policy blackout, hard constraint, capability, capacity, reservation), and eligible
-- just if none does.
pub evaluate_candidate-stage :
    (i : Inputs) (entry : ModelCatalogEntry) (blocks prefers : WeeklyRule → Bool)
    → IsReady i entry blocks prefers
    → Evaluation (evaluate_candidate i entry) entry (expected_stage i entry blocks)
unfolding evaluate_candidate
evaluate_candidate-stage i entry blocks prefers r =
    by_report (blocking (report_for i.eligibility_reports entry.identity)) refl
  where
    unreported : Result CandidateEvaluation
    unreported =
        if contains i.policy_blocked_identities entry.identity
        then new_evaluation
            (excluded_at entry Stage.policy_blackout (one_code SelectionReason.policy_blocked))
        else evaluate_blackout entry i

    from_report : Option (ExecutionEligibility × SelectionReason) → Result CandidateEvaluation
    from_report o = elim o [
      | some (report, code) ↦
          new_evaluation (record (excluded_at entry Stage.execution (one_code code)) {
            execution_eligibility = some report;
          })
      | none ↦ unreported
    ]

    stage_without : Option Stage
    stage_without =
        if is_blacked_out i entry blocks
        then some Stage.policy_blackout
        else stage_from_constraints i entry

    from_stage : Option (ExecutionEligibility × SelectionReason) → Option Stage
    from_stage o = if is_some o then some Stage.execution else stage_without

    without_report : Evaluation unreported entry stage_without
    without_report = elim (Bool-cases (contains i.policy_blocked_identities entry.identity)) [
      | inl f ↦
          let ev =
            excluded_at entry Stage.policy_blackout (one_code SelectionReason.policy_blocked) in
          (
            ev,
            rw f (
                exclusion-passes entry Stage.policy_blackout SelectionReason.policy_blocked [] []
                  none none none [] [] r.shown refl),
            excluded-IsEvaluated Stage.policy_blackout _ ev (rw f refl) refl refl refl,
          )
      | inr f ↦
          let (ev, passed, out) = blackout-Evaluation i entry blocks prefers r in
          (ev, rw f passed, subst (λ o. IsEvaluated entry o ev) (sym (rw f refl)) out)
    ]

    by_report :
        (o : Option (ExecutionEligibility × SelectionReason))
        → blocking (report_for i.eligibility_reports entry.identity) ≡ o
        → Evaluation (evaluate_candidate i entry) entry (expected_stage i entry blocks)
    by_report (some (report, code)) e =
        let ev = record (excluded_at entry Stage.execution (one_code code)) {
          execution_eligibility = some report;
        } in
        let at = blocking-stage (report_for i.eligibility_reports entry.identity) report code e in
        (
          ev,
          ap from_report e ∙ execution-passes entry report code r.shown at,
          excluded-IsEvaluated Stage.execution _ ev (ap from_stage e) refl refl refl,
        )
    by_report none e =
        let (ev, passed, out) = without_report in
        (
          ev,
          ap from_report e ∙ passed,
          subst (λ o. IsEvaluated entry o ev) (sym (ap from_stage e)) out,
        )
