-- ===== src/Selector/Pipeline/Stages.antt =====
-- The parts of `_evaluate_candidate` (selector.py) after the execution stage, each against the stage
-- expected of it.
use scarcity_router.Common.{
  ◌>>=◌, ok, inl, inr, ◌≡◌, refl, ap, Bool, true, not, Option, none, some, List, [], if◌then◌else◌,
  is_some, any, Result, option_eq, list_eq, pair_eq, string_eq, nat_eq, nat_order, string_order,
  pair_order, list_order, false, ◌∙◌, sym, Bool-cases, subst,
}
use scarcity_router.Types.Identity.{identity_eq, scope_eq}
use scarcity_router.Types.Catalog.{ModelCatalogEntry}
use scarcity_router.Scarcity.Assessment.{reason_eq, reason_order, role_eq, label_eq, evidence_eq}
use scarcity_router.Policy.{
  HappyHourDecision, policy_reason_eq, policy_reason_order, WeeklyRule, ReservationDecision,
}
use scarcity_router.Policy.Schedule.{weekday_eq, weekday_order}
use scarcity_router.Policy.Unknown.{lets_through, apply_unknown_capacity_mode-total}
use scarcity_router.Policy.FirstRule.{evaluate_blackouts-first}
use scarcity_router.Selector.{
  Stage, stage_eq, selection_reason_eq, selection_reason_order, CandidateEvaluation,
  SelectionReason,
}
use scarcity_router.Selector.Candidate.{new_evaluation}
use scarcity_router.Selector.Constraints.{evaluate_hard_constraints}
use scarcity_router.Selector.Capability.{evaluate_capability_sufficiency}
use scarcity_router.Selector.Evaluate.{
  evaluate_blackout, preference, eligible_evaluation, evaluate_suitability, evaluate_reserved,
  evaluate_capacity, reservation_decisions, reservation_primary, reservation_exclusion,
}
use scarcity_router.Selector.Inputs.{excluded_at, Inputs, Assessed}
use scarcity_router.Selector.Holding.{
  reservation_decisions-ok, excludes, IsReservationReason, reservation_primary-IsReservationReason,
  reservation_primary-any,
}
use scarcity_router.Selector.Passing.{
  exclusion-passes, capacity-passes, eligible-passes, preference-ok, one_code,
}
use scarcity_router.Selector.Pipeline.Expected.{
  IsReady, fails_constraints, lacks_capability, lacks_capacity, is_held_back, stage_from_capacity,
  stage_from_constraints, IsEvaluated, Evaluation,
}
use scarcity_router.Selector.Pipeline.Parts.{
  assess_scarcity-expected, excluded-IsEvaluated, replenishments-ok,
}

reserved-Evaluation :
    (i : Inputs) (entry : ModelCatalogEntry) (blocks prefers : WeeklyRule → Bool) (a : Assessed)
    → IsReady i entry blocks prefers
    → Evaluation
        (evaluate_reserved entry i a)
        entry
        (if is_held_back i entry then some Stage.reservation else none)
unfolding evaluate_reserved
reserved-Evaluation i entry blocks prefers a r =
    let (ds, built, held) = reservation_decisions-ok entry i r.snapshots r.rule_ids in
    by_primary ds built held (reservation_primary none ds) refl
  where
    from_primary : List ReservationDecision → Option SelectionReason → Result CandidateEvaluation
    from_primary ds o = elim o [
      | some primary ↦ new_evaluation (reservation_exclusion entry a ds primary)
      | none ↦
          preference entry i >>= λ happy. new_evaluation (eligible_evaluation entry i a ds happy)
    ]

    by_decisions : List ReservationDecision → Result CandidateEvaluation
    by_decisions ds = from_primary ds (reservation_primary none ds)

    by_primary :
        (ds : List ReservationDecision)
        → reservation_decisions entry i ≡ ok ds
        → any excludes ds ≡ is_held_back i entry
        → (o : Option SelectionReason) → reservation_primary none ds ≡ o
        → Evaluation
            (evaluate_reserved entry i a)
            entry
            (if is_held_back i entry then some Stage.reservation else none)
    by_primary ds built held (some c) e =
        let reason =
          subst IsReservationReason e (reservation_primary-IsReservationReason none ds tt) in
        let yes : is_held_back i entry ≡ true =
          sym held ∙ sym (reservation_primary-any none ds) ∙ ap is_some e in
        (
          reservation_exclusion entry a ds c,
          ap (λ (o : Result (List ReservationDecision)). o >>= by_decisions) built
              ∙ ap (λ (o : Option SelectionReason). from_primary ds o) e
              ∙ (exclusion-passes entry Stage.reservation c [] [] none (some a.scarcity)
                  (some a.unknown_decision) ds a.evaluations r.shown reason),
          excluded-IsEvaluated Stage.reservation _ (reservation_exclusion entry a ds c)
              (rw yes refl) refl refl refl,
        )
    by_primary ds built held none e =
        let no : is_held_back i entry ≡ false =
          sym held ∙ sym (reservation_primary-any none ds) ∙ ap is_some e in
        let (happy, preferred, k) = preference-ok entry i prefers r.happy_hours r.happy_hour_ids in
        (
          eligible_evaluation entry i a ds happy,
          ap (λ (o : Result (List ReservationDecision)). o >>= by_decisions) built
              ∙ ap (λ (o : Option SelectionReason). from_primary ds o) e
              ∙ ap
                  (λ (o : Result (Option HappyHourDecision)).
                    o >>= λ happy. new_evaluation (eligible_evaluation entry i a ds happy))
                  preferred
              ∙ eligible-passes entry i a ds happy r.shown k,
          record { same_identity = refl; at_stage = rw no refl; eligible_without = rw no refl },
        )

capacity-Evaluation :
    (i : Inputs) (entry : ModelCatalogEntry) (blocks prefers : WeeklyRule → Bool)
    → IsReady i entry blocks prefers
    → Evaluation (evaluate_capacity entry i) entry (stage_from_capacity i entry)
unfolding evaluate_capacity
capacity-Evaluation i entry blocks prefers r =
    let (scarcity, assessed, state) =
      assess_scarcity-expected entry i.snapshots r.bound r.snapshots in
    let (u, decided, _, passes, _) =
      apply_unknown_capacity_mode-total i.policy.resource_policy.unknown_capacity_mode scarcity in
    let (es, seen) =
      replenishments-ok i.policy.resource_policy.replenishment_mode entry.identity
        i.replenishment_states in
    let a : Assessed = record { scarcity = scarcity; unknown_decision = u; evaluations = es } in
    let lacks : lacks_capacity i entry ≡ not u.eligible_by_unknown_policy =
      ap (λ s. not (lets_through i.policy.resource_policy.unknown_capacity_mode s)) (sym state)
      ∙ ap not (sym passes) in
    elim (Bool-cases (not u.eligible_by_unknown_policy)) [
      | inl e ↦
          let (ev, passed, st, id, el) = capacity-passes entry a r.shown in
          let excluded : stage_from_capacity i entry ≡ some Stage.capacity = rw (lacks ∙ e) refl in
          (
            ev,
            rw (assessed, decided, seen, e) passed,
            excluded-IsEvaluated Stage.capacity _ ev excluded id st el,
          )
      | inr e ↦
          let (ev, passed, out) = reserved-Evaluation i entry blocks prefers a r in
          (
            ev,
            rw (assessed, decided, seen, e) passed,
            subst (λ o. IsEvaluated entry o ev) (sym (rw (lacks ∙ e) refl)) out,
          )
    ]

suitability-Evaluation :
    (i : Inputs) (entry : ModelCatalogEntry) (blocks prefers : WeeklyRule → Bool)
    → IsReady i entry blocks prefers
    → Evaluation (evaluate_suitability entry i) entry (stage_from_constraints i entry)
unfolding evaluate_suitability
suitability-Evaluation i entry blocks prefers r =
    let hard = evaluate_hard_constraints i.requirement.hard_constraints entry in
    let lacking =
      evaluate_capability_sufficiency i.requirement.capability_minima entry.capabilities in
    elim (Bool-cases (fails_constraints i entry)) [
      | inl e ↦
          let ev =
            record (excluded_at entry Stage.hard_constraint
              (one_code SelectionReason.hard_constraint_failed)) {
                hard_constraint_failures = hard;
              } in
          (
            ev,
            rw e (
                exclusion-passes entry Stage.hard_constraint SelectionReason.hard_constraint_failed
                  hard [] none none none [] [] r.shown refl),
            excluded-IsEvaluated Stage.hard_constraint _ ev (rw e refl) refl refl refl,
          )
      | inr e ↦ elim (Bool-cases (lacks_capability i entry)) [
        | inl f ↦
            let ev =
              record (excluded_at entry Stage.capability
                (one_code SelectionReason.capability_failed)) { capability_failures = lacking } in
            (
              ev,
              rw (e, f)
                  (exclusion-passes entry Stage.capability SelectionReason.capability_failed []
                    lacking none none none [] [] r.shown refl),
              excluded-IsEvaluated Stage.capability _ ev (rw (e, f) refl) refl refl refl,
            )
        | inr f ↦
            let (ev, passed, out) = capacity-Evaluation i entry blocks prefers r in
            (ev, rw (e, f) passed, subst (λ o. IsEvaluated entry o ev) (sym (rw (e, f) refl)) out)
      ]
    ]

-- The stages from the blackouts on, for an identity that the policy does not block itself.
pub blackout-Evaluation :
    (i : Inputs) (entry : ModelCatalogEntry) (blocks prefers : WeeklyRule → Bool)
    → IsReady i entry blocks prefers
    → Evaluation (evaluate_blackout entry i) entry (
        if any blocks i.policy.resource_policy.blackouts
        then some Stage.policy_blackout
        else stage_from_constraints i entry)
unfolding evaluate_blackout
blackout-Evaluation i entry blocks prefers r =
    let (d, built, blocked, _) =
      evaluate_blackouts-first i.zones i.policy.resource_policy.blackouts entry.identity
        i.evaluated_at blocks r.blackouts r.blackout_ids in
    elim (Bool-cases (any blocks i.policy.resource_policy.blackouts)) [
      | inl e ↦
          let ev =
            record (excluded_at entry Stage.policy_blackout
              (one_code SelectionReason.policy_blocked)) { blackout_decision = some d } in
          (
            ev,
            rw (built, blocked ∙ e)
                (exclusion-passes entry Stage.policy_blackout SelectionReason.policy_blocked [] []
                  (some d) none none [] [] r.shown refl),
            excluded-IsEvaluated Stage.policy_blackout _ ev (rw e refl) refl refl refl,
          )
      | inr e ↦
          let (ev, passed, out) = suitability-Evaluation i entry blocks prefers r in
          (
            ev,
            rw (built, blocked ∙ e) passed,
            subst (λ o. IsEvaluated entry o ev) (sym (rw e refl)) out,
          )
    ]
