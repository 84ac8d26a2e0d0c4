-- ===== src/Selector/Pipeline/Parts.antt =====
-- What the parts of `_evaluate_candidate` (selector.py) return, whatever the stage.
use scarcity_router.Common.{
  ok, ◌≡◌, refl, ap, true, not, Option, none, some, List, [], ◌∷◌, is_some, filter, ◌==◌, option_eq,
  list_eq, pair_eq, string_eq, nat_eq, nat_order, string_order, pair_order, list_order, false, ◌∙◌,
  sym,
}
use scarcity_router.Types.Identity.{ModelIdentity, CapacityScopeRef, identity_eq, scope_eq}
use scarcity_router.Types.Catalog.{ModelCatalogEntry}
use scarcity_router.Types.Facts.{IsValidEntry}
use scarcity_router.Capacity.{CapacitySnapshot}
use scarcity_router.Scarcity.Assessment.{
  ScarcityReason, ScarcityAssessment, reason_eq, reason_order, role_eq, label_eq, evidence_eq,
}
use scarcity_router.Scarcity.Assess.{assess_scarcity}
use scarcity_router.Scarcity.Bindings.{unknown_assessment}
use scarcity_router.Scarcity.Applicable.{AreSnapshots}
use scarcity_router.Scarcity.Totality.Outcomes.{
  exhausted, incomplete, complete, state_of, expected_state, Outcome,
}
use scarcity_router.Scarcity.Totality.{assess_scarcity-total, assess_scarcity-unbound}
use scarcity_router.Policy.{
  ReplenishmentMode, policy_reason_eq, policy_reason_order, ReplenishmentState,
}
use scarcity_router.Policy.Schedule.{weekday_eq, weekday_order}
use scarcity_router.Policy.Visibility.{apply_replenishment_mode-total}
use scarcity_router.Selector.{
  Stage, stage_eq, selection_reason_eq, selection_reason_order, ReplenishmentEvaluation,
  CandidateEvaluation,
}
use scarcity_router.Selector.Inputs.{replenishments}
use scarcity_router.Selector.Holding.{map_result-any}
use scarcity_router.Selector.Pipeline.Expected.{IsEvaluated}

pub replenishments-ok :
    (mode : ReplenishmentMode) (identity : ModelIdentity) (states : List ReplenishmentState)
    → (es : List ReplenishmentEvaluation) × (replenishments mode identity states ≡ ok es)
unfolding replenishments
replenishments-ok mode identity states =
    let (es, built, _) =
      map_result-any _ (λ e. true) (λ s. true)
        (filter (λ (s : ReplenishmentState). s.provider == identity.provider) states)
        (λ s m.
          let (d, e, _) = apply_replenishment_mode-total mode (some s) in
          (record { state = s; decision = d }, rw e refl, refl)) in
    (es, built)

-- The state of the assessment is the expected one.
pub assess_scarcity-expected :
    (entry : ModelCatalogEntry) (snapshots : List CapacitySnapshot)
    → IsValidEntry entry
    → AreSnapshots snapshots
    → (a : ScarcityAssessment) × (assess_scarcity entry snapshots ≡ ok a)
      × (a.state ≡ expected_state snapshots entry.capacity_bindings)
assess_scarcity-expected entry snapshots v h = by_bindings entry.capacity_bindings refl
  where
    state_of-outcome :
        (bs : List CapacityScopeRef) (a : ScarcityAssessment)
        → Outcome snapshots bs a
        → a.state ≡ state_of snapshots bs
    state_of-outcome bs a (exhausted e st eff) = rw (e, st) refl
    state_of-outcome bs a (incomplete e g st eff) = rw (e, g, st) refl
    state_of-outcome bs a (complete e g k) = rw (e, g, k.state) refl

    by_bindings :
        (o : Option (List CapacityScopeRef))
        → entry.capacity_bindings ≡ o
        → (a : ScarcityAssessment) × (assess_scarcity entry snapshots ≡ ok a)
          × (a.state ≡ expected_state snapshots o)
    by_bindings (some bs) e =
        let (a, built, out) = assess_scarcity-total entry snapshots bs v e h in
        (a, built, state_of-outcome bs a out)
    by_bindings none e = (
      unknown_assessment (ScarcityReason.capacity_bindings_unknown ∷ []) [],
      assess_scarcity-unbound entry snapshots e h,
      refl,
    )

pub excluded-IsEvaluated :
    {entry : ModelCatalogEntry} (s : Stage) (o : Option Stage) (e : CandidateEvaluation)
    → o ≡ some s
    → e.identity ≡ entry.identity
    → e.exclusion_stage ≡ some s
    → e.eligible ≡ false
    → IsEvaluated entry o e
excluded-IsEvaluated s o e h i st el = record {
  same_identity = i;
  at_stage = st ∙ sym h;
  eligible_without = el ∙ sym (ap (λ p. not (is_some p)) h);
}
