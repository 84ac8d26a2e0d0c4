-- ===== src/Scarcity/Totality/Outcomes.antt =====
-- The three outcomes of `assess_scarcity` (scarcity.py), told by the telemetry of the bindings.
use scarcity_router.Scarcity.Roles.{IsKnown}
use scarcity_router.Common.{
  ◌≡◌, true, false, Option, none, some, List, if◌then◌else◌, any, all, nat_eq, string_eq, option_eq,
  list_eq, pair_eq, nat_order, string_order, pair_order, list_order,
}
use scarcity_router.Types.Identity.{CapacityScopeRef, identity_eq, scope_eq}
use scarcity_router.Capacity.{CapacitySnapshot}
use scarcity_router.Capacity.Contract.{
  resource_eq, kind_eq, resource_order, kind_order, diagnostic_eq,
}
use scarcity_router.Scarcity.Assessment.{
  ScarcityState, reason_eq, reason_order, role_eq, label_eq, evidence_eq, known, ScarcityAssessment,
}
use scarcity_router.Scarcity.Assess.{is_exhausted}
use scarcity_router.Scarcity.Windows.{applicable, is_covered}

-- The state that the collected evidence calls for.
abbrev pub state_of : List CapacitySnapshot → List CapacityScopeRef → ScarcityState
state_of snapshots bindings =
    if any is_exhausted (applicable snapshots bindings)
    then ScarcityState.unavailable
    else if all (is_covered snapshots) bindings
    then known
    else ScarcityState.unknown

-- The state that `assess_scarcity` should report.
abbrev pub expected_state : List CapacitySnapshot → Option (List CapacityScopeRef) → ScarcityState
expected_state snapshots none = ScarcityState.unknown
expected_state snapshots (some bindings) = state_of snapshots bindings

-- The three outcomes of a candidate whose bindings are known.
pub data Outcome (snapshots : List CapacitySnapshot) (bindings : List CapacityScopeRef)
    (a : ScarcityAssessment) : Type 0 where
  exhausted :
      any is_exhausted (applicable snapshots bindings) ≡ true
      → a.state ≡ ScarcityState.unavailable
      → a.effective_remaining_percent ≡ some 0
      → Outcome snapshots bindings a
  incomplete :
      any is_exhausted (applicable snapshots bindings) ≡ false
      → all (is_covered snapshots) bindings ≡ false
      → a.state ≡ ScarcityState.unknown
      → a.effective_remaining_percent ≡ none
      → Outcome snapshots bindings a
  complete :
      any is_exhausted (applicable snapshots bindings) ≡ false
      → all (is_covered snapshots) bindings ≡ true
      → IsKnown bindings (applicable snapshots bindings) a
      → Outcome snapshots bindings a
