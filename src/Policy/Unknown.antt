-- ===== src/Policy/Unknown.antt =====
-- The unknown-capacity policy (policy.py).
use scarcity_router.Common.{
  ok, ◌≡◌, refl, Bool, true, false, ◌&&◌, [], ◌∷◌, Result, nat_eq, string_eq, option_eq, contains,
  list_eq, pair_eq, nat_order, string_order, pair_order, list_order,
}
use scarcity_router.Scarcity.Assessment.{
  ScarcityState, ScarcityAssessment, reason_eq, reason_order, role_eq, label_eq, evidence_eq,
}
use scarcity_router.Policy.{
  UnknownCapacityMode, PolicyReason, policy_reason_eq, policy_reason_order, UnknownCapacityDecision,
}
use scarcity_router.Policy.Contract.{is_degraded_mode, new_unknown_capacity_decision}

-- `apply_unknown_capacity_mode`, by the state of the assessment.
unfoldable pub apply_to_state : UnknownCapacityMode → ScarcityState → Result UnknownCapacityDecision
unfolding new_unknown_capacity_decision
apply_to_state mode ScarcityState.known =
    new_unknown_capacity_decision (record {
      mode = mode;
      eligible_by_unknown_policy = true;
      degraded = false;
      reason_codes = [];
    })
apply_to_state mode ScarcityState.unavailable = new_unknown_capacity_decision (record {
  mode = mode;
  eligible_by_unknown_policy = false;
  degraded = false;
  reason_codes = PolicyReason.capacity_exhausted ∷ [];
})
apply_to_state UnknownCapacityMode.degraded ScarcityState.unknown =
    new_unknown_capacity_decision (record {
      mode = UnknownCapacityMode.degraded;
      eligible_by_unknown_policy = true;
      degraded = true;
      reason_codes = PolicyReason.unknown_capacity_degraded ∷ [];
    })
apply_to_state UnknownCapacityMode.strict ScarcityState.unknown =
    new_unknown_capacity_decision (record {
      mode = UnknownCapacityMode.strict;
      eligible_by_unknown_policy = false;
      degraded = false;
      reason_codes = PolicyReason.unknown_capacity_blocked ∷ [];
    })

-- `apply_unknown_capacity_mode`
unfoldable pub apply_unknown_capacity_mode :
    UnknownCapacityMode → ScarcityAssessment → Result UnknownCapacityDecision
unfolding apply_to_state
apply_unknown_capacity_mode mode assessment = apply_to_state mode assessment.state

-- Whether the policy lets a candidate through: never one without capacity, one of unknown capacity
-- only in the mode `degraded`, and always one of known capacity.
abbrev pub lets_through : UnknownCapacityMode → ScarcityState → Bool
lets_through mode ScarcityState.known = true
lets_through mode ScarcityState.unavailable = false
lets_through mode ScarcityState.unknown = is_degraded_mode mode

abbrev pub is_unknown_state : ScarcityState → Bool
is_unknown_state ScarcityState.unknown = true
is_unknown_state _ = false

-- In each mode and for an assessment of each state the decision is built, it lets the candidate
-- through just as `lets_through` says, and it is degraded just when it lets one of unknown capacity through.
pub apply_unknown_capacity_mode-total :
    (mode : UnknownCapacityMode) (a : ScarcityAssessment)
    → (d : UnknownCapacityDecision) × (apply_unknown_capacity_mode mode a ≡ ok d)
      × (d.mode ≡ mode)
      × (d.eligible_by_unknown_policy ≡ lets_through mode a.state)
      × (d.degraded ≡ (is_unknown_state a.state && lets_through mode a.state))
unfolding apply_unknown_capacity_mode contains
apply_unknown_capacity_mode-total mode a = by_state mode a.state
  where
    by_state :
        (m : UnknownCapacityMode) (s : ScarcityState)
        → (d : UnknownCapacityDecision) × (apply_to_state m s ≡ ok d)
          × (d.mode ≡ m)
          × (d.eligible_by_unknown_policy ≡ lets_through m s)
          × (d.degraded ≡ (is_unknown_state s && lets_through m s))
    by_state m ScarcityState.known = (_, refl, refl, refl, refl)
    by_state m ScarcityState.unavailable = (_, refl, refl, refl, refl)
    by_state UnknownCapacityMode.degraded ScarcityState.unknown = (_, refl, refl, refl, refl)
    by_state UnknownCapacityMode.strict ScarcityState.unknown = (_, refl, refl, refl, refl)
