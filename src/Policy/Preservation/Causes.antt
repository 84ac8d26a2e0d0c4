-- ===== src/Policy/Preservation/Causes.antt =====
-- The reservation on a snapshot and the causes of not knowing (policy.py `evaluate_reservation`).
use scarcity_router.Common.{
  ok, ℕ, ◌≤◌, ◌≡◌, refl, Bool, true, false, ◌&&◌, none, some, [], ◌∷◌, arith, ltb, leb, All, sorted,
  nat_eq, string_eq, option_eq, contains, list_eq, pair_eq, nat_order, string_order, pair_order,
  list_order,
}
use scarcity_router.Types.SafeId.{is_safe_id, check_safe_id}
use scarcity_router.Types.Requirement.{TaskLevel, level_index}
use scarcity_router.Capacity.Contract.{
  resource_eq, kind_eq, resource_order, kind_order, diagnostic_eq,
}
use scarcity_router.Policy.{
  ReservationState, PolicyReason, policy_reason_eq, policy_reason_order, ReservationRule,
  ReservationDecision,
}
use scarcity_router.Policy.Contract.{new_reservation_decision}
use scarcity_router.Policy.Reservation.{reservation_codes, reservation_on, reservation_unknown}

pub reservation_on-ok :
    (rule : ReservationRule) (level : TaskLevel) (r : ℕ)
    → is_safe_id rule.rule_id ≡ true
    → r ≤ 100
    → (d : ReservationDecision) × (reservation_on rule level r ≡ ok d)
      × (d.state ≡ ReservationState.known)
      × (d.evidence_remaining_percent ≡ some r)
      × (d.triggered ≡ some (ltb r rule.when_remaining_below))
      × (d.blocked
          ≡ some (
              ltb r rule.when_remaining_below
              && ltb (level_index level) (level_index rule.minimum_task_level)))
unfolding reservation_on check_safe_id contains
reservation_on-ok rule level r h k =
    by_flags (ltb r rule.when_remaining_below)
      (ltb (level_index level) (level_index rule.minimum_task_level))
  where
    within : leb r 100 ≡ true
    within = ground arith

    built : Bool → Bool → ReservationDecision
    built t b = record {
      rule_id = rule.rule_id;
      state = ReservationState.known;
      triggered = some t;
      blocked = some b;
      evidence_remaining_percent = some r;
      reason_codes = reservation_codes t b;
    }

    stored_codes : ReservationDecision → ReservationDecision
    stored_codes d = record d { reason_codes = sorted (λ (c : PolicyReason). c) d.reason_codes }

    by_flags :
        (t b : Bool)
        → (d : ReservationDecision) × (new_reservation_decision (built t (t && b)) ≡ ok d)
          × (d.state ≡ ReservationState.known)
          × (d.evidence_remaining_percent ≡ some r)
          × (d.triggered ≡ some t)
          × (d.blocked ≡ some (t && b))
    by_flags false b = (built false false, rw (h, within) refl, refl, refl, refl, refl)
    by_flags true false =
        (stored_codes (built true false), rw (h, within) refl, refl, refl, refl, refl)
    by_flags true true =
        (stored_codes (built true true), rw (h, within) refl, refl, refl, refl, refl)

abbrev pub unknown_of : ReservationRule → PolicyReason → ReservationDecision
unknown_of rule reason = record {
  rule_id = rule.rule_id;
  state = ReservationState.unknown;
  triggered = none;
  blocked = none;
  evidence_remaining_percent = none;
  reason_codes = reason ∷ [];
}

-- Each of the four causes makes a decision that passes the checks.
pub causes :
    (rule : ReservationRule)
    → is_safe_id rule.rule_id ≡ true
    → All
        (λ c. reservation_unknown rule.rule_id c ≡ ok (unknown_of rule c))
        (PolicyReason.reservation_percentage_unknown ∷ PolicyReason.reservation_window_missing
          ∷ PolicyReason.reservation_scope_snapshot_missing
          ∷ PolicyReason.reservation_scope_snapshot_not_ok ∷ [])
unfolding reservation_unknown check_safe_id contains
causes rule h = (rw h refl, (rw h refl, (rw h refl, (rw h refl, tt))))
