-- ===== src/Policy/Reservation.antt =====
-- Reservation rules (policy.py): `ReservationRule` and `evaluate_reservation`.
use scarcity_router.Common.{
  ok, ℕ, min, String, Bool, true, false, not, ◌&&◌, Option, none, some, List, [], ◌∷◌, ltb, leb,
  if◌then◌else◌, Result, ◌==◌, nat_eq, string_eq, option_eq, list_eq, pair_eq, nat_order,
  string_order, pair_order, list_order, ◌>>=◌, ◌>>◌, guard,
}
use scarcity_router.Types.SafeId.{check_safe_id}
use scarcity_router.Types.Requirement.{TaskLevel, level_index}
use scarcity_router.Types.Contract.{all_new}
use scarcity_router.Capacity.{WindowResource, WindowKind, CapacityWindow, CapacitySnapshot}
use scarcity_router.Capacity.Contract.{
  resource_eq, kind_eq, resource_order, kind_order, diagnostic_eq, is_ok,
}
use scarcity_router.Scarcity.Bindings.{usable_remaining, snapshot_for}
use scarcity_router.Policy.{
  ReservationState, PolicyReason, policy_reason_eq, policy_reason_order, ReservationRule,
  ReservationDecision,
}
use scarcity_router.Policy.Contract.{new_reservation_decision}

-- `RESERVATION_RESOURCES`, `RESERVATION_WINDOW_KINDS`: no rule targets an unknown one.
abbrev is_concrete_resource : WindowResource → Bool
is_concrete_resource WindowResource.unknown = false
is_concrete_resource _ = true

abbrev is_concrete_kind : WindowKind → Bool
is_concrete_kind WindowKind.unknown = false
is_concrete_kind _ = true

-- `ReservationRule.__post_init__`
unfoldable pub check_reservation_rule : ReservationRule → Result ReservationRule
unfolding check_safe_id
check_reservation_rule r = do
  i ← check_safe_id r.rule_id
  guard (is_concrete_resource r.resource) "reservation_rule.resource"
  guard (is_concrete_kind r.kind) "reservation_rule.kind"
  guard (leb 1 r.when_remaining_below && leb r.when_remaining_below 100)
      "reservation_rule.when_remaining_below outside 1..100"
  ok r

-- The window that the rule names by scope, resource and kind.
abbrev pub is_target : ReservationRule → CapacityWindow → Bool
is_target rule w =
    w.scope_id == some rule.scope.scope_id && (w.resource == rule.resource && w.kind == rule.kind)

abbrev pub prepend : Option ℕ → Option (List ℕ) → Option (List ℕ)
prepend (some r) (some rs) = some (r ∷ rs)
prepend _ _ = none

-- The loop over the windows; `none` where it returns at one without percentages.
unfoldable pub remaining_values : ReservationRule → List CapacityWindow → Option (List ℕ)
remaining_values rule [] = some []
remaining_values rule (w ∷ ws) =
    let rest = remaining_values rule ws in
    if is_target rule w then prepend (usable_remaining w) rest else rest

-- `min(remaining_values)` of `r ∷ rs`.
unfoldable pub min_of : ℕ → List ℕ → ℕ
min_of r [] = r
min_of r (s ∷ rs) = min_of (min r s) rs

-- `_reservation_unknown`
unfoldable pub reservation_unknown : String → PolicyReason → Result ReservationDecision
unfolding new_reservation_decision
reservation_unknown rule_id reason = new_reservation_decision (record {
  rule_id = rule_id;
  state = ReservationState.unknown;
  triggered = none;
  blocked = none;
  evidence_remaining_percent = none;
  reason_codes = reason ∷ [];
})

abbrev pub reservation_codes : Bool → Bool → List PolicyReason
reservation_codes false blocked = []
reservation_codes true true =
    PolicyReason.reservation_triggered ∷ PolicyReason.reservation_blocked ∷ []
reservation_codes true false =
    PolicyReason.reservation_triggered ∷ PolicyReason.reservation_permitted_by_task_level ∷ []

-- The decision on the remaining percentage that governs.
unfoldable pub reservation_on : ReservationRule → TaskLevel → ℕ → Result ReservationDecision
unfolding new_reservation_decision
reservation_on rule level evidence_remaining =
    let triggered = ltb evidence_remaining rule.when_remaining_below in
    let blocked = triggered && ltb (level_index level) (level_index rule.minimum_task_level) in
    new_reservation_decision (record {
      rule_id = rule.rule_id;
      state = ReservationState.known;
      triggered = some triggered;
      blocked = some blocked;
      evidence_remaining_percent = some evidence_remaining;
      reason_codes = reservation_codes triggered blocked;
    })

abbrev pub decide_reservation :
    ReservationRule → TaskLevel → Option (List ℕ) → Result ReservationDecision
decide_reservation rule level none =
    reservation_unknown rule.rule_id PolicyReason.reservation_percentage_unknown
decide_reservation rule level (some []) =
    reservation_unknown rule.rule_id PolicyReason.reservation_window_missing
decide_reservation rule level (some (r ∷ rs)) = reservation_on rule level (min_of r rs)

abbrev pub reserve_snapshot :
    ReservationRule → TaskLevel → Option CapacitySnapshot → Result ReservationDecision
reserve_snapshot rule level none =
    reservation_unknown rule.rule_id PolicyReason.reservation_scope_snapshot_missing
reserve_snapshot rule level (some snapshot) =
    if not (is_ok snapshot.status)
    then reservation_unknown rule.rule_id PolicyReason.reservation_scope_snapshot_not_ok
    else decide_reservation rule level (remaining_values rule snapshot.windows)

-- `evaluate_reservation`
unfoldable pub evaluate_reservation :
    ReservationRule → List CapacitySnapshot → TaskLevel → Result ReservationDecision
unfolding all_new reservation_unknown remaining_values reservation_on min_of
evaluate_reservation rule snapshots level = do
  guard (all_new (λ (s : CapacitySnapshot). s.provider) [] snapshots) "duplicate provider snapshot"
  reserve_snapshot rule level (snapshot_for snapshots rule.scope.provider)
