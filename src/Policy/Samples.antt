-- ===== src/Policy/Samples.antt =====
-- The theorems on the policy, applied to a sample policy.
use scarcity_router.Common.{
  ok, ◌≡◌, refl, Bool, true, ◌&&◌, some, [], ◌∷◌, Permᴰ, arith, ltb, find, any, ◌==◌, nat_eq,
  string_eq, option_eq, list_eq, pair_eq, nat_order, string_order, pair_order, list_order,
}
use scarcity_router.Types.Identity.{identity_eq, scope_eq}
use scarcity_router.Types.Requirement.{l2}
use scarcity_router.Scarcity.Assessment.{
  ScarcityState, ScarcityReason, reason_eq, reason_order, role_eq, label_eq, evidence_eq,
}
use scarcity_router.Scarcity.Bindings.{unknown_assessment}
use scarcity_router.Scarcity.Applicable.{AreSnapshots}
use scarcity_router.Policy.{
  UnknownCapacityMode, ReplenishmentMode, policy_reason_eq, policy_reason_order,
  UnknownCapacityDecision, ReservationDecision, WeeklyRule, BlackoutDecision, HappyHourDecision,
  ReplenishmentDecision, UserPolicy, mon, tue,
}
use scarcity_router.Policy.Schedule.{weekday_eq, weekday_order, window_covers}
use scarcity_router.Policy.Rules.{applies, evaluate_blackouts, evaluate_happy_hours}
use scarcity_router.Policy.Unknown.{
  apply_unknown_capacity_mode, lets_through, is_unknown_state, apply_unknown_capacity_mode-total,
}
use scarcity_router.Policy.Reservation.{evaluate_reservation}
use scarcity_router.Policy.Preservation.Outcome.{ReservationOutcome}
use scarcity_router.Policy.Preservation.{evaluate_reservation-total}
use scarcity_router.Policy.Replenishment.{apply_replenishment_mode}
use scarcity_router.Policy.User.{check_user_policy}
use scarcity_router.Policy.Visibility.{IsVisibility, apply_replenishment_mode-total}
use scarcity_router.Policy.Windows.{elapsed, window_length, window_covers-elapsed}
use scarcity_router.Policy.FirstRule.{
  Evaluates, HaveSafeIds, names_of, evaluate_blackouts-first, evaluate_happy_hours-first,
}
use scarcity_router.Policy.Storage.{check_user_policy-canonical}
use scarcity_router.Samples.{
  luna, codex, snapshot, reserve_rule, night_rule, day_rule, user_policy, monday_morning, zones,
  credit,
}
use scarcity_router.Types.SafeId.{is_safe_id}

snapshots : AreSnapshots (snapshot ∷ [])
snapshots = record { valid = ((refl, (refl, tt)), tt); distinct = (tt, tt) }

rule_id : is_safe_id "keep-five" ≡ true
unfolding is_safe_id
rule_id = refl

evaluate_reservation-total_example :
    (d : ReservationDecision) × (evaluate_reservation reserve_rule (snapshot ∷ []) l2 ≡ ok d)
    × ReservationOutcome reserve_rule (snapshot ∷ []) l2 d
evaluate_reservation-total_example =
    evaluate_reservation-total reserve_rule (snapshot ∷ []) l2 rule_id snapshots

apply_unknown_capacity_mode-total_example :
    (d : UnknownCapacityDecision) × (apply_unknown_capacity_mode UnknownCapacityMode.strict
        (unknown_assessment (ScarcityReason.missing_provider_snapshot ∷ []) (codex ∷ []))
      ≡ ok d)
    × (d.mode ≡ UnknownCapacityMode.strict)
    × (d.eligible_by_unknown_policy ≡ lets_through UnknownCapacityMode.strict ScarcityState.unknown)
    × (d.degraded ≡ (
        is_unknown_state ScarcityState.unknown
        && lets_through UnknownCapacityMode.strict ScarcityState.unknown))
apply_unknown_capacity_mode-total_example =
    apply_unknown_capacity_mode-total UnknownCapacityMode.strict
      (unknown_assessment (ScarcityReason.missing_provider_snapshot ∷ []) (codex ∷ []))

apply_replenishment_mode-total_example :
    (d : ReplenishmentDecision) × (apply_replenishment_mode ReplenishmentMode.recoverable
        (some credit)
      ≡ ok d)
    × IsVisibility ReplenishmentMode.recoverable (some credit) d
apply_replenishment_mode-total_example =
    apply_replenishment_mode-total ReplenishmentMode.recoverable (some credit)

window_covers-elapsed_example :
    window_covers (mon ∷ tue ∷ []) 1320 360 monday_morning
    ≡ any (λ d. ltb (elapsed d 1320 monday_morning) (window_length 1320 360)) (mon ∷ tue ∷ [])
window_covers-elapsed_example =
    window_covers-elapsed (mon ∷ tue ∷ []) 1320 360 monday_morning (omega arith) (omega arith)
      (record { hours = omega arith; minutes = omega arith })

abbrev is_day_rule : WeeklyRule → Bool
is_day_rule r = r.rule_id == "campaign"

day_rule_hits : Evaluates zones luna 0 is_day_rule (day_rule ∷ [])
unfolding applies
day_rule_hits = (refl, tt)

day_rule_ids : HaveSafeIds (day_rule ∷ [])
unfolding is_safe_id
day_rule_ids = ((refl, refl), tt)

evaluate_blackouts-first_example :
    (d : BlackoutDecision) × (evaluate_blackouts zones (day_rule ∷ []) luna 0 ≡ ok d)
    × (d.blocked ≡ any is_day_rule (day_rule ∷ []))
    × ((d.rule_id, d.reason_code) ≡ names_of (find is_day_rule (day_rule ∷ [])))
evaluate_blackouts-first_example =
    evaluate_blackouts-first zones (day_rule ∷ []) luna 0 is_day_rule day_rule_hits day_rule_ids

evaluate_happy_hours-first_example :
    (d : HappyHourDecision) × (evaluate_happy_hours zones (day_rule ∷ []) luna 0 ≡ ok d)
    × (d.preferred ≡ any is_day_rule (day_rule ∷ []))
    × ((d.rule_id, d.reason_code) ≡ names_of (find is_day_rule (day_rule ∷ [])))
evaluate_happy_hours-first_example =
    evaluate_happy_hours-first zones (day_rule ∷ []) luna 0 is_day_rule day_rule_hits day_rule_ids

abbrev second_rule : WeeklyRule
second_rule = record night_rule { rule_id = "evening" }

abbrev two_rules : UserPolicy
two_rules = record user_policy { blackouts = night_rule ∷ second_rule ∷ [] }

abbrev two_rules_swapped : UserPolicy
two_rules_swapped = record user_policy { blackouts = second_rule ∷ night_rule ∷ [] }

two_rules_stored : check_user_policy two_rules ≡ ok two_rules_swapped
unfolding check_user_policy
two_rules_stored = refl

swapped_stored : check_user_policy two_rules_swapped ≡ ok two_rules_swapped
unfolding check_user_policy
swapped_stored = refl

check_user_policy-canonical_example : two_rules_swapped ≡ two_rules_swapped
check_user_policy-canonical_example =
    check_user_policy-canonical two_rules two_rules_swapped two_rules_swapped two_rules_swapped
      two_rules_stored swapped_stored refl refl refl
      (Permᴰ.cons refl Permᴰ.nil, Permᴰ.swap refl refl, Permᴰ.cons refl Permᴰ.nil)
