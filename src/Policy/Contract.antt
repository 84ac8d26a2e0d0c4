-- ===== src/Policy/Contract.antt =====
-- The `__post_init__` checks of the decisions of policy.py.
use scarcity_router.Common.{
  ℕ, String, Bool, true, false, not, ◌&&◌, ◌||◌, Option, some, List, [], ◌∷◌, ltb, leb,
  if◌then◌else◌, is_some, all, is_empty, sorted, Result, err, ◌==◌, nat_eq, string_eq, option_eq,
  contains, list_eq, pair_eq, nat_order, string_order, pair_order, list_order, ◌>>◌, ◌>>=◌, guard,
  ok,
}
use scarcity_router.Types.SafeId.{codes, check_safe_id}
use scarcity_router.Types.Contract.{all_new}
use scarcity_router.Policy.{
  UnknownCapacityMode, ReplenishmentMode, ReservationState, PolicyReason, policy_reason_eq,
  policy_reason_order, UnknownCapacityDecision, ReservationDecision, BlackoutDecision,
  HappyHourDecision, ReplenishmentDecision,
}

-- `_v_reason_codes`: no code twice, stored sorted.
unfoldable pub check_policy_codes : List PolicyReason → Result (List PolicyReason)
unfolding all_new sorted
check_policy_codes codes = do
  guard (all_new (λ (c : PolicyReason). c) [] codes) "duplicate reason code"
  ok (sorted (λ (c : PolicyReason). c) codes)

abbrev pub is_degraded_mode : UnknownCapacityMode → Bool
is_degraded_mode UnknownCapacityMode.degraded = true
is_degraded_mode UnknownCapacityMode.strict = false

abbrev names_block : List PolicyReason → Bool
names_block codes =
    contains codes PolicyReason.unknown_capacity_blocked
    || contains codes PolicyReason.capacity_exhausted

-- `UnknownCapacityDecision(...)`
unfoldable pub new_unknown_capacity_decision :
    UnknownCapacityDecision → Result UnknownCapacityDecision
unfolding check_policy_codes contains
new_unknown_capacity_decision d = do
  codes ← check_policy_codes d.reason_codes
  if d.degraded
      then (do
        guard (is_degraded_mode d.mode && d.eligible_by_unknown_policy)
            "degraded=True requires the degraded mode and eligibility"
        guard (codes == (PolicyReason.unknown_capacity_degraded ∷ []))
            "degraded=True requires exactly the 'unknown_capacity_degraded' reason code")
      else if d.eligible_by_unknown_policy
      then guard (is_empty codes) "plain eligibility carries no reason codes"
      else guard (not (is_empty codes) && names_block codes)
          "ineligibility requires the 'unknown_capacity_blocked' or 'capacity_exhausted' reason code"
  ok (record d { reason_codes = codes })

-- `_UNKNOWN_CODES`
abbrev is_unknown_code : PolicyReason → Bool
is_unknown_code PolicyReason.reservation_scope_snapshot_missing = true
is_unknown_code PolicyReason.reservation_scope_snapshot_not_ok = true
is_unknown_code PolicyReason.reservation_window_missing = true
is_unknown_code PolicyReason.reservation_percentage_unknown = true
is_unknown_code _ = false

-- `_KNOWN_CODES`
abbrev is_known_code : PolicyReason → Bool
is_known_code PolicyReason.reservation_triggered = true
is_known_code PolicyReason.reservation_blocked = true
is_known_code PolicyReason.reservation_permitted_by_task_level = true
is_known_code _ = false

-- The state `known` with its two flags and its percentage.
unfoldable pub check_known_reservation : Bool → Bool → ℕ → List PolicyReason → Result (Unit {0})
unfolding contains
check_known_reservation triggered blocked evidence codes = do
  guard (leb evidence 100) "evidence_remaining_percent outside 0..100"
  guard (all is_known_code codes) "known state requires known-cause reason codes"
  if not triggered
      then (do
        guard (not blocked) "blocked=True requires a triggered reservation"
        guard (is_empty codes) "an untriggered reservation carries no reason codes")
      else (do
        guard (contains codes PolicyReason.reservation_triggered)
            "triggered=True requires the 'reservation_triggered' reason code"
        if blocked
            then guard (contains codes PolicyReason.reservation_blocked)
                "blocked=True requires the 'reservation_blocked' reason code"
            else (do
              guard (not (contains codes PolicyReason.reservation_blocked))
                  "blocked=False must not carry the 'reservation_blocked' reason code"
              guard (contains codes PolicyReason.reservation_permitted_by_task_level)
                  "a triggered, permitted reservation requires its reason code"))

abbrev check_known_fields :
    Option Bool → Option Bool → Option ℕ → List PolicyReason → Result (Unit {0})
check_known_fields (some triggered) (some blocked) (some evidence) codes =
    check_known_reservation triggered blocked evidence codes
check_known_fields _ _ _ codes = err "expected bool, bool and int"

abbrev check_reservation_state :
    ReservationDecision → List PolicyReason → ReservationState → Result (Unit {0})
check_reservation_state d codes ReservationState.unknown = do
  guard
      (not (is_some d.triggered || is_some d.blocked) && not (is_some d.evidence_remaining_percent))
      "unknown state must not carry a triggered/blocked/percentage value"
  guard (not (is_empty codes) && all is_unknown_code codes)
      "unknown state requires at least one unknown-cause reason code"
check_reservation_state d codes ReservationState.known =
    check_known_fields d.triggered d.blocked d.evidence_remaining_percent codes

-- `ReservationDecision(...)`
unfoldable pub new_reservation_decision : ReservationDecision → Result ReservationDecision
unfolding check_safe_id check_policy_codes check_known_reservation
new_reservation_decision d = do
  i ← check_safe_id d.rule_id
  codes ← check_policy_codes d.reason_codes
  check_reservation_state d codes d.state
  ok (record d { reason_codes = codes })

abbrev check_named : Option String → Option String → Result (Unit {0})
check_named (some rule_id) (some reason_code) = do
  i ← check_safe_id rule_id
  r ← check_safe_id reason_code
  ok tt
check_named _ _ = err "must name the matching rule and its reason code"

-- `BlackoutDecision(...)`
unfoldable pub new_blackout_decision : BlackoutDecision → Result BlackoutDecision
unfolding check_policy_codes check_safe_id
new_blackout_decision d = do
  codes ← check_policy_codes d.reason_codes
  if d.blocked
      then (do
        check_named d.rule_id d.reason_code
        guard (codes == (PolicyReason.policy_blocked ∷ []))
            "blocked=True requires exactly the 'policy_blocked' reason code")
      else (do
        guard (not (is_some d.rule_id || is_some d.reason_code)) "no block must not name a rule"
        guard (is_empty codes) "no block carries no reason codes")
  ok (record d { reason_codes = codes })

-- `HappyHourDecision(...)`
unfoldable pub new_happy_hour_decision : HappyHourDecision → Result HappyHourDecision
unfolding check_safe_id
new_happy_hour_decision d = do
  if d.preferred
      then check_named d.rule_id d.reason_code
      else guard (not (is_some d.rule_id || is_some d.reason_code))
          "no preference must not name a rule"
  ok d

-- `_RECOVERABLE_CODES`
abbrev pub recoverable_codes : List PolicyReason
recoverable_codes =
    PolicyReason.human_action_required ∷ PolicyReason.replenishment_available
    ∷ PolicyReason.replenishment_recoverable ∷ []

-- `_AVAILABLE_CODES`
abbrev pub available_codes : List PolicyReason
available_codes = PolicyReason.replenishment_available ∷ []

abbrev is_recoverable_mode : ReplenishmentMode → Bool
is_recoverable_mode ReplenishmentMode.recoverable = true
is_recoverable_mode _ = false

abbrev same : Bool → Bool → Bool
same true b = b
same false b = not b

abbrev check_visible :
    ReplenishmentDecision → List PolicyReason → Option ℕ → Option Bool → Result (Unit {0})
check_visible d codes (some available_count) (some _) = do
  guard (same d.recoverable d.human_action_required)
      "recoverable and human_action_required always agree"
  if d.recoverable
      then (do
        guard (is_recoverable_mode d.mode && ltb 0 available_count)
            "recoverable requires the recoverable mode and a positive available count"
        guard (codes == recoverable_codes)
            "recoverable requires exactly the recoverable reason codes")
      else if ltb 0 available_count
      then guard (codes == available_codes)
          "visible available replenishment requires exactly its reason code"
      else guard (is_empty codes) "a visible zero available count carries no reason codes"
check_visible d codes _ _ = err "expected int and bool"

-- `ReplenishmentDecision(...)`
unfoldable pub new_replenishment_decision : ReplenishmentDecision → Result ReplenishmentDecision
unfolding check_policy_codes
new_replenishment_decision d = do
  codes ← check_policy_codes d.reason_codes
  if not d.visible
      then (do
        guard (not (is_some d.available_count || is_some d.details_known))
            "an invisible decision carries no availability facts"
        guard (not (d.recoverable || d.human_action_required))
            "an invisible decision is never recoverable"
        guard (is_empty codes) "an invisible decision carries no reason codes")
      else check_visible d codes d.available_count d.details_known
  ok (record d { reason_codes = codes })
