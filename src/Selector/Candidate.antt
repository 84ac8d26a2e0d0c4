-- ===== src/Selector/Candidate.antt =====
-- The checks of `SelectorPolicy` and of `CandidateEvaluation` (selector.py), and of
-- `ExecutionEligibility` (eligibility.py).
use scarcity_router.Common.{
  ℕ, String, Bool, true, false, not, ◌&&◌, ◌||◌, Option, none, some, List, [], leb, eqb,
  if◌then◌else◌, is_some, any, all, is_empty, sorted, Result, ◌==◌, nat_eq, string_eq, option_eq,
  list_eq, pair_eq, nat_order, string_order, pair_order, list_order, ok, ◌>>◌, guard, ◌>>=◌,
}
use scarcity_router.Types.SafeId.{codes, check_safe_id}
use scarcity_router.Types.Calendar.{check_ts}
use scarcity_router.Types.Identity.{identity_key, identity_eq, scope_eq}
use scarcity_router.Types.Contract.{all_new}
use scarcity_router.Scarcity.Assessment.{
  ScarcityAssessment, reason_eq, reason_order, role_eq, label_eq, evidence_eq, is_known,
}
use scarcity_router.Policy.{policy_reason_eq, policy_reason_order, UnknownCapacityDecision}
use scarcity_router.Selector.{
  Stage, stage_eq, SelectionReason, selection_reason_eq, selection_reason_order, SelectorPolicy,
  EligibilityState, ExecutionEligibility, CandidateEvaluation,
}

abbrev check_floor : Option ℕ → Result (Unit {0})
check_floor none = ok tt
check_floor (some n) = guard (leb n 100) "short_window_floor_percent outside 0..100"

-- `SelectorPolicy.__post_init__`
unfoldable pub check_selector_policy : SelectorPolicy → Result SelectorPolicy
unfolding all_new
check_selector_policy p = do
  check_floor p.short_window_floor_percent
  guard (all_new identity_key [] p.preference_order) "preference_order: duplicate entry"
  ok p

-- `resolved_short_window_floor`, with `DEFAULT_SHORT_WINDOW_FLOOR_PERCENT` 10
abbrev pub resolved_short_window_floor : SelectorPolicy → ℕ
resolved_short_window_floor p = elim p.short_window_floor_percent [ none ↦ 10 | some n ↦ n ]

abbrev pub is_eligible_state : EligibilityState → Bool
is_eligible_state EligibilityState.eligible = true
is_eligible_state _ = false

-- `ExecutionEligibility.__post_init__`; `is_reason` is membership in `ELIGIBILITY_REASON_CODES`.
unfoldable pub check_eligibility :
    (String → Bool) → ExecutionEligibility → Result ExecutionEligibility
unfolding check_safe_id check_ts all_new sorted
check_eligibility is_reason r = do
  guard (eqb r.schema_version 1) "schema_version"
  p ← check_safe_id r.provider
  s ← check_safe_id r.source
  check_ts r.retrieved_at
  guard (all is_reason r.reason_codes) "reason_codes.code"
  guard (all_new (λ (c : String). c) [] r.reason_codes) "duplicate reason codes are not permitted"
  guard (sorted (λ (c : String). c) r.reason_codes == r.reason_codes)
      "must be deterministically sorted"
  guard (not (is_eligible_state r.state && not (is_empty r.reason_codes)))
      "state 'eligible' must not carry reason codes"
  guard (is_eligible_state r.state || not (is_empty r.reason_codes))
      "state requires at least one reason code"
  ok r

-- `_v_selection_reason_codes`
unfoldable pub check_selection_codes : List SelectionReason → Result (List SelectionReason)
unfolding all_new sorted
check_selection_codes codes = do
  guard (all_new (λ (c : SelectionReason). c) [] codes) "duplicate reason code"
  ok (sorted (λ (c : SelectionReason). c) codes)

-- `_STAGE_REASONS`: the stage whose primary code it is.
abbrev pub stage_of_reason : SelectionReason → Option Stage
stage_of_reason SelectionReason.execution_allowance_unavailable = some Stage.execution
stage_of_reason SelectionReason.execution_policy_blocked = some Stage.execution
stage_of_reason SelectionReason.execution_unverified = some Stage.execution
stage_of_reason SelectionReason.policy_blocked = some Stage.policy_blackout
stage_of_reason SelectionReason.hard_constraint_failed = some Stage.hard_constraint
stage_of_reason SelectionReason.capability_failed = some Stage.capability
stage_of_reason SelectionReason.capacity_unavailable = some Stage.capacity
stage_of_reason SelectionReason.capacity_unknown_blocked = some Stage.capacity
stage_of_reason SelectionReason.reservation_blocked = some Stage.reservation
stage_of_reason SelectionReason.reservation_unknown = some Stage.reservation
stage_of_reason _ = none

abbrev is_primary : Stage → SelectionReason → Bool
is_primary stage code = stage_of_reason code == some stage

abbrev check_execution : CandidateEvaluation → Result (Unit {0})
check_execution e = elim e.execution_eligibility [
  | none ↦ ok tt
  | some _ ↦
      guard (e.exclusion_stage == some Stage.execution)
        "execution_eligibility is carried only on execution-stage exclusions"
]

abbrev pub check_happy_hour : CandidateEvaluation → Result (Unit {0})
check_happy_hour e = elim e.happy_hour_decision [
  | none ↦ ok tt
  | some d ↦
      guard (d.preferred && e.eligible)
        "happy_hour_decision is carried only for eligible preferred candidates"
]

abbrev pub has_tactical : Option ScarcityAssessment → Bool
has_tactical none = false
has_tactical (some a) = is_known a.state && is_some a.tactical_window

abbrev pub check_short_window : CandidateEvaluation → Result (Unit {0})
check_short_window e =
    if e.short_window_below_floor
    then (do
      guard e.eligible "short_window_below_floor is an advisory for eligible candidates only"
      guard (has_tactical e.scarcity_assessment)
          "short_window_below_floor requires known capacity with tactical evidence")
    else ok tt

abbrev is_degraded_decision : Option UnknownCapacityDecision → Bool
is_degraded_decision none = false
is_degraded_decision (some d) = d.degraded

abbrev check_excluded : CandidateEvaluation → Stage → Result CandidateEvaluation
check_excluded e stage = do
  guard (not e.eligible) "an eligible candidate must not carry an exclusion_stage"
  codes ← check_selection_codes e.reason_codes
  guard (not (is_empty codes)) "an excluded candidate requires at least one reason code"
  guard (any (is_primary stage) codes) "reason codes carry no primary code for the exclusion stage"
  ok (record e { reason_codes = codes })

abbrev check_eligible : CandidateEvaluation → Result CandidateEvaluation
check_eligible e = do
  guard e.eligible "an excluded candidate requires an exclusion_stage"
  guard (is_empty e.reason_codes) "an eligible candidate carries no reason codes"
  guard (is_empty e.hard_constraint_failures && is_empty e.capability_failures)
      "an eligible candidate carries no failure records"
  ok e

abbrev by_stage : CandidateEvaluation → Option Stage → Result CandidateEvaluation
by_stage e none = check_eligible e
by_stage e (some stage) = check_excluded e stage

-- `CandidateEvaluation(...)`
unfoldable pub new_evaluation : CandidateEvaluation → Result CandidateEvaluation
unfolding check_selection_codes
new_evaluation e = do
  guard (not (e.display_name == "")) "display_name: must be non-empty"
  check_execution e
  check_happy_hour e
  check_short_window e
  guard (not e.degraded || is_degraded_decision e.unknown_capacity_decision)
      "degraded=True requires a degraded unknown-capacity decision"
  by_stage e e.exclusion_stage
