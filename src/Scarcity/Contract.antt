-- ===== src/Scarcity/Contract.antt =====
-- `ScarcityAssessment.__post_init__` (scarcity.py), a function for each state.
use scarcity_router.Common.{
  ℕ, Bool, true, false, not, ◌&&◌, ◌||◌, Option, none, some, List, [], ◌∷◌, ltb, eqb, if◌then◌else◌,
  is_some, is_empty, sorted, Result, err, ◌==◌, nat_eq, string_eq, option_eq, contains, list_eq,
  pair_eq, nat_order, string_order, pair_order, list_order, ◌>>◌, ok, ◌>>=◌, guard,
}
use scarcity_router.Types.SafeId.{codes}
use scarcity_router.Types.Identity.{scope_key, identity_eq, scope_eq}
use scarcity_router.Types.Contract.{all_new}
use scarcity_router.Capacity.Contract.{
  resource_eq, kind_eq, resource_order, kind_order, diagnostic_eq,
}
use scarcity_router.Scarcity.Measure.{WindowRole, strategic, tactical, ScarcityLabel}
use scarcity_router.Scarcity.Measure.{
  window_role, blended_effective_remaining_percent, scarcity_penalty_units, scarcity_label,
}
use scarcity_router.Scarcity.Assessment.{
  ScarcityState, ScarcityReason, GoverningWindowEvidence, ScarcityAssessment, reason_eq,
  reason_order, role_eq, label_eq, evidence_eq, known, capacity_bindings_unknown,
  capacity_exhausted,
}

-- `_v_reason_codes`: no code twice, stored sorted.
unfoldable pub check_reason_codes : List ScarcityReason → Result (List ScarcityReason)
unfolding all_new sorted
check_reason_codes codes = do
  guard (all_new (λ (c : ScarcityReason). c) [] codes) "duplicate reason code"
  ok (sorted (λ (c : ScarcityReason). c) codes)

-- Unknown applicability and unknown telemetry never mix.
unfoldable pub check_applicability : ScarcityAssessment → Result (Unit {0})
unfolding contains
check_applicability a =
    if contains a.reason_codes capacity_bindings_unknown
    then (do
      guard (a.reason_codes == (capacity_bindings_unknown ∷ []))
          "unknown applicability carries exactly the 'capacity_bindings_unknown' reason code"
      guard (is_empty a.applicable_scopes)
          "unknown applicability has no normalized applicable scopes")
    else guard (not (is_empty a.applicable_scopes))
        "unknown telemetry requires at least one applicable scope"

-- The state `unknown` has no number and no window.
unfoldable pub check_unknown : ScarcityAssessment → Result (Unit {0})
unfolding check_applicability contains
check_unknown a = do
  guard (not (is_some a.penalty_units || is_some a.effective_remaining_percent))
      "unknown state must not carry a numeric penalty or effective remaining"
  guard (not (is_some a.governing_window)) "unknown state has no governing window evidence"
  guard (not (is_some a.strategic_window || is_some a.tactical_window))
      "unknown state has no role window evidence"
  guard (a.label == ScarcityLabel.unknown) "unknown state requires the exact label 'unknown'"
  guard (not (is_empty a.reason_codes)) "unknown state requires at least one reason code"
  guard (not (contains a.reason_codes capacity_exhausted))
      "unknown state must not claim capacity_exhausted"
  check_applicability a

abbrev pub has_role : WindowRole → GoverningWindowEvidence → Bool
has_role role g = window_role g.resource g.kind == role

abbrev pub check_role : WindowRole → Option GoverningWindowEvidence → Result (Unit {0})
check_role role none = ok tt
check_role role (some g) = guard (has_role role g) "the window is not of its role"

abbrev pub remaining_of : Option GoverningWindowEvidence → Option ℕ
remaining_of none = none
remaining_of (some g) = some g.remaining_percent

-- The strategic representative when there is one, else the tactical one.
abbrev pub governing_of :
    Option GoverningWindowEvidence → Option GoverningWindowEvidence → Option GoverningWindowEvidence
governing_of (some s) tactical_window = some s
governing_of none tactical_window = tactical_window

-- The numeric fields agree with one another: penalty and label are those of the effective remaining.
unfoldable pub check_numbers : ScarcityAssessment → ℕ → Result (Unit {0})
unfolding scarcity_penalty_units scarcity_label
check_numbers a effective = do
  expected_penalty ← scarcity_penalty_units effective
  guard (a.penalty_units == some expected_penalty) "penalty_units does not equal the frozen penalty"
  expected_label ← scarcity_label effective
  guard (a.label == expected_label) "label does not equal the frozen label"

-- The evidence of the state `unavailable`.
unfoldable pub check_unavailable :
    ScarcityAssessment → ℕ → GoverningWindowEvidence → Result (Unit {0})
unfolding contains
check_unavailable a effective governing = do
  guard (not (is_some a.strategic_window) && not (is_some a.tactical_window))
      "the unavailable state carries no role window evidence"
  guard (eqb governing.remaining_percent effective)
      "governing window remaining does not match effective remaining"
  guard (not (is_empty a.applicable_scopes))
      "a numeric state requires at least one applicable scope"
  guard (contains a.applicable_scopes governing.scope)
      "governing window scope must belong to the applicable scopes"
  guard (eqb effective 0) "state 'unavailable' requires effective remaining 0"
  guard (contains a.reason_codes capacity_exhausted)
      "state 'unavailable' requires the 'capacity_exhausted' reason code"

-- The evidence of the state `known`.
unfoldable pub check_known : ScarcityAssessment → ℕ → GoverningWindowEvidence → Result (Unit {0})
unfolding contains blended_effective_remaining_percent
check_known a effective governing = do
  guard (is_some a.strategic_window || is_some a.tactical_window)
      "a known assessment carries the role window evidence of at least one role"
  guard (some governing == governing_of a.strategic_window a.tactical_window)
      "governing_window must equal the strategic representative when one exists, else the tactical"
  expected_effective ←
      blended_effective_remaining_percent (remaining_of a.tactical_window)
        (remaining_of a.strategic_window)
  guard (eqb effective expected_effective)
      "effective remaining does not equal the frozen blend of the role representatives"
  guard (is_some a.strategic_window || eqb governing.remaining_percent effective)
      "governing window remaining does not match effective remaining"
  guard (not (is_empty a.applicable_scopes))
      "a numeric state requires at least one applicable scope"
  guard (contains a.applicable_scopes governing.scope)
      "governing window scope must belong to the applicable scopes"
  guard (ltb 0 effective) "state 'known' requires a nonzero effective remaining"
  guard (is_empty a.reason_codes) "a fully known state carries no reason codes"

abbrev pub check_by_state :
    ScarcityAssessment → ℕ → GoverningWindowEvidence → ScarcityState → Result (Unit {0})
check_by_state a effective governing ScarcityState.unavailable =
    check_unavailable a effective governing
check_by_state a effective governing known = check_known a effective governing
check_by_state a effective governing ScarcityState.unknown = ok tt

-- The states `known` and `unavailable`.
unfoldable pub check_numeric : ScarcityAssessment → Result (Unit {0})
unfolding check_numbers check_unavailable check_known
check_numeric a = elim a.effective_remaining_percent [
  | none ↦ err "effective_remaining_percent: expected int"
  | some effective ↦ do
    check_numbers a effective
    elim a.governing_window [
      | none ↦ err "governing_window: expected a GoverningWindowEvidence"
      | some governing ↦ do
        check_role strategic a.strategic_window
        check_role tactical a.tactical_window
        check_by_state a effective governing a.state
    ]
]

abbrev pub is_unknown : ScarcityState → Bool
is_unknown ScarcityState.unknown = true
is_unknown _ = false

-- `ScarcityAssessment(...)`: scopes and codes are stored sorted, and the state is checked.
unfoldable pub new_assessment : ScarcityAssessment → Result ScarcityAssessment
unfolding check_reason_codes check_unknown check_numeric sorted
new_assessment a = do
  codes ← check_reason_codes a.reason_codes
  let stored = record a {
    reason_codes = codes;
    applicable_scopes = sorted scope_key a.applicable_scopes;
  }
  if is_unknown a.state then check_unknown stored else check_numeric stored
  ok stored
