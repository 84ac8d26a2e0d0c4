-- ===== src/Selector/Decision.antt =====
-- `SelectionDecision.__post_init__` (selector.py).
use scarcity_router.Common.{
  ok, ℕ, String, Bool, true, false, not, ◌&&◌, ◌||◌, Option, none, some, List, [], leb, is_some,
  all, is_empty, sorted, Result, guard, err, ◌==◌, nat_eq, string_eq, option_eq, contains, list_eq,
  pair_eq, nat_order, string_order, pair_order, list_order, ◌>>◌, ◌>>=◌,
}
use scarcity_router.Types.Identity.{identity_key, identity_eq, scope_eq}
use scarcity_router.Types.Contract.{all_new}
use scarcity_router.Selector.{
  stage_eq, SelectionReason, selection_reason_eq, selection_reason_order, CandidateEvaluation,
  SelectionDecision,
}
use scarcity_router.Selector.Candidate.{check_selection_codes}

abbrev pub check_catalog_fields : Option ℕ → Option String → Result (Unit {0})
check_catalog_fields none none = ok tt
check_catalog_fields none (some date) = err "runtime inventory has no catalog update date"
check_catalog_fields (some version) none = err "catalog_updated_on: expected str"
check_catalog_fields (some version) (some date) = do
  guard (leb 1 version) "catalog_version below 1"
  guard (not (date == "")) "catalog_updated_on: must be non-empty"

-- `_SELECTED_CODES`
abbrev is_selected_code : SelectionReason → Bool
is_selected_code SelectionReason.selected_balanced = true
is_selected_code SelectionReason.selected_degraded_capacity = true
is_selected_code _ = false

abbrev same_flag : Bool → Bool → Bool
same_flag true b = b
same_flag false b = not b

abbrev pub is_excluded : CandidateEvaluation → Bool
is_excluded c = not c.eligible

abbrev pub check_selection :
    SelectionDecision → List SelectionReason → Option CandidateEvaluation → Result (Unit {0})
check_selection d codes none = do
  guard (is_empty d.alternatives) "a no-solution result has no alternatives"
  guard (not d.degraded) "a no-solution result is not degraded"
  guard (contains codes SelectionReason.no_eligible_candidate)
      "a no-solution result requires the 'no_eligible_candidate' reason code"
check_selection d codes (some s) = do
  guard (contains codes SelectionReason.selected_balanced)
      "a selection requires the 'selected_balanced' reason code"
  guard (all is_selected_code codes) "a selection carries no exclusion reason codes"
  guard (same_flag d.degraded s.degraded) "degraded must mirror the selected candidate"
  guard
      (all
        (λ (a : CandidateEvaluation).
          a.eligible && not (identity_key a.identity == identity_key s.identity))
        d.alternatives)
      "alternatives must be eligible and must not repeat the selected candidate"

abbrev pub check_selected : Option CandidateEvaluation → Result (Unit {0})
check_selected none = ok tt
check_selected (some s) = guard s.eligible "the selected candidate must be eligible"

abbrev pub text_id : String → String
text_id s = s

abbrev pub is_nonempty : String → Bool
is_nonempty s = not (s == "")

-- `SelectionDecision(...)`
unfoldable pub new_decision : SelectionDecision → Result SelectionDecision
unfolding check_selection_codes contains all_new sorted
new_decision d = do
  check_catalog_fields d.catalog_version d.catalog_updated_on
  guard (leb 1 d.resource_policy_version) "resource_policy_version below 1"
  check_selected d.selected
  codes ← check_selection_codes d.reason_codes
  check_selection d codes d.selected
  guard (all is_excluded d.excluded) "excluded candidates must be excluded"
  guard (all is_excluded d.closest_candidates) "closest candidates are excluded candidates"
  guard (all is_excluded d.recoverable_candidates) "recoverable candidates are excluded candidates"
  guard (all_new identity_key [] d.preference_order) "preference_order: duplicate entry"
  guard (all is_nonempty d.expired_happy_hour_rules) "expired_happy_hour_rules: must be non-empty"
  guard (all_new text_id [] d.expired_happy_hour_rules)
      "expired_happy_hour_rules: duplicate rule id"
  guard (all is_nonempty d.expired_blackout_rules) "expired_blackout_rules: must be non-empty"
  guard (all_new text_id [] d.expired_blackout_rules) "expired_blackout_rules: duplicate rule id"
  guard (is_some d.profile_id || not (is_some d.profile_policy_version))
      "profile_policy_version requires a profile_id"
  ok (record d {
    reason_codes = codes;
    expired_happy_hour_rules = sorted text_id d.expired_happy_hour_rules;
    expired_blackout_rules = sorted text_id d.expired_blackout_rules;
  })
