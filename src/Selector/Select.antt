-- ===== src/Selector/Select.antt =====
-- `select_model`, `assemble_evaluations` and `_closest_candidates` (selector.py).
use scarcity_router.Common.{
  ℕ, String, Bool, false, not, ◌&&◌, Option, none, some, List, [], ◌∷◌, map, if◌then◌else◌, head?,
  tail, filter, sorted, Result, ◌>>=◌, ◌>>◌, map_result, ◌==◌, nat_eq, string_eq, option_eq,
  list_eq, pair_eq, nat_order, string_order, pair_order, list_order, ok, guard,
}
use scarcity_router.Types.Identity.{identity_eq, scope_eq}
use scarcity_router.Types.Contract.{all_new}
use scarcity_router.Types.Catalog.{ModelCatalog}
use scarcity_router.Capacity.{CapacitySnapshot}
use scarcity_router.Scarcity.Assessment.{
  ScarcityAssessment, reason_eq, reason_order, role_eq, label_eq, evidence_eq, is_unavailable,
}
use scarcity_router.Policy.{policy_reason_eq, policy_reason_order, WeeklyRule, ReplenishmentState}
use scarcity_router.Policy.Schedule.{Instant, Zones, weekday_eq, weekday_order}
use scarcity_router.Policy.Rules.{is_date_expired_at}
use scarcity_router.Selector.{
  Stage, stage_eq, SelectionReason, selection_reason_eq, selection_reason_order,
  ExecutionEligibility, CandidateEvaluation, SelectionDecision,
}
use scarcity_router.Selector.Evaluate.{evaluate_candidate}
use scarcity_router.Selector.Inputs.{Inputs, is_recoverable}
use scarcity_router.Selector.Decision.{new_decision}
use scarcity_router.Selector.Keyed.{
  closest_candidates, entry_key, evaluation_key, matches_catalog, rank,
}

abbrev pub is_eligible : CandidateEvaluation → Bool
is_eligible e = e.eligible

abbrev pub is_ineligible : CandidateEvaluation → Bool
is_ineligible e = not e.eligible

abbrev is_unavailable_assessment : Option ScarcityAssessment → Bool
is_unavailable_assessment none = false
is_unavailable_assessment (some a) = is_unavailable a.state

-- An exhausted candidate that a human may replenish.
abbrev pub is_recoverable_candidate : CandidateEvaluation → Bool
is_recoverable_candidate c =
    c.exclusion_stage == some Stage.capacity
    && (is_unavailable_assessment c.scarcity_assessment
        && is_recoverable c.replenishment_evaluations)

abbrev pub is_degraded : Option CandidateEvaluation → Bool
is_degraded none = false
is_degraded (some s) = s.degraded

abbrev pub decision_codes : Option CandidateEvaluation → List SelectionReason
decision_codes none = SelectionReason.no_eligible_candidate ∷ []
decision_codes (some s) =
    if s.degraded
    then SelectionReason.selected_balanced ∷ SelectionReason.selected_degraded_capacity ∷ []
    else SelectionReason.selected_balanced ∷ []

-- The ids of the rules that only their dates keep from applying.
unfoldable pub expired_rules : Zones → Instant → List WeeklyRule → Result (List String)
unfolding is_date_expired_at sorted
expired_rules zones at rules = do
  flags ←
      map_result (λ (r : WeeklyRule). is_date_expired_at zones r at >>= λ b. ok (b, r.rule_id))
        rules
  ok (
      sorted (λ (s : String). s)
        (map (λ (p : Bool × String). p.1) (filter (λ (p : Bool × String). p.0) flags)))

abbrev pub closest_of :
    Option CandidateEvaluation → List CandidateEvaluation → Result (List CandidateEvaluation)
closest_of none excluded = closest_candidates excluded
closest_of (some s) excluded = ok []

abbrev pub assembled :
    Inputs
    → ModelCatalog
    → Option String
    → Option ℕ
    → List CandidateEvaluation
    → List CandidateEvaluation
    → List CandidateEvaluation
    → List String
    → List String
    → SelectionDecision
assembled i catalog profile_id profile_policy_version ranked excluded closest happy_hours
      blackouts =
    record {
      evaluated_at = i.evaluated_at;
      requirement = i.requirement;
      catalog_version = catalog.catalog_version;
      catalog_updated_on = catalog.updated_on;
      resource_policy_version = i.policy.resource_policy.policy_version;
      selected = head? ranked;
      alternatives = tail ranked;
      excluded = excluded;
      closest_candidates = closest;
      recoverable_candidates = filter is_recoverable_candidate excluded;
      degraded = is_degraded (head? ranked);
      reason_codes = decision_codes (head? ranked);
      profile_id = profile_id;
      profile_policy_version = profile_policy_version;
      preference_order = i.policy.preference_order;
      expired_happy_hour_rules = happy_hours;
      expired_blackout_rules = blackouts;
    }

-- The end of `assemble_evaluations`, with its call of `SelectionDecision`.
unfoldable pub decide :
    Inputs
    → ModelCatalog
    → Option String
    → Option ℕ
    → List CandidateEvaluation
    → List CandidateEvaluation
    → Result SelectionDecision
unfolding closest_candidates expired_rules new_decision
decide i catalog profile_id profile_policy_version ranked excluded = do
  closest ← closest_of (head? ranked) excluded
  expired_happy ← expired_rules i.zones i.evaluated_at i.policy.resource_policy.happy_hours
  expired_blackout ← expired_rules i.zones i.evaluated_at i.policy.resource_policy.blackouts
  new_decision (
      assembled i catalog profile_id profile_policy_version ranked excluded closest expired_happy
        expired_blackout)

-- `assemble_evaluations`
unfoldable pub assemble_evaluations :
    Inputs
    → ModelCatalog
    → Option String
    → Option ℕ
    → List CandidateEvaluation
    → Result SelectionDecision
unfolding sorted matches_catalog rank decide
assemble_evaluations i catalog profile_id profile_policy_version given = do
  let entries = sorted entry_key catalog.entries
  guard (matches_catalog entries given) "candidate evaluations must match the catalog identities"
  let evaluations = sorted evaluation_key given
  ranked ← rank entries i.policy.preference_order (filter is_eligible evaluations)
  decide i catalog profile_id profile_policy_version ranked (filter is_ineligible evaluations)

abbrev pub report_key : ExecutionEligibility → String
report_key r = r.provider

abbrev pub replenishment_key : ReplenishmentState → String × String
replenishment_key s = (s.provider, s.kind)

abbrev pub check_profile : Option String → Result (Unit {0})
check_profile none = ok tt
check_profile (some p) = guard (not (p == "")) "profile_id: must be non-empty"

-- The inputs as `select_model` passes them on.
abbrev pub canonical_inputs : Inputs → Inputs
canonical_inputs i = record i {
  eligibility_reports = sorted report_key i.eligibility_reports;
  replenishment_states = sorted replenishment_key i.replenishment_states;
}

-- `select_model`
unfoldable pub select_model :
    Inputs → ModelCatalog → Option String → Option ℕ → Result SelectionDecision
unfolding all_new sorted evaluate_candidate assemble_evaluations
select_model i catalog profile_id profile_policy_version = do
  guard (all_new (λ (s : CapacitySnapshot). s.provider) [] i.snapshots)
      "duplicate provider snapshot"
  guard (all_new report_key [] i.eligibility_reports) "duplicate eligibility report"
  guard (all_new replenishment_key [] i.replenishment_states) "duplicate replenishment state"
  check_profile profile_id
  evaluations ←
      map_result (evaluate_candidate (canonical_inputs i)) (sorted entry_key catalog.entries)
  assemble_evaluations (canonical_inputs i) catalog profile_id profile_policy_version evaluations
