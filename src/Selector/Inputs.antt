-- ===== src/Selector/Inputs.antt =====
-- What the stages of `_evaluate_candidate` (selector.py) read, and the exclusions they make.
use scarcity_router.Common.{
  ok, Bool, true, false, ◌&&◌, Option, none, some, List, [], ◌∷◌, find, Result, ◌>>=◌, ◌==◌, nat_eq,
  string_eq, option_eq, list_eq, pair_eq, nat_order, string_order, pair_order, list_order,
  map_result, any, filter,
}
use scarcity_router.Types.Identity.{ModelIdentity, identity_eq, scope_eq}
use scarcity_router.Types.Requirement.{TaskRequirement}
use scarcity_router.Types.Catalog.{ModelCatalogEntry}
use scarcity_router.Capacity.{CapacitySnapshot}
use scarcity_router.Scarcity.Assessment.{
  ScarcityState, ScarcityAssessment, reason_eq, reason_order, role_eq, label_eq, evidence_eq,
}
use scarcity_router.Policy.{
  ReplenishmentMode, policy_reason_eq, policy_reason_order, UnknownCapacityDecision,
  ReplenishmentState,
}
use scarcity_router.Policy.Schedule.{Instant, Zones, weekday_eq, weekday_order}
use scarcity_router.Policy.Replenishment.{apply_replenishment_mode}
use scarcity_router.Selector.{
  Stage, stage_eq, SelectionReason, selection_reason_eq, selection_reason_order, SelectorPolicy,
  EligibilityState, ExecutionEligibility, ReplenishmentEvaluation, CandidateEvaluation,
}

-- The inputs that are the same for every entry.
pub record Inputs : Type 0 where
  pub zones : Zones
  pub requirement : TaskRequirement
  pub policy : SelectorPolicy
  pub snapshots : List CapacitySnapshot
  pub replenishment_states : List ReplenishmentState
  pub evaluated_at : Instant
  pub eligibility_reports : List ExecutionEligibility
  pub policy_blocked_identities : List ModelIdentity

-- An evaluation with its defaults, excluded at `stage` for `code`.
abbrev pub excluded_at : ModelCatalogEntry → Stage → List SelectionReason → CandidateEvaluation
excluded_at entry stage codes = record {
  identity = entry.identity;
  display_name = entry.display_name;
  eligible = false;
  reasoning_effort = entry.reasoning_effort;
  degraded = false;
  exclusion_stage = some stage;
  execution_eligibility = none;
  hard_constraint_failures = [];
  capability_failures = [];
  blackout_decision = none;
  happy_hour_decision = none;
  scarcity_assessment = none;
  unknown_capacity_decision = none;
  reservation_decisions = [];
  replenishment_evaluations = [];
  reason_codes = codes;
  short_window_below_floor = false;
}

-- `_ELIGIBILITY_STATE_PRIMARY`; `none` for the state `eligible`.
abbrev pub state_primary : EligibilityState → Option SelectionReason
state_primary EligibilityState.eligible = none
state_primary EligibilityState.allowance_unavailable =
    some SelectionReason.execution_allowance_unavailable
state_primary EligibilityState.policy_blocked = some SelectionReason.execution_policy_blocked
state_primary EligibilityState.unknown = some SelectionReason.execution_unverified

-- The report of the provider, if there is one that is not eligible.
abbrev pub with_primary :
    ExecutionEligibility → Option SelectionReason → Option (ExecutionEligibility × SelectionReason)
with_primary report none = none
with_primary report (some code) = some (report, code)

abbrev pub blocking : Option ExecutionEligibility → Option (ExecutionEligibility × SelectionReason)
blocking none = none
blocking (some report) = with_primary report (state_primary report.state)

abbrev pub report_for : List ExecutionEligibility → ModelIdentity → Option ExecutionEligibility
report_for reports identity =
    find (λ (r : ExecutionEligibility). r.provider == identity.provider) reports

-- The replenishment evaluations of the provider.
unfoldable pub replenishments :
    ReplenishmentMode
    → ModelIdentity
    → List ReplenishmentState
    → Result (List ReplenishmentEvaluation)
unfolding apply_replenishment_mode
replenishments mode identity states =
    map_result
      (λ (s : ReplenishmentState).
        apply_replenishment_mode mode (some s) >>= λ d. ok (record { state = s; decision = d }))
      (filter (λ (s : ReplenishmentState). s.provider == identity.provider) states)

abbrev pub is_recoverable : List ReplenishmentEvaluation → Bool
is_recoverable evaluations =
    any
      (λ (e : ReplenishmentEvaluation). e.decision.recoverable && e.decision.human_action_required)
      evaluations

-- What the stages after capability have computed.
pub record Assessed : Type 0 where
  pub scarcity : ScarcityAssessment
  pub unknown_decision : UnknownCapacityDecision
  pub evaluations : List ReplenishmentEvaluation

-- `sorted(codes)` of the capacity stage.
abbrev pub capacity_codes : ScarcityState → Bool → List SelectionReason
capacity_codes ScarcityState.unavailable true =
    SelectionReason.capacity_unavailable ∷ SelectionReason.replenishment_recoverable ∷ []
capacity_codes ScarcityState.unavailable false = SelectionReason.capacity_unavailable ∷ []
capacity_codes _ _ = SelectionReason.capacity_unknown_blocked ∷ []

abbrev pub capacity_exclusion : ModelCatalogEntry → Assessed → CandidateEvaluation
capacity_exclusion entry a =
    record (excluded_at entry Stage.capacity
      (capacity_codes a.scarcity.state (is_recoverable a.evaluations))) {
        scarcity_assessment = some a.scarcity;
        unknown_capacity_decision = some a.unknown_decision;
        replenishment_evaluations = a.evaluations;
      }
