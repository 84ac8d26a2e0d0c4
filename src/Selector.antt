-- ===== src/Selector.antt =====
-- The selector (selector.py): its vocabularies, failures, evaluations and decisions as data.
pub mod Tighten
pub mod Narrowing
pub mod Monotone
pub mod Constraints
pub mod Capability
pub mod Sufficiency
pub mod Candidate
pub mod Inputs
pub mod Evaluate
pub mod Ranking
pub mod Decision
pub mod Keyed
pub mod Select
pub mod Assembly
pub mod Closest
pub mod Canonical
pub mod Holding
pub mod Passing
pub mod Pipeline
pub mod Preferences
pub mod Choice
mod Samples
use scarcity_router.Common.{
  ℕ, String, Bool, Option, List, ◌≡◌, arith, Eq, Order, eq_of_rank, order_of_rank,
}
use scarcity_router.Types.Identity.{ModelIdentity}
use scarcity_router.Types.Requirement.{TaskRequirement, Dimension}
use scarcity_router.Types.Catalog.{Effort}
use scarcity_router.Scarcity.Assessment.{ScarcityAssessment}
use scarcity_router.Policy.{
  UnknownCapacityDecision, ReservationDecision, BlackoutDecision, HappyHourDecision,
  ReplenishmentState, ReplenishmentDecision, UserPolicy,
}

-- `EXCLUSION_STAGES`, in the order of the pipeline.
pub data Stage : Type 0 where
  execution policy_blackout hard_constraint capability capacity reservation : Stage

-- `_STAGE_PROGRESS`
abbrev pub stage_progress : Stage → ℕ
stage_progress Stage.execution = 0
stage_progress Stage.policy_blackout = 1
stage_progress Stage.hard_constraint = 2
stage_progress Stage.capability = 3
stage_progress Stage.capacity = 4
stage_progress Stage.reservation = 5

pub stage_progress-injective : (a b : Stage) → stage_progress a ≡ stage_progress b → a ≡ b
stage_progress-injective a b h = ground arith

instance abbrev pub stage_eq : Eq Stage
stage_eq = eq_of_rank stage_progress stage_progress-injective

-- `SELECTION_REASON_CODES`
pub data SelectionReason : Type 0 where
  capability_failed capacity_unavailable capacity_unknown_blocked : SelectionReason
  execution_allowance_unavailable execution_policy_blocked execution_unverified : SelectionReason
  hard_constraint_failed no_eligible_candidate policy_blocked : SelectionReason
  replenishment_recoverable reservation_blocked reservation_unknown : SelectionReason
  selected_balanced selected_degraded_capacity : SelectionReason

-- The alphabetical order, in which codes are stored.
abbrev pub selection_reason_rank : SelectionReason → ℕ
selection_reason_rank SelectionReason.capability_failed = 0
selection_reason_rank SelectionReason.capacity_unavailable = 1
selection_reason_rank SelectionReason.capacity_unknown_blocked = 2
selection_reason_rank SelectionReason.execution_allowance_unavailable = 3
selection_reason_rank SelectionReason.execution_policy_blocked = 4
selection_reason_rank SelectionReason.execution_unverified = 5
selection_reason_rank SelectionReason.hard_constraint_failed = 6
selection_reason_rank SelectionReason.no_eligible_candidate = 7
selection_reason_rank SelectionReason.policy_blocked = 8
selection_reason_rank SelectionReason.replenishment_recoverable = 9
selection_reason_rank SelectionReason.reservation_blocked = 10
selection_reason_rank SelectionReason.reservation_unknown = 11
selection_reason_rank SelectionReason.selected_balanced = 12
selection_reason_rank SelectionReason.selected_degraded_capacity = 13

pub selection_reason_rank-injective :
    (a b : SelectionReason) → selection_reason_rank a ≡ selection_reason_rank b → a ≡ b
selection_reason_rank-injective a b h = ground arith

instance abbrev pub selection_reason_eq : Eq SelectionReason
selection_reason_eq = eq_of_rank selection_reason_rank selection_reason_rank-injective

instance abbrev pub selection_reason_order : Order SelectionReason
selection_reason_order = order_of_rank selection_reason_rank selection_reason_rank-injective

-- `_HARD_CONSTRAINT_NAMES`
pub data ConstraintName : Type 0 where
  minimum_input_context_tokens minimum_output_tokens requires_tool_use requires_vision :
      ConstraintName
  requires_reasoning_mode required_provider required_model required_variant : ConstraintName
  privacy_constraint : ConstraintName

-- `_HARD_FAILURE_REASONS`
pub data HardFailureReason : Type 0 where
  unknown insufficient unsupported mismatch privacy_unknown privacy_unsatisfied : HardFailureReason

-- The rendered values of a failure are left out.
pub record HardConstraintFailure : Type 0 where
  pub constraint : ConstraintName
  pub reason : HardFailureReason

-- `_CAPABILITY_FAILURE_REASONS`
pub data CapabilityFailureReason : Type 0 where
  unknown below_minimum : CapabilityFailureReason

pub record CapabilityFailure : Type 0 where
  pub dimension : Dimension
  pub required_rating : ℕ
  pub actual_rating : Option ℕ
  pub reason : CapabilityFailureReason

-- The mode is always `balanced`.
pub record SelectorPolicy : Type 0 where
  pub resource_policy : UserPolicy
  pub preference_order : List ModelIdentity
  pub short_window_floor_percent : Option ℕ

-- `ELIGIBILITY_STATES` (eligibility.py)
pub data EligibilityState : Type 0 where
  eligible allowance_unavailable policy_blocked unknown : EligibilityState

-- `ExecutionEligibility` (eligibility.py); its reason codes as the words of a closed vocabulary.
pub record ExecutionEligibility : Type 0 where
  pub schema_version : ℕ
  pub provider : String
  pub source : String
  pub retrieved_at : String
  pub state : EligibilityState
  pub reason_codes : List String

pub record ReplenishmentEvaluation : Type 0 where
  pub state : ReplenishmentState
  pub decision : ReplenishmentDecision

pub record CandidateEvaluation : Type 0 where
  pub identity : ModelIdentity
  pub display_name : String
  pub eligible : Bool
  pub reasoning_effort : Option Effort
  pub degraded : Bool
  pub exclusion_stage : Option Stage
  pub execution_eligibility : Option ExecutionEligibility
  pub hard_constraint_failures : List HardConstraintFailure
  pub capability_failures : List CapabilityFailure
  pub blackout_decision : Option BlackoutDecision
  pub happy_hour_decision : Option HappyHourDecision
  pub scarcity_assessment : Option ScarcityAssessment
  pub unknown_capacity_decision : Option UnknownCapacityDecision
  pub reservation_decisions : List ReservationDecision
  pub replenishment_evaluations : List ReplenishmentEvaluation
  pub reason_codes : List SelectionReason
  pub short_window_below_floor : Bool

pub record SelectionDecision : Type 0 where
  pub evaluated_at : ℕ
  pub requirement : TaskRequirement
  pub catalog_version : Option ℕ
  pub catalog_updated_on : Option String
  pub resource_policy_version : ℕ
  pub selected : Option CandidateEvaluation
  pub alternatives : List CandidateEvaluation
  pub excluded : List CandidateEvaluation
  pub closest_candidates : List CandidateEvaluation
  pub recoverable_candidates : List CandidateEvaluation
  pub degraded : Bool
  pub reason_codes : List SelectionReason
  pub profile_id : Option String
  pub profile_policy_version : Option ℕ
  pub preference_order : List ModelIdentity
  pub expired_happy_hour_rules : List String
  pub expired_blackout_rules : List String
