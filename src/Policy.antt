-- ===== src/Policy.antt =====
-- The user policy (policy.py): its vocabularies, rules and decisions as data.
pub mod Contract
pub mod Unknown
pub mod Reservation
pub mod Schedule
pub mod Rules
pub mod Replenishment
pub mod User
pub mod Preservation
pub mod Windows
pub mod Visibility
pub mod FirstRule
pub mod Storage
mod Samples
use scarcity_router.Common.{
  ℕ, String, Bool, Option, List, ◌≡◌, arith, Eq, Order, eq_of_rank, order_of_rank,
}
use scarcity_router.Types.Identity.{CapacityScopeRef}
use scarcity_router.Types.Requirement.{TaskLevel}
use scarcity_router.Capacity.{WindowResource, WindowKind}

-- `UNKNOWN_CAPACITY_MODES`
pub data UnknownCapacityMode : Type 0 where
  degraded strict : UnknownCapacityMode

-- `REPLENISHMENT_MODES`
pub data ReplenishmentMode : Type 0 where
  ignore advisory recoverable : ReplenishmentMode

-- `RESERVATION_STATES`
pub data ReservationState : Type 0 where
  known unknown : ReservationState

-- `POLICY_REASON_CODES`
pub data PolicyReason : Type 0 where
  capacity_exhausted human_action_required policy_blocked replenishment_available : PolicyReason
  replenishment_recoverable reservation_blocked reservation_percentage_unknown : PolicyReason
  reservation_permitted_by_task_level reservation_scope_snapshot_missing : PolicyReason
  reservation_scope_snapshot_not_ok reservation_triggered reservation_window_missing : PolicyReason
  unknown_capacity_blocked unknown_capacity_degraded : PolicyReason

-- The alphabetical order, in which codes are stored.
abbrev pub policy_reason_rank : PolicyReason → ℕ
policy_reason_rank PolicyReason.capacity_exhausted = 0
policy_reason_rank PolicyReason.human_action_required = 1
policy_reason_rank PolicyReason.policy_blocked = 2
policy_reason_rank PolicyReason.replenishment_available = 3
policy_reason_rank PolicyReason.replenishment_recoverable = 4
policy_reason_rank PolicyReason.reservation_blocked = 5
policy_reason_rank PolicyReason.reservation_percentage_unknown = 6
policy_reason_rank PolicyReason.reservation_permitted_by_task_level = 7
policy_reason_rank PolicyReason.reservation_scope_snapshot_missing = 8
policy_reason_rank PolicyReason.reservation_scope_snapshot_not_ok = 9
policy_reason_rank PolicyReason.reservation_triggered = 10
policy_reason_rank PolicyReason.reservation_window_missing = 11
policy_reason_rank PolicyReason.unknown_capacity_blocked = 12
policy_reason_rank PolicyReason.unknown_capacity_degraded = 13

pub policy_reason_rank-injective :
    (a b : PolicyReason) → policy_reason_rank a ≡ policy_reason_rank b → a ≡ b
policy_reason_rank-injective a b h = ground arith

instance abbrev pub policy_reason_eq : Eq PolicyReason
policy_reason_eq = eq_of_rank policy_reason_rank policy_reason_rank-injective

instance abbrev pub policy_reason_order : Order PolicyReason
policy_reason_order = order_of_rank policy_reason_rank policy_reason_rank-injective

pub record UnknownCapacityDecision : Type 0 where
  pub mode : UnknownCapacityMode
  pub eligible_by_unknown_policy : Bool
  pub degraded : Bool
  pub reason_codes : List PolicyReason

pub record ReservationRule : Type 0 where
  pub rule_id : String
  pub scope : CapacityScopeRef
  pub resource : WindowResource
  pub kind : WindowKind
  pub when_remaining_below : ℕ
  pub minimum_task_level : TaskLevel

pub record ReservationDecision : Type 0 where
  pub rule_id : String
  pub state : ReservationState
  pub triggered : Option Bool
  pub blocked : Option Bool
  pub evidence_remaining_percent : Option ℕ
  pub reason_codes : List PolicyReason

pub record AvailabilityTarget : Type 0 where
  pub provider : String
  pub model : Option String
  pub variant : Option String

-- `WEEKDAYS`, in canonical order.
pub data Weekday : Type 0 where
  mon tue wed thu fri sat sun : Weekday

-- The fields of `WeeklyBlackoutRule` and of `WeeklyHappyHourRule`, which are the same.
pub record WeeklyRule : Type 0 where
  pub rule_id : String
  pub target : AvailabilityTarget
  pub timezone : String
  pub weekdays : List Weekday
  pub start_local : String
  pub end_local : String
  pub reason_code : String
  pub start_date : Option String
  pub end_date : Option String

abbrev pub WeeklyBlackoutRule : Type 0
WeeklyBlackoutRule = WeeklyRule

abbrev pub WeeklyHappyHourRule : Type 0
WeeklyHappyHourRule = WeeklyRule

pub record BlackoutDecision : Type 0 where
  pub blocked : Bool
  pub rule_id : Option String
  pub reason_code : Option String
  pub reason_codes : List PolicyReason

pub record HappyHourDecision : Type 0 where
  pub preferred : Bool
  pub rule_id : Option String
  pub reason_code : Option String

pub record ReplenishmentState : Type 0 where
  pub provider : String
  pub kind : String
  pub available_count : ℕ
  pub details_known : Bool
  pub earliest_expiry : Option String
  pub retrieved_at : String

pub record ReplenishmentDecision : Type 0 where
  pub mode : ReplenishmentMode
  pub visible : Bool
  pub available_count : Option ℕ
  pub details_known : Option Bool
  pub recoverable : Bool
  pub human_action_required : Bool
  pub reason_codes : List PolicyReason

pub record UserPolicy : Type 0 where
  pub policy_version : ℕ
  pub unknown_capacity_mode : UnknownCapacityMode
  pub replenishment_mode : ReplenishmentMode
  pub reservations : List ReservationRule
  pub blackouts : List WeeklyBlackoutRule
  pub happy_hours : List WeeklyHappyHourRule
