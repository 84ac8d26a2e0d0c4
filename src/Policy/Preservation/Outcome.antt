-- ===== src/Policy/Preservation/Outcome.antt =====
-- What `evaluate_reservation` (policy.py) is to decide, told by the windows that the rule targets.
use scarcity_router.Common.{
  ℕ, ◌≤◌, ◌≡◌, Bool, true, false, not, ◌&&◌, none, some, List, Memᴰ, ltb, is_some, filter, all,
  is_empty, All, nat_eq, string_eq, option_eq, list_eq, pair_eq, nat_order, string_order,
  pair_order, list_order,
}
use scarcity_router.Types.Requirement.{TaskLevel, level_index}
use scarcity_router.Capacity.{CapacityWindow, CapacitySnapshot}
use scarcity_router.Capacity.Contract.{
  resource_eq, kind_eq, resource_order, kind_order, diagnostic_eq,
}
use scarcity_router.Scarcity.Bindings.{usable_remaining, snapshot_for}
use scarcity_router.Scarcity.Windows.{trusted_windows}
use scarcity_router.Policy.{
  ReservationState, policy_reason_eq, policy_reason_order, ReservationRule, ReservationDecision,
}
use scarcity_router.Policy.Reservation.{is_target}

-- The windows that the rule targets, in a snapshot that can be trusted.
abbrev pub targets : ReservationRule → List CapacitySnapshot → List CapacityWindow
targets rule snapshots =
    filter (is_target rule) (trusted_windows (snapshot_for snapshots rule.scope.provider))

abbrev pub has_usable : CapacityWindow → Bool
has_usable w = is_some (usable_remaining w)

-- The trigger can be told: there is a target window, and each has its percentages.
abbrev pub is_determined : ReservationRule → List CapacitySnapshot → Bool
is_determined rule snapshots =
    not (is_empty (targets rule snapshots))
    && all (λ w. is_some (usable_remaining w)) (targets rule snapshots)

-- `r` is the least remaining percentage of the windows.
pub record IsLeastRemaining (r : ℕ) (ws : List CapacityWindow) : Type 0 where
  pub window : CapacityWindow
  pub member : Memᴰ window ws
  pub reached : usable_remaining window ≡ some r
  pub least : All (λ w. (s : ℕ) → usable_remaining w ≡ some s → r ≤ s) ws

pub data ReservationOutcome (rule : ReservationRule) (snapshots : List CapacitySnapshot)
    (level : TaskLevel) (d : ReservationDecision) : Type 0 where
  undetermined :
      is_determined rule snapshots ≡ false
      → d.state ≡ ReservationState.unknown
      → d.triggered ≡ none
      → d.blocked ≡ none
      → ReservationOutcome rule snapshots level d
  determined :
      (r : ℕ)
      → is_determined rule snapshots ≡ true
      → IsLeastRemaining r (targets rule snapshots)
      → d.state ≡ ReservationState.known
      → d.evidence_remaining_percent ≡ some r
      → d.triggered ≡ some (ltb r rule.when_remaining_below)
      → d.blocked
        ≡ some (
            ltb r rule.when_remaining_below
            && ltb (level_index level) (level_index rule.minimum_task_level))
      → ReservationOutcome rule snapshots level d
