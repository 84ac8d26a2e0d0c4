-- ===== src/Policy/Replenishment.antt =====
-- Replenishment observations and their visibility (policy.py).
use scarcity_router.Common.{
  ok, Bool, true, false, Option, none, some, List, [], ltb, if◌then◌else◌, Result, guard, nat_eq,
  string_eq, option_eq, list_eq, pair_eq, nat_order, string_order, pair_order, list_order, ◌>>◌,
  ◌>>=◌,
}
use scarcity_router.Types.SafeId.{codes, check_safe_id}
use scarcity_router.Types.Calendar.{check_ts}
use scarcity_router.Policy.{
  ReplenishmentMode, PolicyReason, policy_reason_eq, policy_reason_order, ReplenishmentState,
  ReplenishmentDecision,
}
use scarcity_router.Policy.Contract.{recoverable_codes, available_codes, new_replenishment_decision}
use scarcity_router.Policy.Rules.{check_supported_provider}

-- `ReplenishmentState.__post_init__`
unfoldable pub check_replenishment_state : ReplenishmentState → Result ReplenishmentState
unfolding check_safe_id check_ts check_supported_provider
check_replenishment_state s = do
  check_supported_provider s.provider
  k ← check_safe_id s.kind
  check_ts s.retrieved_at
  elim s.earliest_expiry [
    | none ↦ ok tt
    | some expiry ↦ do
      check_ts expiry
      guard (ltb 0 s.available_count) "a zero available count must not carry earliest_expiry"
      guard s.details_known "earliest_expiry requires details_known"
  ]
  ok s

abbrev pub invisible : ReplenishmentMode → ReplenishmentDecision
invisible mode = record {
  mode = mode;
  visible = false;
  available_count = none;
  details_known = none;
  recoverable = false;
  human_action_required = false;
  reason_codes = [];
}

abbrev pub visible_of :
    ReplenishmentMode → ReplenishmentState → Bool → List PolicyReason → ReplenishmentDecision
visible_of mode state flag codes = record {
  mode = mode;
  visible = true;
  available_count = some state.available_count;
  details_known = some state.details_known;
  recoverable = flag;
  human_action_required = flag;
  reason_codes = codes;
}

-- `apply_replenishment_mode`
unfoldable pub apply_replenishment_mode :
    ReplenishmentMode → Option ReplenishmentState → Result ReplenishmentDecision
unfolding new_replenishment_decision
apply_replenishment_mode ReplenishmentMode.ignore state =
    new_replenishment_decision (invisible ReplenishmentMode.ignore)
apply_replenishment_mode mode none = new_replenishment_decision (invisible mode)
apply_replenishment_mode ReplenishmentMode.advisory (some state) = new_replenishment_decision (
    visible_of ReplenishmentMode.advisory state false
      (if ltb 0 state.available_count then available_codes else []))
apply_replenishment_mode ReplenishmentMode.recoverable (some state) =
    if ltb 0 state.available_count
    then new_replenishment_decision
        (visible_of ReplenishmentMode.recoverable state true recoverable_codes)
    else new_replenishment_decision (visible_of ReplenishmentMode.recoverable state false [])
