-- ===== src/Scarcity/Measure.antt =====
-- The frozen measures of scarcity.py: window roles, the blend, the penalty and the labels.
use scarcity_router.Common.{
  ok, ℕ, ◌+◌, ◌-◌, ◌*◌, ◌/◌, Option, none, some, leb, if◌then◌else◌, Result, ◌>>◌, guard, err,
  nat_eq, string_eq, option_eq, list_eq, pair_eq, nat_order, string_order, pair_order, list_order,
  ◌>>=◌,
}
use scarcity_router.Types.Identity.{identity_eq, scope_eq}
use scarcity_router.Capacity.{WindowResource, WindowKind}
use scarcity_router.Capacity.Contract.{
  resource_eq, kind_eq, resource_order, kind_order, diagnostic_eq,
}

-- `WINDOW_ROLES`
pub data WindowRole : Type 0 where
  strategic tactical : WindowRole

-- `window_role`
unfoldable pub window_role : WindowResource → WindowKind → WindowRole
window_role resource WindowKind.weekly = strategic
window_role resource WindowKind.five_hour = tactical
window_role WindowResource.time WindowKind.unknown = tactical
window_role _ WindowKind.unknown = strategic

-- `SCARCITY_LABELS`
pub data ScarcityLabel : Type 0 where
  plentiful normal scarce critical unavailable unknown : ScarcityLabel

-- `_v_pct`; a percentage is never negative in the model.
unfoldable pub check_pct : ℕ → Result ℕ
check_pct n = guard (leb n 100) "value outside 0..100" >> ok n

-- `units // BLEND_UNIT_COUNT` with `WEEKLY_TO_FIVE_HOUR_RATIO` 5
abbrev pub blend : ℕ → ℕ → ℕ
blend a b = (a + 5 * b) / 6

-- `blended_effective_remaining_percent(tactical_remaining, strategic_remaining)`
unfoldable pub blended_effective_remaining_percent : Option ℕ → Option ℕ → Result ℕ
unfolding check_pct
blended_effective_remaining_percent none none = err "at least one role representative is required"
blended_effective_remaining_percent none (some strategic_remaining) = do
  b ← check_pct strategic_remaining
  ok (blend b b)
blended_effective_remaining_percent (some tactical_remaining) none = do
  a ← check_pct tactical_remaining
  ok (blend a a)
blended_effective_remaining_percent (some tactical_remaining) (some strategic_remaining) = do
  a ← check_pct tactical_remaining
  b ← check_pct strategic_remaining
  ok (blend a b)

-- `scarcity_penalty_units`
unfoldable pub scarcity_penalty_units : ℕ → Result ℕ
unfolding check_pct
scarcity_penalty_units remaining_percent = do
  pct ← check_pct remaining_percent
  let used_percent = 100 - pct
  ok (used_percent * used_percent)

abbrev pub label_for : ℕ → ScarcityLabel
label_for pct =
    if leb 80 pct
    then plentiful
    else if leb 50 pct
    then normal
    else if leb 20 pct
    then scarce
    else if leb 1 pct
    then critical
    else unavailable

-- `scarcity_label`
unfoldable pub scarcity_label : ℕ → Result ScarcityLabel
unfolding check_pct
scarcity_label remaining_percent = do pct ← check_pct remaining_percent; ok (label_for pct)
