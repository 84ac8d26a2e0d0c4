-- ===== src/Policy/Rules.antt =====
-- Blackout and happy-hour rules (policy.py): their checks, and the first rule that decides.
use scarcity_router.Common.{
  ok, String, Bool, true, false, not, Option, none, some, List, [], ◌∷◌, if◌then◌else◌, Result,
  ◌>>=◌, ◌>>◌, guard, err, ◌==◌, nat_eq, string_eq, option_eq, contains, list_eq, pair_eq,
  nat_order, string_order, pair_order, list_order,
}
use scarcity_router.Types.SafeId.{check_safe_id}
use scarcity_router.Types.Calendar.{hm_minutes}
use scarcity_router.Types.Identity.{ModelIdentity, identity_eq, scope_eq}
use scarcity_router.Policy.{
  PolicyReason, policy_reason_eq, policy_reason_order, AvailabilityTarget, WeeklyRule,
  WeeklyBlackoutRule, WeeklyHappyHourRule, BlackoutDecision, HappyHourDecision,
}
use scarcity_router.Policy.Contract.{new_blackout_decision, new_happy_hour_decision}
use scarcity_router.Policy.Schedule.{
  Instant, Zones, weekday_eq, weekday_order, weekly_window_contains, check_date_bounds,
  date_bounds_contain, date_bounds_expired, check_weekdays,
}

-- `SUPPORTED_PROVIDERS`
abbrev supported_providers : List String
supported_providers = "openai" ∷ "zai" ∷ []

-- `_v_provider` of policy.py
unfoldable pub check_supported_provider : String → Result (Unit {0})
unfolding check_safe_id contains
check_supported_provider p = do
  i ← check_safe_id p
  guard (contains supported_providers i) "unsupported provider"

abbrev check_target_model : Option String → Option String → Result (Unit {0})
check_target_model none none = ok tt
check_target_model none (some v) = err "variant requires model"
check_target_model (some m) none = check_safe_id m >>= λ _. ok tt
check_target_model (some m) (some v) = check_safe_id m >>= λ _. check_safe_id v >>= λ _. ok tt

-- `AvailabilityTarget.__post_init__`
unfoldable pub check_target : AvailabilityTarget → Result AvailabilityTarget
unfolding check_supported_provider check_safe_id
check_target t = do check_supported_provider t.provider; check_target_model t.model t.variant; ok t

abbrev agrees : Option String → String → Bool
agrees none s = true
agrees (some wanted) s = s == wanted

-- `AvailabilityTarget.matches`
unfoldable pub matches : AvailabilityTarget → ModelIdentity → Bool
matches t identity =
    if not (identity.provider == t.provider)
    then false
    else if not (agrees t.model identity.model)
    then false
    else if not (agrees t.variant identity.variant)
    then false
    else true

-- `__post_init__` of both kinds of rule. `is_timezone` is the test of `_v_timezone`, by `ZoneInfo`.
unfoldable pub check_weekly_rule : (String → Bool) → WeeklyRule → Result WeeklyRule
unfolding check_safe_id check_target check_weekdays hm_minutes check_date_bounds
check_weekly_rule is_timezone r = do
  i ← check_safe_id r.rule_id
  t ← check_target r.target
  guard (is_timezone r.timezone) "unknown or unloadable IANA time zone"
  days ← check_weekdays r.weekdays
  s ← hm_minutes r.start_local
  e ← hm_minutes r.end_local
  guard (not (r.start_local == r.end_local)) "start_local equals end_local"
  c ← check_safe_id r.reason_code
  check_date_bounds r.start_date r.end_date
  ok (record r { weekdays = days })

-- `WeeklyBlackoutRule.blocks_at` and `WeeklyHappyHourRule.active_at`
unfoldable pub covers_at : Zones → WeeklyRule → Instant → Result Bool
unfolding weekly_window_contains date_bounds_contain
covers_at zones r at = do
  inside ← weekly_window_contains zones r.timezone r.weekdays r.start_local r.end_local at
  let contained = date_bounds_contain zones r.timezone r.start_date r.end_date at
  if not inside then ok false else contained

-- `is_date_expired_at` of both kinds of rule.
unfoldable pub is_date_expired_at : Zones → WeeklyRule → Instant → Result Bool
unfolding weekly_window_contains date_bounds_expired
is_date_expired_at zones r at = do
  inside ← weekly_window_contains zones r.timezone r.weekdays r.start_local r.end_local at
  let expired = date_bounds_expired zones r.timezone r.start_date r.end_date at
  if not inside then ok false else expired

-- `rule.target.matches(identity) and rule.blocks_at(at)`
unfoldable pub applies : Zones → ModelIdentity → Instant → WeeklyRule → Result Bool
unfolding matches covers_at
applies zones identity at r =
    let covered = covers_at zones r at in if matches r.target identity then covered else ok false

-- The loops over the rules: the first that applies.
unfoldable pub first_rule :
    Zones → ModelIdentity → Instant → List WeeklyRule → Result (Option WeeklyRule)
unfolding applies
first_rule zones identity at [] = ok none
first_rule zones identity at (r ∷ rs) =
    let rest = first_rule zones identity at rs in
    applies zones identity at r >>= λ hit. if hit then ok (some r) else rest

abbrev pub blackout_of : Option WeeklyRule → Result BlackoutDecision
blackout_of none =
    new_blackout_decision
      (record { blocked = false; rule_id = none; reason_code = none; reason_codes = [] })
blackout_of (some r) = new_blackout_decision (record {
  blocked = true;
  rule_id = some r.rule_id;
  reason_code = some r.reason_code;
  reason_codes = PolicyReason.policy_blocked ∷ [];
})

-- `evaluate_blackouts`
unfoldable pub evaluate_blackouts :
    Zones → List WeeklyBlackoutRule → ModelIdentity → Instant → Result BlackoutDecision
unfolding first_rule new_blackout_decision
evaluate_blackouts zones rules identity at = first_rule zones identity at rules >>= blackout_of

abbrev pub happy_hour_of : Option WeeklyRule → Result HappyHourDecision
happy_hour_of none =
    new_happy_hour_decision (record { preferred = false; rule_id = none; reason_code = none })
happy_hour_of (some r) =
    new_happy_hour_decision
      (record { preferred = true; rule_id = some r.rule_id; reason_code = some r.reason_code })

-- `evaluate_happy_hours`
unfoldable pub evaluate_happy_hours :
    Zones → List WeeklyHappyHourRule → ModelIdentity → Instant → Result HappyHourDecision
unfolding first_rule new_happy_hour_decision
evaluate_happy_hours zones rules identity at = first_rule zones identity at rules >>= happy_hour_of
