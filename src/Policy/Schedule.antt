-- ===== src/Policy/Schedule.antt =====
-- Weekly local windows and date bounds (policy.py), over the time zones of `zoneinfo`.
use scarcity_router.Common.{
  ℕ, ◌+◌, ◌*◌, String, ◌≡◌, Bool, true, false, not, ◌&&◌, Option, none, some, List, [], arith, ltb,
  leb, if◌then◌else◌, is_some, is_empty, sorted, Result, Eq, nat_eq, string_eq, option_eq, contains,
  list_eq, pair_eq, Order, nat_order, string_order, pair_order, list_order, eq_of_rank,
  order_of_rank, ◌>>=◌, ok, ◌>>◌, guard,
}
use scarcity_router.Types.Calendar.{Date, date_lt, check_opt_date, hm_minutes}
use scarcity_router.Types.Contract.{all_new}
use scarcity_router.Policy.{
  policy_reason_eq, policy_reason_order, Weekday, mon, tue, wed, thu, fri, sat, sun,
}

-- What `at.astimezone(zone)` is read for.
pub record LocalTime : Type 0 where
  pub weekday : Weekday
  pub hour : ℕ
  pub minute : ℕ
  pub date : Date

-- An aware `datetime` is the instant that it names, counted from an epoch.
abbrev pub Instant : Type 0
Instant = ℕ

-- `at.astimezone(ZoneInfo(timezone))` of the standard library's time zone data, which raises on a
-- name that it cannot load.
abbrev pub Zones : Type 0
Zones = String → Instant → Result LocalTime

-- `local.weekday()`
abbrev pub weekday_index : Weekday → ℕ
weekday_index mon = 0
weekday_index tue = 1
weekday_index wed = 2
weekday_index thu = 3
weekday_index fri = 4
weekday_index sat = 5
weekday_index sun = 6

pub weekday_index-injective : (a b : Weekday) → weekday_index a ≡ weekday_index b → a ≡ b
weekday_index-injective a b h = ground arith

instance abbrev pub weekday_eq : Eq Weekday
weekday_eq = eq_of_rank weekday_index weekday_index-injective

instance abbrev pub weekday_order : Order Weekday
weekday_order = order_of_rank weekday_index weekday_index-injective

-- `WEEKDAYS[(local.weekday() - 1) % 7]`
abbrev pub previous_day : Weekday → Weekday
previous_day mon = sun
previous_day tue = mon
previous_day wed = tue
previous_day thu = wed
previous_day fri = thu
previous_day sat = fri
previous_day sun = sat

abbrev pub minute_of_day : LocalTime → ℕ
minute_of_day local = local.hour * 60 + local.minute

-- The test of `_weekly_window_contains` on the local time and the two minutes of the day.
unfoldable pub window_covers : List Weekday → ℕ → ℕ → LocalTime → Bool
unfolding contains
window_covers weekdays start end local =
    let day = local.weekday in
    if ltb start end
    then contains weekdays day && (leb start (minute_of_day local) && ltb (minute_of_day local) end)
    else if contains weekdays day && leb start (minute_of_day local)
    then true
    else contains weekdays (previous_day day) && ltb (minute_of_day local) end

-- `_weekly_window_contains`
unfoldable pub weekly_window_contains :
    Zones → String → List Weekday → String → String → Instant → Result Bool
unfolding window_covers hm_minutes
weekly_window_contains zones timezone weekdays start_local end_local at = do
  local ← zones timezone at
  start ← hm_minutes start_local
  end ← hm_minutes end_local
  ok (window_covers weekdays start end local)

abbrev after_end : Date → Option Date → Bool
after_end d none = false
after_end d (some end_date) = date_lt end_date d

abbrev before_start : Date → Option Date → Bool
before_start d none = false
before_start d (some start_date) = date_lt d start_date

-- `_v_date_bounds`
unfoldable pub check_date_bounds : Option String → Option String → Result (Unit {0})
unfolding check_opt_date
check_date_bounds start_date end_date = do
  s ← check_opt_date start_date
  e ← check_opt_date end_date
  elim s [ none ↦ ok tt | some d ↦ guard (not (after_end d e)) "start_date is after end_date" ]

-- `_date_bounds_contain`
unfoldable pub date_bounds_contain :
    Zones → String → Option String → Option String → Instant → Result Bool
unfolding check_opt_date
date_bounds_contain zones timezone start_date end_date at =
    if not (is_some start_date) && not (is_some end_date) then ok true else (do
      local ← zones timezone at
      s ← check_opt_date start_date
      let by_end =
          check_opt_date end_date >>= λ e. ok (if after_end local.date e then false else true)
      if before_start local.date s then ok false else by_end)

-- `_date_bounds_expired`
unfoldable pub date_bounds_expired :
    Zones → String → Option String → Option String → Instant → Result Bool
unfolding check_opt_date
date_bounds_expired zones timezone start_date end_date at =
    if not (is_some start_date) && not (is_some end_date) then ok false else (do
      local ← zones timezone at
      s ← check_opt_date start_date
      let by_end = check_opt_date end_date >>= λ e. ok (after_end local.date e)
      if before_start local.date s then ok true else by_end)

-- `_v_weekdays`: at least one, none twice, stored in canonical order.
unfoldable pub check_weekdays : List Weekday → Result (List Weekday)
unfolding all_new sorted
check_weekdays days = do
  guard (all_new (λ (d : Weekday). d) [] days) "duplicate weekday"
  guard (not (is_empty days)) "at least one weekday is required"
  ok (sorted (λ (d : Weekday). d) days)
