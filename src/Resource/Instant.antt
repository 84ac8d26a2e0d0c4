-- ===== src/Resource/Instant.antt =====
-- Timestamps as instants (resource_state.py `_ts_to_datetime`, `_age_seconds`, `_age_or_reject`).
use scarcity_router.Common.{
  ok, ℕ, zero, suc, ◌+◌, ◌-◌, ◌*◌, ◌/◌, String, ◌≡◌, refl, Bool, none, some, List, [], ◌∷◌, ltb,
  leb, if◌then◌else◌, Result, guard, err, option_eq, list_eq, pair_eq, string_eq, nat_eq, nat_order,
  string_order, pair_order, list_order, ◌>>=◌, ◌>>◌,
}
use scarcity_router.Types.SafeId.{codes}
use scarcity_router.Types.Calendar.{Date, days_in_month, parse_date, is_timestamp}

abbrev digit : ℕ → ℕ
digit c = c - b'0'

abbrev two : ℕ → ℕ → ℕ
two a b = digit a * 10 + digit b

-- The days before the month, as `datetime` counts them.
unfoldable pub days_before_month : ℕ → ℕ → ℕ
unfolding days_in_month
days_before_month y zero = 0
days_before_month y (suc zero) = 0
days_before_month y (suc (suc m)) = days_before_month y (suc m) + days_in_month y (suc m)

-- `date.toordinal`
unfoldable pub ordinal : Date → ℕ
unfolding days_before_month
ordinal d =
    let y = d.year - 1 in
    y * 365 + y / 4 - y / 100 + y / 400 + days_before_month d.year d.month + d.day

-- The milliseconds of a canonical timestamp.
unfoldable pub instant_of : List ℕ → ℕ
unfolding ordinal parse_date
instant_of
      (y₁ ∷ y₂ ∷ y₃ ∷ y₄ ∷ p ∷ m₁ ∷ m₂ ∷ q ∷ d₁ ∷ d₂ ∷ t ∷ h₁ ∷ h₂ ∷ r ∷ n₁ ∷ n₂ ∷ u ∷ s₁ ∷ s₂ ∷ v
        ∷ f₁ ∷ f₂ ∷ f₃ ∷ z ∷ []) =
    let day : ℕ = elim (parse_date (y₁ ∷ y₂ ∷ y₃ ∷ y₄ ∷ p ∷ m₁ ∷ m₂ ∷ q ∷ d₁ ∷ d₂ ∷ [])) [
      | none ↦ 0
      | some d ↦ ordinal d
    ] in
    (((day * 24 + two h₁ h₂) * 60 + two n₁ n₂) * 60 + two s₁ s₂) * 1000
    + (digit f₁ * 100 + two f₂ f₃)
instant_of _ = 0

-- `_ts_to_datetime`
unfoldable pub to_instant : String → Result ℕ
unfolding is_timestamp instant_of
to_instant s = if is_timestamp (codes s) then ok (instant_of (codes s)) else err "invalid date/time"

-- `_age_seconds(later, earlier) < 0`
unfoldable pub is_before : String → String → Result Bool
unfolding to_instant
is_before later earlier = do l ← to_instant later; e ← to_instant earlier; ok (ltb l e)

-- `_age_or_reject`, in milliseconds.
unfoldable pub age_or_reject : String → String → Result ℕ
unfolding to_instant
age_or_reject later earlier = do
  l ← to_instant later
  e ← to_instant earlier
  guard (leb e l) "a future-dated fact is rejected"
  ok (l - e)

one_day : age_or_reject "2028-03-01T00:00:00.250Z" "2028-02-29T00:00:00.000Z" ≡ ok 86400250
unfolding age_or_reject
one_day = refl

new_year : age_or_reject "2027-01-01T00:00:00.000Z" "2026-12-31T23:59:59.000Z" ≡ ok 1000
unfolding age_or_reject
new_year = refl

epoch_days : ordinal (record { year = 1970; month = 1; day = 1 }) ≡ 719163
unfolding ordinal
epoch_days = refl
