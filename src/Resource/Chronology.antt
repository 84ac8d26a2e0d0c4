-- ===== src/Resource/Chronology.antt =====
-- Canonical timestamps (resource_state.py) are in the order of their instants when they are in the order of texts.
use native.Mathlib.Nat.{le_trans, le_refl, le-add_right, le-add_left, add-le-add}
use scarcity_router.Common.{
  eqb_iff, subst, ℕ, zero, suc, ◌+◌, ◌-◌, ◌*◌, ◌/◌, ◌≤◌, ◌<◌, arith, ◌≡◌, eqb, if◌then◌else◌,
  Bool-cases, inl, inr, sym,
}
use scarcity_router.Types.Calendar.{Date, is_leap, days_in_month}
use scarcity_router.Resource.Instant.{days_before_month, ordinal}

abbrev leap_days : ℕ → ℕ
leap_days x = x / 4 - x / 100 + x / 400

abbrev extra : ℕ → ℕ
extra y = if is_leap y then 1 else 0

-- A year has a day more where it is a leap year.
leap_days_step : (x : ℕ) → leap_days x + extra (suc x) ≤ leap_days (suc x)
unfolding is_leap
leap_days_step x = ground arith

days_le : (y m : ℕ) → days_in_month y m ≤ 31
unfolding days_in_month
days_le y m = ground arith

months_le : (y : ℕ) → days_before_month y 12 + 31 ≤ 365 + extra y
unfolding days_before_month days_in_month
months_le y = ground arith

-- A month ends before a later one begins.
month-ends :
    (y a b : ℕ) → 1 ≤ a → a < b → days_before_month y a + days_in_month y a ≤ days_before_month y b
unfolding days_before_month
month-ends y a zero h k = omega arith
month-ends y a (suc zero) h k = omega arith
month-ends y a (suc (suc c)) h k = elim (Bool-cases (eqb a (suc c))) [
  | inl e ↦
      subst
        (λ n. days_before_month y a + days_in_month y a ≤ days_before_month y n + days_in_month y n)
        ((eqb_iff a (suc c)).0 e) (le_refl _)
  | inr e ↦ le_trans (month-ends y a (suc c) h (ground arith)) (le-add_right _ _)
]

leap_days_mono : (x z : ℕ) → x ≤ z → leap_days x ≤ leap_days z
leap_days_mono x zero h = omega arith
leap_days_mono x (suc z) h = elim (Bool-cases (eqb x (suc z))) [
  | inl e ↦ subst (λ n. leap_days x ≤ leap_days n) ((eqb_iff x (suc z)).0 e) (le_refl _)
  | inr e ↦
      le_trans (leap_days_mono x z (ground arith)) (le_trans (le-add_right _ _) (leap_days_step z))
]

-- A day of the calendar.
pub record IsReal (d : Date) : Type 0 where
  pub has_year : 1 ≤ d.year
  pub has_month : 1 ≤ d.month
  pub month_bound : d.month ≤ 12
  pub has_day : 1 ≤ d.day
  pub day_bound : d.day ≤ days_in_month d.year d.month

-- A month ends with its year at the latest.
december : (y m : ℕ) → 1 ≤ m → m ≤ 12 → days_before_month y m + days_in_month y m ≤ 365 + extra y
december y m h k = elim (Bool-cases (eqb m 12)) [
  | inl e ↦
      subst (λ n. days_before_month y n + days_in_month y n ≤ 365 + extra y)
        (sym ((eqb_iff m 12).0 e)) (le_trans (add-le-add (le_refl _) (days_le y 12)) (months_le y))
  | inr e ↦
      le_trans (month-ends y m 12 h (ground arith)) (le_trans (le-add_right _ _) (months_le y))
]

-- The days of whole years, and those of the date's own year.
ordinal_split :
    (d : Date)
    → ordinal d
      ≡ (d.year - 1) * 365 + leap_days (d.year - 1) + (days_before_month d.year d.month + d.day)
unfolding ordinal
ordinal_split d = omega arith

year_sum :
    (x z l m n e r s : ℕ)
    → suc x ≤ z
    → l + e ≤ m
    → m ≤ n
    → r ≤ 365 + e
    → 1 ≤ s
    → x * 365 + l + r < z * 365 + n + s
year_sum x z l m n e r s h₁ h₂ h₃ h₄ h₅ = omega arith

month_sum : (w p q d e m : ℕ) → p + m ≤ q → d ≤ m → 1 ≤ e → w + (p + d) < w + (q + e)
month_sum w p q d e m h₁ h₂ h₃ = omega arith

-- A date's day of its year is one of the year's.
day_of_year_le :
    (a : Date) → IsReal a → days_before_month a.year a.month + a.day ≤ 365 + extra a.year
day_of_year_le a ra =
    le_trans (add-le-add (le_refl _) ra.day_bound)
      (december a.year a.month ra.has_month ra.month_bound)

pub ordinal-mono-year : (a b : Date) → IsReal a → IsReal b → a.year < b.year → ordinal a < ordinal b
ordinal-mono-year a b ra rb h =
    let positive = ra.has_year in
    let before : suc (a.year - 1) ≤ b.year - 1 = omega arith in
    let same : a.year ≡ suc (a.year - 1) = omega arith in
    rw (ordinal_split a, ordinal_split b)
      (year_sum (a.year - 1) (b.year - 1) _ (leap_days (suc (a.year - 1))) _
        (extra (suc (a.year - 1))) _ _ before (leap_days_step (a.year - 1))
        (leap_days_mono (suc (a.year - 1)) (b.year - 1) before)
        (subst (λ n. days_before_month a.year a.month + a.day ≤ 365 + extra n) same
          (day_of_year_le a ra))
        (le_trans rb.has_day (le-add_left _ _)))

pub ordinal-mono-month :
    (a b : Date) → IsReal a → IsReal b → a.year ≡ b.year → a.month < b.month → ordinal a < ordinal b
ordinal-mono-month a b ra rb e h =
    rw (ordinal_split a, ordinal_split b, e)
      (month_sum _ _ _ _ _ (days_in_month b.year a.month)
        (month-ends b.year a.month b.month ra.has_month h)
        (subst (λ y. a.day ≤ days_in_month y a.month) e ra.day_bound) rb.has_day)

pub ordinal-mono-day :
    (a b : Date) → a.year ≡ b.year → a.month ≡ b.month → a.day < b.day → ordinal a < ordinal b
ordinal-mono-day a b e f h = rw (ordinal_split a, ordinal_split b, e, f) (omega arith)
