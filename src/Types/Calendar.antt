-- ===== src/Types/Calendar.antt =====
-- Calendar dates and wall times as texts: `_DATE_RE` with `date.fromisoformat`, and `_HM_RE`
-- (selection_types.py, policy.py).
use scarcity_router.Common.{
  ℕ, ◌+◌, ◌-◌, ◌*◌, ◌%◌, String, ◌≡◌, refl, Bool, ◌&&◌, ◌||◌, Option, none, some, List, [], ◌∷◌,
  leb, ltb, eqb, Result, ok, err, ◌>>=◌, if◌then◌else◌, ◌<?◌, pair_order, nat_order, is_some, guard,
  false,
}
use scarcity_router.Types.SafeId.{codes}

pub record Date : Type 0 where
  pub year : ℕ
  pub month : ℕ
  pub day : ℕ

abbrev pub DateKey : Type 0
DateKey = ℕ × (ℕ × ℕ)

abbrev pub date_key : Date → DateKey
date_key d = (d.year, (d.month, d.day))

-- Dates compare by year, month and day.
abbrev pub date_lt : Date → Date → Bool
date_lt a b = date_key a <? date_key b

unfoldable pub is_leap : ℕ → Bool
is_leap y = eqb (y % 4) 0 && (not_zero (y % 100) || eqb (y % 400) 0)
  where
    not_zero : ℕ → Bool
    not_zero n = ltb 0 n

unfoldable pub days_in_month : ℕ → ℕ → ℕ
unfolding is_leap
days_in_month y m =
    if eqb m 2
    then (if is_leap y then 29 else 28)
    else if eqb m 4 || (eqb m 6 || (eqb m 9 || eqb m 11))
    then 30
    else 31

abbrev pub is_digit : ℕ → Bool
is_digit c = leb b'0' c && leb c b'9'

abbrev pub two_digits : ℕ → ℕ → ℕ
two_digits a b = (a - b'0') * 10 + (b - b'0')

-- The pattern admits a line feed at the end and digits of other scripts; `date.fromisoformat`
-- then refuses both, so what is left is `YYYY-MM-DD` in ASCII with a real day.
unfoldable pub parse_date : List ℕ → Option Date
unfolding days_in_month
parse_date (a ∷ b ∷ c ∷ d ∷ h ∷ e ∷ f ∷ k ∷ g ∷ i ∷ []) =
    let year = two_digits a b * 100 + two_digits c d in
    let month = two_digits e f in
    let day = two_digits g i in
    if (is_digit a
        && (is_digit b
            && (is_digit c
                && (is_digit d && (is_digit e && (is_digit f && (is_digit g && is_digit i)))))))
      && ((eqb h b'-' && eqb k b'-')
          && (leb 1 year
              && ((leb 1 month && leb month 12)
                  && (leb 1 day && leb day (days_in_month year month)))))
    then some (record { year = year; month = month; day = day })
    else none
parse_date _ = none

-- `_v_date`, keeping the date that the text names.
unfoldable pub check_date : String → Result Date
unfolding parse_date
check_date s = elim (parse_date (codes s)) [ none ↦ err "invalid calendar date" | some d ↦ ok d ]

unfoldable pub check_opt_date : Option String → Result (Option Date)
unfolding check_date
check_opt_date none = ok none
check_opt_date (some s) = check_date s >>= λ d. ok (some d)

-- `_HM_RE`: `([01][0-9]|2[0-3]):([0-5][0-9])$`, where `$` admits a line feed at the end.
abbrev hm_fields : ℕ → ℕ → ℕ → ℕ → ℕ → Option ℕ
hm_fields a b k c d =
    if ((((eqb a b'0' || eqb a b'1') && is_digit b) || (eqb a b'2' && (leb b'0' b && leb b b'3')))
      && (eqb k b':' && ((leb b'0' c && leb c b'5') && is_digit d)))
    then some (two_digits a b * 60 + two_digits c d)
    else none

unfoldable pub parse_hm : List ℕ → Option ℕ
parse_hm (a ∷ b ∷ k ∷ c ∷ d ∷ []) = hm_fields a b k c d
parse_hm (a ∷ b ∷ k ∷ c ∷ d ∷ e ∷ []) = if eqb e 10 then hm_fields a b k c d else none
parse_hm _ = none

-- `_v_hm` and `_hm_minutes`: the minute of the day.
unfoldable pub hm_minutes : String → Result ℕ
unfolding parse_hm
hm_minutes s = elim (parse_hm (codes s)) [
  | none ↦ err "invalid local time; expected strict 24-hour HH:MM"
  | some m ↦ ok m
]

noon_half : hm_minutes "12:30" ≡ ok 750
unfolding hm_minutes
noon_half = refl

leap_day : check_date "2028-02-29" ≡ ok (record { year = 2028; month = 2; day = 29 })
unfolding check_date
leap_day = refl

-- `_CANONICAL_TS_RE` with `datetime.fromisoformat`: `YYYY-MM-DDTHH:MM:SS.sssZ`, a real instant.
unfoldable pub is_timestamp : List ℕ → Bool
unfolding parse_date
is_timestamp
      (y₁ ∷ y₂ ∷ y₃ ∷ y₄ ∷ p ∷ m₁ ∷ m₂ ∷ q ∷ d₁ ∷ d₂ ∷ t ∷ h₁ ∷ h₂ ∷ r ∷ n₁ ∷ n₂ ∷ u ∷ s₁ ∷ s₂ ∷ v
        ∷ f₁ ∷ f₂ ∷ f₃ ∷ z ∷ []) =
    is_some (parse_date (y₁ ∷ y₂ ∷ y₃ ∷ y₄ ∷ p ∷ m₁ ∷ m₂ ∷ q ∷ d₁ ∷ d₂ ∷ []))
    && ((eqb t b'T' && (eqb r b':' && (eqb u b':' && (eqb v b'.' && eqb z b'Z'))))
        && ((is_digit h₁ && (is_digit h₂ && leb (two_digits h₁ h₂) 23))
            && ((is_digit n₁ && (is_digit n₂ && leb (two_digits n₁ n₂) 59))
                && ((is_digit s₁ && (is_digit s₂ && leb (two_digits s₁ s₂) 59))
                    && (is_digit f₁ && (is_digit f₂ && is_digit f₃))))))
is_timestamp _ = false

-- `_v_ts`
unfoldable pub check_ts : String → Result (Unit {0})
unfolding is_timestamp
check_ts s = guard (is_timestamp (codes s)) "non-canonical timestamp"

millisecond_stamp : check_ts "2026-10-04T09:30:00.000Z" ≡ ok tt
unfolding check_ts
millisecond_stamp = refl
