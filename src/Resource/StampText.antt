-- ===== src/Resource/StampText.antt =====
-- The digits and marks of a canonical timestamp (resource_state.py `_ts_to_datetime`).
use scarcity_router.Common.{
  ℕ, ◌+◌, ◌*◌, ◌≤◌, arith, ◌≡◌, refl, Bool, true, false, ◌&&◌, [], ◌∷◌, leb, eqb, &&-eq-true,
  is_some, if◌then◌else◌, some, none, eqb_iff, leb→le,
}
use scarcity_router.Types.Calendar.{
  Date, is_digit, two_digits, parse_date, is_timestamp, days_in_month,
}
use scarcity_router.Resource.Chronology.{IsReal}

abbrev pub AreDigits : ℕ → ℕ → Type 0
AreDigits a b = (is_digit a && is_digit b) ≡ true

if-some :
    {A : Type 0} (c : Bool) {a : A}
    → is_some (if c then some a else none) ≡ true
    → (c ≡ true) × ((if c then some a else none) ≡ some a)
if-some true h = (refl, refl)
if-some false h = cc

-- The date that the first ten digits and marks name.
abbrev pub date_of : ℕ → ℕ → ℕ → ℕ → ℕ → ℕ → ℕ → ℕ → Date
date_of y₁ y₂ y₃ y₄ m₁ m₂ d₁ d₂ = record {
  year = two_digits y₁ y₂ * 100 + two_digits y₃ y₄;
  month = two_digits m₁ m₂;
  day = two_digits d₁ d₂;
}

abbrev are_digits₈ : ℕ → ℕ → ℕ → ℕ → ℕ → ℕ → ℕ → ℕ → Bool
are_digits₈ a b c d e f g i =
    is_digit a
    && (is_digit b
        && (is_digit c
            && (is_digit d && (is_digit e && (is_digit f && (is_digit g && is_digit i))))))

pub record IsDateText (y₁ y₂ y₃ y₄ p m₁ m₂ q d₁ d₂ : ℕ) : Type 0 where
  pub century : AreDigits y₁ y₂
  pub year : AreDigits y₃ y₄
  pub dash₁ : p ≡ b'-'
  pub month : AreDigits m₁ m₂
  pub dash₂ : q ≡ b'-'
  pub day : AreDigits d₁ d₂
  pub real : IsReal (date_of y₁ y₂ y₃ y₄ m₁ m₂ d₁ d₂)
  pub parsed :
      parse_date (y₁ ∷ y₂ ∷ y₃ ∷ y₄ ∷ p ∷ m₁ ∷ m₂ ∷ q ∷ d₁ ∷ d₂ ∷ [])
      ≡ some (date_of y₁ y₂ y₃ y₄ m₁ m₂ d₁ d₂)

pairs :
    (a b c d e f g i : Bool)
    → (a && (b && (c && (d && (e && (f && (g && i))))))) ≡ true
    → ((a && b) ≡ true) × ((c && d) ≡ true) × ((e && f) ≡ true) × ((g && i) ≡ true)
pairs a b c d e f g i h = ground arith

parse_date-IsDateText :
    (y₁ y₂ y₃ y₄ p m₁ m₂ q d₁ d₂ : ℕ)
    → is_some (parse_date (y₁ ∷ y₂ ∷ y₃ ∷ y₄ ∷ p ∷ m₁ ∷ m₂ ∷ q ∷ d₁ ∷ d₂ ∷ [])) ≡ true
    → IsDateText y₁ y₂ y₃ y₄ p m₁ m₂ q d₁ d₂
unfolding parse_date
parse_date-IsDateText y₁ y₂ y₃ y₄ p m₁ m₂ q d₁ d₂ h =
    let (c, parsed) = if-some _ h in
    let marks : Bool = eqb p b'-' && eqb q b'-' in
    let month_end : ℕ =
      days_in_month (two_digits y₁ y₂ * 100 + two_digits y₃ y₄) (two_digits m₁ m₂) in
    let is_month : Bool = leb 1 (two_digits m₁ m₂) && leb (two_digits m₁ m₂) 12 in
    let is_day : Bool = leb 1 (two_digits d₁ d₂) && leb (two_digits d₁ d₂) month_end in
    let numbers : Bool =
      leb 1 (two_digits y₁ y₂ * 100 + two_digits y₃ y₄) && (is_month && is_day) in
    let (digits, rest) = &&-eq-true (are_digits₈ y₁ y₂ y₃ y₄ m₁ m₂ d₁ d₂) (marks && numbers) c in
    let (pair₁, pair₂, pair₃, pair₄) =
      pairs (is_digit y₁) (is_digit y₂) (is_digit y₃) (is_digit y₄) (is_digit m₁) (is_digit m₂)
        (is_digit d₁) (is_digit d₂) digits in
    let (dashes, real) = &&-eq-true marks numbers rest in
    let (dash₁, dash₂) = &&-eq-true (eqb p b'-') (eqb q b'-') dashes in
    let (year, rest) =
      &&-eq-true (leb 1 (two_digits y₁ y₂ * 100 + two_digits y₃ y₄)) (is_month && is_day) real in
    let (month, day) = &&-eq-true is_month is_day rest in
    let (low, high) = &&-eq-true (leb 1 (two_digits m₁ m₂)) (leb (two_digits m₁ m₂) 12) month in
    let (first, last) =
      &&-eq-true (leb 1 (two_digits d₁ d₂)) (leb (two_digits d₁ d₂) month_end) day in
    record {
      century = pair₁;
      year = pair₂;
      dash₁ = (eqb_iff p b'-').0 dash₁;
      month = pair₃;
      dash₂ = (eqb_iff q b'-').0 dash₂;
      day = pair₄;
      real = record {
        has_year = leb→le 1 (two_digits y₁ y₂ * 100 + two_digits y₃ y₄) year;
        has_month = leb→le 1 (two_digits m₁ m₂) low;
        month_bound = leb→le (two_digits m₁ m₂) 12 high;
        has_day = leb→le 1 (two_digits d₁ d₂) first;
        day_bound = leb→le (two_digits d₁ d₂) month_end last;
      };
      parsed = parsed;
    }

-- The time of day behind the date.
pub record IsTimeText (t h₁ h₂ r n₁ n₂ u s₁ s₂ v f₁ f₂ f₃ z : ℕ) : Type 0 where
  pub mark_t : t ≡ b'T'
  pub hour : AreDigits h₁ h₂
  pub hour_bound : two_digits h₁ h₂ ≤ 23
  pub colon₁ : r ≡ b':'
  pub minute : AreDigits n₁ n₂
  pub minute_bound : two_digits n₁ n₂ ≤ 59
  pub colon₂ : u ≡ b':'
  pub second : AreDigits s₁ s₂
  pub second_bound : two_digits s₁ s₂ ≤ 59
  pub point : v ≡ b'.'
  pub tenth : is_digit f₁ ≡ true
  pub thousandth : AreDigits f₂ f₃
  pub mark_z : z ≡ b'Z'

abbrev is_field : ℕ → ℕ → ℕ → Bool
is_field a b bound = is_digit a && (is_digit b && leb (two_digits a b) bound)

field_parts : (a b bound : ℕ) → is_field a b bound ≡ true → AreDigits a b × two_digits a b ≤ bound
field_parts a b bound h = (ground arith, ground arith)

abbrev are_marks : ℕ → ℕ → ℕ → ℕ → ℕ → Bool
are_marks t r u v z = eqb t b'T' && (eqb r b':' && (eqb u b':' && (eqb v b'.' && eqb z b'Z')))

abbrev are_thousandths : ℕ → ℕ → ℕ → Bool
are_thousandths a b c = is_digit a && (is_digit b && is_digit c)

marks_parts :
    (t r u v z : ℕ)
    → are_marks t r u v z ≡ true
    → (t ≡ b'T') × (r ≡ b':') × (u ≡ b':') × (v ≡ b'.') × (z ≡ b'Z')
marks_parts t r u v z h = (ground arith, ground arith, ground arith, ground arith, ground arith)

pub is_timestamp-parts :
    (y₁ y₂ y₃ y₄ p m₁ m₂ q d₁ d₂ t h₁ h₂ r n₁ n₂ u s₁ s₂ v f₁ f₂ f₃ z : ℕ)
    → is_timestamp (
        y₁ ∷ y₂ ∷ y₃ ∷ y₄ ∷ p ∷ m₁ ∷ m₂ ∷ q ∷ d₁ ∷ d₂ ∷ t ∷ h₁ ∷ h₂ ∷ r ∷ n₁ ∷ n₂ ∷ u ∷ s₁ ∷ s₂ ∷ v
        ∷ f₁ ∷ f₂ ∷ f₃ ∷ z ∷ [])
      ≡ true
    → IsDateText y₁ y₂ y₃ y₄ p m₁ m₂ q d₁ d₂ × IsTimeText t h₁ h₂ r n₁ n₂ u s₁ s₂ v f₁ f₂ f₃ z
unfolding is_timestamp
is_timestamp-parts y₁ y₂ y₃ y₄ p m₁ m₂ q d₁ d₂ t h₁ h₂ r n₁ n₂ u s₁ s₂ v f₁ f₂ f₃ z h =
    let hours : Bool = is_field h₁ h₂ 23 in
    let minutes : Bool = is_field n₁ n₂ 59 in
    let seconds : Bool = is_field s₁ s₂ 59 in
    let thousandths : Bool = are_thousandths f₁ f₂ f₃ in
    let clock : Bool = hours && (minutes && (seconds && thousandths)) in
    let (date, time) =
      &&-eq-true (is_some (parse_date (y₁ ∷ y₂ ∷ y₃ ∷ y₄ ∷ p ∷ m₁ ∷ m₂ ∷ q ∷ d₁ ∷ d₂ ∷ [])))
        (are_marks t r u v z && clock) h in
    let (marks, fields) = &&-eq-true (are_marks t r u v z) clock time in
    let (hour, from_minute) = &&-eq-true hours (minutes && (seconds && thousandths)) fields in
    let (minute, from_second) = &&-eq-true minutes (seconds && thousandths) from_minute in
    let (second, rest) = &&-eq-true seconds thousandths from_second in
    let (tenth, thousandth) = &&-eq-true (is_digit f₁) (is_digit f₂ && is_digit f₃) rest in
    let (mark_t, colon₁, colon₂, point, mark_z) = marks_parts t r u v z marks in
    (
      parse_date-IsDateText y₁ y₂ y₃ y₄ p m₁ m₂ q d₁ d₂ date,
      record {
        mark_t = mark_t;
        hour = (field_parts h₁ h₂ 23 hour).0;
        hour_bound = (field_parts h₁ h₂ 23 hour).1;
        colon₁ = colon₁;
        minute = (field_parts n₁ n₂ 59 minute).0;
        minute_bound = (field_parts n₁ n₂ 59 minute).1;
        colon₂ = colon₂;
        second = (field_parts s₁ s₂ 59 second).0;
        second_bound = (field_parts s₁ s₂ 59 second).1;
        point = point;
        tenth = tenth;
        thousandth = thousandth;
        mark_z = mark_z;
      },
    )
