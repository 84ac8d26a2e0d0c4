-- ===== src/Policy/Windows.antt =====
-- The weekly window is the set of instants less than its length after its start on a configured day.
use mathlib.Core.Path.{ap₂}
use scarcity_router.Common.{
  true, false, inl, inr, Bool-cases, ℕ, ◌+◌, ◌-◌, ◌*◌, ◌%◌, ◌<◌, ◌≡◌, ap, Bool, ◌&&◌, ◌||◌, List,
  [], ◌∷◌, arith, ltb, leb, if◌then◌else◌, any, ◌==◌, nat_eq, string_eq, option_eq, contains,
  list_eq, pair_eq, nat_order, string_order, pair_order, list_order, ◌∙◌, true, Bool-cases, ◌≤◌,
  ◌⊎◌, refl, sym,
}
use scarcity_router.Policy.{
  mon, tue, wed, thu, fri, sat, sun, policy_reason_eq, policy_reason_order, Weekday, mon, wed,
}
use scarcity_router.Policy.Schedule.{
  LocalTime, weekday_index, weekday_eq, weekday_order, previous_day, minute_of_day, window_covers,
}

-- The minute of the week.
abbrev pub week_minute : Weekday → ℕ → ℕ
week_minute d m = weekday_index d * 1440 + m

-- Minutes since the last time that the clock showed `start` on the day `d`; a week has 10080.
abbrev pub elapsed : Weekday → ℕ → LocalTime → ℕ
elapsed d start local =
    ((week_minute local.weekday (minute_of_day local) + 10080) - week_minute d start) % 10080

-- The length of `[start, end)`, over midnight unless `start < end`.
abbrev pub window_length : ℕ → ℕ → ℕ
window_length start end = if ltb start end then end - start else (end + 1440) - start

pub record IsClock (local : LocalTime) : Type 0 where
  pub hours : local.hour < 24
  pub minutes : local.minute < 60

-- The two tests of one configured day.
abbrev one_day : Bool → ℕ → ℕ → ℕ → Weekday → Weekday → Bool
one_day in_order start end m day d =
    if in_order
    then d == day && (leb start m && ltb m end)
    else (d == day && leb start m) || (d == previous_day day && ltb m end)

contains-any :
    (days : List Weekday) (day : Weekday) (b : Bool)
    → (contains days day && b) ≡ any (λ d. d == day && b) days
unfolding contains
contains-any [] day b = refl
contains-any (d ∷ days) day b =
    distribute (d == day) (contains days day) b
    ∙ ap (λ c. (d == day && b) || c) (contains-any days day b)
  where
    distribute : (x y z : Bool) → ((x || y) && z) ≡ ((x && z) || (y && z))
    distribute x y z = ground arith

any_or :
    (p q : Weekday → Bool) (days : List Weekday)
    → (any p days || any q days) ≡ any (λ d. p d || q d) days
any_or p q [] = refl
any_or p q (d ∷ days) =
    shuffle (p d) (any p days) (q d) (any q days) ∙ ap (λ c. (p d || q d) || c) (any_or p q days)
  where
    shuffle : (x y z w : Bool) → ((x || y) || (z || w)) ≡ ((x || z) || (y || w))
    shuffle x y z w = ground arith

if_or : (x y : Bool) → (if x then true else y) ≡ (x || y)
if_or true y = refl
if_or false y = refl

window_covers-any :
    (days : List Weekday) (start end : ℕ) (local : LocalTime)
    → window_covers days start end local
      ≡ any (one_day (ltb start end) start end (minute_of_day local) local.weekday) days
unfolding window_covers
window_covers-any days start end local =
    let day = local.weekday in
    let m = minute_of_day local in
    elim (Bool-cases (ltb start end)) [
      | inl e ↦ rw e (contains-any days day (leb start m && ltb m end))
      | inr e ↦ rw e (
          if_or (contains days day && leb start m) (contains days (previous_day day) && ltb m end)
          ∙ ap₂ (λ x y. x || y) (contains-any days day (leb start m))
              (contains-any days (previous_day day) (ltb m end))
          ∙ any_or (λ d. d == day && leb start m) (λ d. d == previous_day day && ltb m end) days)
    ]

same_evening :
    (i m j s e : ℕ)
    → i < 7
    → j < 7
    → m < 1440
    → s < e
    → e < 1440
    → ((i * 1440 + m + 10080) - (j * 1440 + s)) % 10080 < e - s
    → (j ≡ i) × (s ≤ m) × (m < e)
same_evening i m j s e hi hj hm hs he h = (omega arith, omega arith, omega arith)

same_evening_rev :
    (i m j s e : ℕ)
    → i < 7
    → j ≡ i
    → m < e
    → s ≤ m
    → e < 1440
    → ((i * 1440 + m + 10080) - (j * 1440 + s)) % 10080 < e - s
same_evening_rev i m j s e hi hj hm hs he = omega arith

over_midnight_rev :
    (i m p j s e : ℕ)
    → i < 7
    → p < 7
    → (p * 1440 + 1440) % 10080 ≡ i * 1440
    → m < 1440
    → e ≤ s
    → s < 1440
    → ((j ≡ i) × (s ≤ m)) ⊎ ((j ≡ p) × (m < e))
    → ((i * 1440 + m + 10080) - (j * 1440 + s)) % 10080 < (e + 1440) - s
over_midnight_rev i m p j s e hi hp prev hm he hs (inl (h, k)) = omega arith
over_midnight_rev i m p j s e hi hp prev hm he hs (inr (h, k)) = omega arith

over_midnight :
    (i m p j s e : ℕ)
    → i < 7
    → p < 7
    → j < 7
    → (p * 1440 + 1440) % 10080 ≡ i * 1440
    → m < 1440
    → e ≤ s
    → s < 1440
    → ((i * 1440 + m + 10080) - (j * 1440 + s)) % 10080 < (e + 1440) - s
    → ((j ≡ i) × (s ≤ m)) ⊎ ((j ≡ p) × (m < e))
over_midnight i m p j s e hi hp hj prev hm he hs h = ground arith

weekday_index-bound : (d : Weekday) → weekday_index d < 7
weekday_index-bound d = ground arith

previous_day-index :
    (d : Weekday) → (weekday_index (previous_day d) * 1440 + 1440) % 10080 ≡ weekday_index d * 1440
previous_day-index mon = refl
previous_day-index tue = refl
previous_day-index wed = refl
previous_day-index thu = refl
previous_day-index fri = refl
previous_day-index sat = refl
previous_day-index sun = refl

bool_ext : (a b : Bool) → (a ≡ true → b ≡ true) → (b ≡ true → a ≡ true) → a ≡ b
bool_ext true b f g = sym (f refl)
bool_ext false true f g = g refl
bool_ext false false f g = refl

minute_of_day-bound : (local : LocalTime) → IsClock local → minute_of_day local < 1440
minute_of_day-bound local h = omega (arith, h.hours, h.minutes)

-- For one day the two tests say that less than the window's length has elapsed.
one_day-elapsed :
    (start end : ℕ) (local : LocalTime) (d : Weekday)
    → start < 1440
    → end < 1440
    → IsClock local
    → one_day (ltb start end) start end (minute_of_day local) local.weekday d
      ≡ ltb (elapsed d start local) (window_length start end)
one_day-elapsed start end local d h k clock = elim (Bool-cases (ltb start end)) [
  | inl e ↦ rw e (
      bool_ext _ _
        (λ q. ground (arith, same_evening_rev i m j start end (weekday_index-bound day), q))
        (λ q. ground (
          arith,
          same_evening i m j start end (weekday_index-bound day) (weekday_index-bound d) minute,
        )))
  | inr e ↦ rw e (
      bool_ext _ _
        (λ q. ground (
          arith,
          over_midnight_rev i m p j start end (weekday_index-bound day)
              (weekday_index-bound (previous_day day)) (previous_day-index day) minute,
          q,
        ))
        (λ q. ground (
          arith,
          over_midnight i m p j start end (weekday_index-bound day)
              (weekday_index-bound (previous_day day)) (weekday_index-bound d)
              (previous_day-index day) minute,
        )))
]
  where
    day : Weekday
    day = local.weekday

    i : ℕ
    i = weekday_index day

    j : ℕ
    j = weekday_index d

    p : ℕ
    p = weekday_index (previous_day day)

    m : ℕ
    m = minute_of_day local

    minute : m < 1440
    minute = minute_of_day-bound local clock

any-cong :
    (p q : Weekday → Bool) (days : List Weekday)
    → ((d : Weekday) → p d ≡ q d)
    → any p days ≡ any q days
any-cong p q [] h = refl
any-cong p q (d ∷ days) h = ap₂ (λ x y. x || y) (h d) (any-cong p q days h)

-- For minutes of the day `start` and `end` and a clock's local time, the window covers the time just if
-- less than its length has elapsed since its start on one of the configured days. The length is
-- `end - start` where `start < end`, else it runs over midnight, and equal ends make a whole day.
pub window_covers-elapsed :
    (days : List Weekday) (start end : ℕ) (local : LocalTime)
    → start < 1440
    → end < 1440
    → IsClock local
    → window_covers days start end local
      ≡ any (λ d. ltb (elapsed d start local) (window_length start end)) days
window_covers-elapsed days start end local h k clock =
    window_covers-any days start end local
    ∙ any-cong _ _ days (λ d. one_day-elapsed start end local d h k clock)
