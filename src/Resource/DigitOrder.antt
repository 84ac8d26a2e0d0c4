-- ===== src/Resource/DigitOrder.antt =====
-- Canonical timestamps (resource_state.py `_CANONICAL_TS_RE`) compare as their numbers do.
use scarcity_router.Common.{
  ℕ, ◌+◌, ◌-◌, ◌*◌, ◌<◌, arith, ◌≡◌, ◌∙◌, true, List, ◌∷◌, list_lt, [], sym, refl, string_order,
}
use scarcity_router.Types.Calendar.{is_digit, two_digits}
use scarcity_router.Resource.StampText.{AreDigits}
use scarcity_router.Resource.Stamp.{Stamp, text_of, date_in}

-- The comparison of two lists is that of two others.
pub record HasSameOrder (xs ys vs ws : List ℕ) : Type 0 where
  pub same : list_lt xs ys ≡ list_lt vs ws

order-same_head :
    {a b : ℕ} {xs ys vs ws : List ℕ}
    → a ≡ b
    → HasSameOrder xs ys vs ws
    → HasSameOrder (a ∷ xs) (b ∷ ys) vs ws
order-same_head h o = let e = o.same in record { same = ground (arith, e) }

order-digits :
    {a b c d : ℕ} {xs ys vs ws : List ℕ}
    → AreDigits a b
    → AreDigits c d
    → HasSameOrder xs ys vs ws
    → HasSameOrder (a ∷ b ∷ xs) (c ∷ d ∷ ys) (two_digits a b ∷ vs) (two_digits c d ∷ ws)
order-digits h k o = let e = o.same in record { same = ground (arith, e) }

order-hundreds :
    {a b c d : ℕ} {xs ys vs ws : List ℕ}
    → b < 100
    → d < 100
    → HasSameOrder xs ys (a ∷ b ∷ vs) (c ∷ d ∷ ws)
    → HasSameOrder xs ys ((a * 100 + b) ∷ vs) ((c * 100 + d) ∷ ws)
order-hundreds h k o = let e = o.same in record { same = e ∙ ground arith }

order-digit :
    {a b : ℕ} {xs ys vs ws : List ℕ}
    → is_digit a ≡ true
    → is_digit b ≡ true
    → HasSameOrder xs ys vs ws
    → HasSameOrder (a ∷ xs) (b ∷ ys) ((a - b'0') ∷ vs) ((b - b'0') ∷ ws)
order-digit h k o = let e = o.same in record { same = ground (arith, e) }

two_digits_lt : (a b : ℕ) → AreDigits a b → two_digits a b < 100
two_digits_lt a b h = ground arith

-- The numbers of a timestamp, the larger unit first.
abbrev pub time_of : Stamp → List ℕ
time_of a =
    two_digits a.h₁ a.h₂
    ∷ two_digits a.n₁ a.n₂
    ∷ two_digits a.s₁ a.s₂
    ∷ ((a.f₁ - b'0') * 100 + two_digits a.f₂ a.f₃)
    ∷ []

abbrev pub numbers_of : Stamp → List ℕ
numbers_of a = (date_in a).year ∷ (date_in a).month ∷ (date_in a).day ∷ time_of a

pub stamps-HasSameOrder :
    (a b : Stamp) → HasSameOrder (text_of a) (text_of b) (numbers_of a) (numbers_of b)
stamps-HasSameOrder a b =
    let d = a.date_text in
    let e = b.date_text in
    let t = a.time_text in
    let u = b.time_text in
    let ended : HasSameOrder [] [] [] [] = record { same = refl } in
    let thousandths =
      order-hundreds (two_digits_lt a.f₂ a.f₃ t.thousandth) (two_digits_lt b.f₂ b.f₃ u.thousandth) (
        order-digit t.tenth u.tenth (
          order-digits t.thousandth u.thousandth
            (order-same_head (t.mark_z ∙ sym u.mark_z) ended))) in
    let seconds =
      order-digits t.second u.second (order-same_head (t.point ∙ sym u.point) thousandths) in
    let minutes =
      order-digits t.minute u.minute (order-same_head (t.colon₂ ∙ sym u.colon₂) seconds) in
    let hours = order-digits t.hour u.hour (order-same_head (t.colon₁ ∙ sym u.colon₁) minutes) in
    let days = order-digits d.day e.day (order-same_head (t.mark_t ∙ sym u.mark_t) hours) in
    let months = order-digits d.month e.month (order-same_head (d.dash₂ ∙ sym e.dash₂) days) in
    order-hundreds (two_digits_lt a.y₃ a.y₄ d.year) (two_digits_lt b.y₃ b.y₄ e.year) (
      order-digits d.century e.century
        (order-digits d.year e.year (order-same_head (d.dash₁ ∙ sym e.dash₁) months)))
