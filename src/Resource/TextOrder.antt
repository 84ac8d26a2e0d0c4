-- ===== src/Resource/TextOrder.antt =====
-- Canonical timestamps compare as texts the way they compare as instants, which `min(resets)` and the check of a
-- context evidence interval (resource_state.py) rely on.
use scarcity_router.Resource.Chronology.{
  IsReal, ordinal-mono-year, ordinal-mono-month, ordinal-mono-day,
}
use scarcity_router.Resource.Instant.{instant_of, ordinal, to_instant}
use scarcity_router.Common.{
  ℕ, ◌+◌, ◌-◌, ◌*◌, ◌<◌, arith, ◌≡◌, ◌∙◌, true, List, ◌∷◌, list_lt, [], sym, refl, ◌≤◌, ltb→lt,
  lt→ltb, str_lt-cons, str_lt-total, str_lt, ◌⊎◌, String, ok, ok-injective, ◌<?◌, string_order,
  Bool-cases, ap, ltb, ◌||◌, subst, eqb, ◌&&◌, inl, inr, false,
}
use scarcity_router.Types.SafeId.{codes}
use Prim.Native.Char.{code}
use Prim.Native.String.compare as str_compare
use text.Mathlib.Text.{is_lt}
use scarcity_router.Types.Calendar.{is_digit, two_digits, Date, is_timestamp}
use scarcity_router.Resource.StampText.{AreDigits}
use scarcity_router.Resource.Stamp.{Stamp, text_of, date_in, stamp-of}
use scarcity_router.Resource.DigitOrder.{numbers_of, stamps-HasSameOrder, time_of}

-- The milliseconds of a day and a time of day.
abbrev milliseconds : ℕ → ℕ → ℕ → ℕ → ℕ → ℕ
milliseconds o h n s f = (((o * 24 + h) * 60 + n) * 60 + s) * 1000 + f

instant_of_stamp :
    (a : Stamp)
    → instant_of (text_of a)
      ≡ milliseconds
          (ordinal (date_in a))
          (two_digits a.h₁ a.h₂)
          (two_digits a.n₁ a.n₂)
          (two_digits a.s₁ a.s₂)
          ((a.f₁ - b'0') * 100 + two_digits a.f₂ a.f₃)
unfolding instant_of
instant_of_stamp a = rw (instant_of, a.date_text.parsed) refl

milliseconds-mono-day :
    (o p h n s f i m t g : ℕ)
    → h ≤ 23
    → n ≤ 59
    → s ≤ 59
    → f ≤ 999
    → o < p
    → milliseconds o h n s f < milliseconds p i m t g
milliseconds-mono-day o p h n s f i m t g h₁ h₂ h₃ h₄ h₅ = omega arith

milliseconds-mono-time :
    (o h n s f i m t g : ℕ)
    → n ≤ 59
    → s ≤ 59
    → f ≤ 999
    → list_lt (h ∷ n ∷ s ∷ f ∷ []) (i ∷ m ∷ t ∷ g ∷ []) ≡ true
    → milliseconds o h n s f < milliseconds o i m t g
milliseconds-mono-time o h n s f i m t g h₂ h₃ h₄ h₅ = ground arith

thousandths_le :
    (a b c : ℕ) → is_digit a ≡ true → AreDigits b c → (a - b'0') * 100 + two_digits b c ≤ 999
thousandths_le a b c h k = ground arith

-- The larger unit decides, or it is the same and the rest decides.
list_lt-cons :
    (x y : ℕ) (xs ys : List ℕ)
    → list_lt (x ∷ xs) (y ∷ ys) ≡ true
    → (x < y) ⊎ ((x ≡ y) × (list_lt xs ys ≡ true))
list_lt-cons x y xs ys h = elim (Bool-cases (ltb x y)) [
  | inl e ↦ inl (ltb→lt x y e)
  | inr e ↦ inr (ground arith)
]

dates-order :
    (a b : Date) (xs ys : List ℕ)
    → IsReal a
    → IsReal b
    → list_lt (a.year ∷ a.month ∷ a.day ∷ xs) (b.year ∷ b.month ∷ b.day ∷ ys) ≡ true
    → (ordinal a < ordinal b) ⊎ ((ordinal a ≡ ordinal b) × (list_lt xs ys ≡ true))
dates-order a b xs ys ra rb h =
    elim (list_lt-cons a.year b.year (a.month ∷ a.day ∷ xs) (b.month ∷ b.day ∷ ys) h) [
      | inl y ↦ inl (ordinal-mono-year a b ra rb y)
      | inr (y, from_month) ↦
          elim (list_lt-cons a.month b.month (a.day ∷ xs) (b.day ∷ ys) from_month) [
            | inl m ↦ inl (ordinal-mono-month a b ra rb y m)
            | inr (m, from_day) ↦ elim (list_lt-cons a.day b.day xs ys from_day) [
              | inl d ↦ inl (ordinal-mono-day a b y m d)
              | inr (d, rest) ↦
                  inr (ap ordinal (λ k. record { year = y k; month = m k; day = d k }), rest)
            ]
          ]
    ]

stamps_mono :
    (a b : Stamp)
    → list_lt (text_of a) (text_of b) ≡ true
    → instant_of (text_of a) < instant_of (text_of b)
stamps_mono a b h =
    let t = a.time_text in
    let below = thousandths_le a.f₁ a.f₂ a.f₃ t.tenth t.thousandth in
    let numbers : list_lt (numbers_of a) (numbers_of b) ≡ true =
      sym (stamps-HasSameOrder a b).same ∙ h in
    rw (instant_of_stamp a, instant_of_stamp b)
      (elim (dates-order (date_in a) (date_in b) (time_of a) (time_of b) a.date_text.real
        b.date_text.real numbers) [
          | inl d ↦
              milliseconds-mono-day _ _ _ _ _ _ _ _ _ _ t.hour_bound t.minute_bound t.second_bound
                below d
          | inr (d, rest) ↦
              rw d
                (milliseconds-mono-time _ _ _ _ _ _ _ _ _ t.minute_bound t.second_bound below rest)
        ])

codes-order : (s t : String) → str_lt s t ≡ list_lt (codes s) (codes t)
codes-order String.[] String.[] = ap is_lt str_compare.nil-nil
codes-order String.[] (String.◌∷◌ d t) = ap is_lt (str_compare.nil-cons d t)
codes-order (String.◌∷◌ c s) String.[] = ap is_lt (str_compare.cons-nil c s)
codes-order (String.◌∷◌ c s) (String.◌∷◌ d t) =
    str_lt-cons c d s t
    ∙ ap (λ b. ltb (code c) (code d) || (eqb (code c) (code d) && b)) (codes-order s t)

pub to_instant-parts :
    (s : String) {m : ℕ}
    → to_instant s ≡ ok m
    → (is_timestamp (codes s) ≡ true) × (instant_of (codes s) ≡ m)
unfolding to_instant
to_instant-parts s h = elim (Bool-cases (is_timestamp (codes s))) [
  | inl e ↦ (e, ok-injective (rw e at h))
  | inr e ↦ cc (rw e at h)
]

texts_mono :
    (s t : String) {m n : ℕ} → to_instant s ≡ ok m → to_instant t ≡ ok n → str_lt s t ≡ true → m < n
texts_mono s t {m} {n} h k lt =
    let (hs, es) = to_instant-parts s h in
    let (ks, et) = to_instant-parts t k in
    let (a, pa) = stamp-of (codes s) hs in
    let (b, pb) = stamp-of (codes t) ks in
    let texts : list_lt (text_of a) (text_of b) ≡ true =
      subst (λ xs. list_lt (text_of a) xs ≡ true) pb
        (subst (λ xs. list_lt xs (codes t) ≡ true) pa (sym (codes-order s t) ∙ lt)) in
    subst (λ l. l < n) (ap instant_of (sym pa) ∙ es)
      (subst (λ l. instant_of (text_of a) < l) (ap instant_of (sym pb) ∙ et)
        (stamps_mono a b texts))

same-not-ltb : (m n : ℕ) → m ≡ n → ltb m n ≡ false
same-not-ltb m n h = ground arith

-- Of two canonical timestamps the one that comes first as a text is the earlier instant, and conversely.
pub text-order_of_instants :
    (s t : String) (m n : ℕ) → to_instant s ≡ ok m → to_instant t ≡ ok n → (s <? t) ≡ ltb m n
text-order_of_instants s t m n h k = elim (Bool-cases (str_lt s t)) [
  | inl e ↦ e ∙ sym (lt→ltb m n (texts_mono s t h k e))
  | inr e ↦ elim (Bool-cases (str_lt t s)) [
    | inl f ↦ let later = texts_mono t s k h f in e ∙ ground arith
    | inr f ↦
        e ∙ sym (same-not-ltb m n (ok-injective (sym h ∙ ap to_instant (str_lt-total s t e f) ∙ k)))
  ]
]
