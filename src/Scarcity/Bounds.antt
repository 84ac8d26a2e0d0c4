-- ===== src/Scarcity/Bounds.antt =====
-- The measures keep within their ranges and never reverse an order.
use scarcity_router.Common.{
  ok, ℕ, ◌+◌, ◌-◌, ◌*◌, ◌≤◌, ◌<◌, min, ◌≡◌, ◌⊎◌, inl, inr, some, arith, ltb, ltb→lt, not-ltb→le,
  Bool-cases, nat_eq, string_eq, option_eq, list_eq, pair_eq, nat_order, string_order, pair_order,
  list_order,
}
use scarcity_router.Scarcity.Measure.{
  blend, blended_effective_remaining_percent, scarcity_penalty_units,
}
use scarcity_router.Scarcity.Assessment.{reason_eq, reason_order, role_eq, label_eq, evidence_eq}

pub square_mono : (a b : ℕ) → a ≤ b → a * a ≤ b * b
square_mono a b h = grind arith

pub le_of_square-le : (a b : ℕ) → a * a ≤ b * b → a ≤ b
le_of_square-le a b h = elim (Bool-cases (ltb b a)) [
  | inl e ↦ absurd (strict (ltb→lt b a e))
  | inr e ↦ not-ltb→le b a e
]
  where
    strict : b < a → ⊥
    strict lt = omega (arith, square_mono (b + 1) a (omega arith))

pub lt_of_square-lt : (a b : ℕ) → a < b → a * a < b * b
lt_of_square-lt a b h = omega (arith, square_mono (a + 1) b (omega arith))

-- The penalty in units of a percentage that passes the check.
abbrev pub penalty : ℕ → ℕ
penalty remaining = (100 - remaining) * (100 - remaining)

pub scarcity_penalty_units-ok : (r : ℕ) → r ≤ 100 → scarcity_penalty_units r ≡ ok (penalty r)
unfolding scarcity_penalty_units
scarcity_penalty_units-ok r h = ground arith

pub penalty-reflects_le : (r s : ℕ) → r ≤ 100 → s ≤ 100 → penalty r ≤ penalty s → s ≤ r
penalty-reflects_le r s h k le = omega (arith, le_of_square-le (100 - r) (100 - s) le)

-- Of two percentages the smaller has the strictly greater penalty, and no penalty passes the scale
-- of 10000 units.
pub scarcity_penalty_units-antitone :
    (r s : ℕ)
    → r < s
    → s ≤ 100
    → (p : ℕ) × (q : ℕ) × (scarcity_penalty_units r ≡ ok p)
      × (scarcity_penalty_units s ≡ ok q)
      × (q < p)
      × (p ≤ 10000)
scarcity_penalty_units-antitone r s h k = (
  penalty r,
  penalty s,
  scarcity_penalty_units-ok r (omega arith),
  scarcity_penalty_units-ok s k,
  lt_of_square-lt (100 - s) (100 - r) (omega arith),
  square_mono (100 - r) 100 (omega arith),
)

-- Where both roles are known the blend is between the smaller and the greater of the two percentages, and
-- it is the weighted mean `(a + 5 * b) / 6`, rounded down.
pub blended_effective_remaining_percent_bounds :
    (a b : ℕ)
    → a ≤ 100
    → b ≤ 100
    → (e : ℕ) × (blended_effective_remaining_percent (some a) (some b) ≡ ok e)
      × (min a b ≤ e)
      × ((e ≤ a) ⊎ (e ≤ b))
      × (6 * e ≤ a + 5 * b)
      × (a + 5 * b < 6 * e + 6)
unfolding blended_effective_remaining_percent
blended_effective_remaining_percent_bounds a b h k =
    (blend a b, ground arith, omega arith, either, omega arith, omega arith)
  where
    either : (blend a b ≤ a) ⊎ (blend a b ≤ b)
    either = omega arith
