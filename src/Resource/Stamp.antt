-- ===== src/Resource/Stamp.antt =====
-- A canonical timestamp (resource_state.py `_CANONICAL_TS_RE`) as its digits and marks.
use scarcity_router.Common.{ℕ, ◌≡◌, refl, true, List, [], ◌∷◌}
use scarcity_router.Types.Calendar.{Date, is_timestamp}
use scarcity_router.Resource.StampText.{date_of, IsDateText, IsTimeText, is_timestamp-parts}

-- A canonical timestamp, digit by digit.
pub record Stamp : Type 0 where
  pub y₁ : ℕ
  pub y₂ : ℕ
  pub y₃ : ℕ
  pub y₄ : ℕ
  pub p : ℕ
  pub m₁ : ℕ
  pub m₂ : ℕ
  pub q : ℕ
  pub d₁ : ℕ
  pub d₂ : ℕ
  pub t : ℕ
  pub h₁ : ℕ
  pub h₂ : ℕ
  pub r : ℕ
  pub n₁ : ℕ
  pub n₂ : ℕ
  pub u : ℕ
  pub s₁ : ℕ
  pub s₂ : ℕ
  pub v : ℕ
  pub f₁ : ℕ
  pub f₂ : ℕ
  pub f₃ : ℕ
  pub z : ℕ
  pub date_text : IsDateText y₁ y₂ y₃ y₄ p m₁ m₂ q d₁ d₂
  pub time_text : IsTimeText t h₁ h₂ r n₁ n₂ u s₁ s₂ v f₁ f₂ f₃ z

abbrev pub text_of : Stamp → List ℕ
text_of a =
    a.y₁ ∷ a.y₂ ∷ a.y₃ ∷ a.y₄ ∷ a.p ∷ a.m₁ ∷ a.m₂ ∷ a.q ∷ a.d₁ ∷ a.d₂ ∷ a.t ∷ a.h₁ ∷ a.h₂ ∷ a.r
    ∷ a.n₁ ∷ a.n₂ ∷ a.u ∷ a.s₁ ∷ a.s₂ ∷ a.v ∷ a.f₁ ∷ a.f₂ ∷ a.f₃ ∷ a.z ∷ []

abbrev pub date_in : Stamp → Date
date_in a = date_of a.y₁ a.y₂ a.y₃ a.y₄ a.m₁ a.m₂ a.d₁ a.d₂

pub stamp-of : (xs : List ℕ) → is_timestamp xs ≡ true → (a : Stamp) × (xs ≡ text_of a)
unfolding is_timestamp
stamp-of ([]) h = cc
stamp-of (y₁ ∷ []) h = cc
stamp-of (y₁ ∷ y₂ ∷ []) h = cc
stamp-of (y₁ ∷ y₂ ∷ y₃ ∷ []) h = cc
stamp-of (y₁ ∷ y₂ ∷ y₃ ∷ y₄ ∷ []) h = cc
stamp-of (y₁ ∷ y₂ ∷ y₃ ∷ y₄ ∷ p ∷ []) h = cc
stamp-of (y₁ ∷ y₂ ∷ y₃ ∷ y₄ ∷ p ∷ m₁ ∷ []) h = cc
stamp-of (y₁ ∷ y₂ ∷ y₃ ∷ y₄ ∷ p ∷ m₁ ∷ m₂ ∷ []) h = cc
stamp-of (y₁ ∷ y₂ ∷ y₃ ∷ y₄ ∷ p ∷ m₁ ∷ m₂ ∷ q ∷ []) h = cc
stamp-of (y₁ ∷ y₂ ∷ y₃ ∷ y₄ ∷ p ∷ m₁ ∷ m₂ ∷ q ∷ d₁ ∷ []) h = cc
stamp-of (y₁ ∷ y₂ ∷ y₃ ∷ y₄ ∷ p ∷ m₁ ∷ m₂ ∷ q ∷ d₁ ∷ d₂ ∷ []) h = cc
stamp-of (y₁ ∷ y₂ ∷ y₃ ∷ y₄ ∷ p ∷ m₁ ∷ m₂ ∷ q ∷ d₁ ∷ d₂ ∷ t ∷ []) h = cc
stamp-of (y₁ ∷ y₂ ∷ y₃ ∷ y₄ ∷ p ∷ m₁ ∷ m₂ ∷ q ∷ d₁ ∷ d₂ ∷ t ∷ h₁ ∷ []) h = cc
stamp-of (y₁ ∷ y₂ ∷ y₃ ∷ y₄ ∷ p ∷ m₁ ∷ m₂ ∷ q ∷ d₁ ∷ d₂ ∷ t ∷ h₁ ∷ h₂ ∷ []) h = cc
stamp-of (y₁ ∷ y₂ ∷ y₃ ∷ y₄ ∷ p ∷ m₁ ∷ m₂ ∷ q ∷ d₁ ∷ d₂ ∷ t ∷ h₁ ∷ h₂ ∷ r ∷ []) h = cc
stamp-of (y₁ ∷ y₂ ∷ y₃ ∷ y₄ ∷ p ∷ m₁ ∷ m₂ ∷ q ∷ d₁ ∷ d₂ ∷ t ∷ h₁ ∷ h₂ ∷ r ∷ n₁ ∷ []) h = cc
stamp-of (y₁ ∷ y₂ ∷ y₃ ∷ y₄ ∷ p ∷ m₁ ∷ m₂ ∷ q ∷ d₁ ∷ d₂ ∷ t ∷ h₁ ∷ h₂ ∷ r ∷ n₁ ∷ n₂ ∷ []) h = cc
stamp-of (y₁ ∷ y₂ ∷ y₃ ∷ y₄ ∷ p ∷ m₁ ∷ m₂ ∷ q ∷ d₁ ∷ d₂ ∷ t ∷ h₁ ∷ h₂ ∷ r ∷ n₁ ∷ n₂ ∷ u ∷ []) h = cc
stamp-of (y₁ ∷ y₂ ∷ y₃ ∷ y₄ ∷ p ∷ m₁ ∷ m₂ ∷ q ∷ d₁ ∷ d₂ ∷ t ∷ h₁ ∷ h₂ ∷ r ∷ n₁ ∷ n₂ ∷ u ∷ s₁ ∷ [])
      h =
    cc
stamp-of
      (y₁ ∷ y₂ ∷ y₃ ∷ y₄ ∷ p ∷ m₁ ∷ m₂ ∷ q ∷ d₁ ∷ d₂ ∷ t ∷ h₁ ∷ h₂ ∷ r ∷ n₁ ∷ n₂ ∷ u ∷ s₁ ∷ s₂ ∷ [])
      h =
    cc
stamp-of
      (y₁ ∷ y₂ ∷ y₃ ∷ y₄ ∷ p ∷ m₁ ∷ m₂ ∷ q ∷ d₁ ∷ d₂ ∷ t ∷ h₁ ∷ h₂ ∷ r ∷ n₁ ∷ n₂ ∷ u ∷ s₁ ∷ s₂ ∷ v
        ∷ [])
      h =
    cc
stamp-of
      (y₁ ∷ y₂ ∷ y₃ ∷ y₄ ∷ p ∷ m₁ ∷ m₂ ∷ q ∷ d₁ ∷ d₂ ∷ t ∷ h₁ ∷ h₂ ∷ r ∷ n₁ ∷ n₂ ∷ u ∷ s₁ ∷ s₂ ∷ v
        ∷ f₁ ∷ [])
      h =
    cc
stamp-of
      (y₁ ∷ y₂ ∷ y₃ ∷ y₄ ∷ p ∷ m₁ ∷ m₂ ∷ q ∷ d₁ ∷ d₂ ∷ t ∷ h₁ ∷ h₂ ∷ r ∷ n₁ ∷ n₂ ∷ u ∷ s₁ ∷ s₂ ∷ v
        ∷ f₁ ∷ f₂ ∷ [])
      h =
    cc
stamp-of
      (y₁ ∷ y₂ ∷ y₃ ∷ y₄ ∷ p ∷ m₁ ∷ m₂ ∷ q ∷ d₁ ∷ d₂ ∷ t ∷ h₁ ∷ h₂ ∷ r ∷ n₁ ∷ n₂ ∷ u ∷ s₁ ∷ s₂ ∷ v
        ∷ f₁ ∷ f₂ ∷ f₃ ∷ [])
      h =
    cc
stamp-of
      (y₁ ∷ y₂ ∷ y₃ ∷ y₄ ∷ p ∷ m₁ ∷ m₂ ∷ q ∷ d₁ ∷ d₂ ∷ t ∷ h₁ ∷ h₂ ∷ r ∷ n₁ ∷ n₂ ∷ u ∷ s₁ ∷ s₂ ∷ v
        ∷ f₁ ∷ f₂ ∷ f₃ ∷ z ∷ [])
      h =
    let (date, time) =
      is_timestamp-parts y₁ y₂ y₃ y₄ p m₁ m₂ q d₁ d₂ t h₁ h₂ r n₁ n₂ u s₁ s₂ v f₁ f₂ f₃ z h in
    (
      record {
        y₁ = y₁;
        y₂ = y₂;
        y₃ = y₃;
        y₄ = y₄;
        p = p;
        m₁ = m₁;
        m₂ = m₂;
        q = q;
        d₁ = d₁;
        d₂ = d₂;
        t = t;
        h₁ = h₁;
        h₂ = h₂;
        r = r;
        n₁ = n₁;
        n₂ = n₂;
        u = u;
        s₁ = s₁;
        s₂ = s₂;
        v = v;
        f₁ = f₁;
        f₂ = f₂;
        f₃ = f₃;
        z = z;
        date_text = date;
        time_text = time;
      },
      refl,
    )
stamp-of
      (y₁ ∷ y₂ ∷ y₃ ∷ y₄ ∷ p ∷ m₁ ∷ m₂ ∷ q ∷ d₁ ∷ d₂ ∷ t ∷ h₁ ∷ h₂ ∷ r ∷ n₁ ∷ n₂ ∷ u ∷ s₁ ∷ s₂ ∷ v
        ∷ f₁ ∷ f₂ ∷ f₃ ∷ z ∷ e ∷ es)
      h =
    cc
