-- ===== src/Scarcity/Closed.antt =====
-- The assessments that `assess_scarcity` builds pass the checks of `ScarcityAssessment`.
use scarcity_router.Common.{
  ok, ◌≡◌, refl, false, none, List, [], ◌∷◌, contains_of_other, is_empty-sorted, is_empty, All,
  All-mono, HasDistinctKeys, sorted, All-sorted, nat_eq, string_eq, option_eq, contains, list_eq,
  pair_eq, nat_order, string_order, pair_order, list_order, Eq, Option, ◌==◌, ℕ, true, some, Memᴰ,
  is_some, is_empty-of_mem, ◌||◌, sorted_mem, ◌<◌, contains_mem, eqb, eqb_iff, lt→ltb,
}
use scarcity_router.Types.Identity.{CapacityScopeRef, scope_key, identity_eq, scope_eq}
use scarcity_router.Types.Facts.{all_new_of-HasDistinctKeys}
use scarcity_router.Scarcity.Measure.{
  ScarcityLabel, strategic, tactical, scarcity_penalty_units, scarcity_label,
  blended_effective_remaining_percent,
}
use scarcity_router.Scarcity.Assessment.{
  ScarcityReason, ScarcityAssessment, reason_eq, reason_order, role_eq, label_eq, evidence_eq,
  capacity_bindings_unknown, capacity_exhausted, GoverningWindowEvidence,
}
use scarcity_router.Scarcity.Contract.{
  check_reason_codes, check_applicability, check_unknown, new_assessment, check_numbers,
  check_numeric, check_unavailable, check_known, governing_of, remaining_of, check_role,
}
use scarcity_router.Scarcity.Assess.{unavailable_assessment, known_assessment}
use scarcity_router.Scarcity.Bindings.{unknown_assessment}
use scarcity_router.Scarcity.Windows.{IsTelemetry, IsReasonSet}

abbrev code_id : ScarcityReason → ScarcityReason
code_id c = c

-- An assessment as `ScarcityAssessment` stores it.
abbrev pub stored : ScarcityAssessment → ScarcityAssessment
stored a = record a {
  reason_codes = sorted (λ (c : ScarcityReason). c) a.reason_codes;
  applicable_scopes = sorted scope_key a.applicable_scopes;
}

none_seen : (cs : List ScarcityReason) → All (λ c. contains [] c ≡ false) cs
unfolding contains
none_seen [] = tt
none_seen (c ∷ cs) = (refl, none_seen cs)

pub check_reason_codes-ok :
    (codes : List ScarcityReason)
    → HasDistinctKeys (λ (c : ScarcityReason). c) codes
    → check_reason_codes codes ≡ ok (sorted (λ (c : ScarcityReason). c) codes)
unfolding check_reason_codes
check_reason_codes-ok codes h = rw (all_new_of-HasDistinctKeys code_id [] codes (none_seen codes) h)

-- No telemetry reason is one of the other two.
not_contained :
    (codes : List ScarcityReason)
    → All IsTelemetry codes
    → (contains codes capacity_bindings_unknown ≡ false)
      × (contains codes capacity_exhausted ≡ false)
not_contained codes h = (
  contains_of_other codes capacity_bindings_unknown (All-mono codes (λ c k. k.0) h),
  contains_of_other codes capacity_exhausted (All-mono codes (λ c k. k.1) h),
)

check_unknown-ok :
    (a : ScarcityAssessment)
    → a.penalty_units ≡ none
    → a.effective_remaining_percent ≡ none
    → a.governing_window ≡ none
    → a.strategic_window ≡ none
    → a.tactical_window ≡ none
    → a.label ≡ ScarcityLabel.unknown
    → is_empty a.reason_codes ≡ false
    → is_empty a.applicable_scopes ≡ false
    → All IsTelemetry a.reason_codes
    → check_unknown a ≡ ok tt
unfolding check_unknown check_applicability
check_unknown-ok a p e g s t l c b h =
    rw (
      p,
      e,
      g,
      s,
      t,
      l,
      c,
      b,
      (not_contained a.reason_codes h).0,
      (not_contained a.reason_codes h).1,
    )

pub new_assessment-unknown :
    (codes : List ScarcityReason) (bindings : List CapacityScopeRef)
    → IsReasonSet codes
    → is_empty codes ≡ false
    → is_empty bindings ≡ false
    → new_assessment (unknown_assessment codes bindings)
      ≡ ok (stored (unknown_assessment codes bindings))
unfolding new_assessment
new_assessment-unknown codes bindings h c b = rw (
  check_reason_codes-ok codes h.distinct,
  check_unknown-ok (stored (unknown_assessment codes bindings)) refl refl refl refl refl refl
      (is_empty-sorted code_id codes c) (is_empty-sorted scope_key bindings b)
      (All-sorted code_id IsTelemetry codes h.telemetry),
)

test_of_self {ℓ} : {A : Type ℓ} ⦃e : Eq A⦄ → (a : A) → (a == a) ≡ true
test_of_self ⦃e⦄ a = (e.test_iff a a).1 refl

check_numbers-ok :
    (a : ScarcityAssessment) (e p : ℕ) (l : ScarcityLabel)
    → scarcity_penalty_units e ≡ ok p
    → scarcity_label e ≡ ok l
    → a.penalty_units ≡ some p
    → a.label ≡ l
    → check_numbers a e ≡ ok tt
unfolding check_numbers
check_numbers-ok a e p l hp hl q r = rw (hp, hl, q, r, test_of_self (some p), test_of_self l)

pub new_assessment-unavailable :
    (codes : List ScarcityReason) (bindings : List CapacityScopeRef) (g : GoverningWindowEvidence)
    → g.remaining_percent ≡ 0
    → HasDistinctKeys (λ (c : ScarcityReason). c) codes
    → Memᴰ capacity_exhausted codes
    → Memᴰ g.scope bindings
    → new_assessment (unavailable_assessment bindings codes g)
      ≡ ok (stored (unavailable_assessment bindings codes g))
unfolding new_assessment check_numeric check_unavailable
new_assessment-unavailable codes bindings g z h c m = rw (
  check_reason_codes-ok codes h,
  z,
  is_empty-of_mem (sorted scope_key bindings) (sorted_mem scope_key bindings m),
  contains_mem (sorted scope_key bindings) (sorted_mem scope_key bindings m),
  contains_mem (sorted code_id codes) (sorted_mem code_id codes c),
)

is_some-governing :
    (s t : Option GoverningWindowEvidence) (g : GoverningWindowEvidence)
    → governing_of s t ≡ some g
    → (is_some s || is_some t) ≡ true
is_some-governing none none g h = cc
is_some-governing none (some t) g h = refl
is_some-governing (some s) t g h = refl

pub new_assessment-known :
    (bindings : List CapacityScopeRef) (e p : ℕ) (l : ScarcityLabel) (g : GoverningWindowEvidence)
    (s t : Option GoverningWindowEvidence)
    → governing_of s t ≡ some g
    → blended_effective_remaining_percent (remaining_of t) (remaining_of s) ≡ ok e
    → scarcity_penalty_units e ≡ ok p
    → scarcity_label e ≡ ok l
    → 0 < e
    → check_role strategic s ≡ ok tt
    → check_role tactical t ≡ ok tt
    → (is_some s || eqb g.remaining_percent e) ≡ true
    → Memᴰ g.scope bindings
    → new_assessment (known_assessment bindings e l p g s t)
      ≡ ok (stored (known_assessment bindings e l p g s t))
unfolding new_assessment check_numeric check_known
new_assessment-known bindings e p l g s t hg hb hp hl pos rs rt match m = rw (
  check_numbers-ok (stored (known_assessment bindings e l p g s t)) e p l hp hl refl refl,
  rs,
  rt,
  is_some-governing s t g hg,
  hg,
  test_of_self (some g),
  hb,
  (eqb_iff e e).1 refl,
  match,
  is_empty-of_mem (sorted scope_key bindings) (sorted_mem scope_key bindings m),
  contains_mem (sorted scope_key bindings) (sorted_mem scope_key bindings m),
  lt→ltb 0 e pos,
)
