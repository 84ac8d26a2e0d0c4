-- ===== src/Selector/Narrowing.antt =====
-- The parts of `tighten_requirement` (selector.py) never relax what they merge.
use scarcity_router.Types.Catalog.{CapabilityAssessments, ModelCatalogEntry}
use scarcity_router.Types.Requirement.{
  check_minima, check_hard, CapabilityMinima, HardConstraints, check_opt_rating, check_opt_positive,
  check_opt_safe_id, providers_agree,
}
use scarcity_router.Common.{
  ok, ℕ, ◌≤◌, String, ◌≡◌, refl, sym, subst, inl, inr, Bool, true, false, ◌||◌, Option, none, some,
  List, arith, leb, Bool-cases, &&-eq-true, ok-injective, ◌==◌, nat_eq, string_eq, option_eq,
  list_eq, pair_eq, nat_order, string_order, pair_order, list_order, >>-eq-ok, guard, >>=-eq-ok,
}
use scarcity_router.Types.Identity.{ModelRef, ModelIdentity, identity_eq, scope_eq}
use scarcity_router.Selector.{stage_eq, selection_reason_eq, selection_reason_order}
use scarcity_router.Selector.Tighten.{
  tighten_minimum, tighten_identity, same_ref, tighten_model_ref, tighten_minima, tighten_hard,
}
use scarcity_router.Selector.Sufficiency.{
  AtLeast, Supports, Equals, IsModel, HasTag, MeetsMinima, MeetsHard,
}
use text.Mathlib.TextEquality.{eq_iff}

-- Whatever meets the merged value meets both.
tighten_minimum-narrows :
    (b e m a : Option ℕ) → tighten_minimum b e ≡ ok m → AtLeast m a → AtLeast b a × AtLeast e a
unfolding tighten_minimum
tighten_minimum-narrows b none m a h k = (subst (λ n. AtLeast n a) (sym (ok-injective h)) k, tt)
tighten_minimum-narrows none (some e) m a h k =
    (tt, subst (λ n. AtLeast n a) (sym (ok-injective h)) k)
tighten_minimum-narrows (some b) (some e) m a h k = elim (Bool-cases (leb b e)) [
  | inl g ↦
      let kept : AtLeast (some e) a = subst (λ n. AtLeast n a) (sym (ok-injective (rw g at h))) k in
      (weaker b e a (ground arith) kept, kept)
  | inr g ↦ cc (rw g at h)
]
  where
    weaker : (b e : ℕ) (a : Option ℕ) → b ≤ e → AtLeast (some e) a → AtLeast (some b) a
    weaker b e none le k = absurd k
    weaker b e (some a) le k = omega arith

tighten_identity-narrows :
    (b e m : Option String) (a : String)
    → tighten_identity b e ≡ ok m
    → Equals m a
    → Equals b a × Equals e a
unfolding tighten_identity
tighten_identity-narrows b none m a h k =
    (subst (λ n. Equals n a) (sym (ok-injective h)) k, λ r q. cc)
tighten_identity-narrows none (some e) m a h k =
    (λ r q. cc, subst (λ n. Equals n a) (sym (ok-injective h)) k)
tighten_identity-narrows (some b) (some e) m a h k = elim (Bool-cases (e == b)) [
  | inl g ↦
      let kept : Equals (some e) a = subst (λ n. Equals n a) (sym (ok-injective (rw g at h))) k in
      (subst (λ s. Equals (some s) a) ((eq_iff e b).0 g) kept, kept)
  | inr g ↦ cc (rw g at h)
]

tighten_privacy-narrows :
    (b e m : Option String) (tags : Option (List String))
    → tighten_identity b e ≡ ok m
    → HasTag m tags
    → HasTag b tags × HasTag e tags
unfolding tighten_identity
tighten_privacy-narrows b none m a h k = (subst (λ n. HasTag n a) (sym (ok-injective h)) k, tt)
tighten_privacy-narrows none (some e) m a h k =
    (tt, subst (λ n. HasTag n a) (sym (ok-injective h)) k)
tighten_privacy-narrows (some b) (some e) m a h k = elim (Bool-cases (e == b)) [
  | inl g ↦
      let kept : HasTag (some e) a = subst (λ n. HasTag n a) (sym (ok-injective (rw g at h))) k in
      (subst (λ s. HasTag (some s) a) ((eq_iff e b).0 g) kept, kept)
  | inr g ↦ cc (rw g at h)
]

tighten_model_ref-narrows :
    (b e m : Option ModelRef) (i : ModelIdentity)
    → tighten_model_ref b e ≡ ok m
    → IsModel m i
    → IsModel b i × IsModel e i
unfolding tighten_model_ref
tighten_model_ref-narrows b none m i h k =
    (subst (λ n. IsModel n i) (sym (ok-injective h)) k, λ r q. cc)
tighten_model_ref-narrows none (some e) m i h k =
    (λ r q. cc, subst (λ n. IsModel n i) (sym (ok-injective h)) k)
tighten_model_ref-narrows (some b) (some e) m i h k = elim (Bool-cases (same_ref b e)) [
  | inl g ↦
      let kept : IsModel (some b) i = subst (λ n. IsModel n i) (sym (ok-injective (rw g at h))) k in
      (kept, subst (λ r. IsModel (some r) i) (same b e g) kept)
  | inr g ↦ cc (rw g at h)
]
  where
    same : (x y : ModelRef) → same_ref x y ≡ true → x ≡ y
    same x y g =
        let (p, q) = &&-eq-true (x.provider == y.provider) (x.model == y.model) g in
        λ t. record {
          provider = (eq_iff x.provider y.provider).0 p t;
          model = (eq_iff x.model y.model).0 q t;
        }

or-narrows : (b e : Bool) (s : Option Bool) → Supports (b || e) s → Supports b s × Supports e s
or-narrows true e s h = (λ q. h refl, λ q. h refl)
or-narrows false e s h = (λ q. cc, h)

-- The checks of the two records store what they are given.
check_minima-same : (m m' : CapabilityMinima) → check_minima m ≡ ok m' → m ≡ m'
unfolding check_minima
check_minima-same m m' h =
    let (_, h₁) = >>-eq-ok (check_opt_rating m.reasoning) _ h in
    let (_, h₂) = >>-eq-ok (check_opt_rating m.coding) _ h₁ in
    let (_, h₃) = >>-eq-ok (check_opt_rating m.scientific_methodological) _ h₂ in
    let (_, h₄) = >>-eq-ok (check_opt_rating m.writing_editorial) _ h₃ in
    let (_, h₅) = >>-eq-ok (check_opt_rating m.tool_use) _ h₄ in
    let (_, h₆) = >>-eq-ok (check_opt_rating m.translation_multilingual) _ h₅ in ok-injective h₆

check_hard-same : (c c' : HardConstraints) → check_hard c ≡ ok c' → c ≡ c'
unfolding check_hard
check_hard-same c c' h =
    let (_, h₁) = >>-eq-ok (check_opt_positive c.minimum_input_context_tokens) _ h in
    let (_, h₂) = >>-eq-ok (check_opt_positive c.minimum_output_tokens) _ h₁ in
    let (_, h₃) = >>-eq-ok (check_opt_safe_id c.required_provider) _ h₂ in
    let (_, h₄) = >>-eq-ok (check_opt_safe_id c.required_variant) _ h₃ in
    let (_, h₅) = >>-eq-ok (check_opt_safe_id c.privacy_constraint) _ h₄ in
    let (_, h₆) = >>-eq-ok (guard (providers_agree c.required_provider c.required_model) _) _ h₅ in
    ok-injective h₆

pub tighten_minima-narrows :
    (b e m : CapabilityMinima) (c : CapabilityAssessments)
    → tighten_minima b e ≡ ok m
    → MeetsMinima m c
    → MeetsMinima b c × MeetsMinima e c
tighten_minima-narrows b e m c h k =
    let (r₁, e₁, h₁) = >>=-eq-ok (tighten_minimum b.reasoning e.reasoning) _ h in
    let (r₂, e₂, h₂) = >>=-eq-ok (tighten_minimum b.coding e.coding) _ h₁ in
    let (r₃, e₃, h₃) =
      >>=-eq-ok (tighten_minimum b.scientific_methodological e.scientific_methodological) _ h₂ in
    let (r₄, e₄, h₄) = >>=-eq-ok (tighten_minimum b.writing_editorial e.writing_editorial) _ h₃ in
    let (r₅, e₅, h₅) = >>=-eq-ok (tighten_minimum b.tool_use e.tool_use) _ h₄ in
    let (r₆, e₆, h₆) =
      >>=-eq-ok (tighten_minimum b.translation_multilingual e.translation_multilingual) _ h₅ in
    let met = subst (λ n. MeetsMinima n c) (sym (check_minima-same _ m h₆)) k in
    let (b₁, f₁) = tighten_minimum-narrows _ _ r₁ _ e₁ met.0 in
    let (b₂, f₂) = tighten_minimum-narrows _ _ r₂ _ e₂ met.1.0 in
    let (b₃, f₃) = tighten_minimum-narrows _ _ r₃ _ e₃ met.1.1.0 in
    let (b₄, f₄) = tighten_minimum-narrows _ _ r₄ _ e₄ met.1.1.1.0 in
    let (b₅, f₅) = tighten_minimum-narrows _ _ r₅ _ e₅ met.1.1.1.1.0 in
    let (b₆, f₆) = tighten_minimum-narrows _ _ r₆ _ e₆ met.1.1.1.1.1.0 in
    ((b₁, (b₂, (b₃, (b₄, (b₅, (b₆, tt)))))), (f₁, (f₂, (f₃, (f₄, (f₅, (f₆, tt)))))))

pub tighten_hard-narrows :
    (b e m : HardConstraints) (entry : ModelCatalogEntry)
    → tighten_hard b e ≡ ok m
    → MeetsHard m entry
    → MeetsHard b entry × MeetsHard e entry
tighten_hard-narrows b e m entry h k =
    let (r₁, e₁, h₁) =
      >>=-eq-ok (tighten_minimum b.minimum_input_context_tokens e.minimum_input_context_tokens) _
        h in
    let (r₂, e₂, h₂) =
      >>=-eq-ok (tighten_minimum b.minimum_output_tokens e.minimum_output_tokens) _ h₁ in
    let (r₃, e₃, h₃) = >>=-eq-ok (tighten_identity b.required_provider e.required_provider) _ h₂ in
    let (r₄, e₄, h₄) = >>=-eq-ok (tighten_model_ref b.required_model e.required_model) _ h₃ in
    let (r₅, e₅, h₅) = >>=-eq-ok (tighten_identity b.required_variant e.required_variant) _ h₄ in
    let (r₆, e₆, h₆) =
      >>=-eq-ok (tighten_identity b.privacy_constraint e.privacy_constraint) _ h₅ in
    let kept = subst (λ n. MeetsHard n entry) (sym (check_hard-same _ m h₆)) k in
    let (b₁, f₁) = tighten_minimum-narrows _ _ r₁ _ e₁ kept.input_tokens in
    let (b₂, f₂) = tighten_minimum-narrows _ _ r₂ _ e₂ kept.output_tokens in
    let (b₃, f₃) = tighten_identity-narrows _ _ r₃ _ e₃ kept.provider in
    let (b₄, f₄) = tighten_model_ref-narrows _ _ r₄ entry.identity e₄ kept.model in
    let (b₅, f₅) = tighten_identity-narrows _ _ r₅ _ e₅ kept.variant in
    let (b₆, f₆) = tighten_privacy-narrows _ _ r₆ _ e₆ kept.privacy in
    let (b₇, f₇) = or-narrows b.requires_tool_use e.requires_tool_use _ kept.tool_use in
    let (b₈, f₈) = or-narrows b.requires_vision e.requires_vision _ kept.vision in
    let (b₉, f₉) =
      or-narrows b.requires_reasoning_mode e.requires_reasoning_mode _ kept.reasoning_mode in
    (
      record {
        input_tokens = b₁;
        output_tokens = b₂;
        provider = b₃;
        model = b₄;
        variant = b₅;
        privacy = b₆;
        tool_use = b₇;
        vision = b₈;
        reasoning_mode = b₉;
      },
      record {
        input_tokens = f₁;
        output_tokens = f₂;
        provider = f₃;
        model = f₄;
        variant = f₅;
        privacy = f₆;
        tool_use = f₇;
        vision = f₈;
        reasoning_mode = f₉;
      },
    )
