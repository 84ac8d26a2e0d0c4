-- ===== src/Selector/Sufficiency.antt =====
-- When a candidate meets a requirement (selector.py), without the order of the checks.
use text.Mathlib.TextEquality.{eq_iff}
use scarcity_router.Common.{
  ℕ, ◌≤◌, String, ◌≡◌, refl, ◌∙◌, subst, ◌↔◌, inl, inr, Bool, true, false, ◌&&◌, Option, none, some,
  List, [], ◌∷◌, ◌++◌, Memᴰ, arith, ltb, not-ltb→le, Bool-cases, &&-eq-true, some-injective,
  contains_mem, mem_contains, All, ◌==◌, nat_eq, string_eq, option_eq, contains, list_eq, pair_eq,
  nat_order, string_order, pair_order, list_order,
}
use scarcity_router.Types.Identity.{ModelRef, ModelIdentity, identity_eq, scope_eq}
use scarcity_router.Types.Requirement.{Dimension, CapabilityMinima, HardConstraints}
use scarcity_router.Types.Catalog.{effective_rating, CapabilityAssessments, ModelCatalogEntry}
use scarcity_router.Selector.{stage_eq, selection_reason_eq, selection_reason_order, ConstraintName}
use scarcity_router.Selector.Constraints.{
  minimum_failures, feature_failures, text_failures, model_failures, privacy_failures,
  evaluate_hard_constraints,
}
use scarcity_router.Selector.Capability.{
  minima_items, assessment_of, rating_failures, items_failures, evaluate_capability_sufficiency,
}

-- A known value at least as large as the required one.
abbrev pub AtLeast : Option ℕ → Option ℕ → Type 0
AtLeast none actual = Unit
AtLeast (some required) none = ⊥
AtLeast (some required) (some actual) = required ≤ actual

-- A feature that is known to be there, where it is required.
abbrev pub Supports : Bool → Option Bool → Type 0
Supports required supported = required ≡ true → supported ≡ some true

abbrev pub Equals : Option String → String → Type 0
Equals required actual = (r : String) → required ≡ some r → actual ≡ r

abbrev pub IsModel : Option ModelRef → ModelIdentity → Type 0
IsModel required identity =
    (r : ModelRef)
    → required ≡ some r
    → (identity.provider ≡ r.provider) × (identity.model ≡ r.model)

-- The required tag is one of the tags that are known.
abbrev pub HasTag : Option String → Option (List String) → Type 0
HasTag none tags = Unit
HasTag (some tag) none = ⊥
HasTag (some tag) (some tags) = Memᴰ tag tags

pub record MeetsHard (hard : HardConstraints) (entry : ModelCatalogEntry) : Type 0 where
  pub input_tokens :
      AtLeast hard.minimum_input_context_tokens entry.hard_properties.input_context_tokens
  pub output_tokens : AtLeast hard.minimum_output_tokens entry.hard_properties.output_tokens
  pub tool_use : Supports hard.requires_tool_use entry.hard_properties.supports_tool_use
  pub vision : Supports hard.requires_vision entry.hard_properties.supports_vision
  pub reasoning_mode :
      Supports hard.requires_reasoning_mode entry.hard_properties.supports_reasoning_mode
  pub provider : Equals hard.required_provider entry.identity.provider
  pub model : IsModel hard.required_model entry.identity
  pub variant : Equals hard.required_variant entry.identity.variant
  pub privacy : HasTag hard.privacy_constraint entry.hard_properties.privacy_tags

-- Every required dimension has a known effective rating, large enough.
abbrev pub MeetsMinima : CapabilityMinima → CapabilityAssessments → Type 0
MeetsMinima minima capabilities =
    All
      (λ (item : Dimension × Option ℕ).
        AtLeast item.1 (effective_rating (assessment_of capabilities item.0)))
      (minima_items minima)

pub append-empty {ℓ} : {A : Type ℓ} (xs ys : List A) → (xs ++ ys ≡ []) ↔ ((xs ≡ []) × (ys ≡ []))
append-empty [] ys = (λ h. (refl, h), λ h. h.1)
append-empty (x ∷ xs) ys = (λ h. absurd (not_empty h), λ h. absurd (not_empty h.0))
  where
    not_empty : {zs : List _} → x ∷ zs ≡ [] → ⊥
    not_empty h = cc

pub minimum_failures-AtLeast :
    (n : ConstraintName) (r a : Option ℕ) → (minimum_failures n r a ≡ []) ↔ AtLeast r a
minimum_failures-AtLeast n none a = (λ h. tt, λ h. refl)
minimum_failures-AtLeast n (some r) none = (λ h. cc, λ h. absurd h)
minimum_failures-AtLeast n (some r) (some a) = elim (Bool-cases (ltb a r)) [
  | inl e ↦ rw e (λ h. cc, λ h. absurd (ground (arith, e, h)))
  | inr e ↦ rw e (λ h. not-ltb→le a r e, λ h. refl)
]

pub feature_failures-Supports :
    (n : ConstraintName) (r : Bool) (s : Option Bool) → (feature_failures n r s ≡ []) ↔ Supports r s
feature_failures-Supports n false s = (λ h. λ e. cc, λ h. refl)
feature_failures-Supports n true none = (λ h. cc, λ h. cc (h refl))
feature_failures-Supports n true (some true) = (λ h. λ e. refl, λ h. refl)
feature_failures-Supports n true (some false) = (λ h. cc, λ h. cc (h refl))

pub text_failures-Equals :
    (n : ConstraintName) (r : Option String) (a : String) → (text_failures n r a ≡ []) ↔ Equals r a
text_failures-Equals n none a = (λ h. λ r e. cc, λ h. refl)
text_failures-Equals n (some r) a = elim (Bool-cases (a == r)) [
  | inl e ↦ rw e (λ h. λ s q. (eq_iff a r).0 e ∙ some-injective q, λ h. refl)
  | inr e ↦ rw e (λ h. cc, λ h. cc (e, (eq_iff a r).1 (h r refl)))
]

pub model_failures-IsModel :
    (r : Option ModelRef) (i : ModelIdentity) → (model_failures r i ≡ []) ↔ IsModel r i
model_failures-IsModel none i = (λ h. λ r e. cc, λ h. refl)
model_failures-IsModel (some r) i =
    elim (Bool-cases (i.provider == r.provider && i.model == r.model)) [
      | inl e ↦
          let (p, m) = &&-eq-true (i.provider == r.provider) (i.model == r.model) e in
          rw e (
            λ h. λ s q.
                subst (λ (t : ModelRef). (i.provider ≡ t.provider) × (i.model ≡ t.model))
                  (some-injective q)
                  ((eq_iff i.provider r.provider).0 p, (eq_iff i.model r.model).0 m),
            λ h. refl,
          )
      | inr e ↦ rw e (λ h. cc, λ h. cc (e, both (h r refl)))
    ]
  where
    both :
        (i.provider ≡ r.provider) × (i.model ≡ r.model)
        → (i.provider == r.provider && i.model == r.model) ≡ true
    both (p, m) = rw ((eq_iff i.provider r.provider).1 p, (eq_iff i.model r.model).1 m) refl

pub privacy_failures-HasTag :
    (t : Option String) (tags : Option (List String))
    → (privacy_failures t tags ≡ []) ↔ HasTag t tags
privacy_failures-HasTag none tags = (λ h. tt, λ h. refl)
privacy_failures-HasTag (some t) none = (λ h. cc, λ h. absurd h)
privacy_failures-HasTag (some t) (some tags) = elim (Bool-cases (contains tags t)) [
  | inl e ↦ rw e (λ h. mem_contains tags e, λ h. refl)
  | inr e ↦ rw e (λ h. cc, λ h. cc (e, contains_mem tags h))
]

-- A candidate has no hard-constraint failure just if it meets each of the nine constraints: a value or
-- feature that is not known never meets a requirement, and what is not required is met by all.
pub evaluate_hard_constraints-MeetsHard :
    (hard : HardConstraints) (entry : ModelCatalogEntry)
    → (evaluate_hard_constraints hard entry ≡ []) ↔ MeetsHard hard entry
unfolding evaluate_hard_constraints
evaluate_hard_constraints-MeetsHard hard entry = (
  λ h.
      let (a, h₁) = (append-empty _ _).0 h in
      let (b, h₂) = (append-empty _ _).0 h₁ in
      let (c, h₃) = (append-empty _ _).0 h₂ in
      let (d, h₄) = (append-empty _ _).0 h₃ in
      let (e, h₅) = (append-empty _ _).0 h₄ in
      let (f, h₆) = (append-empty _ _).0 h₅ in
      let (g, h₇) = (append-empty _ _).0 h₆ in
      let (k, l) = (append-empty _ _).0 h₇ in
      record {
        input_tokens = (minimum_failures-AtLeast _ _ _).0 a;
        output_tokens = (minimum_failures-AtLeast _ _ _).0 b;
        tool_use = (feature_failures-Supports _ _ _).0 c;
        vision = (feature_failures-Supports _ _ _).0 d;
        reasoning_mode = (feature_failures-Supports _ _ _).0 e;
        provider = (text_failures-Equals _ _ _).0 f;
        model = (model_failures-IsModel _ _).0 g;
        variant = (text_failures-Equals _ _ _).0 k;
        privacy = (privacy_failures-HasTag _ _).0 l;
      },
  λ m.
      let p = entry.hard_properties in
      let i = entry.identity in
      rw
        (
          (minimum_failures-AtLeast ConstraintName.minimum_input_context_tokens
                hard.minimum_input_context_tokens p.input_context_tokens).1
              m.input_tokens,
          (minimum_failures-AtLeast ConstraintName.minimum_output_tokens hard.minimum_output_tokens
                p.output_tokens).1
              m.output_tokens,
          (feature_failures-Supports ConstraintName.requires_tool_use hard.requires_tool_use
                p.supports_tool_use).1
              m.tool_use,
          (feature_failures-Supports ConstraintName.requires_vision hard.requires_vision
                p.supports_vision).1
              m.vision,
          (feature_failures-Supports ConstraintName.requires_reasoning_mode
                hard.requires_reasoning_mode p.supports_reasoning_mode).1
              m.reasoning_mode,
          (text_failures-Equals ConstraintName.required_provider hard.required_provider
                i.provider).1
              m.provider,
          (model_failures-IsModel hard.required_model i).1 m.model,
          (text_failures-Equals ConstraintName.required_variant hard.required_variant i.variant).1
              m.variant,
        )
        ((privacy_failures-HasTag hard.privacy_constraint p.privacy_tags).1 m.privacy),
)

rating_failures-AtLeast :
    (d : Dimension) (r a : Option ℕ) → (rating_failures d r a ≡ []) ↔ AtLeast r a
rating_failures-AtLeast d none a = (λ h. tt, λ h. refl)
rating_failures-AtLeast d (some r) none = (λ h. cc, λ h. absurd h)
rating_failures-AtLeast d (some r) (some a) = elim (Bool-cases (ltb a r)) [
  | inl e ↦ rw e (λ h. cc, λ h. absurd (ground (arith, e, h)))
  | inr e ↦ rw e (λ h. not-ltb→le a r e, λ h. refl)
]

items_failures-All :
    (c : CapabilityAssessments) (items : List (Dimension × Option ℕ))
    → (items_failures c items ≡ [])
      ↔ All
          (λ (item : Dimension × Option ℕ).
            AtLeast item.1 (effective_rating (assessment_of c item.0)))
          items
unfolding items_failures
items_failures-All c [] = (λ h. tt, λ h. refl)
items_failures-All c ((d, r) ∷ items) =
    let split =
      append-empty (rating_failures d r (effective_rating (assessment_of c d)))
        (items_failures c items) in
    let one = rating_failures-AtLeast d r (effective_rating (assessment_of c d)) in
    let rest = items_failures-All c items in
    (λ h. (one.0 (split.0 h).0, rest.0 (split.0 h).1), λ h. split.1 (one.1 h.0, rest.1 h.1))

-- A candidate has no capability failure just if each required dimension has a known effective rating that
-- is at least the minimum.
pub evaluate_capability_sufficiency-MeetsMinima :
    (minima : CapabilityMinima) (capabilities : CapabilityAssessments)
    → (evaluate_capability_sufficiency minima capabilities ≡ []) ↔ MeetsMinima minima capabilities
unfolding evaluate_capability_sufficiency
evaluate_capability_sufficiency-MeetsMinima minima capabilities =
    items_failures-All capabilities (minima_items minima)
