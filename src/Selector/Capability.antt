-- ===== src/Selector/Capability.antt =====
-- `evaluate_capability_sufficiency` (selector.py).
use scarcity_router.Common.{
  ℕ, Option, none, some, List, [], ◌∷◌, ◌++◌, ltb, if◌then◌else◌, nat_eq, string_eq, option_eq,
  list_eq, pair_eq, nat_order, string_order, pair_order, list_order,
}
use scarcity_router.Types.Requirement.{Dimension, CapabilityMinima}
use scarcity_router.Types.Catalog.{CapabilityAssessment, effective_rating, CapabilityAssessments}
use scarcity_router.Selector.{
  stage_eq, selection_reason_eq, selection_reason_order, CapabilityFailureReason, CapabilityFailure,
}

-- `_minima_items`
abbrev pub minima_items : CapabilityMinima → List (Dimension × Option ℕ)
minima_items m =
    (Dimension.reasoning, m.reasoning)
    ∷ (Dimension.coding, m.coding)
    ∷ (Dimension.scientific_methodological, m.scientific_methodological)
    ∷ (Dimension.writing_editorial, m.writing_editorial)
    ∷ (Dimension.tool_use, m.tool_use)
    ∷ (Dimension.translation_multilingual, m.translation_multilingual)
    ∷ []

-- `dict(_assessment_items(capabilities))[dimension]`
abbrev pub assessment_of : CapabilityAssessments → Dimension → CapabilityAssessment
assessment_of c Dimension.reasoning = c.reasoning
assessment_of c Dimension.coding = c.coding
assessment_of c Dimension.scientific_methodological = c.scientific_methodological
assessment_of c Dimension.writing_editorial = c.writing_editorial
assessment_of c Dimension.tool_use = c.tool_use
assessment_of c Dimension.translation_multilingual = c.translation_multilingual

abbrev pub rating_failures : Dimension → Option ℕ → Option ℕ → List CapabilityFailure
rating_failures dimension none effective = []
rating_failures dimension (some required) none =
    record {
      dimension = dimension;
      required_rating = required;
      actual_rating = none;
      reason = CapabilityFailureReason.unknown;
    }
    ∷ []
rating_failures dimension (some required) (some effective) =
    if ltb effective required
    then record {
      dimension = dimension;
      required_rating = required;
      actual_rating = some effective;
      reason = CapabilityFailureReason.below_minimum;
    }
      ∷ []
    else []

-- The loop over the dimensions.
unfoldable pub items_failures :
    CapabilityAssessments → List (Dimension × Option ℕ) → List CapabilityFailure
unfolding effective_rating
items_failures capabilities [] = []
items_failures capabilities ((dimension, required) ∷ items) =
    rating_failures dimension required (effective_rating (assessment_of capabilities dimension))
    ++ items_failures capabilities items

-- `evaluate_capability_sufficiency`
unfoldable pub evaluate_capability_sufficiency :
    CapabilityMinima → CapabilityAssessments → List CapabilityFailure
unfolding items_failures
evaluate_capability_sufficiency minima capabilities =
    items_failures capabilities (minima_items minima)
