-- ===== src/Selector/Constraints.antt =====
-- `evaluate_hard_constraints` (selector.py).
use scarcity_router.Common.{
  ℕ, String, Bool, true, false, not, ◌&&◌, Option, none, some, List, [], ◌∷◌, ◌++◌, ltb,
  if◌then◌else◌, ◌==◌, nat_eq, string_eq, option_eq, contains, list_eq, pair_eq, nat_order,
  string_order, pair_order, list_order,
}
use scarcity_router.Types.Identity.{ModelRef, ModelIdentity, identity_eq, scope_eq}
use scarcity_router.Types.Requirement.{HardConstraints}
use scarcity_router.Types.Catalog.{ModelCatalogEntry}
use scarcity_router.Selector.{
  stage_eq, selection_reason_eq, selection_reason_order, ConstraintName, HardFailureReason,
  HardConstraintFailure,
}

abbrev failure : ConstraintName → HardFailureReason → List HardConstraintFailure
failure name reason = record { constraint = name; reason = reason } ∷ []

-- The body of the loop over the numeric minima.
abbrev pub minimum_failures : ConstraintName → Option ℕ → Option ℕ → List HardConstraintFailure
minimum_failures name none actual = []
minimum_failures name (some required) none = failure name HardFailureReason.unknown
minimum_failures name (some required) (some actual) =
    if ltb actual required then failure name HardFailureReason.insufficient else []

-- The body of the loop over the features.
abbrev pub feature_failures : ConstraintName → Bool → Option Bool → List HardConstraintFailure
feature_failures name false supported = []
feature_failures name true none = failure name HardFailureReason.unknown
feature_failures name true (some true) = []
feature_failures name true (some false) = failure name HardFailureReason.unsupported

abbrev pub text_failures : ConstraintName → Option String → String → List HardConstraintFailure
text_failures name none actual = []
text_failures name (some required) actual =
    if not (actual == required) then failure name HardFailureReason.mismatch else []

abbrev pub model_failures : Option ModelRef → ModelIdentity → List HardConstraintFailure
model_failures none identity = []
model_failures (some r) identity =
    if not (identity.provider == r.provider && identity.model == r.model)
    then failure ConstraintName.required_model HardFailureReason.mismatch
    else []

abbrev pub privacy_failures : Option String → Option (List String) → List HardConstraintFailure
privacy_failures none tags = []
privacy_failures (some tag) none =
    failure ConstraintName.privacy_constraint HardFailureReason.privacy_unknown
privacy_failures (some tag) (some tags) =
    if not (contains tags tag)
    then failure ConstraintName.privacy_constraint HardFailureReason.privacy_unsatisfied
    else []

-- `evaluate_hard_constraints`
unfoldable pub evaluate_hard_constraints :
    HardConstraints → ModelCatalogEntry → List HardConstraintFailure
unfolding contains
evaluate_hard_constraints hard entry =
    let props = entry.hard_properties in
    let identity = entry.identity in
    minimum_failures ConstraintName.minimum_input_context_tokens hard.minimum_input_context_tokens
      props.input_context_tokens
    ++ (minimum_failures ConstraintName.minimum_output_tokens hard.minimum_output_tokens
          props.output_tokens
        ++ (feature_failures ConstraintName.requires_tool_use hard.requires_tool_use
              props.supports_tool_use
            ++ (feature_failures ConstraintName.requires_vision hard.requires_vision
                  props.supports_vision
                ++ (feature_failures ConstraintName.requires_reasoning_mode
                      hard.requires_reasoning_mode props.supports_reasoning_mode
                    ++ (text_failures ConstraintName.required_provider hard.required_provider
                          identity.provider
                        ++ (model_failures hard.required_model identity
                            ++ (text_failures ConstraintName.required_variant hard.required_variant
                                  identity.variant
                                ++ privacy_failures hard.privacy_constraint
                                    props.privacy_tags)))))))
