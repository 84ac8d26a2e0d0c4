-- ===== src/Selector/Tighten.antt =====
-- `tighten_requirement` (selector.py): the merge of an explicit requirement into a base.
use scarcity_router.Common.{
  ok, ℕ, String, Bool, not, ◌||◌, Option, none, some, ltb, leb, if◌then◌else◌, Result, guard, err,
  ◌==◌, nat_eq, string_eq, option_eq, list_eq, pair_eq, nat_order, string_order, pair_order,
  list_order, ◌>>=◌, ◌>>◌, ◌&&◌,
}
use scarcity_router.Types.Identity.{ModelRef, identity_eq, scope_eq}
use scarcity_router.Types.Requirement.{
  level_index, CapabilityMinima, HardConstraints, TaskRequirement, check_minima, check_hard,
}

-- `_tighten_minimum`
unfoldable pub tighten_minimum : Option ℕ → Option ℕ → Result (Option ℕ)
tighten_minimum base none = ok base
tighten_minimum none (some explicit) = ok (some explicit)
tighten_minimum (some base) (some explicit) =
    if leb base explicit then ok (some explicit) else err "would loosen the base minimum"

-- `_tighten_identity`
unfoldable pub tighten_identity : Option String → Option String → Result (Option String)
tighten_identity base none = ok base
tighten_identity none (some explicit) = ok (some explicit)
tighten_identity (some base) (some explicit) =
    if explicit == base then ok (some explicit) else err "contradicts the base constraint"

abbrev pub same_ref : ModelRef → ModelRef → Bool
same_ref a b = a.provider == b.provider && a.model == b.model

-- `_tighten_model_ref`
unfoldable pub tighten_model_ref : Option ModelRef → Option ModelRef → Result (Option ModelRef)
tighten_model_ref base none = ok base
tighten_model_ref none (some explicit) = ok (some explicit)
tighten_model_ref (some base) (some explicit) =
    if same_ref base explicit then ok (some base) else err "contradicts the base constraint"

abbrev pub tighten_minima : CapabilityMinima → CapabilityMinima → Result CapabilityMinima
tighten_minima base explicit = do
  r ← tighten_minimum base.reasoning explicit.reasoning
  c ← tighten_minimum base.coding explicit.coding
  scientific ← tighten_minimum base.scientific_methodological explicit.scientific_methodological
  writing ← tighten_minimum base.writing_editorial explicit.writing_editorial
  tools ← tighten_minimum base.tool_use explicit.tool_use
  translation ← tighten_minimum base.translation_multilingual explicit.translation_multilingual
  check_minima (record {
    reasoning = r;
    coding = c;
    scientific_methodological = scientific;
    writing_editorial = writing;
    tool_use = tools;
    translation_multilingual = translation;
  })

abbrev pub tighten_hard : HardConstraints → HardConstraints → Result HardConstraints
tighten_hard base explicit = do
  input ← tighten_minimum base.minimum_input_context_tokens explicit.minimum_input_context_tokens
  output ← tighten_minimum base.minimum_output_tokens explicit.minimum_output_tokens
  provider ← tighten_identity base.required_provider explicit.required_provider
  model ← tighten_model_ref base.required_model explicit.required_model
  variant ← tighten_identity base.required_variant explicit.required_variant
  privacy ← tighten_identity base.privacy_constraint explicit.privacy_constraint
  check_hard (record {
    minimum_input_context_tokens = input;
    minimum_output_tokens = output;
    requires_tool_use = base.requires_tool_use || explicit.requires_tool_use;
    requires_vision = base.requires_vision || explicit.requires_vision;
    requires_reasoning_mode = base.requires_reasoning_mode || explicit.requires_reasoning_mode;
    required_provider = provider;
    required_model = model;
    required_variant = variant;
    privacy_constraint = privacy;
  })

-- `tighten_requirement`
unfoldable pub tighten_requirement : TaskRequirement → TaskRequirement → Result TaskRequirement
unfolding tighten_minimum tighten_identity tighten_model_ref check_minima check_hard
tighten_requirement base explicit = do
  guard (not (ltb (level_index explicit.task_level) (level_index base.task_level)))
      "explicit task level would loosen the base level"
  capability_minima ← tighten_minima base.capability_minima explicit.capability_minima
  hard_constraints ← tighten_hard base.hard_constraints explicit.hard_constraints
  ok (record {
    task_level = explicit.task_level;
    capability_minima = capability_minima;
    hard_constraints = hard_constraints;
  })
