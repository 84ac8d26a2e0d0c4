-- ===== src/Types/Requirement.antt =====
-- Task requirements (selection_types.py): CapabilityMinima, HardConstraints, TaskRequirement.
use scarcity_router.Common.{
  ℕ, String, Bool, true, ◌&&◌, Option, none, some, leb, ◌==◌, string_eq, Result, ok, guard, ◌>>=◌,
  ◌>>◌,
}
use scarcity_router.Types.SafeId.{check_safe_id}
use scarcity_router.Types.Identity.{ModelRef}

-- `TASK_LEVELS`, a closed vocabulary in order.
pub data TaskLevel : Type 0 where
  l0 l1 l2 l3 l4 l5 : TaskLevel

-- `TASK_LEVELS.index(level)`
abbrev pub level_index : TaskLevel → ℕ
level_index l0 = 0
level_index l1 = 1
level_index l2 = 2
level_index l3 = 3
level_index l4 = 4
level_index l5 = 5

-- `CAPABILITY_DIMENSIONS`
pub data Dimension : Type 0 where
  reasoning coding scientific_methodological writing_editorial tool_use : Dimension
  translation_multilingual : Dimension

-- The six optional minima, one for each dimension.
pub record CapabilityMinima : Type 0 where
  pub reasoning : Option ℕ
  pub coding : Option ℕ
  pub scientific_methodological : Option ℕ
  pub writing_editorial : Option ℕ
  pub tool_use : Option ℕ
  pub translation_multilingual : Option ℕ

pub record HardConstraints : Type 0 where
  pub minimum_input_context_tokens : Option ℕ
  pub minimum_output_tokens : Option ℕ
  pub requires_tool_use : Bool
  pub requires_vision : Bool
  pub requires_reasoning_mode : Bool
  pub required_provider : Option String
  pub required_model : Option ModelRef
  pub required_variant : Option String
  pub privacy_constraint : Option String

pub record TaskRequirement : Type 0 where
  pub task_level : TaskLevel
  pub capability_minima : CapabilityMinima
  pub hard_constraints : HardConstraints

-- `_v_rating`: `MIN_RATING <= value <= MAX_RATING`
abbrev pub is_rating : ℕ → Bool
is_rating n = leb 1 n && leb n 5

-- `_v_opt_rating`
unfoldable pub check_opt_rating : Option ℕ → Result (Unit {0})
check_opt_rating none = ok tt
check_opt_rating (some n) = guard (is_rating n) "rating outside 1..5"

-- `_v_opt_int(..., lo=1)`
unfoldable pub check_opt_positive : Option ℕ → Result (Unit {0})
check_opt_positive none = ok tt
check_opt_positive (some n) = guard (leb 1 n) "value below 1"

-- `_v_opt_safe_id`, `_v_opt_provider`
unfoldable pub check_opt_safe_id : Option String → Result (Unit {0})
unfolding check_safe_id
check_opt_safe_id none = ok tt
check_opt_safe_id (some s) = check_safe_id s >>= λ _. ok tt

-- `CapabilityMinima.__post_init__`
unfoldable pub check_minima : CapabilityMinima → Result CapabilityMinima
unfolding check_opt_rating
check_minima m = do
  check_opt_rating m.reasoning
  check_opt_rating m.coding
  check_opt_rating m.scientific_methodological
  check_opt_rating m.writing_editorial
  check_opt_rating m.tool_use
  check_opt_rating m.translation_multilingual
  ok m

-- The providers agree where both are named.
abbrev pub providers_agree : Option String → Option ModelRef → Bool
providers_agree (some p) (some r) = r.provider == p
providers_agree _ _ = true

-- `HardConstraints.__post_init__`
unfoldable pub check_hard : HardConstraints → Result HardConstraints
unfolding check_opt_positive check_opt_safe_id
check_hard h = do
  check_opt_positive h.minimum_input_context_tokens
  check_opt_positive h.minimum_output_tokens
  check_opt_safe_id h.required_provider
  check_opt_safe_id h.required_variant
  check_opt_safe_id h.privacy_constraint
  guard (providers_agree h.required_provider h.required_model)
      "required_provider contradicts required_model provider"
  ok h
