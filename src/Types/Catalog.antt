-- ===== src/Types/Catalog.antt =====
-- Catalog entries (selection_types.py): hard properties, capability assessments, entries, catalogs.
use scarcity_router.Common.{
  ℕ, String, Bool, Option, none, some, List, string_eq, pair_eq, string_order,
}
use scarcity_router.Types.Identity.{ModelIdentity, CapacityScopeRef}

-- `REASONING_EFFORTS`, low to high.
pub data Effort : Type 0 where
  no_effort low medium high xhigh max_effort ultra : Effort

-- `REASONING_EFFORTS.index(effort)`
abbrev pub effort_index : Effort → ℕ
effort_index no_effort = 0
effort_index low = 1
effort_index medium = 2
effort_index high = 3
effort_index xhigh = 4
effort_index max_effort = 5
effort_index ultra = 6

-- `None` is unknown, and is never read as `False`.
pub record ModelHardProperties : Type 0 where
  pub input_context_tokens : Option ℕ
  pub output_tokens : Option ℕ
  pub supports_tool_use : Option Bool
  pub supports_vision : Option Bool
  pub supports_reasoning_mode : Option Bool
  pub privacy_tags : Option (List String)

pub data Confidence : Type 0 where
  low_confidence medium_confidence high_confidence : Confidence

pub record EvidenceRef : Type 0 where
  pub source : String
  pub identifier : String
  pub version : Option String
  pub date : Option String

pub record HumanOverride : Type 0 where
  pub rating : ℕ
  pub decided_on : String
  pub rationale : String

pub record CapabilityAssessment : Type 0 where
  pub rating : Option ℕ
  pub evidence : List EvidenceRef
  pub confidence : Option Confidence
  pub assessed_on : Option String
  pub rationale : Option String
  pub human_override : Option HumanOverride

-- `CapabilityAssessment.effective_rating`
unfoldable pub effective_rating : CapabilityAssessment → Option ℕ
effective_rating a = elim a.human_override [ none ↦ a.rating | some o ↦ some o.rating ]

pub record CapabilityAssessments : Type 0 where
  pub reasoning : CapabilityAssessment
  pub coding : CapabilityAssessment
  pub scientific_methodological : CapabilityAssessment
  pub writing_editorial : CapabilityAssessment
  pub tool_use : CapabilityAssessment
  pub translation_multilingual : CapabilityAssessment

-- `capacity_bindings = None` is unknown applicability, never "unmetered".
pub record ModelCatalogEntry : Type 0 where
  pub identity : ModelIdentity
  pub display_name : String
  pub hard_properties : ModelHardProperties
  pub capabilities : CapabilityAssessments
  pub capacity_bindings : Option (List CapacityScopeRef)
  pub model_version : Option String
  pub model_version_date : Option String
  pub last_reviewed_on : Option String
  pub reasoning_effort : Option Effort
  pub capacity_binding_resources : Option (List String)
  pub resource_capacity_bindings : List (String × List CapacityScopeRef)

pub record ModelCatalog : Type 0 where
  pub catalog_version : Option ℕ
  pub updated_on : Option String
  pub entries : List ModelCatalogEntry
