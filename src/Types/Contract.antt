-- ===== src/Types/Contract.antt =====
-- The `__post_init__` checks of the catalog types (selection_types.py): each returns the stored
-- value, or the error that the constructor raises.
use scarcity_router.Common.{
  String, Bool, true, false, not, ◌&&◌, Option, none, some, List, [], ◌∷◌, map, leb, is_empty, all,
  is_some, contains, Eq, ◌==◌, string_eq, pair_eq, list_eq, string_order, pair_order, sorted,
  Result, ok, err, guard, ◌>>=◌, ◌>>◌, if◌then◌else◌, dedup, map_result,
}
use scarcity_router.Types.SafeId.{is_safe_id, check_safe_id}
use scarcity_router.Types.Text.{check_text, check_opt_text}
use scarcity_router.Types.Calendar.{check_date, check_opt_date}
use scarcity_router.Types.Identity.{
  ModelIdentity, CapacityScopeRef, scope_key, identity_key, scope_eq,
}
use scarcity_router.Types.Requirement.{check_opt_positive, check_opt_rating, is_rating}
use scarcity_router.Types.Catalog.{
  EvidenceRef, HumanOverride, CapabilityAssessment, ModelHardProperties, ModelCatalogEntry,
  ModelCatalog,
}

-- The loops with a `seen` set that reject the second item with a key.
module _ {ℓ κ} {A : Type ℓ} {K : Type κ} ⦃e : Eq K⦄ (key : A → K) where
  unfoldable pub all_new : List K → List A → Bool
  unfolding contains
  all_new seen [] = true
  all_new seen (x ∷ xs) =
      let rest = all_new (key x ∷ seen) xs in if contains seen (key x) then false else rest

-- `ModelHardProperties.__post_init__`: the stored tags are sorted and without duplicates.
unfoldable pub check_hard_properties : ModelHardProperties → Result ModelHardProperties
unfolding check_opt_positive all_new sorted
check_hard_properties p = do
  check_opt_positive p.input_context_tokens
  check_opt_positive p.output_tokens
  elim p.privacy_tags [
    | none ↦ ok p
    | some tags ↦ do
      guard (all is_safe_id tags) "unsafe identifier"
      guard (all_new (λ (t : String). t) [] tags) "duplicate tag"
      ok (record p { privacy_tags = some (sorted (λ (t : String). t) tags) })
  ]

-- `EvidenceRef.__post_init__`
unfoldable pub check_evidence : EvidenceRef → Result EvidenceRef
unfolding check_safe_id check_opt_text check_opt_date
check_evidence r = do
  s ← check_safe_id r.source
  check_text 512 r.identifier
  check_opt_text 128 r.version
  d ← check_opt_date r.date
  ok r

-- `HumanOverride.__post_init__`
unfoldable pub check_override : HumanOverride → Result HumanOverride
unfolding check_date check_text
check_override o = do
  guard (is_rating o.rating) "rating outside 1..5"
  d ← check_date o.decided_on
  check_text 2048 o.rationale
  ok o

abbrev check_provenance : CapabilityAssessment → Result CapabilityAssessment
check_provenance a = elim a.rating [
  | none ↦ do
    guard (is_empty a.evidence) "unknown rating must not carry evidence"
    guard (not (is_some a.confidence)) "unknown rating must not carry confidence"
    guard (not (is_some a.assessed_on)) "unknown rating must not carry assessed_on"
    guard (not (is_some a.rationale)) "unknown rating must not carry rationale"
    guard (not (is_some a.human_override)) "a human override requires an existing known base rating"
    ok a
  | some r ↦ do
    guard (not (is_empty a.evidence)) "a known rating requires at least one evidence reference"
    guard (is_some a.confidence) "expected a confidence"
    elim a.assessed_on [ none ↦ err "expected a date" | some day ↦ check_date day >>= λ _. ok a ]
        >>= λ _. elim a.rationale [
          | none ↦ err "a known rating requires a non-empty rationale"
          | some t ↦ check_text 2048 t >> ok a
        ]
]

-- `CapabilityAssessment.__post_init__`
unfoldable pub check_capability : CapabilityAssessment → Result CapabilityAssessment
unfolding check_opt_rating check_date check_text
check_capability a = do check_opt_rating a.rating; check_provenance a

-- The checks of `resource_capacity_bindings`.
abbrev check_resource_binding : ModelIdentity → String × List CapacityScopeRef → Result (Unit {0})
check_resource_binding identity (resource, scopes) = do
  r ← check_safe_id resource
  guard
      (not (is_empty scopes)
        && all (λ (s : CapacityScopeRef). s.provider == identity.provider) scopes)
      "nonempty same-provider scopes required"
  guard (sorted scope_key (dedup [] scopes) == scopes) "expected sorted unique scopes"

abbrev resources_of : List (String × List CapacityScopeRef) → List String
resources_of = map (λ (b : String × List CapacityScopeRef). b.0)

abbrev check_binding_resources : ModelCatalogEntry → Result (Unit {0})
check_binding_resources e =
    let ids = resources_of e.resource_capacity_bindings in
    elim e.capacity_binding_resources [
      | none ↦ guard (is_empty ids) "each resource must have exact source identity evidence"
      | some resources ↦ do
        guard (all is_safe_id resources) "unsafe identifier"
        guard (sorted (λ (t : String). t) (dedup [] resources) == resources)
            "expected sorted unique resource IDs"
        guard (all (contains resources) ids)
            "each resource must have exact source identity evidence"
    ]

abbrev is_true : Option Bool → Bool
is_true (some b) = b
is_true none = false

unfoldable pub check_bindings : ModelIdentity → Option (List CapacityScopeRef) → Result (Unit {0})
unfolding all_new
check_bindings identity none = ok tt
check_bindings identity (some bindings) = do
  guard (not (is_empty bindings)) "known applicability must be a non-empty tuple"
  guard (all (λ (b : CapacityScopeRef). b.provider == identity.provider) bindings)
      "cross-provider bindings are unsupported"
  guard (all_new scope_key [] bindings) "duplicate binding"

-- The opening checks of an entry: its resources are sorted, unique and evidenced.
unfoldable pub check_resources : ModelCatalogEntry → Result (Unit {0})
unfolding check_safe_id sorted dedup contains
check_resources e = do
  bs ← map_result (check_resource_binding e.identity) e.resource_capacity_bindings
  let ids = resources_of e.resource_capacity_bindings
  guard (sorted (λ (t : String). t) (dedup [] ids) == ids) "expected sorted unique resources"
  check_binding_resources e

-- Reasoning support and a configured effort go together.
unfoldable pub check_effort : ModelCatalogEntry → Result (Unit {0})
check_effort e =
    if is_true e.hard_properties.supports_reasoning_mode
    then guard (is_some e.reasoning_effort)
        "reasoning support requires an explicit configured effort"
    else guard (not (is_some e.reasoning_effort))
        "false or unknown reasoning support requires null effort"

unfoldable pub check_review : ModelCatalogEntry → Result (Unit {0})
unfolding check_opt_text check_opt_date
check_review e = do
  check_opt_text 64 e.model_version
  d ← check_opt_date e.model_version_date
  r ← check_opt_date e.last_reviewed_on
  ok tt

-- `ModelCatalogEntry.__post_init__`
unfoldable pub check_entry : ModelCatalogEntry → Result ModelCatalogEntry
unfolding check_resources check_text check_effort check_bindings check_review
check_entry e = do
  check_resources e
  check_text 128 e.display_name
  check_effort e
  check_bindings e.identity e.capacity_bindings
  check_review e
  ok e

unfoldable pub check_version : ModelCatalog → Result (Unit {0})
unfolding check_date
check_version c = elim c.catalog_version [
  | none ↦ guard (not (is_some c.updated_on)) "runtime inventory has no catalog update date"
  | some v ↦ do
    guard (leb 1 v) "catalog_version below 1"
    elim c.updated_on [ none ↦ err "expected a date" | some day ↦ check_date day >>= λ _. ok tt ]
]

-- `ModelCatalog.__post_init__`
unfoldable pub check_catalog : ModelCatalog → Result ModelCatalog
unfolding check_version all_new
check_catalog c = do
  check_version c
  guard (all_new (λ (e : ModelCatalogEntry). identity_key e.identity) [] c.entries)
      "duplicate model identity"
  ok c
