-- ===== src/Scarcity/Locality.antt =====
-- Telemetry that no binding of the entry names does not reach its assessment.
use scarcity_router.Scarcity.Contract.{new_assessment}
use scarcity_router.Types.Facts.{all_new_of-HasDistinctKeys}
use scarcity_router.Common.{
  ◌≡◌, refl, ap, ◌∙◌, true, Option, none, some, List, [], ◌∷◌, HasDistinctKeys, nat_eq, string_eq,
  option_eq, list_eq, pair_eq, nat_order, string_order, pair_order, list_order, All,
}
use scarcity_router.Types.Identity.{CapacityScopeRef, identity_eq, scope_eq}
use scarcity_router.Types.Catalog.{ModelCatalogEntry}
use scarcity_router.Types.Contract.{all_new}
use scarcity_router.Capacity.{CapacitySnapshot}
use scarcity_router.Scarcity.Assessment.{
  reason_eq, reason_order, role_eq, label_eq, evidence_eq, capacity_bindings_unknown,
}
use scarcity_router.Scarcity.Assess.{empty_scan, assess_scan, assess_scarcity}
use scarcity_router.Scarcity.Bindings.{
  unknown_assessment, Scan, snapshot_for, scan_snapshot, scan_binding, scan_bindings,
}
use scarcity_router.Scarcity.Totality.{unseen}

-- Both groups of snapshots have the same snapshot, or none, for the provider of each binding.
abbrev pub AgreeOn : List CapacitySnapshot → List CapacitySnapshot → List CapacityScopeRef → Type 0
AgreeOn ss ts bindings =
    All (λ (b : CapacityScopeRef). snapshot_for ss b.provider ≡ snapshot_for ts b.provider) bindings

scan_bindings-local :
    (ss ts : List CapacitySnapshot) (bs : List CapacityScopeRef) (s : Scan)
    → AgreeOn ss ts bs
    → scan_bindings ss bs s ≡ scan_bindings ts bs s
unfolding scan_bindings
scan_bindings-local ss ts [] s h = refl
scan_bindings-local ss ts (b ∷ bs) s h =
    scan_bindings-local ss ts bs (scan_binding ss b s) h.1
    ∙ ap (λ o. scan_bindings ts bs (scan_snapshot b o s)) h.0

distinct_providers :
    (ss : List CapacitySnapshot)
    → HasDistinctKeys (λ (s : CapacitySnapshot). s.provider) ss
    → all_new (λ (s : CapacitySnapshot). s.provider) [] ss ≡ true
distinct_providers ss h =
    all_new_of-HasDistinctKeys (λ (s : CapacitySnapshot). s.provider) [] ss (unseen ss) h

-- Two groups of snapshots, each with at most one of a provider, that agree on the providers of the entry's bindings
-- lead to the same result; where the bindings are unknown, the two groups need not agree on any provider.
pub assess_scarcity-local :
    (entry : ModelCatalogEntry) (ss ts : List CapacitySnapshot)
    → HasDistinctKeys (λ (s : CapacitySnapshot). s.provider) ss
    → HasDistinctKeys (λ (s : CapacitySnapshot). s.provider) ts
    → ((bindings : List CapacityScopeRef)
        → entry.capacity_bindings ≡ some bindings
        → AgreeOn ss ts bindings)
    → assess_scarcity entry ss ≡ assess_scarcity entry ts
unfolding assess_scarcity
assess_scarcity-local entry ss ts h k agree =
    rw (distinct_providers ss h, distinct_providers ts k)
      (by_bindings entry.capacity_bindings agree)
  where
    by_bindings :
        (o : Option (List CapacityScopeRef))
        → ((bindings : List CapacityScopeRef) → o ≡ some bindings → AgreeOn ss ts bindings)
        → (elim o [
          | none ↦ new_assessment (unknown_assessment (capacity_bindings_unknown ∷ []) [])
          | some bindings ↦ assess_scan bindings (scan_bindings ss bindings empty_scan)
        ])
          ≡ (elim o [
            | none ↦ new_assessment (unknown_assessment (capacity_bindings_unknown ∷ []) [])
            | some bindings ↦ assess_scan bindings (scan_bindings ts bindings empty_scan)
          ])
    by_bindings none g = refl
    by_bindings (some bindings) g =
        ap (assess_scan bindings) (scan_bindings-local ss ts bindings empty_scan (g bindings refl))
