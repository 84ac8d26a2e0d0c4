-- ===== src/Scarcity/Totality.antt =====
-- `assess_scarcity` on validated inputs: it never raises, and its state is the one that the
-- telemetry of the bindings determines.
pub mod Outcomes
pub mod Evidence
use scarcity_router.Types.Facts.{IsValidEntry, HasValidBindings, all_new_of-HasDistinctKeys}
use scarcity_router.Types.Catalog.{ModelCatalogEntry}
use scarcity_router.Scarcity.Closed.{new_assessment-unavailable, new_assessment-unknown, stored}
use scarcity_router.Scarcity.Pick.{pick_governing-ok}
use scarcity_router.Scarcity.Applicable.{
  IsApplicable, covers-nonempty, AreSnapshots, applicable-IsApplicable,
}
use scarcity_router.Scarcity.Roles.{IsKnown, assess_known-ok}
use scarcity_router.Scarcity.Representatives.{IsUsable}
use scarcity_router.Common.{
  ok, ◌≡◌, refl, ap, inl, inr, Bool, true, false, Option, none, some, List, [], ◌∷◌, ◌++◌, Memᴰ,
  arith, if◌then◌else◌, Bool-cases, any, all, is_empty, All, HasDistinctKeys, nat_eq, string_eq,
  option_eq, list_eq, pair_eq, nat_order, string_order, pair_order, list_order, filter, contains,
  mem_contains, All-mono, contains-false, All-mem, sorted, HasDistinctKeys-perm, sorted-perm,
  sorted_mem, ◌<◌, All-both, All-sorted, subst, All-of, mem-filter, ◌∙◌, is_empty-sorted, sym,
}
use scarcity_router.Types.Identity.{CapacityScopeRef, identity_eq, scope_eq}
use scarcity_router.Capacity.{CapacitySnapshot}
use scarcity_router.Capacity.Contract.{
  resource_eq, kind_eq, resource_order, kind_order, diagnostic_eq,
}
use scarcity_router.Scarcity.Assessment.{
  capacity_bindings_unknown, ScarcityState, reason_eq, reason_order, role_eq, label_eq, evidence_eq,
  known, ScarcityAssessment, ScarcityReason, capacity_exhausted,
}
use scarcity_router.Scarcity.Assess.{
  is_exhausted, assess_scarcity, assess_exhausted, assess_scan, empty_scan, unavailable_assessment,
}
use scarcity_router.Scarcity.Bindings.{
  Candidate, snapshot_for, add_code, governing_evidence, scan_bindings, unknown_assessment,
}
use scarcity_router.Scarcity.Scan.{
  scan_bindings-IsReasonSet, scan_bindings-clean, scan_bindings-known,
}
use scarcity_router.Scarcity.Windows.{
  candidates_of, trusted_windows, applicable, is_covered, IsReasonSet, IsTelemetry,
}
use mathlib.Core.List.Permᴰ
use scarcity_router.Scarcity.Totality.Outcomes.{
  state_of, expected_state, Outcome, exhausted, incomplete, complete,
}
use scarcity_router.Scarcity.Totality.Evidence.{
  code_id, filter-nonempty, filter-empty, add_code-distinct, assess_exhausted-ok, some_bindings,
  applicable-nonempty, All-IsUsable,
}

-- What follows the loop, on what the loop collects.
assess_scan-ok :
    (snapshots : List CapacitySnapshot) (bindings : List CapacityScopeRef)
    (codes : List ScarcityReason)
    → is_empty bindings ≡ false
    → IsReasonSet codes
    → is_empty codes ≡ all (is_covered snapshots) bindings
    → All (IsApplicable bindings) (applicable snapshots bindings)
    → (a : ScarcityAssessment) × (assess_scan bindings
          (record { reason_codes = codes; known_windows = applicable snapshots bindings })
        ≡ ok a)
      × Outcome snapshots bindings a
unfolding assess_scan
assess_scan-ok snapshots bindings codes b h clean valid = elim (Bool-cases (any is_exhausted ws)) [
  | inl e ↦
      let (c₀, cs, q) = filter-nonempty is_exhausted ws e in
      let valid_pool =
        All-of (IsApplicable bindings) (filter is_exhausted ws)
          λ c m. All-mem (IsApplicable bindings) ws valid (mem-filter is_exhausted ws m) in
      let (a, built, st, eff) =
        assess_exhausted-ok bindings codes c₀ cs h.distinct
          (subst (All (IsApplicable bindings)) q valid_pool) in
      (a, rw q built, exhausted e st eff)
  | inr e ↦
      let (q, alive) = filter-empty is_exhausted ws e in
      elim (Bool-cases (all (is_covered snapshots) bindings)) [
        | inr g ↦ (
          stored (unknown_assessment (sorted code_id codes) bindings),
          rw (q, clean ∙ g)
              (new_assessment-unknown (sorted code_id codes) bindings (resorted h)
                (is_empty-sorted code_id codes (clean ∙ g)) b),
          incomplete e g refl refl,
        )
        | inl g ↦
            let (c, cs, r) = applicable-nonempty snapshots bindings b g in
            let (a, built, k) =
              assess_known-ok bindings c cs
                (subst (All (IsUsable bindings)) r (All-IsUsable bindings ws valid alive)) in
            (
              a,
              rw (q, clean ∙ g, r) built,
              complete e g (subst (λ l. IsKnown bindings l a) (sym r) k),
            )
      ]
]
  where
    ws : List Candidate
    ws = applicable snapshots bindings

    resorted : IsReasonSet codes → IsReasonSet (sorted code_id codes)
    resorted k = record {
      telemetry = All-sorted code_id IsTelemetry codes k.telemetry;
      distinct = HasDistinctKeys-perm code_id (Permᴰ.symm (sorted-perm code_id codes)) k.distinct;
    }

pub unseen :
    (ss : List CapacitySnapshot) → All (λ (s : CapacitySnapshot). contains [] s.provider ≡ false) ss
unfolding contains
unseen [] = tt
unseen (s ∷ ss) = (refl, unseen ss)

-- The body of `assess_scarcity` where the bindings are known.
assess_bindings-ok :
    (snapshots : List CapacitySnapshot) (bindings : List CapacityScopeRef)
    → is_empty bindings ≡ false
    → AreSnapshots snapshots
    → (a : ScarcityAssessment) × (assess_scan bindings (scan_bindings snapshots bindings empty_scan)
        ≡ ok a)
      × Outcome snapshots bindings a
assess_bindings-ok snapshots bindings b h =
    let valid =
      applicable-IsApplicable snapshots bindings bindings
        (All-of (λ x. Memᴰ x bindings) bindings (λ x m. m)) h.valid in
    let scanned = scan_bindings snapshots bindings empty_scan in
    let (a, built, out) =
      assess_scan-ok snapshots bindings scanned.reason_codes b
        (scan_bindings-IsReasonSet snapshots bindings empty_scan
          (record { telemetry = tt; distinct = tt }))
        (scan_bindings-clean snapshots bindings empty_scan) valid in
    (
      a,
      ap
            (λ l.
              assess_scan bindings
                (record { reason_codes = scanned.reason_codes; known_windows = l }))
            (scan_bindings-known snapshots bindings empty_scan)
          ∙ built,
      out,
    )

-- For known bindings of a validated entry and validated snapshots, at most one of a provider,
-- `assess_scarcity` raises nothing and its assessment is one of three: unavailable with 0 remaining,
-- just if an applicable window stands at 0; else known, just if every binding is covered, with the
-- blend of the governing windows of the two roles, its penalty and its label; else unknown.
pub assess_scarcity-total :
    (entry : ModelCatalogEntry) (snapshots : List CapacitySnapshot)
    (bindings : List CapacityScopeRef)
    → IsValidEntry entry
    → entry.capacity_bindings ≡ some bindings
    → AreSnapshots snapshots
    → (a : ScarcityAssessment) × (assess_scarcity entry snapshots ≡ ok a)
      × Outcome snapshots bindings a
unfolding assess_scarcity
assess_scarcity-total entry snapshots bindings v e h =
    let (a, built, out) =
      assess_bindings-ok snapshots bindings (subst (HasValidBindings entry.identity) e v).0 h in
    (
      a,
      rw
          (
            all_new_of-HasDistinctKeys (λ (s : CapacitySnapshot). s.provider) [] snapshots
                (unseen snapshots) h.distinct,
            e,
          )
          built,
      out,
    )

-- Where the bindings are not known the assessment is unknown for that reason alone.
pub assess_scarcity-unbound :
    (entry : ModelCatalogEntry) (snapshots : List CapacitySnapshot)
    → entry.capacity_bindings ≡ none
    → AreSnapshots snapshots
    → assess_scarcity entry snapshots ≡ ok (unknown_assessment (capacity_bindings_unknown ∷ []) [])
unfolding assess_scarcity contains
assess_scarcity-unbound entry snapshots e h =
    rw
      (
        all_new_of-HasDistinctKeys (λ (s : CapacitySnapshot). s.provider) [] snapshots
            (unseen snapshots) h.distinct,
        e,
      )
      refl
