-- ===== src/Scarcity/Assess.antt =====
-- `assess_scarcity` (scarcity.py): the applicable windows, the governing window, the assessment.
use scarcity_router.Common.{
  ok, ℕ, Bool, not, Option, none, some, List, [], ◌∷◌, eqb, if◌then◌else◌, filter, is_empty, Result,
  ◌>>=◌, ◌>>◌, err, ◌==◌, nat_eq, string_eq, option_eq, list_eq, pair_eq, nat_order, string_order,
  pair_order, list_order, sorted, guard,
}
use scarcity_router.Types.Identity.{CapacityScopeRef, identity_eq, scope_eq}
use scarcity_router.Types.Catalog.{ModelCatalogEntry}
use scarcity_router.Types.Contract.{all_new}
use scarcity_router.Capacity.{CapacitySnapshot}
use scarcity_router.Capacity.Contract.{
  resource_eq, kind_eq, resource_order, kind_order, diagnostic_eq,
}
use scarcity_router.Scarcity.Measure.{WindowRole, strategic, tactical, ScarcityLabel}
use scarcity_router.Scarcity.Measure.{
  window_role, blended_effective_remaining_percent, scarcity_penalty_units, scarcity_label,
}
use scarcity_router.Scarcity.Assessment.{
  ScarcityState, ScarcityReason, GoverningWindowEvidence, ScarcityAssessment, reason_eq,
  reason_order, role_eq, label_eq, evidence_eq, capacity_bindings_unknown, capacity_exhausted,
}
use scarcity_router.Scarcity.Contract.{governing_of, new_assessment}
use scarcity_router.Scarcity.Bindings.{
  Candidate, Scan, add_code, governing_evidence, pick_governing, scan_bindings, unknown_assessment,
}

abbrev pub is_exhausted : Candidate → Bool
is_exhausted c = eqb c.remaining 0

abbrev pub of_role : WindowRole → Candidate → Bool
of_role role c = window_role c.window.resource c.window.kind == role

-- The representative of a role: the governing one of its pool, if the pool is not empty.
unfoldable pub pick_role : WindowRole → List Candidate → Result (Option Candidate)
unfolding pick_governing window_role
pick_role role known_windows =
    let pool = filter (of_role role) known_windows in
    let picked = pick_governing pool >>= λ c. ok (some c) in
    if is_empty pool then ok none else picked

abbrev pub evidence_of : Option Candidate → Option GoverningWindowEvidence
evidence_of none = none
evidence_of (some c) = some (governing_evidence c)

abbrev pub remaining_or_none : Option Candidate → Option ℕ
remaining_or_none none = none
remaining_or_none (some c) = some c.remaining

-- What the state `unavailable` is built of.
abbrev pub unavailable_assessment :
    List CapacityScopeRef → List ScarcityReason → GoverningWindowEvidence → ScarcityAssessment
unavailable_assessment bindings reasons governing = record {
  state = ScarcityState.unavailable;
  label = ScarcityLabel.unavailable;
  penalty_units = some 10000;
  effective_remaining_percent = some 0;
  applicable_scopes = bindings;
  governing_window = some governing;
  reason_codes = reasons;
  strategic_window = none;
  tactical_window = none;
}

-- An applicable window stands at 0.
unfoldable pub assess_exhausted :
    List CapacityScopeRef → List ScarcityReason → List Candidate → Result ScarcityAssessment
unfolding pick_governing new_assessment add_code sorted
assess_exhausted bindings reasons exhausted = do
  governing ← pick_governing exhausted
  new_assessment (
      unavailable_assessment bindings
        (sorted (λ (c : ScarcityReason). c) (add_code capacity_exhausted reasons))
        (record (governing_evidence governing) { remaining_percent = 0 }))

-- What the state `known` is built of.
abbrev pub known_assessment :
    List CapacityScopeRef
    → ℕ
    → ScarcityLabel
    → ℕ
    → GoverningWindowEvidence
    → Option GoverningWindowEvidence
    → Option GoverningWindowEvidence
    → ScarcityAssessment
known_assessment bindings effective label penalty governing strategic_window tactical_window =
    record {
      state = ScarcityState.known;
      label = label;
      penalty_units = some penalty;
      effective_remaining_percent = some effective;
      applicable_scopes = bindings;
      governing_window = some governing;
      reason_codes = [];
      strategic_window = strategic_window;
      tactical_window = tactical_window;
    }

abbrev pub known_of :
    List CapacityScopeRef
    → ℕ
    → ScarcityLabel
    → ℕ
    → Option GoverningWindowEvidence
    → Option GoverningWindowEvidence
    → Option GoverningWindowEvidence
    → Result ScarcityAssessment
known_of bindings effective label penalty none s t =
    err "no role evidence despite known windows; internal contract violation"
known_of bindings effective label penalty (some governing) s t =
    new_assessment (known_assessment bindings effective label penalty governing s t)

-- Every binding was assessed and no window stands at 0.
unfoldable pub assess_known : List CapacityScopeRef → List Candidate → Result ScarcityAssessment
unfolding pick_role blended_effective_remaining_percent scarcity_label scarcity_penalty_units
    new_assessment
assess_known bindings known_windows = do
  strategic_evidence ← pick_role strategic known_windows
  tactical_evidence ← pick_role tactical known_windows
  effective ←
      blended_effective_remaining_percent (remaining_or_none tactical_evidence)
        (remaining_or_none strategic_evidence)
  label ← scarcity_label effective
  penalty ← scarcity_penalty_units effective
  known_of bindings effective label penalty
      (governing_of (evidence_of strategic_evidence) (evidence_of tactical_evidence))
      (evidence_of strategic_evidence) (evidence_of tactical_evidence)

abbrev pub empty_scan : Scan
empty_scan = record { reason_codes = []; known_windows = [] }

-- What follows the loop over the bindings.
unfoldable pub assess_scan : List CapacityScopeRef → Scan → Result ScarcityAssessment
unfolding assess_exhausted assess_known new_assessment sorted
assess_scan bindings s =
    let exhausted = filter is_exhausted s.known_windows in
    if not (is_empty exhausted)
    then assess_exhausted bindings s.reason_codes exhausted
    else if not (is_empty s.reason_codes)
    then new_assessment
        (unknown_assessment (sorted (λ (c : ScarcityReason). c) s.reason_codes) bindings)
    else if is_empty s.known_windows
    then err "no applicable window evidence and no incompleteness reason"
    else assess_known bindings s.known_windows

-- `assess_scarcity`
unfoldable pub assess_scarcity :
    ModelCatalogEntry → List CapacitySnapshot → Result ScarcityAssessment
unfolding all_new scan_bindings assess_scan new_assessment
assess_scarcity entry snapshots = do
  guard (all_new (λ (s : CapacitySnapshot). s.provider) [] snapshots) "duplicate provider snapshot"
  elim entry.capacity_bindings [
    | none ↦ new_assessment (unknown_assessment (capacity_bindings_unknown ∷ []) [])
    | some bindings ↦ assess_scan bindings (scan_bindings snapshots bindings empty_scan)
  ]
