-- ===== src/Scarcity/Samples.antt =====
-- The theorems on scarcity, applied to sample telemetry.
use scarcity_router.Common.{
  ok, ℕ, ◌+◌, ◌*◌, ◌≤◌, ◌<◌, min, ◌≡◌, refl, subst, ◌⊎◌, some, [], ◌∷◌, arith, some-injective,
  nat_eq, string_eq, option_eq, list_eq, pair_eq, nat_order, string_order, pair_order, list_order,
}
use scarcity_router.Types.Identity.{identity_eq, scope_eq}
use scarcity_router.Capacity.{WindowKind}
use scarcity_router.Scarcity.Measure.{blended_effective_remaining_percent, scarcity_penalty_units}
use scarcity_router.Scarcity.Assessment.{
  ScarcityAssessment, reason_eq, reason_order, role_eq, label_eq, evidence_eq,
}
use scarcity_router.Scarcity.Assess.{assess_scarcity}
use scarcity_router.Scarcity.Bindings.{Candidate, pick_governing}
use scarcity_router.Scarcity.Bounds.{
  scarcity_penalty_units-antitone, blended_effective_remaining_percent_bounds,
}
use scarcity_router.Scarcity.Pick.{Governs, pick_governing-ok}
use scarcity_router.Scarcity.Totality.Outcomes.{Outcome}
use scarcity_router.Scarcity.Totality.{assess_scarcity-total}
use scarcity_router.Scarcity.Applicable.{AreSnapshots}
use scarcity_router.Scarcity.Locality.{AgreeOn, assess_scarcity-local}
use scarcity_router.Samples.{other_differs, codex, sol_entry, window_of, snapshot, other_snapshot}

snapshots : AreSnapshots (snapshot ∷ [])
snapshots = record { valid = ((refl, (refl, tt)), tt); distinct = (tt, tt) }

assess_scarcity-total_example :
    (a : ScarcityAssessment) × (assess_scarcity sol_entry (snapshot ∷ []) ≡ ok a)
    × Outcome (snapshot ∷ []) (codex ∷ []) a
assess_scarcity-total_example =
    assess_scarcity-total sol_entry (snapshot ∷ []) (codex ∷ []) (refl, (refl, tt), (tt, tt)) refl
      snapshots

assess_scarcity-local_example :
    assess_scarcity sol_entry (snapshot ∷ [])
    ≡ assess_scarcity sol_entry (snapshot ∷ other_snapshot ∷ [])
assess_scarcity-local_example =
    assess_scarcity-local sol_entry (snapshot ∷ []) (snapshot ∷ other_snapshot ∷ []) (tt, tt)
      ((other_differs, tt), (tt, tt))
      (λ bindings e.
        subst (AgreeOn (snapshot ∷ []) (snapshot ∷ other_snapshot ∷ [])) (some-injective e)
          (refl, tt))

abbrev tactical_candidate : Candidate
tactical_candidate = record {
  scope = codex;
  window = window_of WindowKind.five_hour 90 10;
  remaining = 10;
}

abbrev weekly_candidate : Candidate
weekly_candidate = record {
  scope = codex;
  window = window_of WindowKind.weekly 40 60;
  remaining = 60;
}

pick_governing-ok_example :
    (c : Candidate) × (pick_governing (weekly_candidate ∷ tactical_candidate ∷ []) ≡ ok c)
    × Governs c (weekly_candidate ∷ tactical_candidate ∷ [])
pick_governing-ok_example =
    pick_governing-ok weekly_candidate (tactical_candidate ∷ []) (omega arith, (omega arith, tt))

scarcity_penalty_units-antitone_example :
    (p : ℕ) × (q : ℕ) × (scarcity_penalty_units 10 ≡ ok p)
    × (scarcity_penalty_units 60 ≡ ok q)
    × (q < p)
    × (p ≤ 10000)
scarcity_penalty_units-antitone_example =
    scarcity_penalty_units-antitone 10 60 (omega arith) (omega arith)

blended_effective_remaining_percent_bounds_example :
    (e : ℕ) × (blended_effective_remaining_percent (some 10) (some 60) ≡ ok e)
    × (min 10 60 ≤ e)
    × ((e ≤ 10) ⊎ (e ≤ 60))
    × (6 * e ≤ 10 + 5 * 60)
    × (10 + 5 * 60 < 6 * e + 6)
blended_effective_remaining_percent_bounds_example =
    blended_effective_remaining_percent_bounds 10 60 (omega arith) (omega arith)
