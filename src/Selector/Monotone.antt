-- ===== src/Selector/Monotone.antt =====
-- `tighten_requirement` never relaxes (selector.py): what meets the merged requirement meets both.
use scarcity_router.Selector.Capability.{evaluate_capability_sufficiency}
use scarcity_router.Selector.Constraints.{evaluate_hard_constraints}
use scarcity_router.Types.Catalog.{ModelCatalogEntry}
use scarcity_router.Types.Requirement.{TaskRequirement, level_index}
use scarcity_router.Common.{
  ok, ℕ, ◌≤◌, ◌≡◌, sym, subst, true, arith, ok-injective, nat_eq, string_eq, option_eq, list_eq,
  pair_eq, nat_order, string_order, pair_order, list_order, [], not, >>=-eq-ok, ltb, guard->>-eq-ok,
}
use scarcity_router.Types.Identity.{identity_eq, scope_eq}
use scarcity_router.Selector.{stage_eq, selection_reason_eq, selection_reason_order}
use scarcity_router.Selector.Tighten.{tighten_requirement, tighten_minima, tighten_hard}
use scarcity_router.Selector.Sufficiency.{
  MeetsMinima, MeetsHard, evaluate_hard_constraints-MeetsHard,
  evaluate_capability_sufficiency-MeetsMinima,
}
use scarcity_router.Selector.Narrowing.{tighten_hard-narrows, tighten_minima-narrows}

-- What a candidate must pass to be sufficient for a requirement.
abbrev pub IsSufficient : TaskRequirement → ModelCatalogEntry → Type 0
IsSufficient r entry =
    (evaluate_hard_constraints r.hard_constraints entry ≡ [])
    × (evaluate_capability_sufficiency r.capability_minima entry.capabilities ≡ [])

-- Where `tighten_requirement` returns a requirement, its level is not below the base's, and every candidate
-- that is sufficient for it is sufficient for the base and for the explicit requirement.
pub tighten_requirement-narrows :
    (base explicit merged : TaskRequirement) (entry : ModelCatalogEntry)
    → tighten_requirement base explicit ≡ ok merged
    → IsSufficient merged entry
    → (level_index base.task_level ≤ level_index merged.task_level)
      × IsSufficient base entry
      × IsSufficient explicit entry
unfolding tighten_requirement
tighten_requirement-narrows base explicit merged entry h (hard, cap) =
    let (passed, h₁) =
      guard->>-eq-ok (not (ltb (level_index explicit.task_level) (level_index base.task_level))) _ _
        h in
    let (m, em, h₂) =
      >>=-eq-ok (tighten_minima base.capability_minima explicit.capability_minima) _ h₁ in
    let (c, ec, h₃) =
      >>=-eq-ok (tighten_hard base.hard_constraints explicit.hard_constraints) _ h₂ in
    let built = ok-injective h₃ in
    let met_hard =
      subst (λ (r : TaskRequirement). MeetsHard r.hard_constraints entry) (sym built)
        ((evaluate_hard_constraints-MeetsHard merged.hard_constraints entry).0 hard) in
    let met_cap =
      subst (λ (r : TaskRequirement). MeetsMinima r.capability_minima entry.capabilities)
        (sym built)
        ((evaluate_capability_sufficiency-MeetsMinima merged.capability_minima entry.capabilities).0
          cap) in
    let (hb, he) =
      tighten_hard-narrows base.hard_constraints explicit.hard_constraints c entry ec met_hard in
    let (cb, ce) =
      tighten_minima-narrows base.capability_minima explicit.capability_minima m entry.capabilities
        em met_cap in
    (
      subst (λ (r : TaskRequirement). level_index base.task_level ≤ level_index r.task_level) built
          (not_below _ _ passed),
      (
        (evaluate_hard_constraints-MeetsHard base.hard_constraints entry).1 hb,
        (evaluate_capability_sufficiency-MeetsMinima base.capability_minima entry.capabilities).1
            cb,
      ),
      (
        (evaluate_hard_constraints-MeetsHard explicit.hard_constraints entry).1 he,
        (evaluate_capability_sufficiency-MeetsMinima explicit.capability_minima
              entry.capabilities).1
            ce,
      ),
    )
  where
    not_below : (a b : ℕ) → not (ltb a b) ≡ true → b ≤ a
    not_below a b h = ground arith
