-- ===== src/Selector/Canonical.antt =====
-- The order of the inputs does not reach the selection (selector.py `select_model`).
use scarcity_router.Common.{
  ℕ, String, ◌≡◌, refl, sym, ◌∙◌, true, false, Option, List, [], ◌∷◌, Permᴰ, filter, All,
  HasDistinctKeys, HasDistinctKeys-perm, sorted, sorted_of_perm, Result, ◌>>=◌, ◌>>◌, guard,
  map_result, Eq, nat_eq, string_eq, option_eq, contains, list_eq, pair_eq, nat_order, string_order,
  pair_order, list_order,
}
use scarcity_router.Types.Identity.{identity_eq, scope_eq}
use scarcity_router.Types.Catalog.{ModelCatalogEntry, ModelCatalog}
use scarcity_router.Types.Contract.{all_new}
use scarcity_router.Types.Facts.{all_new_of-HasDistinctKeys}
use scarcity_router.Capacity.{CapacitySnapshot}
use scarcity_router.Policy.{policy_reason_eq, policy_reason_order, ReplenishmentState}
use scarcity_router.Selector.{
  stage_eq, selection_reason_eq, selection_reason_order, ExecutionEligibility, CandidateEvaluation,
  SelectionDecision,
}
use scarcity_router.Selector.Evaluate.{evaluate_candidate}
use scarcity_router.Selector.Inputs.{Inputs}
use scarcity_router.Selector.Select.{
  is_eligible, is_ineligible, decide, assemble_evaluations, report_key, replenishment_key,
  canonical_inputs, select_model, check_profile,
}
use scarcity_router.Selector.Keyed.{entry_key, evaluation_key, matches_catalog, rank}

-- Inputs that differ only in the order of the reports and of the replenishment states.
abbrev pub reordered : Inputs → List ExecutionEligibility → List ReplenishmentState → Inputs
reordered i reports states = record i {
  eligibility_reports = reports;
  replenishment_states = states;
}

abbrev pub with_entries : ModelCatalog → List ModelCatalogEntry → ModelCatalog
with_entries c entries = record c { entries = entries }

none_seen_of {ℓ κ} :
    {A : Type ℓ} {K : Type κ} ⦃e : Eq K⦄ (key : A → K) (xs : List A)
    → All (λ x. contains [] (key x) ≡ false) xs
unfolding contains
none_seen_of key [] = tt
none_seen_of key (x ∷ xs) = (refl, none_seen_of key xs)

passes {ℓ κ} :
    {A : Type ℓ} {K : Type κ} ⦃e : Eq K⦄ (key : A → K) (xs : List A)
    → HasDistinctKeys key xs
    → all_new key [] xs ≡ true
passes key xs h = all_new_of-HasDistinctKeys key [] xs (none_seen_of key xs) h

-- The selection, from inputs that have passed the tests for duplicates, depends on the sorted lists alone.
select_sorted : Inputs → ModelCatalog → Option String → Option ℕ → Result SelectionDecision
unfolding select_model
select_sorted i catalog profile_id version =
    check_profile profile_id
    >> (map_result (evaluate_candidate (canonical_inputs i)) (sorted entry_key catalog.entries)
        >>= λ evaluations.
            assemble_evaluations (canonical_inputs i) catalog profile_id version evaluations)

select_steps :
    (i : Inputs) (catalog : ModelCatalog) (profile_id : Option String) (version : Option ℕ)
    → HasDistinctKeys (λ (s : CapacitySnapshot). s.provider) i.snapshots
    → HasDistinctKeys report_key i.eligibility_reports
    → HasDistinctKeys replenishment_key i.replenishment_states
    → select_model i catalog profile_id version ≡ select_sorted i catalog profile_id version
unfolding select_model select_sorted
select_steps i catalog profile_id version h k l =
    rw
      (
        passes (λ (s : CapacitySnapshot). s.provider) i.snapshots h,
        passes report_key i.eligibility_reports k,
        passes replenishment_key i.replenishment_states l,
      )
      refl

-- A selection whose snapshots, reports, replenishment states and catalog entries have no duplicates is the
-- same for every order of the catalog's entries, of the reports and of the replenishment states.
pub select_model-canonical :
    (i : Inputs) (catalog : ModelCatalog) (profile_id : Option String) (version : Option ℕ)
    (entries : List ModelCatalogEntry) (reports : List ExecutionEligibility)
    (states : List ReplenishmentState)
    → HasDistinctKeys (λ (s : CapacitySnapshot). s.provider) i.snapshots
    → HasDistinctKeys report_key i.eligibility_reports
    → HasDistinctKeys replenishment_key i.replenishment_states
    → HasDistinctKeys entry_key catalog.entries
    → Permᴰ catalog.entries entries
    → Permᴰ i.eligibility_reports reports
    → Permᴰ i.replenishment_states states
    → select_model i catalog profile_id version
      ≡ select_model (reordered i reports states) (with_entries catalog entries) profile_id version
unfolding select_sorted assemble_evaluations
select_model-canonical i catalog profile_id version entries reports states h k l m p q r =
    select_steps i catalog profile_id version h k l
    ∙ (λ t.
        check_profile profile_id
        >> (map_result (evaluate_candidate (inputs t)) (same_entries t) >>= λ evaluations.
            assembled (inputs t) (same_entries t) evaluations))
    ∙ sym (
        select_steps (reordered i reports states) (with_entries catalog entries) profile_id version
          h (HasDistinctKeys-perm report_key q k) (HasDistinctKeys-perm replenishment_key r l))
  where
    same_entries : sorted entry_key catalog.entries ≡ sorted entry_key entries
    same_entries = sorted_of_perm entry_key p m

    inputs : canonical_inputs i ≡ canonical_inputs (reordered i reports states)
    inputs = λ t. record i {
      eligibility_reports = sorted_of_perm report_key q k t;
      replenishment_states = sorted_of_perm replenishment_key r l t;
    }

    assembled :
        Inputs → List ModelCatalogEntry → List CandidateEvaluation → Result SelectionDecision
    assembled j es given =
        guard (matches_catalog es given) "candidate evaluations must match the catalog identities"
        >> (rank es j.policy.preference_order (filter is_eligible (sorted evaluation_key given))
            >>= λ ranked.
                decide j catalog profile_id version ranked
                  (filter is_ineligible (sorted evaluation_key given)))
