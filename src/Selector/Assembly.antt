-- ===== src/Selector/Assembly.antt =====
-- The order of the candidates in a decision (selector.py `assemble_evaluations`).
use mathlib.Core.Path.{ap₂}
use scarcity_router.Common.{
  ok, ℕ, String, ◌≡◌, refl, sym, ap, ◌∙◌, subst, not, ◌||◌, Option, List, [], ◌∷◌, map, Permᴰ, leb,
  is_some, head?, tail, filter, all, All, sorted, IsSorted, sorted-perm, sorted-IsSorted,
  All-sorted, map_result, >>=-eq-ok, guard->>-eq-ok, >>-eq-ok, ok-injective, nat_eq, string_eq,
  option_eq, list_eq, pair_eq, nat_order, string_order, pair_order, list_order,
}
use scarcity_router.Types.Identity.{ModelIdentity, identity_key, identity_eq, scope_eq}
use scarcity_router.Types.Catalog.{ModelCatalogEntry, ModelCatalog}
use scarcity_router.Types.Contract.{all_new}
use scarcity_router.Policy.{policy_reason_eq, policy_reason_order}
use scarcity_router.Selector.{
  stage_eq, selection_reason_eq, selection_reason_order, CandidateEvaluation, SelectionDecision,
}
use scarcity_router.Selector.Candidate.{check_selection_codes}
use scarcity_router.Selector.Inputs.{Inputs}
use scarcity_router.Selector.Decision.{
  check_catalog_fields, is_excluded, check_selection, check_selected, text_id, is_nonempty,
  new_decision,
}
use scarcity_router.Selector.Select.{
  assembled, is_eligible, is_ineligible, is_recoverable_candidate, expired_rules, closest_of,
  decide, assemble_evaluations,
}
use scarcity_router.Selector.Keyed.{
  entry_key, evaluation_key, matches_catalog, effort_of, Keyed, with_key, key_of, rank,
}

abbrev pub candidate_of_keyed : Keyed → CandidateEvaluation
candidate_of_keyed p = p.1

-- The candidates of a decision in ranking order, each with its key.
pub record IsRanking (entries : List ModelCatalogEntry) (preference_order : List ModelIdentity)
    (eligible : List CandidateEvaluation) (ranked : List Keyed) : Type 0 where
  pub keyed : All (λ p. with_key entries preference_order p.1 ≡ ok p) ranked
  pub in_order : IsSorted key_of ranked
  pub complete : Permᴰ (map candidate_of_keyed ranked) eligible

map_perm {ℓ κ} :
    {A : Type ℓ} {B : Type κ} (f : A → B) {xs ys : List A}
    → Permᴰ xs ys
    → Permᴰ (map f xs) (map f ys)
map_perm f Permᴰ.nil = Permᴰ.nil
map_perm f (Permᴰ.cons e p) = Permᴰ.cons (ap f e) (map_perm f p)
map_perm f (Permᴰ.swap {l = l} e g) = Permᴰ.swap (ap f e) (ap f g)
map_perm f (Permᴰ.trans p q) = Permᴰ.trans (map_perm f p) (map_perm f q)

-- The keys that were computed, and that of whom.
with_keys :
    (entries : List ModelCatalogEntry) (preference_order : List ModelIdentity)
    (xs : List CandidateEvaluation) (ys : List Keyed)
    → map_result (with_key entries preference_order) xs ≡ ok ys
    → (map candidate_of_keyed ys ≡ xs) × All (λ p. with_key entries preference_order p.1 ≡ ok p) ys
with_keys entries prefs [] ys h =
    subst (λ zs. (map candidate_of_keyed zs ≡ []) × All (λ p. with_key entries prefs p.1 ≡ ok p) zs)
      (ok-injective h) (refl, tt)
with_keys entries prefs (x ∷ xs) ys h =
    let (first, e₁, h₁) = >>=-eq-ok (with_key entries prefs x) _ h in
    let (rest, e₂, h₂) = >>=-eq-ok (map_result (with_key entries prefs) xs) _ h₁ in
    let (effort, found, h₃) = >>=-eq-ok (effort_of entries x.identity) _ e₁ in
    let (same, computed) = with_keys entries prefs xs rest e₂ in
    let of_x : first.1 ≡ x = sym (ap candidate_of_keyed (ok-injective h₃)) in
    subst
      (λ zs. (map candidate_of_keyed zs ≡ x ∷ xs) × All (λ p. with_key entries prefs p.1 ≡ ok p) zs)
      (ok-injective h₂)
      (
        ap₂ (λ a l. a ∷ l) of_x same,
        (subst (λ c. with_key entries prefs c ≡ ok first) (sym of_x) e₁, computed),
      )

rank-IsRanking :
    (entries : List ModelCatalogEntry) (prefs : List ModelIdentity)
    (eligible out : List CandidateEvaluation)
    → rank entries prefs eligible ≡ ok out
    → (ranked : List Keyed) × IsRanking entries prefs eligible ranked
      × (map candidate_of_keyed ranked ≡ out)
unfolding rank
rank-IsRanking entries prefs eligible out h =
    let (keyed, e, h₁) = >>=-eq-ok (map_result (with_key entries prefs) eligible) _ h in
    let (same, computed) = with_keys entries prefs eligible keyed e in
    (
      sorted key_of keyed,
      record {
        keyed = All-sorted key_of (λ p. with_key entries prefs p.1 ≡ ok p) keyed computed;
        in_order = sorted-IsSorted key_of keyed;
        complete =
            subst (Permᴰ (map candidate_of_keyed (sorted key_of keyed))) same
              (map_perm candidate_of_keyed (sorted-perm key_of keyed));
      },
      ok-injective h₁,
    )

-- The fields that `SelectionDecision` stores as they are given.
pub record KeepsCandidates (given d : SelectionDecision) : Type 0 where
  pub selected : d.selected ≡ given.selected
  pub alternatives : d.alternatives ≡ given.alternatives
  pub excluded : d.excluded ≡ given.excluded
  pub closest : d.closest_candidates ≡ given.closest_candidates
  pub recoverable : d.recoverable_candidates ≡ given.recoverable_candidates

new_decision-KeepsCandidates :
    (given d : SelectionDecision) → new_decision given ≡ ok d → KeepsCandidates given d
unfolding new_decision
new_decision-KeepsCandidates given d h =
    let (_, h₁) =
      >>-eq-ok (check_catalog_fields given.catalog_version given.catalog_updated_on) _ h in
    let (_, h₂) = guard->>-eq-ok (leb 1 given.resource_policy_version) _ _ h₁ in
    let (_, h₃) = >>-eq-ok (check_selected given.selected) _ h₂ in
    let (codes, _, h₄) = >>=-eq-ok (check_selection_codes given.reason_codes) _ h₃ in
    let (_, h₅) = >>-eq-ok (check_selection given codes given.selected) _ h₄ in
    let (_, h₆) = guard->>-eq-ok (all is_excluded given.excluded) _ _ h₅ in
    let (_, h₇) = guard->>-eq-ok (all is_excluded given.closest_candidates) _ _ h₆ in
    let (_, h₈) = guard->>-eq-ok (all is_excluded given.recoverable_candidates) _ _ h₇ in
    let (_, h₉) = guard->>-eq-ok (all_new identity_key [] given.preference_order) _ _ h₈ in
    let (_, k₁) = guard->>-eq-ok (all is_nonempty given.expired_happy_hour_rules) _ _ h₉ in
    let (_, k₂) = guard->>-eq-ok (all_new text_id [] given.expired_happy_hour_rules) _ _ k₁ in
    let (_, k₃) = guard->>-eq-ok (all is_nonempty given.expired_blackout_rules) _ _ k₂ in
    let (_, k₄) = guard->>-eq-ok (all_new text_id [] given.expired_blackout_rules) _ _ k₃ in
    let (_, k₅) =
      guard->>-eq-ok (is_some given.profile_id || not (is_some given.profile_policy_version)) _ _
        k₄ in
    let stored = ok-injective k₅ in
    record {
      selected = sym (ap (λ (x : SelectionDecision). x.selected) stored);
      alternatives = sym (ap (λ (x : SelectionDecision). x.alternatives) stored);
      excluded = sym (ap (λ (x : SelectionDecision). x.excluded) stored);
      closest = sym (ap (λ (x : SelectionDecision). x.closest_candidates) stored);
      recoverable = sym (ap (λ (x : SelectionDecision). x.recoverable_candidates) stored);
    }

decide-candidates :
    (i : Inputs) (catalog : ModelCatalog) (pid : Option String) (version : Option ℕ)
    (ranked excluded : List CandidateEvaluation) (d : SelectionDecision)
    → decide i catalog pid version ranked excluded ≡ ok d
    → (d.selected ≡ head? ranked)
      × (d.alternatives ≡ tail ranked)
      × (d.excluded ≡ excluded)
      × (d.recoverable_candidates ≡ filter is_recoverable_candidate excluded)
      × (closest_of (head? ranked) excluded ≡ ok d.closest_candidates)
unfolding decide
decide-candidates i catalog pid version ranked excluded d h =
    let (closest, e, h₁) = >>=-eq-ok (closest_of (head? ranked) excluded) _ h in
    let (happy, _, h₂) =
      >>=-eq-ok (expired_rules i.zones i.evaluated_at i.policy.resource_policy.happy_hours) _ h₁ in
    let (black, _, h₃) =
      >>=-eq-ok (expired_rules i.zones i.evaluated_at i.policy.resource_policy.blackouts) _ h₂ in
    let kept =
      new_decision-KeepsCandidates
        (assembled i catalog pid version ranked excluded closest happy black) d h₃ in
    (
      kept.selected,
      kept.alternatives,
      kept.excluded,
      kept.recoverable,
      e ∙ ap ok (sym kept.closest),
    )

-- Where a decision is assembled, the eligible evaluations have a ranking, a permutation of them in which no
-- later key is smaller, whose first is selected, if there is one, and whose others are the
-- alternatives in order. The excluded ones are those not eligible, in the order of identities.
pub assemble_evaluations-IsRanking :
    (i : Inputs) (catalog : ModelCatalog) (pid : Option String) (version : Option ℕ)
    (given : List CandidateEvaluation) (d : SelectionDecision)
    → assemble_evaluations i catalog pid version given ≡ ok d
    → (ranked : List Keyed) × IsRanking
        (sorted entry_key catalog.entries)
        i.policy.preference_order
        (filter is_eligible (sorted evaluation_key given))
        ranked
      × (d.selected ≡ head? (map candidate_of_keyed ranked))
      × (d.alternatives ≡ tail (map candidate_of_keyed ranked))
      × (d.excluded ≡ filter is_ineligible (sorted evaluation_key given))
unfolding assemble_evaluations
assemble_evaluations-IsRanking i catalog pid version given d h =
    let entries = sorted entry_key catalog.entries in
    let (_, h₁) = guard->>-eq-ok (matches_catalog entries given) _ _ h in
    let (out, e, h₂) =
      >>=-eq-ok
        (rank entries i.policy.preference_order (filter is_eligible (sorted evaluation_key given)))
        _ h₁ in
    let (ranked, ranking, same) = rank-IsRanking entries i.policy.preference_order _ out e in
    let (sel, alt, exc, _, _) = decide-candidates i catalog pid version out _ d h₂ in
    (ranked, ranking, sel ∙ ap head? (sym same), alt ∙ ap tail (sym same), exc)
