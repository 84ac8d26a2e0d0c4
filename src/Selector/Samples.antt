-- ===== src/Selector/Samples.antt =====
-- The theorems on the selector, applied to a sample catalog.
use scarcity_router.Common.{some}
use scarcity_router.Samples.{day_rule, luna, zones}
use scarcity_router.Policy.{ReplenishmentMode}
use scarcity_router.Policy.FirstRule.{Evaluates, HaveSafeIds}
use scarcity_router.Selector.Preferences.{
  Preferences, with_preferences, evaluate_candidate-same_eligibility,
}
use scarcity_router.Common.{All, ◌&&◌, ◌==◌}
use scarcity_router.Samples.{night_rule}
use scarcity_router.Types.Facts.{IsValidEntry}
use scarcity_router.Selector.Passing.{IsShown}
use scarcity_router.Selector.Select.{canonical_inputs}
use scarcity_router.Selector.Choice.{IsChoice, select_model-IsChoice}
use scarcity_router.Selector.Pipeline.Expected.{IsReady, IsEvaluated}
use scarcity_router.Selector.Pipeline.{evaluate_candidate-stage}
use scarcity_router.Selector.Evaluate.{evaluate_candidate}
use scarcity_router.Policy.{WeeklyRule}
use scarcity_router.Policy.Rules.{applies}
use scarcity_router.Types.SafeId.{is_safe_id}
use scarcity_router.Common.{Bool, false, contains}
use scarcity_router.Selector.Assembly.{
  assemble_evaluations-IsRanking, IsRanking, candidate_of_keyed, assemble_evaluations-IsRanking,
}
use text.Mathlib.TextEquality.{eq_iff}
use scarcity_router.Common.{
  ok, ◌≤◌, ◌≡◌, refl, sym, ap, ◌≢◌, ◌↔◌, none, List, [], ◌∷◌, Permᴰ, nat_eq, string_eq, option_eq,
  list_eq, pair_eq, nat_order, string_order, pair_order, list_order, true, sorted, filter, head?,
  map, tail,
}
use scarcity_router.Types.Identity.{identity_eq, scope_eq}
use scarcity_router.Types.Requirement.{level_index, l2, l3}
use scarcity_router.Types.Catalog.{ModelCatalogEntry}
use scarcity_router.Scarcity.Assessment.{reason_eq, reason_order, role_eq, label_eq, evidence_eq}
use scarcity_router.Policy.{policy_reason_eq, policy_reason_order}
use scarcity_router.Policy.{ReplenishmentState}
use scarcity_router.Selector.Keyed.{closest_candidates, entry_key, Keyed, evaluation_key}
use scarcity_router.Selector.Inputs.{Inputs}
use scarcity_router.Selector.{
  ExecutionEligibility, Stage, stage_eq, SelectionReason, selection_reason_eq,
  selection_reason_order, CandidateEvaluation, SelectionDecision,
}
use scarcity_router.Selector.Tighten.{tighten_requirement}
use scarcity_router.Selector.Monotone.{IsSufficient, tighten_requirement-narrows}
use scarcity_router.Selector.Constraints.{evaluate_hard_constraints}
use scarcity_router.Selector.Capability.{evaluate_capability_sufficiency}
use scarcity_router.Selector.Sufficiency.{
  MeetsHard, MeetsMinima, evaluate_hard_constraints-MeetsHard,
  evaluate_capability_sufficiency-MeetsMinima,
}
use scarcity_router.Selector.Inputs.{excluded_at}
use scarcity_router.Selector.Select.{
  assemble_evaluations, replenishment_key, select_model, is_eligible, is_ineligible,
}
use scarcity_router.Selector.Closest.{AreClosest, closest_candidates-AreClosest}
use scarcity_router.Selector.Canonical.{reordered, with_entries, select_model-canonical}
use scarcity_router.Samples.{
  sol, all_rated, sol_entry, luna_entry, catalog, coding_minimum, tool_constraints,
  base_requirement, explicit_requirement, credit, zai_credit, openai_report, zai_report, inputs,
  other_differs,
}

tightened : tighten_requirement base_requirement explicit_requirement ≡ ok explicit_requirement
unfolding tighten_requirement
tightened = refl

sol-IsSufficient : IsSufficient explicit_requirement sol_entry
unfolding evaluate_hard_constraints evaluate_capability_sufficiency
sol-IsSufficient = (refl, refl)

tighten_requirement-narrows_example :
    (level_index l2 ≤ level_index l3)
    × IsSufficient base_requirement sol_entry
    × IsSufficient explicit_requirement sol_entry
tighten_requirement-narrows_example =
    tighten_requirement-narrows base_requirement explicit_requirement explicit_requirement sol_entry
      tightened sol-IsSufficient

evaluate_hard_constraints-MeetsHard_example :
    (evaluate_hard_constraints tool_constraints sol_entry ≡ [])
    ↔ MeetsHard tool_constraints sol_entry
evaluate_hard_constraints-MeetsHard_example =
    evaluate_hard_constraints-MeetsHard tool_constraints sol_entry

evaluate_capability_sufficiency-MeetsMinima_example :
    (evaluate_capability_sufficiency (coding_minimum 4) (all_rated 3) ≡ [])
    ↔ MeetsMinima (coding_minimum 4) (all_rated 3)
evaluate_capability_sufficiency-MeetsMinima_example =
    evaluate_capability_sufficiency-MeetsMinima (coding_minimum 4) (all_rated 3)

abbrev luna_excluded : CandidateEvaluation
luna_excluded = excluded_at luna_entry Stage.capability (SelectionReason.capability_failed ∷ [])

abbrev sol_excluded : CandidateEvaluation
sol_excluded = excluded_at sol_entry Stage.capacity (SelectionReason.capacity_unavailable ∷ [])

closest_candidates-AreClosest_example :
    (out : List CandidateEvaluation) × (closest_candidates (luna_excluded ∷ sol_excluded ∷ [])
      ≡ ok out)
    × AreClosest out (luna_excluded ∷ sol_excluded ∷ [])
closest_candidates-AreClosest_example =
    closest_candidates-AreClosest luna_excluded (sol_excluded ∷ []) (refl, (refl, tt))

abbrev swapped : List ModelCatalogEntry
swapped = luna_entry ∷ sol_entry ∷ []

entries_differ : entry_key sol_entry ≢ entry_key luna_entry
entries_differ e = cc ((eq_iff "sol" "luna").1 (ap (λ k. k.1.0) e))

credits_differ : replenishment_key zai_credit ≢ replenishment_key credit
credits_differ e = other_differs (sym (ap (λ k. k.0) e))

select_model-canonical_example :
    select_model inputs catalog none none
    ≡ select_model
        (reordered inputs (openai_report ∷ zai_report ∷ []) (credit ∷ zai_credit ∷ []))
        (with_entries catalog swapped)
        none
        none
select_model-canonical_example =
    select_model-canonical inputs catalog none none swapped (openai_report ∷ zai_report ∷ [])
      (credit ∷ zai_credit ∷ []) (tt, tt) ((λ e. other_differs (sym e), tt), (tt, tt))
      ((credits_differ, tt), (tt, tt)) ((entries_differ, tt), (tt, tt)) (Permᴰ.swap refl refl)
      (Permᴰ.swap refl refl) (Permᴰ.swap refl refl)

abbrev sol_eligible : CandidateEvaluation
sol_eligible = record sol_excluded { eligible = true; exclusion_stage = none; reason_codes = [] }

abbrev given : List CandidateEvaluation
given = sol_eligible ∷ luna_excluded ∷ []

assembled_one :
    (d : SelectionDecision) × (assemble_evaluations inputs catalog none none given ≡ ok d)
unfolding assemble_evaluations
assembled_one = (_, refl)

selected_one : (d : SelectionDecision) × (select_model inputs catalog none none ≡ ok d)
unfolding select_model
selected_one = (_, refl)

assemble_evaluations-IsRanking_example :
    (ranked : List Keyed) × IsRanking
      (sorted entry_key catalog.entries)
      (sol ∷ [])
      (filter is_eligible (sorted evaluation_key given))
      ranked
    × (assembled_one.0.selected ≡ head? (map candidate_of_keyed ranked))
    × (assembled_one.0.alternatives ≡ tail (map candidate_of_keyed ranked))
    × (assembled_one.0.excluded ≡ filter is_ineligible (sorted evaluation_key given))
assemble_evaluations-IsRanking_example =
    assemble_evaluations-IsRanking inputs catalog none none given assembled_one.0 assembled_one.1

-- The day rule is about luna only, the night rule about another provider.
abbrev no_hit : WeeklyRule → Bool
no_hit r = false

IsReady-of :
    (reports : List ExecutionEligibility) (states : List ReplenishmentState)
    (entry : ModelCatalogEntry) (hits : WeeklyRule → Bool)
    → IsShown entry
    → IsValidEntry entry
    → Evaluates zones entry.identity 0 hits (night_rule ∷ [])
    → Evaluates zones entry.identity 0 hits (day_rule ∷ [])
    → IsReady (reordered inputs reports states) entry hits hits
unfolding is_safe_id
IsReady-of reports states entry hits shown bound blackouts happy_hours = record {
  shown = shown;
  bound = bound;
  snapshots = record { valid = ((refl, (refl, tt)), tt); distinct = (tt, tt) };
  blackouts = blackouts;
  blackout_ids = ((refl, refl), tt);
  happy_hours = happy_hours;
  happy_hour_ids = ((refl, refl), tt);
  rule_ids = (refl, tt);
}

sol-IsReady : IsReady inputs sol_entry no_hit no_hit
unfolding applies
sol-IsReady =
    IsReady-of inputs.eligibility_reports inputs.replenishment_states sol_entry no_hit refl
      (refl, (refl, tt), (tt, tt)) (refl, tt) (refl, tt)

evaluate_candidate-stage_example :
    (e : CandidateEvaluation) × (evaluate_candidate inputs sol_entry ≡ ok e)
    × IsEvaluated sol_entry none e
unfolding evaluate_hard_constraints evaluate_capability_sufficiency contains
evaluate_candidate-stage_example =
    evaluate_candidate-stage inputs sol_entry no_hit no_hit sol-IsReady

-- A campaign for sol, no replenishment, no preference and another floor.
abbrev sol_campaign : WeeklyRule
sol_campaign = record day_rule {
  target = record { provider = "openai"; model = some "sol"; variant = none };
}

abbrev campaign : Preferences
campaign = record {
  happy_hours = sol_campaign ∷ [];
  replenishment_mode = ReplenishmentMode.recoverable;
  replenishment_states = [];
  preference_order = luna ∷ sol ∷ [];
  short_window_floor_percent = some 50;
}

abbrev every_hit : WeeklyRule → Bool
every_hit r = true

campaign_hits : Evaluates zones sol 0 every_hit (sol_campaign ∷ [])
unfolding applies
campaign_hits = (refl, tt)

campaign_ids : HaveSafeIds (sol_campaign ∷ [])
unfolding is_safe_id
campaign_ids = ((refl, refl), tt)

evaluate_candidate-same_eligibility_example :
    (e : CandidateEvaluation) × (e' : CandidateEvaluation) × (evaluate_candidate inputs sol_entry
      ≡ ok e)
    × (evaluate_candidate (with_preferences inputs campaign) sol_entry ≡ ok e')
    × (e'.eligible ≡ e.eligible)
    × (e'.exclusion_stage ≡ e.exclusion_stage)
evaluate_candidate-same_eligibility_example =
    evaluate_candidate-same_eligibility inputs campaign sol_entry no_hit no_hit every_hit
      sol-IsReady campaign_hits campaign_ids

-- With luna among the targets of the day rule, which holds on Monday morning.
abbrev hits_of : ModelCatalogEntry → WeeklyRule → Bool
hits_of entry r = entry.identity.model == "luna" && r.rule_id == "campaign"

abbrev sorted_inputs : Inputs
sorted_inputs = canonical_inputs inputs

catalog-IsReady :
    All
      (λ entry. IsReady (canonical_inputs inputs) entry (hits_of entry) (hits_of entry))
      catalog.entries
unfolding applies is_safe_id
catalog-IsReady = (
  IsReady-of sorted_inputs.eligibility_reports sorted_inputs.replenishment_states sol_entry
      (hits_of sol_entry) refl (refl, (refl, tt), (tt, tt)) (refl, tt) (refl, tt),
  (
    IsReady-of sorted_inputs.eligibility_reports sorted_inputs.replenishment_states luna_entry
        (hits_of luna_entry) refl (refl, (refl, tt), (tt, tt)) (refl, tt) (refl, tt),
    tt,
  ),
)

select_model-IsChoice_example :
    IsChoice (canonical_inputs inputs) catalog.entries hits_of selected_one.0.selected
select_model-IsChoice_example =
    select_model-IsChoice inputs catalog none none selected_one.0 hits_of hits_of catalog-IsReady
      selected_one.1
