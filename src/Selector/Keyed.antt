-- ===== src/Selector/Keyed.antt =====
-- The order of the eligible candidates and the closest of the others (selector.py).
use scarcity_router.Common.{
  ℕ, Bool, false, ◌&&◌, Option, none, some, List, [], map, eqb, if◌then◌else◌, length, take, filter,
  find, all, is_empty, sorted, Result, ◌>>=◌, map_result, err, ◌==◌, nat_eq, string_eq, option_eq,
  contains, list_eq, pair_eq, nat_order, string_order, pair_order, list_order, ok,
}
use scarcity_router.Types.Identity.{ModelIdentity, IdentityKey, identity_key, identity_eq, scope_eq}
use scarcity_router.Types.Catalog.{Effort, ModelCatalogEntry}
use scarcity_router.Scarcity.Assessment.{reason_eq, reason_order, role_eq, label_eq, evidence_eq}
use scarcity_router.Scarcity.Bindings.{max_of}
use scarcity_router.Policy.{policy_reason_eq, policy_reason_order}
use scarcity_router.Policy.Schedule.{weekday_eq, weekday_order}
use scarcity_router.Selector.{
  Stage, stage_progress, stage_eq, selection_reason_eq, selection_reason_order, CandidateEvaluation,
}
use scarcity_router.Selector.Ranking.{RankingKey, candidate_ranking_key}

-- `_STAGE_PROGRESS[candidate.exclusion_stage or ""]`, which raises where there is no stage.
abbrev pub progress_by : Option Stage → Result ℕ
progress_by none = err "KeyError"
progress_by (some s) = ok (stage_progress s)

abbrev pub progress_of : CandidateEvaluation → Result ℕ
progress_of c = progress_by c.exclusion_stage

abbrev is_progress : ℕ → Result ℕ → Bool
is_progress progress (ok n) = eqb n progress
is_progress progress (err e) = false

abbrev pub is_at : ℕ → CandidateEvaluation → Bool
is_at progress c = is_progress progress (progress_of c)

-- `_closest_candidates`
unfoldable pub closest_candidates : List CandidateEvaluation → Result (List CandidateEvaluation)
unfolding max_of
closest_candidates excluded =
    let closest = (do
      progresses ← map_result progress_of excluded
      max_progress ← max_of progresses
      ok (take 3 (filter (is_at max_progress) excluded))) in
    if is_empty excluded then ok [] else closest

abbrev pub entry_key : ModelCatalogEntry → IdentityKey
entry_key e = identity_key e.identity

abbrev pub evaluation_key : CandidateEvaluation → IdentityKey
evaluation_key e = identity_key e.identity

-- The evaluations are of the catalog's identities: equal sets and equal lengths.
unfoldable pub matches_catalog : List ModelCatalogEntry → List CandidateEvaluation → Bool
unfolding contains
matches_catalog entries evaluations =
    (all (λ k. contains (map evaluation_key evaluations) k) (map entry_key entries)
      && all (λ k. contains (map entry_key entries) k) (map evaluation_key evaluations))
    && eqb (length entries) (length evaluations)

-- `effort_by_identity[identity]`; the identities of a catalog are unique.
abbrev pub effort_of : List ModelCatalogEntry → ModelIdentity → Result (Option Effort)
effort_of entries identity =
    elim (find (λ (e : ModelCatalogEntry). e.identity == identity) entries) [
      | none ↦ err "KeyError"
      | some e ↦ ok e.reasoning_effort
    ]

abbrev pub Keyed : Type 0
Keyed = RankingKey × CandidateEvaluation

abbrev pub with_key :
    List ModelCatalogEntry → List ModelIdentity → CandidateEvaluation → Result Keyed
with_key entries preference_order e = effort_of entries e.identity >>= λ effort.
    ok (candidate_ranking_key e preference_order effort, e)

abbrev pub key_of : Keyed → RankingKey
key_of p = p.0

-- `sorted(eligible, key=candidate_ranking_key(...))`
unfoldable pub rank :
    List ModelCatalogEntry
    → List ModelIdentity
    → List CandidateEvaluation
    → Result (List CandidateEvaluation)
unfolding candidate_ranking_key sorted
rank entries preference_order eligible = do
  keyed ← map_result (with_key entries preference_order) eligible
  ok (map (λ (p : Keyed). p.1) (sorted key_of keyed))
