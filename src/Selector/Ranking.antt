-- ===== src/Selector/Ranking.antt =====
-- The ranking key (selector.py `candidate_ranking_key`).
use scarcity_router.Common.{
  ℕ, suc, Option, none, some, List, [], ◌∷◌, if◌then◌else◌, is_some, ◌==◌, nat_eq, string_eq,
  option_eq, list_eq, pair_eq, nat_order, string_order, pair_order, list_order,
}
use scarcity_router.Types.Identity.{ModelIdentity, IdentityKey, identity_key, identity_eq, scope_eq}
use scarcity_router.Types.Catalog.{Effort, effort_index}
use scarcity_router.Scarcity.Assessment.{
  ScarcityAssessment, reason_eq, reason_order, role_eq, label_eq, evidence_eq, is_known,
}
use scarcity_router.Selector.{
  stage_eq, selection_reason_eq, selection_reason_order, CandidateEvaluation,
}

abbrev pub prefer_at : ℕ → List ModelIdentity → ModelIdentity → ℕ × ℕ
prefer_at index [] identity = (1, 0)
prefer_at index (preferred ∷ rest) identity =
    let later = prefer_at (suc index) rest identity in
    if identity_key preferred == identity_key identity then (0, index) else later

-- `_preference_key`
abbrev pub preference_key : List ModelIdentity → ModelIdentity → ℕ × ℕ
preference_key preference_order identity = prefer_at 0 preference_order identity

-- `_EffortState` with the ordinal: a configured effort before none.
abbrev pub EffortKey : Type 0
EffortKey = ℕ × List ℕ

abbrev pub effort_key : Option Effort → EffortKey
effort_key none = (1, [])
effort_key (some e) = (0, effort_index e ∷ [])

abbrev pub known_penalty : ScarcityAssessment → Option ℕ
known_penalty a = if is_known a.state then a.penalty_units else none

-- The penalty of known capacity.
abbrev pub penalty_of_evaluation : CandidateEvaluation → Option ℕ
penalty_of_evaluation e = elim e.scarcity_assessment [ none ↦ none | some a ↦ known_penalty a ]

-- `(capacity_class, penalty)`
abbrev pub capacity_class : Option ℕ → ℕ
capacity_class none = 1
capacity_class (some _) = 0

abbrev pub penalty_or_zero : Option ℕ → ℕ
penalty_or_zero none = 0
penalty_or_zero (some p) = p

abbrev pub happy_class : CandidateEvaluation → ℕ
happy_class e = if is_some e.happy_hour_decision then 0 else 1

abbrev pub RankingKey : Type 0
RankingKey = ℕ × (ℕ × (ℕ × (EffortKey × ((ℕ × ℕ) × IdentityKey))))

-- `candidate_ranking_key`
unfoldable pub candidate_ranking_key :
    CandidateEvaluation → List ModelIdentity → Option Effort → RankingKey
candidate_ranking_key e preference_order effort = (
  capacity_class (penalty_of_evaluation e),
  (
    happy_class e,
    (
      penalty_or_zero (penalty_of_evaluation e),
      (effort_key effort, (preference_key preference_order e.identity, identity_key e.identity)),
    ),
  ),
)
