-- ===== src/Selector/Choice.antt =====
-- What `select_model` (selector.py) selects, from the stages of the candidates.
use scarcity_router.Common.{
  Bool-cases, ok, ℕ, ◌≡◌, refl, ap, sym, ◌∙◌, subst, inl, inr, Bool, true, false, not, Option, none,
  some, List, [], ◌∷◌, map, head?, filter, is_some, is_empty, sorted, All, All-mem, All-of, Memᴰ,
  Permᴰ, mem_perm, mem-filter, filter_mem, filter-All, mem-sorted, sorted_mem, Result, map_result,
  >>=-eq-ok, >>-eq-ok, guard->>-eq-ok, ok-injective, String, some-injective, if◌then◌else◌, nat_eq,
  string_eq, option_eq, list_eq, pair_eq, nat_order, string_order, pair_order, list_order,
}
use mathlib.Core.List.Permᴰ
use scarcity_router.Types.Identity.{identity_eq, scope_eq}
use scarcity_router.Types.Contract.{all_new}
use scarcity_router.Types.Catalog.{ModelCatalogEntry, ModelCatalog}
use scarcity_router.Capacity.{CapacitySnapshot}
use scarcity_router.Policy.{WeeklyRule}
use scarcity_router.Selector.{
  stage_eq, selection_reason_eq, selection_reason_order, Stage, CandidateEvaluation,
  SelectionDecision,
}
use scarcity_router.Selector.Sufficiency.{
  MeetsHard, MeetsMinima, evaluate_hard_constraints-MeetsHard,
  evaluate_capability_sufficiency-MeetsMinima,
}
use scarcity_router.Selector.Evaluate.{evaluate_candidate}
use scarcity_router.Selector.Inputs.{Inputs}
use scarcity_router.Selector.Select.{
  is_eligible, report_key, replenishment_key, check_profile, canonical_inputs, assemble_evaluations,
  select_model,
}
use scarcity_router.Selector.Keyed.{entry_key, evaluation_key, Keyed}
use scarcity_router.Selector.Assembly.{candidate_of_keyed, assemble_evaluations-IsRanking}
use scarcity_router.Selector.Pipeline.Expected.{
  is_not_allowed, is_blacked_out, fails_constraints, lacks_capability, stage_from_capacity, IsReady,
  IsEvaluated, expected_stage,
}
use scarcity_router.Selector.Pipeline.{evaluate_candidate-stage}

-- A selection is the evaluation of an entry that no stage excludes; without one, each entry is excluded.
abbrev pub IsChoice :
    Inputs
    → List ModelCatalogEntry
    → (ModelCatalogEntry → WeeklyRule → Bool)
    → Option CandidateEvaluation
    → Type 0
IsChoice i entries blocks none =
    All (λ entry. is_some (expected_stage i entry (blocks entry)) ≡ true) entries
IsChoice i entries blocks (some e) =
    (entry : ModelCatalogEntry) × Memᴰ entry entries
    × (e.identity ≡ entry.identity)
    × (expected_stage i entry (blocks entry) ≡ none)
    × MeetsHard i.requirement.hard_constraints entry
    × MeetsMinima i.requirement.capability_minima entry.capabilities

module _ {ℓ κ} {A : Type ℓ} {B : Type κ} (f : A → Result B) where
  map_result-source :
      (xs : List A) (ys : List B) {y : B}
      → map_result f xs ≡ ok ys
      → Memᴰ y ys
      → (x : A) × Memᴰ x xs × (f x ≡ ok y)
  map_result-source [] ys {y} h m = elim (subst (Memᴰ y) (sym (ok-injective h)) m) [ ]
  map_result-source (x ∷ xs) ys {y} h m =
      let (z, e, h₁) = >>=-eq-ok (f x) _ h in
      let (zs, k, h₂) = >>=-eq-ok (map_result f xs) _ h₁ in
      elim (subst (Memᴰ y) (sym (ok-injective h₂)) m) [
        | Memᴰ.head q ↦ (x, Memᴰ.head refl, e ∙ ap ok (sym q))
        | Memᴰ.tail n ↦ let (w, j, g) = map_result-source xs zs k n in (w, Memᴰ.tail j, g)
      ]

  map_result-image :
      (xs : List A) (ys : List B) {x : A}
      → map_result f xs ≡ ok ys
      → Memᴰ x xs
      → (y : B) × Memᴰ y ys × (f x ≡ ok y)
  map_result-image [] ys h m = elim m [ ]
  map_result-image (a ∷ xs) ys {x} h m =
      let (z, e, h₁) = >>=-eq-ok (f a) _ h in
      let (zs, k, h₂) = >>=-eq-ok (map_result f xs) _ h₁ in
      let (y, n, g) : (y : B) × Memᴰ y (z ∷ zs) × (f x ≡ ok y) = elim m [
        | Memᴰ.head q ↦ (z, Memᴰ.head refl, ap f q ∙ e)
        | Memᴰ.tail n ↦ let (y, j, g) = map_result-image xs zs k n in (y, Memᴰ.tail j, g)
      ] in
      (y, subst (Memᴰ y) (ok-injective h₂) n, g)

all_pass :
    (n b f l : Bool) (s₁ s₂ s₃ s₄ : Stage) (o : Option Stage)
    → (if n
        then some s₁
        else if b
        then some s₂
        else if f
        then some s₃
        else if l
        then some s₄
        else o)
      ≡ none
    → (f ≡ false) × (l ≡ false)
all_pass true b f l _ _ _ _ o h = cc
all_pass false true f l _ _ _ _ o h = cc
all_pass false false true l _ _ _ _ o h = cc
all_pass false false false true _ _ _ _ o h = cc
all_pass false false false false _ _ _ _ o h = (refl, refl)

empty_of {ℓ} : {A : Type ℓ} (xs : List A) → not (is_empty xs) ≡ false → xs ≡ []
empty_of [] h = refl
empty_of (x ∷ xs) h = cc

-- An entry that no stage excludes is sufficient.
expected_stage-none :
    (i : Inputs) (entry : ModelCatalogEntry) (blocks : WeeklyRule → Bool)
    → expected_stage i entry blocks ≡ none
    → MeetsHard i.requirement.hard_constraints entry
      × MeetsMinima i.requirement.capability_minima entry.capabilities
expected_stage-none i entry blocks h =
    let (constraints, minima) =
      all_pass (is_not_allowed i entry) (is_blacked_out i entry blocks) (fails_constraints i entry)
        (lacks_capability i entry) Stage.execution Stage.policy_blackout Stage.hard_constraint
        Stage.capability (stage_from_capacity i entry) h in
    (
      (evaluate_hard_constraints-MeetsHard i.requirement.hard_constraints entry).0
          (empty_of _ constraints),
      (evaluate_capability_sufficiency-MeetsMinima i.requirement.capability_minima
            entry.capabilities).0
          (empty_of _ minima),
    )

none_of : (o : Option Stage) → true ≡ not (is_some o) → o ≡ none
none_of none h = refl
none_of (some s) h = cc

head-of : (xs : List CandidateEvaluation) (e : CandidateEvaluation) → head? xs ≡ some e → Memᴰ e xs
head-of [] e h = cc
head-of (x ∷ xs) e h = Memᴰ.head (sym (some-injective h))

head-none :
    (xs : List CandidateEvaluation) {e : CandidateEvaluation} → head? xs ≡ none → ¬ Memᴰ e xs
head-none [] h m = elim m [ ]
head-none (x ∷ xs) h m = cc

-- The evaluations that `select_model` assembles.
select_model-assembled :
    (i : Inputs) (catalog : ModelCatalog) (profile_id : Option String) (version : Option ℕ)
    (d : SelectionDecision)
    → select_model i catalog profile_id version ≡ ok d
    → (es : List CandidateEvaluation) × (map_result
          (evaluate_candidate (canonical_inputs i))
          (sorted entry_key catalog.entries)
        ≡ ok es)
      × (assemble_evaluations (canonical_inputs i) catalog profile_id version es ≡ ok d)
unfolding select_model
select_model-assembled i catalog profile_id version d h =
    let (_, h₁) =
      guard->>-eq-ok (all_new (λ (s : CapacitySnapshot). s.provider) [] i.snapshots) _ _ h in
    let (_, h₂) = guard->>-eq-ok (all_new report_key [] i.eligibility_reports) _ _ h₁ in
    let (_, h₃) = guard->>-eq-ok (all_new replenishment_key [] i.replenishment_states) _ _ h₂ in
    let (_, h₄) = >>-eq-ok (check_profile profile_id) _ h₃ in
    >>=-eq-ok
      (map_result (evaluate_candidate (canonical_inputs i)) (sorted entry_key catalog.entries)) _ h₄

-- Where `select_model` returns, with candidates that are all ready to be evaluated, what it selects is the
-- evaluation of a catalog entry that no stage excludes and that meets every hard constraint and capability
-- minimum of the requirement; and where it selects none, some stage excludes each entry of the catalog.
pub select_model-IsChoice :
    (i : Inputs) (catalog : ModelCatalog) (profile_id : Option String) (version : Option ℕ)
    (d : SelectionDecision) (blocks prefers : ModelCatalogEntry → WeeklyRule → Bool)
    → All
        (λ entry. IsReady (canonical_inputs i) entry (blocks entry) (prefers entry))
        catalog.entries
    → select_model i catalog profile_id version ≡ ok d
    → IsChoice (canonical_inputs i) catalog.entries blocks d.selected
select_model-IsChoice i catalog profile_id version d blocks prefers ready h =
    let (es, evaluated, made) = select_model-assembled i catalog profile_id version d h in
    let (ranked, ranking, selected, _, _) =
      assemble_evaluations-IsRanking (canonical_inputs i) catalog profile_id version es d made in
    by_selected es evaluated ranked ranking.complete d.selected selected
  where
    inputs : Inputs
    inputs = canonical_inputs i

    by_stage :
        (entry : ModelCatalogEntry)
        → Memᴰ entry catalog.entries
        → (e : CandidateEvaluation) → evaluate_candidate inputs entry ≡ ok e
        → IsEvaluated entry (expected_stage inputs entry (blocks entry)) e
    by_stage entry m e q =
        let (e', built, out) =
          evaluate_candidate-stage inputs entry (blocks entry) (prefers entry)
            (All-mem _ catalog.entries ready m) in
        subst (IsEvaluated entry (expected_stage inputs entry (blocks entry)))
          (ok-injective (sym built ∙ q)) out

    by_selected :
        (es : List CandidateEvaluation)
        → map_result (evaluate_candidate inputs) (sorted entry_key catalog.entries) ≡ ok es
        → (ranked : List Keyed)
        → Permᴰ (map candidate_of_keyed ranked) (filter is_eligible (sorted evaluation_key es))
        → (o : Option CandidateEvaluation) → o ≡ head? (map candidate_of_keyed ranked)
        → IsChoice inputs catalog.entries blocks o
    by_selected es evaluated ranked perm (some e) q =
        let among = mem_perm perm (head-of _ e (sym q)) in
        let eligible =
          All-mem (λ x. is_eligible x ≡ true) _ (filter-All is_eligible (sorted evaluation_key es))
            among in
        let member = mem-sorted evaluation_key es (mem-filter is_eligible _ among) in
        let (entry, m, built) =
          map_result-source (evaluate_candidate inputs) _ es evaluated member in
        let inside = mem-sorted entry_key catalog.entries m in
        let out = by_stage entry inside e built in
        let stage = none_of _ (sym eligible ∙ out.eligible_without) in
        let (constraints, minima) = expected_stage-none inputs entry (blocks entry) stage in
        (entry, inside, out.same_identity, stage, constraints, minima)
    by_selected es evaluated ranked perm none q = All-of _ catalog.entries (λ entry m.
        let (e, n, built) =
          map_result-image (evaluate_candidate inputs) _ es evaluated
            (sorted_mem entry_key catalog.entries m) in
        let out = by_stage entry m e built in
        elim (Bool-cases e.eligible) [
          | inl g ↦
              let among = filter_mem is_eligible _ (sorted_mem evaluation_key es n) g in
              absurd (head-none _ (sym q) (mem_perm (Permᴰ.symm perm) among))
          | inr g ↦ excluded _ (sym g ∙ out.eligible_without)
        ])
      where
        excluded : (o : Option Stage) → false ≡ not (is_some o) → is_some o ≡ true
        excluded none h = cc
        excluded (some s) h = refl
