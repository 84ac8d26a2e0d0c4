-- ===== src/Selector/Closest.antt =====
-- The closest candidates of a decision without a selection (selector.py `_closest_candidates`).
use scarcity_router.Common.{
  ok, ℕ, zero, suc, ◌≤◌, ◌≡◌, refl, sym, ◌↔◌, true, false, Option, none, some, List, [], ◌∷◌, map,
  Memᴰ, arith, eqb_iff, is_some, is_empty-of_mem, length, take, filter, is_empty, All-mem, All-of,
  All-mono, filter-All, mem-filter, filter_mem, nat_eq, string_eq, option_eq, list_eq, pair_eq,
  nat_order, string_order, pair_order, list_order, All, subst,
}
use scarcity_router.Scarcity.Bindings.{max_from, max_of}
use scarcity_router.Scarcity.Pick.{max_from_bounds, max_from-mem, map_result-ok, mem-map, All-map}
use scarcity_router.Selector.{
  Stage, stage_progress, stage_eq, selection_reason_eq, selection_reason_order, CandidateEvaluation,
}
use scarcity_router.Selector.Keyed.{progress_by, progress_of, is_at, closest_candidates}

-- How far an excluded candidate came.
abbrev pub progress : CandidateEvaluation → ℕ
progress c = elim c.exclusion_stage [ none ↦ 0 | some s ↦ stage_progress s ]

abbrev pub HasStage : CandidateEvaluation → Type 0
HasStage c = is_some c.exclusion_stage ≡ true

progress_of-ok : (c : CandidateEvaluation) → HasStage c → progress_of c ≡ ok (progress c)
progress_of-ok c h = by_stage c.exclusion_stage h
  where
    by_stage :
        (o : Option Stage)
        → is_some o ≡ true
        → progress_by o ≡ ok (elim o [ none ↦ 0 | some s ↦ stage_progress s ])
    by_stage none h = cc
    by_stage (some s) h = refl

is_at_iff : (n : ℕ) (c : CandidateEvaluation) → HasStage c → (is_at n c ≡ true) ↔ (progress c ≡ n)
is_at_iff n c h = rw (progress_of-ok c h) (eqb_iff (progress c) n)

length-take : {A : Type 0} (n : ℕ) (xs : List A) → length (take n xs) ≤ n
length-take zero xs = omega arith
length-take (suc n) [] = omega arith
length-take (suc n) (x ∷ xs) = omega (arith, length-take n xs)

take-All {ℓ κ} : {A : Type ℓ} (P : A → Type κ) (n : ℕ) (xs : List A) → All P xs → All P (take n xs)
take-All P zero xs h = tt
take-All P (suc n) [] h = tt
take-All P (suc n) (x ∷ xs) h = (h.0, take-All P n xs h.1)

-- The candidates that came furthest, at most three of them.
pub record AreClosest (cs excluded : List CandidateEvaluation) : Type 0 where
  pub at_most_three : length cs ≤ 3
  pub some_candidate : is_empty cs ≡ false
  pub among : All (λ (c : CandidateEvaluation). Memᴰ c excluded) cs
  pub furthest :
      All
        (λ (c : CandidateEvaluation).
          All (λ (d : CandidateEvaluation). progress d ≤ progress c) excluded)
        cs

-- Of excluded candidates, at least one and each with its stage, `_closest_candidates` returns between one and
-- three, and none of the excluded ones came further than any of those.
pub closest_candidates-AreClosest :
    (c₀ : CandidateEvaluation) (cs : List CandidateEvaluation)
    → All HasStage (c₀ ∷ cs)
    → (out : List CandidateEvaluation) × (closest_candidates (c₀ ∷ cs) ≡ ok out)
      × AreClosest out (c₀ ∷ cs)
unfolding closest_candidates max_of
closest_candidates-AreClosest c₀ cs h =
    let excluded = c₀ ∷ cs in
    let computed =
      map_result-ok progress_of progress excluded
        (All-mono excluded (λ c s. progress_of-ok c s) h) in
    let top = max_from (progress c₀) (map progress cs) in
    let bounds = max_from_bounds (progress c₀) (map progress cs) top (omega arith) in
    let below : All (λ (d : CandidateEvaluation). progress d ≤ top) excluded =
      (bounds.0, All-map (λ n. n ≤ top) progress cs bounds.1) in
    let (c₁, in₁, top₁) =
      mem-map progress top excluded (max_from-mem (progress c₀) (map progress cs)) in
    let tied = filter (is_at top) excluded in
    let kept =
      filter_mem (is_at top) excluded in₁
        ((is_at_iff top c₁ (All-mem HasStage excluded h in₁)).1 (sym top₁)) in
    (
      take 3 tied,
      rw computed refl,
      record {
        at_most_three = length-take 3 tied;
        some_candidate = nonempty tied (is_empty-of_mem tied kept);
        among = take-All _ 3 tied (All-of _ tied (λ c m. mem-filter (is_at top) excluded m));
        furthest = take-All _ 3 tied (
            All-of _ tied λ c m.
              let in_excluded = mem-filter (is_at top) excluded m in
              let at_top =
                (is_at_iff top c (All-mem HasStage excluded h in_excluded)).0
                  (All-mem (λ d. is_at top d ≡ true) tied (filter-All (is_at top) excluded) m) in
              subst (λ n. All (λ (d : CandidateEvaluation). progress d ≤ n) excluded) (sym at_top)
                below);
      },
    )
  where
    nonempty : (xs : List CandidateEvaluation) → is_empty xs ≡ false → is_empty (take 3 xs) ≡ false
    nonempty [] h = cc
    nonempty (x ∷ xs) h = refl
