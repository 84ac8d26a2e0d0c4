-- ===== src/Scarcity/Totality/Evidence.antt =====
-- The evidence that the loop of `assess_scarcity` (scarcity.py) collects, where a window stands at 0 and where
-- every binding is covered.
use scarcity_router.Scarcity.Closed.{new_assessment-unavailable, stored}
use scarcity_router.Scarcity.Pick.{pick_governing-ok}
use scarcity_router.Scarcity.Applicable.{IsApplicable, covers-nonempty}
use scarcity_router.Scarcity.Representatives.{IsUsable}
use scarcity_router.Common.{
  ok, ◌≡◌, refl, inl, inr, Bool, true, false, some, List, [], ◌∷◌, ◌++◌, Memᴰ, arith, Bool-cases,
  any, all, is_empty, All, HasDistinctKeys, nat_eq, string_eq, option_eq, list_eq, pair_eq,
  nat_order, string_order, pair_order, list_order, filter, contains, mem_contains, All-mono,
  contains-false, All-mem, sorted, HasDistinctKeys-perm, sorted-perm, sorted_mem, ◌<◌, All-both,
}
use scarcity_router.Types.Identity.{CapacityScopeRef, identity_eq, scope_eq}
use scarcity_router.Capacity.{CapacitySnapshot}
use scarcity_router.Capacity.Contract.{
  resource_eq, kind_eq, resource_order, kind_order, diagnostic_eq,
}
use scarcity_router.Scarcity.Assessment.{
  ScarcityState, reason_eq, reason_order, role_eq, label_eq, evidence_eq, ScarcityAssessment,
  ScarcityReason, capacity_exhausted,
}
use scarcity_router.Scarcity.Assess.{is_exhausted, assess_exhausted, unavailable_assessment}
use scarcity_router.Scarcity.Bindings.{Candidate, snapshot_for, add_code, governing_evidence}
use scarcity_router.Scarcity.Windows.{candidates_of, trusted_windows, applicable, is_covered}
use mathlib.Core.List.Permᴰ

abbrev pub code_id : ScarcityReason → ScarcityReason
code_id c = c

pub filter-nonempty :
    {A : Type 0} (p : A → Bool) (xs : List A)
    → any p xs ≡ true
    → (y : A) × (ys : List A) × (filter p xs ≡ y ∷ ys)
filter-nonempty p [] h = cc
filter-nonempty p (x ∷ xs) h = elim (Bool-cases (p x)) [
  | inl e ↦ (x, filter p xs, rw e refl)
  | inr e ↦ let (y, ys, q) = filter-nonempty p xs (ground arith) in (y, ys, rw e q)
]

pub filter-empty :
    {A : Type 0} (p : A → Bool) (xs : List A)
    → any p xs ≡ false
    → (filter p xs ≡ []) × All (λ x. p x ≡ false) xs
filter-empty p [] h = (refl, tt)
filter-empty p (x ∷ xs) h =
    let (q, r) = filter-empty p xs (ground arith) in
    let out : p x ≡ false = ground arith in (rw out q, (out, r))

pub add_code-distinct :
    (c : ScarcityReason) (codes : List ScarcityReason)
    → HasDistinctKeys code_id codes
    → HasDistinctKeys code_id (add_code c codes) × Memᴰ c (add_code c codes)
unfolding add_code
add_code-distinct c codes h = elim (Bool-cases (contains codes c)) [
  | inl e ↦ rw e (h, mem_contains codes e)
  | inr e ↦ rw e ((contains-false codes c e, h), Memᴰ.head refl)
]

-- Some window stands at 0.
pub assess_exhausted-ok :
    (bindings : List CapacityScopeRef) (codes : List ScarcityReason) (c₀ : Candidate)
    (cs : List Candidate)
    → HasDistinctKeys code_id codes
    → All (IsApplicable bindings) (c₀ ∷ cs)
    → (a : ScarcityAssessment) × (assess_exhausted bindings codes (c₀ ∷ cs) ≡ ok a)
      × (a.state ≡ ScarcityState.unavailable)
      × (a.effective_remaining_percent ≡ some 0)
unfolding assess_exhausted
assess_exhausted-ok bindings codes c₀ cs d h =
    let valid = All-mono (c₀ ∷ cs) (λ (c : Candidate) (u : IsApplicable bindings c). u.0) h in
    let (c, picked, governs) = pick_governing-ok c₀ cs valid in
    let in_bindings = All-mem (IsApplicable bindings) (c₀ ∷ cs) h governs.member in
    let (fresh, m) = add_code-distinct capacity_exhausted codes d in
    let reasons = sorted code_id (add_code capacity_exhausted codes) in
    (
      stored (
          unavailable_assessment bindings reasons
            (record (governing_evidence c) { remaining_percent = 0 })),
      rw picked (
          new_assessment-unavailable reasons bindings
            (record (governing_evidence c) { remaining_percent = 0 }) refl
            (HasDistinctKeys-perm code_id
              (Permᴰ.symm (sorted-perm code_id (add_code capacity_exhausted codes))) fresh)
            (sorted_mem code_id (add_code capacity_exhausted codes) m) in_bindings.1),
      refl,
      refl,
    )

pub some_bindings :
    (bs : List CapacityScopeRef) → is_empty bs ≡ false → (b : CapacityScopeRef) × Memᴰ b bs
some_bindings [] h = cc
some_bindings (b ∷ bs) h = (b, Memᴰ.head refl)

-- Where every binding is covered there is a candidate.
pub applicable-nonempty :
    (snapshots : List CapacitySnapshot) (bs : List CapacityScopeRef)
    → is_empty bs ≡ false
    → all (is_covered snapshots) bs ≡ true
    → (c : Candidate) × (cs : List Candidate) × (applicable snapshots bs ≡ c ∷ cs)
applicable-nonempty snapshots [] h k = cc
applicable-nonempty snapshots (b ∷ bs) h k =
    first (candidates_of b (trusted_windows (snapshot_for snapshots b.provider))) _
      (covers-nonempty b (trusted_windows (snapshot_for snapshots b.provider)) (ground arith))
  where
    first :
        (xs ys : List Candidate)
        → is_empty xs ≡ false
        → (c : Candidate) × (cs : List Candidate) × (xs ++ ys ≡ c ∷ cs)
    first [] ys h = cc
    first (x ∷ xs) ys h = (x, xs ++ ys, refl)

pub All-IsUsable :
    (bindings : List CapacityScopeRef) (ws : List Candidate)
    → All (IsApplicable bindings) ws
    → All (λ c. is_exhausted c ≡ false) ws
    → All (IsUsable bindings) ws
All-IsUsable bindings ws h k =
    All-both
      (λ (c : Candidate) (u : IsApplicable bindings c) (v : is_exhausted c ≡ false). record {
        positive = positive c v;
        at_most_full = u.0;
        bound = u.1;
      })
      ws h k
  where
    positive : (c : Candidate) → is_exhausted c ≡ false → 0 < c.remaining
    positive c v = ground arith
