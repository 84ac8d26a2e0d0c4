-- ===== src/Scarcity/Applicable.antt =====
-- The candidates that the telemetry of validated snapshots makes applicable.
use scarcity_router.Common.{
  ℕ, ◌≤◌, String, ◌≡◌, refl, inl, inr, true, false, Option, none, some, List, [], ◌∷◌, ◌++◌, Memᴰ,
  arith, Bool-cases, is_some, is_empty, All, HasDistinctKeys, ◌==◌, nat_eq, string_eq, option_eq,
  list_eq, pair_eq, nat_order, string_order, pair_order, list_order,
}
use scarcity_router.Types.Identity.{CapacityScopeRef, identity_eq, scope_eq}
use scarcity_router.Capacity.{CapacityWindow, CapacitySnapshot}
use scarcity_router.Capacity.Contract.{
  resource_eq, kind_eq, resource_order, kind_order, diagnostic_eq, is_ok, HasValidPercents,
  IsValidWindow,
}
use scarcity_router.Scarcity.Assessment.{reason_eq, reason_order, role_eq, label_eq, evidence_eq}
use scarcity_router.Scarcity.Bindings.{Candidate, usable_remaining, window_matches, snapshot_for}
use scarcity_router.Scarcity.Windows.{
  candidate_of, candidates_of, trusted_windows, applicable, covers, added,
}

-- Snapshots as their constructors let them through, at most one of a provider.
pub record AreSnapshots (snapshots : List CapacitySnapshot) : Type 0 where
  pub valid : All (λ (s : CapacitySnapshot). All IsValidWindow s.windows) snapshots
  pub distinct : HasDistinctKeys (λ (s : CapacitySnapshot). s.provider) snapshots

-- Applicable candidates stand within 0..100 and belong to one of the bindings.
abbrev pub IsApplicable : List CapacityScopeRef → Candidate → Type 0
IsApplicable bindings c = (c.remaining ≤ 100) × Memᴰ c.scope bindings

pub usable_remaining-bound :
    (w : CapacityWindow) (r : ℕ) → IsValidWindow w → usable_remaining w ≡ some r → r ≤ 100
usable_remaining-bound w r h e = within w.used_percent w.remaining_percent h e
  where
    within :
        (u m : Option ℕ)
        → HasValidPercents u m
        → (elim u [ none ↦ none | some _ ↦ m ]) ≡ some r
        → r ≤ 100
    within none m h e = cc
    within (some u) none h e = cc
    within (some u) (some m) h e = ground arith

All-++ {ℓ κ} :
    {A : Type ℓ} (P : A → Type κ) (xs ys : List A) → All P xs → All P ys → All P (xs ++ ys)
All-++ P [] ys h k = k
All-++ P (x ∷ xs) ys h k = (h.0, All-++ P xs ys h.1 k)

candidates_of-IsApplicable :
    (bindings : List CapacityScopeRef) (b : CapacityScopeRef) (ws : List CapacityWindow)
    → Memᴰ b bindings
    → All IsValidWindow ws
    → All (IsApplicable bindings) (candidates_of b ws)
candidates_of-IsApplicable bindings b [] m h = tt
candidates_of-IsApplicable bindings b (w ∷ ws) m h =
    All-++ (IsApplicable bindings) (added b w) (candidates_of b ws) one
      (candidates_of-IsApplicable bindings b ws m h.1)
  where
    from :
        (o : Option ℕ) → usable_remaining w ≡ o → All (IsApplicable bindings) (candidate_of b w o)
    from none e = tt
    from (some r) e = ((usable_remaining-bound w r h.0 e, m), tt)

    one : All (IsApplicable bindings) (added b w)
    one = elim (Bool-cases (window_matches b w)) [
      | inl e ↦ rw e (from (usable_remaining w) refl)
      | inr e ↦ rw e tt
    ]

pub trusted_windows-valid :
    (snapshots : List CapacitySnapshot) (p : String)
    → All (λ (s : CapacitySnapshot). All IsValidWindow s.windows) snapshots
    → All IsValidWindow (trusted_windows (snapshot_for snapshots p))
trusted_windows-valid [] p h = tt
trusted_windows-valid (s ∷ snapshots) p h = elim (Bool-cases (s.provider == p)) [
  | inl e ↦ elim (Bool-cases (is_ok s.status)) [ inl g ↦ rw (e, g) h.0 | inr g ↦ rw (e, g) tt ]
  | inr e ↦ rw e (trusted_windows-valid snapshots p h.1)
]

pub applicable-IsApplicable :
    (snapshots : List CapacitySnapshot) (all_bindings bs : List CapacityScopeRef)
    → All (λ b. Memᴰ b all_bindings) bs
    → All (λ (s : CapacitySnapshot). All IsValidWindow s.windows) snapshots
    → All (IsApplicable all_bindings) (applicable snapshots bs)
applicable-IsApplicable snapshots all_bindings [] m h = tt
applicable-IsApplicable snapshots all_bindings (b ∷ bs) m h =
    All-++ (IsApplicable all_bindings) _ _
      (candidates_of-IsApplicable all_bindings b _ m.0
        (trusted_windows-valid snapshots b.provider h))
      (applicable-IsApplicable snapshots all_bindings bs m.1 h)

-- A binding that is covered has a candidate.
pub covers-nonempty :
    (b : CapacityScopeRef) (ws : List CapacityWindow)
    → covers b ws ≡ true
    → is_empty (candidates_of b ws) ≡ false
covers-nonempty b [] h = cc
covers-nonempty b (w ∷ ws) h = elim (Bool-cases (window_matches b w)) [
  | inl e ↦ rw e (known_one (usable_remaining w) (ground arith))
  | inr e ↦ rw e (covers-nonempty b ws (ground arith))
]
  where
    known_one :
        (o : Option ℕ)
        → is_some o ≡ true
        → is_empty (candidate_of b w o ++ candidates_of b ws) ≡ false
    known_one none h = cc
    known_one (some r) h = refl
