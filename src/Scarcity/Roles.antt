-- ===== src/Scarcity/Roles.antt =====
-- The representatives of the two roles, and the state `known` that they make.
use scarcity_router.Scarcity.Closed.{new_assessment-known, stored}
use scarcity_router.Scarcity.Bounds.{penalty, scarcity_penalty_units-ok}
use scarcity_router.Scarcity.Contract.{check_role, governing_of, remaining_of}
use scarcity_router.Common.{
  ok, ℕ, ◌≤◌, ◌<◌, ◌≡◌, refl, true, Option, none, some, List, [], ◌∷◌, Memᴰ, arith, leb, All,
  nat_eq, string_eq, option_eq, list_eq, pair_eq, nat_order, string_order, pair_order, list_order,
  ◌++◌, is_some, ◌||◌, sorted, eqb, All-mono, eqb_iff,
}
use scarcity_router.Types.Identity.{CapacityScopeRef, identity_eq, scope_eq, scope_key}
use scarcity_router.Scarcity.Measure.{
  blend, scarcity_label, strategic, tactical, label_for, blended_effective_remaining_percent,
  check_pct,
}
use scarcity_router.Scarcity.Assessment.{
  reason_eq, reason_order, role_eq, label_eq, evidence_eq, known, ScarcityAssessment,
  GoverningWindowEvidence,
}
use scarcity_router.Scarcity.Assess.{remaining_or_none, assess_known, evidence_of, known_assessment}
use scarcity_router.Scarcity.Bindings.{Candidate, governing_evidence}
use scarcity_router.Scarcity.Representatives.{
  IsRepresentative, IsUsable, no_role_left, pick_role-ok, representative_facts,
}

-- The effective remaining of the two representatives.
abbrev pub blend_of : Option Candidate → Option Candidate → ℕ
blend_of (some s) (some t) = blend t.remaining s.remaining
blend_of (some s) none = s.remaining
blend_of none (some t) = t.remaining
blend_of none none = 0

within_scale : (n : ℕ) → n ≤ 100 → leb n 100 ≡ true
within_scale n k = ground arith

scarcity_label-ok : (r : ℕ) → r ≤ 100 → scarcity_label r ≡ ok (label_for r)
unfolding scarcity_label
scarcity_label-ok r h = rw (within_scale r h) refl

same_blend : (r : ℕ) → blend r r ≡ r
same_blend r = omega arith

-- The representatives there are.
abbrev given : Option Candidate → List Candidate
given none = []
given (some c) = c ∷ []

blend_of-ok :
    (bindings : List CapacityScopeRef) (s t : Option Candidate)
    → All (IsUsable bindings) (given s ++ given t)
    → is_some s || is_some t ≡ true
    → (blended_effective_remaining_percent (remaining_or_none t) (remaining_or_none s)
        ≡ ok (blend_of s t))
      × (0 < blend_of s t)
      × (blend_of s t ≤ 100)
unfolding blended_effective_remaining_percent check_pct
blend_of-ok bindings none none h k = cc
blend_of-ok bindings none (some t) (ht, _) k = (
  rw (within_scale t.remaining ht.at_most_full, same_blend t.remaining) refl,
  ht.positive,
  ht.at_most_full,
)
blend_of-ok bindings (some s) none (hs, _) k = (
  rw (within_scale s.remaining hs.at_most_full, same_blend s.remaining) refl,
  hs.positive,
  hs.at_most_full,
)
blend_of-ok bindings (some s) (some t) (hs, (ht, _)) k = (
  ground (arith, hs.at_most_full, ht.at_most_full),
  omega (arith, hs.positive, ht.positive),
  omega (arith, hs.at_most_full, ht.at_most_full),
)

-- What the state `known` promises, in terms of the candidates that it was built from.
pub record IsKnown (bindings : List CapacityScopeRef) (ws : List Candidate) (a : ScarcityAssessment)
    : Type 0 where
  pub state : a.state ≡ known
  pub s : Option Candidate
  pub t : Option Candidate
  pub strategic_governs : IsRepresentative strategic ws s
  pub tactical_governs : IsRepresentative tactical ws t
  pub windows : (a.strategic_window ≡ evidence_of s) × (a.tactical_window ≡ evidence_of t)
  pub effective : a.effective_remaining_percent ≡ some (blend_of s t)
  pub penalty_units : a.penalty_units ≡ some (penalty (blend_of s t))
  pub label : a.label ≡ label_for (blend_of s t)
  pub reasons : a.reason_codes ≡ []
  pub scopes : a.applicable_scopes ≡ sorted scope_key bindings

governing_case :
    (bindings : List CapacityScopeRef) (s t : Option Candidate)
    → All (IsUsable bindings) (given s ++ given t)
    → is_some s || is_some t ≡ true
    → (g : GoverningWindowEvidence) × (governing_of (evidence_of s) (evidence_of t) ≡ some g)
      × ((is_some (evidence_of s) || eqb g.remaining_percent (blend_of s t)) ≡ true)
      × Memᴰ g.scope bindings
governing_case bindings none none h k = cc
governing_case bindings none (some t) (ht, _) k =
    (governing_evidence t, refl, (eqb_iff t.remaining t.remaining).1 refl, ht.bound)
governing_case bindings (some s) none (hs, _) k = (governing_evidence s, refl, refl, hs.bound)
governing_case bindings (some s) (some t) (hs, _) k = (governing_evidence s, refl, refl, hs.bound)

-- The representatives of nonempty usable windows: usable, each of its role, not both missing.
representatives :
    (bindings : List CapacityScopeRef) (c₀ : Candidate) (cs : List Candidate)
    (s t : Option Candidate)
    → All (IsUsable bindings) (c₀ ∷ cs)
    → IsRepresentative strategic (c₀ ∷ cs) s
    → IsRepresentative tactical (c₀ ∷ cs) t
    → All (IsUsable bindings) (given s ++ given t)
      × (is_some s || is_some t ≡ true)
      × (check_role strategic (evidence_of s) ≡ ok tt)
      × (check_role tactical (evidence_of t) ≡ ok tt)
representatives bindings c₀ cs none none h hs ht = absurd (no_role_left c₀ cs hs ht)
representatives bindings c₀ cs none (some t) h hs ht =
    let (u, r) = representative_facts tactical bindings (c₀ ∷ cs) t h ht in
    ((u, tt), refl, refl, rw r refl)
representatives bindings c₀ cs (some s) none h hs ht =
    let (u, r) = representative_facts strategic bindings (c₀ ∷ cs) s h hs in
    ((u, tt), refl, rw r refl, refl)
representatives bindings c₀ cs (some s) (some t) h hs ht =
    let (u, r) = representative_facts strategic bindings (c₀ ∷ cs) s h hs in
    let (v, q) = representative_facts tactical bindings (c₀ ∷ cs) t h ht in
    ((u, (v, tt)), refl, rw r refl, rw q refl)

pub assess_known-ok :
    (bindings : List CapacityScopeRef) (c₀ : Candidate) (cs : List Candidate)
    → All (IsUsable bindings) (c₀ ∷ cs)
    → (a : ScarcityAssessment) × (assess_known bindings (c₀ ∷ cs) ≡ ok a)
      × IsKnown bindings (c₀ ∷ cs) a
unfolding assess_known sorted
assess_known-ok bindings c₀ cs h =
    let valid =
      All-mono (c₀ ∷ cs) (λ (c : Candidate) (u : IsUsable bindings c). u.at_most_full) h in
    let (s, picked_s, rep_s) = pick_role-ok strategic (c₀ ∷ cs) valid in
    let (t, picked_t, rep_t) = pick_role-ok tactical (c₀ ∷ cs) valid in
    let (usable, some_rep, role_s, role_t) = representatives bindings c₀ cs s t h rep_s rep_t in
    let (blended, pos, full) = blend_of-ok bindings s t usable some_rep in
    let (g, is_g, match, m) = governing_case bindings s t usable some_rep in
    let e = blend_of s t in
    let built =
      new_assessment-known bindings e (penalty e) (label_for e) g (evidence_of s) (evidence_of t)
        is_g (same_remaining t s blended) (scarcity_penalty_units-ok e full)
        (scarcity_label-ok e full) pos role_s role_t match m in
    (
      stored
          (known_assessment bindings e (label_for e) (penalty e) g (evidence_of s) (evidence_of t)),
      rw
          (
            picked_s,
            picked_t,
            blended,
            scarcity_label-ok e full,
            scarcity_penalty_units-ok e full,
            is_g,
          )
          built,
      record {
        state = refl;
        s = s;
        t = t;
        strategic_governs = rep_s;
        tactical_governs = rep_t;
        windows = (refl, refl);
        effective = refl;
        penalty_units = refl;
        label = refl;
        reasons = refl;
        scopes = refl;
      },
    )
  where
    same_remaining :
        (t s : Option Candidate) {e : ℕ}
        → blended_effective_remaining_percent (remaining_or_none t) (remaining_or_none s) ≡ ok e
        → blended_effective_remaining_percent
            (remaining_of (evidence_of t))
            (remaining_of (evidence_of s))
          ≡ ok e
    same_remaining none none h = h
    same_remaining none (some s) h = h
    same_remaining (some t) none h = h
    same_remaining (some t) (some s) h = h
