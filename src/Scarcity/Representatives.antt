-- ===== src/Scarcity/Representatives.antt =====
-- The window that represents a role (scarcity.py `assess_scarcity`).
use scarcity_router.Common.{
  ok, ◌≤◌, ◌<◌, ◌≡◌, refl, sym, ap, subst, ◌⊎◌, inl, inr, true, Option, none, some, List, [], ◌∷◌,
  Memᴰ, if◌then◌else◌, is_empty-of_mem, filter, is_empty, All, All-of, filter-All, mem-filter,
  filter_mem, ◌>>=◌, nat_eq, string_eq, option_eq, list_eq, pair_eq, nat_order, string_order,
  pair_order, list_order, All-mem, ◌==◌,
}
use scarcity_router.Types.Identity.{CapacityScopeRef, identity_eq, scope_eq}
use scarcity_router.Scarcity.Measure.{WindowRole, window_role, strategic, tactical}
use scarcity_router.Scarcity.Assessment.{reason_eq, reason_order, role_eq, label_eq, evidence_eq}
use scarcity_router.Scarcity.Assess.{of_role, pick_role}
use scarcity_router.Scarcity.Bindings.{Candidate, pick_governing}
use scarcity_router.Scarcity.Pick.{AreValid, Governs, pick_governing-ok}

-- A usable window of a known state: between 1 and 100, of one of the bindings.
pub record IsUsable (bindings : List CapacityScopeRef) (c : Candidate) : Type 0 where
  pub positive : 0 < c.remaining
  pub at_most_full : c.remaining ≤ 100
  pub bound : Memᴰ c.scope bindings

-- `none` only where the role has no window; else its governing window.
abbrev pub IsRepresentative : WindowRole → List Candidate → Option Candidate → Type 0
IsRepresentative role ws none = filter (of_role role) ws ≡ []
IsRepresentative role ws (some c) = Governs c (filter (of_role role) ws)

pub pick_role-ok :
    (role : WindowRole) (ws : List Candidate)
    → AreValid ws
    → (o : Option Candidate) × (pick_role role ws ≡ ok o) × IsRepresentative role ws o
unfolding pick_role
pick_role-ok role ws valid = of_pool (filter (of_role role) ws) refl
  where
    of_pool :
        (pool : List Candidate)
        → filter (of_role role) ws ≡ pool
        → (o : Option Candidate) × ((if is_empty pool
              then ok none
              else (pick_governing pool >>= λ c. ok (some c)))
            ≡ ok o)
          × IsRepresentative role ws o
    of_pool [] e = (none, refl, e)
    of_pool (c₀ ∷ cs) e =
        let valid_pool = subst AreValid e (
          All-of (λ (c : Candidate). c.remaining ≤ 100) _
            λ c m.
              All-mem (λ (d : Candidate). d.remaining ≤ 100) ws valid
                (mem-filter (of_role role) ws m)) in
        let (c, picked, governs) = pick_governing-ok c₀ cs valid_pool in
        (some c, rw picked refl, subst (Governs c) (sym e) governs)

-- The facts of a representative that the checks ask for.
pub representative_facts :
    (role : WindowRole) (bindings : List CapacityScopeRef) (ws : List Candidate) (c : Candidate)
    → All (IsUsable bindings) ws
    → Governs c (filter (of_role role) ws)
    → IsUsable bindings c × (of_role role c ≡ true)
representative_facts role bindings ws c usable g = (
  All-mem (IsUsable bindings) ws usable (mem-filter (of_role role) ws g.member),
  All-mem (λ d. of_role role d ≡ true) _ (filter-All (of_role role) ws) g.member,
)

-- A window has one of the two roles.
some_role : (c : Candidate) → (of_role strategic c ≡ true) ⊎ (of_role tactical c ≡ true)
some_role c = either (window_role c.window.resource c.window.kind)
  where
    either : (r : WindowRole) → ((r == strategic) ≡ true) ⊎ ((r == tactical) ≡ true)
    either strategic = inl refl
    either tactical = inr refl

pub no_role_left :
    (c : Candidate) (cs : List Candidate)
    → filter (of_role strategic) (c ∷ cs) ≡ []
    → filter (of_role tactical) (c ∷ cs) ≡ []
    → ⊥
no_role_left c cs hs ht = elim (some_role c) [
  | inl e ↦ nonempty strategic e hs
  | inr e ↦ nonempty tactical e ht
]
  where
    nonempty : (role : WindowRole) → of_role role c ≡ true → filter (of_role role) (c ∷ cs) ≡ [] → ⊥
    nonempty role e h =
        cc
          (is_empty-of_mem _ (filter_mem (of_role role) (c ∷ cs) (Memᴰ.head refl) e), ap is_empty h)
