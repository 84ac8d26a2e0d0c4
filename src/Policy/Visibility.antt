-- ===== src/Policy/Visibility.antt =====
-- What the replenishment modes show (policy.py), and what they never claim.
use scarcity_router.Common.{
  ok, ◌≡◌, refl, sym, Bool, true, false, not, ◌&&◌, Option, none, some, [], ltb, if◌then◌else◌,
  is_some, nat_eq, string_eq, option_eq, contains, list_eq, pair_eq, nat_order, string_order,
  pair_order, list_order,
}
use scarcity_router.Policy.{
  ReplenishmentMode, policy_reason_eq, policy_reason_order, ReplenishmentState,
  ReplenishmentDecision,
}
use scarcity_router.Policy.Contract.{recoverable_codes, available_codes}
use scarcity_router.Policy.Replenishment.{invisible, visible_of, apply_replenishment_mode}

abbrev is_ignore : ReplenishmentMode → Bool
is_ignore ReplenishmentMode.ignore = true
is_ignore _ = false

-- Some credit is available.
abbrev pub has_credit : Option ReplenishmentState → Bool
has_credit none = false
has_credit (some state) = ltb 0 state.available_count

-- Whether the decision shows the observation, and whether it calls it recoverable.
abbrev pub shows : ReplenishmentMode → Option ReplenishmentState → Bool
shows mode state = not (is_ignore mode) && is_some state

abbrev pub recovers : ReplenishmentMode → Option ReplenishmentState → Bool
recovers ReplenishmentMode.recoverable state = has_credit state
recovers _ state = false

pub record IsVisibility (mode : ReplenishmentMode) (state : Option ReplenishmentState)
    (d : ReplenishmentDecision) : Type 0 where
  pub mode_kept : d.mode ≡ mode
  pub shown : d.visible ≡ shows mode state
  pub recovered : d.recoverable ≡ recovers mode state
  pub by_hand : d.human_action_required ≡ recovers mode state
  pub counted : d.available_count ≡ (
      if shows mode state
      then elim state [ none ↦ none | some s ↦ some s.available_count ]
      else none)

built :
    (mode : ReplenishmentMode) (state : ReplenishmentState) (b : Bool)
    → ltb 0 state.available_count ≡ b
    → (d : ReplenishmentDecision) × (apply_replenishment_mode mode (some state) ≡ ok d)
      × IsVisibility mode (some state) d
unfolding apply_replenishment_mode contains
built ReplenishmentMode.ignore state b e = (
  invisible ReplenishmentMode.ignore,
  refl,
  record { mode_kept = refl; shown = refl; recovered = refl; by_hand = refl; counted = refl },
)
built ReplenishmentMode.advisory state true e = (
  visible_of ReplenishmentMode.advisory state false available_codes,
  rw e refl,
  record { mode_kept = refl; shown = refl; recovered = refl; by_hand = refl; counted = refl },
)
built ReplenishmentMode.advisory state false e = (
  visible_of ReplenishmentMode.advisory state false [],
  rw e refl,
  record { mode_kept = refl; shown = refl; recovered = refl; by_hand = refl; counted = refl },
)
built ReplenishmentMode.recoverable state true e = (
  visible_of ReplenishmentMode.recoverable state true recoverable_codes,
  rw e refl,
  record { mode_kept = refl; shown = refl; recovered = sym e; by_hand = sym e; counted = refl },
)
built ReplenishmentMode.recoverable state false e = (
  visible_of ReplenishmentMode.recoverable state false [],
  rw e refl,
  record { mode_kept = refl; shown = refl; recovered = sym e; by_hand = sym e; counted = refl },
)

-- In each mode and for each observation, or none, the decision is built: it shows the available count unless
-- the mode is `ignore` or nothing was observed, and it is recoverable, and then asks for a human,
-- just in the mode `recoverable` with at least one credit.
pub apply_replenishment_mode-total :
    (mode : ReplenishmentMode) (state : Option ReplenishmentState)
    → (d : ReplenishmentDecision) × (apply_replenishment_mode mode state ≡ ok d)
      × IsVisibility mode state d
unfolding apply_replenishment_mode contains
apply_replenishment_mode-total ReplenishmentMode.ignore none = (
  invisible ReplenishmentMode.ignore,
  refl,
  record { mode_kept = refl; shown = refl; recovered = refl; by_hand = refl; counted = refl },
)
apply_replenishment_mode-total ReplenishmentMode.advisory none = (
  invisible ReplenishmentMode.advisory,
  refl,
  record { mode_kept = refl; shown = refl; recovered = refl; by_hand = refl; counted = refl },
)
apply_replenishment_mode-total ReplenishmentMode.recoverable none = (
  invisible ReplenishmentMode.recoverable,
  refl,
  record { mode_kept = refl; shown = refl; recovered = refl; by_hand = refl; counted = refl },
)
apply_replenishment_mode-total mode (some state) =
    built mode state (ltb 0 state.available_count) refl
