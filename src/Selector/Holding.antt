-- ===== src/Selector/Holding.antt =====
-- Whether a reservation holds a candidate back (selector.py, the reservation stage).
use mathlib.Core.Path.{ap₂}
use scarcity_router.Common.{
  ok, ℕ, ◌≤◌, ◌≡◌, refl, sym, ◌∙◌, inl, inr, Bool, true, false, not, ◌&&◌, ◌||◌, Option, none, some,
  List, [], ◌∷◌, Memᴰ, arith, ltb, Bool-cases, is_some, any, All, All-mem, any_of_mem, mem_of_any,
  mem-filter, Result, map_result, option_eq, contains, list_eq, pair_eq, string_eq, nat_eq,
  nat_order, string_order, pair_order, list_order,
}
use scarcity_router.Types.SafeId.{is_safe_id}
use scarcity_router.Types.Identity.{CapacityScopeRef, identity_eq, scope_eq}
use scarcity_router.Types.Requirement.{TaskLevel, level_index}
use scarcity_router.Types.Catalog.{ModelCatalogEntry}
use scarcity_router.Capacity.{CapacityWindow, CapacitySnapshot}
use scarcity_router.Scarcity.Bindings.{usable_remaining}
use scarcity_router.Scarcity.Applicable.{AreSnapshots}
use scarcity_router.Policy.{
  policy_reason_eq, policy_reason_order, ReservationRule, ReservationDecision,
}
use scarcity_router.Policy.Preservation.Outcome.{
  undetermined, determined, targets, is_determined, IsLeastRemaining, ReservationOutcome,
}
use scarcity_router.Policy.Preservation.{evaluate_reservation-total}
use scarcity_router.Selector.{
  Stage, stage_eq, SelectionReason, selection_reason_eq, selection_reason_order,
}
use scarcity_router.Selector.Candidate.{stage_of_reason}
use scarcity_router.Selector.Evaluate.{
  applicable_rules, reservation_decisions, is_unknown_reservation, is_true, reservation_primary,
}
use scarcity_router.Selector.Inputs.{Inputs}

abbrev below : ℕ → Option ℕ → Bool
below threshold none = false
below threshold (some r) = ltb r threshold

-- A rule holds a task back if its trigger cannot be told, or if a window that it targets is below the
-- threshold and the task's level is below the minimum.
abbrev pub holds_back : List CapacitySnapshot → TaskLevel → ReservationRule → Bool
holds_back snapshots level rule =
    not (is_determined rule snapshots)
    || (any (λ w. below rule.when_remaining_below (usable_remaining w)) (targets rule snapshots)
        && ltb (level_index level) (level_index rule.minimum_task_level))

-- A decision that excludes.
abbrev pub excludes : ReservationDecision → Bool
excludes d = is_unknown_reservation d.state || is_true d.blocked

bool_ext : (a b : Bool) → (a ≡ true → b ≡ true) → (b ≡ true → a ≡ true) → a ≡ b
bool_ext true b f g = sym (f refl)
bool_ext false true f g = g refl
bool_ext false false f g = refl

-- The least percentage is below the threshold just if some is.
least-below :
    (t r : ℕ) (ws : List CapacityWindow)
    → IsLeastRemaining r ws
    → ltb r t ≡ any (λ w. below t (usable_remaining w)) ws
least-below t r ws h = bool_ext _ _ there back
  where
    there : ltb r t ≡ true → any (λ w. below t (usable_remaining w)) ws ≡ true
    there q = any_of_mem (λ w. below t (usable_remaining w)) ws h.member (rw h.reached q)

    lower :
        (o : Option ℕ) (w : CapacityWindow)
        → Memᴰ w ws
        → usable_remaining w ≡ o
        → below t o ≡ true
        → ltb r t ≡ true
    lower none w m e q = cc
    lower (some s) w m e q =
        let le = All-mem (λ w. (s : ℕ) → usable_remaining w ≡ some s → r ≤ s) ws h.least m s e in
        ground (arith, le, q)

    back : any (λ w. below t (usable_remaining w)) ws ≡ true → ltb r t ≡ true
    back q =
        let (w, m, k) = mem_of_any (λ w. below t (usable_remaining w)) ws q in
        lower (usable_remaining w) w m refl k

outcome-excludes :
    (rule : ReservationRule) (snapshots : List CapacitySnapshot) (level : TaskLevel)
    (d : ReservationDecision)
    → ReservationOutcome rule snapshots level d
    → excludes d ≡ holds_back snapshots level rule
outcome-excludes rule snapshots level d (undetermined u st tr bl) = rw (u, st) refl
outcome-excludes rule snapshots level d (determined r k least st ev tr bl) =
    rw (k, st, bl, least-below rule.when_remaining_below r (targets rule snapshots) least) refl

-- A loop of steps that succeed succeeds, and what is tested of the results was tested of the items.
pub map_result-any {ℓ κ} :
    {A : Type ℓ} {B : Type κ} (f : A → Result B) (p : B → Bool) (q : A → Bool) (xs : List A)
    → ((x : A) → Memᴰ x xs → (y : B) × (f x ≡ ok y) × (p y ≡ q x))
    → (ys : List B) × (map_result f xs ≡ ok ys) × (any p ys ≡ any q xs)
map_result-any f p q [] h = ([], refl, refl)
map_result-any f p q (x ∷ xs) h =
    let (y, e, t) = h x (Memᴰ.head refl) in
    let (ys, es, ts) = map_result-any f p q xs (λ z m. h z (Memᴰ.tail m)) in
    (y ∷ ys, rw (e, es) refl, ap₂ (λ a b. a || b) t ts)

-- The decisions of the reservation stage.
pub reservation_decisions-ok :
    (entry : ModelCatalogEntry) (i : Inputs)
    → AreSnapshots i.snapshots
    → All
        (λ (r : ReservationRule). is_safe_id r.rule_id ≡ true)
        i.policy.resource_policy.reservations
    → (ds : List ReservationDecision) × (reservation_decisions entry i ≡ ok ds)
      × (any excludes ds
          ≡ any
              (holds_back i.snapshots i.requirement.task_level)
              (applicable_rules i.policy.resource_policy.reservations entry.capacity_bindings))
unfolding reservation_decisions
reservation_decisions-ok entry i h safe =
    map_result-any _ excludes (holds_back i.snapshots i.requirement.task_level)
      (applicable_rules i.policy.resource_policy.reservations entry.capacity_bindings)
      λ r m.
        let (d, built, out) =
          evaluate_reservation-total r i.snapshots i.requirement.task_level
            (All-mem (λ (r : ReservationRule). is_safe_id r.rule_id ≡ true) _ safe
              (among entry.capacity_bindings m))
            h in
        (d, built, outcome-excludes r i.snapshots i.requirement.task_level d out)
  where
    among :
        {r : ReservationRule} (bindings : Option (List CapacityScopeRef))
        → Memᴰ r (applicable_rules i.policy.resource_policy.reservations bindings)
        → Memᴰ r i.policy.resource_policy.reservations
    among none m = elim m [ ]
    among (some bs) m = mem-filter (λ (r : ReservationRule). contains bs r.scope) _ m

-- The loop with its `break` finds a reason just if some decision excludes, and it is one of its stage.
pub reservation_primary-any :
    (acc : Option SelectionReason) (ds : List ReservationDecision)
    → is_some (reservation_primary acc ds) ≡ (is_some acc || any excludes ds)
unfolding reservation_primary
reservation_primary-any acc [] = ground arith
reservation_primary-any acc (d ∷ ds) = elim (Bool-cases (is_unknown_reservation d.state)) [
  | inl e ↦ rw e (ground arith)
  | inr e ↦ elim (Bool-cases (is_true d.blocked)) [
    | inl g ↦
        rw (e, g)
          (reservation_primary-any (some SelectionReason.reservation_blocked) ds ∙ ground arith)
    | inr g ↦ rw (e, g) (reservation_primary-any acc ds)
  ]
]

abbrev pub IsReservationReason : Option SelectionReason → Type 0
IsReservationReason none = Unit
IsReservationReason (some c) = stage_of_reason c ≡ some Stage.reservation

pub reservation_primary-IsReservationReason :
    (acc : Option SelectionReason) (ds : List ReservationDecision)
    → IsReservationReason acc
    → IsReservationReason (reservation_primary acc ds)
unfolding reservation_primary
reservation_primary-IsReservationReason acc [] h = h
reservation_primary-IsReservationReason acc (d ∷ ds) h =
    elim (Bool-cases (is_unknown_reservation d.state)) [
      | inl e ↦ rw e refl
      | inr e ↦ elim (Bool-cases (is_true d.blocked)) [
        | inl g ↦
            rw (e, g)
              (reservation_primary-IsReservationReason (some SelectionReason.reservation_blocked) ds
                refl)
        | inr g ↦ rw (e, g) (reservation_primary-IsReservationReason acc ds h)
      ]
    ]
