-- ===== src/Policy/Preservation.antt =====
-- What `evaluate_reservation` decides, against the windows that the rule targets.
pub mod Causes
pub mod Outcome
pub mod Collect
use scarcity_router.Types.Facts.{all_new_of-HasDistinctKeys}
use scarcity_router.Scarcity.Applicable.{
  AreSnapshots, usable_remaining-bound, trusted_windows-valid,
}
use scarcity_router.Common.{
  some-injective, ok, ℕ, ◌≤◌, min, ◌≡◌, refl, ap, inl, inr, Bool, true, false, not, ◌&&◌, Option,
  none, some, List, [], ◌∷◌, Memᴰ, arith, ltb, leb, Bool-cases, is_some, filter, all, is_empty, All,
  sorted, nat_eq, string_eq, option_eq, contains, list_eq, pair_eq, nat_order, string_order,
  pair_order, list_order, subst, ◌∙◌, ◌⊎◌, sym, All-of, is_empty-of_mem, All-mem, mem-filter,
}
use scarcity_router.Types.SafeId.{is_safe_id, check_safe_id}
use scarcity_router.Types.Requirement.{TaskLevel, level_index}
use scarcity_router.Capacity.{CapacityWindow, CapacitySnapshot}
use scarcity_router.Capacity.Contract.{
  resource_eq, kind_eq, resource_order, kind_order, diagnostic_eq, IsValidWindow, is_ok,
}
use scarcity_router.Scarcity.Bindings.{usable_remaining, snapshot_for}
use scarcity_router.Scarcity.Windows.{trusted_windows}
use scarcity_router.Scarcity.Totality.{unseen}
use scarcity_router.Policy.{
  ReservationState, PolicyReason, policy_reason_eq, policy_reason_order, ReservationRule,
  ReservationDecision,
}
use scarcity_router.Policy.Contract.{new_reservation_decision}
use scarcity_router.Policy.Reservation.{
  is_target, prepend, remaining_values, reservation_codes, reservation_on, evaluate_reservation,
  reservation_unknown, min_of, decide_reservation, reserve_snapshot,
}
use scarcity_router.Policy.Preservation.Outcome.{
  targets, has_usable, is_determined, IsLeastRemaining, ReservationOutcome, undetermined,
  determined,
}
use scarcity_router.Policy.Preservation.Collect.{
  collect, remaining_values-filter, min_of_bounds, min_of-mem, collect-mem, collect-least,
  collect-is_some,
}
use scarcity_router.Policy.Preservation.Causes.{causes, reservation_on-ok, unknown_of}

-- The decision on what the loop returned.
decide-ok :
    (rule : ReservationRule) (snapshots : List CapacitySnapshot) (level : TaskLevel)
    (o : Option (List ℕ))
    → is_safe_id rule.rule_id ≡ true
    → All IsValidWindow (targets rule snapshots)
    → collect (targets rule snapshots) ≡ o
    → (d : ReservationDecision) × (decide_reservation rule level o ≡ ok d)
      × ReservationOutcome rule snapshots level d
decide-ok rule snapshots level none h v e = (
  unknown_of rule PolicyReason.reservation_percentage_unknown,
  (causes rule h).0,
  undetermined (unreadable (sym (collect-is_some (targets rule snapshots)) ∙ ap is_some e)) refl
      refl refl,
)
  where
    unreadable :
        all (λ w. is_some (usable_remaining w)) (targets rule snapshots) ≡ false
        → is_determined rule snapshots ≡ false
    unreadable q = rw q (ground arith)
decide-ok rule snapshots level (some []) h v e = (
  unknown_of rule PolicyReason.reservation_window_missing,
  (causes rule h).1.0,
  undetermined (no_window (targets rule snapshots) e) refl refl refl,
)
  where
    no_window :
        (ws : List CapacityWindow)
        → collect ws ≡ some []
        → (not (is_empty ws) && all (λ w. is_some (usable_remaining w)) ws) ≡ false
    no_window [] q = refl
    no_window (w ∷ ws) q = absurd (full (usable_remaining w) (collect ws) q)
      where
        full : (o : Option ℕ) (rest : Option (List ℕ)) → prepend o rest ≡ some [] → ⊥
        full none rest q = cc
        full (some s) none q = cc
        full (some s) (some ss) q = cc
decide-ok rule snapshots level (some (r ∷ rs)) h v e =
    let m = min_of r rs in
    let (low, lows) = min_of_bounds r rs m (omega arith) in
    let (w, in_targets, reached) =
      collect-mem (targets rule snapshots) (r ∷ rs) m e (min_of-mem r rs) in
    let valid =
      usable_remaining-bound w m (All-mem IsValidWindow (targets rule snapshots) v in_targets)
        reached in
    let (d, built, st, ev, tr, bl) = reservation_on-ok rule level m h valid in
    (
      d,
      built,
      determined m
          (readable (targets rule snapshots) in_targets
            (sym (collect-is_some (targets rule snapshots)) ∙ ap is_some e))
          (record {
            window = w;
            member = in_targets;
            reached = reached;
            least = collect-least (targets rule snapshots) (r ∷ rs) m e (low, lows);
          })
          st ev tr bl,
    )
  where
    readable :
        {w : CapacityWindow} (ws : List CapacityWindow)
        → Memᴰ w ws
        → all (λ w. is_some (usable_remaining w)) ws ≡ true
        → (not (is_empty ws) && all (λ w. is_some (usable_remaining w)) ws) ≡ true
    readable ws n q = rw (is_empty-of_mem ws n, q) refl

no_targets :
    (rule : ReservationRule) (snapshots : List CapacitySnapshot)
    → targets rule snapshots ≡ []
    → is_determined rule snapshots ≡ false
no_targets rule snapshots e =
    ap (λ ws. not (is_empty ws) && all (λ w. is_some (usable_remaining w)) ws) e

reserve_snapshot-ok :
    (rule : ReservationRule) (snapshots : List CapacitySnapshot) (level : TaskLevel)
    (o : Option CapacitySnapshot)
    → is_safe_id rule.rule_id ≡ true
    → All IsValidWindow (targets rule snapshots)
    → snapshot_for snapshots rule.scope.provider ≡ o
    → (d : ReservationDecision) × (reserve_snapshot rule level o ≡ ok d)
      × ReservationOutcome rule snapshots level d
reserve_snapshot-ok rule snapshots level none h v e = (
  unknown_of rule PolicyReason.reservation_scope_snapshot_missing,
  (causes rule h).1.1.0,
  undetermined (no_targets rule snapshots (ap (λ o. filter (is_target rule) (trusted_windows o)) e))
      refl refl refl,
)
reserve_snapshot-ok rule snapshots level (some sn) h v e = elim (Bool-cases (is_ok sn.status)) [
  | inr g ↦ (
    unknown_of rule PolicyReason.reservation_scope_snapshot_not_ok,
    rw g (causes rule h).1.1.1.0,
    undetermined
        (no_targets rule snapshots
          (ap (λ o. filter (is_target rule) (trusted_windows o)) e ∙ rw g refl))
        refl refl refl,
  )
  | inl g ↦
      let found : targets rule snapshots ≡ filter (is_target rule) sn.windows =
        ap (λ o. filter (is_target rule) (trusted_windows o)) e ∙ rw g refl in
      let (d, built, out) =
        decide-ok rule snapshots level (remaining_values rule sn.windows) h v
          (ap collect found ∙ sym (remaining_values-filter rule sn.windows)) in
      (d, rw g built, out)
]

-- For a rule with a safe id and validated snapshots, at most one of a provider, the decision is built
-- without an error. It is undetermined, and says neither triggered nor blocked, just if the provider's snapshot is
-- missing or not ok, no window has the rule's scope, resource and kind, or one of those has no percentages.
-- Else the least remaining percentage of those windows triggers the rule if it is below the threshold, and
-- blocks just the task levels below the minimum.
pub evaluate_reservation-total :
    (rule : ReservationRule) (snapshots : List CapacitySnapshot) (level : TaskLevel)
    → is_safe_id rule.rule_id ≡ true
    → AreSnapshots snapshots
    → (d : ReservationDecision) × (evaluate_reservation rule snapshots level ≡ ok d)
      × ReservationOutcome rule snapshots level d
unfolding evaluate_reservation
evaluate_reservation-total rule snapshots level h v =
    let valid = All-of IsValidWindow (targets rule snapshots) (λ w m.
      All-mem IsValidWindow _ (trusted_windows-valid snapshots rule.scope.provider v.valid)
        (mem-filter (is_target rule) _ m)) in
    let (d, built, out) =
      reserve_snapshot-ok rule snapshots level (snapshot_for snapshots rule.scope.provider) h valid
        refl in
    (
      d,
      rw
          (all_new_of-HasDistinctKeys (λ (s : CapacitySnapshot). s.provider) [] snapshots
            (unseen snapshots) v.distinct)
          built,
      out,
    )
