-- ===== src/Resource/Capturing.antt =====
-- When capacity telemetry becomes an observation (resource_state.py `resource_snapshot_from_capacity`).
use scarcity_router.Resource.{ResourceIdentity, PromotionObservation, ObservationClass}
use scarcity_router.Resource.Checks.{check_health, check_observation}
use scarcity_router.Common.{
  ok, ◌≡◌, refl, ap, true, List, [], ◌∷◌, eqb, sorted, IsSorted, sorted-IsSorted, guard, ◌>>◌,
  >>=-eq-ok, guard->>-eq-ok, >>-eq-ok, option_eq, list_eq, pair_eq, string_eq, nat_eq, Order,
  nat_order, string_order, pair_order, list_order, not, ◌==◌, ◌&&◌, map, is_empty, >>=_assoc,
}
use scarcity_router.Types.Calendar.{check_ts}
use scarcity_router.Types.SafeId.{check_safe_id}
use scarcity_router.Types.Requirement.{check_opt_safe_id}
use scarcity_router.Capacity.{CapacitySnapshot}
use scarcity_router.Capacity.Contract.{
  resource_eq, kind_eq, resource_order, kind_order, diagnostic_eq, check_status, check_snapshot,
  has_no_windows,
}
use scarcity_router.Resource.Contract.{
  channel_eq, entitlement_eq, is_sorted, diagnostic_sort_key, quota_fact_sort_key,
  promotion_sort_key,
}
use scarcity_router.Resource.Capture.{resource_snapshot_from_capacity, health_of, captured, fact_of}

module _ {ℓ κ} {A : Type ℓ} {K : Type κ} ⦃o : Order K⦄ (key : A → K) where
  is_sorted-of : (xs : List A) → IsSorted key xs → is_sorted key xs ≡ true
  unfolding is_sorted
  is_sorted-of [] h = refl
  is_sorted-of (a ∷ []) h = refl
  is_sorted-of (a ∷ b ∷ xs) h = rw (h.0.0, is_sorted-of (b ∷ xs) h.1) refl

  -- A sorted list passes the check.
  is_sorted-sorted : (xs : List A) → is_sorted key (sorted key xs) ≡ true
  is_sorted-sorted xs = is_sorted-of (sorted key xs) (sorted-IsSorted key xs)

check_snapshot-parts :
    (s : CapacitySnapshot)
    → check_snapshot s ≡ ok s
    → (check_ts s.retrieved_at ≡ ok tt) × (check_status s ≡ ok tt)
unfolding check_snapshot
check_snapshot-parts s h =
    let version = guard->>-eq-ok (eqb s.schema_version 3) _ _ h in
    let (p, provider, h₁) = >>=-eq-ok (check_safe_id s.provider) _ version.1 in
    let (q, source, h₂) = >>=-eq-ok (check_safe_id s.source) _ h₁ in
    let stamp = >>-eq-ok (check_ts s.retrieved_at) _ h₂ in
    let plan = >>-eq-ok (check_opt_safe_id s.plan) _ stamp.1 in
    let status = >>-eq-ok (check_status s) _ plan.1 in (stamp.0, status.0)

-- A status that passes needs no more of a health than sorted diagnostics.
check_health-of_status :
    (s : CapacitySnapshot)
    → check_status s ≡ ok tt
    → check_health (health_of s) ≡ (
        guard (is_sorted diagnostic_sort_key s.diagnostics) "diagnostics must be sorted"
        >> ok (health_of s))
unfolding check_health
check_health-of_status s h =
    let required =
      guard->>-eq-ok (not (has_no_windows s.status && not (is_empty s.windows))) _ _ h in
    rw required.1 refl

check_observation-captured :
    (s : CapacitySnapshot) (i : ResourceIdentity) (ps : List PromotionObservation)
    (c : ObservationClass)
    → check_ts s.retrieved_at ≡ ok tt
    → check_observation (captured s i ps c) ≡ ok (captured s i ps c)
unfolding check_observation
check_observation-captured s i ps c h =
    rw
      (
        h,
        is_sorted-sorted quota_fact_sort_key (map (fact_of c) s.windows),
        is_sorted-sorted promotion_sort_key ps,
      )
      refl

-- A capacity snapshot that passes its own checks becomes an observation of a resource of its provider where its
-- diagnostics are in order, with its windows and the promotions sorted, and otherwise is refused.
pub resource_snapshot_from_capacity-captured :
    (s : CapacitySnapshot) (i : ResourceIdentity) (ps : List PromotionObservation)
    (c : ObservationClass)
    → check_snapshot s ≡ ok s
    → resource_snapshot_from_capacity s i ps c ≡ (
        guard
          (s.provider == i.provider)
          "snapshot provider does not match resource identity provider"
        >> (guard (is_sorted diagnostic_sort_key s.diagnostics) "diagnostics must be sorted"
            >> ok (captured s i ps c)))
unfolding resource_snapshot_from_capacity
resource_snapshot_from_capacity-captured s i ps c h =
    let (stamp, status) = check_snapshot-parts s h in
    rw (check_health-of_status s status, check_observation-captured s i ps c stamp)
      (ap
        (λ m.
          guard (s.provider == i.provider)
            "snapshot provider does not match resource identity provider"
          >> m)
        (>>=_assoc
          (guard (is_sorted diagnostic_sort_key s.diagnostics) "diagnostics must be sorted") _ _))
