-- ===== src/Resource/Capture.antt =====
-- Capacity telemetry as an observation of a resource (resource_state.py `resource_snapshot_from_capacity`).
use scarcity_router.Common.{
  List, map, sorted, Result, guard, ◌==◌, option_eq, list_eq, pair_eq, string_eq, nat_eq, nat_order,
  string_order, pair_order, list_order, ◌>>◌, ◌>>=◌,
}
use scarcity_router.Capacity.{CapacityWindow, CapacitySnapshot}
use scarcity_router.Resource.{
  ObservationClass, ResourceIdentity, QuotaFact, PromotionObservation, ResourceHealth,
  ResourceStateSnapshot,
}
use scarcity_router.Resource.Contract.{
  channel_eq, entitlement_eq, quota_fact_sort_key, promotion_sort_key,
}
use scarcity_router.Resource.Checks.{check_health, check_observation}

-- The facts and promotions in their order.
abbrev pub fact_of : ObservationClass → CapacityWindow → QuotaFact
fact_of observation_class window = record { observation_class = observation_class; window = window }

abbrev pub health_of : CapacitySnapshot → ResourceHealth
health_of s = record { status = s.status; diagnostics = s.diagnostics }

abbrev pub captured :
    CapacitySnapshot
    → ResourceIdentity
    → List PromotionObservation
    → ObservationClass
    → ResourceStateSnapshot
captured s identity promotions observation_class = record {
  schema_version = 1;
  identity = identity;
  observed_at = s.retrieved_at;
  health = health_of s;
  quota_facts = sorted quota_fact_sort_key (map (fact_of observation_class) s.windows);
  promotions = sorted promotion_sort_key promotions;
}

-- `resource_snapshot_from_capacity`
unfoldable pub resource_snapshot_from_capacity :
    CapacitySnapshot
    → ResourceIdentity
    → List PromotionObservation
    → ObservationClass
    → Result ResourceStateSnapshot
unfolding check_health check_observation sorted
resource_snapshot_from_capacity s identity promotions observation_class = do
  guard (s.provider == identity.provider)
      "snapshot provider does not match resource identity provider"
  health ← check_health (health_of s)
  check_observation (captured s identity promotions observation_class)
