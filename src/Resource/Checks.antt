-- ===== src/Resource/Checks.antt =====
-- The `__post_init__` checks of the records of resource_state.py.
use scarcity_router.Common.{
  ok, ℕ, String, Bool, true, false, not, ◌&&◌, ◌||◌, Option, none, some, List, [], ◌∷◌, map, leb,
  eqb, is_some, all, is_empty, Result, ◌>>=◌, ◌>>◌, err, ◌==◌, option_eq, contains, list_eq,
  pair_eq, string_eq, nat_eq, ◌<?◌, nat_order, string_order, pair_order, list_order, guard,
}
use scarcity_router.Types.SafeId.{is_safe_id}
use scarcity_router.Types.Calendar.{check_ts}
use scarcity_router.Types.Requirement.{check_opt_safe_id}
use scarcity_router.Capacity.{CapacityDiagnostic}
use scarcity_router.Capacity.Contract.{
  resource_eq, kind_eq, resource_order, kind_order, diagnostic_eq, required_code,
}
use scarcity_router.Resource.{
  ExecutionChannel, Freshness, ResourceIdentity, ResourceCost, PromotionObservation,
  ExecutionCapabilities, ResourceHealth, ResourceStateSnapshot, WorkerStateReport,
  ResourceRegistration, ResourceRegistryEntry, QuotaPoolGroup, identity_observation_key,
}
use scarcity_router.Resource.Instant.{is_before}
use scarcity_router.Resource.RuntimeVersion.{is_runtime_version}
use scarcity_router.Resource.Contract.{
  channel_eq, entitlement_eq, quota_fact_sort_key, promotion_sort_key, diagnostic_sort_key,
  is_sorted, is_sorted_unique,
}

-- `ResourceIdentity.__post_init__`
unfoldable pub check_resource_identity : ResourceIdentity → Result ResourceIdentity
unfolding is_safe_id is_sorted_unique check_opt_safe_id
check_resource_identity i = do
  guard (is_safe_id i.resource_id) "resource_id"
  guard (is_safe_id i.provider) "provider"
  guard (is_safe_id i.model) "model"
  check_opt_safe_id i.variant
  guard (all is_safe_id i.quota_pool_ids) "quota_pool_ids"
  guard (is_sorted_unique i.quota_pool_ids) "quota_pool_ids must be sorted and unique"
  ok i

-- `ResourceCost.__post_init__`
unfoldable pub check_cost : ResourceCost → Result ResourceCost
check_cost c = do
  guard (is_some c.input_micro_usd_per_mtoken || is_some c.output_micro_usd_per_mtoken)
      "at least one amount must be present"
  ok c

abbrev check_opt_stamp : Option String → Result (Unit {0})
check_opt_stamp none = ok tt
check_opt_stamp (some t) = check_ts t

abbrev check_validity : Option String → Option String → Result (Unit {0})
check_validity (some from) (some until) =
    is_before until from >>= λ b. guard (not b) "valid_from must not be after valid_until"
check_validity _ _ = ok tt

-- `PromotionObservation.__post_init__`
unfoldable pub check_promotion : PromotionObservation → Result PromotionObservation
unfolding is_safe_id check_ts check_opt_safe_id is_before
check_promotion p = do
  guard (is_safe_id p.source) "source"
  check_ts p.observed_at
  check_opt_safe_id p.provider
  check_opt_safe_id p.model
  check_opt_safe_id p.plan
  check_opt_stamp p.valid_from
  check_opt_stamp p.valid_until
  check_opt_safe_id p.timezone
  check_validity p.valid_from p.valid_until
  ok p

abbrev check_limit : Option ℕ → Result (Unit {0})
check_limit none = ok tt
check_limit (some n) = guard (leb 1 n) "limit below 1"

abbrev required {ℓ} : {A : Type ℓ} → Option A → (A → Result (Unit {0})) → Result (Unit {0})
required none check = err "missing"
required (some a) check = check a

abbrev is_earlier : Option String → Option String → Bool
is_earlier (some a) (some b) = a <? b
is_earlier _ _ = false

-- `ExecutionCapabilities.__post_init__`
unfoldable pub check_capabilities : ExecutionCapabilities → Result ExecutionCapabilities
unfolding is_safe_id is_runtime_version check_ts
check_capabilities c = do
  check_limit c.context_limit_tokens
  check_limit c.output_limit_tokens
  elim c.context_evidence_ref [
    | none ↦
        guard
          (not (
            is_some c.context_evidence_valid_until
            || (is_some c.context_evidence_verified_at
                || is_some c.context_evidence_runtime_version)))
          "context evidence requires a reference"
    | some ref ↦ do
      guard (is_safe_id ref) "context_evidence_ref"
      required c.context_evidence_runtime_version
          (λ v. guard (is_runtime_version v) "invalid version")
      required c.context_evidence_valid_until check_ts
      required c.context_evidence_verified_at check_ts
      guard (is_earlier c.context_evidence_verified_at c.context_evidence_valid_until)
          "invalid context evidence interval"
      guard (is_some c.context_limit_tokens) "context evidence requires a context limit"
  ]
  ok c

-- `ResourceHealth.__post_init__` with `_HEALTH_REQUIRED_DIAGNOSTIC`
unfoldable pub check_health : ResourceHealth → Result ResourceHealth
unfolding is_sorted contains
check_health h = do
  guard (is_sorted diagnostic_sort_key h.diagnostics) "diagnostics must be sorted"
  elim (required_code h.status) [
    | none ↦ ok tt
    | some code ↦
        guard (contains (map (λ (d : CapacityDiagnostic). d.code) h.diagnostics) code)
          "status requires a diagnostic code"
  ]
  ok h

-- `ResourceStateSnapshot.__post_init__`
unfoldable pub check_observation : ResourceStateSnapshot → Result ResourceStateSnapshot
unfolding check_ts is_sorted
check_observation s = do
  guard (eqb s.schema_version 1) "schema_version"
  check_ts s.observed_at
  guard (is_sorted quota_fact_sort_key s.quota_facts) "quota_facts must be sorted"
  guard (is_sorted promotion_sort_key s.promotions) "promotions must be sorted"
  ok s

-- `WORKER_REPORTABLE_CHANNELS`
abbrev pub is_reportable : ExecutionChannel → Bool
is_reportable ExecutionChannel.server_direct_http = false
is_reportable _ = true

abbrev check_reported : String → List ResourceStateSnapshot → Result (Unit {0})
check_reported reported_at [] = ok tt
check_reported reported_at (s ∷ ss) = do
  guard (is_reportable s.identity.channel) "channel of another source"
  b ← is_before reported_at s.observed_at
  guard (not b) "observed_at after reported_at"
  check_reported reported_at ss

abbrev pub observed_id : ResourceStateSnapshot → String
observed_id s = s.identity.resource_id

-- `WorkerStateReport.__post_init__`
unfoldable pub check_report : WorkerStateReport → Result WorkerStateReport
unfolding is_safe_id check_ts is_sorted_unique is_before
check_report r = do
  guard (eqb r.schema_version 1) "schema_version"
  guard (is_safe_id r.worker_id) "worker_id"
  check_ts r.reported_at
  guard (is_sorted_unique (map observed_id r.resources)) "resources must be sorted and unique"
  check_reported r.reported_at r.resources
  ok r

abbrev pub check_policy : ℕ → Option ℕ → Result (Unit {0})
check_policy ttl poll = guard (leb 1 ttl) "freshness_ttl_seconds" >> check_limit poll

-- `ResourceRegistration.__post_init__`
unfoldable pub check_registration : ResourceRegistration → Result ResourceRegistration
check_registration r = check_policy r.freshness_ttl_seconds r.poll_interval_seconds >> ok r

abbrev pub is_never_observed : Freshness → Bool
is_never_observed Freshness.never_observed = true
is_never_observed _ = false

abbrev pub is_observation_of : ResourceIdentity → Option ResourceStateSnapshot → Bool
is_observation_of i none = true
is_observation_of i (some s) = identity_observation_key s.identity == identity_observation_key i

-- `ResourceRegistryEntry.__post_init__`
unfoldable pub check_registry_entry : ResourceRegistryEntry → Result ResourceRegistryEntry
check_registry_entry e = do
  check_policy e.freshness_ttl_seconds e.poll_interval_seconds
  guard (is_observation_of e.identity e.observation) "cross-resource registry state fails closed"
  guard (is_some e.observation || is_never_observed e.freshness) "must be never_observed"
  guard (not (is_some e.observation && is_never_observed e.freshness))
      "an observed resource is never never_observed"
  ok e

-- `QuotaPoolGroup.__post_init__`
unfoldable pub check_pool_group : QuotaPoolGroup → Result QuotaPoolGroup
unfolding is_safe_id is_sorted_unique
check_pool_group g = do
  guard (is_safe_id g.pool_id) "pool_id"
  guard (all is_safe_id g.resource_ids) "resource_ids"
  guard (is_sorted_unique g.resource_ids) "resource_ids must be sorted and unique"
  guard (not (is_empty g.resource_ids)) "a pool must have at least one member resource"
  ok g
