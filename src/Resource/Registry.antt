-- ===== src/Resource/Registry.antt =====
-- `ResourceRegistry` (resource_state.py). A call that reads the clock takes its text, which is canonical, and a read
-- takes its `now`.
use scarcity_router.Common.{
  ok, ◌+◌, String, not, none, some, List, [], ◌∷◌, ◌++◌, if◌then◌else◌, is_some, Result, ◌>>=◌,
  ◌>>◌, err, lookup, put, ◌==◌, option_eq, list_eq, pair_eq, string_eq, nat_eq, nat_order,
  string_order, pair_order, list_order, guard, Bool,
}
use scarcity_router.Capacity.Contract.{
  resource_eq, kind_eq, resource_order, kind_order, diagnostic_eq,
}
use scarcity_router.Resource.{
  ResourceStateSnapshot, WorkerStateReport, ResourceRegistration, ResourceRegistry,
  identity_observation_key,
}
use scarcity_router.Resource.Instant.{age_or_reject}
use scarcity_router.Resource.Contract.{channel_eq, entitlement_eq}
use scarcity_router.Resource.Checks.{check_observation}

abbrev pub empty_registry : ResourceRegistry
empty_registry = record { registrations = []; observations = []; revision = 0 }

-- `register`
unfoldable pub register : ResourceRegistry → ResourceRegistration → Result ResourceRegistry
unfolding lookup
register r registration = do
  let resource_id = registration.identity.resource_id
  guard (not (is_some (lookup resource_id r.registrations))) "already registered"
  ok (record r {
    registrations = r.registrations ++ (resource_id, registration) ∷ [];
    revision = r.revision + 1;
  })

-- `is_registered`
unfoldable pub is_registered : ResourceRegistry → String → Bool
unfolding lookup
is_registered r resource_id = is_some (lookup resource_id r.registrations)

-- `_checked_observation`
unfoldable pub checked_observation :
    ResourceRegistry → String → ResourceStateSnapshot → Result (Unit {0})
unfolding lookup age_or_reject
checked_observation r clock snapshot = elim (lookup snapshot.identity.resource_id r.registrations) [
  | none ↦ err "not registered"
  | some registration ↦ do
    guard
        (identity_observation_key snapshot.identity
          == identity_observation_key registration.identity)
        "snapshot identity does not match the registered identity"
    age ← age_or_reject clock snapshot.observed_at
    ok tt
]

-- The snapshot as it is stored: with the registration's identity, where the pools differ from its.
unfoldable pub canonical_observation :
    ResourceRegistry → ResourceStateSnapshot → Result ResourceStateSnapshot
unfolding lookup check_observation
canonical_observation r snapshot = elim (lookup snapshot.identity.resource_id r.registrations) [
  | none ↦ ok snapshot
  | some registration ↦
      if snapshot.identity.quota_pool_ids == registration.identity.quota_pool_ids
      then ok snapshot
      else check_observation (record snapshot { identity = registration.identity })
]

abbrev pub store :
    List (String × ResourceStateSnapshot)
    → ResourceStateSnapshot
    → List (String × ResourceStateSnapshot)
store observations snapshot = put snapshot.identity.resource_id snapshot observations

-- `apply_snapshot`
unfoldable pub apply_snapshot :
    ResourceRegistry → String → ResourceStateSnapshot → Result ResourceRegistry
unfolding canonical_observation checked_observation put
apply_snapshot r clock given = do
  snapshot ← canonical_observation r given
  checked_observation r clock snapshot
  ok (record r { observations = store r.observations snapshot; revision = r.revision + 1 })

-- The first loop of `apply_worker_report`.
unfoldable pub check_all :
    ResourceRegistry → String → List ResourceStateSnapshot → Result (List ResourceStateSnapshot)
unfolding canonical_observation checked_observation
check_all r clock [] = ok []
check_all r clock (given ∷ resources) = do
  snapshot ← canonical_observation r given
  checked_observation r clock snapshot
  rest ← check_all r clock resources
  ok (snapshot ∷ rest)

unfoldable pub store_all :
    List (String × ResourceStateSnapshot)
    → List ResourceStateSnapshot
    → List (String × ResourceStateSnapshot)
unfolding put
store_all observations [] = observations
store_all observations (s ∷ ss) = store_all (store observations s) ss

-- `apply_worker_report`
unfoldable pub apply_worker_report :
    ResourceRegistry → String → WorkerStateReport → Result ResourceRegistry
unfolding check_all store_all
apply_worker_report r clock report = do
  canonical ← check_all r clock report.resources
  ok (record r { observations = store_all r.observations canonical; revision = r.revision + 1 })
