-- ===== src/Resource/Reads.antt =====
-- The reads of `ResourceRegistry` (resource_state.py): freshness, what is due for a refresh, and the whole registry.
use scarcity_router.Common.{
  ok, ℕ, ◌*◌, String, Bool, true, false, Option, none, some, List, [], ◌∷◌, ◌++◌, map, ltb, leb,
  eqb, if◌then◌else◌, sorted, Result, ◌>>=◌, ◌>>◌, err, lookup, put, ◌==◌, option_eq, list_eq,
  pair_eq, string_eq, nat_eq, ◌<?◌, nat_order, string_order, pair_order, list_order, guard,
  map_result,
}
use scarcity_router.Types.Calendar.{check_ts}
use scarcity_router.Capacity.Contract.{
  resource_eq, kind_eq, resource_order, kind_order, diagnostic_eq,
}
use scarcity_router.Resource.{
  Freshness, QuotaFact, ResourceStateSnapshot, ResourceRegistration, ResourceRegistryEntry,
  QuotaPoolGroup, RegistrySnapshot, ResourceRegistry,
}
use scarcity_router.Resource.Instant.{is_before, age_or_reject}
use scarcity_router.Resource.Contract.{channel_eq, entitlement_eq, text, is_sorted_unique}
use scarcity_router.Resource.Checks.{check_registry_entry, check_pool_group}

-- The reset instants of the windows, with the check of each.
unfoldable pub reset_instants : List QuotaFact → Result (List String)
unfolding check_ts
reset_instants [] = ok []
reset_instants (f ∷ fs) = elim f.window.resets_at [
  | none ↦ reset_instants fs
  | some t ↦ check_ts t >> (reset_instants fs >>= λ ts. ok (t ∷ ts))
]

-- `_reset_crossed`
unfoldable pub reset_crossed : List String → String → Result Bool
unfolding is_before
reset_crossed [] now = ok false
reset_crossed (t ∷ ts) now =
    let rest = reset_crossed ts now in is_before now t >>= λ b. if b then rest else ok true

-- `min(resets) if resets else None`
unfoldable pub earliest : List String → Option String
earliest [] = none
earliest (t ∷ ts) = elim (earliest ts) [ none ↦ some t | some u ↦ some (if u <? t then u else t) ]

abbrev pub past_reset : String → Option String → Result Freshness
past_reset now none = ok Freshness.fresh
past_reset now (some t) =
    check_ts t >> (is_before now t >>= λ b. ok (if b then Freshness.fresh else Freshness.stale))

-- `classify_freshness`
unfoldable pub classify_freshness : String → String → ℕ → Option String → Result Freshness
unfolding check_ts age_or_reject is_before
classify_freshness observed_at now ttl earliest_reset_at = do
  check_ts observed_at
  check_ts now
  guard (leb 1 ttl) "freshness_ttl_seconds"
  age ← age_or_reject now observed_at
  if ltb (ttl * 1000) age then ok Freshness.stale else past_reset now earliest_reset_at

abbrev pub due_since : ℕ → String → ResourceStateSnapshot → Result Bool
due_since poll now s = age_or_reject now s.observed_at >>= λ age.
    if leb (poll * 1000) age
    then ok true
    else (reset_instants s.quota_facts >>= λ resets. reset_crossed resets now)

-- `_entry_refresh_due`
unfoldable pub entry_refresh_due :
    ResourceRegistration → Option ResourceStateSnapshot → String → Result Bool
unfolding age_or_reject reset_instants reset_crossed
entry_refresh_due registration observation now = elim registration.poll_interval_seconds [
  | none ↦ ok false
  | some poll ↦ elim observation [ none ↦ ok true | some s ↦ due_since poll now s ]
]

-- The loop of `refresh_due` over the sorted ids.
unfoldable pub due_of : ResourceRegistry → String → List String → Result (List String)
unfolding lookup age_or_reject reset_instants reset_crossed
due_of r now [] = ok []
due_of r now (i ∷ ids) =
    let rest = due_of r now ids in
    let with_it = rest >>= λ due. ok (i ∷ due) in
    elim (lookup i r.registrations) [
      | none ↦ err "KeyError"
      | some registration ↦ elim registration.poll_interval_seconds [
        | none ↦ rest
        | some poll ↦ elim (lookup i r.observations) [
          | none ↦ with_it
          | some s ↦ due_since poll now s >>= λ b. if b then with_it else rest
        ]
      ]
    ]

abbrev pub key_of_item {ℓ} : {A : Type ℓ} → String × A → String
key_of_item p = p.0

abbrev pub resource_ids : ResourceRegistry → List String
resource_ids r = sorted text (map key_of_item r.registrations)

-- `refresh_due`
unfoldable pub refresh_due : ResourceRegistry → String → Result (List String)
unfolding check_ts sorted due_of
refresh_due r now = check_ts now >> due_of r now (resource_ids r)

abbrev pub freshness_of :
    ResourceRegistration → Option ResourceStateSnapshot → String → Result Freshness
freshness_of registration none now = ok Freshness.never_observed
freshness_of registration (some s) now = reset_instants s.quota_facts >>= λ resets.
    classify_freshness s.observed_at now registration.freshness_ttl_seconds (earliest resets)

-- One round of the loop of `registry_snapshot`.
unfoldable pub entry_of : ResourceRegistry → String → String → Result ResourceRegistryEntry
unfolding lookup reset_instants classify_freshness earliest entry_refresh_due check_registry_entry
entry_of r now i = elim (lookup i r.registrations) [
  | none ↦ err "KeyError"
  | some registration ↦ do
    freshness ← freshness_of registration (lookup i r.observations) now
    due ← entry_refresh_due registration (lookup i r.observations) now
    check_registry_entry (record {
      identity = registration.identity;
      freshness_ttl_seconds = registration.freshness_ttl_seconds;
      poll_interval_seconds = registration.poll_interval_seconds;
      capabilities = registration.capabilities;
      cost = registration.cost;
      observation = lookup i r.observations;
      freshness = freshness;
      refresh_due = due;
    })
]

abbrev pub Pools : Type 0
Pools = List (String × List String)

abbrev members_in : Option (List String) → List String
members_in none = []
members_in (some members) = members

-- `pool_members.setdefault(pool_id, []).append(resource_id)` for each pool of a resource.
unfoldable pub add_member : Pools → String → List String → Pools
unfolding lookup put
add_member pools i [] = pools
add_member pools i (pool ∷ ids) =
    add_member (put pool (members_in (lookup pool pools) ++ i ∷ []) pools) i ids

unfoldable pub pool_members : Pools → List ResourceRegistryEntry → Pools
unfolding add_member
pool_members pools [] = pools
pool_members pools (e ∷ es) =
    pool_members (add_member pools e.identity.resource_id e.identity.quota_pool_ids) es

-- The groups, in the order of the pools.
unfoldable pub pool_groups : Pools → Result (List QuotaPoolGroup)
unfolding sorted check_pool_group
pool_groups pools =
    map_result
      (λ (p : String × List String).
        check_pool_group (record { pool_id = p.0; resource_ids = sorted text p.1 }))
      (sorted key_of_item pools)

abbrev pub group_key : QuotaPoolGroup → String × List String
group_key g = (g.pool_id, g.resource_ids)

-- `RegistrySnapshot.__post_init__`
unfoldable pub check_registry_snapshot : RegistrySnapshot → Result RegistrySnapshot
unfolding check_ts is_sorted_unique pool_members pool_groups
check_registry_snapshot s = do
  guard (eqb s.schema_version 1) "schema_version"
  check_ts s.generated_at
  guard (is_sorted_unique (map (λ (e : ResourceRegistryEntry). e.identity.resource_id) s.entries))
      "entries"
  guard (is_sorted_unique (map (λ (g : QuotaPoolGroup). g.pool_id) s.quota_pools)) "quota_pools"
  expected ← pool_groups (pool_members [] s.entries)
  guard (map group_key expected == map group_key s.quota_pools)
      "must be exactly the confirmed-pool derivation of the entries"
  ok s

-- `registry_snapshot`
unfoldable pub registry_snapshot : ResourceRegistry → String → Result RegistrySnapshot
unfolding check_ts sorted entry_of pool_members pool_groups check_registry_snapshot
registry_snapshot r now = do
  check_ts now
  entries ← map_result (entry_of r now) (resource_ids r)
  pools ← pool_groups (pool_members [] entries)
  check_registry_snapshot (record {
    schema_version = 1;
    revision = r.revision;
    generated_at = now;
    entries = entries;
    quota_pools = pools;
  })
