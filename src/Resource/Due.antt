-- ===== src/Resource/Due.antt =====
-- The two ways to learn which resources to poll (resource_state.py `refresh_due` and the entries of
-- `registry_snapshot`).
use scarcity_router.Common.{
  ok, String, ◌≡◌, sym, ap, inl, inr, Bool, Option, some, List, [], ◌∷◌, map, if◌then◌else◌,
  Option-cases, filter, ◌>>=◌, map_result, >>=-eq-ok, guard->>-eq-ok, >>-eq-ok, ok-injective,
  lookup, option_eq, list_eq, pair_eq, string_eq, nat_eq, nat_order, string_order, pair_order,
  list_order, none, eqb, is_some, ◌==◌, ◌||◌, not, ◌&&◌, Result, ◌∙◌, true, false, err, refl,
  Bool-cases,
}
use scarcity_router.Resource.{
  ResourceRegistration, ResourceRegistryEntry, RegistrySnapshot, ResourceRegistry, QuotaPoolGroup,
  ResourceStateSnapshot, Freshness,
}
use scarcity_router.Resource.Reads.{
  entry_of, entry_refresh_due, due_of, resource_ids, refresh_due, freshness_of, pool_members,
  pool_groups, group_key, check_registry_snapshot, registry_snapshot,
}
use scarcity_router.Resource.Contract.{channel_eq, entitlement_eq, is_sorted_unique}
use scarcity_router.Resource.Checks.{
  check_policy, is_never_observed, is_observation_of, check_registry_entry,
}
use scarcity_router.Resource.Invariant.{reachable-IsValid}
use scarcity_router.Resource.Validity.{IsValid, IsReachable, own_id}
use scarcity_router.Types.Calendar.{check_ts}

abbrev pub is_due : ResourceRegistryEntry → Bool
is_due e = e.refresh_due

abbrev pub entry_id : ResourceRegistryEntry → String
entry_id e = e.identity.resource_id

-- The ids of the entries that are due, in the order of the entries.
abbrev pub due_ids : List ResourceRegistryEntry → List String
due_ids es = map entry_id (filter is_due es)

abbrev pool_of_group : QuotaPoolGroup → String
pool_of_group g = g.pool_id

check_registry_entry-value :
    (e : ResourceRegistryEntry) {q : ResourceRegistryEntry} → check_registry_entry e ≡ ok q → e ≡ q
unfolding check_registry_entry
check_registry_entry-value e h =
    let unseen = is_never_observed e.freshness in
    let policy = >>-eq-ok (check_policy e.freshness_ttl_seconds e.poll_interval_seconds) _ h in
    let identity = guard->>-eq-ok (is_observation_of e.identity e.observation) _ _ policy.1 in
    let never = guard->>-eq-ok (is_some e.observation || unseen) _ _ identity.1 in
    ok-injective (guard->>-eq-ok (not (is_some e.observation && unseen)) _ _ never.1).1

check_registry_snapshot-value :
    (s : RegistrySnapshot) {q : RegistrySnapshot} → check_registry_snapshot s ≡ ok q → s ≡ q
unfolding check_registry_snapshot
check_registry_snapshot-value s h =
    let version = guard->>-eq-ok (eqb s.schema_version 1) _ _ h in
    let stamp = >>-eq-ok (check_ts s.generated_at) _ version.1 in
    let entries = guard->>-eq-ok (is_sorted_unique (map entry_id s.entries)) _ _ stamp.1 in
    let pools = guard->>-eq-ok (is_sorted_unique (map pool_of_group s.quota_pools)) _ _ entries.1 in
    let (expected, e, derived) = >>=-eq-ok (pool_groups (pool_members [] s.entries)) _ pools.1 in
    ok-injective
      (guard->>-eq-ok (map group_key expected == map group_key s.quota_pools) _ _ derived).1

abbrev entry :
    ResourceRegistration → Option ResourceStateSnapshot → Freshness → Bool → ResourceRegistryEntry
entry g o f due = record {
  identity = g.identity;
  freshness_ttl_seconds = g.freshness_ttl_seconds;
  poll_interval_seconds = g.poll_interval_seconds;
  capabilities = g.capabilities;
  cost = g.cost;
  observation = o;
  freshness = f;
  refresh_due = due;
}

entry_of_registered :
    (r : ResourceRegistry) (now i : String) (g : ResourceRegistration)
    → lookup i r.registrations ≡ some g
    → entry_of r now i ≡ (
        freshness_of g (lookup i r.observations) now >>= λ f.
        entry_refresh_due g (lookup i r.observations) now >>= λ due.
        check_registry_entry (entry g (lookup i r.observations) f due))
unfolding entry_of
entry_of_registered r now i g a = rw (entry_of, a) refl

entry_of_unregistered :
    (r : ResourceRegistry) (now i : String)
    → lookup i r.registrations ≡ none
    → entry_of r now i ≡ err "KeyError"
unfolding entry_of
entry_of_unregistered r now i a = rw (entry_of, a) refl

-- An entry has the identity of its registration, and its flag is what the registration's policy says.
entry-flag :
    (r : ResourceRegistry) (now i : String) (e : ResourceRegistryEntry)
    → entry_of r now i ≡ ok e
    → (g : ResourceRegistration) × (lookup i r.registrations ≡ some g)
      × (g.identity ≡ e.identity)
      × (entry_refresh_due g (lookup i r.observations) now ≡ ok e.refresh_due)
entry-flag r now i e h = elim (Option-cases (lookup i r.registrations)) [
  | inl a ↦ cc (entry_of_unregistered r now i a, h)
  | inr (g, a) ↦
      let (f, read, h₁) =
        >>=-eq-ok (freshness_of g (lookup i r.observations) now) _
          (sym (entry_of_registered r now i g a) ∙ h) in
      let (b, due, h₂) = >>=-eq-ok (entry_refresh_due g (lookup i r.observations) now) _ h₁ in
      let same : entry g (lookup i r.observations) f b ≡ e = check_registry_entry-value _ h₂ in
      (g, a, ap (λ q. q.identity) same, due ∙ ap (λ q. ok q.refresh_due) same)
]

choice-ok :
    (i : String) (b : Bool) (m : Result (List String))
    → (if b then (m >>= λ due. ok (i ∷ due)) else m)
      ≡ (m >>= λ due. ok (if b then i ∷ due else due))
choice-ok i true m = refl
choice-ok i false (ok due) = refl
choice-ok i false (err e) = refl

due-choice :
    (r : ResourceRegistry) (now i : String) (ids : List String) (g : ResourceRegistration)
    (b : Bool)
    → lookup i r.registrations ≡ some g
    → entry_refresh_due g (lookup i r.observations) now ≡ ok b
    → due_of r now (i ∷ ids)
      ≡ (if b then (due_of r now ids >>= λ due. ok (i ∷ due)) else due_of r now ids)
unfolding due_of entry_refresh_due
due-choice r now i ids g b h d = elim (Option-cases g.poll_interval_seconds) [
  | inl p ↦ rw (due_of, h, p, sym (ok-injective (rw (entry_refresh_due, p) at d))) refl
  | inr (poll, p) ↦ elim (Option-cases (lookup i r.observations)) [
    | inl o ↦ rw (due_of, h, p, o, sym (ok-injective (rw (entry_refresh_due, p, o) at d))) refl
    | inr (s, o) ↦ rw (due_of, h, p, o, rw (entry_refresh_due, p, o) at d) refl
  ]
]

due-head :
    (r : ResourceRegistry) (now i : String) (ids : List String) (g : ResourceRegistration)
    (b : Bool)
    → lookup i r.registrations ≡ some g
    → entry_refresh_due g (lookup i r.observations) now ≡ ok b
    → due_of r now (i ∷ ids) ≡ (due_of r now ids >>= λ due. ok (if b then i ∷ due else due))
due-head r now i ids g b h d = due-choice r now i ids g b h d ∙ choice-ok i b (due_of r now ids)

due_ids_cons :
    (i : String) (e : ResourceRegistryEntry) (es : List ResourceRegistryEntry)
    → entry_id e ≡ i
    → (if is_due e then i ∷ due_ids es else due_ids es) ≡ due_ids (e ∷ es)
due_ids_cons i e es h = elim (Bool-cases e.refresh_due) [
  | inl b ↦ rw (b, h) refl
  | inr b ↦ rw b refl
]

due-entries :
    (r : ResourceRegistry) (now : String) (ids : List String) (es : List ResourceRegistryEntry)
    → IsValid r
    → map_result (entry_of r now) ids ≡ ok es
    → due_of r now ids ≡ ok (due_ids es)
unfolding due_of
due-entries r now [] es v h = ap (λ l. ok (due_ids l)) (ok-injective h)
due-entries r now (i ∷ ids) es v h =
    let (e, eq, h₁) = >>=-eq-ok (entry_of r now i) _ h in
    let (rest, eqs, h₂) = >>=-eq-ok (map_result (entry_of r now) ids) _ h₁ in
    let (g, found, same, flag) = entry-flag r now i e eq in
    due-head r now i ids g e.refresh_due found flag
    ∙ ap (λ m. m >>= λ due. ok (if e.refresh_due then i ∷ due else due))
        (due-entries r now ids rest v eqs)
    ∙ ap ok (due_ids_cons i e rest (ap (λ k. k.resource_id) (sym same) ∙ own_id r i v found))
    ∙ ap (λ l. ok (due_ids l)) (ok-injective h₂)

abbrev snapshot_with :
    ResourceRegistry → String → List ResourceRegistryEntry → List QuotaPoolGroup → RegistrySnapshot
snapshot_with r now entries pools = record {
  schema_version = 1;
  revision = r.revision;
  generated_at = now;
  entries = entries;
  quota_pools = pools;
}

-- Where a read of the whole registry succeeds, `refresh_due` succeeds at the same instant and names the entries that
-- the read flags as due, in their order.
pub refresh_due-flagged :
    (r : ResourceRegistry) (now : String) (s : RegistrySnapshot)
    → IsReachable r
    → registry_snapshot r now ≡ ok s
    → refresh_due r now ≡ ok (due_ids s.entries)
unfolding refresh_due registry_snapshot
refresh_due-flagged r now s v h =
    let stamp = >>-eq-ok (check_ts now) _ h in
    let (entries, e, h₁) = >>=-eq-ok (map_result (entry_of r now) (resource_ids r)) _ stamp.1 in
    let (pools, p, h₂) = >>=-eq-ok (pool_groups (pool_members [] entries)) _ h₁ in
    let same = check_registry_snapshot-value (snapshot_with r now entries pools) h₂ in
    rw (stamp.0, sym same) (due-entries r now (resource_ids r) entries (reachable-IsValid r v) e)
