-- ===== src/Resource/Accepted.antt =====
-- What the registry accepts (resource_state.py `apply_snapshot`) and under which identity it stores it.
use scarcity_router.Types.Calendar.{check_ts}
use scarcity_router.Common.{
  ok, ℕ, ◌+◌, String, ◌≡◌, refl, ap, inl, inr, Bool, not, ◌||◌, some, eqb, Bool-cases, Result,
  guard, ◌>>=◌, ◌>>◌, guard->>-eq-ok, >>-eq-ok, err, lookup, ◌==◌, ==-refl, option_eq, list_eq,
  pair_eq, string_eq, nat_eq, nat_order, string_order, pair_order, list_order, if◌then◌else◌, ◌∙◌,
  true, eq_of_test, none, ok-injective,
}
use scarcity_router.Resource.{
  ResourceIdentity, ResourceStateSnapshot, ResourceRegistration, ResourceRegistry,
  identity_observation_key,
}
use scarcity_router.Resource.Registry.{
  checked_observation, canonical_observation, store, apply_snapshot,
}
use scarcity_router.Resource.Contract.{
  channel_eq, entitlement_eq, quota_fact_sort_key, promotion_sort_key, is_sorted,
}
use scarcity_router.Resource.Checks.{check_observation}
use scarcity_router.Resource.Instant.{age_or_reject}

-- The registry with an observation stored.
abbrev pub observed : ResourceRegistry → ResourceStateSnapshot → ResourceRegistry
observed r s = record r { observations = store r.observations s; revision = r.revision + 1 }

-- An observation under the registered identity.
abbrev pub under : ResourceRegistration → ResourceStateSnapshot → ResourceStateSnapshot
under g s = record s { identity = g.identity }

abbrev pub has_same_pools : ResourceStateSnapshot → ResourceRegistration → Bool
has_same_pools s g = s.identity.quota_pool_ids == g.identity.quota_pool_ids

abbrev pub has_same_key : ResourceStateSnapshot → ResourceRegistration → Bool
has_same_key s g = identity_observation_key s.identity == identity_observation_key g.identity

identity_of_key :
    (i j : ResourceIdentity)
    → identity_observation_key i ≡ identity_observation_key j
    → i.quota_pool_ids ≡ j.quota_pool_ids
    → i ≡ j
identity_of_key i j h p = λ k. record {
  resource_id = (h k).0;
  channel = (h k).1.0;
  provider = (h k).1.1.0;
  model = (h k).1.1.1.0;
  entitlement = (h k).1.1.1.1.0;
  variant = (h k).1.1.1.1.1;
  quota_pool_ids = p k;
}

pub same_identity :
    (g : ResourceRegistration) (s : ResourceStateSnapshot)
    → has_same_pools s g ≡ true
    → has_same_key s g ≡ true
    → s ≡ under g s
same_identity g s p k =
    let pools = eq_of_test s.identity.quota_pool_ids g.identity.quota_pool_ids p in
    let keys =
      eq_of_test (identity_observation_key s.identity) (identity_observation_key g.identity) k in
    ap (λ i. record s { identity = i }) (identity_of_key s.identity g.identity keys pools)

-- The check of an observation stores what it is given, and reads nothing of its identity.
pub check_observation-same :
    (s : ResourceStateSnapshot) {c : ResourceStateSnapshot}
    → check_observation s ≡ ok c
    → (s ≡ c)
      × ((i : ResourceIdentity)
          → check_observation (record s { identity = i }) ≡ ok (record s { identity = i }))
unfolding check_observation
check_observation-same s h =
    let version = guard->>-eq-ok (eqb s.schema_version 1) _ _ h in
    let stamp = >>-eq-ok (check_ts s.observed_at) _ version.1 in
    let facts = guard->>-eq-ok (is_sorted quota_fact_sort_key s.quota_facts) _ _ stamp.1 in
    let promotions = guard->>-eq-ok (is_sorted promotion_sort_key s.promotions) _ _ facts.1 in
    (ok-injective promotions.1, λ i. rw (version.0, stamp.0, facts.0, promotions.0) refl)

age->>-assoc {ℓ} :
    {B : Type ℓ} (m : Result ℕ) (b : Result B) → ((m >>= λ a. ok tt) >> b) ≡ (m >>= λ a. b)
age->>-assoc (ok a) b = refl
age->>-assoc (err e) b = refl

abbrev refusal : String
refusal = "snapshot identity does not match the registered identity"

module _ (r : ResourceRegistry) (g : ResourceRegistration) (s : ResourceStateSnapshot)
    (h : lookup s.identity.resource_id r.registrations ≡ some g) where
  pub canonical-registered :
      canonical_observation r s
      ≡ (if has_same_pools s g then ok s else check_observation (under g s))
  unfolding canonical_observation
  canonical-registered = rw (canonical_observation, h) refl

  pub checked-registered :
      (clock : String)
      → checked_observation r clock s
        ≡ (guard (has_same_key s g) refusal >> (age_or_reject clock s.observed_at >>= λ age. ok tt))
  unfolding checked_observation
  checked-registered clock = rw (checked_observation, h) refl

module _ (r : ResourceRegistry) (s : ResourceStateSnapshot)
    (h : lookup s.identity.resource_id r.registrations ≡ none) where
  pub canonical_unregistered : canonical_observation r s ≡ ok s
  unfolding canonical_observation
  canonical_unregistered = rw (canonical_observation, h) refl

  pub checked_unregistered : (clock : String) → checked_observation r clock s ≡ err "not registered"
  unfolding checked_observation
  checked_unregistered clock = rw (checked_observation, h) refl

-- An observation of a registered resource is refused where its instant is after the clock, and where its pools are
-- the registration's and another part of its identity is not the registration's. Any other observation is stored
-- under the registration's identity, also one with other pools that names another channel, provider, model,
-- entitlement or variant.
pub apply_snapshot-registered :
    (r : ResourceRegistry) (clock : String) (s : ResourceStateSnapshot) (g : ResourceRegistration)
    → lookup s.identity.resource_id r.registrations ≡ some g
    → g.identity.resource_id ≡ s.identity.resource_id
    → check_observation s ≡ ok s
    → apply_snapshot r clock s ≡ (
        guard (not (has_same_pools s g) || has_same_key s g) refusal
        >> (age_or_reject clock s.observed_at >>= λ age. ok (observed r (under g s))))
unfolding apply_snapshot
apply_snapshot-registered r clock s g h own c = elim (Bool-cases (has_same_pools s g)) [
  | inl p ↦ elim (Bool-cases (has_same_key s g)) [
    | inl k ↦
        rw (canonical-registered r g s h, p, checked-registered r g s h clock, k)
          (age->>-assoc (age_or_reject clock s.observed_at) _
            ∙ ap (λ q. age_or_reject clock s.observed_at >>= λ age. ok (observed r q))
                (same_identity g s p k))
    | inr k ↦ rw (canonical-registered r g s h, p, checked-registered r g s h clock, k) refl
  ]
  | inr p ↦
      rw
        (
          canonical-registered r g s h,
          p,
          (check_observation-same s c).1 g.identity,
          checked-registered r g (under g s) (ap (λ i. lookup i r.registrations) own ∙ h) clock,
          ==-refl (identity_observation_key g.identity),
        )
        (age->>-assoc (age_or_reject clock s.observed_at) _)
]
