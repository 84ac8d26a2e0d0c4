-- ===== src/Resource/Validity.antt =====
-- Valid registries and the calls that lead to them (resource_state.py), and what an accepted observation is.
use scarcity_router.Common.{
  ok, String, ◌≡◌, refl, ap, some, List, All, All-mem, HasDistinctKeys, guard->>-eq-ok,
  ok-injective, lookup, lookup-mem, option_eq, list_eq, pair_eq, string_eq, nat_eq, nat_order,
  string_order, pair_order, list_order, Option-cases, inl, inr, sym, ◌∙◌, Bool-cases, subst,
}
use scarcity_router.Resource.{
  ResourceStateSnapshot, WorkerStateReport, ResourceRegistration, ResourceRegistry,
}
use scarcity_router.Resource.Registry.{
  register, empty_registry, checked_observation, canonical_observation, apply_snapshot,
  apply_worker_report,
}
use scarcity_router.Resource.Reads.{key_of_item}
use scarcity_router.Resource.Contract.{channel_eq, entitlement_eq}
use scarcity_router.Resource.Accepted.{
  under, canonical_unregistered, checked_unregistered, has_same_pools, canonical-registered,
  has_same_key, checked-registered, same_identity, check_observation-same,
}

-- The registrations have the observation's resource, with its identity.
abbrev pub IsObserved :
    List (String × ResourceRegistration) → String × ResourceStateSnapshot → Type 0
IsObserved registrations p =
    (g : ResourceRegistration) × (lookup p.0 registrations ≡ some g) × (p.1.identity ≡ g.identity)

abbrev pub HasOwnId : String × ResourceRegistration → Type 0
HasOwnId p = p.1.identity.resource_id ≡ p.0

pub record IsValid (r : ResourceRegistry) : Type 0 where
  pub own_ids : All HasOwnId r.registrations
  pub distinct : HasDistinctKeys key_of_item r.registrations
  pub observed_once : HasDistinctKeys key_of_item r.observations
  pub registered : All (IsObserved r.registrations) r.observations

-- The calls that change a registry, where they do not raise.
pub data Step : ResourceRegistry → ResourceRegistry → Type 0 where
  registers : {r q : ResourceRegistry} (g : ResourceRegistration) → register r g ≡ ok q → Step r q
  observes :
      {r q : ResourceRegistry} (clock : String) (s : ResourceStateSnapshot)
      → apply_snapshot r clock s ≡ ok q
      → Step r q
  reports :
      {r q : ResourceRegistry} (clock : String) (report : WorkerStateReport)
      → apply_worker_report r clock report ≡ ok q
      → Step r q

pub data IsReachable : ResourceRegistry → Type 0 where
  starts : IsReachable empty_registry
  steps : {r q : ResourceRegistry} → IsReachable r → Step r q → IsReachable q

pub own_id :
    (r : ResourceRegistry) (i : String) {g : ResourceRegistration}
    → IsValid r
    → lookup i r.registrations ≡ some g
    → g.identity.resource_id ≡ i
own_id r i v h = All-mem HasOwnId r.registrations v.own_ids (lookup-mem i r.registrations h)

-- What passes the check is stored under its registration's identity.
pub accepted-IsObserved :
    (r : ResourceRegistry) (clock : String) (s c : ResourceStateSnapshot) (u : Unit {0})
    → IsValid r
    → canonical_observation r s ≡ ok c
    → checked_observation r clock c ≡ ok u
    → IsObserved r.registrations (c.identity.resource_id, c)
accepted-IsObserved r clock s c u v e f =
    elim (Option-cases (lookup s.identity.resource_id r.registrations)) [
      | inl h ↦
          let same : s ≡ c = ok-injective (sym (canonical_unregistered r s h) ∙ e) in
          cc (same, checked_unregistered r s h clock, f)
      | inr (g, h) ↦ elim (Bool-cases (has_same_pools s g)) [
        | inl p ↦
            let same : s ≡ c = ok-injective (sym (rw p at (canonical-registered r g s h)) ∙ e) in
            let checked : checked_observation r clock s ≡ ok u =
              subst (λ q. checked_observation r clock q ≡ ok u) (sym same) f in
            let key =
              (guard->>-eq-ok (has_same_key s g) _ _
                (sym (checked-registered r g s h clock) ∙ checked)).0 in
            subst IsStored same (g, h, ap (λ q. q.identity) (same_identity g s p key))
        | inr p ↦
            let own = own_id r s.identity.resource_id v h in
            subst IsStored
              (check_observation-same (under g s)
                (sym (rw p at (canonical-registered r g s h)) ∙ e)).0
              (g, ap (λ i. lookup i r.registrations) own ∙ h, refl)
      ]
    ]
  where
    IsStored : ResourceStateSnapshot → Type 0
    IsStored q = IsObserved r.registrations (q.identity.resource_id, q)
