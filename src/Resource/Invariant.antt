-- ===== src/Resource/Invariant.antt =====
-- The invariant of the resource registry (resource_state.py): what is observed is observed of a registered resource
-- and stands under the registered identity.
use scarcity_router.Common.{
  ok, String, ◌≡◌, refl, not, none, List, All, HasDistinctKeys, guard->>-eq-ok, ok-injective,
  lookup, option_eq, list_eq, pair_eq, string_eq, nat_eq, nat_order, string_order, pair_order,
  list_order, Option-cases, inl, inr, subst, HasDistinctKeys-put, ℕ, >>=-eq-ok, All-put, ◌∷◌, ◌++◌,
  is_some, [], ◌+◌, All-snoc, HasDistinctKeys-snoc, lookup-none, All-mono, lookup-snoc,
}
use scarcity_router.Resource.{ResourceStateSnapshot, ResourceRegistration, ResourceRegistry}
use scarcity_router.Resource.Registry.{
  register, checked_observation, canonical_observation, store, apply_snapshot, check_all, store_all,
  apply_worker_report,
}
use scarcity_router.Resource.Reads.{key_of_item}
use scarcity_router.Resource.Contract.{channel_eq, entitlement_eq}
use scarcity_router.Resource.Validity.{
  HasOwnId, IsObserved, IsReachable, IsValid, Step, accepted-IsObserved,
}

-- The observations that hold under the registrations.
abbrev AreObserved :
    List (String × ResourceRegistration) → List (String × ResourceStateSnapshot) → Type 0
AreObserved registrations os = HasDistinctKeys key_of_item os × All (IsObserved registrations) os

store-AreObserved :
    (gs : List (String × ResourceRegistration)) (os : List (String × ResourceStateSnapshot))
    (c : ResourceStateSnapshot)
    → IsObserved gs (c.identity.resource_id, c)
    → AreObserved gs os
    → AreObserved gs (store os c)
store-AreObserved gs os c h v = (
  HasDistinctKeys-put c.identity.resource_id c os v.0,
  All-put (IsObserved gs) c.identity.resource_id c os h v.1,
)

store_all-AreObserved :
    (gs : List (String × ResourceRegistration)) (os : List (String × ResourceStateSnapshot))
    (cs : List ResourceStateSnapshot)
    → All (λ c. IsObserved gs (c.identity.resource_id, c)) cs
    → AreObserved gs os
    → AreObserved gs (store_all os cs)
unfolding store_all
store_all-AreObserved gs os [] h v = v
store_all-AreObserved gs os (c ∷ cs) h v =
    store_all-AreObserved gs (store os c) cs h.1 (store-AreObserved gs os c h.0 v)

check_all-AreObserved :
    (r : ResourceRegistry) (clock : String) (ss : List ResourceStateSnapshot)
    {cs : List ResourceStateSnapshot}
    → IsValid r
    → check_all r clock ss ≡ ok cs
    → All (λ c. IsObserved r.registrations (c.identity.resource_id, c)) cs
unfolding check_all
check_all-AreObserved r clock [] v h = subst (All _) (ok-injective h) tt
check_all-AreObserved r clock (s ∷ ss) v h =
    let (c, e, h₁) = >>=-eq-ok (canonical_observation r s) _ h in
    let (u, f, h₂) = >>=-eq-ok (checked_observation r clock c) _ h₁ in
    let (rest, g, h₃) = >>=-eq-ok (check_all r clock ss) _ h₂ in
    subst (All (λ q. IsObserved r.registrations (q.identity.resource_id, q))) (ok-injective h₃)
      (accepted-IsObserved r clock s c u v e f, check_all-AreObserved r clock ss v g)

with_observations-IsValid :
    (r : ResourceRegistry) (os : List (String × ResourceStateSnapshot)) (n : ℕ)
    → IsValid r
    → AreObserved r.registrations os
    → IsValid (record r { observations = os; revision = n })
with_observations-IsValid r os n v h = record {
  own_ids = v.own_ids;
  distinct = v.distinct;
  observed_once = h.0;
  registered = h.1;
}

added-IsValid :
    (r : ResourceRegistry) (g : ResourceRegistration)
    → lookup g.identity.resource_id r.registrations ≡ none
    → IsValid r
    → IsValid (record r {
      registrations = r.registrations ++ (g.identity.resource_id, g) ∷ [];
      revision = r.revision + 1;
    })
added-IsValid r g h v =
    let i = g.identity.resource_id in
    record {
      own_ids = All-snoc HasOwnId r.registrations (i, g) v.own_ids refl;
      distinct =
          HasDistinctKeys-snoc (i, g) r.registrations v.distinct (lookup-none i r.registrations h);
      observed_once = v.observed_once;
      registered =
          All-mono r.observations
            (λ p found. (found.0, lookup-snoc p.0 r.registrations (i, g) found.1, found.2))
            v.registered;
    }

register-IsValid :
    (r q : ResourceRegistry) (g : ResourceRegistration)
    → IsValid r
    → register r g ≡ ok q
    → IsValid q
register-IsValid r q g v h =
    unfold register in
    let passed =
      guard->>-eq-ok (not (is_some (lookup g.identity.resource_id r.registrations))) _ _ h in
    elim (Option-cases (lookup g.identity.resource_id r.registrations)) [
      | inl e ↦ subst IsValid (ok-injective passed.1) (added-IsValid r g e v)
      | inr (k, e) ↦ cc (rw e at passed.0)
    ]

Step-IsValid : {r q : ResourceRegistry} → Step r q → IsValid r → IsValid q
Step-IsValid (Step.registers {r} {q} g h) v = register-IsValid r q g v h
Step-IsValid (Step.observes {r} clock s h) v =
    unfold apply_snapshot in
    let (c, e, h₁) = >>=-eq-ok (canonical_observation r s) _ h in
    let (u, f, h₂) = >>=-eq-ok (checked_observation r clock c) _ h₁ in
    subst IsValid (ok-injective h₂) (
      with_observations-IsValid r _ _ v (
        store-AreObserved r.registrations r.observations c (accepted-IsObserved r clock s c u v e f)
          (v.observed_once, v.registered)))
Step-IsValid (Step.reports {r} clock report h) v =
    unfold apply_worker_report in
    let (cs, e, h₁) = >>=-eq-ok (check_all r clock report.resources) _ h in
    subst IsValid (ok-injective h₁) (
      with_observations-IsValid r _ _ v (
        store_all-AreObserved r.registrations r.observations cs
          (check_all-AreObserved r clock report.resources v e) (v.observed_once, v.registered)))

-- In every registry that calls of `register`, `apply_snapshot` and `apply_worker_report` lead to from an empty one,
-- the registrations have distinct keys, each the resource id of its registration, and each resource has one
-- observation at most, which is under the id of a registered resource and has that registration's whole identity.
pub reachable-IsValid : (r : ResourceRegistry) → IsReachable r → IsValid r
reachable-IsValid r IsReachable.starts = record {
  own_ids = tt;
  distinct = tt;
  observed_once = tt;
  registered = tt;
}
reachable-IsValid r (IsReachable.steps h s) = Step-IsValid s (reachable-IsValid _ h)
