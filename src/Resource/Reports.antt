-- ===== src/Resource/Reports.antt =====
-- Worker reports and single observations (resource_state.py): a report is its observations applied in turn, or
-- nothing.
use scarcity_router.Common.{
  ok, ℕ, String, ◌≡◌, refl, List, [], ◌∷◌, Result, ◌>>=◌, err, option_eq, list_eq, pair_eq,
  string_eq, nat_eq, nat_order, string_order, pair_order, list_order, ◌+◌, ◌∙◌, sym, >>=_assoc,
}
use scarcity_router.Capacity.Contract.{
  resource_eq, kind_eq, resource_order, kind_order, diagnostic_eq,
}
use scarcity_router.Resource.{
  ResourceStateSnapshot, ResourceRegistration, ResourceRegistry, WorkerStateReport,
}
use scarcity_router.Resource.Contract.{channel_eq, entitlement_eq}
use scarcity_router.Resource.Registry.{
  checked_observation, canonical_observation, store, apply_snapshot, check_all, store_all,
  apply_worker_report,
}

-- `apply_snapshot` for each observation, from the left.
unfoldable pub apply_in_turn :
    ResourceRegistry → String → List ResourceStateSnapshot → Result ResourceRegistry
unfolding apply_snapshot
apply_in_turn r clock [] = ok r
apply_in_turn r clock (s ∷ ss) = apply_snapshot r clock s >>= λ q. apply_in_turn q clock ss

-- All of a registry but the count of its changes.
abbrev pub Contents : Type 0
Contents = List (String × ResourceRegistration) × List (String × ResourceStateSnapshot)

abbrev pub contents_of : ResourceRegistry → Contents
contents_of r = (r.registrations, r.observations)

abbrev pub contents : Result ResourceRegistry → Result Contents
contents m = m >>= λ r. ok (contents_of r)

abbrev with_observations :
    ResourceRegistry → List (String × ResourceStateSnapshot) → ℕ → ResourceRegistry
with_observations r os n = record r { observations = os; revision = n }

-- What is canonical, and what is let through, depends on the registrations and the clock alone.
canonical_same :
    (r : ResourceRegistry) (os : List (String × ResourceStateSnapshot)) (n : ℕ)
    (s : ResourceStateSnapshot)
    → canonical_observation (with_observations r os n) s ≡ canonical_observation r s
unfolding canonical_observation
canonical_same r os n s = refl

checked_same :
    (r : ResourceRegistry) (os : List (String × ResourceStateSnapshot)) (n : ℕ) (clock : String)
    (s : ResourceStateSnapshot)
    → checked_observation (with_observations r os n) clock s ≡ checked_observation r clock s
unfolding checked_observation
checked_same r os n clock s = refl

-- The observations that a list of checked snapshots leaves.
abbrev stored :
    ResourceRegistry
    → List (String × ResourceStateSnapshot)
    → Result (List ResourceStateSnapshot)
    → Result Contents
stored r os m = m >>= λ ss. ok (r.registrations, store_all os ss)

in_turn-stored :
    (r : ResourceRegistry) (os : List (String × ResourceStateSnapshot)) (n : ℕ) (clock : String)
    (ss : List ResourceStateSnapshot)
    → contents (apply_in_turn (with_observations r os n) clock ss)
      ≡ stored r os (check_all r clock ss)
unfolding apply_in_turn apply_snapshot check_all store_all
in_turn-stored r os n clock [] = refl
in_turn-stored r os n clock (s ∷ ss) =
    by_canonical (λ c. in_turn-stored r (store os c) (n + 1) clock ss) (canonical_observation r s)
      refl
  where
    Rest : Type 0
    Rest =
        (c : ResourceStateSnapshot)
        → contents (apply_in_turn (with_observations r (store os c) (n + 1)) clock ss)
          ≡ stored r (store os c) (check_all r clock ss)

    by_checked :
        Rest
        → (c : ResourceStateSnapshot) (m : Result (Unit {0})) → canonical_observation r s ≡ ok c
        → checked_observation r clock c ≡ m
        → contents (apply_in_turn (with_observations r os n) clock (s ∷ ss))
          ≡ stored r os (check_all r clock (s ∷ ss))
    by_checked rest c (err why) e f = rw (e, f) refl
    by_checked rest c (ok u) e f = rw (e, f) (rest c ∙ sym (>>=_assoc (check_all r clock ss) _ _))

    by_canonical :
        Rest
        → (m : Result ResourceStateSnapshot) → canonical_observation r s ≡ m
        → contents (apply_in_turn (with_observations r os n) clock (s ∷ ss))
          ≡ stored r os (check_all r clock (s ∷ ss))
    by_canonical rest (err why) e = rw e refl
    by_canonical rest (ok c) e = by_checked rest c (checked_observation r clock c) e refl

-- A worker's report has the effect of its observations applied one after the other by `apply_snapshot`, with the
-- same error where one of them is refused; where none is, the two registries agree in registrations and observations.
pub report-in_turn :
    (r : ResourceRegistry) (clock : String) (report : WorkerStateReport)
    → contents (apply_worker_report r clock report)
      ≡ contents (apply_in_turn r clock report.resources)
unfolding apply_worker_report
report-in_turn r clock report =
    >>=_assoc (check_all r clock report.resources) _ _
    ∙ sym (in_turn-stored r r.observations r.revision clock report.resources)
