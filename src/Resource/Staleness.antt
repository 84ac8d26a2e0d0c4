-- ===== src/Resource/Staleness.antt =====
-- What a read of the registry (resource_state.py `classify_freshness`) finds stale stays so.
use native.Mathlib.Nat.{le_trans}
use scarcity_router.Common.{
  ok, ℕ, ◌-◌, ◌≤◌, String, ◌≡◌, refl, Bool, false, Option, some, List, [], ◌∷◌, ltb, leb, any,
  ◌>>=◌, >>=-eq-ok, >>-eq-ok, ok-injective, option_eq, list_eq, pair_eq, string_eq, nat_eq,
  nat_order, string_order, pair_order, list_order, true, ◌||◌, arith, ◌*◌, leb→le, not-ltb→le, ◌∙◌,
  guard->>-eq-ok, sym, ap,
}
use scarcity_router.Resource.{Freshness, ResourceRegistration, ResourceStateSnapshot}
use scarcity_router.Resource.Reads.{reset_instants, earliest, classify_freshness, freshness_of}
use scarcity_router.Resource.Contract.{channel_eq, entitlement_eq}
use scarcity_router.Resource.Instant.{to_instant, is_before, age_or_reject}
use scarcity_router.Resource.TextOrder.{to_instant-parts}
use scarcity_router.Types.Calendar.{check_ts}
use scarcity_router.Resource.Aging.{
  instant, is_reached, freshness_of-observed, IsStamp, check_ts-IsStamp, stale_if,
}

IsStamp-of_instant : (t : String) {m : ℕ} → to_instant t ≡ ok m → IsStamp t
IsStamp-of_instant t h = h ∙ ap ok (sym (to_instant-parts t h).1)

age-not_after :
    (s t : String) {age : ℕ}
    → age_or_reject s t ≡ ok age
    → IsStamp s
    → IsStamp t
    → instant t ≤ instant s
unfolding age_or_reject
age-not_after s t h hs ht =
    leb→le (instant t) (instant s)
      (guard->>-eq-ok (leb (instant t) (instant s)) _ _ (rw (hs, ht) at h)).0

not_before-IsStamp :
    (later now : String)
    → is_before later now ≡ ok false
    → IsStamp later × (instant now ≤ instant later)
unfolding is_before
not_before-IsStamp later now h =
    let (l, hl, h₁) = >>=-eq-ok (to_instant later) (λ l. to_instant now >>= λ e. ok (ltb l e)) h in
    let (e, he, h₂) = >>=-eq-ok (to_instant now) (λ e. ok (ltb l e)) h₁ in
    (
      IsStamp-of_instant later hl,
      rw ((to_instant-parts later hl).1, (to_instant-parts now he).1)
          (not-ltb→le l e (ok-injective h₂)),
    )

-- What the checks of `classify_freshness` establish, whatever it returns.
record IsClassified (s : ResourceStateSnapshot) (now : String) (ttl : ℕ) : Type 0 where
  observed_stamp : IsStamp s.observed_at
  now_stamp : IsStamp now
  has_ttl : 1 ≤ ttl
  not_after : instant s.observed_at ≤ instant now

classify-IsClassified :
    (s : ResourceStateSnapshot) (now : String) (ttl : ℕ) (o : Option String) {f : Freshness}
    → classify_freshness s.observed_at now ttl o ≡ ok f
    → IsClassified s now ttl
unfolding classify_freshness
classify-IsClassified s now ttl o h =
    let observed = >>-eq-ok (check_ts s.observed_at) _ h in
    let read = >>-eq-ok (check_ts now) _ observed.1 in
    let positive = guard->>-eq-ok (leb 1 ttl) _ _ read.1 in
    let (age, checked, rest) = >>=-eq-ok (age_or_reject now s.observed_at) _ positive.1 in
    let at_observed = check_ts-IsStamp s.observed_at observed.0 in
    let at_now = check_ts-IsStamp now read.0 in
    record {
      observed_stamp = at_observed;
      now_stamp = at_now;
      has_ttl = leb→le 1 ttl positive.0;
      not_after = age-not_after now s.observed_at checked at_now at_observed;
    }

reached_mono :
    (n l : ℕ) (ts : List String)
    → n ≤ l
    → any (is_reached n) ts ≡ true
    → any (is_reached l) ts ≡ true
reached_mono n l [] h k = cc
reached_mono n l (t ∷ ts) h k = ground (arith, reached_mono n l ts h)

stale_if-true : (b : Bool) → stale_if b ≡ Freshness.stale → b ≡ true
stale_if-true true h = refl
stale_if-true false h = cc

older :
    (t m n l : ℕ) (b c : Bool)
    → n ≤ l
    → (b ≡ true → c ≡ true)
    → (ltb t (n - m) || b) ≡ true
    → (ltb t (l - m) || c) ≡ true
older t m n l b c h k e = ground arith

-- An observation that a read finds stale is stale for every later read under the same registration.
pub stale-stays :
    (g : ResourceRegistration) (s : ResourceStateSnapshot) (now later : String)
    → freshness_of g (some s) now ≡ ok Freshness.stale
    → is_before later now ≡ ok false
    → freshness_of g (some s) later ≡ ok Freshness.stale
stale-stays g s now later h k =
    let ttl = g.freshness_ttl_seconds in
    let (ts, resets, h₁) =
      >>=-eq-ok (reset_instants s.quota_facts)
        (λ us. classify_freshness s.observed_at now ttl (earliest us)) h in
    let c = classify-IsClassified s now ttl (earliest ts) h₁ in
    let (stamp, le) = not_before-IsStamp later now k in
    let m = instant s.observed_at in
    let found : stale_if (ltb (ttl * 1000) (instant now - m) || any (is_reached (instant now)) ts)
        ≡ Freshness.stale =
      ok-injective (
        sym (
          freshness_of-observed g s now m (instant now) ts c.observed_stamp c.now_stamp c.not_after
            c.has_ttl resets)
        ∙ h) in
    freshness_of-observed g s later m (instant later) ts c.observed_stamp stamp
      (le_trans c.not_after le) c.has_ttl resets
    ∙ ap (λ b. ok (stale_if b))
        (older (ttl * 1000) m (instant now) (instant later) (any (is_reached (instant now)) ts)
          (any (is_reached (instant later)) ts) le
          (reached_mono (instant now) (instant later) ts le) (stale_if-true _ found))
