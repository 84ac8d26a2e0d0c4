-- ===== src/Resource/Aging.antt =====
-- What makes an observation stale (resource_state.py `classify_freshness` on the windows of an observation), and that
-- it stays so.
use scarcity_router.Common.{
  ok, ℕ, ◌-◌, ◌≤◌, String, ◌≡◌, refl, subst, Bool, false, Option, none, some, List, [], ◌∷◌, ltb,
  leb, any, All, ◌>>=◌, >>=-eq-ok, guard-eq-ok, >>-eq-ok, ok-injective, option_eq, list_eq, pair_eq,
  string_eq, nat_eq, nat_order, string_order, pair_order, list_order, inl, inr, le→leb,
  Option-cases, true, Bool-cases, ◌||◌, arith, ◌<?◌, if◌then◌else◌, ◌*◌,
}
use scarcity_router.Resource.{QuotaFact, Freshness, ResourceRegistration, ResourceStateSnapshot}
use scarcity_router.Resource.Reads.{
  reset_instants, reset_crossed, earliest, past_reset, classify_freshness, freshness_of,
}
use scarcity_router.Resource.Contract.{channel_eq, entitlement_eq}
use scarcity_router.Resource.Instant.{instant_of, to_instant, is_before, age_or_reject}
use scarcity_router.Resource.TextOrder.{to_instant-parts, text-order_of_instants}
use scarcity_router.Types.Calendar.{is_timestamp, check_ts}
use scarcity_router.Types.SafeId.{codes}

abbrev pub instant : String → ℕ
instant t = instant_of (codes t)

abbrev pub IsStamp : String → Type 0
IsStamp t = to_instant t ≡ ok (instant t)

pub check_ts-IsStamp : (t : String) → check_ts t ≡ ok tt → IsStamp t
unfolding check_ts to_instant
check_ts-IsStamp t h = rw (guard-eq-ok (is_timestamp (codes t)) _ h) refl

check_ts_of_instant : (t : String) {m : ℕ} → to_instant t ≡ ok m → check_ts t ≡ ok tt
unfolding check_ts
check_ts_of_instant t h = rw (to_instant-parts t h).0 refl

is_before_of_instants :
    (s t : String) (m n : ℕ)
    → to_instant s ≡ ok m
    → to_instant t ≡ ok n
    → is_before s t ≡ ok (ltb m n)
unfolding is_before
is_before_of_instants s t m n h k = rw (h, k) refl

age_of_instants :
    (s t : String) (m n : ℕ)
    → to_instant s ≡ ok m
    → to_instant t ≡ ok n
    → n ≤ m
    → age_or_reject s t ≡ ok (m - n)
unfolding age_or_reject
age_of_instants s t m n h k le = rw (h, k, le→leb n m le) refl

reset_instants-AreStamps :
    (fs : List QuotaFact) {ts : List String} → reset_instants fs ≡ ok ts → All IsStamp ts
unfolding reset_instants
reset_instants-AreStamps [] h = subst (All IsStamp) (ok-injective h) tt
reset_instants-AreStamps (f ∷ fs) {ts} h = elim (Option-cases f.window.resets_at) [
  | inl e ↦ reset_instants-AreStamps fs (rw e at h)
  | inr (t, e) ↦
      let (checked, rest) =
        >>-eq-ok (check_ts t) (reset_instants fs >>= λ us. ok (t ∷ us)) (rw e at h) in
      let (us, found, same) = >>=-eq-ok (reset_instants fs) (λ us. ok (t ∷ us)) rest in
      subst (All IsStamp) (ok-injective same)
        (check_ts-IsStamp t checked, reset_instants-AreStamps fs found)
]

-- Whether an instant has been reached.
abbrev pub is_reached : ℕ → String → Bool
is_reached n t = leb (instant t) n

-- The reset that `min` of the texts finds is reached as soon as any is.
abbrev is_earliest_reached : ℕ → Option String → Bool
is_earliest_reached n none = false
is_earliest_reached n (some t) = is_reached n t

abbrev IsOptStamp : Option String → Type 0
IsOptStamp none = Unit
IsOptStamp (some t) = IsStamp t

or_false : (b : Bool) → (b || false) ≡ b
or_false true = refl
or_false false = refl

later_decides_less : (a b n : ℕ) → a ≤ b → (leb b n || leb a n) ≡ leb a n
later_decides_less a b n h = ground arith

earlier_decides : (a b n : ℕ) → a ≤ b → (leb a n || leb b n) ≡ leb a n
earlier_decides a b n h = ground arith

earliest-reached :
    (n : ℕ) (ts : List String)
    → All IsStamp ts
    → IsOptStamp (earliest ts) × (any (is_reached n) ts ≡ is_earliest_reached n (earliest ts))
unfolding earliest
earliest-reached n [] h = (tt, refl)
earliest-reached n (t ∷ ts) h =
    let (stamp, reached) = earliest-reached n ts h.1 in
    elim (Option-cases (earliest ts)) [
      | inl e ↦ rw (e, rw e at reached) (h.0, or_false (is_reached n t))
      | inr (u, e) ↦
          let own : IsStamp u = rw e at stamp in
          let texts = text-order_of_instants u t (instant u) (instant t) own h.0 in
          elim (Bool-cases (u <? t)) [
            | inl f ↦
                rw (e, rw e at reached, f)
                  (own, later_decides_less (instant u) (instant t) n (ground (arith, texts, f)))
            | inr f ↦
                rw (e, rw e at reached, f)
                  (h.0, earlier_decides (instant t) (instant u) n (ground (arith, texts, f)))
          ]
    ]

ok_or : (n k : ℕ) (b : Bool) → (if ltb n k then ok b else ok true) ≡ ok (leb k n || b)
ok_or n k b = ground arith

fresh_or_stale :
    (n k : ℕ)
    → ok (if ltb n k then Freshness.fresh else Freshness.stale)
      ≡ ok (if leb k n then Freshness.stale else Freshness.fresh)
fresh_or_stale n k = ground arith

reset_crossed-any :
    (now : String) (n : ℕ) (ts : List String)
    → to_instant now ≡ ok n
    → All IsStamp ts
    → reset_crossed ts now ≡ ok (any (is_reached n) ts)
unfolding reset_crossed
reset_crossed-any now n [] h hs = refl
reset_crossed-any now n (t ∷ ts) h hs =
    rw (is_before_of_instants now t n (instant t) h hs.0, reset_crossed-any now n ts h hs.1)
      (ok_or n (instant t) (any (is_reached n) ts))

past_reset-earliest :
    (now : String) (n : ℕ) (o : Option String)
    → to_instant now ≡ ok n
    → IsOptStamp o
    → past_reset now o ≡ ok (if is_earliest_reached n o then Freshness.stale else Freshness.fresh)
past_reset-earliest now n none h s = refl
past_reset-earliest now n (some t) h s =
    rw (check_ts_of_instant t s, is_before_of_instants now t n (instant t) h s)
      (fresh_or_stale n (instant t))

abbrev pub stale_if : Bool → Freshness
stale_if b = if b then Freshness.stale else Freshness.fresh

stale_by_either :
    (b c : Bool) → (if b then ok Freshness.stale else ok (stale_if c)) ≡ ok (stale_if (b || c))
stale_by_either true c = refl
stale_by_either false c = refl

-- An observation whose age has been checked is stale where it is older than the registration's time to live or where
-- any window's reset has been reached, and otherwise fresh: `min` of the reset texts finds the first reset.
pub freshness_of-observed :
    (g : ResourceRegistration) (s : ResourceStateSnapshot) (now : String) (m n : ℕ)
    (ts : List String)
    → to_instant s.observed_at ≡ ok m
    → to_instant now ≡ ok n
    → m ≤ n
    → 1 ≤ g.freshness_ttl_seconds
    → reset_instants s.quota_facts ≡ ok ts
    → freshness_of g (some s) now
      ≡ ok (
          if ltb (g.freshness_ttl_seconds * 1000) (n - m) || any (is_reached n) ts
          then Freshness.stale
          else Freshness.fresh)
unfolding classify_freshness
freshness_of-observed g s now m n ts h k le ttl resets =
    let (stamp, reached) = earliest-reached n ts (reset_instants-AreStamps s.quota_facts resets) in
    rw
      (
        resets,
        check_ts_of_instant s.observed_at h,
        check_ts_of_instant now k,
        le→leb 1 g.freshness_ttl_seconds ttl,
        age_of_instants now s.observed_at n m k h le,
        past_reset-earliest now n (earliest ts) k stamp,
        reached,
      )
      (stale_by_either (ltb (g.freshness_ttl_seconds * 1000) (n - m))
        (is_earliest_reached n (earliest ts)))
