-- ===== src/Continuation/Forgotten.antt =====
-- A waiting continuation that the reaper of gateway_continuation.py ends leaves no tombstone.
use scarcity_router.Common.{
  ℕ, String, ◌≡◌, refl, sym, ap, ◌∙◌, subst, ◌≢◌, inl, inr, Bool, true, false, none, some, List, [],
  ◌∷◌, ◌++◌, Memᴰ, arith, ltb, eqb, if◌then◌else◌, eqb_iff, Bool-cases, some-injective,
  contains_of_other, contains-false, length, tail, All, All-of, All-mono, All-both, HasDistinctKeys,
  All-snoc, option_eq, contains, list_eq, pair_eq, string_eq, nat_eq, nat_order, string_order,
  pair_order, list_order, lookup, lookup_of_mem,
}
use scarcity_router.Continuation.{
  ContinuationRegistry, is_waiting, not_found, already_resolved, rejected,
}
use scarcity_router.Continuation.Registry.{
  max_terminal_tombstones, append_tombstone, with_state, drop_record, bury, expired_at,
  was_terminal_for, claim_record, expire_one, expire_items, expire_due_records,
}
use scarcity_router.Continuation.Invariant.{IsLive, IsValid}
use scarcity_router.Continuation.Kept.{expire_one-IsLive}
use scarcity_router.Continuation.Once.{state_of, expire_one-state_of}
use scarcity_router.Continuation.Replay.{claim_absent}
use scarcity_router.Continuation.Reaper.{unexpired, expire_due_records-lookup}

contains-append_other :
    (xs : List (String × String)) (t u : String × String)
    → t ≢ u
    → contains xs u ≡ false
    → contains (xs ++ t ∷ []) u ≡ false
contains-append_other xs t u n h =
    contains_of_other (xs ++ t ∷ []) u
      (All-snoc (λ x. x ≢ u) xs t (All-mono xs (λ x m e. m (sym e)) (contains-false xs u h)) n)

contains-tail :
    (xs : List (String × String)) (u : String × String)
    → contains xs u ≡ false
    → contains (tail xs) u ≡ false
unfolding contains
contains-tail [] u h = h
contains-tail (x ∷ xs) u h = ground (arith, h)

append_tombstone-other :
    (ring : List (String × String)) (t u : String × String)
    → t ≢ u
    → contains ring u ≡ false
    → contains (append_tombstone ring t) u ≡ false
unfolding append_tombstone
append_tombstone-other ring t u n h =
    elim (Bool-cases (ltb max_terminal_tombstones (length (ring ++ t ∷ [])))) [
      | inl e ↦ rw e (contains-tail (ring ++ t ∷ []) u (contains-append_other ring t u n h))
      | inr e ↦ rw e (contains-append_other ring t u n h)
    ]

-- Ending an item buries only the item's token, and only if it was not waiting.
expire_one-tombstones :
    (r : ContinuationRegistry) (p : String × ℕ) (u : String × String)
    → (p.0 ≡ u.0 → is_waiting (state_of r p.1) ≡ true)
    → contains r.tombstones u ≡ false
    → contains (expire_one r p.0 p.1).tombstones u ≡ false
unfolding expire_one with_state drop_record bury
expire_one-tombstones r p u k h = elim (Bool-cases (is_waiting (r.cells p.1).state)) [
  | inl w ↦ rw w h
  | inr w ↦ rw w (
      append_tombstone-other r.tombstones (p.0, (r.cells p.1).client_id) u
        (λ e. cc (w, k (ap (λ (q : String × String). q.0) e))) h)
]

-- Another item's record keeps its state.
expire_one-waits :
    (r : ContinuationRegistry) (p q : String × ℕ)
    → IsLive r p
    → IsLive r q
    → p.0 ≢ q.0
    → is_waiting (state_of r q.1) ≡ true
    → is_waiting (state_of (expire_one r p.0 p.1) q.1) ≡ true
expire_one-waits r p q h k n w = elim (Bool-cases (eqb q.1 p.1)) [
  | inl e ↦ absurd (
      n (
        sym h.own_token
        ∙ ap (λ m. (r.cells m).continuation_token) (sym ((eqb_iff q.1 p.1).0 e))
        ∙ k.own_token))
  | inr e ↦ rw (expire_one-state_of r p.0 p.1 q.1, e) w
]

others_wait :
    (r : ContinuationRegistry) (p : String × ℕ) (u : String × String)
    → IsLive r p
    → (items : List (String × ℕ)) → All (λ (q : String × ℕ). p.0 ≢ q.0) items
    → All (IsLive r) items
    → All (λ (q : String × ℕ). q.0 ≡ u.0 → is_waiting (state_of r q.1) ≡ true) items
    → All
        (λ (q : String × ℕ). q.0 ≡ u.0 → is_waiting (state_of (expire_one r p.0 p.1) q.1) ≡ true)
        items
others_wait r p u h [] d l w = tt
others_wait r p u h (q ∷ items) d l w =
    (λ e. expire_one-waits r p q h l.0 d.0 (w.0 e), others_wait r p u h items d.1 l.1 w.1)

expire_items-tombstones :
    (now : ℕ) (items : List (String × ℕ)) (r : ContinuationRegistry) (u : String × String)
    → HasDistinctKeys (λ (p : String × ℕ). p.0) items
    → All (IsLive r) items
    → All (λ (p : String × ℕ). p.0 ≡ u.0 → is_waiting (state_of r p.1) ≡ true) items
    → contains r.tombstones u ≡ false
    → contains (expire_items now items r).0.tombstones u ≡ false
unfolding expire_items
expire_items-tombstones now [] r u d l w h = h
expire_items-tombstones now (p ∷ items) r u d l w h =
    elim (Bool-cases (expired_at (r.cells p.1) now)) [
      | inl e ↦ rw e (
          expire_items-tombstones now items (expire_one r p.0 p.1) u d.1
            (All-both (λ q other k. expire_one-IsLive r p q l.0 other k) items d.0 l.1)
            (others_wait r p u l.0 items d.0 l.1 w.1) (expire_one-tombstones r p u w.0 h))
      | inr e ↦ rw e (expire_items-tombstones now items r u d.1 l.1 w.1 h)
    ]

-- Where the reaper ends a waiting continuation of a client that has no tombstone under the token, the client's tool
-- result is told afterwards that nothing was found, not that it was already resolved.
pub reaped_waiting-replay :
    (r : ContinuationRegistry) (now later ref : ℕ) (token client : String)
    → IsValid r
    → lookup token r.records ≡ some ref
    → is_waiting (state_of r ref) ≡ true
    → expired_at (r.cells ref) now ≡ true
    → was_terminal_for r token client ≡ false
    → (claim_record (expire_due_records r now).after token client later).outcome
      ≡ rejected not_found
unfolding was_terminal_for
reaped_waiting-replay r now later ref token client v found waits due unburied =
    let after = (expire_due_records r now).after in
    let absent : lookup token after.records ≡ none =
      expire_due_records-lookup r now token v ∙ ap (unexpired r now) found ∙ rw due refl in
    let forgotten : contains after.tombstones (token, client) ≡ false =
      unfold expire_due_records in
      expire_items-tombstones now r.records r (token, client) v.distinct v.live
        (All-of _ r.records (λ p m e. waiting_of p m e)) unburied in
    (buried_claim_none after absent forgotten)
  where
    waiting_of :
        (p : String × ℕ) → Memᴰ p r.records → p.0 ≡ token → is_waiting (state_of r p.1) ≡ true
    waiting_of p m e =
        let here : lookup token r.records ≡ some p.1 =
          subst (λ t. lookup t r.records ≡ some p.1) e (lookup_of_mem r.records v.distinct m) in
        subst (λ n. is_waiting (state_of r n) ≡ true) (some-injective (sym found ∙ here)) waits

    buried_claim_none :
        (q : ContinuationRegistry)
        → lookup token q.records ≡ none
        → contains q.tombstones (token, client) ≡ false
        → (claim_record q token client later).outcome ≡ rejected not_found
    buried_claim_none q a f =
        claim_absent q token client later a
        ∙ ap (λ (b : Bool). rejected (if b then already_resolved else not_found)) f
