-- ===== src/Continuation/Invariant.antt =====
-- The invariant of the registry (gateway_continuation.py), kept by every call.
use native.Mathlib.Nat.{le_trans}
use scarcity_router.Common.{
  ℕ, suc, ◌≤◌, String, ◌≡◌, sym, ap, ◌∙◌, subst, ◌≢◌, inl, inr, false, some, List, [], ◌∷◌, ◌++◌,
  arith, ltb, eqb, if◌then◌else◌, eqb_iff, Bool-cases, length, tail, All, All-mem, All-mono,
  All-both, HasDistinctKeys, length-snoc, option_eq, list_eq, pair_eq, string_eq, nat_eq, nat_order,
  string_order, pair_order, list_order, lookup, without, lookup-mem, without-other, All-without,
  HasDistinctKeys-without, length-without-le,
}
use scarcity_router.Continuation.{ContinuationState, ContinuationRegistry, is_terminal}
use scarcity_router.Continuation.Registry.{
  max_terminal_tombstones, append_tombstone, with_state, drop_record, bury,
}

-- The record that stands under a token is that token's, and has not ended.
pub record IsLive (r : ContinuationRegistry) (p : String × ℕ) : Type 0 where
  pub own_token : (r.cells p.1).continuation_token ≡ p.0
  pub unfinished : is_terminal (r.cells p.1).state ≡ false

pub record IsValid (r : ContinuationRegistry) : Type 0 where
  pub bounded : length r.records ≤ r.max_pending
  pub distinct : HasDistinctKeys (λ (p : String × ℕ). p.0) r.records
  pub live : All (IsLive r) r.records
  pub remembered : length r.tombstones ≤ max_terminal_tombstones

pub with_state-IsLive :
    (r : ContinuationRegistry) (ref : ℕ) (s : ContinuationState) (p : String × ℕ)
    → is_terminal s ≡ false
    → IsLive r p
    → IsLive (with_state r ref s) p
unfolding with_state
with_state-IsLive r ref s p k h = elim (Bool-cases (eqb p.1 ref)) [
  | inl e ↦
      let same : p.1 ≡ ref = (eqb_iff p.1 ref).0 e in
      record {
        own_token = rw e (subst (λ n. (r.cells n).continuation_token ≡ p.0) same h.own_token);
        unfinished = rw e k;
      }
  | inr e ↦ record { own_token = rw e h.own_token; unfinished = rw e h.unfinished }
]

-- A record whose token is not the changed one's is another record.
pub with_state-IsLive_other :
    (r : ContinuationRegistry) (ref : ℕ) (s : ContinuationState) (token : String) (p : String × ℕ)
    → (r.cells ref).continuation_token ≡ token
    → p.0 ≢ token
    → IsLive r p
    → IsLive (with_state r ref s) p
unfolding with_state
with_state-IsLive_other r ref s token p own other h = elim (Bool-cases (eqb p.1 ref)) [
  | inl e ↦ absurd (
      other
        (sym h.own_token ∙ ap (λ n. (r.cells n).continuation_token) ((eqb_iff p.1 ref).0 e) ∙ own))
  | inr e ↦ record { own_token = rw e h.own_token; unfinished = rw e h.unfinished }
]

pub IsLive-of_lookup :
    (r : ContinuationRegistry) (token : String) {ref : ℕ}
    → IsValid r
    → lookup token r.records ≡ some ref
    → IsLive r (token, ref)
IsLive-of_lookup r token v h = All-mem (IsLive r) r.records v.live (lookup-mem token r.records h)

append_tombstone_bounded :
    (ring : List (String × String)) (t : String × String)
    → length ring ≤ max_terminal_tombstones
    → length (append_tombstone ring t) ≤ max_terminal_tombstones
unfolding append_tombstone
append_tombstone_bounded ring t h = by_test (ring ++ t ∷ []) (length-snoc ring t)
  where
    by_test :
        (longer : List (String × String))
        → length longer ≡ suc (length ring)
        → length (if ltb max_terminal_tombstones (length longer) then tail longer else longer)
          ≤ max_terminal_tombstones
    by_test [] e = omega arith
    by_test (u ∷ us) e = ground (arith, h, e)

pub bury-IsValid : (r : ContinuationRegistry) (t : String × String) → IsValid r → IsValid (bury r t)
unfolding bury
bury-IsValid r t v = record {
  bounded = v.bounded;
  distinct = v.distinct;
  live =
      All-mono r.records (λ p h. record { own_token = h.own_token; unfinished = h.unfinished })
        v.live;
  remembered = append_tombstone_bounded r.tombstones t v.remembered;
}

-- A record that ends leaves the registry.
pub retire-IsValid :
    (r : ContinuationRegistry) (token : String) (ref : ℕ) (s : ContinuationState)
    → (r.cells ref).continuation_token ≡ token
    → IsValid r
    → IsValid (with_state (drop_record r token) ref s)
unfolding with_state drop_record
retire-IsValid r token ref s own v = record {
  bounded = le_trans (length-without-le token r.records) v.bounded;
  distinct = HasDistinctKeys-without token r.records v.distinct;
  live =
      All-both (λ p other h. fields (with_state-IsLive_other r ref s token p own other h))
        (without token r.records) (without-other token r.records)
        (All-without (IsLive r) token r.records v.live);
  remembered = v.remembered;
}
  where
    fields :
        {p : String × ℕ}
        → IsLive (with_state r ref s) p
        → IsLive (with_state (drop_record r token) ref s) p
    fields h = record { own_token = h.own_token; unfinished = h.unfinished }

pub drop_absent-IsValid :
    (r : ContinuationRegistry) (token : String) → IsValid r → IsValid (drop_record r token)
unfolding drop_record
drop_absent-IsValid r token v = record {
  bounded = le_trans (length-without-le token r.records) v.bounded;
  distinct = HasDistinctKeys-without token r.records v.distinct;
  live =
      All-mono (without token r.records)
        (λ p h. record { own_token = h.own_token; unfinished = h.unfinished })
        (All-without (IsLive r) token r.records v.live);
  remembered = v.remembered;
}

pub change-IsValid :
    (r : ContinuationRegistry) (ref : ℕ) (s : ContinuationState)
    → is_terminal s ≡ false
    → IsValid r
    → IsValid (with_state r ref s)
change-IsValid r ref s k v =
    unfold with_state in
    record {
      bounded = v.bounded;
      distinct = v.distinct;
      live = All-mono r.records (λ p h. with_state-IsLive r ref s p k h) v.live;
      remembered = v.remembered;
    }
