-- ===== src/Continuation/Kept.antt =====
-- Every call of the registry (gateway_continuation.py) keeps its invariant, and so does every run of calls.
use scarcity_router.Common.{
  ℕ, suc, ◌≤◌, String, ◌≡◌, refl, sym, subst, ◌≢◌, inl, inr, Bool, true, false, ◌&&◌, Option, none,
  some, List, [], ◌∷◌, ◌++◌, arith, ltb, leb, Bool-cases, Option-cases, some-injective, length, All,
  All-mono, All-both, HasDistinctKeys, All-snoc, length-snoc, ◌==◌, option_eq, list_eq, pair_eq,
  string_eq, nat_eq, nat_order, string_order, pair_order, list_order, lookup, lookup-none,
  HasDistinctKeys-snoc,
}
use scarcity_router.Types.SafeId.{is_safe_id}
use scarcity_router.Continuation.{
  ContinuationState, PendingContinuation, ContinuationRegistry, Event, is_waiting, is_terminal,
  waiting, resuming, expired, register, claim, release, close, expire_due,
}
use scarcity_router.Continuation.Registry.{
  with_state, drop_record, bury, expired_at, is_text, register_record, claim_own, claim_record,
  release_unclaimed, close_record, expire_one, expire_items, expire_due_records, step, new_registry,
  run,
}
use scarcity_router.Continuation.Invariant.{
  IsLive, IsValid, with_state-IsLive_other, IsLive-of_lookup, bury-IsValid, retire-IsValid,
  change-IsValid, drop_absent-IsValid,
}

added-IsValid :
    (r : ContinuationRegistry) (ref : ℕ)
    → is_terminal (r.cells ref).state ≡ false
    → suc (length r.records) ≤ r.max_pending
    → lookup (r.cells ref).continuation_token r.records ≡ none
    → IsValid r
    → IsValid (record r { records = r.records ++ ((r.cells ref).continuation_token, ref) ∷ [] })
added-IsValid r ref k room absent v = record {
  bounded = rw (length-snoc r.records ((r.cells ref).continuation_token, ref)) room;
  distinct = HasDistinctKeys-snoc _ r.records v.distinct (lookup-none _ r.records absent);
  live =
      All-snoc _ r.records _
        (All-mono r.records (λ p h. record { own_token = h.own_token; unfinished = h.unfinished })
          v.live)
        (record { own_token = refl; unfinished = k });
  remembered = v.remembered;
}

waiting-unfinished : (s : ContinuationState) → is_waiting s ≡ true → is_terminal s ≡ false
waiting-unfinished s h = ground arith

pub register_record-IsValid :
    (r : ContinuationRegistry) (ref : ℕ) → IsValid r → IsValid (register_record r ref).after
unfolding register_record
register_record-IsValid r ref v =
    elim (Bool-cases (
      is_safe_id (r.cells ref).client_id
      && is_text (r.cells ref).model_echo
      && is_waiting (r.cells ref).state)) [
        | inl e ↦ elim (Bool-cases (leb r.max_pending (length r.records))) [
          | inl f ↦ rw (e, f) v
          | inr f ↦ elim (Option-cases (lookup (r.cells ref).continuation_token r.records)) [
            | inl g ↦
                rw (e, f, g)
                  (added-IsValid r ref (waiting-unfinished (r.cells ref).state (ground arith))
                    (ground arith) g v)
            | inr (n, g) ↦ rw (e, f, g) v
          ]
        ]
        | inr e ↦ rw e v
      ]

pub claim_record-IsValid :
    (r : ContinuationRegistry) (token client : String) (now : ℕ)
    → IsValid r
    → IsValid (claim_record r token client now).after
unfolding claim_record
claim_record-IsValid r token client now v = by_record (lookup token r.records) refl
  where
    own :
        (ref : ℕ)
        → (r.cells ref).continuation_token ≡ token
        → IsValid (claim_own r token client now ref).after
    own ref e = elim (Bool-cases (is_waiting (r.cells ref).state)) [
      | inl w ↦ elim (Bool-cases (expired_at (r.cells ref) now)) [
        | inl d ↦
            rw (w, d) (bury-IsValid _ (token, client) (retire-IsValid r token ref expired e v))
        | inr d ↦ rw (w, d) (change-IsValid r ref resuming refl v)
      ]
      | inr w ↦ rw w v
    ]

    by_record :
        (o : Option ℕ)
        → lookup token r.records ≡ o
        → IsValid (claim_record r token client now).after
    by_record none e = rw (e, claim_record) v
    by_record (some ref) e = elim (Bool-cases ((r.cells ref).client_id == client)) [
      | inl f ↦ rw (e, f, claim_record) (own ref (IsLive-of_lookup r token v e).own_token)
      | inr f ↦ rw (e, f, claim_record) v
    ]

pub release_unclaimed-IsValid :
    (r : ContinuationRegistry) (ref : ℕ) → IsValid r → IsValid (release_unclaimed r ref).after
unfolding release_unclaimed
release_unclaimed-IsValid r ref v = by_state (r.cells ref).state
  where
    by_state :
        (s : ContinuationState)
        → IsValid (elim s as (λ _. ContinuationRegistry) [
          | ContinuationState.resuming ↦ with_state r ref waiting
          | _ ↦ r
        ])
    by_state ContinuationState.resuming = change-IsValid r ref waiting refl v
    by_state ContinuationState.waiting = v
    by_state ContinuationState.completed = v
    by_state ContinuationState.cancelled = v
    by_state ContinuationState.expired = v
    by_state ContinuationState.lost = v

pub close_record-IsValid :
    (r : ContinuationRegistry) (token : String) (s : ContinuationState) (cancel : Bool)
    → IsValid r
    → IsValid (close_record r token s cancel).after
unfolding close_record
close_record-IsValid r token s cancel v = elim (Bool-cases (is_terminal s)) [
  | inl t ↦ elim (Option-cases (lookup token r.records)) [
    | inl e ↦ rw (t, e) (bury-IsValid _ (token, "") (drop_absent-IsValid r token v))
    | inr (ref, e) ↦
        rw (t, e)
          (unfold with_state drop_record bury in
            bury-IsValid _ (token, (r.cells ref).client_id)
              (retire-IsValid r token ref s (IsLive-of_lookup r token v e).own_token v))
  ]
  | inr t ↦ rw t v
]

pub expire_one-IsValid :
    (r : ContinuationRegistry) (p : String × ℕ)
    → IsLive r p
    → IsValid r
    → IsValid (expire_one r p.0 p.1)
unfolding expire_one
expire_one-IsValid r p h v = elim (Bool-cases (is_waiting (r.cells p.1).state)) [
  | inl w ↦ rw w (retire-IsValid r p.0 p.1 expired h.own_token v)
  | inr w ↦ rw w (
      bury-IsValid _ (p.0, (r.cells p.1).client_id)
        (retire-IsValid r p.0 p.1 expired h.own_token v))
]

-- The records of the other items go on.
pub expire_one-IsLive :
    (r : ContinuationRegistry) (p : String × ℕ) (q : String × ℕ)
    → IsLive r p
    → p.0 ≢ q.0
    → IsLive r q
    → IsLive (expire_one r p.0 p.1) q
unfolding expire_one
expire_one-IsLive r p q h other k =
    let kept = with_state-IsLive_other r p.1 expired p.0 q h.own_token (λ e. other (sym e)) k in
    elim (Bool-cases (is_waiting (r.cells p.1).state)) [
      | inl w ↦ rw w (fields kept)
      | inr w ↦ rw w (fields_buried kept)
    ]
  where
    fields :
        IsLive (with_state r p.1 expired) q → IsLive (with_state (drop_record r p.0) p.1 expired) q
    fields m = record { own_token = m.own_token; unfinished = m.unfinished }

    fields_buried :
        IsLive (with_state r p.1 expired) q
        → IsLive
            (bury (with_state (drop_record r p.0) p.1 expired) (p.0, (r.cells p.1).client_id))
            q
    fields_buried m = record { own_token = m.own_token; unfinished = m.unfinished }

pub expire_items-IsValid :
    (now : ℕ) (items : List (String × ℕ)) (r : ContinuationRegistry)
    → HasDistinctKeys (λ (p : String × ℕ). p.0) items
    → All (IsLive r) items
    → IsValid r
    → IsValid (expire_items now items r).0
unfolding expire_items
expire_items-IsValid now [] r d h v = v
expire_items-IsValid now (p ∷ items) r d h v = elim (Bool-cases (expired_at (r.cells p.1) now)) [
  | inl e ↦ rw e (
      expire_items-IsValid now items (expire_one r p.0 p.1) d.1
        (All-both (λ q other k. expire_one-IsLive r p q h.0 other k) items d.0 h.1)
        (expire_one-IsValid r p h.0 v))
  | inr e ↦ rw e (expire_items-IsValid now items r d.1 h.1 v)
]

pub Step-IsValid : (r : ContinuationRegistry) (e : Event) → IsValid r → IsValid (step r e).after
unfolding step
Step-IsValid r (register ref) v = register_record-IsValid r ref v
Step-IsValid r (claim token client now) v = claim_record-IsValid r token client now v
Step-IsValid r (release ref) v = release_unclaimed-IsValid r ref v
Step-IsValid r (close token s cancel) v = close_record-IsValid r token s cancel v
Step-IsValid r (expire_due now) v =
    unfold expire_due_records in expire_items-IsValid now r.records r v.distinct v.live v

run_from-IsValid : (r : ContinuationRegistry) (es : List Event) → IsValid r → IsValid (run r es)
unfolding run
run_from-IsValid r [] v = v
run_from-IsValid r (e ∷ es) v = run_from-IsValid (step r e).after es (Step-IsValid r e v)

-- After any run of calls on a new registry there are no more records than its bound and no more tombstones than
-- theirs, no token stands twice, and the record under a token is that token's and waiting or resuming.
pub run-IsValid :
    (max : ℕ) (cells : ℕ → PendingContinuation) (r : ContinuationRegistry) (es : List Event)
    → new_registry max cells ≡ some r
    → IsValid (run r es)
unfolding new_registry
run-IsValid max cells r es h = run_from-IsValid r es (elim (Bool-cases (ltb max 1)) [
  | inl e ↦ cc (e, h)
  | inr e ↦
      subst IsValid (some-injective (rw e at h))
        (record { bounded = omega arith; distinct = tt; live = tt; remembered = omega arith })
])
