-- ===== src/Continuation/Lasting.antt =====
-- How long the registry (gateway_continuation.py) remembers that a continuation has ended: the tombstone under its
-- token outlasts every run of calls that ends fewer records than the ring holds.
use scarcity_router.Continuation.{
  Outcome, ContinuationRegistry, Event, ContinuationState, expired, is_waiting, rejected, register,
  Reply, resuming, already_resolved, invalid, claim, release, close, expire_due, waiting, refused,
}
use scarcity_router.Types.SafeId.{is_safe_id}
use scarcity_router.Common.{
  ℕ, suc, ◌+◌, ◌<◌, String, inl, inr, List, [], ◌∷◌, ◌++◌, arith, Bool-cases, length, option_eq,
  list_eq, pair_eq, string_eq, nat_eq, nat_order, string_order, pair_order, list_order, lookup,
  lookup_other, lookup-none, ◌≢◌, All-snoc, ◌&&◌, leb, is_some, length-map,
}
use scarcity_router.Continuation.Cases.{claim_record-cases, close_record-cases}
use scarcity_router.Continuation.Once.{outcomes}
use scarcity_router.Continuation.Registry.{
  max_terminal_tombstones, run, with_state, expire_items, expired_at, step, unchanged,
  register_record, claim_own, release_unclaimed, expire_due_records, is_text,
}
use scarcity_router.Continuation.Ended.{
  AreOther, HasEnded, HasEnded-of_le, IsOther, bury-HasEnded, drop-HasEnded, endings, endings_in,
  expire_items-HasEnded, with_state-HasEnded,
}

-- What a reply must have for the end to be remembered after it.
abbrev Lasts : ℕ → String → String → Reply → Type 0
Lasts k token client y =
    k + endings_in y.outcome < max_terminal_tombstones
    → HasEnded (k + endings_in y.outcome) token client y.after

unchanged-Lasts :
    (k : ℕ) (token client : String) (r : ContinuationRegistry) (o : Outcome)
    → HasEnded k token client r
    → Lasts k token client (unchanged r o)
unchanged-Lasts k token client r o e h =
    HasEnded-of_le k (k + endings_in o) token client r (omega arith) e

one_more :
    (k : ℕ) (token client : String) (r : ContinuationRegistry)
    → HasEnded (suc k) token client r
    → HasEnded (k + 1) token client r
one_more k token client r e = HasEnded-of_le (suc k) (k + 1) token client r (omega arith) e

added-HasEnded :
    (k : ℕ) (token client : String) (p : String × ℕ) (r : ContinuationRegistry)
    → p.0 ≢ token
    → HasEnded k token client r
    → HasEnded k token client (record r { records = r.records ++ p ∷ [] })
added-HasEnded k token client p r n e = record {
  absent =
      lookup_other token (r.records ++ p ∷ [])
        (All-snoc _ r.records p (lookup-none token r.records e.absent) n);
  recent = e.recent;
}

register_record-Lasts :
    (k : ℕ) (token client : String) (ref : ℕ) (r : ContinuationRegistry)
    → (r.cells ref).continuation_token ≢ token
    → HasEnded k token client r
    → Lasts k token client (register_record r ref)
unfolding register_record
register_record-Lasts k token client ref r n e =
    let c = r.cells ref in
    elim (Bool-cases (is_safe_id c.client_id && is_text c.model_echo && is_waiting c.state)) [
      | inl a ↦ elim (Bool-cases (leb r.max_pending (length r.records))) [
        | inl b ↦ rw (a, b) (unchanged-Lasts k token client r refused e)
        | inr b ↦ elim (Bool-cases (is_some (lookup c.continuation_token r.records))) [
          | inl d ↦ rw (a, b, d) (unchanged-Lasts k token client r refused e)
          | inr d ↦
              rw (a, b, d)
                (λ h.
                  HasEnded-of_le k (k + 0) token client _ (omega arith)
                    (added-HasEnded k token client (c.continuation_token, ref) r n e))
        ]
      ]
      | inr a ↦ rw a (unchanged-Lasts k token client r invalid e)
    ]

claim_own-Lasts :
    (k : ℕ) (token client other owner : String) (now ref : ℕ) (r : ContinuationRegistry)
    → HasEnded k token client r
    → Lasts k token client (claim_own r other owner now ref)
claim_own-Lasts k token client other owner now ref r e =
    elim (Bool-cases (is_waiting (r.cells ref).state)) [
      | inl w ↦ elim (Bool-cases (expired_at (r.cells ref) now)) [
        | inl d ↦
            rw (w, d)
              (λ h. one_more k token client _ (
                bury-HasEnded k token client (other, owner) _ (omega arith)
                  (drop-HasEnded k token client other _
                    (with_state-HasEnded k token client ref expired r e))))
        | inr d ↦
            rw (w, d)
              (λ h.
                HasEnded-of_le k (k + 0) token client _ (omega arith)
                  (with_state-HasEnded k token client ref resuming r e))
      ]
      | inr w ↦ rw w (unchanged-Lasts k token client r (rejected already_resolved) e)
    ]

release_unclaimed-HasEnded :
    (k : ℕ) (token client : String) (ref : ℕ) (r : ContinuationRegistry)
    → HasEnded k token client r
    → HasEnded k token client (release_unclaimed r ref).after
unfolding release_unclaimed
release_unclaimed-HasEnded k token client ref r e = by_state (r.cells ref).state
  where
    by_state :
        (s : ContinuationState)
        → HasEnded k token client
            (elim s [ ContinuationState.resuming ↦ with_state r ref waiting | _ ↦ r ])
    by_state ContinuationState.resuming = with_state-HasEnded k token client ref waiting r e
    by_state ContinuationState.waiting = e
    by_state ContinuationState.completed = e
    by_state ContinuationState.cancelled = e
    by_state ContinuationState.expired = e
    by_state ContinuationState.lost = e

-- A call that registers no record under the token leaves the end remembered, but for the tombstones it adds.
step-Lasts :
    (k : ℕ) (token client : String) (r : ContinuationRegistry) (e : Event)
    → IsOther token r e
    → HasEnded k token client r
    → Lasts k token client (step r e)
unfolding step
step-Lasts k token client r (register ref) n e = register_record-Lasts k token client ref r n e
step-Lasts k token client r (claim other owner now) n e =
    claim_record-cases (Lasts k token client) r other owner now
      (λ why. unchanged-Lasts k token client r (rejected why) e)
      (λ ref found own. claim_own-Lasts k token client other owner now ref r e)
step-Lasts k token client r (release ref) n e = λ h.
    HasEnded-of_le k (k + 0) token client _ (omega arith)
      (release_unclaimed-HasEnded k token client ref r e)
step-Lasts k token client r (close other s cancel) n e =
    close_record-cases (Lasts k token client) r other s cancel
      (unchanged-Lasts k token client r invalid e)
      (λ absent h. one_more k token client _ (
        bury-HasEnded k token client (other, "") _ (omega arith)
          (drop-HasEnded k token client other r e)))
      (λ ref found t h. one_more k token client _ (
        with_state-HasEnded (suc k) token client ref s _ (
          bury-HasEnded k token client (other, (r.cells ref).client_id) _ (omega arith)
            (drop-HasEnded k token client other r e))))
step-Lasts k token client r (expire_due now) n e =
    unfold expire_due_records in
    rw (length-map _ (expire_items now r.records r).1)
      (λ h. expire_items-HasEnded now r.records k token client r h e)

pub run-HasEnded :
    (es : List Event) (k : ℕ) (token client : String) (r : ContinuationRegistry)
    → AreOther token r es
    → k + endings (outcomes r es) < max_terminal_tombstones
    → HasEnded k token client r
    → HasEnded (k + endings (outcomes r es)) token client (run r es)
unfolding run outcomes AreOther
run-HasEnded [] k token client r n h e = HasEnded-of_le k (k + 0) token client r (omega arith) e
run-HasEnded (c ∷ es) k token client r n h e =
    let first : ℕ = endings_in (step r c).outcome in
    let later : ℕ = endings (outcomes (step r c).after es) in
    let next = step-Lasts k token client r c n.0 e (omega arith) in
    let rest = run-HasEnded es (k + first) token client (step r c).after n.1 (omega arith) next in
    HasEnded-of_le (k + first + later) (k + (first + later)) token client _ (omega arith) rest
