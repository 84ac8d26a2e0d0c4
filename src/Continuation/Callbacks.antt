-- ===== src/Continuation/Callbacks.antt =====
-- Cancellation (gateway_continuation.py): the callback of a record stops its backend turn, and is called when the
-- record ends.
use scarcity_router.Common.{
  ℕ, ◌+◌, ◌≤◌, String, ◌≡◌, refl, sym, ap, subst, inl, inr, Bool, true, false, List, [], ◌∷◌, ◌++◌,
  arith, eqb, if◌then◌else◌, eqb_iff, Bool-cases, filter, All, All-both, HasDistinctKeys, option_eq,
  list_eq, pair_eq, string_eq, nat_eq, nat_order, string_order, pair_order, list_order,
}
use scarcity_router.Continuation.{
  ContinuationState, ContinuationRegistry, Event, is_terminal, waiting, expired, register, claim,
  release, close, expire_due, resuming, is_waiting,
}
use scarcity_router.Continuation.Registry.{
  drop_record, bury, expired_at, callbacks, register_record, claim_own, release_unclaimed,
  expire_one, expire_items, expire_due_records, step, run,
}
use scarcity_router.Continuation.Invariant.{IsLive, IsValid, IsLive-of_lookup}
use scarcity_router.Continuation.Kept.{expire_one-IsLive, Step-IsValid}
use scarcity_router.Continuation.Cases.{claim_record-cases, close_record-cases}
use scarcity_router.Continuation.Once.{
  state_of, one_if, count_ref, gone, with_state-state_of, expire_one-state_of, all_called,
  closes_record-state_of,
}

-- A record that has not ended ends once.
ended-gone :
    (r : ContinuationRegistry) (n ref : ℕ) (s : ContinuationState) (b : Bool)
    → (b ≡ true → ref ≡ n)
    → is_terminal (state_of r n) ≡ false
    → is_terminal s ≡ true
    → one_if b + gone (state_of r ref) ≤ gone (if b then s else state_of r ref)
ended-gone r n ref s true same k t =
    let k' : is_terminal (state_of r ref) ≡ false =
      subst (λ m. is_terminal (state_of r m) ≡ false) (sym (same refl)) k in
    rw (k', t) (omega arith)
ended-gone r n ref s false same k t = omega arith

callbacks-le :
    (r : ContinuationRegistry) (n ref : ℕ) → count_ref ref (callbacks r n) ≤ one_if (eqb ref n)
callbacks-le r n ref = elim (Bool-cases (r.cells n).has_callback) [
  | inl e ↦ rw e (omega arith)
  | inr e ↦ rw e (omega arith)
]

count_ref-filter :
    (p : ℕ → Bool) (ref : ℕ) (ns : List ℕ) → count_ref ref (filter p ns) ≤ count_ref ref ns
count_ref-filter p ref [] = omega arith
count_ref-filter p ref (n ∷ ns) = elim (Bool-cases (p n)) [
  | inl e ↦ rw e (omega (arith, count_ref-filter p ref ns))
  | inr e ↦ rw e (omega (arith, count_ref-filter p ref ns))
]

count_ref-append :
    (ref : ℕ) (ms ns : List ℕ) → count_ref ref (ms ++ ns) ≡ count_ref ref ms + count_ref ref ns
count_ref-append ref [] ns = omega arith
count_ref-append ref (m ∷ ms) ns = omega (arith, count_ref-append ref ms ns)

expire_items-gone :
    (now : ℕ) (items : List (String × ℕ)) (r : ContinuationRegistry) (ref : ℕ)
    → HasDistinctKeys (λ (p : String × ℕ). p.0) items
    → All (IsLive r) items
    → count_ref ref (expire_items now items r).1 + gone (state_of r ref)
      ≤ gone (state_of (expire_items now items r).0 ref)
unfolding expire_items
expire_items-gone now [] r ref d h = omega arith
expire_items-gone now (p ∷ items) r ref d h = elim (Bool-cases (expired_at (r.cells p.1) now)) [
  | inl e ↦
      let rest =
        expire_items-gone now items (expire_one r p.0 p.1) ref d.1
          (All-both (λ q other k. expire_one-IsLive r p q h.0 other k) items d.0 h.1) in
      let first =
        ended-gone r p.1 ref expired (eqb ref p.1) (eqb_iff ref p.1).0 h.0.unfinished refl in
      rw e (omega (arith, first, rest, ap gone (expire_one-state_of r p.0 p.1 ref)))
  | inr e ↦ rw e (expire_items-gone now items r ref d.1 h.1)
]

claim_own-gone :
    (r : ContinuationRegistry) (token client : String) (now n ref : ℕ)
    → is_terminal (state_of r n) ≡ false
    → count_ref ref (claim_own r token client now n).called + gone (state_of r ref)
      ≤ gone (state_of (claim_own r token client now n).after ref)
unfolding drop_record bury
claim_own-gone r token client now n ref k = elim (Bool-cases (is_waiting (r.cells n).state)) [
  | inl w ↦ elim (Bool-cases (expired_at (r.cells n) now)) [
    | inl d ↦
        let one = ended-gone r n ref expired (eqb ref n) (eqb_iff ref n).0 k refl in
        rw (w, d, with_state-state_of r n expired ref) (omega (arith, one, callbacks-le r n ref))
    | inr d ↦
        rw (w, d, with_state-state_of r n resuming ref)
          (unended (eqb ref n) (state_of r ref)
            (λ e. subst (λ m. is_terminal (state_of r m) ≡ false) (sym ((eqb_iff ref n).0 e)) k))
  ]
  | inr w ↦ rw w (omega arith)
]
  where
    unended :
        (b : Bool) (s : ContinuationState)
        → (b ≡ true → is_terminal s ≡ false)
        → 0 + gone s ≤ gone (if b then resuming else s)
    unended true s h = rw (h refl) (omega arith)
    unended false s h = omega arith

-- A callback is called of a record that ends in the same call.
step-gone :
    (r : ContinuationRegistry) (e : Event) (ref : ℕ)
    → IsValid r
    → count_ref ref (step r e).called + gone (state_of r ref) ≤ gone (state_of (step r e).after ref)
unfolding step
step-gone r (register n) ref v = unfold register_record in ground arith
step-gone r (claim token client now) ref v =
    claim_record-cases
      (λ y. count_ref ref y.called + gone (state_of r ref) ≤ gone (state_of y.after ref)) r token
      client now (λ why. omega arith)
      (λ n found own.
        claim_own-gone r token client now n ref (IsLive-of_lookup r token v found).unfinished)
step-gone r (release n) ref v =
    unfold release_unclaimed in ground (arith, with_state-state_of r n waiting ref)
step-gone r (close token s cancel) ref v =
    close_record-cases
      (λ y. count_ref ref y.called + gone (state_of r ref) ≤ gone (state_of y.after ref)) r token s
      cancel (omega arith) (λ absent. unfold drop_record bury in omega arith)
      (λ n found t.
        let one =
          ended-gone r n ref s (eqb ref n) (eqb_iff ref n).0
            (IsLive-of_lookup r token v found).unfinished t in
        rw (closes_record-state_of r token s cancel n ref)
          (omega (arith, one, callbacks-le r n ref, callbacks_if cancel n)))
  where
    callbacks_if :
        (b : Bool) (n : ℕ)
        → count_ref ref (if b then callbacks r n else []) ≤ count_ref ref (callbacks r n)
    callbacks_if true n = omega arith
    callbacks_if false n = omega arith
step-gone r (expire_due now) ref v =
    unfold expire_due_records in
    omega (
      arith,
      expire_items-gone now r.records r ref v.distinct v.live,
      count_ref-filter (λ n. ((expire_items now r.records r).0.cells n).has_callback) ref
          (expire_items now r.records r).1,
    )

run-gone :
    (r : ContinuationRegistry) (es : List Event) (ref : ℕ)
    → IsValid r
    → count_ref ref (all_called r es) + gone (state_of r ref) ≤ gone (state_of (run r es) ref)
unfolding all_called run
run-gone r [] ref v = omega arith
run-gone r (e ∷ es) ref v = omega (
  arith,
  step-gone r e ref v,
  run-gone (step r e).after es ref (Step-IsValid r e v),
  count_ref-append ref (step r e).called (all_called (step r e).after es),
)

gone-le_one : (s : ContinuationState) → gone s ≤ 1
gone-le_one s = ground arith

-- In any run of calls on a valid registry the cancel callback of a record is called at most once, and never of a
-- record that had ended before.
pub all_called-once :
    (r : ContinuationRegistry) (es : List Event) (ref : ℕ)
    → IsValid r
    → (count_ref ref (all_called r es) ≤ 1)
      × (is_terminal (state_of r ref) ≡ true → count_ref ref (all_called r es) ≡ 0)
all_called-once r es ref v =
    let h = run-gone r es ref v in
    let k = gone-le_one (state_of (run r es) ref) in (omega arith, λ t. omega (arith, ap one_if t))
