-- ===== src/Continuation/Once.antt =====
-- Exactly-once delivery (gateway_continuation.py): what a call does to the state of one record, counted over runs.
use native.Mathlib.Nat.{le_trans}
use scarcity_router.Common.{
  ℕ, ◌+◌, ◌≤◌, String, ◌≡◌, refl, inl, inr, Bool, true, false, not, ◌&&◌, List, [], ◌∷◌, arith, eqb,
  if◌then◌else◌, Bool-cases, option_eq, list_eq, pair_eq, string_eq, nat_eq, nat_order,
  string_order, pair_order, list_order, subst, sym, eqb_iff, ◌++◌,
}
use scarcity_router.Continuation.{
  ContinuationState, ContinuationRegistry, Event, Outcome, is_waiting, is_terminal, waiting,
  expired, register, claim, release, close, expire_due, resumed, PendingContinuation, resuming,
}
use scarcity_router.Continuation.Cases.{claim_record-cases, close_record-cases, closes_record}
use scarcity_router.Continuation.Registry.{
  with_state, drop_record, bury, expired_at, register_record, claim_own, release_unclaimed,
  expire_one, expire_items, expire_due_records, step, run,
}

abbrev pub state_of : ContinuationRegistry → ℕ → ContinuationState
state_of r ref = (r.cells ref).state

abbrev pub one_if : Bool → ℕ
one_if true = 1
one_if false = 0

abbrev pub count_ref : ℕ → List ℕ → ℕ
count_ref ref [] = 0
count_ref ref (n ∷ ns) = one_if (eqb ref n) + count_ref ref ns

-- How often a call hands the record to a delivery, and takes it back unused.
abbrev pub claims_in : ℕ → Outcome → ℕ
claims_in ref (resumed n) = one_if (eqb ref n)
claims_in ref _ = 0

-- A release takes a record back only from a delivery that holds it.
abbrev pub is_resuming : ContinuationState → Bool
is_resuming ContinuationState.resuming = true
is_resuming _ = false

abbrev pub releases_in : ContinuationRegistry → ℕ → Event → ℕ
releases_in r ref (release n) = one_if (eqb ref n && is_resuming (r.cells n).state)
releases_in r ref _ = 0

abbrev pub busy : ContinuationState → ℕ
busy s = one_if (not (is_waiting s))

abbrev pub gone : ContinuationState → ℕ
gone s = one_if (is_terminal s)

state_if :
    (b : Bool) (c d : PendingContinuation)
    → (if b then c else d).state ≡ (if b then c.state else d.state)
state_if true c d = refl
state_if false c d = refl

pub with_state-state_of :
    (r : ContinuationRegistry) (n : ℕ) (s : ContinuationState) (ref : ℕ)
    → state_of (with_state r n s) ref ≡ (if eqb ref n then s else state_of r ref)
unfolding with_state
with_state-state_of r n s ref =
    state_if (eqb ref n) (record (r.cells n) { state = s }) (r.cells ref)

-- What a call leaves of the records that it ends.
drop_record-state_of :
    (r : ContinuationRegistry) (token : String) (n : ℕ) (s : ContinuationState) (ref : ℕ)
    → state_of (with_state (drop_record r token) n s) ref
      ≡ (if eqb ref n then s else state_of r ref)
unfolding drop_record
drop_record-state_of r token n s ref = with_state-state_of (drop_record r token) n s ref

pub expire_one-state_of :
    (r : ContinuationRegistry) (token : String) (n ref : ℕ)
    → state_of (expire_one r token n) ref ≡ (if eqb ref n then expired else state_of r ref)
unfolding expire_one bury
expire_one-state_of r token n ref = elim (Bool-cases (is_waiting (r.cells n).state)) [
  | inl w ↦ rw w (drop_record-state_of r token n expired ref)
  | inr w ↦ rw w (drop_record-state_of r token n expired ref)
]

busy-grows :
    (b : Bool) (s t : ContinuationState) → is_waiting s ≡ false → busy t ≤ busy (if b then s else t)
busy-grows b s t h = ground arith

expire_items-busy :
    (now : ℕ) (items : List (String × ℕ)) (r : ContinuationRegistry) (ref : ℕ)
    → busy (state_of r ref) ≤ busy (state_of (expire_items now items r).0 ref)
unfolding expire_items
expire_items-busy now [] r ref = omega arith
expire_items-busy now (p ∷ items) r ref = elim (Bool-cases (expired_at (r.cells p.1) now)) [
  | inl e ↦
      let rest = expire_items-busy now items (expire_one r p.0 p.1) ref in
      let first = busy-grows (eqb ref p.1) expired (state_of r ref) refl in
      rw e (le_trans (rw (expire_one-state_of r p.0 p.1 ref) first) rest)
  | inr e ↦ rw e (expire_items-busy now items r ref)
]

claim_own-busy :
    (r : ContinuationRegistry) (token client : String) (now n ref : ℕ)
    → claims_in ref (claim_own r token client now n).outcome + busy (state_of r ref)
      ≤ busy (state_of (claim_own r token client now n).after ref)
unfolding drop_record bury
claim_own-busy r token client now n ref = elim (Bool-cases (is_waiting (r.cells n).state)) [
  | inl w ↦ elim (Bool-cases (expired_at (r.cells n) now)) [
    | inl d ↦
        rw (w, d, with_state-state_of r n expired ref)
          (add_zero (busy-grows (eqb ref n) expired (state_of r ref) refl))
    | inr d ↦
        rw (w, d, with_state-state_of r n resuming ref) (taken (eqb ref n) (eqb_iff ref n).0 w)
  ]
  | inr w ↦ rw w (omega arith)
]
  where
    add_zero : {a b : ℕ} → a ≤ b → 0 + a ≤ b
    add_zero h = omega arith

    taken :
        (b : Bool)
        → (b ≡ true → ref ≡ n)
        → is_waiting (r.cells n).state ≡ true
        → one_if b + busy (state_of r ref) ≤ busy (if b then resuming else state_of r ref)
    taken true same w =
        let w' : is_waiting (state_of r ref) ≡ true =
          subst (λ m. is_waiting (r.cells m).state ≡ true) (sym (same refl)) w in
        rw w' (omega arith)
    taken false same w = omega arith

pub closes_record-state_of :
    (r : ContinuationRegistry) (token : String) (s : ContinuationState) (cancel : Bool) (n ref : ℕ)
    → state_of (closes_record r token s cancel n).after ref
      ≡ (if eqb ref n then s else state_of r ref)
unfolding drop_record bury
closes_record-state_of r token s cancel n ref =
    with_state-state_of (bury (drop_record r token) (token, (r.cells n).client_id)) n s ref

terminal-busy : (s : ContinuationState) → is_terminal s ≡ true → is_waiting s ≡ false
terminal-busy s h = ground arith

-- A record is handed over only while it waits, and only a release makes it wait again.
step-busy :
    (r : ContinuationRegistry) (e : Event) (ref : ℕ)
    → claims_in ref (step r e).outcome + busy (state_of r ref)
      ≤ releases_in r ref e + busy (state_of (step r e).after ref)
unfolding step
step-busy r (register n) ref = unfold register_record in ground arith
step-busy r (claim token client now) ref =
    claim_record-cases
      (λ y. claims_in ref y.outcome + busy (state_of r ref) ≤ 0 + busy (state_of y.after ref)) r
      token client now (λ why. omega arith)
      (λ n found own. omega (arith, claim_own-busy r token client now n ref))
step-busy r (release n) ref =
    unfold release_unclaimed in ground (arith, with_state-state_of r n waiting ref)
step-busy r (close token s cancel) ref =
    close_record-cases
      (λ y. claims_in ref y.outcome + busy (state_of r ref) ≤ 0 + busy (state_of y.after ref)) r
      token s cancel (omega arith) (λ absent. unfold drop_record bury in omega arith)
      (λ n found t.
        rw (closes_record-state_of r token s cancel n ref)
          (omega (arith, busy-grows (eqb ref n) s (state_of r ref) (terminal-busy s t))))
step-busy r (expire_due now) ref =
    unfold expire_due_records in omega (arith, expire_items-busy now r.records r ref)

-- The outcomes and the callbacks of a run of calls.
unfoldable pub outcomes : ContinuationRegistry → List Event → List Outcome
unfolding step
outcomes r [] = []
outcomes r (e ∷ es) = (step r e).outcome ∷ outcomes (step r e).after es

unfoldable pub all_called : ContinuationRegistry → List Event → List ℕ
unfolding step
all_called r [] = []
all_called r (e ∷ es) = (step r e).called ++ all_called (step r e).after es

abbrev pub claims : ℕ → List Outcome → ℕ
claims ref [] = 0
claims ref (o ∷ os) = claims_in ref o + claims ref os

unfoldable pub releases : ContinuationRegistry → ℕ → List Event → ℕ
unfolding step
releases r ref [] = 0
releases r ref (e ∷ es) = releases_in r ref e + releases (step r e).after ref es

run-busy :
    (r : ContinuationRegistry) (es : List Event) (ref : ℕ)
    → claims ref (outcomes r es) + busy (state_of r ref)
      ≤ releases r ref es + busy (state_of (run r es) ref)
unfolding outcomes run releases
run-busy r [] ref = omega arith
run-busy r (e ∷ es) ref = omega (arith, step-busy r e ref, run-busy (step r e).after es ref)

busy-le_one : (s : ContinuationState) → busy s ≤ 1
busy-le_one s = ground arith

-- In any run of calls, interleaved in any way, a record is handed to a delivery at most once more than a release
-- finds it held and takes it back, and not even once more where it does not wait at the start: without such a
-- release, at most one claim of it succeeds, and other releases do not count.
pub claims-releases :
    (r : ContinuationRegistry) (es : List Event) (ref : ℕ)
    → claims ref (outcomes r es) + busy (state_of r ref) ≤ releases r ref es + 1
claims-releases r es ref = omega (arith, run-busy r es ref, busy-le_one (state_of (run r es) ref))
