-- ===== src/Continuation/Cases.antt =====
-- The branches of the calls of the registry (gateway_continuation.py).
use scarcity_router.Common.{
  ℕ, String, ◌≡◌, inl, inr, Bool, true, none, some, [], if◌then◌else◌, Bool-cases, Option-cases,
  ◌==◌, option_eq, list_eq, pair_eq, string_eq, nat_eq, nat_order, string_order, pair_order,
  list_order, lookup,
}
use scarcity_router.Continuation.{
  ContinuationState, RejectionReason, ContinuationRegistry, Reply, is_terminal, not_found,
  already_resolved, invalid, closed,
}
use scarcity_router.Continuation.Registry.{
  with_state, drop_record, bury, unchanged, callbacks, was_terminal_for, rejects, claim_own,
  claim_record, close_record,
}

-- A claim is refused, or it is of a record of the client that stands under the token.
pub claim_record-cases {κ} :
    (P : Reply → Type κ) (r : ContinuationRegistry) (token client : String) (now : ℕ)
    → ((why : RejectionReason) → P (rejects r why))
    → ((ref : ℕ)
        → lookup token r.records ≡ some ref
        → (r.cells ref).client_id ≡ client
        → P (claim_own r token client now ref))
    → P (claim_record r token client now)
unfolding claim_record
claim_record-cases P r token client now denied own = elim (Option-cases (lookup token r.records)) [
  | inl e ↦
      rw (e, claim_record)
        (denied (if was_terminal_for r token client then already_resolved else not_found))
  | inr (ref, e) ↦ elim (Bool-cases ((r.cells ref).client_id == client)) [
    | inl f ↦
        rw (e, f, claim_record)
          (own ref e ((string_eq.test_iff (r.cells ref).client_id client).0 f))
    | inr f ↦ rw (e, f, claim_record) (denied not_found)
  ]
]

abbrev pub closes_absent : ContinuationRegistry → String → Reply
closes_absent r token = record {
  after = bury (drop_record r token) (token, "");
  outcome = closed;
  called = [];
}

abbrev pub closes_record : ContinuationRegistry → String → ContinuationState → Bool → ℕ → Reply
closes_record r token state cancel_backend ref = record {
  after = with_state (bury (drop_record r token) (token, (r.cells ref).client_id)) ref state;
  outcome = closed;
  called = if cancel_backend then callbacks r ref else [];
}

-- A close is refused, or finds nothing, or ends the record under the token.
pub close_record-cases {κ} :
    (P : Reply → Type κ) (r : ContinuationRegistry) (token : String) (s : ContinuationState)
    (cancel : Bool)
    → P (unchanged r invalid)
    → (lookup token r.records ≡ none → P (closes_absent r token))
    → ((ref : ℕ)
        → lookup token r.records ≡ some ref
        → is_terminal s ≡ true
        → P (closes_record r token s cancel ref))
    → P (close_record r token s cancel)
unfolding close_record
close_record-cases P r token s cancel denied absent ends = elim (Bool-cases (is_terminal s)) [
  | inl t ↦ elim (Option-cases (lookup token r.records)) [
    | inl e ↦ rw (t, e) (absent e)
    | inr (ref, e) ↦ rw (t, e) (ends ref e t)
  ]
  | inr t ↦ rw t denied
]
