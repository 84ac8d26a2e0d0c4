-- ===== src/Continuation/Replay.antt =====
-- What a replayed tool result is told after the end of its continuation, and what the reaper removes
-- (gateway_continuation.py).
use scarcity_router.Continuation.Lasting.{run-HasEnded}
use scarcity_router.Continuation.Ended.{endings, AreOther, HasEnded}
use scarcity_router.Continuation.Ring.{append_tombstone-IsRecent_own, contains-of_IsRecent}
use scarcity_router.Continuation.Once.{outcomes}
use scarcity_router.Continuation.Cases.{closes_record}
use scarcity_router.Common.{
  ℕ, String, ◌≡◌, refl, ap, Bool, true, false, none, some, List, if◌then◌else◌, option_eq, list_eq,
  pair_eq, string_eq, nat_eq, nat_order, string_order, pair_order, list_order, ◌∙◌, lookup,
  lookup-without_self, subst, sym, ◌<◌, arith,
}
use scarcity_router.Continuation.{
  ContinuationState, RejectionReason, ContinuationRegistry, is_terminal, not_found,
  already_resolved, rejected, Outcome, Reply, Event,
}
use scarcity_router.Continuation.Registry.{
  max_terminal_tombstones, was_terminal_for, claim_record, close_record, with_state, bury,
  drop_record, run,
}

-- What `claim` must answer for a token that has no record.
abbrev pub absent_reason : ContinuationRegistry → String → String → RejectionReason
absent_reason r token client =
    if was_terminal_for r token client then already_resolved else not_found

pub claim_absent :
    (r : ContinuationRegistry) (token client : String) (now : ℕ)
    → lookup token r.records ≡ none
    → (claim_record r token client now).outcome ≡ rejected (absent_reason r token client)
unfolding claim_record
claim_absent r token client now e = rw (e, claim_record) refl

-- With no record under the token, a tombstone tells its client alone that the result was resolved.
buried_claim :
    (r : ContinuationRegistry) (token owner client : String) (now : ℕ)
    → lookup token r.records ≡ none
    → was_terminal_for r token owner ≡ true
    → ((claim_record r token owner now).outcome ≡ rejected already_resolved)
      × (was_terminal_for r token client ≡ false
          → (claim_record r token client now).outcome ≡ rejected not_found)
buried_claim r token owner client now absent buried = (
  claim_absent r token owner now absent ∙ ap reason buried,
  λ foreign. claim_absent r token client now absent ∙ ap reason foreign,
)
  where
    reason : Bool → Outcome
    reason b = rejected (if b then already_resolved else not_found)

close_found :
    (r : ContinuationRegistry) (token : String) (s : ContinuationState) (cancel : Bool) (ref : ℕ)
    → is_terminal s ≡ true
    → lookup token r.records ≡ some ref
    → close_record r token s cancel ≡ closes_record r token s cancel ref
unfolding close_record
close_found r token s cancel ref t found = rw (t, found) refl

close_found-HasEnded :
    (r : ContinuationRegistry) (token : String) (s : ContinuationState) (cancel : Bool) (ref : ℕ)
    → is_terminal s ≡ true
    → lookup token r.records ≡ some ref
    → HasEnded 0 token (r.cells ref).client_id (close_record r token s cancel).after
close_found-HasEnded r token s cancel ref t found =
    subst (λ (y : Reply). HasEnded 0 token (r.cells ref).client_id y.after)
      (sym (close_found r token s cancel ref t found))
      (unfold with_state bury drop_record in
        record {
          absent = lookup-without_self token r.records;
          recent = append_tombstone-IsRecent_own (token, (r.cells ref).client_id) r.tombstones;
        })

-- A continuation that is closed stays closed over every later run of calls, if no call of it offers a record under
-- the same token for registration, and if its completed closes, found or not, the claims that it refuses for their
-- deadline and the records that it reaps are together fewer than the 256 tombstones kept: a claim of its client
-- after the run is told that the result was already resolved, and a claim of any other client, who has no tombstone
-- under the token by then, that nothing was found.
pub close_record-replay :
    (r : ContinuationRegistry) (token : String) (s : ContinuationState) (cancel : Bool)
    (ref now : ℕ) (client : String) (es : List Event)
    → is_terminal s ≡ true
    → lookup token r.records ≡ some ref
    → AreOther token (close_record r token s cancel).after es
    → endings (outcomes (close_record r token s cancel).after es) < max_terminal_tombstones
    → let later = run (close_record r token s cancel).after es in
      ((claim_record later token (r.cells ref).client_id now).outcome ≡ rejected already_resolved)
      × (was_terminal_for later token client ≡ false
          → (claim_record later token client now).outcome ≡ rejected not_found)
close_record-replay r token s cancel ref now client es t found other few =
    let ended = (close_record r token s cancel).after in
    let kept =
      run-HasEnded es 0 token (r.cells ref).client_id ended other (omega arith)
        (close_found-HasEnded r token s cancel ref t found) in
    buried_claim (run ended es) token (r.cells ref).client_id client now kept.absent (
      unfold was_terminal_for in
      contains-of_IsRecent _ (token, (r.cells ref).client_id) _ kept.recent)
