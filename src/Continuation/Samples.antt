-- ===== src/Continuation/Samples.antt =====
-- The theorems on the registry of continuations, applied to sample records.
use scarcity_router.Continuation.Ended.{AreOther, endings}
use scarcity_router.Common.{
  ℕ, zero, suc, ◌+◌, ◌≤◌, String, ◌≡◌, refl, true, false, none, some, List, [], ◌∷◌, arith,
  option_eq, list_eq, pair_eq, string_eq, nat_eq, nat_order, string_order, pair_order, list_order,
  lookup,
}
use scarcity_router.Continuation.{
  PendingContinuation, ContinuationRegistry, Event, is_terminal, waiting, completed, not_found,
  already_resolved, register, claim, release, close, expire_due, rejected,
}
use scarcity_router.Continuation.Registry.{
  was_terminal_for, claim_record, close_record, expire_due_records, new_registry, run,
}
use scarcity_router.Continuation.Invariant.{IsValid}
use scarcity_router.Continuation.Kept.{run-IsValid}
use scarcity_router.Continuation.Once.{
  state_of, count_ref, outcomes, all_called, claims, releases, busy, claims-releases,
}
use scarcity_router.Continuation.Callbacks.{all_called-once}
use scarcity_router.Continuation.Replay.{close_record-replay}
use scarcity_router.Continuation.Reaper.{unexpired, expire_due_records-lookup}
use scarcity_router.Continuation.Forgotten.{reaped_waiting-replay}

abbrev continuation : String → ℕ → PendingContinuation
continuation token deadline = record {
  continuation_token = token;
  attempt_id = "a1";
  resource_id = "codex";
  channel = "worker";
  call_id = "c1";
  deadline = deadline;
  created_at = "2026-01-05T10:00:00.000Z";
  client_id = "harness";
  model_echo = "sol";
  reasoning_effort = none;
  tools_fingerprint = none;
  tool_choice_json = none;
  prefix_fingerprint = "0f";
  assistant_tool_calls_digest = "1e";
  has_callback = true;
  state = waiting;
}

-- Two suspended turns, the first with the earlier deadline.
abbrev objects : ℕ → PendingContinuation
objects zero = continuation "srct-1" 100
objects (suc n) = continuation "srct-2" 200

abbrev empty_registry : ContinuationRegistry
empty_registry = record { max_pending = 2; cells = objects; records = []; tombstones = [] }

abbrev both : ContinuationRegistry
both = record empty_registry { records = ("srct-1", 0) ∷ ("srct-2", 1) ∷ [] }

abbrev calls : List Event
calls =
    register 0
    ∷ register 1
    ∷ claim "srct-1" "harness" 50
    ∷ release 0
    ∷ claim "srct-1" "harness" 60
    ∷ claim "srct-1" "harness" 61
    ∷ expire_due 150
    ∷ close "srct-2" completed true
    ∷ []

new_registry_two : new_registry 2 objects ≡ some empty_registry
unfolding new_registry
new_registry_two = refl

run-IsValid_example : IsValid (run empty_registry calls)
run-IsValid_example = run-IsValid 2 objects empty_registry calls new_registry_two

both_registered : run empty_registry (register 0 ∷ register 1 ∷ []) ≡ both
unfolding run
both_registered = refl

both-IsValid : IsValid both
both-IsValid = record {
  bounded = omega arith;
  distinct = ((λ e. cc ((string_eq.test_iff "srct-1" "srct-2").1 e), tt), (tt, tt));
  live = (
    record { own_token = refl; unfinished = refl },
    (record { own_token = refl; unfinished = refl }, tt),
  );
  remembered = omega arith;
}

claims-releases_example :
    claims 0 (outcomes both calls) + busy (state_of both 0) ≤ releases both 0 calls + 1
claims-releases_example = claims-releases both calls 0

claimed_twice : claims 0 (outcomes both calls) ≡ 2
unfolding outcomes
claimed_twice = refl

given_back_once : releases both 0 calls ≡ 1
unfolding releases
given_back_once = refl

all_called-once_example :
    (count_ref 1 (all_called both calls) ≤ 1)
    × (is_terminal (state_of both 1) ≡ true → count_ref 1 (all_called both calls) ≡ 0)
all_called-once_example = all_called-once both calls 1 both-IsValid

abbrev one_closed : ContinuationRegistry
one_closed = (close_record both "srct-1" completed false).after

-- The other continuation is claimed, given back, reaped and offered again.
abbrev later_calls : List Event
later_calls =
    claim "srct-2" "harness" 60
    ∷ release 1
    ∷ release 0
    ∷ expire_due 250
    ∷ register 1
    ∷ close "srct-1" completed true
    ∷ []

others_alone : AreOther "srct-1" one_closed later_calls
unfolding AreOther
others_alone =
    (tt, (tt, (tt, (tt, ((λ e. cc ((string_eq.test_iff "srct-2" "srct-1").1 e)), (tt, tt))))))

two_ends : endings (outcomes one_closed later_calls) ≡ 2
unfolding outcomes
two_ends = refl

close_record-replay_example :
    let later = run one_closed later_calls in
    ((claim_record later "srct-1" "harness" 260).outcome ≡ rejected already_resolved)
    × (was_terminal_for later "srct-1" "other" ≡ false
        → (claim_record later "srct-1" "other" 260).outcome ≡ rejected not_found)
close_record-replay_example =
    close_record-replay both "srct-1" completed false 0 260 "other" later_calls refl
      (unfold lookup in refl) others_alone (rw two_ends (omega arith))

expire_due_records-lookup_example :
    lookup "srct-1" (expire_due_records both 150).after.records
    ≡ unexpired both 150 (lookup "srct-1" both.records)
expire_due_records-lookup_example = expire_due_records-lookup both 150 "srct-1" both-IsValid

reaped_waiting-replay_example :
    (claim_record (expire_due_records both 150).after "srct-1" "harness" 160).outcome
    ≡ rejected not_found
unfolding lookup was_terminal_for
reaped_waiting-replay_example =
    reaped_waiting-replay both 150 160 0 "srct-1" "harness" both-IsValid refl refl refl refl
