-- ===== src/Continuation/Registry.antt =====
-- The operations of `PendingContinuation` and `ContinuationRegistry` (gateway_continuation.py). Each call holds the
-- lock for all its changes, so a run of calls is a sequence.
use scarcity_router.Common.{
  ℕ, String, Bool, not, ◌&&◌, Option, none, some, List, [], ◌∷◌, ◌++◌, map, ltb, leb, eqb,
  if◌then◌else◌, is_some, length, tail, filter, is_empty, ◌==◌, option_eq, contains, list_eq,
  pair_eq, string_eq, nat_eq, nat_order, string_order, pair_order, list_order, lookup, without,
}
use scarcity_router.Types.SafeId.{codes, is_safe_id}
use scarcity_router.Continuation.{
  ContinuationState, RejectionReason, PendingContinuation, ContinuationRegistry, Event, Outcome,
  Reply, is_waiting, is_terminal, waiting, resuming, expired, not_found, past_deadline,
  already_resolved, register, claim, release, close, expire_due, registered, refused, invalid,
  released, closed, resumed, rejected, expired_tokens,
}

-- `MAX_PENDING_CONTINUATIONS`
abbrev pub max_pending_continuations : ℕ
max_pending_continuations = 64

-- `MAX_TERMINAL_TOMBSTONES`
abbrev pub max_terminal_tombstones : ℕ
max_terminal_tombstones = 256

-- `deque(maxlen=MAX_TERMINAL_TOMBSTONES).append`
unfoldable pub append_tombstone : List (String × String) → String × String → List (String × String)
append_tombstone ring t =
    let longer = ring ++ t ∷ [] in
    if ltb max_terminal_tombstones (length longer) then tail longer else longer

unfoldable pub with_state : ContinuationRegistry → ℕ → ContinuationState → ContinuationRegistry
with_state r ref s = record r {
  cells = λ n. if eqb n ref then record (r.cells ref) { state = s } else r.cells n;
}

unfoldable pub drop_record : ContinuationRegistry → String → ContinuationRegistry
unfolding without
drop_record r token = record r { records = without token r.records }

unfoldable pub bury : ContinuationRegistry → String × String → ContinuationRegistry
unfolding append_tombstone
bury r t = record r { tombstones = append_tombstone r.tombstones t }

abbrev pub expired_at : PendingContinuation → ℕ → Bool
expired_at c now = leb c.deadline now

-- The reply of a call that changes nothing.
abbrev pub unchanged : ContinuationRegistry → Outcome → Reply
unchanged r o = record { after = r; outcome = o; called = [] }

-- The record, if it has a callback.
abbrev pub callbacks : ContinuationRegistry → ℕ → List ℕ
callbacks r ref = if (r.cells ref).has_callback then ref ∷ [] else []

-- `v_text(value, field, max_len=512)` of gateway_validation.py.
abbrev pub is_text : String → Bool
is_text s = not (is_empty (codes s)) && leb (length (codes s)) 512

-- `register`
unfoldable pub register_record : ContinuationRegistry → ℕ → Reply
unfolding lookup is_safe_id
register_record r ref =
    let c = r.cells ref in
    if not (is_safe_id c.client_id && is_text c.model_echo && is_waiting c.state)
    then unchanged r invalid
    else if leb r.max_pending (length r.records)
    then unchanged r refused
    else if is_some (lookup c.continuation_token r.records)
    then unchanged r refused
    else record {
      after = record r { records = r.records ++ (c.continuation_token, ref) ∷ [] };
      outcome = registered;
      called = [];
    }

-- `was_terminal_for`
unfoldable pub was_terminal_for : ContinuationRegistry → String → String → Bool
unfolding contains
was_terminal_for r token client = contains r.tombstones (token, client)

abbrev pub rejects : ContinuationRegistry → RejectionReason → Reply
rejects r why = unchanged r (rejected why)

-- `claim` of a record of the client: `claim_transition` and what follows it.
abbrev pub claim_own : ContinuationRegistry → String → String → ℕ → ℕ → Reply
claim_own r token client now ref =
    if not (is_waiting (r.cells ref).state)
    then rejects r already_resolved
    else if expired_at (r.cells ref) now
    then record {
      after = bury (drop_record (with_state r ref expired) token) (token, client);
      outcome = rejected past_deadline;
      called = callbacks r ref;
    }
    else record { after = with_state r ref resuming; outcome = resumed ref; called = [] }

-- `claim`
unfoldable pub claim_record : ContinuationRegistry → String → String → ℕ → Reply
unfolding lookup was_terminal_for with_state drop_record bury
claim_record r token client now = elim (lookup token r.records) [
  | none ↦ rejects r (if was_terminal_for r token client then already_resolved else not_found)
  | some ref ↦
      if (r.cells ref).client_id == client
      then claim_own r token client now ref
      else rejects r not_found
]

-- `release_unclaimed`
unfoldable pub release_unclaimed : ContinuationRegistry → ℕ → Reply
unfolding with_state
release_unclaimed r ref = record {
  after = elim (r.cells ref).state [
    | ContinuationState.resuming ↦ with_state r ref waiting
    | _ ↦ r
  ];
  outcome = released;
  called = [];
}

-- `close`; an exception of the callback is swallowed.
unfoldable pub close_record : ContinuationRegistry → String → ContinuationState → Bool → Reply
unfolding lookup with_state drop_record bury
close_record r token state cancel_backend =
    if not (is_terminal state) then unchanged r invalid else elim (lookup token r.records) [
      | none ↦ record {
        after = bury (drop_record r token) (token, "");
        outcome = closed;
        called = [];
      }
      | some ref ↦ record {
        after = with_state (bury (drop_record r token) (token, (r.cells ref).client_id)) ref state;
        outcome = closed;
        called = if cancel_backend then callbacks r ref else [];
      }
    ]

-- One record past its deadline: the reaper buries its token only if it was not waiting.
unfoldable pub expire_one : ContinuationRegistry → String → ℕ → ContinuationRegistry
unfolding with_state drop_record bury
expire_one r token ref =
    let dropped = with_state (drop_record r token) ref expired in
    if is_waiting (r.cells ref).state
    then dropped
    else bury dropped (token, (r.cells ref).client_id)

-- The loop of `expire_due` over the items: the registry after it and the records that have expired.
unfoldable pub expire_items :
    ℕ → List (String × ℕ) → ContinuationRegistry → ContinuationRegistry × List ℕ
unfolding expire_one
expire_items now [] r = (r, [])
expire_items now ((token, ref) ∷ items) r =
    let is_due = expired_at (r.cells ref) now in
    let (out, due) = expire_items now items (if is_due then expire_one r token ref else r) in
    (out, if is_due then ref ∷ due else due)

abbrev pub all_callbacks : ContinuationRegistry → List ℕ → List ℕ
all_callbacks r refs = filter (λ ref. (r.cells ref).has_callback) refs

-- `expire_due`
unfoldable pub expire_due_records : ContinuationRegistry → ℕ → Reply
unfolding expire_items
expire_due_records r now =
    let (out, due) = expire_items now r.records r in
    record {
      after = out;
      outcome = expired_tokens (map (λ ref. (out.cells ref).continuation_token) due);
      called = all_callbacks out due;
    }

-- One call.
unfoldable pub step : ContinuationRegistry → Event → Reply
unfolding register_record claim_record release_unclaimed close_record expire_due_records
step r (register ref) = register_record r ref
step r (claim token client now) = claim_record r token client now
step r (release ref) = release_unclaimed r ref
step r (close token state cancel_backend) = close_record r token state cancel_backend
step r (expire_due now) = expire_due_records r now

-- `ContinuationRegistry(max_pending=...)`, over objects that are not registered yet.
unfoldable pub new_registry : ℕ → (ℕ → PendingContinuation) → Option ContinuationRegistry
new_registry max cells =
    if ltb max 1
    then none
    else some (record { max_pending = max; cells = cells; records = []; tombstones = [] })

-- The registry after a run of calls.
unfoldable pub run : ContinuationRegistry → List Event → ContinuationRegistry
unfolding step
run r [] = r
run r (e ∷ es) = run (step r e).after es
