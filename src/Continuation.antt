-- ===== src/Continuation.antt =====
-- The registry of suspended tool calls (gateway_continuation.py): its records, its states and its events.
pub mod Registry
pub mod Invariant
pub mod Kept
pub mod Cases
pub mod Once
pub mod Callbacks
pub mod Ring
pub mod Ended
pub mod Lasting
pub mod Replay
pub mod Reaper
pub mod Forgotten
mod Samples
use scarcity_router.Common.{ℕ, String, Bool, true, false, Option, List}

-- `CONTINUATION_STATES`
pub data ContinuationState : Type 0 where
  waiting resuming completed cancelled expired lost : ContinuationState

-- `REJECTION_REASONS`
pub data RejectionReason : Type 0 where
  not_found past_deadline already_resolved : RejectionReason

-- `PendingContinuation` but for the objects of the dispatch that it carries along. `has_callback` says that there
-- is a `cancel_callback`.
pub record PendingContinuation : Type 0 where
  pub continuation_token : String
  pub attempt_id : String
  pub resource_id : String
  pub channel : String
  pub call_id : String
  pub deadline : ℕ
  pub created_at : String
  pub client_id : String
  pub model_echo : String
  pub reasoning_effort : Option String
  pub tools_fingerprint : Option String
  pub tool_choice_json : Option String
  pub prefix_fingerprint : String
  pub assistant_tool_calls_digest : String
  pub has_callback : Bool
  pub state : ContinuationState

-- Records are objects that callers hold too: the registry maps a token to a reference, and the objects stand
-- in `cells`.
pub record ContinuationRegistry : Type 0 where
  pub max_pending : ℕ
  pub cells : ℕ → PendingContinuation
  pub records : List (String × ℕ)
  pub tombstones : List (String × String)

-- The calls of the registry. A call that reads the clock takes the time.
pub data Event : Type 0 where
  register : ℕ → Event
  claim : String → String → ℕ → Event
  release : ℕ → Event
  close : String → ContinuationState → Bool → Event
  expire_due : ℕ → Event

-- What a call returns or raises.
pub data Outcome : Type 0 where
  registered refused invalid released closed : Outcome
  resumed : ℕ → Outcome
  rejected : RejectionReason → Outcome
  expired_tokens : List String → Outcome

-- The registry after a call, what the call returned, and the records whose callback it called, in order.
pub record Reply : Type 0 where
  pub after : ContinuationRegistry
  pub outcome : Outcome
  pub called : List ℕ

abbrev pub is_waiting : ContinuationState → Bool
is_waiting ContinuationState.waiting = true
is_waiting _ = false

abbrev pub is_terminal : ContinuationState → Bool
is_terminal ContinuationState.waiting = false
is_terminal ContinuationState.resuming = false
is_terminal _ = true
