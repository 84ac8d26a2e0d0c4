-- ===== src/Continuation/Ended.antt =====
-- What it is that a continuation has ended (gateway_continuation.py), and what changes of the registry keep it.
use scarcity_router.Continuation.{
  Outcome, ContinuationRegistry, Event, ContinuationState, expired, is_waiting, closed, rejected,
  past_deadline, expired_tokens, register,
}
use scarcity_router.Common.{
  ℕ, suc, ◌+◌, ◌≤◌, ◌<◌, String, ◌≡◌, inl, inr, List, [], ◌∷◌, arith, Bool-cases, length, option_eq,
  list_eq, pair_eq, string_eq, nat_eq, nat_order, string_order, pair_order, list_order, lookup,
  none, without, lookup_other, All-without, lookup-none, ◌≢◌,
}
use scarcity_router.Continuation.Registry.{
  max_terminal_tombstones, drop_record, bury, with_state, expire_one, expire_items, expired_at,
  step,
}
use scarcity_router.Continuation.Ring.{IsRecent, IsRecent-of_le, append_tombstone-IsRecent}

-- The tombstones that a call leaves at most.
abbrev pub endings_in : Outcome → ℕ
endings_in closed = 1
endings_in (rejected past_deadline) = 1
endings_in (expired_tokens tokens) = length tokens
endings_in _ = 0

abbrev pub endings : List Outcome → ℕ
endings [] = 0
endings (o ∷ os) = endings_in o + endings os

-- The call offers no record under the token for registration.
abbrev pub IsOther : String → ContinuationRegistry → Event → Type 0
IsOther token r (register ref) = (r.cells ref).continuation_token ≢ token
IsOther token r _ = Unit

-- No call of the run offers a record under the token for registration.
unfoldable pub AreOther : String → ContinuationRegistry → List Event → Type 0
unfolding step
AreOther token r [] = Unit
AreOther token r (e ∷ es) = IsOther token r e × AreOther token (step r e).after es

-- The registry has no record under the token, and a recent tombstone of its client.
pub record HasEnded (k : ℕ) (token client : String) (r : ContinuationRegistry) : Type 0 where
  pub absent : lookup token r.records ≡ none
  pub recent : IsRecent k (token, client) r.tombstones

lookup-without-none :
    (token other : String) (ps : List (String × ℕ))
    → lookup token ps ≡ none
    → lookup token (without other ps) ≡ none
lookup-without-none token other ps h =
    lookup_other token (without other ps) (All-without _ other ps (lookup-none token ps h))

pub HasEnded-of_le :
    (j k : ℕ) (token client : String) (r : ContinuationRegistry)
    → j ≤ k
    → HasEnded j token client r
    → HasEnded k token client r
HasEnded-of_le j k token client r h e = record {
  absent = e.absent;
  recent = IsRecent-of_le j k (token, client) r.tombstones h e.recent;
}

-- A record ends, and its token is buried or not.
pub drop-HasEnded :
    (k : ℕ) (token client other : String) (r : ContinuationRegistry)
    → HasEnded k token client r
    → HasEnded k token client (drop_record r other)
unfolding drop_record
drop-HasEnded k token client other r e = record {
  absent = lookup-without-none token other r.records e.absent;
  recent = e.recent;
}

pub bury-HasEnded :
    (k : ℕ) (token client : String) (u : String × String) (r : ContinuationRegistry)
    → suc k < max_terminal_tombstones
    → HasEnded k token client r
    → HasEnded (suc k) token client (bury r u)
unfolding bury
bury-HasEnded k token client u r h e = record {
  absent = e.absent;
  recent = append_tombstone-IsRecent k (token, client) u r.tombstones h e.recent;
}

pub with_state-HasEnded :
    (k : ℕ) (token client : String) (ref : ℕ) (s : ContinuationState) (r : ContinuationRegistry)
    → HasEnded k token client r
    → HasEnded k token client (with_state r ref s)
unfolding with_state
with_state-HasEnded k token client ref s r e = record { absent = e.absent; recent = e.recent }

expire_one-HasEnded :
    (k : ℕ) (token client other : String) (ref : ℕ) (r : ContinuationRegistry)
    → suc k < max_terminal_tombstones
    → HasEnded k token client r
    → HasEnded (suc k) token client (expire_one r other ref)
unfolding expire_one
expire_one-HasEnded k token client other ref r h e =
    let dropped =
      with_state-HasEnded k token client ref expired (drop_record r other)
        (drop-HasEnded k token client other r e) in
    elim (Bool-cases (is_waiting (r.cells ref).state)) [
      | inl w ↦ rw w (HasEnded-of_le k (suc k) token client _ (omega arith) dropped)
      | inr w ↦ rw w (bury-HasEnded k token client (other, (r.cells ref).client_id) _ h dropped)
    ]

pub expire_items-HasEnded :
    (now : ℕ) (items : List (String × ℕ)) (k : ℕ) (token client : String) (r : ContinuationRegistry)
    → k + length (expire_items now items r).1 < max_terminal_tombstones
    → HasEnded k token client r
    → HasEnded (k + length (expire_items now items r).1) token client (expire_items now items r).0
unfolding expire_items
expire_items-HasEnded now [] k token client r h e =
    HasEnded-of_le k (k + 0) token client r (omega arith) e
expire_items-HasEnded now (p ∷ items) k token client r h e =
    elim (Bool-cases (expired_at (r.cells p.1) now)) [
      | inl d ↦
          let n : ℕ = length (expire_items now items (expire_one r p.0 p.1)).1 in
          let bound : k + suc n < max_terminal_tombstones = rw d at h in
          let first = expire_one-HasEnded k token client p.0 p.1 r (omega arith) e in
          let rest =
            expire_items-HasEnded now items (suc k) token client (expire_one r p.0 p.1)
              (omega arith) first in
          rw d (HasEnded-of_le (suc k + n) (k + suc n) token client _ (omega arith) rest)
      | inr d ↦ rw d (expire_items-HasEnded now items k token client r (rw d at h) e)
    ]
