-- ===== src/Continuation/Ring.antt =====
-- The ring of tombstones of the registry (gateway_continuation.py): how long it holds one.
use native.Mathlib.Nat.{le_trans}
use scarcity_router.Common.{
  ℕ, suc, ◌≤◌, ◌<◌, String, ◌≡◌, refl, sym, ◌⊎◌, inl, inr, true, List, [], ◌∷◌, ◌++◌, Memᴰ, arith,
  ltb, ltb→lt, Bool-cases, contains_mem, length, tail, length-snoc, option_eq, contains, list_eq,
  pair_eq, string_eq, nat_eq, nat_order, string_order, pair_order, list_order,
}
use scarcity_router.Continuation.Registry.{max_terminal_tombstones, append_tombstone}

-- The tombstone stands in the ring, with at most so many behind it.
abbrev pub IsRecent : ℕ → String × String → List (String × String) → Type 0
IsRecent k t [] = ⊥
IsRecent k t (u ∷ ring) = ((u ≡ t) × (length ring ≤ k)) ⊎ IsRecent k t ring

pub IsRecent-of_le :
    (j k : ℕ) (t : String × String) (ring : List (String × String))
    → j ≤ k
    → IsRecent j t ring
    → IsRecent k t ring
IsRecent-of_le j k t [] h r = r
IsRecent-of_le j k t (u ∷ ring) h (inl e) = inl (e.0, le_trans e.1 h)
IsRecent-of_le j k t (u ∷ ring) h (inr r) = inr (IsRecent-of_le j k t ring h r)

pub IsRecent-snoc :
    (t : String × String) (ring : List (String × String)) → IsRecent 0 t (ring ++ t ∷ [])
IsRecent-snoc t [] = inl (refl, omega arith)
IsRecent-snoc t (u ∷ ring) = inr (IsRecent-snoc t ring)

later_snoc :
    (k : ℕ) (t u : String × String) (ring : List (String × String))
    → IsRecent k t ring
    → IsRecent (suc k) t (ring ++ u ∷ [])
later_snoc k t u [] r = absurd r
later_snoc k t u (v ∷ ring) (inl e) =
    let bound = e.1 in inl (e.0, rw (length-snoc ring u) (omega arith))
later_snoc k t u (v ∷ ring) (inr r) = inr (later_snoc k t u ring r)

-- Where the ring is full, its oldest tombstone is not a recent one.
tail-IsRecent :
    (k : ℕ) (t : String × String) (ring : List (String × String))
    → k < max_terminal_tombstones
    → max_terminal_tombstones < length ring
    → IsRecent k t ring
    → IsRecent k t (tail ring)
tail-IsRecent k t [] h l r = r
tail-IsRecent k t (u ∷ ring) h l (inl e) =
    let bound = e.1 in let never : ⊥ = omega arith in absurd never
tail-IsRecent k t (u ∷ ring) h l (inr r) = r

pub append_tombstone-IsRecent :
    (k : ℕ) (t u : String × String) (ring : List (String × String))
    → suc k < max_terminal_tombstones
    → IsRecent k t ring
    → IsRecent (suc k) t (append_tombstone ring u)
unfolding append_tombstone
append_tombstone-IsRecent k t u ring h r =
    elim (Bool-cases (ltb max_terminal_tombstones (length (ring ++ u ∷ [])))) [
      | inl e ↦ rw e (
          tail-IsRecent (suc k) t (ring ++ u ∷ []) h (ltb→lt max_terminal_tombstones _ e)
            (later_snoc k t u ring r))
      | inr e ↦ rw e (later_snoc k t u ring r)
    ]

pub append_tombstone-IsRecent_own :
    (t : String × String) (ring : List (String × String)) → IsRecent 0 t (append_tombstone ring t)
unfolding append_tombstone
append_tombstone-IsRecent_own t ring =
    elim (Bool-cases (ltb max_terminal_tombstones (length (ring ++ t ∷ [])))) [
      | inl e ↦ rw e (
          tail-IsRecent 0 t (ring ++ t ∷ []) (omega arith) (ltb→lt max_terminal_tombstones _ e)
            (IsRecent-snoc t ring))
      | inr e ↦ rw e (IsRecent-snoc t ring)
    ]

pub contains-of_IsRecent :
    (k : ℕ) (t : String × String) (ring : List (String × String))
    → IsRecent k t ring
    → contains ring t ≡ true
contains-of_IsRecent k t ring r = contains_mem ring (member ring r)
  where
    member : (ring : List (String × String)) → IsRecent k t ring → Memᴰ t ring
    member [] r = absurd r
    member (u ∷ ring) (inl e) = Memᴰ.head (sym e.0)
    member (u ∷ ring) (inr r) = Memᴰ.tail (member ring r)
