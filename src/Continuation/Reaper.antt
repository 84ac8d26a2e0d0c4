-- ===== src/Continuation/Reaper.antt =====
-- `expire_due` (gateway_continuation.py): what the reaper removes, and what it forgets.
use scarcity_router.Continuation.Invariant.{IsValid}
use mathlib.Core.Path.{fun_ext}
use scarcity_router.Common.{
  ℕ, String, ◌≡◌, refl, sym, ap, inl, inr, Bool, true, false, Option, none, some, List, [], ◌∷◌,
  leb, eqb, if◌then◌else◌, eqb_iff, Bool-cases, HasDistinctKeys, ◌==◌, option_eq, list_eq, pair_eq,
  string_eq, nat_eq, nat_order, string_order, pair_order, list_order, All, ◌∙◌, ◌≢◌, All-mono,
  lookup, without, lookup_other, lookup-without_self, lookup-without_other,
}
use scarcity_router.Continuation.{
  ContinuationState, PendingContinuation, ContinuationRegistry, is_waiting, expired,
}
use scarcity_router.Continuation.Registry.{
  with_state, drop_record, bury, expired_at, expire_one, expire_items, expire_due_records,
}

deadline_if :
    (b : Bool) (c d : PendingContinuation)
    → (b ≡ true → c.deadline ≡ d.deadline)
    → (if b then c else d).deadline ≡ d.deadline
deadline_if true c d h = h refl
deadline_if false c d h = refl

-- The deadline is the one of the first dispatch for ever.
with_state-deadline :
    (r : ContinuationRegistry) (n : ℕ) (s : ContinuationState) (ref : ℕ)
    → ((with_state r n s).cells ref).deadline ≡ (r.cells ref).deadline
unfolding with_state
with_state-deadline r n s ref =
    deadline_if (eqb ref n) (record (r.cells n) { state = s }) (r.cells ref)
      (λ e. ap (λ m. (r.cells m).deadline) (sym ((eqb_iff ref n).0 e)))

expire_one-deadline :
    (r : ContinuationRegistry) (token : String) (n ref : ℕ)
    → ((expire_one r token n).cells ref).deadline ≡ (r.cells ref).deadline
unfolding expire_one bury
expire_one-deadline r token n ref = elim (Bool-cases (is_waiting (r.cells n).state)) [
  | inl w ↦ rw w (unfold drop_record in with_state-deadline (drop_record r token) n expired ref)
  | inr w ↦ rw w (unfold drop_record in with_state-deadline (drop_record r token) n expired ref)
]

expire_one-records :
    (r : ContinuationRegistry) (token : String) (n : ℕ)
    → (expire_one r token n).records ≡ without token r.records
unfolding expire_one bury with_state drop_record
expire_one-records r token n = elim (Bool-cases (is_waiting (r.cells n).state)) [
  | inl w ↦ rw w refl
  | inr w ↦ rw w refl
]

-- What is left under a token, of what stood under it in the items and in the registry.
abbrev left_of : (ℕ → ℕ) → ℕ → Option ℕ → Option ℕ → Option ℕ
left_of deadline now none standing = standing
left_of deadline now (some n) standing = if leb (deadline n) now then none else standing

abbrev deadlines : ContinuationRegistry → ℕ → ℕ
deadlines r n = (r.cells n).deadline

expire_one-deadlines :
    (r : ContinuationRegistry) (token : String) (n : ℕ)
    → deadlines (expire_one r token n) ≡ deadlines r
expire_one-deadlines r token n = fun_ext (λ ref. expire_one-deadline r token n ref)

absent_after :
    (p : String × ℕ) (items : List (String × ℕ)) (k : String)
    → All (λ (q : String × ℕ). p.0 ≢ q.0) items
    → p.0 ≡ k
    → lookup k items ≡ none
absent_after p items k h e = lookup_other k items (All-mono items (λ q n g. n (e ∙ sym g)) h)

lookup_head :
    (p : String × ℕ) (items : List (String × ℕ)) (k : String)
    → (p.0 == k) ≡ true
    → lookup k (p ∷ items) ≡ some p.1
unfolding lookup
lookup_head p items k e = rw e refl

lookup_tail :
    (p : String × ℕ) (items : List (String × ℕ)) (k : String)
    → (p.0 == k) ≡ false
    → lookup k (p ∷ items) ≡ lookup k items
unfolding lookup
lookup_tail p items k e = rw e refl

expire_items-lookup :
    (now : ℕ) (items : List (String × ℕ)) (r : ContinuationRegistry) (k : String)
    → HasDistinctKeys (λ (p : String × ℕ). p.0) items
    → lookup k (expire_items now items r).0.records
      ≡ left_of (deadlines r) now (lookup k items) (lookup k r.records)
unfolding expire_items
expire_items-lookup now [] r k d = unfold lookup in refl
expire_items-lookup now (p ∷ items) r k d = elim (Bool-cases (expired_at (r.cells p.1) now)) [
  | inl e ↦
      let rest =
        expire_items-lookup now items (expire_one r p.0 p.1) k d.1
        ∙ ap
            (λ (f : ℕ → ℕ).
              left_of f now (lookup k items) (lookup k (expire_one r p.0 p.1).records))
            (expire_one-deadlines r p.0 p.1)
        ∙ ap (λ (ps : List (String × ℕ)). left_of (deadlines r) now (lookup k items) (lookup k ps))
            (expire_one-records r p.0 p.1) in
      elim (Bool-cases (p.0 == k)) [
        | inl f ↦
            let same = (string_eq.test_iff p.0 k).0 f in
            rw (e, lookup_head p items k f)
              (rw e (
                rest
                ∙ ap (λ o. left_of (deadlines r) now o (lookup k (without p.0 r.records)))
                    (absent_after p items k d.0 same)
                ∙ ap (λ t. lookup k (without t r.records)) same
                ∙ lookup-without_self k r.records))
        | inr f ↦
            rw (e, lookup_tail p items k f)
              (rest
                ∙ ap (λ o. left_of (deadlines r) now (lookup k items) o)
                    (lookup-without_other k p.0 r.records
                      (λ q. cc (f, (string_eq.test_iff p.0 k).1 q))))
      ]
  | inr e ↦
      let rest = expire_items-lookup now items r k d.1 in
      elim (Bool-cases (p.0 == k)) [
        | inl f ↦
            rw (e, lookup_head p items k f)
              (rw e (
                rest
                ∙ ap (λ o. left_of (deadlines r) now o (lookup k r.records))
                    (absent_after p items k d.0 ((string_eq.test_iff p.0 k).0 f))))
        | inr f ↦ rw (e, lookup_tail p items k f) rest
      ]
]

-- What stands under a token after the reaper: nothing that is past its deadline, and all else that stood there.
abbrev pub unexpired : ContinuationRegistry → ℕ → Option ℕ → Option ℕ
unexpired r now none = none
unexpired r now (some ref) = if expired_at (r.cells ref) now then none else some ref

-- On a valid registry the reaper removes the records past their deadline, waiting or resuming, and no other: under
-- every token there stands after it what stood there before, unless that is past its deadline.
pub expire_due_records-lookup :
    (r : ContinuationRegistry) (now : ℕ) (token : String)
    → IsValid r
    → lookup token (expire_due_records r now).after.records
      ≡ unexpired r now (lookup token r.records)
unfolding expire_due_records
expire_due_records-lookup r now token v =
    expire_items-lookup now r.records r token v.distinct ∙ agree (lookup token r.records)
  where
    agree : (o : Option ℕ) → left_of (deadlines r) now o o ≡ unexpired r now o
    agree none = refl
    agree (some n) = refl
