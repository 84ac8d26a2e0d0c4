-- ===== src/Common/Dicts.antt =====
-- Python's dictionaries with texts as keys, in the order of insertion: what `lookup` finds, what `without` leaves and
-- what `put` changes.
use mathlib.Core.Path.{◌≡◌, refl, sym, ap, ◌∙◌, subst}
use mathlib.Core.Logic.{◌≢◌, inl, inr}
use mathlib.Core.Bool.{false}
use mathlib.Core.Option.{Option, none, some}
use mathlib.Core.List.{List, [], ◌∷◌, ◌++◌, Memᴰ}
use Prim.Native.Nat.{◌≤◌}
use Prim.Native.String.{String}
use native.Mathlib.Omega.{arith}
use scarcity_router.Common.Tests.{if◌then◌else◌, Bool-cases, some-injective}
use scarcity_router.Common.Lists.{length, All, All-mem, All-snoc, HasDistinctKeys}
use scarcity_router.Common.Equality.{◌==◌, string_eq}

-- `dict.get`, `dict.pop` and item assignment
module _ {ℓ} {A : Type ℓ} where
  unfoldable pub lookup : String → List (String × A) → Option A
  lookup k [] = none
  lookup k (p ∷ ps) = if p.0 == k then some p.1 else lookup k ps

  unfoldable pub without : String → List (String × A) → List (String × A)
  without k [] = []
  without k (p ∷ ps) = let rest = without k ps in if p.0 == k then rest else p ∷ rest

  unfoldable pub put : String → A → List (String × A) → List (String × A)
  put k v [] = (k, v) ∷ []
  put k v (p ∷ ps) = let rest = p ∷ put k v ps in if p.0 == k then (k, v) ∷ ps else rest

module _ {ℓ} {A : Type ℓ} where
  pub lookup-mem :
      (k : String) {v : A} (ps : List (String × A)) → lookup k ps ≡ some v → Memᴰ (k, v) ps
  unfolding lookup
  lookup-mem k [] h = cc
  lookup-mem k {v} (p ∷ ps) h = elim (Bool-cases (p.0 == k)) [
    | inl e ↦
        let same : p.1 ≡ v = some-injective (rw e at h) in
        Memᴰ.head (λ i. (sym ((string_eq.test_iff p.0 k).0 e) i, sym same i))
    | inr e ↦ Memᴰ.tail (lookup-mem k ps (rw e at h))
  ]

  pub lookup-none :
      (k : String) (ps : List (String × A)) → lookup k ps ≡ none → All (λ p. p.0 ≢ k) ps
  unfolding lookup
  lookup-none k [] h = tt
  lookup-none k (p ∷ ps) h = elim (Bool-cases (p.0 == k)) [
    | inl e ↦ cc (e, h)
    | inr e ↦ (λ q. cc (e, (string_eq.test_iff p.0 k).1 q), lookup-none k ps (rw e at h))
  ]

  pub lookup_other :
      (k : String) (ps : List (String × A)) → All (λ p. p.0 ≢ k) ps → lookup k ps ≡ none
  unfolding lookup
  lookup_other k [] h = refl
  lookup_other k (p ∷ ps) h = elim (Bool-cases (p.0 == k)) [
    | inl e ↦ absurd (h.0 ((string_eq.test_iff p.0 k).0 e))
    | inr e ↦ rw e (lookup_other k ps h.1)
  ]

  pub lookup_of_mem :
      {k : String} {v : A} (ps : List (String × A))
      → HasDistinctKeys (λ (p : String × A). p.0) ps
      → Memᴰ (k, v) ps
      → lookup k ps ≡ some v
  unfolding lookup
  lookup_of_mem [] d m = elim m [ ]
  lookup_of_mem {k} {v} (p ∷ ps) d (Memᴰ.head e) =
      rw ((string_eq.test_iff p.0 k).1 (sym (ap (λ (q : String × A). q.0) e)))
        (ap some (sym (ap (λ (q : String × A). q.1) e)))
  lookup_of_mem {k} {v} (p ∷ ps) d (Memᴰ.tail m) = elim (Bool-cases (p.0 == k)) [
    | inl e ↦ absurd (All-mem (λ q. p.0 ≢ q.0) ps d.0 m ((string_eq.test_iff p.0 k).0 e))
    | inr e ↦ rw e (lookup_of_mem ps d.1 m)
  ]

  -- What is left has other keys.
  pub without-other : (k : String) (ps : List (String × A)) → All (λ p. p.0 ≢ k) (without k ps)
  unfolding without
  without-other k [] = tt
  without-other k (p ∷ ps) = elim (Bool-cases (p.0 == k)) [
    | inl e ↦ rw e (without-other k ps)
    | inr e ↦ rw e (λ q. cc (e, (string_eq.test_iff p.0 k).1 q), without-other k ps)
  ]

  pub All-without {κ} :
      (P : String × A → Type κ) (k : String) (ps : List (String × A))
      → All P ps
      → All P (without k ps)
  unfolding without
  All-without P k [] h = tt
  All-without P k (p ∷ ps) h = elim (Bool-cases (p.0 == k)) [
    | inl e ↦ rw e (All-without P k ps h.1)
    | inr e ↦ rw e (h.0, All-without P k ps h.1)
  ]

  pub HasDistinctKeys-without :
      (k : String) (ps : List (String × A))
      → HasDistinctKeys (λ (p : String × A). p.0) ps
      → HasDistinctKeys (λ (p : String × A). p.0) (without k ps)
  unfolding without
  HasDistinctKeys-without k [] h = tt
  HasDistinctKeys-without k (p ∷ ps) h = elim (Bool-cases (p.0 == k)) [
    | inl e ↦ rw e (HasDistinctKeys-without k ps h.1)
    | inr e ↦ rw e (All-without (λ q. p.0 ≢ q.0) k ps h.0, HasDistinctKeys-without k ps h.1)
  ]

  pub length-without-le : (k : String) (ps : List (String × A)) → length (without k ps) ≤ length ps
  unfolding without
  length-without-le k [] = omega arith
  length-without-le k (p ∷ ps) = ground (arith, length-without-le k ps)

  pub without_absent :
      (k : String) (ps : List (String × A)) → All (λ p. p.0 ≢ k) ps → without k ps ≡ ps
  unfolding without
  without_absent k [] h = refl
  without_absent k (p ∷ ps) h = elim (Bool-cases (p.0 == k)) [
    | inl e ↦ absurd (h.0 ((string_eq.test_iff p.0 k).0 e))
    | inr e ↦ rw e (ap (λ qs. p ∷ qs) (without_absent k ps h.1))
  ]

  -- A new key at the end.
  pub HasDistinctKeys-snoc :
      (p : String × A) (ps : List (String × A))
      → HasDistinctKeys (λ (q : String × A). q.0) ps
      → All (λ q. q.0 ≢ p.0) ps
      → HasDistinctKeys (λ (q : String × A). q.0) (ps ++ p ∷ [])
  HasDistinctKeys-snoc p [] d h = (tt, tt)
  HasDistinctKeys-snoc p (q ∷ ps) d h =
      (All-snoc (λ r. q.0 ≢ r.0) ps p d.0 h.0, HasDistinctKeys-snoc p ps d.1 h.1)

  pub lookup-without_self : (k : String) (ps : List (String × A)) → lookup k (without k ps) ≡ none
  lookup-without_self k ps = lookup_other k (without k ps) (without-other k ps)

  pub lookup-without_other :
      (k j : String) (ps : List (String × A)) → j ≢ k → lookup k (without j ps) ≡ lookup k ps
  unfolding lookup without
  lookup-without_other k j [] h = refl
  lookup-without_other k j (p ∷ ps) h = elim (Bool-cases (p.0 == j)) [
    | inl e ↦
        let same = (string_eq.test_iff p.0 j).0 e in
        rw (e, differ p.0 (λ q. h (sym same ∙ q))) (lookup-without_other k j ps h)
    | inr e ↦
        rw e
          (ap (λ (o : Option A). if p.0 == k then some p.1 else o) (lookup-without_other k j ps h))
  ]
    where
      differ : (s : String) → s ≢ k → (s == k) ≡ false
      differ s n = elim (Bool-cases (s == k)) [
        | inl g ↦ absurd (n ((string_eq.test_iff s k).0 g))
        | inr g ↦ g
      ]

  pub All-put {κ} :
      (P : String × A → Type κ) (k : String) (v : A) (ps : List (String × A))
      → P (k, v)
      → All P ps
      → All P (put k v ps)
  unfolding put
  All-put P k v [] h hs = (h, tt)
  All-put P k v (p ∷ ps) h hs = elim (Bool-cases (p.0 == k)) [
    | inl e ↦ rw e (h, hs.1)
    | inr e ↦ rw e (hs.0, All-put P k v ps h hs.1)
  ]

  pub HasDistinctKeys-put :
      (k : String) (v : A) (ps : List (String × A))
      → HasDistinctKeys (λ (p : String × A). p.0) ps
      → HasDistinctKeys (λ (p : String × A). p.0) (put k v ps)
  unfolding put
  HasDistinctKeys-put k v [] h = (tt, tt)
  HasDistinctKeys-put k v (p ∷ ps) h = elim (Bool-cases (p.0 == k)) [
    | inl e ↦ rw e (subst (λ j. All (λ q. j ≢ q.0) ps) ((string_eq.test_iff p.0 k).0 e) h.0, h.1)
    | inr e ↦ rw e (
      All-put (λ q. p.0 ≢ q.0) k v ps (λ q. cc (e, (string_eq.test_iff p.0 k).1 q)) h.0,
      HasDistinctKeys-put k v ps h.1,
    )
  ]

  pub lookup-put_self :
      (k : String) (v : A) (ps : List (String × A)) → lookup k (put k v ps) ≡ some v
  unfolding lookup put
  lookup-put_self k v [] = rw ((string_eq.test_iff k k).1 refl) refl
  lookup-put_self k v (p ∷ ps) = elim (Bool-cases (p.0 == k)) [
    | inl e ↦ rw (e, (string_eq.test_iff k k).1 refl) refl
    | inr e ↦ rw (e, e) (lookup-put_self k v ps)
  ]

  pub lookup-snoc :
      (k : String) {v : A} (ps : List (String × A)) (q : String × A)
      → lookup k ps ≡ some v
      → lookup k (ps ++ q ∷ []) ≡ some v
  unfolding lookup
  lookup-snoc k [] q h = cc
  lookup-snoc k (p ∷ ps) q h = elim (Bool-cases (p.0 == k)) [
    | inl e ↦ rw e (rw e at h)
    | inr e ↦ rw e (lookup-snoc k ps q (rw e at h))
  ]
