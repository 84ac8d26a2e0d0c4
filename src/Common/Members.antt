-- ===== src/Common/Members.antt =====
-- Membership tests and sorting, against membership.
use scarcity_router.Common.Tests.{Bool-cases}
use scarcity_router.Common.Lists.{is_empty, All}
use scarcity_router.Common.Orders.{Order, nat_order, string_order, pair_order, list_order}
use scarcity_router.Common.Equality.{
  Eq, ◌==◌, nat_eq, string_eq, option_eq, contains, list_eq, pair_eq,
}
use scarcity_router.Common.Sort.{sorted, sorted_mem}
use mathlib.Core.Path.{◌≡◌, refl, sym}
use mathlib.Core.Logic.{◌≢◌, inl, inr}
use mathlib.Core.Bool.{true, false}
use mathlib.Core.List.{List, [], ◌∷◌, Memᴰ}
use native.Mathlib.Omega.{arith}

module _ {ℓ} {A : Type ℓ} ⦃e : Eq A⦄ where
  pub contains_mem : {a : A} (xs : List A) → Memᴰ a xs → contains xs a ≡ true
  unfolding contains
  contains_mem [] m = elim m [ ]
  contains_mem {a} (x ∷ xs) (Memᴰ.head q) = ground (arith, (e.test_iff x a).1 (sym q))
  contains_mem (x ∷ xs) (Memᴰ.tail m) = ground (arith, contains_mem xs m)

  pub mem_contains : {a : A} (xs : List A) → contains xs a ≡ true → Memᴰ a xs
  unfolding contains
  mem_contains [] h = cc
  mem_contains {a} (x ∷ xs) h = elim (Bool-cases (x == a)) [
    | inl g ↦ Memᴰ.head (sym ((e.test_iff x a).0 g))
    | inr g ↦ Memᴰ.tail (mem_contains xs (ground arith))
  ]

  pub contains_of_other : (xs : List A) (a : A) → All (λ x. x ≢ a) xs → contains xs a ≡ false
  unfolding contains
  contains_of_other [] a h = refl
  contains_of_other (x ∷ xs) a h = elim (Bool-cases (x == a)) [
    | inl g ↦ absurd (h.0 ((e.test_iff x a).0 g))
    | inr g ↦ ground (arith, contains_of_other xs a h.1)
  ]

  pub contains-false : (xs : List A) (a : A) → contains xs a ≡ false → All (λ x. a ≢ x) xs
  unfolding contains
  contains-false [] a h = tt
  contains-false (x ∷ xs) a h =
      (λ q. cc (h, (e.test_iff x a).1 (sym q)), contains-false xs a (ground arith))

pub is_empty-of_mem {ℓ} : {A : Type ℓ} {a : A} (xs : List A) → Memᴰ a xs → is_empty xs ≡ false
is_empty-of_mem [] m = elim m [ ]
is_empty-of_mem (x ∷ xs) m = refl

module _ {ℓ κ} {A : Type ℓ} {K : Type κ} ⦃o : Order K⦄ (key : A → K) where
  pub is_empty-sorted : (xs : List A) → is_empty xs ≡ false → is_empty (sorted key xs) ≡ false
  is_empty-sorted [] h = cc
  is_empty-sorted (x ∷ xs) h =
      is_empty-of_mem (sorted key (x ∷ xs)) (sorted_mem key (x ∷ xs) (Memᴰ.head refl))
