-- ===== src/Common/Sort.antt =====
-- `sorted(xs, key=key)`: the stable sort, xs insertion from the right.
use mathlib.Core.Path.{◌≡◌, refl, ap, ◌∙◌}
use mathlib.Core.Logic.{◌≢◌, inl, inr}
use mathlib.Core.Bool.{true, false}
use mathlib.Core.List.{List, [], ◌∷◌, Memᴰ, Permᴰ}
use mathlib.Core.List.Permᴰ
use native.Mathlib.Omega.{arith}
use scarcity_router.Common.Tests.{if◌then◌else◌, Bool-cases}
use scarcity_router.Common.Lists.{
  HasDistinctKeys, HasDistinctKeys-perm, All, All-mono, All-perm, mem_perm,
}
use scarcity_router.Common.Orders.{Order, ◌<?◌}

module _ {ℓ κ} {A : Type ℓ} {K : Type κ} ⦃o : Order K⦄ (key : A → K) where
  unfoldable pub insert : A → List A → List A
  insert a [] = a ∷ []
  insert a (b ∷ bs) = let rest = insert a bs in if key b <? key a then b ∷ rest else a ∷ b ∷ bs

  unfoldable pub sorted : List A → List A
  unfolding insert
  sorted [] = []
  sorted (a ∷ xs) = insert a (sorted xs)

  -- No later item has a smaller key.
  abbrev pub IsSorted : List A → Type (ℓ ⊔ κ)
  IsSorted [] = Unit
  IsSorted (a ∷ xs) = All (λ b. (key b <? key a) ≡ false) xs × IsSorted xs

  pub insert-perm : (a : A) (bs : List A) → Permᴰ (insert a bs) (a ∷ bs)
  unfolding insert
  insert-perm a [] = Permᴰ.refl (a ∷ [])
  insert-perm a (b ∷ bs) = elim (Bool-cases (key b <? key a)) [
    | inl e ↦ rw e (Permᴰ.trans (Permᴰ.cons refl (insert-perm a bs)) (Permᴰ.swap refl refl))
    | inr e ↦ rw e (Permᴰ.refl (a ∷ b ∷ bs))
  ]

  pub sorted-perm : (xs : List A) → Permᴰ (sorted xs) xs
  unfolding sorted
  sorted-perm [] = Permᴰ.nil
  sorted-perm (a ∷ xs) = Permᴰ.trans (insert-perm a (sorted xs)) (Permᴰ.cons refl (sorted-perm xs))

  insert-IsSorted : (a : A) (bs : List A) → IsSorted bs → IsSorted (insert a bs)
  unfolding insert
  insert-IsSorted a [] h = (tt, tt)
  insert-IsSorted a (b ∷ bs) h = elim (Bool-cases (key b <? key a)) [
    | inl e ↦ rw e (
      All-perm (λ x. (key x <? key b) ≡ false) (Permᴰ.symm (insert-perm a bs)) (not_above e, h.0),
      insert-IsSorted a bs h.1,
    )
    | inr e ↦ rw e ((e, All-mono bs (λ x g. below x e g) h.0), h)
  ]
    where
      not_above : (key b <? key a) ≡ true → (key a <? key b) ≡ false
      not_above e = elim (Bool-cases (key a <? key b)) [
        | inl g ↦ cc (o.trans (key a) (key b) (key a) g e, o.irrefl (key a))
        | inr g ↦ g
      ]

      below :
          (x : A) → (key b <? key a) ≡ false → (key x <? key b) ≡ false → (key x <? key a) ≡ false
      below x e g = elim (Bool-cases (key x <? key a)) [
        | inl k ↦ elim (Bool-cases (key a <? key b)) [
          | inl m ↦ cc (o.trans (key x) (key a) (key b) k m)
          | inr m ↦ cc (o.total (key b) (key a) e m)
        ]
        | inr k ↦ k
      ]

  pub sorted-IsSorted : (xs : List A) → IsSorted (sorted xs)
  unfolding sorted
  sorted-IsSorted [] = tt
  sorted-IsSorted (a ∷ xs) = insert-IsSorted a (sorted xs) (sorted-IsSorted xs)

  insert_comm :
      (a b : A) (cs : List A) → key a ≢ key b → insert a (insert b cs) ≡ insert b (insert a cs)
  unfolding insert
  insert_comm a b [] h =
      ground (arith, o.total (key a) (key b), o.trans (key a) (key b) (key a), o.irrefl (key a))
  insert_comm a b (c ∷ cs) h = ground (
    arith,
    insert_comm a b cs h,
    o.trans (key c) (key a) (key b),
    o.trans (key c) (key b) (key a),
    o.total (key a) (key b),
    o.trans (key a) (key b) (key a),
    o.irrefl (key a),
  )

  -- Where keys are distinct, sorting forgets the order of the input.
  pub sorted_of_perm :
      {xs ys : List A} → Permᴰ xs ys → HasDistinctKeys key xs → sorted xs ≡ sorted ys
  unfolding sorted
  sorted_of_perm Permᴰ.nil h = refl
  sorted_of_perm (Permᴰ.cons e p) h = λ i. insert (e i) (sorted_of_perm p h.1 i)
  sorted_of_perm (Permᴰ.swap {a = a} {b = b} {l = l} e f) h =
      insert_comm a b (sorted l) h.0.0 ∙ (λ i. insert (f i) (insert (e i) (sorted l)))
  sorted_of_perm (Permᴰ.trans p q) h =
      sorted_of_perm p h ∙ sorted_of_perm q (HasDistinctKeys-perm key p h)

  insert_of_IsSorted :
      (a : A) (xs : List A) → All (λ b. (key b <? key a) ≡ false) xs → insert a xs ≡ a ∷ xs
  unfolding insert
  insert_of_IsSorted a [] h = refl
  insert_of_IsSorted a (b ∷ xs) h = rw h.0

  -- Sorting a sorted list changes nothing.
  pub sorted_of_IsSorted : (xs : List A) → IsSorted xs → sorted xs ≡ xs
  unfolding sorted
  sorted_of_IsSorted [] h = refl
  sorted_of_IsSorted (a ∷ xs) h =
      ap (insert a) (sorted_of_IsSorted xs h.1) ∙ insert_of_IsSorted a xs h.0

  pub All-sorted {μ} : (P : A → Type μ) (xs : List A) → All P xs → All P (sorted xs)
  All-sorted P xs h = All-perm P (Permᴰ.symm (sorted-perm xs)) h

  pub mem-sorted : {a : A} (xs : List A) → Memᴰ a (sorted xs) → Memᴰ a xs
  mem-sorted xs m = mem_perm (sorted-perm xs) m

  pub sorted_mem : {a : A} (xs : List A) → Memᴰ a xs → Memᴰ a (sorted xs)
  sorted_mem xs m = mem_perm (Permᴰ.symm (sorted-perm xs)) m
