-- ===== src/Common/Lists.antt =====
-- Lists under Boolean tests, and predicates of all items and of some item.
use Prim.Native.Nat.{ℕ, zero, suc}
use mathlib.Core.Path.{◌≡◌, refl, sym, subst, ap}
use mathlib.Core.Logic.{◌≢◌, inl, inr}
use mathlib.Core.Bool.{Bool, true, false, ◌&&◌, ◌||◌}
use mathlib.Core.Option.{Option, none, some}
use mathlib.Core.List.{List, [], ◌∷◌, ◌++◌, Memᴰ, Permᴰ, map}
use mathlib.Core.List.Permᴰ
use native.Mathlib.Omega.{arith}
use scarcity_router.Common.Tests.{if◌then◌else◌, Bool-cases}

module _ {ℓ} {A : Type ℓ} where
  abbrev pub length : List A → ℕ
  length [] = 0
  length (x ∷ xs) = suc (length xs)

  abbrev pub take : ℕ → List A → List A
  take zero xs = []
  take (suc n) [] = []
  take (suc n) (x ∷ xs) = x ∷ take n xs

  abbrev pub head? : List A → Option A
  head? [] = none
  head? (x ∷ xs) = some x

  abbrev pub tail : List A → List A
  tail [] = []
  tail (x ∷ xs) = xs

  -- `[x for x in xs if p(x)]`
  abbrev pub filter : (A → Bool) → List A → List A
  filter p [] = []
  filter p (x ∷ xs) = let rest = filter p xs in if p x then x ∷ rest else rest

  -- `next((x for x in xs if p(x)), None)`
  abbrev pub find : (A → Bool) → List A → Option A
  find p [] = none
  find p (x ∷ xs) = if p x then some x else find p xs

  abbrev pub any : (A → Bool) → List A → Bool
  any p [] = false
  any p (x ∷ xs) = p x || any p xs

  abbrev pub all : (A → Bool) → List A → Bool
  all p [] = true
  all p (x ∷ xs) = p x && all p xs

  abbrev pub is_empty : List A → Bool
  is_empty [] = true
  is_empty (x ∷ xs) = false

abbrev pub All {ℓ κ} : {A : Type ℓ} → (A → Type κ) → List A → Type κ
All P [] = Unit
All P (x ∷ xs) = P x × All P xs

module _ {ℓ κ} {A : Type ℓ} (P : A → Type κ) where
  pub All-mem : {a : A} (xs : List A) → All P xs → Memᴰ a xs → P a
  All-mem [] h m = elim m [ ]
  All-mem (x ∷ xs) h (Memᴰ.head e) = subst P (sym e) h.0
  All-mem (x ∷ xs) h (Memᴰ.tail m) = All-mem xs h.1 m

  pub All-of : (xs : List A) → ((a : A) → Memᴰ a xs → P a) → All P xs
  All-of [] f = tt
  All-of (x ∷ xs) f = (f x (Memᴰ.head refl), All-of xs (λ a m. f a (Memᴰ.tail m)))

  pub All-perm : {xs ys : List A} → Permᴰ xs ys → All P xs → All P ys
  All-perm Permᴰ.nil h = tt
  All-perm (Permᴰ.cons e p) h = (subst P e h.0, All-perm p h.1)
  All-perm (Permᴰ.swap e f) h = (subst P f h.1.0, (subst P e h.0, h.1.1))
  All-perm (Permᴰ.trans p q) h = All-perm q (All-perm p h)

pub All-mono {ℓ κ μ} :
    {A : Type ℓ} {P : A → Type κ} {Q : A → Type μ} (xs : List A)
    → ((a : A) → P a → Q a)
    → All P xs
    → All Q xs
All-mono [] f h = tt
All-mono (x ∷ xs) f h = (f x h.0, All-mono xs f h.1)

pub All-both {ℓ κ μ ν} :
    {A : Type ℓ} {P : A → Type κ} {Q : A → Type μ} {R : A → Type ν}
    → ((a : A) → P a → Q a → R a)
    → (xs : List A) → All P xs
    → All Q xs
    → All R xs
All-both f [] h k = tt
All-both f (x ∷ xs) h k = (f x h.0 k.0, All-both f xs h.1 k.1)

pub mem_perm {ℓ} : {A : Type ℓ} {a : A} {xs ys : List A} → Permᴰ xs ys → Memᴰ a xs → Memᴰ a ys
mem_perm {a} {xs = xs} p m =
    All-mem (λ x. Memᴰ x _) xs
      (All-perm (λ x. Memᴰ x _) (Permᴰ.symm p) (All-of (λ x. Memᴰ x _) _ (λ b k. k))) m

module _ {ℓ κ} {A : Type ℓ} {K : Type κ} (key : A → K) where
  -- No two items have the same key.
  abbrev pub HasDistinctKeys : List A → Type (ℓ ⊔ κ)
  HasDistinctKeys [] = Unit
  HasDistinctKeys (a ∷ xs) = All (λ b. key a ≢ key b) xs × HasDistinctKeys xs

  pub HasDistinctKeys-perm :
      {xs ys : List A} → Permᴰ xs ys → HasDistinctKeys xs → HasDistinctKeys ys
  HasDistinctKeys-perm Permᴰ.nil h = tt
  HasDistinctKeys-perm (Permᴰ.cons {a = a} {b = b} {l₁ = l} e p) h = (
    All-perm (λ x. key b ≢ key x) p (subst (λ y. All (λ x. key y ≢ key x) l) e h.0),
    HasDistinctKeys-perm p h.1,
  )
  HasDistinctKeys-perm (Permᴰ.swap {a = a} {b = b} {b' = b'} {l = l} e f) h = (
    (
      subst (λ y. key y ≢ key b') f (subst (λ y. key b ≢ key y) e (λ q. h.0.0 (sym q))),
      subst (λ y. All (λ x. key y ≢ key x) l) f h.1.0,
    ),
    (subst (λ y. All (λ x. key y ≢ key x) l) e h.0.1, h.1.1),
  )
  HasDistinctKeys-perm (Permᴰ.trans p q) h = HasDistinctKeys-perm q (HasDistinctKeys-perm p h)

module _ {ℓ} {A : Type ℓ} (p : A → Bool) where
  pub any_of_mem : {a : A} (xs : List A) → Memᴰ a xs → p a ≡ true → any p xs ≡ true
  any_of_mem [] m h = elim m [ ]
  any_of_mem (x ∷ xs) (Memᴰ.head e) h = subst (λ y. (p y || any p xs) ≡ true) e (ground arith)
  any_of_mem (x ∷ xs) (Memᴰ.tail m) h = ground (arith, any_of_mem xs m h)

  pub mem_of_any : (xs : List A) → any p xs ≡ true → (a : A) × Memᴰ a xs × (p a ≡ true)
  mem_of_any [] h = cc
  mem_of_any (x ∷ xs) h = elim (Bool-cases (p x)) [
    | inl e ↦ (x, Memᴰ.head refl, e)
    | inr e ↦ let (a, m, q) = mem_of_any xs (ground arith) in (a, Memᴰ.tail m, q)
  ]

  pub All-of-all : (xs : List A) → all p xs ≡ true → All (λ x. p x ≡ true) xs
  All-of-all [] h = tt
  All-of-all (x ∷ xs) h = (ground arith, All-of-all xs (ground arith))

  pub all_of-All : (xs : List A) → All (λ x. p x ≡ true) xs → all p xs ≡ true
  all_of-All [] h = refl
  all_of-All (x ∷ xs) h = ground (arith, h.0, all_of-All xs h.1)

  pub filter-All : (xs : List A) → All (λ x. p x ≡ true) (filter p xs)
  filter-All [] = tt
  filter-All (x ∷ xs) = elim (Bool-cases (p x)) [
    | inl e ↦ rw e (e, filter-All xs)
    | inr e ↦ rw e (filter-All xs)
  ]

  pub mem-filter : {a : A} (xs : List A) → Memᴰ a (filter p xs) → Memᴰ a xs
  mem-filter [] m = m
  mem-filter {a} (x ∷ xs) m = elim (Bool-cases (p x)) [
    | inl e ↦ kept (mem-filter xs) (rw e at m)
    | inr e ↦ Memᴰ.tail (mem-filter xs (rw e at m))
  ]
    where
      kept : (Memᴰ a (filter p xs) → Memᴰ a xs) → Memᴰ a (x ∷ filter p xs) → Memᴰ a (x ∷ xs)
      kept rec (Memᴰ.head q) = Memᴰ.head q
      kept rec (Memᴰ.tail q) = Memᴰ.tail (rec q)

  pub filter_mem : {a : A} (xs : List A) → Memᴰ a xs → p a ≡ true → Memᴰ a (filter p xs)
  filter_mem [] m h = elim m [ ]
  filter_mem (x ∷ xs) (Memᴰ.head q) h = rw (subst (λ y. p y ≡ true) q h) (Memᴰ.head q)
  filter_mem (x ∷ xs) (Memᴰ.tail q) h = elim (Bool-cases (p x)) [
    | inl e ↦ rw e (Memᴰ.tail (filter_mem xs q h))
    | inr e ↦ rw e (filter_mem xs q h)
  ]

pub All-snoc {ℓ κ} :
    {A : Type ℓ} (P : A → Type κ) (xs : List A) (a : A) → All P xs → P a → All P (xs ++ a ∷ [])
All-snoc P [] a h k = (k, tt)
All-snoc P (x ∷ xs) a h k = (h.0, All-snoc P xs a h.1 k)

pub length-snoc {ℓ} : {A : Type ℓ} (xs : List A) (a : A) → length (xs ++ a ∷ []) ≡ suc (length xs)
length-snoc [] a = refl
length-snoc (x ∷ xs) a = ap (λ n. suc n) (length-snoc xs a)

pub length-map {ℓ κ} :
    {A : Type ℓ} {B : Type κ} (f : A → B) (xs : List A) → length (map f xs) ≡ length xs
length-map f [] = refl
length-map f (x ∷ xs) = ap suc (length-map f xs)
