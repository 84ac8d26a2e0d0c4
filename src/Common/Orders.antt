-- ===== src/Common/Orders.antt =====
-- Python compares numbers, texts and tuples by total orders; an instance gives the strict test.
use Prim.Native.Nat.{ℕ, compare as compare_ℕ, Ordering}
use Prim.Native.Char.{Char, code}
use Prim.Native.String.{String, compare, then as then_compare}
use Prim.Native.String.compare as str_compare
use text.Mathlib.TextEquality.{Char-path}
use text.Mathlib.Text.{is_lt}
use mathlib.Core.Path.{◌≡◌, refl, ap, ap₂, ◌∙◌}
use mathlib.Core.Logic.{◌↔◌}
use mathlib.Core.Bool.{Bool, true, false, not, ◌&&◌, ◌||◌}
use mathlib.Core.List.{List, [], ◌∷◌}
use native.Mathlib.Omega.{arith}
use scarcity_router.Common.Tests.{ltb, eqb, eqb_iff}
use scarcity_router.Common.Equality.{Eq, ◌==◌}

-- ------------------------------------------------------------------ total orders

pub record Order {ℓ} (A : Type ℓ) : Type ℓ where
  pub lt : A → A → Bool
  pub irrefl : (a : A) → lt a a ≡ false
  pub trans : (a b c : A) → lt a b ≡ true → lt b c ≡ true → lt a c ≡ true
  pub total : (a b : A) → lt a b ≡ false → lt b a ≡ false → a ≡ b

infix 50 ◌<?◌
abbrev pub ◌<?◌ {ℓ} : {A : Type ℓ} ⦃o : Order A⦄ → A → A → Bool
◌<?◌ ⦃o⦄ = o.lt

pub ltb_irrefl : (a : ℕ) → ltb a a ≡ false
ltb_irrefl a = ground arith

pub ltb_trans : (a b c : ℕ) → ltb a b ≡ true → ltb b c ≡ true → ltb a c ≡ true
ltb_trans a b c h k = ground arith

pub ltb-total : (a b : ℕ) → ltb a b ≡ false → ltb b a ≡ false → a ≡ b
ltb-total a b h k = ground arith

instance abbrev pub nat_order : Order ℕ
nat_order = record { lt = ltb; irrefl = ltb_irrefl; trans = ltb_trans; total = ltb-total }

-- Texts are compared by code points, the first difference deciding.
abbrev pub str_lt : String → String → Bool
str_lt s t = is_lt (compare s t)

is_lt-then_compare :
    (o r : Ordering)
    → is_lt (then_compare o r) ≡ (
        elim o [ Ordering.lt ↦ true | _ ↦ false ]
        || (elim o [ Ordering.eq ↦ true | _ ↦ false ] && is_lt r))
is_lt-then_compare Ordering.lt r = refl
is_lt-then_compare Ordering.eq r = refl
is_lt-then_compare Ordering.gt r = refl

pub str_lt-cons :
    (c d : Char) (s t : String)
    → str_lt (String.◌∷◌ c s) (String.◌∷◌ d t)
      ≡ (ltb (code c) (code d) || (eqb (code c) (code d) && str_lt s t))
str_lt-cons c d s t =
    ap is_lt (str_compare.cons-cons c d s t)
    ∙ is_lt-then_compare (compare_ℕ (code c) (code d)) (compare s t)

pub str_lt_irrefl : (s : String) → str_lt s s ≡ false
str_lt_irrefl String.[] = ap is_lt str_compare.nil-nil
str_lt_irrefl (String.◌∷◌ c s) = str_lt-cons c c s s ∙ ground (arith, str_lt_irrefl s)

pub str_lt_trans : (s t u : String) → str_lt s t ≡ true → str_lt t u ≡ true → str_lt s u ≡ true
str_lt_trans String.[] String.[] u h k = cc
str_lt_trans String.[] (String.◌∷◌ d t) String.[] h k = cc (ap is_lt (str_compare.cons-nil d t))
str_lt_trans String.[] (String.◌∷◌ d t) (String.◌∷◌ e u) h k = ap is_lt (str_compare.nil-cons e u)
str_lt_trans (String.◌∷◌ c s) String.[] u h k = cc (ap is_lt (str_compare.cons-nil c s))
str_lt_trans (String.◌∷◌ c s) (String.◌∷◌ d t) String.[] h k =
    cc (ap is_lt (str_compare.cons-nil d t))
str_lt_trans (String.◌∷◌ c s) (String.◌∷◌ d t) (String.◌∷◌ e u) h k =
    ground
      (arith, str_lt-cons c d s t, str_lt-cons d e t u, str_lt-cons c e s u, str_lt_trans s t u)

pub str_lt-total : (s t : String) → str_lt s t ≡ false → str_lt t s ≡ false → s ≡ t
str_lt-total String.[] String.[] h k = refl
str_lt-total String.[] (String.◌∷◌ d t) h k = cc (ap is_lt (str_compare.nil-cons d t))
str_lt-total (String.◌∷◌ c s) String.[] h k = cc (ap is_lt (str_compare.nil-cons c s))
str_lt-total (String.◌∷◌ c s) (String.◌∷◌ d t) h k =
    let same : code c ≡ code d = ground (arith, str_lt-cons c d s t, str_lt-cons d c t s) in
    ap₂ String.◌∷◌ (Char-path c d same)
      (str_lt-total s t (ground (arith, str_lt-cons c d s t)) (ground (arith, str_lt-cons d c t s)))

instance abbrev pub string_order : Order String
string_order = record {
  lt = str_lt;
  irrefl = str_lt_irrefl;
  trans = str_lt_trans;
  total = str_lt-total;
}

-- Tuples, by the first component that differs.
module _ {ℓ κ} {A : Type ℓ} {B : Type κ} ⦃o : Order A⦄ ⦃q : Order B⦄ where
  abbrev pub pair_lt : A × B → A × B → Bool
  pair_lt (a, b) (c, d) = o.lt a c || (not (o.lt c a) && q.lt b d)

  pub pair_lt_irrefl : (p : A × B) → pair_lt p p ≡ false
  pair_lt_irrefl (a, b) = ground (arith, o.irrefl a, q.irrefl b)

  pub pair_lt_trans : (p r s : A × B) → pair_lt p r ≡ true → pair_lt r s ≡ true → pair_lt p s ≡ true
  pair_lt_trans (a, b) (c, d) (e, f) h k =
      ground (arith, o.trans a c e, o.total a c, o.total c e, q.trans b d f, o.irrefl a)

  pub pair_lt-total : (p r : A × B) → pair_lt p r ≡ false → pair_lt r p ≡ false → p ≡ r
  pair_lt-total (a, b) (c, d) h k =
      let e : a ≡ c = o.total a c (ground arith) (ground arith) in
      let f : b ≡ d = q.total b d (ground arith) (ground arith) in λ i. (e i, f i)

  instance abbrev pub pair_order : Order (A × B)
  pair_order = record {
    lt = pair_lt;
    irrefl = pair_lt_irrefl;
    trans = pair_lt_trans;
    total = pair_lt-total;
  }

-- A tuple of numbers of any length: a proper prefix comes first.
abbrev pub list_lt : List ℕ → List ℕ → Bool
list_lt [] [] = false
list_lt [] (y ∷ ys) = true
list_lt (x ∷ xs) [] = false
list_lt (x ∷ xs) (y ∷ ys) = ltb x y || (eqb x y && list_lt xs ys)

pub list_lt_irrefl : (xs : List ℕ) → list_lt xs xs ≡ false
list_lt_irrefl [] = refl
list_lt_irrefl (x ∷ xs) = ground (arith, list_lt_irrefl xs)

pub list_lt_trans :
    (xs ys zs : List ℕ) → list_lt xs ys ≡ true → list_lt ys zs ≡ true → list_lt xs zs ≡ true
list_lt_trans [] [] zs h k = cc
list_lt_trans [] (y ∷ ys) [] h k = cc
list_lt_trans [] (y ∷ ys) (z ∷ zs) h k = refl
list_lt_trans (x ∷ xs) [] zs h k = cc
list_lt_trans (x ∷ xs) (y ∷ ys) [] h k = cc
list_lt_trans (x ∷ xs) (y ∷ ys) (z ∷ zs) h k = ground (arith, list_lt_trans xs ys zs)

pub list_lt-total : (xs ys : List ℕ) → list_lt xs ys ≡ false → list_lt ys xs ≡ false → xs ≡ ys
list_lt-total [] [] h k = refl
list_lt-total [] (y ∷ ys) h k = cc
list_lt-total (x ∷ xs) [] h k = cc
list_lt-total (x ∷ xs) (y ∷ ys) h k =
    let same : x ≡ y = ground arith in
    ap₂ ◌∷◌ same (list_lt-total xs ys (ground arith) (ground arith))

instance abbrev pub list_order : Order (List ℕ)
list_order = record {
  lt = list_lt;
  irrefl = list_lt_irrefl;
  trans = list_lt_trans;
  total = list_lt-total;
}

-- ------------------------------------------------------------------ enumerations

-- A closed vocabulary is compared by the rank of its words.
module _ {ℓ} {A : Type ℓ} (rank : A → ℕ)
    (rank_injective : (a b : A) → rank a ≡ rank b → a ≡ b) where
  pub rank_beq_iff : (a b : A) → (eqb (rank a) (rank b) ≡ true) ↔ (a ≡ b)
  rank_beq_iff a b = (
    λ h. rank_injective a b ((eqb_iff (rank a) (rank b)).0 h),
    λ e. (eqb_iff (rank a) (rank b)).1 (ap rank e),
  )

  abbrev pub eq_of_rank : Eq A
  eq_of_rank = record { test = λ a b. eqb (rank a) (rank b); test_iff = rank_beq_iff }

  pub rank_irrefl : (a : A) → ltb (rank a) (rank a) ≡ false
  rank_irrefl a = ltb_irrefl (rank a)

  pub rank_trans :
      (a b c : A)
      → ltb (rank a) (rank b) ≡ true
      → ltb (rank b) (rank c) ≡ true
      → ltb (rank a) (rank c) ≡ true
  rank_trans a b c = ltb_trans (rank a) (rank b) (rank c)

  pub rank-total : (a b : A) → ltb (rank a) (rank b) ≡ false → ltb (rank b) (rank a) ≡ false → a ≡ b
  rank-total a b h k = rank_injective a b (ltb-total (rank a) (rank b) h k)

  abbrev pub order_of_rank : Order A
  order_of_rank = record {
    lt = λ a b. ltb (rank a) (rank b);
    irrefl = rank_irrefl;
    trans = rank_trans;
    total = rank-total;
  }

-- A record is compared by a key that determines it.
module _ {ℓ κ} {A : Type ℓ} {K : Type κ} ⦃e : Eq K⦄ (key : A → K)
    (key_injective : (a b : A) → key a ≡ key b → a ≡ b) where
  pub key_beq_iff : (a b : A) → ((key a == key b) ≡ true) ↔ (a ≡ b)
  key_beq_iff a b = (
    λ h. key_injective a b ((e.test_iff (key a) (key b)).0 h),
    λ p. (e.test_iff (key a) (key b)).1 (ap key p),
  )

  abbrev pub eq_of_key : Eq A
  eq_of_key = record { test = λ a b. key a == key b; test_iff = key_beq_iff }
