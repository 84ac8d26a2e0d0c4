-- ===== src/Scarcity/Pick.antt =====
-- `_pick_governing` returns a most restrictive candidate, the first in the canonical order.
use scarcity_router.Common.{
  ok, ℕ, ◌≤◌, ◌≡◌, refl, sym, ap, inl, inr, true, false, List, [], ◌∷◌, map, Memᴰ, arith, ltb,
  Bool-cases, All, Result, map_result, nat_eq, string_eq, option_eq, list_eq, pair_eq, Order, ◌<?◌,
  nat_order, string_order, pair_order, list_order, if◌then◌else◌, subst, All-mono, filter,
  filter_mem, All-mem, mem-filter, filter-All, All-of, ◌∙◌,
}
use scarcity_router.Capacity.Contract.{resource_order, kind_order}
use scarcity_router.Scarcity.Measure.{scarcity_penalty_units}
use scarcity_router.Scarcity.Bindings.{
  Candidate, canonical_window_key, max_from, min_from, min_by, has_penalty, pick_governing,
}
use scarcity_router.Scarcity.Bounds.{penalty, scarcity_penalty_units-ok, penalty-reflects_le}

pub max_from_bounds :
    (m : ℕ) (ns : List ℕ) (top : ℕ) → max_from m ns ≤ top → (m ≤ top) × All (λ n. n ≤ top) ns
unfolding max_from
max_from_bounds m [] top h = (h, tt)
max_from_bounds m (n ∷ ns) top h =
    let (above, rest) = max_from_bounds (if ltb m n then n else m) ns top h in
    (ground arith, (ground arith, rest))

pub max_from-mem : (m : ℕ) (ns : List ℕ) → Memᴰ (max_from m ns) (m ∷ ns)
unfolding max_from
max_from-mem m [] = Memᴰ.head refl
max_from-mem m (n ∷ ns) = elim (Bool-cases (ltb m n)) [
  | inl e ↦ rw e (Memᴰ.tail (max_from-mem n ns))
  | inr e ↦ rw e (skip (max_from-mem m ns))
]
  where
    skip : Memᴰ (max_from m ns) (m ∷ ns) → Memᴰ (max_from m ns) (m ∷ n ∷ ns)
    skip (Memᴰ.head q) = Memᴰ.head q
    skip (Memᴰ.tail q) = Memᴰ.tail (Memᴰ.tail q)

module _ {ℓ κ} {A : Type ℓ} {K : Type κ} ⦃o : Order K⦄ (key : A → K) where
  pub not_above_trans : (a b c : K) → (b <? a) ≡ false → (c <? b) ≡ false → (c <? a) ≡ false
  not_above_trans a b c e g = elim (Bool-cases (c <? a)) [
    | inl k ↦ elim (Bool-cases (a <? b)) [
      | inl m ↦ cc (o.trans c a b k m)
      | inr m ↦ cc (o.total b a e m)
    ]
    | inr k ↦ k
  ]

  asym : (a b : K) → (a <? b) ≡ true → (b <? a) ≡ false
  asym a b e = elim (Bool-cases (b <? a)) [ inl g ↦ cc (o.trans a b a e g, o.irrefl a) | inr g ↦ g ]

  abbrev pub IsLeast : A → List A → Type 0
  IsLeast a xs = All (λ x. (key x <? key a) ≡ false) xs

  min_from-IsLeast : (m : A) (xs : List A) (a : A) → a ≡ min_from key m xs → IsLeast a (m ∷ xs)
  unfolding min_from
  min_from-IsLeast m [] a h = (subst (λ b. (key m <? key b) ≡ false) (sym h) (o.irrefl (key m)), tt)
  min_from-IsLeast m (x ∷ xs) a h =
      let (kept, rest) = min_from-IsLeast (if key x <? key m then x else m) xs a h in
      (
        ground (arith, kept, not_above_trans (key a) (key x) (key m), asym (key x) (key m)),
        (ground (arith, kept, not_above_trans (key a) (key m) (key x)), rest),
      )

  min_from-mem : (m : A) (xs : List A) → Memᴰ (min_from key m xs) (m ∷ xs)
  unfolding min_from
  min_from-mem m [] = Memᴰ.head refl
  min_from-mem m (x ∷ xs) = elim (Bool-cases (key x <? key m)) [
    | inl e ↦ rw e (Memᴰ.tail (min_from-mem x xs))
    | inr e ↦ rw e (skip (min_from-mem m xs))
  ]
    where
      skip : Memᴰ (min_from key m xs) (m ∷ xs) → Memᴰ (min_from key m xs) (m ∷ x ∷ xs)
      skip (Memᴰ.head q) = Memᴰ.head q
      skip (Memᴰ.tail q) = Memᴰ.tail (Memᴰ.tail q)

  -- `min` of at least one item is an item with none below it.
  pub min_by-ok :
      {a : A} (xs : List A)
      → Memᴰ a xs
      → (m : A) × (min_by key xs ≡ ok m) × Memᴰ m xs × IsLeast m xs
  unfolding min_by
  min_by-ok [] h = elim h [ ]
  min_by-ok (x ∷ xs) h = (min_from key x xs, refl, min_from-mem x xs, min_from-IsLeast x xs _ refl)

pub map_result-ok {ℓ κ} :
    {A : Type ℓ} {B : Type κ} (f : A → Result B) (g : A → B) (xs : List A)
    → All (λ x. f x ≡ ok (g x)) xs
    → map_result f xs ≡ ok (map g xs)
map_result-ok f g [] h = refl
map_result-ok f g (x ∷ xs) h = rw (h.0, map_result-ok f g xs h.1)

pub mem-map {ℓ κ} :
    {A : Type ℓ} {B : Type κ} (f : A → B) (b : B) (xs : List A)
    → Memᴰ b (map f xs)
    → (a : A) × Memᴰ a xs × (b ≡ f a)
mem-map f b [] h = elim h [ ]
mem-map f b (x ∷ xs) (Memᴰ.head e) = (x, Memᴰ.head refl, e)
mem-map f b (x ∷ xs) (Memᴰ.tail m) = let (a, k, e) = mem-map f b xs m in (a, Memᴰ.tail k, e)

pub All-map {ℓ κ μ} :
    {A : Type ℓ} {B : Type κ} (P : B → Type μ) (f : A → B) (xs : List A)
    → All P (map f xs)
    → All (λ x. P (f x)) xs
All-map P f [] h = tt
All-map P f (x ∷ xs) h = (h.0, All-map P f xs h.1)

-- The percentages that the scan collected are within range.
abbrev pub AreValid : List Candidate → Type 0
AreValid cs = All (λ (c : Candidate). c.remaining ≤ 100) cs

abbrev penalty_of : Candidate → ℕ
penalty_of c = penalty c.remaining

-- `c` governs `cs`: nobody has less left, and of those with as little its key comes first.
pub record Governs (c : Candidate) (cs : List Candidate) : Type 0 where
  pub member : Memᴰ c cs
  pub most_restrictive : All (λ (d : Candidate). c.remaining ≤ d.remaining) cs
  pub first :
      All
        (λ (d : Candidate).
          d.remaining ≡ c.remaining → (canonical_window_key d <? canonical_window_key c) ≡ false)
        cs

has_penalty-true :
    (p : ℕ) (c : Candidate) → c.remaining ≤ 100 → has_penalty p c ≡ true → p ≡ penalty_of c
unfolding has_penalty
has_penalty-true p c h e = ground (arith, scarcity_penalty_units-ok c.remaining h)

has_penalty_of :
    (p : ℕ) (c : Candidate) → c.remaining ≤ 100 → p ≡ penalty_of c → has_penalty p c ≡ true
unfolding has_penalty
has_penalty_of p c h e = ground (arith, scarcity_penalty_units-ok c.remaining h)

abbrev ComesFirst : Candidate → Candidate → Type 0
ComesFirst c d = (canonical_window_key d <? canonical_window_key c) ≡ false

-- The least key among those with the greatest penalty governs.
Governs-tied :
    (top : ℕ) (c : Candidate) (cs : List Candidate)
    → AreValid cs
    → All (λ (d : Candidate). penalty_of d ≤ top) cs
    → Memᴰ c (filter (has_penalty top) cs)
    → All (ComesFirst c) (filter (has_penalty top) cs)
    → Governs c cs
Governs-tied top c cs valid below tied least =
    let member = mem-filter (has_penalty top) cs tied in
    let in_range = λ (d : Candidate) (m : Memᴰ d cs).
      All-mem (λ (x : Candidate). x.remaining ≤ 100) cs valid m in
    let is_top : top ≡ penalty_of c =
      has_penalty-true top c (in_range c member)
        (All-mem (λ x. has_penalty top x ≡ true) _ (filter-All (has_penalty top) cs) tied) in
    record {
      member = member;
      most_restrictive =
          All-of (λ (d : Candidate). c.remaining ≤ d.remaining) cs
            λ d m.
              penalty-reflects_le d.remaining c.remaining (in_range d m) (in_range c member)
                (rw (← is_top) (All-mem (λ (x : Candidate). penalty_of x ≤ top) cs below m));
      first = All-of _ cs λ d m same. All-mem (ComesFirst c) _ least (
          filter_mem (has_penalty top) cs m
            (has_penalty_of top d (in_range d m) (is_top ∙ ap penalty (sym same))));
    }

-- Of candidates, at least one, whose percentages are at most 100, `_pick_governing` returns one: nobody of them
-- has less remaining, and of those with as little none comes before it in the canonical order.
pub pick_governing-ok :
    (c₀ : Candidate) (cs : List Candidate)
    → AreValid (c₀ ∷ cs)
    → (c : Candidate) × (pick_governing (c₀ ∷ cs) ≡ ok c) × Governs c (c₀ ∷ cs)
unfolding pick_governing
pick_governing-ok c₀ cs valid =
    let units = λ (c : Candidate). scarcity_penalty_units c.remaining in
    let computed =
      map_result-ok units penalty_of (c₀ ∷ cs)
        (All-mono (c₀ ∷ cs) (λ c h. scarcity_penalty_units-ok c.remaining h) valid) in
    let top = max_from (penalty_of c₀) (map penalty_of cs) in
    let bounds = max_from_bounds (penalty_of c₀) (map penalty_of cs) top (omega arith) in
    let (c₁, in₁, top₁) =
      mem-map penalty_of top (c₀ ∷ cs) (max_from-mem (penalty_of c₀) (map penalty_of cs)) in
    let tied₁ = filter_mem (has_penalty top) (c₀ ∷ cs) in₁ (
      has_penalty_of top c₁ (All-mem (λ (d : Candidate). d.remaining ≤ 100) (c₀ ∷ cs) valid in₁)
        top₁) in
    let (c, picked, tied, least) =
      min_by-ok canonical_window_key (filter (has_penalty top) (c₀ ∷ cs)) tied₁ in
    (
      c,
      rw computed picked,
      Governs-tied top c (c₀ ∷ cs) valid (bounds.0, All-map (λ n. n ≤ top) penalty_of cs bounds.1)
          tied least,
    )
