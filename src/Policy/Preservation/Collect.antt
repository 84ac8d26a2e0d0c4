-- ===== src/Policy/Preservation/Collect.antt =====
-- The loop of `evaluate_reservation` (policy.py) over the target windows, and its least value.
use scarcity_router.Common.{
  some-injective, ℕ, ◌≤◌, min, ◌≡◌, refl, ap, inl, inr, ◌&&◌, Option, none, some, List, [], ◌∷◌,
  Memᴰ, arith, Bool-cases, is_some, filter, all, All, nat_eq, string_eq, option_eq, list_eq,
  pair_eq, nat_order, string_order, pair_order, list_order, subst, ◌∙◌, ◌⊎◌, sym,
}
use scarcity_router.Capacity.{CapacityWindow}
use scarcity_router.Capacity.Contract.{
  resource_eq, kind_eq, resource_order, kind_order, diagnostic_eq,
}
use scarcity_router.Scarcity.Bindings.{usable_remaining}
use scarcity_router.Policy.{policy_reason_eq, policy_reason_order, ReservationRule}
use scarcity_router.Policy.Reservation.{is_target, prepend, remaining_values, min_of}

-- The loop, on the target windows alone.
abbrev pub collect : List CapacityWindow → Option (List ℕ)
collect [] = some []
collect (w ∷ ws) = prepend (usable_remaining w) (collect ws)

pub remaining_values-filter :
    (rule : ReservationRule) (ws : List CapacityWindow)
    → remaining_values rule ws ≡ collect (filter (is_target rule) ws)
unfolding remaining_values
remaining_values-filter rule [] = refl
remaining_values-filter rule (w ∷ ws) = elim (Bool-cases (is_target rule w)) [
  | inl e ↦ rw e (ap (prepend (usable_remaining w)) (remaining_values-filter rule ws))
  | inr e ↦ rw e (remaining_values-filter rule ws)
]

pub min_of_bounds : (r : ℕ) (rs : List ℕ) (m : ℕ) → m ≤ min_of r rs → (m ≤ r) × All (λ s. m ≤ s) rs
unfolding min_of
min_of_bounds r [] m h = (h, tt)
min_of_bounds r (s ∷ rs) m h =
    let (a, b) = min_of_bounds (min r s) rs m h in (omega (arith, a), (omega (arith, a), b))

pub min_of-mem : (r : ℕ) (rs : List ℕ) → Memᴰ (min_of r rs) (r ∷ rs)
unfolding min_of
min_of-mem r [] = Memᴰ.head refl
min_of-mem r (s ∷ rs) = place (min_of-mem (min r s) rs)
  where
    either : (min r s ≡ r) ⊎ (min r s ≡ s)
    either = omega arith

    place : {n : ℕ} → Memᴰ n (min r s ∷ rs) → Memᴰ n (r ∷ s ∷ rs)
    place (Memᴰ.head q) = elim either [
      | inl e ↦ Memᴰ.head (q ∙ e)
      | inr e ↦ Memᴰ.tail (Memᴰ.head (q ∙ e))
    ]
    place (Memᴰ.tail m) = Memᴰ.tail (Memᴰ.tail m)

-- What `collect` returns: a value for each window, in order.
pub collect-mem :
    (ws : List CapacityWindow) (rs : List ℕ) (r : ℕ)
    → collect ws ≡ some rs
    → Memᴰ r rs
    → (w : CapacityWindow) × Memᴰ w ws × (usable_remaining w ≡ some r)
collect-mem [] rs r h m = elim (subst (Memᴰ r) (sym (some-injective h)) m) [ ]
collect-mem (w ∷ ws) rs r h m =
    by_value (λ ss g k. collect-mem ws ss r g k) (usable_remaining w) (collect ws) refl refl h
  where
    by_value :
        ((ss : List ℕ)
          → collect ws ≡ some ss
          → Memᴰ r ss
          → (v : CapacityWindow) × Memᴰ v ws × (usable_remaining v ≡ some r))
        → (o : Option ℕ) (rest : Option (List ℕ)) → usable_remaining w ≡ o
        → collect ws ≡ rest
        → prepend o rest ≡ some rs
        → (v : CapacityWindow) × Memᴰ v (w ∷ ws) × (usable_remaining v ≡ some r)
    by_value rec none rest e g q = cc
    by_value rec (some s) none e g q = cc
    by_value rec (some s) (some ss) e g q = elim (subst (Memᴰ r) (sym (some-injective q)) m) [
      | Memᴰ.head p ↦ (w, Memᴰ.head refl, e ∙ ap some (sym p))
      | Memᴰ.tail k ↦ let (v, n, f) = rec ss g k in (v, Memᴰ.tail n, f)
    ]

pub collect-least :
    (ws : List CapacityWindow) (rs : List ℕ) (m : ℕ)
    → collect ws ≡ some rs
    → All (λ s. m ≤ s) rs
    → All (λ w. (s : ℕ) → usable_remaining w ≡ some s → m ≤ s) ws
collect-least [] rs m h k = tt
collect-least (w ∷ ws) rs m h k =
    by_value (λ ss g b. collect-least ws ss m g b) (usable_remaining w) (collect ws) refl refl h
  where
    by_value :
        ((ss : List ℕ)
          → collect ws ≡ some ss
          → All (λ n. m ≤ n) ss
          → All (λ v. (s : ℕ) → usable_remaining v ≡ some s → m ≤ s) ws)
        → (o : Option ℕ) (rest : Option (List ℕ)) → usable_remaining w ≡ o
        → collect ws ≡ rest
        → prepend o rest ≡ some rs
        → All (λ v. (s : ℕ) → usable_remaining v ≡ some s → m ≤ s) (w ∷ ws)
    by_value rec none rest e g q = cc
    by_value rec (some s) none e g q = cc
    by_value rec (some s) (some ss) e g q =
        let kept : All (λ n. m ≤ n) (s ∷ ss) =
          subst (All (λ n. m ≤ n)) (sym (some-injective q)) k in
        (λ t f. subst (λ n. m ≤ n) (some-injective (sym e ∙ f)) kept.0, rec ss g kept.1)

-- It returns no list just if some window is unreadable.
pub collect-is_some :
    (ws : List CapacityWindow) → is_some (collect ws) ≡ all (λ w. is_some (usable_remaining w)) ws
collect-is_some [] = refl
collect-is_some (w ∷ ws) =
    joint (usable_remaining w) (collect ws)
    ∙ ap (λ b. is_some (usable_remaining w) && b) (collect-is_some ws)
  where
    joint :
        (o : Option ℕ) (rest : Option (List ℕ))
        → is_some (prepend o rest) ≡ (is_some o && is_some rest)
    joint none rest = refl
    joint (some s) none = refl
    joint (some s) (some ss) = refl
