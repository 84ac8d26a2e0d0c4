-- ===== src/Policy/Storage.antt =====
-- What `UserPolicy` stores (policy.py).
use scarcity_router.Common.{
  ok, String, ◌≡◌, sym, ◌∙◌, ◌≢◌, List, [], ◌∷◌, ◌++◌, map, Permᴰ, leb, All, HasDistinctKeys,
  sorted, sorted_of_perm, guard, guard->>-eq-ok, >>-eq-ok, ok-injective, nat_eq, string_eq,
  option_eq, list_eq, pair_eq, nat_order, string_order, pair_order, list_order,
}
use scarcity_router.Types.Contract.{all_new}
use scarcity_router.Types.Facts.{all_new-HasDistinctKeys}
use scarcity_router.Policy.{
  policy_reason_eq, policy_reason_order, ReservationRule, WeeklyRule, UserPolicy,
}
use scarcity_router.Policy.User.{rule_ids, check_user_policy}

abbrev rule_key : ReservationRule → String
rule_key r = r.rule_id

abbrev weekly_key : WeeklyRule → String
weekly_key r = r.rule_id

-- The same rules, in some order.
abbrev pub SameRules : UserPolicy → UserPolicy → Type 0
SameRules p q =
    Permᴰ p.reservations q.reservations
    × Permᴰ p.blackouts q.blackouts
    × Permᴰ p.happy_hours q.happy_hours

-- Keys of two parts of a list without repetition.
distinct_parts :
    (xs ys : List String)
    → HasDistinctKeys (λ (i : String). i) (xs ++ ys)
    → HasDistinctKeys (λ (i : String). i) xs × HasDistinctKeys (λ (i : String). i) ys
distinct_parts [] ys h = (tt, h)
distinct_parts (x ∷ xs) ys h = let (a, b) = distinct_parts xs ys h.1 in ((front xs h.0, a), b)
  where
    front : (zs : List String) → All (λ b. x ≢ b) (zs ++ ys) → All (λ b. x ≢ b) zs
    front [] k = tt
    front (z ∷ zs) k = (k.0, front zs k.1)

distinct_of_ids {ℓ} :
    {A : Type ℓ} (key : A → String) (xs : List A)
    → HasDistinctKeys (λ (i : String). i) (map key xs)
    → HasDistinctKeys key xs
distinct_of_ids key [] h = tt
distinct_of_ids {A = A} key (x ∷ xs) h = (front xs h.0, distinct_of_ids key xs h.1)
  where
    front : (zs : List A) → All (λ b. key x ≢ b) (map key zs) → All (λ b. key x ≢ key b) zs
    front [] k = tt
    front (z ∷ zs) k = (k.0, front zs k.1)

policy_steps :
    (p q : UserPolicy)
    → check_user_policy p ≡ ok q
    → HasDistinctKeys (λ (i : String). i) (rule_ids p)
      × (q ≡ record p {
        reservations = sorted rule_key p.reservations;
        blackouts = sorted weekly_key p.blackouts;
        happy_hours = sorted weekly_key p.happy_hours;
      })
unfolding check_user_policy
policy_steps p q h =
    let (_, h₁) = >>-eq-ok (guard (leb 1 p.policy_version) _) _ h in
    let (fresh, h₂) = guard->>-eq-ok (all_new (λ (i : String). i) [] (rule_ids p)) _ _ h₁ in
    (all_new-HasDistinctKeys (λ (i : String). i) [] (rule_ids p) fresh, sym (ok-injective h₂))

-- Of two policies that pass the checks and hold the same rules, with equal version and modes, the same is
-- stored, whatever the order of their rules.
pub check_user_policy-canonical :
    (p p' q q' : UserPolicy)
    → check_user_policy p ≡ ok q
    → check_user_policy p' ≡ ok q'
    → p.policy_version ≡ p'.policy_version
    → p.unknown_capacity_mode ≡ p'.unknown_capacity_mode
    → p.replenishment_mode ≡ p'.replenishment_mode
    → SameRules p p'
    → q ≡ q'
check_user_policy-canonical p p' q q' h h' v u r (a, b, c) =
    let (ids, stored_q) = policy_steps p q h in
    let (_, stored_q') = policy_steps p' q' h' in
    let (res, rest) = distinct_parts (map rule_key p.reservations) _ ids in
    let (black, happy) =
      distinct_parts (map weekly_key p.blackouts) (map weekly_key p.happy_hours) rest in
    stored_q
    ∙ (λ i. record {
      policy_version = v i;
      unknown_capacity_mode = u i;
      replenishment_mode = r i;
      reservations = sorted_of_perm rule_key a (distinct_of_ids rule_key p.reservations res) i;
      blackouts = sorted_of_perm weekly_key b (distinct_of_ids weekly_key p.blackouts black) i;
      happy_hours = sorted_of_perm weekly_key c (distinct_of_ids weekly_key p.happy_hours happy) i;
    })
    ∙ sym stored_q'
