-- ===== src/Policy/FirstRule.antt =====
-- The first rule that applies decides a blackout and a happy hour (policy.py).
use scarcity_router.Policy.Contract.{new_blackout_decision, new_happy_hour_decision}
use scarcity_router.Common.{
  ok, ◌≡◌, refl, ap, subst, inl, inr, Bool, true, Option, none, some, List, [], ◌∷◌, Bool-cases,
  find, nat_eq, string_eq, option_eq, list_eq, pair_eq, nat_order, string_order, pair_order,
  list_order, All, is_some, String, any, ◌∙◌,
}
use scarcity_router.Types.SafeId.{is_safe_id, check_safe_id}
use scarcity_router.Types.Identity.{ModelIdentity, identity_eq, scope_eq}
use scarcity_router.Policy.{
  policy_reason_eq, policy_reason_order, WeeklyRule, WeeklyBlackoutRule, WeeklyHappyHourRule,
  BlackoutDecision, HappyHourDecision, PolicyReason,
}
use scarcity_router.Policy.Schedule.{Instant, Zones, weekday_eq, weekday_order}
use scarcity_router.Policy.Rules.{
  applies, first_rule, evaluate_blackouts, evaluate_happy_hours, blackout_of, happy_hour_of,
}

-- The test of the rules raises nothing: zones and texts are those that the rules were checked with.
abbrev pub Evaluates :
    Zones → ModelIdentity → Instant → (WeeklyRule → Bool) → List WeeklyRule → Type 0
Evaluates zones identity at hits rules =
    All (λ (r : WeeklyRule). (applies zones identity at r ≡ ok (hits r))) rules

abbrev pub HaveSafeIds : List WeeklyRule → Type 0
HaveSafeIds rules =
    All (λ (r : WeeklyRule). (is_safe_id r.rule_id ≡ true) × (is_safe_id r.reason_code ≡ true))
      rules

first_rule-find :
    (zones : Zones) (identity : ModelIdentity) (at : Instant) (hits : WeeklyRule → Bool)
    (rules : List WeeklyRule)
    → Evaluates zones identity at hits rules
    → first_rule zones identity at rules ≡ ok (find hits rules)
unfolding first_rule
first_rule-find zones identity at hits [] h = refl
first_rule-find zones identity at hits (r ∷ rules) h = elim (Bool-cases (hits r)) [
  | inl e ↦ rw (h.0, e) refl
  | inr e ↦ rw (h.0, e) (first_rule-find zones identity at hits rules h.1)
]

abbrev IsSafe : Option WeeklyRule → Type 0
IsSafe none = Unit
IsSafe (some r) = (is_safe_id r.rule_id ≡ true) × (is_safe_id r.reason_code ≡ true)

find-IsSafe :
    (hits : WeeklyRule → Bool) (rules : List WeeklyRule)
    → HaveSafeIds rules
    → (o : Option WeeklyRule) → find hits rules ≡ o
    → IsSafe o
find-IsSafe hits rules h none e = tt
find-IsSafe hits [] h (some r) e = cc
find-IsSafe hits (x ∷ rules) h (some r) e = elim (Bool-cases (hits x)) [
  | inl g ↦
      subst (λ (y : WeeklyRule). (is_safe_id y.rule_id ≡ true) × (is_safe_id y.reason_code ≡ true))
        (same x r (rw g at e)) h.0
  | inr g ↦ find-IsSafe hits rules h.1 (some r) (rw g at e)
]
  where
    same : (a b : WeeklyRule) → some a ≡ some b → a ≡ b
    same a b q = ap (λ o. elim o [ none ↦ a | some z ↦ z ]) q

is_some-find :
    (hits : WeeklyRule → Bool) (rules : List WeeklyRule)
    → is_some (find hits rules) ≡ any hits rules
is_some-find hits [] = refl
is_some-find hits (r ∷ rules) = elim (Bool-cases (hits r)) [
  | inl e ↦ rw e refl
  | inr e ↦ rw e (is_some-find hits rules)
]

abbrev pub names_of : Option WeeklyRule → Option String × Option String
names_of none = (none, none)
names_of (some r) = (some r.rule_id, some r.reason_code)

blackout_of-ok :
    (o : Option WeeklyRule)
    → IsSafe o
    → (d : BlackoutDecision) × (blackout_of o ≡ ok d)
      × (d.blocked ≡ is_some o)
      × ((d.rule_id, d.reason_code) ≡ names_of o)
unfolding new_blackout_decision check_safe_id
blackout_of-ok none h = (_, refl, refl, refl)
blackout_of-ok (some r) h = (built, rw (h.0, h.1) refl, refl, refl)
  where
    built : BlackoutDecision
    built = record {
      blocked = true;
      rule_id = some r.rule_id;
      reason_code = some r.reason_code;
      reason_codes = PolicyReason.policy_blocked ∷ [];
    }

happy_hour_of-ok :
    (o : Option WeeklyRule)
    → IsSafe o
    → (d : HappyHourDecision) × (happy_hour_of o ≡ ok d)
      × (d.preferred ≡ is_some o)
      × ((d.rule_id, d.reason_code) ≡ names_of o)
unfolding new_happy_hour_decision check_safe_id
happy_hour_of-ok none h = (_, refl, refl, refl)
happy_hour_of-ok (some r) h = (built, rw (h.0, h.1) refl, refl, refl)
  where
    built : HappyHourDecision
    built = record { preferred = true; rule_id = some r.rule_id; reason_code = some r.reason_code }

-- Where the test of each rule raises nothing and the rules have safe ids, the blackout decision is built:
-- it blocks just if some rule applies, and names the first one that does.
pub evaluate_blackouts-first :
    (zones : Zones) (rules : List WeeklyBlackoutRule) (identity : ModelIdentity) (at : Instant)
    (hits : WeeklyRule → Bool)
    → Evaluates zones identity at hits rules
    → HaveSafeIds rules
    → (d : BlackoutDecision) × (evaluate_blackouts zones rules identity at ≡ ok d)
      × (d.blocked ≡ any hits rules)
      × ((d.rule_id, d.reason_code) ≡ names_of (find hits rules))
unfolding evaluate_blackouts
evaluate_blackouts-first zones rules identity at hits h safe =
    let (d, built, blocks, names) =
      blackout_of-ok (find hits rules) (find-IsSafe hits rules safe (find hits rules) refl) in
    (
      d,
      rw (first_rule-find zones identity at hits rules h) built,
      blocks ∙ is_some-find hits rules,
      names,
    )

-- Under the same conditions a happy hour prefers the candidate just if some rule applies, and names the
-- first one that does.
pub evaluate_happy_hours-first :
    (zones : Zones) (rules : List WeeklyHappyHourRule) (identity : ModelIdentity) (at : Instant)
    (hits : WeeklyRule → Bool)
    → Evaluates zones identity at hits rules
    → HaveSafeIds rules
    → (d : HappyHourDecision) × (evaluate_happy_hours zones rules identity at ≡ ok d)
      × (d.preferred ≡ any hits rules)
      × ((d.rule_id, d.reason_code) ≡ names_of (find hits rules))
unfolding evaluate_happy_hours
evaluate_happy_hours-first zones rules identity at hits h safe =
    let (d, built, prefers, names) =
      happy_hour_of-ok (find hits rules) (find-IsSafe hits rules safe (find hits rules) refl) in
    (
      d,
      rw (first_rule-find zones identity at hits rules h) built,
      prefers ∙ is_some-find hits rules,
      names,
    )
