-- ===== src/Policy/User.antt =====
-- The container `UserPolicy` (policy.py).
use scarcity_router.Common.{
  ok, String, List, [], ◌++◌, map, leb, sorted, Result, nat_eq, string_eq, option_eq, list_eq,
  pair_eq, nat_order, string_order, pair_order, list_order, ◌>>◌, guard,
}
use scarcity_router.Types.Contract.{all_new}
use scarcity_router.Policy.{
  policy_reason_eq, policy_reason_order, ReservationRule, WeeklyRule, UserPolicy,
}

abbrev reservation_ids : List ReservationRule → List String
reservation_ids rules = map (λ (r : ReservationRule). r.rule_id) rules

abbrev weekly_ids : List WeeklyRule → List String
weekly_ids rules = map (λ (r : WeeklyRule). r.rule_id) rules

-- The ids in the order of the three loops that share the set `seen`.
abbrev pub rule_ids : UserPolicy → List String
rule_ids p = reservation_ids p.reservations ++ (weekly_ids p.blackouts ++ weekly_ids p.happy_hours)

-- `UserPolicy.__post_init__`
unfoldable pub check_user_policy : UserPolicy → Result UserPolicy
unfolding all_new sorted
check_user_policy p = do
  guard (leb 1 p.policy_version) "policy_version below 1"
  guard (all_new (λ (i : String). i) [] (rule_ids p)) "duplicate rule id across the policy"
  ok (record p {
    reservations = sorted (λ (r : ReservationRule). r.rule_id) p.reservations;
    blackouts = sorted (λ (r : WeeklyRule). r.rule_id) p.blackouts;
    happy_hours = sorted (λ (r : WeeklyRule). r.rule_id) p.happy_hours;
  })
