-- ===== src/Resource/Samples.antt =====
-- The theorems on the registry of resources (resource_state.py), applied to sample observations.
use scarcity_router.Resource.Output.{route_output_code}
use scarcity_router.Resource.Admission.{route_output_code-can_give}
use scarcity_router.Resource.Capture.{captured, resource_snapshot_from_capacity}
use scarcity_router.Resource.Capturing.{resource_snapshot_from_capacity-captured}
use scarcity_router.Capacity.Contract.{
  resource_eq, kind_eq, resource_order, kind_order, diagnostic_eq, check_snapshot,
}
use scarcity_router.Resource.Instant.{instant_of}
use scarcity_router.Resource.Staleness.{stale-stays}
use scarcity_router.Common.{
  ok, ◌≡◌, refl, true, none, some, [], ◌∷◌, ◌>>=◌, ◌>>◌, lookup, option_eq, list_eq, pair_eq,
  string_eq, nat_eq, ◌<?◌, nat_order, string_order, pair_order, list_order, ltb, false, arith,
  is_some, guard,
}
use scarcity_router.Capacity.{SnapshotStatus, CapacitySnapshot}
use scarcity_router.Resource.{ObservationClass, Freshness, ExecutionCapabilities, RegistrySnapshot}
use scarcity_router.Resource.Contract.{channel_eq, entitlement_eq, is_sorted, diagnostic_sort_key}
use scarcity_router.Resource.Checks.{check_observation}
use scarcity_router.Resource.Registry.{
  register, empty_registry, apply_snapshot, apply_worker_report,
}
use scarcity_router.Resource.Reads.{
  refresh_due, registry_snapshot, freshness_of, reset_instants, classify_freshness, earliest,
}
use scarcity_router.Resource.Reports.{apply_in_turn, contents, report-in_turn}
use scarcity_router.Resource.Accepted.{observed, under, apply_snapshot-registered}
use scarcity_router.Resource.Invariant.{reachable-IsValid}
use scarcity_router.Resource.Validity.{IsValid, Step, IsReachable}
use scarcity_router.Resource.Due.{refresh_due-flagged}
use scarcity_router.Resource.Instant.{to_instant, age_or_reject, is_before}
use scarcity_router.Resource.Aging.{freshness_of-observed}
use scarcity_router.Resource.TextOrder.{text-order_of_instants}
use scarcity_router.Resource.Fixtures.{
  at_ten, codex, foreign, much_later, no_capabilities, one_observed, own, past_reset_time,
  registered, report,
}

report-in_turn_example :
    contents (apply_worker_report registered at_ten report)
    ≡ contents (apply_in_turn registered at_ten report.resources)
report-in_turn_example = report-in_turn registered at_ten report

own_check : check_observation foreign ≡ ok foreign
unfolding check_observation
own_check = refl

found : lookup "codex-sub" registered.registrations ≡ some codex
unfolding lookup
found = refl

apply_snapshot-registered_example :
    apply_snapshot registered at_ten foreign
    ≡ (age_or_reject at_ten at_ten >>= λ age. ok (observed registered (under codex foreign)))
apply_snapshot-registered_example =
    apply_snapshot-registered registered at_ten foreign codex found refl own_check

register-codex : register empty_registry codex ≡ ok registered
unfolding register
register-codex = refl

observe_own : apply_snapshot registered at_ten own ≡ ok one_observed
unfolding apply_snapshot
observe_own = refl

one_observed-IsReachable : IsReachable one_observed
one_observed-IsReachable =
    IsReachable.steps (IsReachable.steps IsReachable.starts (Step.registers codex register-codex))
      (Step.observes at_ten own observe_own)

reachable-IsValid_example : IsValid one_observed
reachable-IsValid_example = reachable-IsValid one_observed one_observed-IsReachable

abbrev read : RegistrySnapshot
read = record {
  schema_version = 1;
  revision = 2;
  generated_at = past_reset_time;
  entries =
      record {
        identity = codex.identity;
        freshness_ttl_seconds = 300;
        poll_interval_seconds = some 60;
        capabilities = no_capabilities;
        cost = none;
        observation = some own;
        freshness = Freshness.stale;
        refresh_due = true;
      }
      ∷ [];
  quota_pools = record { pool_id = "openai-plan"; resource_ids = "codex-sub" ∷ [] } ∷ [];
}

read_two_past : registry_snapshot one_observed past_reset_time ≡ ok read
unfolding registry_snapshot
read_two_past = refl

refresh_due-flagged_example : refresh_due one_observed past_reset_time ≡ ok ("codex-sub" ∷ [])
refresh_due-flagged_example =
    refresh_due-flagged one_observed past_reset_time read one_observed-IsReachable read_two_past

ten : to_instant at_ten ≡ ok 63903290400000
unfolding to_instant
ten = refl

two_past : to_instant past_reset_time ≡ ok 63903290520000
unfolding to_instant
two_past = refl

text-order_of_instants_example : (at_ten <? past_reset_time) ≡ ltb 63903290400000 63903290520000
text-order_of_instants_example =
    text-order_of_instants at_ten past_reset_time 63903290400000 63903290520000 ten two_past

own_resets : reset_instants own.quota_facts ≡ ok (past_reset_time ∷ [])
unfolding reset_instants
own_resets = refl

freshness_of-observed_example : freshness_of codex (some own) past_reset_time ≡ ok Freshness.stale
unfolding instant_of
freshness_of-observed_example =
    freshness_of-observed codex own past_reset_time 63903290400000 63903290520000
      (past_reset_time ∷ []) ten two_past (omega arith) (omega arith) own_resets

stale_two_past : freshness_of codex (some own) past_reset_time ≡ ok Freshness.stale
unfolding reset_instants classify_freshness earliest
stale_two_past = refl

after_two_past : is_before much_later past_reset_time ≡ ok false
unfolding is_before
after_two_past = refl

stale-stays_example : freshness_of codex (some own) much_later ≡ ok Freshness.stale
stale-stays_example = stale-stays codex own past_reset_time much_later stale_two_past after_two_past

-- A channel without control of the limit, for a variant that gives 4096 tokens.
abbrev uncontrolled : ExecutionCapabilities
uncontrolled = record no_capabilities { output_limit_control = some false }

route_output_code-can_give_example :
    is_some (route_output_code uncontrolled (some 4096) (some 4000) true true) ≡ true
route_output_code-can_give_example =
    route_output_code-can_give uncontrolled (some 4096) 4000 true true

abbrev telemetry : CapacitySnapshot
telemetry = record {
  schema_version = 3;
  provider = "openai";
  source = "codex";
  retrieved_at = at_ten;
  status = SnapshotStatus.ok;
  windows = [];
  diagnostics = [];
  plan = none;
}

telemetry_check : check_snapshot telemetry ≡ ok telemetry
unfolding check_snapshot
telemetry_check = refl

resource_snapshot_from_capacity-captured_example :
    resource_snapshot_from_capacity telemetry codex.identity [] ObservationClass.provider_telemetry
    ≡ (guard (is_sorted diagnostic_sort_key telemetry.diagnostics) "diagnostics must be sorted"
        >> ok (captured telemetry codex.identity [] ObservationClass.provider_telemetry))
resource_snapshot_from_capacity-captured_example =
    resource_snapshot_from_capacity-captured telemetry codex.identity []
      ObservationClass.provider_telemetry telemetry_check
