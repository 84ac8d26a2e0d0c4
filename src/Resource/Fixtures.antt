-- ===== src/Resource/Fixtures.antt =====
-- Sample resources and observations (resource_state.py).
use scarcity_router.Capacity.Contract.{
  resource_eq, kind_eq, resource_order, kind_order, diagnostic_eq,
}
use scarcity_router.Common.{
  String, none, some, List, [], ◌∷◌, option_eq, list_eq, pair_eq, string_eq, nat_eq, nat_order,
  string_order, pair_order, list_order,
}
use scarcity_router.Capacity.{WindowResource, WindowKind, SnapshotStatus}
use scarcity_router.Resource.{
  ExecutionChannel, EntitlementClass, ObservationClass, ResourceIdentity, QuotaFact,
  ExecutionCapabilities, ResourceStateSnapshot, WorkerStateReport, ResourceRegistration,
  ResourceRegistry,
}
use scarcity_router.Resource.Contract.{channel_eq, entitlement_eq}
use scarcity_router.Resource.Registry.{empty_registry}

abbrev identity_of : String → List String → ResourceIdentity
identity_of provider pools = record {
  resource_id = "codex-sub";
  channel = ExecutionChannel.worker_bridged;
  provider = provider;
  model = "gpt-5";
  entitlement = EntitlementClass.subscription_included;
  variant = none;
  quota_pool_ids = pools;
}

abbrev pub no_capabilities : ExecutionCapabilities
no_capabilities = record {
  streaming = none;
  tool_calls = none;
  structured_output = none;
  reasoning_controls = none;
  usage_reporting = none;
  cancellation = none;
  context_limit_tokens = none;
  output_limit_tokens = none;
  output_limit_control = none;
  context_evidence_ref = none;
  context_evidence_valid_until = none;
  context_evidence_verified_at = none;
  context_evidence_runtime_version = none;
}

abbrev pub codex : ResourceRegistration
codex = record {
  identity = identity_of "openai" ("openai-plan" ∷ []);
  freshness_ttl_seconds = 300;
  poll_interval_seconds = some 60;
  capabilities = no_capabilities;
  cost = none;
}

abbrev five_hours : String → QuotaFact
five_hours resets_at = record {
  observation_class = ObservationClass.provider_telemetry;
  window = record {
    resource = WindowResource.tokens;
    kind = WindowKind.five_hour;
    scope_id = none;
    duration_seconds = some 18000;
    used_percent = some 40;
    remaining_percent = some 60;
    resets_at = some resets_at;
    window_id = none;
  };
}

-- An observation of ten o'clock, whose window is reset at two minutes past.
abbrev pub observation : String → List String → ResourceStateSnapshot
observation provider pools = record {
  schema_version = 1;
  identity = identity_of provider pools;
  observed_at = "2026-01-05T10:00:00.000Z";
  health = record { status = SnapshotStatus.ok; diagnostics = [] };
  quota_facts = five_hours "2026-01-05T10:02:00.000Z" ∷ [];
  promotions = [];
}

abbrev pub own : ResourceStateSnapshot
own = observation "openai" ("openai-plan" ∷ [])

-- An observation of another provider and without the pool.
abbrev pub foreign : ResourceStateSnapshot
foreign = observation "zai" []

abbrev pub registered : ResourceRegistry
registered = record empty_registry { registrations = ("codex-sub", codex) ∷ []; revision = 1 }

abbrev pub one_observed : ResourceRegistry
one_observed = record registered { observations = ("codex-sub", own) ∷ []; revision = 2 }

abbrev pub at_ten : String
at_ten = "2026-01-05T10:00:00.000Z"

abbrev pub past_reset_time : String
past_reset_time = "2026-01-05T10:02:00.000Z"

abbrev pub much_later : String
much_later = "2026-01-06T00:00:00.000Z"

abbrev pub report : WorkerStateReport
report = record {
  schema_version = 1;
  worker_id = "laptop";
  reported_at = "2026-01-05T10:00:00.000Z";
  resources = foreign ∷ [];
}
