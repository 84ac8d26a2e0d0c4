-- ===== src/Samples.antt =====
-- Sample data for the witnesses: two models of one provider, their telemetry and a policy.
use text.Mathlib.TextEquality.{eq_iff}
use scarcity_router.Common.{
  ◌≢◌, ok, ℕ, true, false, Option, none, some, [], ◌∷◌, nat_eq, string_eq, option_eq, list_eq,
  pair_eq, nat_order, string_order, pair_order, list_order, String,
}
use scarcity_router.Types.Identity.{ModelIdentity, CapacityScopeRef, identity_eq, scope_eq}
use scarcity_router.Types.Requirement.{
  CapabilityMinima, HardConstraints, TaskRequirement, l2, l3, l4,
}
use scarcity_router.Types.Catalog.{
  Effort, ModelHardProperties, CapabilityAssessment, CapabilityAssessments, ModelCatalogEntry,
  ModelCatalog,
}
use scarcity_router.Capacity.{
  WindowResource, WindowKind, SnapshotStatus, CapacityWindow, CapacitySnapshot,
}
use scarcity_router.Policy.{
  UnknownCapacityMode, ReplenishmentMode, policy_reason_eq, policy_reason_order, ReservationRule,
  WeeklyRule, ReplenishmentState, UserPolicy, mon, tue,
}
use scarcity_router.Policy.Schedule.{LocalTime, Zones, weekday_eq, weekday_order}
use scarcity_router.Selector.{
  stage_eq, selection_reason_eq, selection_reason_order, SelectorPolicy, EligibilityState,
  ExecutionEligibility,
}
use scarcity_router.Selector.Inputs.{Inputs}

abbrev pub sol : ModelIdentity
sol = record { provider = "openai"; model = "sol"; variant = "high" }

abbrev pub luna : ModelIdentity
luna = record { provider = "openai"; model = "luna"; variant = "low" }

abbrev pub codex : CapacityScopeRef
codex = record { provider = "openai"; scope_id = "codex" }

abbrev pub rated : ℕ → CapabilityAssessment
rated n = record {
  rating = some n;
  evidence = [];
  confidence = none;
  assessed_on = none;
  rationale = none;
  human_override = none;
}

abbrev pub all_rated : ℕ → CapabilityAssessments
all_rated n = record {
  reasoning = rated n;
  coding = rated n;
  scientific_methodological = rated n;
  writing_editorial = rated n;
  tool_use = rated n;
  translation_multilingual = rated n;
}

abbrev pub properties : ModelHardProperties
properties = record {
  input_context_tokens = some 200000;
  output_tokens = some 32000;
  supports_tool_use = some true;
  supports_vision = none;
  supports_reasoning_mode = some true;
  privacy_tags = some ("eu" ∷ []);
}

abbrev pub entry_of : ModelIdentity → ℕ → Option Effort → ModelCatalogEntry
entry_of identity rating effort = record {
  identity = identity;
  display_name = "A model";
  hard_properties = properties;
  capabilities = all_rated rating;
  capacity_bindings = some (codex ∷ []);
  model_version = none;
  model_version_date = none;
  last_reviewed_on = none;
  reasoning_effort = effort;
  capacity_binding_resources = none;
  resource_capacity_bindings = [];
}

abbrev pub sol_entry : ModelCatalogEntry
sol_entry = entry_of sol 5 (some Effort.high)

abbrev pub luna_entry : ModelCatalogEntry
luna_entry = entry_of luna 3 none

abbrev pub catalog : ModelCatalog
catalog = record {
  catalog_version = some 1;
  updated_on = some "2026-01-05";
  entries = sol_entry ∷ luna_entry ∷ [];
}

abbrev pub window_of : WindowKind → ℕ → ℕ → CapacityWindow
window_of kind used remaining = record {
  resource = WindowResource.tokens;
  kind = kind;
  scope_id = some "codex";
  duration_seconds = none;
  used_percent = some used;
  remaining_percent = some remaining;
  resets_at = none;
  window_id = none;
}

abbrev pub snapshot : CapacitySnapshot
snapshot = record {
  schema_version = 3;
  provider = "openai";
  source = "probe";
  retrieved_at = "2026-01-05T10:00:00.000Z";
  status = SnapshotStatus.ok;
  windows = window_of WindowKind.five_hour 90 10 ∷ window_of WindowKind.weekly 40 60 ∷ [];
  diagnostics = [];
  plan = none;
}

abbrev pub other_snapshot : CapacitySnapshot
other_snapshot = record snapshot { provider = "zai"; windows = [] }

abbrev pub no_minima : CapabilityMinima
no_minima = record {
  reasoning = none;
  coding = none;
  scientific_methodological = none;
  writing_editorial = none;
  tool_use = none;
  translation_multilingual = none;
}

abbrev pub coding_minimum : ℕ → CapabilityMinima
coding_minimum n = record no_minima { coding = some n }

abbrev pub no_constraints : HardConstraints
no_constraints = record {
  minimum_input_context_tokens = none;
  minimum_output_tokens = none;
  requires_tool_use = false;
  requires_vision = false;
  requires_reasoning_mode = false;
  required_provider = none;
  required_model = none;
  required_variant = none;
  privacy_constraint = none;
}

abbrev pub tool_constraints : HardConstraints
tool_constraints = record no_constraints {
  minimum_output_tokens = some 16000;
  requires_tool_use = true;
  privacy_constraint = some "eu";
}

abbrev pub base_requirement : TaskRequirement
base_requirement = record {
  task_level = l2;
  capability_minima = coding_minimum 2;
  hard_constraints = no_constraints;
}

abbrev pub explicit_requirement : TaskRequirement
explicit_requirement = record {
  task_level = l3;
  capability_minima = coding_minimum 3;
  hard_constraints = tool_constraints;
}

abbrev pub reserve_rule : ReservationRule
reserve_rule = record {
  rule_id = "keep-five";
  scope = codex;
  resource = WindowResource.tokens;
  kind = WindowKind.five_hour;
  when_remaining_below = 5;
  minimum_task_level = l4;
}

abbrev pub night_rule : WeeklyRule
night_rule = record {
  rule_id = "night";
  target = record { provider = "zai"; model = none; variant = none };
  timezone = "UTC";
  weekdays = mon ∷ tue ∷ [];
  start_local = "22:00";
  end_local = "06:00";
  reason_code = "peak";
  start_date = none;
  end_date = none;
}

abbrev pub day_rule : WeeklyRule
day_rule = record {
  rule_id = "campaign";
  target = record { provider = "openai"; model = some "luna"; variant = none };
  timezone = "UTC";
  weekdays = mon ∷ [];
  start_local = "08:00";
  end_local = "18:00";
  reason_code = "free";
  start_date = none;
  end_date = none;
}

abbrev pub user_policy : UserPolicy
user_policy = record {
  policy_version = 1;
  unknown_capacity_mode = UnknownCapacityMode.degraded;
  replenishment_mode = ReplenishmentMode.advisory;
  reservations = reserve_rule ∷ [];
  blackouts = night_rule ∷ [];
  happy_hours = day_rule ∷ [];
}

abbrev pub selector_policy : SelectorPolicy
selector_policy = record {
  resource_policy = user_policy;
  preference_order = sol ∷ [];
  short_window_floor_percent = none;
}

-- Monday, 10:30.
abbrev pub monday_morning : LocalTime
monday_morning = record {
  weekday = mon;
  hour = 10;
  minute = 30;
  date = record { year = 2026; month = 1; day = 5 };
}

-- A world with one instant.
abbrev pub zones : Zones
zones timezone at = ok monday_morning

abbrev pub credit : ReplenishmentState
credit = record {
  provider = "openai";
  kind = "rate_limit_reset";
  available_count = 1;
  details_known = false;
  earliest_expiry = none;
  retrieved_at = "2026-01-05T10:00:00.000Z";
}

abbrev pub zai_credit : ReplenishmentState
zai_credit = record credit { provider = "zai" }

abbrev pub openai_report : ExecutionEligibility
openai_report = record {
  schema_version = 1;
  provider = "openai";
  source = "probe";
  retrieved_at = "2026-01-05T10:00:00.000Z";
  state = EligibilityState.eligible;
  reason_codes = [];
}

abbrev pub zai_report : ExecutionEligibility
zai_report = record openai_report { provider = "zai" }

abbrev pub inputs : Inputs
inputs = record {
  zones = zones;
  requirement = explicit_requirement;
  policy = selector_policy;
  snapshots = snapshot ∷ [];
  replenishment_states = zai_credit ∷ credit ∷ [];
  evaluated_at = 0;
  eligibility_reports = zai_report ∷ openai_report ∷ [];
  policy_blocked_identities = [];
}

pub other_differs : ◌≢◌ {A = String} "openai" "zai"
other_differs e = cc ((eq_iff "openai" "zai").1 e)
