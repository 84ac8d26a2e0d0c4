-- ===== src/Resource.antt =====
-- Resource state (resource_state.py): identities of executable resources, observations, registrations and reads.
pub mod Instant
pub mod RuntimeVersion
pub mod Contract
pub mod Checks
pub mod Registry
pub mod Reads
pub mod Reports
mod Accepted
mod Validity
mod Invariant
mod Due
mod Aging
mod Staleness
mod Chronology
mod StampText
mod Stamp
mod DigitOrder
mod TextOrder
pub mod Output
mod Admission
pub mod Capture
mod Capturing
mod Fixtures
mod Samples
use scarcity_router.Common.{ℕ, String, Bool, Option, List}
use scarcity_router.Capacity.{CapacityWindow, CapacityDiagnostic, SnapshotStatus}

-- `EXECUTION_CHANNELS`
pub data ExecutionChannel : Type 0 where
  server_direct_http worker_bridged local_app_adapter : ExecutionChannel

-- `ENTITLEMENT_CLASSES`
pub data EntitlementClass : Type 0 where
  subscription_included promotional payg_metered prepaid_credits local_ungated unknown :
      EntitlementClass

-- `OBSERVATION_CLASSES`
pub data ObservationClass : Type 0 where
  direct_observation provider_telemetry estimate local_limit unknown : ObservationClass

-- `FRESHNESS_STATES`
pub data Freshness : Type 0 where
  fresh stale never_observed : Freshness

pub record ResourceIdentity : Type 0 where
  pub resource_id : String
  pub channel : ExecutionChannel
  pub provider : String
  pub model : String
  pub entitlement : EntitlementClass
  pub variant : Option String
  pub quota_pool_ids : List String

pub record QuotaFact : Type 0 where
  pub observation_class : ObservationClass
  pub window : CapacityWindow

pub record ResourceCost : Type 0 where
  pub observation_class : ObservationClass
  pub input_micro_usd_per_mtoken : Option ℕ
  pub output_micro_usd_per_mtoken : Option ℕ

pub record PromotionObservation : Type 0 where
  pub source : String
  pub observed_at : String
  pub channel : Option ExecutionChannel
  pub provider : Option String
  pub model : Option String
  pub plan : Option String
  pub valid_from : Option String
  pub valid_until : Option String
  pub timezone : Option String

pub record ExecutionCapabilities : Type 0 where
  pub streaming : Option Bool
  pub tool_calls : Option Bool
  pub structured_output : Option Bool
  pub reasoning_controls : Option Bool
  pub usage_reporting : Option Bool
  pub cancellation : Option Bool
  pub context_limit_tokens : Option ℕ
  pub output_limit_tokens : Option ℕ
  pub output_limit_control : Option Bool
  pub context_evidence_ref : Option String
  pub context_evidence_valid_until : Option String
  pub context_evidence_verified_at : Option String
  pub context_evidence_runtime_version : Option String

pub record ResourceHealth : Type 0 where
  pub status : SnapshotStatus
  pub diagnostics : List CapacityDiagnostic

pub record ResourceStateSnapshot : Type 0 where
  pub schema_version : ℕ
  pub identity : ResourceIdentity
  pub observed_at : String
  pub health : ResourceHealth
  pub quota_facts : List QuotaFact
  pub promotions : List PromotionObservation

pub record WorkerStateReport : Type 0 where
  pub schema_version : ℕ
  pub worker_id : String
  pub reported_at : String
  pub resources : List ResourceStateSnapshot

pub record ResourceRegistration : Type 0 where
  pub identity : ResourceIdentity
  pub freshness_ttl_seconds : ℕ
  pub poll_interval_seconds : Option ℕ
  pub capabilities : ExecutionCapabilities
  pub cost : Option ResourceCost

pub record ResourceRegistryEntry : Type 0 where
  pub identity : ResourceIdentity
  pub freshness_ttl_seconds : ℕ
  pub poll_interval_seconds : Option ℕ
  pub capabilities : ExecutionCapabilities
  pub cost : Option ResourceCost
  pub observation : Option ResourceStateSnapshot
  pub freshness : Freshness
  pub refresh_due : Bool

pub record QuotaPoolGroup : Type 0 where
  pub pool_id : String
  pub resource_ids : List String

pub record RegistrySnapshot : Type 0 where
  pub schema_version : ℕ
  pub revision : ℕ
  pub generated_at : String
  pub entries : List ResourceRegistryEntry
  pub quota_pools : List QuotaPoolGroup

-- The state of `ResourceRegistry`; its clock is an argument of the calls that read it.
pub record ResourceRegistry : Type 0 where
  pub registrations : List (String × ResourceRegistration)
  pub observations : List (String × ResourceStateSnapshot)
  pub revision : ℕ

-- `_identity_observation_key`: the identity without its pools.
abbrev pub ObservationKey : Type 0
ObservationKey =
    String × (ExecutionChannel × (String × (String × (EntitlementClass × Option String))))

abbrev pub identity_observation_key : ResourceIdentity → ObservationKey
identity_observation_key i =
    (i.resource_id, (i.channel, (i.provider, (i.model, (i.entitlement, i.variant)))))
