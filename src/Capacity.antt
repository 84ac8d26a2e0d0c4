-- ===== src/Capacity.antt =====
-- Normalized capacity telemetry (capacity.py): windows, diagnostics and provider snapshots.
pub mod Contract
mod Samples
use scarcity_router.Common.{ℕ, String, Option, List}

-- `_RESOURCE_VALUES`
pub data WindowResource : Type 0 where
  tokens time unknown : WindowResource

-- `_KIND_VALUES`
pub data WindowKind : Type 0 where
  five_hour weekly unknown : WindowKind

-- `_STATUS_VALUES`
pub data SnapshotStatus : Type 0 where
  ok unavailable auth_required unsupported schema_changed unknown : SnapshotStatus

-- `_DIAGNOSTIC_CODES`
pub data DiagnosticCode : Type 0 where
  source_unavailable auth_required unsupported_source schema_changed telemetry_unknown :
      DiagnosticCode
  window_semantics_unknown percentage_unknown reset_unknown : DiagnosticCode

pub record CapacityDiagnostic : Type 0 where
  pub code : DiagnosticCode
  pub window_id : Option String

-- `scope_id = None` is unknown applicability: there is no fallback scope.
pub record CapacityWindow : Type 0 where
  pub resource : WindowResource
  pub kind : WindowKind
  pub scope_id : Option String
  pub duration_seconds : Option ℕ
  pub used_percent : Option ℕ
  pub remaining_percent : Option ℕ
  pub resets_at : Option String
  pub window_id : Option String

pub record CapacitySnapshot : Type 0 where
  pub schema_version : ℕ
  pub provider : String
  pub source : String
  pub retrieved_at : String
  pub status : SnapshotStatus
  pub windows : List CapacityWindow
  pub diagnostics : List CapacityDiagnostic
  pub plan : Option String
