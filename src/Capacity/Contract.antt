-- ===== src/Capacity/Contract.antt =====
-- The vocabularies in their order, and the `__post_init__` checks of capacity.py.
use scarcity_router.Types.SafeId.{check_safe_id}
use scarcity_router.Types.Calendar.{check_ts}
use scarcity_router.Types.Requirement.{check_opt_safe_id}
use scarcity_router.Common.{
  ℕ, ◌≡◌, Eq, Order, Bool, Option, Result, arith, eq_of_rank, order_of_rank, true, some, ok, String,
  false, none, ◌+◌, >>-eq-ok, ◌>>◌, if◌then◌else◌, guard, contains, not, leb, eqb, is_some, err,
  ◌&&◌, is_empty, map, ◌>>=◌,
}
use scarcity_router.Capacity.{
  WindowResource, WindowKind, SnapshotStatus, DiagnosticCode, CapacityDiagnostic, CapacityWindow,
  CapacitySnapshot,
}

-- A word's place in the alphabetical order of its vocabulary.
abbrev pub resource_rank : WindowResource → ℕ
resource_rank WindowResource.time = 0
resource_rank WindowResource.tokens = 1
resource_rank WindowResource.unknown = 2

abbrev pub kind_rank : WindowKind → ℕ
kind_rank WindowKind.five_hour = 0
kind_rank WindowKind.unknown = 1
kind_rank WindowKind.weekly = 2

abbrev pub diagnostic_rank : DiagnosticCode → ℕ
diagnostic_rank DiagnosticCode.auth_required = 0
diagnostic_rank DiagnosticCode.percentage_unknown = 1
diagnostic_rank DiagnosticCode.reset_unknown = 2
diagnostic_rank DiagnosticCode.schema_changed = 3
diagnostic_rank DiagnosticCode.source_unavailable = 4
diagnostic_rank DiagnosticCode.telemetry_unknown = 5
diagnostic_rank DiagnosticCode.unsupported_source = 6
diagnostic_rank DiagnosticCode.window_semantics_unknown = 7

pub resource_rank-injective : (a b : WindowResource) → resource_rank a ≡ resource_rank b → a ≡ b
resource_rank-injective a b h = ground arith

pub kind_rank-injective : (a b : WindowKind) → kind_rank a ≡ kind_rank b → a ≡ b
kind_rank-injective a b h = ground arith

pub diagnostic_rank-injective :
    (a b : DiagnosticCode) → diagnostic_rank a ≡ diagnostic_rank b → a ≡ b
diagnostic_rank-injective a b h = ground arith

instance abbrev pub resource_eq : Eq WindowResource
resource_eq = eq_of_rank resource_rank resource_rank-injective

instance abbrev pub kind_eq : Eq WindowKind
kind_eq = eq_of_rank kind_rank kind_rank-injective

instance abbrev pub resource_order : Order WindowResource
resource_order = order_of_rank resource_rank resource_rank-injective

instance abbrev pub kind_order : Order WindowKind
kind_order = order_of_rank kind_rank kind_rank-injective

instance abbrev pub diagnostic_eq : Eq DiagnosticCode
diagnostic_eq = eq_of_rank diagnostic_rank diagnostic_rank-injective

-- `snapshot.status == "ok"`
abbrev pub is_ok : SnapshotStatus → Bool
is_ok SnapshotStatus.ok = true
is_ok _ = false

-- `_WINDOW_SCOPED_CODES`
abbrev is_window_scoped : DiagnosticCode → Bool
is_window_scoped DiagnosticCode.window_semantics_unknown = true
is_window_scoped DiagnosticCode.percentage_unknown = true
is_window_scoped DiagnosticCode.reset_unknown = true
is_window_scoped _ = false

-- `CapacityDiagnostic.__post_init__`
unfoldable pub check_diagnostic : CapacityDiagnostic → Result CapacityDiagnostic
unfolding check_opt_safe_id
check_diagnostic d =
    if is_window_scoped d.code
    then check_opt_safe_id d.window_id >> ok d
    else (guard (not (is_some d.window_id)) "not window-scoped and must not carry window_id"
        >> ok d)

-- `_v_pct_pair`: both present or both absent, each within 0..100, and 100 together.
unfoldable pub check_pct_pair : Option ℕ → Option ℕ → Result (Unit {0})
check_pct_pair none none = ok tt
check_pct_pair (some used) (some remaining) = do
  guard (leb used 100) "used_percent outside 0..100"
  guard (leb remaining 100) "remaining_percent outside 0..100"
  guard (eqb (used + remaining) 100) "used_percent + remaining_percent != 100"
check_pct_pair _ _ = err "used_percent and remaining_percent must both be present or both absent"

-- `_KIND_DURATION`
abbrev fixed_duration : WindowKind → Option ℕ
fixed_duration WindowKind.five_hour = some 18000
fixed_duration WindowKind.weekly = some 604800
fixed_duration WindowKind.unknown = none

abbrev check_duration : WindowKind → Option ℕ → Result (Unit {0})
check_duration kind none = ok tt
check_duration kind (some d) = do
  guard (leb 1 d) "duration_seconds below 1"
  elim (fixed_duration kind) [
    | none ↦ ok tt
    | some fixed ↦ guard (eqb d fixed) "kind requires its fixed duration_seconds"
  ]

abbrev check_opt_ts : Option String → Result (Unit {0})
check_opt_ts none = ok tt
check_opt_ts (some t) = check_ts t

-- `CapacityWindow.__post_init__`
unfoldable pub check_window : CapacityWindow → Result CapacityWindow
unfolding check_opt_safe_id check_pct_pair check_ts
check_window w = do
  check_opt_safe_id w.scope_id
  check_duration w.kind w.duration_seconds
  check_pct_pair w.used_percent w.remaining_percent
  check_opt_ts w.resets_at
  check_opt_safe_id w.window_id
  ok w

-- `_STATUSES_WITHOUT_WINDOWS`
abbrev pub has_no_windows : SnapshotStatus → Bool
has_no_windows SnapshotStatus.ok = false
has_no_windows SnapshotStatus.unknown = false
has_no_windows _ = true

-- `_STATUS_REQUIRED_CODE`
abbrev pub required_code : SnapshotStatus → Option DiagnosticCode
required_code SnapshotStatus.ok = none
required_code SnapshotStatus.unavailable = some DiagnosticCode.source_unavailable
required_code SnapshotStatus.auth_required = some DiagnosticCode.auth_required
required_code SnapshotStatus.unsupported = some DiagnosticCode.unsupported_source
required_code SnapshotStatus.schema_changed = some DiagnosticCode.schema_changed
required_code SnapshotStatus.unknown = some DiagnosticCode.telemetry_unknown

abbrev pub check_status : CapacitySnapshot → Result (Unit {0})
check_status s = do
  guard (not (has_no_windows s.status && not (is_empty s.windows)))
      "status requires an empty windows array"
  elim (required_code s.status) [
    | none ↦ ok tt
    | some c ↦
        guard (contains (map (λ (d : CapacityDiagnostic). d.code) s.diagnostics) c)
          "status requires a diagnostic code"
  ]

-- `CapacitySnapshot.__post_init__`
unfoldable pub check_snapshot : CapacitySnapshot → Result CapacitySnapshot
unfolding check_safe_id check_ts check_opt_safe_id contains
check_snapshot s = do
  guard (eqb s.schema_version 3) "schema_version"
  p ← check_safe_id s.provider
  q ← check_safe_id s.source
  check_ts s.retrieved_at
  check_opt_safe_id s.plan
  check_status s
  ok s

-- A window's percentages are a pair that adds up to 100, or absent together.
abbrev pub HasValidPercents : Option ℕ → Option ℕ → Type 0
HasValidPercents none none = Unit
HasValidPercents (some used) (some remaining) = used + remaining ≡ 100
HasValidPercents _ _ = ⊥

abbrev pub IsValidWindow : CapacityWindow → Type 0
IsValidWindow w = HasValidPercents w.used_percent w.remaining_percent

check_pct_pair-HasValidPercents :
    (used remaining : Option ℕ)
    → check_pct_pair used remaining ≡ ok tt
    → HasValidPercents used remaining
unfolding check_pct_pair
check_pct_pair-HasValidPercents none none h = tt
check_pct_pair-HasValidPercents none (some r) h = cc
check_pct_pair-HasValidPercents (some u) none h = cc
check_pct_pair-HasValidPercents (some u) (some r) h = ground arith

-- The windows that the constructor lets through are those that assessments and reservations suppose.
pub check_window-IsValidWindow : (w w' : CapacityWindow) → check_window w ≡ ok w' → IsValidWindow w
unfolding check_window
check_window-IsValidWindow w w' h =
    let (_, h₁) = >>-eq-ok (check_opt_safe_id w.scope_id) _ h in
    let (_, h₂) = >>-eq-ok (check_duration w.kind w.duration_seconds) _ h₁ in
    let (pair, _) = >>-eq-ok (check_pct_pair w.used_percent w.remaining_percent) _ h₂ in
    check_pct_pair-HasValidPercents w.used_percent w.remaining_percent pair
