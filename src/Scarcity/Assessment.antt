-- ===== src/Scarcity/Assessment.antt =====
-- The assessment of a candidate's capacity (scarcity.py): evidence, states and reason codes.
use scarcity_router.Common.{
  ℕ, String, ◌≡◌, Bool, true, false, Option, List, arith, Eq, nat_eq, string_eq, option_eq, list_eq,
  pair_eq, Order, nat_order, string_order, pair_order, list_order, eq_of_rank, order_of_rank,
  eq_of_key,
}
use scarcity_router.Types.Identity.{CapacityScopeRef, identity_eq, scope_eq}
use scarcity_router.Capacity.{WindowResource, WindowKind}
use scarcity_router.Capacity.Contract.{
  resource_eq, kind_eq, resource_order, kind_order, diagnostic_eq,
}
use scarcity_router.Scarcity.Measure.{WindowRole, strategic, tactical, ScarcityLabel}

-- `SCARCITY_STATES`
pub data ScarcityState : Type 0 where
  known unknown unavailable : ScarcityState

-- `SCARCITY_REASON_CODES`
pub data ScarcityReason : Type 0 where
  capacity_bindings_unknown missing_provider_snapshot provider_snapshot_not_ok : ScarcityReason
  missing_scope_window window_percentage_unknown capacity_exhausted : ScarcityReason

pub record GoverningWindowEvidence : Type 0 where
  pub scope : CapacityScopeRef
  pub resource : WindowResource
  pub kind : WindowKind
  pub remaining_percent : ℕ
  pub window_id : Option String

pub record ScarcityAssessment : Type 0 where
  pub state : ScarcityState
  pub label : ScarcityLabel
  pub penalty_units : Option ℕ
  pub effective_remaining_percent : Option ℕ
  pub applicable_scopes : List CapacityScopeRef
  pub governing_window : Option GoverningWindowEvidence
  pub reason_codes : List ScarcityReason
  pub strategic_window : Option GoverningWindowEvidence
  pub tactical_window : Option GoverningWindowEvidence

-- The alphabetical order of the reason codes, in which they are stored.
abbrev pub reason_rank : ScarcityReason → ℕ
reason_rank capacity_bindings_unknown = 0
reason_rank capacity_exhausted = 1
reason_rank missing_provider_snapshot = 2
reason_rank missing_scope_window = 3
reason_rank provider_snapshot_not_ok = 4
reason_rank window_percentage_unknown = 5

pub reason_rank-injective : (a b : ScarcityReason) → reason_rank a ≡ reason_rank b → a ≡ b
reason_rank-injective a b h = ground arith

instance abbrev pub reason_eq : Eq ScarcityReason
reason_eq = eq_of_rank reason_rank reason_rank-injective

instance abbrev pub reason_order : Order ScarcityReason
reason_order = order_of_rank reason_rank reason_rank-injective

abbrev pub role_rank : WindowRole → ℕ
role_rank strategic = 0
role_rank tactical = 1

pub role_rank-injective : (a b : WindowRole) → role_rank a ≡ role_rank b → a ≡ b
role_rank-injective a b h = ground arith

instance abbrev pub role_eq : Eq WindowRole
role_eq = eq_of_rank role_rank role_rank-injective

abbrev pub label_rank : ScarcityLabel → ℕ
label_rank ScarcityLabel.plentiful = 0
label_rank ScarcityLabel.normal = 1
label_rank ScarcityLabel.scarce = 2
label_rank ScarcityLabel.critical = 3
label_rank ScarcityLabel.unavailable = 4
label_rank ScarcityLabel.unknown = 5

pub label_rank-injective : (a b : ScarcityLabel) → label_rank a ≡ label_rank b → a ≡ b
label_rank-injective a b h = ground arith

instance abbrev pub label_eq : Eq ScarcityLabel
label_eq = eq_of_rank label_rank label_rank-injective

-- Evidence is compared field by field.
abbrev pub EvidenceKey : Type 0
EvidenceKey = CapacityScopeRef × (WindowResource × (WindowKind × (ℕ × Option String)))

abbrev pub evidence_key : GoverningWindowEvidence → EvidenceKey
evidence_key g = (g.scope, (g.resource, (g.kind, (g.remaining_percent, g.window_id))))

pub evidence_key-injective :
    (a b : GoverningWindowEvidence) → evidence_key a ≡ evidence_key b → a ≡ b
evidence_key-injective a b e = λ i. record {
  scope = (e i).0;
  resource = (e i).1.0;
  kind = (e i).1.1.0;
  remaining_percent = (e i).1.1.1.0;
  window_id = (e i).1.1.1.1;
}

instance abbrev pub evidence_eq : Eq GoverningWindowEvidence
evidence_eq = eq_of_key evidence_key evidence_key-injective

abbrev pub is_known : ScarcityState → Bool
is_known known = true
is_known _ = false

abbrev pub is_unavailable : ScarcityState → Bool
is_unavailable ScarcityState.unavailable = true
is_unavailable _ = false
