-- ===== src/Scarcity/Bindings.antt =====
-- The loop of `assess_scarcity` over the bindings (scarcity.py), and the window that governs.
use scarcity_router.Common.{
  ok, ℕ, String, Bool, true, false, ◌||◌, Option, none, some, List, [], ◌∷◌, ◌++◌, ltb, eqb,
  if◌then◌else◌, filter, find, Result, ◌>>=◌, map_result, err, ◌==◌, nat_eq, string_eq, option_eq,
  contains, list_eq, pair_eq, Order, ◌<?◌, nat_order, string_order, pair_order, list_order,
}
use scarcity_router.Types.SafeId.{codes}
use scarcity_router.Types.Identity.{CapacityScopeRef, identity_eq, scope_eq}
use scarcity_router.Capacity.{WindowResource, WindowKind, CapacityWindow, CapacitySnapshot}
use scarcity_router.Capacity.Contract.{
  resource_eq, kind_eq, resource_order, kind_order, diagnostic_eq, is_ok,
}
use scarcity_router.Scarcity.Measure.{ScarcityLabel}
use scarcity_router.Scarcity.Measure.{scarcity_penalty_units}
use scarcity_router.Scarcity.Assessment.{
  ScarcityState, ScarcityReason, GoverningWindowEvidence, ScarcityAssessment, reason_eq,
  reason_order, role_eq, label_eq, evidence_eq, missing_provider_snapshot, provider_snapshot_not_ok,
  missing_scope_window, window_percentage_unknown,
}

-- `(scope, window, remaining)`
pub record Candidate : Type 0 where
  pub scope : CapacityScopeRef
  pub window : CapacityWindow
  pub remaining : ℕ

abbrev pub WindowKey : Type 0
WindowKey = String × (String × (WindowResource × (WindowKind × String)))

-- `window.window_id or ""`
abbrev pub or_empty : Option String → String
or_empty none = ""
or_empty (some s) = s

-- `_canonical_window_key`
abbrev pub canonical_window_key : Candidate → WindowKey
canonical_window_key c = (
  c.scope.provider,
  (c.scope.scope_id, (c.window.resource, (c.window.kind, or_empty c.window.window_id))),
)

-- `max(numbers)`, which raises on no number.
unfoldable pub max_from : ℕ → List ℕ → ℕ
max_from m [] = m
max_from m (n ∷ ns) = max_from (if ltb m n then n else m) ns

unfoldable pub max_of : List ℕ → Result ℕ
unfolding max_from
max_of [] = err "max() arg is an empty sequence"
max_of (n ∷ ns) = ok (max_from n ns)

-- `min(items, key=...)`: the first of the smallest, which raises on no item.
module _ {ℓ κ} {A : Type ℓ} {K : Type κ} ⦃o : Order K⦄ (key : A → K) where
  unfoldable pub min_from : A → List A → A
  min_from m [] = m
  min_from m (x ∷ xs) = min_from (if key x <? key m then x else m) xs

  unfoldable pub min_by : List A → Result A
  unfolding min_from
  min_by [] = err "min() arg is an empty sequence"
  min_by (x ∷ xs) = ok (min_from x xs)

-- The penalty of the candidate is `penalty`; the calls below raise nothing that those above did not.
unfoldable pub has_penalty : ℕ → Candidate → Bool
unfolding scarcity_penalty_units
has_penalty penalty c = elim (scarcity_penalty_units c.remaining) [
  | ok p ↦ eqb p penalty
  | err _ ↦ false
]

-- `_pick_governing`: the greatest penalty, then the least canonical key.
unfoldable pub pick_governing : List Candidate → Result Candidate
unfolding scarcity_penalty_units max_of min_by has_penalty
pick_governing candidates = do
  penalties ← map_result (λ (c : Candidate). scarcity_penalty_units c.remaining) candidates
  max_penalty ← max_of penalties
  min_by canonical_window_key (filter (has_penalty max_penalty) candidates)

-- `_governing_evidence`
abbrev pub governing_evidence : Candidate → GoverningWindowEvidence
governing_evidence c = record {
  scope = c.scope;
  resource = c.window.resource;
  kind = c.window.kind;
  remaining_percent = c.remaining;
  window_id = c.window.window_id;
}

-- `_unknown_assessment`
abbrev pub unknown_assessment : List ScarcityReason → List CapacityScopeRef → ScarcityAssessment
unknown_assessment reasons applicable_scopes = record {
  state = ScarcityState.unknown;
  label = ScarcityLabel.unknown;
  penalty_units = none;
  effective_remaining_percent = none;
  applicable_scopes = applicable_scopes;
  governing_window = none;
  reason_codes = reasons;
  strategic_window = none;
  tactical_window = none;
}

-- The two accumulators of the loop over the bindings.
pub record Scan : Type 0 where
  pub reason_codes : List ScarcityReason
  pub known_windows : List Candidate

-- `reason_codes.add(code)`
unfoldable pub add_code : ScarcityReason → List ScarcityReason → List ScarcityReason
unfolding contains
add_code c codes = if contains codes c then codes else c ∷ codes

abbrev pub note_reason : ScarcityReason → Scan → Scan
note_reason c s = record s { reason_codes = add_code c s.reason_codes }

-- `used_percent is None or remaining_percent is None` fails: the usable remaining.
abbrev pub usable_remaining : CapacityWindow → Option ℕ
usable_remaining w = elim w.used_percent [ none ↦ none | some _ ↦ w.remaining_percent ]

-- `window.scope_id == binding.scope_id`
abbrev pub window_matches : CapacityScopeRef → CapacityWindow → Bool
window_matches binding w = w.scope_id == some binding.scope_id

abbrev pub keep_window : CapacityScopeRef → CapacityWindow → Option ℕ → Scan → Scan
keep_window binding w none s = note_reason window_percentage_unknown s
keep_window binding w (some remaining) s = record s {
  known_windows =
      s.known_windows ++ record { scope = binding; window = w; remaining = remaining } ∷ [];
}

-- One window of the provider's snapshot.
unfoldable pub scan_window : CapacityScopeRef → CapacityWindow → Scan → Scan
unfolding add_code
scan_window binding w s =
    if window_matches binding w then keep_window binding w (usable_remaining w) s else s

-- The loop over a snapshot's windows, with its flag `matched`.
unfoldable pub scan_windows : CapacityScopeRef → List CapacityWindow → Bool → Scan → Bool × Scan
unfolding scan_window
scan_windows binding [] matched s = (matched, s)
scan_windows binding (w ∷ ws) matched s =
    scan_windows binding ws (matched || window_matches binding w) (scan_window binding w s)

-- `snapshot_by_provider.get(provider)`; providers are unique there.
abbrev pub snapshot_for : List CapacitySnapshot → String → Option CapacitySnapshot
snapshot_for snapshots provider = find (λ (s : CapacitySnapshot). s.provider == provider) snapshots

-- `if not matched: reason_codes.add("missing_scope_window")`
abbrev pub close_scope : Bool → Scan → Scan
close_scope true s = s
close_scope false s = note_reason missing_scope_window s

-- The windows of the binding, where the snapshot's status is `ok`.
abbrev pub scan_trusted : CapacityScopeRef → List CapacityWindow → Scan → Scan
scan_trusted binding ws s =
    let (matched, s') = scan_windows binding ws false s in close_scope matched s'

abbrev pub scan_snapshot : CapacityScopeRef → Option CapacitySnapshot → Scan → Scan
scan_snapshot binding none s = note_reason missing_provider_snapshot s
scan_snapshot binding (some snapshot) s =
    if is_ok snapshot.status
    then scan_trusted binding snapshot.windows s
    else note_reason provider_snapshot_not_ok s

-- One binding.
unfoldable pub scan_binding : List CapacitySnapshot → CapacityScopeRef → Scan → Scan
unfolding add_code scan_windows
scan_binding snapshots binding s = scan_snapshot binding (snapshot_for snapshots binding.provider) s

unfoldable pub scan_bindings : List CapacitySnapshot → List CapacityScopeRef → Scan → Scan
unfolding scan_binding
scan_bindings snapshots [] s = s
scan_bindings snapshots (b ∷ bs) s = scan_bindings snapshots bs (scan_binding snapshots b s)
