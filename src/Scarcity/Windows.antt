-- ===== src/Scarcity/Windows.antt =====
-- What the loop over a snapshot's windows collects (scarcity.py `assess_scarcity`).
use scarcity_router.Common.{
  ℕ, ◌≡◌, refl, sym, ap, ◌∙◌, ◌≢◌, inl, inr, Bool, false, not, ◌&&◌, ◌||◌, Option, none, some, List,
  [], ◌∷◌, ◌++◌, arith, if◌then◌else◌, Bool-cases, is_some, any, all, is_empty, All,
  HasDistinctKeys, nat_eq, string_eq, option_eq, contains, list_eq, pair_eq, nat_order,
  string_order, pair_order, list_order, contains-false,
}
use mathlib.Core.List.{append_assoc, append-nil}
use scarcity_router.Types.Identity.{CapacityScopeRef, identity_eq, scope_eq}
use scarcity_router.Capacity.{CapacityWindow, CapacitySnapshot}
use scarcity_router.Capacity.Contract.{
  resource_eq, kind_eq, resource_order, kind_order, diagnostic_eq, is_ok,
}
use scarcity_router.Scarcity.Assessment.{
  ScarcityReason, reason_eq, reason_order, role_eq, label_eq, evidence_eq,
  capacity_bindings_unknown, window_percentage_unknown, capacity_exhausted,
}
use scarcity_router.Scarcity.Bindings.{
  Candidate, Scan, add_code, usable_remaining, window_matches, keep_window, scan_windows,
  snapshot_for, scan_window,
}

-- The windows of a list that the binding governs and whose percentage is known.
abbrev pub candidate_of : CapacityScopeRef → CapacityWindow → Option ℕ → List Candidate
candidate_of binding w none = []
candidate_of binding w (some remaining) =
    record { scope = binding; window = w; remaining = remaining } ∷ []

abbrev pub candidates_of : CapacityScopeRef → List CapacityWindow → List Candidate
candidates_of binding [] = []
candidates_of binding (w ∷ ws) =
    (if window_matches binding w then candidate_of binding w (usable_remaining w) else [])
    ++ candidates_of binding ws

-- The provider's snapshot, if it can be trusted.
abbrev pub trusted_windows : Option CapacitySnapshot → List CapacityWindow
trusted_windows none = []
trusted_windows (some s) = if is_ok s.status then s.windows else []

abbrev pub applicable : List CapacitySnapshot → List CapacityScopeRef → List Candidate
applicable snapshots [] = []
applicable snapshots (b ∷ bs) =
    candidates_of b (trusted_windows (snapshot_for snapshots b.provider)) ++ applicable snapshots bs

abbrev pub is_readable : CapacityScopeRef → CapacityWindow → Bool
is_readable binding w = not (window_matches binding w) || is_some (usable_remaining w)

-- A binding is covered: a trusted snapshot has a window of its scope, and the percentage of all such.
abbrev pub covers : CapacityScopeRef → List CapacityWindow → Bool
covers binding ws = any (window_matches binding) ws && all (is_readable binding) ws

abbrev pub is_covered : List CapacitySnapshot → CapacityScopeRef → Bool
is_covered snapshots binding =
    covers binding (trusted_windows (snapshot_for snapshots binding.provider))

-- A reason of the telemetry, not of the applicability and not exhaustion.
abbrev pub IsTelemetry : ScarcityReason → Type 0
IsTelemetry c = (c ≢ capacity_bindings_unknown) × (c ≢ capacity_exhausted)

abbrev code_id : ScarcityReason → ScarcityReason
code_id c = c

pub record IsReasonSet (codes : List ScarcityReason) : Type 0 where
  pub telemetry : All IsTelemetry codes
  pub distinct : HasDistinctKeys (λ (c : ScarcityReason). c) codes

pub add_code-IsReasonSet :
    (c : ScarcityReason) (codes : List ScarcityReason)
    → IsTelemetry c
    → IsReasonSet codes
    → IsReasonSet (add_code c codes)
unfolding add_code
add_code-IsReasonSet c codes t h = elim (Bool-cases (contains codes c)) [
  | inl e ↦ rw e h
  | inr e ↦
      rw e
        (record { telemetry = (t, h.telemetry); distinct = (contains-false codes c e, h.distinct) })
]

pub is_empty-add_code :
    (c : ScarcityReason) (codes : List ScarcityReason) → is_empty (add_code c codes) ≡ false
unfolding add_code contains
is_empty-add_code c [] = refl
is_empty-add_code c (d ∷ codes) = ground arith

keep_window-known :
    (b : CapacityScopeRef) (w : CapacityWindow) (o : Option ℕ) (s : Scan)
    → (keep_window b w o s).known_windows ≡ s.known_windows ++ candidate_of b w o
keep_window-known b w none s = sym (append-nil s.known_windows)
keep_window-known b w (some r) s = refl

-- What one window adds to the candidates.
abbrev pub added : CapacityScopeRef → CapacityWindow → List Candidate
added b w = if window_matches b w then candidate_of b w (usable_remaining w) else []

scan_window-known :
    (b : CapacityScopeRef) (w : CapacityWindow) (s : Scan)
    → (scan_window b w s).known_windows ≡ s.known_windows ++ added b w
unfolding scan_window
scan_window-known b w s = elim (Bool-cases (window_matches b w)) [
  | inl e ↦ rw e (keep_window-known b w (usable_remaining w) s)
  | inr e ↦ rw e (sym (append-nil s.known_windows))
]

pub scan_windows-known :
    (b : CapacityScopeRef) (ws : List CapacityWindow) (matched : Bool) (s : Scan)
    → (scan_windows b ws matched s).1.known_windows ≡ s.known_windows ++ candidates_of b ws
unfolding scan_windows
scan_windows-known b [] matched s = sym (append-nil s.known_windows)
scan_windows-known b (w ∷ ws) matched s =
    scan_windows-known b ws (matched || window_matches b w) (scan_window b w s)
    ∙ ap (λ l. l ++ candidates_of b ws) (scan_window-known b w s)
    ∙ append_assoc s.known_windows (added b w) (candidates_of b ws)

pub scan_windows-matched :
    (b : CapacityScopeRef) (ws : List CapacityWindow) (matched : Bool) (s : Scan)
    → (scan_windows b ws matched s).0 ≡ (matched || any (window_matches b) ws)
unfolding scan_windows
scan_windows-matched b [] matched s = ground arith
scan_windows-matched b (w ∷ ws) matched s =
    ground (arith, scan_windows-matched b ws (matched || window_matches b w) (scan_window b w s))

keep_window-clean :
    (b : CapacityScopeRef) (w : CapacityWindow) (o : Option ℕ) (s : Scan)
    → is_empty (keep_window b w o s).reason_codes ≡ (is_empty s.reason_codes && is_some o)
keep_window-clean b w none s =
    ground (arith, is_empty-add_code window_percentage_unknown s.reason_codes)
keep_window-clean b w (some r) s = ground arith

scan_window-clean :
    (b : CapacityScopeRef) (w : CapacityWindow) (s : Scan)
    → is_empty (scan_window b w s).reason_codes ≡ (is_empty s.reason_codes && is_readable b w)
unfolding scan_window
scan_window-clean b w s = elim (Bool-cases (window_matches b w)) [
  | inl e ↦ rw e (keep_window-clean b w (usable_remaining w) s)
  | inr e ↦ rw e (ground arith)
]

pub scan_windows-clean :
    (b : CapacityScopeRef) (ws : List CapacityWindow) (matched : Bool) (s : Scan)
    → is_empty (scan_windows b ws matched s).1.reason_codes
      ≡ (is_empty s.reason_codes && all (is_readable b) ws)
unfolding scan_windows
scan_windows-clean b [] matched s = ground arith
scan_windows-clean b (w ∷ ws) matched s = ground (
  arith,
  scan_windows-clean b ws (matched || window_matches b w) (scan_window b w s),
  scan_window-clean b w s,
)

keep_window-IsReasonSet :
    (b : CapacityScopeRef) (w : CapacityWindow) (o : Option ℕ) (s : Scan)
    → IsReasonSet s.reason_codes
    → IsReasonSet (keep_window b w o s).reason_codes
keep_window-IsReasonSet b w none s h =
    add_code-IsReasonSet window_percentage_unknown s.reason_codes (λ e. cc, λ e. cc) h
keep_window-IsReasonSet b w (some r) s h = h

scan_window-IsReasonSet :
    (b : CapacityScopeRef) (w : CapacityWindow) (s : Scan)
    → IsReasonSet s.reason_codes
    → IsReasonSet (scan_window b w s).reason_codes
unfolding scan_window
scan_window-IsReasonSet b w s h = elim (Bool-cases (window_matches b w)) [
  | inl e ↦ rw e (keep_window-IsReasonSet b w (usable_remaining w) s h)
  | inr e ↦ rw e h
]

pub scan_windows-IsReasonSet :
    (b : CapacityScopeRef) (ws : List CapacityWindow) (matched : Bool) (s : Scan)
    → IsReasonSet s.reason_codes
    → IsReasonSet (scan_windows b ws matched s).1.reason_codes
unfolding scan_windows
scan_windows-IsReasonSet b [] matched s h = h
scan_windows-IsReasonSet b (w ∷ ws) matched s h =
    scan_windows-IsReasonSet b ws (matched || window_matches b w) (scan_window b w s)
      (scan_window-IsReasonSet b w s h)
