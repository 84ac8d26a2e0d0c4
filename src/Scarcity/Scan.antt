-- ===== src/Scarcity/Scan.antt =====
-- What the loops of `assess_scarcity` collect, against a description without loops.
use scarcity_router.Common.{
  ◌≡◌, refl, sym, ap, ◌∙◌, inl, inr, Bool, true, false, ◌&&◌, Option, none, some, List, [], ◌∷◌,
  ◌++◌, arith, Bool-cases, all, is_empty, nat_eq, string_eq, option_eq, list_eq, pair_eq, nat_order,
  string_order, pair_order, list_order,
}
use mathlib.Core.List.{append_assoc, append-nil}
use scarcity_router.Types.Identity.{CapacityScopeRef, identity_eq, scope_eq}
use scarcity_router.Capacity.{CapacitySnapshot}
use scarcity_router.Capacity.Contract.{
  resource_eq, kind_eq, resource_order, kind_order, diagnostic_eq, is_ok,
}
use scarcity_router.Scarcity.Assessment.{
  reason_eq, reason_order, role_eq, label_eq, evidence_eq, missing_scope_window,
  missing_provider_snapshot, provider_snapshot_not_ok,
}
use scarcity_router.Scarcity.Bindings.{
  Scan, scan_windows, snapshot_for, close_scope, scan_snapshot, scan_bindings,
}
use scarcity_router.Scarcity.Windows.{
  IsReasonSet, add_code-IsReasonSet, applicable, candidates_of, covers, is_covered,
  is_empty-add_code, scan_windows-IsReasonSet, scan_windows-clean, scan_windows-known,
  scan_windows-matched, trusted_windows,
}

close_scope-known :
    (matched : Bool) (s : Scan) → (close_scope matched s).known_windows ≡ s.known_windows
close_scope-known true s = refl
close_scope-known false s = refl

close_scope-clean :
    (matched : Bool) (s : Scan)
    → is_empty (close_scope matched s).reason_codes ≡ (matched && is_empty s.reason_codes)
close_scope-clean true s = refl
close_scope-clean false s = is_empty-add_code missing_scope_window s.reason_codes

close_scope-IsReasonSet :
    (matched : Bool) (s : Scan)
    → IsReasonSet s.reason_codes
    → IsReasonSet (close_scope matched s).reason_codes
close_scope-IsReasonSet true s h = h
close_scope-IsReasonSet false s h =
    add_code-IsReasonSet missing_scope_window s.reason_codes (λ e. cc, λ e. cc) h

-- The same three facts of one binding, by cases on the provider's snapshot.
scan_snapshot-known :
    (b : CapacityScopeRef) (o : Option CapacitySnapshot) (s : Scan)
    → (scan_snapshot b o s).known_windows ≡ s.known_windows ++ candidates_of b (trusted_windows o)
scan_snapshot-known b none s = sym (append-nil s.known_windows)
scan_snapshot-known b (some sn) s = elim (Bool-cases (is_ok sn.status)) [
  | inl g ↦ rw g (
      close_scope-known _ (scan_windows b sn.windows false s).1
      ∙ scan_windows-known b sn.windows false s)
  | inr g ↦ rw g (sym (append-nil s.known_windows))
]

scan_snapshot-clean :
    (b : CapacityScopeRef) (o : Option CapacitySnapshot) (s : Scan)
    → is_empty (scan_snapshot b o s).reason_codes
      ≡ (is_empty s.reason_codes && covers b (trusted_windows o))
scan_snapshot-clean b none s =
    ground (arith, is_empty-add_code missing_provider_snapshot s.reason_codes)
scan_snapshot-clean b (some sn) s = elim (Bool-cases (is_ok sn.status)) [
  | inl g ↦ rw g (
      ground (
        arith,
        close_scope-clean (scan_windows b sn.windows false s).0
            (scan_windows b sn.windows false s).1,
        scan_windows-matched b sn.windows false s,
        scan_windows-clean b sn.windows false s,
      ))
  | inr g ↦ rw g (ground (arith, is_empty-add_code provider_snapshot_not_ok s.reason_codes))
]

scan_snapshot-IsReasonSet :
    (b : CapacityScopeRef) (o : Option CapacitySnapshot) (s : Scan)
    → IsReasonSet s.reason_codes
    → IsReasonSet (scan_snapshot b o s).reason_codes
scan_snapshot-IsReasonSet b none s h =
    add_code-IsReasonSet missing_provider_snapshot s.reason_codes (λ e. cc, λ e. cc) h
scan_snapshot-IsReasonSet b (some sn) s h = elim (Bool-cases (is_ok sn.status)) [
  | inl g ↦ rw g (close_scope-IsReasonSet _ _ (scan_windows-IsReasonSet b sn.windows false s h))
  | inr g ↦ rw g (add_code-IsReasonSet provider_snapshot_not_ok s.reason_codes (λ e. cc, λ e. cc) h)
]

-- The scan collects the applicable candidates, in order.
pub scan_bindings-known :
    (snapshots : List CapacitySnapshot) (bs : List CapacityScopeRef) (s : Scan)
    → (scan_bindings snapshots bs s).known_windows ≡ s.known_windows ++ applicable snapshots bs
unfolding scan_bindings
scan_bindings-known snapshots [] s = sym (append-nil s.known_windows)
scan_bindings-known snapshots (b ∷ bs) s =
    let found = snapshot_for snapshots b.provider in
    scan_bindings-known snapshots bs (scan_snapshot b found s)
    ∙ ap (λ l. l ++ applicable snapshots bs) (scan_snapshot-known b found s)
    ∙ append_assoc s.known_windows (candidates_of b (trusted_windows found))
        (applicable snapshots bs)

-- It notes no reason just if every binding is covered.
pub scan_bindings-clean :
    (snapshots : List CapacitySnapshot) (bs : List CapacityScopeRef) (s : Scan)
    → is_empty (scan_bindings snapshots bs s).reason_codes
      ≡ (is_empty s.reason_codes && all (is_covered snapshots) bs)
unfolding scan_bindings
scan_bindings-clean snapshots [] s = ground arith
scan_bindings-clean snapshots (b ∷ bs) s =
    let found = snapshot_for snapshots b.provider in
    scan_bindings-clean snapshots bs (scan_snapshot b found s)
    ∙ ap (λ c. c && all (is_covered snapshots) bs) (scan_snapshot-clean b found s)
    ∙ and_assoc (is_empty s.reason_codes) (is_covered snapshots b) (all (is_covered snapshots) bs)
  where
    and_assoc : (x y z : Bool) → ((x && y) && z) ≡ (x && (y && z))
    and_assoc x y z = ground arith

-- What it notes are distinct reasons of the telemetry.
pub scan_bindings-IsReasonSet :
    (snapshots : List CapacitySnapshot) (bs : List CapacityScopeRef) (s : Scan)
    → IsReasonSet s.reason_codes
    → IsReasonSet (scan_bindings snapshots bs s).reason_codes
unfolding scan_bindings
scan_bindings-IsReasonSet snapshots [] s h = h
scan_bindings-IsReasonSet snapshots (b ∷ bs) s h =
    let found = snapshot_for snapshots b.provider in
    scan_bindings-IsReasonSet snapshots bs (scan_snapshot b found s)
      (scan_snapshot-IsReasonSet b found s h)
