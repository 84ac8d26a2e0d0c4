-- ===== src/Selector/Preferences.antt =====
-- What only ranks or informs does not decide (selector.py): happy hours, replenishment, the preference order and
-- the floor of the short window.
use scarcity_router.Common.{ok, ℕ, ◌≡◌, ◌∙◌, sym, Bool, Option, List}
use scarcity_router.Types.Identity.{ModelIdentity}
use scarcity_router.Types.Catalog.{ModelCatalogEntry}
use scarcity_router.Policy.{ReplenishmentMode, ReplenishmentState, WeeklyRule}
use scarcity_router.Policy.FirstRule.{Evaluates, HaveSafeIds}
use scarcity_router.Selector.{CandidateEvaluation}
use scarcity_router.Selector.Evaluate.{evaluate_candidate}
use scarcity_router.Selector.Inputs.{Inputs}
use scarcity_router.Selector.Pipeline.Expected.{IsReady}
use scarcity_router.Selector.Pipeline.{evaluate_candidate-stage}

-- The parts of the inputs that only rank candidates or inform about them.
pub record Preferences : Type 0 where
  pub happy_hours : List WeeklyRule
  pub replenishment_mode : ReplenishmentMode
  pub replenishment_states : List ReplenishmentState
  pub preference_order : List ModelIdentity
  pub short_window_floor_percent : Option ℕ

abbrev pub with_preferences : Inputs → Preferences → Inputs
with_preferences i p = record i {
  replenishment_states = p.replenishment_states;
  policy = record {
    resource_policy = record (i.policy.resource_policy) {
      happy_hours = p.happy_hours;
      replenishment_mode = p.replenishment_mode;
    };
    preference_order = p.preference_order;
    short_window_floor_percent = p.short_window_floor_percent;
  };
}

-- Other happy hours with safe ids whose tests raise nothing, another replenishment mode, other replenishment
-- states, another preference order and another short-window floor do not change whether a candidate is eligible
-- nor the stage that excludes it: both evaluations return, with the same of the two.
pub evaluate_candidate-same_eligibility :
    (i : Inputs) (p : Preferences) (entry : ModelCatalogEntry)
    (blocks prefers other_prefers : WeeklyRule → Bool)
    → IsReady i entry blocks prefers
    → Evaluates i.zones entry.identity i.evaluated_at other_prefers p.happy_hours
    → HaveSafeIds p.happy_hours
    → (e : CandidateEvaluation) × (e' : CandidateEvaluation) × (evaluate_candidate i entry ≡ ok e)
      × (evaluate_candidate (with_preferences i p) entry ≡ ok e')
      × (e'.eligible ≡ e.eligible)
      × (e'.exclusion_stage ≡ e.exclusion_stage)
evaluate_candidate-same_eligibility i p entry blocks prefers other_prefers r h safe =
    let (e, built, out) = evaluate_candidate-stage i entry blocks prefers r in
    let ready : IsReady (with_preferences i p) entry blocks other_prefers = record {
      shown = r.shown;
      bound = r.bound;
      snapshots = r.snapshots;
      blackouts = r.blackouts;
      blackout_ids = r.blackout_ids;
      happy_hours = h;
      happy_hour_ids = safe;
      rule_ids = r.rule_ids;
    } in
    let (e', built', out') =
      evaluate_candidate-stage (with_preferences i p) entry blocks other_prefers ready in
    (
      e,
      e',
      built,
      built',
      out'.eligible_without ∙ sym out.eligible_without,
      out'.at_stage ∙ sym out.at_stage,
    )
