-- ===== src/Resource/Output.antt =====
-- The rule for output limits of a route (resource_state.py `route_output_code`).
use scarcity_router.Common.{
  ℕ, min, Bool, true, false, not, ◌&&◌, ◌||◌, Option, none, some, List, [], ◌∷◌, ltb, if◌then◌else◌,
  option_eq, list_eq, pair_eq, string_eq, nat_eq, nat_order, string_order, pair_order, list_order,
}
use scarcity_router.Resource.{ExecutionCapabilities}

-- `OUTPUT_LIMIT_CODES`
pub data OutputLimitCode : Type 0 where
  output_limit_unknown output_limit_insufficient output_limit_unenforceable : OutputLimitCode

-- `value for value in values if value is not None`
unfoldable pub present : List (Option ℕ) → List ℕ
present [] = []
present (o ∷ os) = elim o [ none ↦ present os | some v ↦ v ∷ present os ]

abbrev pub min_of : ℕ → List ℕ → ℕ
min_of v [] = v
min_of v (w ∷ ws) = min_of (min v w) ws

abbrev pub is_uncontrolled : Option Bool → Bool
is_uncontrolled (some false) = true
is_uncontrolled _ = false

abbrev pub is_binding : Bool → Option ℕ → ℕ → Bool
is_binding variant_resolved none requested = true
is_binding variant_resolved (some h) requested = not variant_resolved || ltb requested h

-- The limits that the decision knows of.
abbrev pub known_limits : Option ℕ → Option ℕ → Bool → List ℕ
known_limits hard channel variant_resolved =
    if variant_resolved then present (hard ∷ channel ∷ []) else present (channel ∷ [])

abbrev pub code_within : List ℕ → ℕ → Bool → Option OutputLimitCode
code_within [] requested refused = some output_limit_unknown
code_within (v ∷ vs) requested refused =
    if ltb (min_of v vs) requested
    then some output_limit_insufficient
    else if refused
    then some output_limit_unenforceable
    else none

-- `route_output_code`
unfoldable pub route_output_code :
    ExecutionCapabilities → Option ℕ → Option ℕ → Bool → Bool → Option OutputLimitCode
unfolding present
route_output_code c hard none variant_resolved enforce_limit = none
route_output_code c hard (some requested) variant_resolved enforce_limit =
    code_within (known_limits hard c.output_limit_tokens variant_resolved) requested (
      (enforce_limit && is_uncontrolled c.output_limit_control)
      && is_binding variant_resolved hard requested)
