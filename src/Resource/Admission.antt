-- ===== src/Resource/Admission.antt =====
-- What the rule for output limits (resource_state.py `route_output_code`) admits.
use scarcity_router.Common.{
  ℕ, ◌≡◌, Bool, true, false, not, ◌&&◌, ◌||◌, Option, none, some, leb, eqb, is_some, option_eq,
  list_eq, pair_eq, string_eq, nat_eq, nat_order, string_order, pair_order, list_order, arith,
}
use scarcity_router.Resource.{ExecutionCapabilities}
use scarcity_router.Resource.Output.{
  is_uncontrolled, route_output_code, present, code_within, known_limits, is_binding,
}

-- A limit that is not known is no obstacle.
abbrev pub gives : Option ℕ → ℕ → Bool
gives none requested = true
gives (some l) requested = leb requested l

abbrev pub is_exactly : Option ℕ → ℕ → Bool
is_exactly none requested = false
is_exactly (some h) requested = eqb h requested

-- A route that can give a requested output: some limit of it is known, no known one is below the request, and where
-- the limit is enforced and the channel has no control of it, the variant's own maximum is what is requested.
abbrev pub can_give : ExecutionCapabilities → Option ℕ → ℕ → Bool → Bool → Bool
can_give c hard requested resolved enforced =
    ((resolved && is_some hard) || is_some c.output_limit_tokens)
    && (((not resolved || gives hard requested) && gives c.output_limit_tokens requested)
        && (not (enforced && is_uncontrolled c.output_limit_control)
            || (resolved && is_exactly hard requested)))

by_limits :
    (hard channel : Option ℕ) (resolved cut : Bool) (requested : ℕ)
    → is_some (
        code_within
          (known_limits hard channel resolved)
          requested
          (cut && is_binding resolved hard requested))
      ≡ not (
          ((resolved && is_some hard) || is_some channel)
          && (((not resolved || gives hard requested) && gives channel requested)
              && (not cut || (resolved && is_exactly hard requested))))
unfolding present
by_limits none none true cut r = ground arith
by_limits none none false cut r = ground arith
by_limits none (some l) true cut r = ground arith
by_limits none (some l) false cut r = ground arith
by_limits (some h) none true cut r = ground arith
by_limits (some h) none false cut r = ground arith
by_limits (some h) (some l) true cut r = ground arith
by_limits (some h) (some l) false cut r = ground arith

-- The rule refuses a requested output exactly where the route cannot give it.
pub route_output_code-can_give :
    (c : ExecutionCapabilities) (hard : Option ℕ) (requested : ℕ) (resolved enforced : Bool)
    → is_some (route_output_code c hard (some requested) resolved enforced)
      ≡ not (can_give c hard requested resolved enforced)
unfolding route_output_code
route_output_code-can_give c hard requested resolved enforced =
    by_limits hard c.output_limit_tokens resolved
      (enforced && is_uncontrolled c.output_limit_control) requested
