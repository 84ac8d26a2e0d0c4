-- ===== src/Resource/Contract.antt =====
-- The orders of the collections of resource_state.py: sort keys, and what sorted and unique means.
use scarcity_router.Common.{
  ℕ, ◌+◌, String, ◌≡◌, Bool, true, not, ◌&&◌, Option, none, some, List, [], ◌∷◌, arith, Eq,
  option_eq, list_eq, pair_eq, string_eq, nat_eq, Order, ◌<?◌, nat_order, string_order, pair_order,
  list_order, eq_of_rank,
}
use scarcity_router.Types.Contract.{all_new}
use scarcity_router.Capacity.{WindowResource, WindowKind, CapacityDiagnostic}
use scarcity_router.Capacity.Contract.{
  diagnostic_rank, resource_eq, kind_eq, resource_order, kind_order, diagnostic_eq,
}
use scarcity_router.Resource.{
  ExecutionChannel, EntitlementClass, ObservationClass, QuotaFact, PromotionObservation,
}

-- A word's place in the alphabetical order of its vocabulary.
abbrev class_rank : ObservationClass → ℕ
class_rank ObservationClass.direct_observation = 0
class_rank ObservationClass.estimate = 1
class_rank ObservationClass.local_limit = 2
class_rank ObservationClass.provider_telemetry = 3
class_rank ObservationClass.unknown = 4

abbrev channel_rank : ExecutionChannel → ℕ
channel_rank ExecutionChannel.local_app_adapter = 0
channel_rank ExecutionChannel.server_direct_http = 1
channel_rank ExecutionChannel.worker_bridged = 2

abbrev entitlement_rank : EntitlementClass → ℕ
entitlement_rank EntitlementClass.local_ungated = 0
entitlement_rank EntitlementClass.payg_metered = 1
entitlement_rank EntitlementClass.prepaid_credits = 2
entitlement_rank EntitlementClass.promotional = 3
entitlement_rank EntitlementClass.subscription_included = 4
entitlement_rank EntitlementClass.unknown = 5

pub class_rank-injective : (a b : ObservationClass) → class_rank a ≡ class_rank b → a ≡ b
class_rank-injective a b h = ground arith

pub channel_rank-injective : (a b : ExecutionChannel) → channel_rank a ≡ channel_rank b → a ≡ b
channel_rank-injective a b h = ground arith

pub entitlement_rank-injective :
    (a b : EntitlementClass) → entitlement_rank a ≡ entitlement_rank b → a ≡ b
entitlement_rank-injective a b h = ground arith

instance abbrev pub channel_eq : Eq ExecutionChannel
channel_eq = eq_of_rank channel_rank channel_rank-injective

instance abbrev pub entitlement_eq : Eq EntitlementClass
entitlement_eq = eq_of_rank entitlement_rank entitlement_rank-injective

-- `x if x is not None else -1`, moved up by one.
abbrev or_less : Option ℕ → ℕ
or_less none = 0
or_less (some n) = n + 1

-- `x or ""`
abbrev or_empty : Option String → String
or_empty none = ""
or_empty (some s) = s

-- `_DIAGNOSTIC_SORT_KEY_ORDER`
abbrev pub resource_place : WindowResource → ℕ
resource_place WindowResource.tokens = 0
resource_place WindowResource.time = 1
resource_place WindowResource.unknown = 2

-- `_WINDOW_KIND_ORDER`
abbrev pub kind_place : WindowKind → ℕ
kind_place WindowKind.five_hour = 0
kind_place WindowKind.weekly = 1
kind_place WindowKind.unknown = 2

abbrev pub QuotaFactKey : Type 0
QuotaFactKey = ℕ × (ℕ × (ℕ × (String × (String × (ℕ × (String × (ℕ × ℕ)))))))

-- `_quota_fact_sort_key`; a word follows its own place and so decides nothing.
abbrev pub quota_fact_sort_key : QuotaFact → QuotaFactKey
quota_fact_sort_key f =
    let w = f.window in
    (
      class_rank f.observation_class,
      (
        resource_place w.resource,
        (
          kind_place w.kind,
          (
            or_empty w.scope_id,
            (
              or_empty w.window_id,
              (
                or_less w.duration_seconds,
                (or_empty w.resets_at, (or_less w.used_percent, or_less w.remaining_percent)),
              ),
            ),
          ),
        ),
      ),
    )

abbrev channel_text : ExecutionChannel → String
channel_text ExecutionChannel.server_direct_http = "server_direct_http"
channel_text ExecutionChannel.worker_bridged = "worker_bridged"
channel_text ExecutionChannel.local_app_adapter = "local_app_adapter"

abbrev opt_channel_text : Option ExecutionChannel → String
opt_channel_text none = ""
opt_channel_text (some c) = channel_text c

abbrev pub PromotionKey : Type 0
PromotionKey =
    String × (String × (String × (String × (String × (String × (String × (String × String)))))))

-- `_promotion_sort_key`
abbrev pub promotion_sort_key : PromotionObservation → PromotionKey
promotion_sort_key p = (
  p.source,
  (
    p.observed_at,
    (
      opt_channel_text p.channel,
      (
        or_empty p.provider,
        (
          or_empty p.model,
          (or_empty p.plan, (or_empty p.valid_from, (or_empty p.valid_until, or_empty p.timezone))),
        ),
      ),
    ),
  ),
)

-- `_diagnostic_sort_key`
abbrev pub diagnostic_sort_key : CapacityDiagnostic → ℕ × String
diagnostic_sort_key d = (diagnostic_rank d.code, or_empty d.window_id)

-- A list that is sorted by the key: where it differs from its stable sort, some neighbours are out of order.
module _ {ℓ κ} {A : Type ℓ} {K : Type κ} ⦃o : Order K⦄ (key : A → K) where
  unfoldable pub is_sorted : List A → Bool
  is_sorted [] = true
  is_sorted (a ∷ []) = true
  is_sorted (a ∷ b ∷ xs) = not (key b <? key a) && is_sorted (b ∷ xs)

abbrev pub text : String → String
text s = s

-- `_v_sorted_unique`
unfoldable pub is_sorted_unique : List String → Bool
unfolding is_sorted all_new
is_sorted_unique xs = is_sorted text xs && all_new text [] xs
