-- ===== src/Capacity/Samples.antt =====
-- Constructed windows (capacity.py).
use scarcity_router.Common.{
  ok, ◌≡◌, refl, nat_eq, string_eq, option_eq, list_eq, pair_eq, nat_order, string_order,
  pair_order, list_order,
}
use scarcity_router.Capacity.{WindowKind}
use scarcity_router.Capacity.Contract.{
  resource_eq, kind_eq, resource_order, kind_order, diagnostic_eq, check_window,
}
use scarcity_router.Samples.{window_of}

weekly_checked :
    check_window (window_of WindowKind.weekly 40 60) ≡ ok (window_of WindowKind.weekly 40 60)
unfolding check_window
weekly_checked = refl
