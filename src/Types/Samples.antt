-- ===== src/Types/Samples.antt =====
-- The theorems on constructed entries and catalogs, applied to samples.
use scarcity_router.Types.SafeId.{safe_id_match}
use scarcity_router.Types.LineFeed.{safe_id_match-line_feed}
use scarcity_router.Common.{
  ok, ◌≡◌, refl, nat_eq, string_eq, option_eq, list_eq, pair_eq, nat_order, string_order,
  pair_order, list_order, HasDistinctKeys, ◌∷◌, [], true,
}
use scarcity_router.Types.Identity.{identity_key, identity_eq, scope_eq}
use scarcity_router.Types.Catalog.{ModelCatalogEntry}
use scarcity_router.Types.Contract.{check_entry, check_catalog}
use scarcity_router.Types.Facts.{
  IsValidEntry, check_entry-IsValidEntry, check_catalog-HasDistinctKeys,
}
use scarcity_router.Samples.{sol_entry, catalog}

sol_checked : check_entry sol_entry ≡ ok sol_entry
unfolding check_entry
sol_checked = refl

check_entry-IsValidEntry_example : IsValidEntry sol_entry × (sol_entry ≡ sol_entry)
check_entry-IsValidEntry_example = check_entry-IsValidEntry sol_entry sol_entry sol_checked

catalog_checked : check_catalog catalog ≡ ok catalog
unfolding check_catalog
catalog_checked = refl

check_catalog-HasDistinctKeys_example :
    HasDistinctKeys (λ (e : ModelCatalogEntry). identity_key e.identity) catalog.entries
    × (catalog ≡ catalog)
check_catalog-HasDistinctKeys_example =
    check_catalog-HasDistinctKeys catalog catalog catalog_checked

sol_code : safe_id_match (b's' ∷ b'o' ∷ b'l' ∷ []) ≡ true
unfolding safe_id_match
sol_code = refl

safe_id_match-line_feed_example : safe_id_match (b's' ∷ b'o' ∷ b'l' ∷ 10 ∷ []) ≡ true
safe_id_match-line_feed_example =
    safe_id_match-line_feed (b's' ∷ b'o' ∷ b'l' ∷ []) (refl, (refl, (refl, tt))) sol_code
