-- ===== src/Types/Facts.antt =====
-- What a constructed catalog entry and a constructed catalog satisfy.
use scarcity_router.Common.{
  inl, inr, All-both, ◌≡◌, true, false, not, Option, none, some, List, [], ◌∷◌, arith, All,
  All-mono, All-of-all, HasDistinctKeys, contains, Eq, ◌==◌, is_empty, all, ok, guard-eq-ok,
  ok-injective, sym, guard->>-eq-ok, >>-eq-ok, string_eq, pair_eq, guard, Result, ◌>>◌, ◌∙◌, refl,
  ◌≢◌, Bool-cases,
}
use text.Mathlib.TextEquality.{eq_iff}
use scarcity_router.Types.Text.{check_text}
use scarcity_router.Types.Identity.{
  IdentityKey, CapacityScopeRef, ModelIdentity, scope_key, identity_key,
}
use scarcity_router.Types.Catalog.{ModelCatalogEntry, ModelCatalog}
use scarcity_router.Types.Contract.{
  all_new, check_bindings, check_entry, check_catalog, check_resources, check_effort, check_review,
  check_version,
}

module _ {ℓ κ} {A : Type ℓ} {K : Type κ} ⦃e : Eq K⦄ (key : A → K) where
  -- A `seen` loop that passes has met no key twice, nor one that was seen before.
  all_new-fresh :
      (seen : List K) (xs : List A)
      → all_new key seen xs ≡ true
      → All (λ x. contains seen (key x) ≡ false) xs
  unfolding all_new contains
  all_new-fresh seen [] h = tt
  all_new-fresh seen (x ∷ xs) h = (
    ground arith,
    All-mono xs (λ y g. ground (arith, g)) (all_new-fresh (key x ∷ seen) xs (ground arith)),
  )

  pub all_new-HasDistinctKeys :
      (seen : List K) (xs : List A) → all_new key seen xs ≡ true → HasDistinctKeys key xs
  unfolding all_new contains
  all_new-HasDistinctKeys seen [] h = tt
  all_new-HasDistinctKeys seen (x ∷ xs) h = (
    All-mono xs (λ y g p. cc ((e.test_iff (key x) (key y)).1 p, differs (key x) (key y) g))
        (all_new-fresh (key x ∷ seen) xs (ground arith)),
    all_new-HasDistinctKeys (key x ∷ seen) xs (ground arith),
  )
    where
      differs : (a b : K) → contains (a ∷ seen) b ≡ false → (a == b) ≡ false
      differs a b g = ground arith

  pub all_new_of-HasDistinctKeys :
      (seen : List K) (xs : List A)
      → All (λ x. contains seen (key x) ≡ false) xs
      → HasDistinctKeys key xs
      → all_new key seen xs ≡ true
  unfolding all_new contains
  all_new_of-HasDistinctKeys seen [] f h = refl
  all_new_of-HasDistinctKeys seen (x ∷ xs) f h = rw (
    f.0,
    all_new_of-HasDistinctKeys (key x ∷ seen) xs (All-both (λ y. seen_later (key y)) xs f.1 h.0)
        h.1,
  )
    where
      seen_later : (k : K) → contains seen k ≡ false → key x ≢ k → contains (key x ∷ seen) k ≡ false
      seen_later k g d = elim (Bool-cases (key x == k)) [
        | inl q ↦ absurd (d ((e.test_iff (key x) k).0 q))
        | inr q ↦ ground arith
      ]

-- Known bindings: at least one, all of the model's provider, no scope twice.
abbrev pub HasValidBindings : ModelIdentity → Option (List CapacityScopeRef) → Type 0
HasValidBindings identity none = Unit
HasValidBindings identity (some bs) =
    (is_empty bs ≡ false)
    × All (λ (b : CapacityScopeRef). b.provider ≡ identity.provider) bs
    × HasDistinctKeys scope_key bs

abbrev pub IsValidEntry : ModelCatalogEntry → Type 0
IsValidEntry e = HasValidBindings e.identity e.capacity_bindings

check_bindings-HasValidBindings :
    (identity : ModelIdentity) (bs : Option (List CapacityScopeRef))
    → check_bindings identity bs ≡ ok tt
    → HasValidBindings identity bs
unfolding check_bindings
check_bindings-HasValidBindings identity none h = tt
check_bindings-HasValidBindings identity (some bs) h =
    let same = λ (b : CapacityScopeRef). b.provider == identity.provider in
    let (present, h₁) =
      guard->>-eq-ok (not (is_empty bs)) _
        (guard (all same bs) _ >> guard (all_new scope_key [] bs) _) h in
    let (all_same, h₂) = guard->>-eq-ok (all same bs) _ (guard (all_new scope_key [] bs) _) h₁ in
    (
      ground arith,
      All-mono bs (λ b g. (eq_iff b.provider identity.provider).0 g) (All-of-all same bs all_same),
      all_new-HasDistinctKeys scope_key [] bs (guard-eq-ok (all_new scope_key [] bs) _ h₂),
    )

abbrev after_bindings : ModelCatalogEntry → Result ModelCatalogEntry
after_bindings e = check_review e >> ok e

abbrev after_effort : ModelCatalogEntry → Result ModelCatalogEntry
after_effort e = check_bindings e.identity e.capacity_bindings >> after_bindings e

abbrev after_name : ModelCatalogEntry → Result ModelCatalogEntry
after_name e = check_effort e >> after_effort e

abbrev after_resources : ModelCatalogEntry → Result ModelCatalogEntry
after_resources e = check_text 128 e.display_name >> after_name e

steps : (e : ModelCatalogEntry) → (check_resources e >> after_resources e) ≡ check_entry e
unfolding check_entry
steps e = refl

catalog_steps :
    (c : ModelCatalog)
    → (check_version c
        >> (guard
              (all_new (λ (e : ModelCatalogEntry). identity_key e.identity) [] c.entries)
              "duplicate model identity"
            >> ok c))
      ≡ check_catalog c
unfolding check_catalog
catalog_steps c = refl

-- What `ModelCatalogEntry` lets through has valid bindings, and is stored as it was given.
pub check_entry-IsValidEntry :
    (e e' : ModelCatalogEntry) → check_entry e ≡ ok e' → IsValidEntry e × (e' ≡ e)
check_entry-IsValidEntry e e' h =
    let (_, h₁) = >>-eq-ok (check_resources e) (after_resources e) (steps e ∙ h) in
    let (_, h₂) = >>-eq-ok (check_text 128 e.display_name) (after_name e) h₁ in
    let (_, h₃) = >>-eq-ok (check_effort e) (after_effort e) h₂ in
    let (bound, h₄) =
      >>-eq-ok (check_bindings e.identity e.capacity_bindings) (after_bindings e) h₃ in
    let (_, h₅) = >>-eq-ok (check_review e) (ok e) h₄ in
    (check_bindings-HasValidBindings e.identity e.capacity_bindings bound, sym (ok-injective h₅))

abbrev catalog_key : ModelCatalogEntry → IdentityKey
catalog_key e = identity_key e.identity

-- What `ModelCatalog` lets through names no model twice.
pub check_catalog-HasDistinctKeys :
    (c c' : ModelCatalog)
    → check_catalog c ≡ ok c'
    → HasDistinctKeys (λ (e : ModelCatalogEntry). identity_key e.identity) c.entries × (c' ≡ c)
check_catalog-HasDistinctKeys c c' h =
    let fresh = guard (all_new catalog_key [] c.entries) "duplicate model identity" in
    let (_, h₁) = >>-eq-ok (check_version c) (fresh >> ok c) (catalog_steps c ∙ h) in
    let (unique, h₂) = guard->>-eq-ok (all_new catalog_key [] c.entries) _ (ok c) h₁ in
    (all_new-HasDistinctKeys catalog_key [] c.entries unique, sym (ok-injective h₂))
