-- ===== src/Types/Identity.antt =====
-- The identity types of selection_types.py: ModelRef, ModelIdentity and CapacityScopeRef.
use scarcity_router.Common.{String, ◌≡◌, Eq, string_eq, pair_eq, eq_of_key, Result, ok, ◌>>=◌}
use scarcity_router.Types.SafeId.{check_provider, check_safe_id}

pub record ModelRef : Type 0 where
  pub provider : String
  pub model : String

pub record ModelIdentity : Type 0 where
  pub provider : String
  pub model : String
  pub variant : String

pub record CapacityScopeRef : Type 0 where
  pub provider : String
  pub scope_id : String

-- `ModelRef.__post_init__`
unfoldable pub check_model_ref : ModelRef → Result ModelRef
unfolding check_provider check_safe_id
check_model_ref r = do p ← check_provider r.provider; m ← check_safe_id r.model; ok r

-- `ModelIdentity.__post_init__`
unfoldable pub check_identity : ModelIdentity → Result ModelIdentity
unfolding check_provider check_safe_id
check_identity i = do
  p ← check_provider i.provider
  m ← check_safe_id i.model
  v ← check_safe_id i.variant
  ok i

-- `CapacityScopeRef.__post_init__`
unfoldable pub check_scope_ref : CapacityScopeRef → Result CapacityScopeRef
unfolding check_provider check_safe_id
check_scope_ref s = do p ← check_provider s.provider; i ← check_safe_id s.scope_id; ok s

-- `(provider, model, variant)`, the key by which candidates are identified and ordered.
abbrev pub IdentityKey : Type 0
IdentityKey = String × (String × String)

-- selector.py `_identity_key`
abbrev pub identity_key : ModelIdentity → IdentityKey
identity_key i = (i.provider, (i.model, i.variant))

-- `(provider, scope_id)`
abbrev pub ScopeKey : Type 0
ScopeKey = String × String

abbrev pub scope_key : CapacityScopeRef → ScopeKey
scope_key s = (s.provider, s.scope_id)

-- An identity is its key.
pub identity_key-injective : (i j : ModelIdentity) → identity_key i ≡ identity_key j → i ≡ j
identity_key-injective i j e =
    λ k. record { provider = (e k).0; model = (e k).1.0; variant = (e k).1.1 }

pub scope_key-injective : (s t : CapacityScopeRef) → scope_key s ≡ scope_key t → s ≡ t
scope_key-injective s t e = λ k. record { provider = (e k).0; scope_id = (e k).1 }

-- The frozen dataclasses compare field by field.
instance abbrev pub identity_eq : Eq ModelIdentity
identity_eq = eq_of_key identity_key identity_key-injective

instance abbrev pub scope_eq : Eq CapacityScopeRef
scope_eq = eq_of_key scope_key scope_key-injective
