-- ===== src/Resource/RuntimeVersion.antt =====
-- The pattern of runtime versions (runtime_version.py), read by an automaton.
use scarcity_router.Common.{
  ℕ, String, ◌≡◌, refl, Bool, true, false, ◌&&◌, ◌||◌, List, [], ◌∷◌, leb, eqb, if◌then◌else◌,
  length, option_eq, list_eq, pair_eq, string_eq, nat_eq, nat_order, string_order, pair_order,
  list_order,
}
use scarcity_router.Types.SafeId.{codes}

-- Where the pattern stands: before or within one of its three numbers, a word before `+`, or a word after it.
pub data Place : Type 0 where
  before_major major before_minor minor before_patch patch : Place
  before_word word before_build build wrong : Place

abbrev is_number : ℕ → Bool
is_number c = leb b'0' c && leb c b'9'

-- `[0-9A-Za-z]`
abbrev is_word : ℕ → Bool
is_word c = is_number c || ((leb b'A' c && leb c b'Z') || (leb b'a' c && leb c b'z'))

-- `[.-]`
abbrev is_joint : ℕ → Bool
is_joint c = eqb c b'.' || eqb c b'-'

abbrev pub read : Place → ℕ → Place
read before_major c = if is_number c then major else wrong
read major c = if is_number c then major else if eqb c b'.' then before_minor else wrong
read before_minor c = if is_number c then minor else wrong
read minor c = if is_number c then minor else if eqb c b'.' then before_patch else wrong
read before_patch c = if is_number c then patch else wrong
read patch c =
    if is_number c
    then patch
    else if eqb c b'-'
    then before_word
    else if eqb c b'+'
    then before_build
    else wrong
read before_word c = if is_word c then word else wrong
read word c =
    if is_word c
    then word
    else if is_joint c
    then before_word
    else if eqb c b'+'
    then before_build
    else wrong
read before_build c = if is_word c then build else wrong
read build c = if is_word c then build else if is_joint c then before_build else wrong
read wrong c = wrong

abbrev pub accepts : Place → Bool
accepts patch = true
accepts word = true
accepts build = true
accepts _ = false

-- `_VERSION.fullmatch(value)`
unfoldable pub version_match : Place → List ℕ → Bool
version_match p [] = accepts p
version_match p (c ∷ cs) = version_match (read p c) cs

-- `validate_runtime_version`
unfoldable pub is_runtime_version : String → Bool
unfolding version_match
is_runtime_version s = leb (length (codes s)) 64 && version_match before_major (codes s)

released : is_runtime_version "0.46.0-alpha.3+linux" ≡ true
unfolding is_runtime_version
released = refl

too_short : is_runtime_version "1.2" ≡ false
unfolding is_runtime_version
too_short = refl
