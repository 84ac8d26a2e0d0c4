-- ===== src/Types/SafeId.antt =====
-- The identifier grammar (selection_types.py `_SAFE_ID_RE`, `_v_safe_id`, `_v_provider`).
use Prim.Native.Char.{code}
use scarcity_router.Common.{
  ℕ, ◌-◌, String, Bool, true, false, ◌&&◌, ◌||◌, List, [], ◌∷◌, leb, ltb, eqb, is_empty, Result, ok,
  guard, ◌>>◌,
}

-- The code points of a text.
abbrev pub codes : String → List ℕ
codes String.[] = []
codes (String.◌∷◌ c s) = code c ∷ codes s

-- `[a-z0-9]`
unfoldable pub is_id_start : ℕ → Bool
is_id_start c = (leb b'a' c && leb c b'z') || (leb b'0' c && leb c b'9')

-- `[a-z0-9._:-]`
unfoldable pub is_id_char : ℕ → Bool
unfolding is_id_start
is_id_char c = is_id_start c || (eqb c b'.' || (eqb c b'_' || (eqb c b':' || eqb c b'-')))

-- `[a-z0-9._:-]{0,n}$`: in Python `$` also matches before a line feed that ends the text.
unfoldable pub id_tail : ℕ → List ℕ → Bool
unfolding is_id_char
id_tail n [] = true
id_tail n (c ∷ cs) =
    let rest = id_tail (n - 1) cs in
    (eqb c 10 && is_empty cs) || (ltb 0 n && (is_id_char c && rest))

-- `_SAFE_ID_RE.match(s)`
unfoldable pub safe_id_match : List ℕ → Bool
unfolding id_tail
safe_id_match [] = false
safe_id_match (c ∷ cs) = is_id_start c && id_tail 63 cs

unfoldable pub is_safe_id : String → Bool
unfolding safe_id_match
is_safe_id s = safe_id_match (codes s)

unfoldable pub check_safe_id : String → Result String
unfolding is_safe_id
check_safe_id s = guard (is_safe_id s) "unsafe identifier" >> ok s

-- `_v_provider` of selection_types.py: an identifier, with no list of names behind it.
unfoldable pub check_provider : String → Result String
unfolding check_safe_id
check_provider s = check_safe_id s
