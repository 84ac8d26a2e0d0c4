-- ===== src/Types/Text.antt =====
-- Bounded readable text (selection_types.py `_v_text`).
use scarcity_router.Common.{
  ℕ, String, Bool, false, not, ◌&&◌, ◌||◌, Option, none, some, List, [], ◌∷◌, leb, ltb, eqb, any,
  is_empty, length, Result, ok, guard, ◌>>◌,
}
use scarcity_router.Types.SafeId.{codes}

-- `unicodedata.category(ch) == "Cc"`: the control characters are U+0000-001F and U+007F-009F.
unfoldable pub is_control : ℕ → Bool
is_control c = ltb c 32 || (leb 127 c && leb c 159)

-- What `str.strip` removes: `str.isspace`.
unfoldable pub is_space : ℕ → Bool
is_space c =
    (leb 9 c && leb c 13)
    || ((leb 28 c && leb c 32)
        || (eqb c 133
            || (eqb c 160
                || (eqb c 5760
                    || ((leb 8192 c && leb c 8202)
                        || (eqb c 8232
                            || (eqb c 8233 || (eqb c 8239 || (eqb c 8287 || eqb c 12288)))))))))

abbrev starts_with_space : List ℕ → Bool
starts_with_space [] = false
starts_with_space (c ∷ cs) = is_space c

abbrev ends_with_space : List ℕ → Bool
ends_with_space [] = false
ends_with_space (c ∷ []) = is_space c
ends_with_space (c ∷ d ∷ cs) = ends_with_space (d ∷ cs)

unfoldable pub check_text : ℕ → String → Result (Unit {0})
unfolding is_control is_space
check_text max_len s = do
  let cs = codes s
  guard (not (is_empty cs)) "must be non-empty"
  guard (leb (length cs) max_len) "exceeds maximum length"
  guard (not (any is_control cs)) "control characters are not allowed"
  guard (not (starts_with_space cs || ends_with_space cs))
      "leading/trailing whitespace is not allowed"

unfoldable pub check_opt_text : ℕ → Option String → Result (Unit {0})
unfolding check_text
check_opt_text max_len none = ok tt
check_opt_text max_len (some s) = check_text max_len s
