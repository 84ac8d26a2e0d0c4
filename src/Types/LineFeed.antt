-- ===== src/Types/LineFeed.antt =====
-- `_SAFE_ID_RE.match` with `$` (selection_types.py, capacity.py, scarcity.py, policy.py): what a line
-- feed at the end does.
use scarcity_router.Common.{
  ℕ, ◌-◌, ◌≡◌, refl, Bool, true, false, ◌&&◌, ◌||◌, List, [], ◌∷◌, ◌++◌, arith, ltb, eqb,
  &&-eq-true, is_empty, All, nat_eq, string_eq, option_eq, list_eq, pair_eq, nat_order,
  string_order, pair_order, list_order,
}
use scarcity_router.Types.SafeId.{is_id_start, is_id_char, id_tail, safe_id_match}

abbrev pub HasNoLineFeed : List ℕ → Type 0
HasNoLineFeed cs = All (λ c. eqb c 10 ≡ false) cs

id_tail-line_feed :
    (n : ℕ) (cs : List ℕ)
    → HasNoLineFeed cs
    → id_tail n cs ≡ true
    → id_tail n (cs ++ 10 ∷ []) ≡ true
unfolding id_tail
id_tail-line_feed n [] h k = refl
id_tail-line_feed n (c ∷ cs) (h, hs) k =
    let inner = split (eqb c 10) (is_empty cs) (ltb 0 n) (is_id_char c) (id_tail (n - 1) cs) h k in
    rw (h, inner.0, inner.1, id_tail-line_feed (n - 1) cs hs inner.2) refl
  where
    split :
        (a b x y z : Bool)
        → a ≡ false
        → ((a && b) || (x && (y && z))) ≡ true
        → (x ≡ true) × (y ≡ true) × (z ≡ true)
    split a b x y z e g = (ground arith, ground arith, ground arith)

-- A text of the pattern's alphabet that the pattern accepts is accepted with a line feed at its end as well.
pub safe_id_match-line_feed :
    (cs : List ℕ)
    → HasNoLineFeed cs
    → safe_id_match cs ≡ true
    → safe_id_match (cs ++ 10 ∷ []) ≡ true
unfolding safe_id_match
safe_id_match-line_feed [] h k = cc
safe_id_match-line_feed (c ∷ cs) (h, hs) k =
    let (start, rest) = &&-eq-true (is_id_start c) (id_tail 63 cs) k in
    rw (start, id_tail-line_feed 63 cs hs rest) refl
