-- ===== src/Declarations/Symbols.antt =====
-- How a declaration's name matches the symbol that a client looks for
-- (crates/rocq-engine/src/engine.rs).
use rocq_mcp.Prelude.{
  ℕ, ◌≡◌, refl, Bool, true, false, not, Option, none, some, [], ◌∷◌, ◌==◌, ◌&&◌, ◌||◌,
  if◌then◌else◌, String, str_eq, same_bytes, same_bytes_refl, reverse, codes,
}
use rocq_mcp.Types.{Text}

abbrev pub contains_dot : Text → Bool
contains_dot [] = false
contains_dot (c ∷ text) = c == b'.' || contains_dot text

abbrev pub is_prefix : Text → Text → Bool
is_prefix [] text = true
is_prefix (c ∷ prefix) [] = false
is_prefix (c ∷ prefix) (d ∷ text) = c == d && is_prefix prefix text

-- `text.ends_with(suffix)`
unfoldable pub has_suffix : Text → Text → Bool
has_suffix text suffix = is_prefix (reverse suffix) (reverse text)

unfoldable pub symbol_match_kind : Text → Text → Text → Option String
unfolding has_suffix
symbol_match_kind qualified_name leaf symbol =
    if same_bytes qualified_name symbol
    then some "exact"
    else if contains_dot symbol && has_suffix qualified_name (b'.' ∷ symbol)
    then some "suffix"
    else if not (contains_dot symbol) && same_bytes leaf symbol
    then some "leaf"
    else none

unfoldable pub match_rank : String → ℕ
match_rank kind =
    if str_eq kind "exact"
    then 0
    else if str_eq kind "suffix"
    then 1
    else if str_eq kind "leaf"
    then 2
    else 3

-- A complete name always matches exactly, whatever its leaf.
symbol_match_kind_self :
    (qualified_name leaf : Text)
    → symbol_match_kind qualified_name leaf qualified_name ≡ some "exact"
unfolding symbol_match_kind
symbol_match_kind_self qualified_name leaf = rw (same_bytes_refl qualified_name) refl

suffix_before_leaf : symbol_match_kind (codes "Demo.M.t") (codes "t") (codes "M.t") ≡ some "suffix"
unfolding symbol_match_kind has_suffix same_bytes
suffix_before_leaf = refl

no_part_of_a_name :
    symbol_match_kind (codes "Demo.unsound") (codes "unsound") (codes "sound") ≡ none
unfolding symbol_match_kind has_suffix same_bytes
no_part_of_a_name = refl

ranks :
    (match_rank "exact" ≡ 0)
    × (match_rank "suffix" ≡ 1)
    × (match_rank "leaf" ≡ 2)
    × (match_rank "other" ≡ 3)
unfolding match_rank
ranks = (refl, refl, refl, refl)
