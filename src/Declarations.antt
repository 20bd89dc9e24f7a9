-- ===== src/Declarations.antt =====
-- How crates/rocq-engine/src/engine.rs names declarations and tells which of them a source range
-- belongs to alone. A `PetDeclaration` is represented by its `declaration_range`.
pub mod Names
pub mod Ranges
pub mod Symbols
mod Tests
use Prim.Native.Char.{Char, code}
use rocq_mcp.Prelude.{
  ℕ, suc, Bool, true, false, not, Option, none, some, List, [], ◌∷◌, ◌++◌, ◌==◌, ◌||◌, ◌&&◌, ltb,
  leb, if◌then◌else◌, Result, ok, err, guard, ◌>>=◌, ◌>>◌, String, str_eq, codes, is_empty, length,
  drop,
}
use rocq_mcp.Types.{Text, DeclarationIdentity, LogicalLibrary, FileId, PetRange}
use rocq_mcp.Errors.{Error, new_error, invalid_declaration}

-- `join(".")`
unfoldable pub qualified_name : List String → Text
qualified_name [] = []
qualified_name (part ∷ rest) =
    let later = qualified_name rest in
    if is_empty rest then codes part else codes part ++ codes "." ++ later

-- `slice::starts_with`
unfoldable pub starts_with : List String → List String → Bool
starts_with path [] = true
starts_with [] (name ∷ prefix) = false
starts_with (part ∷ path) (name ∷ prefix) = str_eq part name && starts_with path prefix

unfoldable pub relative_path : DeclarationIdentity → LogicalLibrary → Result Error (List String)
unfolding starts_with
relative_path identity library =
    if not (starts_with identity.qualified_path library)
      || leb (length identity.qualified_path) (length library)
    then err (
        new_error invalid_declaration
          (codes "declaration path is outside its Dune logical library"))
    else ok (drop (length library) identity.qualified_path)

-- A character before the first of the parts.
abbrev pub prepend : Char → List String → List String
prepend c [] = String.◌∷◌ c String.[] ∷ []
prepend c (part ∷ parts) = String.◌∷◌ c part ∷ parts

-- `name.split('.')`
unfoldable pub split_dots : String → List String
split_dots String.[] = String.[] ∷ []
split_dots (String.◌∷◌ c s) =
    let rest = split_dots s in if code c == b'.' then String.[] ∷ rest else prepend c rest

abbrev pub has_empty : List String → Bool
has_empty [] = false
has_empty (part ∷ parts) = is_empty (codes part) || has_empty parts

unfoldable pub declared_identity :
    FileId → LogicalLibrary → String → Result Error DeclarationIdentity
unfolding split_dots starts_with
declared_identity file library name =
    let parts = split_dots name in
    if has_empty parts
    then err (new_error invalid_declaration (codes "name contains an empty component"))
    else if starts_with parts library
    then err (
        new_error invalid_declaration
          (codes "name must not repeat its Dune compilation-unit prefix"))
    else ok (record { file = file; qualified_path = library ++ parts })

abbrev pub intersects : PetRange → PetRange → Bool
intersects a b = ltb a.start b.end && ltb b.start a.end

-- Another row than that of `index` intersects `row`; `others` begin at `other_index`.
unfoldable pub any_other : ℕ → PetRange → ℕ → List PetRange → Bool
any_other index row other_index [] = false
any_other index row other_index (other ∷ others) =
    let later = any_other index row (suc other_index) others in
    (not (index == other_index) && intersects row other) || later

unfoldable pub classify : List PetRange → ℕ → List PetRange → List Bool
unfolding any_other
classify rows index [] = []
classify rows index (row ∷ rest) = not (any_other index row 0 rows) ∷ classify rows (suc index) rest

unfoldable pub replaceable_declaration_ranges : List PetRange → List Bool
unfolding classify
replaceable_declaration_ranges rows = classify rows 0 rows
