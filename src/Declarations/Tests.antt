-- ===== src/Declarations/Tests.antt =====
-- Names below a library, and three declarations of which two share a range.
use rocq_mcp.Prelude.{
  ◌≡◌, ◌↔◌, refl, true, false, some, List, [], ◌∷◌, ok, String, codes, is_empty, All, get_elem?,
}
use rocq_mcp.Types.{PetRange, DeclarationIdentity}
use rocq_mcp.Declarations.{
  qualified_name, relative_path, declared_identity, split_dots, starts_with,
  replaceable_declaration_ranges, classify, any_other,
}
use rocq_mcp.Declarations.Names.{relative_path-declared_identity}
use rocq_mcp.Declarations.Ranges.{IsAlone, replaceable_declaration_ranges-IsAlone}

abbrev library : List String
library = "Demo" ∷ "A" ∷ []

abbrev identity : DeclarationIdentity
identity = record { file = "A.v"; qualified_path = "Demo" ∷ "A" ∷ "M" ∷ "t" ∷ [] }

declared : declared_identity "A.v" library "M.t" ≡ ok identity
unfolding declared_identity split_dots starts_with
declared = refl

relative_path-declared_identity_example :
    (parts : List String) × (relative_path identity library ≡ ok parts)
    × (qualified_name parts ≡ codes "M.t")
    × All (λ (part : String). is_empty (codes part) ≡ false) parts
relative_path-declared_identity_example =
    relative_path-declared_identity "A.v" library "M.t" identity declared

abbrev rows : List PetRange
rows =
    record { start = 0; end = 10 }
    ∷ record { start = 10; end = 20 }
    ∷ record { start = 12; end = 18 }
    ∷ []

first_alone : replaceable_declaration_ranges rows ≡ true ∷ false ∷ false ∷ []
unfolding replaceable_declaration_ranges classify any_other
first_alone = refl

replaceable_declaration_ranges-IsAlone_example :
    (get_elem? (replaceable_declaration_ranges rows) 0 ≡ some true)
    ↔ IsAlone 0 (record { start = 0; end = 10 }) 0 rows
replaceable_declaration_ranges-IsAlone_example =
    replaceable_declaration_ranges-IsAlone rows 0 (record { start = 0; end = 10 }) refl
