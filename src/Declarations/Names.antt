-- ===== src/Declarations/Names.antt =====
-- The names of new declarations (crates/rocq-engine/src/engine.rs and types.rs).
use Prim.Native.Char.{Char, code}
use rocq_mcp.Prelude.{
  ℕ, ◌≡◌, refl, sym, ap, ◌∙◌, subst, Bool-cases, inl, inr, true, false, List, [], ◌∷◌, ◌++◌, ◌==◌,
  leb, or_false, ok, ok-injective, if_err-eq-ok, String, str_eq, str_eq_iff, codes, is_empty,
  length, length-append, drop, All, arith,
}
use rocq_mcp.Types.{DeclarationIdentity, LogicalLibrary, FileId}
use rocq_mcp.Declarations.{
  qualified_name, starts_with, relative_path, prepend, split_dots, has_empty, declared_identity,
}

qualified_name-prepend :
    (c : Char) (part : String) (parts : List String)
    → qualified_name (prepend c (part ∷ parts)) ≡ code c ∷ qualified_name (part ∷ parts)
unfolding qualified_name
qualified_name-prepend c part [] = refl
qualified_name-prepend c part (q ∷ parts) = refl

is_dot : (n : ℕ) → (n == 46) ≡ true → n ≡ 46
is_dot n h = ground (arith, h)

-- There is at least one part, and the parts make the name.
split_dots_lem :
    (name : String)
    → (part : String) × (parts : List String) × (split_dots name ≡ part ∷ parts)
      × (qualified_name (split_dots name) ≡ codes name)
unfolding split_dots qualified_name
split_dots_lem String.[] = (String.[], [], refl, refl)
split_dots_lem (String.◌∷◌ c s) =
    let (part, parts, there, same) = split_dots_lem s in
    elim (Bool-cases (code c == b'.')) [
      | inl dot ↦
          rw (dot, there)
            (
              String.[],
              part ∷ parts,
              refl,
              ap (λ t. 46 ∷ t) (sym (ap qualified_name there) ∙ same)
                  ∙ ap (λ n. n ∷ codes s) (sym (is_dot (code c) dot)),
            )
      | inr other ↦
          rw (other, there)
            (
              String.◌∷◌ c part,
              parts,
              refl,
              qualified_name-prepend c part parts
                  ∙ ap (λ t. code c ∷ t) (sym (ap qualified_name there) ∙ same),
            )
    ]

str_eq_refl : (s : String) → str_eq s s ≡ true
str_eq_refl s = (str_eq_iff s s).1 refl

starts_with-append : (library parts : List String) → starts_with (library ++ parts) library ≡ true
unfolding starts_with
starts_with-append [] parts = refl
starts_with-append (x ∷ library) parts = rw (str_eq_refl x) (starts_with-append library parts)

drop-append : (library parts : List String) → drop (length library) (library ++ parts) ≡ parts
drop-append [] parts = refl
drop-append (x ∷ library) parts = drop-append library parts

filled :
    (parts : List String)
    → has_empty parts ≡ false
    → All (λ (part : String). is_empty (codes part) ≡ false) parts
filled [] h = tt
filled (part ∷ parts) h = ((or_false _ _ h).0, filled parts (or_false _ _ h).1)

longer :
    (library : List String) (part : String) (parts : List String)
    → leb (length (library ++ (part ∷ parts))) (length library) ≡ false
longer library part parts = ground (arith, length-append library (part ∷ parts))

-- A declared identity belongs to its library, from which `relative_path` gives back the parts of
-- the name: they are not empty, and joined by dots they are the name.
pub relative_path-declared_identity :
    (file : FileId) (library : LogicalLibrary) (name : String) (identity : DeclarationIdentity)
    → declared_identity file library name ≡ ok identity
    → (parts : List String) × (relative_path identity library ≡ ok parts)
      × (qualified_name parts ≡ codes name)
      × All (λ (part : String). is_empty (codes part) ≡ false) parts
unfolding declared_identity relative_path
relative_path-declared_identity file library name identity h =
    let (full, h1) = if_err-eq-ok (has_empty (split_dots name)) _ _ h in
    let (inside, h2) = if_err-eq-ok (starts_with (split_dots name) library) _ _ h1 in
    let (part, parts, there, same) = split_dots_lem name in
    let outside : leb (length (library ++ split_dots name)) (length library) ≡ false =
      subst (λ x. leb (length (library ++ x)) (length library) ≡ false) (sym there)
        (longer library part parts) in
    let back : relative_path (record { file = file; qualified_path = library ++ split_dots name })
          library
        ≡ ok (split_dots name) =
      rw (starts_with-append library (split_dots name), outside)
        (ap ok (drop-append library (split_dots name))) in
    (
      split_dots name,
      subst (λ x. relative_path x library ≡ ok (split_dots name)) (ok-injective h2) back,
      same,
      filled (split_dots name) full,
    )
