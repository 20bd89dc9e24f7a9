-- ===== src/Writeback.antt =====
-- crates/rocq-engine/src/writeback.rs: publication of a finished proof. Here what is written: the
-- source bytes with the declaration replaced, and the transaction that `prepare` makes. `sha256`
-- stands for the hash function, and a digest is its bytes.
pub mod World
pub mod Splice
pub mod Outcome
pub mod Quiet
pub mod Ownership
mod Tests
use rocq_mcp.Prelude.{
  same_bytes, ℕ, zero, suc, ◌+◌, ◌-◌, Bool, true, false, not, Option, none, some, List, [], ◌∷◌,
  ◌++◌, ◌&&◌, ◌||◌, ltb, leb, ◌==◌, if◌then◌else◌, Result, ok, err, ok_or, guard, ◌>>=◌, ◌>>◌,
  length, take, drop, is_empty, codes, encode, trim, trim_end, from_utf8, reverse, get_elem?,
  String,
}
use rocq_mcp.Types.{Bytes, Text, DeclarationKind, is_definition, PetRange, DeclarationTarget}
use rocq_mcp.Errors.{
  Error, invalid_declaration, invalid_configuration, declaration_changed, new_error,
}

abbrev pub Digest : Type 0
Digest = Bytes

abbrev pub Target : Type 0
Target = DeclarationTarget Digest

unfoldable pub terminator : DeclarationKind → Text
terminator kind = if is_definition kind then codes "Defined." else codes "Qed."

-- `text.ends_with(c)`
unfoldable pub ends_with : ℕ → Text → Bool
ends_with c text = elim (reverse text) [ [] ↦ false | last ∷ rest ↦ last == c ]

abbrev newline : Text
newline = b'\n' ∷ []

-- The line of a new declaration; a line break comes first where the insertion point is not at the
-- start of a line.
new_opening : Bytes → ℕ → Text → Bytes
new_opening original start header =
    let before : Bool = elim (get_elem? original (start - 1)) [
      | none ↦ true
      | some b ↦ not (b == b'\n')
    ] in
    (if ltb 0 start && before then newline else []) ++ encode header ++ codes ".\n"

-- The source's own header, with its full stop.
old_opening : Bytes → ℕ → ℕ → ℕ → Result Error Bytes
old_opening original start end header_end =
    if ltb header_end start || ltb end header_end
    then err (
        new_error declaration_changed
          (codes "declaration header range is inconsistent with the current source"))
    else do
      text ←
          ok_or (new_error invalid_configuration (codes "Rocq source is not UTF-8"))
            (from_utf8 (take (header_end - start) (drop start original)))
      ok (
          take (header_end - start) (drop start original)
          ++ (if ends_with b'.' (trim_end text) then [] else codes ".")
          ++ newline)

opening : Bytes → Target → Result Error Bytes
unfolding new_opening old_opening
opening original target = elim target.new_header [
  | some header ↦ ok (new_opening original target.anchor.declaration.start header)
  | none ↦
      old_opening original target.anchor.declaration.start target.anchor.declaration.end
        target.anchor.header.end
]

-- Each fragment on lines of its own.
unfoldable pub script : List Text → Bytes
script [] = []
script (fragment ∷ rest) = encode (trim fragment) ++ newline ++ script rest

closing : DeclarationKind → List Text → Bytes
unfolding script terminator
closing kind fragments =
    (if is_definition kind then [] else codes "Proof.\n")
    ++ script fragments
    ++ terminator kind
    ++ newline

unfoldable pub replacement : Bytes → Target → List Text → Result Error Bytes
unfolding opening closing
replacement original target fragments =
    let start = target.anchor.declaration.start in
    let end = target.anchor.declaration.end in
    if ltb end start || ltb (length original) end
    then err (
        new_error declaration_changed
          (codes "declaration range is inconsistent with the current source"))
    else do
      head ← opening original target
      ok (take start original ++ (head ++ closing target.info.kind fragments) ++ drop end original)

pub record PreparedPublication : Type 0 where
  pub path : String
  pub original : Bytes
  pub replacement_bytes : Bytes
  pub replacement_digest : Digest

-- `workspace` is what the project answers for the source, and `current` what is read there.
module _ (sha256 : Bytes → Digest) where
  unfoldable pub prepare :
      Result Error (Unit {0}) → Option Bytes → Target → List Text → Result Error PreparedPublication
  prepare workspace current target fragments =
      if not target.anchor.replaceable
      then err
          (new_error invalid_declaration (codes "source range is shared by multiple declarations"))
      else do
        workspace
        original ←
            ok_or (new_error declaration_changed (codes "target source is unavailable")) current
        guard (same_bytes (sha256 original) target.anchor.digest)
            (new_error declaration_changed (codes "target source changed while proof was open"))
        output ← replacement original target fragments
        ok (record {
          path = target.anchor.source;
          original = original;
          replacement_bytes = output;
          replacement_digest = sha256 output;
        })
