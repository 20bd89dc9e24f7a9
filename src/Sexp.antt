-- ===== src/Sexp.antt =====
-- `sexp_tokens` of crates/rocq-engine/src/dune/mod.rs: the lexer for what Dune prints. A token is
-- its text, so that a quoted parenthesis gives the same token as a parenthesis.
pub mod Roundtrip
mod Tests
use rocq_mcp.Prelude.{
  ℕ, suc, ◌+◌, ◌-◌, Bool, true, false, not, List, [], ◌∷◌, ◌++◌, ◌==◌, ◌||◌, ◌&&◌, if◌then◌else◌,
  is_empty, Result, ok, err, ◌>>=◌, codes, is_whitespace,
}
use rocq_mcp.Types.{Text}
use rocq_mcp.Errors.{Error, new_error, invalid_configuration}

-- The loop's variables.
pub record Lexer : Type 0 where
  pub out : List Text
  pub token : Text
  pub quote : Bool
  pub comment : Bool
  pub depth : ℕ

abbrev pub flush : Lexer → Lexer
flush l = if is_empty l.token then l else record l { out = l.out ++ l.token ∷ []; token = [] }

abbrev pub parenthesis : ℕ → Lexer → Result Error Lexer
parenthesis c l =
    if c == b'('
    then ok (record l { out = l.out ++ (c ∷ []) ∷ []; depth = suc l.depth })
    else if l.depth == 0
    then err (new_error invalid_configuration (codes "unbalanced project expression"))
    else ok (record l { out = l.out ++ (c ∷ []) ∷ []; depth = l.depth - 1 })

-- One round of the loop, on one character.
unfoldable pub step : ℕ → Lexer → Result Error Lexer
step c l =
    if l.comment
    then ok (if c == b'\n' then record l { comment = false } else l)
    else if not l.quote && (c == b';' || c == b'#')
    then ok (record l { comment = true })
    else if c == b'"'
    then ok (record l { quote = not l.quote })
    else if not l.quote && (c == b'(' || c == b')')
    then parenthesis c (flush l)
    else if not l.quote && is_whitespace c
    then ok (flush l)
    else ok (record l { token = l.token ++ c ∷ [] })

unfoldable pub scan : Text → Lexer → Result Error Lexer
unfolding step
scan [] l = ok l
scan (c ∷ source) l = step c l >>= scan source

abbrev pub start : Lexer
start = record { out = []; token = []; quote = false; comment = false; depth = 0 }

-- An open comment is let through here.
unfoldable pub finish : Lexer → Result Error (List Text)
finish l =
    if l.quote || not (l.depth == 0)
    then err (new_error invalid_configuration (codes "unterminated project expression"))
    else ok (flush l).out

unfoldable pub sexp_tokens : Text → Result Error (List Text)
unfolding scan finish
sexp_tokens source = scan source start >>= finish
