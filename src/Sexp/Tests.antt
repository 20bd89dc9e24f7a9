-- ===== src/Sexp/Tests.antt =====
-- A Dune rule, and inputs that show what the lexer does not tell apart.
use rocq_mcp.Prelude.{◌≡◌, refl, List, [], ◌∷◌, ok, err, codes, is_whitespace}
use rocq_mcp.Errors.{new_error, invalid_configuration}
use rocq_mcp.Sexp.{sexp_tokens, scan, step, finish}
use rocq_mcp.Sexp.Roundtrip.{Token, opening, closing, plain, quoted, print, sexp_tokens-print}

abbrev rule : List Token
rule = opening ∷ plain (codes "files") ∷ quoted (codes "/a b/(A).vo") ∷ closing ∷ []

sexp_tokens-print_example :
    sexp_tokens (print rule) ≡ ok (codes "(" ∷ codes "files" ∷ codes "/a b/(A).vo" ∷ codes ")" ∷ [])
unfolding is_whitespace
sexp_tokens-print_example = sexp_tokens-print rule (
  tt,
  (
    (refl, (refl, (refl, (refl, (refl, (refl, tt)))))),
    (
      (
        refl,
        (refl, (refl, (refl, (refl, (refl, (refl, (refl, (refl, (refl, (refl, (refl, tt))))))))))),
      ),
      (tt, tt),
    ),
  ),
)

-- A comment that the text ends in is not refused.
open_comment : sexp_tokens (codes "(a) ; no line end") ≡ ok (codes "(" ∷ codes "a" ∷ codes ")" ∷ [])
unfolding sexp_tokens scan step finish is_whitespace
open_comment = refl

-- A comment does not end the atom before it: the atom goes on after the comment's line.
glued : sexp_tokens (codes "ab;c\ncd") ≡ ok (codes "abcd" ∷ [])
unfolding sexp_tokens scan step finish is_whitespace
glued = refl

open_quote :
    sexp_tokens (codes "\"a")
    ≡ err (new_error invalid_configuration (codes "unterminated project expression"))
unfolding sexp_tokens scan step finish is_whitespace
open_quote = refl
