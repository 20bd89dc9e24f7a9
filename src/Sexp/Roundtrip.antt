-- ===== src/Sexp/Roundtrip.antt =====
-- Printed expressions, and what the lexer of crates/rocq-engine/src/dune/mod.rs reads in them.
use rocq_mcp.Prelude.{
  ℕ, zero, suc, ◌≡◌, refl, ap, ◌∙◌, Bool, true, false, not, Option, none, some, List, [], ◌∷◌, ◌++◌,
  ◌==◌, ◌||◌, is_empty, Result, ok, err, ◌>>=◌, codes, is_whitespace, All, map, append_assoc,
  append-nil, arith,
}
use rocq_mcp.Types.{Text}
use rocq_mcp.Errors.{Error, new_error, invalid_configuration}
use rocq_mcp.Sexp.{Lexer, step, scan, finish, sexp_tokens}

pub data Token : Type 0 where
  opening closing : Token
  plain quoted : Text → Token

-- A character that may stand in an atom without quotation marks.
abbrev pub is_plain : ℕ → Bool
is_plain c = not (is_whitespace c || c == b';' || c == b'#' || c == b'"' || c == b'(' || c == b')')

abbrev pub is_quotable : ℕ → Bool
is_quotable c = not (c == b'"')

abbrev pub IsWellFormed : Token → Type 0
IsWellFormed opening = Unit
IsWellFormed closing = Unit
IsWellFormed (plain a) = (is_empty a ≡ false) × All (λ c. is_plain c ≡ true) a
IsWellFormed (quoted a) = (is_empty a ≡ false) × All (λ c. is_quotable c ≡ true) a

abbrev pub text : Token → Text
text opening = b'(' ∷ []
text closing = b')' ∷ []
text (plain a) = a
text (quoted a) = a

-- Each token is followed by a space.
abbrev pub print : List Token → Text
print [] = []
print (opening ∷ rest) = b'(' ∷ 32 ∷ print rest
print (closing ∷ rest) = b')' ∷ 32 ∷ print rest
print (plain a ∷ rest) = a ++ (32 ∷ print rest)
print (quoted a ∷ rest) = b'"' ∷ (a ++ (b'"' ∷ 32 ∷ print rest))

-- The depth after the tokens; `none` where a parenthesis closes nothing.
abbrev pub nesting : List Token → ℕ → Option ℕ
nesting [] d = some d
nesting (opening ∷ rest) d = nesting rest (suc d)
nesting (closing ∷ rest) zero = none
nesting (closing ∷ rest) (suc d) = nesting rest d
nesting (plain a ∷ rest) d = nesting rest d
nesting (quoted a ∷ rest) d = nesting rest d

abbrev unbalanced : Error
unbalanced = new_error invalid_configuration (codes "unbalanced project expression")

abbrev unterminated : Error
unterminated = new_error invalid_configuration (codes "unterminated project expression")

-- What the lexer should answer.
abbrev pub expected : Option ℕ → List Text → Result Error (List Text)
expected none texts = err unbalanced
expected (some zero) texts = ok texts
expected (some (suc d)) texts = err unterminated

abbrev reading : Bool → List Text → Text → ℕ → Lexer
reading quote out token depth = record {
  out = out;
  token = token;
  quote = quote;
  comment = false;
  depth = depth;
}

step_plain :
    (c : ℕ) (out : List Text) (token : Text) (d : ℕ)
    → is_plain c ≡ true
    → step c (reading false out token d) ≡ ok (reading false out (token ++ c ∷ []) d)
unfolding step
step_plain c out token d h = ground (arith, h)

step_quoted :
    (c : ℕ) (out : List Text) (token : Text) (d : ℕ)
    → is_quotable c ≡ true
    → step c (reading true out token d) ≡ ok (reading true out (token ++ c ∷ []) d)
unfolding step
step_quoted c out token d h = ground (arith, h)

scan_plain :
    (a rest : Text) (out : List Text) (token : Text) (d : ℕ)
    → All (λ c. is_plain c ≡ true) a
    → scan (a ++ rest) (reading false out token d) ≡ scan rest (reading false out (token ++ a) d)
unfolding scan
scan_plain [] rest out token d h = rw (append-nil token) refl
scan_plain (c ∷ a) rest out token d (hc, h) = rw (step_plain c out token d hc) (
    scan_plain a rest out (token ++ c ∷ []) d h
    ∙ ap (λ t. scan rest (reading false out t d)) (append_assoc token (c ∷ []) a))

scan_quoted :
    (a rest : Text) (out : List Text) (token : Text) (d : ℕ)
    → All (λ c. is_quotable c ≡ true) a
    → scan (a ++ rest) (reading true out token d) ≡ scan rest (reading true out (token ++ a) d)
unfolding scan
scan_quoted [] rest out token d h = rw (append-nil token) refl
scan_quoted (c ∷ a) rest out token d (hc, h) = rw (step_quoted c out token d hc) (
    scan_quoted a rest out (token ++ c ∷ []) d h
    ∙ ap (λ t. scan rest (reading true out t d)) (append_assoc token (c ∷ []) a))

scan_space :
    (rest : Text) (out : List Text) (a : Text) (d : ℕ)
    → is_empty a ≡ false
    → scan (32 ∷ rest) (reading false out a d) ≡ scan rest (reading false (out ++ a ∷ []) [] d)
unfolding scan step is_whitespace
scan_space rest out [] d h = cc
scan_space rest out (c ∷ a) d h = refl

step_closing :
    (out : List Text) (d : ℕ)
    → step b')' (reading false out [] (suc d)) ≡ ok (reading false (out ++ (b')' ∷ []) ∷ []) [] d)
unfolding step is_whitespace
step_closing out d = ground arith

scan-print :
    (tokens : List Token) (out : List Text) (d : ℕ)
    → All IsWellFormed tokens
    → (scan (print tokens) (reading false out [] d) >>= finish)
      ≡ expected (nesting tokens d) (out ++ map text tokens)
unfolding scan step is_whitespace finish
scan-print [] out zero h = rw (append-nil out) refl
scan-print [] out (suc d) h = ground arith
scan-print (opening ∷ rest) out d (_, h) =
    scan-print rest (out ++ (b'(' ∷ []) ∷ []) (suc d) h
    ∙ ap (expected (nesting rest (suc d))) (append_assoc out ((b'(' ∷ []) ∷ []) (map text rest))
scan-print (closing ∷ rest) out zero h = refl
scan-print (closing ∷ rest) out (suc d) (_, h) =
    ap (λ r. r >>= scan (32 ∷ print rest) >>= finish) (step_closing out d)
    ∙ scan-print rest (out ++ (b')' ∷ []) ∷ []) d h
    ∙ ap (expected (nesting rest d)) (append_assoc out ((b')' ∷ []) ∷ []) (map text rest))
scan-print (plain a ∷ rest) out d ((filled, good), h) =
    ap (λ r. r >>= finish)
      (scan_plain a (32 ∷ print rest) out [] d good ∙ scan_space (print rest) out a d filled)
    ∙ scan-print rest (out ++ a ∷ []) d h
    ∙ ap (expected (nesting rest d)) (append_assoc out (a ∷ []) (map text rest))
scan-print (quoted a ∷ rest) out d ((filled, good), h) =
    ap (λ r. r >>= finish)
      (scan_quoted a (b'"' ∷ 32 ∷ print rest) out [] d good
        ∙ scan_space (print rest) out a d filled)
    ∙ scan-print rest (out ++ a ∷ []) d h
    ∙ ap (expected (nesting rest d)) (append_assoc out (a ∷ []) (map text rest))

-- The lexer, on a printed list of parentheses, plain atoms and quoted atoms, gives the tokens' texts
-- where the parentheses balance, and else the error that says whether one closes nothing or one is
-- left open. A plain atom is not empty and holds no white space, parenthesis, quotation mark or sign
-- of a comment; a quoted one is not empty and holds no quotation mark.
pub sexp_tokens-print :
    (tokens : List Token)
    → All IsWellFormed tokens
    → sexp_tokens (print tokens) ≡ expected (nesting tokens 0) (map text tokens)
unfolding sexp_tokens
sexp_tokens-print tokens h = scan-print tokens [] 0 h
