-- ===== src/Prelude/Chars.antt =====
-- Texts as lists of code points: the tests of `char`, and `str::trim`.
use Prim.Native.Nat.{ℕ, ◌+◌, ◌/◌, ◌%◌}
use Prim.Native.Char.{code}
use Prim.Native.String.{String}
use mathlib.Core.Path.{◌≡◌, refl}
use mathlib.Core.Bool.{Bool, ◌&&◌, ◌||◌}
use mathlib.Core.List.{List, [], ◌∷◌, ◌++◌, reverse}
use rocq_mcp.Prelude.Tests.{ltb, leb, ◌==◌, if◌then◌else◌}

-- The code points of a literal.
abbrev pub codes : String → List ℕ
codes String.[] = []
codes (String.◌∷◌ c s) = code c ∷ codes s

abbrev pub between : ℕ → ℕ → ℕ → Bool
between lo hi c = leb lo c && leb c hi

-- `char::is_whitespace`: the Unicode property `White_Space`.
unfoldable pub is_whitespace : ℕ → Bool
is_whitespace c =
    between 9 13 c
    || c == 32
    || c == 0x85
    || c == 0xA0
    || c == 0x1680
    || between 0x2000 0x200A c
    || c == 0x2028
    || c == 0x2029
    || c == 0x202F
    || c == 0x205F
    || c == 0x3000

unfoldable pub is_ascii_digit : ℕ → Bool
is_ascii_digit c = between b'0' b'9' c

unfoldable pub drop_while : (ℕ → Bool) → List ℕ → List ℕ
drop_while p [] = []
drop_while p (c ∷ s) = let rest = drop_while p s in if p c then rest else c ∷ s

unfoldable pub trim_start : List ℕ → List ℕ
unfolding drop_while is_whitespace
trim_start = drop_while is_whitespace

-- `trim_end_matches`
unfoldable pub trim_end_by : (ℕ → Bool) → List ℕ → List ℕ
unfolding drop_while
trim_end_by p s = reverse (drop_while p (reverse s))

unfoldable pub trim_end : List ℕ → List ℕ
unfolding trim_end_by is_whitespace
trim_end = trim_end_by is_whitespace

unfoldable pub trim : List ℕ → List ℕ
unfolding trim_start trim_end
trim s = trim_end (trim_start s)

-- The UTF-8 encoding of a code point.
unfoldable pub encode_char : ℕ → List ℕ
encode_char c =
    if ltb c 0x80
    then c ∷ []
    else if ltb c 0x800
    then (0xC0 + c / 64) ∷ (0x80 + c % 64) ∷ []
    else if ltb c 0x10000
    then (0xE0 + c / 4096) ∷ (0x80 + c / 64 % 64) ∷ (0x80 + c % 64) ∷ []
    else (0xF0 + c / 262144) ∷ (0x80 + c / 4096 % 64) ∷ (0x80 + c / 64 % 64) ∷ (0x80 + c % 64) ∷ []

unfoldable pub encode : List ℕ → List ℕ
unfolding encode_char
encode [] = []
encode (c ∷ s) = encode_char c ++ encode s

trim_test : trim (codes " \n a b\t") ≡ codes "a b"
unfolding trim
trim_test = refl

encode_test : encode (0x2026 ∷ 0x41 ∷ []) ≡ 0xE2 ∷ 0x80 ∷ 0xA6 ∷ 0x41 ∷ []
unfolding encode
encode_test = refl

-- `{n}` of a format string: the decimal digits, at most one for each unit of fuel.
unfoldable pub decimal_loop : ℕ → ℕ → List ℕ → List ℕ
decimal_loop ℕ.zero n acc = acc
decimal_loop (ℕ.suc fuel) n acc =
    let more = decimal_loop fuel (n / 10) ((48 + n % 10) ∷ acc) in
    if ltb n 10 then (48 + n) ∷ acc else more

unfoldable pub decimal : ℕ → List ℕ
unfolding decimal_loop
decimal n = decimal_loop (ℕ.suc n) n []

decimal_test : decimal 2048 ≡ codes "2048"
unfolding decimal
decimal_test = refl
