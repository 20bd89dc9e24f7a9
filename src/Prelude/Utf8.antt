-- ===== src/Prelude/Utf8.antt =====
-- `str::from_utf8`: well-formed UTF-8 and its code points.
use Prim.Native.Nat.{ℕ, zero, suc, ◌+◌, ◌-◌, ◌*◌}
use mathlib.Core.Path.{◌≡◌, refl}
use mathlib.Core.List.{List, [], ◌∷◌}
use mathlib.Core.Option.{Option, none, some}
use rocq_mcp.Prelude.Tests.{ltb, ◌==◌, if◌then◌else◌}
use rocq_mcp.Prelude.Chars.{between}

abbrev pub onto : ℕ → Option (List ℕ) → Option (List ℕ)
onto c none = none
onto c (some s) = some (c ∷ s)

-- `more` continuation bytes are due, the first of them from `low` to `high`.
unfoldable pub decode_from : ℕ → ℕ → ℕ → ℕ → List ℕ → Option (List ℕ)
decode_from zero acc low high [] = some []
decode_from (suc more) acc low high [] = none
decode_from (suc more) acc low high (b ∷ rest) =
    let c = acc * 64 + (b - 0x80) in
    let next = decode_from more c 0x80 0xBF rest in
    if between low high b then (if more == 0 then onto c next else next) else none
decode_from zero acc low high (b ∷ rest) =
    let one = decode_from 0 0 0 0 rest in
    let two = decode_from 1 (b - 0xC0) 0x80 0xBF rest in
    let three =
      decode_from 2 (b - 0xE0) (if b == 0xE0 then 0xA0 else 0x80) (if b == 0xED then 0x9F else 0xBF)
        rest in
    let four =
      decode_from 3 (b - 0xF0) (if b == 0xF0 then 0x90 else 0x80) (if b == 0xF4 then 0x8F else 0xBF)
        rest in
    if ltb b 0x80
    then onto b one
    else if between 0xC2 0xDF b
    then two
    else if between 0xE0 0xEF b
    then three
    else if between 0xF0 0xF4 b
    then four
    else none

unfoldable pub from_utf8 : List ℕ → Option (List ℕ)
unfolding decode_from
from_utf8 bytes = decode_from 0 0 0 0 bytes

from_utf8_test : from_utf8 (0x41 ∷ 0xE2 ∷ 0x80 ∷ 0xA6 ∷ []) ≡ some (0x41 ∷ 0x2026 ∷ [])
unfolding from_utf8
from_utf8_test = refl

from_utf8_overlong : from_utf8 (0xC0 ∷ 0x80 ∷ []) ≡ none
unfolding from_utf8
from_utf8_overlong = refl
