-- ===== src/Paging.antt =====
-- Bounded texts: `text_result` and `bounded_checkpoint_view` of crates/rocq-mcp/src/adapter.rs and
-- `bounded_log` of crates/rocq-mcp/src/server.rs. A text is the list of its UTF-8 bytes, a `usize`
-- a number below `2 ^ 64`.
pub mod Boundary
pub mod Pages
pub mod Retained
pub mod Size
mod Tests
use rocq_mcp.Prelude.{
  ℕ, zero, suc, ◌+◌, ◌-◌, ◌*◌, ◌^◌, Bool, true, false, not, Option, none, some, List, [], ◌∷◌, ◌++◌,
  ◌&&◌, ◌||◌, ltb, leb, ◌==◌, if◌then◌else◌, Result, ok, err, length, take, drop, is_empty, codes,
  encode,
}
use rocq_mcp.Types.{Bytes, ProofState}
use rocq_mcp.Errors.{Error, invalid_request, new_error}

abbrev pub query_page_bytes : ℕ
query_page_bytes = 32 * 1024

abbrev pub usize_max : ℕ
usize_max = 2 ^ 64 - 1

abbrev pub min_of : ℕ → ℕ → ℕ
min_of a b = if leb a b then a else b

abbrev pub saturating_add : ℕ → ℕ → ℕ
saturating_add a b = min_of (a + b) usize_max

-- A UTF-8 continuation byte, `0b10xxxxxx`.
abbrev pub is_continuation : ℕ → Bool
is_continuation b = leb 128 b && ltb b 192

-- `str::is_char_boundary`: the start, the end, and before each byte that begins a character.
unfoldable pub is_char_boundary : Bytes → ℕ → Bool
is_char_boundary text zero = true
is_char_boundary [] (suc i) = false
is_char_boundary (b ∷ []) (suc zero) = true
is_char_boundary (b ∷ c ∷ text) (suc zero) = not (is_continuation c)
is_char_boundary (b ∷ text) (suc (suc i)) = is_char_boundary text (suc i)

-- `while end > low && !text.is_char_boundary(end) { end -= 1 }`
unfoldable pub floor_boundary : Bytes → ℕ → ℕ → ℕ
floor_boundary text low zero = zero
floor_boundary text low (suc end) =
    let lower = floor_boundary text low end in
    if ltb low (suc end) && not (is_char_boundary text (suc end)) then lower else suc end

-- `&text[start..end]`
abbrev pub slice : Bytes → ℕ → ℕ → Bytes
slice text start end = take (end - start) (drop start text)

-- The JSON object `{"text", "next_offset"}`.
pub record Page : Type 0 where
  pub text : Bytes
  pub next_offset : Option ℕ

unfoldable pub is_bad_offset : Bytes → ℕ → Bool
is_bad_offset text offset =
    ltb (length text) offset
    || not (is_char_boundary text offset)
    || (offset == length text && not (is_empty text))

-- A small first page keeps the shape `{"text"}`.
unfoldable pub fits_one_page : Bytes → ℕ → Bool
fits_one_page text offset = offset == 0 && leb (length text) query_page_bytes

unfoldable pub text_result : Bytes → ℕ → Result Error Page
text_result text offset =
    let end =
      floor_boundary text offset (min_of (saturating_add offset query_page_bytes) (length text)) in
    if is_bad_offset text offset
    then err
        (new_error invalid_request (codes "offset is not a valid boundary in the query result"))
    else if fits_one_page text offset
    then ok (record { text = text; next_offset = none })
    else ok (record {
      text = slice text offset end;
      next_offset = if ltb end (length text) then some end else none;
    })

unfoldable pub bounded_checkpoint_view : ProofState → ProofState × Option ℕ
bounded_checkpoint_view state =
    let end = floor_boundary state.goals 0 query_page_bytes in
    if leb (length state.goals) query_page_bytes
    then (state, none)
    else (record state { goals = take end state.goals }, some end)

abbrev pub log_limit : ℕ
log_limit = 4096

-- The mark that a cut log ends in, U+2026 in three bytes.
abbrev pub ellipsis : Bytes
ellipsis = 0xE2 ∷ 0x80 ∷ 0xA6 ∷ []

unfoldable pub bounded_log : Bytes → Bytes
bounded_log value =
    let end = floor_boundary value 0 log_limit in
    if leb (length value) log_limit then value else take end value ++ ellipsis
