-- ===== src/Paging/Pages.antt =====
-- The pages of a query result (`text_result` of crates/rocq-mcp/src/adapter.rs), and a client that
-- follows `next_offset` to the end.
use rocq_mcp.Prelude.{
  ℕ, zero, suc, ◌+◌, ◌-◌, ◌≤◌, ◌<◌, ◌≡◌, refl, sym, ap, ◌∙◌, true, false, Option, none, some, [],
  ◌∷◌, ◌++◌, ◌⊎◌, inl, inr, Bool-cases, ltb, if◌then◌else◌, arith, codes, length, drop, is_empty,
  Result, ok, err, take-append-drop, take-length, drop-drop, length-drop,
}
use rocq_mcp.Types.{Bytes}
use native.Mathlib.Decide.{dec_lt}
use rocq_mcp.Errors.{Error, invalid_request, new_error}
use rocq_mcp.Paging.{
  query_page_bytes, usize_max, min_of, saturating_add, is_char_boundary, floor_boundary, slice,
  Page, text_result, is_bad_offset, fits_one_page,
}
use rocq_mcp.Paging.Boundary.{
  IsUtf8, floor_boundary_bounds, floor_boundary-stop, floor_boundary-near, boundary-length,
}

-- Where the page at `offset` ends.
abbrev pub page_end : Bytes → ℕ → ℕ
page_end text offset =
    floor_boundary text offset (min_of (saturating_add offset query_page_bytes) (length text))

abbrev pub page_at : Bytes → ℕ → Page
page_at text offset = record {
  text = slice text offset (page_end text offset);
  next_offset =
      if ltb (page_end text offset) (length text) then some (page_end text offset) else none;
}

-- The offsets that the protocol accepts.
abbrev pub IsOffset : Bytes → ℕ → Type 0
IsOffset text offset =
    ((offset < length text) ⊎ (offset ≡ length text) × (text ≡ []))
    × (is_char_boundary text offset ≡ true)

ltb_irrefl : (n : ℕ) → ltb n n ≡ false
ltb_irrefl n = ground arith

module _ (text : Bytes) (offset : ℕ) (sized : length text ≤ usize_max) where
  limit : ℕ
  limit = min_of (saturating_add offset query_page_bytes) (length text)

  limit_short : offset ≡ 0 → length text ≤ query_page_bytes → limit ≡ length text
  unfolding limit
  limit_short z h = ground arith

  limit_bounds :
      offset ≤ length text
      → (offset ≤ limit)
        × (limit ≤ length text)
        × (limit ≤ offset + query_page_bytes)
        × ((limit ≡ length text) ⊎ (limit ≡ offset + query_page_bytes))
  unfolding limit
  limit_bounds h = ground arith

  page_bounds :
      IsUtf8 text
      → offset ≤ length text
      → is_char_boundary text offset ≡ true
      → (offset ≤ page_end text offset)
        × (page_end text offset ≤ length text)
        × (page_end text offset ≤ offset + query_page_bytes)
        × (is_char_boundary text (page_end text offset) ≡ true)
        × (offset < length text → offset < page_end text offset)
  unfolding limit
  page_bounds utf8 h b =
      let (low, high, size, which) = limit_bounds h in
      let (from, to, stop) = floor_boundary_bounds text offset limit low in
      (from, omega arith, omega arith, at stop, λ more. progress which more to)
    where
      at :
          (page_end text offset ≡ offset) ⊎ (is_char_boundary text (page_end text offset) ≡ true)
          → is_char_boundary text (page_end text offset) ≡ true
      at (inl same) = rw same b
      at (inr found) = found

      progress :
          (limit ≡ length text) ⊎ (limit ≡ offset + query_page_bytes)
          → offset < length text
          → page_end text offset ≤ limit
          → offset < page_end text offset
      progress (inl whole) more to =
          let last : is_char_boundary text limit ≡ true = rw whole (boundary-length text) in
          omega (arith, floor_boundary-stop text offset limit last)
      progress (inr part) more to =
          omega (arith, floor_boundary-near text offset limit utf8 (limit_bounds h).1)

  good_offset : IsOffset text offset → is_bad_offset text offset ≡ false
  unfolding is_bad_offset
  good_offset (inl inside, b) = ground (arith, b)
  good_offset (inr (last, bare), b) = ground (arith, b, ap is_empty bare)

  whole_page :
      fits_one_page text offset ≡ true
      → page_at text offset ≡ record { text = text; next_offset = none }
  unfolding fits_one_page limit
  whole_page h =
      let start : offset ≡ 0 = ground (arith, h) in
      let all : limit ≡ length text = limit_short start (ground (arith, h)) in
      let end : page_end text offset ≡ length text =
        floor_boundary-stop text offset limit (rw all (boundary-length text)) ∙ all in
      rw (end, start, ltb_irrefl (length text))
        (rw (take-length (length text - 0) text (omega arith)))

  text_result_ok : IsOffset text offset → text_result text offset ≡ ok (page_at text offset)
  unfolding text_result
  text_result_ok h = elim (Bool-cases (fits_one_page text offset)) [
    | inl small ↦ rw (good_offset h, small) (ap ok (sym (whole_page small)))
    | inr large ↦ rw (good_offset h, large)
  ]

offset-le : {text : Bytes} {offset : ℕ} → IsOffset text offset → offset ≤ length text
offset-le (inl inside, b) = omega arith
offset-le (inr (last, bare), b) = omega arith

-- A client that follows `next_offset` and joins the pages; `none` where the fuel ends first.
abbrev pub joined : Bytes → Option (Result Error Bytes) → Option (Result Error Bytes)
joined text none = none
joined text (some (err error)) = some (err error)
joined text (some (ok rest)) = some (ok (text ++ rest))

unfoldable pub read_on : ℕ → Bytes → ℕ → Option (Result Error Bytes)
read_on zero text offset = none
read_on (suc fuel) text offset = elim (text_result text offset) [
  | err error ↦ some (err error)
  | ok page ↦ elim page.next_offset [
    | none ↦ some (ok page.text)
    | some next ↦ joined page.text (read_on fuel text next)
  ]
]

read_on_last :
    (fuel : ℕ) (text : Bytes) (offset : ℕ) (page : Page)
    → text_result text offset ≡ ok page
    → page.next_offset ≡ none
    → read_on (suc fuel) text offset ≡ some (ok page.text)
unfolding read_on
read_on_last fuel text offset page e last = rw (e, read_on) (rw last)

read_on_more :
    (fuel : ℕ) (text : Bytes) (offset : ℕ) (page : Page) (next : ℕ)
    → text_result text offset ≡ ok page
    → page.next_offset ≡ some next
    → read_on (suc fuel) text offset ≡ joined page.text (read_on fuel text next)
unfolding read_on
read_on_more fuel text offset page next e more = rw (e, read_on) (rw more)

slice-append-drop :
    (text : Bytes) (offset end : ℕ)
    → offset ≤ end
    → slice text offset end ++ drop end text ≡ drop offset text
slice-append-drop text offset end h =
    let sum : offset + (end - offset) ≡ end = omega arith in
    let later : drop (end - offset) (drop offset text) ≡ drop end text =
      drop-drop (end - offset) offset text ∙ (rw sum) in
    rw (← later) (take-append-drop (end - offset) (drop offset text))

slice-last :
    (text : Bytes) (offset end : ℕ) → length text ≤ end → slice text offset end ≡ drop offset text
slice-last text offset end h =
    take-length (end - offset) (drop offset text) (omega (arith, length-drop offset text))

module _ (text : Bytes) (utf8 : IsUtf8 text) (sized : length text ≤ usize_max) where
  last_page :
      (fuel offset : ℕ)
      → IsOffset text offset
      → length text ≤ page_end text offset
      → read_on (suc fuel) text offset ≡ some (ok (drop offset text))
  last_page fuel offset at over =
      let last : ltb (page_end text offset) (length text) ≡ false = ground (arith, over) in
      read_on_last fuel text offset (page_at text offset) (text_result_ok text offset sized at)
        (rw last)
      ∙ ap (λ (t : Bytes). some (ok t)) (slice-last text offset (page_end text offset) over)

  read_on_rest :
      (fuel offset : ℕ)
      → IsOffset text offset
      → length text ≤ offset + fuel
      → read_on (suc fuel) text offset ≡ some (ok (drop offset text))
  read_on_rest zero offset at enough =
      elim (Bool-cases (ltb (page_end text offset) (length text))) [
        | inl more ↦
            let low : offset ≤ page_end text offset =
              (page_bounds text offset sized utf8 (offset-le at) at.1).0 in
            absurd (ground (arith, more, low, enough))
        | inr last ↦ last_page 0 offset at (ground (arith, last))
      ]
  read_on_rest (suc fuel) offset at enough =
      elim (Bool-cases (ltb (page_end text offset) (length text))) [
        | inr last ↦ last_page (suc fuel) offset at (ground (arith, last))
        | inl more ↦
            let (low, high, size, boundary, progress) =
              page_bounds text offset sized utf8 (offset-le at) at.1 in
            let before : page_end text offset < length text = ground (arith, more) in
            let further : offset < page_end text offset = progress (omega arith) in
            read_on_more (suc fuel) text offset (page_at text offset) (page_end text offset)
              (text_result_ok text offset sized at) (rw more)
            ∙ ap (joined (slice text offset (page_end text offset)))
                (read_on_rest fuel (page_end text offset) (inl before, boundary) (omega arith))
            ∙ ap (λ (t : Bytes). some (ok t))
                (slice-append-drop text offset (page_end text offset) low)
      ]

-- A client that starts at 0 and follows `next_offset` reads the whole of a UTF-8 text, in at most
-- one page for each of its bytes and one more: no page is refused, and the pages joined are the
-- text.
pub read_on-text :
    (text : Bytes) (fuel : ℕ)
    → IsUtf8 text
    → length text ≤ usize_max
    → length text ≤ fuel
    → read_on (suc fuel) text 0 ≡ some (ok text)
read_on-text [] fuel utf8 sized enough =
    read_on_rest [] utf8 sized fuel 0 (inr (refl, refl), unfold is_char_boundary in refl)
      (omega arith)
read_on-text (b ∷ text) fuel utf8 sized enough =
    read_on_rest (b ∷ text) utf8 sized fuel 0 (inl (omega arith), unfold is_char_boundary in refl)
      (omega arith)

-- At an offset that the protocol accepts the page is the bytes from there to its end: at most
-- 32 KiB and at least one byte if one is left, ending at a character boundary, and the next
-- offset is that end, absent where it is the end of the text.
pub text_result_page :
    (text : Bytes) (offset : ℕ)
    → IsUtf8 text
    → length text ≤ usize_max
    → IsOffset text offset
    → (end : ℕ) × (text_result text offset
        ≡ ok (record {
          text = slice text offset end;
          next_offset = if ltb end (length text) then some end else none;
        }))
      × (offset ≤ end)
      × (end ≤ length text)
      × (end ≤ offset + query_page_bytes)
      × (is_char_boundary text end ≡ true)
      × (offset < length text → offset < end)
text_result_page text offset utf8 sized at =
    let (low, high, size, boundary, progress) =
      page_bounds text offset sized utf8 (offset-le at) at.1 in
    (page_end text offset, text_result_ok text offset sized at, low, high, size, boundary, progress)

empty_of : (text : Bytes) → is_empty text ≡ true → text ≡ []
empty_of [] h = refl
empty_of (b ∷ text) h = cc

IsOffset-of_good :
    (text : Bytes) (offset : ℕ) → is_bad_offset text offset ≡ false → IsOffset text offset
unfolding is_bad_offset
IsOffset-of_good text offset h = elim (dec_lt offset (length text)) [
  | yes inside ↦ (inl inside, ground (arith, h))
  | no outside ↦ (
    inr (ground (arith, h, outside), empty_of text (ground (arith, h, outside))),
    ground (arith, h),
  )
]

-- Any other offset is refused: one past the text, one inside a character, or the end of a text
-- that is not empty.
pub text_result_refused :
    (text : Bytes) (offset : ℕ)
    → ¬ (IsOffset text offset)
    → text_result text offset
      ≡ err (new_error invalid_request (codes "offset is not a valid boundary in the query result"))
unfolding text_result
text_result_refused text offset not_offset = elim (Bool-cases (is_bad_offset text offset)) [
  | inl bad ↦ rw (bad)
  | inr good ↦ absurd (not_offset (IsOffset-of_good text offset good))
]
