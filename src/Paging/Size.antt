-- ===== src/Paging/Size.antt =====
-- How much text one page carries (`text_result` of crates/rocq-mcp/src/adapter.rs).
use rocq_mcp.Prelude.{
  true, false, ℕ, zero, suc, ◌+◌, ◌-◌, ◌≤◌, ◌≡◌, refl, Bool, Bool-cases, inl, inr, not, ltb, leb,
  ◌&&◌, if◌then◌else◌, Result, ok, ok-injective, length, drop, length-take, arith, subst,
  if_err-eq-ok,
}
use rocq_mcp.Types.{Bytes}
use rocq_mcp.Errors.{Error}
use rocq_mcp.Paging.{
  query_page_bytes, min_of, saturating_add, usize_max, is_char_boundary, is_bad_offset,
  fits_one_page, floor_boundary, Page, slice, text_result,
}

floor_boundary-le : (text : Bytes) (low end : ℕ) → floor_boundary text low end ≤ end
unfolding floor_boundary
floor_boundary-le text low zero = omega arith
floor_boundary-le text low (suc end) =
    elim (Bool-cases (ltb low (suc end) && not (is_char_boundary text (suc end)))) [
      | inl lower ↦ rw (lower) (omega (arith, floor_boundary-le text low end))
      | inr stop ↦ rw (stop) (omega arith)
    ]

min_of-le : (a b : ℕ) → min_of a b ≤ a
min_of-le a b = elim (Bool-cases (leb a b)) [
  | inl h ↦ rw (h) (omega arith)
  | inr h ↦ rw (h) (ground (arith, h))
]

slice_size :
    (text : Bytes) (offset end : ℕ)
    → end ≤ offset + query_page_bytes
    → length (slice text offset end) ≤ query_page_bytes
slice_size text offset end h = omega (arith, length-take (end - offset) (drop offset text))

abbrev IsSmall : Page → Type 0
IsSmall page = length page.text ≤ query_page_bytes

either-IsSmall :
    (small : Bool) (p q page : Page)
    → Path (Result Error Page) (if small then ok p else ok q) (ok page)
    → (small ≡ true → IsSmall p)
    → IsSmall q
    → IsSmall page
either-IsSmall true p q page h first second = subst IsSmall (ok-injective h) (first refl)
either-IsSmall false p q page h first second = subst IsSmall (ok-injective h) second

within : (a b c : ℕ) → a ≤ min_of (saturating_add b query_page_bytes) c → a ≤ b + query_page_bytes
within a b c h = omega (
  arith,
  min_of-le (saturating_add b query_page_bytes) c,
  min_of-le (b + query_page_bytes) usize_max,
)

-- A page has at most 32 KiB of text.
pub text_result-size :
    (text : Bytes) (offset : ℕ) (page : Page)
    → text_result text offset ≡ ok page
    → length page.text ≤ query_page_bytes
unfolding text_result fits_one_page
text_result-size text offset page h =
    let (_, pages) = if_err-eq-ok (is_bad_offset text offset) _ _ h in
    let limit = min_of (saturating_add offset query_page_bytes) (length text) in
    either-IsSmall (fits_one_page text offset) _ _ page pages (λ small. ground (arith, small))
      (slice_size text offset (floor_boundary text offset limit)
        (within _ offset (length text) (floor_boundary-le text offset limit)))
