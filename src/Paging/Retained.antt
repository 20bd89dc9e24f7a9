-- ===== src/Paging/Retained.antt =====
-- The bounded texts that are kept: a checkpoint's goals (`bounded_checkpoint_view` of
-- crates/rocq-mcp/src/adapter.rs) and a progress log (`bounded_log` of
-- crates/rocq-mcp/src/server.rs).
use rocq_mcp.Prelude.{
  ℕ, ◌+◌, ◌-◌, ◌≤◌, ◌<◌, ◌≡◌, refl, true, false, [], ◌∷◌, ◌++◌, ◌⊎◌, inl, inr, Bool-cases, ltb, leb,
  arith, length, take, ok,
}
use rocq_mcp.Types.{Bytes, ProofState}
use rocq_mcp.Paging.{
  query_page_bytes, min_of, is_char_boundary, floor_boundary, text_result, bounded_checkpoint_view,
  bounded_log, log_limit, ellipsis, is_bad_offset, fits_one_page,
}
use rocq_mcp.Paging.Boundary.{IsUtf8, floor_boundary_bounds, floor_boundary-near}

first_end : (n : ℕ) → query_page_bytes < n → min_of query_page_bytes n ≡ query_page_bytes
first_end n h = ground (arith, h)

lt_true : (a b : ℕ) → a < b → ltb a b ≡ true
lt_true a b h = ground arith

sub_zero : (n : ℕ) → n - 0 ≡ n
sub_zero n = omega arith

good_start : (text : Bytes) → is_bad_offset text 0 ≡ false
unfolding is_bad_offset is_char_boundary
good_start [] = refl
good_start (b ∷ text) = ground arith

-- What a checkpoint keeps of a rendering, with its continuation, is the first page that
-- `query(goals)` returns of that rendering; nothing else of the state changes.
pub bounded_checkpoint_view-eq-page :
    (state : ProofState)
    → let (view, next) = bounded_checkpoint_view state in
      (text_result state.goals 0 ≡ ok (record { text = view.goals; next_offset = next }))
      × (view ≡ record state { goals = view.goals })
unfolding bounded_checkpoint_view text_result fits_one_page
bounded_checkpoint_view-eq-page state =
    elim (Bool-cases (leb (length state.goals) query_page_bytes)) [
      | inl small ↦ rw (small, good_start state.goals) (refl, refl)
      | inr large ↦
          let more : query_page_bytes < length state.goals = ground (arith, large) in
          let (low, high, stop) =
            floor_boundary_bounds state.goals 0 query_page_bytes (omega arith) in
          rw (large, good_start state.goals)
            (
              rw (
                first_end (length state.goals) more,
                lt_true (floor_boundary state.goals 0 query_page_bytes) (length state.goals)
                    (omega (arith, high, more)),
                sub_zero (floor_boundary state.goals 0 query_page_bytes),
              ),
              refl,
            )
    ]

-- A kept log is the value itself, if that has at most 4096 bytes, and else a prefix
-- cut at a character boundary, of at least 4093 and at most 4096 bytes, and then the mark.
pub bounded_log_lem :
    (value : Bytes)
    → IsUtf8 value
    → ((length value ≤ log_limit) × (bounded_log value ≡ value))
      ⊎ (log_limit < length value)
        × ((end : ℕ) × (bounded_log value ≡ take end value ++ ellipsis)
            × (is_char_boundary value end ≡ true)
            × (end ≤ log_limit)
            × (log_limit ≤ end + 3))
unfolding bounded_log
bounded_log_lem value utf8 = elim (Bool-cases (leb (length value) log_limit)) [
  | inl small ↦ inl (ground (arith, small), rw small)
  | inr large ↦
      let more : log_limit < length value = ground (arith, large) in
      let (low, high, stop) = floor_boundary_bounds value 0 log_limit (omega arith) in
      let close = floor_boundary-near value 0 log_limit utf8 (omega (arith, more)) in
      inr (more, (floor_boundary value 0 log_limit, rw large, at value stop close, high, close))
]
  where
    at :
        (value : Bytes)
        → (floor_boundary value 0 log_limit ≡ 0)
          ⊎ (is_char_boundary value (floor_boundary value 0 log_limit) ≡ true)
        → log_limit ≤ floor_boundary value 0 log_limit + 3
        → is_char_boundary value (floor_boundary value 0 log_limit) ≡ true
    at value (inl zeroed) close = absurd (omega (arith, zeroed, close))
    at value (inr found) close = found
