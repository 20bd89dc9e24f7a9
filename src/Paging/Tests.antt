-- ===== src/Paging/Tests.antt =====
-- Texts with characters of one, two and three bytes.
use rocq_mcp.Prelude.{
  ℕ, ◌≡◌, ◌≤◌, ◌<◌, ◌+◌, refl, true, none, some, [], ◌∷◌, ◌++◌, ◌⊎◌, inl, inr, arith, length, take,
  ok, err, codes, ltb, if◌then◌else◌, encode,
}
use rocq_mcp.Types.{Bytes, ProofState, definition_kind, open_proof}
use rocq_mcp.Errors.{new_error, invalid_request}
use rocq_mcp.Paging.{
  query_page_bytes, is_char_boundary, floor_boundary, slice, text_result, bounded_checkpoint_view,
  bounded_log, log_limit, ellipsis,
}
use rocq_mcp.Paging.Boundary.{IsUtf8}
use rocq_mcp.Paging.Pages.{read_on, read_on-text, text_result_page, text_result_refused}
use rocq_mcp.Paging.Retained.{bounded_checkpoint_view-eq-page, bounded_log_lem}

-- "aé…"
abbrev mixed : Bytes
mixed = 0x61 ∷ 0xC3 ∷ 0xA9 ∷ 0xE2 ∷ 0x80 ∷ 0xA6 ∷ []

mixed-encode : encode (codes "aé…") ≡ mixed
unfolding encode
mixed-encode = refl

mixed-IsUtf8 : IsUtf8 mixed
mixed-IsUtf8 = (refl, (inl (refl, inr (inl (refl, inr (inr tt))))))

cut_inside : floor_boundary mixed 0 5 ≡ 3
unfolding floor_boundary is_char_boundary
cut_inside = refl

read_on-text_example : read_on 7 mixed 0 ≡ some (ok mixed)
read_on-text_example = read_on-text mixed 6 mixed-IsUtf8 (omega arith) (omega arith)

text_result_page_example :
    (end : ℕ) × (text_result mixed 1
      ≡ ok
          (record { text = slice mixed 1 end; next_offset = if ltb end 6 then some end else none }))
    × (1 ≤ end)
    × (end ≤ 6)
    × (end ≤ 1 + query_page_bytes)
    × (is_char_boundary mixed end ≡ true)
    × (1 < 6 → 1 < end)
unfolding is_char_boundary
text_result_page_example =
    text_result_page mixed 1 mixed-IsUtf8 (omega arith) (inl (omega arith), refl)

text_result_refused_example :
    text_result mixed 2
    ≡ err (new_error invalid_request (codes "offset is not a valid boundary in the query result"))
unfolding is_char_boundary
text_result_refused_example = text_result_refused mixed 2 (λ at. cc (at.1))

abbrev view : ProofState
view = record {
  theorem = record {
    identity = record { file = "A.v"; qualified_path = "A" ∷ "t" ∷ [] };
    kind = definition_kind;
    statement = "nat";
  };
  lifecycle = open_proof;
  goals = mixed;
  goal_focus = record { focused = []; stack = []; shelved = []; given_up = []; next_bullet = none };
  structured_goals = none;
}

bounded_checkpoint_view-eq-page_example :
    let (kept, next) = bounded_checkpoint_view view in
    (text_result mixed 0 ≡ ok (record { text = kept.goals; next_offset = next }))
    × (kept ≡ record view { goals = kept.goals })
bounded_checkpoint_view-eq-page_example = bounded_checkpoint_view-eq-page view

bounded_log_lem_example :
    ((length mixed ≤ log_limit) × (bounded_log mixed ≡ mixed))
    ⊎ (log_limit < length mixed)
      × ((end : ℕ) × (bounded_log mixed ≡ take end mixed ++ ellipsis)
          × (is_char_boundary mixed end ≡ true)
          × (end ≤ log_limit)
          × (log_limit ≤ end + 3))
bounded_log_lem_example = bounded_log_lem mixed mixed-IsUtf8
