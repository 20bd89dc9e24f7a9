-- ===== src/Goals/Count.antt =====
-- How many goals are shown (crates/rocq-engine/src/engine.rs and types.rs).
use rocq_mcp.Prelude.{
  suc, ◌+◌, ◌≡◌, refl, ap, List, [], ◌∷◌, ◌++◌, map, length, length-append, arith,
}
use rocq_mcp.Types.{all, sum_frames, unfocused_count, focus_total_count}
use rocq_mcp.Goals.{
  PetGoal, PetGoalStackFrame, PetGoals, ids, frame_ids, focus, stack_goals, selected_goals,
}

length-ids : (goals : List PetGoal) → length (ids goals) ≡ length goals
length-ids [] = refl
length-ids (goal ∷ goals) = ap suc (length-ids goals)

length-stack_goals :
    (stack : List PetGoalStackFrame) → length (stack_goals stack) ≡ sum_frames (map frame_ids stack)
unfolding stack_goals sum_frames
length-stack_goals [] = refl
length-stack_goals (frame ∷ rest) =
    let whole : length (frame.left ++ frame.right ++ stack_goals rest)
        ≡ length (ids frame.left) + length (ids frame.right) + sum_frames (map frame_ids rest) =
      omega (
        arith,
        length-append (frame.left ++ frame.right) (stack_goals rest),
        length-append frame.left frame.right,
        length-ids frame.left,
        length-ids frame.right,
        length-stack_goals rest,
      ) in
    whole

-- The scope `all` shows as many goals as the focus of the proof counts.
length-selected_goals :
    (goals : PetGoals) → length (selected_goals goals all) ≡ focus_total_count (focus goals)
unfolding selected_goals focus focus_total_count unfocused_count
length-selected_goals goals =
    let shown = goals.focused_goals ++ stack_goals goals.stack in
    let whole : length (
          goals.focused_goals
          ++ stack_goals goals.stack
          ++ goals.shelved_goals
          ++ goals.given_up_goals)
        ≡ length (ids goals.focused_goals)
          + sum_frames (map frame_ids goals.stack)
          + length (ids goals.shelved_goals)
          + length (ids goals.given_up_goals) =
      omega (
        arith,
        length-append goals.focused_goals (stack_goals goals.stack),
        length-append shown goals.shelved_goals,
        length-append (shown ++ goals.shelved_goals) goals.given_up_goals,
        length-ids goals.focused_goals,
        length-stack_goals goals.stack,
        length-ids goals.shelved_goals,
        length-ids goals.given_up_goals,
      ) in
    whole
