-- ===== src/Goals/Tests.antt =====
-- Two goals, the second of them named.
use rocq_mcp.Prelude.{◌≡◌, refl, true, none, some, [], ◌∷◌, codes, ◌++◌}
use rocq_mcp.Types.{focused, shelved}
use rocq_mcp.Goals.{
  PetGoals, render_goals, selected_goals, stack_goals, render_from, render_goal, joined_by,
  title_line, find_goal, render_found, hypothesis_line, newline,
}
use rocq_mcp.Prelude.{decimal, decimal_loop}

abbrev goals : PetGoals
goals = record {
  focused_goals =
      record {
        evar = [];
        name = none;
        hypotheses = record { names = "n" ∷ "m" ∷ []; definition = none; ty = "nat" } ∷ [];
        ty = "True";
      }
      ∷ record { evar = []; name = some "g"; hypotheses = []; ty = "False" }
      ∷ [];
  stack = [];
  shelved_goals = [];
  given_up_goals = [];
  bullet = none;
  proof_mode = true;
}

rendered :
    render_goals (λ a b. true) goals focused none
    ≡ some (
        codes "n m : nat"
        ++ newline
        ++ codes "============================"
        ++ newline
        ++ codes "True"
        ++ newline
        ++ newline
        ++ codes "goal 2 (g)"
        ++ newline
        ++ codes "============================"
        ++ newline
        ++ codes "False")
unfolding render_goals selected_goals stack_goals render_from render_goal title_line joined_by
    hypothesis_line decimal decimal_loop
rendered = refl

nothing_shelved : render_goals (λ a b. true) goals shelved (some []) ≡ none
unfolding render_goals selected_goals stack_goals find_goal render_found
nothing_shelved = refl
