-- ===== src/Goals.antt =====
-- PET's goals (crates/rocq-engine/src/pet/mod.rs) and the text that they are shown as (`render_goals`
-- of crates/rocq-engine/src/engine.rs), a list of code points. Whether two evars are the same JSON
-- is a parameter.
pub mod Count
mod Tests
use rocq_mcp.Prelude.{
  ℕ, suc, ◌+◌, Bool, true, false, Option, none, some, List, [], ◌∷◌, ◌++◌, ◌||◌, map, if◌then◌else◌,
  String, codes, decimal, is_empty,
}
use rocq_mcp.Types.{
  Text, Evar, GoalStackFrame, GoalFocus, GoalScope, focused, unfocused, shelved, given_up, all,
}

pub record PetHypothesis : Type 0 where
  pub names : List String
  pub definition : Option String
  pub ty : String

pub record PetGoal : Type 0 where
  pub evar : Evar
  pub name : Option String
  pub hypotheses : List PetHypothesis
  pub ty : String

pub record PetGoalStackFrame : Type 0 where
  pub left : List PetGoal
  pub right : List PetGoal

pub record PetGoals : Type 0 where
  pub focused_goals : List PetGoal
  pub stack : List PetGoalStackFrame
  pub shelved_goals : List PetGoal
  pub given_up_goals : List PetGoal
  pub bullet : Option String
  pub proof_mode : Bool

abbrev pub ids : List PetGoal → List Evar
ids goals = map (λ (goal : PetGoal). goal.evar) goals

abbrev pub frame_ids : PetGoalStackFrame → GoalStackFrame
frame_ids frame = record { left = ids frame.left; right = ids frame.right }

unfoldable pub focus : PetGoals → GoalFocus
focus goals = record {
  focused = ids goals.focused_goals;
  stack = map frame_ids goals.stack;
  shelved = ids goals.shelved_goals;
  given_up = ids goals.given_up_goals;
  next_bullet = goals.bullet;
}

-- The goals of the frames, frame by frame.
unfoldable pub stack_goals : List PetGoalStackFrame → List PetGoal
stack_goals [] = []
stack_goals (frame ∷ rest) = frame.left ++ frame.right ++ stack_goals rest

abbrev shows_focused : GoalScope → Bool
shows_focused focused = true
shows_focused all = true
shows_focused _ = false

abbrev shows_unfocused : GoalScope → Bool
shows_unfocused unfocused = true
shows_unfocused all = true
shows_unfocused _ = false

abbrev shows_shelved : GoalScope → Bool
shows_shelved shelved = true
shows_shelved all = true
shows_shelved _ = false

abbrev shows_given_up : GoalScope → Bool
shows_given_up given_up = true
shows_given_up all = true
shows_given_up _ = false

abbrev shown_if : Bool → List PetGoal → List PetGoal
shown_if true goals = goals
shown_if false goals = []

unfoldable pub selected_goals : PetGoals → GoalScope → List PetGoal
unfolding stack_goals
selected_goals goals scope =
    shown_if (shows_focused scope) goals.focused_goals
    ++ shown_if (shows_unfocused scope) (stack_goals goals.stack)
    ++ shown_if (shows_shelved scope) goals.shelved_goals
    ++ shown_if (shows_given_up scope) goals.given_up_goals

-- `join`
unfoldable pub joined_by : Text → List Text → Text
joined_by separator [] = []
joined_by separator (text ∷ rest) =
    let later = joined_by separator rest in
    if is_empty rest then text else text ++ separator ++ later

abbrev pub newline : Text
newline = 10 ∷ []

unfoldable pub hypothesis_line : PetHypothesis → Text
unfolding joined_by
hypothesis_line h =
    let names = joined_by (codes " ") (map codes h.names) in
    elim h.definition [
      | some value ↦ names ++ codes " := " ++ codes value ++ codes " : " ++ codes h.ty
      | none ↦ names ++ codes " : " ++ codes h.ty
    ]

unfoldable pub title_line : Option String → ℕ → List Text
unfolding decimal
title_line none index = []
title_line (some name) index =
    (codes "goal " ++ decimal (index + 1) ++ codes " (" ++ codes name ++ codes ")") ∷ []

unfoldable pub render_goal : PetGoal → ℕ → Text
unfolding joined_by hypothesis_line title_line
render_goal goal index = joined_by newline (
    title_line goal.name index
    ++ map hypothesis_line goal.hypotheses
    ++ codes "============================" ∷ codes goal.ty ∷ [])

unfoldable pub render_from : ℕ → List PetGoal → List Text
unfolding render_goal
render_from index [] = []
render_from index (goal ∷ rest) = render_goal goal index ∷ render_from (suc index) rest

module _ (same_evar : Evar → Evar → Bool) where
  unfoldable pub find_goal : Evar → List PetGoal → Option PetGoal
  find_goal id [] = none
  find_goal id (goal ∷ rest) =
      let later = find_goal id rest in if same_evar goal.evar id then some goal else later

  unfoldable pub render_found : Option PetGoal → Option Text
  unfolding render_goal
  render_found none = none
  render_found (some goal) = some (render_goal goal 0)

  unfoldable pub render_goals : PetGoals → GoalScope → Option Evar → Option Text
  unfolding selected_goals find_goal render_found render_from joined_by
  render_goals goals scope (some id) = render_found (find_goal id (selected_goals goals scope))
  render_goals goals scope none =
      some (joined_by (10 ∷ 10 ∷ []) (render_from 0 (selected_goals goals scope)))
