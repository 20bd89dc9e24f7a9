-- ===== src/Session/Goals.antt =====
-- What a client asks and gets of `query(goals)` of crates/rocq-mcp/src/adapter.rs: the beginning and
-- the end of that branch of `query`, and `state_json_with_options` for a selected checkpoint. Counts
-- and focus are read off the goals' focus; a difference of goals is represented by the two
-- collections that `goal_diff_json` compares.
use rocq_mcp.Prelude.{
  ℕ, Bool, true, false, Option, none, some, List, [], ◌∷◌, ◌&&◌, if◌then◌else◌, Result, ok, err,
  ◌>>=◌, ◌>>◌, String, is_empty,
}
use rocq_mcp.Types.{
  Bytes, DeclarationIdentity, ProofState, ProofLifecycle, open_proof, completed, GoalFocus,
  StructuredGoals, GoalScope, all,
}
use rocq_mcp.Types.Json.{Value, get, as_array}
use rocq_mcp.Errors.{Error}
use rocq_mcp.Writeback.{Target}
use rocq_mcp.Arguments.{invalid, reject_unknown, optional_bool, goal_scope, query_offset}
use rocq_mcp.Paging.{Page}
use rocq_mcp.Checkpoint.{CheckpointId, CheckpointBook, find}

abbrev goal_id_error : Error
goal_id_error = invalid "goal_id must be a non-empty evar array returned by query(goals)"

unfoldable pub goal_id : Value → Result Error (Option (List Value))
goal_id args = elim (get "goal_id" args) [
  | none ↦ ok none
  | some value ↦ elim (as_array value) [
    | none ↦ err goal_id_error
    | some id ↦ if is_empty id then err goal_id_error else ok (some id)
  ]
]

-- A goal's identifier is looked for in every collection.
unfoldable pub scope_of : Value → Option (List Value) → Result Error GoalScope
scope_of args none = goal_scope args
scope_of args (some id) = elim (get "scope" args) [
  | none ↦ ok all
  | some scope ↦ err (invalid "scope and goal_id are mutually exclusive")
]

pub record GoalsRequest : Type 0 where
  pub offset : ℕ
  pub include_diff : Bool
  pub include_structured : Bool
  pub id : Option (List Value)
  pub scope : GoalScope

abbrev pub goals_fields : List String
goals_fields = "kind" ∷ "scope" ∷ "goal_id" ∷ "offset" ∷ "diff" ∷ "structured" ∷ []

unfoldable pub goals_request : Value → Result Error GoalsRequest
unfolding goal_id scope_of
goals_request args = do
  reject_unknown args goals_fields
  offset ← query_offset args
  include_diff ← optional_bool args "diff"
  include_structured ← optional_bool args "structured"
  id ← goal_id args
  scope ← scope_of args id
  ok (record {
    offset = offset;
    include_diff = include_diff;
    include_structured = include_structured;
    id = id;
    scope = scope;
  })

-- The view of the parent of the selected checkpoint.
unfoldable pub parent_view : CheckpointId → CheckpointBook Target → Option ProofState
parent_view id book = elim (find id book) [
  | err e ↦ none
  | ok checkpoint ↦ elim checkpoint.parent [
    | none ↦ none
    | some parent ↦ elim (find parent book) [ err e ↦ none | ok before ↦ some before.view ]
  ]
]

pub record GoalsReply : Type 0 where
  pub target : DeclarationIdentity
  pub status : ProofLifecycle
  pub checkpoint : CheckpointId
  pub goals : Bytes
  pub next_offset : Option ℕ
  pub focus : Option GoalFocus
  pub structured_goals : Option StructuredGoals
  pub goal_diff : Option (Option (StructuredGoals × StructuredGoals))

abbrev pub is_open : ProofLifecycle → Bool
is_open open_proof = true
is_open completed = false

-- `none` stands for a difference that is not available.
unfoldable pub compared :
    Option ProofState → ProofState → Option (StructuredGoals × StructuredGoals)
compared none after = none
compared (some before) after = elim before.structured_goals [
  | none ↦ none
  | some old ↦ elim after.structured_goals [ none ↦ none | some new ↦ some (old, new) ]
]

unfoldable pub goals_reply :
    Bool → Bool → CheckpointId → ProofState → Page → Option ProofState → GoalsReply
unfolding compared
goals_reply include_structured include_diff checkpoint view page before = record {
  target = view.theorem.identity;
  status = view.lifecycle;
  checkpoint = checkpoint;
  goals = page.text;
  next_offset = page.next_offset;
  focus = if is_open view.lifecycle then some view.goal_focus else none;
  structured_goals =
      if include_structured && is_open view.lifecycle then view.structured_goals else none;
  goal_diff = if include_diff then some (compared before view) else none;
}
