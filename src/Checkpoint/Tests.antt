-- ===== src/Checkpoint/Tests.antt =====
-- A proof session at work: three accepted fragments, a rewind and a branch.
use rocq_mcp.Prelude.{
  ℕ, ◌≡◌, refl, true, false, none, some, List, [], ◌∷◌, arith, ok, err, lookup, insert, String, ◌⊎◌,
}
use rocq_mcp.Types.{ProofState, definition_kind, open_proof}
use rocq_mcp.Checkpoint.{
  Checkpoint, ProofSession, CheckpointBook, walk, ascend, begin, commit, find, select, steps_back,
  invalidate_states, path, inputs, fragments, too_far, unknown, no_active_proof, exhausted,
}
use rocq_mcp.Checkpoint.Shape.{
  Operation, begin_with, commit_with, select_id, perform, run, empty_book, IsValid, reached-IsValid,
  ValidSession, Known,
}
use rocq_mcp.Checkpoint.Paths.{open_book, IsRootPath, path_total, steps_back-eq-get_elem?}
use rocq_mcp.Checkpoint.History.{commit_history, committed}
use rocq_mcp.Checkpoint.Invalidate.{invalidate_states_lem}

abbrev view : ProofState
view = record {
  theorem = record {
    identity = record { file = "A.v"; qualified_path = "Demo" ∷ "A" ∷ "t" ∷ [] };
    kind = definition_kind;
    statement = "nat";
  };
  lifecycle = open_proof;
  goals = [];
  goal_focus = record { focused = []; stack = []; shelved = []; given_up = []; next_bullet = none };
  structured_goals = none;
}

abbrev step : ℕ → ℕ → Operation String
step state byte = commit_with state (byte ∷ []) false view none

-- Root 1, then 2 and 3 below it; back to 2, and 4 below 2.
abbrev script : List (Operation String)
script = begin_with "t" 10 false view none ∷ step 11 65 ∷ step 12 66 ∷ select_id 2 ∷ step 13 67 ∷ []

branch_path : path 4 (run script empty_book) ≡ some (ok (1 ∷ 2 ∷ 4 ∷ []))
unfolding run perform begin commit select path walk lookup insert
branch_path = refl

branch_fragments : fragments 4 (run script empty_book) ≡ some (ok ((65 ∷ []) ∷ (67 ∷ []) ∷ []))
unfolding run perform begin commit select path walk lookup insert fragments inputs find
branch_fragments = refl

branch_back :
    (steps_back 2 (run script empty_book) ≡ ok 1)
    × (steps_back 3 (run script empty_book) ≡ err too_far)
    × (steps_back 0 (run script empty_book) ≡ err too_far)
unfolding run perform begin commit select steps_back ascend lookup insert
branch_back = (refl, refl, refl)

-- A commit without a session uses up an identifier.
commit_without_session :
    commit 1 [] false view none (empty_book {Target = String})
    ≡ (err no_active_proof, record { next = 1; proof = none })
unfolding commit
commit_without_session = refl

abbrev last_book : CheckpointBook String
last_book = record { next = 18446744073709551615; proof = none }

commit_at_the_end : commit 1 [] false view none last_book ≡ (err exhausted, last_book)
unfolding commit
commit_at_the_end = refl

reached-IsValid_example : IsValid (run script empty_book)
reached-IsValid_example = reached-IsValid script

abbrev session : ProofSession String
session = record {
  target = "t";
  current = 4;
  checkpoints =
      (
        1,
        record {
          parent = none;
          pet_state = some 10;
          accepted_input = none;
          finished = false;
          view = view;
          goals_next_offset = none;
        },
      )
      ∷ (
        2,
        record {
          parent = some 1;
          pet_state = some 11;
          accepted_input = some (65 ∷ []);
          finished = false;
          view = view;
          goals_next_offset = none;
        },
      )
      ∷ (
        3,
        record {
          parent = some 2;
          pet_state = some 12;
          accepted_input = some (66 ∷ []);
          finished = false;
          view = view;
          goals_next_offset = none;
        },
      )
      ∷ (
        4,
        record {
          parent = some 2;
          pet_state = some 13;
          accepted_input = some (67 ∷ []);
          finished = false;
          view = view;
          goals_next_offset = none;
        },
      )
      ∷ [];
}

session_reached : run script empty_book ≡ open_book 4 session
unfolding run perform begin commit select lookup insert
session_reached = refl

session-ValidSession : ValidSession 4 session
unfolding run perform begin commit select lookup insert
session-ValidSession = (reached-IsValid script).session

path_total_example :
    ((ids : List ℕ) × (path 4 (open_book 4 session) ≡ some (ok ids))
      × IsRootPath session.checkpoints ids 4)
    ⊎ ((lookup 4 session.checkpoints ≡ none) × (path 4 (open_book 4 session) ≡ some (err unknown)))
path_total_example = path_total 4 session session-ValidSession 4

steps_back_example : steps_back 2 (open_book 4 session) ≡ ok 1
unfolding path walk lookup
steps_back_example = steps_back-eq-get_elem? 4 session session-ValidSession (1 ∷ 2 ∷ 4 ∷ []) 1 refl

commit_history_example :
    (commit 14 (68 ∷ []) true view none (open_book 4 session)
      ≡ (ok 5, committed 4 session session-ValidSession 14 (68 ∷ []) true view none (omega arith)))
    × (fragments 5
          (committed 4 session session-ValidSession 14 (68 ∷ []) true view none (omega arith))
        ≡ some (ok ((65 ∷ []) ∷ (67 ∷ []) ∷ (68 ∷ []) ∷ [])))
    × ((id : ℕ)
        → Known session.checkpoints id
        → (path id
              (committed 4 session session-ValidSession 14 (68 ∷ []) true view none (omega arith))
            ≡ path id (open_book 4 session))
          × (fragments id
                (committed 4 session session-ValidSession 14 (68 ∷ []) true view none (omega arith))
              ≡ fragments id (open_book 4 session)))
unfolding path walk lookup fragments inputs find
commit_history_example =
    commit_history 4 session session-ValidSession 14 (68 ∷ []) true view none (omega arith)
      ((65 ∷ []) ∷ (67 ∷ []) ∷ []) refl

invalidate_states_example :
    ((s' : ProofSession String) × ((invalidate_states (open_book 4 session)).proof ≡ some s')
      × (s'.target ≡ session.target)
      × (s'.current ≡ session.current))
    × ((invalidate_states (open_book 4 session)).next ≡ 4)
    × (path 4 (invalidate_states (open_book 4 session)) ≡ path 4 (open_book 4 session))
    × (fragments 4 (invalidate_states (open_book 4 session)) ≡ fragments 4 (open_book 4 session))
    × ((c : Checkpoint)
        → find 4 (invalidate_states (open_book 4 session)) ≡ ok c
        → c.pet_state ≡ none)
invalidate_states_example = invalidate_states_lem 4 session 4
