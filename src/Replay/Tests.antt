-- ===== src/Replay/Tests.antt =====
-- A path whose second and third checkpoints have lost their states, replayed by an engine that
-- refuses the third fragment.
use rocq_mcp.Prelude.{
  suc, zero, ◌≡◌, refl, false, Option, none, some, List, [], ◌∷◌, Result, ok, err, String, codes,
}
use rocq_mcp.Types.{Text, PetStateId, ProofState, definition_kind, open_proof}
use rocq_mcp.Errors.{Error, new_error, proof_step_failed}
use rocq_mcp.Errors.Public.{invalidates_pet_epoch}
use rocq_mcp.Paging.{bounded_checkpoint_view}
use rocq_mcp.Checkpoint.{CheckpointId, Checkpoint, CheckpointBook, ProofSession, path, walk}
use rocq_mcp.Prelude.{lookup, insert, map_values}
use rocq_mcp.Replay.{
  ProofStep, Engine, Pet, Outcome, Staged, answer, release_answer, refuse, accept, replay_steps,
  replay_from, stage,
}
use rocq_mcp.Replay.Install.{
  install, finish, records_of, replay_checkpoint, replay_path, replay_records,
}
use rocq_mcp.Checkpoint.Paths.{open_book}
use rocq_mcp.Checkpoint.{begin, commit, invalidate_states}
use rocq_mcp.Checkpoint.Shape.{
  ValidSession, Operation, begin_with, commit_with, invalidate_all, run, perform, reached-IsValid,
}
use rocq_mcp.Replay.History.{IsSameHistory, replay_checkpoint-IsSameHistory}
use rocq_mcp.Replay.Owned.{IsAccounted, stage-IsAccounted}

abbrev view : ProofState
view = record {
  theorem = record {
    identity = record { file = "A.v"; qualified_path = [] };
    kind = definition_kind;
    statement = "nat";
  };
  lifecycle = open_proof;
  goals = [];
  goal_focus = record { focused = []; stack = []; shelved = []; given_up = []; next_bullet = none };
  structured_goals = none;
}

abbrev node : Option CheckpointId → Option PetStateId → Option Text → Checkpoint
node parent state input = record {
  parent = parent;
  pet_state = state;
  accepted_input = input;
  finished = false;
  view = view;
  goals_next_offset = none;
}

-- The state handed out at tick 0 is 20; later ticks answer `second`.
abbrev engine : Result Error ProofStep → Engine
engine second = record {
  replay_root = λ n. err (new_error proof_step_failed []);
  run = λ n state input. elim n [
    | zero ↦ ok (record { state = 20; view = view; finished = false })
    | suc m ↦ second
  ];
  release_states = λ n ids. ok tt;
}

abbrev refusal : Result Error ProofStep
refusal = err (new_error proof_step_failed (codes "no"))

abbrev fresh : Pet
fresh = record { clock = 0; taken = []; released = [] }

abbrev book : CheckpointBook String
book = record {
  next = 3;
  proof = some (record {
    target = "t";
    current = 3;
    checkpoints =
        (1, node none (some 7) none)
        ∷ (2, node (some 1) none (some (65 ∷ [])))
        ∷ (3, node (some 2) none (some (66 ∷ [])))
        ∷ [];
  });
}

stage-IsAccounted_example :
    (r : Outcome (PetStateId × List Staged)) × (stage
        (engine refusal)
        none
        ((1, node none (some 7) none)
          ∷ (2, node (some 1) none (some (65 ∷ [])))
          ∷ (3, node (some 2) none (some (66 ∷ [])))
          ∷ [])
        fresh
      ≡ some r)
    × IsAccounted (2 ∷ 3 ∷ []) r
stage-IsAccounted_example =
    stage-IsAccounted (engine refusal) (λ n ids. refl) 1 (node none (some 7) none)
      ((2, node (some 1) none (some (65 ∷ []))) ∷ (3, node (some 2) none (some (66 ∷ []))) ∷ [])
      fresh ((65 ∷ [], refl), ((66 ∷ [], refl), tt)) refl refl

-- The first new state is given back, and the book is as it was.
refused_replay :
    replay_checkpoint (engine refusal) 3 book fresh
    ≡ some (
      (
        err (new_error proof_step_failed (codes "no")),
        record { clock = 3; taken = 20 ∷ []; released = 20 ∷ [] },
      ),
      book,
    )
unfolding replay_checkpoint path walk lookup records_of stage replay_from replay_steps accept answer
    refuse release_answer bounded_checkpoint_view finish invalidates_pet_epoch
refused_replay = refl

abbrev accepting : Result Error ProofStep
accepting = ok (record { state = 21; view = view; finished = false })

abbrev session : ProofSession String
session = record {
  target = "t";
  current = 3;
  checkpoints =
      (1, node none (some 7) none)
      ∷ (2, node (some 1) none (some (65 ∷ [])))
      ∷ (3, node (some 2) none (some (66 ∷ [])))
      ∷ [];
}

abbrev replayed : CheckpointBook String
replayed = open_book 3 (record session {
  checkpoints =
      (1, node none (some 7) none)
      ∷ (2, node (some 1) (some 20) (some (65 ∷ [])))
      ∷ (3, node (some 2) (some 21) (some (66 ∷ [])))
      ∷ [];
})

accepted_replay :
    replay_checkpoint (engine accepting) 3 (open_book 3 session) fresh
    ≡ some ((ok 21, record { clock = 3; taken = 20 ∷ 21 ∷ []; released = [] }), replayed)
unfolding replay_checkpoint replay_path replay_records path walk lookup insert records_of stage
    replay_from replay_steps accept answer refuse release_answer bounded_checkpoint_view finish
    install
accepted_replay = refl

-- How a session comes to be that has lost all its states.
abbrev script : List (Operation String)
script =
    begin_with "t" 7 false view none
    ∷ commit_with 8 (65 ∷ []) false view none
    ∷ commit_with 9 (66 ∷ []) false view none
    ∷ invalidate_all
    ∷ []

abbrev invalidated_session : ProofSession String
invalidated_session = record session {
  checkpoints =
      (1, node none none none)
      ∷ (2, node (some 1) none (some (65 ∷ [])))
      ∷ (3, node (some 2) none (some (66 ∷ [])))
      ∷ [];
}

invalidated_session-ValidSession : ValidSession 3 invalidated_session
unfolding run perform begin commit lookup insert invalidate_states map_values
invalidated_session-ValidSession = (reached-IsValid script).session

abbrev rooted : Engine
rooted = record (engine accepting) {
  replay_root = λ n. ok (record { state = 19; view = view; finished = false });
}

replay_checkpoint-IsSameHistory_example :
    (outcome : Outcome PetStateId) × (book' : CheckpointBook String) × (replay_checkpoint rooted 3
        (open_book 3 invalidated_session)
        fresh
      ≡ some (outcome, book'))
    × IsSameHistory (open_book 3 invalidated_session) invalidated_session book'
replay_checkpoint-IsSameHistory_example =
    replay_checkpoint-IsSameHistory rooted 3 3 invalidated_session fresh
      invalidated_session-ValidSession
