-- ===== src/Replay/Install.antt =====
-- The second half of `replay_checkpoint` of crates/rocq-mcp/src/adapter.rs: the staged states are
-- put into their checkpoints, and what they replace is released; and the whole of it.
use rocq_mcp.Prelude.{
  and_then, Option, none, some, List, [], ◌∷◌, Result, ok, err, codes, lookup, insert,
}
use rocq_mcp.Types.{PetStateId}
use rocq_mcp.Errors.{Error, new_error, invalid_request, invalid_configuration}
use rocq_mcp.Checkpoint.{
  CheckpointId, Checkpoint, Checkpoints, CheckpointBook, ProofSession, CheckpointError,
  no_active_proof, active_proof, unknown, too_far, exhausted, path,
}
use rocq_mcp.Replay.{Engine, Pet, Outcome, release_answer, Staged, stage}

abbrev pub checkpoint_error : CheckpointError → Error
checkpoint_error no_active_proof = new_error invalid_request (codes "call prove first")
checkpoint_error active_proof =
    new_error invalid_configuration (codes "active proof was not retired before replacement")
checkpoint_error unknown = new_error invalid_request (codes "checkpoint is not active")
checkpoint_error too_far =
    new_error invalid_request (codes "rewind exceeds available check history")
checkpoint_error exhausted =
    new_error invalid_configuration (codes "checkpoint identifier space is exhausted")

-- `lookup` along a path
unfoldable pub records_of :
    List CheckpointId → Checkpoints → Result Error (List (CheckpointId × Checkpoint))
records_of [] m = ok []
records_of (id ∷ rest) m = elim (lookup id m) [
  | none ↦ err (checkpoint_error unknown)
  | some checkpoint ↦ elim (records_of rest m) [
    | ok records ↦ ok ((id, checkpoint) ∷ records)
    | err e ↦ err e
  ]
]

abbrev pub renewed : Staged → Checkpoint → Checkpoint
renewed s checkpoint = record checkpoint {
  pet_state = some s.state;
  view = s.view;
  goals_next_offset = s.goals_next_offset;
}

abbrev pub replaced_by : Option PetStateId → List PetStateId → List PetStateId
replaced_by none replaced = replaced
replaced_by (some previous) replaced = previous ∷ replaced

abbrev pub with_replaced :
    Option PetStateId
    → Result Error (List PetStateId) × Checkpoints
    → Result Error (List PetStateId) × Checkpoints
with_replaced previous (ok replaced, m) = (ok (replaced_by previous replaced), m)
with_replaced previous (err e, m) = (err e, m)

-- The loop over `staged`: the states that were replaced, and the graph.
unfoldable pub install : List Staged → Checkpoints → Result Error (List PetStateId) × Checkpoints
install [] m = (ok [], m)
install (s ∷ rest) m = elim (lookup s.id m) [
  | none ↦ (err (new_error invalid_configuration (codes "checkpoint disappeared during replay")), m)
  | some checkpoint ↦
      with_replaced checkpoint.pet_state (install rest (insert s.id (renewed s checkpoint) m))
]

module _ (engine : Engine) where
  release_replaced : PetStateId → Result Error (List PetStateId) → Pet → Outcome PetStateId
  unfolding release_answer
  release_replaced state (err e) pet = (err e, pet)
  release_replaced state (ok replaced) pet =
      and_then (release_answer (engine.release_states pet.clock replaced) replaced pet)
        (λ _ pet'. (ok state, pet'))

  -- A path without a missing state is answered at once.
  unfoldable pub finish :
      Checkpoints → Outcome (PetStateId × List Staged) → Outcome PetStateId × Checkpoints
  unfolding install release_replaced
  finish m (err e, pet) = ((err e, pet), m)
  finish m (ok (state, []), pet) = ((ok state, pet), m)
  finish m (ok (state, s ∷ rest), pet) =
      let (replaced, m') = install (s ∷ rest) m in (release_replaced state replaced pet, m')

  abbrev pub finish_stage :
      Checkpoints
      → Option (Outcome (PetStateId × List Staged))
      → Option (Outcome PetStateId × Checkpoints)
  finish_stage m none = none
  finish_stage m (some outcome) = some (finish m outcome)

  unfoldable pub replay_records :
      Checkpoints
      → Result Error (List (CheckpointId × Checkpoint))
      → Pet
      → Option (Outcome PetStateId × Checkpoints)
  unfolding finish stage
  replay_records m (err e) pet = some ((err e, pet), m)
  replay_records m (ok records) pet = finish_stage m (stage engine none records pet)

  unfoldable pub replay_path :
      Checkpoints
      → Option (Result CheckpointError (List CheckpointId))
      → Pet
      → Option (Outcome PetStateId × Checkpoints)
  unfolding replay_records records_of
  replay_path m none pet = none
  replay_path m (some (err e)) pet = some ((err (checkpoint_error e), pet), m)
  replay_path m (some (ok ids)) pet = replay_records m (records_of ids m) pet

  abbrev pub installed :
      {Target : Type 0}
      → CheckpointBook Target
      → ProofSession Target
      → Option (Outcome PetStateId × Checkpoints)
      → Option (Outcome PetStateId × CheckpointBook Target)
  installed book session none = none
  installed book session (some (outcome, m)) =
      some (outcome, record book { proof = some (record session { checkpoints = m }) })

  -- `none` is a panic, or a path without end.
  unfoldable pub replay_checkpoint :
      {Target : Type 0}
      → CheckpointId
      → CheckpointBook Target
      → Pet
      → Option (Outcome PetStateId × CheckpointBook Target)
  unfolding replay_path path
  replay_checkpoint target book pet = elim book.proof [
    | none ↦ some ((err (checkpoint_error no_active_proof), pet), book)
    | some session ↦ installed book session (replay_path session.checkpoints (path target book) pet)
  ]
