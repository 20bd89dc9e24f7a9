-- ===== src/Replay/Total.antt =====
-- That a replay of a checkpoint returns: no path is without end, and none is empty
-- (`replay_checkpoint` of crates/rocq-mcp/src/adapter.rs).
use rocq_mcp.Prelude.{
  ℕ, ◌≡◌, refl, sym, subst, Option, none, some, List, [], ◌∷◌, Result, ok, err, inl, inr,
  Option-cases, lookup,
}
use rocq_mcp.Types.{PetStateId}
use rocq_mcp.Errors.{Error}
use rocq_mcp.Checkpoint.{
  CheckpointId, Checkpoint, Checkpoints, CheckpointBook, ProofSession, unknown,
}
use rocq_mcp.Checkpoint.Shape.{ValidSession}
use rocq_mcp.Checkpoint.Paths.{open_book, path_total, IsRootPath}
use rocq_mcp.Replay.{Engine, Pet, Outcome, Staged, stage, replay_from}
use rocq_mcp.Replay.Install.{
  finish, records_of, replay_records, replay_path, replay_checkpoint, checkpoint_error,
}

module _ (engine : Engine) where
  stage_after_state :
      (state : PetStateId) (records : List (CheckpointId × Checkpoint)) (pet : Pet)
      → (r : Outcome (PetStateId × List Staged)) × (stage engine (some state) records pet ≡ some r)
  unfolding stage
  stage_after_state state [] pet = ((ok (state, []), pet), refl)
  stage_after_state state ((id, c) ∷ rest) pet = elim (Option-cases c.pet_state) [
    | inl missing ↦ (replay_from engine (some state) id c rest pet, rw (missing, stage) refl)
    | inr (s, there) ↦ let (r, e) = stage_after_state s rest pet in (r, rw (there, stage) e)
  ]

  stage_root :
      (id : CheckpointId) (c : Checkpoint) (rest : List (CheckpointId × Checkpoint)) (pet : Pet)
      → (r : Outcome (PetStateId × List Staged)) × (stage engine none ((id, c) ∷ rest) pet ≡ some r)
  unfolding stage
  stage_root id c rest pet = elim (Option-cases c.pet_state) [
    | inl missing ↦ (replay_from engine none id c rest pet, rw (missing, stage) refl)
    | inr (s, there) ↦ let (r, e) = stage_after_state s rest pet in (r, rw (there, stage) e)
  ]

  -- What a replay answers, for a graph that it may change.
  Answers : Option (Outcome PetStateId × Checkpoints) → Type 0
  Answers r = (a : Outcome PetStateId × Checkpoints) × (r ≡ some a)

  replay_records-Answers :
      (m : Checkpoints) (id : CheckpointId) (c : Checkpoint)
      (r : Result Error (List (CheckpointId × Checkpoint))) (pet : Pet)
      → Answers (
          replay_records engine m
            (elim r [ ok records ↦ ok ((id, c) ∷ records) | err e ↦ err e ])
            pet)
  unfolding replay_records Answers
  replay_records-Answers m id c (err e) pet = (((err e, pet), m), refl)
  replay_records-Answers m id c (ok records) pet =
      let (r, e) = stage_root id c records pet in (finish engine m r, rw e refl)

  records_there :
      (m : Checkpoints) (id : CheckpointId) (c : Checkpoint) (ids : List CheckpointId)
      → lookup id m ≡ some c
      → records_of (id ∷ ids) m
        ≡ elim (records_of ids m) [ ok records ↦ ok ((id, c) ∷ records) | err e ↦ err e ]
  unfolding records_of
  records_there m id c ids there = rw (there, records_of) refl

  replay_path-Answers :
      (m : Checkpoints) (target : CheckpointId) (ids : List CheckpointId) (pet : Pet)
      → IsRootPath m ids target
      → Answers (replay_path engine m (some (ok ids)) pet)
  unfolding replay_path
  replay_path-Answers m target [] pet none_some = absurd (cc none_some)
  replay_path-Answers m target (id ∷ ids) pet ((c, there, _), _) =
      subst (λ r. Answers (replay_records engine m r pet)) (sym (records_there m id c ids there))
        (replay_records-Answers m id c (records_of ids m) pet)

  -- On a session of the right shape a replay returns.
  pub replay_checkpoint_total :
      {Target : Type 0} (target : CheckpointId) (next : ℕ) (session : ProofSession Target)
      (pet : Pet)
      → ValidSession next session
      → (a : Outcome PetStateId × CheckpointBook Target) × (replay_checkpoint engine target
            (open_book next session)
            pet
          ≡ some a)
  unfolding replay_checkpoint replay_path Answers
  replay_checkpoint_total target next session pet valid =
      elim (path_total next session valid target) [
        | inl (ids, found, leads) ↦
            let ((o, m), e) = replay_path-Answers session.checkpoints target ids pet leads in
            (
              (
                o,
                record (open_book next session) {
                  proof = some (record session { checkpoints = m });
                },
              ),
              rw (found, e) refl,
            )
        | inr (_, gone) ↦
            (((err (checkpoint_error unknown), pet), open_book next session), rw gone refl)
      ]
