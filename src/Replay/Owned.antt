-- ===== src/Replay/Owned.antt =====
-- Which PET states a replay keeps and which it gives back (`replay_checkpoint` of
-- crates/rocq-mcp/src/adapter.rs).
use rocq_mcp.Prelude.{
  ℕ, suc, ◌≡◌, refl, sym, ap, ◌∙◌, Bool, true, false, Option, none, some, List, [], ◌∷◌, ◌++◌,
  if◌then◌else◌, Result, ok, err, inl, inr, Option-cases, All, append-nil,
}
use rocq_mcp.Types.{Text, PetStateId}
use rocq_mcp.Errors.{Error}
use rocq_mcp.Errors.Public.{invalidates_pet_epoch}
use rocq_mcp.Checkpoint.{CheckpointId, Checkpoint}
use rocq_mcp.Replay.{
  ProofStep, Engine, Pet, Outcome, answer, release_answer, Staged, states, staged_root, staged_step,
  same_flag, Continuation, refuse, accept, replay_steps, accept_root, replay_from, stage,
}

-- The identifiers of the records, and of the staged states.
abbrev keys : List (CheckpointId × Checkpoint) → List CheckpointId
keys [] = []
keys ((id, c) ∷ rest) = id ∷ keys rest

abbrev pub staged_ids : List Staged → List CheckpointId
staged_ids [] = []
staged_ids (s ∷ rest) = s.id ∷ staged_ids rest

-- The identifiers from the first record without a state on.
abbrev pub lost : List (CheckpointId × Checkpoint) → List CheckpointId
lost [] = []
lost ((id, c) ∷ rest) = elim c.pet_state [ some state ↦ lost rest | none ↦ id ∷ keys rest ]

-- The accounts after staging for `ids`, which began with none: where it succeeds, the states
-- handed out are the staged ones, for these identifiers in their order, none given back; where it
-- fails and PET's process lives on, all are given back.
abbrev pub IsAccounted : List CheckpointId → Outcome (PetStateId × List Staged) → Type 0
IsAccounted ids (ok (state, staged), pet) =
    (staged_ids staged ≡ ids) × (pet.taken ≡ states staged) × (pet.released ≡ [])
IsAccounted ids (err error, pet) =
    invalidates_pet_epoch error.kind ≡ false → pet.released ≡ pet.taken

abbrev HasInput : CheckpointId × Checkpoint → Type 0
HasInput record_ = (input : Text) × (record_.1.accepted_input ≡ some input)

states-append : (a : List Staged) (s : Staged) → states (a ++ s ∷ []) ≡ states a ++ s.state ∷ []
states-append [] s = refl
states-append (x ∷ a) s = rw (states-append a s)

staged_ids-append :
    (a : List Staged) (s : Staged) (ids : List CheckpointId)
    → staged_ids (a ++ s ∷ []) ++ ids ≡ staged_ids a ++ s.id ∷ ids
staged_ids-append [] s ids = refl
staged_ids-append (x ∷ a) s ids = rw (staged_ids-append a s ids)

module _ (engine : Engine)
    (released : (n : ℕ) (ids : List PetStateId) → engine.release_states n ids ≡ ok tt) where
  refuse-IsAccounted :
      (whole : List CheckpointId) (ids : List PetStateId) (error : Error) (pet : Pet)
      → pet.taken ≡ ids
      → pet.released ≡ []
      → IsAccounted whole (refuse engine ids error pet)
  unfolding refuse release_answer
  refuse-IsAccounted whole ids error pet t r = rw (released pet.clock ids) (λ _. rw (r, t) refl)

  if_IsAccounted :
      (whole : List CheckpointId) (b : Bool) (r s : Outcome (PetStateId × List Staged))
      → IsAccounted whole r
      → IsAccounted whole s
      → IsAccounted whole (if b then r else s)
  if_IsAccounted whole true r s h k = h
  if_IsAccounted whole false r s h k = k

  -- What a step of the loop may assume of the rest, which stages for `ids`.
  Accounts : List CheckpointId → List CheckpointId → Continuation → Type 0
  Accounts whole ids k =
      (state : PetStateId) (staged : List Staged) (pet : Pet)
      → staged_ids staged ++ ids ≡ whole
      → pet.taken ≡ states staged
      → pet.released ≡ []
      → IsAccounted whole (k state staged pet)

  accept-IsAccounted :
      (id : CheckpointId) (c : Checkpoint) (staged : List Staged) (r : Result Error ProofStep)
      (pet : Pet) (k : Continuation) (whole ids : List CheckpointId)
      → Accounts whole ids k
      → staged_ids staged ++ id ∷ ids ≡ whole
      → pet.taken ≡ states staged
      → pet.released ≡ []
      → IsAccounted whole (accept engine id c staged (answer r pet) k)
  unfolding accept answer Accounts
  accept-IsAccounted id c staged (err error) pet k whole ids h i t e =
      at (invalidates_pet_epoch error.kind) refl
    where
      at :
          (b : Bool)
          → invalidates_pet_epoch error.kind ≡ b
          → IsAccounted whole (
              if b
              then (err error, record pet { clock = suc pet.clock })
              else refuse engine (states staged) error (record pet { clock = suc pet.clock }))
      at true q = λ alive. absurd (cc (q, alive))
      at false q =
          refuse-IsAccounted whole (states staged) error (record pet { clock = suc pet.clock }) t e
  accept-IsAccounted id c staged (ok step) pet k whole ids h i t e =
      if_IsAccounted whole (same_flag step.finished c.finished) _ _
        (h step.state (staged ++ staged_step id c step ∷ []) _
          (staged_ids-append staged (staged_step id c step) ids ∙ i)
          (ap (λ l. l ++ step.state ∷ []) t ∙ sym (states-append staged (staged_step id c step))) e)
        (refuse-IsAccounted whole (states staged ++ step.state ∷ []) _ _
          (ap (λ l. l ++ step.state ∷ []) t) e)

  replay_steps-Accounts :
      (records : List (CheckpointId × Checkpoint))
      → All HasInput records
      → (whole : List CheckpointId) → Accounts whole (keys records) (replay_steps engine records)
  unfolding replay_steps Accounts
  replay_steps-Accounts [] inputs whole state staged pet i t e =
      (sym (append-nil (staged_ids staged)) ∙ i, t, e)
  replay_steps-Accounts ((id, c) ∷ rest) ((input, there), inputs) whole state staged pet i t e =
      rw there (
        accept-IsAccounted id c staged (engine.run pet.clock state input) pet
          (replay_steps engine rest) whole (keys rest) (replay_steps-Accounts rest inputs whole) i t
          e)

  accept_root-IsAccounted :
      (id : CheckpointId) (c : Checkpoint) (r : Result Error ProofStep) (pet : Pet)
      (k : Continuation) (ids : List CheckpointId)
      → Accounts (id ∷ ids) ids k
      → pet.taken ≡ []
      → pet.released ≡ []
      → IsAccounted (id ∷ ids) (accept_root engine id c (answer r pet) k)
  unfolding accept_root answer Accounts
  accept_root-IsAccounted id c (err error) pet k ids h t e = λ alive. e ∙ sym t
  accept_root-IsAccounted id c (ok step) pet k ids h t e =
      if_IsAccounted (id ∷ ids) (same_flag step.finished c.finished) _ _
        (h step.state (staged_root id step ∷ []) _ refl (ap (λ l. l ++ step.state ∷ []) t) e)
        (refuse-IsAccounted (id ∷ ids) (step.state ∷ []) _ _ (ap (λ l. l ++ step.state ∷ []) t) e)

  replay_from-IsAccounted :
      (previous : Option PetStateId) (id : CheckpointId) (c : Checkpoint)
      (rest : List (CheckpointId × Checkpoint)) (pet : Pet)
      → ((state : PetStateId) → previous ≡ some state → HasInput (id, c))
      → All HasInput rest
      → pet.taken ≡ []
      → pet.released ≡ []
      → IsAccounted (id ∷ keys rest) (replay_from engine previous id c rest pet)
  unfolding replay_from Accounts
  replay_from-IsAccounted none id c rest pet first inputs t e =
      accept_root-IsAccounted id c (engine.replay_root pet.clock) pet (replay_steps engine rest)
        (keys rest) (replay_steps-Accounts rest inputs (id ∷ keys rest)) t e
  replay_from-IsAccounted (some state) id c rest pet first inputs t e =
      replay_steps-Accounts ((id, c) ∷ rest) (first state refl, inputs) (id ∷ keys rest) state []
        pet refl t e

  stage_after :
      (state : PetStateId) (records : List (CheckpointId × Checkpoint)) (pet : Pet)
      → All HasInput records
      → pet.taken ≡ []
      → pet.released ≡ []
      → (r : Outcome (PetStateId × List Staged)) × (stage engine (some state) records pet ≡ some r)
        × IsAccounted (lost records) r
  unfolding stage
  stage_after state [] pet inputs t e = ((ok (state, []), pet), refl, (refl, t, e))
  stage_after state ((id, c) ∷ rest) pet (input, inputs) t e = elim (Option-cases c.pet_state) [
    | inl missing ↦ rw missing (
      replay_from engine (some state) id c rest pet,
      refl,
      replay_from-IsAccounted (some state) id c rest pet (λ _ _. input) inputs t e,
    )
    | inr (s, there) ↦ rw there (stage_after s rest pet inputs t e)
  ]

  -- Staging a path of a checkpoint graph, where each node after the first has its input, returns.
  -- From empty accounts and with releases that PET takes: where it succeeds, the states that PET
  -- handed out are the staged ones, one for each checkpoint from the first without a state on, in
  -- the order of the path, and none was given back; where it fails without the loss of PET's
  -- process, every state that PET handed out was given back.
  pub stage-IsAccounted :
      (id : CheckpointId) (c : Checkpoint) (rest : List (CheckpointId × Checkpoint)) (pet : Pet)
      → All HasInput rest
      → pet.taken ≡ []
      → pet.released ≡ []
      → (r : Outcome (PetStateId × List Staged)) × (stage engine none ((id, c) ∷ rest) pet ≡ some r)
        × IsAccounted (lost ((id, c) ∷ rest)) r
  unfolding stage
  stage-IsAccounted id c rest pet inputs t e = elim (Option-cases c.pet_state) [
    | inl missing ↦ rw missing (
      replay_from engine none id c rest pet,
      refl,
      replay_from-IsAccounted none id c rest pet (λ s none_yet. absurd (cc none_yet)) inputs t e,
    )
    | inr (s, there) ↦ rw there (stage_after s rest pet inputs t e)
  ]
