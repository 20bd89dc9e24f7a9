-- ===== src/Session.antt =====
-- The state that the handlers of crates/rocq-mcp/src/adapter.rs change, and the steps that they
-- share: a session's book, the artifacts and the PET process of its project, and the books of the
-- other sessions (`ProjectRuntime`, `Selection` and `invalidate_project_states` of
-- crates/rocq-mcp/src/server.rs). The engine answers by `Environment` at each tick of PET's clock;
-- locks are held throughout a request, so that its steps are not interleaved with others' on the
-- same project. Progress notifications are left out.
pub mod Artifacts
pub mod Attempt
pub mod Check
pub mod Moves
pub mod Goals
pub mod Query
pub mod Queried
pub mod Limits
pub mod Bounded
pub mod Dispatch
pub mod Stateless
pub mod Admitted
pub mod Alike
pub mod Grown
pub mod Growth
pub mod Order
pub mod Live
pub mod Asked
pub mod Rewound
pub mod Outcomes
pub mod Handlers
pub mod Valid
mod Tests
use rocq_mcp.Prelude.{
  ℕ, suc, Bool, true, false, not, Option, none, some, List, [], ◌∷◌, ◌++◌, ◌==◌, if◌then◌else◌,
  Result, ok, err, map_err, codes, and_then, String,
}
use rocq_mcp.Types.{
  DeclarationIdentity, DeclarationKind, Bytes, Text, PetStateId, ProofState, FileId,
  ProofDiagnostic,
}
use rocq_mcp.Errors.{Error, new_error, invalid_request, request_cancelled}
use rocq_mcp.Writeback.{Target}
use rocq_mcp.Checkpoint.{
  CheckpointId, Checkpoint, CheckpointBook, Checked, ProofSession, current, invalidate_states,
}
use rocq_mcp.Replay.{Engine, Pet, ProofStep, release_answer}
use rocq_mcp.Replay.Install.{replay_checkpoint, checkpoint_error}

-- `ArtifactFingerprint`; a digest is its bytes.
pub record Fingerprint : Type 0 where
  pub source : Bytes
  pub vo : Option Bytes
  pub glob : Option Bytes

-- `ProofFailure` without its trace.
pub record ProofFailure : Type 0 where
  pub error : Error
  pub sentence_index : ℕ
  pub sentence_range : ProofDiagnostic
  pub before : ProofState

pub data TracedProofStep : Type 0 where
  success : ProofStep → TracedProofStep
  failure : ProofFailure → TracedProofStep

-- The engine's publication: its answer, and whether it came to `begin_epoch`.
pub record Publication : Type 0 where
  pub began : Bool
  pub answer : Result Error ProofState

pub record OpenedProof : Type 0 where
  pub target : Target
  pub step : ProofStep

-- `OpenResult`
pub data Opening : Type 0 where
  published : Target → Opening
  opened : OpenedProof → Opening

pub record Environment : Type 0 where
  pub engine : Engine
  pub request_cancelled_at : ℕ → Bool
  pub commit_request_at : ℕ → Bool
  pub artifact_fingerprint : ℕ → FileId → Result Error Fingerprint
  pub reconcile_source : ℕ → FileId → Result Error Fingerprint
  pub validate_target : ℕ → Target → Result Error (Unit {0})
  pub goals : ℕ → PetStateId → Result Error ProofState
  pub run_traced : ℕ → PetStateId → Text → Result Error TracedProofStep
  pub close_proof : ℕ → PetStateId → Result Error (Unit {0})
  pub publish : ℕ → List Text → Publication
  pub open_declaration : ℕ → DeclarationIdentity → Result Error Opening
  pub declare : ℕ → DeclarationKind → FileId → String → String → Result Error OpenedProof
  pub validate_published : ℕ → Target → Result Error ProofState

-- Another session: the project that it is attached to, and its book.
pub record OtherSession : Type 0 where
  pub attached : Option ℕ
  pub book : CheckpointBook Target

-- `project`, `pet` and `artifacts` are those of the project that the session works on, and
-- `attached` is the one that its selection names.
pub record World : Type 0 where
  pub attached : Option ℕ
  pub project : ℕ
  pub pet : Pet
  pub artifacts : List (FileId × Fingerprint)
  pub book : CheckpointBook Target
  pub others : List (OtherSession)

-- How a handler stops early: with an error, or in a panic.
pub data Stop : Type 0 where
  failed : Error → Stop
  panicked : Stop

abbrev pub Outcome : Type 0 → Type 0
Outcome A = Result Stop A × World

abbrev pub attached_to : ℕ → Option ℕ → Bool
attached_to project none = false
attached_to project (some other) = other == project

-- A call of the engine takes a tick.
abbrev pub tick : World → World
tick w = record w { pet = record w.pet { clock = suc w.pet.clock } }

-- `PetActor::restart`: every state of the old process is gone.
abbrev pub restart : World → World
restart w = record w { pet = record w.pet { taken = []; released = [] } }

unfoldable pub invalidate_others : ℕ → List (OtherSession) → List (OtherSession)
invalidate_others project [] = []
invalidate_others project (o ∷ rest) =
    (if attached_to project o.attached then record o { book = invalidate_states o.book } else o)
    ∷ invalidate_others project rest

unfoldable pub invalidate_project_states : World → World
unfolding invalidate_others
invalidate_project_states w = record w {
  book = invalidate_states w.book;
  others = invalidate_others w.project w.others;
}

-- What a replay answered.
unfoldable pub replayed :
    Option ((Result Error PetStateId × Pet) × CheckpointBook Target) → World → Outcome PetStateId
replayed none w = (err panicked, w)
replayed (some ((result, pet), book)) w =
    (map_err failed result, record w { pet = pet; book = book })

module _ (env : Environment) where
  cancelled_error : Error
  cancelled_error = new_error request_cancelled (codes "request cancelled")

  unfoldable pub reject_cancelled : World → Outcome (Unit {0})
  unfolding cancelled_error
  reject_cancelled w =
      if env.request_cancelled_at w.pet.clock
      then (err (failed cancelled_error), tick w)
      else (ok tt, tick w)

  unfoldable pub commit_or_cancelled : World → Outcome (Unit {0})
  unfolding cancelled_error
  commit_or_cancelled w =
      if env.commit_request_at w.pet.clock
      then (ok tt, tick w)
      else (err (failed cancelled_error), tick w)

  unfoldable pub validate_proof_target : Target → World → Outcome (Unit {0})
  validate_proof_target target w = (map_err failed (env.validate_target w.pet.clock target), tick w)

  unfoldable pub goals_of : PetStateId → World → Outcome ProofState
  goals_of state w = (map_err failed (env.goals w.pet.clock state), tick w)

  released_world : Result Error (Unit {0}) × Pet → World → Outcome (Unit {0})
  released_world (result, pet) w = (map_err failed result, record w { pet = pet })

  unfoldable pub release_states : List PetStateId → World → Outcome (Unit {0})
  unfolding release_answer released_world
  release_states states w =
      released_world (release_answer (env.engine.release_states w.pet.clock states) states w.pet) w

  -- PET hands out the state of a step that succeeds.
  unfoldable pub taken_by : Result Error TracedProofStep → World → World
  taken_by (ok (success step)) w = record w {
    pet = record w.pet { clock = suc w.pet.clock; taken = w.pet.taken ++ step.state ∷ [] };
  }
  taken_by (ok (failure f)) w = tick w
  taken_by (err e) w = tick w

  unfoldable pub run_traced : PetStateId → Text → World → Result Error TracedProofStep × World
  unfolding taken_by
  run_traced state fragment w = (
    env.run_traced w.pet.clock state fragment,
    taken_by (env.run_traced w.pet.clock state fragment) w,
  )

  unfoldable pub replay : CheckpointId → World → Outcome PetStateId
  unfolding replayed
  replay target w = replayed (replay_checkpoint env.engine target w.book w.pet) w

  -- A checkpoint's state, replayed where it is missing.
  unfoldable pub state_of : CheckpointId → Option PetStateId → World → Outcome PetStateId
  unfolding replay
  state_of id (some state) w = (ok state, w)
  state_of id none w = replay id w

  unfoldable pub ensured :
      Checked (CheckpointId × Checkpoint) → World → Outcome (CheckpointId × PetStateId)
  unfolding state_of
  ensured (err e) w = (err (failed (checkpoint_error e)), w)
  ensured (ok (id, checkpoint)) w =
      and_then (state_of id checkpoint.pet_state w) (λ state w'. (ok (id, state), w'))

  unfoldable pub ensure_current_state : World → Outcome (CheckpointId × PetStateId)
  unfolding ensured
  ensure_current_state w = ensured (current w.book) w

  abbrev pub no_proof : Error
  no_proof = new_error invalid_request (codes "call prove first")

  unfoldable pub target_of : Option (ProofSession Target) → World → Outcome Target
  target_of none w = (err (failed no_proof), w)
  target_of (some session) w = (ok session.target, w)

  unfoldable pub proof_target : World → Outcome Target
  unfolding target_of
  proof_target w = target_of w.book.proof w
