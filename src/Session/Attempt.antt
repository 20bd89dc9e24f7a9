-- ===== src/Session/Attempt.antt =====
-- What `check` and `try` do before their first fragment, and the whole of `try_fragments`
-- (crates/rocq-mcp/src/adapter.rs). The JSON of an answer is a record or a list of its parts, the
-- difference of goals left out; a deadline and a trace only concern the engine.
use rocq_mcp.Prelude.{
  Bool, true, false, List, [], ◌∷◌, if◌then◌else◌, Result, ok, err, map_err, and_then,
}
use rocq_mcp.Types.{Text, ProofState}
use rocq_mcp.Types.Json.{Value}
use rocq_mcp.Errors.{Error, ErrorKind, proof_step_timeout}
use rocq_mcp.Checkpoint.{CheckpointId}
use rocq_mcp.Writeback.{Target}
use rocq_mcp.Arguments.{settings}
use rocq_mcp.Session.{
  Environment, World, Outcome, failed, ProofFailure, TracedProofStep, success, failure,
  invalidate_project_states, reject_cancelled, validate_proof_target, goals_of, release_states,
  run_traced, ensure_current_state, proof_target,
}
use rocq_mcp.Session.Artifacts.{reconcile_artifacts}

-- A fragment that was not accepted.
pub data Rejection : Type 0 where
  refused : ProofFailure → Rejection
  timed_out : Error → Rejection

pub data Tried : Type 0 where
  evaluated : Bool → ProofState → Tried
  rejected : Rejection → Tried

abbrev pub is_timeout : ErrorKind → Bool
is_timeout proof_step_timeout = true
is_timeout _ = false

-- The selected checkpoint, with its goals.
pub record Base : Type 0 where
  pub target : Target
  pub id : CheckpointId
  pub view : ProofState

module _ (env : Environment) where
  unfoldable pub prepare_base : World → Outcome Base
  unfolding proof_target validate_proof_target reconcile_artifacts ensure_current_state goals_of
  prepare_base w = and_then (proof_target env w) λ target w1.
      and_then (validate_proof_target env target w1) λ _ w2.
        and_then (reconcile_artifacts env (target.info.identity.file ∷ []) w2) λ _ w3.
          and_then (ensure_current_state env w3) λ found w4.
            and_then (goals_of env found.1 w4)
              λ view w5. (ok (record { target = target; id = found.0; view = view }), w5)

  unfoldable pub tried : Result Error TracedProofStep × World → Outcome Tried
  unfolding reject_cancelled release_states invalidate_project_states
  tried (ok (success step), w) = and_then (reject_cancelled env w) λ _ w1.
      and_then (release_states env (step.state ∷ []) w1)
        λ _ w2. (ok (evaluated step.finished step.view), w2)
  tried (ok (failure f), w) = (ok (rejected (refused f)), w)
  tried (err error, w) =
      if is_timeout error.kind
      then (ok (rejected (timed_out error)), invalidate_project_states w)
      else (err (failed error), w)

  -- A timeout of an earlier fragment has taken the states with it, so that each round asks again.
  unfoldable pub try_one : Text → World → Outcome Tried
  unfolding ensure_current_state run_traced tried
  try_one fragment w =
      and_then (ensure_current_state env w) (λ found w'. tried (run_traced env found.1 fragment w'))

  unfoldable pub try_all : List Text → World → Outcome (List Tried)
  unfolding try_one
  try_all [] w = (ok [], w)
  try_all (fragment ∷ rest) w =
      and_then (try_one fragment w)
        λ entry w1. and_then (try_all rest w1) λ entries w2. (ok (entry ∷ entries), w2)

  unfoldable pub try_fragments : Value → World → Outcome (List Tried)
  unfolding prepare_base try_all
  try_fragments args w =
      and_then (map_err failed (settings args), w)
        λ s w1. and_then (prepare_base w1) λ base w2. try_all s.fragments w2
