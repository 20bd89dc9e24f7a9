-- ===== src/Session/Stateless.antt =====
-- What `dispatch` (crates/rocq-mcp/src/adapter.rs) leaves where PET's epoch has ended, and the
-- shape that it keeps.
use rocq_mcp.Prelude.{
  ℕ, ◌≡◌, refl, sym, ap, ◌∙◌, Bool, true, false, Option, none, some, List, [], ◌∷◌, if◌then◌else◌,
  ok, err, All, String, lookup-map_values_cases, ok_or-eq-ok,
}
use rocq_mcp.Types.Json.{Value}
use rocq_mcp.Errors.{Error}
use rocq_mcp.Errors.Public.{invalidates_pet_epoch}
use rocq_mcp.Checkpoint.{
  CheckpointId, Checkpoint, CheckpointBook, ProofSession, find, unknown, invalidate_states,
  invalidated,
}
use rocq_mcp.Writeback.{Target}
use rocq_mcp.Progress.{is_cancellation}
use rocq_mcp.Session.{
  Environment, World, Outcome, failed, panicked, OtherSession, restart, attached_to,
  invalidate_others, invalidate_project_states,
}
use rocq_mcp.Session.Query.{Questions}
use rocq_mcp.Session.Dispatch.{Listings, Response, dispatch_attached, ended, serve}

-- No checkpoint of the book names a PET state.
abbrev pub IsStateless : CheckpointBook Target → Type 0
IsStateless book = (id : CheckpointId) (c : Checkpoint) → find id book ≡ ok c → c.pet_state ≡ none

-- No session that is attached to `project` names a PET state.
abbrev pub AreStateless : ℕ → List OtherSession → Type 0
AreStateless project others =
    All (λ o. attached_to project o.attached ≡ true → IsStateless o.book) others

invalidate_states-IsStateless :
    (book : CheckpointBook Target) → IsStateless (invalidate_states book)
unfolding invalidate_states find
invalidate_states-IsStateless book = of_proof book.next book.proof
  where
    of_proof :
        (n : ℕ) (p : Option (ProofSession Target))
        → IsStateless (invalidate_states (record { next = n; proof = p }))
    of_proof n none id c found = absurd (cc found)
    of_proof n (some s) id c found =
        let (old, there, same) =
          lookup-map_values_cases invalidated id s.checkpoints (ok_or-eq-ok unknown _ found) in
        ap (λ (x : Checkpoint). x.pet_state) (sym same)

invalidated_other :
    (project : ℕ) (o : OtherSession) (ours : Bool)
    → attached_to project o.attached ≡ ours
    → attached_to project
        (if ours then record o { book = invalidate_states o.book } else o).attached
      ≡ true
    → IsStateless (if ours then record o { book = invalidate_states o.book } else o).book
invalidated_other project o true at h = invalidate_states-IsStateless o.book
invalidated_other project o false at h = absurd (cc (sym at ∙ h))

invalidate_others-AreStateless :
    (project : ℕ) (others : List OtherSession)
    → AreStateless project (invalidate_others project others)
unfolding invalidate_others
invalidate_others-AreStateless project [] = tt
invalidate_others-AreStateless project (o ∷ rest) = (
  invalidated_other project o (attached_to project o.attached) refl,
  invalidate_others-AreStateless project rest,
)

module _ (env : Environment) (questions : Questions) (listings : Listings) where
  IsEnded : Outcome Response → Type 0
  IsEnded (r, w) =
      (e : Error)
      → r ≡ err (failed e)
      → invalidates_pet_epoch e.kind ≡ true
      → IsStateless w.book × AreStateless w.project w.others

  lost_epoch :
      (error : Error) (w w' : World) (ends : Bool)
      → invalidates_pet_epoch error.kind ≡ ends
      → IsEnded (
          if ends
          then (err (failed error), invalidate_project_states w')
          else (err (failed error), w))
  unfolding IsEnded invalidate_project_states
  lost_epoch error w w' true at e failing lost =
      (invalidate_states-IsStateless w'.book, invalidate_others-AreStateless w'.project w'.others)
  lost_epoch error w w' false at e failing lost =
      let same : error ≡ e = cc in
      absurd (cc (sym at ∙ ap (λ (x : Error). invalidates_pet_epoch x.kind) same ∙ lost))

  ended-IsEnded : (r : Outcome Response) → IsEnded (ended env questions listings r)
  unfolding ended IsEnded
  ended-IsEnded (ok response, w) = λ e failing lost. absurd (cc failing)
  ended-IsEnded (err panicked, w) = λ e failing lost. absurd (cc failing)
  ended-IsEnded (err (failed error), w) =
      lost_epoch error w (if is_cancellation error.kind then restart w else w)
        (invalidates_pet_epoch error.kind) refl

-- Where a tool that has been admitted fails with a loss of PET, a timeout or a cancellation, no
-- checkpoint of the session, and of no other session that is attached to the same project, still
-- names a state of PET.
pub serve-IsStateless :
    (env : Environment) (questions : Questions) (listings : Listings) (name : String) (args : Value)
    (w : World) (e : Error)
    → (serve env questions listings name args w).0 ≡ err (failed e)
    → invalidates_pet_epoch e.kind ≡ true
    → IsStateless (serve env questions listings name args w).1.book
      × AreStateless
          (serve env questions listings name args w).1.project
          (serve env questions listings name args w).1.others
unfolding serve IsEnded
serve-IsStateless env questions listings name args w =
    ended-IsEnded env questions listings (dispatch_attached env questions listings name args w)
