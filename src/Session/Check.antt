-- ===== src/Session/Check.antt =====
-- `check` of crates/rocq-mcp/src/adapter.rs: the first fragment that PET accepts makes a checkpoint,
-- and one that finishes the proof is published.
use rocq_mcp.Prelude.{
  ℕ, suc, Bool, true, false, not, Option, none, some, List, [], ◌∷◌, ◌++◌, if◌then◌else◌, Result,
  ok, err, map_err, and_then,
}
use rocq_mcp.Types.{Text, ProofState}
use rocq_mcp.Types.Json.{Value}
use rocq_mcp.Errors.{Error, ErrorKind, declaration_changed}
use rocq_mcp.Errors.Public.{invalidates_pet_epoch}
use rocq_mcp.Paging.{bounded_checkpoint_view}
use rocq_mcp.Checkpoint.{CheckpointId, CheckpointBook, Checked, commit, find, clear, fragments}
use rocq_mcp.Replay.{ProofStep}
use rocq_mcp.Replay.Install.{checkpoint_error}
use rocq_mcp.Writeback.{Target}
use rocq_mcp.Arguments.{Settings, settings}
use rocq_mcp.Progress.{is_cancellation}
use rocq_mcp.Session.{
  Environment, World, Outcome, Stop, failed, panicked, Fingerprint, TracedProofStep, success,
  failure, tick, invalidate_project_states, commit_or_cancelled, release_states, run_traced,
  ensure_current_state,
}
use rocq_mcp.Session.Artifacts.{record_artifact, forget_artifact}
use rocq_mcp.Session.Attempt.{Rejection, refused, timed_out, is_timeout, Base, prepare_base}

-- `selected_result`, `selected_error`, and the answer where no fragment was accepted.
pub data Answer : Type 0 where
  selected : ℕ → ProofState → Option CheckpointId → Option ℕ → List Rejection → Answer
  selected_error : ℕ → ProofState → Option CheckpointId → Option ℕ → List Rejection → Error → Answer
  none_selected : ProofState → CheckpointId → Option ℕ → List Rejection → Answer

-- A step of the loop ends it, or goes on with one more rejection.
pub data Verdict : Type 0 where
  answers : Answer → Verdict
  rejects : Rejection → Verdict

abbrev pub is_changed : ErrorKind → Bool
is_changed declaration_changed = true
is_changed _ = false

abbrev pub kept_view : Bool → ProofState → ProofState
kept_view true view = view
kept_view false view = record view { structured_goals = none }

abbrev pub clear_book : World → World
clear_book w = record w { book = (clear w.book).1 }

-- The fragments of the finished path; `none` would be a path without end.
abbrev pub path_fragments : Option (Checked (List Text)) → Result Stop (List Text)
path_fragments none = err panicked
path_fragments (some (err e)) = err (failed (checkpoint_error e))
path_fragments (some (ok texts)) = ok texts

module _ (env : Environment) where
  unfoldable pub close_result : ProofStep → World → Option Error × World
  close_result step w =
      if step.finished
      then (
        elim (env.close_proof w.pet.clock step.state) [ ok done ↦ none | err e ↦ some e ],
        tick w,
      )
      else (none, w)

  unfoldable pub renewed_artifact : Target → Result Error Fingerprint → World → World
  renewed_artifact target (ok built) w = record w {
    artifacts = record_artifact target.info.identity.file built w.artifacts;
  }
  renewed_artifact target (err e) w = record w {
    artifacts = forget_artifact target.info.identity.file w.artifacts;
  }

  unfoldable pub published_answer :
      Target
      → ℕ
      → ProofState
      → CheckpointId
      → Option ℕ
      → List Rejection
      → Result Error ProofState
      → World
      → Outcome Verdict
  unfolding renewed_artifact
  published_answer target index view id offset rejections (ok state) w = (
    ok (answers (selected index state none none rejections)),
    clear_book (
        renewed_artifact target (env.artifact_fingerprint w.pet.clock target.info.identity.file)
          (tick w)),
  )
  published_answer target index view id offset rejections (err error) w =
      let w' = record w { artifacts = forget_artifact target.info.identity.file w.artifacts } in
      if is_changed error.kind
      then (ok (answers (selected_error index view none offset rejections error)), clear_book w')
      else (ok (answers (selected_error index view (some id) offset rejections error)), w')

  abbrev pub begun : Bool → World → World
  begun true w = invalidate_project_states w
  begun false w = w

  unfoldable pub publish_path :
      Target → ℕ → ProofState → CheckpointId → Option ℕ → List Rejection → World → Outcome Verdict
  unfolding published_answer
  publish_path target index view id offset rejections w =
      and_then (path_fragments (fragments id w.book), w)
        λ texts w1.
          let publication = env.publish w1.pet.clock texts in
          published_answer target index view id offset rejections publication.answer
            (begun publication.began (tick w1))

  unfoldable pub after_commit :
      Settings
      → Target
      → ℕ
      → ProofStep
      → Option Error
      → Option ℕ
      → List Rejection
      → Checked CheckpointId × World
      → Outcome Verdict
  unfolding release_states publish_path
  after_commit s target index step close_error offset rejections (err e, w) =
      and_then (release_states env (step.state ∷ []) w)
        (λ _ w'. (err (failed (checkpoint_error e)), w'))
  after_commit s target index step (some error) offset rejections (ok id, w) = (
    ok (answers (selected_error index step.view (some id) offset rejections error)),
    begun (invalidates_pet_epoch error.kind) w,
  )
  after_commit s target index step none offset rejections (ok id, w) =
      if not step.finished
      then (ok (answers (selected index step.view (some id) offset rejections)), w)
      else publish_path target index step.view id offset rejections w

  abbrev pub committed_world :
      Checked CheckpointId × CheckpointBook Target → World → Checked CheckpointId × World
  committed_world (result, book) w = (result, record w { book = book })

  unfoldable pub accept_step :
      Settings
      → Target
      → ℕ
      → Text
      → ProofStep
      → Option ℕ
      → List Rejection
      → Option Error × World
      → Outcome Verdict
  unfolding commit_or_cancelled after_commit
  accept_step s target index fragment step offset rejections (close_error, w) =
      if elim close_error [ none ↦ false | some e ↦ is_cancellation e.kind ]
      then (elim close_error [ none ↦ err panicked | some e ↦ err (failed e) ], w)
      else and_then (commit_or_cancelled env w) λ _ w1.
        after_commit s target index step close_error offset rejections (
          committed_world
            (commit step.state fragment step.finished (kept_view s.include_structured step.view)
              offset w1.book)
            w1)

  unfoldable pub judge :
      Settings
      → Target
      → ℕ
      → Text
      → List Rejection
      → Result Error TracedProofStep × World
      → Outcome Verdict
  unfolding accept_step close_result
  judge s target index fragment rejections (ok (success step), w) =
      let (view, offset) = bounded_checkpoint_view step.view in
      let bounded = record step { view = view } in
      accept_step s target index fragment bounded offset rejections (close_result bounded w)
  judge s target index fragment rejections (ok (failure f), w) = (ok (rejects (refused f)), w)
  judge s target index fragment rejections (err error, w) =
      if is_timeout error.kind
      then (ok (rejects (timed_out error)), invalidate_project_states w)
      else (err (failed error), w)

  unfoldable pub no_selection : Settings → Base → List Rejection → World → Outcome Answer
  no_selection s base rejections w =
      and_then (map_err (λ e. failed (checkpoint_error e)) (find base.id w.book), w)
        λ checkpoint w1.
          let view =
            if s.include_structured
            then record checkpoint.view { structured_goals = base.view.structured_goals }
            else checkpoint.view in
          (ok (none_selected view base.id checkpoint.goals_next_offset rejections), w1)

  -- Ends with the answer of a fragment, or goes on with `rest`.
  abbrev pub continue : Outcome Verdict → (Rejection → World → Outcome Answer) → Outcome Answer
  continue (ok (answers a), w) k = (ok a, w)
  continue (ok (rejects r), w) k = k r w
  continue (err e, w) k = (err e, w)

  unfoldable pub check_all :
      Settings → Base → ℕ → List Rejection → List Text → World → Outcome Answer
  unfolding ensure_current_state run_traced judge no_selection
  check_all s base index rejections [] w = no_selection s base rejections w
  check_all s base index rejections (fragment ∷ rest) w =
      continue
        (and_then (ensure_current_state env w) (λ found w'.
          judge s base.target index fragment rejections (run_traced env found.1 fragment w')))
        (λ r w'. check_all s base (suc index) (rejections ++ r ∷ []) rest w')

  unfoldable pub check : Value → World → Outcome Answer
  unfolding prepare_base check_all
  check args w =
      and_then (map_err failed (settings args), w)
        λ s w1. and_then (prepare_base env w1) λ base w2. check_all s base 0 [] s.fragments w2
