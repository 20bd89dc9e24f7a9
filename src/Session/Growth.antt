-- ===== src/Session/Growth.antt =====
-- What `check` of crates/rocq-mcp/src/adapter.rs does to the checkpoints of its session.
use rocq_mcp.Prelude.{
  ℕ, suc, ◌+◌, ◌≡◌, refl, sym, ap, ◌∙◌, subst, inl, inr, Bool, true, false, not, Option, none, some,
  List, [], ◌∷◌, ◌++◌, Result, ok, err, map_err, and_then-ends, if-keeps, if-ends, get_elem?, arith,
}
use rocq_mcp.Types.{Text, ProofState}
use rocq_mcp.Types.Json.{Value}
use rocq_mcp.Errors.{Error}
use rocq_mcp.Errors.Public.{invalidates_pet_epoch}
use rocq_mcp.Paging.{bounded_checkpoint_view}
use rocq_mcp.Checkpoint.{CheckpointId, CheckpointBook, Checked, commit, find, clear, fragments}
use rocq_mcp.Checkpoint.Alike.{Alike, Alike-refl, Alike-trans, invalidate_states-Alike}
use rocq_mcp.Replay.{ProofStep}
use rocq_mcp.Replay.Install.{checkpoint_error}
use rocq_mcp.Writeback.{Target}
use rocq_mcp.Arguments.{Settings, settings}
use rocq_mcp.Progress.{is_cancellation}
use rocq_mcp.Session.{
  Environment, World, Outcome, failed, Fingerprint, TracedProofStep, success, failure, tick,
  invalidate_project_states, commit_or_cancelled, release_states, run_traced, ensure_current_state,
}
use rocq_mcp.Session.Attempt.{Rejection, is_timeout, Base, prepare_base}
use rocq_mcp.Session.Check.{
  Answer, Verdict, answers, rejects, is_changed, kept_view, path_fragments, close_result,
  renewed_artifact, published_answer, begun, publish_path, after_commit, accept_step, judge,
  no_selection, continue, check_all, check,
}
use rocq_mcp.Session.Alike.{
  Keeps, commit_or_cancelled-Keeps, taken_by-Keeps, ensure_current_state-Keeps, prepare_base-Keeps,
}
use rocq_mcp.Session.Grown.{IsAtMostGrown, GrownBy, Effect, Grown-Alike, Grown-IsAtMostGrown}

module _ (env : Environment) (b : CheckpointBook Target) (texts : List Text) where
  -- The same of one round of the loop.
  VerdictEffect : Outcome Verdict → Type 0
  VerdictEffect (ok (answers a), w) = Effect b texts (ok a) w.book
  VerdictEffect (ok (rejects r), w) = Alike b w.book
  VerdictEffect (err stop, w) = IsAtMostGrown b w.book

  begun-Alike : (flag : Bool) (w : World) → Alike w.book (begun env flag w).book
  unfolding invalidate_project_states
  begun-Alike true w = invalidate_states-Alike w.book
  begun-Alike false w = Alike-refl w.book

  renewed_artifact-book :
      (target : Target) (r : Result Error Fingerprint) (w : World)
      → (renewed_artifact env target r w).book ≡ w.book
  unfolding renewed_artifact
  renewed_artifact-book target (ok built) w = refl
  renewed_artifact-book target (err e) w = refl

  published_answer-Effect :
      (target : Target) (index : ℕ) (view : ProofState) (id : CheckpointId) (offset : Option ℕ)
      (rejections : List Rejection) (r : Result Error ProofState) (w : World)
      → GrownBy b texts index id w.book
      → VerdictEffect (published_answer env target index view id offset rejections r w)
  unfolding published_answer VerdictEffect
  published_answer-Effect target index view id offset rejections (ok state) w g = (
    id,
    (
      w.book,
      (
        g,
        ap (λ (x : CheckpointBook Target). (clear x).1)
            (renewed_artifact-book target
              (env.artifact_fingerprint w.pet.clock target.info.identity.file) (tick w)),
      ),
    ),
  )
  published_answer-Effect target index view id offset rejections (err e) w g =
      if-ends VerdictEffect (is_changed e.kind) _ _ (id, (w.book, (g, refl))) g

  publish_path-Effect :
      (target : Target) (index : ℕ) (view : ProofState) (id : CheckpointId) (offset : Option ℕ)
      (rejections : List Rejection) (w : World)
      → GrownBy b texts index id w.book
      → VerdictEffect (publish_path env target index view id offset rejections w)
  unfolding publish_path VerdictEffect
  publish_path-Effect target index view id offset rejections w g =
      and_then-ends (λ (w' : World). GrownBy b texts index id w'.book) VerdictEffect
        (path_fragments (fragments id w.book), w) _ g (λ e w' g'. Grown-IsAtMostGrown g'.2)
        (λ path w' g'.
          published_answer-Effect target index view id offset rejections
            (env.publish w'.pet.clock path).answer
            (begun env (env.publish w'.pet.clock path).began (tick w'))
            (
              g'.0,
              g'.1,
              Grown-Alike g'.2 (begun-Alike (env.publish w'.pet.clock path).began (tick w')),
            ))

  after_commit-Effect :
      (s : Settings) (target : Target) (index : ℕ) (fragment : Text) (step : ProofStep)
      (close_error : Option Error) (offset : Option ℕ) (view : ProofState)
      (rejections : List Rejection) (r : Checked CheckpointId) (w : World)
      → get_elem? texts index ≡ some fragment
      → (base : CheckpointBook Target) → Alike b base
      → (commit step.state fragment step.finished view offset base).0 ≡ r
      → (commit step.state fragment step.finished view offset base).1 ≡ w.book
      → VerdictEffect (after_commit env s target index step close_error offset rejections (r, w))
  unfolding after_commit VerdictEffect release_states
  after_commit-Effect s target index fragment step close_error offset view rejections (err e) w
        at_index base h answered left =
      and_then-ends (λ (w' : World). IsAtMostGrown b w'.book) VerdictEffect
        (release_states env (step.state ∷ []) w) _
        (inr (
          base,
          h,
          (
            step.state,
            (fragment, (step.finished, (view, (offset, subst (Alike _) left (Alike-refl _))))),
          ),
        ))
        (λ e' w' h'. h') (λ _ w' h'. h')
  after_commit-Effect s target index fragment step (some error) offset view rejections (ok id) w
        at_index base h answered left =
      (
        fragment,
        at_index,
        Grown-Alike
            (record {
              base = base;
              alike = h;
              state = step.state;
              finished = step.finished;
              view = view;
              offset = offset;
              committed = answered;
              kept = subst (Alike _) left (Alike-refl _);
            })
            (begun-Alike (invalidates_pet_epoch error.kind) w),
      )
  after_commit-Effect s target index fragment step none offset view rejections (ok id) w at_index
        base h answered left =
      let grown : GrownBy b texts index id w.book = (
        fragment,
        at_index,
        record {
          base = base;
          alike = h;
          state = step.state;
          finished = step.finished;
          view = view;
          offset = offset;
          committed = answered;
          kept = subst (Alike _) left (Alike-refl _);
        },
      ) in
      if-ends VerdictEffect (not step.finished) _ _ grown
        (publish_path-Effect target index step.view id offset rejections w grown)

  accept_step-Effect :
      (s : Settings) (target : Target) (index : ℕ) (fragment : Text) (step : ProofStep)
      (offset : Option ℕ) (rejections : List Rejection) (close_error : Option Error) (w : World)
      → get_elem? texts index ≡ some fragment
      → Alike b w.book
      → VerdictEffect
          (accept_step env s target index fragment step offset rejections (close_error, w))
  unfolding accept_step VerdictEffect Keeps
  accept_step-Effect s target index fragment step offset rejections none w at_index h =
      and_then-ends (Keeps env b) VerdictEffect (commit_or_cancelled env w) _
        (commit_or_cancelled-Keeps env b w h) (λ e w' h'. inl h')
        λ _ w1 h1.
          after_commit-Effect s target index fragment step none offset
            (kept_view s.include_structured step.view) rejections
            (commit step.state fragment step.finished (kept_view s.include_structured step.view)
              offset w1.book).0
            (record w1 {
              book =
                  (commit step.state fragment step.finished
                    (kept_view s.include_structured step.view) offset w1.book).1;
            })
            at_index w1.book h1 refl refl
  accept_step-Effect s target index fragment step offset rejections (some error) w at_index h =
      if-ends VerdictEffect (is_cancellation error.kind) _ _ (inl h) (
        and_then-ends (Keeps env b) VerdictEffect (commit_or_cancelled env w) _
          (commit_or_cancelled-Keeps env b w h) (λ e w' h'. inl h')
          λ _ w1 h1.
            after_commit-Effect s target index fragment step (some error) offset
              (kept_view s.include_structured step.view) rejections
              (commit step.state fragment step.finished (kept_view s.include_structured step.view)
                offset w1.book).0
              (record w1 {
                book =
                    (commit step.state fragment step.finished
                      (kept_view s.include_structured step.view) offset w1.book).1;
              })
              at_index w1.book h1 refl refl)

  close_result-book :
      (step : ProofStep) (w : World) → Alike b w.book → Alike b (close_result env step w).1.book
  unfolding close_result
  close_result-book step w h = if-keeps (λ (w' : World). Alike b w'.book) step.finished _ _ h h

  judge-Effect :
      (s : Settings) (target : Target) (index : ℕ) (fragment : Text) (rejections : List Rejection)
      (r : Result Error TracedProofStep) (w : World)
      → get_elem? texts index ≡ some fragment
      → Alike b w.book
      → VerdictEffect (judge env s target index fragment rejections (r, w))
  unfolding judge VerdictEffect
  judge-Effect s target index fragment rejections (ok (success step)) w at_index h =
      let bounded = record step { view = (bounded_checkpoint_view step.view).0 } in
      accept_step-Effect s target index fragment bounded (bounded_checkpoint_view step.view).1
        rejections (close_result env bounded w).0 (close_result env bounded w).1 at_index
        (close_result-book bounded w h)
  judge-Effect s target index fragment rejections (ok (failure f)) w at_index h = h
  judge-Effect s target index fragment rejections (err e) w at_index h =
      if-ends VerdictEffect (is_timeout e.kind) _ _ (Alike-trans h (begun-Alike true w)) (inl h)

  AnswerEffect : Outcome Answer → Type 0
  AnswerEffect (r, w) = Effect b texts r w.book

  no_selection-Effect :
      (s : Settings) (base : Base) (rejections : List Rejection) (w : World)
      → Alike b w.book
      → AnswerEffect (no_selection env s base rejections w)
  unfolding no_selection AnswerEffect
  no_selection-Effect s base rejections w h =
      and_then-ends (λ (w' : World). Alike b w'.book) AnswerEffect
        (map_err (λ e. failed (checkpoint_error e)) (find base.id w.book), w) _ h
        (λ e w' h'. inl h') (λ c w' h'. h')

  continue-Effect :
      (v : Outcome Verdict) (k : Rejection → World → Outcome Answer)
      → VerdictEffect v
      → ((r : Rejection) (w : World) → Alike b w.book → AnswerEffect (k r w))
      → AnswerEffect (continue env v k)
  unfolding VerdictEffect AnswerEffect
  continue-Effect (ok (answers a), w) k h goes = h
  continue-Effect (ok (rejects r), w) k h goes = goes r w h
  continue-Effect (err e, w) k h goes = h

  check_all-Effect :
      (s : Settings) (base : Base) (index : ℕ) (rejections : List Rejection) (rest : List Text)
      (w : World)
      → ((i : ℕ) → get_elem? rest i ≡ get_elem? texts (index + i))
      → Alike b w.book
      → AnswerEffect (check_all env s base index rejections rest w)
  unfolding check_all run_traced VerdictEffect Keeps
  check_all-Effect s base index rejections [] w aligned h =
      no_selection-Effect s base rejections w h
  check_all-Effect s base index rejections (fragment ∷ rest) w aligned h =
      continue-Effect _ _
        (and_then-ends (Keeps env b) VerdictEffect (ensure_current_state env w) _
          (ensure_current_state-Keeps env b w h) (λ e w' h'. inl h')
          λ found w' h'.
            judge-Effect s base.target index fragment rejections
              (env.run_traced w'.pet.clock found.1 fragment) _
              (ap (get_elem? texts) (omega arith) ∙ sym (aligned 0))
              (taken_by-Keeps env b (env.run_traced w'.pet.clock found.1 fragment) w' h'))
        (λ r w' h'.
          check_all-Effect s base (suc index) (rejections ++ r ∷ []) rest w'
            (λ i. aligned (suc i) ∙ ap (get_elem? texts) (omega arith)) h')

-- A `check` whose arguments are accepted, with its fragments: where it answers that a fragment is
-- selected with a checkpoint, exactly one commit separates the books up to PET states and views,
-- and it is the commit of the fragment of that index, on the checkpoint that was current, and it
-- answered that identifier; where it is selected without one, the same commit has been made and then the
-- proof is gone, which is all that publication changes here; where none is selected, the history and the selection are as they were; and where it
-- fails, at most one commit has been made.
pub check-Effect :
    (env : Environment) (args : Value) (w : World) (s : Settings)
    → settings args ≡ ok s
    → Effect w.book s.fragments (check env args w).0 (check env args w).1.book
unfolding check AnswerEffect Keeps
check-Effect env args w s accepted = rw (accepted) (
    and_then-ends (Keeps env w.book) (AnswerEffect env w.book s.fragments) (prepare_base env w) _
      (prepare_base-Keeps env w.book w (Alike-refl w.book)) (λ e w' h'. inl h')
      λ base w' h'.
        check_all-Effect env w.book s.fragments s base 0 [] s.fragments w'
          (λ i. ap (get_elem? s.fragments) (omega arith)) h')
