-- ===== src/Session/Live.antt =====
-- When `check` of crates/rocq-mcp/src/adapter.rs selects a fragment.
use rocq_mcp.Prelude.{
  ℕ, suc, ◌+◌, ◌<◌, ◌≡◌, refl, ap, ◌∙◌, Bool, true, false, Option, none, some, List, [], ◌∷◌, ◌++◌,
  length, All, arith, lt→ltb, Result, ok, err, and_then,
}
use rocq_mcp.Types.{Text, PetStateId, ProofState}
use rocq_mcp.Errors.{Error}
use rocq_mcp.Paging.{bounded_checkpoint_view}
use rocq_mcp.Checkpoint.{
  CheckpointId, Checkpoint, CheckpointBook, ProofSession, Checked, u64_bound, current, commit,
  allocate,
}
use rocq_mcp.Replay.{ProofStep}
use rocq_mcp.Writeback.{Target}
use rocq_mcp.Arguments.{Settings, settings}
use rocq_mcp.Types.Json.{Value}
use rocq_mcp.Session.{
  ProofFailure, Environment, World, Outcome, TracedProofStep, success, failure, commit_or_cancelled,
  run_traced, taken_by, ensure_current_state, ensured, state_of, tick,
}
use rocq_mcp.Session.Attempt.{Rejection, refused as refuses, Base, prepare_base}
use rocq_mcp.Session.Check.{
  Answer, selected, Verdict, answers, rejects, close_result, kept_view, after_commit,
  committed_world, accept_step, judge, continue, check_all, check,
}

-- The answer that selects `step` and its checkpoint.
abbrev pub accepted : ℕ → CheckpointId → ProofStep → List Rejection → Answer
accepted index id step rejections =
    selected index (bounded_checkpoint_view step.view).0 (some id)
      (bounded_checkpoint_view step.view).1 rejections

module _ (env : Environment) (s : Settings) where
  commit-ok :
      (state : PetStateId) (text : Text) (finished : Bool) (view : ProofState) (offset : Option ℕ)
      (n : ℕ) (session : ProofSession Target)
      → n + 1 < u64_bound
      → (commit state text finished view offset (record { next = n; proof = some session })).0
        ≡ ok (n + 1)
  unfolding commit
  commit-ok state text finished view offset n session room =
      rw (lt→ltb (n + 1) u64_bound room, commit, allocate) refl

  room_for :
      (state : PetStateId) (text : Text) (finished : Bool) (view : ProofState) (offset : Option ℕ)
      (book : CheckpointBook Target) (id : CheckpointId) (c : Checkpoint)
      → current book ≡ ok (id, c)
      → book.next + 1 < u64_bound
      → (commit state text finished view offset book).0 ≡ ok (book.next + 1)
  unfolding current
  room_for state text finished view offset book id c at room = with_proof book.proof at
    where
      with_proof :
          (p : Option (ProofSession Target))
          → current (record book { proof = p }) ≡ ok (id, c)
          → (commit state text finished view offset (record book { proof = p })).0
            ≡ ok (book.next + 1)
      with_proof none k = absurd (cc k)
      with_proof (some session) k = commit-ok state text finished view offset book.next session room

  committed_answer :
      (target : Target) (index : ℕ) (step : ProofStep) (offset : Option ℕ)
      (rejections : List Rejection) (id : CheckpointId)
      (r : Checked CheckpointId × CheckpointBook Target) (w : World)
      → r.0 ≡ ok id
      → step.finished ≡ false
      → (after_commit env s target index step none offset rejections (committed_world env r w)).0
        ≡ ok (answers (selected index step.view (some id) offset rejections))
  unfolding after_commit
  committed_answer target index step offset rejections id (err e, book) w made unfinished =
      absurd (cc made)
  committed_answer target index step offset rejections id (ok new, book) w made unfinished =
      rw (unfinished) (
        let same : new ≡ id = cc in
        ap
          (λ (x : CheckpointId). ok (answers (selected index step.view (some x) offset rejections)))
          same)

  close_result-unfinished :
      (step : ProofStep) (w : World) → step.finished ≡ false → close_result env step w ≡ (none, w)
  unfolding close_result
  close_result-unfinished step w unfinished = rw (unfinished) refl

  accept_step-selected :
      (target : Target) (index : ℕ) (fragment : Text) (step : ProofStep) (offset : Option ℕ)
      (rejections : List Rejection) (w : World) (id : CheckpointId) (c : Checkpoint)
      → current w.book ≡ ok (id, c)
      → w.book.next + 1 < u64_bound
      → step.finished ≡ false
      → ((n : ℕ) → env.commit_request_at n ≡ true)
      → (accept_step env s target index fragment step offset rejections (none, w)).0
        ≡ ok (answers (selected index step.view (some (w.book.next + 1)) offset rejections))
  unfolding accept_step commit_or_cancelled
  accept_step-selected target index fragment step offset rejections w id c at room unfinished
        granted =
      rw (granted w.pet.clock) (
        committed_answer target index step offset rejections (w.book.next + 1)
          (commit step.state fragment step.finished (kept_view s.include_structured step.view)
            offset w.book)
          (tick w)
          (room_for step.state fragment step.finished (kept_view s.include_structured step.view)
            offset w.book id c at room)
          unfinished)

  judge-selected :
      (target : Target) (index : ℕ) (fragment : Text) (rejections : List Rejection)
      (step : ProofStep) (w : World) (id : CheckpointId) (c : Checkpoint)
      → current w.book ≡ ok (id, c)
      → w.book.next + 1 < u64_bound
      → step.finished ≡ false
      → ((n : ℕ) → env.commit_request_at n ≡ true)
      → (judge env s target index fragment rejections (ok (success step), w)).0
        ≡ ok (answers (accepted index (w.book.next + 1) step rejections))
  unfolding judge
  judge-selected target index fragment rejections step w id c at room unfinished granted =
      let bounded = record step { view = (bounded_checkpoint_view step.view).0 } in
      rw (close_result-unfinished bounded w unfinished) (
        accept_step-selected target index fragment bounded (bounded_checkpoint_view step.view).1
          rejections w id c at room unfinished granted)

  alive_state :
      (w : World) (id : CheckpointId) (c : Checkpoint) (state : PetStateId)
      → current w.book ≡ ok (id, c)
      → c.pet_state ≡ some state
      → ensure_current_state env w ≡ (ok (id, state), w)
  unfolding ensure_current_state ensured state_of
  alive_state w id c state at alive = rw (at, alive) refl

  ran :
      (w : World) (state : PetStateId) (text : Text) (r : Result Error TracedProofStep)
      → env.run_traced w.pet.clock state text ≡ r
      → run_traced env state text w ≡ (r, taken_by env r w)
  unfolding run_traced
  ran w state text r answered = ap (λ x. (x, taken_by env x w)) answered

  continue-answers :
      (v : Outcome Verdict) (k : Rejection → World → Outcome Answer) (a : Answer)
      → v.0 ≡ ok (answers a)
      → (continue env v k).0 ≡ ok a
  continue-answers (ok (answers b), w) k a h = let same : b ≡ a = cc in ap ok same
  continue-answers (ok (rejects r), w) k a h = absurd (cc h)
  continue-answers (err e, w) k a h = absurd (cc h)

  check_all-selected :
      (base : Base) (index : ℕ) (rejections : List Rejection) (before after : List Text)
      (fragment : Text) (step : ProofStep) (w : World) (id : CheckpointId) (c : Checkpoint)
      (state : PetStateId)
      → current w.book ≡ ok (id, c)
      → c.pet_state ≡ some state
      → w.book.next + 1 < u64_bound
      → All
          (λ text. (n : ℕ) → (f : ProofFailure) × (env.run_traced n state text ≡ ok (failure f)))
          before
      → ((n : ℕ) → env.run_traced n state fragment ≡ ok (success step))
      → step.finished ≡ false
      → ((n : ℕ) → env.commit_request_at n ≡ true)
      → (later : List Rejection) × ((check_all env s base index rejections
            (before ++ fragment ∷ after)
            w).0
          ≡ ok (accepted (index + length before) (w.book.next + 1) step later))
  unfolding check_all judge taken_by
  check_all-selected base index rejections [] after fragment step w id c state at alive room refused
        accepts unfinished granted =
      (
        rejections,
        continue-answers
              (and_then (ensure_current_state env w) (λ found w'.
                judge env s base.target index fragment rejections
                  (run_traced env found.1 fragment w')))
              _ (accepted index (w.book.next + 1) step rejections)
              (ap
                  (λ (r : Outcome (CheckpointId × PetStateId)).
                    (and_then r (λ found w'.
                      judge env s base.target index fragment rejections
                        (run_traced env found.1 fragment w'))).0)
                  (alive_state w id c state at alive)
                ∙ ap (λ r. (judge env s base.target index fragment rejections r).0)
                    (ran w state fragment (ok (success step)) (accepts w.pet.clock))
                ∙ judge-selected base.target index fragment rejections step
                    (taken_by env (ok (success step)) w) id c at room unfinished granted)
            ∙ ap (λ n. ok (accepted n (w.book.next + 1) step rejections)) (omega arith),
      )
  check_all-selected base index rejections (text ∷ before) after fragment step w id c state at alive
        room (refused, more) accepts unfinished granted =
      let (f, failing) = refused w.pet.clock in
      let (later, same) =
        check_all-selected base (suc index) (rejections ++ refuses f ∷ []) before after fragment
          step (tick w) id c state at alive room more accepts unfinished granted in
      (
        later,
        ap
              (λ (r : Outcome (CheckpointId × PetStateId)).
                (continue env
                  (and_then r (λ found w'.
                    judge env s base.target index text rejections (run_traced env found.1 text w')))
                  (λ r w'.
                    check_all env s base (suc index) (rejections ++ r ∷ [])
                      (before ++ fragment ∷ after) w')).0)
              (alive_state w id c state at alive)
            ∙ ap
                (λ x.
                  (continue env (judge env s base.target index text rejections x) (λ r w'.
                    check_all env s base (suc index) (rejections ++ r ∷ [])
                      (before ++ fragment ∷ after) w')).0)
                (ran w state text (ok (failure f)) failing)
            ∙ same
            ∙ ap (λ n. ok (accepted n (w.book.next + 1) step later)) (omega arith),
      )

-- Let a `check` have valid arguments, a base to begin from and a current checkpoint with a PET
-- state, no cancellation before a commit, and identifiers left. If PET refuses some fragments at
-- that state and accepts the one after them, without the proof being finished, then `check`
-- answers that this fragment is selected, with a new checkpoint.
pub check-selected :
    (env : Environment) (args : Value) (w : World) (s : Settings) (before after : List Text)
    (fragment : Text) (base : Base) (w1 : World) (id : CheckpointId) (c : Checkpoint)
    (state : PetStateId) (step : ProofStep)
    → settings args ≡ ok s
    → s.fragments ≡ before ++ fragment ∷ after
    → prepare_base env w ≡ (ok base, w1)
    → current w1.book ≡ ok (id, c)
    → c.pet_state ≡ some state
    → w1.book.next + 1 < u64_bound
    → All
        (λ text. (n : ℕ) → (f : ProofFailure) × (env.run_traced n state text ≡ ok (failure f)))
        before
    → ((n : ℕ) → env.run_traced n state fragment ≡ ok (success step))
    → step.finished ≡ false
    → ((n : ℕ) → env.commit_request_at n ≡ true)
    → (rejections : List Rejection) × ((check env args w).0
        ≡ ok (accepted (length before) (w1.book.next + 1) step rejections))
unfolding check
check-selected env args w s before after fragment base w1 id c state step valid texts prepared at
      alive room refused accepts unfinished granted =
    let (rejections, same) =
      check_all-selected env s base 0 [] before after fragment step w1 id c state at alive room
        refused accepts unfinished granted in
    let began : (check env args w).0 ≡ (check_all env s base 0 [] s.fragments w1).0 =
      rw (valid, prepared) refl in
    (
      rejections,
      began
          ∙ ap (λ t. (check_all env s base 0 [] t w1).0) texts
          ∙ (same ∙ ap (λ n. ok (accepted n (w1.book.next + 1) step rejections)) (omega arith)),
    )
