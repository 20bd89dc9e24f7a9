-- ===== src/Session/Order.antt =====
-- In which order `check` and `try` of crates/rocq-mcp/src/adapter.rs go through the fragments.
use rocq_mcp.Prelude.{
  ℕ, suc, ◌≡◌, refl, ap, ◌∙◌, not, true, Option, none, some, List, [], ◌∷◌, ◌++◌, Result, ok, err,
  map_err, sym, subst, append-nil, append_assoc, and_then, and_then-ends, and_then-answers, if-ends,
  if-answers, length, length-append, arith,
}
use rocq_mcp.Types.{Text, PetStateId, ProofState}
use rocq_mcp.Types.Json.{Value}
use rocq_mcp.Errors.{Error}
use rocq_mcp.Paging.{bounded_checkpoint_view}
use rocq_mcp.Checkpoint.{CheckpointId, Checked, find, fragments}
use rocq_mcp.Replay.{ProofStep}
use rocq_mcp.Replay.Install.{checkpoint_error}
use rocq_mcp.Writeback.{Target}
use rocq_mcp.Arguments.{Settings, settings}
use rocq_mcp.Progress.{is_cancellation}
use rocq_mcp.Session.{
  Environment, World, Outcome, Stop, failed, TracedProofStep, success, failure, tick,
  commit_or_cancelled, release_states, run_traced, ensure_current_state,
}
use rocq_mcp.Session.Attempt.{
  Rejection, refused, timed_out, Tried, Base, prepare_base, is_timeout, try_one, try_all,
  try_fragments,
}
use rocq_mcp.Session.Check.{
  Answer, selected, selected_error, none_selected, Verdict, answers, rejects, is_changed,
  path_fragments, close_result, published_answer, begun, publish_path, after_commit, accept_step,
  judge, no_selection, continue, check_all, check,
}

-- PET refused the fragment, or did not answer in time.
abbrev pub Refusal : Environment → Text → Rejection → Type 0
Refusal env fragment (refused f) =
    (n : ℕ) × (state : PetStateId) × (env.run_traced n state fragment ≡ ok (failure f))
Refusal env fragment (timed_out e) =
    (n : ℕ) × (state : PetStateId) × (env.run_traced n state fragment ≡ err e)
    × (is_timeout e.kind ≡ true)

-- One refusal for each fragment, in their order.
abbrev pub Refusals : Environment → List Text → List Rejection → Type 0
Refusals env [] rejections = rejections ≡ []
Refusals env (fragment ∷ rest) rejections =
    (r : Rejection) × (more : List Rejection) × (rejections ≡ r ∷ more)
    × Refusal env fragment r
    × Refusals env rest more

-- PET accepted the fragment.
abbrev pub Accepted : Environment → Text → Type 0
Accepted env fragment =
    (n : ℕ) × (state : PetStateId) × (step : ProofStep) × (env.run_traced n state fragment
      ≡ ok (success step))

-- The fragment of `index` was accepted, and `rejections` are those of the fragments before it.
abbrev pub IsFirst : Environment → List Text → ℕ → List Rejection → Type 0
IsFirst env texts index rejections =
    (before : List Text) × (fragment : Text) × (after : List Text) × (texts
      ≡ before ++ fragment ∷ after)
    × (length before ≡ index)
    × Refusals env before rejections
    × Accepted env fragment

abbrev pub IsInOrder : Environment → List Text → Result Stop Answer → Type 0
IsInOrder env texts (ok (selected index view id offset rejections)) =
    IsFirst env texts index rejections
IsInOrder env texts (ok (selected_error index view id offset rejections error)) =
    IsFirst env texts index rejections
IsInOrder env texts (ok (none_selected view id offset rejections)) = Refusals env texts rejections
IsInOrder env texts (err stop) = Unit

Refusals-snoc :
    (env : Environment) (before : List Text) (rejections : List Rejection) (fragment : Text)
    (r : Rejection)
    → Refusals env before rejections
    → Refusal env fragment r
    → Refusals env (before ++ fragment ∷ []) (rejections ++ r ∷ [])
Refusals-snoc env [] rejections fragment r bare h = (r, [], ap (λ l. l ++ r ∷ []) bare, h, refl)
Refusals-snoc env (x ∷ before) rejections fragment r (first, more, split, was, rest) h = (
  first,
  more ++ r ∷ [],
  ap (λ l. l ++ r ∷ []) split,
  was,
  Refusals-snoc env before more fragment r rest h,
)

module _ (env : Environment) (texts : List Text) where
  InOrder : Outcome Answer → Type 0
  InOrder (r, w) = IsInOrder env texts r

  -- What is found of one fragment.
  VerdictInOrder : Text → Outcome Verdict → Type 0
  VerdictInOrder fragment (ok (answers a), w) = IsInOrder env texts (ok a)
  VerdictInOrder fragment (ok (rejects r), w) = Refusal env fragment r
  VerdictInOrder fragment (err e, w) = Unit

  module _ (index : ℕ) (rejections : List Rejection) (fragment : Text)
      (first : IsFirst env texts index rejections) where
    published_answer-InOrder :
        (target : Target) (view : ProofState) (id : CheckpointId) (offset : Option ℕ)
        (r : Result Error ProofState) (w : World)
        → VerdictInOrder fragment (published_answer env target index view id offset rejections r w)
    unfolding published_answer VerdictInOrder
    published_answer-InOrder target view id offset (ok state) w = first
    published_answer-InOrder target view id offset (err e) w =
        if-ends (VerdictInOrder fragment) (is_changed e.kind) _ _ first first

    publish_path-InOrder :
        (target : Target) (view : ProofState) (id : CheckpointId) (offset : Option ℕ) (w : World)
        → VerdictInOrder fragment (publish_path env target index view id offset rejections w)
    unfolding publish_path VerdictInOrder
    publish_path-InOrder target view id offset w =
        and_then-answers (VerdictInOrder fragment) (path_fragments (fragments id w.book)) w _
          (λ e _. tt)
          λ path _.
            published_answer-InOrder target view id offset (env.publish w.pet.clock path).answer
              (begun env (env.publish w.pet.clock path).began (tick w))

    after_commit-InOrder :
        (s : Settings) (target : Target) (step : ProofStep) (close_error : Option Error)
        (offset : Option ℕ) (r : Checked CheckpointId) (w : World)
        → VerdictInOrder fragment
            (after_commit env s target index step close_error offset rejections (r, w))
    unfolding after_commit VerdictInOrder
    after_commit-InOrder s target step close_error offset (err e) w =
        and_then-ends (λ (w' : World). Unit {0}) (VerdictInOrder fragment)
          (release_states env (step.state ∷ []) w) _ tt (λ e' w' h'. tt) (λ _ w' h'. tt)
    after_commit-InOrder s target step (some error) offset (ok id) w = first
    after_commit-InOrder s target step none offset (ok id) w =
        if-ends (VerdictInOrder fragment) (not step.finished) _ _ first
          (publish_path-InOrder target step.view id offset w)

    accept_step-InOrder :
        (s : Settings) (target : Target) (step : ProofStep) (offset : Option ℕ)
        (close_error : Option Error) (w : World)
        → VerdictInOrder fragment
            (accept_step env s target index fragment step offset rejections (close_error, w))
    unfolding accept_step VerdictInOrder
    accept_step-InOrder s target step offset none w =
        and_then-ends (λ (w' : World). Unit {0}) (VerdictInOrder fragment)
          (commit_or_cancelled env w) _ tt (λ e w' h'. tt)
          (λ _ w1 _. after_commit-InOrder s target step none offset _ _)
    accept_step-InOrder s target step offset (some error) w =
        if-ends (VerdictInOrder fragment) (is_cancellation error.kind) _ _ tt (
          and_then-ends (λ (w' : World). Unit {0}) (VerdictInOrder fragment)
            (commit_or_cancelled env w) _ tt (λ e w' h'. tt)
            (λ _ w1 _. after_commit-InOrder s target step (some error) offset _ _))

  judge-InOrder :
      (index : ℕ) (rejections : List Rejection) (before : List Text) (fragment : Text)
      (after : List Text) (s : Settings) (target : Target) (n : ℕ) (state : PetStateId)
      (r : Result Error TracedProofStep) (w : World)
      → texts ≡ before ++ fragment ∷ after
      → length before ≡ index
      → Refusals env before rejections
      → env.run_traced n state fragment ≡ r
      → VerdictInOrder fragment (judge env s target index fragment rejections (r, w))
  unfolding judge VerdictInOrder
  judge-InOrder index rejections before fragment after s target n state (ok (success step)) w whole
        placed each ran =
      let bounded = record step { view = (bounded_checkpoint_view step.view).0 } in
      accept_step-InOrder index rejections fragment
        (before, fragment, after, whole, placed, each, (n, state, step, ran)) s target bounded
        (bounded_checkpoint_view step.view).1 (close_result env bounded w).0
        (close_result env bounded w).1
  judge-InOrder index rejections before fragment after s target n state (ok (failure f)) w whole
        placed each ran =
      (n, state, ran)
  judge-InOrder index rejections before fragment after s target n state (err e) w whole placed each
        ran =
      if-answers (VerdictInOrder fragment) (is_timeout e.kind) _ _ (λ late. (n, state, ran, late))
        (λ _. tt)

  continue-InOrder :
      (fragment : Text) (v : Outcome Verdict) (k : Rejection → World → Outcome Answer)
      → VerdictInOrder fragment v
      → ((r : Rejection) (w : World) → Refusal env fragment r → InOrder (k r w))
      → InOrder (continue env v k)
  unfolding VerdictInOrder InOrder
  continue-InOrder fragment (ok (answers a), w) k h goes = h
  continue-InOrder fragment (ok (rejects r), w) k h goes = goes r w h
  continue-InOrder fragment (err e, w) k h goes = tt

  check_all-InOrder :
      (s : Settings) (base : Base) (index : ℕ) (rejections : List Rejection) (before : List Text)
      (rest : List Text) (w : World)
      → texts ≡ before ++ rest
      → length before ≡ index
      → Refusals env before rejections
      → InOrder (check_all env s base index rejections rest w)
  unfolding check_all no_selection run_traced InOrder VerdictInOrder
  check_all-InOrder s base index rejections before [] w whole placed each =
      and_then-answers InOrder (map_err (λ e. failed (checkpoint_error e)) (find base.id w.book)) w
        _ (λ e _. tt)
        (λ c _. subst (λ l. Refusals env l rejections) (sym (whole ∙ append-nil before)) each)
  check_all-InOrder s base index rejections before (fragment ∷ rest) w whole placed each =
      continue-InOrder fragment _ _
        (and_then-ends (λ (w' : World). Unit {0}) (VerdictInOrder fragment)
          (ensure_current_state env w) _ tt (λ e w' h'. tt)
          (λ found w' _.
            judge-InOrder index rejections before fragment rest s base.target w'.pet.clock found.1 _
              _ whole placed each refl))
        (λ r w' h.
          check_all-InOrder s base (suc index) (rejections ++ r ∷ []) (before ++ fragment ∷ []) rest
            w' (whole ∙ sym (append_assoc before (fragment ∷ []) rest))
            (omega (arith, length-append before (fragment ∷ [])))
            (Refusals-snoc env before rejections fragment r each h))

-- There is an entry for each of `count` fragments.
abbrev pub HasEach : ℕ → Result Stop (List Tried) → Type 0
HasEach count (ok entries) = length entries ≡ count
HasEach count (err stop) = Unit

module _ (env : Environment) where
  AllTried : List Text → Outcome (List Tried) → Type 0
  AllTried texts (r, w) = HasEach (length texts) r

  try_all-AllTried : (texts : List Text) (w : World) → AllTried texts (try_all env texts w)
  unfolding try_all AllTried
  try_all-AllTried [] w = refl
  try_all-AllTried (fragment ∷ rest) w =
      and_then-ends (λ (w' : World). Unit {0}) (AllTried (fragment ∷ rest)) (try_one env fragment w)
        _ tt (λ e w' _. tt)
        λ entry w1 _. one_more entry (try_all env rest w1) (try_all-AllTried rest w1)
    where
      one_more :
          (entry : Tried) (r : Outcome (List Tried))
          → AllTried rest r
          → AllTried (fragment ∷ rest) (and_then r (λ entries w2. (ok (entry ∷ entries), w2)))
      one_more entry (ok entries, w') h = ap suc h
      one_more entry (err e, w') h = tt

-- With the fragments of accepted arguments, an answer of `check` that selects the fragment of some
-- index selects one that PET accepted, and its rejections are those of the fragments before it,
-- in their order, each of which PET refused, or did not answer in time, as its rejection says; in
-- an answer that selects none, PET refused every fragment, or did not answer in time.
pub check-IsInOrder :
    (env : Environment) (args : Value) (w : World) (s : Settings)
    → settings args ≡ ok s
    → IsInOrder env s.fragments (check env args w).0
unfolding check InOrder
check-IsInOrder env args w s accepted = rw (accepted) (
    and_then-ends (λ (w' : World). Unit {0}) (InOrder env s.fragments) (prepare_base env w) _ tt
      (λ e w' _. tt)
      λ base w' _. check_all-InOrder env s.fragments s base 0 [] [] s.fragments w' refl refl refl)

-- An answer of `try` has one entry for each fragment of its arguments, whichever are rejected.
pub try_fragments-HasEach :
    (env : Environment) (args : Value) (w : World) (s : Settings)
    → settings args ≡ ok s
    → HasEach (length s.fragments) (try_fragments env args w).0
unfolding try_fragments AllTried
try_fragments-HasEach env args w s accepted = rw (accepted) (
    and_then-ends (λ (w' : World). Unit {0}) (AllTried env s.fragments) (prepare_base env w) _ tt
      (λ e w' _. tt) (λ base w' _. try_all-AllTried env s.fragments w'))
