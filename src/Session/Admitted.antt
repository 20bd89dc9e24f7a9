-- ===== src/Session/Admitted.antt =====
-- Every tool behind `dispatch` (crates/rocq-mcp/src/adapter.rs) keeps the shape of its session's graph.
use rocq_mcp.Prelude.{
  ℕ, Bool, true, false, not, Option, none, some, ◌==◌, ◌>>◌, [], ◌∷◌, if◌then◌else◌, ok, err, ok_or,
  map_err, and_then-keeps, if-keeps, String, str_eq,
}
use rocq_mcp.Types.Json.{Value}
use rocq_mcp.Errors.Public.{invalidates_pet_epoch}
use rocq_mcp.Checkpoint.Alike.{IsValid-Alike}
use rocq_mcp.Arguments.{reject_unknown, required_string, forward_slashes}
use rocq_mcp.Progress.{is_cancellation, ProgressBook}
use rocq_mcp.Session.{
  Environment, World, Outcome, failed, panicked, tick, restart, attached_to,
  invalidate_project_states, reject_cancelled, commit_or_cancelled,
}
use rocq_mcp.Session.Artifacts.{reconcile_artifacts}
use rocq_mcp.Session.Attempt.{try_fragments}
use rocq_mcp.Session.Check.{check}
use rocq_mcp.Session.Moves.{prove, declare, abandon, rewind, retire_proof}
use rocq_mcp.Session.Query.{Questions, query}
use rocq_mcp.Session.Queried.{query-Alike}
use rocq_mcp.Session.Alike.{
  try_fragments-Alike, Keeps, reject_cancelled-Keeps, reconcile_artifacts-Keeps,
  commit_or_cancelled-Keeps, invalidate_project_states-Keeps,
}
use rocq_mcp.Session.Handlers.{
  ValidBook, via, prove-ValidBook, declare-ValidBook, abandon-ValidBook, check-ValidBook,
  rewind-ValidBook, retire-ValidBook, after_retire-ValidBook,
}
use rocq_mcp.Session.Dispatch.{
  Listings, Response, shown_state, abandoned, checked, attempted, replied, respond, list_files,
  list_decls, dispatch_attached, ended, serve, renew_layout, not_attached, install_start_view,
  admit_start, entered, enter, leave, start_from, start, is_poll, poll_generation, poll,
  dispatch_admitted, dispatch,
}

module _ (env : Environment) (questions : Questions) (listings : Listings) where
  V : World → Type 0
  V w = ValidBook env w

  respond-V : {A : Type 0} (f : A → Response) (r : Outcome A) → V r.1 → V (respond f r).1
  respond-V f (ok a, w) h = h
  respond-V f (err e, w) h = h

  list_decls-V : (args : Value) (w : World) → V w → V (list_decls env questions listings args w).1
  unfolding list_decls V ValidBook
  list_decls-V args w h =
      and_then-keeps V (map_err failed (reject_unknown args ("file" ∷ [])), w) _ h
        λ _ w1 h1.
          and_then-keeps V (map_err failed (required_string args "file"), w1) _ h1
            λ path w2 h2.
              and_then-keeps V (reconcile_artifacts env (forward_slashes path ∷ []) w2) _
                (via env w2 _ (reconcile_artifacts-Keeps env w2.book (forward_slashes path ∷ []) w2)
                  h2)
                λ _ w3 h3.
                  and_then-keeps V
                    (
                      map_err failed (listings.list_decls w3.pet.clock (forward_slashes path)),
                      tick w3,
                    )
                    _ h3 (λ infos w4 h4. h4)

  list_files-V : (args : Value) (w : World) → V w → V (list_files env questions listings args w).1
  unfolding list_files V ValidBook
  list_files-V args w h =
      and_then-keeps V (map_err failed (reject_unknown args []), w) _ h
        λ _ w1 h1.
          and_then-keeps V (map_err failed (listings.list_files w1.pet.clock), tick w1) _ h1
            (λ names w2 h2. h2)

  dispatch_attached-V :
      (name : String) (args : Value) (w : World)
      → V w
      → V (dispatch_attached env questions listings name args w).1
  unfolding dispatch_attached V ValidBook
  dispatch_attached-V name args w h =
      if-keeps V (str_eq name "list_files") _ _ (list_files-V args w h) (
        if-keeps V (str_eq name "list_decls") _ _ (list_decls-V args w h) (
          if-keeps V (str_eq name "prove") _ _
            (respond-V shown_state (prove env args w) (prove-ValidBook env args w h))
            (if-keeps V (str_eq name "declare") _ _
              (respond-V shown_state (declare env args w) (declare-ValidBook env args w h))
              (if-keeps V (str_eq name "abandon") _ _
                (respond-V (λ _. abandoned) (abandon env args w) (abandon-ValidBook env args w h))
                (if-keeps V (str_eq name "check") _ _
                  (respond-V checked (check env args w) (check-ValidBook env args w h))
                  (if-keeps V (str_eq name "try") _ _
                    (respond-V attempted (try_fragments env args w)
                      (IsValid-Alike (try_fragments-Alike env args w).0 h))
                    (if-keeps V (str_eq name "rewind") _ _
                      (respond-V shown_state (rewind env args w) (rewind-ValidBook env args w h))
                      (if-keeps V (str_eq name "query") _ _
                        (respond-V replied (query env questions args w)
                          (IsValid-Alike (query-Alike env questions args w).0 h))
                        h))))))))

  ended-V : (r : Outcome Response) → V r.1 → V (ended env questions listings r).1
  unfolding ended V Keeps
  ended-V (ok response, w) h = h
  ended-V (err panicked, w) h = h
  ended-V (err (failed error), w) h =
      if-keeps V (invalidates_pet_epoch error.kind) _ _
        (via env w _ (restarted-Keeps (is_cancellation error.kind)) h) h
    where
      restarted-Keeps :
          (c : Bool)
          → Keeps env w.book w
          → Keeps env w.book (invalidate_project_states (if c then restart w else w))
      restarted-Keeps true k = invalidate_project_states-Keeps env w.book (restart w) k
      restarted-Keeps false k = invalidate_project_states-Keeps env w.book w k

  renew_layout-V :
      (changed : Bool) (w : World) → V w → V (renew_layout env questions listings changed w)
  unfolding renew_layout V Keeps
  renew_layout-V true w h =
      via env w (renew_layout env questions listings true w)
        (invalidate_project_states-Keeps env w.book (restart (record w { artifacts = [] }))) h
  renew_layout-V false w h = h

  admit_start-V : (w : World) → V w → V (admit_start env questions listings w).1
  unfolding admit_start V ValidBook
  admit_start-V w h =
      and_then-keeps V (reject_cancelled env w) _
        (via env w _ (reject_cancelled-Keeps env w.book w) h)
        (λ _ w1 h1.
          via env w1 (commit_or_cancelled env w1).1 (commit_or_cancelled-Keeps env w1.book w1) h1)

  install_start_view-V :
      (next : ℕ) (w : World) → V w → V (install_start_view env questions listings next w).1
  unfolding install_start_view V ValidBook
  install_start_view-V next w h =
      and_then-keeps V (map_err failed (listings.refresh_project w.pet.clock), tick w) _ h
        (λ changed w1 h1. renew_layout-V changed (record w1 { attached = some next }) h1)

  enter-V : (next : ℕ) (w : World) → V w → V (enter env questions listings next w).1
  unfolding enter V ValidBook
  enter-V next w h =
      and_then-keeps V (admit_start env questions listings (entered env questions listings next w))
        _ (admit_start-V (entered env questions listings next w) h)
        (λ _ w1 h1. install_start_view-V next w1 h1)

  leave-V : (w : World) → V w → V (leave env questions listings w).1
  unfolding leave retire_proof V ValidBook
  leave-V w h =
      and_then-keeps V (admit_start env questions listings w) _ (admit_start-V w h) λ _ w1 h1.
        and_then-keeps V (retire_proof env w1) _ (retire-ValidBook env w1.book.proof w1 h1)
          (λ lost w2 h2. after_retire-ValidBook env lost w2 h2)

  start_from-V :
      (attached : Option ℕ) (next : ℕ) (w : World)
      → V w
      → V (start_from env questions listings attached next w).1
  unfolding start_from V ValidBook
  start_from-V none next w h = enter-V next w h
  start_from-V (some previous) next w h =
      and_then-keeps V (leave env questions listings w) _ (leave-V w h) λ _ w1 h1.
        if-keeps V (previous == next) _ _ (install_start_view-V next w1 h1)
          (enter-V next (record w1 { attached = none }) h1)

  start-V : (args : Value) (w : World) → V w → V (start env questions listings args w).1
  unfolding start V ValidBook
  start-V args w h =
      and_then-keeps V
        (
          map_err failed
              (reject_unknown args ("project_path" ∷ []) >> required_string args "project_path"),
          w,
        )
        _ h
        λ requested w1 h1.
          and_then-keeps V (map_err failed (listings.attach w1.pet.clock requested), tick w1) _ h1
            (λ next w2 h2. start_from-V w2.attached next w2 h2)

  poll-V :
      (progress : ProgressBook) (now : ℕ) (args : Value) (w : World)
      → V w
      → V (poll env questions listings progress now args w).1
  unfolding poll V ValidBook
  poll-V progress now args w h =
      and_then-keeps V
        (
          map_err failed (
              reject_unknown args ("kind" ∷ "generation" ∷ [])
              >> poll_generation env questions listings args),
          w,
        )
        _ h (λ generation w1 h1. h1)

  dispatch_admitted-V :
      (observed : Option ℕ) (name : String) (args : Value) (w : World)
      → V w
      → V (dispatch_admitted env questions listings observed name args w).1
  unfolding dispatch_admitted serve V ValidBook
  dispatch_admitted-V observed name args w h =
      and_then-keeps V (map_err failed (ok_or (not_attached env questions listings) observed), w) _
        h
        λ project w1 h1.
          and_then-keeps V (reject_cancelled env w1) _
            (via env w1 _ (reject_cancelled-Keeps env w1.book w1) h1)
            λ _ w2 h2.
              and_then-keeps V (map_err failed (listings.refresh_project w2.pet.clock), tick w2) _
                h2
                λ changed w3 h3. if-keeps V (not (attached_to project w3.attached)) _ _ h3 (
                  and_then-keeps V
                    (reject_cancelled env (renew_layout env questions listings changed w3)) _
                    (via env (renew_layout env questions listings changed w3) _
                      (reject_cancelled-Keeps env
                        (renew_layout env questions listings changed w3).book
                        (renew_layout env questions listings changed w3))
                      (renew_layout-V changed w3 h3))
                    λ _ w4 h4.
                      ended-V (dispatch_attached env questions listings name args w4)
                        (dispatch_attached-V name args w4 h4))

  pub dispatch-ValidBook :
      (observed : Option ℕ) (progress : ProgressBook) (now : ℕ) (name : String) (args : Value)
      (w : World)
      → ValidBook env w
      → ValidBook env (dispatch env questions listings observed progress now name args w).1
  unfolding dispatch V ValidBook
  dispatch-ValidBook observed progress now name args w h =
      and_then-keeps V (reject_cancelled env w) _
        (via env w _ (reject_cancelled-Keeps env w.book w) h)
        λ _ w0 h0.
          if-keeps V (is_poll env questions listings name args) _ _ (poll-V progress now args w0 h0)
            (if-keeps V (str_eq name "start") _ _ (start-V args w0 h0)
              (dispatch_admitted-V observed name args w0 h0))
