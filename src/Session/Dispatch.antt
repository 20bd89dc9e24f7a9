-- ===== src/Session/Dispatch.antt =====
-- `dispatch`, `dispatch_attached` and `start` of crates/rocq-mcp/src/adapter.rs. The engine's
-- listings, its look at the layout and its attachment of a project answer by `Listings` at each tick
-- of PET's clock, and so does what a project that the session comes to has had done to it. Two
-- `start` requests of one session do not overlap.
use rocq_mcp.Prelude.{
  ℕ, Bool, true, false, not, Option, none, some, ◌&&◌, ◌==◌, ◌>>◌, ◌>>=◌, List, [], ◌∷◌,
  if◌then◌else◌, Result, ok, err, ok_or, map_err, and_then, String, str_eq,
}
use rocq_mcp.Types.{FileId, DeclarationInfo}
use rocq_mcp.Types.Json.{Value, get, as_u64}
use rocq_mcp.Errors.{Error}
use rocq_mcp.Errors.Public.{invalidates_pet_epoch}
use rocq_mcp.Arguments.{invalid, reject_unknown, required_string, forward_slashes, read_str}
use rocq_mcp.Progress.{is_cancellation, ProgressBook, Snapshot, progress_json}
use rocq_mcp.Replay.{Pet}
use rocq_mcp.Session.{
  Environment, World, Outcome, failed, panicked, tick, restart, attached_to,
  invalidate_project_states, reject_cancelled, commit_or_cancelled, Fingerprint,
}
use rocq_mcp.Session.Artifacts.{reconcile_artifacts}
use rocq_mcp.Session.Attempt.{Tried, try_fragments}
use rocq_mcp.Session.Check.{Answer, check}
use rocq_mcp.Session.Moves.{Shown, prove, declare, abandon, rewind, retire_proof, after_retire}
use rocq_mcp.Session.Query.{Questions, Reply, query}

pub record Listings : Type 0 where
  pub list_files : ℕ → Result Error (List FileId)
  pub list_decls : ℕ → FileId → Result Error (List DeclarationInfo)
  pub refresh_project : ℕ → Result Error Bool
  pub attach : ℕ → String → Result Error ℕ
  pub project_pet : ℕ → ℕ → Pet
  pub project_artifacts : ℕ → ℕ → List (FileId × Fingerprint)

-- What a tool answers; each is a JSON object of its own shape.
pub data Response : Type 0 where
  files : List FileId → Response
  declarations : List DeclarationInfo → Response
  shown_state : Shown → Response
  abandoned : Response
  checked : Answer → Response
  attempted : List Tried → Response
  replied : Reply → Response
  progressed : Snapshot → Response
  started : Response

module _ {A : Type 0} where
  -- The tool's answer, made a response.
  abbrev pub respond : (A → Response) → Outcome A → Outcome Response
  respond f r = and_then r (λ a w. (ok (f a), w))

module _ (env : Environment) (questions : Questions) (listings : Listings) where
  unfoldable pub list_files : Value → World → Outcome Response
  list_files args w =
      and_then (map_err failed (reject_unknown args []), w)
        λ _ w1.
          and_then (map_err failed (listings.list_files w1.pet.clock), tick w1)
            λ names w2. (ok (files names), w2)

  unfoldable pub list_decls : Value → World → Outcome Response
  unfolding reconcile_artifacts
  list_decls args w =
      and_then (map_err failed (reject_unknown args ("file" ∷ [])), w)
        λ _ w1.
          and_then (map_err failed (required_string args "file"), w1)
            λ path w2. and_then (reconcile_artifacts env (forward_slashes path ∷ []) w2) λ _ w3.
              and_then
                (map_err failed (listings.list_decls w3.pet.clock (forward_slashes path)), tick w3)
                λ infos w4. (ok (declarations infos), w4)

  abbrev pub unknown_tool : Error
  unknown_tool = invalid "unknown tool"

  unfoldable pub dispatch_attached : String → Value → World → Outcome Response
  unfolding list_files list_decls prove declare abandon check try_fragments rewind query
  dispatch_attached name args w =
      if str_eq name "list_files"
      then list_files args w
      else if str_eq name "list_decls"
      then list_decls args w
      else if str_eq name "prove"
      then respond shown_state (prove env args w)
      else if str_eq name "declare"
      then respond shown_state (declare env args w)
      else if str_eq name "abandon"
      then respond (λ _. abandoned) (abandon env args w)
      else if str_eq name "check"
      then respond checked (check env args w)
      else if str_eq name "try"
      then respond attempted (try_fragments env args w)
      else if str_eq name "rewind"
      then respond shown_state (rewind env args w)
      else if str_eq name "query"
      then respond replied (query env questions args w)
      else (err (failed unknown_tool), w)

  -- A cancellation restarts PET, so that no state that the request made survives.
  unfoldable pub ended : Outcome Response → Outcome Response
  ended (ok response, w) = (ok response, w)
  ended (err panicked, w) = (err panicked, w)
  ended (err (failed error), w) =
      if invalidates_pet_epoch error.kind
      then (
        err (failed error),
        invalidate_project_states (if is_cancellation error.kind then restart w else w),
      )
      else (err (failed error), w)

  unfoldable pub serve : String → Value → World → Outcome Response
  unfolding ended dispatch_attached
  serve name args w = ended (dispatch_attached name args w)

  -- Dune's view of the project has changed: artifacts, PET and every state are stale.
  unfoldable pub renew_layout : Bool → World → World
  unfolding invalidate_project_states
  renew_layout true w = invalidate_project_states (restart (record w { artifacts = [] }))
  renew_layout false w = w

  abbrev pub not_attached : Error
  not_attached = invalid "call start first"

  abbrev pub attachment_changed : Error
  attachment_changed = invalid "attached project changed before request admission"

  -- The end of `start`, under the lock of the project.
  unfoldable pub install_start_view : ℕ → World → Outcome Response
  unfolding renew_layout
  install_start_view next w =
      and_then (map_err failed (listings.refresh_project w.pet.clock), tick w)
        λ changed w1. (ok started, renew_layout changed (record w1 { attached = some next }))

  unfoldable pub admit_start : World → Outcome (Unit {0})
  unfolding reject_cancelled commit_or_cancelled
  admit_start w = and_then (reject_cancelled env w) (λ _ w1. commit_or_cancelled env w1)

  -- The lock of another project is taken.
  abbrev pub entered : ℕ → World → World
  entered next w = record w {
    project = next;
    pet = record (listings.project_pet w.pet.clock next) { clock = w.pet.clock };
    artifacts = listings.project_artifacts w.pet.clock next;
  }

  unfoldable pub enter : ℕ → World → Outcome Response
  unfolding admit_start install_start_view
  enter next w = and_then (admit_start (entered next w)) (λ _ w1. install_start_view next w1)

  -- The proof of the project that the session leaves, or starts again, is retired.
  unfoldable pub leave : World → Outcome (Unit {0})
  unfolding admit_start retire_proof after_retire
  leave w =
      and_then (admit_start w)
        λ _ w1. and_then (retire_proof env w1) λ lost w2. (ok tt, after_retire env lost w2)

  unfoldable pub start_from : Option ℕ → ℕ → World → Outcome Response
  unfolding enter leave install_start_view
  start_from none next w = enter next w
  start_from (some previous) next w = and_then (leave w) λ _ w1.
      if previous == next
      then install_start_view next w1
      else enter next (record w1 { attached = none })

  unfoldable pub start : Value → World → Outcome Response
  unfolding start_from
  start args w =
      and_then
        (
          map_err failed
              (reject_unknown args ("project_path" ∷ []) >> required_string args "project_path"),
          w,
        )
        λ requested w1.
          and_then (map_err failed (listings.attach w1.pet.clock requested), tick w1)
            λ next w2. start_from w2.attached next w2

  abbrev pub is_poll : String → Value → Bool
  is_poll name args =
      str_eq name "query"
      && elim (read_str (get "kind" args)) [ none ↦ false | some kind ↦ str_eq kind "progress" ]

  unfoldable pub poll_generation : Value → Result Error (Option ℕ)
  poll_generation args = elim (get "generation" args) [
    | none ↦ ok none
    | some value ↦ do
      generation ← ok_or (invalid "generation must be a non-negative integer") (as_u64 value)
      ok (some generation)
  ]

  unfoldable pub poll : ProgressBook → ℕ → Value → World → Outcome Response
  unfolding poll_generation
  poll progress now args w =
      and_then
        (
          map_err failed (reject_unknown args ("kind" ∷ "generation" ∷ []) >> poll_generation args),
          w,
        )
        λ generation w1. (ok (progressed (progress_json generation now progress)), w1)

  -- A request that needs the project that the session was attached to, `observed`, before the
  -- locks were taken.
  unfoldable pub dispatch_admitted : Option ℕ → String → Value → World → Outcome Response
  unfolding reject_cancelled renew_layout serve
  dispatch_admitted observed name args w =
      and_then (map_err failed (ok_or not_attached observed), w)
        λ project w1. and_then (reject_cancelled env w1) λ _ w2.
          and_then (map_err failed (listings.refresh_project w2.pet.clock), tick w2)
            λ changed w3.
              if not (attached_to project w3.attached)
              then (err (failed attachment_changed), w3)
              else and_then (reject_cancelled env (renew_layout changed w3))
                  λ _ w4. serve name args w4

  -- `progress` is what a poll finds, at the time `now`.
  unfoldable pub dispatch : Option ℕ → ProgressBook → ℕ → String → Value → World → Outcome Response
  unfolding reject_cancelled poll start dispatch_admitted
  dispatch observed progress now name args w = and_then (reject_cancelled env w) λ _ w0.
      if is_poll name args
      then poll progress now args w0
      else if str_eq name "start"
      then start args w0
      else dispatch_admitted observed name args w0
