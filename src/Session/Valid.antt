-- ===== src/Session/Valid.antt =====
-- The shape of the checkpoint graph under the handlers of crates/rocq-mcp/src/adapter.rs, in any
-- order and with other sessions of the project at work in between.
use rocq_mcp.Prelude.{ℕ, Option, List, [], ◌∷◌, String}
use rocq_mcp.Types.{FileId}
use rocq_mcp.Types.Json.{Value}
use rocq_mcp.Checkpoint.Shape.{IsValid}
use rocq_mcp.Progress.{ProgressBook}
use rocq_mcp.Replay.{Pet}
use rocq_mcp.Session.{Environment, World, Fingerprint, invalidate_project_states}
use rocq_mcp.Session.Query.{Questions}
use rocq_mcp.Session.Dispatch.{Listings, dispatch}
use rocq_mcp.Session.Alike.{invalidate_project_states-Keeps}
use rocq_mcp.Session.Handlers.{ValidBook, via}
use rocq_mcp.Session.Admitted.{dispatch-ValidBook}

-- What happens to a session: a request of its client, or the work of others on the project, which
-- may change PET and the artifacts, and end the epoch of PET.
pub data Event : Type 0 where
  requests : Option ℕ → ProgressBook → ℕ → String → Value → Event
  works_elsewhere : Pet → List (FileId × Fingerprint) → Event
  ends_epoch : Event

module _ (env : Environment) (questions : Questions) (listings : Listings) where
  unfoldable pub occur : Event → World → World
  unfolding dispatch invalidate_project_states
  occur (requests observed progress now name args) w =
      (dispatch env questions listings observed progress now name args w).1
  occur (works_elsewhere pet artifacts) w = record w { pet = pet; artifacts = artifacts }
  occur ends_epoch w = invalidate_project_states w

  unfoldable pub history : List Event → World → World
  unfolding occur
  history [] w = w
  history (event ∷ rest) w = history rest (occur event w)

  occur-ValidBook : (event : Event) (w : World) → ValidBook env w → ValidBook env (occur event w)
  unfolding occur ValidBook
  occur-ValidBook (requests observed progress now name args) w h =
      dispatch-ValidBook env questions listings observed progress now name args w h
  occur-ValidBook (works_elsewhere pet artifacts) w h = h
  occur-ValidBook ends_epoch w h =
      via env w (invalidate_project_states w) (invalidate_project_states-Keeps env w.book w) h

-- Through whatever requests of a session's client to `dispatch`, `start` and polls included, in any
-- order and one at a time, whatever PET, Dune and cancellation answer them, with other sessions at work on the project in between, a book that is
-- well formed stays so: the selected checkpoint exists, every parent exists and is older than its
-- child, a checkpoint has an accepted fragment exactly where it has a parent, and there is one
-- root.
pub history-IsValid :
    (env : Environment) (questions : Questions) (listings : Listings) (events : List Event)
    (w : World)
    → IsValid w.book
    → IsValid (history env questions listings events w).book
unfolding history ValidBook
history-IsValid env questions listings [] w h = h
history-IsValid env questions listings (event ∷ rest) w h =
    history-IsValid env questions listings rest (occur env questions listings event w)
      (occur-ValidBook env questions listings event w h)
