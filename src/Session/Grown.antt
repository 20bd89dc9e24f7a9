-- ===== src/Session/Grown.antt =====
-- How `check` of crates/rocq-mcp/src/adapter.rs may change the checkpoints of its session.
use rocq_mcp.Prelude.{ℕ, ◌≡◌, ◌⊎◌, inr, Bool, Option, none, some, List, Result, ok, err, get_elem?}
use rocq_mcp.Types.{Text, PetStateId, ProofState}
use rocq_mcp.Checkpoint.{CheckpointId, CheckpointBook, commit, clear}
use rocq_mcp.Checkpoint.Alike.{Alike, Alike-trans}
use rocq_mcp.Writeback.{Target}
use rocq_mcp.Session.{Stop}
use rocq_mcp.Session.Check.{Answer, selected, selected_error, none_selected}

-- Between `book` and `book'` lies one commit, of `text`, that answered `id`.
pub record Grown (book : CheckpointBook Target) (text : Text) (id : CheckpointId)
    (book' : CheckpointBook Target) : Type 0 where
  pub base : CheckpointBook Target
  pub alike : Alike book base
  pub state : PetStateId
  pub finished : Bool
  pub view : ProofState
  pub offset : Option ℕ
  pub committed : (commit state text finished view offset base).0 ≡ ok id
  pub kept : Alike (commit state text finished view offset base).1 book'

-- At most one commit lies between, whatever it answered.
abbrev pub IsAtMostGrown : CheckpointBook Target → CheckpointBook Target → Type 0
IsAtMostGrown book book' =
    Alike book book'
    ⊎ ((base : CheckpointBook Target) × Alike book base
        × ((state : PetStateId) × ((text : Text) × ((finished : Bool) × ((view : ProofState)
                  × ((offset : Option ℕ) × Alike (commit state text finished view offset base).1
                        book'))))))

-- The answer that selects fragment `index` with a checkpoint has committed that fragment.
abbrev pub GrownBy :
    CheckpointBook Target → List Text → ℕ → CheckpointId → CheckpointBook Target → Type 0
GrownBy book texts index id book' =
    (text : Text) × (get_elem? texts index ≡ some text) × Grown book text id book'

-- The fragment is committed, and then the proof is taken away.
abbrev pub GrownAndCleared : CheckpointBook Target → List Text → ℕ → CheckpointBook Target → Type 0
GrownAndCleared book texts index book' =
    (id : CheckpointId) × ((mid : CheckpointBook Target) × (GrownBy book texts index id mid
        × (book' ≡ (clear mid).1)))

abbrev pub Effect :
    CheckpointBook Target → List Text → Result Stop Answer → CheckpointBook Target → Type 0
Effect book texts (ok (selected index view (some id) offset rejections)) book' =
    GrownBy book texts index id book'
Effect book texts (ok (selected index view none offset rejections)) book' =
    GrownAndCleared book texts index book'
Effect book texts (ok (selected_error index view (some id) offset rejections error)) book' =
    GrownBy book texts index id book'
Effect book texts (ok (selected_error index view none offset rejections error)) book' =
    GrownAndCleared book texts index book'
Effect book texts (ok (none_selected view id offset rejections)) book' = Alike book book'
Effect book texts (err stop) book' = IsAtMostGrown book book'

pub Grown-Alike :
    {book : CheckpointBook Target} {text : Text} {id : CheckpointId} {b c : CheckpointBook Target}
    → Grown book text id b
    → Alike b c
    → Grown book text id c
Grown-Alike g h = record {
  base = g.base;
  alike = g.alike;
  state = g.state;
  finished = g.finished;
  view = g.view;
  offset = g.offset;
  committed = g.committed;
  kept = Alike-trans g.kept h;
}

pub Grown-IsAtMostGrown :
    {book : CheckpointBook Target} {text : Text} {id : CheckpointId} {b : CheckpointBook Target}
    → Grown book text id b
    → IsAtMostGrown book b
Grown-IsAtMostGrown {book} {text} g =
    inr (g.base, g.alike, (g.state, (text, (g.finished, (g.view, (g.offset, g.kept))))))
