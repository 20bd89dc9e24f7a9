-- ===== src/Session/Outcomes.antt =====
-- The outcomes of `check` and `rewind` (crates/rocq-mcp/src/adapter.rs) keep the shape of the graph.
use rocq_mcp.Prelude.{ℕ, sym, ap, subst, inl, inr, none, some, List, Result, ok, err}
use rocq_mcp.Types.{Text}
use rocq_mcp.Checkpoint.{CheckpointId, CheckpointBook, Checked}
use rocq_mcp.Checkpoint.Alike.{IsValid-Alike}
use rocq_mcp.Checkpoint.Shape.{IsValid, perform, perform-IsValid, commit_with, select_id, clear_all}
use rocq_mcp.Writeback.{Target}
use rocq_mcp.Session.{Stop}
use rocq_mcp.Session.Check.{Answer, selected, selected_error, none_selected}
use rocq_mcp.Session.Moves.{Shown}
use rocq_mcp.Session.Grown.{Grown, IsAtMostGrown, GrownAndCleared, Effect}
use rocq_mcp.Types.Json.{Value}
use rocq_mcp.Session.Rewound.{Moved}

Grown-IsValid :
    {book : CheckpointBook Target} {text : Text} {id : CheckpointId} {book' : CheckpointBook Target}
    → Grown book text id book'
    → IsValid book
    → IsValid book'
unfolding perform
Grown-IsValid {text = text} g h = IsValid-Alike g.kept (
    perform-IsValid (commit_with g.state text g.finished g.view g.offset) g.base
      (IsValid-Alike g.alike h))

AtMostGrown-IsValid :
    {book book' : CheckpointBook Target} → IsAtMostGrown book book' → IsValid book → IsValid book'
unfolding perform
AtMostGrown-IsValid (inl alike) h = IsValid-Alike alike h
AtMostGrown-IsValid (inr (base, alike, (state, (text, (finished, (view, (offset, kept))))))) h =
    IsValid-Alike kept
      (perform-IsValid (commit_with state text finished view offset) base (IsValid-Alike alike h))

GrownAndCleared-IsValid :
    (texts : List Text) (index : ℕ) {book : CheckpointBook Target} {book' : CheckpointBook Target}
    → GrownAndCleared book texts index book'
    → IsValid book
    → IsValid book'
unfolding perform
GrownAndCleared-IsValid texts index (id, (mid, (g, gone))) h =
    subst IsValid (sym gone) (perform-IsValid clear_all mid (Grown-IsValid g.2 h))

pub Effect-IsValid :
    (book : CheckpointBook Target) (texts : List Text) (r : Result Stop Answer)
    (book' : CheckpointBook Target)
    → Effect book texts r book'
    → IsValid book
    → IsValid book'
Effect-IsValid book texts (ok (selected index view (some id) offset rejections)) book' e h =
    Grown-IsValid e.2 h
Effect-IsValid book texts (ok (selected index view none offset rejections)) book' e h =
    GrownAndCleared-IsValid texts index e h
Effect-IsValid book texts (ok (selected_error index view (some id) offset rejections error)) book' e
      h =
    Grown-IsValid e.2 h
Effect-IsValid book texts (ok (selected_error index view none offset rejections error)) book' e h =
    GrownAndCleared-IsValid texts index e h
Effect-IsValid book texts (ok (none_selected view id offset rejections)) book' e h =
    IsValid-Alike e h
Effect-IsValid book texts (err stop) book' e h = AtMostGrown-IsValid e h

pub Moved-IsValid :
    (args : Value) (book : CheckpointBook Target) (r : Result Stop Shown)
    (book' : CheckpointBook Target)
    → Moved args book r book'
    → IsValid book
    → IsValid book'
unfolding perform
Moved-IsValid args book (ok answer) book' (id, _, (_, (mid, alike, at))) h =
    subst IsValid (ap (λ (x : Checked (Unit {0}) × CheckpointBook Target). x.1) at)
      (perform-IsValid (select_id id) mid (IsValid-Alike alike h))
Moved-IsValid args book (err stop) book' alike h = IsValid-Alike alike h
