-- ===== src/Progress.antt =====
-- The record of the running or last operation that a client polls: `ProgressBook` and the methods
-- of `SessionCell` that read and write it (crates/rocq-mcp/src/server.rs). The mutex makes each
-- method one step; `Instant` is a time in milliseconds, `now`.
pub mod Shape
pub mod Stale
mod Tests
use rocq_mcp.Prelude.{
  ℕ, ◌+◌, ◌-◌, Bool, true, false, not, Option, none, some, List, [], ◌∷◌, ◌==◌, leb, if◌then◌else◌,
  is_empty, Result, ok, err, String, str_eq, codes, encode,
}
use rocq_mcp.Types.{Bytes, Text}
use rocq_mcp.Types.Json.{get, as_str, Value, string, object, Fields, end, field}
use rocq_mcp.Errors.{Error, ErrorKind, request_cancelled}
use rocq_mcp.Paging.{usize_max, min_of, saturating_add, bounded_log}

pub data Status : Type 0 where
  running completed failed cancelled : Status

abbrev pub is_running : Status → Bool
is_running running = true
is_running _ = false

pub record ProgressRecord : Type 0 where
  pub operation : String
  pub status : Status
  pub phase : String
  pub completed_units : ℕ
  pub total : Option ℕ
  pub target : Option Value
  pub log_summary : Bytes
  pub started : ℕ
  pub terminal_elapsed : Option ℕ

pub record ProgressBook : Type 0 where
  pub generation : ℕ
  pub entry : Option ProgressRecord

abbrev pub admitted : String → Option Value → ℕ → ProgressRecord
admitted operation target now = record {
  operation = operation;
  status = running;
  phase = "admitted";
  completed_units = 0;
  total = none;
  target = target;
  log_summary = [];
  started = now;
  terminal_elapsed = none;
}

unfoldable pub begin_progress : String → Option Value → ℕ → ProgressBook → ℕ × ProgressBook
begin_progress operation target now book = (
  saturating_add book.generation 1,
  record {
    generation = saturating_add book.generation 1;
    entry = some (admitted operation target now);
  },
)

-- A change of the record, where there is one.
abbrev pub on_entry : (ProgressRecord → ProgressRecord) → ProgressBook → ProgressBook
on_entry f book = elim book.entry [ none ↦ book | some r ↦ record book { entry = some (f r) } ]

unfoldable pub updated : String → ℕ → Option ℕ → Bytes → ProgressRecord → ProgressRecord
updated phase units total log r = if not (is_running r.status) then r else record r {
  phase = phase;
  completed_units = units;
  total = total;
  log_summary = if is_empty log then r.log_summary else bounded_log log;
}

unfoldable pub update_progress : ℕ → String → ℕ → Option ℕ → Bytes → ProgressBook → ProgressBook
unfolding updated
update_progress generation phase units total log book =
    if book.generation == generation then on_entry (updated phase units total log) book else book

-- The generation is read first, under its own lock; a `begin_progress` of another thread in between
-- makes the update a late one.
unfoldable pub update_current_progress : String → ℕ → Option ℕ → Bytes → ProgressBook → ProgressBook
unfolding update_progress
update_current_progress phase units total log book =
    update_progress book.generation phase units total log book

unfoldable pub retargeted : Value → ProgressRecord → ProgressRecord
retargeted target r = if is_running r.status then record r { target = some target } else r

unfoldable pub set_progress_target : Value → ProgressBook → ProgressBook
unfolding retargeted
set_progress_target target book = on_entry (retargeted target) book

abbrev pub message_of : Value → Option String
message_of error = elim (get "message" error) [ none ↦ none | some message ↦ as_str message ]

abbrev pub is_cancellation : ErrorKind → Bool
is_cancellation request_cancelled = true
is_cancellation _ = false

-- An answer that carries an `error` has failed as well.
abbrev pub answered : Option Value → ProgressRecord → ProgressRecord
answered (some error) r = record r {
  status = failed;
  phase = "failed";
  log_summary = elim (message_of error) [
    | none ↦ r.log_summary
    | some message ↦ bounded_log (encode (codes message))
  ];
}
answered none r = record r {
  status = completed;
  phase = "completed";
  completed_units = elim r.total [ none ↦ r.completed_units | some total ↦ total ];
}

abbrev pub rejected : Bool → Bytes → ProgressRecord → ProgressRecord
rejected is_cancelled log r = record r {
  status = if is_cancelled then cancelled else failed;
  phase = if is_cancelled then "cancelled" else "failed";
  log_summary = bounded_log log;
}

unfoldable pub concluded : Result Error Value → ProgressRecord → ProgressRecord
concluded (ok value) r = answered (get "error" value) r
concluded (err error) r = rejected (is_cancellation error.kind) (encode error.message) r

unfoldable pub finish_progress : ℕ → Result Error Value → ℕ → ProgressBook → ProgressBook
unfolding concluded
finish_progress generation result now book =
    if book.generation == generation
    then on_entry (λ r. concluded result (record r { terminal_elapsed = some (now - r.started) }))
        book
    else book

-- The JSON object, field by field; an idle book has no record.
pub record Snapshot : Type 0 where
  pub generation : ℕ
  pub changed : Bool
  pub elapsed_ms : ℕ
  pub entry : Option ProgressRecord

abbrev pub differs : Option ℕ → ℕ → Bool
differs none generation = true
differs (some observed) generation = not (observed == generation)

unfoldable pub progress_json : Option ℕ → ℕ → ProgressBook → Snapshot
progress_json observed now book = record {
  generation = book.generation;
  changed = differs observed book.generation;
  elapsed_ms = elim book.entry [
    | none ↦ 0
    | some r ↦
        min_of (elim r.terminal_elapsed [ none ↦ now - r.started | some elapsed ↦ elapsed ])
          usize_max
  ];
  entry = book.entry;
}
