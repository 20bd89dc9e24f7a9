-- ===== src/Progress/Tests.antt =====
-- An operation that is finished, polled late, and followed by another.
use rocq_mcp.Prelude.{
  ℕ, ◌≡◌, refl, Option, none, some, List, [], ◌∷◌, Result, ok, String, arith, codes,
}
use rocq_mcp.Types.{Bytes}
use rocq_mcp.Types.Json.{Value, string, object, end}
use rocq_mcp.Errors.{Error}
use rocq_mcp.Progress.{
  ProgressBook, begin_progress, update_progress, finish_progress, updated, concluded, progress_json,
  completed,
}
use rocq_mcp.Paging.{bounded_log}
use rocq_mcp.Progress.Shape.{
  Operation, begins, updates, targets, finishes, perform, run, new_book, IsValid, run-new_book,
}
use rocq_mcp.Progress.Stale.{finished_stays, stale_worker}

abbrev session : List Operation
session =
    begins "check" none 100
    ∷ updates 1 "checking" 1 (some 3) (codes "one")
    ∷ finishes 1 (ok (object end)) 250
    ∷ []

abbrev finished_book : ProgressBook
finished_book = record {
  generation = 1;
  entry = some (record {
    operation = "check";
    status = completed;
    phase = "completed";
    completed_units = 3;
    total = some 3;
    target = none;
    log_summary = codes "one";
    started = 100;
    terminal_elapsed = some 150;
  });
}

session_runs : run session new_book ≡ finished_book
unfolding run perform begin_progress update_progress finish_progress updated concluded bounded_log
session_runs = refl

-- A poll reports the final duration, not the time that has gone by since.
polled : (progress_json (some 1) 900 finished_book).elapsed_ms ≡ 150
unfolding progress_json
polled = refl

run-new_book_example : IsValid (run session new_book)
run-new_book_example = run-new_book session

finished_stays_example :
    run
      (updates 1 "late" 9 none [] ∷ targets (string "t") ∷ [])
      (finish_progress 1 (ok (string "v")) 300 finished_book)
    ≡ finish_progress 1 (ok (string "v")) 300 finished_book
finished_stays_example =
    finished_stays (ok (string "v")) 300 finished_book
      (updates 1 "late" 9 none [] ∷ targets (string "t") ∷ []) (tt, (tt, tt))

stale_worker_example :
    let later = run (targets (string "t") ∷ []) (begin_progress "try" none 400 finished_book).1 in
    ((phase : String) (units : ℕ) (total : Option ℕ) (log : Bytes)
      → update_progress 1 phase units total log later ≡ later)
    × ((result : Result Error Value) (at : ℕ) → finish_progress 1 result at later ≡ later)
stale_worker_example =
    stale_worker finished_book (omega arith) "try" none 400 (targets (string "t") ∷ [])
