-- ===== src/Progress/Shape.antt =====
-- Every sequence of calls on a session's progress book (crates/rocq-mcp/src/server.rs), and what
-- holds of its record.
use rocq_mcp.Prelude.{
  ℕ, ◌+◌, ◌-◌, ◌≤◌, ◌≡◌, ◌≢◌, refl, inl, inr, Bool, true, false, Option, none, some, List, [], ◌∷◌,
  ◌==◌, if◌then◌else◌, is_empty, Result, ok, err, String, Bool-cases, arith, length, length-append,
  length-take, leb, encode, take, codes,
}
use rocq_mcp.Types.{Bytes}
use rocq_mcp.Types.Json.{get, Value}
use rocq_mcp.Errors.{Error}
use rocq_mcp.Paging.{bounded_log, log_limit, floor_boundary, ellipsis}
use rocq_mcp.Paging.Boundary.{floor_boundary_bounds}
use rocq_mcp.Progress.{
  completed, is_running, ProgressRecord, ProgressBook, begin_progress, on_entry, updated,
  update_progress, retargeted, set_progress_target, concluded, finish_progress, message_of,
  answered, rejected, is_cancellation,
}

-- A call; a worker's update carries the generation that its `begin_progress` returned.
pub data Operation : Type 0 where
  begins : String → Option Value → ℕ → Operation
  updates : ℕ → String → ℕ → Option ℕ → Bytes → Operation
  targets : Value → Operation
  finishes : ℕ → Result Error Value → ℕ → Operation

unfoldable pub perform : Operation → ProgressBook → ProgressBook
unfolding begin_progress update_progress set_progress_target finish_progress
perform (begins operation target now) book = (begin_progress operation target now book).1
perform (updates generation phase units total log) book =
    update_progress generation phase units total log book
perform (targets target) book = set_progress_target target book
perform (finishes generation result now) book = finish_progress generation result now book

unfoldable pub run : List Operation → ProgressBook → ProgressBook
unfolding perform
run [] book = book
run (o ∷ rest) book = run rest (perform o book)

-- `SessionCell::new`
abbrev pub new_book : ProgressBook
new_book = record { generation = 0; entry = none }

-- An operation has a final duration exactly when it is not running, and the log is bounded.
pub record ValidEntry (r : ProgressRecord) : Type 0 where
  pub ongoing : is_running r.status ≡ true → r.terminal_elapsed ≡ none
  pub ended : is_running r.status ≡ false → r.terminal_elapsed ≢ none
  pub bounded : length r.log_summary ≤ log_limit + 3
  pub counted :
      (total : ℕ) → r.status ≡ completed → r.total ≡ some total → r.completed_units ≡ total

abbrev pub IsValid : ProgressBook → Type 0
IsValid book = elim book.entry as (λ o. Type 0) [ none ↦ Unit | some r ↦ ValidEntry r ]

length-bounded_log : (log : Bytes) → length (bounded_log log) ≤ log_limit + 3
unfolding bounded_log
length-bounded_log log = elim (Bool-cases (leb (length log) log_limit)) [
  | inl small ↦ rw small (ground (arith, small))
  | inr large ↦
      let (low, high, stop) = floor_boundary_bounds log 0 log_limit (omega arith) in
      rw large (
        omega (
          arith,
          high,
          length-append (take (floor_boundary log 0 log_limit) log) ellipsis,
          length-take (floor_boundary log 0 log_limit) log,
        ))
]

if_log :
    (b : Bool) (old log : Bytes)
    → length old ≤ log_limit + 3
    → length (if b then old else bounded_log log) ≤ log_limit + 3
if_log true old log h = h
if_log false old log h = length-bounded_log log

updated-ValidEntry :
    (phase : String) (units : ℕ) (total : Option ℕ) (log : Bytes) (r : ProgressRecord)
    → ValidEntry r
    → ValidEntry (updated phase units total log r)
unfolding updated
updated-ValidEntry phase units total log r v = elim (Bool-cases (is_running r.status)) [
  | inl live ↦ rw live (record {
    ongoing = v.ongoing;
    ended = v.ended;
    bounded = if_log (is_empty log) r.log_summary log v.bounded;
    counted = λ t is_completed. cc (rw is_completed at live);
  })
  | inr over ↦ rw over v
]

retargeted-ValidEntry :
    (target : Value) (r : ProgressRecord) → ValidEntry r → ValidEntry (retargeted target r)
unfolding retargeted
retargeted-ValidEntry target r v = elim (Bool-cases (is_running r.status)) [
  | inl live ↦
      rw live
        (record { ongoing = v.ongoing; ended = v.ended; bounded = v.bounded; counted = v.counted })
  | inr over ↦ rw over v
]

-- A record with a final duration that is not running.
ended-ValidEntry :
    (r : ProgressRecord) {elapsed : ℕ}
    → r.terminal_elapsed ≡ some elapsed
    → is_running r.status ≡ false
    → length r.log_summary ≤ log_limit + 3
    → ((total : ℕ) → r.status ≡ completed → r.total ≡ some total → r.completed_units ≡ total)
    → ValidEntry r
ended-ValidEntry r e over short counted = record {
  ongoing = λ live. absurd (cc (over, live));
  ended = λ _ none_yet. absurd (cc (e, none_yet));
  bounded = short;
  counted = counted;
}

optional_log :
    (message : Option String) (old : Bytes)
    → length old ≤ log_limit + 3
    → length (elim message as (λ m. Bytes) [
      | none ↦ old
      | some text ↦ bounded_log (encode (codes text))
    ])
      ≤ log_limit + 3
optional_log none old h = h
optional_log (some text) old h = length-bounded_log (encode (codes text))

all_counted :
    (o : Option ℕ) (old total : ℕ)
    → o ≡ some total
    → elim o as (λ x. ℕ) [ none ↦ old | some t ↦ t ] ≡ total
all_counted none old total e = cc
all_counted (some t) old total e = cc

by_error :
    (found : Option Value) (r : ProgressRecord) {elapsed : ℕ}
    → r.terminal_elapsed ≡ some elapsed
    → length r.log_summary ≤ log_limit + 3
    → ValidEntry (answered found r)
by_error none r e short =
    ended-ValidEntry (answered none r) e refl short
      (λ total _ known. all_counted r.total r.completed_units total known)
by_error (some error) r e short =
    ended-ValidEntry (answered (some error) r) e refl
      (optional_log (message_of error) r.log_summary short) (λ total h. cc)

by_flag :
    (b : Bool) (log : Bytes) (r : ProgressRecord) {elapsed : ℕ}
    → r.terminal_elapsed ≡ some elapsed
    → ValidEntry (rejected b log r)
by_flag true log r e =
    ended-ValidEntry (rejected true log r) e refl (length-bounded_log log) (λ total h. cc)
by_flag false log r e =
    ended-ValidEntry (rejected false log r) e refl (length-bounded_log log) (λ total h. cc)

concluded-ValidEntry :
    (result : Result Error Value) (r : ProgressRecord) {elapsed : ℕ}
    → r.terminal_elapsed ≡ some elapsed
    → length r.log_summary ≤ log_limit + 3
    → ValidEntry (concluded result r)
unfolding concluded
concluded-ValidEntry (ok value) r e short = by_error (get "error" value) r e short
concluded-ValidEntry (err error) r e short =
    by_flag (is_cancellation error.kind) (encode error.message) r e

on_entry-IsValid :
    (f : ProgressRecord → ProgressRecord) (book : ProgressBook)
    → ((r : ProgressRecord) → ValidEntry r → ValidEntry (f r))
    → IsValid book
    → IsValid (on_entry f book)
on_entry-IsValid f book keeps v = at book.entry refl
  where
    at : (o : Option ProgressRecord) → book.entry ≡ o → IsValid (on_entry f book)
    at none e = rw e tt
    at (some r) e = rw e (keeps r (rw e at v))

if_IsValid :
    (b : Bool) (new old : ProgressBook)
    → IsValid new
    → IsValid old
    → IsValid (if b then new else old)
if_IsValid true new old h k = h
if_IsValid false new old h k = k

perform-IsValid : (o : Operation) (book : ProgressBook) → IsValid book → IsValid (perform o book)
unfolding perform begin_progress update_progress set_progress_target finish_progress
perform-IsValid (begins operation target now) book v = record {
  ongoing = λ _. refl;
  ended = λ h. cc;
  bounded = omega arith;
  counted = λ total h. cc;
}
perform-IsValid (updates generation phase units total log) book v =
    if_IsValid (book.generation == generation) _ _
      (on_entry-IsValid (updated phase units total log) book
        (updated-ValidEntry phase units total log) v)
      v
perform-IsValid (targets target) book v =
    on_entry-IsValid (retargeted target) book (retargeted-ValidEntry target) v
perform-IsValid (finishes generation result now) book v =
    if_IsValid (book.generation == generation) _ _
      (on_entry-IsValid
        (λ r. concluded result (record r { terminal_elapsed = some (now - r.started) })) book
        (λ r w. concluded-ValidEntry result _ refl w.bounded) v)
      v

run-IsValid :
    (operations : List Operation) (book : ProgressBook)
    → IsValid book
    → IsValid (run operations book)
unfolding run
run-IsValid [] book v = v
run-IsValid (o ∷ rest) book v = run-IsValid rest (perform o book) (perform-IsValid o book v)

-- After any sequence of calls on a new book, in any order and with any generations, the record, if
-- there is one, has no final duration while it runs, and has one once it is completed, failed or
-- cancelled; its log has at most 4099 bytes; and a completed operation whose total is known has
-- counted all of it.
pub run-new_book : (operations : List Operation) → IsValid (run operations new_book)
run-new_book operations = run-IsValid operations new_book tt
