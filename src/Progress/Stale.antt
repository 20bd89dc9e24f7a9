-- ===== src/Progress/Stale.antt =====
-- Late calls on the progress book (crates/rocq-mcp/src/server.rs): those of a worker whose
-- operation has ended, or has been followed by another.
use rocq_mcp.Prelude.{
  ℕ, ◌≤◌, ◌<◌, ◌≡◌, ◌≢◌, refl, sym, ◌∙◌, subst, ap, inl, inr, Bool, true, false, Option, none, some,
  List, [], ◌∷◌, ◌==◌, ==_refl, ==_false, if◌then◌else◌, Result, ok, err, String, Option-cases,
  arith, All,
}
use rocq_mcp.Types.{Bytes}
use rocq_mcp.Types.Json.{get, Value}
use rocq_mcp.Errors.{Error}
use rocq_mcp.Paging.{usize_max}
use rocq_mcp.Progress.{
  is_running, ProgressRecord, ProgressBook, begin_progress, on_entry, updated, update_progress,
  retargeted, set_progress_target, concluded, finish_progress, answered, is_cancellation, failed,
  cancelled,
}
use rocq_mcp.Progress.Shape.{Operation, begins, updates, targets, finishes, perform, run}

-- Calls that a worker of `generation` may still make when its operation has been finished, and
-- calls of others, but no new operation.
abbrev pub IsLate : ℕ → Operation → Type 0
IsLate generation (begins operation target now) = ⊥
IsLate generation (updates g phase units total log) = Unit
IsLate generation (targets target) = Unit
IsLate generation (finishes g result now) = g ≢ generation

-- There is no record that still runs.
abbrev IsOver : ProgressBook → Type 0
IsOver book = (r : ProgressRecord) → book.entry ≡ some r → is_running r.status ≡ false

on_entry-same :
    (f : ProgressRecord → ProgressRecord) (book : ProgressBook)
    → ((r : ProgressRecord) → book.entry ≡ some r → f r ≡ r)
    → on_entry f book ≡ book
on_entry-same f book same = elim (Option-cases book.entry) [
  | inl e ↦ rw e refl
  | inr (r, e) ↦ rw e (ap (λ x. record book { entry = some x }) (same r e))
]

if_same : (b : Bool) (new old : ProgressBook) → new ≡ old → (if b then new else old) ≡ old
if_same true new old e = e
if_same false new old e = refl

updated-over :
    (phase : String) (units : ℕ) (total : Option ℕ) (log : Bytes) (r : ProgressRecord)
    → is_running r.status ≡ false
    → updated phase units total log r ≡ r
unfolding updated
updated-over phase units total log r over = rw over

retargeted-over :
    (target : Value) (r : ProgressRecord) → is_running r.status ≡ false → retargeted target r ≡ r
unfolding retargeted
retargeted-over target r over = rw over

perform-late :
    (o : Operation) (book : ProgressBook)
    → IsOver book
    → IsLate book.generation o
    → perform o book ≡ book
unfolding perform update_progress set_progress_target finish_progress
perform-late (begins operation target now) book over late = absurd late
perform-late (updates g phase units total log) book over late =
    if_same (book.generation == g) _ book (
      on_entry-same (updated phase units total log) book
        (λ r e. updated-over phase units total log r (over r e)))
perform-late (targets target) book over late =
    on_entry-same (retargeted target) book (λ r e. retargeted-over target r (over r e))
perform-late (finishes g result now) book over late =
    rw (==_false book.generation g (λ e. late (sym e)))

run-late :
    (operations : List Operation) (book : ProgressBook)
    → IsOver book
    → All (IsLate book.generation) operations
    → run operations book ≡ book
unfolding run
run-late [] book over late = refl
run-late (o ∷ rest) book over (first, later) =
    ap (run rest) (perform-late o book over first) ∙ run-late rest book over later

concluded-over :
    (result : Result Error Value) (r : ProgressRecord)
    → is_running (concluded result r).status ≡ false
unfolding concluded
concluded-over (ok value) r = at (get "error" value)
  where
    at : (found : Option Value) → is_running (answered found r).status ≡ false
    at none = refl
    at (some error) = refl
concluded-over (err error) r = at (is_cancellation error.kind)
  where
    at : (b : Bool) → is_running (if b then cancelled else failed) ≡ false
    at true = refl
    at false = refl

some-injective : {a b : ProgressRecord} → Path (Option ProgressRecord) (some a) (some b) → a ≡ b
some-injective e = cc

finished-generation :
    (generation : ℕ) (result : Result Error Value) (now : ℕ) (book : ProgressBook)
    → (finish_progress generation result now book).generation ≡ book.generation
unfolding finish_progress
finished-generation generation result now book = ground arith

finished-IsOver :
    (generation : ℕ) (result : Result Error Value) (now : ℕ) (book : ProgressBook)
    → book.generation ≡ generation
    → IsOver (finish_progress generation result now book)
unfolding finish_progress
finished-IsOver generation result now book e = elim (Option-cases book.entry) [
  | inl missing ↦ rw (e, ==_refl generation, missing) (λ r found. cc)
  | inr (r, there) ↦
      rw (e, ==_refl generation, there)
        (λ r' found.
          subst (λ x. is_running x.status ≡ false) (some-injective found) (concluded-over result _))
]

-- Once an operation has been finished, its record stays as it is, whatever progress of whatever
-- generation is still reported, until another operation begins or the same one is finished again.
pub finished_stays :
    (result : Result Error Value) (now : ℕ) (book : ProgressBook) (operations : List Operation)
    → All (IsLate book.generation) operations
    → run operations (finish_progress book.generation result now book)
      ≡ finish_progress book.generation result now book
finished_stays result now book operations late =
    run-late operations (finish_progress book.generation result now book)
      (finished-IsOver book.generation result now book refl)
      (subst (λ g. All (IsLate g) operations)
        (sym (finished-generation book.generation result now book)) late)

-- A generation above `low`, within 64 bits.
abbrev IsAbove : ℕ → ProgressBook → Type 0
IsAbove low book = (low < book.generation) × (book.generation ≤ usize_max)

on_entry-generation :
    (f : ProgressRecord → ProgressRecord) (book : ProgressBook)
    → (on_entry f book).generation ≡ book.generation
on_entry-generation f book = elim (Option-cases book.entry) [
  | inl e ↦ rw e refl
  | inr (r, e) ↦ rw e refl
]

if_generation :
    (b : Bool) (new old : ProgressBook)
    → new.generation ≡ old.generation
    → (if b then new else old).generation ≡ old.generation
if_generation true new old e = e
if_generation false new old e = refl

perform-IsAbove :
    (low : ℕ) (o : Operation) (book : ProgressBook)
    → IsAbove low book
    → IsAbove low (perform o book)
unfolding perform begin_progress update_progress set_progress_target finish_progress
perform-IsAbove low (begins operation target now) book (more, bound) =
    (ground (arith, more, bound), ground (arith, more, bound))
perform-IsAbove low (updates g phase units total log) book above =
    subst (λ g. (low < g) × (g ≤ usize_max))
      (sym (
        if_generation (book.generation == g) _ book
          (on_entry-generation (updated phase units total log) book)))
      above
perform-IsAbove low (targets target) book above =
    subst (λ g. (low < g) × (g ≤ usize_max)) (sym (on_entry-generation (retargeted target) book))
      above
perform-IsAbove low (finishes g result now) book above =
    subst (λ g. (low < g) × (g ≤ usize_max)) (sym (finished-generation g result now book)) above

run-IsAbove :
    (low : ℕ) (operations : List Operation) (book : ProgressBook)
    → IsAbove low book
    → IsAbove low (run operations book)
unfolding run
run-IsAbove low [] book above = above
run-IsAbove low (o ∷ rest) book above =
    run-IsAbove low rest (perform o book) (perform-IsAbove low o book above)

-- When another operation has begun, no update and no end that an earlier operation's worker still
-- reports, under the generation that the book had before, changes anything, whatever calls come
-- between; generations are distinct as long as the counter has not reached the end of 64 bits.
pub stale_worker :
    (book : ProgressBook)
    → book.generation < usize_max
    → (operation : String) (target : Option Value) (now : ℕ) (operations : List Operation)
    → let later = run operations (begin_progress operation target now book).1 in
      ((phase : String) (units : ℕ) (total : Option ℕ) (log : Bytes)
        → update_progress book.generation phase units total log later ≡ later)
      × ((result : Result Error Value) (at : ℕ)
          → finish_progress book.generation result at later ≡ later)
unfolding begin_progress update_progress finish_progress
stale_worker book room operation target now operations =
    let (more, bound) =
      run-IsAbove book.generation operations (begin_progress operation target now book).1
        (ground (arith, room), ground (arith, room)) in
    let other =
      ==_false (run operations (begin_progress operation target now book).1).generation
        book.generation (λ e. omega (arith, e, more)) in
    ((λ phase units total log. rw other refl), (λ result at. rw other refl))
