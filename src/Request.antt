-- ===== src/Request.antt =====
-- crates/rocq-engine/src/request.rs: the cancellation signal of one admitted request, and the
-- scope in which the engine's thread sees it. The atomic is a `u8`; each method is one atomic
-- operation, so threads interleave as sequences of operations.
pub mod Race
pub mod Scope
mod Tests
use rocq_mcp.Prelude.{
  ℕ, Bool, true, false, Option, none, some, List, [], ◌∷◌, ◌==◌, ◌||◌, if◌then◌else◌, Result, ok,
  err,
}

abbrev pub active : ℕ
active = 0

abbrev pub cancelled : ℕ
cancelled = 1

abbrev pub committed : ℕ
committed = 2

abbrev pub timed_out : ℕ
timed_out = 3

-- `AtomicU8::compare_exchange`: the previous value, as `err` where it was not the expected one.
unfoldable pub compare_exchange : ℕ → ℕ → ℕ → Result ℕ ℕ × ℕ
compare_exchange expected new state =
    if state == expected then (ok state, new) else (err state, state)

unfoldable pub cancel : ℕ → ℕ
unfolding compare_exchange
cancel state = (compare_exchange active cancelled state).1

unfoldable pub timeout : ℕ → ℕ
unfolding compare_exchange
timeout state = (compare_exchange active timed_out state).1

unfoldable pub is_cancelled : ℕ → Bool
is_cancelled state = state == cancelled || state == timed_out

unfoldable pub is_timed_out : ℕ → Bool
is_timed_out state = state == timed_out

-- The answer of `commit`; `none` is the panic of `unreachable!`.
commit_answer : Result ℕ ℕ → Option Bool
commit_answer (ok previous) = some true
commit_answer (err state) =
    if state == committed
    then some true
    else if state == cancelled || state == timed_out
    then some false
    else none

unfoldable pub commit : ℕ → Option Bool × ℕ
unfolding compare_exchange commit_answer
commit state =
    let (result, state') = compare_exchange active committed state in (commit_answer result, state')

-- An operation of some thread on the signal.
pub data Action : Type 0 where
  cancels times_out commits : Action

unfoldable pub perform : Action → ℕ → ℕ
unfolding cancel timeout commit
perform cancels state = cancel state
perform times_out state = timeout state
perform commits state = (commit state).1

unfoldable pub run : List Action → ℕ → ℕ
unfolding perform
run [] state = state
run (a ∷ rest) state = run rest (perform a state)
