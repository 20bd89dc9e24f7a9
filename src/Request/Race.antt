-- ===== src/Request/Race.antt =====
-- One winner among the threads that cancel, time out and commit one request
-- (crates/rocq-engine/src/request.rs).
use rocq_mcp.Prelude.{ℕ, ◌≡◌, refl, Bool, true, false, some, List, [], ◌∷◌, not}
use rocq_mcp.Request.{
  active, cancelled, committed, timed_out, is_cancelled, is_timed_out, commit, Action, cancels,
  times_out, commits, run,
}

abbrev pub settled : Action → ℕ
settled cancels = cancelled
settled times_out = timed_out
settled commits = committed

abbrev pub is_commits : Action → Bool
is_commits commits = true
is_commits _ = false

settled_stays : (a : Action) (rest : List Action) → run rest (settled a) ≡ settled a
unfolding run
settled_stays a [] = refl
settled_stays cancels (cancels ∷ rest) = settled_stays cancels rest
settled_stays cancels (times_out ∷ rest) = settled_stays cancels rest
settled_stays cancels (commits ∷ rest) = settled_stays cancels rest
settled_stays times_out (cancels ∷ rest) = settled_stays times_out rest
settled_stays times_out (times_out ∷ rest) = settled_stays times_out rest
settled_stays times_out (commits ∷ rest) = settled_stays times_out rest
settled_stays commits (cancels ∷ rest) = settled_stays commits rest
settled_stays commits (times_out ∷ rest) = settled_stays commits rest
settled_stays commits (commits ∷ rest) = settled_stays commits rest

abbrev pub is_times_out : Action → Bool
is_times_out times_out = true
is_times_out _ = false

settled-run : (a : Action) (rest : List Action) → run (a ∷ rest) active ≡ settled a
settled-run cancels rest = unfold run in settled_stays cancels rest
settled-run times_out rest = unfold run in settled_stays times_out rest
settled-run commits rest = unfold run in settled_stays commits rest

settled_answers :
    (a : Action)
    → (commit (settled a) ≡ (some (is_commits a), settled a))
      × (is_cancelled (settled a) ≡ not (is_commits a))
      × (is_timed_out (settled a) ≡ is_times_out a)
unfolding is_cancelled is_timed_out commit
settled_answers cancels = (refl, refl, refl)
settled_answers times_out = (refl, refl, refl)
settled_answers commits = (refl, refl, refl)

-- From a new signal the first operation decides, in whatever order the threads go on: a later
-- `commit` answers, with no panic, whether the first one was a commit and changes nothing,
-- `is_cancelled` says the opposite, and `is_timed_out` whether the deadline came first.
pub first_wins :
    (a : Action) (rest : List Action)
    → let state = run (a ∷ rest) active in
      (commit state ≡ (some (is_commits a), state))
      × (is_cancelled state ≡ not (is_commits a))
      × (is_timed_out state ≡ is_times_out a)
first_wins a rest = rw (settled-run a rest) (settled_answers a)

-- If `commit` answers `true` on a signal that began as new, whatever was done to it before, then
-- no later operation makes the request count as cancelled.
pub commit_lasting :
    (before after : List Action)
    → (commit (run before active)).0 ≡ some true
    → is_cancelled (run after (commit (run before active)).1) ≡ false
commit_lasting [] after h =
    let stays : run after (commit (run [] active)).1 ≡ committed =
      unfold run commit in settled_stays commits after in
    rw stays (settled_answers commits).1
commit_lasting (a ∷ before) after h =
    rw (settled-run a before, (settled_answers a).0)
      (kept a (rw (settled-run a before, (settled_answers a).0) at h))
  where
    kept :
        (a : Action)
        → some (is_commits a) ≡ some true
        → is_cancelled (run after (settled a)) ≡ false
    kept commits e = rw (settled_stays commits after) (settled_answers commits).1
    kept cancels e = cc
    kept times_out e = cc
