-- ===== src/Request/Tests.antt =====
-- Races on one signal, and a scope that unwinds.
use rocq_mcp.Prelude.{◌≡◌, refl, true, false, none, some, [], ◌∷◌}
use rocq_mcp.Request.{active, is_cancelled, is_timed_out, commit, cancels, times_out, commits, run}
use rocq_mcp.Request.Race.{first_wins, commit_lasting}
use rocq_mcp.Request.Scope.{
  Thread, Operation, done, unwinds, commits_request, elsewhere, scoped, execute, execute_restores,
}

first_wins_example :
    let state = run (times_out ∷ commits ∷ cancels ∷ []) active in
    (commit state ≡ (some false, state)) × (is_cancelled state ≡ true) × (is_timed_out state ≡ true)
first_wins_example = first_wins times_out (commits ∷ cancels ∷ [])

commit_lasting_example :
    is_cancelled (run (cancels ∷ times_out ∷ []) (commit (run [] active)).1) ≡ false
unfolding run commit
commit_lasting_example = commit_lasting [] (cancels ∷ times_out ∷ []) refl

abbrev outside : Thread
outside = record { signals = []; current = none }

abbrev nested : Operation
nested = scoped 1 (scoped 2 (elsewhere cancels 1 unwinds) done) (commits_request done)

nested_unwinds : (execute nested outside).0 ≡ false
unfolding execute
nested_unwinds = refl

execute_restores_example : (execute nested outside).1.current ≡ none
execute_restores_example = execute_restores nested outside
