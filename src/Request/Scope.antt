-- ===== src/Request/Scope.antt =====
-- `with_request_cancellation` and the functions that read the thread's current request
-- (crates/rocq-engine/src/request.rs). Signals live in a store, since clones of one request share
-- its atomic; other threads act on the store between the steps of this one.
use rocq_mcp.Prelude.{
  ℕ, ◌≡◌, refl, ◌∙◌, Bool, true, false, Option, none, some, List, arith, lookup, insert,
}
use rocq_mcp.Request.{active, is_cancelled, is_timed_out, commit, Action, perform}

pub record Thread : Type 0 where
  pub signals : List (ℕ × ℕ)
  pub current : Option ℕ

-- The value of a signal; a request that nothing has touched is active.
abbrev pub signal : Thread → ℕ → ℕ
signal t id = elim (lookup id t.signals) [ none ↦ active | some state ↦ state ]

unfoldable pub request_cancelled : Thread → Bool
request_cancelled t = elim t.current [ none ↦ false | some id ↦ is_cancelled (signal t id) ]

unfoldable pub request_timed_out : Thread → Bool
request_timed_out t = elim t.current [ none ↦ false | some id ↦ is_timed_out (signal t id) ]

unfoldable pub request_scope_active : Thread → Bool
request_scope_active t = elim t.current [ none ↦ false | some id ↦ true ]

-- Outside a scope the caller may always proceed.
unfoldable pub commit_request : Thread → Option Bool × Thread
commit_request t = elim t.current [
  | none ↦ (some true, t)
  | some id ↦
      let (answer, state) = commit (signal t id) in
      (answer, record t { signals = insert id state t.signals })
]

-- What a synchronous operation does to its thread: calls above, actions of other threads, nested
-- scopes, and a panic that unwinds.
pub data Operation : Type 0 where
  done : Operation
  unwinds : Operation
  commits_request : Operation → Operation
  elsewhere : Action → ℕ → Operation → Operation
  scoped : ℕ → Operation → Operation → Operation

-- The `Restore` guard puts the previous request back also where the operation unwinds; the result
-- says whether it returned.
unfoldable pub with_request_cancellation : ℕ → (Thread → Bool × Thread) → Thread → Bool × Thread
with_request_cancellation id operation t =
    let (returned, t') = operation (record t { current = some id }) in
    (returned, record t' { current = t.current })

abbrev pub and_then : Bool × Thread → (Thread → Bool × Thread) → Bool × Thread
and_then (true, t) k = k t
and_then (false, t) k = (false, t)

unfoldable pub execute : Operation → Thread → Bool × Thread
unfolding with_request_cancellation commit_request
execute done t = (true, t)
execute unwinds t = (false, t)
execute (commits_request rest) t = execute rest (commit_request t).1
execute (elsewhere action id rest) t =
    execute rest (record t { signals = insert id (perform action (signal t id)) t.signals })
execute (scoped id inner rest) t =
    and_then (with_request_cancellation id (execute inner) t) (execute rest)

commit_request-current : (t : Thread) → (commit_request t).1.current ≡ t.current
unfolding commit_request
commit_request-current t = ground arith

and_then-current :
    (p : Bool × Thread) (k : Thread → Bool × Thread) {c : Option ℕ}
    → ((t : Thread) → (k t).1.current ≡ t.current)
    → p.1.current ≡ c
    → (and_then p k).1.current ≡ c
and_then-current (true, t) k keeps e = keeps t ∙ e
and_then-current (false, t) k keeps e = e

-- However an operation nests its scopes, and whether it returns or unwinds, the thread's current
-- request is afterwards the one that it was before.
pub execute_restores : (o : Operation) (t : Thread) → (execute o t).1.current ≡ t.current
unfolding execute
execute_restores done t = refl
execute_restores unwinds t = refl
execute_restores (commits_request rest) t =
    execute_restores rest (commit_request t).1 ∙ commit_request-current t
execute_restores (elsewhere action id rest) t = execute_restores rest _
execute_restores (scoped id inner rest) t =
    and_then-current (with_request_cancellation id (execute inner) t) (execute rest)
      (execute_restores rest) (unfold with_request_cancellation in refl)
