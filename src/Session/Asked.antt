-- ===== src/Session/Asked.antt =====
-- Where the arguments of `rewind` of crates/rocq-mcp/src/adapter.rs point, told without the code's
-- loops, and that the code goes there.
use rocq_mcp.Prelude.{
  ℕ, zero, suc, ◌<◌, ◌⊎◌, ◌≡◌, refl, ◌∙◌, false, Bool-cases, ltb, ltb→lt, ◌==◌, ◌>>=◌, Option, none,
  some, ok, err, ok_or, map_err-eq-ok, ok-injective, bind-eq-ok, subst, ap, if◌then◌else◌, lookup,
  Option-cases, inl, inr,
}
use rocq_mcp.Types.Json.{Value, get, unsigned, as_u64}
use rocq_mcp.Errors.{Error}
use rocq_mcp.Checkpoint.{
  CheckpointId, Checkpoint, Checkpoints, CheckpointBook, ProofSession, ascend, steps_back,
  no_active_proof, too_far,
}
use rocq_mcp.Writeback.{Target}
use rocq_mcp.Arguments.{positive}
use rocq_mcp.Session.{Environment}
use rocq_mcp.Session.Moves.{of_book, rewind_target, both_given}

-- `top` is the ancestor of `id` that is `k` parents above it.
abbrev pub IsAbove : Checkpoints → ℕ → CheckpointId → CheckpointId → Type 0
IsAbove m zero id top = id ≡ top
IsAbove m (suc k) id top =
    (c : Checkpoint) × (parent : CheckpointId) × (lookup id m ≡ some c)
    × (c.parent ≡ some parent)
    × IsAbove m k parent top

-- The arguments ask for `k` steps, one if they do not say.
abbrev pub StepsAsked : Value → ℕ → Type 0
StepsAsked args k =
    ((get "steps" args ≡ none) × (k ≡ 1)) ⊎ ((get "steps" args ≡ some (unsigned k)) × (0 < k))

-- The checkpoint that the arguments name, or the one so many steps above the selected one.
abbrev pub PointsTo : Value → CheckpointBook Target → CheckpointId → Type 0
PointsTo args book id =
    ((get "steps" args ≡ none) × (get "checkpoint" args ≡ some (unsigned id)) × (0 < id))
    ⊎ ((get "checkpoint" args ≡ none)
        × ((k : ℕ) × (session : ProofSession Target) × StepsAsked args k
            × (book.proof ≡ some session)
            × IsAbove session.checkpoints k session.current id))

ascend-IsAbove :
    (k : ℕ) (m : Checkpoints) (id top : CheckpointId) → ascend k m id ≡ ok top → IsAbove m k id top
unfolding ascend
ascend-IsAbove zero m id top e = cc
ascend-IsAbove (suc k) m id top e = elim (Option-cases (lookup id m)) [
  | inl gone ↦ absurd (cc (rw (gone, ascend) at e))
  | inr (c, there) ↦ elim (Option-cases c.parent) [
    | inl root ↦ absurd (cc (rw (root) at (rw (there, ascend) at e)))
    | inr (p, under) ↦
        (c, p, there, under, ascend-IsAbove k m p top (rw (under) at (rw (there, ascend) at e)))
  ]
]

of_session :
    (k : ℕ) (proof : Option (ProofSession Target)) (id : CheckpointId)
    → (if k == 0
        then err too_far
        else (ok_or no_active_proof proof
            >>= (λ session. ascend k session.checkpoints session.current)))
      ≡ ok id
    → (session : ProofSession Target) × (proof ≡ some session)
      × IsAbove session.checkpoints k session.current id
of_session k proof id e = elim (Bool-cases (k == 0)) [
  | inl zero_steps ↦ absurd (cc (rw (zero_steps) at e))
  | inr stepping ↦ elim (Option-cases proof) [
    | inl idle ↦ absurd (cc (rw (idle) at (rw (stepping) at e)))
    | inr (session, there) ↦ (
      session,
      there,
      ascend-IsAbove k session.checkpoints session.current id (rw (there) at (rw (stepping) at e)),
    )
  ]
]

steps_back-IsAbove :
    (k : ℕ) (book : CheckpointBook Target) (id : CheckpointId)
    → of_book (steps_back k book) ≡ ok id
    → (session : ProofSession Target) × (book.proof ≡ some session)
      × IsAbove session.checkpoints k session.current id
unfolding steps_back
steps_back-IsAbove k book id e = of_session k book.proof id (map_err-eq-ok _ (steps_back k book) e)

positive_asked :
    (v : Value) (error : Error) (n : ℕ)
    → ok_or error (positive (as_u64 v)) ≡ ok n
    → (v ≡ unsigned n) × (0 < n)
positive_asked (unsigned m) error n e = elim (Bool-cases (ltb 0 m)) [
  | inl more ↦
      let same : m ≡ n = ok-injective (rw (more) at e) in
      (ap unsigned same, subst (λ k. 0 < k) same (ltb→lt 0 m more))
  | inr none_more ↦ absurd (cc (rw (none_more) at e))
]
positive_asked _ error n e = absurd (cc e)

pub rewind_target-PointsTo :
    (env : Environment) (args : Value) (book : CheckpointBook Target) (id : CheckpointId)
    → both_given env args ≡ false
    → rewind_target env args book ≡ ok id
    → PointsTo args book id
unfolding rewind_target
rewind_target-PointsTo env args book id apart e = elim (Option-cases (get "checkpoint" args)) [
  | inr (v, there) ↦ elim (Option-cases (get "steps" args)) [
    | inl unsaid ↦
        let (same, more) =
          positive_asked v _ id (map_err-eq-ok _ _ (rw (there, rewind_target) at e)) in
        inl (unsaid, there ∙ ap some same, more)
    | inr (s, said) ↦ absurd (cc (rw (there) at (rw (said, both_given) at apart)))
  ]
  | inl unnamed ↦ elim (Option-cases (get "steps" args)) [
    | inl unsaid ↦
        let (session, active, above) =
          steps_back-IsAbove 1 book id (rw (unsaid) at (rw (unnamed, rewind_target) at e)) in
        inr (unnamed, (1, session, inl (unsaid, refl), active, above))
    | inr (s, said) ↦
        let (k, asked, back) = bind-eq-ok _ _ (rw (said) at (rw (unnamed, rewind_target) at e)) in
        let (same, more) = positive_asked s _ k (map_err-eq-ok _ _ asked) in
        let (session, active, above) = steps_back-IsAbove k book id back in
        inr (unnamed, (k, session, inr (said ∙ ap some same, more), active, above))
  ]
]
