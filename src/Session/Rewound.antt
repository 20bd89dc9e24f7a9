-- ===== src/Session/Rewound.antt =====
-- What `rewind` of crates/rocq-mcp/src/adapter.rs does to the checkpoints of its session.
use rocq_mcp.Prelude.{
  ℕ, ◌⊎◌, ◌∷◌, [], ◌≡◌, refl, sym, ap, subst, Option, none, some, Result, ok, err, map_err,
  and_then, and_then-ends, and_then-answers, if-answers, lookup, Option-cases, inl, inr,
}
use rocq_mcp.Types.Json.{Value}
use rocq_mcp.Checkpoint.{
  CheckpointId, Checkpoint, CheckpointBook, CheckpointError, Checked, ProofSession, select, find,
  no_active_proof, unknown,
}
use rocq_mcp.Checkpoint.Alike.{Alike, Alike-refl}
use rocq_mcp.Writeback.{Target}
use rocq_mcp.Arguments.{reject_unknown}
use rocq_mcp.Session.{
  Environment, World, Outcome, Stop, failed, target_of, state_of, commit_or_cancelled,
  validate_proof_target, proof_target,
}
use rocq_mcp.Session.Artifacts.{reconcile_artifacts}
use rocq_mcp.Session.Moves.{
  Shown, of_book, rewind_target, both_given, select_checkpoint, show_checkpoint, rewind,
}
use rocq_mcp.Session.Asked.{PointsTo, rewind_target-PointsTo}
use rocq_mcp.Session.Alike.{
  Keeps, reconcile_artifacts-Keeps, state_of-Keeps, commit_or_cancelled-Keeps, target_of-Keeps,
  tick-Keeps,
}

-- An answer shows where the arguments point, and that checkpoint has been selected; a failure
-- changes PET states at most.
abbrev pub Moved :
    Value → CheckpointBook Target → Result Stop Shown → CheckpointBook Target → Type 0
Moved args book (ok answer) book' =
    (id : CheckpointId) × PointsTo args book id
    × ((answer.id ≡ some id)
        × ((mid : CheckpointBook Target) × Alike book mid × (select id mid ≡ (ok tt, book'))))
Moved args book (err stop) book' = Alike book book'

-- A checkpoint that is not there is not selected, and one that is selected is there.
select_cases :
    (id : CheckpointId) (book : CheckpointBook Target)
    → ((e : CheckpointError) × (select id book ≡ (err e, book)))
      ⊎ ((c : Checkpoint) × (((select id book).0 ≡ ok tt) × (find id (select id book).1 ≡ ok c)))
unfolding select find
select_cases id book = select_in book.next book.proof
  where
    select_in :
        (n : ℕ) (p : Option (ProofSession Target))
        → ((e : CheckpointError) × (select id (record { next = n; proof = p })
              ≡ (err e, record { next = n; proof = p })))
          ⊎ ((c : Checkpoint) × (((select id (record { next = n; proof = p })).0 ≡ ok tt)
                × (find id (select id (record { next = n; proof = p })).1 ≡ ok c)))
    select_in n none = inl (no_active_proof, refl)
    select_in n (some session) = elim (Option-cases (lookup id session.checkpoints)) [
      | inl gone ↦ inl (unknown, rw (gone, select) refl)
      | inr (c, there) ↦
          inr (c, (rw (there, select) refl, rw (there, select, find) (rw (there) refl)))
    ]

module _ (env : Environment) (args : Value) (b : CheckpointBook Target) (id : CheckpointId)
    (points : PointsTo args b id) where
  MovedWorld : Outcome Shown → Type 0
  MovedWorld (r, w) = Moved args b r w.book

  shown_after :
      (w : World) (r : Checked (Unit {0}) × CheckpointBook Target)
      → select id w.book ≡ r
      → Alike b w.book
      → ((e : CheckpointError) × (r ≡ (err e, w.book)))
        ⊎ ((c : Checkpoint) × ((r.0 ≡ ok tt) × (find id r.1 ≡ ok c)))
      → MovedWorld
          (and_then (of_book r.0, record w { book = r.1 }) (λ _ w8. show_checkpoint env id w8))
  unfolding MovedWorld show_checkpoint
  shown_after w (err e, book) at h (inl (e', same)) =
      subst (Alike b) (sym (ap (λ (x : Checked (Unit {0}) × CheckpointBook Target). x.1) same)) h
  shown_after w (err e, book) at h (inr (c, (good, found))) = absurd (cc good)
  shown_after w (ok done, book) at h (inl (e', same)) =
      absurd (cc (ap (λ (x : Checked (Unit {0}) × CheckpointBook Target). x.0) same))
  shown_after w (ok done, book) at h (inr (c, (good, found))) =
      rw (found) (id, points, (refl, (w.book, h, at)))

  selected-MovedWorld :
      (w : World)
      → Alike b w.book
      → MovedWorld (and_then (select_checkpoint env id w) (λ _ w8. show_checkpoint env id w8))
  unfolding select_checkpoint
  selected-MovedWorld w h = shown_after w (select id w.book) refl h (select_cases id w.book)

module _ (env : Environment) (b : CheckpointBook Target) (args : Value) where
  MovedTo : Outcome Shown → Type 0
  MovedTo (r, w) = Moved args b r w.book

  rewound :
      (id : CheckpointId) (w : World)
      → PointsTo args b id
      → Alike b w.book
      → MovedTo (
          and_then (proof_target env w) λ target w2.
            and_then (validate_proof_target env target w2) λ _ w3.
              and_then (reconcile_artifacts env (target.info.identity.file ∷ []) w3) λ _ w4.
                and_then
                  (of_book (find id w4.book), w4)
                  λ checkpoint w5. and_then (state_of env id checkpoint.pet_state w5) λ _ w6.
                    and_then (commit_or_cancelled env w6) λ _ w7.
                      and_then (select_checkpoint env id w7) λ _ w8. show_checkpoint env id w8)
  unfolding proof_target validate_proof_target Keeps MovedWorld MovedTo
  rewound id w points h =
      (and_then-ends (Keeps env b) MovedTo (target_of env w.book.proof w) _
        (target_of-Keeps env b w.book.proof w h) (λ e w' h'. h')
        λ target w2 h2.
          and_then-ends (Keeps env b) MovedTo (validate_proof_target env target w2) _
            (tick-Keeps env b w2 h2) (λ e w' h'. h')
            λ _ w3 h3.
              and_then-ends (Keeps env b) MovedTo
                (reconcile_artifacts env (target.info.identity.file ∷ []) w3) _
                (reconcile_artifacts-Keeps env b (target.info.identity.file ∷ []) w3 h3)
                (λ e w' h'. h')
                λ _ w4 h4.
                  and_then-ends (Keeps env b) MovedTo (of_book (find id w4.book), w4) _ h4
                    (λ e w' h'. h')
                    λ checkpoint w5 h5.
                      and_then-ends (Keeps env b) MovedTo (state_of env id checkpoint.pet_state w5)
                        _ (state_of-Keeps env b id checkpoint.pet_state w5 h5) (λ e w' h'. h')
                        λ _ w6 h6.
                          and_then-ends (Keeps env b) MovedTo (commit_or_cancelled env w6) _
                            (commit_or_cancelled-Keeps env b w6 h6) (λ e w' h'. h')
                            λ _ w7 h7. selected-MovedWorld env args b id points w7 h7)

-- `rewind` answers with the checkpoint that its arguments name, or else with the ancestor of the
-- selected checkpoint that is as many parents above it as they ask, one if they do not say, in the
-- session as it was; that checkpoint exists and has been selected, PET states and views apart the
-- only change; where it fails, whatever PET, Dune and the client's cancellation do, the selection
-- and the history are as they were.
pub rewind-Moved :
    (env : Environment) (args : Value) (w : World)
    → Moved args w.book (rewind env args w).0 (rewind env args w).1.book
unfolding rewind MovedTo
rewind-Moved env args w =
    and_then-answers (MovedTo env w.book args)
      (map_err failed (reject_unknown args ("steps" ∷ "checkpoint" ∷ []))) w _
      (λ e _. Alike-refl w.book)
      λ _ _.
        if-answers (MovedTo env w.book args) (both_given env args) _ _ (λ _. Alike-refl w.book)
          λ apart.
            and_then-answers (MovedTo env w.book args) (rewind_target env args w.book) w _
              (λ e _. Alike-refl w.book)
              λ id to.
                rewound env w.book args id w (rewind_target-PointsTo env args w.book id apart to)
                  (Alike-refl w.book)
