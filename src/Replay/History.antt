-- ===== src/Replay/History.antt =====
-- What a replay leaves as it was (`replay_checkpoint` of crates/rocq-mcp/src/adapter.rs).
use rocq_mcp.Prelude.{
  ℕ, ◌≡◌, refl, sym, ap, ◌∙◌, subst, Option, none, some, List, [], ◌∷◌, Result, ok, err, inl, inr,
  Bool-cases, Option-cases, lookup, insert, lookup-insert, ◌==◌, arith,
}
use rocq_mcp.Types.{PetStateId}
use rocq_mcp.Errors.{Error}
use rocq_mcp.Checkpoint.{
  CheckpointId, Checkpoint, Checkpoints, CheckpointBook, CheckpointError, ProofSession, path,
  fragments,
}
use rocq_mcp.Checkpoint.Paths.{open_book}
use rocq_mcp.Checkpoint.Shape.{ValidSession}
use rocq_mcp.Replay.Total.{replay_checkpoint_total}
use rocq_mcp.Checkpoint.Alike.{Alike, AlikeProof, Alike-refl}
use rocq_mcp.Checkpoint.Same.{skeleton, IsSame, path_same, fragments_same}
use rocq_mcp.Replay.{Engine, Pet, Outcome, Staged, stage}
use rocq_mcp.Replay.Install.{
  finish, install, renewed, with_replaced, records_of, finish_stage, replay_records, replay_path,
  replay_checkpoint, installed,
}

with_replaced-graph :
    (previous : Option PetStateId) (r : Result Error (List PetStateId) × Checkpoints)
    → (with_replaced previous r).1 ≡ r.1
with_replaced-graph previous (ok replaced, m) = refl
with_replaced-graph previous (err e, m) = refl

insert-IsSame :
    (s : Staged) (c : Checkpoint) (m : Checkpoints)
    → lookup s.id m ≡ some c
    → IsSame m (insert s.id (renewed s c) m)
insert-IsSame s c m there id = elim (Bool-cases (s.id == id)) [
  | inl same ↦
      let at : s.id ≡ id = ground (arith, same) in
      rw (lookup-insert s.id id (renewed s c) m, same)
        (ap skeleton (ap (λ i. lookup i m) (sym at) ∙ there))
  | inr other ↦ rw (lookup-insert s.id id (renewed s c) m, other) refl
]

install-IsSame : (staged : List Staged) (m : Checkpoints) → IsSame m (install staged m).1
unfolding install
install-IsSame [] m id = refl
install-IsSame (s ∷ rest) m id = elim (Option-cases (lookup s.id m)) [
  | inl gone ↦ rw (gone, install) refl
  | inr (c, there) ↦
      rw (there, install)
        (insert-IsSame s c m there id
          ∙ install-IsSame rest (insert s.id (renewed s c) m) id
          ∙ ap (λ g. skeleton (lookup id g))
              (sym (with_replaced-graph c.pet_state (install rest (insert s.id (renewed s c) m)))))
]

-- Books whose sessions differ in states and views only.
abbrev pub IsSameHistory :
    {Target : Type 0} → CheckpointBook Target → ProofSession Target → CheckpointBook Target → Type 0
IsSameHistory {Target} book session book' =
    (session' : ProofSession Target) × (book'.proof ≡ some session')
    × (session'.target ≡ session.target)
    × (session'.current ≡ session.current)
    × ((id : CheckpointId)
        → (path id book' ≡ path id book) × (fragments id book' ≡ fragments id book))

module _ (engine : Engine) where
  finish-IsSame :
      (m : Checkpoints) (o : Outcome (PetStateId × List Staged)) → IsSame m (finish engine m o).1
  unfolding finish
  finish-IsSame m (err e, pet) id = refl
  finish-IsSame m (ok (state, []), pet) id = refl
  finish-IsSame m (ok (state, s ∷ rest), pet) id = install-IsSame (s ∷ rest) m id

  -- What a replay may answer: the graph that it leaves has the same history.
  abbrev Keeps : Checkpoints → Option (Outcome PetStateId × Checkpoints) → Type 0
  Keeps m none = Unit
  Keeps m (some (outcome, m')) = IsSame m m'

  finish_stage-Keeps :
      (m : Checkpoints) (o : Option (Outcome (PetStateId × List Staged)))
      → Keeps m (finish_stage engine m o)
  finish_stage-Keeps m none = tt
  finish_stage-Keeps m (some outcome) = finish-IsSame m outcome

  replay_records-Keeps :
      (m : Checkpoints) (records : Result Error (List (CheckpointId × Checkpoint))) (pet : Pet)
      → Keeps m (replay_records engine m records pet)
  unfolding replay_records
  replay_records-Keeps m (err e) pet = λ id. refl
  replay_records-Keeps m (ok records) pet = finish_stage-Keeps m (stage engine none records pet)

  replay_path-Keeps :
      (m : Checkpoints) (found : Option (Result CheckpointError (List CheckpointId))) (pet : Pet)
      → Keeps m (replay_path engine m found pet)
  unfolding replay_path
  replay_path-Keeps m none pet = tt
  replay_path-Keeps m (some (err e)) pet = λ id. refl
  replay_path-Keeps m (some (ok ids)) pet = replay_records-Keeps m (records_of ids m) pet

  installed-IsSameHistory :
      {Target : Type 0} (book : CheckpointBook Target) (session : ProofSession Target)
      (r : Option (Outcome PetStateId × Checkpoints))
      → book.proof ≡ some session
      → Keeps session.checkpoints r
      → (outcome : Outcome PetStateId) (book' : CheckpointBook Target)
      → installed engine book session r ≡ some (outcome, book')
      → IsSameHistory book session book'
  installed-IsSameHistory book session none e h outcome book' made = absurd (cc made)
  installed-IsSameHistory {Target} book session (some (answer, m)) e h outcome book' made =
      subst (IsSameHistory book session) (second made) (
        record session { checkpoints = m },
        refl,
        refl,
        refl,
        λ id. (
          sym (
                path_same session.checkpoints m h book session (record session { checkpoints = m })
                  refl refl id)
              ∙ ap (path id) back,
          sym (
                fragments_same session.checkpoints m h book session
                  (record session { checkpoints = m }) refl refl id)
              ∙ ap (fragments id) back,
        ),
      )
    where
      back : Path (CheckpointBook Target) (record book { proof = some session }) book
      back = ap (λ p. record book { proof = p }) (sym e)

      second :
          {b : CheckpointBook Target}
          → Path
              (Option (Outcome PetStateId × CheckpointBook Target))
              (some (answer, b))
              (some (outcome, book'))
          → b ≡ book'
      second made = cc

  replayed-IsSameHistory :
      {Target : Type 0} (target : CheckpointId) (next : ℕ) (session : ProofSession Target)
      (pet : Pet) (outcome : Outcome PetStateId) (book' : CheckpointBook Target)
      → replay_checkpoint engine target (open_book next session) pet ≡ some (outcome, book')
      → IsSameHistory (open_book next session) session book'
  unfolding replay_checkpoint
  replayed-IsSameHistory target next session pet outcome book' made =
      installed-IsSameHistory (open_book next session) session
        (replay_path engine session.checkpoints (path target (open_book next session)) pet) refl
        (replay_path-Keeps session.checkpoints (path target (open_book next session)) pet) outcome
        book' made

  -- On a checkpoint graph of the right shape a replay of any identifier returns, whatever the
  -- engine answers; and however it ends, the session's target, its selected checkpoint, and the
  -- path and the accepted fragments of every identifier are as they were.
  pub replay_checkpoint-IsSameHistory :
      {Target : Type 0} (target : CheckpointId) (next : ℕ) (session : ProofSession Target)
      (pet : Pet)
      → ValidSession next session
      → (outcome : Outcome PetStateId) × (book' : CheckpointBook Target) × (replay_checkpoint engine
            target
            (open_book next session)
            pet
          ≡ some (outcome, book'))
        × IsSameHistory (open_book next session) session book'
  replay_checkpoint-IsSameHistory target next session pet valid =
      let ((outcome, book'), made) = replay_checkpoint_total engine target next session pet valid in
      (outcome, book', made, replayed-IsSameHistory target next session pet outcome book' made)

  installed-Alike :
      {Target : Type 0} (book : CheckpointBook Target) (session : ProofSession Target)
      (r : Option (Outcome PetStateId × Checkpoints))
      → book.proof ≡ some session
      → Keeps session.checkpoints r
      → (outcome : Outcome PetStateId) (book' : CheckpointBook Target)
      → installed engine book session r ≡ some (outcome, book')
      → Alike book book'
  installed-Alike book session none e h outcome book' made = absurd (cc made)
  installed-Alike {Target} book session (some (answer, m)) e h outcome book' made =
      subst (Alike book) (second made) (record {
        same_next = refl;
        same_proof =
            subst (λ p. AlikeProof p (some (record session { checkpoints = m }))) (sym e)
              (refl, refl, h);
      })
    where
      second :
          {b : CheckpointBook Target}
          → Path
              (Option (Outcome PetStateId × CheckpointBook Target))
              (some (answer, b))
              (some (outcome, book'))
          → b ≡ book'
      second made = cc

  Alike-cases :
      {Target : Type 0} (target : CheckpointId) (next : ℕ) (proof : Option (ProofSession Target))
      (pet : Pet) (outcome : Outcome PetStateId) (book' : CheckpointBook Target)
      → replay_checkpoint engine target (record { next = next; proof = proof }) pet
        ≡ some (outcome, book')
      → Alike (record { next = next; proof = proof }) book'
  unfolding replay_checkpoint
  Alike-cases {Target} target next none pet outcome book' made =
      subst (Alike (record { next = next; proof = none })) (second made)
        (Alike-refl (record { next = next; proof = none }))
    where
      second :
          {a : Outcome PetStateId} {b : CheckpointBook Target}
          → Path
              (Option (Outcome PetStateId × CheckpointBook Target))
              (some (a, b))
              (some (outcome, book'))
          → b ≡ book'
      second made = cc
  Alike-cases target next (some session) pet outcome book' made =
      installed-Alike (open_book next session) session
        (replay_path engine session.checkpoints (path target (open_book next session)) pet) refl
        (replay_path-Keeps session.checkpoints (path target (open_book next session)) pet) outcome
        book' made

  -- The same of any book, as a relation between the book before and the book after.
  pub replay_checkpoint-Alike :
      {Target : Type 0} (target : CheckpointId) (book : CheckpointBook Target) (pet : Pet)
      (outcome : Outcome PetStateId) (book' : CheckpointBook Target)
      → replay_checkpoint engine target book pet ≡ some (outcome, book')
      → Alike book book'
  replay_checkpoint-Alike target book pet outcome book' made =
      Alike-cases target book.next book.proof pet outcome book' made
