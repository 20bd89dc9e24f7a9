-- ===== src/Checkpoint/Same.antt =====
-- Graphs with the same history: the same parents, inputs and completion at every identifier, with
-- other PET states and views. `path` and `fragments` of crates/rocq-mcp/src/checkpoint.rs do not
-- tell them apart.
use rocq_mcp.Prelude.{
  ℕ, zero, suc, ◌≡◌, refl, sym, ap, ◌∙◌, Bool, Option, none, some, List, [], ◌∷◌, ◌++◌, ok, err,
  lookup,
}
use rocq_mcp.Types.{Text}
use rocq_mcp.Checkpoint.{
  CheckpointId, Checkpoint, Checkpoints, CheckpointBook, ProofSession, Checked, walk, path,
  reversed, unknown, find, inputs, inputs_along, fragments,
}
use rocq_mcp.Checkpoint.Paths.{walk-root, walk-child}

abbrev pub Skeleton : Type 0
Skeleton = Option CheckpointId × (Option Text × Bool)

abbrev pub skeleton : Option Checkpoint → Option Skeleton
skeleton none = none
skeleton (some c) = some (c.parent, (c.accepted_input, c.finished))

abbrev pub IsSame : Checkpoints → Checkpoints → Type 0
IsSame m m' = (id : CheckpointId) → skeleton (lookup id m) ≡ skeleton (lookup id m')

abbrev up :
    Option Skeleton
    → List CheckpointId
    → (CheckpointId → Option (Checked (List CheckpointId)))
    → Option (Checked (List CheckpointId))
up none acc k = some (err unknown)
up (some (none, rest)) acc k = some (ok acc)
up (some (some p, rest)) acc k = k p

walk-up :
    (fuel : ℕ) (m : Checkpoints) (id : CheckpointId) (acc : List CheckpointId)
    → walk (suc fuel) m id acc
      ≡ up (skeleton (lookup id m)) (acc ++ id ∷ []) (λ p. walk fuel m p (acc ++ id ∷ []))
unfolding walk
walk-up fuel m id acc = at (lookup id m) refl
  where
    by_parent :
        (c : Checkpoint) (parent : Option CheckpointId)
        → c.parent ≡ parent
        → lookup id m ≡ some c
        → walk (suc fuel) m id acc
          ≡ up
              (some (parent, (c.accepted_input, c.finished)))
              (acc ++ id ∷ [])
              (λ p. walk fuel m p (acc ++ id ∷ []))
    by_parent c none top e = walk-root m id c e fuel acc top
    by_parent c (some p) under e = walk-child m id c e fuel acc under

    at :
        (o : Option Checkpoint)
        → lookup id m ≡ o
        → walk (suc fuel) m id acc
          ≡ up (skeleton o) (acc ++ id ∷ []) (λ p. walk fuel m p (acc ++ id ∷ []))
    at none e = rw (e, walk)
    at (some c) e = by_parent c c.parent refl e

up_same :
    (s : Option Skeleton) (acc : List CheckpointId)
    (k l : CheckpointId → Option (Checked (List CheckpointId)))
    → ((p : CheckpointId) → k p ≡ l p)
    → up s acc k ≡ up s acc l
up_same none acc k l h = refl
up_same (some (none, rest)) acc k l h = refl
up_same (some (some p, rest)) acc k l h = h p

module _ (m m' : Checkpoints) (same : IsSame m m') where
  walk_same :
      (fuel : ℕ) (id : CheckpointId) (acc : List CheckpointId)
      → walk fuel m id acc ≡ walk fuel m' id acc
  unfolding walk
  walk_same zero id acc = refl
  walk_same (suc fuel) id acc =
      walk-up fuel m id acc
      ∙ ap (λ s. up s (acc ++ id ∷ []) (λ p. walk fuel m p (acc ++ id ∷ []))) (same id)
      ∙ up_same (skeleton (lookup id m')) (acc ++ id ∷ []) _ _
          (λ p. walk_same fuel p (acc ++ id ∷ []))
      ∙ sym (walk-up fuel m' id acc)

  module _ {Target : Type 0} (book : CheckpointBook Target) (s s' : ProofSession Target)
      (from : s.checkpoints ≡ m) (to : s'.checkpoints ≡ m') where
    abbrev old_book : CheckpointBook Target
    old_book = record book { proof = some s }

    abbrev new_book : CheckpointBook Target
    new_book = record book { proof = some s' }

    pub path_same : (id : CheckpointId) → path id old_book ≡ path id new_book
    unfolding path
    path_same id = rw (from, to) (ap reversed (walk_same (suc id) id []))

    inputs_same : (ids : List CheckpointId) → inputs ids old_book ≡ inputs ids new_book
    unfolding inputs find
    inputs_same [] = refl
    inputs_same (id ∷ ids) =
        at (lookup id s.checkpoints) (lookup id s'.checkpoints) refl refl (rw (from, to) (same id))
          (inputs_same ids)
      where
        at :
            (o o' : Option Checkpoint)
            → lookup id s.checkpoints ≡ o
            → lookup id s'.checkpoints ≡ o'
            → skeleton o ≡ skeleton o'
            → inputs ids old_book ≡ inputs ids new_book
            → inputs (id ∷ ids) old_book ≡ inputs (id ∷ ids) new_book
        at none none e e' h rest = rw (e, e')
        at none (some c') e e' h rest = cc
        at (some c) none e e' h rest = cc
        at (some c) (some c') e e' h rest =
            let alike : c.accepted_input ≡ c'.accepted_input = cc in simp (e, e', alike, rest)

    inputs_along_same :
        (found : Option (Checked (List CheckpointId)))
        → inputs_along found old_book ≡ inputs_along found new_book
    inputs_along_same none = refl
    inputs_along_same (some (err e)) = refl
    inputs_along_same (some (ok ids)) = ap some (inputs_same ids)

    pub fragments_same : (id : CheckpointId) → fragments id old_book ≡ fragments id new_book
    unfolding fragments
    fragments_same id =
        ap (λ found. inputs_along found old_book) (path_same id)
        ∙ inputs_along_same (path id new_book)
