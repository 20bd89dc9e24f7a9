-- ===== src/Checkpoint/Invalidate.antt =====
-- `invalidate_states` of crates/rocq-mcp/src/checkpoint.rs forgets the PET handles and nothing of
-- the history.
use rocq_mcp.Prelude.{
  ℕ, zero, suc, ◌≡◌, refl, sym, ap, ◌∙◌, Option, none, some, List, [], ◌∷◌, ◌++◌, inl, inr,
  Option-cases, ok, err, ok_or-eq-ok, lookup, map_values, lookup-map_values,
  lookup-map_values_cases,
}
use rocq_mcp.Checkpoint.{
  CheckpointId, Checkpoint, Checkpoints, ProofSession, Checked, walk, path, unknown, inputs,
  inputs_along, fragments, find, invalidate_states, invalidated,
}
use rocq_mcp.Checkpoint.Paths.{walk-root, walk-child, open_book}

module _ (m : Checkpoints) where
  there_invalidated :
      (id : CheckpointId) {c : Checkpoint}
      → lookup id m ≡ some c
      → lookup id (map_values invalidated m) ≡ some (invalidated c)
  there_invalidated id there = lookup-map_values invalidated id m ∙ (rw there)

  walk-invalidated :
      (fuel : ℕ) (id : CheckpointId) (acc : List CheckpointId)
      → walk fuel (map_values invalidated m) id acc ≡ walk fuel m id acc
  unfolding walk
  walk-invalidated zero id acc = refl
  walk-invalidated (suc fuel) id acc = elim (Option-cases (lookup id m)) [
    | inl gone ↦ rw (lookup-map_values invalidated id m, gone, walk)
    | inr (c, there) ↦ elim (Option-cases c.parent) [
      | inl top ↦
          walk-root (map_values invalidated m) id (invalidated c) (there_invalidated id there) fuel
            acc top
          ∙ sym (walk-root m id c there fuel acc top)
      | inr (p, under) ↦
          walk-child (map_values invalidated m) id (invalidated c) (there_invalidated id there) fuel
            acc under
          ∙ walk-invalidated fuel p (acc ++ id ∷ [])
          ∙ sym (walk-child m id c there fuel acc under)
    ]
  ]

module _ {Target : Type 0} (next : ℕ) (s : ProofSession Target) where
  abbrev pub forgotten : ProofSession Target
  forgotten = record s { checkpoints = map_values invalidated s.checkpoints }

  path-invalidated :
      (id : CheckpointId) → path id (open_book next forgotten) ≡ path id (open_book next s)
  unfolding path
  path-invalidated id = rw (walk-invalidated s.checkpoints (suc id) id [])

  inputs-invalidated :
      (ids : List CheckpointId)
      → inputs ids (open_book next forgotten) ≡ inputs ids (open_book next s)
  unfolding inputs find
  inputs-invalidated [] = refl
  inputs-invalidated (id ∷ ids) = elim (Option-cases (lookup id s.checkpoints)) [
    | inl gone ↦ rw (lookup-map_values invalidated id s.checkpoints, gone)
    | inr (c, there) ↦
        simp (there_invalidated s.checkpoints id there, there, inputs-invalidated ids)
  ]

  inputs_along-invalidated :
      (found : Option (Checked (List CheckpointId)))
      → inputs_along found (open_book next forgotten) ≡ inputs_along found (open_book next s)
  inputs_along-invalidated none = refl
  inputs_along-invalidated (some (err e)) = refl
  inputs_along-invalidated (some (ok ids)) = ap some (inputs-invalidated ids)

  fragments-invalidated :
      (id : CheckpointId)
      → fragments id (open_book next forgotten) ≡ fragments id (open_book next s)
  unfolding fragments
  fragments-invalidated id =
      rw (path-invalidated id, fragments) (inputs_along-invalidated (path id (open_book next s)))

  -- Forgetting the PET handles of a session leaves its target, its selected node, the counter of
  -- identifiers, and the path and the replay inputs of every identifier as they were, and leaves
  -- no node with a handle.
  pub invalidate_states_lem :
      (id : CheckpointId)
      → ((s' : ProofSession Target) × ((invalidate_states (open_book next s)).proof ≡ some s')
          × (s'.target ≡ s.target)
          × (s'.current ≡ s.current))
        × ((invalidate_states (open_book next s)).next ≡ next)
        × (path id (invalidate_states (open_book next s)) ≡ path id (open_book next s))
        × (fragments id (invalidate_states (open_book next s)) ≡ fragments id (open_book next s))
        × ((c : Checkpoint)
            → find id (invalidate_states (open_book next s)) ≡ ok c
            → c.pet_state ≡ none)
  unfolding invalidate_states find
  invalidate_states_lem id = (
    (forgotten, refl, refl, refl),
    refl,
    path-invalidated id,
    fragments-invalidated id,
    λ c e.
        let (old, there, same) =
          lookup-map_values_cases invalidated id s.checkpoints (ok_or-eq-ok unknown _ e) in
        ap (λ (x : Checkpoint). x.pet_state) (sym same),
  )
