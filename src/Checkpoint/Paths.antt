-- ===== src/Checkpoint/Paths.antt =====
-- Paths in a checkpoint graph: what `path` and `steps_back` of crates/rocq-mcp/src/checkpoint.rs
-- compute on a graph of the right shape, and that their loops end.
use mathlib.Core.List.{reverse-cons, reverse-reverse}
use rocq_mcp.Prelude.{
  ℕ, zero, suc, ◌≤◌, ◌<◌, ◌≡◌, refl, sym, ap, ◌∙◌, Option, none, some, List, [], ◌∷◌, ◌++◌, arith,
  ==_false, ◌⊎◌, inl, inr, Option-cases, ok, err, ok_or, lookup, get_elem?, reverse, append_assoc,
  subst,
}
use rocq_mcp.Checkpoint.{
  CheckpointId, Checkpoint, Checkpoints, ProofSession, CheckpointBook, walk, ascend, path,
  steps_back, unknown, too_far,
}
use rocq_mcp.Checkpoint.Shape.{Known, ParentOk, ValidSession}

-- From the node after `previous` down to `last`: the parent of each node is the one before it.
abbrev pub Chain : Checkpoints → Option CheckpointId → List CheckpointId → CheckpointId → Type 0
Chain m previous [] last = previous ≡ some last
Chain m previous (id ∷ rest) last =
    ((c : Checkpoint) × (lookup id m ≡ some c) × (c.parent ≡ previous))
    × Chain m (some id) rest last

-- A path that begins at a root.
abbrev pub IsRootPath : Checkpoints → List CheckpointId → CheckpointId → Type 0
IsRootPath m ids last = Chain m none ids last

pub Chain-snoc :
    (m : Checkpoints) (previous : Option CheckpointId) (ids : List CheckpointId)
    (last id : CheckpointId) (c : Checkpoint)
    → lookup id m ≡ some c
    → c.parent ≡ some last
    → Chain m previous ids last
    → Chain m previous (ids ++ id ∷ []) id
Chain-snoc m previous [] last id c there under h = ((c, there, under ∙ sym h), refl)
Chain-snoc m previous (x ∷ ids) last id c there under h =
    (h.0, Chain-snoc m (some x) ids last id c there under h.1)

-- What the loops of `path` and `steps_back` do above one node: `up` lists the node and its
-- ancestors, the root last.
pub record Ancestry (m : Checkpoints) (id : CheckpointId) (up : List CheckpointId) : Type 0 where
  pub walks :
      (fuel : ℕ) (acc : List CheckpointId)
      → id ≤ fuel
      → walk (suc fuel) m id acc ≡ some (ok (acc ++ up))
  pub leads : IsRootPath m (reverse up) id
  pub ascends : (steps : ℕ) → ascend steps m id ≡ ok_or too_far (get_elem? up steps)

module _ (m : Checkpoints) (id : CheckpointId) (c : Checkpoint) (there : lookup id m ≡ some c) where
  pub walk-root :
      (fuel : ℕ) (acc : List CheckpointId)
      → c.parent ≡ none
      → walk (suc fuel) m id acc ≡ some (ok (acc ++ id ∷ []))
  unfolding walk
  walk-root fuel acc top = rw (there, walk) (rw top)

  pub walk-child :
      (fuel : ℕ) (acc : List CheckpointId) {p : CheckpointId}
      → c.parent ≡ some p
      → walk (suc fuel) m id acc ≡ walk fuel m p (acc ++ id ∷ [])
  unfolding walk
  walk-child fuel acc under = rw (there, walk) (rw under)

  ascend-root : (steps : ℕ) → c.parent ≡ none → ascend (suc steps) m id ≡ err too_far
  unfolding ascend
  ascend-root steps top = rw (there, ascend) (rw top)

  ascend-child :
      (steps : ℕ) {p : CheckpointId}
      → c.parent ≡ some p
      → ascend (suc steps) m id ≡ ascend steps m p
  unfolding ascend
  ascend-child steps under = rw (there, ascend) (rw under)

  Ancestry-root : c.parent ≡ none → Ancestry m id (id ∷ [])
  Ancestry-root top = record {
    walks = λ fuel acc h. walk-root fuel acc top;
    leads = ((c, there, top), refl);
    ascends = ascends';
  }
    where
      ascends' : (steps : ℕ) → ascend steps m id ≡ ok_or too_far (get_elem? (id ∷ []) steps)
      ascends' zero = unfold ascend in refl
      ascends' (suc steps) = ascend-root steps top

  Ancestry-child :
      {p : CheckpointId} (up : List CheckpointId)
      → c.parent ≡ some p
      → p < id
      → Ancestry m p up
      → Ancestry m id (id ∷ up)
  Ancestry-child {p} up under older h = record {
    walks = walks';
    leads = rw (reverse-cons id up) (Chain-snoc m none (reverse up) p id c there under h.leads);
    ascends = ascends';
  }
    where
      walks' :
          (fuel : ℕ) (acc : List CheckpointId)
          → id ≤ fuel
          → walk (suc fuel) m id acc ≡ some (ok (acc ++ id ∷ up))
      walks' zero acc fits = absurd (omega (arith, older))
      walks' (suc fuel) acc fits =
          walk-child (suc fuel) acc under
          ∙ h.walks fuel (acc ++ id ∷ []) (omega (arith, older))
          ∙ (rw (append_assoc acc (id ∷ []) up))

      ascends' : (steps : ℕ) → ascend steps m id ≡ ok_or too_far (get_elem? (id ∷ up) steps)
      ascends' zero = unfold ascend in refl
      ascends' (suc steps) = ascend-child steps under ∙ h.ascends steps

abbrev pub open_book : {Target : Type 0} → ℕ → ProofSession Target → CheckpointBook Target
open_book next s = record { next = next; proof = some s }

module _ {Target : Type 0} (next : ℕ) (s : ProofSession Target) (valid : ValidSession next s) where
  -- Parents are older, so the ancestors of a node end in a root.
  Ancestry-below :
      (bound id : ℕ)
      → id < bound
      → Known s.checkpoints id
      → (up : List CheckpointId) × Ancestry s.checkpoints id up
  Ancestry-below zero id below known = absurd (omega arith)
  Ancestry-below (suc bound) id below (c, there) = elim (Option-cases c.parent) [
    | inl top ↦ (id ∷ [], Ancestry-root s.checkpoints id c there top)
    | inr (p, under) ↦
        let (older, known, input) =
          subst (λ q. ParentOk s.checkpoints id q c.accepted_input) under
            (valid.linked id c there).2 in
        let (up, h) = Ancestry-below bound p (omega (arith, older)) known in
        (id ∷ up, Ancestry-child s.checkpoints id c there up under older h)
  ]

  pub ancestry :
      (id : CheckpointId)
      → Known s.checkpoints id
      → (up : List CheckpointId) × Ancestry s.checkpoints id up
  ancestry id known = Ancestry-below (suc id) id (omega arith) known

  pub path-Known :
      (target : CheckpointId)
      → Known s.checkpoints target
      → (ids : List CheckpointId) × (path target (open_book next s) ≡ some (ok ids))
        × IsRootPath s.checkpoints ids target
  unfolding path
  path-Known target known =
      let (up, h) = ancestry target known in
      (reverse up, rw (h.walks target [] (omega arith)), h.leads)

  path_unknown :
      (target : CheckpointId)
      → lookup target s.checkpoints ≡ none
      → path target (open_book next s) ≡ some (err unknown)
  unfolding path walk
  path_unknown target gone = rw (gone, walk)

  -- On a graph of the right shape the loop of `path` ends: for a node of the graph `path` returns
  -- the nodes from a root down to it, each one the parent of the next, and for any other
  -- identifier the error `unknown`.
  pub path_total :
      (target : CheckpointId)
      → ((ids : List CheckpointId) × (path target (open_book next s) ≡ some (ok ids))
          × IsRootPath s.checkpoints ids target)
        ⊎ ((lookup target s.checkpoints ≡ none)
            × (path target (open_book next s) ≡ some (err unknown)))
  path_total target = elim (Option-cases (lookup target s.checkpoints)) [
    | inl gone ↦ inr (gone, path_unknown target gone)
    | inr known ↦ inl (path-Known target known)
  ]

  -- Going back by `steps + 1` nodes from the selected node returns the element at that position
  -- of its path, counted from its end, and is refused as `too_far` exactly when the path is not
  -- that long.
  pub steps_back-eq-get_elem? :
      (ids : List CheckpointId) (steps : ℕ)
      → path s.current (open_book next s) ≡ some (ok ids)
      → steps_back (suc steps) (open_book next s)
        ≡ ok_or too_far (get_elem? (reverse ids) (suc steps))
  unfolding path steps_back
  steps_back-eq-get_elem? ids steps e =
      let (up, h) = ancestry s.current valid.current_known in
      let flipped : reverse up ≡ ids = cc (rw (h.walks s.current [] (omega arith)) at e) in
      let same : up ≡ reverse ids = sym (reverse-reverse up) ∙ ap reverse flipped in
      rw (==_false (suc steps) 0 (omega arith), steps_back) (h.ascends (suc steps) ∙ (rw same))
