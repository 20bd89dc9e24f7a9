-- ===== src/Checkpoint/History.antt =====
-- What a `commit` adds to the history, and what it leaves as it was (crates/rocq-mcp/src/checkpoint.rs).
use mathlib.Core.List.{reverse-cons}
use rocq_mcp.Prelude.{
  ℕ, zero, suc, ◌+◌, ◌≤◌, ◌<◌, ◌≡◌, ◌≢◌, refl, sym, ap, ◌∙◌, Bool, Option, none, some, List, [],
  ◌∷◌, ◌++◌, arith, inl, inr, Option-cases, ok, err, lookup, insert, reverse, subst,
  lookup-insert_ne, lookup-insert_self, lt→ltb,
}
use rocq_mcp.Types.{Text, PetStateId, ProofState}
use rocq_mcp.Checkpoint.{
  CheckpointId, Checkpoint, Checkpoints, ProofSession, CheckpointBook, Checked, current, walk, path,
  commit, inputs, fragments, find, child_node, u64_bound,
}
use rocq_mcp.Checkpoint.Shape.{Known, ParentOk, ValidSession}
use rocq_mcp.Checkpoint.Paths.{Chain, ancestry, path-Known, open_book, walk-root, walk-child}

module _ {Target : Type 0} (next : ℕ) (s : ProofSession Target) (valid : ValidSession next s)
    (node : Checkpoint) where
  abbrev pub grown : Checkpoints
  grown = insert (next + 1) node s.checkpoints

  Known-ne : (id : CheckpointId) → Known s.checkpoints id → next + 1 ≢ id
  Known-ne id (c, there) e = absurd (omega (arith, (valid.linked id c there).1, e))

  pub lookup-grown :
      (id : CheckpointId) → Known s.checkpoints id → lookup id grown ≡ lookup id s.checkpoints
  lookup-grown id known = lookup-insert_ne (next + 1) id node s.checkpoints (Known-ne id known)

  -- A new node changes no ancestry.
  walk-grown :
      (fuel : ℕ) (id : CheckpointId) (acc : List CheckpointId)
      → Known s.checkpoints id
      → walk fuel grown id acc ≡ walk fuel s.checkpoints id acc
  walk-grown zero id acc known = unfold walk in refl
  walk-grown (suc fuel) id acc (c, there) =
      let there' = lookup-grown id (c, there) ∙ there in
      elim (Option-cases c.parent) [
        | inl top ↦
            walk-root grown id c there' fuel acc top
            ∙ sym (walk-root s.checkpoints id c there fuel acc top)
        | inr (p, under) ↦
            let linked : ParentOk s.checkpoints id (some p) c.accepted_input =
              subst (λ q. ParentOk s.checkpoints id q c.accepted_input) under
                (valid.linked id c there).2 in
            walk-child grown id c there' fuel acc under
            ∙ walk-grown fuel p (acc ++ id ∷ []) linked.1
            ∙ sym (walk-child s.checkpoints id c there fuel acc under)
      ]

  -- An identifier that was in the graph keeps its path.
  path-grown :
      (t : Target) (current next' : ℕ) (id : CheckpointId)
      → Known s.checkpoints id
      → path id (open_book next' (record { target = t; current = current; checkpoints = grown }))
        ≡ path id (open_book next s)
  unfolding path
  path-grown t current next' id known = rw (walk-grown (suc id) id [] known)

  Chain-known :
      (previous : Option CheckpointId) (ids : List CheckpointId) (last : CheckpointId)
      → Chain s.checkpoints previous ids last
      → inputs ids (
          open_book
            (next + 1)
            (record { target = s.target; current = next + 1; checkpoints = grown }))
        ≡ inputs ids (open_book next s)
  unfolding inputs find
  Chain-known previous [] last h = refl
  Chain-known previous (id ∷ rest) last ((c, there, under), h) =
      simp (lookup-grown id (c, there), there, Chain-known (some id) rest last h)

abbrev pub followed_by : Checked (List Text) → Text → Checked (List Text)
followed_by (err e) text = err e
followed_by (ok texts) text = ok (texts ++ text ∷ [])

inputs-snoc :
    {Target : Type 0} (ids : List CheckpointId) (id : CheckpointId) (c : Checkpoint) (text : Text)
    (b : CheckpointBook Target)
    → find id b ≡ ok c
    → c.accepted_input ≡ some text
    → inputs (ids ++ id ∷ []) b ≡ followed_by (inputs ids b) text
unfolding inputs
inputs-snoc [] id c text b there given = rw there (rw given)
inputs-snoc (x ∷ ids) id c text b there given =
    ground (arith, inputs-snoc ids id c text b there given)

fragments_of :
    {Target : Type 0} (id : CheckpointId) (ids : List CheckpointId) (b : CheckpointBook Target)
    → path id b ≡ some (ok ids)
    → fragments id b ≡ some (inputs ids b)
unfolding fragments
fragments_of id ids b e = rw (e, fragments)

-- The inputs along a path of the graph are all found.
inputs_total :
    {Target : Type 0} (next : ℕ) (s : ProofSession Target) (previous : Option CheckpointId)
    (ids : List CheckpointId) (last : CheckpointId)
    → Chain s.checkpoints previous ids last
    → (texts : List Text) × (inputs ids (open_book next s) ≡ ok texts)
unfolding inputs find
inputs_total next s previous [] last h = ([], refl)
inputs_total next s previous (id ∷ ids) last ((c, there, under), h) =
    let (texts, e) = inputs_total next s (some id) ids last h in
    (elim c.accepted_input [ none ↦ texts | some input ↦ input ∷ texts ], simp (there, e))

module _ {Target : Type 0} (next : ℕ) (s : ProofSession Target) (valid : ValidSession next s) where
  -- For every node of the graph the replay inputs are found.
  pub fragments_total :
      (id : CheckpointId)
      → Known s.checkpoints id
      → (texts : List Text) × (fragments id (open_book next s) ≡ some (ok texts))
  fragments_total id known =
      let (ids, e, leads) = path-Known next s valid id known in
      let (texts, f) = inputs_total next s none ids id leads in
      (texts, fragments_of id ids (open_book next s) e ∙ ap some f)

  module _ (state : PetStateId) (input : Text) (finished : Bool) (view : ProofState)
      (offset : Option ℕ) (room : next + 1 < u64_bound) where
    abbrev pub new_node : Checkpoint
    new_node = child_node s.current state input finished view offset

    abbrev pub committed : CheckpointBook Target
    committed = open_book (next + 1) (record {
      target = s.target;
      current = next + 1;
      checkpoints = grown next s valid new_node;
    })

    commit_ok :
        commit state input finished view offset (open_book next s) ≡ (ok (next + 1), committed)
    unfolding commit
    commit_ok = rw (lt→ltb (next + 1) u64_bound room)

    fragments-old :
        (id : CheckpointId)
        → Known s.checkpoints id
        → fragments id committed ≡ fragments id (open_book next s)
    fragments-old id known =
        let (ids, e, leads) = path-Known next s valid id known in
        let same = path-grown next s valid new_node s.target (next + 1) (next + 1) id known ∙ e in
        fragments_of id ids committed same
        ∙ ap some (Chain-known next s valid new_node none ids id leads)
        ∙ sym (fragments_of id ids (open_book next s) e)

    path-new :
        (ids : List CheckpointId)
        → path s.current (open_book next s) ≡ some (ok ids)
        → path (next + 1) committed ≡ some (ok (ids ++ (next + 1) ∷ []))
    unfolding path
    path-new ids e =
        let (up, h) = ancestry next s valid s.current valid.current_known in
        let older : s.current ≤ next =
          (valid.linked s.current valid.current_known.0 valid.current_known.1).1 in
        let flipped : reverse up ≡ ids = cc (rw (h.walks s.current [] (omega arith)) at e) in
        let one : next + 1 ≡ suc next = omega arith in
        let above : walk (next + 1) s.checkpoints s.current ((next + 1) ∷ [])
            ≡ some (ok (((next + 1) ∷ []) ++ up)) =
          subst
            (λ n.
              walk n s.checkpoints s.current ((next + 1) ∷ [])
              ≡ some (ok (((next + 1) ∷ []) ++ up)))
            (sym one) (h.walks next ((next + 1) ∷ []) older) in
        let all : walk (suc (next + 1)) (grown next s valid new_node) (next + 1) []
            ≡ some (ok (((next + 1) ∷ []) ++ up)) =
          walk-child (grown next s valid new_node) (next + 1) new_node
            (lookup-insert_self (next + 1) new_node s.checkpoints) (next + 1) [] refl
          ∙ walk-grown next s valid new_node (next + 1) s.current ((next + 1) ∷ [])
              valid.current_known
          ∙ above in
        rw all (rw (reverse-cons (next + 1) up) (rw flipped))

    fragments-new :
        (texts : List Text)
        → fragments s.current (open_book next s) ≡ some (ok texts)
        → fragments (next + 1) committed ≡ some (ok (texts ++ input ∷ []))
    fragments-new texts e =
        let (ids, at_ids, leads) = path-Known next s valid s.current valid.current_known in
        let found : inputs ids (open_book next s) ≡ ok texts =
          cc (fragments_of s.current ids (open_book next s) at_ids) in
        fragments_of (next + 1) (ids ++ (next + 1) ∷ []) committed (path-new ids at_ids)
        ∙ ap some (
            inputs-snoc ids (next + 1) new_node input committed
              (unfold find in rw (lookup-insert_self (next + 1) new_node s.checkpoints)) refl
            ∙ (rw (Chain-known next s valid new_node none ids s.current leads, found)))

    -- After a commit on a session of the right shape, where an identifier is left: it succeeds
    -- with the next identifier, the replay inputs of the new node are those of the node that was
    -- selected and then the submitted text, and every node of the graph before it keeps its path
    -- and its replay inputs.
    pub commit_history :
        (texts : List Text)
        → fragments s.current (open_book next s) ≡ some (ok texts)
        → (commit state input finished view offset (open_book next s) ≡ (ok (next + 1), committed))
          × (fragments (next + 1) committed ≡ some (ok (texts ++ input ∷ [])))
          × ((id : CheckpointId)
              → Known s.checkpoints id
              → (path id committed ≡ path id (open_book next s))
                × (fragments id committed ≡ fragments id (open_book next s)))
    commit_history texts e = (
      commit_ok,
      fragments-new texts e,
      λ id known. (
        path-grown next s valid new_node s.target (next + 1) (next + 1) id known,
        fragments-old id known,
      ),
    )
