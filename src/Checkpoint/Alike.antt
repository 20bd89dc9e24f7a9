-- ===== src/Checkpoint/Alike.antt =====
-- Books that differ in PET states and views at most: the same selection, and the same history at
-- every identifier (crates/rocq-mcp/src/checkpoint.rs).
use rocq_mcp.Prelude.{
  ℕ, ◌<◌, ◌≡◌, refl, sym, ap, ◌∙◌, subst, Option, none, some, Option-cases, inl, inr, lookup,
  map_values, lookup-map_values,
}
use rocq_mcp.Types.{Text}
use rocq_mcp.Checkpoint.{
  CheckpointId, Checkpoint, Checkpoints, CheckpointBook, ProofSession, u64_bound, path, fragments,
  invalidate_states, invalidated,
}
use rocq_mcp.Checkpoint.Shape.{Known, ParentOk, Linked, ValidSession, SessionOk, IsValid}
use rocq_mcp.Checkpoint.Same.{skeleton, IsSame, path_same, fragments_same}

skeleton-map_values :
    (id : CheckpointId) (m : Checkpoints)
    → skeleton (lookup id m) ≡ skeleton (lookup id (map_values invalidated m))
skeleton-map_values id m = elim (Option-cases (lookup id m)) [
  | inl gone ↦ rw (lookup-map_values invalidated id m, gone) refl
  | inr (c, there) ↦ rw (lookup-map_values invalidated id m, there) refl
]

-- The node that a graph with the same history has in the place of another.
found :
    (o o' : Option Checkpoint) {c' : Checkpoint}
    → skeleton o ≡ skeleton o'
    → o' ≡ some c'
    → (c : Checkpoint) × (o ≡ some c)
      × ((c.parent ≡ c'.parent) × (c.accepted_input ≡ c'.accepted_input))
found none none h e = absurd (cc e)
found none (some d') h e = absurd (cc h)
found (some d) none h e = absurd (cc e)
found (some d) (some d') {c'} h e =
    let parents : d.parent ≡ d'.parent = cc in
    let inputs : d.accepted_input ≡ d'.accepted_input = cc in
    let there : d' ≡ c' = cc in
    (
      d,
      refl,
      (
        parents ∙ ap (λ (x : Checkpoint). x.parent) there,
        inputs ∙ ap (λ (x : Checkpoint). x.accepted_input) there,
      ),
    )

module _ (m m' : Checkpoints) (same : IsSame m m') where
  Known-same : (id : CheckpointId) → Known m id → Known m' id
  Known-same id (c, there) =
      let (c', there', _) = found (lookup id m') (lookup id m) (sym (same id)) there in (c', there')

  ParentOk-same :
      (id : CheckpointId) (parent : Option CheckpointId) (input : Option Text)
      → ParentOk m id parent input
      → ParentOk m' id parent input
  ParentOk-same id none input h = h
  ParentOk-same id (some p) input h = (h.0, Known-same p h.1, h.2)

  Linked-same :
      (next : ℕ) (id : CheckpointId) (c' : Checkpoint)
      → ((c : Checkpoint) → lookup id m ≡ some c → Linked next m id c)
      → lookup id m' ≡ some c'
      → Linked next m' id c'
  Linked-same next id c' linked there' =
      let (c, there, (parents, inputs)) = found (lookup id m) (lookup id m') (same id) there' in
      let old = linked c there in
      (
        old.0,
        old.1,
        subst (λ p. ParentOk m' id p c'.accepted_input) parents
            (subst (ParentOk m' id c.parent) inputs
              (ParentOk-same id c.parent c.accepted_input old.2)),
      )

module _ {Target : Type 0} where
  abbrev pub AlikeSession : ProofSession Target → ProofSession Target → Type 0
  AlikeSession s s' =
      (s'.target ≡ s.target) × (s'.current ≡ s.current) × IsSame s.checkpoints s'.checkpoints

  abbrev pub AlikeProof : Option (ProofSession Target) → Option (ProofSession Target) → Type 0
  AlikeProof none none = Unit
  AlikeProof none (some s') = ⊥
  AlikeProof (some s) none = ⊥
  AlikeProof (some s) (some s') = AlikeSession s s'

  pub record Alike (book book' : CheckpointBook Target) : Type 0 where
    pub same_next : book'.next ≡ book.next
    pub same_proof : AlikeProof book.proof book'.proof

  AlikeProof-refl : (p : Option (ProofSession Target)) → AlikeProof p p
  AlikeProof-refl none = tt
  AlikeProof-refl (some s) = (refl, refl, λ id. refl)

  pub Alike-refl : (book : CheckpointBook Target) → Alike book book
  Alike-refl book = record { same_next = refl; same_proof = AlikeProof-refl book.proof }

  AlikeProof-trans :
      (p q r : Option (ProofSession Target)) → AlikeProof p q → AlikeProof q r → AlikeProof p r
  AlikeProof-trans none none r h k = k
  AlikeProof-trans none (some t) r h k = absurd h
  AlikeProof-trans (some s) none r h k = absurd h
  AlikeProof-trans (some s) (some t) none h k = absurd k
  AlikeProof-trans (some s) (some t) (some u) h k = (k.0 ∙ h.0, k.1 ∙ h.1, λ id. h.2 id ∙ k.2 id)

  pub Alike-trans : {a b c : CheckpointBook Target} → Alike a b → Alike b c → Alike a c
  Alike-trans {a} {b} {c} h k = record {
    same_next = k.same_next ∙ h.same_next;
    same_proof = AlikeProof-trans a.proof b.proof c.proof h.same_proof k.same_proof;
  }

  invalidated-AlikeProof :
      (n : ℕ) (p : Option (ProofSession Target))
      → AlikeProof p (invalidate_states (record { next = n; proof = p })).proof
  unfolding invalidate_states
  invalidated-AlikeProof n none = tt
  invalidated-AlikeProof n (some s) = (refl, refl, λ id. skeleton-map_values id s.checkpoints)

  invalidated-next :
      (n : ℕ) (p : Option (ProofSession Target))
      → (invalidate_states (record { next = n; proof = p })).next ≡ n
  unfolding invalidate_states
  invalidated-next n none = refl
  invalidated-next n (some s) = refl

  pub invalidate_states-Alike : (book : CheckpointBook Target) → Alike book (invalidate_states book)
  invalidate_states-Alike book = record {
    same_next = invalidated-next book.next book.proof;
    same_proof = invalidated-AlikeProof book.next book.proof;
  }

  ValidSession-alike :
      (next : ℕ) (s s' : ProofSession Target)
      → AlikeSession s s'
      → ValidSession next s
      → ValidSession next s'
  ValidSession-alike next s s' (targets, currents, same) v = record {
    current_known =
        subst (Known s'.checkpoints) (sym currents)
          (Known-same s.checkpoints s'.checkpoints same s.current v.current_known);
    linked = λ id c' there'.
        Linked-same s.checkpoints s'.checkpoints same next id c' (v.linked id) there';
    one_root = λ i j c' d' hi hj ci dj.
        let (c, at_i, (pi, _)) =
          found (lookup i s.checkpoints) (lookup i s'.checkpoints) (same i) hi in
        let (d, at_j, (pj, _)) =
          found (lookup j s.checkpoints) (lookup j s'.checkpoints) (same j) hj in
        v.one_root i j c d at_i at_j (pi ∙ ci) (pj ∙ dj);
  }

  SessionOk-alike :
      (next : ℕ) (p p' : Option (ProofSession Target))
      → AlikeProof p p'
      → SessionOk next p
      → SessionOk next p'
  SessionOk-alike next none none h v = tt
  SessionOk-alike next none (some s') h v = absurd h
  SessionOk-alike next (some s) none h v = absurd h
  SessionOk-alike next (some s) (some s') h v = ValidSession-alike next s s' h v

  -- A book that differs in states and views alone keeps the shape.
  pub IsValid-Alike :
      {book book' : CheckpointBook Target} → Alike book book' → IsValid book → IsValid book'
  IsValid-Alike {book} {book'} h v = record {
    in_range = subst (λ n. n < u64_bound) (sym h.same_next) v.in_range;
    session =
        subst (λ n. SessionOk n book'.proof) (sym h.same_next)
          (SessionOk-alike book.next book.proof book'.proof h.same_proof v.session);
  }

  history_of :
      (n n' : ℕ) (p p' : Option (ProofSession Target))
      → n' ≡ n
      → AlikeProof p p'
      → (id : CheckpointId)
      → (path id (record { next = n'; proof = p' }) ≡ path id (record { next = n; proof = p }))
        × (fragments id (record { next = n'; proof = p' })
            ≡ fragments id (record { next = n; proof = p }))
  unfolding path fragments
  history_of n n' none none e h id = (refl, refl)
  history_of n n' none (some s') e h id = absurd h
  history_of n n' (some s) none e h id = absurd h
  history_of n n' (some s) (some s') e h id = (
    sym (
        path_same s.checkpoints s'.checkpoints h.2 (record { next = n'; proof = some s }) s s' refl
          refl id),
    sym (
          fragments_same s.checkpoints s'.checkpoints h.2 (record { next = n'; proof = some s }) s
            s' refl refl id)
        ∙ ap (λ k. fragments id (record { next = k; proof = some s })) e,
  )

  pub Alike-history :
      {book book' : CheckpointBook Target}
      → Alike book book'
      → (id : CheckpointId)
      → (path id book' ≡ path id book) × (fragments id book' ≡ fragments id book)
  Alike-history {book} {book'} h id =
      history_of book.next book'.next book.proof book'.proof h.same_next h.same_proof id
