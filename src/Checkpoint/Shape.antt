-- ===== src/Checkpoint/Shape.antt =====
-- The shape of a checkpoint graph, and that every operation of crates/rocq-mcp/src/checkpoint.rs
-- keeps it.
use rocq_mcp.Prelude.{
  ℕ, ◌+◌, ◌≤◌, ◌<◌, ◌≡◌, refl, sym, ap, ◌∙◌, Bool, Option, none, some, List, [], ◌∷◌, arith, ◌==◌,
  ltb, inl, inr, Bool-cases, Option-cases, ok, lookup, insert, map_values, lookup-insert,
  lookup-insert_self, lookup-insert_cases, lookup-nil, lookup-map_values, lookup-map_values_cases,
  subst, ltb→lt,
}
use rocq_mcp.Types.{Text, PetStateId, ProofState}
use rocq_mcp.Checkpoint.{
  CheckpointId, Checkpoint, Checkpoints, ProofSession, CheckpointBook, u64_bound, root_node,
  child_node, invalidated, allocate, begin, extend_session, commit, select, clear,
  invalidate_states,
}

abbrev pub Known : Checkpoints → CheckpointId → Type 0
Known m id = (c : Checkpoint) × (lookup id m ≡ some c)

-- A root has no input; any other node has one, and a parent that is older and in the graph.
abbrev pub ParentOk : Checkpoints → CheckpointId → Option CheckpointId → Option Text → Type 0
ParentOk m id none input = input ≡ none
ParentOk m id (some parent) input =
    (parent < id) × Known m parent × ((text : Text) × (input ≡ some text))

abbrev pub Linked : ℕ → Checkpoints → CheckpointId → Checkpoint → Type 0
Linked next m id c = (0 < id) × (id ≤ next) × ParentOk m id c.parent c.accepted_input

module _ {Target : Type 0} where
  pub record ValidSession (next : ℕ) (s : ProofSession Target) : Type 0 where
    pub current_known : Known s.checkpoints s.current
    pub linked :
        (id : CheckpointId) (c : Checkpoint)
        → lookup id s.checkpoints ≡ some c
        → Linked next s.checkpoints id c
    pub one_root :
        (i j : CheckpointId) (c d : Checkpoint)
        → lookup i s.checkpoints ≡ some c
        → lookup j s.checkpoints ≡ some d
        → c.parent ≡ none
        → d.parent ≡ none
        → i ≡ j

  abbrev pub SessionOk : ℕ → Option (ProofSession Target) → Type 0
  SessionOk next none = Unit
  SessionOk next (some s) = ValidSession next s

  pub record IsValid (book : CheckpointBook Target) : Type 0 where
    pub in_range : book.next < u64_bound
    pub session : SessionOk book.next book.proof

pub Known-insert :
    (m : Checkpoints) (id : CheckpointId) (v : Checkpoint) (j : CheckpointId)
    → Known m j
    → Known (insert id v m) j
Known-insert m id v j (c, e) = elim (Bool-cases (id == j)) [
  | inl same ↦ (v, lookup-insert id j v m ∙ (rw same))
  | inr other ↦ (c, lookup-insert id j v m ∙ (rw other e))
]

Linked-insert :
    (next : ℕ) (m : Checkpoints) (id : CheckpointId) (v : Checkpoint) (j : CheckpointId)
    (p : Option CheckpointId) (input : Option Text)
    → (0 < j) × (j ≤ next) × ParentOk m j p input
    → (0 < j) × (j ≤ next + 1) × ParentOk (insert id v m) j p input
Linked-insert next m id v j none input h = (h.0, omega arith, h.2)
Linked-insert next m id v j (some p) input h =
    (h.0, omega arith, (h.2.0, Known-insert m id v p h.2.1, h.2.2))

module _ {Target : Type 0} where
  pub allocate_ok :
      (b : CheckpointBook Target) {id : CheckpointId} {b' : CheckpointBook Target}
      → allocate b ≡ (ok id, b')
      → (id ≡ b.next + 1) × (b'.next ≡ id) × (id < u64_bound) × (b'.proof ≡ b.proof)
  unfolding allocate
  allocate_ok b h = ground arith

-- One node under the selected one keeps the shape.
module _ {Target : Type 0} (next : ℕ) (s : ProofSession Target) (node : Checkpoint)
    (h : ValidSession next s) (under : node.parent ≡ some s.current) (text : Text)
    (given : node.accepted_input ≡ some text) where
  older : s.current ≤ next
  older = (h.linked s.current h.current_known.0 h.current_known.1).1

  node-ParentOk :
      ParentOk (insert (next + 1) node s.checkpoints) (next + 1) node.parent node.accepted_input
  node-ParentOk =
      simp (under, given)
        (
          omega (arith, older),
          Known-insert s.checkpoints (next + 1) node s.current h.current_known,
          (text, refl),
        )

  node-Linked : Linked (next + 1) (insert (next + 1) node s.checkpoints) (next + 1) node
  node-Linked = (omega arith, omega arith, node-ParentOk)

  pub extend-ValidSession : ValidSession (next + 1) (extend_session (next + 1) (λ p. node) s)
  extend-ValidSession = record {
    current_known = (node, lookup-insert_self (next + 1) node s.checkpoints);
    linked = λ j c e. elim (lookup-insert_cases (next + 1) j node s.checkpoints e) [
      | inl (p, q) ↦ subst (Linked (next + 1) (insert (next + 1) node s.checkpoints) j) q (
          subst (λ k. Linked (next + 1) (insert (next + 1) node s.checkpoints) k node) p
            node-Linked)
      | inr (_, old) ↦
          Linked-insert next s.checkpoints (next + 1) node j c.parent c.accepted_input
            (h.linked j c old)
    ];
    one_root = λ i j c d hi hj ci dj.
        elim (lookup-insert_cases (next + 1) i node s.checkpoints hi) [
          | inl (_, q) ↦ absurd (cc (q, under, ci))
          | inr (_, hi') ↦ elim (lookup-insert_cases (next + 1) j node s.checkpoints hj) [
            | inl (_, q) ↦ absurd (cc (q, under, dj))
            | inr (_, hj') ↦ h.one_root i j c d hi' hj' ci dj
          ]
        ];
  }

root-ValidSession :
    {Target : Type 0} (t : Target) (id : CheckpointId) (root : Checkpoint)
    → 0 < id
    → root.parent ≡ none
    → root.accepted_input ≡ none
    → ValidSession id (record { target = t; current = id; checkpoints = insert id root [] })
root-ValidSession t id root positive top bare = record {
  current_known = (root, lookup-insert_self id root []);
  linked = λ j c e. elim (lookup-insert_cases id j root [] e) [
    | inl (p, q) ↦ subst (Linked id (insert id root []) j) q (
        subst (λ k. Linked id (insert id root []) k root) p
          (positive, omega arith, simp (top, bare)))
    | inr (_, old) ↦ absurd (lookup-nil j old)
  ];
  one_root = λ i j c d hi hj ci dj. elim (lookup-insert_cases id i root [] hi) [
    | inr (_, old) ↦ absurd (lookup-nil i old)
    | inl (p, _) ↦ elim (lookup-insert_cases id j root [] hj) [
      | inr (_, old) ↦ absurd (lookup-nil j old)
      | inl (q, _) ↦ sym p ∙ q
    ]
  ];
}

module _ {Target : Type 0} where
  begin-SessionOk :
      (t : Target) (state : PetStateId) (finished : Bool) (view : ProofState) (offset : Option ℕ)
      (n : ℕ) (p : Option (ProofSession Target))
      → n < u64_bound
      → SessionOk n p
      → IsValid (begin t state finished view offset (record { next = n; proof = p })).1
  unfolding begin
  begin-SessionOk t state finished view offset n (some s) fits h = record {
    in_range = fits;
    session = h;
  }
  begin-SessionOk t state finished view offset n none fits h =
      elim (Bool-cases (ltb (n + 1) u64_bound)) [
        | inl room ↦ rw room (record {
          in_range = ltb→lt (n + 1) u64_bound room;
          session =
              root-ValidSession t (n + 1) (root_node state finished view offset) (omega arith) refl
                refl;
        })
        | inr full ↦ rw full (record { in_range = fits; session = tt })
      ]

  commit-SessionOk :
      (state : PetStateId) (input : Text) (finished : Bool) (view : ProofState) (offset : Option ℕ)
      (n : ℕ) (p : Option (ProofSession Target))
      → n < u64_bound
      → SessionOk n p
      → IsValid (commit state input finished view offset (record { next = n; proof = p })).1
  unfolding commit
  commit-SessionOk state input finished view offset n none fits h =
      elim (Bool-cases (ltb (n + 1) u64_bound)) [
        | inl room ↦ rw room (record { in_range = ltb→lt (n + 1) u64_bound room; session = tt })
        | inr full ↦ rw full (record { in_range = fits; session = tt })
      ]
  commit-SessionOk state input finished view offset n (some s) fits h =
      elim (Bool-cases (ltb (n + 1) u64_bound)) [
        | inl room ↦ rw room (record {
          in_range = ltb→lt (n + 1) u64_bound room;
          session =
              extend-ValidSession n s (child_node s.current state input finished view offset) h refl
                input refl;
        })
        | inr full ↦ rw full (record { in_range = fits; session = h })
      ]

  select-SessionOk :
      (id : CheckpointId) (n : ℕ) (p : Option (ProofSession Target))
      → n < u64_bound
      → SessionOk n p
      → IsValid (select id (record { next = n; proof = p })).1
  unfolding select
  select-SessionOk id n none fits h = record { in_range = fits; session = tt }
  select-SessionOk id n (some s) fits h = elim (Option-cases (lookup id s.checkpoints)) [
    | inl gone ↦ rw (gone, select) (record { in_range = fits; session = h })
    | inr (c, there) ↦
        rw (there, select)
          (record {
            in_range = fits;
            session = record {
              current_known = (c, there);
              linked = h.linked;
              one_root = h.one_root;
            };
          })
  ]

Known-invalidated :
    (m : Checkpoints) (id : CheckpointId) → Known m id → Known (map_values invalidated m) id
Known-invalidated m id (c, e) = (invalidated c, lookup-map_values invalidated id m ∙ (rw e))

ParentOk-invalidated :
    (m : Checkpoints) (id : CheckpointId) (p : Option CheckpointId) (input : Option Text)
    → ParentOk m id p input
    → ParentOk (map_values invalidated m) id p input
ParentOk-invalidated m id none input h = h
ParentOk-invalidated m id (some p) input h = (h.0, Known-invalidated m p h.1, h.2)

module _ {Target : Type 0} where
  invalidated-ValidSession :
      (n : ℕ) (s : ProofSession Target)
      → ValidSession n s
      → ValidSession n (record s { checkpoints = map_values invalidated s.checkpoints })
  invalidated-ValidSession n s h = record {
    current_known = Known-invalidated s.checkpoints s.current h.current_known;
    linked = λ j c e.
        let (old, there, same) = lookup-map_values_cases invalidated j s.checkpoints e in
        subst (Linked n (map_values invalidated s.checkpoints) j) same (
          (h.linked j old there).0,
          (h.linked j old there).1,
          ParentOk-invalidated s.checkpoints j old.parent old.accepted_input
              (h.linked j old there).2,
        );
    one_root = λ i j c d hi hj ci dj.
        let (c', at_i, same) = lookup-map_values_cases invalidated i s.checkpoints hi in
        let (d', at_j, same') = lookup-map_values_cases invalidated j s.checkpoints hj in
        h.one_root i j c' d' at_i at_j (ap (λ (x : Checkpoint). x.parent) same ∙ ci)
          (ap (λ (x : Checkpoint). x.parent) same' ∙ dj);
  }

  invalidate_states-SessionOk :
      (n : ℕ) (p : Option (ProofSession Target))
      → n < u64_bound
      → SessionOk n p
      → IsValid (invalidate_states (record { next = n; proof = p }))
  unfolding invalidate_states
  invalidate_states-SessionOk n none fits h = record { in_range = fits; session = tt }
  invalidate_states-SessionOk n (some s) fits h = record {
    in_range = fits;
    session = invalidated-ValidSession n s h;
  }

-- The operations that change a book, as one data type.
pub data Operation (Target : Type 0) : Type 0 where
  begin_with : Target → PetStateId → Bool → ProofState → Option ℕ → Operation Target
  commit_with : PetStateId → Text → Bool → ProofState → Option ℕ → Operation Target
  select_id : CheckpointId → Operation Target
  clear_all : Operation Target
  invalidate_all : Operation Target

module _ {Target : Type 0} where
  unfoldable pub perform : Operation Target → CheckpointBook Target → CheckpointBook Target
  perform (begin_with t state finished view offset) b = (begin t state finished view offset b).1
  perform (commit_with state input finished view offset) b =
      (commit state input finished view offset b).1
  perform (select_id id) b = (select id b).1
  perform clear_all b = (clear b).1
  perform invalidate_all b = invalidate_states b

  -- Every operation keeps the shape of a book, whether it succeeds or fails.
  pub perform-IsValid :
      (o : Operation Target) (b : CheckpointBook Target) → IsValid b → IsValid (perform o b)
  unfolding perform clear
  perform-IsValid (begin_with t state finished view offset) b h =
      begin-SessionOk t state finished view offset b.next b.proof h.in_range h.session
  perform-IsValid (commit_with state input finished view offset) b h =
      commit-SessionOk state input finished view offset b.next b.proof h.in_range h.session
  perform-IsValid (select_id id) b h = select-SessionOk id b.next b.proof h.in_range h.session
  perform-IsValid clear_all b h = record { in_range = h.in_range; session = tt }
  perform-IsValid invalidate_all b h =
      invalidate_states-SessionOk b.next b.proof h.in_range h.session

  unfoldable pub run : List (Operation Target) → CheckpointBook Target → CheckpointBook Target
  run [] b = b
  run (o ∷ os) b = run os (perform o b)

  -- `CheckpointBook::default()`
  abbrev pub empty_book : CheckpointBook Target
  empty_book = record { next = 0; proof = none }

  run-IsValid :
      (os : List (Operation Target)) (b : CheckpointBook Target) → IsValid b → IsValid (run os b)
  unfolding run
  run-IsValid [] b h = h
  run-IsValid (o ∷ os) b h = run-IsValid os (perform o b) (perform-IsValid o b h)

  -- Whatever operations are performed on a default book, and whether they succeed or fail, the
  -- result has the shape of a checkpoint graph: the selected node is in it, identifiers are
  -- positive and at most the last one given out, there is one root, the root alone has no input,
  -- and the parent of any other node is an older node of the graph.
  pub reached-IsValid : (os : List (Operation Target)) → IsValid (run os empty_book)
  reached-IsValid os = run-IsValid os empty_book (record { in_range = omega arith; session = tt })
