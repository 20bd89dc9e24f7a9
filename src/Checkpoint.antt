-- ===== src/Checkpoint.antt =====
-- crates/rocq-mcp/src/checkpoint.rs: the checkpoint graph of one proof session. A method on
-- `&mut self` returns its result and the new book, also where it fails; a `u64` is a number below
-- `2 ^ 64`.
pub mod Shape
pub mod Paths
pub mod History
pub mod Invalidate
pub mod Same
pub mod Alike
mod Tests
use rocq_mcp.Prelude.{
  ℕ, zero, suc, ◌+◌, ◌^◌, ◌==◌, Bool, true, false, Option, none, some, List, [], ◌∷◌, ◌++◌, reverse,
  ltb, if◌then◌else◌, Result, ok, err, ok_or, ◌>>=◌, lookup, insert, map_values, map_some,
}
use rocq_mcp.Types.{Text, PetStateId, ProofState}

abbrev pub CheckpointId : Type 0
CheckpointId = ℕ

abbrev pub u64_bound : ℕ
u64_bound = 2 ^ 64

pub record Checkpoint : Type 0 where
  pub parent : Option CheckpointId
  pub pet_state : Option PetStateId
  pub accepted_input : Option Text
  pub finished : Bool
  pub view : ProofState
  pub goals_next_offset : Option ℕ

abbrev pub Checkpoints : Type 0
Checkpoints = List (CheckpointId × Checkpoint)

pub record ProofSession (Target : Type 0) : Type 0 where
  pub target : Target
  pub current : CheckpointId
  pub checkpoints : Checkpoints

pub data CheckpointError : Type 0 where
  no_active_proof active_proof unknown too_far exhausted : CheckpointError

pub record CheckpointBook (Target : Type 0) : Type 0 where
  pub next : ℕ
  pub proof : Option (ProofSession Target)

abbrev pub Checked {ℓ} : Type ℓ → Type ℓ
Checked A = Result CheckpointError A

-- The nodes that `commit` and `begin` insert.
abbrev pub root_node : PetStateId → Bool → ProofState → Option ℕ → Checkpoint
root_node state finished view offset = record {
  parent = none;
  pet_state = some state;
  accepted_input = none;
  finished = finished;
  view = view;
  goals_next_offset = offset;
}

abbrev pub child_node : CheckpointId → PetStateId → Text → Bool → ProofState → Option ℕ → Checkpoint
child_node parent state input finished view offset = record {
  parent = some parent;
  pet_state = some state;
  accepted_input = some input;
  finished = finished;
  view = view;
  goals_next_offset = offset;
}

-- `loop { … match parent { Some(p) => cursor = p, None => break } }` of `path`, with fuel for the
-- rounds; `none` means that the fuel ran out.
unfoldable pub walk :
    ℕ → Checkpoints → CheckpointId → List CheckpointId → Option (Checked (List CheckpointId))
walk zero m cursor path = none
walk (suc fuel) m cursor path = elim (lookup cursor m) [
  | none ↦ some (err unknown)
  | some checkpoint ↦ elim checkpoint.parent [
    | none ↦ some (ok (path ++ cursor ∷ []))
    | some parent ↦ walk fuel m parent (path ++ cursor ∷ [])
  ]
]

-- `for _ in 0..steps` of `steps_back`.
unfoldable pub ascend : ℕ → Checkpoints → CheckpointId → Checked CheckpointId
ascend zero m id = ok id
ascend (suc steps) m id = elim (lookup id m) [
  | none ↦ err unknown
  | some checkpoint ↦ elim checkpoint.parent [
    | none ↦ err too_far
    | some parent ↦ ascend steps m parent
  ]
]

abbrev pub invalidated : Checkpoint → Checkpoint
invalidated c = record c { pet_state = none }

abbrev pub reversed : Option (Checked (List CheckpointId)) → Option (Checked (List CheckpointId))
reversed none = none
reversed (some (err e)) = some (err e)
reversed (some (ok path)) = some (ok (reverse path))

module _ {Target : Type 0} where
  pub allocate : CheckpointBook Target → Checked CheckpointId × CheckpointBook Target
  allocate book =
      if ltb (book.next + 1) u64_bound
      then (ok (book.next + 1), record book { next = book.next + 1 })
      else (err exhausted, book)

  start_session :
      Target
      → Checkpoint
      → Checked CheckpointId × CheckpointBook Target
      → Checked CheckpointId × CheckpointBook Target
  start_session target root (err e, book) = (err e, book)
  start_session target root (ok id, book) = (
    ok id,
    record book {
      proof = some (record { target = target; current = id; checkpoints = insert id root [] });
    },
  )

  unfoldable pub begin :
      Target
      → PetStateId
      → Bool
      → ProofState
      → Option ℕ
      → CheckpointBook Target
      → Checked CheckpointId × CheckpointBook Target
  unfolding allocate start_session
  begin target state finished view offset book = elim book.proof [
    | some session ↦ (err active_proof, book)
    | none ↦ start_session target (root_node state finished view offset) (allocate book)
  ]

  -- The node's parent is the selected node, and the new node is selected.
  abbrev pub extend_session :
      CheckpointId → (CheckpointId → Checkpoint) → ProofSession Target → ProofSession Target
  extend_session id child session = record session {
    current = id;
    checkpoints = insert id (child session.current) session.checkpoints;
  }

  add_node :
      (CheckpointId → Checkpoint)
      → Checked CheckpointId × CheckpointBook Target
      → Checked CheckpointId × CheckpointBook Target
  add_node child (err e, book) = (err e, book)
  add_node child (ok id, book) = elim book.proof [
    | none ↦ (err no_active_proof, book)
    | some session ↦ (ok id, record book { proof = some (extend_session id child session) })
  ]

  -- The identifier is taken before the session is looked for.
  unfoldable pub commit :
      PetStateId
      → Text
      → Bool
      → ProofState
      → Option ℕ
      → CheckpointBook Target
      → Checked CheckpointId × CheckpointBook Target
  unfolding allocate add_node
  commit state input finished view offset book =
      add_node (λ parent. child_node parent state input finished view offset) (allocate book)

  unfoldable pub current : CheckpointBook Target → Checked (CheckpointId × Checkpoint)
  current book = do
    session ← ok_or no_active_proof book.proof
    checkpoint ← ok_or unknown (lookup session.current session.checkpoints)
    ok (session.current, checkpoint)

  unfoldable pub find : CheckpointId → CheckpointBook Target → Checked Checkpoint
  find id book = do
    session ← ok_or no_active_proof book.proof
    ok_or unknown (lookup id session.checkpoints)

  unfoldable pub select :
      CheckpointId → CheckpointBook Target → Checked (Unit {0}) × CheckpointBook Target
  select id book = elim book.proof [
    | none ↦ (err no_active_proof, book)
    | some session ↦ elim (lookup id session.checkpoints) [
      | none ↦ (err unknown, book)
      | some checkpoint ↦ (ok tt, record book { proof = some (record session { current = id }) })
    ]
  ]

  unfoldable pub steps_back : ℕ → CheckpointBook Target → Checked CheckpointId
  unfolding ascend
  steps_back steps book = if steps == 0 then err too_far else do
    session ← ok_or no_active_proof book.proof
    ascend steps session.checkpoints session.current

  unfoldable pub clear :
      CheckpointBook Target → Option (ProofSession Target) × CheckpointBook Target
  clear book = (book.proof, record book { proof = none })

  unfoldable pub invalidate_states : CheckpointBook Target → CheckpointBook Target
  invalidate_states book = elim book.proof [
    | none ↦ book
    | some session ↦ record book {
      proof = some (record session { checkpoints = map_values invalidated session.checkpoints });
    }
  ]

  -- `none` would mean that the loop goes on after one round for each identifier below `target`.
  unfoldable pub path : CheckpointId → CheckpointBook Target → Option (Checked (List CheckpointId))
  unfolding walk
  path target book = elim book.proof [
    | none ↦ some (err no_active_proof)
    | some session ↦ reversed (walk (suc target) session.checkpoints target [])
  ]

  unfoldable pub inputs : List CheckpointId → CheckpointBook Target → Checked (List Text)
  inputs [] book = ok []
  inputs (id ∷ rest) book = do
    checkpoint ← find id book
    later ← inputs rest book
    ok (elim checkpoint.accepted_input [ none ↦ later | some input ↦ input ∷ later ])

  abbrev pub inputs_along :
      Option (Checked (List CheckpointId)) → CheckpointBook Target → Option (Checked (List Text))
  inputs_along none book = none
  inputs_along (some (err e)) book = some (err e)
  inputs_along (some (ok ids)) book = some (inputs ids book)

  unfoldable pub fragments : CheckpointId → CheckpointBook Target → Option (Checked (List Text))
  fragments target book = inputs_along (path target book) book
