-- ===== src/Types.antt =====
-- crates/rocq-engine/src/types.rs: the values that cross the boundaries between Dune, PET,
-- writeback and the MCP adapter. Texts that the program only compares or passes on are `String`;
-- texts that it reads character by character are `Text`, a list of code points; texts whose bytes
-- it counts or cuts (sources, rendered goals) are `Bytes`.
pub mod Json
use rocq_mcp.Prelude.{
  ℕ, ◌+◌, ◌-◌, String, Bool, true, false, Option, none, some, List, [], ◌∷◌, length,
}
use Json.{Value}

abbrev pub Bytes : Type 0
Bytes = List ℕ

abbrev pub Text : Type 0
Text = List ℕ

-- `i64`; `negsuc n` is -(n + 1).
pub data ℤ : Type 0 where
  pos : ℕ → ℤ
  negsuc : ℕ → ℤ

abbrev pub FileId : Type 0
FileId = String

abbrev pub LogicalLibrary : Type 0
LogicalLibrary = List String

pub record DeclarationIdentity : Type 0 where
  pub file : FileId
  pub qualified_path : List String

pub data DeclarationKind : Type 0 where
  theorem_kind lemma_kind fact_kind remark_kind corollary_kind : DeclarationKind
  proposition_kind definition_kind : DeclarationKind

abbrev pub is_definition : DeclarationKind → Bool
is_definition definition_kind = true
is_definition _ = false

pub record DeclarationInfo : Type 0 where
  pub identity : DeclarationIdentity
  pub kind : DeclarationKind
  pub statement : String

-- An evar is PET's JSON array.
abbrev pub Evar : Type 0
Evar = List Value

pub record GoalStackFrame : Type 0 where
  pub left : List Evar
  pub right : List Evar

pub record GoalFocus : Type 0 where
  pub focused : List Evar
  pub stack : List GoalStackFrame
  pub shelved : List Evar
  pub given_up : List Evar
  pub next_bullet : Option String

pub record GoalHypothesis : Type 0 where
  pub names : List String
  pub definition : Option String
  pub ty : String

pub record GoalDetail : Type 0 where
  pub evar : Evar
  pub name : Option String
  pub hypotheses : List GoalHypothesis
  pub ty : String

pub record GoalStackDetail : Type 0 where
  pub left : List GoalDetail
  pub right : List GoalDetail

pub record StructuredGoals : Type 0 where
  pub focused : List GoalDetail
  pub stack : List GoalStackDetail
  pub unfocused : List GoalDetail
  pub shelved : List GoalDetail
  pub given_up : List GoalDetail
  pub next_bullet : Option String

pub data GoalScope : Type 0 where
  focused unfocused shelved given_up all : GoalScope

-- `GoalFocus::unfocused_count`, the sum over the frames
unfoldable pub sum_frames : List GoalStackFrame → ℕ
sum_frames [] = 0
sum_frames (frame ∷ rest) = length frame.left + length frame.right + sum_frames rest

unfoldable pub unfocused_count : GoalFocus → ℕ
unfolding sum_frames
unfocused_count f = sum_frames f.stack

unfoldable pub focus_total_count : GoalFocus → ℕ
unfolding unfocused_count
focus_total_count f = length f.focused + unfocused_count f + length f.shelved + length f.given_up

-- `StructuredGoals::total_count`
unfoldable pub structured_total_count : StructuredGoals → ℕ
structured_total_count g =
    length g.focused + length g.unfocused + length g.shelved + length g.given_up

pub data ProofLifecycle : Type 0 where
  open_proof completed : ProofLifecycle

pub record ProofState : Type 0 where
  pub theorem : DeclarationInfo
  pub lifecycle : ProofLifecycle
  pub goals : Bytes
  pub goal_focus : GoalFocus
  pub structured_goals : Option StructuredGoals

-- Half-open byte range in the caller's fragment.
pub record ProofDiagnostic : Type 0 where
  pub byte_start : ℕ
  pub byte_end : ℕ

-- Half-open byte range in the exact source snapshot.
pub record PetRange : Type 0 where
  pub start : ℕ
  pub end : ℕ

-- The digest's type is the hash function's, a parameter where it is used.
pub record SourceAnchor (Digest : Type 0) : Type 0 where
  pub source : String
  pub digest : Digest
  pub header : PetRange
  pub declaration : PetRange
  pub replaceable : Bool

pub record DeclarationTarget (Digest : Type 0) : Type 0 where
  pub info : DeclarationInfo
  pub anchor : SourceAnchor Digest
  pub new_header : Option Text

abbrev pub PetStateId : Type 0
PetStateId = ℕ
