-- ===== src/Session/Tests.antt =====
-- A session that proves, checks, rewinds and abandons, while PET refuses one fragment.
use rocq_mcp.Prelude.{
  lookup, some, String, ◌≡◌, refl, suc, false, true, none, List, [], ◌∷◌, ok, err, Result, codes,
  if◌then◌else◌, ◌==◌, encode, trim, length, arith,
}
use rocq_mcp.Types.{Text, PetStateId, ProofState, theorem_kind, open_proof, DeclarationInfo}
use rocq_mcp.Types.Json.{Value, unsigned, string, array, object, nil, cons, end, field}
use rocq_mcp.Errors.{Error, new_error, pet_lost, proof_step_failed}
use rocq_mcp.Errors.Public.{invalidates_pet_epoch}
use rocq_mcp.Checkpoint.{Checkpoint, CheckpointBook, current, CheckpointId, path, fragments}
use rocq_mcp.Checkpoint.Alike.{Alike}
use rocq_mcp.Checkpoint.Shape.{IsValid}
use rocq_mcp.Replay.{ProofStep}
use rocq_mcp.Writeback.{Target}
use rocq_mcp.Arguments.{
  Settings, settings, reject_unknown, first_unknown, attempts, strings, validate_fragments,
  validate_each, validate_fragment, attempt_timeout, optional_bool,
}
use rocq_mcp.Session.{
  ProofFailure, proof_target, target_of, validate_proof_target, reject_cancelled,
  ensure_current_state, ensured, state_of, goals_of, failed, Environment, World, Fingerprint,
  opened, TracedProofStep, success, failure,
}
use rocq_mcp.Session.Artifacts.{
  unique_files, contains_file, reconcile_files, reconcile_file, fingerprint_of, built_file,
  artifact, record_artifact, forget_artifact, is_boundary, same_fingerprint, end_epoch,
  reconcile_artifacts,
}
use rocq_mcp.Session.Attempt.{Rejection, prepare_base, try_fragments}
use rocq_mcp.Session.Check.{check}
use rocq_mcp.Session.Moves.{rewind}
use rocq_mcp.Session.Grown.{Effect}
use rocq_mcp.Session.Growth.{check-Effect}
use rocq_mcp.Session.Live.{accepted, check-selected}
use rocq_mcp.Session.Order.{IsInOrder, check-IsInOrder, HasEach, try_fragments-HasEach}
use rocq_mcp.Session.Rewound.{Moved, rewind-Moved}
use rocq_mcp.Session.Query.{Questions, query}
use rocq_mcp.Session.Queried.{query-Alike}
use rocq_mcp.Session.Bounded.{IsBounded, query-IsBounded}
use rocq_mcp.Session.Dispatch.{Listings, serve, dispatch_attached, list_files, ended}
use rocq_mcp.Session.Stateless.{IsStateless, AreStateless, serve-IsStateless}
use rocq_mcp.Progress.Shape.{new_book}
use rocq_mcp.Session.Valid.{Event, requests, works_elsewhere, ends_epoch, history, history-IsValid}
use rocq_mcp.Session.Alike.{try_fragments-Alike}

abbrev info : DeclarationInfo
info = record {
  identity = record { file = "A.v"; qualified_path = "t" ∷ [] };
  kind = theorem_kind;
  statement = "True";
}

abbrev view : ProofState
view = record {
  theorem = info;
  lifecycle = open_proof;
  goals = [];
  goal_focus = record { focused = []; stack = []; shelved = []; given_up = []; next_bullet = none };
  structured_goals = none;
}

abbrev target : Target
target = record {
  info = info;
  anchor = record {
    source = "A.v";
    digest = codes "d";
    header = record { start = 0; end = 17 };
    declaration = record { start = 0; end = 27 };
    replaceable = true;
  };
  new_header = none;
}

abbrev built : Fingerprint
built = record { source = codes "s"; vo = none; glob = none }

abbrev root_step : ProofStep
root_step = record { state = 10; view = view; finished = false }

abbrev refusal : ProofFailure
refusal = record {
  error = new_error proof_step_failed (codes "no");
  sentence_index = 0;
  sentence_range = record { byte_start = 0; byte_end = 8 };
  before = view;
}

-- PET accepts "intros." and refuses everything else.
abbrev answer_to : PetStateId → Text → Result Error TracedProofStep
answer_to state fragment = elim fragment [
  | [] ↦ err (new_error proof_step_failed [])
  | letter ∷ rest ↦
      if letter == b'i'
      then ok (success (record { state = suc state; view = view; finished = false }))
      else ok (failure refusal)
]

abbrev env : Environment
env = record {
  engine = record {
    replay_root = λ n. ok root_step;
    run = λ n state input. ok (record { state = suc state; view = view; finished = false });
    release_states = λ n ids. ok tt;
  };
  request_cancelled_at = λ n. false;
  commit_request_at = λ n. true;
  artifact_fingerprint = λ n file. ok built;
  reconcile_source = λ n file. ok built;
  validate_target = λ n t. ok tt;
  goals = λ n state. ok view;
  run_traced = λ n state fragment. answer_to state fragment;
  close_proof = λ n state. ok tt;
  publish = λ n texts. record { began = true; answer = ok view };
  open_declaration = λ n identity. ok (opened (record { target = target; step = root_step }));
  declare = λ n kind file name statement. ok (record { target = target; step = root_step });
  validate_published = λ n t. ok view;
}

abbrev fresh : World
fresh = record {
  project = 0;
  pet = record { clock = 0; taken = []; released = [] };
  artifacts = [];
  book = record { next = 0; proof = none };
  others = [];
  attached = some 0;
}

abbrev identity_args : Value
identity_args = object (
    field "target"
      (object
        (field "file" (string "A.v") (field "qualified_path" (array (cons (string "t") nil)) end)))
      end)

-- The first is refused, the second accepted.
abbrev fragment_args : Value
fragment_args =
    object (field "attempts" (array (cons (string "exact I.") (cons (string "intros.") nil))) end)

abbrev back_args : Value
back_args = object (field "steps" (unsigned 1) end)

abbrev questions : Questions
questions = record {
  locate_symbol_candidates = λ n symbol. ok ("A.v" ∷ []);
  resolve_symbol_candidates = λ n symbol limit files. ok [];
  goals = λ n t state scope id. ok view;
  query_state = λ n t state q. ok (codes "nat");
  query_at = λ n identity q. ok (codes "nat");
}

abbrev lost : Error
lost = new_error pet_lost (codes "gone")

-- PET is lost when the files are listed.
abbrev listings : Listings
listings = record {
  list_files = λ n. err lost;
  list_decls = λ n file. ok [];
  refresh_project = λ n. ok false;
  attach = λ n path. ok 1;
  project_pet = λ n project. record { clock = 0; taken = []; released = [] };
  project_artifacts = λ n project. [];
}

abbrev asks : String → Value → Event
asks name args = requests (some 0) new_book 0 name args

abbrev start_args : Value
start_args = object (field "project_path" (string "/p") end)

abbrev poll_args : Value
poll_args = object (field "kind" (string "progress") end)

abbrev type_args : Value
type_args = object (field "kind" (string "type") (field "expression" (string "0") end))

abbrev events : List Event
events =
    asks "prove" identity_args
    ∷ asks "try" fragment_args
    ∷ asks "check" fragment_args
    ∷ ends_epoch
    ∷ asks "check" fragment_args
    ∷ asks "rewind" back_args
    ∷ works_elsewhere (record { clock = 40; taken = []; released = [] }) []
    ∷ asks "query" type_args
    ∷ asks "query" poll_args
    ∷ asks "start" start_args
    ∷ asks "list_files" (object end)
    ∷ asks "check" fragment_args
    ∷ []

abbrev proving : World
proving = history env questions listings (asks "prove" identity_args ∷ []) fresh

abbrev read : Settings
read = record {
  fragments = codes "exact I." ∷ codes "intros." ∷ [];
  timeout = none;
  include_trace = false;
  include_structured = false;
}

try_fragments-Alike_example :
    Alike proving.book (try_fragments env fragment_args proving).1.book
    × ((id : CheckpointId)
        → (path id (try_fragments env fragment_args proving).1.book ≡ path id proving.book)
          × (fragments id (try_fragments env fragment_args proving).1.book
              ≡ fragments id proving.book))
try_fragments-Alike_example = try_fragments-Alike env fragment_args proving

arguments_read : settings fragment_args ≡ ok read
unfolding settings reject_unknown first_unknown attempts strings validate_fragments validate_each
    validate_fragment attempt_timeout optional_bool encode trim
arguments_read = refl

check-Effect_example :
    Effect proving.book read.fragments
      (check env fragment_args proving).0
      (check env fragment_args proving).1.book
check-Effect_example = check-Effect env fragment_args proving read arguments_read

check-IsInOrder_example : IsInOrder env read.fragments (check env fragment_args proving).0
check-IsInOrder_example = check-IsInOrder env fragment_args proving read arguments_read

try_fragments-HasEach_example :
    HasEach (length read.fragments) (try_fragments env fragment_args proving).0
try_fragments-HasEach_example = try_fragments-HasEach env fragment_args proving read arguments_read

rewind-Moved_example :
    Moved back_args proving.book
      (rewind env back_args proving).0
      (rewind env back_args proving).1.book
rewind-Moved_example = rewind-Moved env back_args proving

fresh-IsValid : IsValid fresh.book
fresh-IsValid = record { in_range = omega arith; session = tt }

history-IsValid_example : IsValid (history env questions listings events fresh).book
history-IsValid_example = history-IsValid env questions listings events fresh fresh-IsValid

query-Alike_example :
    Alike proving.book (query env questions type_args proving).1.book
    × ((id : CheckpointId)
        → (path id (query env questions type_args proving).1.book ≡ path id proving.book)
          × (fragments id (query env questions type_args proving).1.book
              ≡ fragments id proving.book))
query-Alike_example = query-Alike env questions type_args proving

query-IsBounded_example : IsBounded type_args (query env questions type_args proving).0
query-IsBounded_example = query-IsBounded env questions type_args proving

listing_fails :
    (serve env questions listings "list_files" (object end) proving).0 ≡ err (failed lost)
unfolding serve dispatch_attached list_files ended reject_unknown first_unknown
    invalidates_pet_epoch
listing_fails = refl

serve-IsStateless_example :
    IsStateless (serve env questions listings "list_files" (object end) proving).1.book
    × AreStateless
        (serve env questions listings "list_files" (object end) proving).1.project
        (serve env questions listings "list_files" (object end) proving).1.others
unfolding invalidates_pet_epoch
serve-IsStateless_example =
    serve-IsStateless env questions listings "list_files" (object end) proving lost listing_fails
      refl

abbrev root : Checkpoint
root = record {
  parent = none;
  pet_state = some 10;
  accepted_input = none;
  finished = false;
  view = view;
  goals_next_offset = none;
}

abbrev alive_book : CheckpointBook Target
alive_book = record {
  next = 1;
  proof = some (record { target = target; current = 1; checkpoints = (1, root) ∷ [] });
}

abbrev alive : World
alive = record fresh { book = alive_book }

-- Five calls of the engine, and the artifact of the target's file.
abbrev prepared_world : World
prepared_world = record alive {
  pet = record { clock = 5; taken = []; released = [] };
  artifacts = ("A.v", built) ∷ [];
}

prepared :
    prepare_base env alive ≡ (ok (record { target = target; id = 1; view = view }), prepared_world)
unfolding prepare_base proof_target target_of validate_proof_target reconcile_artifacts unique_files
    contains_file reconcile_files reconcile_file reject_cancelled fingerprint_of built_file artifact
    record_artifact forget_artifact is_boundary same_fingerprint end_epoch ensure_current_state
    ensured state_of goals_of current lookup
prepared = refl

check-selected_example :
    (rejections : List Rejection) × ((check env fragment_args alive).0
      ≡ ok (accepted 1 2 (record { state = 11; view = view; finished = false }) rejections))
unfolding current lookup
check-selected_example =
    check-selected env fragment_args alive read (codes "exact I." ∷ []) [] (codes "intros.")
      (record { target = target; id = 1; view = view }) prepared_world 1 root 10
      (record { state = 11; view = view; finished = false }) arguments_read refl prepared refl refl
      (omega arith) ((λ n. (refusal, refl)), tt) (λ n. refl) refl (λ n. refl)
