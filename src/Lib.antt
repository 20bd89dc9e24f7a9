-- ===== src/Lib.antt =====
-- rocq-mcp serves the Rocq prover to a client over the Model Context Protocol. The client opens a
-- declaration, sends proof fragments, rewinds among the checkpoints that they make, and at the end
-- the program writes the finished proof into the source file, has Dune build it, and refreshes the
-- prover process (PET). This library models the parts of crates/rocq-engine and crates/rocq-mcp
-- that decide what happens: the data, the error paths, the state and its operations.
--
-- Parts, and the files that model them:
--   Prelude, Types    shared helpers, and the data of crates/rocq-engine/src/types.rs: records for
--                     structs, data types for enums, UTF-8 texts as bytes where the code counts
--                     or cuts bytes, and as code points where it reads characters;
--   Errors            `Error`, `PetError` and the projections from the second to the first
--                     (crates/rocq-engine/src/pet/mod.rs, engine.rs and writeback.rs beside it),
--                     `public_error` and `public_message` (crates/rocq-mcp/src/adapter.rs);
--   Checkpoint        crates/rocq-mcp/src/checkpoint.rs, the graph of proof states of one session:
--                     a method that changes the book returns its result and the new book;
--   Request           crates/rocq-engine/src/request.rs, one request's cancellation signal, whose
--                     methods are atomic steps of several threads, and the scope of the thread
--                     that serves the request;
--   Paging            `text_result` and `bounded_checkpoint_view` (crates/rocq-mcp/src/adapter.rs)
--                     and `bounded_log` (crates/rocq-mcp/src/server.rs);
--   Progress          `ProgressBook` with the methods of `SessionCell` that clients poll
--                     (crates/rocq-mcp/src/server.rs); logs are bounded by Paging;
--   Replay            `replay_checkpoint` (crates/rocq-mcp/src/adapter.rs), which makes the PET states
--                     of a checkpoint's path again: it follows Checkpoint's `path`, bounds the views
--                     by Paging, and asks an `Engine` that is a parameter; `Pet` counts the states
--                     that were handed out and released;
--   Arguments         crates/rocq-mcp/src/validation.rs, the readers of arguments of
--                     crates/rocq-mcp/src/adapter.rs, and `validate_fragments`
--                     (crates/rocq-engine/src/engine.rs);
--   Session           `dispatch` (crates/rocq-mcp/src/adapter.rs) on a `World`: the project that the
--                     session is attached to, its PET and artifacts, the book of the session and
--                     the books of the others. Artifacts.antt has `reconcile_artifacts`,
--                     Attempt.antt `try_fragments`, Check.antt `check`, Query.antt `query`, of which
--                     Goals.antt reads and answers the questions about goals, Moves.antt the handlers
--                     that open, leave and rewind a proof, and Dispatch.antt `start`, the poll of
--                     progress and the admission of a request. They call Arguments, Checkpoint,
--                     Paging, Progress and Replay; every other call of the engine answers by an
--                     `Environment`, by `Questions` or by `Listings`, functions of PET's clock;
--   Declarations      `relative_path`, `declared_identity`, `replaceable_declaration_ranges` and
--                     `symbol_match_kind` (crates/rocq-engine/src/engine.rs); `qualified_name` is what `query` asks by;
--   Goals             the goals of PET (crates/rocq-engine/src/pet/mod.rs) and their text,
--                     `render_goals` (crates/rocq-engine/src/engine.rs);
--   Sexp              `sexp_tokens` (crates/rocq-engine/src/dune/mod.rs), which reads Dune's answers;
--   Writeback         crates/rocq-engine/src/writeback.rs: `prepare` and `replacement` in
--                     Writeback.antt, the transaction on the file in Writeback/World.antt, where
--                     Dune, PET, the disk, the audit and other writers of the file are an
--                     `Environment`, functions of a clock that each step advances. A failure of
--                     PET becomes an error by Errors.Project.refresh_error.
--
-- In each folder the file Tests.antt holds concrete runs.
--
-- Bounds and fuel: counters and offsets keep their 64-bit limits (`u64_bound`, `usize_max`), with
-- `checked_add` and `saturating_add` written out. Three loops have fuel. `path` in Checkpoint follows
-- parents with one round for each identifier up to the target's, which is enough as a parent has a
-- smaller identifier than its child. A client that reads pages in Paging.Pages has one round for each
-- byte of the text and one more, which is enough as a page that is not the last holds a byte. The
-- decimal digits of a number have one round for each unit and one more. Other loops are structural
-- recursion.
--
-- Not modelled: the JSON encodings (a record has the object's fields), tool schemas, the transport
-- and its threads, the processes of Dune and PET, SHA-256 (a parameter), the file system's temporary
-- file (a write is refused, done, or done without its last sync), progress notifications, the
-- registry of projects (`attach` answers with an index) and two `start` requests of one session at
-- once, the engine's queries, layout discovery, and the trace runner of crates/rocq-e2e.
pub mod Prelude
pub mod Types
pub mod Errors
pub mod Goals
pub mod Arguments
pub mod Checkpoint
pub mod Declarations
pub mod Request
pub mod Paging
pub mod Replay
pub mod Writeback
pub mod Progress
pub mod Session
pub mod Sexp
