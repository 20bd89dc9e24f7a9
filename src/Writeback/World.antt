-- ===== src/Writeback/World.antt =====
-- The transaction around the source file: `publish_with_progress`, `restore_epoch`,
-- `native_build`, `build_and_refresh`, `atomic_write` and `require_digest` of
-- crates/rocq-engine/src/writeback.rs. The file is shared with writers outside the program, which
-- may act before each step of this one (`interferes`) and between the comparison and the rename of
-- a write (`races`). Dune, PET, the disk and the caller's audit answer by `Environment`, at each
-- tick of the clock. Progress notifications are left out.
use rocq_mcp.Prelude.{
  same_bytes, and_then, ℕ, suc, Bool, true, false, not, Option, none, some, List, ◌∷◌, ◌++◌,
  if◌then◌else◌, Result, ok, err, map_err, codes, trim,
}
use rocq_mcp.Types.{Bytes, Text}
use rocq_mcp.Errors.{
  Error, PetError, new_error, invalid_configuration, invalid_declaration, request_cancelled,
  build_timeout, declaration_changed,
}
use rocq_mcp.Errors.Project.{refresh_error}
use rocq_mcp.Errors.Redact.{pet_public_message}
use rocq_mcp.Writeback.{Digest, PreparedPublication}

-- What `run_dune` returns; `stderr` is as `from_utf8_lossy` reads it.
pub record DuneOutput : Type 0 where
  pub cancelled : Bool
  pub timed_out : Bool
  pub overflow : Bool
  pub success : Bool
  pub stderr : Text

-- Dune may know no target for the source, and may fail to start.
pub data Build : Type 0 where
  no_target : Error → Build
  not_started : Build
  finished : DuneOutput → Build

-- A write may fail before the rename, or after it, in syncing the directory.
pub data Write : Type 0 where
  refused written unsynced : Write

pub record Environment (Audit : Type 0) : Type 0 where
  pub interferes : ℕ → Option Bytes → Option Bytes
  pub races : ℕ → Option Bytes → Option Bytes
  pub writes : ℕ → Write
  pub builds : ℕ → Build
  pub refreshes : ℕ → Result PetError (Unit {0})
  pub audits : ℕ → Result Error Audit

-- The file, and the program's own writes, the last first: what each found and what it wrote.
pub record World : Type 0 where
  pub clock : ℕ
  pub disk : Option Bytes
  pub log : List (Option Bytes × Bytes)

abbrev pub Outcome : Type 0 → Type 0
Outcome A = Result Error A × World

unfoldable pub build_result : Build → Result Error (Unit {0})
build_result (no_target error) = err error
build_result not_started = err (new_error invalid_configuration (codes "failed to execute Dune"))
build_result (finished output) =
    if output.cancelled
    then err (new_error request_cancelled (codes "native build was cancelled"))
    else if output.timed_out
    then err (new_error build_timeout (codes "native build timed out"))
    else if output.overflow
    then err (new_error invalid_configuration (codes "Dune output exceeded the configured bound"))
    else if not output.success
    then err
        (new_error invalid_declaration (codes "proof source was rejected: " ++ trim output.stderr))
    else ok tt

-- The result of a rollback whose build and refresh have both been run.
unfoldable pub rollback_result :
    Bool → Result Error (Unit {0}) → Result Error (Unit {0}) → Result Error Bool
rollback_result restored (ok built) (ok admitted) = ok restored
rollback_result restored (err build) (ok admitted) = err build
rollback_result restored (ok built) (err refresh) = err refresh
rollback_result restored (err build) (err refresh) =
    err (
      new_error invalid_configuration
        (build.message ++ codes "; additionally, " ++ refresh.message))

abbrev write_failed : Error
write_failed = new_error invalid_configuration (codes "atomic source replacement failed")

unfoldable pub persist : Write → Bytes → World → Outcome (Unit {0})
persist refused bytes w = (err write_failed, w)
persist written bytes w = (ok tt, record w { disk = some bytes; log = (w.disk, bytes) ∷ w.log })
persist unsynced bytes w =
    (err write_failed, record w { disk = some bytes; log = (w.disk, bytes) ∷ w.log })

-- The source's metadata are read first.
unfoldable pub replace_file : Write → Bytes → World → Outcome (Unit {0})
unfolding persist
replace_file result bytes w = elim w.disk [
  | none ↦ (err write_failed, w)
  | some found ↦ persist result bytes w
]

abbrev pub rollback_prefix : Text
rollback_prefix = codes "publication rollback could not refresh the project context: "

unfoldable pub rollback_refresh_error : PetError → Error
rollback_refresh_error error =
    new_error invalid_configuration (rollback_prefix ++ pet_public_message error)

module _ (sha256 : Bytes → Digest) {Audit : Type 0} (env : Environment Audit) where
  abbrev pub elapse : World → World
  elapse w = record w { clock = suc w.clock; disk = env.interferes w.clock w.disk }

  unfoldable pub native_build : World → Outcome (Unit {0})
  native_build w = (build_result (env.builds w.clock), elapse w)

  unfoldable pub refresh_workspace : World → Result PetError (Unit {0}) × World
  refresh_workspace w = (env.refreshes w.clock, elapse w)

  unfoldable pub validate : World → Outcome Audit
  validate w = (env.audits w.clock, elapse w)

  unfoldable pub atomic_write : Bytes → World → Outcome (Unit {0})
  unfolding replace_file
  atomic_write bytes w =
      replace_file (env.writes w.clock) bytes
        (record w { clock = suc w.clock; disk = env.races w.clock w.disk })

  unfoldable pub check_digest : Digest → Option Bytes → Result Error (Unit {0})
  check_digest expected none =
      err (new_error declaration_changed (codes "published source became unavailable"))
  check_digest expected (some current) =
      if same_bytes (sha256 current) expected
      then ok tt
      else err (new_error declaration_changed (codes "source changed during publication"))

  unfoldable pub require_digest : Digest → World → Outcome (Unit {0})
  unfolding check_digest
  require_digest expected w = (check_digest expected (elapse w).disk, elapse w)

  -- Our bytes are taken back only where they are still there.
  unfoldable pub reclaim : PreparedPublication → Option Bytes → World → Outcome Bool
  unfolding atomic_write
  reclaim p none w = (ok false, w)
  reclaim p (some current) w =
      if same_bytes (sha256 current) p.replacement_digest
      then and_then (atomic_write p.original w) (λ _ w'. (ok true, w'))
      else (ok false, w)

  rollback_build_error : Error → Error
  rollback_build_error error =
      new_error invalid_configuration (codes "publication rollback build failed: " ++ error.message)

  -- The refresh is run whether the build failed or not.
  unfoldable pub readmit : Bool → World → Outcome Bool
  unfolding rollback_build_error rollback_refresh_error rollback_result native_build
      refresh_workspace
  readmit restored w =
      let (build, w1) = native_build w in
      let (refresh, w2) = refresh_workspace w1 in
      (
        rollback_result restored (map_err rollback_build_error build)
            (map_err rollback_refresh_error refresh),
        w2,
      )

  unfoldable pub restore_epoch : PreparedPublication → World → Outcome Bool
  unfolding reclaim readmit
  restore_epoch p w = and_then (reclaim p (elapse w).disk (elapse w)) readmit

  abbrev pub refreshed : Result PetError (Unit {0}) × World → Outcome (Unit {0})
  refreshed (result, w) = (map_err refresh_error result, w)

  -- The closure `result`: build, refresh and audit, with the source's digest checked after each.
  unfoldable pub verify : PreparedPublication → World → Outcome Audit
  unfolding native_build require_digest refresh_workspace validate
  verify p w = and_then (native_build w) λ _ w1.
      and_then (require_digest p.replacement_digest w1) λ _ w2.
        and_then (refreshed (refresh_workspace w2)) λ _ w3.
          and_then (require_digest p.replacement_digest w3) λ _ w4.
            and_then (validate w4)
              λ value w5. and_then (require_digest p.replacement_digest w5) λ _ w6. (ok value, w6)

  abbrev failure : Error → Bool → Error
  failure error true = error
  failure error false =
      new_error declaration_changed
        (codes "source changed during failed publication; original error: " ++ error.message)

  unfoldable pub settle : PreparedPublication → Outcome Audit → Outcome Audit
  unfolding restore_epoch
  settle p (ok value, w) = (ok value, w)
  settle p (err error, w) =
      and_then (restore_epoch p w) (λ restored w'. (err (failure error restored), w'))

  unfoldable pub wrote : PreparedPublication → Outcome (Unit {0}) → Outcome Audit
  unfolding restore_epoch settle verify
  wrote p (ok done, w) = settle p (verify p w)
  wrote p (err error, w) = and_then (restore_epoch p w) (λ restored w'. (err error, w'))

  unfoldable pub owned : PreparedPublication → Option Bytes → Bool
  owned p none = false
  owned p (some current) = same_bytes (sha256 current) (sha256 p.original)

  unfoldable pub publish_with_progress : PreparedPublication → World → Outcome Audit
  unfolding owned wrote atomic_write restore_epoch
  publish_with_progress p w =
      if owned p (elapse w).disk
      then wrote p (atomic_write p.replacement_bytes (elapse w))
      else and_then (restore_epoch p (elapse w)) λ restored w'. (
        err (
            new_error declaration_changed
              (codes "target source changed before publication commit")),
        w',
      )

  admitted : Result Error (Unit {0}) → Outcome (Unit {0}) → Outcome Audit
  admitted build (err error, w) = (err error, w)
  admitted (err error) (ok done, w) = (err error, w)
  admitted (ok built) (ok done, w) = validate w

  -- The refresh is run whether the build failed or not, and its error comes first.
  unfoldable pub build_and_refresh : World → Outcome Audit
  unfolding native_build refresh_workspace admitted
  build_and_refresh w =
      let (build, w1) = native_build w in admitted build (refreshed (refresh_workspace w1))
