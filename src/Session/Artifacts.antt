-- ===== src/Session/Artifacts.antt =====
-- `reconcile_artifacts` of crates/rocq-mcp/src/adapter.rs, and the artifact map of `ProjectRuntime`
-- (crates/rocq-mcp/src/server.rs), an association list.
use rocq_mcp.Prelude.{
  Bool, true, false, not, Option, none, some, List, [], ◌∷◌, ◌++◌, ◌||◌, ◌&&◌, if◌then◌else◌,
  Result, ok, err, map_err, and_then, same_bytes, str_eq,
}
use rocq_mcp.Types.{Bytes, FileId}
use rocq_mcp.Errors.{Error}
use rocq_mcp.Session.{
  Fingerprint, Environment, World, Outcome, failed, tick, restart, invalidate_project_states,
  reject_cancelled,
}

abbrev pub same_optional : Option Bytes → Option Bytes → Bool
same_optional none none = true
same_optional none (some b) = false
same_optional (some a) none = false
same_optional (some a) (some b) = same_bytes a b

unfoldable pub same_fingerprint : Fingerprint → Fingerprint → Bool
same_fingerprint a b =
    same_bytes a.source b.source && same_optional a.vo b.vo && same_optional a.glob b.glob

abbrev pub present : Option Bytes → Bool
present none = false
present (some b) = true

-- Whether a build ends the PET epoch: `before` and `cached` are what was known before it.
unfoldable pub is_boundary : Fingerprint → Option Fingerprint → Fingerprint → Bool
unfolding same_fingerprint
is_boundary before none built =
    (present before.vo || present before.glob) && not (same_fingerprint before built)
is_boundary before (some cached) built = not (same_fingerprint cached built)

unfoldable pub artifact : FileId → List (FileId × Fingerprint) → Option Fingerprint
artifact file [] = none
artifact file ((name, f) ∷ rest) =
    let later = artifact file rest in if str_eq name file then some f else later

unfoldable pub forget_artifact : FileId → List (FileId × Fingerprint) → List (FileId × Fingerprint)
forget_artifact file [] = []
forget_artifact file ((name, f) ∷ rest) =
    let later = forget_artifact file rest in if str_eq name file then later else (name, f) ∷ later

unfoldable pub record_artifact :
    FileId → Fingerprint → List (FileId × Fingerprint) → List (FileId × Fingerprint)
unfolding forget_artifact
record_artifact file built artifacts = (file, built) ∷ forget_artifact file artifacts

unfoldable pub contains_file : FileId → List FileId → Bool
contains_file file [] = false
contains_file file (x ∷ rest) = str_eq x file || contains_file file rest

-- Each file once, in the order in which it is first named.
unfoldable pub unique_files : List FileId → List FileId → List FileId
unfolding contains_file
unique_files unique [] = unique
unique_files unique (file ∷ rest) =
    let with_it = unique_files (unique ++ file ∷ []) rest in
    let without = unique_files unique rest in if contains_file file unique then without else with_it

module _ (env : Environment) where
  unfoldable pub built_file :
      FileId → Fingerprint → Bool → Result Error Fingerprint → World → Outcome Bool
  unfolding artifact forget_artifact record_artifact is_boundary
  built_file file before epoch (err error) w = (
    err (failed error),
    invalidate_project_states (restart (record w { artifacts = forget_artifact file w.artifacts })),
  )
  built_file file before epoch (ok built) w = (
    ok (epoch || is_boundary before (artifact file w.artifacts) built),
    record w { artifacts = record_artifact file built w.artifacts },
  )

  unfoldable pub fingerprint_of : FileId → World → Outcome Fingerprint
  fingerprint_of file w = (map_err failed (env.artifact_fingerprint w.pet.clock file), tick w)

  -- One round of the loop.
  unfoldable pub reconcile_file : FileId → Bool → World → Outcome Bool
  unfolding built_file fingerprint_of
  reconcile_file file epoch w = and_then (reject_cancelled env w) λ _ w1.
      and_then (fingerprint_of file w1)
        λ before w2. built_file file before epoch (env.reconcile_source w2.pet.clock file) (tick w2)

  unfoldable pub reconcile_files : List FileId → Bool → World → Outcome Bool
  unfolding reconcile_file
  reconcile_files [] epoch w = (ok epoch, w)
  reconcile_files (file ∷ rest) epoch w =
      and_then (reconcile_file file epoch w) (λ epoch' w'. reconcile_files rest epoch' w')

  unfoldable pub end_epoch : Bool → World → Outcome (Unit {0})
  end_epoch true w = (ok tt, invalidate_project_states (restart w))
  end_epoch false w = (ok tt, w)

  unfoldable pub reconcile_artifacts : List FileId → World → Outcome (Unit {0})
  unfolding unique_files reconcile_files end_epoch
  reconcile_artifacts files w = and_then (reconcile_files (unique_files [] files) false w) end_epoch
