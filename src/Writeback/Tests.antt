-- ===== src/Writeback/Tests.antt =====
-- A theorem that is published, rejected by Dune, and overtaken by another writer. The hash is the
-- identity.
use rocq_mcp.Prelude.{
  same_bytes, ℕ, zero, suc, ◌≡◌, ◌≢◌, refl, Bool, true, false, Option, none, some, [], ◌∷◌, ok,
  codes, All, encode, trim, trim_end, from_utf8,
}
use rocq_mcp.Types.{Bytes, theorem_kind, DeclarationInfo}
use rocq_mcp.Writeback.{
  Digest, Target, PreparedPublication, prepare, replacement, script, terminator, ends_with,
}
use rocq_mcp.Writeback.Splice.{IsSplice, prepare_lem}
use rocq_mcp.Writeback.Outcome.{publish-ok}
use rocq_mcp.Writeback.Quiet.{IsSettled, publish-IsSettled}
use rocq_mcp.Writeback.Ownership.{IsOwnWrite, publish-own_writes}
use rocq_mcp.Writeback.World.{
  Environment, World, Build, finished, refused, written, publish_with_progress, native_build,
  build_result, refresh_workspace, validate, replace_file, persist, atomic_write, require_digest,
  check_digest, reclaim, readmit, rollback_result, restore_epoch, verify, settle, wrote, owned,
}

abbrev identity : Bytes → Digest
identity bytes = bytes

abbrev source : Bytes
source = codes "(* a *)Theorem t : True. Admitted.(* b *)"

abbrev info : DeclarationInfo
info = record {
  identity = record { file = "A.v"; qualified_path = "Demo" ∷ "A" ∷ "t" ∷ [] };
  kind = theorem_kind;
  statement = "True";
}

abbrev target : Target
target = record {
  info = info;
  anchor = record {
    source = "A.v";
    digest = source;
    header = record { start = 7; end = 24 };
    declaration = record { start = 7; end = 34 };
    replaceable = true;
  };
  new_header = none;
}

abbrev proved : Bytes
proved = codes "(* a *)Theorem t : True.\nProof.\nexact I.\nQed.\n(* b *)"

abbrev prepared : PreparedPublication
prepared = record {
  path = "A.v";
  original = source;
  replacement_bytes = proved;
  replacement_digest = proved;
}

prepare_runs :
    prepare identity (ok tt) (some source) target (codes "  exact I. " ∷ []) ≡ ok prepared
unfolding prepare replacement script terminator same_bytes from_utf8 ends_with trim trim_end encode
prepare_runs = refl

prepare_lem_example :
    (true ≡ true)
    × (some source ≡ some source)
    × (source ≡ source)
    × IsSplice source proved 7 34
    × (proved ≡ proved)
prepare_lem_example =
    prepare_lem identity (ok tt) (some source) target (codes "  exact I. " ∷ []) prepared
      prepare_runs

abbrev dune : Bool → Build
dune success = finished (record {
  cancelled = false;
  timed_out = false;
  overflow = false;
  success = success;
  stderr = codes "no";
})

-- Dune's verdict, and what another writer leaves at tick 2, where it acts.
abbrev environment : Bool → (ℕ → Option Bytes → Option Bytes) → Environment ℕ
environment verdict interferes = record {
  interferes = interferes;
  races = λ _ disk. disk;
  writes = λ _. written;
  builds = λ _. dune verdict;
  refreshes = λ _. ok tt;
  audits = λ _. ok 7;
}

abbrev nobody : ℕ → Option Bytes → Option Bytes
nobody n disk = disk

abbrev somebody : ℕ → Option Bytes → Option Bytes
somebody (suc (suc zero)) disk = some (codes "edited")
somebody n disk = disk

abbrev world : World
world = record { clock = 0; disk = some source; log = [] }

published :
    publish_with_progress identity (environment true nobody) prepared world
    ≡ (ok 7, record { clock = 8; disk = some proved; log = (some source, proved) ∷ [] })
unfolding publish_with_progress owned wrote settle verify native_build build_result
    refresh_workspace validate require_digest check_digest atomic_write replace_file persist
    same_bytes
published = refl

publish-ok_example : (bytes : Bytes) × (some proved ≡ some bytes) × (bytes ≡ proved)
publish-ok_example =
    publish-ok identity (environment true nobody) prepared world 7
      (record { clock = 8; disk = some proved; log = (some source, proved) ∷ [] }) published

written-accepted : written ≢ refused
written-accepted e = cc

publish-IsSettled_example :
    IsSettled prepared (publish_with_progress identity (environment false nobody) prepared world)
publish-IsSettled_example =
    publish-IsSettled identity (environment false nobody) (λ n disk. refl) (λ n disk. refl)
      (λ n. written-accepted) prepared world refl refl

publish-own_writes_example :
    All
      (IsOwnWrite identity prepared)
      (publish_with_progress identity (environment true somebody) prepared world).1.log
publish-own_writes_example =
    publish-own_writes identity (environment true somebody) (λ n disk. refl) prepared world refl

-- The edit that lands during the build stays, and the publication reports it.
overtaken :
    (publish_with_progress identity (environment true somebody) prepared world).1.disk
    ≡ some (codes "edited")
unfolding publish_with_progress owned wrote settle verify restore_epoch reclaim readmit
    rollback_result native_build build_result refresh_workspace validate require_digest check_digest
    atomic_write replace_file persist same_bytes
overtaken = refl

rejected :
    (publish_with_progress identity (environment false nobody) prepared world).1.log
    ≡ (some proved, source) ∷ (some source, proved) ∷ []
unfolding publish_with_progress owned wrote settle verify restore_epoch reclaim readmit
    rollback_result native_build build_result refresh_workspace validate require_digest check_digest
    atomic_write replace_file persist same_bytes
rejected = refl
