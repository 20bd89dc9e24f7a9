-- ===== src/Writeback/Ownership.antt =====
-- Which contents the program itself overwrites (`publish_with_progress` and `restore_epoch` of
-- crates/rocq-engine/src/writeback.rs), whatever other writers do to the file outside the short
-- interval between a comparison and the rename that follows it.
use rocq_mcp.Prelude.{
  same_bytes, same_bytes→≡, and_then, and_then-keeps, ℕ, ◌≡◌, refl, ◌∙◌, ◌⊎◌, inl, inr, Bool, true,
  Option, none, some, [], ok, err, Bool-cases, All,
}
use rocq_mcp.Types.{Bytes}
use rocq_mcp.Errors.{Error}
use rocq_mcp.Writeback.{Digest, PreparedPublication}
use rocq_mcp.Writeback.World.{
  Environment, World, Outcome, Write, refused, written, unsynced, elapse, native_build,
  refresh_workspace, validate, replace_file, persist, atomic_write, require_digest, reclaim,
  readmit, restore_epoch, verify, refreshed, settle, wrote, owned, publish_with_progress,
}

module _ (sha256 : Bytes → Digest) where
  -- One write: the replacement over content with the original's digest, or the original over
  -- content with the replacement's digest.
  abbrev pub IsOwnWrite : PreparedPublication → Option Bytes × Bytes → Type 0
  IsOwnWrite p (none, after) = ⊥
  IsOwnWrite p (some before, after) =
      ((sha256 before ≡ sha256 p.original) × (after ≡ p.replacement_bytes))
      ⊎ ((sha256 before ≡ p.replacement_digest) × (after ≡ p.original))

  module _ {Audit : Type 0} (env : Environment Audit)
      (unraced : (n : ℕ) (disk : Option Bytes) → env.races n disk ≡ disk) where
    IsOwn : PreparedPublication → World → Type 0
    IsOwn p w = All (IsOwnWrite p) w.log

    persist-IsOwn :
        (p : PreparedPublication) (r : Write) (bytes : Bytes) (w : World)
        → IsOwnWrite p (w.disk, bytes)
        → IsOwn p w
        → IsOwn p (persist r bytes w).1
    unfolding persist IsOwn
    persist-IsOwn p refused bytes w own h = h
    persist-IsOwn p written bytes w own h = (own, h)
    persist-IsOwn p unsynced bytes w own h = (own, h)

    replace_file-IsOwn :
        (p : PreparedPublication) (r : Write) (bytes : Bytes) (disk : Option Bytes) (w : World)
        → w.disk ≡ disk
        → IsOwnWrite p (disk, bytes)
        → IsOwn p w
        → IsOwn p (replace_file r bytes w).1
    unfolding replace_file IsOwn
    replace_file-IsOwn p r bytes none w e own h = absurd own
    replace_file-IsOwn p r bytes (some found) w e own h =
        rw e (persist-IsOwn p r bytes (record w { disk = some found }) own h)

    atomic_write-IsOwn :
        (p : PreparedPublication) (bytes : Bytes) (disk : Option Bytes) (w : World)
        → w.disk ≡ disk
        → IsOwnWrite p (disk, bytes)
        → IsOwn p w
        → IsOwn p (atomic_write sha256 env bytes w).1
    unfolding atomic_write IsOwn
    atomic_write-IsOwn p bytes disk w e own h =
        replace_file-IsOwn p (env.writes w.clock) bytes disk _ (unraced w.clock w.disk ∙ e) own h

    reclaim-IsOwn :
        (p : PreparedPublication) (disk : Option Bytes) (w : World)
        → w.disk ≡ disk
        → IsOwn p w
        → IsOwn p (reclaim sha256 env p disk w).1
    unfolding reclaim
    reclaim-IsOwn p none w e h = h
    reclaim-IsOwn p (some bytes) w e h =
        elim (Bool-cases (same_bytes (sha256 bytes) p.replacement_digest)) [
          | inl same ↦ rw same (
              and_then-keeps (IsOwn p) (atomic_write sha256 env p.original w)
                (λ _ w'. (ok true, w'))
                (atomic_write-IsOwn p p.original (some bytes) w e
                  (inr (same_bytes→≡ (sha256 bytes) p.replacement_digest same, refl)) h)
                (λ _ w' h'. h'))
          | inr other ↦ rw other h
        ]

    restore_epoch-IsOwn :
        (p : PreparedPublication) (w : World) → IsOwn p w → IsOwn p (restore_epoch sha256 env p w).1
    unfolding restore_epoch readmit native_build refresh_workspace IsOwn
    restore_epoch-IsOwn p w h =
        and_then-keeps (IsOwn p)
          (reclaim sha256 env p (elapse sha256 env w).disk (elapse sha256 env w)) _
          (reclaim-IsOwn p (elapse sha256 env w).disk (elapse sha256 env w) refl h)
          (λ restored w' h'. h')

    failed-IsOwn :
        (p : PreparedPublication) (f : Bool → Error) (r : Outcome Bool)
        → IsOwn p r.1
        → IsOwn p (and_then {B = Audit} r (λ restored w'. (err (f restored), w'))).1
    failed-IsOwn p f (ok a, w) h = h
    failed-IsOwn p f (err e, w) h = h

    verify-IsOwn :
        (p : PreparedPublication) (w : World) → IsOwn p w → IsOwn p (verify sha256 env p w).1
    unfolding verify native_build require_digest refresh_workspace validate IsOwn
    verify-IsOwn p w h = and_then-keeps (IsOwn p) (native_build sha256 env w) _ h λ _ w1 h1.
        and_then-keeps (IsOwn p) (require_digest sha256 env p.replacement_digest w1) _ h1 λ _ w2 h2.
          and_then-keeps (IsOwn p) (refreshed sha256 env (refresh_workspace sha256 env w2)) _ h2
            λ _ w3 h3.
              and_then-keeps (IsOwn p) (require_digest sha256 env p.replacement_digest w3) _ h3
                λ _ w4 h4. and_then-keeps (IsOwn p) (validate sha256 env w4) _ h4 λ value w5 h5.
                  and_then-keeps (IsOwn p) (require_digest sha256 env p.replacement_digest w5) _ h5
                    λ _ w6 h6. h6

    settle-IsOwn :
        (p : PreparedPublication) (r : Outcome Audit)
        → IsOwn p r.1
        → IsOwn p (settle sha256 env p r).1
    unfolding settle
    settle-IsOwn p (ok value, w) h = h
    settle-IsOwn p (err error, w) h =
        failed-IsOwn p _ (restore_epoch sha256 env p w) (restore_epoch-IsOwn p w h)

    wrote-IsOwn :
        (p : PreparedPublication) (r : Outcome (Unit {0}))
        → IsOwn p r.1
        → IsOwn p (wrote sha256 env p r).1
    unfolding wrote
    wrote-IsOwn p (ok done, w) h = settle-IsOwn p (verify sha256 env p w) (verify-IsOwn p w h)
    wrote-IsOwn p (err error, w) h =
        failed-IsOwn p (λ _. error) (restore_epoch sha256 env p w) (restore_epoch-IsOwn p w h)

    attempt-IsOwn :
        (p : PreparedPublication) (disk : Option Bytes) (w : World)
        → w.disk ≡ disk
        → owned sha256 env p disk ≡ true
        → IsOwn p w
        → IsOwn p (wrote sha256 env p (atomic_write sha256 env p.replacement_bytes w)).1
    unfolding owned
    attempt-IsOwn p none w e mine h = cc
    attempt-IsOwn p (some bytes) w e mine h =
        wrote-IsOwn p (atomic_write sha256 env p.replacement_bytes w) (
          atomic_write-IsOwn p p.replacement_bytes (some bytes) w e
            (inl (same_bytes→≡ (sha256 bytes) (sha256 p.original) mine, refl)) h)

    -- Where no other writer gets between a comparison and its rename, every write of a publication,
    -- from its beginning to its return or its rollback, finds either content with the original's
    -- digest, and puts the replacement there, or content with the replacement's digest, and puts the
    -- original there; it never finds the file missing.
    pub publish-own_writes :
        (p : PreparedPublication) (w : World)
        → w.log ≡ []
        → All (IsOwnWrite p) (publish_with_progress sha256 env p w).1.log
    unfolding publish_with_progress IsOwn
    publish-own_writes p w e = elim (Bool-cases (owned sha256 env p (elapse sha256 env w).disk)) [
      | inl mine ↦
          rw mine (attempt-IsOwn p (elapse sha256 env w).disk (elapse sha256 env w) refl mine start)
      | inr other ↦ rw other (
          failed-IsOwn p (λ _. _) (restore_epoch sha256 env p (elapse sha256 env w))
            (restore_epoch-IsOwn p (elapse sha256 env w) start))
    ]
      where
        start : IsOwn p (elapse sha256 env w)
        start = rw e tt
