-- ===== src/Writeback/Quiet.antt =====
-- A publication that no other writer disturbs (`publish_with_progress` of
-- crates/rocq-engine/src/writeback.rs).
use rocq_mcp.Prelude.{
  same_bytes, same_bytes_refl, and_then, and_then-keeps, ℕ, ◌≡◌, ◌≢◌, refl, sym, ap, ◌∙◌, subst,
  ◌⊎◌, inl, inr, Bool, true, false, Option, some, if◌then◌else◌, ok, err, Bool-cases,
}
use rocq_mcp.Types.{Bytes}
use rocq_mcp.Errors.{Error}
use rocq_mcp.Writeback.{Digest, PreparedPublication}
use rocq_mcp.Writeback.World.{
  Environment, World, Outcome, Write, refused, written, unsynced, elapse, native_build,
  refresh_workspace, validate, replace_file, persist, atomic_write, require_digest, reclaim,
  readmit, restore_epoch, verify, refreshed, settle, wrote, owned, publish_with_progress,
}

-- What a publication may leave: the replacement where it succeeds, else the original.
abbrev pub IsSettled : {Audit : Type 0} → PreparedPublication → Outcome Audit → Type 0
IsSettled p (ok value, w) = w.disk ≡ some p.replacement_bytes
IsSettled p (err error, w) = w.disk ≡ some p.original

module _ (sha256 : Bytes → Digest) {Audit : Type 0} (env : Environment Audit)
    (undisturbed : (n : ℕ) (disk : Option Bytes) → env.interferes n disk ≡ disk)
    (unraced : (n : ℕ) (disk : Option Bytes) → env.races n disk ≡ disk)
    (accepted : (n : ℕ) → env.writes n ≢ refused) where
  replace_file-disk :
      (r : Write) (bytes found : Bytes) (w : World)
      → r ≢ refused
      → w.disk ≡ some found
      → (replace_file r bytes w).1.disk ≡ some bytes
  unfolding replace_file persist
  replace_file-disk refused bytes found w h e = absurd (h refl)
  replace_file-disk written bytes found w h e = rw e
  replace_file-disk unsynced bytes found w h e = rw e

  atomic_write-disk :
      (bytes found : Bytes) (w : World)
      → w.disk ≡ some found
      → (atomic_write sha256 env bytes w).1.disk ≡ some bytes
  unfolding atomic_write
  atomic_write-disk bytes found w e =
      replace_file-disk (env.writes w.clock) bytes found _ (accepted w.clock)
        (unraced w.clock w.disk ∙ e)

  HasDisk : Option Bytes → World → Type 0
  HasDisk disk w = w.disk ≡ disk

  elapse-disk :
      (disk : Option Bytes) (w : World) → HasDisk disk w → HasDisk disk (elapse sha256 env w)
  unfolding HasDisk
  elapse-disk disk w e = undisturbed w.clock w.disk ∙ e

  verify-disk :
      (p : PreparedPublication) (disk : Option Bytes) (w : World)
      → HasDisk disk w
      → HasDisk disk (verify sha256 env p w).1
  unfolding verify native_build require_digest refresh_workspace validate
  verify-disk p disk w e =
      and_then-keeps (HasDisk disk) (native_build sha256 env w) _ (elapse-disk disk w e) λ _ w1 e1.
        and_then-keeps (HasDisk disk) (require_digest sha256 env p.replacement_digest w1) _
          (elapse-disk disk w1 e1)
          λ _ w2 e2.
            and_then-keeps (HasDisk disk) (refreshed sha256 env (refresh_workspace sha256 env w2)) _
              (elapse-disk disk w2 e2)
              λ _ w3 e3.
                and_then-keeps (HasDisk disk) (require_digest sha256 env p.replacement_digest w3) _
                  (elapse-disk disk w3 e3)
                  λ _ w4 e4.
                    and_then-keeps (HasDisk disk) (validate sha256 env w4) _
                      (elapse-disk disk w4 e4)
                      λ value w5 e5.
                        and_then-keeps (HasDisk disk)
                          (require_digest sha256 env p.replacement_digest w5) _
                          (elapse-disk disk w5 e5) λ _ w6 e6. e6

  -- The original, or bytes with the replacement's digest.
  Ours : PreparedPublication → Bytes → Type 0
  Ours p bytes = (bytes ≡ p.original) ⊎ (same_bytes (sha256 bytes) p.replacement_digest ≡ true)

  reclaim-disk :
      (p : PreparedPublication) (bytes : Bytes) (w : World)
      → Ours p bytes
      → HasDisk (some bytes) w
      → HasDisk (some p.original) (reclaim sha256 env p (some bytes) w).1
  unfolding reclaim HasDisk Ours
  reclaim-disk p bytes w ours e =
      elim (Bool-cases (same_bytes (sha256 bytes) p.replacement_digest)) [
        | inl same ↦ rw same (
            and_then-keeps (HasDisk (some p.original)) (atomic_write sha256 env p.original w)
              (λ _ w'. (ok true, w')) (atomic_write-disk p.original bytes w e) (λ _ w' h. h))
        | inr other ↦ rw other (elim ours [
          | inl original ↦ e ∙ ap some original
          | inr same ↦ absurd (cc (rw other at same))
        ])
      ]

  restore_epoch-disk :
      (p : PreparedPublication) (bytes : Bytes) (w : World)
      → Ours p bytes
      → HasDisk (some bytes) w
      → HasDisk (some p.original) (restore_epoch sha256 env p w).1
  unfolding restore_epoch readmit native_build refresh_workspace HasDisk
  restore_epoch-disk p bytes w ours e =
      and_then-keeps (HasDisk (some p.original))
        (reclaim sha256 env p (elapse sha256 env w).disk (elapse sha256 env w)) _
        (subst
          (λ disk. HasDisk (some p.original) (reclaim sha256 env p disk (elapse sha256 env w)).1)
          (sym now) (reclaim-disk p bytes (elapse sha256 env w) ours now))
        (λ restored w' h.
          elapse-disk (some p.original) (elapse sha256 env w') (elapse-disk (some p.original) w' h))
    where
      now : (elapse sha256 env w).disk ≡ some bytes
      now = elapse-disk (some bytes) w e

  failed-IsSettled :
      (p : PreparedPublication) (f : Bool → Error) (r : Outcome Bool)
      → HasDisk (some p.original) r.1
      → IsSettled {Audit = Audit} p (and_then r (λ restored w'. (err (f restored), w')))
  unfolding HasDisk
  failed-IsSettled p f (ok a, w) e = e
  failed-IsSettled p f (err e', w) e = e

  settle-IsSettled :
      (p : PreparedPublication) (r : Outcome Audit)
      → Ours p p.replacement_bytes
      → HasDisk (some p.replacement_bytes) r.1
      → IsSettled p (settle sha256 env p r)
  unfolding settle HasDisk
  settle-IsSettled p (ok value, w) ours e = e
  settle-IsSettled p (err error, w) ours e =
      failed-IsSettled p _ (restore_epoch sha256 env p w)
        (restore_epoch-disk p p.replacement_bytes w ours e)

  wrote-IsSettled :
      (p : PreparedPublication) (r : Outcome (Unit {0}))
      → Ours p p.replacement_bytes
      → HasDisk (some p.replacement_bytes) r.1
      → IsSettled p (wrote sha256 env p r)
  unfolding wrote
  wrote-IsSettled p (ok done, w) ours e =
      settle-IsSettled p (verify sha256 env p w) ours (verify-disk p (some p.replacement_bytes) w e)
  wrote-IsSettled p (err error, w) ours e =
      failed-IsSettled p (λ _. error) (restore_epoch sha256 env p w)
        (restore_epoch-disk p p.replacement_bytes w ours e)

  if_IsSettled :
      (p : PreparedPublication) (b : Bool) (r s : Outcome Audit)
      → b ≡ true
      → IsSettled p r
      → IsSettled p (if b then r else s)
  if_IsSettled p true r s e h = h
  if_IsSettled p false r s e h = cc

  -- Where no other writer touches the file and the disk takes each write, a publication of a
  -- prepared replacement of the file leaves the replacement where it succeeds, and the original
  -- bytes where it fails, whatever step of it fails.
  pub publish-IsSettled :
      (p : PreparedPublication) (w : World)
      → p.replacement_digest ≡ sha256 p.replacement_bytes
      → w.disk ≡ some p.original
      → IsSettled p (publish_with_progress sha256 env p w)
  unfolding publish_with_progress owned Ours HasDisk
  publish-IsSettled p w digest e =
      let now : (elapse sha256 env w).disk ≡ some p.original = elapse-disk (some p.original) w e in
      let mine : owned sha256 env p (elapse sha256 env w).disk ≡ true =
        subst (λ disk. owned sha256 env p disk ≡ true) (sym now)
          (same_bytes_refl (sha256 p.original)) in
      let ours : Ours p p.replacement_bytes =
        inr (rw digest (same_bytes_refl (sha256 p.replacement_bytes))) in
      if_IsSettled p (owned sha256 env p (elapse sha256 env w).disk) _ _ mine (
        wrote-IsSettled p (atomic_write sha256 env p.replacement_bytes (elapse sha256 env w)) ours
          (atomic_write-disk p.replacement_bytes p.original (elapse sha256 env w) now))
