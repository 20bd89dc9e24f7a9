-- ===== src/Writeback/Outcome.antt =====
-- How a publication ends (`publish_with_progress` of crates/rocq-engine/src/writeback.rs), whatever
-- the other writers, the disk, Dune, PET and the audit do.
use rocq_mcp.Prelude.{
  same_bytes, same_bytes→≡, and_then, ◌≡◌, refl, subst, inl, inr, Bool, true, false, Option, none,
  some, if◌then◌else◌, Result, ok, err, Bool-cases,
}
use rocq_mcp.Types.{Bytes}
use rocq_mcp.Errors.{Error}
use rocq_mcp.Writeback.{Digest, PreparedPublication}
use rocq_mcp.Writeback.World.{
  Environment, World, Outcome, elapse, native_build, refresh_workspace, validate, atomic_write,
  require_digest, check_digest, restore_epoch, verify, refreshed, settle, wrote, owned,
  publish_with_progress,
}

module _ (sha256 : Bytes → Digest) {Audit : Type 0} (env : Environment Audit) where
  -- What a successful publication leaves on the disk.
  abbrev HasDigest : Digest → Option Bytes → Type 0
  HasDigest d disk = (bytes : Bytes) × (disk ≡ some bytes) × (sha256 bytes ≡ d)

  abbrev IfOk : {A : Type 0} → Digest → Outcome A → Type 0
  IfOk d (ok a, w) = HasDigest d w.disk
  IfOk d (err e, w) = Unit

  and_then-IfOk :
      (d : Digest) {A B : Type 0} (r : Outcome A) (k : A → World → Outcome B)
      → ((a : A) (w : World) → IfOk d (k a w))
      → IfOk d (and_then r k)
  and_then-IfOk d (ok a, w) k h = h a w
  and_then-IfOk d (err e, w) k h = tt

  and_then-err :
      (d : Digest) (B : Type 0) {A : Type 0} (r : Outcome A) (e : A → Error)
      → IfOk {A = B} d (and_then r (λ a w. (err (e a), w)))
  and_then-err d B (ok a, w) e = tt
  and_then-err d B (err e, w) f = tt

  if_IfOk :
      (d : Digest) (b : Bool) (r s : Outcome Audit)
      → IfOk d r
      → IfOk d s
      → IfOk d (if b then r else s)
  if_IfOk d true r s h k = h
  if_IfOk d false r s h k = k

  checked :
      (d : Digest) (disk : Option Bytes) → check_digest sha256 env d disk ≡ ok tt → HasDigest d disk
  unfolding check_digest
  checked d none e = cc
  checked d (some bytes) e = elim (Bool-cases (same_bytes (sha256 bytes) d)) [
    | inl same ↦ (bytes, refl, same_bytes→≡ (sha256 bytes) d same)
    | inr other ↦ absurd (cc (rw other at e))
  ]

  require_digest-IfOk :
      (A : Type 0) (d : Digest) (a : A) (w : World)
      → IfOk d (and_then (require_digest sha256 env d w) (λ _ w'. (ok a, w')))
  unfolding require_digest
  require_digest-IfOk A d a w = at (check_digest sha256 env d (elapse sha256 env w).disk) refl
    where
      at :
          (r : Result Error (Unit {0}))
          → check_digest sha256 env d (elapse sha256 env w).disk ≡ r
          → IfOk {A = A} d (and_then (r, elapse sha256 env w) (λ _ w'. (ok a, w')))
      at (ok done) e = checked d _ e
      at (err error) e = tt

  verify-IfOk :
      (p : PreparedPublication) (w : World) → IfOk p.replacement_digest (verify sha256 env p w)
  unfolding verify
  verify-IfOk p w = and_then-IfOk p.replacement_digest (native_build sha256 env w) _ λ _ w1.
      and_then-IfOk p.replacement_digest (require_digest sha256 env p.replacement_digest w1) _
        λ _ w2.
          and_then-IfOk p.replacement_digest
            (refreshed sha256 env (refresh_workspace sha256 env w2)) _
            λ _ w3.
              and_then-IfOk p.replacement_digest (require_digest sha256 env p.replacement_digest w3)
                _
                λ _ w4.
                  and_then-IfOk p.replacement_digest (validate sha256 env w4) _
                    λ value w5. require_digest-IfOk Audit p.replacement_digest value w5

  settle-IfOk :
      (p : PreparedPublication) (r : Outcome Audit)
      → IfOk p.replacement_digest r
      → IfOk p.replacement_digest (settle sha256 env p r)
  unfolding settle
  settle-IfOk p (ok value, w) h = h
  settle-IfOk p (err error, w) h =
      and_then-err p.replacement_digest Audit (restore_epoch sha256 env p w) _

  wrote-IfOk :
      (p : PreparedPublication) (r : Outcome (Unit {0}))
      → IfOk p.replacement_digest (wrote sha256 env p r)
  unfolding wrote
  wrote-IfOk p (ok done, w) = settle-IfOk p (verify sha256 env p w) (verify-IfOk p w)
  wrote-IfOk p (err error, w) =
      and_then-err p.replacement_digest Audit (restore_epoch sha256 env p w) (λ _. error)

  publish-IfOk :
      (p : PreparedPublication) (w : World)
      → IfOk p.replacement_digest (publish_with_progress sha256 env p w)
  unfolding publish_with_progress
  publish-IfOk p w =
      if_IfOk p.replacement_digest (owned sha256 env p (elapse sha256 env w).disk) _ _
        (wrote-IfOk p (atomic_write sha256 env p.replacement_bytes (elapse sha256 env w)))
        (and_then-err p.replacement_digest Audit (restore_epoch sha256 env p (elapse sha256 env w))
          _)

-- Whatever happens around it, a publication that succeeds leaves on the disk a file with the
-- digest of its replacement.
pub publish-ok :
    (sha256 : Bytes → Digest) {Audit : Type 0} (env : Environment Audit) (p : PreparedPublication)
    (w : World) (value : Audit) (w' : World)
    → publish_with_progress sha256 env p w ≡ (ok value, w')
    → (bytes : Bytes) × (w'.disk ≡ some bytes) × (sha256 bytes ≡ p.replacement_digest)
publish-ok sha256 env p w value w' e =
    subst (IfOk sha256 env p.replacement_digest) e (publish-IfOk sha256 env p w)
