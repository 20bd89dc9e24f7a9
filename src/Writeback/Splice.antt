-- ===== src/Writeback/Splice.antt =====
-- What a prepared publication holds (`prepare` and `replacement` of
-- crates/rocq-engine/src/writeback.rs).
use rocq_mcp.Prelude.{
  same_bytes, same_bytes→≡, ℕ, zero, suc, ◌+◌, ◌-◌, ◌≤◌, ◌≡◌, refl, ap, ◌∙◌, true, not, Option,
  some, List, [], ◌∷◌, ◌++◌, ◌||◌, ltb, Result, ok, ok_or, guard, length, take, drop, length-append,
  length-take, length-drop, append_assoc, arith, subst, ok-injective, bind-eq-ok, guard-eq-ok,
  if_err-eq-ok, ok_or-eq-ok,
}
use rocq_mcp.Types.{Bytes, Text}
use rocq_mcp.Errors.{Error}
use rocq_mcp.Writeback.{Digest, Target, opening, closing, replacement, PreparedPublication, prepare}

take-append {ℓ} : {A : Type ℓ} (n : ℕ) (xs ys : List A) → length xs ≡ n → take n (xs ++ ys) ≡ xs
take-append zero [] ys e = refl
take-append zero (x ∷ xs) ys e = absurd (omega (arith, e))
take-append (suc n) [] ys e = absurd (omega (arith, e))
take-append (suc n) (x ∷ xs) ys e = rw (take-append n xs ys (omega (arith, e)))

drop-append {ℓ} : {A : Type ℓ} (n : ℕ) (xs ys : List A) → length xs ≡ n → drop n (xs ++ ys) ≡ ys
drop-append zero [] ys e = refl
drop-append zero (x ∷ xs) ys e = absurd (omega (arith, e))
drop-append (suc n) [] ys e = absurd (omega (arith, e))
drop-append (suc n) (x ∷ xs) ys e = drop-append n xs ys (omega (arith, e))

-- `output` is `original` with the bytes from `start` to `end` replaced by `body`.
pub record IsSplice (original output : Bytes) (start end : ℕ) : Type 0 where
  pub ordered : start ≤ end
  pub in_bounds : end ≤ length original
  pub body : Bytes
  pub size : length output ≡ start + length body + (length original - end)
  pub before : take start output ≡ take start original
  pub after : drop (start + length body) output ≡ drop end original

splice :
    (original body : Bytes) (start end : ℕ)
    → start ≤ end
    → end ≤ length original
    → IsSplice original (take start original ++ body ++ drop end original) start end
splice original body start end ordered in_bounds = record {
  ordered = ordered;
  in_bounds = in_bounds;
  body = body;
  size = omega (
    arith,
    length-append (take start original ++ body) (drop end original),
    length-append (take start original) body,
    length-drop end original,
    length-take start original,
    ordered,
    in_bounds,
  );
  before =
      ap (take start) (append_assoc (take start original) body (drop end original))
      ∙ take-append start (take start original) (body ++ drop end original) prefix;
  after =
      drop-append (start + length body) (take start original ++ body) (drop end original)
        (omega (arith, length-append (take start original) body, prefix));
}
  where
    prefix : length (take start original) ≡ start
    prefix = omega (arith, length-take start original, ordered, in_bounds)

replacement-IsSplice :
    (original : Bytes) (target : Target) (fragments : List Text) {output : Bytes}
    → replacement original target fragments ≡ ok output
    → IsSplice original output target.anchor.declaration.start target.anchor.declaration.end
unfolding replacement
replacement-IsSplice original target fragments {output} e =
    let start = target.anchor.declaration.start in
    let end = target.anchor.declaration.end in
    let (good, rest) = if_err-eq-ok (ltb end start || ltb (length original) end) _ _ e in
    let (head, opened, made) = bind-eq-ok (opening original target) _ rest in
    at (head ++ closing target.info.kind fragments) (ok-injective made) (ground (arith, good))
      (ground (arith, good))
  where
    at :
        (body : Bytes)
        → take target.anchor.declaration.start original
            ++ body
            ++ drop target.anchor.declaration.end original
          ≡ output
        → target.anchor.declaration.start ≤ target.anchor.declaration.end
        → target.anchor.declaration.end ≤ length original
        → IsSplice original output target.anchor.declaration.start target.anchor.declaration.end
    at body same ordered in_bounds =
        subst
          (λ output.
            IsSplice original output target.anchor.declaration.start target.anchor.declaration.end)
          same
          (splice original body target.anchor.declaration.start target.anchor.declaration.end
            ordered in_bounds)

-- A prepared publication belongs to a replaceable target whose source, as read now, has the
-- target's digest; it keeps that source, its replacement differs from it in the declaration's
-- bytes only, and its digest is the replacement's.
pub prepare_lem :
    (sha256 : Bytes → Digest) (workspace : Result Error (Unit {0})) (current : Option Bytes)
    (target : Target) (fragments : List Text) (p : PreparedPublication)
    → prepare sha256 workspace current target fragments ≡ ok p
    → (target.anchor.replaceable ≡ true)
      × (current ≡ some p.original)
      × (sha256 p.original ≡ target.anchor.digest)
      × IsSplice p.original p.replacement_bytes target.anchor.declaration.start
          target.anchor.declaration.end
      × (p.replacement_digest ≡ sha256 p.replacement_bytes)
unfolding prepare
prepare_lem sha256 workspace current target fragments p e =
    let (flag, e1) = if_err-eq-ok (not target.anchor.replaceable) _ _ e in
    let (done, _, e2) = bind-eq-ok workspace _ e1 in
    let (original, read, e3) = bind-eq-ok (ok_or _ current) _ e2 in
    let (same, checked, e4) =
      bind-eq-ok (guard (same_bytes (sha256 original) target.anchor.digest) _) _ e3 in
    let (output, made, e5) = bind-eq-ok (replacement original target fragments) _ e4 in
    subst
      (λ p.
        (target.anchor.replaceable ≡ true)
        × (current ≡ some p.original)
        × (sha256 p.original ≡ target.anchor.digest)
        × IsSplice p.original p.replacement_bytes target.anchor.declaration.start
            target.anchor.declaration.end
        × (p.replacement_digest ≡ sha256 p.replacement_bytes))
      (ok-injective e5)
      (
        ground (arith, flag),
        ok_or-eq-ok _ current read,
        same_bytes→≡ (sha256 original) target.anchor.digest (guard-eq-ok _ _ checked),
        replacement-IsSplice original target fragments made,
        refl,
      )
