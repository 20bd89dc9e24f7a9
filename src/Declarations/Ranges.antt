-- ===== src/Declarations/Ranges.antt =====
-- Which declaration ranges can be replaced (crates/rocq-engine/src/engine.rs).
use rocq_mcp.Prelude.{
  ℕ, zero, suc, ◌+◌, ◌≤◌, ◌≡◌, ◌≢◌, ◌↔◌, ◌⊎◌, refl, sym, ap, subst, ◌∙◌, Bool, Bool-cases, inl, inr,
  true, false, not, Option, some, List, [], ◌∷◌, ◌==◌, ◌||◌, ◌&&◌, ltb, get_elem?, ==_false,
  or_false, arith,
}
use rocq_mcp.Types.{PetRange}
use rocq_mcp.Declarations.{intersects, any_other, classify, replaceable_declaration_ranges}

-- One ends before the other starts.
abbrev pub AreApart : PetRange → PetRange → Type 0
AreApart a b = (a.end ≤ b.start) ⊎ (b.end ≤ a.start)

apart_of : (m n p q : ℕ) → (ltb m n && ltb p q) ≡ false → (q ≤ p) ⊎ (n ≤ m)
apart_of m n p q h = elim (Bool-cases (ltb m n)) [
  | inl before ↦ inl (ground (arith, h, before))
  | inr after ↦ inr (ground (arith, after))
]

not_both : (m n p q : ℕ) → (q ≤ p) ⊎ (n ≤ m) → (ltb m n && ltb p q) ≡ false
not_both m n p q (inl below) = ground (arith, below)
not_both m n p q (inr above) = ground (arith, above)

-- Whether every row but that of `index` is apart from `row`.
abbrev pub IsAlone : ℕ → PetRange → ℕ → List PetRange → Type 0
IsAlone index row first rows =
    (j : ℕ) (other : PetRange)
    → get_elem? rows j ≡ some other
    → index ≢ first + j
    → AreApart row other

and_true : (a b : Bool) → a ≡ true → (a && b) ≡ false → b ≡ false
and_true true b e h = h
and_true false b e h = absurd (cc e)

neither : (a b : Bool) → a ≡ false → b ≡ false → (a || b) ≡ false
neither a b h k = rw (h) k

any_other→IsAlone :
    (index : ℕ) (row : PetRange) (first : ℕ) (rows : List PetRange)
    → any_other index row first rows ≡ false
    → IsAlone index row first rows
unfolding any_other
any_other→IsAlone index row first [] h j other at distinct = absurd (cc at)
any_other→IsAlone index row first (x ∷ rows) h zero other at distinct =
    let first_row = (or_false _ _ h).0 in
    let here : intersects row x ≡ false =
      and_true (not (index == first)) (intersects row x)
        (ap not (==_false index first (λ e. distinct (e ∙ omega arith)))) first_row in
    let same : x ≡ other = cc in
    subst (AreApart row) same (apart_of row.start x.end x.start row.end here)
any_other→IsAlone index row first (x ∷ rows) h (suc j) other at distinct =
    any_other→IsAlone index row (suc first) rows (or_false _ _ h).1 j other at
      (λ e. distinct (e ∙ omega arith))

IsAlone→any_other :
    (index : ℕ) (row : PetRange) (first : ℕ) (rows : List PetRange)
    → IsAlone index row first rows
    → any_other index row first rows ≡ false
unfolding any_other
IsAlone→any_other index row first [] alone = refl
IsAlone→any_other index row first (x ∷ rows) alone =
    neither (not (index == first) && intersects row x) _ (first_row (Bool-cases (index == first))) (
      IsAlone→any_other index row (suc first) rows
        (λ j other at distinct. alone (suc j) other at (λ e. distinct (e ∙ omega arith))))
  where
    first_row :
        ((index == first) ≡ true) ⊎ ((index == first) ≡ false)
        → (not (index == first) && intersects row x) ≡ false
    first_row (inl same) = rw (same) refl
    first_row (inr other) = rw (other) (
        not_both row.start x.end x.start row.end
          (alone zero x refl (λ e. absurd (ground (arith, e, other)))))

classified :
    (rows rest : List PetRange) (index i : ℕ) (row : PetRange)
    → get_elem? rest i ≡ some row
    → get_elem? (classify rows index rest) i ≡ some (not (any_other (index + i) row 0 rows))
unfolding classify
classified rows [] index i row at = absurd (cc at)
classified rows (x ∷ rest) index zero row at =
    let same : x ≡ row = cc in
    ap some (
      ap (λ (r : PetRange). not (any_other index r 0 rows)) same
      ∙ ap (λ n. not (any_other n row 0 rows)) (omega arith))
classified rows (x ∷ rest) index (suc i) row at =
    classified rows rest (suc index) i row at
    ∙ ap (λ n. some (not (any_other n row 0 rows))) (omega arith)

was_false : (b : Bool) → Path (Option Bool) (some (not b)) (some true) → b ≡ false
was_false true h = absurd (cc h)
was_false false h = refl

-- The declaration of some row can be replaced exactly where each other row's range ends before
-- its range starts, or starts where its range has ended.
pub replaceable_declaration_ranges-IsAlone :
    (rows : List PetRange) (i : ℕ) (row : PetRange)
    → get_elem? rows i ≡ some row
    → (get_elem? (replaceable_declaration_ranges rows) i ≡ some true) ↔ IsAlone i row 0 rows
unfolding replaceable_declaration_ranges
replaceable_declaration_ranges-IsAlone rows i row at =
    let flag : get_elem? (classify rows 0 rows) i ≡ some (not (any_other i row 0 rows)) =
      classified rows rows 0 i row at
      ∙ ap (λ n. some (not (any_other n row 0 rows))) (omega arith) in
    (
      λ free. any_other→IsAlone i row 0 rows (was_false _ (sym flag ∙ free)),
      λ alone. flag ∙ ap (λ b. some (not b)) (IsAlone→any_other i row 0 rows alone),
    )
