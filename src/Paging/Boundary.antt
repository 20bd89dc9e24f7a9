-- ===== src/Paging/Boundary.antt =====
-- Character boundaries: the scan down to one, and how close it ends (crates/rocq-mcp/src/adapter.rs).
use rocq_mcp.Prelude.{
  ℕ, zero, suc, ◌+◌, ◌≤◌, ◌<◌, ◌≡◌, refl, Bool, true, false, not, [], ◌∷◌, ◌&&◌, ◌⊎◌, inl, inr,
  Bool-cases, ltb, arith, length, get_elem?, some,
}
use native.Mathlib.Decide.{dec_le, dec_lt}
use rocq_mcp.Types.{Bytes}
use rocq_mcp.Paging.{is_continuation, is_char_boundary, floor_boundary}

-- A UTF-8 text has at most three continuation bytes in a row; `k` more may come next.
abbrev pub Spaced : ℕ → Bytes → Type 0
Spaced k [] = Unit {0}
Spaced zero (b ∷ text) = (is_continuation b ≡ false) × Spaced 3 text
Spaced (suc k) (b ∷ text) = ((is_continuation b ≡ false) × Spaced 3 text) ⊎ Spaced k text

abbrev pub IsUtf8 : Bytes → Type 0
IsUtf8 text = Spaced 0 text

-- The scan ends between the two limits, at a boundary or at the lower one.
pub floor_boundary_bounds :
    (text : Bytes) (low end : ℕ)
    → low ≤ end
    → (low ≤ floor_boundary text low end)
      × (floor_boundary text low end ≤ end)
      × ((floor_boundary text low end ≡ low)
          ⊎ (is_char_boundary text (floor_boundary text low end) ≡ true))
unfolding floor_boundary
floor_boundary_bounds text low zero h = (h, omega arith, inl (omega arith))
floor_boundary_bounds text low (suc end) h = elim (Bool-cases (ltb low (suc end))) [
  | inl above ↦ elim (Bool-cases (is_char_boundary text (suc end))) [
    | inl stop ↦ rw (above, stop) (h, omega arith, inr stop)
    | inr on ↦
        rw (above, on)
          (let (a, b, c) = floor_boundary_bounds text low end (ground (arith, above)) in
            (a, omega arith, c))
  ]
  | inr done ↦ rw (done) (h, omega arith, inl (ground (arith, done)))
]

not_both : (a b : Bool) → (a && not b) ≡ true → b ≡ false
not_both a b h = ground arith

not_stop : (a b : Bool) → b ≡ true → (a && not b) ≡ false
not_stop a b h = ground arith

-- A boundary below the upper limit bounds the scan from below.
pub le-floor_boundary :
    (text : Bytes) (low end j : ℕ)
    → j ≤ end
    → is_char_boundary text j ≡ true
    → j ≤ floor_boundary text low end
unfolding floor_boundary
le-floor_boundary text low zero j h b = h
le-floor_boundary text low (suc end) j h b =
    elim (Bool-cases (ltb low (suc end) && not (is_char_boundary text (suc end)))) [
      | inr stop ↦ rw (stop) h
      | inl on ↦ rw (on) (le-floor_boundary text low end j (below on) b)
    ]
  where
    below : (ltb low (suc end) && not (is_char_boundary text (suc end))) ≡ true → j ≤ end
    below on = elim (dec_le j end) [
      | yes p ↦ p
      | no p ↦
          let same : j ≡ suc end = omega arith in
          absurd
            (cc (rw (same) at b, not_both (ltb low (suc end)) (is_char_boundary text (suc end)) on))
    ]

pub floor_boundary-stop :
    (text : Bytes) (low end : ℕ)
    → is_char_boundary text end ≡ true
    → floor_boundary text low end ≡ end
unfolding floor_boundary
floor_boundary-stop text low zero b = refl
floor_boundary-stop text low (suc end) b =
    rw (not_stop (ltb low (suc end)) (is_char_boundary text (suc end)) b)

module _ (text : Bytes) where
  -- The byte at `j` begins a character.
  abbrev pub Begins : ℕ → Type 0
  Begins j = (b : ℕ) × (get_elem? text j ≡ some b) × (is_continuation b ≡ false)

pub Begins-boundary : (text : Bytes) (j : ℕ) → Begins text j → is_char_boundary text j ≡ true
unfolding is_char_boundary
Begins-boundary text zero h = refl
Begins-boundary [] (suc j) h = cc
Begins-boundary (b ∷ []) (suc zero) h = refl
Begins-boundary (b ∷ []) (suc (suc j)) h = cc
Begins-boundary (b ∷ c ∷ text) (suc zero) (d, there, first) =
    let same : c ≡ d = cc in rw (same, first)
Begins-boundary (b ∷ c ∷ text) (suc (suc j)) h = Begins-boundary (c ∷ text) (suc j) h

pub boundary-length : (text : Bytes) → is_char_boundary text (length text) ≡ true
unfolding is_char_boundary
boundary-length [] = refl
boundary-length (b ∷ []) = refl
boundary-length (b ∷ c ∷ text) = boundary-length (c ∷ text)

-- Every byte of a text is at most three bytes after one that begins a character.
abbrev Near : ℕ → Bytes → ℕ → Type 0
Near k text i = ((j : ℕ) × (j ≤ i) × (i ≤ j + 3) × Begins text j) ⊎ (i < k)

begun :
    (b : ℕ) (text : Bytes) (i : ℕ)
    → is_continuation b ≡ false
    → Near 3 text i
    → Near 0 (b ∷ text) (suc i)
begun b text i first (inl (j, p, q, begins)) = inl (suc j, omega arith, omega arith, begins)
begun b text i first (inr few) = inl (0, omega arith, omega arith, (b, refl, first))

near : (k : ℕ) (text : Bytes) (i : ℕ) → Spaced k text → i < length text → Near k text i
near k [] i s h = absurd (omega arith)
near zero (b ∷ text) zero s h = inl (0, omega arith, omega arith, (b, refl, s.0))
near zero (b ∷ text) (suc i) s h = begun b text i s.0 (near 3 text i s.1 (omega arith))
near (suc k) (b ∷ text) zero s h = inr (omega arith)
near (suc k) (b ∷ text) (suc i) (inl s) h =
    elim (begun b text i s.0 (near 3 text i s.1 (omega arith))) [
      | inl found ↦ inl found
      | inr never ↦ absurd (omega arith)
    ]
near (suc k) (b ∷ text) (suc i) (inr s) h = elim (near k text i s (omega arith)) [
  | inl (j, p, q, begins) ↦ inl (suc j, omega arith, omega arith, begins)
  | inr few ↦ inr (omega arith)
]

-- In a text the scan down from any place ends at most three bytes below it, unless the lower
-- limit stops it first.
pub floor_boundary-near :
    (text : Bytes) (low end : ℕ)
    → IsUtf8 text
    → end ≤ length text
    → end ≤ floor_boundary text low end + 3
floor_boundary-near text low end s h = elim (dec_lt end (length text)) [
  | no p ↦
      let last : end ≡ length text = omega arith in
      omega (arith, floor_boundary-stop text low end (rw last (boundary-length text)))
  | yes p ↦ elim (near 0 text end s p) [
    | inr never ↦ absurd (omega arith)
    | inl (j, below, close, begins) ↦
        omega (arith, le-floor_boundary text low end j below (Begins-boundary text j begins))
  ]
]
