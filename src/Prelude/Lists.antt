-- ===== src/Prelude/Lists.antt =====
-- Lists measured by native numbers, and dictionaries as association lists with numeric keys.
use Prim.Native.Nat.{ℕ, zero, suc, ◌+◌, ◌-◌, ◌≤◌, min}
use Prim.Native.Nat.add
use mathlib.Core.Path.{◌≡◌, refl}
use mathlib.Core.Logic.{◌≢◌, ◌⊎◌, inl, inr}
use mathlib.Core.Bool.{Bool, true, false, ◌&&◌}
use mathlib.Core.List.{List, [], ◌∷◌, ◌++◌}
use mathlib.Core.Option.{Option, none, some}
use native.Mathlib.Omega.{arith}
use rocq_mcp.Prelude.Tests.{ltb, ◌==◌, if◌then◌else◌, Bool-cases, ==_refl, ==_false}

module _ {ℓ} {A : Type ℓ} where
  abbrev pub length : List A → ℕ
  length [] = 0
  length (x ∷ xs) = suc (length xs)

  abbrev pub take : ℕ → List A → List A
  take zero xs = []
  take (suc n) [] = []
  take (suc n) (x ∷ xs) = x ∷ take n xs

  abbrev pub drop : ℕ → List A → List A
  drop zero xs = xs
  drop (suc n) [] = []
  drop (suc n) (x ∷ xs) = drop n xs

  abbrev pub get_elem? : List A → ℕ → Option A
  get_elem? [] i = none
  get_elem? (x ∷ xs) zero = some x
  get_elem? (x ∷ xs) (suc i) = get_elem? xs i

  abbrev pub is_empty : List A → Bool
  is_empty [] = true
  is_empty (x ∷ xs) = false

  drop-nil : (n : ℕ) → drop n [] ≡ []
  drop-nil zero = refl
  drop-nil (suc n) = refl

  pub length-append : (xs ys : List A) → length (xs ++ ys) ≡ length xs + length ys
  length-append [] ys = omega arith
  length-append (x ∷ xs) ys = omega (arith, length-append xs ys)

  pub take-append-drop : (n : ℕ) (xs : List A) → take n xs ++ drop n xs ≡ xs
  take-append-drop zero xs = refl
  take-append-drop (suc n) [] = refl
  take-append-drop (suc n) (x ∷ xs) = rw (take-append-drop n xs)

  pub length-take : (n : ℕ) (xs : List A) → length (take n xs) ≡ min n (length xs)
  length-take zero xs = omega arith
  length-take (suc n) [] = omega arith
  length-take (suc n) (x ∷ xs) = omega (arith, length-take n xs)

  pub length-drop : (n : ℕ) (xs : List A) → length (drop n xs) ≡ length xs - n
  length-drop zero xs = omega arith
  length-drop (suc n) [] = omega arith
  length-drop (suc n) (x ∷ xs) = omega (arith, length-drop n xs)

  pub take-length : (n : ℕ) (xs : List A) → length xs ≤ n → take n xs ≡ xs
  take-length zero [] h = refl
  take-length zero (x ∷ xs) h = absurd (omega arith)
  take-length (suc n) [] h = refl
  take-length (suc n) (x ∷ xs) h = rw (take-length n xs (omega arith))

  pub drop-drop : (n m : ℕ) (xs : List A) → drop n (drop m xs) ≡ drop (m + n) xs
  drop-drop n zero xs = rw (add.zero n)
  drop-drop n (suc m) [] = rw (drop-nil n, drop-nil (suc m + n))
  drop-drop n (suc m) (x ∷ xs) = rw (add.suc m n) (drop-drop n m xs)

  abbrev pub All {κ} : (A → Type κ) → List A → Type κ
  All P [] = Unit
  All P (x ∷ xs) = P x × All P xs

-- Equality of byte strings and of texts.
unfoldable pub same_bytes : List ℕ → List ℕ → Bool
same_bytes [] [] = true
same_bytes [] (b ∷ t) = false
same_bytes (a ∷ s) [] = false
same_bytes (a ∷ s) (b ∷ t) = a == b && same_bytes s t

pub same_bytes_refl : (a : List ℕ) → same_bytes a a ≡ true
unfolding same_bytes
same_bytes_refl [] = refl
same_bytes_refl (x ∷ a) = ground (arith, same_bytes_refl a)

pub same_bytes→≡ : (a b : List ℕ) → same_bytes a b ≡ true → a ≡ b
unfolding same_bytes
same_bytes→≡ [] [] h = refl
same_bytes→≡ [] (y ∷ b) h = cc
same_bytes→≡ (x ∷ a) [] h = cc
same_bytes→≡ (x ∷ a) (y ∷ b) h = elim (Bool-cases (x == y)) [
  | inl same ↦
      let first : x ≡ y = ground (arith, same) in
      let rest : a ≡ b = same_bytes→≡ a b (rw same at h) in cc
  | inr other ↦ absurd (ground (arith, h, other))
]

-- `BTreeMap` with `u64` keys: an association list in key order.
module _ {ℓ} {V : Type ℓ} where
  unfoldable pub lookup : ℕ → List (ℕ × V) → Option V
  lookup key [] = none
  lookup key ((at, v) ∷ entries) = if at == key then some v else lookup key entries

  unfoldable pub insert : ℕ → V → List (ℕ × V) → List (ℕ × V)
  insert key v [] = (key, v) ∷ []
  insert key v ((at, u) ∷ entries) =
      let rest = insert key v entries in
      if ltb key at
      then (key, v) ∷ (at, u) ∷ entries
      else if at == key
      then (key, v) ∷ entries
      else (at, u) ∷ rest

  pub lookup-insert :
      (key at : ℕ) (v : V) (entries : List (ℕ × V))
      → lookup at (insert key v entries) ≡ (if key == at then some v else lookup at entries)
  unfolding lookup insert
  lookup-insert key at v [] = refl
  lookup-insert key at v ((i, u) ∷ entries) = ground (arith, lookup-insert key at v entries)

  pub lookup-insert_cases :
      (key at : ℕ) (v : V) (entries : List (ℕ × V)) {c : V}
      → lookup at (insert key v entries) ≡ some c
      → ((key ≡ at) × (v ≡ c)) ⊎ ((key ≢ at) × (lookup at entries ≡ some c))
  lookup-insert_cases key at v entries e = elim (Bool-cases (key == at)) [
    | inl same ↦ inl (ground (arith, same), cc (rw (lookup-insert key at v entries, same) at e))
    | inr other ↦
        inr ((λ p. ground (arith, p, other)), rw (lookup-insert key at v entries, other) at e)
  ]

  pub lookup-nil : (key : ℕ) {v : V} → ¬ (lookup key [] ≡ some v)
  unfolding lookup
  lookup-nil key e = cc

  pub lookup-insert_self :
      (key : ℕ) (v : V) (entries : List (ℕ × V)) → lookup key (insert key v entries) ≡ some v
  lookup-insert_self key v entries = rw (lookup-insert key key v entries, ==_refl key)

  pub lookup-insert_ne :
      (key at : ℕ) (v : V) (entries : List (ℕ × V))
      → key ≢ at
      → lookup at (insert key v entries) ≡ lookup at entries
  lookup-insert_ne key at v entries h = rw (lookup-insert key at v entries, ==_false key at h)

  -- `values_mut`: one function applied to every value.
  unfoldable pub map_values : (V → V) → List (ℕ × V) → List (ℕ × V)
  map_values f [] = []
  map_values f ((at, v) ∷ entries) = (at, f v) ∷ map_values f entries

  abbrev pub map_some : (V → V) → Option V → Option V
  map_some f none = none
  map_some f (some v) = some (f v)

  pub lookup-map_values :
      (f : V → V) (key : ℕ) (entries : List (ℕ × V))
      → lookup key (map_values f entries) ≡ map_some f (lookup key entries)
  unfolding lookup map_values
  lookup-map_values f key [] = refl
  lookup-map_values f key ((at, v) ∷ entries) = ground (arith, lookup-map_values f key entries)

  map_some-eq_some :
      (f : V → V) (o : Option V) {c : V}
      → map_some f o ≡ some c
      → (v : V) × (o ≡ some v) × (f v ≡ c)
  map_some-eq_some f none e = cc
  map_some-eq_some f (some v) e = (v, refl, cc)

  pub lookup-map_values_cases :
      (f : V → V) (key : ℕ) (entries : List (ℕ × V)) {c : V}
      → lookup key (map_values f entries) ≡ some c
      → (v : V) × (lookup key entries ≡ some v) × (f v ≡ c)
  lookup-map_values_cases f key entries e =
      map_some-eq_some f (lookup key entries) (rw (lookup-map_values f key entries) at e)
