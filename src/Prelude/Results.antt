-- ===== src/Prelude/Results.antt =====
-- `Result<T, E>` with `?` as bind, and methods that mutate `self` and may fail.
use mathlib.Core.Path.{◌≡◌, refl}
use rocq_mcp.Prelude.Tests.{if◌then◌else◌}
use mathlib.Core.Bool.{Bool, true, false}
use mathlib.Core.Option.{Option, none, some}
use mathlib.Core.Logic.{◌⊎◌, inl, inr}

pub data Result {ℓ κ} (E : Type ℓ) (A : Type κ) : Type (ℓ ⊔ κ) where
  ok : A → Result E A
  err : E → Result E A

module _ {ℓ κ} {E : Type ℓ} {A : Type κ} where
  abbrev pub ok_or : E → Option A → Result E A
  ok_or e none = err e
  ok_or e (some a) = ok a

pub ok_or-eq-ok {ℓ κ} :
    {E : Type ℓ} {A : Type κ} (e : E) (o : Option A) {a : A} → ok_or e o ≡ ok a → o ≡ some a
ok_or-eq-ok e none h = cc
ok_or-eq-ok e (some a) h = cc

abbrev pub guard {ℓ} : {E : Type ℓ} → Bool → E → Result E (Unit {0})
guard true e = ok tt
guard false e = err e

module _ {ℓ κ μ} {E : Type ℓ} {A : Type κ} {B : Type μ} where
  infixl 5 ◌>>=◌ ◌>>◌
  abbrev pub ◌>>=◌ : Result E A → (A → Result E B) → Result E B
  ok a >>= f = f a
  err e >>= f = err e

  abbrev pub ◌>>◌ : Result E A → Result E B → Result E B
  m >> k = m >>= λ _. k

module _ {ℓ κ μ} {E : Type ℓ} {F : Type κ} {A : Type μ} where
  abbrev pub map_err : (E → F) → Result E A → Result F A
  map_err f (ok a) = ok a
  map_err f (err e) = err (f e)

pub ok-injective {ℓ κ} :
    {E : Type ℓ} {A : Type κ} {a b : A} → Path (Result E A) (ok a) (ok b) → a ≡ b
ok-injective h = cc

pub bind-eq-ok {ℓ κ μ} :
    {E : Type ℓ} {A : Type κ} {B : Type μ} (first : Result E A) (next : A → Result E B) {y : B}
    → (first >>= next) ≡ ok y
    → (x : A) × (first ≡ ok x) × (next x ≡ ok y)
bind-eq-ok (ok x) next e = (x, refl, e)
bind-eq-ok (err _) next e = cc

pub guard-eq-ok {ℓ} : {E : Type ℓ} (b : Bool) (e : E) {u : Unit {0}} → guard b e ≡ ok u → b ≡ true
guard-eq-ok true e h = refl
guard-eq-ok false e h = cc

pub if_err-eq-ok {ℓ κ} :
    {E : Type ℓ} {A : Type κ} (b : Bool) (e : E) (r : Result E A) {a : A}
    → (if b then err e else r) ≡ ok a
    → (b ≡ false) × (r ≡ ok a)
if_err-eq-ok true e r h = cc
if_err-eq-ok false e r h = (refl, h)

-- A method on shared state: its result, and the state after it. `and_then` is `?`.
abbrev pub and_then {ℓ κ μ ν} :
    {E : Type ℓ} {A : Type κ} {B : Type μ} {S : Type ν}
    → Result E A × S
    → (A → S → Result E B × S)
    → Result E B × S
and_then (ok a, s) k = k a s
and_then (err e, s) k = (err e, s)

-- What the first step keeps, and the rest keeps, the whole keeps.
pub and_then-keeps {ℓ κ μ ν ρ} :
    {E : Type ℓ} {A : Type κ} {B : Type μ} {S : Type ν} (P : S → Type ρ) (r : Result E A × S)
    (k : A → S → Result E B × S)
    → P r.1
    → ((a : A) (s : S) → P s → P (k a s).1)
    → P (and_then r k).1
and_then-keeps P (ok a, s) k h keeps = keeps a s h
and_then-keeps P (err e, s) k h keeps = h

pub if-keeps {ℓ κ ρ} :
    {A : Type ℓ} {S : Type κ} (P : S → Type ρ) (b : Bool) (r s : A × S)
    → P r.1
    → P s.1
    → P (if b then r else s).1
if-keeps P true r s h k = h
if-keeps P false r s h k = k

-- What holds where the first step stops, and of all that the rest does, holds of the whole.
pub and_then-ends {ℓ κ μ ν ρ σ} :
    {E : Type ℓ} {A : Type κ} {B : Type μ} {S : Type ν} (P : S → Type ρ)
    (Q : Result E B × S → Type σ) (r : Result E A × S) (k : A → S → Result E B × S)
    → P r.1
    → ((e : E) (s : S) → P s → Q (err e, s))
    → ((a : A) (s : S) → P s → Q (k a s))
    → Q (and_then r k)
and_then-ends P Q (ok a, s) k h stops goes = goes a s h
and_then-ends P Q (err e, s) k h stops goes = stops e s h

pub if-ends {ℓ ρ} :
    {A : Type ℓ} (Q : A → Type ρ) (b : Bool) (r s : A) → Q r → Q s → Q (if b then r else s)
if-ends Q true r s h k = h
if-ends Q false r s h k = k

pub if-answers {ℓ ρ} :
    {A : Type ℓ} (Q : A → Type ρ) (b : Bool) (r s : A)
    → (b ≡ true → Q r)
    → (b ≡ false → Q s)
    → Q (if b then r else s)
if-answers Q true r s h k = h refl
if-answers Q false r s h k = k refl

-- Where the first step only computes an answer.
pub and_then-answers {ℓ κ μ ν σ} :
    {E : Type ℓ} {A : Type κ} {B : Type μ} {S : Type ν} (Q : Result E B × S → Type σ)
    (r : Result E A) (s : S) (k : A → S → Result E B × S)
    → ((e : E) → r ≡ err e → Q (err e, s))
    → ((a : A) → r ≡ ok a → Q (k a s))
    → Q (and_then (r, s) k)
and_then-answers Q (ok a) s k stops goes = goes a refl
and_then-answers Q (err e) s k stops goes = stops e refl

pub Result-cases {ℓ κ} :
    {E : Type ℓ} {A : Type κ} (r : Result E A) → ((a : A) × (r ≡ ok a)) ⊎ ((e : E) × (r ≡ err e))
Result-cases (ok a) = inl (a, refl)
Result-cases (err e) = inr (e, refl)

pub map_err-eq-ok {ℓ κ μ} :
    {E : Type ℓ} {F : Type κ} {A : Type μ} (f : E → F) (r : Result E A) {a : A}
    → map_err f r ≡ ok a
    → r ≡ ok a
map_err-eq-ok f (ok a) h = cc
map_err-eq-ok f (err e) h = absurd (cc h)
