-- ===== src/Arguments/Attempts.antt =====
-- Which attempts `check` and `try` accept (crates/rocq-mcp/src/adapter.rs and
-- crates/rocq-engine/src/engine.rs).
use rocq_mcp.Prelude.{
  ℕ, suc, ◌≤◌, ◌<◌, ◌≡◌, ◌↔◌, refl, ap, subst, Bool, true, false, not, some, List, [], ◌∷◌, ◌||◌,
  ltb, leb, leb→le, ok, ok_or, guard, String, codes, encode, trim, is_empty, length, All,
  bind-eq-ok, guard-eq-ok, ok_or-eq-ok, if_err-eq-ok, ok-injective, arith,
}
use rocq_mcp.Types.{Text}
use rocq_mcp.Types.Json.{
  Value, null, boolean, unsigned, other_number, string, array, object, get, as_str,
}
use rocq_mcp.Arguments.{
  validate_fragment, validate_each, validate_fragments, strings, read_array, attempts,
}

-- A fragment is not blank, and is at most 1 MiB of UTF-8.
abbrev pub Acceptable : Text → Type 0
Acceptable fragment = (is_empty (trim fragment) ≡ false) × (length (encode fragment) ≤ 1048576)

-- The values are strings, and `texts` their code points.
abbrev pub AreStrings : List Value → List Text → Type 0
AreStrings [] [] = Unit
AreStrings [] (t ∷ ts) = ⊥
AreStrings (v ∷ vs) [] = ⊥
AreStrings (v ∷ vs) (t ∷ ts) = ((s : String) × (v ≡ string s) × (t ≡ codes s)) × AreStrings vs ts

abbrev pub AreAttempts : Value → List Text → Type 0
AreAttempts args texts =
    ((values : List Value) × (read_array (get "attempts" args) ≡ some values)
      × AreStrings values texts)
    × (0 < length texts)
    × (length texts ≤ 20)
    × All Acceptable texts

not-eq-true : (b : Bool) → not b ≡ true → b ≡ false
not-eq-true true h = cc h
not-eq-true false h = refl

le→leb : (m n : ℕ) → m ≤ n → leb m n ≡ true
le→leb m n h = ground arith

validated→Acceptable : (fragment : Text) → validate_fragment fragment ≡ ok tt → Acceptable fragment
unfolding validate_fragment
validated→Acceptable fragment h =
    let (_, filled, small) = bind-eq-ok (guard (not (is_empty (trim fragment))) _) _ h in
    (
      not-eq-true (is_empty (trim fragment)) (guard-eq-ok _ _ filled),
      leb→le _ _ (guard-eq-ok _ _ small),
    )

Acceptable→validated : (fragment : Text) → Acceptable fragment → validate_fragment fragment ≡ ok tt
unfolding validate_fragment
Acceptable→validated fragment (filled, small) = rw (filled, le→leb _ _ small) refl

as_str-string : (v : Value) (s : String) → as_str v ≡ some s → v ≡ string s
as_str-string null s h = absurd (cc h)
as_str-string (boolean b) s h = absurd (cc h)
as_str-string (unsigned n) s h = absurd (cc h)
as_str-string (other_number n) s h = absurd (cc h)
as_str-string (string t) s h = ap string (cc h)
as_str-string (array vs) s h = absurd (cc h)
as_str-string (object fs) s h = absurd (cc h)

strings→AreStrings :
    (values : List Value) (texts : List Text) → strings values ≡ ok texts → AreStrings values texts
unfolding strings
strings→AreStrings [] [] h = tt
strings→AreStrings [] (t ∷ ts) h = absurd (cc h)
strings→AreStrings (v ∷ vs) texts h =
    let (text, at, rest) = bind-eq-ok (ok_or _ (as_str v)) _ h in
    let (later, there, done) = bind-eq-ok (strings vs) _ rest in
    subst (AreStrings (v ∷ vs)) (ok-injective done) (
      (text, as_str-string v text (ok_or-eq-ok _ (as_str v) at), refl),
      strings→AreStrings vs later there,
    )

AreStrings→strings :
    (values : List Value) (texts : List Text) → AreStrings values texts → strings values ≡ ok texts
unfolding strings
AreStrings→strings [] [] h = refl
AreStrings→strings [] (t ∷ ts) h = absurd h
AreStrings→strings (v ∷ vs) [] h = absurd h
AreStrings→strings (v ∷ vs) (t ∷ ts) ((s, is_string, same), rest) =
    rw (is_string, same, AreStrings→strings vs ts rest) refl

validate_each→All : (texts : List Text) → validate_each texts ≡ ok tt → All Acceptable texts
unfolding validate_each
validate_each→All [] h = tt
validate_each→All (t ∷ ts) h =
    let (_, first, rest) = bind-eq-ok (validate_fragment t) _ h in
    (validated→Acceptable t first, validate_each→All ts rest)

All→validate_each : (texts : List Text) → All Acceptable texts → validate_each texts ≡ ok tt
unfolding validate_each
All→validate_each [] h = refl
All→validate_each (t ∷ ts) (first, rest) =
    rw (Acceptable→validated t first) (All→validate_each ts rest)

not_below : (n : ℕ) → n ≤ 20 → ltb 20 n ≡ false
not_below n h = ground arith

abbrev Counted : List Text → Type 0
Counted texts = (0 < length texts) × (length texts ≤ 20)

counted : (texts : List Text) → (is_empty texts || ltb 20 (length texts)) ≡ false → Counted texts
counted [] h = absurd (cc h)
counted (t ∷ ts) h = (ground arith, ground arith)

few_texts : (texts : List Text) → Counted texts → (is_empty texts || ltb 20 (length texts)) ≡ false
few_texts [] h = absurd (omega arith)
few_texts (t ∷ ts) (some_text, few) = not_below (suc (length ts)) few

-- `attempts` accepts an object exactly where its field is an array of strings, 1 to 20 of them,
-- none of them blank and none of more than 1 MiB, and it gives their texts in order.
pub attempts-AreAttempts :
    (args : Value) (texts : List Text) → (attempts args ≡ ok texts) ↔ AreAttempts args texts
unfolding attempts validate_fragments
attempts-AreAttempts args texts = (accepted→AreAttempts, AreAttempts→accepted)
  where
    accepted→AreAttempts : attempts args ≡ ok texts → AreAttempts args texts
    accepted→AreAttempts h =
        let (values, at, h1) = bind-eq-ok (ok_or _ (read_array (get "attempts" args))) _ h in
        let (found, read, h2) = bind-eq-ok (strings values) _ h1 in
        let (_, checked, done) = bind-eq-ok (validate_fragments found) _ h2 in
        let (count, each) =
          if_err-eq-ok (is_empty found || ltb 20 (length found)) _ (validate_each found) checked in
        subst (AreAttempts args) (ok-injective done) (
          (values, ok_or-eq-ok _ _ at, strings→AreStrings values found read),
          (counted found count).0,
          (counted found count).1,
          validate_each→All found each,
        )

    AreAttempts→accepted : AreAttempts args texts → attempts args ≡ ok texts
    AreAttempts→accepted ((values, at, read), enough, few, each) =
        rw
          (
            at,
            AreStrings→strings values texts read,
            few_texts texts (enough, few),
            All→validate_each texts each,
          )
          refl
