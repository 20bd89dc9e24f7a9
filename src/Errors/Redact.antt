-- ===== src/Errors/Redact.antt =====
-- `neutralize_transport_detail` and `public_message` of crates/rocq-engine/src/pet/mod.rs.
use rocq_mcp.Prelude.{
  ℕ, zero, suc, ◌≡◌, refl, Bool, true, false, [], ◌∷◌, ◌++◌, ◌&&◌, ◌||◌, ◌==◌, arith, Bool-cases,
  inl, inr, if◌then◌else◌, codes, is_ascii_digit, decimal, decimal_loop, ltb, not, ◌+◌, ◌/◌, ◌%◌,
}
use rocq_mcp.Types.{Text}
use rocq_mcp.Errors.{
  PetError, invalid, environment, process_lost, protocol, cancelled, output_overflow, timed_out,
  remote, PetRemoteKind, method_not_found, anomaly, system, unknown, pet_is_semantic,
}

has_prefix : Text → Text → Bool
has_prefix [] s = true
has_prefix (p ∷ ps) [] = false
has_prefix (p ∷ ps) (c ∷ s) = p == c && has_prefix ps s

-- `str::replace` for a pattern of `suc skip` characters: what is matched is skipped.
replace_from : Text → ℕ → Text → ℕ → Text → Text
unfolding has_prefix
replace_from pattern skip to k [] = []
replace_from pattern skip to (suc k) (c ∷ s) = replace_from pattern skip to k s
replace_from pattern skip to zero (c ∷ s) =
    let after = replace_from pattern skip to skip s in
    let next = replace_from pattern skip to zero s in
    if has_prefix pattern (c ∷ s) then to ++ after else c ∷ next

unfoldable pub digits_next : ℕ → Text → Bool
digits_next zero s = true
digits_next (suc k) [] = false
digits_next (suc k) (c ∷ s) = is_ascii_digit c && digits_next k s

abbrev pub marker : Text
marker = codes "(internal error code)"

-- The loop over `chars`; `index += 6` leaves five more characters to skip.
unfoldable pub redact : ℕ → Text → Text
unfolding digits_next
redact k [] = []
redact (suc k) (c ∷ s) = redact k s
redact zero (c ∷ s) =
    let after = redact 5 s in
    let next = redact zero s in if c == b'-' && digits_next 5 s then marker ++ after else c ∷ next

respelled : Text → Text
unfolding replace_from
respelled message =
    replace_from (codes "PET") 2 (codes "prover") 0
      (replace_from (codes "petanque") 7 (codes "prover protocol") 0 message)

unfoldable pub neutralize : Text → Text
unfolding respelled redact
neutralize message = redact 0 (respelled message)

remote_message : PetRemoteKind → Text → Text
remote_message method_not_found message = codes "a required operation is not supported"
remote_message anomaly message = codes "internal proof execution anomaly"
remote_message system message = codes "proof execution system failure"
remote_message (unknown code) message = codes "unrecognized proof execution failure"
remote_message _ message = message

unfoldable pub pet_public_message : PetError → Text
unfolding neutralize remote_message
pet_public_message (invalid message) = neutralize message
pet_public_message (environment message) = neutralize message
pet_public_message (process_lost message) = neutralize message
pet_public_message cancelled = codes "request cancelled"
pet_public_message (timed_out ms) = codes "proof fragment exceeded " ++ decimal ms ++ codes " ms"
pet_public_message (protocol message) = codes "received an invalid response"
pet_public_message output_overflow = codes "response exceeded the output limit"
pet_public_message (remote code kind message diagnostic) = remote_message kind message

-- A text that holds a minus sign and then five digits.
unfoldable pub has_code : Text → Bool
unfolding digits_next
has_code [] = false
has_code (c ∷ s) = (c == b'-' && digits_next 5 s) || has_code s

redact_hit :
    (c : ℕ) (s : Text)
    → (c == b'-' && digits_next 5 s) ≡ true
    → redact 0 (c ∷ s) ≡ marker ++ redact 5 s
unfolding redact
redact_hit c s h = rw (h, redact)

redact_miss :
    (c : ℕ) (s : Text) → (c == b'-' && digits_next 5 s) ≡ false → redact 0 (c ∷ s) ≡ c ∷ redact 0 s
unfolding redact
redact_miss c s h = rw (h, redact)

marker_no_digit : (k : ℕ) (s : Text) → digits_next (suc k) (marker ++ s) ≡ false
unfolding digits_next is_ascii_digit
marker_no_digit k s = refl

marker-has_code : (s : Text) → has_code (marker ++ s) ≡ has_code s
unfolding has_code
marker-has_code s = refl

digits_next-cons :
    (k c : ℕ) (s t : Text)
    → (digits_next k s ≡ true → digits_next k t ≡ true)
    → digits_next (suc k) (c ∷ s) ≡ true
    → digits_next (suc k) (c ∷ t) ≡ true
unfolding digits_next
digits_next-cons k c s t f h = elim (Bool-cases (is_ascii_digit c)) [
  | inl digit ↦ rw (digit) (f (rw digit at h))
  | inr other ↦ absurd (cc (rw other at h))
]

-- Redaction only shortens a run of digits.
digits_next-redact : (k : ℕ) (s : Text) → digits_next k (redact 0 s) ≡ true → digits_next k s ≡ true
digits_next-redact zero s h = unfold digits_next in refl
digits_next-redact (suc k) [] h = unfold redact in h
digits_next-redact (suc k) (c ∷ s) h = elim (Bool-cases (c == b'-' && digits_next 5 s)) [
  | inl hit ↦ absurd (cc (marker_no_digit k (redact 5 s), rw (redact_hit c s hit) at h))
  | inr miss ↦
      digits_next-cons k c (redact 0 s) s (digits_next-redact k s) (rw (redact_miss c s miss) at h)
]

has_code-cons :
    (c : ℕ) (s t : Text)
    → (digits_next 5 s ≡ true → digits_next 5 t ≡ true)
    → (c == b'-' && digits_next 5 t) ≡ false
    → has_code s ≡ false
    → has_code (c ∷ s) ≡ false
unfolding has_code
has_code-cons c s t f miss rest = elim (Bool-cases (digits_next 5 s)) [
  | inl more ↦ rw (rest) (ground (arith, f more, miss))
  | inr less ↦ rw (rest, less) (ground arith)
]

redact_skip : (k c : ℕ) (s : Text) → redact (suc k) (c ∷ s) ≡ redact k s
unfolding redact
redact_skip k c s = refl

redact-has_code : (k : ℕ) (s : Text) → has_code (redact k s) ≡ false
redact-has_code zero [] = unfold has_code redact in refl
redact-has_code (suc k) [] = unfold has_code redact in refl
redact-has_code (suc k) (c ∷ s) = rw (redact_skip k c s) (redact-has_code k s)
redact-has_code zero (c ∷ s) = elim (Bool-cases (c == b'-' && digits_next 5 s)) [
  | inl hit ↦ rw (redact_hit c s hit, marker-has_code (redact 5 s)) (redact-has_code 5 s)
  | inr miss ↦
      rw (redact_miss c s miss)
        (has_code-cons c (redact 0 s) s (digits_next-redact 5 s) miss (redact-has_code zero s))
]

neutralize-has_code : (message : Text) → has_code (neutralize message) ≡ false
unfolding neutralize
neutralize-has_code message = redact-has_code 0 (respelled message)

-- A text without a minus sign holds no code.
minus_free : Text → Bool
minus_free [] = true
minus_free (c ∷ s) = not (c == b'-') && minus_free s

minus_free-has_code : (s : Text) → minus_free s ≡ true → has_code s ≡ false
unfolding has_code minus_free
minus_free-has_code [] h = refl
minus_free-has_code (c ∷ s) h = elim (Bool-cases (c == b'-')) [
  | inl minus ↦ absurd (cc (rw (minus) at h))
  | inr other ↦ rw (other) (minus_free-has_code s (rw (other) at h))
]

minus_free-append :
    (s t : Text) → minus_free s ≡ true → minus_free t ≡ true → minus_free (s ++ t) ≡ true
unfolding minus_free
minus_free-append [] t h k = k
minus_free-append (c ∷ s) t h k = ground (arith, minus_free-append s t)

minus_free-decimal_loop :
    (fuel n : ℕ) (acc : Text) → minus_free acc ≡ true → minus_free (decimal_loop fuel n acc) ≡ true
unfolding minus_free decimal_loop
minus_free-decimal_loop zero n acc h = h
minus_free-decimal_loop (suc fuel) n acc h = elim (Bool-cases (ltb n 10)) [
  | inl last ↦ rw (last) (ground (arith, h))
  | inr more ↦
      rw (more) (minus_free-decimal_loop fuel (n / 10) ((48 + n % 10) ∷ acc) (ground (arith, h)))
]

minus_free-timeout :
    (ms : ℕ) → minus_free (codes "proof fragment exceeded " ++ decimal ms ++ codes " ms") ≡ true
unfolding decimal
minus_free-timeout ms =
    minus_free-append (codes "proof fragment exceeded " ++ decimal_loop (suc ms) ms [])
      (codes " ms")
      (minus_free-append (codes "proof fragment exceeded ") (decimal_loop (suc ms) ms [])
        (unfold minus_free in refl)
        (minus_free-decimal_loop (suc ms) ms [] (unfold minus_free in refl)))
      (unfold minus_free in refl)

-- The public message of a failure that is not a semantic rejection holds no error code, whatever
-- the transport's own text says: no minus sign with five digits after it.
pub pet_public_message-has_code :
    (error : PetError) → pet_is_semantic error ≡ false → has_code (pet_public_message error) ≡ false
unfolding pet_public_message pet_is_semantic
pet_public_message-has_code (invalid message) h = neutralize-has_code message
pet_public_message-has_code (environment message) h = neutralize-has_code message
pet_public_message-has_code (process_lost message) h = neutralize-has_code message
pet_public_message-has_code cancelled h = unfold has_code in refl
pet_public_message-has_code (timed_out ms) h = minus_free-has_code _ (minus_free-timeout ms)
pet_public_message-has_code (protocol message) h = unfold has_code in refl
pet_public_message-has_code output_overflow h = unfold has_code in refl
pet_public_message-has_code (remote code (unknown n) message diagnostic) h = unfold has_code in refl
pet_public_message-has_code (remote code method_not_found message diagnostic) h =
    unfold has_code in refl
pet_public_message-has_code (remote code anomaly message diagnostic) h = unfold has_code in refl
pet_public_message-has_code (remote code system message diagnostic) h = unfold has_code in refl
pet_public_message-has_code (remote code _ message diagnostic) h = cc

neutral :
    neutralize (codes "PET petanque failed -32601, x-12")
    ≡ codes "prover prover protocol failed (internal error code), x-12"
unfolding neutralize is_ascii_digit
neutral = refl
