-- ===== src/Session/Limits.antt =====
-- What the arguments of a `query` of crates/rocq-mcp/src/adapter.rs ask for: how many locations, and
-- which parts of an answer.
use rocq_mcp.Prelude.{
  ℕ, ◌≤◌, ◌⊎◌, inl, inr, refl, sym, subst, Bool, true, false, bind-eq-ok, ◌≡◌, Option, none, some,
  Result, ok, err, ok_or, ok_or-eq-ok, ok-injective, String, arith,
}
use rocq_mcp.Types.Json.{Value, get, as_u64, boolean}
use rocq_mcp.Errors.{Error}
use rocq_mcp.Arguments.{invalid, reject_unknown, query_offset, optional_bool, field_error}
use rocq_mcp.Session.Goals.{GoalsRequest, goals_fields, goal_id, scope_of, goals_request}
use rocq_mcp.Session.Query.{in_limits, symbol_limit}

abbrev pub IsAsked : String → Value → Type 0
IsAsked name args = get name args ≡ some (boolean true)

optional_bool-IsAsked :
    (args : Value) (name : String) (b : Bool)
    → optional_bool args name ≡ ok b
    → (b ≡ false) ⊎ IsAsked name args
unfolding optional_bool
optional_bool-IsAsked args name b e = flag_read (get name args) e
  where
    flag_read :
        (field : Option Value)
        → Path
            (Result Error Bool)
            (elim field [
              | none ↦ ok false
              | some value ↦ elim value [
                | boolean c ↦ ok c
                | _ ↦ err (field_error name " must be a boolean")
              ]
            ])
            (ok b)
        → (b ≡ false) ⊎ (field ≡ some (boolean true))
    flag_read none k = inl (sym (ok-injective k))
    flag_read (some (boolean true)) k = inr refl
    flag_read (some (boolean false)) k = inl (sym (ok-injective k))
    flag_read (some _) k = absurd (cc k)

pub goals_request-IsAsked :
    (args : Value) (request : GoalsRequest)
    → goals_request args ≡ ok request
    → ((request.include_structured ≡ false) ⊎ IsAsked "structured" args)
      × ((request.include_diff ≡ false) ⊎ IsAsked "diff" args)
unfolding goals_request
goals_request-IsAsked args request e =
    let (_, _, e1) = bind-eq-ok (reject_unknown args goals_fields) _ e in
    let (_, _, e2) = bind-eq-ok (query_offset args) _ e1 in
    let (diff, diff_read, e3) = bind-eq-ok (optional_bool args "diff") _ e2 in
    let (structured, structured_read, e4) = bind-eq-ok (optional_bool args "structured") _ e3 in
    let (id, _, e5) = bind-eq-ok (goal_id args) _ e4 in
    let (_, _, e6) = bind-eq-ok (scope_of args id) _ e5 in
    let same = ok-injective e6 in
    (
      subst (λ (r : GoalsRequest). (r.include_structured ≡ false) ⊎ IsAsked "structured" args) same
          (optional_bool-IsAsked args "structured" structured structured_read),
      subst (λ (r : GoalsRequest). (r.include_diff ≡ false) ⊎ IsAsked "diff" args) same
          (optional_bool-IsAsked args "diff" diff diff_read),
    )

in_limits-le : (o : Option ℕ) (n : ℕ) → in_limits o ≡ some n → n ≤ 100
in_limits-le none n h = absurd (cc h)
in_limits-le (some m) n h = ground (arith, h)

pub symbol_limit-le : (args : Value) (n : ℕ) → symbol_limit args ≡ ok n → n ≤ 100
unfolding symbol_limit
symbol_limit-le args n h = limit_read (get "limit" args) h
  where
    limit_read :
        (field : Option Value)
        → Path
            (Result Error ℕ)
            (elim field [
              | none ↦ ok 20
              | some value ↦
                  ok_or
                    (invalid "limit must be an integer from 1 to 100")
                    (in_limits (as_u64 value))
            ])
            (ok n)
        → n ≤ 100
    limit_read none k = omega (arith, ok-injective k)
    limit_read (some value) k = in_limits-le (as_u64 value) n (ok_or-eq-ok _ _ k)
