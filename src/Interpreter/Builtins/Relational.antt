-- ===== src/Interpreter/Builtins/Relational.antt =====
-- src/core/WorkItemBuiltins.cpp: all, any and select on vectors of integers. `c & INT64_MIN` is the sign of `c`.
use oclgrind.Base.{
  ℕ, zero, suc, ◌+◌, ◌/◌, ◌<◌, ◌≤◌, ◌≡◌, ◌⊎◌, inl, inr, refl, subst, arith, Bool, true, false, not,
  ◌==◌, if◌then◌else◌, ltb, Result, ok, err, ◌>>=◌, Bool-cases, size_mod,
}
use oclgrind.Interpreter.Values.{
  Fatal, unsupported_argument_type, TypedValue, get_sint, set_sint, each, sign_extend,
}
use oclgrind.Interpreter.Values.Laws.{IsFull, at, get_sint_full}
use oclgrind.Interpreter.Builtins.{ArgType, signedness, unknown}

abbrev pub is_negative : ℕ → Bool
is_negative c = not (ltb c (size_mod / 2))

-- The loops, with the rounds that are left.
unfoldable pub all_from : ℕ → ℕ → TypedValue → Result Fatal Bool
all_from zero i a = ok true
all_from (suc n) i a =
    let rest = all_from n (suc i) a in
    get_sint a i >>= λ c. if is_negative c then rest else ok false

unfoldable pub any_from : ℕ → ℕ → TypedValue → Result Fatal Bool
any_from zero i a = ok false
any_from (suc n) i a =
    let rest = any_from n (suc i) a in get_sint a i >>= λ c. if is_negative c then ok true else rest

-- `num` is the length of the vector, or 1.
unfoldable pub all : ℕ → TypedValue → TypedValue → Result Fatal TypedValue
all num a r = all_from num 0 a >>= λ c. set_sint r (if c then 1 else 0) 0

unfoldable pub any : ℕ → TypedValue → TypedValue → Result Fatal TypedValue
any num a r = any_from num 0 a >>= λ c. set_sint r (if c then 1 else 0) 0

-- select of the overloads on integers: the sign of the condition for vectors, its truth for scalars.
unfoldable pub select_builtin :
    ArgType → TypedValue → TypedValue → TypedValue → TypedValue → Result Fatal TypedValue
select_builtin t a b c r =
    each
      (λ i. get_sint c i >>= λ v.
        let chosen = if ltb 1 r.num then is_negative v else not (v == 0) in
        elim (signedness t) [
          | unknown ↦ err unsupported_argument_type
          | s ↦ if chosen then get_sint b i else get_sint a i
        ])
      r.num 0 r

-- The sign of an element.
abbrev pub sign_at : TypedValue → ℕ → Bool
sign_at a i = is_negative (sign_extend a.size (at a i))

-- The loop of all gives true if every element from `i` to `i + n` is negative, and false if one is not.
pub all_from_lem :
    (n i : ℕ) (a : TypedValue)
    → IsFull a
    → ((all_from n i a ≡ ok true) × ((j : ℕ) → i ≤ j → j < i + n → sign_at a j ≡ true))
      ⊎ ((all_from n i a ≡ ok false) × ((j : ℕ) × (i ≤ j) × (j < i + n) × (sign_at a j ≡ false)))
unfolding all_from
all_from_lem zero i a f = inl (refl, λ j l h. absurd (omega arith))
all_from_lem (suc n) i a f = elim (Bool-cases (sign_at a i)) [
  | inl e ↦ elim (all_from_lem n (suc i) a f) [
    | inl (r, every) ↦ inl (
      rw (get_sint_full a i f, e) r,
      λ j l h. elim (eq-or_lt i j l) [
        | inl p ↦ subst (λ k. sign_at a k ≡ true) p e
        | inr g ↦ every j g (omega arith)
      ],
    )
    | inr (r, (j, l, h, b)) ↦ inr (rw (get_sint_full a i f, e) r, (j, omega arith, omega arith, b))
  ]
  | inr e ↦ inr (rw (get_sint_full a i f, e) refl, (i, omega arith, omega arith, e))
]
  where
    eq-or_lt : (i j : ℕ) → i ≤ j → (i ≡ j) ⊎ (i < j)
    eq-or_lt i j h = ground arith
