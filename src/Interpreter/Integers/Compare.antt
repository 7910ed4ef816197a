-- ===== src/Interpreter/Integers/Compare.antt =====
-- src/core/WorkItem.cpp: icmp decides the orders of the unsigned and of the two's complement numbers.
use native.Mathlib.Nat.{mod-eq_of_lt}
use oclgrind.Base.{
  ℕ, ◌-◌, ◌%◌, ◌<◌, ◌≤◌, ◌≡◌, ◌≢◌, ◌⊎◌, inl, inr, refl, sym, ap, subst, ◌∙◌, arith, Bool, true,
  false, not, if◌then◌else◌, ltb, ok, size_mod, ◌<ℤ◌, ◌≤ℤ◌,
}
use oclgrind.Interpreter.Values.{TypedValue, range, is_int_size, sign_extend}
use oclgrind.Interpreter.Values.Laws.{
  IsFull, at, each-Done, at-lt, pow-lt, get_uint_full, get_sint_full,
}
use oclgrind.Interpreter.Integers.{
  Predicate, icmp_eq, icmp_ne, icmp_ugt, icmp_uge, icmp_ult, icmp_ule, icmp_sgt, icmp_sge, icmp_slt,
  icmp_sle, fcmp, is_int_predicate, compares, sless, icmp,
}
use oclgrind.Interpreter.Integers.Elements.{IsLike, at-lt_like}
use oclgrind.Interpreter.Integers.Signed.{signed, by_size}

-- What a predicate says of two patterns of `n` bytes.
abbrev pub Meets : ℕ → Predicate → ℕ → ℕ → Type 0
Meets n icmp_eq u v = u ≡ v
Meets n icmp_ne u v = u ≢ v
Meets n icmp_ugt u v = v < u
Meets n icmp_uge u v = v ≤ u
Meets n icmp_ult u v = u < v
Meets n icmp_ule u v = u ≤ v
Meets n icmp_sgt u v = signed n v <ℤ signed n u
Meets n icmp_sge u v = signed n v ≤ℤ signed n u
Meets n icmp_slt u v = signed n u <ℤ signed n v
Meets n icmp_sle u v = signed n u ≤ℤ signed n v
Meets n (fcmp k) u v = Unit

Decides : Bool → Type 0 → Type 0
Decides c P = ((c ≡ true) × P) ⊎ ((c ≡ false) × (¬ P))

sless-Decides :
    (n u v : ℕ)
    → is_int_size n ≡ true
    → u < range n
    → v < range n
    → Decides (sless (sign_extend n u) (sign_extend n v)) (signed n u <ℤ signed n v)
unfolding Decides
sless-Decides n u v h =
    by_size
      (λ n.
        u < range n
        → v < range n
        → Decides (sless (sign_extend n u) (sign_extend n v)) (signed n u <ℤ signed n v))
      n h (λ l k. ground arith) (λ l k. ground arith) (λ l k. ground arith) (λ l k. ground arith)

sle-Decides :
    (n u v : ℕ)
    → is_int_size n ≡ true
    → u < range n
    → v < range n
    → Decides (not (sless (sign_extend n v) (sign_extend n u))) (signed n u ≤ℤ signed n v)
unfolding Decides
sle-Decides n u v h =
    by_size
      (λ n.
        u < range n
        → v < range n
        → Decides (not (sless (sign_extend n v) (sign_extend n u))) (signed n u ≤ℤ signed n v))
      n h (λ l k. ground arith) (λ l k. ground arith) (λ l k. ground arith) (λ l k. ground arith)

compares-Decides :
    (p : Predicate) (n u v : ℕ)
    → is_int_predicate p ≡ true
    → is_int_size n ≡ true
    → u < range n
    → v < range n
    → Decides (compares p u v (sign_extend n u) (sign_extend n v)) (Meets n p u v)
unfolding Decides compares
compares-Decides icmp_eq n u v d h l k = ground arith
compares-Decides icmp_ne n u v d h l k = ground arith
compares-Decides icmp_ugt n u v d h l k = ground arith
compares-Decides icmp_uge n u v d h l k = ground arith
compares-Decides icmp_ult n u v d h l k = ground arith
compares-Decides icmp_ule n u v d h l k = ground arith
compares-Decides icmp_sgt n u v d h l k = sless-Decides n v u h k l
compares-Decides icmp_sge n u v d h l k = sle-Decides n v u h k l
compares-Decides icmp_slt n u v d h l k = sless-Decides n u v h l k
compares-Decides icmp_sle n u v d h l k = sle-Decides n u v h l k
compares-Decides (fcmp m) n u v d h l k = ground arith

-- The pattern for true: 1 for a scalar, all ones for a vector.
abbrev pub truth : TypedValue → ℕ
truth r = if ltb 1 r.num then range r.size - 1 else 1

stored : TypedValue → Bool → ℕ
stored r c = if c then (if ltb 1 r.num then size_mod - 1 else 1) else 0

stored-truth : (r : TypedValue) → is_int_size r.size ≡ true → stored r true % range r.size ≡ truth r
unfolding stored
stored-truth r h =
    by_size
      (λ n.
        (if ltb 1 r.num then size_mod - 1 else 1) % range n
        ≡ (if ltb 1 r.num then range n - 1 else 1))
      r.size h (ground arith) (ground arith) (ground arith) (ground arith)

stored-Decides :
    (r : TypedValue) (c : Bool) {P : Type 0} (v : ℕ)
    → is_int_size r.size ≡ true
    → v ≡ stored r c % range r.size
    → Decides c P
    → ((v ≡ truth r) × P) ⊎ ((v ≡ 0) × (¬ P))
unfolding Decides stored
stored-Decides r c v h e (inl d) =
    inl (e ∙ ap (λ c. stored r c % range r.size) d.0 ∙ stored-truth r h, d.1)
stored-Decides r c v h e (inr d) =
    inr (e ∙ ap (λ c. stored r c % range r.size) d.0 ∙ mod-eq_of_lt (pow-lt r.size), d.1)

-- For vectors of one integer type and an integer predicate, icmp succeeds, and an element is the
-- pattern for true if the predicate holds of the two numbers, unsigned or in two's complement, and
-- 0 if it does not.
pub icmp-Meets :
    (p : Predicate) (a b r : TypedValue) (i : ℕ)
    → is_int_predicate p ≡ true
    → IsFull r
    → IsFull a
    → IsLike a b
    → r.num ≡ a.num
    → i < r.num
    → (t : TypedValue) × (icmp p a b r ≡ ok t)
      × (((at t i ≡ truth r) × Meets a.size p (at a i) (at b i))
          ⊎ ((at t i ≡ 0) × (¬ (Meets a.size p (at a i) (at b i)))))
unfolding icmp stored
icmp-Meets p a b r i d f fa kb e l =
    let c : ℕ → Bool = λ j.
      compares p (at a j) (at b j) (sign_extend a.size (at a j)) (sign_extend b.size (at b j)) in
    let given =
      each-Done _ (λ j. stored r (c j)) r.num 0 r f (omega arith)
        (λ j k.
          rw
            (
              get_uint_full a j fa,
              get_uint_full b j kb.is_full,
              get_sint_full a j fa,
              get_sint_full b j kb.is_full,
              d,
            )
            refl) in
    (
      given.0,
      given.1,
      stored-Decides r (c i) (at given.0 i) f.int_size
          (given.2.is_set i (omega arith) (omega arith))
          (subst
            (λ n.
              Decides
                (compares p (at a i) (at b i) (sign_extend a.size (at a i))
                  (sign_extend n (at b i)))
                (Meets a.size p (at a i) (at b i)))
            (sym kb.like_size)
            (compares-Decides p a.size (at a i) (at b i) d fa.int_size
              (at-lt a i fa (subst (λ n. i < n) e l))
              (at-lt_like a b i kb (subst (λ n. i < n) e l)))),
    )
