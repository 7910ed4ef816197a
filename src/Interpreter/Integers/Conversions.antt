-- ===== src/Interpreter/Integers/Conversions.antt =====
-- src/core/WorkItem.cpp: itrunc, zext and sext between sizes of integers, and the shifts of a number.
use native.Mathlib.Nat.{mod-eq_of_lt, pow-le-pow_right}
use oclgrind.Base.{ℕ, ◌%◌, ◌<◌, ◌≤◌, ◌≡◌, refl, sym, ap, subst, ◌∙◌, arith, true, false, ok}
use oclgrind.Interpreter.Values.{TypedValue, range, is_int_size, sign_extend}
use oclgrind.Interpreter.Values.Laws.{IsFull, at, at-lt, each-Done, get_sint_full}
use oclgrind.Interpreter.Integers.{itrunc, zext, sext}
use oclgrind.Interpreter.Integers.Elements.{Gives-Sets, unary-Gives}
use oclgrind.Interpreter.Integers.Signed.{signed, signed_at, by_size}

-- A wider vector for as many elements.
pub record IsWider (a r : TypedValue) : Type 0 where
  pub wider : a.size ≤ r.size
  pub as_many : r.num ≡ a.num

-- A number is kept by widening its pattern with its sign, and the pattern by cutting it again.
Keeps : ℕ → ℕ → ℕ → Type 0
Keeps m n u =
    (signed n (sign_extend m u % range n) ≡ signed m u) × (sign_extend m u % range n % range m ≡ u)

KeepsTo : ℕ → ℕ → Type 0
KeepsTo n m = m ≤ n → (u : ℕ) → u < range m → Keeps m n u

keeps : (m n : ℕ) → is_int_size m ≡ true → is_int_size n ≡ true → KeepsTo n m
unfolding KeepsTo Keeps
keeps m n h k =
    by_size (KeepsTo n) m h
      (by_size (λ n. KeepsTo n 1) n k (λ le u l. (ground arith, ground arith))
        (λ le u l. (ground arith, ground arith)) (λ le u l. (ground arith, ground arith))
        (λ le u l. (ground arith, ground arith)))
      (by_size (λ n. KeepsTo n 2) n k (λ le u l. (ground arith, ground arith))
        (λ le u l. (ground arith, ground arith)) (λ le u l. (ground arith, ground arith))
        (λ le u l. (ground arith, ground arith)))
      (by_size (λ n. KeepsTo n 4) n k (λ le u l. (ground arith, ground arith))
        (λ le u l. (ground arith, ground arith)) (λ le u l. (ground arith, ground arith))
        (λ le u l. (ground arith, ground arith)))
      (by_size (λ n. KeepsTo n 8) n k (λ le u l. (ground arith, ground arith))
        (λ le u l. (ground arith, ground arith)) (λ le u l. (ground arith, ground arith))
        (λ le u l. (ground arith, ground arith)))

keeps_lem :
    (m n u : ℕ) → is_int_size m ≡ true → is_int_size n ≡ true → m ≤ n → u < range m → Keeps m n u
unfolding KeepsTo
keeps_lem m n u h k le l = keeps m n h k le u l

wider-lt : (m n u : ℕ) → m ≤ n → u < range m → u < range n
wider-lt m n u k l = omega (arith, l, pow-le-pow_right {n = 256} (omega arith) {i = m} {j = n} k)

-- Widening and cutting again gives the vector back, and widening keeps each number.
pub itrunc-zext :
    (a r s : TypedValue) (i : ℕ)
    → IsFull a
    → IsFull r
    → IsFull s
    → IsWider a r
    → IsWider s r
    → s.size ≡ a.size
    → i < a.num
    → (t u : TypedValue) × (zext a r ≡ ok t)
      × (itrunc t s ≡ ok u)
      × (at t i ≡ at a i)
      × (at u i ≡ at a i)
itrunc-zext a r s i fa fr fs w v e l =
    let t = unary-Gives (λ x. x) a r fa fr in
    let u =
      Gives-Sets _ s _ i (unary-Gives (λ x. x) t.0 s t.2.still_full fs)
        (omega (arith, w.as_many, v.as_many)) in
    let kept =
      t.2.is_set i (omega arith) (omega (arith, w.as_many))
      ∙ mod-eq_of_lt (wider-lt a.size r.size (at a i) w.wider (at-lt a i fa l)) in
    (
      t.0,
      u.0,
      t.1,
      u.1,
      kept,
      u.2
          ∙ ap (λ x. x % range s.size) kept
          ∙ mod-eq_of_lt (subst (λ n. at a i < range n) (sym e) (at-lt a i fa l)),
    )

-- Where the vectors are of the sizes of integers and the operand is not a scalar i1 (`is_bit` is false),
-- sext to a size that is not smaller keeps each number, in two's complement, and itrunc back to the
-- first size gives the patterns again; both succeed.
pub itrunc-sext :
    (a r s : TypedValue) (i : ℕ)
    → IsFull a
    → IsFull r
    → IsFull s
    → IsWider a r
    → IsWider s r
    → s.size ≡ a.size
    → i < a.num
    → (t u : TypedValue) × (sext false a r ≡ ok t)
      × (itrunc t s ≡ ok u)
      × (signed_at t i ≡ signed_at a i)
      × (at u i ≡ at a i)
unfolding sext Keeps
itrunc-sext a r s i fa fr fs w v e l =
    let t =
      each-Done _ (λ j. sign_extend a.size (at a j)) r.num 0 r fr (omega arith)
        (λ j k. rw (get_sint_full a j fa) refl) in
    let u =
      Gives-Sets _ s _ i (unary-Gives (λ x. x) t.0 s t.2.still_full fs)
        (omega (arith, w.as_many, v.as_many)) in
    let k = keeps_lem a.size r.size (at a i) fa.int_size fr.int_size w.wider (at-lt a i fa l) in
    let is_set = t.2.is_set i (omega arith) (omega (arith, w.as_many)) in
    (
      t.0,
      u.0,
      t.1,
      u.1,
      subst (λ n. signed n (at t.0 i) ≡ signed_at a i) (sym t.2.same_size)
          (ap (signed r.size) is_set ∙ k.0),
      u.2 ∙ ap (λ n. at t.0 i % range n) e ∙ ap (λ x. x % range a.size) is_set ∙ k.1,
    )
