-- ===== src/Interpreter/Integers/Division.antt =====
-- src/core/WorkItem.cpp: sdiv and srem are the division of C on two's complement numbers of the size of an element.
use native.Mathlib.Nat.{mod-le, div-le_self, div-lt_self}
use oclgrind.Base.{
  ℕ, zero, suc, ◌-◌, ◌/◌, ◌%◌, ◌<◌, ◌≤◌, ◌≡◌, ◌≢◌, ◌⊎◌, inl, inr, refl, sym, ap, subst, ◌∙◌, arith,
  true, if◌then◌else◌, ok, size_mod, ℤ, pos, negsuc, quot, rem, neg_ℕ, nat_abs,
}
use oclgrind.Interpreter.Values.{TypedValue, range, is_int_size, sign_extend}
use oclgrind.Interpreter.Values.Laws.{IsFull, at, at-lt}
use oclgrind.Interpreter.Integers.{to_int, of_int, is_divisible, binary_signed, sdiv, srem}
use oclgrind.Interpreter.Integers.Elements.{binary_signed-Gives, IsLike, at-lt_like}
use oclgrind.Interpreter.Integers.Signed.{
  signed, signed_at, Fits, by_size, to_int-sign_extend, signed-Fits, signed-of_int,
}

neg_ℕ-Fits : (n q : ℕ) → is_int_size n ≡ true → q ≤ range n / 2 → Fits n (neg_ℕ q)
neg_ℕ-Fits n zero h l =
    by_size (λ n. 0 ≤ range n / 2 → Fits n (pos 0)) n h (λ l. omega arith) (λ l. omega arith)
      (λ l. omega arith) (λ l. omega arith) l
neg_ℕ-Fits n (suc q) h l = l

-- The least number over -1 is the only quotient that does not fit.
quot-Fits :
    (n : ℕ) (x y : ℤ)
    → is_int_size n ≡ true
    → Fits n x
    → (x ≢ negsuc (range n / 2 - 1)) ⊎ (y ≢ negsuc 0)
    → Fits n (quot x y)
quot-Fits n (pos a) (pos b) h f ne = omega (arith, div-le_self a b)
quot-Fits n (pos a) (negsuc b) h f ne =
    neg_ℕ-Fits n (a / suc b) h (omega (arith, div-le_self a (suc b)))
quot-Fits n (negsuc a) (pos b) h f ne =
    neg_ℕ-Fits n (suc a / b) h (omega (arith, div-le_self (suc a) b))
quot-Fits n (negsuc a) (negsuc zero) h f (inl ne) = least a (λ e. ne (ap negsuc e)) f
  where
    least : (a : ℕ) → a ≢ range n / 2 - 1 → a < range n / 2 → suc a / 1 < range n / 2
    least a ne f = omega arith
quot-Fits n (negsuc a) (negsuc zero) h f (inr ne) = absurd (ne refl)
quot-Fits n (negsuc a) (negsuc (suc b)) h f ne =
    omega (arith, div-lt_self {n = suc a} {k = suc (suc b)} (omega arith) (omega arith))

rem-Fits : (n : ℕ) (x y : ℤ) → is_int_size n ≡ true → Fits n x → Fits n (rem x y)
rem-Fits n (pos a) y h f = omega (arith, mod-le a (nat_abs y))
rem-Fits n (negsuc a) y h f =
    neg_ℕ-Fits n (suc a % nat_abs y) h (omega (arith, mod-le (suc a) (nat_abs y)))

test : (x y : ℕ) → y ≢ 0 → (x ≢ size_mod / 2) ⊎ (y ≢ size_mod - 1) → is_divisible x y ≡ true
test x y ne d = ground arith

-- The code's test lets a division by, if its quotient fits.
divisible :
    (x y n : ℕ)
    → is_int_size n ≡ true
    → to_int y ≢ pos 0
    → Fits n (quot (to_int x) (to_int y))
    → is_divisible x y ≡ true
divisible x y n h ne f =
    test x y (λ e. ne (ap to_int e))
      (elim (least-cases x y) [
        | inl d ↦ d
        | inr e ↦ absurd (
            too_large n h (
              subst (λ x. Fits n (quot (to_int x) (negsuc 0))) e.0
                (subst (λ y. Fits n (quot (to_int x) (to_int y))) e.1 f)))
      ])
  where
    least-cases :
        (x y : ℕ)
        → ((x ≢ size_mod / 2) ⊎ (y ≢ size_mod - 1)) ⊎ ((x ≡ size_mod / 2) × (y ≡ size_mod - 1))
    least-cases x y = ground arith

    too_large : (n : ℕ) → is_int_size n ≡ true → ¬ (Fits n (pos (size_mod / 2)))
    too_large n h =
        by_size (λ n. ¬ (size_mod / 2 < range n / 2)) n h (λ l. omega arith) (λ l. omega arith)
          (λ l. omega arith) (λ l. omega arith)

-- A quotient or a remainder that fits is set as it is.
set_signed :
    (n x y : ℕ) (op : ℤ → ℤ → ℤ)
    → is_int_size n ≡ true
    → is_divisible x y ≡ true
    → Fits n (op (to_int x) (to_int y))
    → signed n ((if is_divisible x y then of_int (op (to_int x) (to_int y)) else 0) % range n)
      ≡ op (to_int x) (to_int y)
set_signed n x y op h d f = rw d (signed-of_int n (op (to_int x) (to_int y)) h f)

signed_at-Fits :
    (r a : TypedValue) (i : ℕ) → IsFull r → IsLike r a → i < r.num → Fits r.size (signed_at a i)
signed_at-Fits r a i f k l =
    subst (λ n. Fits r.size (signed n (at a i))) (sym k.like_size)
      (signed-Fits r.size (at a i) f.int_size (at-lt_like r a i k l))

-- The int64_t that the code reads is the number of the element.
to_int_read :
    (r a : TypedValue) (i : ℕ)
    → IsLike r a
    → i < r.num
    → to_int (sign_extend a.size (at a i)) ≡ signed_at a i
to_int_read r a i k l =
    to_int-sign_extend a.size (at a i) k.is_full.int_size
      (at-lt a i k.is_full (subst (λ n. i < n) (sym k.like_num) l))

-- An operation of the code's shape that fits gives the number.
each_signed :
    (a b r : TypedValue) (i : ℕ) (op : ℤ → ℤ → ℤ)
    → IsFull r
    → IsLike r a
    → IsLike r b
    → i < r.num
    → signed_at b i ≢ pos 0
    → Fits r.size (quot (signed_at a i) (signed_at b i))
    → Fits r.size (op (signed_at a i) (signed_at b i))
    → (t : TypedValue) × (binary_signed
          (λ x y. if is_divisible x y then of_int (op (to_int x) (to_int y)) else 0)
          a
          b
          r
        ≡ ok t)
      × (signed_at t i ≡ op (signed_at a i) (signed_at b i))
each_signed a b r i op f ka kb l ne fq fo =
    let x = sign_extend a.size (at a i) in
    let y = sign_extend b.size (at b i) in
    let ex = to_int_read r a i ka l in
    let ey = to_int_read r b i kb l in
    let given =
      binary_signed-Gives (λ x y. if is_divisible x y then of_int (op (to_int x) (to_int y)) else 0)
        a b r ka.is_full kb.is_full f in
    let d = divisible x y r.size f.int_size (rw ey ne) (rw (ex, ey) fq) in
    (
      given.0,
      given.1,
      subst (λ n. signed n (at given.0 i) ≡ op (signed_at a i) (signed_at b i))
          (sym given.2.same_size)
          (ap (signed r.size) (given.2.is_set i (omega arith) (omega arith))
            ∙ set_signed r.size x y op f.int_size d (rw (ex, ey) fo)
            ∙ rw (ex, ey) refl),
    )

-- For vectors of one integer type, where the divisor is not zero and the two are not the least
-- number and -1, sdiv and srem succeed, and their elements are the quotient cut towards zero and
-- the remainder, as two's complement numbers of that type.
pub sdiv-srem :
    (a b r : TypedValue) (i : ℕ)
    → IsFull r
    → IsLike r a
    → IsLike r b
    → i < r.num
    → signed_at b i ≢ pos 0
    → (signed_at a i ≢ negsuc (range r.size / 2 - 1)) ⊎ (signed_at b i ≢ negsuc 0)
    → (q m : TypedValue) × (sdiv a b r ≡ ok q)
      × (srem a b r ≡ ok m)
      × (signed_at q i ≡ quot (signed_at a i) (signed_at b i))
      × (signed_at m i ≡ rem (signed_at a i) (signed_at b i))
unfolding sdiv srem
sdiv-srem a b r i f ka kb l ne d =
    let fits =
      quot-Fits r.size (signed_at a i) (signed_at b i) f.int_size (signed_at-Fits r a i f ka l) d in
    let q = each_signed a b r i quot f ka kb l ne fits fits in
    let m =
      each_signed a b r i rem f ka kb l ne fits (
        rem-Fits r.size (signed_at a i) (signed_at b i) f.int_size (signed_at-Fits r a i f ka l)) in
    (q.0, m.0, q.1, m.1, q.2, m.2)
