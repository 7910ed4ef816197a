-- ===== src/Interpreter/Integers/Signed.antt =====
-- src/core/WorkItem.cpp: what the signed instructions compute on int64_t, read as two's complement numbers of the
-- size of an element.
use oclgrind.Base.{
  ℕ, ◌-◌, ◌/◌, ◌%◌, ◌<◌, ◌≡◌, inl, inr, sym, subst, arith, true, if◌then◌else◌, ltb, ℤ, pos, negsuc,
}
use oclgrind.Interpreter.Values.{TypedValue, range, is_int_size, sign_extend}
use oclgrind.Interpreter.Values.Laws.{at, int_size-cases}
use oclgrind.Interpreter.Integers.{to_int, of_int}

-- The number of a pattern of `size` bytes, and the numbers of that size.
abbrev pub signed : ℕ → ℕ → ℤ
signed size u = if ltb u (range size / 2) then pos u else negsuc (range size - 1 - u)

abbrev pub signed_at : TypedValue → ℕ → ℤ
signed_at v i = signed v.size (at v i)

-- n < 2^(w-1), for a number `n` or `-(n + 1)`.
abbrev pub Fits : ℕ → ℤ → Type 0
Fits size (pos n) = n < range size / 2
Fits size (negsuc n) = n < range size / 2

-- A statement on each size of an integer holds at the sizes of the code.
module _ (P : ℕ → Type 0) where
  pub by_size : (n : ℕ) → is_int_size n ≡ true → P 1 → P 2 → P 4 → P 8 → P n
  by_size n h one two four eight = elim (int_size-cases n h) [
    | inl e ↦ subst P (sym e) one
    | inr (inl e) ↦ subst P (sym e) two
    | inr (inr (inl e)) ↦ subst P (sym e) four
    | inr (inr (inr e)) ↦ subst P (sym e) eight
  ]

pub to_int-sign_extend :
    (n u : ℕ) → is_int_size n ≡ true → u < range n → to_int (sign_extend n u) ≡ signed n u
to_int-sign_extend n u h =
    by_size (λ n. u < range n → to_int (sign_extend n u) ≡ signed n u) n h (λ l. ground arith)
      (λ l. ground arith) (λ l. ground arith) (λ l. ground arith)

pub signed-Fits : (n u : ℕ) → is_int_size n ≡ true → u < range n → Fits n (signed n u)
signed-Fits n u h =
    by_size (λ n. u < range n → Fits n (signed n u)) n h (λ l. ground arith) (λ l. ground arith)
      (λ l. ground arith) (λ l. ground arith)

-- What fits is kept where it is cut to the size.
pub signed-of_int :
    (n : ℕ) (z : ℤ) → is_int_size n ≡ true → Fits n z → signed n (of_int z % range n) ≡ z
signed-of_int n (pos z) h =
    by_size (λ n. Fits n (pos z) → signed n (of_int (pos z) % range n) ≡ pos z) n h
      (λ l. ground arith) (λ l. ground arith) (λ l. ground arith) (λ l. ground arith)
signed-of_int n (negsuc z) h =
    by_size (λ n. Fits n (negsuc z) → signed n (of_int (negsuc z) % range n) ≡ negsuc z) n h
      (λ l. ground arith) (λ l. ground arith) (λ l. ground arith) (λ l. ground arith)
