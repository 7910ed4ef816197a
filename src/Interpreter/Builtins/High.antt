-- ===== src/Interpreter/Builtins/High.antt =====
-- src/core/WorkItemBuiltins.cpp: the products of halves give the high half of a 64-bit product.
use native.Mathlib.Nat.{mul-le-mul, mod-add-div}
use oclgrind.Base.{
  ℕ, ◌+◌, ◌-◌, ◌*◌, ◌/◌, ◌%◌, ◌^◌, ◌<◌, ◌≤◌, ◌≡◌, refl, sym, ap, ◌∙◌, arith, size_mod,
}
use oclgrind.Interpreter.Builtins.{umul_hi}

abbrev largest : ℕ
largest = (2 ^ 32 - 1) * (2 ^ 32 - 1)

-- A product of two 32-bit halves.
half_product : (a b : ℕ) → a < 2 ^ 32 → b < 2 ^ 32 → a * b ≤ largest
half_product a b h k =
    mul-le-mul {n₂ = 2 ^ 32 - 1} {m₂ = 2 ^ 32 - 1} (omega (arith, h)) (omega (arith, k))

-- The sum of the four products, the way the code puts them together.
sum_of_products :
    (p q s t : ℕ)
    → p ≤ largest
    → q ≤ largest
    → s ≤ largest
    → t ≤ largest
    → (t % size_mod
          + (((s % size_mod + p % size_mod / 2 ^ 32) % size_mod % 2 ^ 32 + q % size_mod)
                % size_mod
                / 2 ^ 32
              + (s % size_mod + p % size_mod / 2 ^ 32) % size_mod / 2 ^ 32)
            % size_mod)
        % size_mod
      ≡ (t * size_mod + (q + s) * 2 ^ 32 + p) / size_mod
sum_of_products p q s t hp hq hs ht = omega arith

parts_product :
    (a b c d : ℕ)
    → (b + 2 ^ 32 * a) * (d + 2 ^ 32 * c) ≡ a * c * size_mod + (b * c + a * d) * 2 ^ 32 + b * d
parts_product a b c d = grind arith

-- For two numbers below 2^64, _umul_hi_ at 64 bits gives their product divided by 2^64, though it
-- computes in 64 bits.
pub umul_hi_lem : (x y : ℕ) → x < size_mod → y < size_mod → umul_hi x y 64 ≡ x * y / size_mod
unfolding umul_hi
umul_hi_lem x y h k =
    sum_of_products (x % 2 ^ 32 * (y % 2 ^ 32)) (x % 2 ^ 32 * (y / 2 ^ 32))
      (x / 2 ^ 32 * (y % 2 ^ 32)) (x / 2 ^ 32 * (y / 2 ^ 32))
      (half_product _ _ (omega arith) (omega arith)) (half_product _ _ (omega arith) (omega arith))
      (half_product _ _ (omega arith) (omega arith)) (half_product _ _ (omega arith) (omega arith))
    ∙ ap (λ v. v / size_mod)
        (sym (parts_product (x / 2 ^ 32) (x % 2 ^ 32) (y / 2 ^ 32) (y % 2 ^ 32))
          ∙ rw (mod-add-div x (2 ^ 32), mod-add-div y (2 ^ 32)) refl)
