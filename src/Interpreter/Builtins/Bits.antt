-- ===== src/Interpreter/Builtins/Bits.antt =====
-- src/core/WorkItemBuiltins.cpp: the loop of clz over the bits of a number ends in as many rounds as there are bits, and
-- counts the digits of the number.
use native.Mathlib.Nat.{pow-suc}
use oclgrind.Base.{
  ℕ, zero, suc, ◌*◌, ◌/◌, ◌^◌, ◌<◌, ◌≤◌, ◌≡◌, ◌⊎◌, inl, inr, refl, sym, ap, subst, ◌∙◌, arith, ◌==◌,
  if◌then◌else◌,
}
use oclgrind.Interpreter.Builtins.{bits_of}

zero_test :
    (x : ℕ) {a b : ℕ}
    → ((x ≡ 0) × ((if x == 0 then a else b) ≡ a)) ⊎ ((0 < x) × ((if x == 0 then a else b) ≡ b))
zero_test x = ground arith

bits_of_zero : (fuel : ℕ) → bits_of fuel 0 ≡ 0
unfolding bits_of
bits_of_zero zero = refl
bits_of_zero (suc fuel) = refl

-- A number below 2^fuel is counted in `fuel` rounds: it has at most the digits that are counted, and if it is not 0, it has as
-- many.
pub bits_of_lem :
    (fuel x : ℕ)
    → x < 2 ^ fuel
    → (bits_of fuel x ≤ fuel) × (x < 2 ^ bits_of fuel x) × ((x ≡ 0) ⊎ (2 ^ bits_of fuel x ≤ 2 * x))
unfolding bits_of
bits_of_lem zero x h = (omega arith, h, inl (omega arith))
bits_of_lem (suc fuel) x h =
    let rest = bits_of_lem fuel (x / 2) (omega (arith, pow-suc 2 fuel)) in
    elim (zero_test x {a = 0} {b = suc (bits_of fuel (x / 2))}) [
      | inl (z, e) ↦ rw e (omega arith, omega arith, inl z)
      | inr (p, e) ↦ rw e (
        omega (arith, rest.0),
        omega (arith, rest.1, pow-suc 2 (bits_of fuel (x / 2))),
        inr (more p rest.2),
      )
    ]
  where
    more :
        0 < x
        → (x / 2 ≡ 0) ⊎ (2 ^ bits_of fuel (x / 2) ≤ 2 * (x / 2))
        → 2 ^ suc (bits_of fuel (x / 2)) ≤ 2 * x
    more p (inl z) =
        subst (λ k. 2 ^ suc k ≤ 2 * x) (sym (ap (bits_of fuel) z ∙ bits_of_zero fuel)) (omega arith)
    more p (inr l) = omega (arith, l, pow-suc 2 (bits_of fuel (x / 2)))
