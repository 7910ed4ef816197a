-- ===== src/NdRange/Dimension.antt =====
-- One dimension of the split of an ND-range (src/core/KernelInvocation.cpp).
use native.Mathlib.Nat.{mod-eq_of_lt}
use native.Mathlib.Decide.{dec_lt}
use oclgrind.Base.{
  ◌≢◌, ◌⊎◌, inl, inr, ap, lt→ltb, ℕ, ◌+◌, ◌*◌, ◌/◌, ◌%◌, ◌≤◌, ◌<◌, ◌≡◌, arith, Bool, false,
  size_mod, ltb,
}
use oclgrind.NdRange.{groups_in, extent}

mul-le : (a b l : ℕ) → a ≤ b → a * l ≤ b * l
mul-le a b l h = grind arith

mul-suc : (l i : ℕ) → l * (i + 1) ≡ i * l + l
mul-suc l i = omega arith

join : (g l : ℕ) → 0 < l → g / l * l + g % l ≡ g
join g l p = grind arith

below : (a l : ℕ) → 0 < l → a % l < l
below a l p = omega arith

not_lt : (a b : ℕ) → b ≤ a → ltb a b ≡ false
not_lt a b h = ground arith

-- Within the range a group is full, and in the last one that does not fill up the rest is left.
extent_full : (g l i : ℕ) → 0 < l → g + l < size_mod → i < g / l → extent g l i ≡ l
unfolding extent
extent_full g l i p fits h = rw (
  mod-eq_of_lt {n = l * (i + 1)} {m = size_mod} (omega (arith, mul-suc l i, ends)),
  not_lt g (l * (i + 1)) (omega (arith, mul-suc l i, ends)),
)
  where
    ends : i * l + l ≤ g
    ends = omega (arith, mul-le (i + 1) (g / l) l (omega arith), join g l p)

extent_rest : (g l : ℕ) → 0 < l → g + l < size_mod → extent g l (g / l) ≡ g % l
unfolding extent
extent_rest g l p fits = rw (
  mod-eq_of_lt {n = l * (g / l + 1)} {m = size_mod} (omega (arith, mul-suc l (g / l), join g l p)),
  lt→ltb g (l * (g / l + 1)) (omega (arith, mul-suc l (g / l), join g l p, below g l p)),
)

-- A group of the split is full, or it is the last one and there is a rest.
groups_cases :
    (u : Bool) (g l i : ℕ) → i < groups_in u g l → (i < g / l) ⊎ ((i ≡ g / l) × (g % l ≢ 0))
unfolding groups_in
groups_cases u g l i h = ground arith

-- Every work-item of a group lies in the range.
pub extent_inside :
    (u : Bool) (g l i k : ℕ)
    → 0 < l
    → g + l < size_mod
    → i < groups_in u g l
    → k < extent g l i
    → (k < l) × (k + i * l < g)
extent_inside u g l i k p fits h e = elim (groups_cases u g l i h) [
  | inl full ↦
      let size = extent_full g l i p fits full in
      (omega arith, omega (arith, mul-le (i + 1) (g / l) l (omega arith), join g l p))
  | inr (last, rest) ↦
      let size : extent g l i ≡ g % l = rw last (extent_rest g l p fits) in
      let start : i * l ≡ g / l * l = rw last in
      (omega (arith, below g l p), omega (arith, join g l p))
]

-- Every point of the range lies in a group, unless the kernel wants uniform groups.
pub extent_covers :
    (g l n : ℕ)
    → 0 < l
    → g + l < size_mod
    → n < g
    → (n / l < groups_in false g l) × (n % l < extent g l (n / l))
unfolding groups_in
extent_covers g l n p fits h = elim (dec_lt (n / l) (g / l)) [
  | yes full ↦
      let size = extent_full g l (n / l) p fits full in (ground arith, omega (arith, below n l p))
  | no over ↦
      let last : n / l ≡ g / l = omega (arith, monotone) in
      let rest : n % l < g % l =
        omega (arith, join g l p, join n l p, ap (λ (q : ℕ). q * l) last) in
      let size : extent g l (n / l) ≡ g % l = rw last (extent_rest g l p fits) in
      (ground arith, omega arith)
]
  where
    monotone : n / l ≤ g / l
    monotone = elim (dec_lt (g / l) (n / l)) [
      | yes more ↦ absurd (
          omega (
            arith,
            mul-le (g / l + 1) (n / l) l (omega arith),
            join n l p,
            join g l p,
            below g l p,
          ))
      | no le ↦ omega arith
    ]
