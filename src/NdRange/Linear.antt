-- ===== src/NdRange/Linear.antt =====
-- Linear indices of points (src/core/common.cpp, Size3).
use native.Mathlib.Nat.{div-div-eq-div-mul}
use oclgrind.Base.{ℕ, ◌+◌, ◌*◌, ◌/◌, ◌%◌, ◌<◌, ◌≡◌, arith, sym}
use oclgrind.NdRange.{Size3, of_linear, linear, Below}

pub div_add : (a b k : ℕ) → a < k → (a + b * k) / k ≡ b
div_add a b k h = grind arith

pub mod_add : (a b k : ℕ) → a < k → (a + b * k) % k ≡ a
mod_add a b k h = grind arith

div_div : (n a b : ℕ) → n / (a * b) ≡ n / a / b
div_div n a b = sym (div-div-eq-div-mul n a b)

pub mod_div_join : (n k : ℕ) → 0 < k → n % k + n / k * k ≡ n
mod_div_join n k h = grind arith

pub in_box : (a b n m : ℕ) → a < n → b < m → a + b * n < m * n
in_box a b n m h k = grind arith

-- A point is found again from its linear index; the last coordinate is not bounded.
pub of_linear-linear : (d p : Size3) → p.x < d.x → p.y < d.y → of_linear (linear d p) d ≡ p
unfolding of_linear linear
of_linear-linear d p hx hy = ground (
  arith,
  mod_add p.x (p.y + p.z * d.y) d.x hx,
  div_add p.x (p.y + p.z * d.y) d.x hx,
  mod_add p.y p.z d.y hy,
  div_add p.y p.z d.y hy,
  div_div (p.x + (p.y + p.z * d.y) * d.x) d.x d.y,
)

-- Every number is the linear index of the point that it stands for.
pub linear-of_linear : (d : Size3) (n : ℕ) → 0 < d.x → 0 < d.y → linear d (of_linear n d) ≡ n
unfolding of_linear linear
linear-of_linear d n hx hy =
    rw (div_div n d.x d.y, mod_div_join (n / d.x) d.y hy) (mod_div_join n d.x hx)

pub linear-lt : (d p : Size3) → Below p d → linear d p < d.z * d.y * d.x
unfolding linear
linear-lt d p h = in_box p.x (p.y + p.z * d.y) d.x (d.z * d.y) h.0 (in_box p.y p.z d.y d.z h.1 h.2)
