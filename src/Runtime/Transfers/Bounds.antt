-- ===== src/Runtime/Transfers/Bounds.antt =====
-- src/runtime/runtime.cpp and src/core/Queue.cpp: the rows of a rectangle that passes the check of the
-- runtime lie in the buffer.
use native.Mathlib.Nat.{mod-eq_of_lt}
use oclgrind.Base.{ℕ, ◌+◌, ◌-◌, ◌*◌, ◌%◌, ◌≤◌, ◌<◌, ◌≡◌, sym, ◌∙◌, subst, arith, true, size_mod}
use oclgrind.Commands.{row_address}
use oclgrind.Memory.{Memory, is_address_valid}
use oclgrind.NdRange.{Size3}
use oclgrind.Runtime.{MemObject}
use oclgrind.Runtime.Transfers.{rect_offsets, rect_end}

-- Every range inside the object is valid in memory.
abbrev pub Backed : Memory → MemObject → Type 0
Backed m o =
    (k n : ℕ)
    → k + n ≤ o.size
    → (o.address + k < size_mod) × (is_address_valid m (o.address + k) n ≡ true)

-- The last byte of the rectangle without reduction, for these offsets.
abbrev pub true_end : Size3 → Size3 → ℕ
true_end o region = o.x + region.x + (region.y - 1) * o.y + (region.z - 1) * o.z

-- The numbers of rows and slices, and the end of the rectangle, are numbers of size_t.
pub record Regular (origin region : Size3) (row_pitch slice_pitch : ℕ) : Type 0 where
  pub few_rows : region.y < size_mod
  pub few_slices : region.z < size_mod
  pub end_fits : true_end (rect_offsets origin region row_pitch slice_pitch) region < size_mod

pred_mod : (n : ℕ) → 0 < n → n < size_mod → (n + size_mod - 1) % size_mod ≡ n - 1
pred_mod n p h = omega arith

mul_mono : (a b c : ℕ) → a ≤ b → a * c ≤ b * c
mul_mono a b c h = grind arith

rect_end_true :
    (o region : Size3)
    → 0 < region.y
    → 0 < region.z
    → region.y < size_mod
    → region.z < size_mod
    → true_end o region < size_mod
    → rect_end o region ≡ true_end o region
unfolding rect_end
rect_end_true o region py pz hy hz h =
    rw (pred_mod region.y py hy, pred_mod region.z pz hz) (mod-eq_of_lt h)

-- A row of the rectangle ends where the whole ends, or before.
row_within :
    (o region : Size3) (z y : ℕ)
    → z < region.z
    → y < region.y
    → o.x + y * o.y + z * o.z + region.x ≤ true_end o region
row_within o region z y hz hy = omega (
  arith,
  mul_mono y (region.y - 1) o.y (omega arith),
  mul_mono z (region.z - 1) o.z (omega arith),
)

pub row_in_bounds :
    (m : Memory) (b : MemObject) (origin region : Size3) (row slice z y : ℕ)
    → Backed m b
    → Regular origin region row slice
    → rect_end (rect_offsets origin region row slice) region ≤ b.size
    → z < region.z
    → y < region.y
    → is_address_valid m (row_address b.address (rect_offsets origin region row slice) z y) region.x
      ≡ true
unfolding row_address
row_in_bounds m b origin region row slice z y back reg le hz hy =
    let o = rect_offsets origin region row slice in
    let ends =
      rect_end_true o region (omega arith) (omega arith) reg.few_rows reg.few_slices reg.end_fits in
    let within = row_within o region z y hz hy in
    let (fits, valid) = back (o.x + y * o.y + z * o.z) region.x (omega (arith, ends, within, le)) in
    let same : b.address + (o.x + y * o.y + z * o.z)
        ≡ (b.address + o.x + y * o.y + z * o.z) % size_mod =
      omega arith ∙ sym (mod-eq_of_lt (omega (arith, fits))) in
    subst (λ a. is_address_valid m a region.x ≡ true) same valid
