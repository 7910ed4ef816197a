-- ===== src/Memory/Address.antt =====
-- Decoding of addresses, and what a valid access says of the buffer that it lies in.
use native.Mathlib.Nat.{mod-eq_of_lt, pow-suc}
use oclgrind.Base.{
  ℕ, zero, suc, ◌+◌, ◌-◌, ◌*◌, ◌/◌, ◌%◌, ◌^◌, ◌≤◌, ◌<◌, ◌≡◌, ◌≢◌, arith, true, Option-cases, some,
  size_mod, pow-pos, pow-add, inl, inr, sym, ◌∙◌, ap, subst,
}
use oclgrind.Memory.{
  Memory, Buffer, slot, extract_buffer, extract_offset, buffer_address, is_address_valid, fits,
}

-- The two fields of an address have 64 bits together.
pub record IsGeometry (bits_buffer bits_address buffers max_size : ℕ) : Type 0 where
  pub some_bits : 1 ≤ bits_buffer
  pub few_bits : bits_buffer ≤ 32
  pub rest : bits_address ≡ 64 - bits_buffer
  pub limit : buffers ≡ 2 ^ bits_buffer - 1
  pub sizes : max_size ≡ 2 ^ bits_address

abbrev pub Geometry : Memory → Type 0
Geometry m = IsGeometry m.num_bits_buffer m.num_bits_address m.max_num_buffers m.max_buffer_size

-- Division with remainder of a number that is written out.
div-mul-add : (b o k : ℕ) → o < k → (b * k + o) / k ≡ b
div-mul-add b o k h = grind arith

mod-mul-add : (b o k : ℕ) → o < k → (b * k + o) % k ≡ o
mod-mul-add b o k h = grind arith

div-lt_of_lt-mul : (a n k : ℕ) → a < n * k → 0 < k → a / k < n
div-lt_of_lt-mul a n k h p = grind arith

div-mod-join : (a k : ℕ) → 0 < k → a / k * k + a % k ≡ a
div-mod-join a k p = grind arith

mul_ge_double : (n k : ℕ) → 2 ≤ n → k + k ≤ n * k
mul_ge_double n k h = grind arith

mul-lt_of_lt : (b n k : ℕ) → b < n → 0 < k → b * k < n * k
mul-lt_of_lt b n k h p = grind arith

pow-eq : (a b : ℕ) → a ≡ b → 2 ^ a ≡ 2 ^ b
pow-eq a b e = ap (λ k. 2 ^ k) e

pub two-le-pow : (n : ℕ) → 1 ≤ n → 2 ≤ 2 ^ n
two-le-pow zero h = absurd (omega arith)
two-le-pow (suc n) h = omega (arith, pow-suc 2 n, pow-pos n)

module _ (m : Memory) (g : Geometry m) where
  pub span : 2 ^ m.num_bits_buffer * 2 ^ m.num_bits_address ≡ size_mod
  span =
      sym (pow-add m.num_bits_buffer m.num_bits_address)
      ∙ pow-eq (m.num_bits_buffer + m.num_bits_address) 64 (omega arith)

  pub buffer_address_lem :
      (b : ℕ) → b < 2 ^ m.num_bits_buffer → buffer_address m b ≡ b * 2 ^ m.num_bits_address
  unfolding buffer_address
  buffer_address_lem b h = mod-eq_of_lt (
      subst (λ n. b * 2 ^ m.num_bits_address < n) span
        (mul-lt_of_lt b _ _ h (pow-pos m.num_bits_address)))

  -- An address that is put together from a buffer number and an offset decodes to them.
  pub extract-buffer_address :
      (b o : ℕ)
      → b < 2 ^ m.num_bits_buffer
      → o < 2 ^ m.num_bits_address
      → (extract_buffer m (buffer_address m b + o) ≡ b)
        × (extract_offset m (buffer_address m b + o) ≡ o)
  unfolding extract_buffer extract_offset
  extract-buffer_address b o h k =
      rw (buffer_address_lem b h) (div-mul-add b o _ k, mod-mul-add b o _ k)

  -- With the split of addresses into two fields that `Geometry` states, every address of `size_t` decodes
  -- to fields in range, and is put together from them again.
  pub extract_bounds :
      (a : ℕ)
      → a < size_mod
      → (extract_buffer m a < 2 ^ m.num_bits_buffer)
        × (extract_offset m a < 2 ^ m.num_bits_address)
        × (buffer_address m (extract_buffer m a) + extract_offset m a ≡ a)
  unfolding extract_buffer extract_offset
  extract_bounds a h =
      let k = 2 ^ m.num_bits_address in
      let below : a / k < 2 ^ m.num_bits_buffer =
        div-lt_of_lt-mul a _ k (subst (λ n. a < n) (sym span) h) (pow-pos m.num_bits_address) in
      (
        below,
        omega (arith, pow-pos m.num_bits_address),
        rw (buffer_address_lem (a / k) below) (div-mod-join a k (pow-pos m.num_bits_address)),
      )

  -- A buffer is shorter than the address space.
  pub max_size-lt : m.max_buffer_size + m.max_buffer_size ≤ size_mod
  max_size-lt = omega (
    arith,
    span,
    mul_ge_double (2 ^ m.num_bits_buffer) (2 ^ m.num_bits_address)
        (two-le-pow m.num_bits_buffer g.some_bits),
  )

  -- The end of an access of a size that a buffer can have does not wrap.
  pub no_wrap :
      (a n : ℕ)
      → n ≤ m.max_buffer_size
      → (extract_offset m a + n) % size_mod ≡ extract_offset m a + n
  unfolding extract_offset
  no_wrap a n h = mod-eq_of_lt (omega (arith, max_size-lt, pow-pos m.num_bits_address, offset_lt))
    where
      offset_lt : a % 2 ^ m.num_bits_address < 2 ^ m.num_bits_address
      offset_lt = omega (arith, pow-pos m.num_bits_address)

-- What the bounds check has found where it passes.
pub is_address_valid-slot :
    (m : Memory) (a n : ℕ)
    → is_address_valid m a n ≡ true
    → (b : Buffer) × (slot m (extract_buffer m a) ≡ some b)
      × (extract_buffer m a ≢ 0)
      × ((extract_offset m a + n) % size_mod ≤ b.size)
unfolding is_address_valid fits
is_address_valid-slot m a n h = elim (Option-cases (slot m (extract_buffer m a))) [
  | inl e ↦ absurd (ground arith)
  | inr (b, e) ↦ (b, e, ground arith, ground arith)
]
