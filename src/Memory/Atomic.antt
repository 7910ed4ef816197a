-- ===== src/Memory/Atomic.antt =====
-- src/core/Memory.cpp: `atomic` and `atomicCmpxchg`, at the types of their instantiations.
-- Each is one step: the bank of mutexes that makes it one between threads is not part of the state.
mod Cases
pub mod Laws
pub mod Sums
mod Examples
use Prim.Native.Nat.{bit_and, bit_or, bit_xor}
use oclgrind.Base.{
  ℕ, ◌+◌, ◌-◌, ◌/◌, ◌%◌, ◌^◌, ◌==◌, if◌then◌else◌, ltb, Bool, true, false, Option, none, some,
  slice, of_bytes, to_bytes,
}
use oclgrind.Memory.{
  Memory, Buffer, AtomicOp, add, and, cmp_xchg, dec, inc, max, min, or, sub, xchg, xor,
  atomic_loading, atomic_storing, notify, checked, extract_offset, write_bytes,
}

-- A type of 4 or 8 bytes. A value is its bit pattern.
pub record Word : Type 0 where
  pub size : ℕ
  pub signed : Bool

abbrev pub int32 : Word
int32 = record { size = 4; signed = true }

abbrev pub uint32 : Word
uint32 = record { size = 4; signed = false }

abbrev pub int64 : Word
int64 = record { size = 8; signed = true }

abbrev pub uint64 : Word
uint64 = record { size = 8; signed = false }

-- The number of bit patterns.
abbrev pub modulus : Word → ℕ
modulus t = 256 ^ t.size

-- `a < b` in the type: for a signed one, adding half the modulus maps the order to the unsigned one.
less : Word → ℕ → ℕ → Bool
less t a b =
    if t.signed
    then ltb ((a + modulus t / 2) % modulus t) ((b + modulus t / 2) % modulus t)
    else ltb a b

-- The new content of `*ptr`; `none` is the fatal error.
pub apply : Word → AtomicOp → ℕ → ℕ → Option ℕ
unfolding less
apply t add old value = some ((old + value) % modulus t)
apply t and old value = some (bit_and old value)
apply t cmp_xchg old value = none
apply t dec old value = some ((old + modulus t - 1) % modulus t)
apply t inc old value = some ((old + 1) % modulus t)
apply t max old value = some (if less t value old then old else value)
apply t min old value = some (if less t old value then old else value)
apply t or old value = some (bit_or old value)
apply t sub old value = some ((old + modulus t - value) % modulus t)
apply t xchg old value = some value
apply t xor old value = some (bit_xor old value)

-- `*ptr` where `ptr` is of the type `t*`, on a little-endian host.
pub read_word : Memory → Word → ℕ → Buffer → ℕ
read_word m t address b = of_bytes (slice (extract_offset m address) t.size b.bytes)

pub write_word : Memory → Word → ℕ → Buffer → ℕ → Memory
write_word m t address b value = write_bytes m address b (to_bytes t.size value)

-- The old value, or 0 for an invalid address; `none` is the fatal error.
pub atomic : Memory → Word → AtomicOp → ℕ → ℕ → Option (Memory × ℕ)
atomic m t op address value =
    let m' =
      notify (notify m (atomic_loading op address t.size)) (atomic_storing op address t.size) in
    elim (checked m' address t.size) [
      | none ↦ some (m', 0)
      | some b ↦ elim (apply t op (read_word m t address b) value) [
        | none ↦ none
        | some new ↦ some (write_word m' t address b new, read_word m t address b)
      ]
    ]

-- The store is notified after the write, and only if it takes place.
pub atomic_cmpxchg : Memory → Word → ℕ → ℕ → ℕ → Memory × ℕ
atomic_cmpxchg m t address cmp value =
    let m' = notify m (atomic_loading cmp_xchg address t.size) in
    elim (checked m' address t.size) [
      | none ↦ (m', 0)
      | some b ↦
          let old = read_word m t address b in
          if old == cmp
          then (
            notify (write_word m' t address b value) (atomic_storing cmp_xchg address t.size),
            old,
          )
          else (m', old)
    ]
