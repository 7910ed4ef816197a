-- ===== src/Memory/Access.antt =====
-- The outcomes of the checked accesses of src/core/Memory.cpp, as rules for proofs.
use oclgrind.Base.{
  ℕ, ◌+◌, ◌%◌, ◌≤◌, ◌≡◌, ◌≢◌, refl, arith, Bool, true, false, Bool-cases, Option-cases, List,
  Option, none, some, length, get_elem?, size_mod, inl, inr, slice,
}
use oclgrind.Memory.{
  Memory, Buffer, Note, loading, storing, slot, extract_buffer, extract_offset, notify, checked,
  is_address_valid, write_bytes, store, load, copy_to,
}
use oclgrind.Memory.Address.{Geometry, is_address_valid-slot, no_wrap}

pub slot-get :
    (m : Memory) (b : ℕ) {buffer : Buffer}
    → slot m b ≡ some buffer
    → get_elem? m.memory b ≡ some (some buffer)
unfolding slot
slot-get m b h = ground arith

pub slot-of-get :
    (m : Memory) (b : ℕ) {buffer : Buffer}
    → get_elem? m.memory b ≡ some (some buffer)
    → slot m b ≡ some buffer
unfolding slot
slot-of-get m b h = rw h

-- Notifications do not change what an access finds.
pub checked-notify :
    (m : Memory) (n : Note) (a size : ℕ) → checked (notify m n) a size ≡ checked m a size
unfolding checked notify is_address_valid slot extract_buffer extract_offset
checked-notify m n a size = refl

pub checked-some :
    (m : Memory) (a n : ℕ) {b : Buffer}
    → checked m a n ≡ some b
    → (is_address_valid m a n ≡ true)
      × (get_elem? m.memory (extract_buffer m a) ≡ some (some b))
      × (extract_buffer m a ≢ 0)
      × ((extract_offset m a + n) % size_mod ≤ b.size)
unfolding checked
checked-some m a n {b} h = elim (Bool-cases (is_address_valid m a n)) [
  | inl v ↦
      let (c, e, nz, le) = is_address_valid-slot m a n v in
      let same : c ≡ b = ground arith in (v, slot-get m _ (ground arith), nz, rw (← same) le)
  | inr v ↦ absurd (ground arith)
]

-- An access of a size that a buffer can have lies inside the buffer.
pub checked-within :
    (m : Memory) (a n : ℕ) {b : Buffer}
    → Geometry m
    → n ≤ m.max_buffer_size
    → checked m a n ≡ some b
    → extract_offset m a + n ≤ b.size
checked-within m a n g h e = omega (arith, (checked-some m a n e).3, no_wrap m g a n h)

-- The check fails exactly if no buffer is found.
pub checked-none : (m : Memory) (a n : ℕ) → checked m a n ≡ none → is_address_valid m a n ≡ false
unfolding checked
checked-none m a n h = elim (Bool-cases (is_address_valid m a n)) [
  | inl v ↦ let (c, e, _, _) = is_address_valid-slot m a n v in absurd (ground arith)
  | inr v ↦ v
]

module _ {ℓ} (P : Memory × Bool → Type ℓ) (m : Memory) (address : ℕ) (source : List ℕ) where
  pub store_cases :
      (checked m address (length source) ≡ none → P (notify m (storing address source), false))
      → ((b : Buffer)
          → checked m address (length source) ≡ some b
          → P (write_bytes (notify m (storing address source)) address b source, true))
      → P (store m address source)
  unfolding store
  store_cases invalid valid = elim (Option-cases (checked m address (length source))) [
    | inl e ↦
        rw (checked-notify m (storing address source) address (length source), e, store) (invalid e)
    | inr (b, e) ↦
        rw (checked-notify m (storing address source) address (length source), e, store) (valid b e)
  ]

  pub copy_to_cases :
      (size : ℕ)
      → (checked m address size ≡ none → P (notify m (storing address source), false))
      → ((b : Buffer)
          → checked m address size ≡ some b
          → P (write_bytes (notify m (storing address source)) address b source, true))
      → P (copy_to m address source size)
  unfolding copy_to
  copy_to_cases size invalid valid = elim (Option-cases (checked m address size)) [
    | inl e ↦ rw (checked-notify m (storing address source) address size, e, copy_to) (invalid e)
    | inr (b, e) ↦
        rw (checked-notify m (storing address source) address size, e, copy_to) (valid b e)
  ]

module _ {ℓ} (P : Memory × Option (List ℕ) → Type ℓ) (m : Memory) (address size : ℕ) where
  pub load_cases :
      (checked m address size ≡ none → P (notify m (loading address size), none))
      → ((b : Buffer)
          → checked m address size ≡ some b
          → P (
            notify m (loading address size),
            some (slice (extract_offset m address) size b.bytes),
          ))
      → P (load m address size)
  unfolding load
  load_cases invalid valid = elim (Option-cases (checked m address size)) [
    | inl e ↦ rw (checked-notify m (loading address size) address size, e, load) (invalid e)
    | inr (b, e) ↦ rw (checked-notify m (loading address size) address size, e, load) (valid b e)
  ]
