-- ===== src/Memory/Contents.antt =====
-- src/core/Memory.cpp: what `load` reads after `store` and `copy`.
use oclgrind.Base.{
  ℕ, ◌+◌, ◌%◌, ◌≤◌, ◌<◌, ◌≡◌, ◌≢◌, refl, ap, arith, ◌==◌, leb, true, false, Bool-cases,
  Option-cases, List, Option, none, some, length, get_elem?, size_mod, inl, inr, slice, ◌⊎◌,
  overwrite, slice-overwrite, slice-overwrite_below, slice-overwrite_above, if◌then◌else◌, All-get,
  get_elem?-set_self, get_elem?-set_ne, get_elem?-lt, leb→le, le→leb,
}
use native.Mathlib.Decide.{ℕ_discrete}
use oclgrind.Memory.{
  Memory, Buffer, slot, extract_buffer, extract_offset, checked, is_address_valid, write_bytes,
  load, fits,
}
use oclgrind.Memory.Access.{slot-get, slot-of-get, checked-some, checked-within, load_cases}
use oclgrind.Memory.Invariant.{Wf}

-- The access check as a function of the slot alone.
abbrev pub access_of : Option Buffer → ℕ → ℕ → Option Buffer
access_of none offset n = none
access_of (some b) offset n = if leb ((offset + n) % size_mod) b.size then some b else none

pub checked_lem :
    (m : Memory) (a n : ℕ)
    → checked m a n ≡ (
        if extract_buffer m a == 0
        then none
        else access_of (slot m (extract_buffer m a)) (extract_offset m a) n)
unfolding checked is_address_valid fits
checked_lem m a n = elim (Bool-cases (leb (length m.memory) (extract_buffer m a))) [
  | inl out ↦ elim (Option-cases (slot m (extract_buffer m a))) [
    | inl e ↦ ground arith
    | inr (b, e) ↦ absurd (omega (arith, get_elem?-lt m.memory _ (slot-some m _ e), leb→le _ _ out))
  ]
  | inr within ↦ elim (Option-cases (slot m (extract_buffer m a))) [
    | inl e ↦ ground arith
    | inr (b, e) ↦ ground arith
  ]
]
  where
    slot-some :
        (m : Memory) (i : ℕ) {b : Buffer} → slot m i ≡ some b → get_elem? m.memory i ≡ some (some b)
    slot-some m i e = slot-get m i e

abbrev pub read_of : Option Buffer → ℕ → ℕ → Option (List ℕ)
read_of none offset n = none
read_of (some b) offset n = some (slice offset n b.bytes)

-- The bytes that `load` delivers.
pub load_result :
    (m : Memory) (a n : ℕ) → (load m a n).1 ≡ read_of (checked m a n) (extract_offset m a) n
load_result m a n =
    load_cases (λ r. r.1 ≡ read_of (checked m a n) (extract_offset m a) n) m a n (λ e. rw e)
      (λ b e. rw e)

pub slot-write_self :
    (m : Memory) (a : ℕ) (b : Buffer) (source : List ℕ)
    → extract_buffer m a < length m.memory
    → slot (write_bytes m a b source) (extract_buffer m a)
      ≡ some (record b { bytes = overwrite b.bytes (extract_offset m a) source })
unfolding write_bytes slot
slot-write_self m a b source h = rw (get_elem?-set_self m.memory _ _ h)

pub slot-write_ne :
    (m : Memory) (a j : ℕ) (b : Buffer) (source : List ℕ)
    → extract_buffer m a ≢ j
    → slot (write_bytes m a b source) j ≡ slot m j
unfolding write_bytes slot
slot-write_ne m a j b source h = rw (get_elem?-set_ne m.memory _ j _ h)

-- Two accesses that share no byte.
abbrev pub Apart : Memory → ℕ → ℕ → ℕ → ℕ → Type 0
Apart m a n c k =
    (extract_buffer m a ≢ extract_buffer m c)
    ⊎ ((extract_offset m a + n ≤ extract_offset m c)
        ⊎ (extract_offset m c + k ≤ extract_offset m a))

module _ (m : Memory) (a : ℕ) (b : Buffer) (source : List ℕ) where
  pub extract_buffer-write :
      (c : ℕ) → extract_buffer (write_bytes m a b source) c ≡ extract_buffer m c
  unfolding write_bytes extract_buffer
  extract_buffer-write c = refl

  pub extract_offset-write :
      (c : ℕ) → extract_offset (write_bytes m a b source) c ≡ extract_offset m c
  unfolding write_bytes extract_offset
  extract_offset-write c = refl

  abbrev new : Buffer
  new = record b { bytes = overwrite b.bytes (extract_offset m a) source }

  -- An access to the written buffer finds it, with its new bytes.
  checked-write_self :
      (n : ℕ) (c k : ℕ)
      → checked m a n ≡ some b
      → extract_buffer m a ≡ extract_buffer m c
      → checked (write_bytes m a b source) c k ≡ access_of (some new) (extract_offset m c) k
  checked-write_self n c k e same =
      let (_, live, nz, _) = checked-some m a n e in
      simp (
        checked_lem,
        extract_buffer-write,
        extract_offset-write,
        ← same,
        slot-write_self m a b source (get_elem?-lt m.memory _ live),
        zero_test _ nz,
      )
    where
      zero_test : (i : ℕ) → i ≢ 0 → (i == 0) ≡ false
      zero_test i h = ground arith

  checked-write_ne :
      (c k : ℕ)
      → extract_buffer m a ≢ extract_buffer m c
      → checked (write_bytes m a b source) c k ≡ checked m c k
  checked-write_ne c k ne = simp (
    checked_lem,
    extract_buffer-write,
    extract_offset-write,
    slot-write_ne m a (extract_buffer m c) b source ne,
  )

  -- The bytes that were written are read back.
  pub load-write_self :
      Wf m
      → length source ≤ m.max_buffer_size
      → checked m a (length source) ≡ some b
      → (load (write_bytes m a b source) a (length source)).1 ≡ some source
  load-write_self w h e =
      rw
        (
          load_result,
          checked-write_self (length source) a (length source) e refl,
          extract_offset-write,
        )
        (rw within (ap some (slice-overwrite b.bytes _ source (omega (arith, fits_in, bytes)))))
    where
      fits_in : extract_offset m a + length source ≤ b.size
      fits_in = checked-within m a (length source) w.geometry h e

      bytes : length b.bytes ≡ b.size
      bytes = (All-get _ m.memory _ w.slots (checked-some m a (length source) e).1).0

      within : leb ((extract_offset m a + length source) % size_mod) b.size ≡ true
      within = le→leb _ _ (checked-some m a (length source) e).3

  same_slice :
      (o k : ℕ)
      → slice o k new.bytes ≡ slice o k b.bytes
      → read_of (access_of (some new) o k) o k ≡ read_of (access_of (some b) o k) o k
  same_slice o k e = elim (Bool-cases (leb ((o + k) % size_mod) b.size)) [
    | inl t ↦ rw (t, e)
    | inr t ↦ rw t
  ]

  checked_same :
      (n c k : ℕ)
      → checked m a n ≡ some b
      → extract_buffer m a ≡ extract_buffer m c
      → checked m c k ≡ access_of (some b) (extract_offset m c) k
  checked_same n c k e same =
      let (_, live, nz, _) = checked-some m a n e in
      simp (checked_lem, ← same, entry_some live, zero_test _ nz)
    where
      zero_test : (i : ℕ) → i ≢ 0 → (i == 0) ≡ false
      zero_test i h = ground arith

      entry_some :
          get_elem? m.memory (extract_buffer m a) ≡ some (some b)
          → slot m (extract_buffer m a) ≡ some b
      entry_some h = slot-of-get m _ h

  load-write_ne :
      (c k : ℕ)
      → extract_buffer m a ≢ extract_buffer m c
      → (load (write_bytes m a b source) c k).1 ≡ (load m c k).1
  load-write_ne c k ne = simp (load_result, checked-write_ne c k ne, extract_offset-write)

  -- Bytes apart from the write are read as before.
  pub load-write-Apart :
      (n c k : ℕ)
      → n ≡ length source
      → checked m a n ≡ some b
      → Apart m a n c k
      → (load (write_bytes m a b source) c k).1 ≡ (load m c k).1
  load-write-Apart n c k l e (inl ne) = load-write_ne c k ne
  load-write-Apart n c k l e (inr apart) =
      elim (ℕ_discrete (extract_buffer m a) (extract_buffer m c)) [
        | no ne ↦ load-write_ne c k ne
        | yes same ↦
            simp
              (
                load_result,
                checked-write_self n c k e same,
                checked_same n c k e same,
                extract_offset-write,
              )
              (same_slice _ k (kept apart))
      ]
    where
      kept :
          (extract_offset m a + n ≤ extract_offset m c)
            ⊎ (extract_offset m c + k ≤ extract_offset m a)
          → slice (extract_offset m c) k new.bytes ≡ slice (extract_offset m c) k b.bytes
      kept (inl after) = slice-overwrite_above b.bytes _ _ k source (omega arith)
      kept (inr before) = slice-overwrite_below b.bytes _ _ k source before
