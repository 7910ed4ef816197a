-- ===== src/Memory/Ranges.antt =====
-- src/core/Memory.cpp: the ranges inside a live buffer are valid.
use native.Mathlib.Nat.{mod-eq_of_lt}
use oclgrind.Base.{
  ℕ, ◌+◌, ◌*◌, ◌/◌, ◌%◌, ◌^◌, ◌≤◌, ◌<◌, ◌≡◌, ◌≢◌, refl, sym, ap, ◌∙◌, subst, arith, true, ◌==◌,
  Option, some, List, overwrite, inl, inr, Bool-cases, ==_iff, length, get_elem?, get_elem?-lt,
  size_mod,
}
use oclgrind.Memory.{
  Memory, Buffer, Note, storing, notify, extract_buffer, extract_offset, slot, fits,
  is_address_valid, store, write_bytes, insert_buffer, allocate_buffer, create_host_buffer,
}
use oclgrind.Memory.Growth.{insert_buffer_cases}
use oclgrind.Memory.Access.{slot-get, slot-of-get, store_cases, checked-some, checked-notify}
use oclgrind.Memory.Contents.{
  slot-write_self, slot-write_ne, extract_buffer-write, extract_offset-write,
}
use oclgrind.Memory.Lifetime.{Allocated}
use oclgrind.Memory.Address.{span, max_size-lt}
use oclgrind.Memory.Invariant.{Wf}

-- Adding less than a block to the start of a block.
same_block : (a k w : ℕ) → a % w ≡ 0 → k < w → ((a + k) / w ≡ a / w) × ((a + k) % w ≡ k)
same_block a k w e h = (grind arith, grind arith)

block_end : (a k w n : ℕ) → a / w < n → a % w ≡ 0 → k < w → a + k < n * w
block_end a k w n h e lt = grind arith

fits_in :
    (b : Buffer) (offset n : ℕ) → (offset + n) % size_mod ≤ b.size → fits (some b) offset n ≡ true
unfolding fits
fits_in b offset n h = ground arith

valid_of_parts :
    (m : Memory) (a n i o : ℕ) (b : Buffer)
    → extract_buffer m a ≡ i
    → extract_offset m a ≡ o
    → slot m i ≡ some b
    → i ≢ 0
    → i < length m.memory
    → (o + n) % size_mod ≤ b.size
    → is_address_valid m a n ≡ true
unfolding is_address_valid
valid_of_parts m a n i o b ei eo live nz lt le =
    rw (ei, eo, live) (ground (arith, fits_in b o n le))

some_eq : {x y : Buffer} → some x ≡ some y → x ≡ y
some_eq e = cc e

pub live_range :
    (m : Memory) (a k n : ℕ) (b : Buffer)
    → Wf m
    → slot m (extract_buffer m a) ≡ some b
    → extract_buffer m a ≢ 0
    → extract_offset m a ≡ 0
    → b.size < m.max_buffer_size
    → k + n ≤ b.size
    → (a + k < size_mod) × (is_address_valid m (a + k) n ≡ true)
unfolding extract_buffer extract_offset
live_range m a k n b w live nz start small le =
    let width = 2 ^ m.num_bits_address in
    let inside : k < width = omega (arith, w.geometry.sizes) in
    let (block, offset) = same_block a k width start inside in
    let listed = get_elem?-lt m.memory (a / width) (slot-get m (a / width) live) in
    let few : a / width < 2 ^ m.num_bits_buffer =
      omega (arith, listed, w.count, w.geometry.limit) in
    let no_wrap_end : (k + n) % size_mod ≡ k + n =
      mod-eq_of_lt (omega (arith, le, small, max_size-lt m w.geometry)) in
    (
      omega
          (arith, block_end a k width (2 ^ m.num_bits_buffer) few start inside, span m w.geometry),
      valid_of_parts m (a + k) n (a / width) k b block offset live nz listed
          (omega (arith, le, no_wrap_end)),
    )

-- A live buffer of this size begins at the address.
abbrev pub Live : Memory → ℕ → ℕ → Type 0
Live m a size =
    (b : Buffer) × (slot m (extract_buffer m a) ≡ some b)
    × (b.size ≡ size)
    × (extract_buffer m a ≢ 0)
    × (extract_offset m a ≡ 0)

-- The buffer and the offset of an address in it.
pub Live-parts :
    (m : Memory) (a size k : ℕ)
    → Wf m
    → Live m a size
    → size < m.max_buffer_size
    → k < size
    → (extract_buffer m (a + k) ≡ extract_buffer m a) × (extract_offset m (a + k) ≡ k)
unfolding extract_buffer extract_offset
Live-parts m a size k w (b, live, s, nz, start) small lt =
    same_block a k (2 ^ m.num_bits_address) start (omega (arith, w.geometry.sizes))

pub Live-range :
    (m : Memory) (a size k n : ℕ)
    → Wf m
    → Live m a size
    → size < m.max_buffer_size
    → k + n ≤ size
    → (a + k < size_mod) × (is_address_valid m (a + k) n ≡ true)
Live-range m a size k n w (b, live, s, nz, start) small le =
    live_range m a k n b w live nz start (omega (arith, s, small)) (omega (arith, s, le))

pub Allocated-Live :
    (m m' : Memory) (buffer : Buffer) (address : ℕ)
    → Allocated m buffer (m', address)
    → address ≢ 0
    → Live m' address buffer.size
Allocated-Live m m' buffer address (inl h) nz = absurd (nz h.0)
Allocated-Live m m' buffer address (inr (i, _, number, start, inz, _, live, _, _)) nz = (
  buffer,
  subst (λ j. slot m' j ≡ some buffer) (sym number) live,
  refl,
  λ e. inz (sym number ∙ e),
  start,
)

pub store-Live :
    (m : Memory) (c : ℕ) (source : List ℕ) (a size : ℕ)
    → Live m a size
    → Live (store m c source).0 a size
store-Live m c source a size live =
    store_cases (λ r. Live r.0 a size) m c source (λ e. noted m _ live)
      λ b e.
        write-Live (notify m (storing c source)) b (noted m _ live)
          (checked-some (notify m (storing c source)) c (length source)
            (checked-notify m _ c (length source) ∙ e)).1
  where
    noted : (m : Memory) (n : Note) → Live m a size → Live (notify m n) a size
    noted m n h = unfold notify slot extract_buffer extract_offset in h

    write-Live :
        (m : Memory) (b : Buffer)
        → Live m a size
        → get_elem? m.memory (extract_buffer m c) ≡ some (some b)
        → Live (write_bytes m c b source) a size
    write-Live m b (d, live, s, nz, start) found =
        elim (Bool-cases (extract_buffer m c == extract_buffer m a)) [
          | inl e ↦
              let same : extract_buffer m c ≡ extract_buffer m a = (==_iff _ _).0 e in
              let there = slot-write_self m c b source (get_elem?-lt m.memory _ found) in
              let old : b ≡ d = some_eq (sym (slot-of-get m _ found) ∙ ap (slot m) same ∙ live) in
              (
                record b { bytes = overwrite b.bytes (extract_offset m c) source },
                subst
                    (λ j.
                      slot (write_bytes m c b source) j
                      ≡ some (record b { bytes = overwrite b.bytes (extract_offset m c) source }))
                    (same ∙ sym (extract_buffer-write m c b source a)) there,
                ap (λ x. x.size) old ∙ s,
                λ z. nz (sym (extract_buffer-write m c b source a) ∙ z),
                extract_offset-write m c b source a ∙ start,
              )
          | inr n ↦ (
            d,
            ap (slot (write_bytes m c b source)) (extract_buffer-write m c b source a)
                ∙ slot-write_ne m c _ b source (λ e. cc ((==_iff _ _).1 e, n))
                ∙ live,
            s,
            λ z. nz (sym (extract_buffer-write m c b source a) ∙ z),
            extract_offset-write m c b source a ∙ start,
          )
        ]

-- The size of the largest buffer is fixed.
pub store-max_size :
    (m : Memory) (c : ℕ) (source : List ℕ)
    → (store m c source).0.max_buffer_size ≡ m.max_buffer_size
unfolding notify write_bytes
store-max_size m c source =
    store_cases (λ r. r.0.max_buffer_size ≡ m.max_buffer_size) m c source (λ e. refl) (λ b e. refl)

insert-max_size :
    (m : Memory) (size flags : ℕ) (bytes : List ℕ) (source : Option (List ℕ))
    → Wf m
    → (insert_buffer m size flags bytes source).0.max_buffer_size ≡ m.max_buffer_size
unfolding notify
insert-max_size m size flags bytes source w =
    insert_buffer_cases (λ r. r.0.max_buffer_size ≡ m.max_buffer_size) m w size flags bytes source
      (λ _. refl) (λ _ _ _. refl) (λ _ _ _. refl) (λ _ _ _ _. refl)

pub allocate_buffer-max_size :
    (m : Memory) (size flags : ℕ) (source : Option (List ℕ))
    → Wf m
    → (allocate_buffer m size flags source).0.max_buffer_size ≡ m.max_buffer_size
unfolding allocate_buffer
allocate_buffer-max_size m size flags source w = insert-max_size m size flags _ source w

pub create_host_buffer-max_size :
    (m : Memory) (size flags : ℕ) (host : List ℕ)
    → Wf m
    → (create_host_buffer m size host flags).0.max_buffer_size ≡ m.max_buffer_size
unfolding create_host_buffer
create_host_buffer-max_size m size flags host w = insert-max_size m size flags host _ w
