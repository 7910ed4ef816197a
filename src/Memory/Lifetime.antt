-- ===== src/Memory/Lifetime.antt =====
-- src/core/Memory.cpp: what allocation and deallocation do to the address space.
use oclgrind.Base.{
  ℕ, zero, suc, ◌+◌, ◌-◌, ◌%◌, ◌^◌, ◌<◌, ◌≡◌, ◌≢◌, refl, sym, ap, ◌∙◌, subst, arith, true, false,
  Bool-cases, Option-cases, List, [], ◌∷◌, ◌++◌, Option, none, some, length, get_elem?, set,
  size_mod, inl, inr, ◌⊎◌, total, All, get_elem?-set_self, get_elem?-set_ne, get_elem?-lt,
  get_elem?_ge, get_elem?-append_length, pow-pos, unsigned_mod, leb, leb→le,
}
use native.Mathlib.Nat.{mod-eq_of_lt, pow-le-pow_right}
use oclgrind.Memory.{
  Memory, Buffer, slot, entry, extract_buffer, extract_offset, buffer_address, notify,
  allocate_buffer, create_host_buffer, initial_bytes, insert_buffer, deallocate_buffer,
  is_address_valid, fits, deallocated,
}
use oclgrind.Memory.Address.{
  Geometry, extract-buffer_address, extract_bounds, is_address_valid-slot,
}
use oclgrind.Memory.Access.{slot-get, slot-of-get}
use oclgrind.Memory.Growth.{insert_buffer_cases}
use oclgrind.Memory.Invariant.{Wf, IsFree, vacant, deallocate_buffer-Wf}

-- Every buffer number but 0 is in use.
abbrev pub IsFull : Memory → Type 0
IsFull m = (i : ℕ) → 0 < i → i < m.max_num_buffers → (b : Buffer) × (slot m i ≡ some b)

-- The two outcomes of an allocation.
abbrev pub Allocated : Memory → Buffer → Memory × ℕ → Type 0
Allocated m buffer (m', address) =
    ((address ≡ 0)
      × ((m.max_buffer_size < buffer.size) ⊎ IsFull m)
      × ((j : ℕ) → slot m' j ≡ slot m j))
    ⊎ ((i : ℕ) × (address ≢ 0)
        × (extract_buffer m' address ≡ i)
        × (extract_offset m' address ≡ 0)
        × (i ≢ 0)
        × (slot m i ≡ none)
        × (slot m' i ≡ some buffer)
        × ((j : ℕ) → i ≢ j → slot m' j ≡ slot m j)
        × (m'.total_allocated ≡ (m.total_allocated + buffer.size) % size_mod))

no_vacant :
    (bs : List (Option Buffer)) (i : ℕ)
    → total vacant bs ≡ 0
    → i < length bs
    → (b : Buffer) × (get_elem? bs i ≡ some (some b))
no_vacant [] i t h = absurd (omega arith)
no_vacant (none ∷ bs) i t h = absurd (omega arith)
no_vacant (some b ∷ bs) zero t h = (b, refl)
no_vacant (some b ∷ bs) (suc i) t h = no_vacant bs i (omega arith) (omega arith)

one_vacant :
    (bs : List (Option Buffer)) (i : ℕ)
    → get_elem? bs 0 ≡ some none
    → total vacant bs ≡ 1
    → 0 < i
    → i < length bs
    → (b : Buffer) × (get_elem? bs i ≡ some (some b))
one_vacant [] i z t p h = absurd (omega arith)
one_vacant (none ∷ bs) zero z t p h = absurd (omega arith)
one_vacant (none ∷ bs) (suc i) z t p h = no_vacant bs i (omega arith) (omega arith)
one_vacant (some b ∷ bs) i z t p h = cc

full_lem :
    (m : Memory) → Wf m → m.free_buffers ≡ [] → length m.memory ≡ m.max_num_buffers → IsFull m
full_lem m w e l i p h =
    let (b, live) =
      one_vacant m.memory i w.null (omega (arith, w.accounted, ap length e)) p (omega (arith, l)) in
    (b, slot-of-get m i live)

zero-extract : (m : Memory) → extract_buffer m 0 ≡ 0
unfolding extract_buffer
zero-extract m = omega (arith, pow-pos m.num_bits_address)

-- The address of a number in range is not null, and decodes to it.
address_of_slot :
    (m : Memory) (i : ℕ)
    → Geometry m
    → 0 < i
    → i < m.max_num_buffers
    → (buffer_address m i ≢ 0)
      × (extract_buffer m (buffer_address m i) ≡ i)
      × (extract_offset m (buffer_address m i) ≡ 0)
address_of_slot m i g p h =
    let (decoded, start) =
      extract-buffer_address m g i 0 (omega (arith, g.limit)) (pow-pos m.num_bits_address) in
    let plain : buffer_address m i + 0 ≡ buffer_address m i = omega arith in
    (
      λ z. absurd (omega (arith, zero_buffer, ap (extract_buffer m) z, rw plain at decoded)),
      rw plain at decoded,
      rw plain at start,
    )
  where
    zero_buffer : extract_buffer m 0 ≡ 0
    zero_buffer = zero-extract m

module _ (m : Memory) (size flags : ℕ) (bytes : List ℕ) (w : Wf m) where
  abbrev made : Buffer
  made = record { size = size; flags = flags; bytes = bytes }

  placed :
      (m' : Memory) (i : ℕ)
      → m'.num_bits_address ≡ m.num_bits_address
      → 0 < i
      → i < m.max_num_buffers
      → slot m i ≡ none
      → slot m' i ≡ some made
      → ((j : ℕ) → i ≢ j → slot m' j ≡ slot m j)
      → m'.total_allocated ≡ (m.total_allocated + size) % size_mod
      → Allocated m made (m', buffer_address m i)
  placed m' i bits p h empty live others t =
      let (nz, decoded, start) = address_of_slot m i w.geometry p h in
      inr (
        i,
        nz,
        unfold extract_buffer in rw bits decoded,
        unfold extract_offset in rw bits start,
        λ z. absurd (omega arith),
        empty,
        live,
        others,
        t,
      )

  insert_buffer_lem :
      (source : Option (List ℕ)) → Allocated m made (insert_buffer m size flags bytes source)
  unfolding notify slot
  insert_buffer_lem source =
      insert_buffer_cases (Allocated m made) m w size flags bytes source
        (λ big. inl (refl, inl big, λ j. refl))
        (λ _ e l. inl (refl, inr (full_lem m w e l), λ j. refl))
        (λ s e room.
          placed _ (length m.memory) refl (get_elem?-lt m.memory 0 w.null) room
            (rw (get_elem?_ge m.memory (length m.memory) (omega arith)))
            (rw (get_elem?-append_length m.memory (some made) []))
            (λ j ne. append_other m.memory j ne) refl)
        (λ i rest s e.
          let free = (subst (All (IsFree m.memory)) e w.free).0 in
          placed _ i refl free.0 (omega (arith, get_elem?-lt m.memory i free.1, w.count))
            (rw free.1)
            (rw (get_elem?-set_self m.memory i (some made) (get_elem?-lt m.memory i free.1)))
            (λ j ne. rw (get_elem?-set_ne m.memory i j (some made) ne)) refl)
    where
      append_other :
          (bs : List (Option Buffer)) (j : ℕ)
          → length bs ≢ j
          → entry (get_elem? (bs ++ some made ∷ []) j) ≡ entry (get_elem? bs j)
      append_other [] zero ne = absurd (ne refl)
      append_other [] (suc j) ne = refl
      append_other (x ∷ bs) zero ne = refl
      append_other (x ∷ bs) (suc j) ne = append_other bs j (λ e. ne (ap suc e))

-- In a well-formed memory, an allocation either returns 0 and leaves every slot alone, and then the buffer is
-- too large or every number is in use; or it returns a non-zero address that decodes to offset 0 of a slot
-- that was empty and now holds the buffer with its initial bytes, all other slots are as before, and the
-- total rises by the size.
pub allocate_buffer_lem :
    (m : Memory) (size flags : ℕ) (source : Option (List ℕ))
    → Wf m
    → Allocated m
        (record { size = size; flags = flags; bytes = initial_bytes size source })
        (allocate_buffer m size flags source)
unfolding allocate_buffer
allocate_buffer_lem m size flags source w =
    insert_buffer_lem m size flags (initial_bytes size source) w source

pub invalid_of_empty :
    (m : Memory) (c n : ℕ) → slot m (extract_buffer m c) ≡ none → is_address_valid m c n ≡ false
invalid_of_empty m c n e = elim (Bool-cases (is_address_valid m c n)) [
  | inl v ↦ let (b, live, _, _) = is_address_valid-slot m c n v in cc
  | inr v ↦ v
]

-- The effect of a deallocation at this address.
abbrev pub Freed : Memory → ℕ → Memory → Type 0
Freed m address m' =
    ((c n : ℕ) → extract_buffer m c ≡ extract_buffer m address → is_address_valid m' c n ≡ false)
    × ((j : ℕ) → extract_buffer m address ≢ j → slot m' j ≡ slot m j)
    × (m'.free_buffers ≡ m.free_buffers ++ extract_buffer m address ∷ [])

-- The state in which buffer `i` is freed by its address.
abbrev pub released : Memory → ℕ → ℕ → Buffer → Memory
released m address i b =
    notify
      (record m {
        total_allocated = (m.total_allocated + size_mod - b.size) % size_mod;
        free_buffers = m.free_buffers ++ i ∷ [];
        memory = set m.memory i none;
      })
      (deallocated address)

freed_lem :
    (m : Memory) (address i : ℕ) (b : Buffer)
    → extract_buffer m address ≡ i
    → get_elem? m.memory i ≡ some (some b)
    → Freed m address (released m address i b)
unfolding notify slot extract_buffer
freed_lem m address i b d live = (
  λ c n same.
      invalid_of_empty _ c n
        (rw (same ∙ d, get_elem?-set_self m.memory i none (get_elem?-lt m.memory i live))),
  λ j ne. rw (get_elem?-set_ne m.memory i j none (λ e. ne (d ∙ e))),
  rw d,
)

small_buffer :
    (m : Memory) (address : ℕ)
    → Wf m
    → address < size_mod
    → extract_buffer m address % unsigned_mod ≡ extract_buffer m address
small_buffer m address w lt = mod-eq_of_lt (
    omega (
      arith,
      (extract_bounds m w.geometry address lt).0,
      pow-le-pow_right {n = 2} (omega arith) w.geometry.few_bits,
    ))

-- In a well-formed memory, after a deallocation that succeeds no range of the buffer is valid, every other
-- slot is as before, and the number stands last in the queue of free ones.
pub deallocate_buffer_lem :
    (m m' : Memory) (address : ℕ)
    → Wf m
    → address < size_mod
    → deallocate_buffer m address ≡ some m'
    → Freed m address m'
unfolding deallocate_buffer
deallocate_buffer_lem m m' address w lt h =
    elim (Option-cases (slot m (extract_buffer m address % 2 ^ 32))) [
      | inl e ↦ absurd (ground arith)
      | inr (b, e) ↦
          subst (Freed m address) (ground arith)
            (freed_lem m address _ b (sym (small_buffer m address w lt)) (slot-get m _ e))
    ]

-- It succeeds for the address of any byte of a live buffer.
pub deallocate_buffer_live :
    (m : Memory) (address : ℕ) (b : Buffer)
    → Wf m
    → address < size_mod
    → slot m (extract_buffer m address) ≡ some b
    → deallocate_buffer m address ≡ some (released m address (extract_buffer m address) b)
unfolding deallocate_buffer
deallocate_buffer_live m address b w lt e =
    rw (small_buffer m address w lt, e, deallocate_buffer)
      (ap (λ i. some (released m address i b)) (small_buffer m address w lt))

-- The bounds check adds offset and size in `size_t`: in a live buffer, at a non-zero offset, a size that
-- reaches exactly round to 0 passes, whatever the buffer's size.
pub is_address_valid_wraps :
    (m : Memory) (a : ℕ) (b : Buffer)
    → slot m (extract_buffer m a) ≡ some b
    → extract_buffer m a ≢ 0
    → 0 < extract_offset m a
    → extract_offset m a < size_mod
    → is_address_valid m a (size_mod - extract_offset m a) ≡ true
unfolding is_address_valid fits
is_address_valid_wraps m a b e nz pos lt =
    elim (Bool-cases (leb (length m.memory) (extract_buffer m a))) [
      | inl out ↦ absurd (omega (arith, get_elem?-lt m.memory _ (slot-get m _ e), leb→le _ _ out))
      | inr within ↦ ground (arith, e, nz, within)
    ]

pub create_host_buffer_lem :
    (m : Memory) (size flags : ℕ) (host : List ℕ)
    → Wf m
    → Allocated m
        (record { size = size; flags = flags; bytes = host })
        (create_host_buffer m size host flags)
unfolding create_host_buffer
create_host_buffer_lem m size flags host w = insert_buffer_lem m size flags host w (some host)

-- One deallocation in a sequence of them: the slot is empty then, the others and the layout are as before.
pub record Deallocated (m : Memory) (address : ℕ) (m' : Memory) : Type 0 where
  pub is_done : deallocate_buffer m address ≡ some m'
  pub still_wf : Wf m'
  pub same_layout : (c : ℕ) → extract_buffer m' c ≡ extract_buffer m c
  pub is_empty : slot m' (extract_buffer m address) ≡ none
  pub others : (j : ℕ) → extract_buffer m address ≢ j → slot m' j ≡ slot m j

pub deallocate_buffer-Deallocated :
    (m : Memory) (address : ℕ) (b : Buffer)
    → Wf m
    → address < size_mod
    → slot m (extract_buffer m address) ≡ some b
    → Deallocated m address (released m address (extract_buffer m address) b)
unfolding notify slot extract_buffer
deallocate_buffer-Deallocated m address b w lt e =
    let done = deallocate_buffer_live m address b w lt e in
    record {
      is_done = done;
      still_wf = deallocate_buffer-Wf m _ address w done;
      same_layout = λ c. refl;
      is_empty =
          rw
            (get_elem?-set_self m.memory (extract_buffer m address) none
              (get_elem?-lt m.memory (extract_buffer m address) (slot-get m _ e)))
            refl;
      others = (freed_lem m address (extract_buffer m address) b refl (slot-get m _ e)).1;
    }
