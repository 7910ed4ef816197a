-- ===== src/Memory.antt =====
-- src/core/Memory.cpp and Memory.h: a simulated address space.
-- An address is a buffer number in the high bits and an offset in the low bits. Buffer 0 is the null
-- buffer; freed numbers are handed out again in the order in which they were freed.
mod Address
mod Access
pub mod Growth
pub mod Updates
pub mod Ranges
pub mod Contents
pub mod Store
pub mod Lifetime
pub mod History
pub mod Examples
pub mod Atomic
pub mod Invariant
use oclgrind.Base.{
  ℕ, suc, ◌+◌, ◌-◌, ◌*◌, ◌/◌, ◌%◌, ◌^◌, ◌==◌, if◌then◌else◌, ltb, leb, Bool, true, false, ◌||◌,
  Option, none, some, List, [], ◌∷◌, ◌++◌, length, get_elem?, set, replicate, slice, overwrite,
  size_mod, unsigned_mod,
}

pub data AddressSpace : Type 0 where
  private_space global_space constant_space local_space : AddressSpace

pub data AtomicOp : Type 0 where
  add and cmp_xchg dec inc max min or sub xchg xor : AtomicOp

-- `data[0]` to `data[size - 1]` are the list `bytes`.
pub record Buffer : Type 0 where
  pub size : ℕ
  pub flags : ℕ
  pub bytes : List ℕ

-- What the context is told, for its plugins.
pub data Note : Type 0 where
  allocated : (address size flags : ℕ) (init_data : Option (List ℕ)) → Note
  deallocated : (address : ℕ) → Note
  loading : (address size : ℕ) → Note
  storing : (address : ℕ) (source : List ℕ) → Note
  atomic_loading : (op : AtomicOp) (address size : ℕ) → Note
  atomic_storing : (op : AtomicOp) (address size : ℕ) → Note

-- `notes` holds the calls of the context's notify functions, the newest first.
pub record Memory : Type 0 where
  pub address_space : AddressSpace
  pub num_bits_buffer : ℕ
  pub num_bits_address : ℕ
  pub max_num_buffers : ℕ
  pub max_buffer_size : ℕ
  pub memory : List (Option Buffer)
  pub free_buffers : List ℕ
  pub total_allocated : ℕ
  pub notes : List Note

pub notify : Memory → Note → Memory
notify m n = record m { notes = n ∷ m.notes }

unfoldable pub extract_buffer : Memory → ℕ → ℕ
extract_buffer m address = address / 2 ^ m.num_bits_address

-- The mask `(size_t)-1 >> m_numBitsBuffer` keeps the low `m_numBitsAddress` bits.
unfoldable pub extract_offset : Memory → ℕ → ℕ
extract_offset m address = address % 2 ^ m.num_bits_address

-- `((size_t)b) << m_numBitsAddress`
pub buffer_address : Memory → ℕ → ℕ
buffer_address m b = b * 2 ^ m.num_bits_address % size_mod

-- `m_memory[b]`, with `none` for NULL and for an index out of range.
abbrev pub entry : Option (Option Buffer) → Option Buffer
entry none = none
entry (some b) = b

unfoldable pub slot : Memory → ℕ → Option Buffer
slot m b = entry (get_elem? m.memory b)

-- CL_MEM_USE_HOST_PTR
abbrev pub use_host_ptr : ℕ
use_host_ptr = 8

-- The notification for each live buffer that `clear` deletes, from the index `i` on.
pub cleared : Memory → ℕ → List (Option Buffer) → List Note → List Note
unfolding buffer_address
cleared m i [] notes = notes
cleared m i (none ∷ bs) notes = cleared m (suc i) bs notes
cleared m i (some b ∷ bs) notes = cleared m (suc i) bs (deallocated (buffer_address m i) ∷ notes)

pub clear : Memory → Memory
unfolding cleared
clear m = record m {
  memory = none ∷ [];
  free_buffers = [];
  total_allocated = 0;
  notes = cleared m 0 m.memory m.notes;
}

-- The constructor's fields, where `sizeof(size_t)` is 8, before it calls `clear`.
blank : AddressSpace → ℕ → Memory
blank space buffer_bits = record {
  address_space = space;
  num_bits_buffer = buffer_bits;
  num_bits_address = 64 - buffer_bits;
  max_num_buffers = 2 ^ buffer_bits - 1;
  max_buffer_size = 2 ^ (64 - buffer_bits);
  memory = [];
  free_buffers = [];
  total_allocated = 0;
  notes = [];
}

-- The constructor.
pub init : AddressSpace → ℕ → Memory
unfolding clear blank
init space buffer_bits = clear (blank space buffer_bits)

-- The number and the queue that is left; `(unsigned)m_memory.size()` if none is free.
pub next_buffer_of : List ℕ → ℕ → ℕ × List ℕ
next_buffer_of [] size = (size % unsigned_mod, [])
next_buffer_of (b ∷ bs) size = (b, bs)

pub get_next_buffer : Memory → ℕ × Memory
unfolding next_buffer_of
get_next_buffer m =
    let next = next_buffer_of m.free_buffers (length m.memory) in
    (next.0, record m { free_buffers = next.1 })

-- `push_back` at the end, and a write into the slot before it.
pub place : List (Option Buffer) → ℕ → Buffer → List (Option Buffer)
place bs b buffer = if leb (length bs) b then bs ++ some buffer ∷ [] else set bs b (some buffer)

-- What `allocateBuffer` and `createHostBuffer` share: the checks, the slot and the total.
pub insert_buffer : Memory → ℕ → ℕ → List ℕ → Option (List ℕ) → Memory × ℕ
insert_buffer m size flags bytes init_data =
    if ltb m.max_buffer_size size
    then (m, 0)
    else (let (b, taken) = get_next_buffer m in
        if leb m.max_num_buffers b then (taken, 0) else (
          notify
              (record taken {
                memory =
                    place taken.memory b (record { size = size; flags = flags; bytes = bytes });
                total_allocated = (taken.total_allocated + size) % size_mod;
              })
              (allocated (buffer_address taken b) size flags init_data),
          buffer_address taken b,
        ))

-- `memcpy` from the initial data if there is any, and zeros if not.
pub initial_bytes : ℕ → Option (List ℕ) → List ℕ
initial_bytes size none = replicate size 0
initial_bytes size (some source) = source

-- `initData` points to `size` bytes, here the list's.
pub allocate_buffer : Memory → ℕ → ℕ → Option (List ℕ) → Memory × ℕ
allocate_buffer m size flags init_data =
    insert_buffer m size flags (initial_bytes size init_data) init_data

-- `ptr` points to `size` bytes of the host, here the list's as they are when the call is made: what the host writes
-- to them later is not seen, and two buffers over one pointer do not share their bytes.
pub create_host_buffer : Memory → ℕ → List ℕ → ℕ → Memory × ℕ
create_host_buffer m size host flags = insert_buffer m size flags host (some host)

-- `none` is the failed assertion.
pub deallocate_buffer : Memory → ℕ → Option Memory
deallocate_buffer m address =
    let b = extract_buffer m address % unsigned_mod in
    elim (slot m b) [
      | none ↦ none
      | some buffer ↦ some (
          notify
            (record m {
              total_allocated = (m.total_allocated + size_mod - buffer.size) % size_mod;
              free_buffers = m.free_buffers ++ b ∷ [];
              memory = set m.memory b none;
            })
            (deallocated address))
    ]

-- `offset + size > m_memory[buffer]->size` is computed in `size_t`.
unfoldable pub fits : Option Buffer → ℕ → ℕ → Bool
fits none offset size = false
fits (some b) offset size = leb ((offset + size) % size_mod) b.size

unfoldable pub is_address_valid : Memory → ℕ → ℕ → Bool
is_address_valid m address size =
    let buffer = extract_buffer m address in
    if (buffer == 0) || leb (length m.memory) buffer
    then false
    else fits (slot m buffer) (extract_offset m address) size

-- The bounds check, and the buffer that a valid address lies in.
pub checked : Memory → ℕ → ℕ → Option Buffer
checked m address size =
    if is_address_valid m address size then slot m (extract_buffer m address) else none

-- getBuffer. A number whose buffer is deleted gives none, where the source reads through a null pointer.
unfoldable pub get_buffer : Memory → ℕ → Option Buffer
get_buffer m address =
    let buffer = extract_buffer m address in
    if (buffer == 0) || leb (length m.memory) buffer then none else slot m buffer

-- A valid address as a host pointer: the buffer's number, and the offset into its data.
unfoldable pub get_pointer : Memory → ℕ → Option (ℕ × ℕ)
get_pointer m address =
    if is_address_valid m address 1
    then some (extract_buffer m address, extract_offset m address)
    else none

pub map_buffer : Memory → ℕ → ℕ → ℕ → Option (ℕ × ℕ)
map_buffer m address offset size =
    if is_address_valid m address size
    then some (extract_buffer m address, offset + extract_offset m address)
    else none

pub load : Memory → ℕ → ℕ → Memory × Option (List ℕ)
load m address size =
    let m' = notify m (loading address size) in
    elim (checked m' address size) [
      | none ↦ (m', none)
      | some b ↦ (m', some (slice (extract_offset m address) size b.bytes))
    ]

-- `memcpy` into the buffer `b` that `address` lies in. What reaches beyond the buffer, where the check of a range has
-- wrapped around, is cut off here; the source overruns its array.
pub write_bytes : Memory → ℕ → Buffer → List ℕ → Memory
write_bytes m address b source = record m {
  memory =
      set m.memory (extract_buffer m address)
        (some (record b { bytes = overwrite b.bytes (extract_offset m address) source }));
}

-- `source` is the block of `size` bytes.
pub store : Memory → ℕ → List ℕ → Memory × Bool
store m address source =
    let m' = notify m (storing address source) in
    elim (checked m' address (length source)) [
      | none ↦ (m', false)
      | some b ↦ (write_bytes m' address b source, true)
    ]

-- The second half of `copy`: the notification, the check and the `memcpy` of `size` bytes.
pub copy_to : Memory → ℕ → List ℕ → ℕ → Memory × Bool
copy_to m dst block size =
    let m' = notify m (storing dst block) in
    elim (checked m' dst size) [ none ↦ (m', false) | some b ↦ (write_bytes m' dst b block, true) ]

pub copy : Memory → ℕ → ℕ → ℕ → Memory × Bool
copy m dst src size =
    let m' = notify m (loading src size) in
    elim (checked m' src size) [
      | none ↦ (m', false)
      | some b ↦ copy_to m' dst (slice (extract_offset m src) size b.bytes) size
    ]
