-- ===== src/Runtime/Objects.antt =====
-- src/runtime/runtime.cpp: createBuffer, clCreateSubBuffer, clRetainMemObject and clReleaseMemObject.
-- Images and the application's destructor callbacks are left out.
pub mod Creation
use Prim.Native.Nat.{bit_and, bit_or}
use oclgrind.Base.{
  ℕ, ◌+◌, ◌-◌, ◌/◌, ◌%◌, Bool, true, false, not, ◌&&◌, ◌||◌, ◌==◌, if◌then◌else◌, ltb, List, [],
  Option, none, some, Result, ok, err, ◌>>=◌, ◌>>◌, slice, size_mod,
}
use oclgrind.Memory.{
  Memory, use_host_ptr, create_host_buffer, allocate_buffer, deallocate_buffer, store,
}
use oclgrind.Runtime.{
  Code, invalid_context, invalid_buffer_size, invalid_host_ptr, invalid_value, invalid_mem_object,
  mem_object_allocation_failure, MemObject, has, given, reject_if, retain, release,
}

abbrev pub alloc_host_ptr : ℕ
alloc_host_ptr = 16

abbrev pub copy_host_ptr : ℕ
copy_host_ptr = 32

abbrev pub is_null : Option (List ℕ) → Bool
is_null none = true
is_null (some host) = false

abbrev pub same_bool : Bool → Bool → Bool
same_bool true b = b
same_bool false b = not b

-- The checks of createBuffer, with the context if they pass.
pub check_creation : Option ℕ → ℕ → ℕ → Option (List ℕ) → Result Code ℕ
check_creation context flags size host = do
  c ← given context invalid_context
  reject_if (size == 0) invalid_buffer_size
  reject_if (same_bool (is_null host) (has copy_host_ptr flags || has use_host_ptr flags))
      invalid_host_ptr
  reject_if (has use_host_ptr flags && (has copy_host_ptr flags || has alloc_host_ptr flags))
      invalid_value
  ok c

-- `size` bytes from the pointer.
abbrev pub bytes_at : Option (List ℕ) → ℕ → List ℕ
bytes_at none size = []
bytes_at (some host) size = slice 0 size host

pub allocate_object : ℕ → ℕ → Option (List ℕ) → Memory → Memory × ℕ
allocate_object flags size host m =
    if has use_host_ptr flags
    then create_host_buffer m size (bytes_at host size) flags
    else allocate_buffer m size flags none

-- createBuffer after its checks, for an object known by `id`.
pub make_buffer : ℕ → ℕ → ℕ → ℕ → Option (List ℕ) → Memory → Memory × Result Code MemObject
make_buffer id c flags size host m =
    let r = allocate_object flags size host m in
    if r.1 == 0 then (r.0, err mem_object_allocation_failure) else (
      if has copy_host_ptr flags then (store r.0 r.1 (bytes_at host size)).0 else r.0,
      ok (record {
        id = id;
        context = c;
        parent = none;
        address = r.1;
        size = size;
        offset = 0;
        flags = flags;
      }),
    )

-- createBuffer after its checks have given the context or an error.
pub create_checked :
    ℕ → Result Code ℕ → ℕ → ℕ → Option (List ℕ) → Memory → Memory × Result Code MemObject
create_checked id (err code) flags size host m = (m, err code)
create_checked id (ok c) flags size host m = make_buffer id c flags size host m

pub create_buffer : ℕ → Option ℕ → ℕ → ℕ → Option (List ℕ) → Memory → Memory × Result Code MemObject
create_buffer id context flags size host m =
    create_checked id (check_creation context flags size host) flags size host m

-- The flags of a sub-buffer: each of the first two groups is that of the parent unless it is given.
pub sub_buffer_flags : ℕ → ℕ → ℕ
sub_buffer_flags flags parent =
    let access = if bit_and flags 7 == 0 then bit_and parent 7 else bit_and flags 7 in
    let host = if bit_and flags 896 == 0 then bit_and parent 896 else bit_and flags 896 in
    bit_or (bit_or access host) (bit_and parent 56)

abbrev has_parent : Option ℕ → Bool
has_parent none = false
has_parent (some p) = true

-- clCreateSubBuffer, with the parent to retain. The region is its origin and its size.
unfoldable pub create_sub_buffer :
    ℕ → Option MemObject → ℕ → Bool → Option (ℕ × ℕ) → Result Code MemObject
create_sub_buffer id buffer flags is_region info = do
  b ← given buffer invalid_mem_object
  reject_if (has_parent b.parent) invalid_mem_object
  reject_if (not is_region) invalid_value
  (origin, size) ← given info invalid_value
  reject_if (ltb b.size ((origin + size) % size_mod)) invalid_value
  reject_if (size == 0) invalid_value
  ok (record {
    id = id;
    context = b.context;
    parent = some b.id;
    address = (b.address + origin) % size_mod;
    size = size;
    offset = origin;
    flags = sub_buffer_flags flags b.flags;
  })

-- clReleaseMemObject of a buffer that has no parent. `none` is a failed assertion.
pub release_root : MemObject → Memory → (ℕ → ℕ) → Option (Memory × (ℕ → ℕ))
release_root o m counts =
    let c = release o.id counts in
    if c o.id == 0
    then elim (deallocate_buffer m o.address) [ none ↦ none | some m' ↦ some (m', c) ]
    else some (m, c)

-- clReleaseMemObject, where `parent` is the object that `o.parent` points to.
pub release_mem_object : MemObject → Option MemObject → Memory → (ℕ → ℕ) → Option (Memory × (ℕ → ℕ))
release_mem_object o none m counts = release_root o m counts
release_mem_object o (some parent) m counts =
    let c = release o.id counts in if c o.id == 0 then release_root parent m c else some (m, c)
