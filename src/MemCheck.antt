-- ===== src/MemCheck.antt =====
-- src/plugins/MemCheck.cpp and MemCheck.h: invalid accesses, and accesses to buffers that are mapped.
pub mod Regions
mod Examples
use oclgrind.Base.{
  ℕ, ◌+◌, ◌/◌, ◌%◌, Bool, true, false, not, ◌&&◌, ◌||◌, ◌==◌, if◌then◌else◌, ltb, leb, List, [],
  ◌∷◌, ◌++◌, Option, none, some, size_mod,
}
use oclgrind.Memory.{
  AddressSpace, private_space, global_space, constant_space, local_space, Memory, Buffer,
  is_address_valid, get_buffer, get_pointer,
}

pub data MapType : Type 0 where
  read : MapType
  write : MapType

-- A host pointer is the buffer's number and the offset into its data; none is NULL.
pub record MapRegion : Type 0 where
  pub address : ℕ
  pub offset : ℕ
  pub size : ℕ
  pub ptr : Option (ℕ × ℕ)
  pub kind : MapType

pub data Error : Type 0 where
  invalid_access : Bool → AddressSpace → ℕ → ℕ → Error
  read_of_write_only : Error
  write_to_read_only : Error
  read_of_mapped : Error
  write_to_mapped : Error

-- memoryMap. CL_MAP_READ is 1.
pub memory_map : Memory → ℕ → ℕ → ℕ → ℕ → List MapRegion → List MapRegion
memory_map m address offset size flags regions =
    regions
    ++ record {
      address = address;
      offset = offset;
      size = size;
      ptr = get_pointer m ((address + offset) % size_mod);
      kind = if flags == 1 then read else write;
    }
      ∷ []

abbrev pub same_pointer : Option (ℕ × ℕ) → Option (ℕ × ℕ) → Bool
same_pointer none none = true
same_pointer (some (b, o)) (some (c, p)) = (b == c) && (o == p)
same_pointer _ _ = false

-- memoryUnmap
pub memory_unmap : Option (ℕ × ℕ) → List MapRegion → List MapRegion
memory_unmap ptr [] = []
memory_unmap ptr (r ∷ rs) =
    let rest = memory_unmap ptr rs in if same_pointer r.ptr ptr then rs else r ∷ rest

-- The test of an access against a region.
pub touches : ℕ → ℕ → MapRegion → Bool
touches address size r =
    ltb address ((r.address + r.size) % size_mod) && leb r.address ((address + size) % size_mod)

abbrev is_write : MapType → Bool
is_write read = false
is_write write = true

-- CL_MEM_WRITE_ONLY is 2, CL_MEM_READ_ONLY is 4.
abbrev pub has_flag : ℕ → Option Buffer → Bool
has_flag bit none = false
has_flag bit (some b) = b.flags / bit % 2 == 1

abbrev pub is_mappable : AddressSpace → Bool
is_mappable private_space = false
is_mappable local_space = false
is_mappable _ = true

pub mapped_for_writing : ℕ → ℕ → List MapRegion → List Error
mapped_for_writing address size [] = []
mapped_for_writing address size (r ∷ rs) =
    let rest = mapped_for_writing address size rs in
    if is_write r.kind && touches address size r then read_of_mapped ∷ rest else rest

pub mapped : ℕ → ℕ → List MapRegion → List Error
mapped address size [] = []
mapped address size (r ∷ rs) =
    let rest = mapped address size rs in
    if touches address size r then write_to_mapped ∷ rest else rest

-- checkLoad, with the errors that it reports.
pub check_load : List MapRegion → Memory → ℕ → ℕ → List Error
check_load regions m address size =
    if not (is_address_valid m address size)
    then invalid_access true m.address_space address size ∷ []
    else (if has_flag 2 (get_buffer m address) then read_of_write_only ∷ [] else [])
      ++ (if is_mappable m.address_space then mapped_for_writing address size regions else [])

-- checkStore
pub check_store : List MapRegion → Memory → ℕ → ℕ → List Error
check_store regions m address size =
    if not (is_address_valid m address size)
    then invalid_access false m.address_space address size ∷ []
    else (if has_flag 4 (get_buffer m address) then write_to_read_only ∷ [] else [])
      ++ (if is_mappable m.address_space then mapped address size regions else [])
