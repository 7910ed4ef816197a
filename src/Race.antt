-- ===== src/Race.antt =====
-- src/plugins/RaceDetector.cpp and RaceDetector.h: the data race detector.
-- Every work-item of a running work-group has a map from addresses to its accesses. At a barrier the
-- maps are merged, and at the end of a group its accesses are merged into those of the invocation.
pub mod Sync
pub mod Check
pub mod Dedup
mod Examples
use oclgrind.Base.{
  ℕ, zero, suc, ◌+◌, ◌-◌, ◌*◌, ◌/◌, ◌%◌, Bool, true, false, not, ◌&&◌, ◌||◌, ◌==◌, if◌then◌else◌,
  ltb, List, [], ◌∷◌, ◌++◌, Option, none, some, length, get_elem?, set, replicate,
}
use oclgrind.Memory.{
  AddressSpace, private_space, global_space, constant_space, local_space, Memory, is_address_valid,
  extract_buffer, extract_offset,
}

-- `info` has the bits SET (1), STORE (2), ATOMIC (4) and WG (8); `instruction` is a pointer, 0 if NULL.
pub record MemoryAccess : Type 0 where
  pub entity : ℕ
  pub instruction : ℕ
  pub info : ℕ
  pub store_data : ℕ

-- The default constructor. It leaves `entity` and `storeData` open; they are read only of a set access.
pub no_access : MemoryAccess
no_access = record { entity = 0; instruction = 0; info = 0; store_data = 0 }

pub is_set : MemoryAccess → Bool
is_set a = a.info % 2 == 1

pub is_store : MemoryAccess → Bool
is_store a = a.info / 2 % 2 == 1

pub is_load : MemoryAccess → Bool
is_load a = not (is_store a)

pub is_atomic : MemoryAccess → Bool
is_atomic a = a.info / 4 % 2 == 1

pub is_work_group : MemoryAccess → Bool
is_work_group a = a.info / 8 % 2 == 1

pub is_work_item : MemoryAccess → Bool
is_work_item a = not (is_work_group a)

abbrev pub bit : Bool → ℕ
bit true = 1
bit false = 0

-- The access of the work-item with this global index and current instruction, if there is one, and of
-- the work-group with this index if not.
pub new_access : ℕ → Option (ℕ × ℕ) → Bool → Bool → MemoryAccess
new_access group none store atomic = record {
  entity = group;
  instruction = 0;
  info = 1 + 2 * bit store + 4 * bit atomic + 8;
  store_data = 0;
}
new_access group (some (index, instruction)) store atomic = record {
  entity = index;
  instruction = instruction;
  info = 1 + 2 * bit store + 4 * bit atomic;
  store_data = 0;
}

-- `operator==`
pub equal : MemoryAccess → MemoryAccess → Bool
equal a b = (a.entity == b.entity) && ((a.instruction == b.instruction) && (a.info == b.info))

pub record AccessRecord : Type 0 where
  pub load : MemoryAccess
  pub store : MemoryAccess

pub blank : AccessRecord
unfolding no_access
blank = record { load = no_access; store = no_access }

-- The entries of an unordered_map, in the order of its iteration, which the library leaves open.
abbrev pub AccessMap : Type 0
AccessMap = List (ℕ × AccessRecord)

-- `map[address]`, with a new record for a new key.
pub at : AccessMap → ℕ → AccessRecord
unfolding blank
at [] address = blank
at ((k, r) ∷ m) address = if k == address then r else at m address

-- `map[address] = r`
pub put : AccessMap → ℕ → AccessRecord → AccessMap
put [] address r = (address, r) ∷ []
put ((k, s) ∷ m) address r = if k == address then (k, r) ∷ m else (k, s) ∷ put m address r

pub record Race : Type 0 where
  pub addrspace : AddressSpace
  pub address : ℕ
  pub a : MemoryAccess
  pub b : MemoryAccess

-- `allow_uniform` is m_allowUniformWrites.
pub check : Bool → MemoryAccess → MemoryAccess → Bool
check allow_uniform a b =
    if not (is_set a) || not (is_set b)
    then false
    else if is_work_item a && (is_work_item b && (a.entity == b.entity))
    then false
    else if is_atomic a && is_atomic b
    then false
    else if is_store a || is_store b
    then (if is_load a || is_load b
        then true
        else (not allow_uniform || not (a.store_data == b.store_data)))
    else false

pub insert : AccessRecord → MemoryAccess → AccessRecord
insert r access =
    if is_load access
    then (if not (is_set r.load) || is_atomic r.load then record r { load = access } else r)
    else (if is_store access
        then (if not (is_set r.store) || is_atomic r.store then record r { store = access } else r)
        else r)

-- Whether two races are equal modulo address.
pub same_race : Race → Race → Bool
same_race r x = (equal r.a x.a && equal r.b x.b) || (equal r.a x.b && equal r.b x.a)

pub insert_race : List Race → Race → List Race
insert_race [] r = r ∷ []
insert_race (x ∷ xs) r =
    if same_race r x
    then (if ltb r.address x.address then xs ++ r ∷ [] else x ∷ xs)
    else x ∷ insert_race xs r

-- `if (check(a, b)) insertRace(races, {addrspace, address, a, b})`
pub report : Bool → List Race → Race → List Race
report allow_uniform races r = if check allow_uniform r.a r.b then insert_race races r else races

-- The state of a work-group.
pub record WorkGroupState : Type 0 where
  pub num_work_items : ℕ
  pub wi_local : List AccessMap
  pub wi_global : List AccessMap
  pub wg_global : AccessMap

-- workGroupBegin, for a group with this many work-items.
pub work_group_begin : ℕ → WorkGroupState
work_group_begin n = record {
  num_work_items = n;
  wi_local = replicate (n + 1) [];
  wi_global = replicate (n + 1) [];
  wg_global = [];
}

-- The loop over the bytes of an access; without data the access is a load.
pub record_loads : AccessMap → MemoryAccess → ℕ → ℕ → AccessMap
record_loads m access address zero = m
record_loads m access address (suc n) =
    record_loads (put m address (insert (at m address) access)) access (address + 1) n

pub record_stores : AccessMap → MemoryAccess → ℕ → List ℕ → AccessMap
record_stores m access address [] = m
record_stores m access address (byte ∷ bytes) =
    record_stores (put m address (insert (at m address) (record access { store_data = byte })))
      access (address + 1) bytes

abbrev or_empty : Option AccessMap → AccessMap
or_empty none = []
or_empty (some m) = m

-- What a call of registerAccess is told of the work-item: its index in the group, its global index and
-- its instruction.
pub record Item : Type 0 where
  pub local_index : ℕ
  pub global_index : ℕ
  pub instruction : ℕ

abbrev item_of : Option Item → Option (ℕ × ℕ)
item_of none = none
item_of (some i) = some (i.global_index, i.instruction)

abbrev index_of : WorkGroupState → Option Item → ℕ
index_of s none = length s.wi_local - 1
index_of s (some i) = i.local_index

-- The bytes of the access: `size` of them, with the stored values if there are any.
pub record_bytes : AccessMap → ℕ → Option Item → ℕ → ℕ → Bool → Option (List ℕ) → AccessMap
record_bytes m group item address size atomic none =
    record_loads m (new_access group (item_of item) false atomic) address size
record_bytes m group item address size atomic (some bytes) =
    record_stores m (new_access group (item_of item) true atomic) address bytes

-- registerAccess, once the guards have passed, in the map of global or of local accesses.
pub record_in : AddressSpace → WorkGroupState → ℕ → (AccessMap → AccessMap) → WorkGroupState
record_in global_space s i f = record s {
  wi_global = set s.wi_global i (f (or_empty (get_elem? s.wi_global i)));
}
record_in _ s i f = record s { wi_local = set s.wi_local i (f (or_empty (get_elem? s.wi_local i))) }

abbrev is_untracked : AddressSpace → Bool
is_untracked private_space = true
is_untracked constant_space = true
is_untracked _ = false

-- `group` is the index of the work-group. The bytes of `store_data` are `size` many.
pub register_access :
    Memory → WorkGroupState → ℕ → Option Item → ℕ → ℕ → Bool → Option (List ℕ) → WorkGroupState
register_access m s group item address size atomic store_data =
    if is_untracked m.address_space || not (is_address_valid m address size)
    then s
    else record_in m.address_space s (index_of s item)
        (λ accesses. record_bytes accesses group item address size atomic store_data)
