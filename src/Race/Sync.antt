-- ===== src/Race/Sync.antt =====
-- src/plugins/RaceDetector.cpp: syncWorkItems, workGroupBarrier, workGroupComplete and kernelEnd.
mod Merge
pub mod Completeness
pub mod Items
pub mod Soundness
mod Examples
use Prim.Native.Nat.{bit_and}
use oclgrind.Base.{
  ℕ, zero, suc, ◌+◌, ◌*◌, ◌/◌, Bool, true, false, not, ◌&&◌, ◌||◌, ◌==◌, if◌then◌else◌, List, [],
  ◌∷◌, ◌++◌, Option, none, some, get_elem?, set, replicate, take, map,
}
use oclgrind.Memory.{
  AddressSpace, global_space, local_space, Memory, extract_buffer, extract_offset,
}
use oclgrind.NdRange.{Size3}
use oclgrind.Race.{
  MemoryAccess, AccessRecord, AccessMap, Race, WorkGroupState, is_set, is_work_item, check, insert,
  insert_race, report, at, put, blank,
}

pub record Sync : Type 0 where
  pub wg : AccessMap
  pub global : AccessMap
  pub races : List Race

-- The accesses of `a` that are set, inserted into `b`.
pub absorb : AccessRecord → AccessRecord → AccessRecord
absorb b a =
    let l = if is_set a.load then insert b a.load else b in
    if is_set a.store then insert l a.store else l

-- The three checks of the accesses `a` against those recorded before, `b`.
pub report_all : Bool → AddressSpace → ℕ → AccessRecord → AccessRecord → List Race → List Race
report_all allow space address a b races =
    let r1 =
      report allow races
        (record { addrspace = space; address = address; a = a.load; b = b.store }) in
    let r2 =
      report allow r1 (record { addrspace = space; address = address; a = a.store; b = b.load }) in
    report allow r2 (record { addrspace = space; address = address; a = a.store; b = b.store })

abbrev is_global : AddressSpace → Bool
is_global global_space = true
is_global _ = false

-- The body of the loop over the records of one work-item.
pub sync_record : Bool → AddressSpace → ℕ → AccessRecord → Sync → Sync
sync_record allow space address a s = record {
  wg = put s.wg address (absorb (at s.wg address) a);
  global =
      if is_global space && (is_set a.load || is_set a.store)
      then put s.global address (absorb (at s.global address) a)
      else s.global;
  races = report_all allow space address a (at s.wg address) s.races;
}

pub sync_records : Bool → AddressSpace → AccessMap → Sync → Sync
sync_records allow space [] s = s
sync_records allow space ((address, a) ∷ m) s =
    sync_records allow space m (sync_record allow space address a s)

-- The loop over the work-items, each with a new list of races, which is logged at its end.
pub sync_items :
    Bool → AddressSpace → List AccessMap → AccessMap → AccessMap → AccessMap × List Race
sync_items allow space [] wg global = (global, [])
sync_items allow space (m ∷ ms) wg global =
    let s = sync_records allow space m (record { wg = wg; global = global; races = [] }) in
    let rest = sync_items allow space ms s.wg s.global in (rest.0, s.races ++ rest.1)

-- What is logged is the result's second part; the first is the new wgGlobal.
pub sync_work_items : Bool → AddressSpace → WorkGroupState → List AccessMap → AccessMap × List Race
sync_work_items allow space s accesses =
    sync_items allow space (take (s.num_work_items + 1) accesses) [] s.wg_global

emptied : List AccessMap → List AccessMap
emptied accesses = map (λ m. []) accesses

pub sync_local : Bool → WorkGroupState → WorkGroupState × List Race
sync_local allow s =
    let r = sync_work_items allow local_space s s.wi_local in
    (record s { wg_global = r.0; wi_local = emptied s.wi_local }, r.1)

pub sync_global : Bool → WorkGroupState → WorkGroupState × List Race
sync_global allow s =
    let r = sync_work_items allow global_space s s.wi_global in
    (record s { wg_global = r.0; wi_global = emptied s.wi_global }, r.1)

-- CLK_LOCAL_MEM_FENCE is 1, CLK_GLOBAL_MEM_FENCE is 2.
pub work_group_barrier : Bool → WorkGroupState → ℕ → WorkGroupState × List Race
work_group_barrier allow s flags =
    let first = if bit_and flags 1 == 0 then (s, []) else sync_local allow s in
    let second = if bit_and flags 2 == 0 then (first.0, []) else sync_global allow first.0 in
    (second.0, first.1 ++ second.1)

-- m_globalAccesses: for each global buffer a record for each byte.
abbrev pub GlobalAccesses : Type 0
GlobalAccesses = List (ℕ × List AccessRecord)

pub buffer_records : GlobalAccesses → ℕ → List AccessRecord
buffer_records [] buffer = []
buffer_records ((k, rs) ∷ g) buffer = if k == buffer then rs else buffer_records g buffer

pub set_records : GlobalAccesses → ℕ → List AccessRecord → GlobalAccesses
set_records [] buffer rs = (buffer, rs) ∷ []
set_records ((k, old) ∷ g) buffer rs =
    if k == buffer then (k, rs) ∷ g else (k, old) ∷ set_records g buffer rs

abbrev or_blank : Option AccessRecord → AccessRecord
or_blank none = blank
or_blank (some r) = r

-- The state for an invocation. `local_size` is that of the kernel invocation.
pub record Detector : Type 0 where
  pub allow_uniform : Bool
  pub local_size : Size3
  pub global_accesses : GlobalAccesses
  pub kernel_races : List Race

-- getAccessWorkGroup
pub access_group : Size3 → MemoryAccess → ℕ
access_group l access =
    if is_work_item access then access.entity / (l.x * l.y * l.z) else access.entity

-- A kernel race is inserted unless the other access is attributed to the same group.
pub report_kernel : Detector → ℕ → List Race → Race → List Race
report_kernel d group races r =
    if check d.allow_uniform r.a r.b && not (access_group d.local_size r.b == group)
    then insert_race races r
    else races

-- The body of the loop over wgGlobal in workGroupComplete.
pub merge_record : Memory → ℕ → ℕ → AccessRecord → Detector → Detector
merge_record memory group address a d =
    let buffer = extract_buffer memory address in
    let offset = extract_offset memory address in
    let records = buffer_records d.global_accesses buffer in
    let b = or_blank (get_elem? records offset) in
    let r1 =
      report_kernel d group d.kernel_races
        (record { addrspace = global_space; address = address; a = a.load; b = b.store }) in
    let r2 =
      report_kernel d group r1
        (record { addrspace = global_space; address = address; a = a.store; b = b.load }) in
    let r3 =
      report_kernel d group r2
        (record { addrspace = global_space; address = address; a = a.store; b = b.store }) in
    record d {
      global_accesses = set_records d.global_accesses buffer (set records offset (absorb b a));
      kernel_races = r3;
    }

pub merge_records : Memory → ℕ → AccessMap → Detector → Detector
merge_records memory group [] d = d
merge_records memory group ((address, a) ∷ m) d =
    merge_records memory group m (merge_record memory group address a d)

-- The state of the group is erased afterwards.
pub work_group_complete : Memory → ℕ → WorkGroupState → Detector → Detector × List Race
work_group_complete memory group s d =
    let first = sync_local d.allow_uniform s in
    let second = sync_global d.allow_uniform first.0 in
    (merge_records memory group second.0.wg_global d, first.1 ++ second.1)

abbrev all_blank : List AccessRecord → List AccessRecord
all_blank rs = map (λ r. blank) rs

-- What is logged, and the state for the next invocation.
pub kernel_end : Detector → Detector × List Race
kernel_end d = (
  record d {
    global_accesses = map (λ e. (e.0, all_blank e.1)) d.global_accesses;
    kernel_races = [];
  },
  d.kernel_races,
)

-- For a global buffer: `m_globalAccesses[buffer].resize(size)`, of a buffer with no records.
pub memory_allocated : ℕ → ℕ → Detector → Detector
memory_allocated buffer size d = record d {
  global_accesses = set_records d.global_accesses buffer (replicate size blank);
}

pub erase_buffer : ℕ → GlobalAccesses → GlobalAccesses
erase_buffer buffer [] = []
erase_buffer buffer ((k, rs) ∷ g) = if k == buffer then g else (k, rs) ∷ erase_buffer buffer g

pub memory_deallocated : ℕ → Detector → Detector
memory_deallocated buffer d = record d { global_accesses = erase_buffer buffer d.global_accesses }
