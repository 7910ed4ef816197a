-- ===== src/WorkGroup.antt =====
-- src/core/WorkGroup.cpp and WorkGroup.h: the work-items of a group between barriers, and the
-- asynchronous copies that they share.
pub mod Sets
pub mod Events
pub mod Schedule
pub mod Parts
pub mod Progress
mod Examples
use oclgrind.Base.{
  ℕ, zero, suc, ◌+◌, ◌*◌, ◌%◌, Bool, true, false, not, ◌&&◌, ◌||◌, ◌==◌, if◌then◌else◌, ltb, List,
  [], ◌∷◌, ◌++◌, Option, none, some, length, size_mod,
}
use oclgrind.Memory.{Memory, load, store}
use oclgrind.NdRange.{Size3}
use oclgrind.WorkGroup.Sets.{insert_item, erase_item, has_item}

pub data CopyType : Type 0 where
  global_to_local : CopyType
  local_to_global : CopyType

pub record AsyncCopy : Type 0 where
  pub instruction : ℕ
  pub kind : CopyType
  pub dest : ℕ
  pub src : ℕ
  pub size : ℕ
  pub num : ℕ
  pub src_stride : ℕ
  pub dest_stride : ℕ
  pub event : ℕ

pub record Barrier : Type 0 where
  pub instruction : ℕ
  pub work_items : List Size3
  pub fence : ℕ
  pub events : List ℕ

-- What the group reports. The numbers of the divergences at the end of a barrier or copy are how many
-- work-items came.
pub data Message : Type 0 where
  diverged_barrier : Size3 → Message
  missing_at_barrier : ℕ → Message
  diverged_copy : Size3 → Message
  missing_at_copy : ℕ → Message
  invalid_wait_event : ℕ → Message
  finished_without_waiting : Message
  barrier_passed : ℕ → Message

-- The local memory of the group and the global memory of the context.
pub record Memories : Type 0 where
  pub local : Memory
  pub global : Memory

pub record WorkGroup : Type 0 where
  pub work_items : List Size3
  pub running : List Size3
  pub barrier : Option Barrier
  pub next_event : ℕ
  pub async_copies : List (AsyncCopy × List Size3)
  pub events : List (ℕ × List AsyncCopy)
  pub memories : Memories
  pub log : List Message

-- m_events: a map from events to copies.
pub has_event : ℕ → List (ℕ × List AsyncCopy) → Bool
has_event e [] = false
has_event e ((k, cs) ∷ m) = (k == e) || has_event e m

pub copies_of : ℕ → List (ℕ × List AsyncCopy) → List AsyncCopy
copies_of e [] = []
copies_of e ((k, cs) ∷ m) = let rest = copies_of e m in if k == e then cs else rest

pub set_copies : ℕ → List AsyncCopy → List (ℕ × List AsyncCopy) → List (ℕ × List AsyncCopy)
set_copies e cs [] = (e, cs) ∷ []
set_copies e cs ((k, old) ∷ m) =
    let rest = set_copies e cs m in if k == e then (k, cs) ∷ m else (k, old) ∷ rest

pub erase_event : ℕ → List (ℕ × List AsyncCopy) → List (ℕ × List AsyncCopy)
erase_event e [] = []
erase_event e ((k, cs) ∷ m) = let rest = erase_event e m in if k == e then rest else (k, cs) ∷ rest

pub say : WorkGroup → Message → WorkGroup
say s message = record s { log = s.log ++ message ∷ [] }

abbrev or_else : Option (List ℕ) → List ℕ → List ℕ
or_else none buffer = buffer
or_else (some bytes) buffer = bytes

-- One element of a copy. A load that fails leaves the buffer as it was.
pub transfer : CopyType → ℕ → ℕ → ℕ → List ℕ → Memories → Memories × List ℕ
transfer global_to_local src dest size buffer m =
    let loaded = load m.global src size in
    let block = or_else loaded.1 buffer in
    (record { local = (store m.local dest block).0; global = loaded.0 }, block)
transfer local_to_global src dest size buffer m =
    let loaded = load m.local src size in
    let block = or_else loaded.1 buffer in
    (record { local = loaded.0; global = (store m.global dest block).0 }, block)

-- The loop over the elements, with the rounds that are left. The counter of the source is of 32 bits, so this is the
-- loop for fewer than 2^32 elements.
pub copy_elements : AsyncCopy → ℕ → ℕ → ℕ → List ℕ → Memories → Memories
copy_elements c zero src dest buffer m = m
copy_elements c (suc n) src dest buffer m =
    let r = transfer c.kind src dest c.size buffer m in
    copy_elements c n ((src + c.src_stride * c.size) % size_mod)
      ((dest + c.dest_stride * c.size) % size_mod) r.1 r.0

-- Whether an earlier copy is the same. `debug_loc` is the source location of an instruction.
abbrev kind_number : CopyType → ℕ
kind_number global_to_local = 0
kind_number local_to_global = 1

pub same_copy : (ℕ → ℕ) → AsyncCopy → AsyncCopy → Bool
same_copy debug_loc d c =
    (debug_loc d.instruction == debug_loc c.instruction)
    && ((kind_number d.kind == kind_number c.kind)
        && ((d.dest == c.dest)
            && ((d.src == c.src)
                && ((d.size == c.size)
                    && ((d.num == c.num)
                        && ((d.src_stride == c.src_stride) && (d.dest_stride == c.dest_stride)))))))

abbrev Joined : Type 0
Joined = List (AsyncCopy × List Size3) × ℕ × List Message

abbrev prepend : AsyncCopy × List Size3 → Option Joined → Option Joined
prepend c none = none
prepend c (some (cs, event, messages)) = some (c ∷ cs, event, messages)

-- The copies with the work-item added to the first that it has not registered, that copy's event, and
-- what is reported; none if it has registered all.
pub join_copy : (ℕ → ℕ) → Size3 → AsyncCopy → List (AsyncCopy × List Size3) → Option Joined
join_copy debug_loc i c [] = none
join_copy debug_loc i c ((d, who) ∷ cs) =
    let rest = join_copy debug_loc i c cs in
    if has_item i who
    then prepend (d, who) rest
    else some (
      (d, insert_item i who) ∷ cs,
      d.event,
      if same_copy debug_loc d c then [] else diverged_copy i ∷ [],
    )

-- A copy that no work-item has registered, with a new event if it has none.
pub register_copy : Size3 → AsyncCopy → WorkGroup → WorkGroup × ℕ
register_copy i c s =
    let e = if c.event == 0 then s.next_event else c.event in
    let copy = record c { event = e } in
    let events = if has_event c.event s.events then s.events else set_copies e [] s.events in
    (
      record s {
        next_event = if c.event == 0 then (s.next_event + 1) % size_mod else s.next_event;
        async_copies = s.async_copies ++ (copy, insert_item i []) ∷ [];
        events = set_copies e (copies_of e events ++ copy ∷ []) events;
      },
      e,
    )

-- The field `event` of the copy is the argument of that name.
pub async_copy : (ℕ → ℕ) → Size3 → AsyncCopy → WorkGroup → WorkGroup × ℕ
async_copy debug_loc i c s = elim (join_copy debug_loc i c s.async_copies) [
  | none ↦ register_copy i c s
  | some r ↦ (record s { async_copies = r.0; log = s.log ++ r.2 }, r.1)
]

-- `fresh` is what a new array of so many bytes holds.
pub perform_copies : (ℕ → List ℕ) → List AsyncCopy → Memories → Memories
perform_copies fresh [] m = m
perform_copies fresh (c ∷ cs) m =
    perform_copies fresh cs (copy_elements c c.num c.src c.dest (fresh c.size) m)

-- The loop that removes the copies of an event, and what it reports in a group of this size.
pub finish_copies :
    ℕ → ℕ → List (AsyncCopy × List Size3) → List (AsyncCopy × List Size3) × List Message
finish_copies event group [] = ([], [])
finish_copies event group ((c, who) ∷ cs) =
    let rest = finish_copies event group cs in
    if c.event == event
    then (if length who == group then rest else (rest.0, missing_at_copy (length who) ∷ rest.1))
    else ((c, who) ∷ rest.0, rest.1)

-- The body of the loop over the events of a barrier.
pub finish_event : (ℕ → List ℕ) → ℕ → WorkGroup → WorkGroup
finish_event fresh event s =
    let r = finish_copies event (length s.work_items) s.async_copies in
    record s {
      memories = perform_copies fresh (copies_of event s.events) s.memories;
      events = erase_event event s.events;
      async_copies = r.0;
      log = s.log ++ r.1;
    }

-- `list::remove`
pub remove : ℕ → List ℕ → List ℕ
remove e [] = []
remove e (x ∷ xs) = let rest = remove e xs in if x == e then rest else x ∷ rest

-- The loop, on fuel, with the events that are left.
pub finish_events : ℕ → (ℕ → List ℕ) → List ℕ → WorkGroup → List ℕ × WorkGroup
finish_events fuel fresh [] s = ([], s)
finish_events zero fresh (e ∷ es) s = (e ∷ es, s)
finish_events (suc fuel) fresh (e ∷ es) s =
    finish_events fuel fresh (remove e es) (finish_event fresh e s)

pub insert_items : List Size3 → List Size3 → List Size3
insert_items [] set = set
insert_items (i ∷ is) set = insert_items is (insert_item i set)

-- The end of the constructor, for these work-items, in the order in which they are made.
pub begin : List Size3 → Memories → WorkGroup
begin items m = record {
  work_items = items;
  running = insert_items items [];
  barrier = none;
  next_event = 1;
  async_copies = [];
  events = [];
  memories = m;
  log = [];
}

-- The first part of clearBarrier: the divergence check, and the work-items move to the running ones.
pub release : Barrier → WorkGroup → WorkGroup
release b s =
    let s' =
      if length b.work_items == length s.work_items
      then s
      else say s (missing_at_barrier (length b.work_items)) in
    record s' { running = insert_items b.work_items s'.running }

pub clear_barrier : (ℕ → List ℕ) → WorkGroup → Option WorkGroup
clear_barrier fresh s = elim s.barrier [
  | none ↦ none
  | some b ↦
      let r = (finish_events (length b.events) fresh b.events (release b s)).1 in
      some (record r { log = r.log ++ barrier_passed b.fence ∷ []; barrier = none })
]

abbrev pub begin_of : List Size3 → Option Size3
begin_of [] = none
begin_of (i ∷ is) = some i

pub get_next_work_item : WorkGroup → Option Size3
get_next_work_item s = begin_of s.running

-- The errors for awaited events that do not exist.
pub invalid_events : List (ℕ × List AsyncCopy) → List ℕ → List Message
invalid_events m [] = []
invalid_events m (e ∷ es) =
    let rest = invalid_events m es in if has_event e m then rest else invalid_wait_event e ∷ rest

pub same_events : List ℕ → List ℕ → Bool
same_events [] [] = true
same_events (x ∷ xs) (y ∷ ys) = (x == y) && same_events xs ys
same_events _ _ = false

-- `debug_loc` is the source location of an instruction.
pub notify_barrier : (ℕ → ℕ) → Size3 → ℕ → ℕ → List ℕ → WorkGroup → WorkGroup
notify_barrier debug_loc item instruction fence events s = elim s.barrier [
  | none ↦ record s {
    log = s.log ++ invalid_events s.events events;
    running = erase_item item s.running;
    barrier = some (record {
      instruction = instruction;
      work_items = insert_item item [];
      fence = fence;
      events = events;
    });
  }
  | some b ↦
      let agrees =
        (debug_loc instruction == debug_loc b.instruction)
        && ((fence == b.fence) && same_events events b.events) in
      record s {
        log = if agrees then s.log else s.log ++ diverged_barrier item ∷ [];
        running = erase_item item s.running;
        barrier = some (record b { work_items = insert_item item b.work_items });
      }
]

pub notify_finished : Size3 → WorkGroup → WorkGroup
notify_finished item s = record s {
  running = erase_item item s.running;
  log = s.log ++ unwaited (erase_item item s.running) s.barrier s.events;
}
  where
    unwaited : List Size3 → Option Barrier → List (ℕ × List AsyncCopy) → List Message
    unwaited [] none (e ∷ es) = finished_without_waiting ∷ []
    unwaited _ _ _ = []
