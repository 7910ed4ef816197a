-- ===== src/Runtime.antt =====
-- src/runtime/runtime.cpp and async_queue.cpp: the entry points of OpenCL on buffers and commands. An
-- entry point checks its arguments in order and returns the first error, or enqueues a command.
-- Handles are options, none is NULL. An object is known by a number, its address in the host process.
pub mod Transfers
pub mod Objects
pub mod Launch
pub mod Events
pub mod Maps
mod Examples
use oclgrind.Base.{
  ℕ, zero, suc, ◌+◌, ◌-◌, ◌/◌, ◌%◌, Bool, true, false, not, ◌&&◌, ◌||◌, ◌==◌, if◌then◌else◌, List,
  [], ◌∷◌, ◌++◌, Option, none, some, Result, ok, err, ◌>>◌, Holds, returns, raises, ◌≡◌, refl,
}
use oclgrind.Commands.{Command}
use oclgrind.NdRange.{Size3}

-- The error codes that the modelled entry points return.
pub data Code : Type 0 where
  invalid_command_queue : Code
  invalid_context : Code
  invalid_mem_object : Code
  invalid_value : Code
  invalid_event : Code
  exec_status_error : Code
  invalid_operation : Code
  invalid_buffer_size : Code
  invalid_host_ptr : Code
  invalid_event_wait_list : Code
  mem_copy_overlap : Code
  mem_object_allocation_failure : Code
  invalid_work_dimension : Code
  invalid_work_group_size : Code
  invalid_work_item_size : Code
  invalid_kernel_args : Code
  out_of_resources : Code

-- _cl_mem, for a buffer; the number of its references stands in `Host`.
pub record MemObject : Type 0 where
  pub id : ℕ
  pub context : ℕ
  pub parent : Option ℕ
  pub address : ℕ
  pub size : ℕ
  pub offset : ℕ
  pub flags : ℕ

-- _cl_event
pub record EventObject : Type 0 where
  pub id : ℕ
  pub context : ℕ

-- num_events_in_wait_list, and the array, which has as many elements if it is not NULL.
pub record WaitList : Type 0 where
  pub number : ℕ
  pub events : Option (List (Option EventObject))

-- Whether the flags have this one bit.
abbrev pub has : ℕ → ℕ → Bool
has bit flags = flags / bit % 2 == 1

abbrev pub host_write_only : ℕ
host_write_only = 128

abbrev pub host_read_only : ℕ
host_read_only = 256

abbrev pub host_no_access : ℕ
host_no_access = 512

-- The loop of checkEventWaitList, with the rounds that are left.
pub check_events : ℕ → ℕ → List (Option EventObject) → Result Code (List EventObject)
check_events context zero events = ok []
check_events context (suc n) [] = ok []
check_events context (suc n) (none ∷ events) = err invalid_event_wait_list
check_events context (suc n) (some e ∷ events) =
    let rest = check_events context n events in
    if e.context == context
    then elim rest [ ok es ↦ ok (e ∷ es) | err c ↦ err c ]
    else err invalid_context

-- checkEventWaitList, with the events to wait for if there is no error.
pub check_event_wait_list : ℕ → WaitList → Result Code (List EventObject)
check_event_wait_list context w = go w.number w.events
  where
    go : ℕ → Option (List (Option EventObject)) → Result Code (List EventObject)
    go zero none = ok []
    go zero (some events) = err invalid_event_wait_list
    go (suc n) none = err invalid_event_wait_list
    go (suc n) (some events) = check_events context (suc n) events

-- What a command in a queue does when it is executed.
pub data Request : Type 0 where
  transfer : Command → Request
  map_buffer : ℕ → ℕ → ℕ → ℕ → Request
  unmap : ℕ → ℕ → Request
  kernel : ℕ → Size3 → Size3 → Size3 → Request

-- A command in the queue: the objects that it keeps alive (memObjectMap, waitListMap), and its own
-- event (eventMap).
pub record Entry : Type 0 where
  pub request : Request
  pub mem_objects : List ℕ
  pub wait_list : List ℕ
  pub event : ℕ

-- The reference counts of memory objects and of events, a queue, and a number that no event has.
pub record Host : Type 0 where
  pub mem_count : ℕ → ℕ
  pub event_count : ℕ → ℕ
  pub queue : List Entry
  pub fresh_event : ℕ

-- `refCount++` and `refCount--` of one object. A count is not 0 when it is decreased.
pub retain : ℕ → (ℕ → ℕ) → ℕ → ℕ
retain i f j = if i == j then f j + 1 else f j

pub release : ℕ → (ℕ → ℕ) → ℕ → ℕ
release i f j = if i == j then f j - 1 else f j

pub retain_all : List ℕ → (ℕ → ℕ) → ℕ → ℕ
retain_all [] f = f
retain_all (i ∷ is) f = retain_all is (retain i f)

pub release_all : List ℕ → (ℕ → ℕ) → ℕ → ℕ
release_all [] f = f
release_all (i ∷ is) f = release_all is (release i f)

abbrev ids : List EventObject → List ℕ
ids [] = []
ids (e ∷ es) = e.id ∷ ids es

-- asyncQueueRetain of the memory objects and asyncEnqueue. `wanted` is whether the caller takes the event.
pub async_enqueue : Request → List ℕ → List EventObject → Bool → Host → Host
async_enqueue request mems wait wanted h =
    let e = h.fresh_event in
    let counts = retain_all (ids wait) h.event_count in
    record h {
      mem_count = retain_all mems h.mem_count;
      event_count = λ j. if e == j then (if wanted then 2 else 1) else counts j;
      queue =
          h.queue
          ++ record { request = request; mem_objects = mems; wait_list = ids wait; event = e } ∷ [];
      fresh_event = e + 1;
    }

-- asyncQueueRelease of a command on buffers; callbacks of its event are the application's.
pub async_queue_release : Entry → Host → Host
async_queue_release c h = record h {
  mem_count = release_all c.mem_objects h.mem_count;
  event_count = release c.event (release_all c.wait_list h.event_count);
}

-- `if (!p) return error`
abbrev pub given {ℓ} : {A : Type ℓ} → Option A → Code → Result Code A
given none c = err c
given (some a) c = ok a

unfoldable pub reject_if : Bool → Code → Result Code (Unit {0})
reject_if true c = err c
reject_if false c = ok tt

-- What holds of a call after a check that it has passed.
pub reject-Holds :
    {A : Type 0} {P : A → Type 0} {r : Result Code A} (t : Bool) (c : Code)
    → (t ≡ false → Holds P r)
    → Holds P (reject_if t c >> r)
unfolding reject_if
reject-Holds true c h = raises
reject-Holds false c h = h refl
