-- ===== src/Runtime/Transfers.antt =====
-- src/runtime/runtime.cpp: the entry points that enqueue reads, writes, copies and fills of buffers.
-- Each gives the request of the command, the events that it waits for, or the error.
pub mod Bounds
pub mod Accepted
use oclgrind.Base.{
  ℕ, ◌+◌, ◌-◌, ◌*◌, ◌/◌, ◌%◌, Bool, true, false, not, ◌&&◌, ◌||◌, ◌==◌, if◌then◌else◌, ltb, leb,
  List, [], ◌∷◌, Option, none, some, Result, ok, err, ◌>>=◌, ◌>>◌, length, size_mod, slice,
}
use oclgrind.Commands.{
  Command, copy_buffer, copy_rect, fill_buffer, read_buffer, read_rect, write_buffer, write_rect,
}
use oclgrind.NdRange.{Size3}
use oclgrind.Memory.{Memory, map_buffer}
use oclgrind.Runtime.{
  Code, invalid_command_queue, invalid_mem_object, invalid_value, invalid_operation,
  mem_copy_overlap, MemObject, EventObject, WaitList, Request, transfer, unmap, has,
  host_write_only, host_read_only, host_no_access, check_event_wait_list, given, reject_if,
}

-- The request, and the events in the wait list.
abbrev pub Accepted : Type 0
Accepted = Request × List EventObject

-- The command queue is given by its context.
unfoldable pub enqueue_read_buffer :
    Option ℕ → Option MemObject → ℕ → ℕ → Option (List ℕ) → WaitList → Result Code Accepted
enqueue_read_buffer queue buffer offset cb ptr wait = do
  context ← given queue invalid_command_queue
  b ← given buffer invalid_mem_object
  host ← given ptr invalid_value
  reject_if (ltb b.size ((offset + cb) % size_mod)) invalid_value
  reject_if (has host_no_access b.flags || has host_write_only b.flags) invalid_operation
  events ← check_event_wait_list context wait
  ok (
    transfer (read_buffer (record { address = (b.address + offset) % size_mod; size = cb }) host),
    events,
  )

pub enqueue_write_buffer :
    Option ℕ → Option MemObject → ℕ → ℕ → Option (List ℕ) → WaitList → Result Code Accepted
enqueue_write_buffer queue buffer offset cb ptr wait = do
  context ← given queue invalid_command_queue
  b ← given buffer invalid_mem_object
  host ← given ptr invalid_value
  reject_if (ltb b.size ((offset + cb) % size_mod)) invalid_value
  reject_if (has host_no_access b.flags || has host_read_only b.flags) invalid_operation
  events ← check_event_wait_list context wait
  ok (
    transfer (write_buffer (record { address = (b.address + offset) % size_mod; size = cb }) host),
    events,
  )

-- `if (pitch == 0) pitch = ...`
abbrev pub pitch_or : ℕ → ℕ → ℕ
pitch_or pitch default = if pitch == 0 then default else pitch

-- The three offsets of a side of a rectangle: of its origin, and the pitches of rows and of slices.
pub rect_offsets : Size3 → Size3 → ℕ → ℕ → Size3
rect_offsets origin region row_pitch slice_pitch =
    let row = pitch_or row_pitch region.x in
    let slice = pitch_or slice_pitch (region.y * row % size_mod) in
    record { x = (origin.z * slice + origin.y * row + origin.x) % size_mod; y = row; z = slice }

-- `offset + region[0] + (region[1] - 1) * row_pitch + (region[2] - 1) * slice_pitch`, in size_t.
pub rect_end : Size3 → Size3 → ℕ
rect_end o region =
    (o.x
      + region.x
      + (region.y + size_mod - 1) % size_mod * o.y
      + (region.z + size_mod - 1) % size_mod * o.z)
    % size_mod

pub enqueue_read_buffer_rect :
    Option ℕ
    → Option MemObject
    → Size3
    → Size3
    → Size3
    → ℕ
    → ℕ
    → ℕ
    → ℕ
    → Option (List ℕ)
    → WaitList
    → Result Code Accepted
enqueue_read_buffer_rect queue buffer buffer_origin host_origin region buffer_row buffer_slice
      host_row host_slice ptr wait =
    do
      context ← given queue invalid_command_queue
      b ← given buffer invalid_mem_object
      host ← given ptr invalid_value
      reject_if (has host_no_access b.flags || has host_write_only b.flags) invalid_operation
      events ← check_event_wait_list context wait
      let o = rect_offsets buffer_origin region buffer_row buffer_slice
      reject_if (ltb b.size (rect_end o region)) invalid_value
      ok (
        transfer (
            read_rect
              (record {
                address = b.address;
                region = region;
                host_offset = rect_offsets host_origin region host_row host_slice;
                buffer_offset = o;
              })
              host),
        events,
      )

pub enqueue_write_buffer_rect :
    Option ℕ
    → Option MemObject
    → Size3
    → Size3
    → Size3
    → ℕ
    → ℕ
    → ℕ
    → ℕ
    → Option (List ℕ)
    → WaitList
    → Result Code Accepted
enqueue_write_buffer_rect queue buffer buffer_origin host_origin region buffer_row buffer_slice
      host_row host_slice ptr wait =
    do
      context ← given queue invalid_command_queue
      b ← given buffer invalid_mem_object
      host ← given ptr invalid_value
      reject_if (has host_no_access b.flags || has host_read_only b.flags) invalid_operation
      events ← check_event_wait_list context wait
      let o = rect_offsets buffer_origin region buffer_row buffer_slice
      reject_if (ltb b.size (rect_end o region)) invalid_value
      ok (
        transfer (
            write_rect
              (record {
                address = b.address;
                region = region;
                host_offset = rect_offsets host_origin region host_row host_slice;
                buffer_offset = o;
              })
              host),
        events,
      )

pub enqueue_copy_buffer :
    Option ℕ → Option MemObject → Option MemObject → ℕ → ℕ → ℕ → WaitList → Result Code Accepted
enqueue_copy_buffer queue src_buffer dst_buffer src_offset dst_offset cb wait = do
  context ← given queue invalid_command_queue
  src ← given src_buffer invalid_mem_object
  dst ← given dst_buffer invalid_mem_object
  reject_if (ltb dst.size ((dst_offset + cb) % size_mod)) invalid_value
  reject_if (ltb src.size ((src_offset + cb) % size_mod)) invalid_value
  reject_if
      ((src.id == dst.id)
        && (leb src_offset dst_offset && ltb dst_offset ((src_offset + cb) % size_mod)))
      mem_copy_overlap
  reject_if
      ((src.id == dst.id)
        && (leb dst_offset src_offset && ltb src_offset ((dst_offset + cb) % size_mod)))
      mem_copy_overlap
  events ← check_event_wait_list context wait
  ok (
    transfer (
        copy_buffer (record {
          src = (src.address + src_offset) % size_mod;
          dst = (dst.address + dst_offset) % size_mod;
          size = cb;
        })),
    events,
  )

pub is_empty : Size3 → Bool
is_empty region = (region.x == 0) || ((region.y == 0) || (region.z == 0))

pub enqueue_copy_buffer_rect :
    Option ℕ
    → Option MemObject
    → Option MemObject
    → Size3
    → Size3
    → Option Size3
    → ℕ
    → ℕ
    → ℕ
    → ℕ
    → WaitList
    → Result Code Accepted
enqueue_copy_buffer_rect queue src_buffer dst_buffer src_origin dst_origin region_ptr src_row
      src_slice dst_row dst_slice wait =
    do
      context ← given queue invalid_command_queue
      src ← given src_buffer invalid_mem_object
      dst ← given dst_buffer invalid_mem_object
      region ← given region_ptr invalid_value
      reject_if (is_empty region) invalid_value
      events ← check_event_wait_list context wait
      let from = rect_offsets src_origin region src_row src_slice
      let to = rect_offsets dst_origin region dst_row dst_slice
      reject_if (ltb src.size (rect_end from region)) invalid_value
      reject_if (ltb dst.size (rect_end to region)) invalid_value
      ok (
        transfer (
            copy_rect (record {
              src = src.address;
              dst = dst.address;
              region = region;
              src_offset = from;
              dst_offset = to;
            })),
        events,
      )

pub enqueue_fill_buffer :
    Option ℕ → Option MemObject → Option (List ℕ) → ℕ → ℕ → ℕ → WaitList → Result Code Accepted
enqueue_fill_buffer queue buffer pattern_ptr pattern_size offset cb wait = do
  context ← given queue invalid_command_queue
  b ← given buffer invalid_mem_object
  reject_if (ltb b.size ((offset + cb) % size_mod)) invalid_value
  pattern ← given pattern_ptr invalid_value
  reject_if (pattern_size == 0) invalid_value
  reject_if (not (offset % pattern_size == 0)) invalid_value
  reject_if (not (cb % pattern_size == 0)) invalid_value
  events ← check_event_wait_list context wait
  ok (
    transfer (
        fill_buffer (record {
          address = (b.address + offset) % size_mod;
          size = cb;
          pattern_size = pattern_size;
          pattern = slice 0 pattern_size pattern;
        })),
    events,
  )

-- The entry points above, with their arguments except for the queue and the wait list.
pub data ApiCall : Type 0 where
  read : Option MemObject → ℕ → ℕ → Option (List ℕ) → ApiCall
  write : Option MemObject → ℕ → ℕ → Option (List ℕ) → ApiCall
  reads_rect : Option MemObject → Size3 → Size3 → Size3 → ℕ → ℕ → ℕ → ℕ → Option (List ℕ) → ApiCall
  writes_rect : Option MemObject → Size3 → Size3 → Size3 → ℕ → ℕ → ℕ → ℕ → Option (List ℕ) → ApiCall
  copy : Option MemObject → Option MemObject → ℕ → ℕ → ℕ → ApiCall
  copies_rect :
      Option MemObject → Option MemObject → Size3 → Size3 → Option Size3 → ℕ → ℕ → ℕ → ℕ → ApiCall
  fill : Option MemObject → Option (List ℕ) → ℕ → ℕ → ℕ → ApiCall

unfoldable pub enqueue : Option ℕ → ApiCall → WaitList → Result Code Accepted
enqueue queue (read b offset cb ptr) wait = enqueue_read_buffer queue b offset cb ptr wait
enqueue queue (write b offset cb ptr) wait = enqueue_write_buffer queue b offset cb ptr wait
enqueue queue (reads_rect b o h r br bs hr hs ptr) wait =
    enqueue_read_buffer_rect queue b o h r br bs hr hs ptr wait
enqueue queue (writes_rect b o h r br bs hr hs ptr) wait =
    enqueue_write_buffer_rect queue b o h r br bs hr hs ptr wait
enqueue queue (copy src dst from to cb) wait = enqueue_copy_buffer queue src dst from to cb wait
enqueue queue (copies_rect src dst so to r sr ss dr ds) wait =
    enqueue_copy_buffer_rect queue src dst so to r sr ss dr ds wait
enqueue queue (fill b pattern n offset cb) wait =
    enqueue_fill_buffer queue b pattern n offset cb wait
