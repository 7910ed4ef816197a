-- ===== src/Runtime/Maps.antt =====
-- src/runtime/runtime.cpp: clEnqueueMapBuffer and clEnqueueUnmapMemObject. A pointer that Memory::mapBuffer gives is a buffer
-- number and an offset in it.
use oclgrind.Base.{ℕ, ◌+◌, ◌%◌, ◌&&◌, ◌||◌, ltb, Option, Result, ok, ◌>>=◌, ◌>>◌, size_mod}
use oclgrind.Memory.{Memory, map_buffer}
use oclgrind.Runtime.{
  Code, invalid_command_queue, invalid_mem_object, invalid_value, invalid_operation, MemObject,
  WaitList, Request, unmap, has, host_write_only, host_read_only, host_no_access,
  check_event_wait_list, given, reject_if,
}
use oclgrind.Runtime.Transfers.{Accepted}

abbrev map_read : ℕ
map_read = 1

abbrev map_write : ℕ
map_write = 2

-- With the pointer that the call returns.
unfoldable pub enqueue_map_buffer :
    Memory → Option ℕ → Option MemObject → ℕ → ℕ → ℕ → WaitList → Result Code (Accepted × (ℕ × ℕ))
enqueue_map_buffer m queue buffer map_flags offset cb wait = do
  context ← given queue invalid_command_queue
  b ← given buffer invalid_mem_object
  reject_if (has map_write map_flags && (has host_no_access b.flags || has host_read_only b.flags))
      invalid_operation
  reject_if (has map_read map_flags && (has host_no_access b.flags || has host_write_only b.flags))
      invalid_operation
  events ← check_event_wait_list context wait
  reject_if (ltb b.size ((offset + cb) % size_mod)) invalid_value
  ptr ← given (map_buffer m b.address offset cb) invalid_value
  ok ((Request.map_buffer b.address offset cb map_flags, events), ptr)

unfoldable pub enqueue_unmap_mem_object :
    Option ℕ → Option MemObject → Option ℕ → WaitList → Result Code Accepted
enqueue_unmap_mem_object queue memobj mapped_ptr wait = do
  context ← given queue invalid_command_queue
  o ← given memobj invalid_mem_object
  ptr ← given mapped_ptr invalid_value
  events ← check_event_wait_list context wait
  ok (unmap o.address ptr, events)
