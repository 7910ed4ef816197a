-- ===== src/Runtime/Examples.antt =====
-- Witnesses and tests for the entry points on buffers.
use oclgrind.Base.{
  ℕ, ◌≡◌, ◌+◌, ◌%◌, ◌≤◌, refl, arith, true, false, List, [], ◌∷◌, none, some, Result, err, ok, All,
  size_mod,
}
use oclgrind.Memory.Examples.{one_buffer, one_buffer-Wf, first, one_buffer-Live, eight_small}
use oclgrind.Memory.Ranges.{Live-range}
use oclgrind.Commands.{read_buffer}
use oclgrind.Runtime.{
  MemObject, WaitList, Code, Request, transfer, kernel, unmap, invalid_operation, reject_if,
  check_event_wait_list,
}
use oclgrind.Runtime.Transfers.{read, enqueue, enqueue_read_buffer}
use oclgrind.Runtime.Transfers.Bounds.{Backed}
use oclgrind.Runtime.Transfers.Accepted.{InBounds, enqueue-InBounds}
use oclgrind.Runtime.Objects.{create_buffer, create_sub_buffer, sub_buffer_flags, copy_host_ptr}
use oclgrind.NdRange.{Size3}
use oclgrind.Commands.Schedule.{State, is_pending, complete, failed}
use oclgrind.Commands.Schedule.Finish.{Ready}
use oclgrind.Commands.Schedule.Examples.{in_order, log, two_queued, two-Ready}
use oclgrind.Runtime.Maps.{enqueue_map_buffer, enqueue_unmap_mem_object}
use oclgrind.Runtime.Events.{negative, create_user_event, set_user_event_status, wait_for_events}
use oclgrind.Runtime.Events.Waiting.{wait_for_events-returns}
use oclgrind.Runtime.Launch.{
  Device, KernelObject, size3, enqueue_nd_range_kernel, check_sizes, check_size, constant_size,
}
use oclgrind.Runtime.Launch.Sizes.{Launch, enqueue_nd_range_kernel-Launch}
use oclgrind.Runtime.Objects.Creation.{Created, create_buffer-Created, create_sub_buffer-Backed}

-- The object of the buffer of eight bytes.
abbrev whole : MemObject
whole = record {
  id = 1;
  context = 0;
  parent = none;
  address = first;
  size = 8;
  offset = 0;
  flags = 1;
}

whole-Backed : Backed one_buffer whole
whole-Backed k n le = Live-range one_buffer first 8 k n one_buffer-Wf one_buffer-Live eight_small le

abbrev no_events : WaitList
no_events = record { number = 0; events = none }

abbrev reads_three : Request
reads_three =
    transfer (read_buffer (record { address = (first + 5) % size_mod; size = 3 }) (0 ∷ 0 ∷ 0 ∷ []))

accepts :
    enqueue (some 0) (read (some whole) 5 3 (some (0 ∷ 0 ∷ 0 ∷ []))) no_events
    ≡ ok (reads_three, [])
unfolding enqueue enqueue_read_buffer reject_if check_event_wait_list
accepts = refl

enqueue-InBounds_example : InBounds one_buffer reads_three
enqueue-InBounds_example =
    enqueue-InBounds one_buffer (some 0) (read (some whole) 5 3 (some (0 ∷ 0 ∷ 0 ∷ []))) no_events
      reads_three [] (whole-Backed, omega arith) accepts

create_buffer-Created_example :
    Created one_buffer copy_host_ptr 4
      (some (1 ∷ 2 ∷ 3 ∷ 4 ∷ []))
      (create_buffer 2 (some 0) copy_host_ptr 4 (some (1 ∷ 2 ∷ 3 ∷ 4 ∷ [])) one_buffer)
create_buffer-Created_example =
    create_buffer-Created 2 (some 0) one_buffer copy_host_ptr 4 (some (1 ∷ 2 ∷ 3 ∷ 4 ∷ []))
      one_buffer-Wf (omega (arith, eight_small)) (omega arith)

abbrev half : MemObject
half = record {
  id = 3;
  context = 0;
  parent = some 1;
  address = (first + 4) % size_mod;
  size = 4;
  offset = 4;
  flags = sub_buffer_flags 0 1;
}

makes_half : create_sub_buffer 3 (some whole) 0 true (some (4, 4)) ≡ ok half
unfolding create_sub_buffer reject_if
makes_half = refl

create_sub_buffer-Backed_example :
    Backed one_buffer half × (half.parent ≡ some 1) × (half.offset + half.size ≤ 8)
create_sub_buffer-Backed_example =
    create_sub_buffer-Backed 3 one_buffer whole half 0 true 4 4 whole-Backed (omega arith)
      makes_half

-- A kernel whose groups have to be uniform, launched in two dimensions.
abbrev device : Device
device = record { max_group_size = 1024; local_mem_size = 32768; constant_mem_size = 65536 }

abbrev kernel_object : KernelObject
kernel_object = record {
  id = 7;
  uniform = true;
  required = size3 0;
  all_set = true;
  local_memory = 128;
  mem_args = record { is_constant = true; size = 8 } ∷ [];
}

abbrev square : ℕ → Size3
square n = record { x = n; y = n; z = 0 }

abbrev launched : Request
launched = kernel 7 (size3 0) (record { x = 64; y = 64; z = 1 }) (record { x = 8; y = 8; z = 1 })

launches :
    enqueue_nd_range_kernel device
      (some 0)
      kernel_object
      2
      none
      (some (square 64))
      (some (square 8))
      no_events
    ≡ ok (launched, [])
unfolding enqueue_nd_range_kernel reject_if check_event_wait_list check_sizes check_size
    constant_size
launches = refl

enqueue_nd_range_kernel-Launch_example : Launch device kernel_object launched
enqueue_nd_range_kernel-Launch_example =
    enqueue_nd_range_kernel-Launch device (some 0) kernel_object 2 none (some (square 64))
      (some (square 8)) no_events launched [] (omega arith) (omega arith) launches

-- clWaitForEvents of the second of two commands.
wait_for_events-returns_example :
    (t : State (List ℕ)) × (r : Result Code (Unit {0})) × (wait_for_events in_order log 1 12 1
        (some (2 ∷ []))
        two_queued
      ≡ some (t, r))
    × Ready in_order 1 t
    × All (λ e. is_pending (t.status e) ≡ false) (2 ∷ [])
    × (r ≡ ok tt → All (λ e. t.status e ≡ complete) (2 ∷ []))
wait_for_events-returns_example =
    wait_for_events-returns in_order log 1 12 0 0 (2 ∷ []) two_queued two-Ready (omega arith, tt)

-- The application sets the state of its event.
user_event_fails :
    (elim (set_user_event_status in_order log
      (some 0)
      (negative 4)
      (create_user_event in_order log 0 two_queued)) [ err c ↦ complete | ok t ↦ t.status 0 ])
    ≡ failed 4
unfolding set_user_event_status create_user_event reject_if
user_event_fails = refl

-- A buffer that the host does not write can be mapped for reading only.
abbrev read_only : MemObject
read_only = record whole { flags = 257 }

maps_for_writing :
    enqueue_map_buffer one_buffer (some 0) (some read_only) 2 0 4 no_events ≡ err invalid_operation
unfolding enqueue_map_buffer reject_if
maps_for_writing = refl

unmaps : enqueue_unmap_mem_object (some 0) (some whole) (some 9) no_events ≡ ok (unmap first 9, [])
unfolding enqueue_unmap_mem_object check_event_wait_list
unmaps = refl
