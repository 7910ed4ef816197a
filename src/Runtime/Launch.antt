-- ===== src/Runtime/Launch.antt =====
-- src/runtime/runtime.cpp: clEnqueueNDRangeKernel. A kernel is what the code asks of it; the code does not check
-- its handle, and divides by the local size, so a local size of 0 is not modelled.
pub mod Sizes
use oclgrind.Base.{
  ℕ, zero, suc, ◌+◌, ◌*◌, ◌%◌, Bool, true, false, not, ◌&&◌, ◌||◌, ◌==◌, if◌then◌else◌, ltb, List,
  [], ◌∷◌, Option, none, some, Result, ok, err, ◌>>=◌, ◌>>◌, size_mod,
}
use oclgrind.NdRange.{Size3}
use oclgrind.Runtime.{
  Code, invalid_command_queue, invalid_work_dimension, invalid_work_group_size,
  invalid_work_item_size, invalid_kernel_args, out_of_resources, WaitList, Request, kernel,
  check_event_wait_list, given, reject_if,
}
use oclgrind.Runtime.Transfers.{Accepted}

-- m_device: maxWGSize, localMemSize and constantMemSize.
pub record Device : Type 0 where
  pub max_group_size : ℕ
  pub local_mem_size : ℕ
  pub constant_mem_size : ℕ

-- A buffer argument of a kernel: whether its address space is constant, and its size.
pub record MemArg : Type 0 where
  pub is_constant : Bool
  pub size : ℕ

-- requiresUniformWorkGroups, getRequiredWorkGroupSize, allArgumentsSet, getLocalMemorySize and memArgs.
pub record KernelObject : Type 0 where
  pub id : ℕ
  pub uniform : Bool
  pub required : Size3
  pub all_set : Bool
  pub local_memory : ℕ
  pub mem_args : List MemArg

-- Size3::operator[] of an index below 3.
abbrev pub dimension : Size3 → ℕ → ℕ
dimension s zero = s.x
dimension s (suc zero) = s.y
dimension s (suc (suc i)) = s.z

-- Size3::set of the first `n` values.
abbrev pub set_sizes : Size3 → ℕ → Size3 → Size3
set_sizes values zero s = s
set_sizes values (suc zero) s = record s { x = values.x }
set_sizes values (suc (suc zero)) s = record s { x = values.x; y = values.y }
set_sizes values (suc (suc (suc n))) s = values

-- The checks of one dimension where a local size is given.
unfoldable pub check_size : Device → KernelObject → Size3 → Size3 → ℕ → Result Code (Unit {0})
check_size d k global local i = do
  reject_if (k.uniform && not (dimension global i % dimension local i == 0)) invalid_work_group_size
  reject_if (ltb d.max_group_size (dimension local i)) invalid_work_item_size
  reject_if (not (dimension k.required i == 0) && not (dimension local i == dimension k.required i))
      invalid_work_group_size

-- The loop over the dimensions from `i`, with the rounds that are left; totalWGSize at the end.
unfoldable pub check_sizes : Device → KernelObject → Size3 → Size3 → ℕ → ℕ → ℕ → Result Code ℕ
check_sizes d k global local zero i total = ok total
check_sizes d k global local (suc n) i total =
    check_size d k global local i
    >> check_sizes d k global local n (suc i) (total * dimension local i % size_mod)

abbrev pub total_size : Device → KernelObject → Size3 → Option Size3 → ℕ → Result Code ℕ
total_size d k global none work_dim = ok 1
total_size d k global (some local) work_dim = check_sizes d k global local work_dim 0 1

unfoldable pub constant_size : List MemArg → ℕ
constant_size [] = 0
constant_size (a ∷ rest) =
    if a.is_constant then (a.size + constant_size rest) % size_mod else constant_size rest

abbrev pub size3 : ℕ → Size3
size3 n = record { x = n; y = n; z = n }

abbrev pub or_size : Option Size3 → Size3 → Size3
or_size none default = default
or_size (some s) default = s

abbrev pub sizes_or : Option Size3 → ℕ → Size3 → Size3
sizes_or none work_dim default = default
sizes_or (some s) work_dim default = set_sizes s work_dim default

unfoldable pub enqueue_nd_range_kernel :
    Device
    → Option ℕ
    → KernelObject
    → ℕ
    → Option Size3
    → Option Size3
    → Option Size3
    → WaitList
    → Result Code Accepted
enqueue_nd_range_kernel d queue k work_dim offset global_ptr local_ptr wait = do
  context ← given queue invalid_command_queue
  reject_if ((work_dim == 0) || ltb 3 work_dim) invalid_work_dimension
  events ← check_event_wait_list context wait
  let global = or_size global_ptr (size3 0)
  total ← total_size d k global local_ptr work_dim
  reject_if (ltb d.max_group_size total) invalid_work_group_size
  reject_if (not k.all_set) invalid_kernel_args
  reject_if (ltb d.local_mem_size k.local_memory) out_of_resources
  reject_if (ltb d.constant_mem_size (constant_size k.mem_args)) out_of_resources
  ok (
    kernel k.id (sizes_or offset work_dim (size3 0)) (set_sizes global work_dim (size3 1))
        (sizes_or local_ptr work_dim (size3 1)),
    events,
  )
