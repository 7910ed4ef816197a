-- ===== src/Memory/History.antt =====
-- src/core/Memory.cpp: any sequence of calls of a simulated address space.
use oclgrind.Base.{ℕ, ◌≡◌, ◌≤◌, List, Option, none, some, length, Option-cases, inl, inr, subst}
use oclgrind.Memory.{
  Memory, AddressSpace, AtomicOp, init, allocate_buffer, create_host_buffer, deallocate_buffer,
  store, load, copy, clear,
}
use oclgrind.Memory.Atomic.{Word, atomic, atomic_cmpxchg}
use oclgrind.Memory.Atomic.Laws.{Keeps, atomic-Wf, atomic_cmpxchg-Wf}
use oclgrind.Memory.Growth.{IsBlock, allocate_buffer-Wf, create_host_buffer-Wf}
use oclgrind.Memory.Invariant.{Wf, deallocate_buffer-Wf, store-Wf, load-Wf}
use oclgrind.Memory.Updates.{init-Wf, clear-Wf, copy-Wf}

pub data Call : Type 0 where
  allocates : (size flags : ℕ) (init_data : Option (List ℕ)) → Call
  hosts : (size flags : ℕ) (host : List ℕ) → Call
  deallocates : (address : ℕ) → Call
  stores : (address : ℕ) (source : List ℕ) → Call
  loads : (address size : ℕ) → Call
  copies : (dst src size : ℕ) → Call
  atomics : (t : Word) (op : AtomicOp) (address value : ℕ) → Call
  cmpxchgs : (t : Word) (address cmp value : ℕ) → Call
  clears : Call

-- The blocks that a call passes have the sizes that it says.
abbrev pub IsCall : Call → Type 0
IsCall (allocates size flags source) = IsBlock size source
IsCall (hosts size flags host) = length host ≡ size
IsCall _ = Unit

abbrev state_of : Option (Memory × ℕ) → Option Memory
state_of none = none
state_of (some r) = some r.0

-- The state after a call; `none` where an assertion fails or a fatal error is thrown.
unfoldable pub step : Memory → Call → Option Memory
step m (allocates size flags source) = some (allocate_buffer m size flags source).0
step m (hosts size flags host) = some (create_host_buffer m size host flags).0
step m (deallocates address) = deallocate_buffer m address
step m (stores address source) = some (store m address source).0
step m (loads address size) = some (load m address size).0
step m (copies dst src size) = some (copy m dst src size).0
step m (atomics t op address value) = state_of (atomic m t op address value)
step m (cmpxchgs t address cmp value) = some (atomic_cmpxchg m t address cmp value).0
step m clears = some (clear m)

abbrev pub Holds : Option Memory → Type 0
Holds none = Unit
Holds (some m) = Wf m

step-Wf : (m : Memory) (c : Call) → IsCall c → Wf m → Holds (step m c)
unfolding step
step-Wf m (allocates size flags source) h w = allocate_buffer-Wf m size flags source w h
step-Wf m (hosts size flags host) h w = create_host_buffer-Wf m size flags host w h
step-Wf m (deallocates address) h w = elim (Option-cases (deallocate_buffer m address)) [
  | inl e ↦ rw e tt
  | inr (m', e) ↦ rw e (deallocate_buffer-Wf m m' address w e)
]
step-Wf m (stores address source) h w = store-Wf m address source w
step-Wf m (loads address size) h w = load-Wf m address size w
step-Wf m (copies dst src size) h w = copy-Wf m dst src size w
step-Wf m (atomics t op address value) h w = elim (Option-cases (atomic m t op address value)) [
  | inl e ↦ rw e tt
  | inr (r, e) ↦ rw e (subst Keeps e (atomic-Wf m t op address value w))
]
step-Wf m (cmpxchgs t address cmp value) h w = atomic_cmpxchg-Wf m t address cmp value w
step-Wf m clears h w = clear-Wf m w.geometry

-- The states that any sequence of calls reaches from the constructor's.
pub data Reach (space : AddressSpace) (bits : ℕ) : Memory → Type 0 where
  start : Reach space bits (init space bits)
  next :
      {m m' : Memory} (c : Call)
      → Reach space bits m
      → IsCall c
      → step m c ≡ some m'
      → Reach space bits m'

-- Whatever calls have been made of an address space whose addresses have 1 to 32 bits for the buffer
-- number: buffer 0 is never used, every buffer has as many bytes as its size says and is not larger than
-- the offsets reach, the queue of free numbers holds each other empty slot once, and the total that is
-- allocated is the sum of the sizes.
pub Reach-Wf :
    (space : AddressSpace) (bits : ℕ) {m : Memory}
    → 1 ≤ bits
    → bits ≤ 32
    → Reach space bits m
    → Wf m
Reach-Wf space bits lo hi start = init-Wf space bits lo hi
Reach-Wf space bits lo hi (next {m} c r h e) =
    subst Holds e (step-Wf m c h (Reach-Wf space bits lo hi r))
