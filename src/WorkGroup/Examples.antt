-- ===== src/WorkGroup/Examples.antt =====
-- The theorems on work-groups at a group of two work-items.
use oclgrind.Base.{ℕ, ◌≡◌, ◌⊎◌, refl, List, [], ◌∷◌, none, some}
use oclgrind.Memory.{Memory, private_space}
use oclgrind.NdRange.{Size3}
use oclgrind.WorkGroup.{
  WorkGroup, Barrier, Memories, begin, insert_items, clear_barrier, get_next_work_item,
}
use oclgrind.WorkGroup.Sets.{In, precedes, insert_item}
use oclgrind.WorkGroup.Events.{Member, Gone, clear_barrier_lem}
use oclgrind.WorkGroup.Schedule.{ready, finished, Run, Step, wait, reach_barrier}
use oclgrind.WorkGroup.Progress.{start, next, progress}

abbrev empty_memory : Memory
empty_memory = record {
  address_space = private_space;
  num_bits_buffer = 32;
  num_bits_address = 32;
  max_num_buffers = 0xffff_ffff;
  max_buffer_size = 0x1_0000_0000;
  memory = none ∷ [];
  free_buffers = [];
  total_allocated = 0;
  notes = [];
}

abbrev memories : Memories
memories = record { local = empty_memory; global = empty_memory }

abbrev first : Size3
first = record { x = 0; y = 0; z = 0 }

abbrev second : Size3
second = record { x = 1; y = 0; z = 0 }

abbrev pair : List Size3
pair = first ∷ second ∷ []

-- A new array holds zeros, and each instruction has a location of its own.
abbrev zeros : ℕ → List ℕ
zeros n = []

abbrev place_of : ℕ → ℕ
place_of i = i

abbrev at_start : Run
at_start = record { group = begin pair memories; state = λ i. ready }

-- The first work-item has reached a barrier.
abbrev one_waits : Run
one_waits = reach_barrier place_of first 40 1 [] at_start

progress_example :
    ((i : Size3) → In i pair → one_waits.state i ≡ finished)
    ⊎ ((r' : Run) × Step zeros place_of one_waits r')
unfolding begin insert_items insert_item precedes get_next_work_item
progress_example =
    progress zeros place_of pair memories one_waits (next start (wait first 40 1 [] refl refl))

-- All are at the barrier, which waits for an event.
abbrev barrier : Barrier
barrier = record { instruction = 40; work_items = pair; fence = 1; events = 1 ∷ [] }

abbrev waiting : WorkGroup
waiting = record {
  work_items = pair;
  running = [];
  barrier = some barrier;
  next_event = 2;
  async_copies = [];
  events = (1, []) ∷ [];
  memories = memories;
  log = [];
}

clear_barrier_example :
    (s' : WorkGroup) × (clear_barrier zeros waiting ≡ some s')
    × (s'.barrier ≡ none)
    × (s'.work_items ≡ pair)
    × (s'.running ≡ insert_items pair [])
    × ((e : ℕ) → Member e (1 ∷ []) → Gone e s')
clear_barrier_example = clear_barrier_lem zeros waiting barrier refl
