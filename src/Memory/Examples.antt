-- ===== src/Memory/Examples.antt =====
-- The theorems on src/core/Memory.cpp at concrete states.
use oclgrind.Base.{
  ℕ, ◌+◌, ◌-◌, ◌^◌, ◌≡◌, ◌<◌, ◌≤◌, refl, arith, true, false, [], ◌∷◌, none, some, size_mod,
}
use oclgrind.Memory.{
  Memory, Buffer, global_space, init, allocate_buffer, insert_buffer, initial_bytes,
  get_next_buffer, next_buffer_of, place, notify, buffer_address, deallocate_buffer, extract_buffer,
  extract_offset, slot, store, load, copy, checked, is_address_valid, fits, write_bytes,
}
use oclgrind.Memory.Ranges.{Live}
use oclgrind.Memory.Invariant.{Wf}
use oclgrind.Memory.Growth.{allocate_buffer-Wf}
use oclgrind.Memory.Updates.{init-Wf}
use oclgrind.Memory.Store.{Stored, Copied, store_lem, copy_lem}
use oclgrind.Memory.Lifetime.{
  Allocated, Freed, released, allocate_buffer_lem, deallocate_buffer_lem, is_address_valid_wraps,
}
use oclgrind.Memory.History.{start, next, step, allocates, stores, Reach-Wf}

-- Global memory, with one buffer of eight bytes.
empty : Memory
unfolding init
empty = init global_space 16

pub one_buffer : Memory
unfolding empty allocate_buffer insert_buffer initial_bytes get_next_buffer next_buffer_of place
    notify buffer_address
one_buffer = (allocate_buffer empty 8 0 none).0

empty-Wf : Wf empty
unfolding empty
empty-Wf = init-Wf global_space 16 (omega arith) (omega arith)

pub one_buffer-Wf : Wf one_buffer
unfolding one_buffer
one_buffer-Wf = allocate_buffer-Wf empty 8 0 none empty-Wf tt

abbrev pub first : ℕ
first = 2 ^ 48

pub one_buffer_live : (b : Buffer) × (slot one_buffer (extract_buffer one_buffer first) ≡ some b)
unfolding one_buffer slot extract_buffer
one_buffer_live = (_, refl)

-- Three bytes of it.
pub eight_fit : 8 < one_buffer.max_buffer_size
unfolding one_buffer
eight_fit = omega arith

pub three_fit : 3 ≤ one_buffer.max_buffer_size
unfolding one_buffer
three_fit = omega arith

pub three_valid : is_address_valid one_buffer (first + 1) 3 ≡ true
unfolding one_buffer is_address_valid fits extract_buffer extract_offset slot
three_valid = refl

abbrev eight : Buffer
eight = record { size = 8; flags = 0; bytes = 0 ∷ 0 ∷ 0 ∷ 0 ∷ 0 ∷ 0 ∷ 0 ∷ 0 ∷ [] }

pub one_buffer-Live : Live one_buffer first 8
unfolding one_buffer slot extract_buffer extract_offset
one_buffer-Live = (eight, refl, refl, λ e. omega (arith, e), refl)

pub eight_small : 8 < one_buffer.max_buffer_size
unfolding one_buffer
eight_small = omega arith

stored_then_loaded :
    (load (store one_buffer (first + 2) (7 ∷ 9 ∷ [])).0 first 5).1 ≡ some (0 ∷ 0 ∷ 7 ∷ 9 ∷ 0 ∷ [])
unfolding one_buffer store load checked write_bytes is_address_valid fits extract_buffer
    extract_offset slot
stored_then_loaded = refl

out_of_bounds : (store one_buffer (first + 7) (7 ∷ 9 ∷ [])).1 ≡ false
unfolding one_buffer store load checked write_bytes is_address_valid fits extract_buffer
    extract_offset slot
out_of_bounds = refl

store_example :
    Stored one_buffer (first + 2) (7 ∷ 9 ∷ []) (store one_buffer (first + 2) (7 ∷ 9 ∷ []))
unfolding one_buffer
store_example = store_lem one_buffer (first + 2) (7 ∷ 9 ∷ []) one_buffer-Wf (omega arith)

copy_example : Copied one_buffer (first + 4) first 4 (copy one_buffer (first + 4) first 4)
unfolding one_buffer
copy_example = copy_lem one_buffer (first + 4) first 4 one_buffer-Wf (omega arith)

allocate_buffer_example : Allocated empty eight (allocate_buffer empty 8 0 none)
unfolding initial_bytes
allocate_buffer_example = allocate_buffer_lem empty 8 0 none empty-Wf

deallocate_buffer_example : Freed one_buffer (first + 3) (released one_buffer (first + 3) 1 eight)
unfolding one_buffer deallocate_buffer extract_buffer slot
deallocate_buffer_example =
    deallocate_buffer_lem one_buffer (released one_buffer (first + 3) 1 eight) (first + 3)
      one_buffer-Wf (omega arith) refl

is_address_valid_wraps_example : is_address_valid one_buffer (first + 3) (size_mod - 3) ≡ true
unfolding one_buffer extract_buffer extract_offset slot
is_address_valid_wraps_example =
    is_address_valid_wraps one_buffer (first + 3) eight refl (omega arith) (omega arith)
      (omega arith)

Reach-Wf_example : Wf (store one_buffer first (5 ∷ [])).0
unfolding step one_buffer empty
Reach-Wf_example = Reach-Wf global_space 16 (omega arith) (omega arith) (
    next {m = one_buffer} (stores first (5 ∷ [])) (next (allocates 8 0 none) start tt refl) tt refl)
