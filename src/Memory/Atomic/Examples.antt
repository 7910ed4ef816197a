-- ===== src/Memory/Atomic/Examples.antt =====
-- The theorems on the atomic operations at a concrete state.
use oclgrind.Base.{ℕ, ◌+◌, ◌%◌, ◌^◌, ◌≡◌, refl, arith, [], ◌∷◌, some, total}
use oclgrind.Memory.{
  Memory, AtomicOp, dec, private_space, init, allocate_buffer, insert_buffer, initial_bytes,
  get_next_buffer, next_buffer_of, place, notify, buffer_address, extract_buffer, extract_offset,
  slot, load, checked, is_address_valid, fits,
}
use oclgrind.Memory.Invariant.{Wf}
use oclgrind.Memory.Growth.{allocate_buffer-Wf}
use oclgrind.Memory.Updates.{init-Wf}
use oclgrind.Memory.Atomic.{uint32, int32, modulus, atomic, apply, less}
use oclgrind.Memory.Atomic.Laws.{Updated, word_of, atomic_lem}
use oclgrind.Memory.Atomic.Sums.{atomic_adds, atomic_adds_sum}

-- A buffer of two words, of which the first is 0xffffffff.
words : Memory
unfolding init allocate_buffer insert_buffer initial_bytes get_next_buffer next_buffer_of place
    notify buffer_address
words =
    (allocate_buffer (init private_space 32) 8 0
      (some (255 ∷ 255 ∷ 255 ∷ 255 ∷ 1 ∷ 0 ∷ 0 ∷ 0 ∷ []))).0

words-Wf : Wf words
unfolding words
words-Wf =
    allocate_buffer-Wf (init private_space 32) 8 0
      (some (255 ∷ 255 ∷ 255 ∷ 255 ∷ 1 ∷ 0 ∷ 0 ∷ 0 ∷ []))
      (init-Wf private_space 32 (omega arith) (omega arith)) refl

abbrev first : ℕ
first = 2 ^ 32

-- The largest of -1 and 1, as int32_t.
signed_max : apply int32 AtomicOp.max 0xffff_ffff 1 ≡ some 1
unfolding apply less
signed_max = refl

atomic_example :
    Updated words uint32
      (first + 4)
      (word_of (load words (first + 4) 4).1)
      0
      (atomic words uint32 dec (first + 4) 0)
unfolding words load checked is_address_valid fits extract_buffer extract_offset slot apply
atomic_example = atomic_lem words uint32 dec (first + 4) 0 0 words-Wf (omega arith) refl refl

atomic_adds_sum_example :
    (m' : Memory) × (atomic_adds words uint32 first (3 ∷ 4 ∷ []) ≡ some m')
    × (word_of (load m' first 4).1 % modulus uint32
        ≡ (word_of (load words first 4).1 + total (λ v. v) (3 ∷ 4 ∷ [])) % modulus uint32)
unfolding words is_address_valid fits extract_buffer extract_offset slot
atomic_adds_sum_example =
    atomic_adds_sum words uint32 first (3 ∷ 4 ∷ []) words-Wf (omega arith) refl
