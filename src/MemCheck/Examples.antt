-- ===== src/MemCheck/Examples.antt =====
-- The theorems on the memory checker at a buffer of eight bytes.
use oclgrind.Base.{
  ℕ, ◌+◌, ◌^◌, ◌≡◌, ◌⊎◌, ◌↔◌, refl, arith, true, false, [], ◌∷◌, none, some, replicate,
}
use oclgrind.Memory.{Memory, global_space, is_address_valid, get_buffer}
use oclgrind.MemCheck.{MapRegion, write, check_store, has_flag, is_mappable}
use oclgrind.MemCheck.Regions.{Unmapped, check_store-Unmapped}

abbrev bytes : Memory
bytes = record {
  address_space = global_space;
  num_bits_buffer = 16;
  num_bits_address = 48;
  max_num_buffers = 0xffff;
  max_buffer_size = 2 ^ 48;
  memory = none ∷ some (record { size = 8; flags = 0; bytes = replicate 8 0 }) ∷ [];
  free_buffers = [];
  total_allocated = 8;
  notes = [];
}

abbrev base : ℕ
base = 2 ^ 48

-- The first two bytes are mapped for writing.
abbrev region : MapRegion
region = record { address = base; offset = 0; size = 2; ptr = some (1, 0); kind = write }

check_store-Unmapped_example : (check_store (region ∷ []) bytes (base + 4) 2 ≡ []) ↔ (
    (is_address_valid bytes (base + 4) 2 ≡ true)
    × (has_flag 4 (get_buffer bytes (base + 4)) ≡ false)
    × ((is_mappable bytes.address_space ≡ false) ⊎ Unmapped (base + 4) 2 (region ∷ [])))
check_store-Unmapped_example =
    check_store-Unmapped (region ∷ []) bytes (base + 4) 2 (omega arith)
      ((refl, omega arith, omega arith), tt)
