-- ===== src/Commands/Filling.antt =====
-- src/core/Queue.cpp: what executeFillBuffer leaves in the buffer.
use oclgrind.Base.{ℕ, ◌+◌, ◌*◌, ◌%◌, ◌≤◌, ◌<◌, ◌≡◌, ◌⊎◌, Bool, true, false, List, length, size_mod}
use oclgrind.Memory.{Memory, load, store, is_address_valid}
use oclgrind.Memory.Invariant.{Wf}
use oclgrind.Memory.Ranges.{Live}
use oclgrind.Memory.Store.{Stored}

-- A store to a valid range succeeds.
stored :
    (m : Memory) (a : ℕ) (source : List ℕ) (r : Memory × Bool)
    → is_address_valid m a (length source) ≡ true
    → Stored m a source r
    → Stored m a source (r.0, true)
stored m a source (m', true) v h = h
stored m a source (m', false) v h = cc (v, h.0)

module _ (a size offset : ℕ) (pattern : List ℕ) (positive : 0 < length pattern) where
  abbrev start : ℕ → ℕ
  start i = offset + i * length pattern

  abbrev put : ℕ → Memory → Memory
  put i m = (store m ((a + offset + i * length pattern) % size_mod) pattern).0

  -- A memory with the buffer.
  abbrev HasBuffer : Memory → Type 0
  HasBuffer m = Wf m × Live m a size × (size < m.max_buffer_size)

  -- The bytes of the buffer that lie outside of those from `first` to `last`.
  abbrev Keeps : Memory → Memory → ℕ → ℕ → Type 0
  Keeps m m' first last =
      (p k : ℕ)
      → 0 < k
      → p + k ≤ size
      → (p + k ≤ first) ⊎ (last ≤ p)
      → (load m' (a + p) k).1 ≡ (load m (a + p) k).1
