-- ===== src/Memory/Updates.antt =====
-- src/core/Memory.cpp: the constructor, `clear` and `copy` keep the invariant.
use oclgrind.Base.{ℕ, ◌≤◌, refl, arith, Option-cases, List, inl, inr}
use oclgrind.Memory.{Memory, AddressSpace, loading, checked, copy, copy_to, clear, init, blank}
use oclgrind.Memory.Address.{Geometry, two-le-pow}
use oclgrind.Memory.Access.{checked-notify, copy_to_cases}
use oclgrind.Memory.Invariant.{Wf, notify-Wf, checked_write-Wf}

pub clear-Wf : (m : Memory) → Geometry m → Wf (clear m)
unfolding clear
clear-Wf m g = record {
  geometry = g;
  null = refl;
  count = omega (arith, g.limit, two-le-pow m.num_bits_buffer g.some_bits);
  slots = (tt, tt);
  free = tt;
  distinct = tt;
  accounted = refl;
  balance = refl;
}

-- The constructor, for every split of the address that the program uses.
pub init-Wf : (space : AddressSpace) (bits : ℕ) → 1 ≤ bits → bits ≤ 32 → Wf (init space bits)
unfolding init
init-Wf space bits lo hi =
    clear-Wf (blank space bits)
      (record { some_bits = lo; few_bits = hi; rest = refl; limit = refl; sizes = refl })

copy_to-Wf :
    (m : Memory) (dst : ℕ) (block : List ℕ) (size : ℕ) → Wf m → Wf (copy_to m dst block size).0
copy_to-Wf m dst block size w =
    copy_to_cases (λ r. Wf r.0) m dst block size (λ _. notify-Wf m _ w)
      (λ b e. checked_write-Wf m _ dst size b block w e)

pub copy-Wf : (m : Memory) (dst src size : ℕ) → Wf m → Wf (copy m dst src size).0
unfolding copy
copy-Wf m dst src size w = elim (Option-cases (checked m src size)) [
  | inl e ↦ rw (checked-notify m (loading src size) src size, e, copy) (notify-Wf m _ w)
  | inr (b, e) ↦
      rw (checked-notify m (loading src size) src size, e, copy)
        (copy_to-Wf _ dst _ size (notify-Wf m _ w))
]
