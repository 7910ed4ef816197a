-- ===== src/Memory/Atomic/Cases.antt =====
-- The outcomes of `atomic` and `atomicCmpxchg` (src/core/Memory.cpp), as rules for proofs.
use oclgrind.Base.{
  ℕ, ◌≡◌, ◌==◌, true, false, Bool-cases, Option-cases, Option, none, some, inl, inr,
}
use oclgrind.Memory.{
  Memory, Buffer, AtomicOp, cmp_xchg, atomic_loading, atomic_storing, notify, checked,
}
use oclgrind.Memory.Access.{checked-notify}
use oclgrind.Memory.Atomic.{Word, atomic, atomic_cmpxchg, apply, read_word, write_word}

-- The state after the two notifications with which `atomic` begins.
abbrev pub announced : Memory → Word → AtomicOp → ℕ → Memory
announced m t op address =
    notify (notify m (atomic_loading op address t.size)) (atomic_storing op address t.size)

module _ {ℓ} (P : Option (Memory × ℕ) → Type ℓ) (m : Memory) (t : Word) (op : AtomicOp)
    (address value : ℕ) where
  checked-announced : checked (announced m t op address) address t.size ≡ checked m address t.size
  checked-announced = simp checked-notify

  pub atomic_cases :
      (checked m address t.size ≡ none → P (some (announced m t op address, 0)))
      → ((b : Buffer)
          → checked m address t.size ≡ some b
          → apply t op (read_word m t address b) value ≡ none
          → P none)
      → ((b : Buffer) (new : ℕ)
          → checked m address t.size ≡ some b
          → apply t op (read_word m t address b) value ≡ some new
          → P (
              some
                (write_word (announced m t op address) t address b new, read_word m t address b)))
      → P (atomic m t op address value)
  unfolding atomic
  atomic_cases invalid fatal valid = elim (Option-cases (checked m address t.size)) [
    | inl e ↦ rw (checked-announced, e, atomic) (invalid e)
    | inr (b, e) ↦ elim (Option-cases (apply t op (read_word m t address b) value)) [
      | inl f ↦ rw (checked-announced, e, atomic) (rw f (fatal b e f))
      | inr (new, f) ↦ rw (checked-announced, e, atomic) (rw f (valid b new e f))
    ]
  ]

module _ {ℓ} (P : Memory × ℕ → Type ℓ) (m : Memory) (t : Word) (address cmp value : ℕ) where
  abbrev loaded : Memory
  loaded = notify m (atomic_loading cmp_xchg address t.size)

  pub cmpxchg_cases :
      (checked m address t.size ≡ none → P (loaded, 0))
      → ((b : Buffer)
          → checked m address t.size ≡ some b
          → (read_word m t address b == cmp) ≡ true
          → P (
            notify (write_word loaded t address b value) (atomic_storing cmp_xchg address t.size),
            read_word m t address b,
          ))
      → ((b : Buffer)
          → checked m address t.size ≡ some b
          → (read_word m t address b == cmp) ≡ false
          → P (loaded, read_word m t address b))
      → P (atomic_cmpxchg m t address cmp value)
  unfolding atomic_cmpxchg
  cmpxchg_cases invalid equal other = elim (Option-cases (checked m address t.size)) [
    | inl e ↦
        rw
          (
            checked-notify m (atomic_loading cmp_xchg address t.size) address t.size,
            e,
            atomic_cmpxchg,
          )
          (invalid e)
    | inr (b, e) ↦ elim (Bool-cases (read_word m t address b == cmp)) [
      | inl f ↦
          rw
            (
              checked-notify m (atomic_loading cmp_xchg address t.size) address t.size,
              e,
              atomic_cmpxchg,
            )
            (rw f (equal b e f))
      | inr f ↦
          rw
            (
              checked-notify m (atomic_loading cmp_xchg address t.size) address t.size,
              e,
              atomic_cmpxchg,
            )
            (rw f (other b e f))
    ]
  ]
