-- ===== src/Memory/Atomic/Sums.antt =====
-- src/core/Memory.cpp: atomic additions to one word, in any number and order.
use oclgrind.Base.{
  ℕ, suc, ◌+◌, ◌%◌, ◌≤◌, ◌<◌, ◌≡◌, refl, sym, ap, ◌∙◌, subst, arith, true, Option-cases, List, [],
  ◌∷◌, Option, none, some, to_bytes, of_bytes-to_bytes, total, inl, inr, zero, ◌^◌,
}
use native.Mathlib.Nat.{pow-suc, mod-add-mod}
use oclgrind.Memory.{
  Memory, AtomicOp, add, notify, checked, write_bytes, extract_offset, is_address_valid, load,
}
use oclgrind.Memory.Access.{checked-some}
use oclgrind.Memory.Contents.{load_result, read_of}
use oclgrind.Memory.Invariant.{Wf}
use oclgrind.Memory.Atomic.{Word, modulus, atomic, apply, write_word}
use oclgrind.Memory.Atomic.Cases.{atomic_cases}
use oclgrind.Memory.Atomic.Laws.{Keeps, Updated, word_of, atomic-Wf, atomic_lem}

-- `atomic_add` with each of the values in turn.
pub atomic_adds : Memory → Word → ℕ → List ℕ → Option Memory
atomic_adds m t address [] = some m
atomic_adds m t address (v ∷ vs) = elim (atomic m t add address v) [
  | none ↦ none
  | some r ↦ atomic_adds r.0 t address vs
]

abbrev SameLimit : Memory → Option (Memory × ℕ) → Type 0
SameLimit m none = Unit
SameLimit m (some r) = r.0.max_buffer_size ≡ m.max_buffer_size

atomic-SameLimit :
    (m : Memory) (t : Word) (op : AtomicOp) (address value : ℕ)
    → SameLimit m (atomic m t op address value)
unfolding notify write_word
atomic-SameLimit m t op address value =
    atomic_cases (SameLimit m) m t op address value (λ e. refl) (λ b e f. tt)
      (λ b new e f. unfold write_bytes in refl)

valid_of_load :
    (m : Memory) (a n : ℕ) {bytes : List ℕ}
    → (load m a n).1 ≡ some bytes
    → is_address_valid m a n ≡ true
valid_of_load m a n h = elim (Option-cases (checked m a n)) [
  | inl e ↦ cc (h, load_result m a n, ap (λ r. read_of r (extract_offset m a) n) e)
  | inr (b, e) ↦ (checked-some m a n e).0
]

modulus-pos : (t : Word) → 0 < modulus t
modulus-pos t = power_pos t.size
  where
    power_pos : (n : ℕ) → 0 < 256 ^ n
    power_pos zero = omega arith
    power_pos (suc n) = omega (arith, pow-suc 256 n, power_pos n)

sum_mod : (a b c n : ℕ) → ((a + b) % n + c) % n ≡ (a + (b + c)) % n
sum_mod a b c n = mod-add-mod (a + b) n c ∙ ap (λ k. k % n) (omega arith)

atomic_adds_step :
    (m m' : Memory) (t : Word) (address v : ℕ) (vs : List ℕ) {result : ℕ}
    → atomic m t add address v ≡ some (m', result)
    → atomic_adds m t address (v ∷ vs) ≡ atomic_adds m' t address vs
unfolding atomic_adds
atomic_adds_step m m' t address v vs e = rw (e, atomic_adds)

-- In a well-formed memory, any list of atomic additions to a valid word succeeds, and leaves in it the old
-- value plus the sum of the list, modulo the size of the word.
pub atomic_adds_sum :
    (m : Memory) (t : Word) (address : ℕ) (vs : List ℕ)
    → Wf m
    → t.size ≤ m.max_buffer_size
    → is_address_valid m address t.size ≡ true
    → (m' : Memory) × (atomic_adds m t address vs ≡ some m')
      × (word_of (load m' address t.size).1 % modulus t
          ≡ (word_of (load m address t.size).1 + total (λ v. v) vs) % modulus t)
atomic_adds_sum m t address [] w h v =
    (m, unfold atomic_adds in refl, ap (λ k. k % modulus t) (omega arith))
atomic_adds_sum m t address (x ∷ vs) w h v = elim (Option-cases (atomic m t add address x)) [
  | inl e ↦ absurd (subst (Updated m t address old new) e done)
  | inr ((m', result), e) ↦
      let (_, held, _) = subst (Updated m t address old new) e done in
      let (last, run, sum) =
        atomic_adds_sum m' t address vs (subst Keeps e (atomic-Wf m t add address x w))
          (subst (λ k. t.size ≤ k)
            (sym (subst (SameLimit m) e (atomic-SameLimit m t add address x))) h)
          (valid_of_load m' address t.size held) in
      (last, atomic_adds_step m m' t address x vs e ∙ run, sum ∙ combine m' held)
]
  where
    old : ℕ
    old = word_of (load m address t.size).1

    new : ℕ
    new = (old + x) % modulus t

    combine :
        (m' : Memory)
        → (load m' address t.size).1 ≡ some (to_bytes t.size new)
        → (word_of (load m' address t.size).1 + total (λ v. v) vs) % modulus t
          ≡ (old + total (λ v. v) (x ∷ vs)) % modulus t
    combine m' held =
        rw (held, of_bytes-to_bytes t.size new (omega (arith, modulus-pos t)))
          (sum_mod old x (total (λ v. v) vs) (modulus t))

    done : Updated m t address old new (atomic m t add address x)
    done = atomic_lem m t add address x new w h v (unfold apply in refl)
