-- ===== src/Memory/Atomic/Laws.antt =====
-- src/core/Memory.cpp: `atomic` and `atomicCmpxchg` keep the invariant, and what they compute.
use oclgrind.Base.{
  ℕ, ◌≤◌, ◌≡◌, refl, arith, true, Option, none, some, subst, ap, List, length, to_bytes, of_bytes,
  length-to_bytes, ◌∙◌, sym,
}
use mathlib.Core.Path.{subst₂}
use oclgrind.Memory.{
  Memory, Buffer, Note, load, AtomicOp, cmp_xchg, atomic_loading, notify, checked, extract_buffer,
  extract_offset, is_address_valid,
}
use oclgrind.Memory.Access.{checked-some, checked-none, checked-notify}
use oclgrind.Memory.Contents.{Apart, load_result, load-write_self, load-write-Apart}
use oclgrind.Memory.Store.{load-notify}
use oclgrind.Memory.Invariant.{Wf, notify-Wf, write_bytes-Wf}
use oclgrind.Memory.Atomic.{Word, atomic, atomic_cmpxchg, apply, read_word, write_word}
use oclgrind.Memory.Atomic.Cases.{announced, atomic_cases, cmpxchg_cases}

abbrev pub Keeps : Option (Memory × ℕ) → Type 0
Keeps none = Unit
Keeps (some r) = Wf r.0

write_word-Wf :
    (m m' : Memory) (t : Word) (address : ℕ) (b : Buffer) (new : ℕ)
    → Wf m'
    → m'.memory ≡ m.memory
    → m'.num_bits_address ≡ m.num_bits_address
    → checked m address t.size ≡ some b
    → Wf (write_word m' t address b new)
unfolding write_word extract_buffer
write_word-Wf m m' t address b new w em eb e =
    write_bytes-Wf m' address b _ w (rw (em, eb) (checked-some m address t.size e).1)

-- Every atomic operation that returns keeps the invariant.
pub atomic-Wf :
    (m : Memory) (t : Word) (op : AtomicOp) (address value : ℕ)
    → Wf m
    → Keeps (atomic m t op address value)
atomic-Wf m t op address value w =
    atomic_cases Keeps m t op address value (λ _. both) (λ b e f. tt)
      (λ b new e f.
        write_word-Wf m _ t address b new both (unfold notify in refl) (unfold notify in refl) e)
  where
    both : Wf (announced m t op address)
    both = notify-Wf _ _ (notify-Wf m _ w)

-- So does the compare-and-exchange.
pub atomic_cmpxchg-Wf :
    (m : Memory) (t : Word) (address cmp value : ℕ)
    → Wf m
    → Wf (atomic_cmpxchg m t address cmp value).0
atomic_cmpxchg-Wf m t address cmp value w =
    cmpxchg_cases (λ r. Wf r.0) m t address cmp value (λ _. one)
      (λ b e f.
        notify-Wf _ _ (
          write_word-Wf m _ t address b value one (unfold notify in refl) (unfold notify in refl)
            e))
      (λ b e f. one)
  where
    one : Wf (notify m (atomic_loading cmp_xchg address t.size))
    one = notify-Wf m _ w

-- The effect of an atomic operation with this old value and this new one.
abbrev pub Updated : Memory → Word → ℕ → ℕ → ℕ → Option (Memory × ℕ) → Type 0
Updated m t address old new none = ⊥
Updated m t address old new (some (m', result)) =
    (result ≡ old)
    × ((load m' address t.size).1 ≡ some (to_bytes t.size new))
    × ((c k : ℕ) → Apart m address t.size c k → (load m' c k).1 ≡ (load m c k).1)

-- The word that `load` delivers at an address, as a number.
abbrev pub word_of : Option (List ℕ) → ℕ
word_of none = 0
word_of (some bytes) = of_bytes bytes

read_word-load :
    (m : Memory) (t : Word) (address : ℕ) (b : Buffer)
    → checked m address t.size ≡ some b
    → read_word m t address b ≡ word_of (load m address t.size).1
unfolding read_word
read_word-load m t address b e = rw (load_result, e)

write_word_lem :
    (m : Memory) (n n' : Note) (t : Word) (address : ℕ) (b : Buffer) (new : ℕ)
    → Wf m
    → t.size ≤ m.max_buffer_size
    → checked m address t.size ≡ some b
    → Updated m t address
        (read_word m t address b)
        new
        (some (write_word (notify (notify m n) n') t address b new, read_word m t address b))
unfolding write_word
write_word_lem m n n' t address b new w h e = (
  refl,
  subst (λ s. (load (write_word twice t address b new) address s).1 ≡ some (to_bytes t.size new)) l
      (load-write_self twice address b (to_bytes t.size new) w' (unfold notify in omega (arith, l))
        (found ∙ e)),
  λ c k apart.
      load-write-Apart twice address b (to_bytes t.size new) t.size c k (sym l) (found' ∙ e)
        (unfold notify extract_buffer extract_offset in apart)
      ∙ load-notify (notify m n) n' c k
      ∙ load-notify m n c k,
)
  where
    twice : Memory
    twice = notify (notify m n) n'

    l : length (to_bytes t.size new) ≡ t.size
    l = length-to_bytes t.size new

    w' : Wf twice
    w' = notify-Wf _ _ (notify-Wf m n w)

    found' : checked twice address t.size ≡ checked m address t.size
    found' = checked-notify (notify m n) n' address t.size ∙ checked-notify m n address t.size

    found : checked twice address (length (to_bytes t.size new)) ≡ checked m address t.size
    found = rw l found'

-- In a well-formed memory, an atomic operation on a valid word, one that `apply` gives a result for, returns
-- the word's old value and leaves that result in the word, and no load of a range apart from it changes.
pub atomic_lem :
    (m : Memory) (t : Word) (op : AtomicOp) (address value new : ℕ)
    → Wf m
    → t.size ≤ m.max_buffer_size
    → is_address_valid m address t.size ≡ true
    → apply t op (word_of (load m address t.size).1) value ≡ some new
    → Updated m t address (word_of (load m address t.size).1) new (atomic m t op address value)
atomic_lem m t op address value new w h v f =
    atomic_cases (Updated m t address (word_of (load m address t.size).1) new) m t op address value
      (λ e. cc (checked-none m address t.size e, v))
      (λ b e g. cc (g, f, ap (λ r. apply t op r value) (read_word-load m t address b e)))
      (λ b x e g.
        subst₂
          (λ old y.
            Updated m t address old y
              (some (write_word (announced m t op address) t address b x, read_word m t address b)))
          (read_word-load m t address b e) (same b x e g)
          (write_word_lem m _ _ t address b x w h e))
  where
    same :
        (b : Buffer) (x : ℕ)
        → checked m address t.size ≡ some b
        → apply t op (read_word m t address b) value ≡ some x
        → x ≡ new
    same b x e g = cc (g, f, ap (λ r. apply t op r value) (read_word-load m t address b e))
