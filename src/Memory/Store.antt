-- ===== src/Memory/Store.antt =====
-- src/core/Memory.cpp: `store` and `copy` against `load`.
use oclgrind.Base.{
  ℕ, ◌≤◌, ◌≡◌, refl, sym, ap, subst, ◌∙◌, arith, Bool, true, false, Option-cases, List, some,
  length, inl, inr, slice, ◌⊎◌, length-slice, All-get,
}
use oclgrind.Memory.{
  Memory, Buffer, Note, loading, storing, extract_buffer, extract_offset, notify, checked,
  is_address_valid, write_bytes, store, load, copy, copy_to,
}
use oclgrind.Memory.Access.{
  checked-notify, checked-none, checked-some, checked-within, store_cases, copy_to_cases,
}
use oclgrind.Memory.Contents.{load_result, read_of, Apart, load-write_self, load-write-Apart}
use oclgrind.Memory.Invariant.{Wf, notify-Wf}

-- The outcome of a store of `source` at `a`, for either result.
abbrev pub Stored : Memory → ℕ → List ℕ → Memory × Bool → Type 0
Stored m a source (m', true) =
    ((load m' a (length source)).1 ≡ some source)
    × ((c k : ℕ) → Apart m a (length source) c k → (load m' c k).1 ≡ (load m c k).1)
Stored m a source (m', false) =
    (is_address_valid m a (length source) ≡ false) × ((c k : ℕ) → (load m' c k).1 ≡ (load m c k).1)

pub load-notify : (m : Memory) (n : Note) (c k : ℕ) → (load (notify m n) c k).1 ≡ (load m c k).1
unfolding extract_offset notify
load-notify m n c k =
    load_result (notify m n) c k
    ∙ ap (λ r. read_of r (extract_offset m c) k) (checked-notify m n c k)
    ∙ sym (load_result m c k)

Apart-notify : (m : Memory) (n : Note) (a l c k : ℕ) → Apart m a l c k → Apart (notify m n) a l c k
unfolding notify extract_buffer extract_offset
Apart-notify m n a l c k h = h

-- The write that follows a notification.
written :
    (m : Memory) (n : Note) (a : ℕ) (b : Buffer) (source : List ℕ)
    → Wf m
    → length source ≤ m.max_buffer_size
    → checked m a (length source) ≡ some b
    → Stored m a source (write_bytes (notify m n) a b source, true)
unfolding notify
written m n a b source w h e = (
  load-write_self (notify m n) a b source (notify-Wf m n w) h found,
  λ c k apart.
      load-write-Apart (notify m n) a b source _ c k refl found (Apart-notify m n a _ c k apart)
      ∙ load-notify m n c k,
)
  where
    found : checked (notify m n) a (length source) ≡ some b
    found = checked-notify m n a (length source) ∙ e

-- In a well-formed memory, a store of at most `max_buffer_size` bytes that reports success is read back by
-- a load of the same range, and no load of a range apart from it changes. One that reports failure was to
-- an invalid range, and no load at all changes.
pub store_lem :
    (m : Memory) (a : ℕ) (source : List ℕ)
    → Wf m
    → length source ≤ m.max_buffer_size
    → Stored m a source (store m a source)
store_lem m a source w h =
    store_cases (Stored m a source) m a source
      (λ e. (checked-none m a _ e, λ c k. load-notify m _ c k))
      (λ b e. written m _ a b source w h e)

-- The outcome of a copy, for either result.
abbrev pub Copied : Memory → ℕ → ℕ → ℕ → Memory × Bool → Type 0
Copied m dst src size (m', true) =
    ((load m' dst size).1 ≡ (load m src size).1)
    × (is_address_valid m src size ≡ true)
    × (is_address_valid m dst size ≡ true)
    × ((c k : ℕ) → Apart m dst size c k → (load m' c k).1 ≡ (load m c k).1)
Copied m dst src size (m', false) =
    ((is_address_valid m src size ≡ false) ⊎ (is_address_valid m dst size ≡ false))
    × ((c k : ℕ) → (load m' c k).1 ≡ (load m c k).1)

copy_to_lem :
    (m : Memory) (n : Note) (dst src : ℕ) (b : Buffer) (block : List ℕ)
    → Wf m
    → length block ≤ m.max_buffer_size
    → checked m src (length block) ≡ some b
    → (load m src (length block)).1 ≡ some block
    → Copied m dst src (length block) (copy_to (notify m n) dst block (length block))
unfolding notify
copy_to_lem m n dst src b block w h e r =
    copy_to_cases (Copied m dst src (length block)) (notify m n) dst block (length block)
      (λ f. (
        inr (checked-none m dst (length block) (sym (checked-notify m n dst (length block)) ∙ f)),
        λ c k. load-notify (notify m n) (storing dst block) c k ∙ load-notify m n c k,
      ))
      λ d f.
        let (back, rest) =
          written (notify m n) (storing dst block) dst d block (notify-Wf m n w) h f in
        (
          back ∙ sym r,
          (checked-some m src (length block) e).0,
          (checked-some m dst (length block) (sym (checked-notify m n dst (length block)) ∙ f)).0,
          λ c k apart.
              rest c k (Apart-notify m n dst (length block) c k apart) ∙ load-notify m n c k,
        )

-- In a well-formed memory, a copy of at most `max_buffer_size` bytes that reports success had two valid
-- ranges, the destination then loads what the source did, and no load of a range apart from the
-- destination changes. One that reports failure had an invalid range, and no load at all changes.
pub copy_lem :
    (m : Memory) (dst src size : ℕ)
    → Wf m
    → size ≤ m.max_buffer_size
    → Copied m dst src size (copy m dst src size)
unfolding copy
copy_lem m dst src size w h = elim (Option-cases (checked m src size)) [
  | inl e ↦
      rw (checked-notify m (loading src size) src size, e, copy)
        ((inl (checked-none m src size e), λ c k. load-notify m _ c k))
  | inr (b, e) ↦
      let block = slice (extract_offset m src) size b.bytes in
      let bytes = (All-get _ m.memory _ w.slots (checked-some m src size e).1).0 in
      let l : length block ≡ size =
        length-slice _ size b.bytes
          (omega (arith, bytes, checked-within m src size w.geometry h e)) in
      rw (checked-notify m (loading src size) src size, e, copy)
        (subst (λ s. Copied m dst src s (copy_to (notify m (loading src size)) dst block s)) l
          (copy_to_lem m (loading src size) dst src b block w (omega (arith, l)) (rw l e)
            (rw l (load_result m src size ∙ rw e))))
]
