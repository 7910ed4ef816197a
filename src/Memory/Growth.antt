-- ===== src/Memory/Growth.antt =====
-- src/core/Memory.cpp: what `allocateBuffer` and `createHostBuffer` do, case by case, and that they
-- keep the invariant.
use oclgrind.Base.{
  ℕ, suc, ◌+◌, ◌%◌, ◌≤◌, ◌<◌, ◌≡◌, ap, subst, ◌∙◌, arith, leb, ltb, false, Bool-cases, List-cases,
  List, [], ◌∷◌, ◌++◌, Option, none, some, length, set, size_mod, unsigned_mod, All, Distinct,
  total-append, total-set, All-set, All-append, length-append, length-set, get_elem?-set_ne,
  get_elem?-append_left, get_elem?-lt, inl, inr, leb→le, le→leb, ltb→lt, pow-pos, length-replicate,
}
use native.Mathlib.Nat.{mod-eq_of_lt, pow-le-pow_right}
use oclgrind.Memory.{
  Memory, Buffer, allocated, buffer_address, notify, place, get_next_buffer, insert_buffer,
  initial_bytes, allocate_buffer, create_host_buffer,
}
use oclgrind.Memory.Invariant.{Wf, IsFree, size_of, vacant, notify-Wf, IsFree-set}

-- The state with one more slot, and with a freed slot in use again.
abbrev pub grown : Memory → Buffer → Memory
grown m b = record m {
  memory = m.memory ++ some b ∷ [];
  free_buffers = [];
  total_allocated = (m.total_allocated + b.size) % size_mod;
}

abbrev pub reused : Memory → ℕ → List ℕ → Buffer → Memory
reused m i rest b = record m {
  memory = set m.memory i (some b);
  free_buffers = rest;
  total_allocated = (m.total_allocated + b.size) % size_mod;
}

max_num_buffers-le : (m : Memory) → Wf m → m.max_num_buffers < unsigned_mod
max_num_buffers-le m w = omega (
  arith,
  w.geometry.limit,
  pow-le-pow_right {n = 2} (omega arith) w.geometry.few_bits,
  pow-pos m.num_bits_buffer,
)

not_ge : (a b : ℕ) → b < a → leb a b ≡ false
not_ge a b h = ground arith

module _ {ℓ} (P : Memory × ℕ → Type ℓ) (m : Memory) (w : Wf m) (size flags : ℕ) (bytes : List ℕ)
    (source : Option (List ℕ)) where
  abbrev made : Buffer
  made = record { size = size; flags = flags; bytes = bytes }

  -- Too large, no slot left, a new slot, a slot that was freed.
  pub insert_buffer_cases :
      (m.max_buffer_size < size → P (m, 0))
      → (size ≤ m.max_buffer_size
          → m.free_buffers ≡ []
          → length m.memory ≡ m.max_num_buffers
          → P (record m { free_buffers = [] }, 0))
      → (size ≤ m.max_buffer_size
          → m.free_buffers ≡ []
          → length m.memory < m.max_num_buffers
          → P (
            notify
                (grown m made)
                (allocated (buffer_address m (length m.memory)) size flags source),
            buffer_address m (length m.memory),
          ))
      → ((i : ℕ) (rest : List ℕ)
          → size ≤ m.max_buffer_size
          → m.free_buffers ≡ i ∷ rest
          → P (
            notify (reused m i rest made) (allocated (buffer_address m i) size flags source),
            buffer_address m i,
          ))
      → P (insert_buffer m size flags bytes source)
  unfolding insert_buffer get_next_buffer buffer_address place
  insert_buffer_cases large full grow reuse = elim (Bool-cases (ltb m.max_buffer_size size)) [
    | inl big ↦ rw big (large (ltb→lt _ _ big))
    | inr ok ↦ elim (List-cases m.free_buffers) [
      | inl e ↦ elim (Bool-cases (leb m.max_num_buffers (length m.memory))) [
        | inl stop ↦
            rw (ok, e, mod-eq_of_lt fits, stop)
              (full (within ok) e (omega (arith, leb→le _ _ stop, w.count)))
        | inr go ↦
            rw
              (
                ok,
                e,
                mod-eq_of_lt fits,
                go,
                le→leb (length m.memory) (length m.memory) (omega arith),
              )
              (grow (within ok) e (ground arith))
      ]
      | inr (i, rest, e) ↦
          let used = free_used i rest e in
          rw
            (
              ok,
              e,
              not_ge m.max_num_buffers i (omega (arith, used, w.count)),
              not_ge (length m.memory) i used,
            )
            (reuse i rest (within ok) e)
    ]
  ]
    where
      fits : length m.memory < unsigned_mod
      fits = omega (arith, w.count, max_num_buffers-le m w)

      within : ltb m.max_buffer_size size ≡ false → size ≤ m.max_buffer_size
      within h = ground arith

      free_used : (i : ℕ) (rest : List ℕ) → m.free_buffers ≡ i ∷ rest → i < length m.memory
      free_used i rest e = get_elem?-lt m.memory i (subst (All (IsFree m.memory)) e w.free).0.1

-- No free number is left over if the queue is empty.
emptied-Wf : (m : Memory) → Wf m → m.free_buffers ≡ [] → Wf (record m { free_buffers = [] })
emptied-Wf m w e = record {
  geometry = w.geometry;
  null = w.null;
  count = w.count;
  slots = w.slots;
  free = tt;
  distinct = tt;
  accounted = w.accounted ∙ ap (λ xs. suc (length xs)) e;
  balance = w.balance;
}

grown-Wf :
    (m : Memory) (b : Buffer)
    → Wf m
    → length b.bytes ≡ b.size
    → b.size ≤ m.max_buffer_size
    → m.free_buffers ≡ []
    → length m.memory < m.max_num_buffers
    → Wf (grown m b)
grown-Wf m b w l s e room = record {
  geometry = w.geometry;
  null = get_elem?-append_left m.memory _ 0 (get_elem?-lt m.memory 0 w.null) ∙ w.null;
  count = omega (arith, length-append m.memory (some b ∷ []));
  slots = All-append _ m.memory _ w.slots ((l, s), tt);
  free = tt;
  distinct = tt;
  accounted = omega (arith, total-append vacant m.memory (some b ∷ []), w.accounted, ap length e);
  balance = omega (arith, total-append size_of m.memory (some b ∷ []), w.balance);
}

reused-Wf :
    (m : Memory) (i : ℕ) (rest : List ℕ) (b : Buffer)
    → Wf m
    → length b.bytes ≡ b.size
    → b.size ≤ m.max_buffer_size
    → m.free_buffers ≡ i ∷ rest
    → Wf (reused m i rest b)
reused-Wf m i rest b w l s e = record {
  geometry = w.geometry;
  null = get_elem?-set_ne m.memory i 0 _ (λ z. absurd (omega (arith, z, head.0))) ∙ w.null;
  count = omega (arith, length-set m.memory i (some b), w.count);
  slots = All-set _ m.memory i _ w.slots (l, s);
  free = IsFree-set m.memory i _ rest apart.0 (subst (All (IsFree m.memory)) e w.free).1;
  distinct = apart.1;
  accounted = omega (arith, total-set vacant m.memory i (some b) head.1, w.accounted, ap length e);
  balance = omega (arith, total-set size_of m.memory i (some b) head.1, w.balance);
}
  where
    head : IsFree m.memory i
    head = (subst (All (IsFree m.memory)) e w.free).0

    apart : Distinct (i ∷ rest)
    apart = subst Distinct e w.distinct

insert_buffer-Wf :
    (m : Memory) (size flags : ℕ) (bytes : List ℕ) (source : Option (List ℕ))
    → Wf m
    → length bytes ≡ size
    → Wf (insert_buffer m size flags bytes source).0
insert_buffer-Wf m size flags bytes source w l =
    insert_buffer_cases (λ r. Wf r.0) m w size flags bytes source (λ _. w)
      (λ _ e _. emptied-Wf m w e) (λ s e room. notify-Wf _ _ (grown-Wf m _ w l s e room))
      (λ i rest s e. notify-Wf _ _ (reused-Wf m i rest _ w l s e))

abbrev pub IsBlock : ℕ → Option (List ℕ) → Type 0
IsBlock size none = Unit
IsBlock size (some source) = length source ≡ size

length-initial_bytes :
    (size : ℕ) (source : Option (List ℕ))
    → IsBlock size source
    → length (initial_bytes size source) ≡ size
unfolding initial_bytes
length-initial_bytes size none h = length-replicate size 0
length-initial_bytes size (some source) h = h

pub allocate_buffer-Wf :
    (m : Memory) (size flags : ℕ) (source : Option (List ℕ))
    → Wf m
    → IsBlock size source
    → Wf (allocate_buffer m size flags source).0
unfolding allocate_buffer
allocate_buffer-Wf m size flags source w h =
    insert_buffer-Wf m size flags _ source w (length-initial_bytes size source h)

pub create_host_buffer-Wf :
    (m : Memory) (size flags : ℕ) (host : List ℕ)
    → Wf m
    → length host ≡ size
    → Wf (create_host_buffer m size host flags).0
unfolding create_host_buffer
create_host_buffer-Wf m size flags host w h = insert_buffer-Wf m size flags host _ w h
