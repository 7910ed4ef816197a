-- ===== src/MemCheck/Regions.antt =====
-- src/plugins/MemCheck.cpp: when an access is reported.
use native.Mathlib.Nat.{mod-eq_of_lt}
use oclgrind.Base.{
  ℕ, ◌+◌, ◌%◌, ◌≤◌, ◌<◌, ◌≡◌, ◌⊎◌, ◌↔◌, ltb, leb, inl, inr, refl, ap, arith, true, false,
  Bool-cases, List, [], ◌∷◌, Option, none, some, All, size_mod,
}
use oclgrind.Memory.{Memory, is_address_valid, get_buffer, get_pointer}
use oclgrind.MemCheck.{
  MapRegion, MapType, same_pointer, read, write, memory_map, memory_unmap, touches, mapped,
  mapped_for_writing, has_flag, is_mappable, check_load, check_store,
}

-- The access ends before the region, or begins after it: of its bytes none is next to the region either.
abbrev pub Clear : ℕ → ℕ → MapRegion → Type 0
Clear address size r = (address + size < r.address) ⊎ (r.address + r.size ≤ address)

-- An access or a region that does not reach round to 0.
abbrev pub Fits : ℕ → ℕ → Type 0
Fits address size = address + size < size_mod

cons_ne : {A : Type 0} {x : A} {xs : List A} → x ∷ xs ≡ [] → ⊥
cons_ne e = cc e

touches_iff :
    (address size : ℕ) (r : MapRegion)
    → Fits address size
    → Fits r.address r.size
    → (touches address size r ≡ false) ↔ Clear address size r
unfolding touches
touches_iff address size r h k = (there, back)
  where
    there : touches address size r ≡ false → Clear address size r
    there e = ground (arith, mod-eq_of_lt h, mod-eq_of_lt k)

    back : Clear address size r → touches address size r ≡ false
    back c = ground (arith, mod-eq_of_lt h, mod-eq_of_lt k)

mapped_iff :
    (address size : ℕ) (rs : List MapRegion)
    → Fits address size
    → All (λ r. Fits r.address r.size) rs
    → (mapped address size rs ≡ []) ↔ All (Clear address size) rs
unfolding mapped
mapped_iff address size [] h k = (λ e. tt, λ c. refl)
mapped_iff address size (r ∷ rs) h k = elim (Bool-cases (touches address size r)) [
  | inl e ↦ rw e ((λ f. absurd (cons_ne f), λ c. cc (e, (touches_iff address size r h k.0).1 c.0)))
  | inr n ↦ rw n (
      (
        λ f. ((touches_iff address size r h k.0).0 n, (mapped_iff address size rs h k.1).0 f),
        λ c. (mapped_iff address size rs h k.1).1 c.1,
      ))
]

-- The tests of a store, for accesses and regions that end below 2^64; they leave the offset of a region out.
pub check_store_iff :
    (regions : List MapRegion) (m : Memory) (address size : ℕ)
    → Fits address size
    → All (λ r. Fits r.address r.size) regions
    → (check_store regions m address size ≡ []) ↔ (
        (is_address_valid m address size ≡ true)
        × (has_flag 4 (get_buffer m address) ≡ false)
        × ((is_mappable m.address_space ≡ false) ⊎ All (Clear address size) regions))
unfolding check_store
check_store_iff regions m address size h k = elim (Bool-cases (is_address_valid m address size)) [
  | inr n ↦ rw n ((λ e. absurd (cons_ne e), λ c. cc c.0))
  | inl v ↦ elim (Bool-cases (has_flag 4 (get_buffer m address))) [
    | inl f ↦ rw (v, f) ((λ e. absurd (cons_ne e), λ c. cc c.1))
    | inr f ↦ elim (Bool-cases (is_mappable m.address_space)) [
      | inr p ↦ rw (v, f, p) ((λ e. (refl, refl, inl refl), λ c. refl))
      | inl p ↦
          let (to, from) = mapped_iff address size regions h k in
          rw (v, f, p)
            ((
              λ e. (refl, refl, inr (to e)),
              λ c. elim c.2 [ inl z ↦ cc z | inr clear ↦ from clear ],
            ))
    ]
  ]
]

-- The bytes that a region maps: those from its offset.
abbrev pub Maps : MapRegion → ℕ → Type 0
Maps r p = (r.address + r.offset ≤ p) × (p < r.address + r.offset + r.size)

-- No byte of the access, nor the one after it, is mapped.
abbrev pub Unmapped : ℕ → ℕ → List MapRegion → Type 0
Unmapped address size regions =
    (p : ℕ) → address ≤ p → p ≤ address + size → All (λ r. ¬ Maps r p) regions

-- A region of one byte at least, from the start of its buffer, that ends below 2^64.
abbrev pub IsWhole : MapRegion → Type 0
IsWhole r = (r.offset ≡ 0) × (0 < r.size) × Fits r.address r.size

Clear-iff :
    (address size : ℕ) (r : MapRegion)
    → IsWhole r
    → Clear address size r ↔ ((p : ℕ) → address ≤ p → p ≤ address + size → ¬ Maps r p)
Clear-iff address size r h = (there, back)
  where
    there : Clear address size r → (p : ℕ) → address ≤ p → p ≤ address + size → ¬ Maps r p
    there (inl c) p l k m = omega (arith, h.0)
    there (inr c) p l k m = omega (arith, h.0)

    -- The first byte of the two that both have.
    back : ((p : ℕ) → address ≤ p → p ≤ address + size → ¬ Maps r p) → Clear address size r
    back n = elim (Bool-cases (ltb (address + size) r.address)) [
      | inl e ↦ inl (ground arith)
      | inr e ↦ elim (Bool-cases (leb (r.address + r.size) address)) [
        | inl f ↦ inr (ground arith)
        | inr f ↦ elim (Bool-cases (leb address r.address)) [
          | inl g ↦ absurd (
              n r.address (ground arith) (ground arith)
                (omega (arith, h.0, h.1), omega (arith, h.0, h.1)))
          | inr g ↦
              absurd
                (n address (omega arith) (omega arith) (ground (arith, h.0), ground (arith, h.0)))
        ]
      ]
    ]

Clear-all :
    (address size : ℕ) (regions : List MapRegion)
    → All IsWhole regions
    → All (Clear address size) regions ↔ Unmapped address size regions
Clear-all address size [] h = (λ c p l k. tt, λ n. tt)
Clear-all address size (r ∷ rs) h =
    let here = Clear-iff address size r h.0 in
    let rest = Clear-all address size rs h.1 in
    (
      λ c p l k. (here.0 c.0 p l k, rest.0 c.1 p l k),
      λ n. (here.1 (λ p l k. (n p l k).0), rest.1 (λ p l k. (n p l k).1)),
    )

Fits-all :
    (regions : List MapRegion) → All IsWhole regions → All (λ r. Fits r.address r.size) regions
Fits-all [] h = tt
Fits-all (r ∷ rs) h = (h.0.2, Fits-all rs h.1)

-- A store is silent exactly if the address is valid, the buffer is not read-only, and no byte of the store,
-- nor the byte after it, is mapped, or the space cannot be mapped; where each region maps one byte at least,
-- from the start of its buffer (its offset is 0), and the store and the regions end below 2^64.
pub check_store-Unmapped :
    (regions : List MapRegion) (m : Memory) (address size : ℕ)
    → Fits address size
    → All IsWhole regions
    → (check_store regions m address size ≡ []) ↔ (
        (is_address_valid m address size ≡ true)
        × (has_flag 4 (get_buffer m address) ≡ false)
        × ((is_mappable m.address_space ≡ false) ⊎ Unmapped address size regions))
check_store-Unmapped regions m address size h k =
    let (to, from) = check_store_iff regions m address size h (Fits-all regions k) in
    let (clear, unclear) = Clear-all address size regions k in
    (
      λ e. let c = to e in (c.0, c.1, elim c.2 [ inl z ↦ inl z | inr q ↦ inr (clear q) ]),
      λ c. from (c.0, c.1, elim c.2 [ inl z ↦ inl z | inr q ↦ inr (unclear q) ]),
    )

-- The region is mapped for reading, or the access is clear of it.
abbrev pub Readable : ℕ → ℕ → MapRegion → Type 0
Readable address size r = (r.kind ≡ read) ⊎ Clear address size r

MapType-cases : (t : MapType) → (t ≡ read) ⊎ (t ≡ write)
MapType-cases read = inl refl
MapType-cases write = inr refl

write_ne : write ≡ read → ⊥
write_ne e = cc e

mapped_for_writing_iff :
    (address size : ℕ) (rs : List MapRegion)
    → Fits address size
    → All (λ r. Fits r.address r.size) rs
    → (mapped_for_writing address size rs ≡ []) ↔ All (Readable address size) rs
unfolding mapped_for_writing touches
mapped_for_writing_iff address size [] h k = (λ e. tt, λ c. refl)
mapped_for_writing_iff address size (r ∷ rs) h k =
    let (to, from) = mapped_for_writing_iff address size rs h k.1 in
    elim (MapType-cases r.kind) [
      | inl e ↦ rw e ((λ f. (inl refl, to f), λ c. from c.1))
      | inr w ↦ elim (Bool-cases (touches address size r)) [
        | inl e ↦
            rw (w, e)
              ((
                λ f. absurd (cons_ne f),
                λ c. elim c.0 [
                  | inl z ↦ absurd (write_ne z)
                  | inr q ↦ cc (e, (touches_iff address size r h k.0).1 q)
                ],
              ))
        | inr n ↦
            rw (w, n) ((λ f. (inr ((touches_iff address size r h k.0).0 n), to f), λ c. from c.1))
      ]
    ]

-- A load is silent exactly if the address is valid, the buffer is not write-only, and every region is mapped
-- for reading or clear of the load, or the space cannot be mapped; for accesses and regions that end below
-- 2^64.
pub check_load_iff :
    (regions : List MapRegion) (m : Memory) (address size : ℕ)
    → Fits address size
    → All (λ r. Fits r.address r.size) regions
    → (check_load regions m address size ≡ []) ↔ (
        (is_address_valid m address size ≡ true)
        × (has_flag 2 (get_buffer m address) ≡ false)
        × ((is_mappable m.address_space ≡ false) ⊎ All (Readable address size) regions))
unfolding check_load
check_load_iff regions m address size h k = elim (Bool-cases (is_address_valid m address size)) [
  | inr n ↦ rw n ((λ e. absurd (cons_ne e), λ c. cc c.0))
  | inl v ↦ elim (Bool-cases (has_flag 2 (get_buffer m address))) [
    | inl f ↦ rw (v, f) ((λ e. absurd (cons_ne e), λ c. cc c.1))
    | inr f ↦ elim (Bool-cases (is_mappable m.address_space)) [
      | inr p ↦ rw (v, f, p) ((λ e. (refl, refl, inl refl), λ c. refl))
      | inl p ↦
          let (to, from) = mapped_for_writing_iff address size regions h k in
          rw (v, f, p)
            ((
              λ e. (refl, refl, inr (to e)),
              λ c. elim c.2 [ inl z ↦ cc z | inr clear ↦ from clear ],
            ))
    ]
  ]
]

-- A range of a buffer that is mapped at an offset at least as large as the range is not protected: a valid
-- store into it, of a buffer that is not read-only, is silent; if buffer address, offset and size stay below
-- 2^64 together.
pub mapped_range_missed :
    (m : Memory) (address offset size flags k n : ℕ)
    → Fits address (offset + size)
    → size ≤ offset
    → k + n ≤ size
    → is_address_valid m (address + offset + k) n ≡ true
    → has_flag 4 (get_buffer m (address + offset + k)) ≡ false
    → check_store (memory_map m address offset size flags []) m (address + offset + k) n ≡ []
unfolding memory_map
mapped_range_missed m address offset size flags k n h le inside v f =
    (check_store_iff (memory_map m address offset size flags []) m (address + offset + k) n
        (omega arith) (omega arith, tt)).1
      (v, f, inr (inr (omega arith), tt))

same_pointer_self : (p : Option (ℕ × ℕ)) → same_pointer p p ≡ true
same_pointer_self none = refl
same_pointer_self (some (b, o)) = ground arith

-- Unmapping the pointer of a new region gives the regions before it, if none of them has this pointer.
pub unmap-map :
    (regions : List MapRegion) (m : Memory) (address offset size flags : ℕ)
    → All (λ r. same_pointer r.ptr (get_pointer m ((address + offset) % size_mod)) ≡ false) regions
    → memory_unmap
        (get_pointer m ((address + offset) % size_mod))
        (memory_map m address offset size flags regions)
      ≡ regions
unfolding memory_unmap memory_map
unmap-map [] m address offset size flags h =
    rw (same_pointer_self (get_pointer m ((address + offset) % size_mod)))
unmap-map (r ∷ rs) m address offset size flags h =
    rw h.0 (ap (λ xs. r ∷ xs) (unmap-map rs m address offset size flags h.1))
