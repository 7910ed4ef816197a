-- ===== src/Runtime/Objects/Creation.antt =====
-- src/runtime/runtime.cpp and src/core/Memory.cpp: a new buffer, or sub-buffer, is backed by memory.
use native.Mathlib.Nat.{mod-eq_of_lt}
use oclgrind.Base.{
  ℕ, ◌+◌, ◌%◌, ◌≤◌, ◌<◌, ◌≡◌, ◌≢◌, ◌⊎◌, inl, inr, refl, subst, arith, Bool, true, false, ◌||◌, ◌==◌,
  ==_iff, Bool-cases, List, Option, none, some, Result, ok, err, Holds, returns, raises, length,
  length-slice, size_mod, Holds-ok,
}
use oclgrind.Memory.{Memory, Buffer, slot, store, load, use_host_ptr, is_address_valid}
use oclgrind.Memory.Invariant.{Wf, store-Wf}
use oclgrind.Memory.Growth.{allocate_buffer-Wf, create_host_buffer-Wf}
use oclgrind.Memory.Lifetime.{Allocated, allocate_buffer_lem, create_host_buffer_lem}
use oclgrind.Memory.Ranges.{
  Live, Live-range, Allocated-Live, store-Live, store-max_size, allocate_buffer-max_size,
  create_host_buffer-max_size,
}
use oclgrind.Commands.Effects.{load_back}
use oclgrind.Memory.Store.{store_lem}
use oclgrind.Runtime.{Code, MemObject, has, reject-Holds}
use oclgrind.Runtime.Objects.{
  copy_host_ptr, is_null, same_bool, bytes_at, allocate_object, make_buffer, check_creation,
  create_buffer, create_checked, create_sub_buffer, sub_buffer_flags,
}
use oclgrind.Runtime.Transfers.Bounds.{Backed}

-- The outcome of createBuffer: of an error no slot of the memory has changed; a new object is backed by
-- the memory, has no parent, and holds the host's bytes if they were to be copied.
abbrev pub Created : Memory → ℕ → ℕ → Option (List ℕ) → Memory × Result Code MemObject → Type 0
Created m flags size host (m', err code) = (j : ℕ) → slot m' j ≡ slot m j
Created m flags size host (m', ok o) =
    Backed m' o
    × (o.size ≡ size)
    × (o.parent ≡ none)
    × ((has copy_host_ptr flags ≡ false) ⊎ ((load m' o.address size).1 ≡ some (bytes_at host size)))

-- The host's array has the bytes that the flags make the call read.
abbrev pub HostFits : Option (List ℕ) → ℕ → Type 0
HostFits none size = Unit
HostFits (some host) size = size ≤ length host

allocate_object-Allocated :
    (m : Memory) (flags size : ℕ) (host : Option (List ℕ))
    → Wf m
    → (b : Buffer) × (b.size ≡ size) × Allocated m b (allocate_object flags size host m)
unfolding allocate_object
allocate_object-Allocated m flags size host w = elim (Bool-cases (has use_host_ptr flags)) [
  | inl e ↦ rw e ((_, refl, create_host_buffer_lem m size flags (bytes_at host size) w))
  | inr e ↦ rw e ((_, refl, allocate_buffer_lem m size flags none w))
]

allocate_object-max_size :
    (m : Memory) (flags size : ℕ) (host : Option (List ℕ))
    → Wf m
    → (allocate_object flags size host m).0.max_buffer_size ≡ m.max_buffer_size
unfolding allocate_object
allocate_object-max_size m flags size host w = elim (Bool-cases (has use_host_ptr flags)) [
  | inl e ↦ rw e (create_host_buffer-max_size m size flags (bytes_at host size) w)
  | inr e ↦ rw e (allocate_buffer-max_size m size flags none w)
]

-- The host's bytes are there if a flag asks for them.
abbrev Needs : ℕ → ℕ → Option (List ℕ) → Type 0
Needs flags size host =
    ((has copy_host_ptr flags || has use_host_ptr flags) ≡ false)
    ⊎ (length (bytes_at host size) ≡ size)

allocate_object-Wf :
    (m : Memory) (flags size : ℕ) (host : Option (List ℕ))
    → Wf m
    → Needs flags size host
    → Wf (allocate_object flags size host m).0
unfolding allocate_object
allocate_object-Wf m flags size host w h = elim (Bool-cases (has use_host_ptr flags)) [
  | inl e ↦ rw e (create_host_buffer-Wf m size flags (bytes_at host size) w (ground arith))
  | inr e ↦ rw e (allocate_buffer-Wf m size flags none w tt)
]

copied :
    (m : Memory) (a size : ℕ) (source : List ℕ)
    → Wf m
    → Live m a size
    → size < m.max_buffer_size
    → length source ≡ size
    → (load (store m a source).0 a size).1 ≡ some source
copied m a size source w live small l =
    let (_, valid) = Live-range m a size 0 (length source) w live small (omega (arith, l)) in
    let here =
      subst (λ c. is_address_valid m c (length source) ≡ true) {x = a + 0} {y = a} (omega arith)
        valid in
    subst (λ n. (load (store m a source).0 a n).1 ≡ some source) l
      (load_back m a source (store m a source) here
        (store_lem m a source w (omega (arith, l, small))))

make_buffer-Created :
    (id c : ℕ) (m : Memory) (flags size : ℕ) (host : Option (List ℕ))
    → Wf m
    → size < m.max_buffer_size
    → Needs flags size host
    → Created m flags size host (make_buffer id c flags size host m)
unfolding make_buffer
make_buffer-Created id c m flags size host w small needs =
    let (b, s, done) = allocate_object-Allocated m flags size host w in
    let r = allocate_object flags size host m in
    let w' = allocate_object-Wf m flags size host w needs in
    let small' : size < r.0.max_buffer_size =
      omega (arith, small, allocate_object-max_size m flags size host w) in
    elim (Bool-cases (r.1 == 0)) [
      | inl e ↦ rw e (unchanged m b r done ((==_iff _ _).0 e))
      | inr n ↦
          let nz : r.1 ≢ 0 = λ z. cc ((==_iff _ _).1 z, n) in
          let live = subst (Live r.0 r.1) s (Allocated-Live m r.0 b r.1 done nz) in
          elim (Bool-cases (has copy_host_ptr flags)) [
            | inl copies ↦
                let l : length (bytes_at host size) ≡ size = ground arith in
                let m' = (store r.0 r.1 (bytes_at host size)).0 in
                rw (n, copies)
                  ((
                    λ k q le.
                        Live-range m' r.1 size k q (store-Wf r.0 r.1 _ w')
                          (store-Live r.0 r.1 _ r.1 size live)
                          (omega (arith, small', store-max_size r.0 r.1 (bytes_at host size))) le,
                    refl,
                    refl,
                    inr (copied r.0 r.1 size (bytes_at host size) w' live small' l),
                  ))
            | inr plain ↦
                rw (n, plain)
                  ((λ k q le. Live-range r.0 r.1 size k q w' live small' le, refl, refl, inl refl))
          ]
    ]
  where
    unchanged :
        (m : Memory) (b : Buffer) (r : Memory × ℕ)
        → Allocated m b r
        → r.1 ≡ 0
        → (j : ℕ) → slot r.0 j ≡ slot m j
    unchanged m b (m', a) (inl h) z j = h.2 j
    unchanged m b (m', a) (inr h) z j = absurd (h.1 z)

bytes_needed :
    (flags size : ℕ) (host : Option (List ℕ))
    → HostFits host size
    → same_bool (is_null host) (has copy_host_ptr flags || has use_host_ptr flags) ≡ false
    → Needs flags size host
bytes_needed flags size none fits e = inl e
bytes_needed flags size (some host) fits e = inr (length-slice 0 size host (omega (arith, fits)))

check_creation-Needs :
    (context : Option ℕ) (flags size : ℕ) (host : Option (List ℕ))
    → HostFits host size
    → Holds (λ c. Needs flags size host) (check_creation context flags size host)
unfolding check_creation
check_creation-Needs none flags size host fits = raises
check_creation-Needs (some c) flags size host fits =
    reject-Holds _ _
      λ e. reject-Holds _ _ λ f. reject-Holds _ _ λ g. returns (bytes_needed flags size host fits f)

-- createBuffer of a size below the largest size of a buffer, with enough bytes at the host's pointer, gives
-- an error that leaves every slot of the memory, or a new object backed by a well-formed memory, with the
-- host's bytes if they are to be copied.
pub create_buffer-Created :
    (id : ℕ) (context : Option ℕ) (m : Memory) (flags size : ℕ) (host : Option (List ℕ))
    → Wf m
    → size < m.max_buffer_size
    → HostFits host size
    → Created m flags size host (create_buffer id context flags size host m)
unfolding create_buffer create_checked
create_buffer-Created id context m flags size host w small fits =
    by_check (check_creation context flags size host)
      (check_creation-Needs context flags size host fits)
  where
    by_check :
        (r : Result Code ℕ)
        → Holds (λ c. Needs flags size host) r
        → Created m flags size host (create_checked id r flags size host m)
    by_check (err code) h = λ j. refl
    by_check (ok c) h = make_buffer-Created id c m flags size host w small (Holds-ok h)

-- clCreateSubBuffer of a parent that is backed by the memory, for a region whose end is below 2^64, gives an
-- error or a sub-buffer that is backed by the memory and lies in its parent.
pub create_sub_buffer-Backed :
    (id : ℕ) (m : Memory) (b o : MemObject) (flags : ℕ) (is_region : Bool) (origin size : ℕ)
    → Backed m b
    → origin + size < size_mod
    → create_sub_buffer id (some b) flags is_region (some (origin, size)) ≡ ok o
    → Backed m o × (o.parent ≡ some b.id) × (o.offset + o.size ≤ b.size)
unfolding create_sub_buffer
create_sub_buffer-Backed id m b o flags is_region origin size back fits e =
    Holds-ok (subst (Holds Good) e made)
  where
    it : MemObject
    it = record {
      id = id;
      context = b.context;
      parent = some b.id;
      address = (b.address + origin) % size_mod;
      size = size;
      offset = origin;
      flags = sub_buffer_flags flags b.flags;
    }

    inside :
        (o : MemObject)
        → o.address ≡ (b.address + origin) % size_mod
        → o.size ≡ size
        → origin + size ≤ b.size
        → Backed m o
    inside o at s le k n kn =
        let (low, _) = back origin 0 (omega (arith, le)) in
        let (below, valid) = back (origin + k) n (omega (arith, kn, s, le)) in
        let same : b.address + (origin + k) ≡ o.address + k = omega (arith, at, low, below) in
        (omega (arith, below, same), subst (λ a. is_address_valid m a n ≡ true) same valid)

    Good : MemObject → Type 0
    Good o = Backed m o × (o.parent ≡ some b.id) × (o.offset + o.size ≤ b.size)

    made : Holds Good (create_sub_buffer id (some b) flags is_region (some (origin, size)))
    made = reject-Holds _ _ λ f. reject-Holds _ _ λ g. reject-Holds _ _ λ h. reject-Holds _ _ λ z.
        returns (
          inside it refl refl (ground (arith, mod-eq_of_lt fits)),
          refl,
          ground (arith, mod-eq_of_lt fits),
        )
