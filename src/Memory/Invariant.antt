-- ===== src/Memory/Invariant.antt =====
-- The invariant of a simulated address space (src/core/Memory.cpp), kept by its operations.
use oclgrind.Base.{
  ℕ, suc, ◌+◌, ◌-◌, ◌%◌, ◌^◌, ◌≤◌, ◌<◌, ◌≡◌, ◌≢◌, refl, sym, ap, subst, ◌∙◌, arith, Option-cases,
  List, [], ◌∷◌, ◌++◌, Option, none, some, length, get_elem?, size_mod, All, Distinct, total,
  total-set, All-set, All-get, All-append, All-map, Distinct-append, length-append, length-set,
  get_elem?-lt, get_elem?-set_self, get_elem?-set_ne, get_elem?-append_left, set, inl, inr,
  length-overwrite,
}
use oclgrind.Memory.{
  Memory, Buffer, Note, slot, extract_buffer, notify, checked, write_bytes, deallocate_buffer,
  store, load, deallocated,
}
use oclgrind.Memory.Address.{Geometry, max_size-lt}
use oclgrind.Memory.Access.{slot-get, checked-some, store_cases, load_cases}

-- What a slot holds.
abbrev pub SlotOk : ℕ → Option Buffer → Type 0
SlotOk limit none = Unit
SlotOk limit (some b) = (length b.bytes ≡ b.size) × (b.size ≤ limit)

abbrev pub size_of : Option Buffer → ℕ
size_of none = 0
size_of (some b) = b.size

abbrev pub vacant : Option Buffer → ℕ
vacant none = 1
vacant (some b) = 0

abbrev pub IsFree : List (Option Buffer) → ℕ → Type 0
IsFree bs f = (0 < f) × (get_elem? bs f ≡ some none)

-- The state between two calls: buffer 0 is never used, each buffer has the bytes that its size says,
-- the queue of free numbers holds every other empty slot once, and the total is right.
pub record Wf (m : Memory) : Type 0 where
  pub geometry : Geometry m
  pub null : get_elem? m.memory 0 ≡ some none
  pub count : length m.memory ≤ m.max_num_buffers
  pub slots : All (SlotOk m.max_buffer_size) m.memory
  pub free : All (IsFree m.memory) m.free_buffers
  pub distinct : Distinct m.free_buffers
  pub accounted : total vacant m.memory ≡ suc (length m.free_buffers)
  pub balance : m.total_allocated ≡ total size_of m.memory % size_mod

pub IsFree-set :
    (bs : List (Option Buffer)) (b : ℕ) (v : Option Buffer) (fs : List ℕ)
    → All (λ y. b ≢ y) fs
    → All (IsFree bs) fs
    → All (IsFree (set bs b v)) fs
IsFree-set bs b v [] d h = tt
IsFree-set bs b v (f ∷ fs) d h =
    ((h.0.0, rw (get_elem?-set_ne bs b f v d.0) h.0.1), IsFree-set bs b v fs d.1 h.1)

pub IsFree-append :
    (bs : List (Option Buffer)) (v : Option Buffer) (fs : List ℕ)
    → All (IsFree bs) fs
    → All (IsFree (bs ++ v ∷ [])) fs
IsFree-append bs v [] h = tt
IsFree-append bs v (f ∷ fs) h = (
  (h.0.0, get_elem?-append_left bs _ f (get_elem?-lt bs f h.0.1) ∙ h.0.1),
  IsFree-append bs v fs h.1,
)

-- A live slot is not in the queue.
live_fresh :
    (bs : List (Option Buffer)) (b : ℕ) (buffer : Buffer) (fs : List ℕ)
    → get_elem? bs b ≡ some (some buffer)
    → All (IsFree bs) fs
    → All (λ y. b ≢ y) fs
live_fresh bs b buffer [] e h = tt
live_fresh bs b buffer (f ∷ fs) e h =
    (λ same. cc (e, h.0.1, ap (get_elem? bs) same), live_fresh bs b buffer fs e h.1)

pub notify-Wf : (m : Memory) (n : Note) → Wf m → Wf (notify m n)
unfolding notify
notify-Wf m n w = record {
  geometry = w.geometry;
  null = w.null;
  count = w.count;
  slots = w.slots;
  free = w.free;
  distinct = w.distinct;
  accounted = w.accounted;
  balance = w.balance;
}

-- New contents for a live buffer.
update-Wf :
    (m : Memory) (b : ℕ) (old new : Buffer)
    → Wf m
    → get_elem? m.memory b ≡ some (some old)
    → new.size ≡ old.size
    → length new.bytes ≡ new.size
    → Wf (record m { memory = set m.memory b (some new) })
update-Wf m b old new w e s l = record {
  geometry = w.geometry;
  null = get_elem?-set_ne m.memory b 0 _ (λ z. cc (e, w.null, ap (get_elem? m.memory) z)) ∙ w.null;
  count = omega (arith, length-set m.memory b (some new), w.count);
  slots = All-set _ m.memory b _ w.slots (l, omega (arith, s, (All-get _ m.memory b w.slots e).1));
  free = IsFree-set m.memory b _ _ (live_fresh m.memory b old _ e w.free) w.free;
  distinct = w.distinct;
  accounted = omega (arith, total-set vacant m.memory b (some new) e, w.accounted);
  balance =
      rw w.balance
        (ap (λ k. k % size_mod) (omega (arith, total-set size_of m.memory b (some new) e, s)));
}

-- The state with the freed slot `b`.
release-Wf :
    (m : Memory) (b : ℕ) (old : Buffer)
    → Wf m
    → get_elem? m.memory b ≡ some (some old)
    → Wf (record m {
      total_allocated = (m.total_allocated + size_mod - old.size) % size_mod;
      free_buffers = m.free_buffers ++ b ∷ [];
      memory = set m.memory b none;
    })
release-Wf m b old w e = record {
  geometry = w.geometry;
  null = get_elem?-set_ne m.memory b 0 _ b_pos ∙ w.null;
  count = omega (arith, length-set m.memory b none, w.count);
  slots = All-set _ m.memory b _ w.slots tt;
  free =
      All-append _ m.free_buffers (b ∷ []) (IsFree-set m.memory b _ _ fresh w.free) (
        (omega (arith, b_pos), get_elem?-set_self m.memory b none (get_elem?-lt m.memory b e)),
        tt,
      );
  distinct =
      Distinct-append m.free_buffers b w.distinct (All-map _ _ (λ y ne same. ne (sym same)) fresh);
  accounted = omega (
    arith,
    total-set vacant m.memory b none e,
    w.accounted,
    length-append m.free_buffers (b ∷ []),
  );
  balance = omega (arith, w.balance, total-set size_of m.memory b none e, small);
}
  where
    b_pos : b ≢ 0
    b_pos z = cc (e, w.null, ap (get_elem? m.memory) z)

    fresh : All (λ y. b ≢ y) m.free_buffers
    fresh = live_fresh m.memory b old _ e w.free

    small : old.size ≤ size_mod
    small =
        omega
          (arith, (All-get _ m.memory b w.slots e).1, w.geometry.sizes, max_size-lt m w.geometry)

pub deallocate_buffer-Wf :
    (m m' : Memory) (address : ℕ) → Wf m → deallocate_buffer m address ≡ some m' → Wf m'
unfolding deallocate_buffer
deallocate_buffer-Wf m m' address w h =
    elim (Option-cases (slot m (extract_buffer m address % 2 ^ 32))) [
      | inl e ↦ absurd (ground arith)
      | inr (b, e) ↦
          subst Wf (ground arith)
            (notify-Wf _ (deallocated address) (release-Wf m _ b w (slot-get m _ e)))
    ]

-- The `memcpy` into a live buffer.
pub write_bytes-Wf :
    (m : Memory) (address : ℕ) (b : Buffer) (source : List ℕ)
    → Wf m
    → get_elem? m.memory (extract_buffer m address) ≡ some (some b)
    → Wf (write_bytes m address b source)
unfolding write_bytes
write_bytes-Wf m address b source w e =
    update-Wf m _ b _ w e refl
      (length-overwrite b.bytes _ source ∙ (All-get _ m.memory _ w.slots e).0)

pub checked_write-Wf :
    (m : Memory) (n : Note) (address size : ℕ) (b : Buffer) (source : List ℕ)
    → Wf m
    → checked m address size ≡ some b
    → Wf (write_bytes (notify m n) address b source)
unfolding notify extract_buffer
checked_write-Wf m n address size b source w e =
    write_bytes-Wf _ address b source (notify-Wf m n w) (checked-some m address size e).1

pub store-Wf : (m : Memory) (address : ℕ) (source : List ℕ) → Wf m → Wf (store m address source).0
store-Wf m address source w =
    store_cases (λ r. Wf r.0) m address source (λ _. notify-Wf m _ w)
      (λ b e. checked_write-Wf m _ address _ b source w e)

pub load-Wf : (m : Memory) (address size : ℕ) → Wf m → Wf (load m address size).0
load-Wf m address size w =
    load_cases (λ r. Wf r.0) m address size (λ _. notify-Wf m _ w) (λ b e. notify-Wf m _ w)
