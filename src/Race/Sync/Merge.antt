-- ===== src/Race/Sync/Merge.antt =====
-- src/plugins/RaceDetector.cpp: what syncWorkItems has recorded of the accesses that it has seen.
use oclgrind.Base.{
  ℕ, zero, suc, ◌≡◌, ◌≢◌, ◌⊎◌, inl, inr, refl, arith, Bool, true, false, ◌==◌, if◌then◌else◌,
  Bool-cases, ==_iff, [], ◌∷◌, some, get_elem?, All,
}
use oclgrind.Memory.{AddressSpace}
use oclgrind.Race.{
  MemoryAccess, AccessRecord, AccessMap, is_set, is_load, is_store, is_work_group, insert, at, put,
}
use oclgrind.Race.Sync.{Sync, absorb, sync_record, sync_records}
use oclgrind.Race.Check.{Covers}

abbrev pub CoversRecord : AccessRecord → AccessRecord → Type 0
CoversRecord r c = Covers r.load c.load × Covers r.store c.store

-- The access under `load` is a load, the access under `store` a store.
abbrev pub Kinded : AccessRecord → Type 0
Kinded r =
    ((is_set r.load ≡ false) ⊎ (is_store r.load ≡ false))
    × ((is_set r.store ≡ false) ⊎ (is_store r.store ≡ true))

-- An access that is not one of the work-item with index `e`.
abbrev pub OtherThan : ℕ → MemoryAccess → Type 0
OtherThan e x = (is_set x ≡ false) ⊎ ((is_work_group x ≡ true) ⊎ (x.entity ≢ e))

abbrev pub OtherRecord : ℕ → AccessRecord → Type 0
OtherRecord e r = OtherThan e r.load × OtherThan e r.store

pub absorb-Covers_new : (b a : AccessRecord) → Kinded a → CoversRecord (absorb b a) a
unfolding absorb insert is_load
absorb-Covers_new b a k = (ground arith, ground arith)

pub absorb-Covers_old : (b a : AccessRecord) → CoversRecord (absorb b a) b
unfolding absorb insert is_load
absorb-Covers_old b a = (ground arith, ground arith)

pub absorb-Kinded : (b a : AccessRecord) → Kinded b → Kinded (absorb b a)
unfolding absorb insert is_load
absorb-Kinded b a k = ground arith

pub absorb-OtherRecord :
    (e : ℕ) (b a : AccessRecord) → OtherRecord e b → OtherRecord e a → OtherRecord e (absorb b a)
unfolding absorb insert is_load
absorb-OtherRecord e b a h k = ground arith

Covers-trans : (x y z : MemoryAccess) → Covers x y → Covers y z → Covers x z
Covers-trans x y z h k = ground arith

pub at-put :
    (m : AccessMap) (k j : ℕ) (r : AccessRecord) → at (put m k r) j ≡ (if k == j then r else at m j)
unfolding at put
at-put [] k j r = refl
at-put ((i, s) ∷ m) k j r = ground (arith, at-put m k j r)

-- What a record's turn leaves at each address.
pub at-sync_record :
    (u : Bool) (space : AddressSpace) (k j : ℕ) (a : AccessRecord) (s : Sync)
    → at (sync_record u space k a s).wg j ≡ (if k == j then absorb (at s.wg k) a else at s.wg j)
unfolding sync_record
at-sync_record u space k j a s = at-put s.wg k j (absorb (at s.wg k) a)

module _ (u : Bool) (space : AddressSpace) where
  keep_record :
      (k j : ℕ) (a c : AccessRecord) (s : Sync)
      → CoversRecord (at s.wg j) c
      → CoversRecord (at (sync_record u space k a s).wg j) c
  keep_record k j a c s h = elim (Bool-cases (k == j)) [
    | inl e ↦
        let same : k ≡ j = (==_iff k j).0 e in
        rw (at-sync_record u space k j a s, e)
          (let (l, t) = absorb-Covers_old (at s.wg k) a in
            let old : CoversRecord (at s.wg k) c = rw same h in
            (Covers-trans _ _ _ l old.0, Covers-trans _ _ _ t old.1))
    | inr n ↦ rw (at-sync_record u space k j a s, n) h
  ]

  -- Nothing that was seen is forgotten.
  pub keep_records :
      (m : AccessMap) (j : ℕ) (c : AccessRecord) (s : Sync)
      → CoversRecord (at s.wg j) c
      → CoversRecord (at (sync_records u space m s).wg j) c
  unfolding sync_records
  keep_records [] j c s h = h
  keep_records ((k, a) ∷ m) j c s h =
      keep_records m j c (sync_record u space k a s) (keep_record k j a c s h)

  pub records_cover :
      (m : AccessMap) (n j : ℕ) (c : AccessRecord) (s : Sync)
      → Kinded c
      → get_elem? m n ≡ some (j, c)
      → CoversRecord (at (sync_records u space m s).wg j) c
  unfolding sync_records
  records_cover [] n j c s kc e = cc
  records_cover ((k, a) ∷ m) zero j c s kc e =
      let same : k ≡ j = ground arith in
      let rec : a ≡ c = ground arith in
      keep_records m j c (sync_record u space k a s) (
        rw (at-sync_record u space k j a s, (==_iff k j).1 same, rec)
          (absorb-Covers_new (at s.wg k) c kc))
  records_cover ((k, a) ∷ m) (suc n) j c s kc e =
      records_cover m n j c (sync_record u space k a s) kc e

  pub records-Kinded :
      (m : AccessMap) (s : Sync)
      → ((j : ℕ) → Kinded (at s.wg j))
      → (j : ℕ) → Kinded (at (sync_records u space m s).wg j)
  unfolding sync_records
  records-Kinded [] s h j = h j
  records-Kinded ((k, a) ∷ m) s h j =
      records-Kinded m (sync_record u space k a s)
        (λ i. rw (at-sync_record u space k i a s) (kinded_if k i)) j
    where
      kinded_if : (k i : ℕ) → Kinded (if k == i then absorb (at s.wg k) a else at s.wg i)
      kinded_if k i = elim (Bool-cases (k == i)) [
        | inl e ↦ rw e (absorb-Kinded (at s.wg k) a (h k))
        | inr n ↦ rw n (h i)
      ]

  pub records_other :
      (e : ℕ) (m : AccessMap) (s : Sync)
      → All (λ entry. OtherRecord e entry.1) m
      → ((j : ℕ) → OtherRecord e (at s.wg j))
      → (j : ℕ) → OtherRecord e (at (sync_records u space m s).wg j)
  unfolding sync_records
  records_other e [] s o h j = h j
  records_other e ((k, a) ∷ m) s o h j =
      records_other e m (sync_record u space k a s) o.1
        (λ i. rw (at-sync_record u space k i a s) (other_if k i)) j
    where
      other_if : (k i : ℕ) → OtherRecord e (if k == i then absorb (at s.wg k) a else at s.wg i)
      other_if k i = elim (Bool-cases (k == i)) [
        | inl same ↦ rw same (absorb-OtherRecord e (at s.wg k) a (h k) o.0)
        | inr n ↦ rw n (h i)
      ]
