-- ===== src/Race/Sync/Soundness.antt =====
-- src/plugins/RaceDetector.cpp: what syncWorkItems logs are races, between accesses that were recorded.
use oclgrind.Base.{
  ℕ, ◌≡◌, ◌⊎◌, inl, inr, refl, subst, arith, Bool, true, false, Bool-cases, ==_iff, ◌==◌, ltb, not,
  ◌||◌, List, [], ◌∷◌, All, All-append,
}
use oclgrind.Memory.{AddressSpace}
use oclgrind.Race.{
  MemoryAccess, AccessRecord, AccessMap, Race, is_set, is_load, is_store, is_atomic, check, insert,
  insert_race, report, same_race, at, blank, no_access,
}
use oclgrind.Race.Sync.{Sync, absorb, sync_record, sync_records, sync_items, report_all}
use oclgrind.Race.Sync.Merge.{at-sync_record}

-- What holds of every access that took place, at its address.
module _ (u : Bool) (space : AddressSpace) (P : ℕ → MemoryAccess → Type 0) where
  abbrev pub Known : ℕ → MemoryAccess → Type 0
  Known j x = (is_set x ≡ false) ⊎ P j x

  abbrev pub KnownRecord : ℕ → AccessRecord → Type 0
  KnownRecord j r = Known j r.load × Known j r.store

  -- A race of this space, between two known accesses to its address.
  abbrev pub Genuine : Race → Type 0
  Genuine r = (r.addrspace ≡ space) × (check u r.a r.b ≡ true) × P r.address r.a × P r.address r.b

  insert_race-Genuine :
      (xs : List Race) (r : Race) → All Genuine xs → Genuine r → All Genuine (insert_race xs r)
  unfolding insert_race
  insert_race-Genuine [] r h g = (g, tt)
  insert_race-Genuine (x ∷ xs) r h g = elim (Bool-cases (same_race r x)) [
    | inl e ↦ elim (Bool-cases (ltb r.address x.address)) [
      | inl lower ↦ rw (e, lower) (All-append Genuine xs (r ∷ []) h.1 (g, tt))
      | inr higher ↦ rw (e, higher) h
    ]
    | inr n ↦ rw n ((h.0, insert_race-Genuine xs r h.1 g))
  ]

  set_of_check : (a b : MemoryAccess) → check u a b ≡ true → (is_set a ≡ true) × (is_set b ≡ true)
  unfolding check
  set_of_check a b h = ground arith

  report-Genuine :
      (xs : List Race) (j : ℕ) (a b : MemoryAccess)
      → All Genuine xs
      → Known j a
      → Known j b
      → All Genuine (report u xs (record { addrspace = space; address = j; a = a; b = b }))
  unfolding report
  report-Genuine xs j a b h ka kb = elim (Bool-cases (check u a b)) [
    | inl e ↦
        let (sa, sb) = set_of_check a b e in
        rw e (insert_race-Genuine xs _ h (refl, e, known j a sa ka, known j b sb kb))
    | inr n ↦ rw n h
  ]
    where
      known : (i : ℕ) (x : MemoryAccess) → is_set x ≡ true → Known i x → P i x
      known i x s (inl n) = cc
      known i x s (inr p) = p

  insert-Known :
      (j : ℕ) (r : AccessRecord) (x : MemoryAccess)
      → KnownRecord j r
      → Known j x
      → KnownRecord j (insert r x)
  unfolding insert
  insert-Known j r x h k = elim (Bool-cases (is_load x)) [
    | inl l ↦ elim (Bool-cases (not (is_set r.load) || is_atomic r.load)) [
      | inl t ↦ rw (l, t) ((k, h.1))
      | inr t ↦ rw (l, t) h
    ]
    | inr l ↦ elim (Bool-cases (is_store x)) [
      | inl s ↦ elim (Bool-cases (not (is_set r.store) || is_atomic r.store)) [
        | inl t ↦ rw (l, s, t) ((h.0, k))
        | inr t ↦ rw (l, s, t) h
      ]
      | inr s ↦ rw (l, s) h
    ]
  ]

  absorb-Known :
      (j : ℕ) (b a : AccessRecord) → KnownRecord j b → KnownRecord j a → KnownRecord j (absorb b a)
  unfolding absorb
  absorb-Known j b a h k = elim (Bool-cases (is_set a.load)) [
    | inl l ↦ elim (Bool-cases (is_set a.store)) [
      | inl s ↦ rw (l, s) (insert-Known j _ a.store (insert-Known j b a.load h k.0) k.1)
      | inr s ↦ rw (l, s) (insert-Known j b a.load h k.0)
    ]
    | inr l ↦ elim (Bool-cases (is_set a.store)) [
      | inl s ↦ rw (l, s) (insert-Known j b a.store h k.1)
      | inr s ↦ rw (l, s) h
    ]
  ]

  abbrev KnownMap : AccessMap → Type 0
  KnownMap m = (j : ℕ) → KnownRecord j (at m j)

  sync_record-Known :
      (k : ℕ) (a : AccessRecord) (s : Sync)
      → KnownRecord k a
      → KnownMap s.wg
      → KnownMap (sync_record u space k a s).wg
  sync_record-Known k a s ka kw j =
      rw (at-sync_record u space k j a s) (elim (Bool-cases (k == j)) [
        | inl e ↦ rw e (
            subst (λ i. KnownRecord i (absorb (at s.wg k) a)) ((==_iff k j).0 e)
              (absorb-Known k (at s.wg k) a (kw k) ka))
        | inr n ↦ rw n (kw j)
      ])

  sync_record-Genuine :
      (k : ℕ) (a : AccessRecord) (s : Sync)
      → KnownRecord k a
      → KnownMap s.wg
      → All Genuine s.races
      → All Genuine (sync_record u space k a s).races
  unfolding sync_record report_all
  sync_record-Genuine k a s ka kw g =
      report-Genuine _ k a.store (at s.wg k).store
        (report-Genuine _ k a.store (at s.wg k).load
          (report-Genuine s.races k a.load (at s.wg k).store g ka.0 (kw k).1) ka.1 (kw k).0)
        ka.1 (kw k).1

  sync_records-Genuine :
      (m : AccessMap) (s : Sync)
      → All (λ x. KnownRecord x.0 x.1) m
      → KnownMap s.wg
      → All Genuine s.races
      → KnownMap (sync_records u space m s).wg × All Genuine (sync_records u space m s).races
  unfolding sync_records
  sync_records-Genuine [] s h kw g = (kw, g)
  sync_records-Genuine ((k, a) ∷ m) s h kw g =
      sync_records-Genuine m (sync_record u space k a s) h.1 (sync_record-Known k a s h.0 kw)
        (sync_record-Genuine k a s h.0 kw g)

  items-Genuine :
      (ms : List AccessMap) (wg global : AccessMap)
      → All (All (λ x. KnownRecord x.0 x.1)) ms
      → KnownMap wg
      → All Genuine (sync_items u space ms wg global).1
  unfolding sync_items
  items-Genuine [] wg global h kw = tt
  items-Genuine (m ∷ ms) wg global h kw =
      let (kw', g) =
        sync_records-Genuine m (record { wg = wg; global = global; races = [] }) h.0 kw tt in
      All-append Genuine _ _ g (items-Genuine ms _ _ h.1 kw')

  -- Every race that the loop over the work-items reports is of the space it was called for, passes `check`, and
  -- is between two accesses that took place at its address: for every predicate `P` that holds of the recorded
  -- accesses, both have it.
  pub sync_items_sound :
      (ms : List AccessMap) (global : AccessMap)
      → All (All (λ x. KnownRecord x.0 x.1)) ms
      → All Genuine (sync_items u space ms [] global).1
  unfolding at blank no_access is_set
  sync_items_sound ms global h = items-Genuine ms [] global h (λ j. (inl refl, inl refl))
