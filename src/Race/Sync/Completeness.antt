-- ===== src/Race/Sync/Completeness.antt =====
-- src/plugins/RaceDetector.cpp: syncWorkItems reports a race wherever accesses of two work-items
-- conflict, although it records only one load and one store for each address.
use oclgrind.Base.{
  ℕ, zero, suc, ◌≡◌, ◌≢◌, ◌⊎◌, inl, inr, refl, ◌∙◌, arith, Bool, true, false, Bool-cases, List, [],
  ◌∷◌, some, get_elem?, All, All-get,
}
use oclgrind.Memory.{AddressSpace}
use oclgrind.Race.{
  MemoryAccess, AccessRecord, AccessMap, Race, is_set, is_load, is_store, is_work_item, check,
  report, at,
}
use oclgrind.Race.Sync.{Sync, sync_record, sync_records, report_all}
use oclgrind.Race.Check.{Covers, Conflict}
use oclgrind.Race.Dedup.{Has, insert_race-Has, insert_race-Has_self}
use oclgrind.Race.Sync.Merge.{CoversRecord, Kinded, OtherThan, OtherRecord, at-sync_record}

-- The recorded store `y` stands for the seen store `c` in a race with the load `x`; and so for the
-- other two pairs of kinds.
stands_load_store :
    (u : Bool) (x c y : MemoryAccess)
    → is_store x ≡ false
    → Conflict u x c
    → Covers y c
    → (is_set y ≡ false) ⊎ (is_store y ≡ true)
    → OtherThan x.entity y
    → check u x y ≡ true
unfolding check is_load is_work_item
stands_load_store u x c y l f cov k o = ground (arith, f.first, f.second, f.plain)

stands_store_load :
    (u : Bool) (x c y : MemoryAccess)
    → is_store x ≡ true
    → Conflict u x c
    → Covers y c
    → (is_set y ≡ false) ⊎ (is_store y ≡ false)
    → OtherThan x.entity y
    → check u x y ≡ true
unfolding check is_load is_work_item
stands_store_load u x c y l f cov k o = ground (arith, f.first, f.second, f.plain)

stands_store_store :
    (u : Bool) (x c y : MemoryAccess)
    → u ≡ false
    → is_store x ≡ true
    → Conflict u x c
    → Covers y c
    → (is_set y ≡ false) ⊎ (is_store y ≡ true)
    → OtherThan x.entity y
    → check u x y ≡ true
unfolding check is_load is_work_item
stands_store_store u x c y nu l f cov k o = ground (arith, f.first, f.second, f.plain)

-- Records of which one has a load or a store that conflicts with the other's. Two stores count only
-- where uniform writes do: of two stores to an address one is recorded, whatever their values.
abbrev pub Clash : Bool → AccessRecord → AccessRecord → Type 0
Clash u a c =
    Conflict u a.load c.store
    ⊎ (Conflict u a.store c.load ⊎ ((u ≡ false) × Conflict u a.store c.store))

-- The accesses of a record are those of the work-item with index `e`.
abbrev pub OwnedBy : ℕ → AccessRecord → Type 0
OwnedBy e a =
    ((is_set a.load ≡ false) ⊎ (a.load.entity ≡ e))
    × ((is_set a.store ≡ false) ⊎ (a.store.entity ≡ e))

-- A race at the address, of one of the accesses in `a`, of which the list has one, there or at a lower address.
abbrev pub Reported : Bool → AddressSpace → ℕ → AccessRecord → List Race → Type 0
Reported u space address a races =
    (r : Race) × (r.addrspace ≡ space)
    × (r.address ≡ address)
    × ((r.a ≡ a.load) ⊎ (r.a ≡ a.store))
    × (check u r.a r.b ≡ true)
    × Has races r

report-Has : (u : Bool) (races : List Race) (r z : Race) → Has races z → Has (report u races r) z
unfolding report
report-Has u races r z h = elim (Bool-cases (check u r.a r.b)) [
  | inl e ↦ rw e (insert_race-Has races r z h)
  | inr n ↦ rw n h
]

report-Has_self :
    (u : Bool) (races : List Race) (r : Race) → check u r.a r.b ≡ true → Has (report u races r) r
unfolding report
report-Has_self u races r e = rw e (insert_race-Has_self races r)

untouched :
    (u : Bool) (space : AddressSpace) (k j : ℕ) (b : AccessRecord) (s : Sync)
    → k ≢ j
    → at (sync_record u space k b s).wg j ≡ at s.wg j
untouched u space k j b s ne = at-sync_record u space k j b s ∙ ground arith

-- No address has two entries.
abbrev pub DistinctKeys : AccessMap → Type 0
DistinctKeys [] = Unit
DistinctKeys (x ∷ m) = All (λ y. x.0 ≢ y.0) m × DistinctKeys m

module _ (u : Bool) (space : AddressSpace) where
  report_all-Has :
      (k : ℕ) (a b : AccessRecord) (races : List Race) (z : Race)
      → Has races z
      → Has (report_all u space k a b races) z
  unfolding report_all
  report_all-Has k a b races z h =
      report-Has u _ _ z (report-Has u _ _ z (report-Has u races _ z h))

  report_all-Reported :
      (k e : ℕ) (a b c : AccessRecord) (races : List Race)
      → Kinded a
      → Kinded b
      → CoversRecord b c
      → OwnedBy e a
      → OtherRecord e b
      → Clash u a c
      → Reported u space k a (report_all u space k a b races)
  unfolding report_all
  report_all-Reported k e a b c races ka kb cov own os (inl f) =
      let hit =
        stands_load_store u a.load c.store b.store (ground (arith, f.first)) f cov.1 kb.1
          (ground (arith, f.first)) in
      (
        _,
        refl,
        refl,
        inl refl,
        hit,
        report-Has u _ _ _ (report-Has u _ _ _ (report-Has_self u races _ hit)),
      )
  report_all-Reported k e a b c races ka kb cov own os (inr (inl f)) =
      let hit =
        stands_store_load u a.store c.load b.load (ground (arith, f.first)) f cov.0 kb.0
          (ground (arith, f.first)) in
      (_, refl, refl, inr refl, hit, report-Has u _ _ _ (report-Has_self u _ _ hit))
  report_all-Reported k e a b c races ka kb cov own os (inr (inr (nu, f))) =
      let hit =
        stands_store_store u a.store c.store b.store nu (ground (arith, f.first)) f cov.1 kb.1
          (ground (arith, f.first)) in
      (_, refl, refl, inr refl, hit, report-Has_self u _ _ hit)

  sync_records-Has :
      (m : AccessMap) (s : Sync) (z : Race) → Has s.races z → Has (sync_records u space m s).races z
  unfolding sync_records sync_record
  sync_records-Has [] s z h = h
  sync_records-Has ((k, a) ∷ m) s z h =
      sync_records-Has m _ z (report_all-Has k a (at s.wg k) s.races z h)

  pub sync_records-Reported :
      (m : AccessMap) (n j e : ℕ) (a c : AccessRecord) (s : Sync)
      → DistinctKeys m
      → get_elem? m n ≡ some (j, a)
      → Kinded a
      → OwnedBy e a
      → Kinded (at s.wg j)
      → OtherRecord e (at s.wg j)
      → CoversRecord (at s.wg j) c
      → Clash u a c
      → Reported u space j a (sync_records u space m s).races
  unfolding sync_records
  sync_records-Reported [] n j e a c s d g ka own kw ow cov f = cc
  sync_records-Reported ((k, b) ∷ m) zero j e a c s d g ka own kw ow cov f =
      let same : k ≡ j = ground arith in
      let rec : b ≡ a = ground arith in
      let (r, sp, ad, mem, chk, has) =
        report_all-Reported j e a (at s.wg j) c s.races ka kw cov own ow f in
      (r, sp, ad, mem, chk, sync_records-Has m _ r (unfold sync_record in rw (same, rec) has))
  sync_records-Reported ((k, b) ∷ m) (suc n) j e a c s d g ka own kw ow cov f =
      let kept : at (sync_record u space k b s).wg j ≡ at s.wg j =
        untouched u space k j b s (All-get _ m n d.0 g) in
      sync_records-Reported m n j e a c (sync_record u space k b s) d.1 g ka own (rw kept kw)
        (rw kept ow) (rw kept cov) f
