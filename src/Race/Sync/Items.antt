-- ===== src/Race/Sync/Items.antt =====
-- src/plugins/RaceDetector.cpp: the loop of syncWorkItems over the work-items reports their conflicts.
use oclgrind.Base.{
  ℕ, zero, suc, ◌≡◌, sym, subst, arith, Bool, List, [], ◌∷◌, ◌++◌, some, get_elem?, All,
}
use oclgrind.Memory.{AddressSpace}
use oclgrind.Race.{AccessRecord, AccessMap, Race, at}
use oclgrind.Race.Sync.{Sync, sync_records, sync_items}
use oclgrind.Race.Dedup.{Has-append_left, Has-append_right}
use oclgrind.Race.Sync.Merge.{
  CoversRecord, Kinded, OtherRecord, keep_records, records_cover, records-Kinded, records_other,
}
use oclgrind.Race.Sync.Completeness.{Clash, Reported, OwnedBy, DistinctKeys, sync_records-Reported}

-- The maps of other work-items, or of the work-group.
abbrev pub Others : ℕ → List AccessMap → Type 0
Others e = All (λ m. All (λ x. OtherRecord e x.1) m)

module _ (u : Bool) (space : AddressSpace) (j e n : ℕ) (a c : AccessRecord) (m : AccessMap)
    (after : List AccessMap) (d : DistinctKeys m) (found : get_elem? m n ≡ some (j, a))
    (ka : Kinded a) (own : OwnedBy e a) (clash : Clash u a c) where
  Reported-left : (xs ys : List Race) → Reported u space j a xs → Reported u space j a (xs ++ ys)
  Reported-left xs ys (r, sp, ad, mem, chk, has) =
      (r, sp, ad, mem, chk, Has-append_left xs ys r has)

  Reported-right : (xs ys : List Race) → Reported u space j a ys → Reported u space j a (xs ++ ys)
  Reported-right xs ys (r, sp, ad, mem, chk, has) =
      (r, sp, ad, mem, chk, Has-append_right xs ys r has)

  covered_reports :
      (before : List AccessMap) (wg global : AccessMap)
      → Others e before
      → ((i : ℕ) → Kinded (at wg i))
      → ((i : ℕ) → OtherRecord e (at wg i))
      → CoversRecord (at wg j) c
      → Reported u space j a (sync_items u space (before ++ m ∷ after) wg global).1
  unfolding sync_items
  covered_reports [] wg global o kw ow cov = Reported-left _ _ (
      sync_records-Reported u space m n j e a c (record { wg = wg; global = global; races = [] }) d
        found ka own (kw j) (ow j) cov clash)
  covered_reports (b ∷ before) wg global o kw ow cov =
      let s : Sync = record { wg = wg; global = global; races = [] } in
      Reported-right _ _ (
        covered_reports before (sync_records u space b s).wg (sync_records u space b s).global o.1
          (records-Kinded u space b s kw) (records_other u space e b s o.0 ow)
          (keep_records u space b j c s cov))

  pub conflict_reports :
      (before : List AccessMap) (wg global earlier : AccessMap) (i k : ℕ)
      → Others e before
      → get_elem? before i ≡ some earlier
      → get_elem? earlier k ≡ some (j, c)
      → Kinded c
      → ((i : ℕ) → Kinded (at wg i))
      → ((i : ℕ) → OtherRecord e (at wg i))
      → Reported u space j a (sync_items u space (before ++ m ∷ after) wg global).1
  unfolding sync_items
  conflict_reports [] wg global earlier i k o seen entry kc kw ow = cc
  conflict_reports (b ∷ before) wg global earlier zero k o seen entry kc kw ow =
      let s : Sync = record { wg = wg; global = global; races = [] } in
      let same : b ≡ earlier = ground arith in
      Reported-right _ _ (
        covered_reports before (sync_records u space b s).wg (sync_records u space b s).global o.1
          (records-Kinded u space b s kw) (records_other u space e b s o.0 ow)
          (records_cover u space b k j c s kc
            (subst (λ x. get_elem? x k ≡ some (j, c)) (sym same) entry)))
  conflict_reports (b ∷ before) wg global earlier (suc i) k o seen entry kc kw ow =
      let s : Sync = record { wg = wg; global = global; races = [] } in
      Reported-right _ _ (
        conflict_reports before (sync_records u space b s).wg (sync_records u space b s).global
          earlier i k o.1 seen entry kc (records-Kinded u space b s kw)
          (records_other u space e b s o.0 ow))
