-- ===== src/Race/Check.antt =====
-- src/plugins/RaceDetector.cpp: when `check` finds a race, and what `insert` keeps.
use oclgrind.Base.{◌≡◌, ◌≢◌, ◌↔◌, ◌⊎◌, inl, inr, arith, Bool, true, false, Bool-cases}
use oclgrind.Race.{
  MemoryAccess, AccessRecord, is_set, is_load, is_store, is_atomic, is_work_group, is_work_item,
  check, insert,
}

-- Two accesses race: both took place, they are not of one work-item, not both are atomic, at least one
-- is a store, and if both are, they do not store the same byte, or that counts as a race too.
pub record Conflict (allow_uniform : Bool) (a b : MemoryAccess) : Type 0 where
  pub first : is_set a ≡ true
  pub second : is_set b ≡ true
  pub apart : (is_work_group a ≡ true) ⊎ ((is_work_group b ≡ true) ⊎ (a.entity ≢ b.entity))
  pub plain : (is_atomic a ≡ false) ⊎ (is_atomic b ≡ false)
  pub stores : (is_store a ≡ true) ⊎ (is_store b ≡ true)
  pub differ :
      (is_store a ≡ false)
      ⊎ ((is_store b ≡ false) ⊎ ((allow_uniform ≡ false) ⊎ (a.store_data ≢ b.store_data)))

check_sound : (u : Bool) (a b : MemoryAccess) → check u a b ≡ true → Conflict u a b
unfolding check is_load is_work_item
check_sound u a b h = record {
  first = ground arith;
  second = ground arith;
  apart = ground arith;
  plain = ground arith;
  stores = ground arith;
  differ = ground arith;
}

check_complete : (u : Bool) (a b : MemoryAccess) → Conflict u a b → check u a b ≡ true
unfolding check is_load is_work_item
check_complete u a b c = ground (arith, c.first, c.second, c.apart, c.plain, c.stores, c.differ)

-- `check` is true exactly of accesses that conflict.
pub check_iff : (u : Bool) (a b : MemoryAccess) → (check u a b ≡ true) ↔ Conflict u a b
check_iff u a b = (check_sound u a b, check_complete u a b)

pub check_symm : (u : Bool) (a b : MemoryAccess) → check u a b ≡ check u b a
unfolding check is_load is_work_item
check_symm u a b = ground arith

-- What is recorded holds against what was seen: an access that was set still is one, and if it was not
-- atomic the recorded one is not.
abbrev pub Covers : MemoryAccess → MemoryAccess → Type 0
Covers a seen =
    ((is_set seen ≡ false) ⊎ (is_set a ≡ true))
    × ((is_set seen ≡ false) ⊎ ((is_atomic seen ≡ true) ⊎ (is_atomic a ≡ false)))

-- After `insert` of an access that is set, the record's access of its kind covers the given one and the one
-- that was there, and the access of the other kind is as before.
pub insert-Covers :
    (r : AccessRecord) (x : MemoryAccess)
    → is_set x ≡ true
    → ((is_load x ≡ true)
        × Covers (insert r x).load x
        × Covers (insert r x).load r.load
        × ((insert r x).store ≡ r.store))
      ⊎ ((is_store x ≡ true)
          × Covers (insert r x).store x
          × Covers (insert r x).store r.store
          × ((insert r x).load ≡ r.load))
unfolding insert is_load
insert-Covers r x h = elim (Bool-cases (is_store x)) [
  | inl s ↦ inr (ground arith)
  | inr l ↦ inl (ground arith)
]
