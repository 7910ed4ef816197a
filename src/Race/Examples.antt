-- ===== src/Race/Examples.antt =====
-- The theorems on single accesses and on lists of races at concrete values.
use oclgrind.Base.{◌≡◌, ◌↔◌, inl, refl, arith, true, false, [], ◌∷◌, some}
use oclgrind.Memory.{global_space}
use oclgrind.Race.{
  MemoryAccess, Race, is_set, is_load, is_store, is_atomic, is_work_item, is_work_group, new_access,
  check, insert_race, same_race, equal,
}
use oclgrind.Race.Check.{Conflict, check_iff}
use oclgrind.Race.Dedup.{Has, Unequal, insert_race_lem}

-- A store of the work-item 0 and a load of the work-item 1.
abbrev stored : MemoryAccess
stored = record { entity = 0; instruction = 40; info = 3; store_data = 9 }

abbrev loaded : MemoryAccess
loaded = record { entity = 1; instruction = 48; info = 1; store_data = 0 }

-- These are what the constructor makes.
stored_is_new : (new_access 5 (some (0, 40)) true false).info ≡ stored.info
unfolding new_access
stored_is_new = refl

check_iff_example : (check true stored loaded ≡ true) ↔ Conflict true stored loaded
check_iff_example = check_iff true stored loaded

-- They race.
a_race_is_found : check true stored loaded ≡ true
unfolding check is_set is_load is_store is_work_item is_work_group is_atomic
a_race_is_found = refl

-- One race at two addresses.
abbrev high : Race
high = record { addrspace = global_space; address = 12; a = stored; b = loaded }

abbrev low : Race
low = record { addrspace = global_space; address = 8; a = loaded; b = stored }

-- The lower address replaces the higher one.
lower_replaces : insert_race (high ∷ []) low ≡ low ∷ []
unfolding insert_race same_race equal
lower_replaces = refl

insert_race_example :
    Unequal (insert_race (high ∷ []) low)
    × Has (insert_race (high ∷ []) low) low
    × Has (insert_race (high ∷ []) low) high
unfolding same_race equal
insert_race_example = insert_race_lem (high ∷ []) low high (tt, tt) (inl (refl, omega arith))
