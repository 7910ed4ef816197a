-- ===== src/Race/Sync/Examples.antt =====
-- The theorems on syncWorkItems at two work-items.
use oclgrind.Base.{ℕ, ◌<◌, inl, inr, refl, arith, true, [], ◌∷◌, All}
use oclgrind.Memory.{local_space}
use oclgrind.Race.{MemoryAccess, AccessRecord, AccessMap, is_set}
use oclgrind.Race.Sync.{sync_items}
use oclgrind.Race.Sync.Soundness.{Genuine, sync_items_sound}

abbrev none_yet : MemoryAccess
none_yet = record { entity = 0; instruction = 0; info = 0; store_data = 0 }

-- The work-item 0 stores the byte 7, and the work-item 1 loads it.
abbrev of_store : AccessRecord
of_store = record {
  load = none_yet;
  store = record { entity = 0; instruction = 40; info = 3; store_data = 9 };
}

abbrev of_load : AccessRecord
of_load = record {
  load = record { entity = 1; instruction = 48; info = 1; store_data = 0 };
  store = none_yet;
}

abbrev first_item : AccessMap
first_item = (7, of_store) ∷ []

abbrev second_item : AccessMap
second_item = (7, of_load) ∷ []

-- An access that took place has an instruction here.
abbrev HasInstruction : ℕ → MemoryAccess → Type 0
HasInstruction j x = 0 < x.instruction

sync_items_sound_example :
    All
      (Genuine true local_space HasInstruction)
      (sync_items true local_space (first_item ∷ second_item ∷ []) [] []).1
unfolding is_set
sync_items_sound_example =
    sync_items_sound true local_space HasInstruction (first_item ∷ second_item ∷ []) []
      (((inl refl, inr (omega arith)), tt), (((inr (omega arith), inl refl), tt), tt))
