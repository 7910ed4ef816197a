-- ===== src/NdRange/Examples.antt =====
-- The theorems on ND-ranges at a range of 10 by 5 with groups of 4 by 2.
use oclgrind.Base.{◌≡◌, ◌≢◌, refl, arith, true, false, [], ◌∷◌}
use oclgrind.NdRange.{
  NdRange, Below, num_groups, group_size, global_id, global_index, group_of, local_of, group_index,
  work_groups,
}
use oclgrind.NdRange.Tiling.{IsRegular, Inside, shifted, tiling-Inside, tiling_covers}
use oclgrind.NdRange.Indices.{point, at_origin, access_work_group, access_work_group_wrong}

range : NdRange
range = record {
  offset = point 100 0 0;
  global_size = point 10 5 1;
  local_size = point 4 2 1;
  uniform = false;
}

range-IsRegular : IsRegular range
unfolding range
range-IsRegular = omega arith

-- Three by three groups; the last one has two by one work-items.
three_by_three : (num_groups range ≡ point 3 3 1) × (group_size range (point 2 2 0) ≡ point 2 1 1)
unfolding range num_groups group_size
three_by_three = (refl, refl)

quick_mode : work_groups true range ≡ point 0 0 0 ∷ point 2 2 0 ∷ []
unfolding range work_groups
quick_mode = refl

tiling-Inside_example : Inside range (point 2 2 0) (point 1 0 0)
unfolding range num_groups group_size
tiling-Inside_example =
    tiling-Inside range (point 2 2 0) (point 1 0 0) range-IsRegular (omega arith) (omega arith)

tiling_covers_example :
    Below (group_of range (point 9 4 0)) (num_groups range)
    × Below (local_of range (point 9 4 0)) (group_size range (group_of range (point 9 4 0)))
    × (global_id range (group_of range (point 9 4 0)) (local_of range (point 9 4 0))
        ≡ shifted range (point 9 4 0))
unfolding range
tiling_covers_example = tiling_covers range (point 9 4 0) range-IsRegular refl (omega arith)

access_work_group_wrong_example :
    let r = at_origin (point 8 8 1) (point 2 2 1) true in
    access_work_group r (global_index r (point 0 0 0) (point 0 1 0)) ≢ group_index r (point 0 0 0)
access_work_group_wrong_example =
    access_work_group_wrong (point 8 8 1) (point 2 2 1) true (omega arith) (omega arith)
