-- ===== src/NdRange/Indices.antt =====
-- src/core/WorkGroup.cpp, WorkItem.cpp, and src/plugins/RaceDetector.cpp (getAccessWorkGroup): the
-- indices of work-groups and work-items.
use oclgrind.Base.{ℕ, suc, ◌+◌, ◌*◌, ◌/◌, ◌≤◌, ◌<◌, ◌≡◌, ◌≢◌, refl, ◌∙◌, arith, Bool}
use oclgrind.NdRange.{Size3, NdRange, linear, of_linear, global_id, global_index, group_index}
use oclgrind.NdRange.Linear.{of_linear-linear, linear-of_linear, div_add}

-- RaceDetector::getAccessWorkGroup, for the access of a work-item: its global index, divided by the
-- number of work-items of a full group.
pub access_work_group : NdRange → ℕ → ℕ
access_work_group r entity = entity / (r.local_size.x * r.local_size.y * r.local_size.z)

-- In a box that is not empty in x and y, the linear index of a point with x and y in the box gives the point
-- again, and every number is the linear index of the point that it gives.
pub of_linear_inverse :
    (d p : Size3) (n : ℕ)
    → 0 < d.x
    → 0 < d.y
    → p.x < d.x
    → p.y < d.y
    → (of_linear (linear d p) d ≡ p) × (linear d (of_linear n d) ≡ n)
of_linear_inverse d p n px py hx hy = (of_linear-linear d p hx hy, linear-of_linear d n px py)

-- A work-group's index is the same after a step in x and after a step in y, in every range.
pub group_index_collides :
    (r : NdRange) (x y z : ℕ)
    → group_index r (record { x = suc x; y = y; z = z })
      ≡ group_index r (record { x = x; y = suc y; z = z })
unfolding group_index
group_index_collides r x y z = omega arith

quotient_eq : (a b c d : ℕ) → a ≡ b → c ≡ d → a / c ≡ b / d
quotient_eq a b c d e f = cc

div_pos : (n k : ℕ) → 0 < k → k ≤ n → 0 < n / k
div_pos n k p h = grind arith

abbrev pub point : ℕ → ℕ → ℕ → Size3
point x y z = record { x = x; y = y; z = z }

-- A range with no offset.
abbrev pub at_origin : Size3 → Size3 → Bool → NdRange
at_origin g l u = record { offset = point 0 0 0; global_size = g; local_size = l; uniform = u }

-- In a range of one dimension without an offset, the index of a group is its number, and the race detector
-- finds it from the global index of each of its work-items.
pub one_dimension_index :
    (g l i k : ℕ) (u : Bool)
    → k < l
    → let r = at_origin (point g 1 1) (point l 1 1) u in
      (group_index r (point i 0 0) ≡ i)
      × (access_work_group r (global_index r (point i 0 0) (point k 0 0)) ≡ i)
unfolding group_index access_work_group global_index linear global_id
one_dimension_index g l i k u h = (
  omega arith,
  quotient_eq (k + i * l + 0 + 0 * g) (k + i * l) (l * 1 * 1) l (omega arith) (omega arith)
      ∙ div_add k i l h,
)

-- The work-item (0, 1) of group 0 is attributed to another group, if the range is at least as wide as a
-- group has work-items.
pub access_work_group_wrong :
    (g l : Size3) (u : Bool)
    → 0 < l.x * l.y * l.z
    → l.x * l.y * l.z ≤ g.x
    → let r = at_origin g l u in
      access_work_group r (global_index r (point 0 0 0) (point 0 1 0)) ≢ group_index r (point 0 0 0)
unfolding group_index access_work_group global_index linear global_id
access_work_group_wrong g l u p h e = absurd (
    omega (
      arith,
      e,
      quotient_eq (0 + 0 * l.x + 0 + (1 + 0 * l.y + 0 + (0 + 0 * l.z + 0) * g.y) * g.x) g.x
          (l.x * l.y * l.z) (l.x * l.y * l.z) (omega arith) refl,
      div_pos g.x (l.x * l.y * l.z) p h,
    ))
