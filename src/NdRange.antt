-- ===== src/NdRange.antt =====
-- src/core/common.cpp (Size3), src/core/KernelInvocation.cpp (the split of an ND-range into
-- work-groups), src/core/WorkGroup.cpp and WorkItem.cpp (identifiers and indices).
pub mod Linear
mod Dimension
pub mod Tiling
pub mod Indices
pub mod Enumeration
mod Examples
use oclgrind.Base.{
  ℕ, zero, suc, ◌+◌, ◌-◌, ◌*◌, ◌/◌, ◌%◌, ◌<◌, Bool, true, false, ◌&&◌, ◌==◌, if◌then◌else◌, ltb,
  List, [], ◌∷◌, ◌++◌, Option, none, some, get_elem?, size_mod,
}

pub record Size3 : Type 0 where
  pub x : ℕ
  pub y : ℕ
  pub z : ℕ

-- Size3(size_t linear, Size3 dimensions)
pub of_linear : ℕ → Size3 → Size3
of_linear n d = record { x = n % d.x; y = n / d.x % d.y; z = n / (d.x * d.y) }

-- `operator==`
pub same : Size3 → Size3 → Bool
same a b = (a.x == b.x) && ((a.y == b.y) && (a.z == b.z))

-- `p.x + (p.y + p.z * d.y) * d.x`, by which work-items are numbered in a group and in the ND-range.
unfoldable pub linear : Size3 → Size3 → ℕ
linear d p = p.x + (p.y + p.z * d.y) * d.x

-- All three coordinates are in range.
abbrev pub Below : Size3 → Size3 → Type 0
Below p d = (p.x < d.x) × (p.y < d.y) × (p.z < d.z)

-- The loops over x, y and z, with the rounds that are left and the next value of the counter.
pub row : ℕ → ℕ → ℕ → ℕ → List Size3
row zero i j k = []
row (suc n) i j k = record { x = i; y = j; z = k } ∷ row n (suc i) j k

pub plane : ℕ → ℕ → ℕ → ℕ → List Size3
plane nx zero j k = []
plane nx (suc n) j k = row nx 0 j k ++ plane nx n (suc j) k

pub space : ℕ → ℕ → ℕ → ℕ → List Size3
space nx ny zero k = []
space nx ny (suc n) k = plane nx ny 0 k ++ space nx ny n (suc k)

-- Every point of a box: the work-groups of a kernel invocation, the work-items of a group.
pub points : Size3 → List Size3
unfolding space plane row
points d = space d.x d.y d.z 0

-- The arguments of a kernel invocation, and whether its kernel has the uniform-work-group attribute.
pub record NdRange : Type 0 where
  pub offset : Size3
  pub global_size : Size3
  pub local_size : Size3
  pub uniform : Bool

-- One dimension of m_numGroups.
pub groups_in : Bool → ℕ → ℕ → ℕ
groups_in uniform g l = if uniform then g / l else g / l + (if g % l == 0 then 0 else 1)

pub num_groups : NdRange → Size3
unfolding groups_in
num_groups r = record {
  x = groups_in r.uniform r.global_size.x r.local_size.x;
  y = groups_in r.uniform r.global_size.y r.local_size.y;
  z = groups_in r.uniform r.global_size.z r.local_size.z;
}

-- m_workGroups; `quick` is OCLGRIND_QUICK.
pub work_groups : Bool → NdRange → List Size3
unfolding num_groups points same
work_groups true r =
    let n = num_groups r in
    let first : Size3 = record { x = 0; y = 0; z = 0 } in
    let last : Size3 = record { x = n.x - 1; y = n.y - 1; z = n.z - 1 } in
    first ∷ (if same last first then [] else last ∷ [])
work_groups false r = points (num_groups r)

-- One dimension of the size of a work-group, where `runWorker` handles remainder work-groups.
pub extent : ℕ → ℕ → ℕ → ℕ
extent g l i = if ltb g (l * (i + 1) % size_mod) then g % l else l

pub group_size : NdRange → Size3 → Size3
unfolding extent
group_size r w = record {
  x = extent r.global_size.x r.local_size.x w.x;
  y = extent r.global_size.y r.local_size.y w.y;
  z = extent r.global_size.z r.local_size.z w.z;
}

-- WorkItem::m_globalID of the work-item `p` of the work-group `w`.
pub global_id : NdRange → Size3 → Size3 → Size3
global_id r w p = record {
  x = p.x + w.x * r.local_size.x + r.offset.x;
  y = p.y + w.y * r.local_size.y + r.offset.y;
  z = p.z + w.z * r.local_size.z + r.offset.z;
}

-- WorkItem::m_globalIndex
pub global_index : NdRange → Size3 → Size3 → ℕ
unfolding global_id linear
global_index r w p = linear r.global_size (global_id r w p)

-- WorkGroup::m_groupIndex, with the parentheses as they stand in the constructor.
pub group_index : NdRange → Size3 → ℕ
unfolding num_groups
group_index r w = w.x + (w.y + w.z * (num_groups r).y * (num_groups r).x)

-- WorkGroup::getWorkItem: m_workItems is filled in the order of `points`.
pub get_work_item : Size3 → Size3 → Option Size3
unfolding points linear
get_work_item size p = get_elem? (points size) (linear size p)

-- The group and the local identifier in which `switchWorkItem` looks for a global identifier.
pub group_of : NdRange → Size3 → Size3
group_of r g = record {
  x = g.x / r.local_size.x;
  y = g.y / r.local_size.y;
  z = g.z / r.local_size.z;
}

pub local_of : NdRange → Size3 → Size3
local_of r g = record {
  x = g.x % r.local_size.x;
  y = g.y % r.local_size.y;
  z = g.z % r.local_size.z;
}
