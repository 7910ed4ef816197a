-- ===== src/NdRange/Tiling.antt =====
-- src/core/KernelInvocation.cpp: the work-groups of an invocation tile its global range.
use oclgrind.Base.{ℕ, ◌+◌, ◌*◌, ◌/◌, ◌%◌, ◌<◌, ◌≡◌, refl, sym, subst, Bool, false, size_mod}
use oclgrind.NdRange.{
  Size3, NdRange, Below, num_groups, group_size, groups_in, extent, global_id, group_of, local_of,
}
use oclgrind.NdRange.Linear.{div_add, mod_add, mod_div_join}
use oclgrind.NdRange.Dimension.{extent_inside, extent_covers}

-- Each dimension has a local size, and ends so that the end of its last group does not wrap.
pub record IsRegular (r : NdRange) : Type 0 where
  pub x_pos : 0 < r.local_size.x
  pub y_pos : 0 < r.local_size.y
  pub z_pos : 0 < r.local_size.z
  pub x_fits : r.global_size.x + r.local_size.x < size_mod
  pub y_fits : r.global_size.y + r.local_size.y < size_mod
  pub z_fits : r.global_size.z + r.local_size.z < size_mod

-- A global identifier without the offset.
abbrev pub shifted : NdRange → Size3 → Size3
shifted r g = record { x = g.x + r.offset.x; y = g.y + r.offset.y; z = g.z + r.offset.z }

dim_inside :
    (u : Bool) (g l i k : ℕ)
    → 0 < l
    → g + l < size_mod
    → i < groups_in u g l
    → k < extent g l i
    → (k + i * l < g) × ((k + i * l) / l ≡ i) × ((k + i * l) % l ≡ k)
dim_inside u g l i k p fits h e =
    let (small, inside) = extent_inside u g l i k p fits h e in
    (inside, div_add k i l small, mod_add k i l small)

dim_covers :
    (u : Bool) (g l n : ℕ)
    → u ≡ false
    → 0 < l
    → g + l < size_mod
    → n < g
    → (n / l < groups_in u g l) × (n % l < extent g l (n / l)) × (n % l + n / l * l ≡ n)
dim_covers u g l n e p fits h =
    let (below, inside) = extent_covers g l n p fits h in
    (subst (λ v. n / l < groups_in v g l) (sym e) below, inside, mod_div_join n l p)

-- The work-item `p` of the group `w` has an identifier in the range, from which both are found again.
abbrev pub Inside : NdRange → Size3 → Size3 → Type 0
Inside r w p =
    (g : Size3) × (global_id r w p ≡ shifted r g)
    × Below g r.global_size
    × (group_of r g ≡ w)
    × (local_of r g ≡ p)

-- In a regular range, the global identifier of every work-item of every group, less the offset, is in the
-- range, and `group_of` and `local_of` give back the group and the local identifier.
pub tiling-Inside :
    (r : NdRange) (w p : Size3)
    → IsRegular r
    → Below w (num_groups r)
    → Below p (group_size r w)
    → Inside r w p
unfolding num_groups group_size global_id group_of local_of
tiling-Inside r w p reg hw hp =
    let (ax, bx, cx) =
      dim_inside r.uniform r.global_size.x r.local_size.x w.x p.x reg.x_pos reg.x_fits hw.0 hp.0 in
    let (ay, b_y, cy) =
      dim_inside r.uniform r.global_size.y r.local_size.y w.y p.y reg.y_pos reg.y_fits hw.1 hp.1 in
    let (az, bz, cz) =
      dim_inside r.uniform r.global_size.z r.local_size.z w.z p.z reg.z_pos reg.z_fits hw.2 hp.2 in
    (
      record {
        x = p.x + w.x * r.local_size.x;
        y = p.y + w.y * r.local_size.y;
        z = p.z + w.z * r.local_size.z;
      },
      refl,
      (ax, ay, az),
      λ i. record { x = bx i; y = b_y i; z = bz i },
      λ i. record { x = cx i; y = cy i; z = cz i },
    )

-- In a regular range without uniform groups, every identifier is that of a work-item: of the group and the
-- local identifier that `group_of` and `local_of` give, which are in range.
pub tiling_covers :
    (r : NdRange) (n : Size3)
    → IsRegular r
    → r.uniform ≡ false
    → Below n r.global_size
    → Below (group_of r n) (num_groups r)
      × Below (local_of r n) (group_size r (group_of r n))
      × (global_id r (group_of r n) (local_of r n) ≡ shifted r n)
unfolding num_groups group_size global_id group_of local_of
tiling_covers r n reg u h =
    let (ax, bx, cx) =
      dim_covers r.uniform r.global_size.x r.local_size.x n.x u reg.x_pos reg.x_fits h.0 in
    let (ay, b_y, cy) =
      dim_covers r.uniform r.global_size.y r.local_size.y n.y u reg.y_pos reg.y_fits h.1 in
    let (az, bz, cz) =
      dim_covers r.uniform r.global_size.z r.local_size.z n.z u reg.z_pos reg.z_fits h.2 in
    (
      (ax, ay, az),
      (bx, b_y, bz),
      λ i. record { x = cx i + r.offset.x; y = cy i + r.offset.y; z = cz i + r.offset.z },
    )
