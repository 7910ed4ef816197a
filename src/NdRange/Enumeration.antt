-- ===== src/NdRange/Enumeration.antt =====
-- src/core/KernelInvocation.cpp and WorkGroup.cpp: the loops that list work-groups and work-items.
use Prim.Native.Nat.add
use oclgrind.Base.{
  ℕ, zero, suc, ◌+◌, ◌*◌, ◌<◌, ◌≡◌, refl, ap, ◌∙◌, arith, List, [], ◌∷◌, ◌++◌, some, length,
  get_elem?, length-append, get_elem?-append_left,
}
use oclgrind.NdRange.{Size3, Below, linear, row, plane, space, points, get_work_item}
use oclgrind.NdRange.Linear.{in_box}

get_elem?-append_right :
    {A : Type 0} (xs ys : List A) (i m : ℕ)
    → m ≡ length xs + i
    → get_elem? (xs ++ ys) m ≡ get_elem? ys i
get_elem?-append_right [] ys i m e = ap (get_elem? ys) (e ∙ add.zero i)
get_elem?-append_right (x ∷ xs) ys i zero e = absurd (omega arith)
get_elem?-append_right (x ∷ xs) ys i (suc m) e = get_elem?-append_right xs ys i m (omega arith)

length-row : (n i j k : ℕ) → length (row n i j k) ≡ n
unfolding row
length-row zero i j k = refl
length-row (suc n) i j k = ap suc (length-row n (suc i) j k)

length-plane : (nx n j k : ℕ) → length (plane nx n j k) ≡ n * nx
unfolding plane
length-plane nx zero j k = omega arith
length-plane nx (suc n) j k = omega (
  arith,
  length-append (row nx 0 j k) (plane nx n (suc j) k),
  length-row nx 0 j k,
  length-plane nx n (suc j) k,
)

length-space : (nx ny n k : ℕ) → length (space nx ny n k) ≡ n * (ny * nx)
unfolding space
length-space nx ny zero k = omega arith
length-space nx ny (suc n) k = omega (
  arith,
  length-append (plane nx ny 0 k) (space nx ny n (suc k)),
  length-plane nx ny 0 k,
  length-space nx ny n (suc k),
)

get-row :
    (n i j k a : ℕ) → a < n → get_elem? (row n i j k) a ≡ some (record { x = i + a; y = j; z = k })
unfolding row
get-row zero i j k a h = absurd (omega arith)
get-row (suc n) i j k zero h = ground arith
get-row (suc n) i j k (suc a) h = ground (arith, get-row n (suc i) j k a)

get-plane :
    (nx n j k a b m : ℕ)
    → a < nx
    → b < n
    → m ≡ a + b * nx
    → get_elem? (plane nx n j k) m ≡ some (record { x = a; y = j + b; z = k })
unfolding plane
get-plane nx zero j k a b m h h' e = absurd (omega arith)
get-plane nx (suc n) j k a zero m h h' e =
    get_elem?-append_left (row nx 0 j k) (plane nx n (suc j) k) m
      (omega (arith, length-row nx 0 j k))
    ∙ ground (arith, get-row nx 0 j k m)
get-plane nx (suc n) j k a (suc b) m h h' e =
    get_elem?-append_right (row nx 0 j k) (plane nx n (suc j) k) (a + b * nx) m
      (omega (arith, length-row nx 0 j k))
    ∙ ground (arith, get-plane nx n (suc j) k a b (a + b * nx))

get-space :
    (nx ny n k a b c m : ℕ)
    → a < nx
    → b < ny
    → c < n
    → m ≡ a + (b + c * ny) * nx
    → get_elem? (space nx ny n k) m ≡ some (record { x = a; y = b; z = k + c })
unfolding space
get-space nx ny zero k a b c m h h' h'' e = absurd (omega arith)
get-space nx ny (suc n) k a b zero m h h' h'' e =
    get_elem?-append_left (plane nx ny 0 k) (space nx ny n (suc k)) m
      (omega (arith, length-plane nx ny 0 k, in_box a b nx ny h h'))
    ∙ ground (arith, get-plane nx ny 0 k a b m)
get-space nx ny (suc n) k a b (suc c) m h h' h'' e =
    get_elem?-append_right (plane nx ny 0 k) (space nx ny n (suc k)) (a + (b + c * ny) * nx) m
      (omega (arith, length-plane nx ny 0 k))
    ∙ ground (arith, get-space nx ny n (suc k) a b c (a + (b + c * ny) * nx))

-- The list of the points of a box has every point at its linear index, and as many elements as the box
-- has points.
pub points_lem :
    (d p : Size3)
    → Below p d
    → (get_elem? (points d) (linear d p) ≡ some p) × (length (points d) ≡ d.z * (d.y * d.x))
unfolding points linear
points_lem d p h = (
  get-space d.x d.y d.z 0 p.x p.y p.z _ h.0 h.1 h.2 refl ∙ ground arith,
  length-space d.x d.y d.z 0,
)

-- `getWorkItem` finds the work-item with the local identifier that it is given.
pub get_work_item_lem : (size p : Size3) → Below p size → get_work_item size p ≡ some p
unfolding get_work_item
get_work_item_lem size p h = (points_lem size p h).0
