-- ===== src/Runtime/Launch/Sizes.antt =====
-- src/runtime/runtime.cpp: the sizes of a launch that clEnqueueNDRangeKernel accepts.
use native.Mathlib.Nat.{mod-eq_of_lt}
use oclgrind.Base.{
  ℕ, zero, suc, ◌*◌, ◌%◌, ◌≡◌, ◌≤◌, ◌<◌, refl, sym, ap, ◌∙◌, subst, arith, Bool, true, false, not,
  ◌&&◌, ◌||◌, ◌==◌, ltb, List, Option, none, some, Result, ok, err, ◌>>=◌, ◌>>◌, Holds, returns,
  raises, Holds-ok, bind-Holds, size_mod,
}
use oclgrind.NdRange.{Size3}
use oclgrind.Runtime.{
  Code, EventObject, WaitList, Request, transfer, map_buffer, unmap, kernel, check_event_wait_list,
  reject_if, reject-Holds,
}
use oclgrind.Runtime.Transfers.{Accepted}
use oclgrind.Runtime.Launch.{
  Device, KernelObject, dimension, set_sizes, check_size, check_sizes, total_size, size3, or_size,
  sizes_or, enqueue_nd_range_kernel,
}

-- One dimension of a launch.
record FitsIn (d : Device) (k : KernelObject) (global local : ℕ) : Type 0 where
  divides : k.uniform ≡ true → global % local ≡ 0
  small : local ≤ d.max_group_size

-- The groups of the launch: their number of work-items, and that they divide the range if they have to.
pub record Fits (d : Device) (k : KernelObject) (global local : Size3) : Type 0 where
  pub divides_x : k.uniform ≡ true → global.x % local.x ≡ 0
  pub divides_y : k.uniform ≡ true → global.y % local.y ≡ 0
  pub divides_z : k.uniform ≡ true → global.z % local.z ≡ 0
  pub total : local.x * local.y * local.z ≤ d.max_group_size

abbrev pub Launch : Device → KernelObject → Request → Type 0
Launch d k (kernel id offset global local) = (id ≡ k.id) × Fits d k global local
Launch d k (transfer c) = ⊥
Launch d k (map_buffer a o n f) = ⊥
Launch d k (unmap a p) = ⊥

last-Holds : {Q : Type 0} (t : Bool) (c : Code) → Q → Holds (λ (u : Unit {0}). Q) (reject_if t c)
unfolding reject_if
last-Holds true c q = raises
last-Holds false c q = returns q

then-Holds :
    {A : Type 0} {P : A → Type 0} {Q : Type 0} (r : Result Code (Unit {0})) (s : Result Code ℕ)
    (f : ℕ → Result Code A)
    → Holds (λ u. Q) r
    → (Q → Holds P (s >>= f))
    → Holds P ((r >> s) >>= f)
then-Holds (err c) s f q h = raises
then-Holds (ok u) s f (returns q) h = h q

no_remainder : (b : Bool) (n : ℕ) → (b && not (n == 0)) ≡ false → b ≡ true → n ≡ 0
no_remainder b n e f = ground arith

size-FitsIn :
    (d : Device) (k : KernelObject) (global local : Size3) (i : ℕ)
    → Holds
        (λ u. FitsIn d k (dimension global i) (dimension local i))
        (check_size d k global local i)
unfolding check_size
size-FitsIn d k global local i = reject-Holds _ _ λ e. reject-Holds _ _ λ f.
    last-Holds _ _ (record {
      divides = no_remainder k.uniform (dimension global i % dimension local i) e;
      small = ground arith;
    })

mul_le : (a b c d : ℕ) → a ≤ b → c ≤ d → a * c ≤ b * d
mul_le a b c d h i = grind arith

-- A product of numbers up to `m` where m ^ 3 is a number of size_t.
product_fits : (m a b c : ℕ) → m * m * m < size_mod → a ≤ m → b ≤ m → c ≤ m → a * b * c < size_mod
product_fits m a b c h x y z =
    let p : a * b ≤ m * m = mul_le a m b m x y in omega (arith, h, mul_le (a * b) (m * m) c m p z)

divides_one : (n : ℕ) → n % 1 ≡ 0
divides_one n = omega arith

-- The product of sizes, reduced after each factor, is their product.
module _ (m a b : ℕ) (h : m * m * m < size_mod) (one : 1 ≤ m) (x : a ≤ m) (y : b ≤ m) where
  square_fits : m * m < size_mod
  square_fits = omega (arith, h, mul_le (m * m) (m * m) 1 m (omega arith) one)

  pair : a * b < size_mod
  pair = omega (arith, square_fits, mul_le a m b m x y)

  first : 1 * a % size_mod ≡ a
  first = mod-eq_of_lt (omega (arith, square_fits, mul_le m m 1 m (omega arith) one)) ∙ omega arith

  pair_below : 1 * a % size_mod * b % size_mod ≤ m → a * b ≤ m
  pair_below =
      subst (λ t. t ≤ m → a * b ≤ m) (sym (ap (λ t. t * b % size_mod) first ∙ mod-eq_of_lt pair))
        λ le. le

  triple_below :
      (c : ℕ) → c ≤ m → 1 * a % size_mod * b % size_mod * c % size_mod ≤ m → a * b * c ≤ m
  triple_below c z =
      subst (λ t. t ≤ m → a * b * c ≤ m)
        (sym (
          ap (λ t. t * c % size_mod) (ap (λ t. t * b % size_mod) first ∙ mod-eq_of_lt pair)
          ∙ mod-eq_of_lt (product_fits m a b c h x y z)))
        λ le. le

abbrev Good : Device → KernelObject → Result Code Accepted → Type 0
Good d k r = Holds (λ (a : Accepted). Launch d k a.0) r

sizes-Holds :
    {A : Type 0} {P : A → Type 0} (d : Device) (k : KernelObject) (global : Size3)
    (local : Option Size3) (work_dim : ℕ) (f : ℕ → Result Code A)
    → d.max_group_size * d.max_group_size * d.max_group_size < size_mod
    → 1 ≤ d.max_group_size
    → ((work_dim == 0) || ltb 3 work_dim) ≡ false
    → ((total : ℕ)
        → (ltb d.max_group_size total ≡ false
            → Fits d k (set_sizes global work_dim (size3 1)) (sizes_or local work_dim (size3 1)))
        → Holds P (f total))
    → Holds P (total_size d k global local work_dim >>= f)
unfolding check_sizes
sizes-Holds d k global none n f small one e h = h 1 λ g. record {
  divides_x = λ u. divides_one _;
  divides_y = λ u. divides_one _;
  divides_z = λ u. divides_one _;
  total = omega arith;
}
sizes-Holds d k global (some local) zero f small one e h = absurd (ground arith)
sizes-Holds d k global (some local) (suc zero) f small one e h =
    then-Holds _ _ f (size-FitsIn d k global local 0) λ x. h _ λ g. record {
      divides_x = x.divides;
      divides_y = λ u. divides_one 1;
      divides_z = λ u. divides_one 1;
      total = omega (arith, x.small);
    }
sizes-Holds d k global (some local) (suc (suc zero)) f small one e h =
    then-Holds _ _ f (size-FitsIn d k global local 0) λ x.
      then-Holds _ _ f (size-FitsIn d k global local 1) λ y. h _ λ g. record {
        divides_x = x.divides;
        divides_y = y.divides;
        divides_z = λ u. divides_one 1;
        total = omega (
          arith,
          pair_below d.max_group_size local.x local.y small one x.small y.small (ground arith),
        );
      }
sizes-Holds d k global (some local) (suc (suc (suc zero))) f small one e h =
    then-Holds _ _ f (size-FitsIn d k global local 0) λ x.
      then-Holds _ _ f (size-FitsIn d k global local 1) λ y.
        then-Holds _ _ f (size-FitsIn d k global local 2) λ z. h _ λ g. record {
          divides_x = x.divides;
          divides_y = y.divides;
          divides_z = z.divides;
          total =
              triple_below d.max_group_size local.x local.y small one x.small y.small local.z
                z.small (ground arith);
        }
sizes-Holds d k global (some local) (suc (suc (suc (suc n)))) f small one e h =
    absurd (ground arith)

-- A launch that the runtime accepts is of its kernel, its groups have no more work-items than the device allows,
-- and if the kernel needs uniform groups then they divide the range; the cube of the device's largest group is below 2^64.
pub enqueue_nd_range_kernel-Launch :
    (d : Device) (queue : Option ℕ) (k : KernelObject) (work_dim : ℕ)
    (offset global local : Option Size3) (wait : WaitList) (r : Request) (events : List EventObject)
    → d.max_group_size * d.max_group_size * d.max_group_size < size_mod
    → 1 ≤ d.max_group_size
    → enqueue_nd_range_kernel d queue k work_dim offset global local wait ≡ ok (r, events)
    → Launch d k r
unfolding enqueue_nd_range_kernel
enqueue_nd_range_kernel-Launch d queue k work_dim offset global local wait r events small one e =
    Holds-ok (subst (Good d k) e (good queue))
  where
    good :
        (queue : Option ℕ)
        → Good d k (enqueue_nd_range_kernel d queue k work_dim offset global local wait)
    good none = raises
    good (some q) = reject-Holds _ _ λ e. bind-Holds (check_event_wait_list q wait) λ es w.
        sizes-Holds d k (or_size global (size3 0)) local work_dim _ small one e λ total fits.
          reject-Holds _ _ λ f.
            reject-Holds _ _ λ g. reject-Holds _ _ λ h. reject-Holds _ _ λ i. returns (refl, fits f)
