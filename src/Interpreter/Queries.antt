-- ===== src/Interpreter/Queries.antt =====
-- src/core/WorkItemBuiltins.cpp: the work-item functions, get_global_id and the like, on the sizes and identifiers of the
-- invocation, the group and the item. `result` is the memory of the result.
use native.Mathlib.Nat.{mod-eq_of_lt}
use oclgrind.Base.{
  ℕ, ◌+◌, ◌-◌, ◌*◌, ◌%◌, ◌<◌, ◌≡◌, ap, ◌∙◌, arith, if◌then◌else◌, ltb, Result, ◌>>=◌, size_mod,
}
use oclgrind.NdRange.{Size3, linear, of_linear}
use oclgrind.NdRange.Linear.{of_linear-linear}
use oclgrind.Runtime.Launch.{dimension}
use oclgrind.Interpreter.Values.{Fatal, TypedValue, get_uint, set_uint}

-- What the functions read: of the invocation, of the group and of the item.
pub record Place : Type 0 where
  pub global_size : Size3
  pub global_offset : Size3
  pub local_size : Size3
  pub num_groups : Size3
  pub work_dim : ℕ
  pub group_id : Size3
  pub group_size : Size3
  pub the_global_id : Size3
  pub local_id : Size3

-- The dimension that the argument names, or `beyond` if there is none.
abbrev pub in_dimension : Size3 → ℕ → TypedValue → TypedValue → Result Fatal TypedValue
in_dimension s beyond argument result =
    get_uint argument 0 >>= λ dim. set_uint result (if ltb dim 3 then dimension s dim else beyond) 0

unfoldable pub get_global_id : Place → TypedValue → TypedValue → Result Fatal TypedValue
get_global_id p = in_dimension p.the_global_id 0

pub get_global_size : Place → TypedValue → TypedValue → Result Fatal TypedValue
get_global_size p = in_dimension p.global_size 1

pub get_global_offset : Place → TypedValue → TypedValue → Result Fatal TypedValue
get_global_offset p = in_dimension p.global_offset 0

pub get_group_id : Place → TypedValue → TypedValue → Result Fatal TypedValue
get_group_id p = in_dimension p.group_id 0

pub get_local_id : Place → TypedValue → TypedValue → Result Fatal TypedValue
get_local_id p = in_dimension p.local_id 0

pub get_local_size : Place → TypedValue → TypedValue → Result Fatal TypedValue
get_local_size p = in_dimension p.group_size 1

pub get_enqueued_local_size : Place → TypedValue → TypedValue → Result Fatal TypedValue
get_enqueued_local_size p = in_dimension p.local_size 1

pub get_num_groups : Place → TypedValue → TypedValue → Result Fatal TypedValue
get_num_groups p = in_dimension p.num_groups 1

pub get_work_dim : Place → TypedValue → Result Fatal TypedValue
get_work_dim p result = set_uint result p.work_dim 0

-- The position in the range, without the offset.
pub get_global_linear_id : Place → TypedValue → Result Fatal TypedValue
get_global_linear_id p result =
    let z = (p.the_global_id.z + size_mod - p.global_offset.z) % size_mod in
    let y = (p.the_global_id.y + size_mod - p.global_offset.y) % size_mod in
    set_uint result
      (((z * p.global_size.y + y) * p.global_size.x
          + p.the_global_id.x
          + size_mod
          - p.global_offset.x)
        % size_mod)
      0

-- The number that get_local_linear_id gives, reduced as size_t is.
pub local_linear_id : Place → ℕ
local_linear_id p =
    ((p.local_id.z * p.group_size.y + p.local_id.y) * p.group_size.x + p.local_id.x) % size_mod

pub get_local_linear_id : Place → TypedValue → Result Fatal TypedValue
get_local_linear_id p result = set_uint result (local_linear_id p) 0

-- Where the group has fewer than 2^64 items, an item inside it is found again from its linear number.
pub of_linear-local_linear_id :
    (p : Place)
    → p.local_id.x < p.group_size.x
    → p.local_id.y < p.group_size.y
    → (p.local_id.z * p.group_size.y + p.local_id.y) * p.group_size.x + p.local_id.x < size_mod
    → of_linear (local_linear_id p) p.group_size ≡ p.local_id
unfolding local_linear_id linear
of_linear-local_linear_id p hx hy h =
    ap (λ n. of_linear n p.group_size) (mod-eq_of_lt h ∙ as_linear)
    ∙ of_linear-linear p.group_size p.local_id hx hy
  where
    as_linear :
        (p.local_id.z * p.group_size.y + p.local_id.y) * p.group_size.x + p.local_id.x
        ≡ p.local_id.x + (p.local_id.y + p.local_id.z * p.group_size.y) * p.group_size.x
    as_linear = omega arith
