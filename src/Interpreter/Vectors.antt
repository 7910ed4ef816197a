-- ===== src/Interpreter/Vectors.antt =====
-- src/core/WorkItem.cpp: the instructions that copy elements with memcpy. What a copy reads beyond its source, or writes
-- beyond the result, is no value of the source; here it is not copied.
use oclgrind.Base.{
  ℕ, zero, suc, ◌-◌, ◌*◌, ◌%◌, ◌==◌, Bool, if◌then◌else◌, leb, List, [], ◌∷◌, Option, none, some,
  Result, ok, ◌>>=◌, slice, take, overwrite, unsigned_mod,
}
use oclgrind.Interpreter.Values.{Fatal, TypedValue, get_uint}

-- `memcpy(result.data + i * result.size, source, n)`
abbrev pub fill : TypedValue → ℕ → List ℕ → TypedValue
fill r offset source = record r { bytes = overwrite r.bytes offset source }

-- bitcast, addrspacecast and freeze: all the bytes of the result.
unfoldable pub copy_value : TypedValue → TypedValue → TypedValue
copy_value a r = fill r 0 (take (r.size * r.num) a.bytes)

unfoldable pub extractelem : TypedValue → TypedValue → TypedValue → Result Fatal TypedValue
extractelem vector index r = get_uint index 0 >>= λ i.
    ok (fill r 0 (slice (r.size * (i % unsigned_mod)) r.size vector.bytes))

unfoldable pub insertelem :
    TypedValue → TypedValue → TypedValue → TypedValue → Result Fatal TypedValue
insertelem vector new index r = get_uint index 0 >>= λ i.
    ok (fill (copy_value vector r) (i % unsigned_mod * r.size) (take r.size new.bytes))

-- The loop of `select`, with the rounds that are left; `is_vector` says that the condition has an element for each.
unfoldable pub select :
    Bool → TypedValue → TypedValue → TypedValue → ℕ → ℕ → TypedValue → Result Fatal TypedValue
select is_vector condition yes_value no_value zero i r = ok r
select is_vector condition yes_value no_value (suc n) i r =
    get_uint condition (if is_vector then i else 0) >>= λ c.
    select is_vector condition yes_value no_value n (suc i) (
      fill r (i * r.size)
        (slice (i * r.size) r.size (if c == 0 then no_value.bytes else yes_value.bytes)))

-- The loop of `shuffle` over the rest of the mask: `none` is the poison element, `num` the elements of `v1`.
unfoldable pub shuffle : List (Option ℕ) → ℕ → TypedValue → TypedValue → ℕ → TypedValue → TypedValue
shuffle [] i v1 v2 num r = r
shuffle (none ∷ mask) i v1 v2 num r = shuffle mask (suc i) v1 v2 num r
shuffle (some index ∷ mask) i v1 v2 num r = shuffle mask (suc i) v1 v2 num (
    fill r (i * r.size) (
      if leb num index
      then slice ((index - num) * r.size) r.size v2.bytes
      else slice (index * r.size) r.size v1.bytes))
