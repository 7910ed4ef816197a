-- ===== src/Interpreter/Values.antt =====
-- src/core/common.cpp and common.h: TypedValue, a vector of `num` elements of `size` bytes, on a little-endian
-- host. Floating-point elements are left out. An element beyond the array is no value of the source.
pub mod Laws
use oclgrind.Base.{
  ℕ, zero, suc, ◌+◌, ◌-◌, ◌*◌, ◌/◌, ◌%◌, ◌^◌, Bool, true, false, not, ◌&&◌, ◌||◌, ◌==◌,
  if◌then◌else◌, ltb, List, [], ◌++◌, Option, none, some, Result, ok, err, ◌>>=◌, ◌>>◌, slice,
  overwrite, to_bytes, of_bytes, size_mod,
}

-- The fatal errors of the interpreter; `unset_value`, `no_instruction` and `failed_assertion` stand for what the source leaves undefined: to read a value that no
-- instruction has set, to go on where the code has no instruction, and to fail an assertion.
pub data Fatal : Type 0 where
  unsupported_int_size : Fatal
  unsupported_pointer_size : Fatal
  unsupported_predicate : Fatal
  unsupported_instruction : Fatal
  unreachable_instruction : Fatal
  unsupported_argument_type : Fatal
  unhandled_operand : Fatal
  unset_value : Fatal
  no_instruction : Fatal
  insufficient_private_memory : Fatal
  failed_assertion : Fatal

pub record TypedValue : Type 0 where
  pub size : ℕ
  pub num : ℕ
  pub bytes : List ℕ

abbrev pub is_int_size : ℕ → Bool
is_int_size n = (n == 1) || ((n == 2) || ((n == 4) || (n == 8)))

-- The number of patterns of an element.
abbrev pub range : ℕ → ℕ
range size = 256 ^ size

-- The bytes of an element, and memcpy to them.
abbrev pub element : TypedValue → ℕ → List ℕ
element v i = slice (i * v.size) v.size v.bytes

abbrev pub put_element : TypedValue → ℕ → List ℕ → TypedValue
put_element v i bytes = record v { bytes = overwrite v.bytes (i * v.size) bytes }

unfoldable pub get_uint : TypedValue → ℕ → Result Fatal ℕ
get_uint v i = if is_int_size v.size then ok (of_bytes (element v i)) else err unsupported_int_size

-- The pattern in 64 bits of a number of `size` bytes, with its sign.
abbrev pub sign_extend : ℕ → ℕ → ℕ
sign_extend size u = if ltb u (range size / 2) then u else u + size_mod - range size

-- An int64_t is its bit pattern.
unfoldable pub get_sint : TypedValue → ℕ → Result Fatal ℕ
get_sint v i =
    if is_int_size v.size
    then ok (sign_extend v.size (of_bytes (element v i)))
    else err unsupported_int_size

unfoldable pub get_pointer : TypedValue → ℕ → Result Fatal ℕ
get_pointer v i = if v.size == 8 then ok (of_bytes (element v i)) else err unsupported_pointer_size

-- The conversion to the type of the element keeps the low bytes.
unfoldable pub set_uint : TypedValue → ℕ → ℕ → Result Fatal TypedValue
set_uint v x i =
    if is_int_size v.size
    then ok (put_element v i (to_bytes v.size x))
    else err unsupported_int_size

unfoldable pub set_sint : TypedValue → ℕ → ℕ → Result Fatal TypedValue
set_sint v x i =
    if is_int_size v.size
    then ok (put_element v i (to_bytes v.size x))
    else err unsupported_int_size

unfoldable pub set_pointer : TypedValue → ℕ → ℕ → Result Fatal TypedValue
set_pointer v x i =
    if v.size == 8 then ok (put_element v i (to_bytes v.size x)) else err unsupported_pointer_size

-- `for (i = start; ...; i++) result.setUInt(f(i), i)`, with the rounds that are left.
unfoldable pub each : (ℕ → Result Fatal ℕ) → ℕ → ℕ → TypedValue → Result Fatal TypedValue
each f zero i r = ok r
each f (suc n) i r = f i >>= λ x. set_uint r x i >>= λ t. each f n (suc i) t
