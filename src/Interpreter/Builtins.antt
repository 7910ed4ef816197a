-- ===== src/Interpreter/Builtins.antt =====
-- src/core/WorkItemBuiltins.cpp: integer functions of OpenCL C. The overload of a function is the type of its arguments;
-- `x & UINT32_MAX` is `x % 2 ^ 32`, and arithmetic on an int64_t wraps around.
pub mod Bits
pub mod High
pub mod Saturation
pub mod Relational
pub mod Calls
use Prim.Native.Nat.{bit_and, bit_or, min, max}
use oclgrind.Base.{
  ℕ, zero, suc, ◌+◌, ◌-◌, ◌*◌, ◌/◌, ◌%◌, ◌^◌, Bool, true, false, not, ◌&&◌, ◌||◌, ◌==◌,
  if◌then◌else◌, ltb, Result, ok, err, ◌>>=◌, size_mod,
}
use oclgrind.Interpreter.Values.{
  Fatal, unsupported_argument_type, TypedValue, each, get_uint, get_sint, range,
}
use oclgrind.Interpreter.Integers.{binary, binary_signed, unary, shift_right, sless}

-- The letters of the overloads, as the types of C.
pub data ArgType : Type 0 where
  uchar ushort uint ulong char short int long other_type : ArgType

abbrev pub type_size : ArgType → ℕ
type_size uchar = 1
type_size char = 1
type_size ushort = 2
type_size short = 2
type_size uint = 4
type_size int = 4
type_size t = 8

pub data Signedness : Type 0 where
  is_unsigned is_signed unknown : Signedness

-- The two groups of cases of a switch over the overload.
abbrev pub signedness : ArgType → Signedness
signedness uchar = is_unsigned
signedness ushort = is_unsigned
signedness uint = is_unsigned
signedness ulong = is_unsigned
signedness other_type = unknown
signedness t = is_signed

-- `switch` around the body of a loop over two arguments; an empty vector meets no default case.
unfoldable pub by_type :
    ArgType
    → (ℕ → ℕ → ℕ)
    → (ℕ → ℕ → ℕ)
    → TypedValue
    → TypedValue
    → TypedValue
    → Result Fatal TypedValue
by_type t f g a b r = elim (signedness t) [
  | is_unsigned ↦ binary f a b r
  | is_signed ↦ binary_signed g a b r
  | unknown ↦ if r.num == 0 then ok r else err unsupported_argument_type
]

-- The high half of a product, in 64 bits by the products of the 32-bit halves.
unfoldable pub umul_hi : ℕ → ℕ → ℕ → ℕ
umul_hi x y bits =
    if bits == 64
    then (let xl = x % 2 ^ 32 in
        let xh = x / 2 ^ 32 in
        let yl = y % 2 ^ 32 in
        let yh = y / 2 ^ 32 in
        let xlyl = xl * yl % size_mod in
        let xlyh = xl * yh % size_mod in
        let xhyl = xh * yl % size_mod in
        let xhyh = xh * yh % size_mod in
        let a = (xhyl + xlyl / 2 ^ 32) % size_mod in
        let al = a % 2 ^ 32 in
        let ah = a / 2 ^ 32 in
        let b = ((al + xlyh) % size_mod / 2 ^ 32 + ah) % size_mod in (xhyh + b) % size_mod)
    else x * y % size_mod / 2 ^ bits

pub smul_hi : ℕ → ℕ → ℕ → ℕ
smul_hi x y bits =
    if bits == 64
    then (let xl = x % 2 ^ 32 in
        let xh = shift_right x 32 in
        let yl = y % 2 ^ 32 in
        let yh = shift_right y 32 in
        let xlyl = xl * yl % size_mod in
        let xlyh = xl * yh % size_mod in
        let xhyl = xh * yl % size_mod in
        let xhyh = xh * yh % size_mod in
        let a = (xhyl + shift_right xlyl 32 % 2 ^ 32) % size_mod in
        let al = a % 2 ^ 32 in
        let ah = shift_right a 32 in
        let b = (shift_right ((al + xlyh) % size_mod) 32 + ah) % size_mod in (xhyh + b) % size_mod)
    else shift_right (x * y % size_mod) bits

unfoldable pub mul_hi : ArgType → TypedValue → TypedValue → TypedValue → Result Fatal TypedValue
mul_hi t a b r = by_type t (λ x y. umul_hi x y (r.size * 8)) (λ x y. smul_hi x y (r.size * 8)) a b r

-- The average, rounded down, and up.
abbrev pub half_sum : ℕ → ℕ → ℕ
half_sum x y = (x / 2 + y / 2 + bit_and (bit_and x y) 1) % size_mod

abbrev pub half_sum_up : ℕ → ℕ → ℕ
half_sum_up x y = (x / 2 + y / 2 + bit_and (bit_or x y) 1) % size_mod

unfoldable pub hadd : ArgType → TypedValue → TypedValue → TypedValue → Result Fatal TypedValue
hadd t =
    by_type t half_sum
      (λ x y. (shift_right x 1 + shift_right y 1 + bit_and (bit_and x y) 1) % size_mod)

unfoldable pub rhadd : ArgType → TypedValue → TypedValue → TypedValue → Result Fatal TypedValue
rhadd t =
    by_type t half_sum_up
      (λ x y. (shift_right x 1 + shift_right y 1 + bit_and (bit_or x y) 1) % size_mod)

-- The maximum less the minimum.
unfoldable pub abs_diff : ArgType → TypedValue → TypedValue → TypedValue → Result Fatal TypedValue
abs_diff t =
    by_type t (λ x y. max x y - min x y)
      (λ x y. if sless x y then (y + size_mod - x) % size_mod else (x + size_mod - y) % size_mod)

-- `v >> rs` with all 64 bits, for a rotation by 0, is undefined; here it gives 0.
unfoldable pub rotate : TypedValue → TypedValue → TypedValue → Result Fatal TypedValue
rotate a b r =
    let width = r.size * 8 in
    binary (λ v n. bit_or (v * 2 ^ (n % width) % size_mod) (v / 2 ^ (width - n % width))) a b r

-- The rounds of a loop that shifts `x` to 0: the number of its bits, and of its ones. 64 rounds are enough.
pub bits_of : ℕ → ℕ → ℕ
bits_of zero x = 0
bits_of (suc fuel) x = let rest = bits_of fuel (x / 2) in if x == 0 then 0 else suc rest

pub popcount_of : ℕ → ℕ → ℕ
popcount_of zero x = 0
popcount_of (suc fuel) x = let rest = popcount_of fuel (x / 2) in if x == 0 then 0 else x % 2 + rest

unfoldable pub clz : TypedValue → TypedValue → Result Fatal TypedValue
clz a r = unary (λ x. (r.size * 8 + size_mod - bits_of 64 x) % size_mod) a r

unfoldable pub popcount : TypedValue → TypedValue → Result Fatal TypedValue
popcount = unary (popcount_of 64)

unfoldable pub upsample : TypedValue → TypedValue → TypedValue → Result Fatal TypedValue
upsample hi lo r = binary (λ x y. bit_or (x * 2 ^ (r.size * 4) % size_mod) y) hi lo r

-- The bounds of the signed type of `n` bytes, as int64_t, and the clamping to them.
abbrev pub least : ℕ → ℕ
least n = size_mod - range n / 2

abbrev pub greatest : ℕ → ℕ
greatest n = range n / 2 - 1

abbrev pub clamp_to : ℕ → ℕ → ℕ
clamp_to n x = if sless x (least n) then least n else if sless (greatest n) x then greatest n else x

abbrev pub is_positive : ℕ → Bool
is_positive x = sless 0 x

abbrev pub same_bool : Bool → Bool → Bool
same_bool true b = b
same_bool false b = not b

pub add_sat_long : ℕ → ℕ → ℕ
add_sat_long sa sb =
    let s = (sa + sb) % size_mod in
    if same_bool (is_positive sa) (is_positive sb)
      && not (same_bool (is_positive sa) (is_positive s))
    then (if is_positive sa then size_mod / 2 - 1 else size_mod / 2)
    else s

pub sub_sat_long : ℕ → ℕ → ℕ
sub_sat_long sa sb =
    let s = (sa + size_mod - sb) % size_mod in
    if not (same_bool (is_positive sa) (is_positive sb))
      && not (same_bool (is_positive sa) (is_positive s))
    then (if is_positive sa then size_mod / 2 - 1 else size_mod / 2)
    else s

unfoldable pub add_sat_element : ArgType → (ua ub sa sb : ℕ) → Result Fatal ℕ
add_sat_element uchar ua ub sa sb = ok (min ((ua + ub) % size_mod) (range 1 - 1))
add_sat_element ushort ua ub sa sb = ok (min ((ua + ub) % size_mod) (range 2 - 1))
add_sat_element uint ua ub sa sb = ok (min ((ua + ub) % size_mod) (range 4 - 1))
add_sat_element ulong ua ub sa sb =
    ok (if ltb ((ua + ub) % size_mod) ub then size_mod - 1 else (ua + ub) % size_mod)
add_sat_element char ua ub sa sb = ok (clamp_to 1 ((sa + sb) % size_mod))
add_sat_element short ua ub sa sb = ok (clamp_to 2 ((sa + sb) % size_mod))
add_sat_element int ua ub sa sb = ok (clamp_to 4 ((sa + sb) % size_mod))
add_sat_element long ua ub sa sb = ok (add_sat_long sa sb)
add_sat_element other_type ua ub sa sb = err unsupported_argument_type

unfoldable pub sub_sat_element : ArgType → (ua ub sa sb : ℕ) → Result Fatal ℕ
sub_sat_element uchar ua ub sa sb = ok (
    if ltb (range 1 - 1) ((ua + size_mod - ub) % size_mod)
    then 0
    else (ua + size_mod - ub) % size_mod)
sub_sat_element ushort ua ub sa sb = ok (
    if ltb (range 2 - 1) ((ua + size_mod - ub) % size_mod)
    then 0
    else (ua + size_mod - ub) % size_mod)
sub_sat_element uint ua ub sa sb = ok (
    if ltb (range 4 - 1) ((ua + size_mod - ub) % size_mod)
    then 0
    else (ua + size_mod - ub) % size_mod)
sub_sat_element ulong ua ub sa sb = ok (if ltb ua ub then 0 else (ua + size_mod - ub) % size_mod)
sub_sat_element char ua ub sa sb = ok (clamp_to 1 ((sa + size_mod - sb) % size_mod))
sub_sat_element short ua ub sa sb = ok (clamp_to 2 ((sa + size_mod - sb) % size_mod))
sub_sat_element int ua ub sa sb = ok (clamp_to 4 ((sa + size_mod - sb) % size_mod))
sub_sat_element long ua ub sa sb = ok (sub_sat_long sa sb)
sub_sat_element other_type ua ub sa sb = err unsupported_argument_type

-- The loop around an element's function.
unfoldable pub saturating :
    ((ua ub sa sb : ℕ) → Result Fatal ℕ)
    → TypedValue
    → TypedValue
    → TypedValue
    → Result Fatal TypedValue
saturating f a b r =
    each
      (λ i. get_uint a i >>= λ ua.
        get_uint b i >>= λ ub. get_sint a i >>= λ sa. get_sint b i >>= λ sb. f ua ub sa sb)
      r.num 0 r

abbrev pub add_sat : ArgType → TypedValue → TypedValue → TypedValue → Result Fatal TypedValue
add_sat t = saturating (add_sat_element t)

abbrev pub sub_sat : ArgType → TypedValue → TypedValue → TypedValue → Result Fatal TypedValue
sub_sat t = saturating (sub_sat_element t)
