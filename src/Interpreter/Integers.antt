-- ===== src/Interpreter/Integers.antt =====
-- src/core/WorkItem.cpp: the instructions on vectors of integers. Each takes the values of its operands and the
-- memory of its result, with the bytes that it holds before. A uint64_t and an int64_t are bit patterns below 2^64.
pub mod Elements
pub mod Modular
pub mod Signed
pub mod Division
pub mod Compare
pub mod Conversions
use Prim.Native.Nat.{bit_and, bit_or, bit_xor, max}
use oclgrind.Base.{
  ℕ, zero, suc, ◌+◌, ◌-◌, ◌*◌, ◌/◌, ◌%◌, ◌^◌, Bool, true, false, not, ◌&&◌, ◌||◌, ◌==◌,
  if◌then◌else◌, ltb, leb, List, [], ◌∷◌, Option, none, some, Result, ok, err, ◌>>=◌, slice, take,
  overwrite, size_mod, unsigned_mod, ℤ, pos, negsuc, quot, rem,
}
use oclgrind.Interpreter.Values.{
  Fatal, unsupported_predicate, TypedValue, each, get_uint, get_sint, get_pointer, set_uint,
  element, put_element, set_pointer,
}

-- The integer of an int64_t, and back.
abbrev pub to_int : ℕ → ℤ
to_int u = if ltb u (size_mod / 2) then pos u else negsuc (size_mod - 1 - u)

abbrev pub of_int : ℤ → ℕ
of_int (pos n) = n % size_mod
of_int (negsuc n) = size_mod - 1 - n % size_mod

-- `for (i < result.num) result.setUInt(f(opA.getUInt(i), opB.getUInt(i)), i)`, and at one operand. Setting as signed is
-- the same.
unfoldable pub binary : (ℕ → ℕ → ℕ) → TypedValue → TypedValue → TypedValue → Result Fatal TypedValue
binary f a b r = each (λ i. get_uint a i >>= λ x. get_uint b i >>= λ y. ok (f x y)) r.num 0 r

-- With getSInt for the operands.
unfoldable pub binary_signed :
    (ℕ → ℕ → ℕ) → TypedValue → TypedValue → TypedValue → Result Fatal TypedValue
binary_signed f a b r = each (λ i. get_sint a i >>= λ x. get_sint b i >>= λ y. ok (f x y)) r.num 0 r

unfoldable pub unary : (ℕ → ℕ) → TypedValue → TypedValue → Result Fatal TypedValue
unary f a r = each (λ i. get_uint a i >>= λ x. ok (f x)) r.num 0 r

abbrev pub add : TypedValue → TypedValue → TypedValue → Result Fatal TypedValue
add = binary (λ x y. (x + y) % size_mod)

abbrev pub sub : TypedValue → TypedValue → TypedValue → Result Fatal TypedValue
sub = binary (λ x y. (x + size_mod - y) % size_mod)

abbrev pub mul : TypedValue → TypedValue → TypedValue → Result Fatal TypedValue
mul = binary (λ x y. x * y % size_mod)

abbrev pub bwand : TypedValue → TypedValue → TypedValue → Result Fatal TypedValue
bwand = binary bit_and

abbrev pub bwor : TypedValue → TypedValue → TypedValue → Result Fatal TypedValue
bwor = binary bit_or

abbrev pub bwxor : TypedValue → TypedValue → TypedValue → Result Fatal TypedValue
bwxor = binary bit_xor

abbrev pub udiv : TypedValue → TypedValue → TypedValue → Result Fatal TypedValue
udiv = binary (λ x y. if y == 0 then 0 else x / y)

abbrev pub urem : TypedValue → TypedValue → TypedValue → Result Fatal TypedValue
urem = binary (λ x y. if y == 0 then 0 else x % y)

-- The shift count of a scalar is taken modulo its width, of 32 bits at least.
abbrev pub shift_mask : TypedValue → ℕ
shift_mask r = (if ltb 1 r.num then r.size else max r.size 4) * 8 - 1

unfoldable pub shl : TypedValue → TypedValue → TypedValue → Result Fatal TypedValue
shl a b r = binary (λ x y. x * 2 ^ bit_and y (shift_mask r) % size_mod) a b r

unfoldable pub lshr : TypedValue → TypedValue → TypedValue → Result Fatal TypedValue
lshr a b r = binary (λ x y. x / 2 ^ bit_and y (shift_mask r)) a b r

-- `>>` of an int64_t rounds down.
abbrev pub shift_right : ℕ → ℕ → ℕ
shift_right x k =
    if ltb x (size_mod / 2) then x / 2 ^ k else size_mod - 1 - (size_mod - 1 - x) / 2 ^ k

unfoldable pub ashr : TypedValue → TypedValue → TypedValue → Result Fatal TypedValue
ashr a b r =
    each
      (λ i.
        get_sint a i >>= λ x. get_uint b i >>= λ y. ok (shift_right x (bit_and y (shift_mask r))))
      r.num 0 r

-- `b && !(a == INT64_MIN && b == -1)`
abbrev pub is_divisible : ℕ → ℕ → Bool
is_divisible x y = not (y == 0) && not ((x == size_mod / 2) && (y == (size_mod - 1)))

unfoldable pub sdiv : TypedValue → TypedValue → TypedValue → Result Fatal TypedValue
sdiv = binary_signed (λ x y. if is_divisible x y then of_int (quot (to_int x) (to_int y)) else 0)

unfoldable pub srem : TypedValue → TypedValue → TypedValue → Result Fatal TypedValue
srem = binary_signed (λ x y. if is_divisible x y then of_int (rem (to_int x) (to_int y)) else 0)

-- Conversions. `is_bit` says that the type of the operand is `i1`, and no vector.
abbrev pub itrunc : TypedValue → TypedValue → Result Fatal TypedValue
itrunc = unary (λ x. x)

abbrev pub zext : TypedValue → TypedValue → Result Fatal TypedValue
zext = unary (λ x. x)

unfoldable pub sext : Bool → TypedValue → TypedValue → Result Fatal TypedValue
sext is_bit a r =
    each (λ i. get_sint a i >>= λ x. ok (if is_bit then if x == 0 then 0 else size_mod - 1 else x))
      r.num 0 r

unfoldable pub ptrtoint : TypedValue → TypedValue → Result Fatal TypedValue
ptrtoint a r = each (λ i. get_pointer a i) r.num 0 r

-- The loop of `inttoptr`, with the rounds that are left.
unfoldable pub inttoptr : ℕ → ℕ → TypedValue → TypedValue → Result Fatal TypedValue
inttoptr zero i a r = ok r
inttoptr (suc n) i a r = get_uint a i >>= λ x. set_pointer r x i >>= λ t. inttoptr n (suc i) a t

pub data Predicate : Type 0 where
  icmp_eq : Predicate
  icmp_ne : Predicate
  icmp_ugt : Predicate
  icmp_uge : Predicate
  icmp_ult : Predicate
  icmp_ule : Predicate
  icmp_sgt : Predicate
  icmp_sge : Predicate
  icmp_slt : Predicate
  icmp_sle : Predicate
  fcmp : ℕ → Predicate

-- `<` and `<=` on int64_t: moving both by 2^63 maps the order to the unsigned one.
abbrev pub sless : ℕ → ℕ → Bool
sless a b = ltb ((a + size_mod / 2) % size_mod) ((b + size_mod / 2) % size_mod)

abbrev pub is_int_predicate : Predicate → Bool
is_int_predicate (fcmp n) = false
is_int_predicate p = true

pub compares : Predicate → (ua ub sa sb : ℕ) → Bool
compares icmp_eq ua ub sa sb = ua == ub
compares icmp_ne ua ub sa sb = not (ua == ub)
compares icmp_ugt ua ub sa sb = ltb ub ua
compares icmp_uge ua ub sa sb = leb ub ua
compares icmp_ult ua ub sa sb = ltb ua ub
compares icmp_ule ua ub sa sb = leb ua ub
compares icmp_sgt ua ub sa sb = sless sb sa
compares icmp_sge ua ub sa sb = not (sless sa sb)
compares icmp_slt ua ub sa sb = sless sa sb
compares icmp_sle ua ub sa sb = not (sless sb sa)
compares (fcmp n) ua ub sa sb = false

unfoldable pub icmp : Predicate → TypedValue → TypedValue → TypedValue → Result Fatal TypedValue
icmp p a b r =
    let t = if ltb 1 r.num then size_mod - 1 else 1 in
    each
      (λ i. get_uint a i >>= λ ua. get_uint b i >>= λ ub. get_sint a i >>= λ sa.
        get_sint b i >>= λ sb.
        if is_int_predicate p
        then ok (if compares p ua ub sa sb then t else 0)
        else err unsupported_predicate)
      r.num 0 r
