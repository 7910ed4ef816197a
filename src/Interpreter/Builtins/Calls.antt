-- ===== src/Interpreter/Builtins/Calls.antt =====
-- src/core/WorkItemBuiltins.cpp: the builtin functions that a call in the code names, those on integers by their
-- functions here, and `other` for one that the interpreter's model takes as an argument.
use oclgrind.Base.{ℕ, Bool, true, false, Result}
use oclgrind.Interpreter.Values.{Fatal, TypedValue}
use oclgrind.Interpreter.Builtins.{
  ArgType, other_type, abs_diff, add_sat, sub_sat, hadd, rhadd, mul_hi, rotate, upsample, clz,
  popcount,
}
use oclgrind.Interpreter.Builtins.Relational.{all, any}

pub data TwoArguments : Type 0 where
  two_abs_diff two_add_sat two_sub_sat two_hadd two_rhadd two_mul_hi two_rotate two_upsample :
      TwoArguments

-- `num` is the length of the argument.
pub data OneArgument : Type 0 where
  one_clz one_popcount : OneArgument
  one_all one_any : (num : ℕ) → OneArgument

-- With the overload, where the function reads it.
pub data Builtin : Type 0 where
  of_two : TwoArguments → ArgType → Builtin
  of_one : OneArgument → Builtin
  of_select : ArgType → Builtin
  other : (function : ℕ) → Builtin

unfoldable pub call_two :
    TwoArguments → ArgType → TypedValue → TypedValue → TypedValue → Result Fatal TypedValue
call_two two_abs_diff t = abs_diff t
call_two two_add_sat t = add_sat t
call_two two_sub_sat t = sub_sat t
call_two two_hadd t = hadd t
call_two two_rhadd t = rhadd t
call_two two_mul_hi t = mul_hi t
call_two two_rotate t = rotate
call_two two_upsample t = upsample

unfoldable pub call_one : OneArgument → TypedValue → TypedValue → Result Fatal TypedValue
call_one one_clz = clz
call_one one_popcount = popcount
call_one (one_all num) = all num
call_one (one_any num) = any num

abbrev pub is_integer : ArgType → Bool
is_integer other_type = false
is_integer t = true
