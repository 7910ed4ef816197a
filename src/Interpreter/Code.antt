-- ===== src/Interpreter/Code.antt =====
-- The program that src/core/WorkItem.cpp executes: LLVM's functions, blocks and instructions, as the interpreter reads
-- them. A value stands for its ID in src/core/WorkItem.cpp's InterpreterCache. A constant expression, a floating-point
-- instruction, and those on aggregates are left out.
use oclgrind.Base.{ℕ, Bool, true, false, List, Option, Result}
use oclgrind.Memory.{AddressSpace}
use oclgrind.Interpreter.Values.{Fatal, TypedValue}
use oclgrind.Interpreter.Integers.{
  Predicate, add, sub, mul, bwand, bwor, bwxor, udiv, urem, sdiv, srem, shl, lshr, ashr,
}
use oclgrind.Interpreter.Builtins.Calls.{Builtin}

pub data Operand : Type 0 where
  value : (id : ℕ) → Operand
  constant : TypedValue → Operand
  unhandled : Operand

pub data IntOp : Type 0 where
  op_add op_sub op_mul op_and op_or op_xor op_udiv op_urem op_sdiv op_srem op_shl op_lshr op_ashr :
      IntOp

unfoldable pub int_op : IntOp → TypedValue → TypedValue → TypedValue → Result Fatal TypedValue
int_op op_add = add
int_op op_sub = sub
int_op op_mul = mul
int_op op_and = bwand
int_op op_or = bwor
int_op op_xor = bwxor
int_op op_udiv = udiv
int_op op_urem = urem
int_op op_sdiv = sdiv
int_op op_srem = srem
int_op op_shl = shl
int_op op_lshr = lshr
int_op op_ashr = ashr

pub data Conversion : Type 0 where
  to_trunc to_zext to_pointer of_pointer to_copy : Conversion
  to_sext : (is_bit : Bool) → Conversion

-- `block` and `function` are positions in the code.
pub data Action : Type 0 where
  arithmetic : IntOp → Operand → Operand → Action
  comparison : Predicate → Operand → Operand → Action
  conversion : Conversion → Operand → Action
  extract : (vector index : Operand) → Action
  insert : (vector new index : Operand) → Action
  choice : (is_vector : Bool) → (condition yes_value no_value : Operand) → Action
  shuffling : (mask : List (Option ℕ)) → (num : ℕ) → Operand → Operand → Action
  alloca : (size : ℕ) → Action
  loading : AddressSpace → (alignment : ℕ) → (pointer : Operand) → Action
  storing : AddressSpace → (alignment : ℕ) → (pointer source : Operand) → Action
  phi : List (ℕ × Operand) → Action
  branch : (block : ℕ) → Action
  branch_if : Operand → (yes_block no_block : ℕ) → Action
  switching : Operand → (cases : List (ℕ × ℕ)) → (default : ℕ) → Action
  calling : (function : ℕ) → (arguments : List Operand) → Action
  calling_builtin : Builtin → (arguments : List Operand) → Action
  returning : Option Operand → Action
  unreachable : Action
  unsupported : Action

-- `size` and `num` are getValueSize of the instruction: size 0 for one with no result.
pub record Instruction : Type 0 where
  pub id : ℕ
  pub size : ℕ
  pub num : ℕ
  pub action : Action

-- A parameter, with the size of the type that it is passed by value with.
pub record Param : Type 0 where
  pub param_id : ℕ
  pub by_val : Option ℕ

pub record Function : Type 0 where
  pub params : List Param
  pub begin : ℕ

pub record Code : Type 0 where
  pub blocks : List (List Instruction)
  pub functions : List Function

abbrev pub is_phi : Action → Bool
is_phi (phi incoming) = true
is_phi a = false
