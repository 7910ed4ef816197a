-- ===== src/Interpreter/Machine/Types.antt =====
-- The types of the values that src/core/WorkItem.cpp interprets: the size and number of elements of each, and what
-- LLVM's type rules say of an instruction.
pub mod Operations
pub mod State
pub mod Calls
pub mod Library
pub mod Dispatch
pub mod Steps
use oclgrind.Base.{
  ℕ, ◌*◌, ◌≡◌, Bool, true, false, List, [], ◌∷◌, Option, none, some, Result, ok, err, ◌>>=◌, length,
  All, get_elem?,
}
use oclgrind.Interpreter.Values.{
  Fatal, unsupported_int_size, unsupported_pointer_size, unsupported_predicate,
  unsupported_instruction, unsupported_argument_type, unhandled_operand, TypedValue, is_int_size,
}
use oclgrind.Interpreter.Integers.{is_int_predicate}
use oclgrind.Interpreter.Builtins.Calls.{Builtin, of_two, of_one, of_select, other, is_integer}
use oclgrind.Interpreter.Code.{
  Operand, value, constant, unhandled, Conversion, to_trunc, to_zext, to_pointer, of_pointer,
  to_copy, to_sext, Action, arithmetic, comparison, conversion, extract, insert, choice, shuffling,
  alloca, loading, storing, phi, branch, branch_if, switching, calling, calling_builtin, returning,
  unreachable, unsupported, Instruction, Param, Function, Code,
}
use oclgrind.Interpreter.WorkItem.{WorkItem, Position}
use oclgrind.Interpreter.Machine.{inst_at}

-- The size and number of the elements of a type.
abbrev pub ValueType : Type 0
ValueType = ℕ × ℕ

abbrev pub pointer_type : ValueType
pointer_type = (8, 1)

pub record HasType (t : ValueType) (v : TypedValue) : Type 0 where
  pub the_size : v.size ≡ t.0
  pub the_num : v.num ≡ t.1
  pub the_bytes : length v.bytes ≡ t.1 * t.0

-- The errors that come of a value of the wrong type.
abbrev pub is_type_error : Fatal → Bool
is_type_error unsupported_int_size = true
is_type_error unsupported_pointer_size = true
is_type_error unsupported_predicate = true
is_type_error unsupported_instruction = true
is_type_error unhandled_operand = true
is_type_error unsupported_argument_type = true
is_type_error code = false

-- A result for which `P` holds, or an error that is none of the types.
pub data Safe {B : Type 0} (P : B → Type 0) : Result Fatal B → Type 0 where
  stops : {code : Fatal} → is_type_error code ≡ false → Safe P (err code)
  runs : {b : B} → P b → Safe P (ok b)

pub bind-Safe :
    {B C : Type 0} {P : B → Type 0} {Q : C → Type 0} {next : B → Result Fatal C}
    {r : Result Fatal B}
    → Safe P r
    → ((b : B) → P b → Safe Q (next b))
    → Safe Q (r >>= next)
bind-Safe (stops e) k = stops e
bind-Safe (runs p) k = k _ p

abbrev pub IsInt : ValueType → Type 0
IsInt t = is_int_size t.0 ≡ true

abbrev pub Converts : Conversion → ValueType → ValueType → Type 0
Converts to_trunc s t = IsInt s × IsInt t
Converts to_zext s t = IsInt s × IsInt t
Converts to_pointer s t = IsInt s × (t.0 ≡ 8)
Converts of_pointer s t = (s.0 ≡ 8) × IsInt t
Converts to_copy s t = Unit
Converts (to_sext is_bit) s t = IsInt s × IsInt t

-- The types of the values by their ID, the function that a block belongs to, the type that a function returns, and the
-- types of the parameters and of the result of an `other` builtin function.
pub record Typing : Type 0 where
  pub type_of : ℕ → ValueType
  pub owner : ℕ → ℕ
  pub returned : ℕ → ValueType
  pub parameters : ℕ → List ValueType
  pub result : ℕ → ValueType

module _ (types : Typing) where
  abbrev pub OkOperand : ValueType → Operand → Type 0
  OkOperand t (value id) = types.type_of id ≡ t
  OkOperand t (constant v) = HasType t v
  OkOperand t unhandled = false ≡ true

  abbrev pub OkArgument : ℕ → Option ℕ → Operand → Type 0
  OkArgument param_id none a = OkOperand (types.type_of param_id) a
  OkArgument param_id (some size) a =
      OkOperand pointer_type a × (types.type_of param_id ≡ pointer_type)

  abbrev pub OkArguments : List Param → List Operand → Type 0
  OkArguments [] arguments = Unit
  OkArguments (p ∷ params) [] = false ≡ true
  OkArguments (p ∷ params) (a ∷ arguments) =
      OkArgument p.param_id p.by_val a × OkArguments params arguments

  abbrev pub OkCall : ℕ → List Operand → Option Function → Type 0
  OkCall f arguments none = Unit
  OkCall f arguments (some function) =
      (types.owner function.begin ≡ f) × OkArguments function.params arguments

  -- An operand of an integer type.
  abbrev pub OkInt : Operand → Type 0
  OkInt a = (s : ValueType) × IsInt s × OkOperand s a

  abbrev pub OkAny : Operand → Type 0
  OkAny a = (s : ValueType) × OkOperand s a

  abbrev pub OkOperands : List ValueType → List Operand → Type 0
  OkOperands [] [] = Unit
  OkOperands (s ∷ ss) (a ∷ arguments) = OkOperand s a × OkOperands ss arguments
  OkOperands ss arguments = false ≡ true

  -- The builtin functions on integers take arguments of integer types.
  abbrev pub OkBuiltin : ValueType → Builtin → List Operand → Type 0
  OkBuiltin t (of_two f o) (a ∷ b ∷ []) = (is_integer o ≡ true) × IsInt t × OkInt a × OkInt b
  OkBuiltin t (of_one f) (a ∷ []) = IsInt t × OkInt a
  OkBuiltin t (of_select o) (a ∷ b ∷ c ∷ []) =
      (is_integer o ≡ true) × IsInt t × OkInt a × OkInt b × OkInt c
  OkBuiltin t (other f) arguments = OkOperands (types.parameters f) arguments × (t ≡ types.result f)
  OkBuiltin t f arguments = false ≡ true

  -- The rules for an instruction in a block, with an ID and the type `t` of its result.
  abbrev pub OkAction : Code → ℕ → ℕ → ValueType → Action → Type 0
  OkAction code here id t (arithmetic op a b) = IsInt t × OkOperand t a × OkOperand t b
  OkAction code here id t (comparison p a b) =
      (is_int_predicate p ≡ true) × IsInt t × OkInt a × OkInt b
  OkAction code here id t (conversion c a) = (s : ValueType) × Converts c s t × OkOperand s a
  OkAction code here id t (extract vector index) = OkAny vector × OkInt index
  OkAction code here id t (insert vector new index) = OkAny vector × OkAny new × OkInt index
  OkAction code here id t (choice is_vector condition a b) =
      OkInt condition × OkOperand t a × OkOperand t b
  OkAction code here id t (shuffling mask num a b) = OkAny a × OkAny b
  OkAction code here id t (alloca size) = t.0 ≡ 8
  OkAction code here id t (loading space alignment p) = OkOperand pointer_type p
  OkAction code here id t (storing space alignment p source) =
      OkOperand pointer_type p × OkAny source
  OkAction code here id t (phi incoming) = All (λ (c : ℕ × Operand). OkOperand t c.1) incoming
  OkAction code here id t (branch block) = types.owner block ≡ types.owner here
  OkAction code here id t (branch_if c yes_block no_block) =
      OkInt c
      × (types.owner yes_block ≡ types.owner here)
      × (types.owner no_block ≡ types.owner here)
  OkAction code here id t (switching c cases default) =
      OkInt c
      × All (λ (k : ℕ × ℕ). types.owner k.1 ≡ types.owner here) cases
      × (types.owner default ≡ types.owner here)
  OkAction code here id t (calling f arguments) =
      (types.type_of id ≡ types.returned f) × OkCall f arguments (get_elem? code.functions f)
  OkAction code here id t (calling_builtin f arguments) = OkBuiltin t f arguments
  OkAction code here id t (returning none) = Unit
  OkAction code here id t (returning (some v)) = OkOperand (types.returned (types.owner here)) v
  OkAction code here id t unreachable = Unit
  OkAction code here id t unsupported = false ≡ true

  pub record OkInstruction (code : Code) (here : ℕ) (i : Instruction) : Type 0 where
    pub ok_action : OkAction code here i.id (i.size, i.num) i.action
    pub ok_type : types.type_of i.id ≡ (i.size, i.num)

  abbrev pub OkCode : Code → Type 0
  OkCode code =
      (block index : ℕ) (i : Instruction)
      → inst_at code block index ≡ some i
      → OkInstruction code block i

  -- Each call on the stack awaits a value of the type that the function above it returns.
  abbrev pub OkStack : Code → ℕ → List (ℕ × ℕ) → Type 0
  OkStack code f [] = Unit
  OkStack code f ((block, index) ∷ calls) =
      ((i : Instruction)
        → inst_at code block index ≡ some i
        → types.type_of i.id ≡ types.returned f)
      × OkStack code (types.owner block) calls

  -- The block that the next instruction is in.
  abbrev pub target : Position → ℕ
  target p = elim p.next_block [ none ↦ p.curr_block | some block ↦ block ]

  pub record WellTyped (code : Code) (w : WorkItem) : Type 0 where
    pub ok_values :
        (id : ℕ) (v : TypedValue)
        → get_elem? w.values id ≡ some (some v)
        → HasType (types.type_of id) v
    pub ok_temps : All (λ (t : ℕ × TypedValue). HasType (types.type_of t.0) t.1) w.phi_temps
    pub ok_stack : OkStack code (types.owner (target w.position)) w.position.call_stack
