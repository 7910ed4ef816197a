-- ===== src/Interpreter/Machine/Examples.antt =====
-- Runs of the model of src/core/WorkItem.cpp: a function calls another, which adds its argument to itself.
use oclgrind.Base.{
  ℕ, zero, suc, ◌≡◌, refl, subst, false, ◌||◌, ◌==◌, if◌then◌else◌, List, [], ◌∷◌, Option, none,
  some, Result, ok, err, ◌>>=◌, length, replicate, length-replicate, All, get_elem?, arith,
}
use oclgrind.Memory.{is_address_valid}
use oclgrind.Memory.Examples.{one_buffer, one_buffer-Wf, one_buffer_live, first}
use oclgrind.NdRange.{Size3}
use oclgrind.Interpreter.Values.{
  Fatal, failed_assertion, TypedValue, get_uint, get_sint, set_uint, each,
}
use oclgrind.Interpreter.Builtins.{short, saturating, add_sat_element}
use oclgrind.Interpreter.Builtins.Calls.{of_two, two_add_sat, other, call_two}
use oclgrind.Interpreter.Queries.{Place, get_global_id}
use oclgrind.Interpreter.Code.{
  Operand, value, constant, op_add, arithmetic, calling, calling_builtin, returning, phi,
  Instruction, Code,
}
use oclgrind.Interpreter.WorkItem.{WorkItem, ready, get_operand, incoming_value, flush}
use oclgrind.Interpreter.Machine.{exec_ret, step, with_result, call_builtin}
use oclgrind.Interpreter.Machine.Types.{
  HasType, Safe, stops, runs, bind-Safe, Typing, OkOperands, OkInstruction, OkCode, WellTyped,
}
use oclgrind.Interpreter.Machine.Types.Operations.{get_uint-Returns, set_uint-HasType}
use oclgrind.Interpreter.Machine.Types.State.{get_operand-HasType, Pair}
use oclgrind.Interpreter.Machine.Types.Steps.{step-Safe}
use oclgrind.Interpreter.Machine.Frames.{IsBack, exec_ret-Frees}
use oclgrind.Interpreter.Machine.Phis.{Node, Reads, execute_all, read_value, execute-parallel}

abbrev seven : TypedValue
seven = record { size = 2; num = 1; bytes = 7 ∷ 0 ∷ [] }

abbrev nine : TypedValue
nine = record { size = 2; num = 1; bytes = 9 ∷ 0 ∷ [] }

abbrev the_call : Instruction
the_call = record { id = 2; size = 2; num = 1; action = calling 1 (value 1 ∷ []) }

abbrev last_return : Instruction
last_return = record { id = 3; size = 0; num = 0; action = returning (some (value 2)) }

abbrev the_sum : Instruction
the_sum = record { id = 4; size = 2; num = 1; action = arithmetic op_add (value 0) (value 0) }

abbrev the_return : Instruction
the_return = record { id = 5; size = 0; num = 0; action = returning (some (value 4)) }

-- Builtin functions: add_sat of two shorts, and get_global_id(0).
abbrev the_saturated : Instruction
the_saturated = record {
  id = 6;
  size = 2;
  num = 1;
  action = calling_builtin (of_two two_add_sat short) (value 1 ∷ value 1 ∷ []);
}

abbrev dimension_zero : TypedValue
dimension_zero = record { size = 4; num = 1; bytes = 0 ∷ 0 ∷ 0 ∷ 0 ∷ [] }

abbrev the_id : Instruction
the_id = record {
  id = 7;
  size = 8;
  num = 1;
  action = calling_builtin (other 0) (constant dimension_zero ∷ []);
}

abbrev code : Code
code = record {
  blocks =
      (the_call ∷ last_return ∷ [])
      ∷ (the_sum ∷ the_return ∷ [])
      ∷ (the_saturated ∷ the_id ∷ [])
      ∷ [];
  functions =
      (record { params = []; begin = 0 })
      ∷ (record { params = (record { param_id = 0; by_val = none }) ∷ []; begin = 1 })
      ∷ (record { params = []; begin = 2 })
      ∷ [];
}

abbrev types : Typing
types = record {
  type_of = λ id. if (id == 3) || (id == 5) then (0, 0) else if id == 7 then (8, 1) else (2, 1);
  owner = λ block. block;
  returned = λ f. (2, 1);
  parameters = λ f. (4, 1) ∷ [];
  result = λ f. (8, 1);
}

abbrev alloc : ℕ → List ℕ
alloc n = replicate n 170

-- The work-item of global ID (5, 0, 0).
abbrev one : Size3
one = record { x = 1; y = 1; z = 1 }

abbrev the_place : Place
the_place = record {
  global_size = record one { x = 8 };
  global_offset = record { x = 0; y = 0; z = 0 };
  local_size = record one { x = 4 };
  num_groups = record one { x = 2 };
  work_dim = 1;
  group_id = record { x = 1; y = 0; z = 0 };
  group_size = record one { x = 4 };
  the_global_id = record { x = 5; y = 0; z = 0 };
  local_id = record { x = 1; y = 0; z = 0 };
}

abbrev builtin : ℕ → WorkItem → List Operand → TypedValue → Result Fatal (WorkItem × TypedValue)
builtin f w (a ∷ arguments) r = get_operand w a >>= λ x. with_result (get_global_id the_place x r) w
builtin f w [] r = err failed_assertion

builtin-Safe :
    (f : ℕ) (w : WorkItem) (arguments : List Operand) (r : TypedValue)
    → WellTyped types code w
    → OkOperands types (types.parameters f) arguments
    → HasType (types.result f) r
    → Safe (Pair types code (types.result f)) (builtin f w arguments r)
unfolding get_global_id
builtin-Safe f w (a ∷ arguments) r k h kr =
    bind-Safe (get_operand-HasType types code w a k h.0) (λ x kx.
      bind-Safe (bind-Safe (get_uint-Returns 0 refl kx) (λ dim u. set_uint-HasType _ 0 refl kr))
        (λ t kt. runs (k, kt)))
builtin-Safe f w [] r k h kr = stops refl

abbrev start : WorkItem
start = record {
  state = ready;
  position = record {
    has_begun = false;
    prev_block = none;
    curr_block = 0;
    next_block = none;
    curr_inst = 0;
    call_stack = [];
    allocations = [];
  };
  values = none ∷ some seven ∷ none ∷ none ∷ none ∷ none ∷ [];
  phi_temps = [];
  private = one_buffer;
  global = one_buffer;
  local = one_buffer;
  unaligned = 0;
  notified = false;
}

abbrev OkAt : ℕ → Option Instruction → Type 0
OkAt block none = Unit
OkAt block (some i) = OkInstruction types code block i

ok_code : OkCode types code
ok_code zero zero i e =
    subst (OkAt 0) e (record { ok_action = (refl, (refl, (refl, tt))); ok_type = refl })
ok_code zero (suc zero) i e = subst (OkAt 0) e (record { ok_action = refl; ok_type = refl })
ok_code zero (suc (suc k)) i e = absurd (ground arith)
ok_code (suc zero) zero i e =
    subst (OkAt 1) e (record { ok_action = (refl, refl, refl); ok_type = refl })
ok_code (suc zero) (suc zero) i e = subst (OkAt 1) e (record { ok_action = refl; ok_type = refl })
ok_code (suc zero) (suc (suc k)) i e = absurd (ground arith)
ok_code (suc (suc zero)) zero i e = subst (OkAt 2) e (record {
  ok_action = (refl, refl, ((2, 1), refl, refl), ((2, 1), refl, refl));
  ok_type = refl;
})
ok_code (suc (suc zero)) (suc zero) i e = subst (OkAt 2) e (record {
  ok_action = ((record { the_size = refl; the_num = refl; the_bytes = refl }, tt), refl);
  ok_type = refl;
})
ok_code (suc (suc zero)) (suc (suc k)) i e = absurd (ground arith)
ok_code (suc (suc (suc b))) k i e = absurd (ground arith)

abbrev Fits : Option (Option TypedValue) → Type 0
Fits (some (some v)) = HasType (2, 1) v
Fits (some none) = Unit
Fits none = Unit

start-WellTyped : WellTyped types code start
start-WellTyped = record { ok_values = fits; ok_temps = tt; ok_stack = tt }
  where
    fits :
        (id : ℕ) (v : TypedValue)
        → get_elem? start.values id ≡ some (some v)
        → HasType (types.type_of id) v
    fits zero v e = absurd (ground arith)
    fits (suc zero) v e =
        subst Fits e (record { the_size = refl; the_num = refl; the_bytes = refl })
    fits (suc (suc zero)) v e = absurd (ground arith)
    fits (suc (suc (suc zero))) v e = absurd (ground arith)
    fits (suc (suc (suc (suc zero)))) v e = absurd (ground arith)
    fits (suc (suc (suc (suc (suc zero))))) v e = absurd (ground arith)
    fits (suc (suc (suc (suc (suc (suc k)))))) v e = absurd (ground arith)

alloc_lem : (n : ℕ) → length (alloc n) ≡ n
alloc_lem n = length-replicate n 170

-- At the calls of builtin functions.
abbrev at_builtin : ℕ → WorkItem
at_builtin index = record start {
  position = record (start.position) { curr_block = 2; curr_inst = index };
}

at_builtin-WellTyped : (index : ℕ) → WellTyped types code (at_builtin index)
at_builtin-WellTyped index = record {
  ok_values = start-WellTyped.ok_values;
  ok_temps = tt;
  ok_stack = tt;
}

step-Safe_example :
    Safe
      (λ w. WellTyped types code w × (w.position.next_block ≡ none))
      (step alloc builtin code (at_builtin 0))
step-Safe_example =
    step-Safe types code alloc alloc_lem builtin builtin-Safe (at_builtin 0) ok_code
      (at_builtin-WellTyped 0) refl

-- The sum of two shorts, in the place of a result of another value.
add_sat-call :
    call_builtin builtin (of_two two_add_sat short) start (value 1 ∷ value 1 ∷ []) nine
    ≡ ok (start, record { size = 2; num = 1; bytes = 14 ∷ 0 ∷ [] })
unfolding call_builtin call_two saturating add_sat_element get_operand each get_uint get_sint
    set_uint
add_sat-call = refl

get_global_id-call :
    call_builtin builtin
      (other 0)
      start
      (constant dimension_zero ∷ [])
      (record { size = 8; num = 1; bytes = alloc 8 })
    ≡ ok (start, record { size = 8; num = 1; bytes = 5 ∷ replicate 7 0 })
unfolding call_builtin get_operand get_uint set_uint get_global_id
get_global_id-call = refl

-- In the called function, before its return.
abbrev inside : WorkItem
inside = record start {
  position = record (start.position) {
    curr_block = 1;
    curr_inst = 1;
    call_stack = (0, 0) ∷ [];
    allocations = (first ∷ []) ∷ [];
  };
  values = none ∷ none ∷ none ∷ none ∷ some nine ∷ none ∷ [];
}

nine_read : get_operand inside (value 4) ≡ ok nine
unfolding get_operand
nine_read = refl

exec_ret-Frees_example :
    (w' : WorkItem) × (exec_ret code inside (some (value 4)) ≡ ok w')
    × IsBack w' 0 0 [] []
    × (get_elem? w'.values 2 ≡ some (some nine))
    × All (λ a. is_address_valid w'.private a 1 ≡ false) (first ∷ [])
exec_ret-Frees_example =
    exec_ret-Frees code inside (value 4) nine the_call 0 0 1 [] (first ∷ []) [] refl refl refl
      nine_read (omega arith) one_buffer-Wf (omega arith, one_buffer_live, tt, tt)

-- Two phi nodes, each of which reads the value of the other.
abbrev swapping : WorkItem
swapping = record start {
  position = record (start.position) { prev_block = some 5 };
  values = some seven ∷ some nine ∷ some seven ∷ [];
}

abbrev left_phi : Instruction
left_phi = record { id = 0; size = 2; num = 1; action = phi ((5, value 1) ∷ []) }

abbrev right_phi : Instruction
right_phi = record { id = 1; size = 2; num = 1; action = phi ((4, value 1) ∷ (5, value 0) ∷ []) }

abbrev nodes : List Node
nodes = (left_phi, nine) ∷ (right_phi, seven) ∷ []

left-Reads : Reads swapping (left_phi, nine)
unfolding incoming_value get_operand
left-Reads = record {
  incoming = (5, value 1) ∷ [];
  is_node = refl;
  is_read = refl;
  has_size = refl;
}

right-Reads : Reads swapping (right_phi, seven)
unfolding incoming_value get_operand
right-Reads = record {
  incoming = (4, value 1) ∷ (5, value 0) ∷ [];
  is_node = refl;
  is_read = refl;
  has_size = refl;
}

execute-parallel_example :
    (w' : WorkItem) × (execute_all alloc builtin code swapping nodes ≡ ok w')
    × (w'.values ≡ swapping.values)
    × All
        (λ (n : Node).
          get_elem? (flush w').values n.0.id ≡ some (some (read_value alloc builtin code n)))
        nodes
    × (get_elem? (flush w').values 2 ≡ some (some seven))
execute-parallel_example =
    execute-parallel alloc builtin code swapping nodes 2 refl (left-Reads, (right-Reads, tt))
      ((omega arith, tt), (tt, tt)) (omega arith, (omega arith, tt))
      (omega arith, (omega arith, tt))
