-- ===== src/Interpreter/Machine.antt =====
-- src/core/WorkItem.cpp: the steps of a work-item. `alloc n` is a block of `n` bytes of the memory pool, as
-- it is before it is written; `builtin` is a call of a function of src/core/WorkItemBuiltins.cpp that `Builtin` has
-- no name for.
pub mod Frames
pub mod Phis
pub mod Types
mod Examples
use oclgrind.Base.{
  ℕ, zero, suc, ◌+◌, ◌*◌, ◌%◌, ◌==◌, Bool, true, false, not, if◌then◌else◌, List, [], ◌∷◌, ◌++◌,
  Option, none, some, Result, ok, err, ◌>>=◌, get_elem?, set, length, slice, size_mod, overwrite,
}
use oclgrind.Memory.{
  Memory, AddressSpace, private_space, global_space, constant_space, local_space, slot,
  allocate_buffer, deallocate_buffer, load, store,
}
use oclgrind.Memory as Simulated
use oclgrind.Interpreter.Values.{
  Fatal, unset_value, unhandled_operand, unsupported_instruction, unreachable_instruction,
  no_instruction, failed_assertion, insufficient_private_memory, TypedValue, get_uint, get_pointer,
  set_pointer,
}
use oclgrind.Interpreter.Integers.{icmp, itrunc, zext, sext, ptrtoint, inttoptr}
use oclgrind.Interpreter.Vectors.{fill, copy_value, extractelem, insertelem, select, shuffle}
use oclgrind.Interpreter.Builtins.Relational.{select_builtin}
use oclgrind.Interpreter.Builtins.Calls.{
  Builtin, of_two, of_one, of_select, other, call_two, call_one,
}
use oclgrind.Interpreter.Code.{
  Operand, value, constant, unhandled, IntOp, int_op, Conversion, to_trunc, to_zext, to_pointer,
  of_pointer, to_copy, to_sext, Action, arithmetic, comparison, conversion, extract, insert, choice,
  shuffling, alloca, loading, storing, phi, branch, branch_if, switching, calling, calling_builtin,
  returning, unreachable, unsupported, Instruction, Param, Function, Code, is_phi,
}
use oclgrind.Interpreter.WorkItem.{
  State, Position, WorkItem, clear_barrier, get_memory, put_memory, found, get_operand, set_value,
  go_to, successor, set_temps, flush, put_temp, incoming_value, check_alignment, exec_load,
  exec_store, track, exec_alloca, ready, barrier, finished,
}

-- The bytes at a private address, `none` where `getPointer` gives null.
pub private_bytes : WorkItem → ℕ → ℕ → Option (List ℕ)
private_bytes w address size = elim (Simulated.get_pointer w.private address) [
  | none ↦ none
  | some (b, offset) ↦ elim (slot w.private b) [
    | none ↦ none
    | some buffer ↦ some (slice offset size buffer.bytes)
  ]
]

module _ (alloc : ℕ → List ℕ) where
  -- One argument of a call: a copy in private memory for one that is passed by value.
  pub pass : WorkItem → (param_id : ℕ) → (by_val : Option ℕ) → TypedValue → Result Fatal WorkItem
  pass w param_id none v = ok (set_value w param_id v)
  pass w param_id (some size) v = get_pointer v 0 >>= λ address.
      let allocated = allocate_buffer w.private size 0 (private_bytes w address size) in
      let w' = record w { private = allocated.0; position = track w.position allocated.1 } in
      set_pointer (record { size = 8; num = 1; bytes = alloc 8 }) allocated.1 0 >>= λ t.
      ok (set_value w' param_id t)

  -- The arguments in turn; each is read when it is passed.
  pub pass_all : WorkItem → List Param → List Operand → Result Fatal WorkItem
  pass_all w [] arguments = ok w
  pass_all w (p ∷ params) [] = err unhandled_operand
  pass_all w (p ∷ params) (a ∷ arguments) =
      get_operand w a >>= λ v. pass w p.param_id p.by_val v >>= λ w'. pass_all w' params arguments

abbrev pub enter : WorkItem → Function → WorkItem
enter w f = record w {
  position = record (w.position) {
    call_stack = (w.position.curr_block, w.position.curr_inst) ∷ w.position.call_stack;
    allocations = [] ∷ w.position.allocations;
    next_block = some f.begin;
  };
}

-- `none` in a result of `deallocate_buffer` is its failed assertion.
pub free_all : Memory → List ℕ → Result Fatal Memory
free_all m [] = ok m
free_all m (a ∷ addresses) = elim (deallocate_buffer m a) [
  | none ↦ err failed_assertion
  | some m' ↦ free_all m' addresses
]

abbrev pub is_ready : State → Bool
is_ready ready = true
is_ready s = false

abbrev pub inst_at : Code → ℕ → ℕ → Option Instruction
inst_at code block index = elim (get_elem? code.blocks block) [
  | none ↦ none
  | some insts ↦ get_elem? insts index
]

-- The return value becomes that of the call.
pub give_back : Code → WorkItem → Option Operand → Result Fatal WorkItem
give_back code w none = ok w
give_back code w (some v) = elim (inst_at code w.position.curr_block w.position.curr_inst) [
  | none ↦ err no_instruction
  | some i ↦ get_operand w v >>= λ r. ok (set_value w i.id r)
]

-- The frame's allocations are freed.
pub leave : WorkItem → Result Fatal WorkItem
leave w = elim w.position.allocations [
  | [] ↦ err failed_assertion
  | top ∷ frames ↦ free_all w.private top >>= λ m.
      ok (record w { private = m; position = record (w.position) { allocations = frames } })
]

pub exec_ret : Code → WorkItem → Option Operand → Result Fatal WorkItem
exec_ret code w v = elim w.position.call_stack [
  | [] ↦ ok (record w {
    state = finished;
    notified = true;
    position = record (w.position) { next_block = none };
  })
  | (block, index) ∷ calls ↦
      give_back code
        (record w {
          position = record (w.position) {
            curr_inst = index;
            curr_block = block;
            call_stack = calls;
          };
        })
        v
      >>= leave
]

abbrev pub with_result : Result Fatal TypedValue → WorkItem → Result Fatal (WorkItem × TypedValue)
with_result r w = r >>= λ t. ok (w, t)

abbrev pub with_state : TypedValue → Result Fatal WorkItem → Result Fatal (WorkItem × TypedValue)
with_state t r = r >>= λ w. ok (w, t)

pub convert : Conversion → TypedValue → TypedValue → Result Fatal TypedValue
convert to_trunc a r = itrunc a r
convert to_zext a r = zext a r
convert to_pointer a r = inttoptr r.num 0 a r
convert of_pointer a r = ptrtoint a r
convert to_copy a r = ok (copy_value a r)
convert (to_sext is_bit) a r = sext is_bit a r

module _
    (builtin : ℕ
      → WorkItem
      → List Operand
      → TypedValue
      → Result Fatal (WorkItem × TypedValue)) where
  -- The end of `call`: the values of the arguments are read before the loop over them.
  pub call_builtin :
      Builtin → WorkItem → List Operand → TypedValue → Result Fatal (WorkItem × TypedValue)
  call_builtin (of_two f t) w (a ∷ b ∷ arguments) r =
      get_operand w a >>= λ x. get_operand w b >>= λ y. with_result (call_two f t x y r) w
  call_builtin (of_one f) w (a ∷ arguments) r =
      get_operand w a >>= λ x. with_result (call_one f x r) w
  call_builtin (of_select t) w (a ∷ b ∷ c ∷ arguments) r = get_operand w a >>= λ x.
      get_operand w b >>= λ y. get_operand w c >>= λ z. with_result (select_builtin t x y z r) w
  call_builtin (other f) w arguments r = builtin f w arguments r
  call_builtin f w arguments r = err failed_assertion

module _ (alloc : ℕ → List ℕ)
    (builtin : ℕ → WorkItem → List Operand → TypedValue → Result Fatal (WorkItem × TypedValue))
    (code : Code) where
  -- The values of select and shuffle are read before their loops, where the source reads one when it copies it.
  pub dispatch : WorkItem → Action → TypedValue → Result Fatal (WorkItem × TypedValue)
  dispatch w (arithmetic op a b) r =
      get_operand w a >>= λ x. get_operand w b >>= λ y. with_result (int_op op x y r) w
  dispatch w (comparison p a b) r =
      get_operand w a >>= λ x. get_operand w b >>= λ y. with_result (icmp p x y r) w
  dispatch w (conversion c a) r = get_operand w a >>= λ x. with_result (convert c x r) w
  dispatch w (extract vector index) r =
      get_operand w index >>= λ i. get_operand w vector >>= λ v. with_result (extractelem v i r) w
  dispatch w (insert vector new index) r = get_operand w vector >>= λ v.
      get_operand w new >>= λ e. get_operand w index >>= λ i. with_result (insertelem v e i r) w
  dispatch w (choice is_vector condition a b) r = get_operand w condition >>= λ c.
      get_operand w a >>= λ x.
      get_operand w b >>= λ y. with_result (select is_vector c x y r.num 0 r) w
  dispatch w (shuffling mask num a b) r =
      get_operand w a >>= λ x. get_operand w b >>= λ y. ok (w, shuffle mask 0 x y num r)
  dispatch w (alloca size) r = exec_alloca w size r
  dispatch w (loading space alignment pointer) r = exec_load w space alignment pointer r
  dispatch w (storing space alignment pointer source) r =
      with_state r (exec_store w space alignment pointer source)
  dispatch w (phi incoming) r =
      incoming_value w incoming w.position.prev_block >>= λ v. ok (w, copy_value v r)
  dispatch w (branch block) r = ok (go_to w block, r)
  dispatch w (branch_if condition yes_block no_block) r = get_operand w condition >>= λ c.
      get_uint c 0 >>= λ x. ok (go_to w (if x == 0 then no_block else yes_block), r)
  dispatch w (switching condition cases default) r = get_operand w condition >>= λ c.
      get_uint c 0 >>= λ x. ok (go_to w (successor cases default x), r)
  dispatch w (calling function arguments) r = elim (get_elem? code.functions function) [
    | none ↦ err no_instruction
    | some f ↦ with_state r (pass_all alloc (enter w f) f.params arguments)
  ]
  dispatch w (calling_builtin f arguments) r = call_builtin builtin f w arguments r
  dispatch w (returning v) r = with_state r (exec_ret code w v)
  dispatch w unreachable r = err unreachable_instruction
  dispatch w unsupported r = err unsupported_instruction

  -- The block of the result, if the instruction has one.
  pub blank : Instruction → TypedValue
  blank i = record {
    size = i.size;
    num = i.num;
    bytes = if i.size == 0 then [] else alloc (i.size * i.num);
  }

  pub store_result : Instruction → WorkItem × TypedValue → WorkItem
  store_result i (w, t) =
      if i.size == 0
      then w
      else if is_phi i.action
      then record w { phi_temps = put_temp w.phi_temps i.id t }
      else set_value w i.id t

  pub execute : WorkItem → Instruction → Result Fatal WorkItem
  execute w i = dispatch (if is_phi i.action then w else flush w) i.action (blank i) >>= λ o.
      ok (store_result i o)

  -- `++currInst`, and the move to the next block.
  pub advance : WorkItem → WorkItem
  advance w = elim w.position.next_block [
    | none ↦ record w { position = record (w.position) { curr_inst = suc w.position.curr_inst } }
    | some block ↦ record w {
      position = record (w.position) {
        prev_block = some w.position.curr_block;
        curr_block = block;
        next_block = none;
        curr_inst = 0;
      };
    }
  ]

  -- A step is of an item that is ready. Beyond the end of a block there is no instruction.
  pub step : WorkItem → Result Fatal WorkItem
  step w =
      let w' = record w { position = record (w.position) { has_begun = true } } in
      if is_ready w.state
      then (elim (inst_at code w'.position.curr_block w'.position.curr_inst) [
        | none ↦ err no_instruction
        | some i ↦ execute w' i >>= λ w''. ok (advance w'')
      ])
      else err failed_assertion
