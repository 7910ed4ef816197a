-- ===== src/Interpreter/WorkItem.antt =====
-- src/core/WorkItem.cpp: the state of a work-item, its values, and its accesses of memory.
use oclgrind.Base.{
  ℕ, suc, ◌*◌, ◌%◌, ◌==◌, Bool, if◌then◌else◌, List, [], ◌∷◌, ◌++◌, Option, none, some, Result, ok,
  err, ◌>>=◌, get_elem?, set,
}
use oclgrind.Memory.{
  Memory, AddressSpace, private_space, global_space, constant_space, local_space, allocate_buffer,
  load, store,
}
use oclgrind.Interpreter.Values.{
  Fatal, unset_value, unhandled_operand, failed_assertion, insufficient_private_memory, TypedValue,
  get_pointer, set_pointer,
}
use oclgrind.Interpreter.Vectors.{fill}
use oclgrind.Interpreter.Code.{Operand, value, constant, unhandled}

pub data State : Type 0 where
  ready barrier finished : State

-- The current instruction is at `curr_inst` in `curr_block`, and so is each on the call stack.
pub record Position : Type 0 where
  pub has_begun : Bool
  pub prev_block : Option ℕ
  pub curr_block : ℕ
  pub next_block : Option ℕ
  pub curr_inst : ℕ
  pub call_stack : List (ℕ × ℕ)
  pub allocations : List (List ℕ)

-- `global` and `local` are the memories of the context and of the group; `unaligned` counts the reports of an
-- unaligned access, `notified` holds whether the group has been told that the item finished.
pub record WorkItem : Type 0 where
  pub state : State
  pub position : Position
  pub values : List (Option TypedValue)
  pub phi_temps : List (ℕ × TypedValue)
  pub private : Memory
  pub global : Memory
  pub local : Memory
  pub unaligned : ℕ
  pub notified : Bool

unfoldable pub clear_barrier : WorkItem → WorkItem
clear_barrier w = elim w.state [ barrier ↦ record w { state = ready } | s ↦ w ]

unfoldable pub get_memory : WorkItem → AddressSpace → Memory
get_memory w private_space = w.private
get_memory w global_space = w.global
get_memory w constant_space = w.global
get_memory w local_space = w.local

unfoldable pub put_memory : WorkItem → AddressSpace → Memory → WorkItem
put_memory w private_space m = record w { private = m }
put_memory w global_space m = record w { global = m }
put_memory w constant_space m = record w { global = m }
put_memory w local_space m = record w { local = m }

abbrev pub found : Option (Option TypedValue) → Result Fatal TypedValue
found (some (some v)) = ok v
found (some none) = err unset_value
found none = err unset_value

unfoldable pub get_operand : WorkItem → Operand → Result Fatal TypedValue
get_operand w (value id) = found (get_elem? w.values id)
get_operand w (constant v) = ok v
get_operand w unhandled = err unhandled_operand

unfoldable pub set_value : WorkItem → ℕ → TypedValue → WorkItem
set_value w id v = record w { values = set w.values id (some v) }

abbrev pub go_to : WorkItem → ℕ → WorkItem
go_to w block = record w { position = record (w.position) { next_block = some block } }

-- The successor for `val`.
unfoldable pub successor : List (ℕ × ℕ) → ℕ → ℕ → ℕ
successor [] default val = default
successor ((c, block) ∷ cases) default val = if c == val then block else successor cases default val

-- The values of the phi nodes that a block begins with are set together.
unfoldable pub set_temps : WorkItem → List (ℕ × TypedValue) → WorkItem
set_temps w [] = w
set_temps w ((id, v) ∷ temps) = set_temps (set_value w id v) temps

unfoldable pub flush : WorkItem → WorkItem
flush w = record (set_temps w w.phi_temps) { phi_temps = [] }

-- `m_phiTemps[id] = v`
unfoldable pub put_temp : List (ℕ × TypedValue) → ℕ → TypedValue → List (ℕ × TypedValue)
put_temp [] id v = (id, v) ∷ []
put_temp ((k, u) ∷ temps) id v = if k == id then (id, v) ∷ temps else (k, u) ∷ put_temp temps id v

-- `getIncomingValueForBlock` asserts that the block has one.
unfoldable pub incoming_value : WorkItem → List (ℕ × Operand) → Option ℕ → Result Fatal TypedValue
incoming_value w incoming none = err failed_assertion
incoming_value w [] (some block) = err failed_assertion
incoming_value w ((b, v) ∷ incoming) (some block) =
    if b == block then get_operand w v else incoming_value w incoming (some block)

-- A note of an unaligned access: `alignment` is a power of two, so `address & (alignment - 1)` is the remainder.
unfoldable pub check_alignment : WorkItem → ℕ → ℕ → WorkItem
check_alignment w address alignment =
    if address % alignment == 0 then w else record w { unaligned = suc w.unaligned }

unfoldable pub exec_load :
    WorkItem → AddressSpace → ℕ → Operand → TypedValue → Result Fatal (WorkItem × TypedValue)
exec_load w space alignment pointer r = get_operand w pointer >>= λ p.
    get_pointer p 0 >>= λ address.
    let w' = check_alignment w address alignment in
    let loaded = load (get_memory w' space) address (r.size * r.num) in
    ok (put_memory w' space loaded.0, elim loaded.1 [ none ↦ r | some bytes ↦ fill r 0 bytes ])

unfoldable pub exec_store : WorkItem → AddressSpace → ℕ → Operand → Operand → Result Fatal WorkItem
exec_store w space alignment pointer source = get_operand w pointer >>= λ p.
    get_pointer p 0 >>= λ address.
    let w' = check_alignment w address alignment in
    get_operand w' source >>= λ v.
    ok (put_memory w' space (store (get_memory w' space) address v.bytes).0)

-- `m_position->allocations.top().push_back(address)`, where there is a frame.
unfoldable pub track : Position → ℕ → Position
track p address = record p {
  allocations = elim p.allocations [ [] ↦ [] | top ∷ frames ↦ (top ++ address ∷ []) ∷ frames ];
}

unfoldable pub exec_alloca : WorkItem → ℕ → TypedValue → Result Fatal (WorkItem × TypedValue)
exec_alloca w size r =
    let allocated = allocate_buffer w.private size 0 none in
    if allocated.1 == 0
    then err insufficient_private_memory
    else set_pointer r allocated.1 0 >>= λ t.
        ok (record w { private = allocated.0; position = track w.position allocated.1 }, t)
