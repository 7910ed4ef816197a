-- ===== src/Interpreter/Machine/Phis.antt =====
-- src/core/WorkItem.cpp: the phi nodes that a block begins with all read the values from before the first of them.
use mathlib.Core.List.{append_assoc, append-nil}
use oclgrind.Base.{
  ℕ, ◌<◌, ◌≡◌, ◌≢◌, refl, sym, ap, subst, ◌∙◌, false, ◌==◌, if◌then◌else◌, List, [], ◌∷◌, ◌++◌,
  Option, none, some, Result, ok, ◌>>=◌, length, All, get_elem?, get_elem?-set_self,
  get_elem?-set_ne, length-set, arith, All-append,
}
use oclgrind.Interpreter.Values.{Fatal, TypedValue}
use oclgrind.Interpreter.Vectors.{copy_value}
use oclgrind.Interpreter.Code.{Operand, value, constant, unhandled, phi, is_phi, Instruction, Code}
use oclgrind.Interpreter.WorkItem.{
  WorkItem, set_value, set_temps, flush, put_temp, incoming_value, get_operand,
}
use oclgrind.Interpreter.Machine.{dispatch, blank, store_result, execute}

abbrev pub IsFresh : ℕ → List (ℕ × TypedValue) → Type 0
IsFresh id temps = All (λ (t : ℕ × TypedValue). t.0 ≢ id) temps

ne_test : (a b : ℕ) → a ≢ b → (a == b) ≡ false
ne_test a b ne = ground arith

put_temp-append :
    (temps : List (ℕ × TypedValue)) (id : ℕ) (v : TypedValue)
    → IsFresh id temps
    → put_temp temps id v ≡ temps ++ (id, v) ∷ []
unfolding put_temp
put_temp-append [] id v h = refl
put_temp-append ((k, u) ∷ temps) id v h =
    rw (ne_test k id h.0, put_temp) (ap (◌∷◌ (k, u)) (put_temp-append temps id v h.1))

set_temps-length :
    (temps : List (ℕ × TypedValue)) (w : WorkItem)
    → length (set_temps w temps).values ≡ length w.values
unfolding set_temps set_value
set_temps-length [] w = refl
set_temps-length ((k, u) ∷ temps) w =
    set_temps-length temps (set_value w k u) ∙ length-set w.values k (some u)

set_temps-fresh :
    (temps : List (ℕ × TypedValue)) (w : WorkItem) (id : ℕ)
    → IsFresh id temps
    → get_elem? (set_temps w temps).values id ≡ get_elem? w.values id
unfolding set_temps set_value
set_temps-fresh [] w id h = refl
set_temps-fresh ((k, u) ∷ temps) w id h =
    set_temps-fresh temps (set_value w k u) id h.1 ∙ get_elem?-set_ne w.values k id (some u) h.0

-- A phi node, and the value that it reads.
abbrev pub Node : Type 0
Node = Instruction × TypedValue

-- In the work-item `w`, the node reads its value from the block that `w` comes from.
pub record Reads (w : WorkItem) (n : Node) : Type 0 where
  pub incoming : List (ℕ × Operand)
  pub is_node : n.0.action ≡ phi incoming
  pub is_read : incoming_value w incoming w.position.prev_block ≡ ok n.1
  pub has_size : (n.0.size == 0) ≡ false

abbrev pub AreDistinct : List Node → Type 0
AreDistinct [] = Unit
AreDistinct (n ∷ nodes) = All (λ (m : Node). n.0.id ≢ m.0.id) nodes × AreDistinct nodes

with_temps : WorkItem → List (ℕ × TypedValue) → WorkItem
with_temps w temps = record w { phi_temps = temps }

get_operand-with_temps :
    (w : WorkItem) (temps : List (ℕ × TypedValue)) (a : Operand)
    → get_operand (with_temps w temps) a ≡ get_operand w a
unfolding get_operand with_temps
get_operand-with_temps w temps (value id) = refl
get_operand-with_temps w temps (constant v) = refl
get_operand-with_temps w temps unhandled = refl

incoming_value-with_temps :
    (w : WorkItem) (temps : List (ℕ × TypedValue)) (incoming : List (ℕ × Operand)) (prev : Option ℕ)
    → incoming_value (with_temps w temps) incoming prev ≡ incoming_value w incoming prev
unfolding incoming_value
incoming_value-with_temps w temps incoming none = refl
incoming_value-with_temps w temps [] (some block) = refl
incoming_value-with_temps w temps ((b, v) ∷ incoming) (some block) =
    rw (get_operand-with_temps w temps v, incoming_value-with_temps w temps incoming (some block))
      refl

module _ (alloc : ℕ → List ℕ)
    (builtin : ℕ → WorkItem → List Operand → TypedValue → Result Fatal (WorkItem × TypedValue))
    (code : Code) where
  -- The instructions one after another.
  pub execute_all : WorkItem → List Node → Result Fatal WorkItem
  execute_all w [] = ok w
  execute_all w (n ∷ nodes) = execute alloc builtin code w n.0 >>= λ w'. execute_all w' nodes

  abbrev pub read_value : Node → TypedValue
  read_value n = copy_value n.1 (blank alloc builtin code n.0)

  abbrev pub temps_of : List Node → List (ℕ × TypedValue)
  temps_of [] = []
  temps_of (n ∷ nodes) = (n.0.id, read_value n) ∷ temps_of nodes

  node_step :
      (w : WorkItem) (temps : List (ℕ × TypedValue)) (n : Node) (r : Reads w n)
      → IsFresh n.0.id temps
      → (dispatch alloc builtin code
            (with_temps w temps)
            (phi r.incoming)
            (blank alloc builtin code n.0)
          >>= λ o. ok (store_result alloc builtin code n.0 o))
        ≡ ok (with_temps w (temps ++ (n.0.id, read_value n) ∷ []))
  unfolding dispatch store_result with_temps
  node_step w temps n r h =
      rw (incoming_value-with_temps w temps r.incoming w.position.prev_block, r.is_read, r.has_size)
        (ap
            (λ a. ok (
              if is_phi a
              then with_temps w (put_temp temps n.0.id (read_value n))
              else set_value (with_temps w temps) n.0.id (read_value n)))
            r.is_node
          ∙ ap (λ ts. ok (with_temps w ts)) (put_temp-append temps n.0.id (read_value n) h))

  execute-node :
      (w : WorkItem) (temps : List (ℕ × TypedValue)) (n : Node)
      → Reads w n
      → IsFresh n.0.id temps
      → execute alloc builtin code (with_temps w temps) n.0
        ≡ ok (with_temps w (temps ++ (n.0.id, read_value n) ∷ []))
  unfolding execute
  execute-node w temps n r h =
      ap
        (λ a.
          dispatch alloc builtin code
            (if is_phi a then with_temps w temps else flush (with_temps w temps)) a
            (blank alloc builtin code n.0)
          >>= λ o. ok (store_result alloc builtin code n.0 o))
        r.is_node
      ∙ node_step w temps n r h

  execute_all-nodes :
      (w : WorkItem) (temps : List (ℕ × TypedValue)) (nodes : List Node)
      → All (Reads w) nodes
      → All (λ (n : Node). IsFresh n.0.id temps) nodes
      → AreDistinct nodes
      → execute_all (with_temps w temps) nodes ≡ ok (with_temps w (temps ++ temps_of nodes))
  unfolding execute_all
  execute_all-nodes w temps [] r h d = ap (λ ts. ok (with_temps w ts)) (sym (append-nil temps))
  execute_all-nodes w temps (n ∷ nodes) r h d = rw (execute-node w temps n r.0 h.0) (
      execute_all-nodes w (temps ++ (n.0.id, read_value n) ∷ []) nodes r.1 (still nodes h.1 d.0) d.1
      ∙ ap (λ ts. ok (with_temps w ts))
          (append_assoc temps ((n.0.id, read_value n) ∷ []) (temps_of nodes)))
    where
      still :
          (rest : List Node)
          → All (λ (m : Node). IsFresh m.0.id temps) rest
          → All (λ (m : Node). n.0.id ≢ m.0.id) rest
          → All (λ (m : Node). IsFresh m.0.id (temps ++ (n.0.id, read_value n) ∷ [])) rest
      still [] h d = tt
      still (m ∷ rest) h d = (
        All-append (λ (t : ℕ × TypedValue). t.0 ≢ m.0.id) temps ((n.0.id, read_value n) ∷ []) h.0
            (d.0, tt),
        still rest h.1 d.1,
      )

  fresh_of :
      (n : Node) (nodes : List Node)
      → All (λ (m : Node). n.0.id ≢ m.0.id) nodes
      → IsFresh n.0.id (temps_of nodes)
  fresh_of n [] h = tt
  fresh_of n (m ∷ nodes) h = ((λ e. h.0 (sym e)), fresh_of n nodes h.1)

  set_temps-All :
      (nodes : List Node) (w : WorkItem)
      → AreDistinct nodes
      → All (λ (n : Node). n.0.id < length w.values) nodes
      → All
          (λ (n : Node).
            get_elem? (set_temps w (temps_of nodes)).values n.0.id ≡ some (some (read_value n)))
          nodes
  unfolding set_temps set_value
  set_temps-All [] w d l = tt
  set_temps-All (n ∷ nodes) w d l = (
    set_temps-fresh (temps_of nodes) (set_value w n.0.id (read_value n)) n.0.id
          (fresh_of n nodes d.0)
        ∙ get_elem?-set_self w.values n.0.id (some (read_value n)) l.0,
    set_temps-All nodes (set_value w n.0.id (read_value n)) d.1 (
        subst (λ k. All (λ (n : Node). n.0.id < k) nodes)
          (sym (length-set w.values n.0.id (some (read_value n)))) l.1),
  )

  no_node :
      (nodes : List Node) (id : ℕ)
      → All (λ (n : Node). n.0.id ≢ id) nodes
      → IsFresh id (temps_of nodes)
  no_node [] id h = tt
  no_node (n ∷ nodes) id h = (h.0, no_node nodes id h.1)

  none_yet : (nodes : List Node) → All (λ (n : Node). IsFresh n.0.id []) nodes
  none_yet [] = tt
  none_yet (n ∷ nodes) = (tt, none_yet nodes)

  -- The phi nodes of a block, with distinct IDs, are executed without a failure, and at the next instruction each has the
  -- value that it read in the state before the first of them; a value of another ID is as it was.
  pub execute-parallel :
      (w : WorkItem) (nodes : List Node) (id : ℕ)
      → w.phi_temps ≡ []
      → All (Reads w) nodes
      → AreDistinct nodes
      → All (λ (n : Node). n.0.id < length w.values) nodes
      → All (λ (n : Node). n.0.id ≢ id) nodes
      → (w' : WorkItem) × (execute_all w nodes ≡ ok w')
        × (w'.values ≡ w.values)
        × All (λ (n : Node). get_elem? (flush w').values n.0.id ≡ some (some (read_value n))) nodes
        × (get_elem? (flush w').values id ≡ get_elem? w.values id)
  unfolding flush with_temps
  execute-parallel w nodes id e r d l f = (
    with_temps w (temps_of nodes),
    ap (λ ts. execute_all (with_temps w ts) nodes) e
        ∙ execute_all-nodes w [] nodes r (none_yet nodes) d,
    refl,
    set_temps-All nodes (with_temps w (temps_of nodes)) d l,
    set_temps-fresh (temps_of nodes) (with_temps w (temps_of nodes)) id (no_node nodes id f),
  )
