-- ===== src/Interpreter/Machine/Types/State.antt =====
-- src/core/WorkItem.cpp: reading and setting the state of a well-typed work-item, and its accesses of memory.
use oclgrind.Base.{
  ℕ, zero, suc, ◌*◌, ◌%◌, ◌≡◌, ◌⊎◌, inl, inr, refl, sym, ap, subst, true, false, ◌==◌, Bool-cases,
  List, [], ◌∷◌, Option, none, some, All, get_elem?, set, arith,
}
use oclgrind.Memory.{
  Memory, AddressSpace, private_space, global_space, constant_space, local_space, load,
  allocate_buffer,
}
use oclgrind.Interpreter.Values.{TypedValue}
use oclgrind.Interpreter.Vectors.{fill}
use oclgrind.Interpreter.Code.{Operand, value, constant, unhandled, Code}
use oclgrind.Interpreter.WorkItem.{
  WorkItem, found, get_operand, set_value, set_temps, flush, put_temp, check_alignment, get_memory,
  put_memory, exec_load, exec_store, track, exec_alloca,
}
use oclgrind.Interpreter.Machine.Types.{
  ValueType, pointer_type, HasType, Safe, stops, runs, bind-Safe, Typing, OkOperand, OkAny, OkStack,
  target, WellTyped,
}
use oclgrind.Interpreter.Machine.Types.Operations.{
  get_pointer-Returns, set_pointer-HasType, fill-HasType,
}

set_cases :
    {A : Type 0} (xs : List A) (i j : ℕ) (v o : A)
    → get_elem? (set xs i v) j ≡ some o
    → ((i ≡ j) × (v ≡ o)) ⊎ (get_elem? xs j ≡ some o)
set_cases [] i j v o e = ground arith
set_cases (x ∷ xs) zero zero v o e = ground arith
set_cases (x ∷ xs) zero (suc j) v o e = inr e
set_cases (x ∷ xs) (suc i) zero v o e = inr e
set_cases (x ∷ xs) (suc i) (suc j) v o e = elim (set_cases xs i j v o e) [
  | inl (p, q) ↦ inl (ap suc p, q)
  | inr q ↦ inr q
]

pub not_true : {A : Type 0} → false ≡ true → A
not_true e = absurd (ground arith)

-- What is stored where, if anything.
Stores : ValueType → Option TypedValue → Type 0
Stores t none = Unit
Stores t (some v) = HasType t v

module _ (types : Typing) (code : Code) where
  pub get_operand-HasType :
      (w : WorkItem) (a : Operand) {t : ValueType}
      → WellTyped types code w
      → OkOperand types t a
      → Safe (HasType t) (get_operand w a)
  unfolding get_operand
  get_operand-HasType w (value id) {t} k e = go (get_elem? w.values id) refl
    where
      go : (o : Option (Option TypedValue)) → get_elem? w.values id ≡ o → Safe (HasType t) (found o)
      go none p = stops refl
      go (some none) p = stops refl
      go (some (some v)) p = runs (subst (λ t. HasType t v) e (k.ok_values id v p))
  get_operand-HasType w (constant v) k e = runs e
  get_operand-HasType w unhandled k e = not_true e

  pub set_value-WellTyped :
      (w : WorkItem) (id : ℕ) (v : TypedValue)
      → WellTyped types code w
      → HasType (types.type_of id) v
      → WellTyped types code (set_value w id v)
  unfolding set_value Stores
  set_value-WellTyped w id v k h = record {
    ok_values = λ j u e. elim (set_cases w.values id j (some v) (some u) e) [
      | inl (p, q) ↦
          subst (Stores (types.type_of j)) q (subst (λ j. HasType (types.type_of j) v) p h)
      | inr q ↦ k.ok_values j u q
    ];
    ok_temps = k.ok_temps;
    ok_stack = k.ok_stack;
  }

  set_temps-WellTyped :
      (temps : List (ℕ × TypedValue)) (w : WorkItem)
      → WellTyped types code w
      → All (λ (t : ℕ × TypedValue). HasType (types.type_of t.0) t.1) temps
      → WellTyped types code (set_temps w temps)
  unfolding set_temps
  set_temps-WellTyped [] w k h = k
  set_temps-WellTyped ((id, v) ∷ temps) w k h =
      set_temps-WellTyped temps (set_value w id v) (set_value-WellTyped w id v k h.0) h.1

  pub flush-WellTyped : (w : WorkItem) → WellTyped types code w → WellTyped types code (flush w)
  unfolding flush
  flush-WellTyped w k =
      let s = set_temps-WellTyped w.phi_temps w k k.ok_temps in
      record { ok_values = s.ok_values; ok_temps = tt; ok_stack = s.ok_stack }

  pub set_temps-position :
      (temps : List (ℕ × TypedValue)) (w : WorkItem) → (set_temps w temps).position ≡ w.position
  unfolding set_temps set_value
  set_temps-position [] w = refl
  set_temps-position ((id, v) ∷ temps) w = set_temps-position temps (set_value w id v)

  pub put_temp-All :
      (temps : List (ℕ × TypedValue)) (id : ℕ) (v : TypedValue)
      → All (λ (t : ℕ × TypedValue). HasType (types.type_of t.0) t.1) temps
      → HasType (types.type_of id) v
      → All (λ (t : ℕ × TypedValue). HasType (types.type_of t.0) t.1) (put_temp temps id v)
  unfolding put_temp
  put_temp-All [] id v h k = (k, tt)
  put_temp-All ((j, u) ∷ temps) id v h k = elim (Bool-cases (j == id)) [
    | inl e ↦ rw (e, put_temp) (k, h.1)
    | inr e ↦ rw (e, put_temp) (h.0, put_temp-All temps id v h.1 k)
  ]

  -- What changes neither the values nor the position.
  pub keep-WellTyped :
      (w w' : WorkItem)
      → w'.values ≡ w.values
      → w'.phi_temps ≡ w.phi_temps
      → target types w'.position ≡ target types w.position
      → w'.position.call_stack ≡ w.position.call_stack
      → WellTyped types code w
      → WellTyped types code w'
  keep-WellTyped w w' ev et eb ec k = record {
    ok_values = λ id v e. k.ok_values id v (subst (λ vs. get_elem? vs id ≡ some (some v)) ev e);
    ok_temps =
        subst (All (λ (t : ℕ × TypedValue). HasType (types.type_of t.0) t.1)) (sym et) k.ok_temps;
    ok_stack =
        subst (λ b. OkStack types code (types.owner b) w'.position.call_stack) (sym eb)
          (subst (OkStack types code (types.owner (target types w.position))) (sym ec) k.ok_stack);
  }

  put_memory-WellTyped :
      (w : WorkItem) (space : AddressSpace) (m : Memory)
      → WellTyped types code w
      → WellTyped types code (put_memory w space m)
  unfolding put_memory
  put_memory-WellTyped w private_space m k = keep-WellTyped w _ refl refl refl refl k
  put_memory-WellTyped w global_space m k = keep-WellTyped w _ refl refl refl refl k
  put_memory-WellTyped w constant_space m k = keep-WellTyped w _ refl refl refl refl k
  put_memory-WellTyped w local_space m k = keep-WellTyped w _ refl refl refl refl k

  check_alignment-WellTyped :
      (w : WorkItem) (address n : ℕ)
      → WellTyped types code w
      → WellTyped types code (check_alignment w address n)
  unfolding check_alignment
  check_alignment-WellTyped w address n k = elim (Bool-cases (address % n == 0)) [
    | inl e ↦ rw (e, check_alignment) k
    | inr e ↦ rw (e, check_alignment) (keep-WellTyped w _ refl refl refl refl k)
  ]

  -- A work-item and a result of its instruction.
  abbrev pub Pair : ValueType → WorkItem × TypedValue → Type 0
  Pair t o = WellTyped types code o.0 × HasType t o.1

  pub exec_load-Safe :
      (w : WorkItem) (space : AddressSpace) (n : ℕ) (p : Operand) (r : TypedValue) {t : ValueType}
      → WellTyped types code w
      → OkOperand types pointer_type p
      → HasType t r
      → Safe (Pair t) (exec_load w space n p r)
  unfolding exec_load
  exec_load-Safe w space n p r {t} k kp kr = bind-Safe (get_operand-HasType w p k kp) (λ v kv.
      bind-Safe (get_pointer-Returns 0 refl kv) (λ address u. runs (
        put_memory-WellTyped (check_alignment w address n) space _
            (check_alignment-WellTyped w address n k),
        filled (load (get_memory (check_alignment w address n) space) address (r.size * r.num)).1,
      )))
    where
      filled : (o : Option (List ℕ)) → HasType t (elim o [ none ↦ r | some bytes ↦ fill r 0 bytes ])
      filled none = kr
      filled (some bytes) = fill-HasType 0 bytes kr

  pub exec_store-Safe :
      (w : WorkItem) (space : AddressSpace) (n : ℕ) (p v : Operand)
      → WellTyped types code w
      → OkOperand types pointer_type p
      → OkAny types v
      → Safe (WellTyped types code) (exec_store w space n p v)
  unfolding exec_store
  exec_store-Safe w space n p v k kp kv = bind-Safe (get_operand-HasType w p k kp) (λ x kx.
      bind-Safe (get_pointer-Returns 0 refl kx) (λ address u.
        let k' = check_alignment-WellTyped w address n k in
        bind-Safe (get_operand-HasType (check_alignment w address n) v k' kv.1)
          (λ y ky. runs (put_memory-WellTyped (check_alignment w address n) space _ k'))))

  pub exec_alloca-Safe :
      (w : WorkItem) (size : ℕ) (r : TypedValue) {t : ValueType}
      → WellTyped types code w
      → t.0 ≡ 8
      → HasType t r
      → Safe (Pair t) (exec_alloca w size r)
  unfolding exec_alloca track
  exec_alloca-Safe w size r k h kr =
      elim (Bool-cases ((allocate_buffer w.private size 0 none).1 == 0)) [
        | inl e ↦ rw (e, exec_alloca) (stops refl)
        | inr e ↦
            rw (e, exec_alloca)
              (bind-Safe (set_pointer-HasType (allocate_buffer w.private size 0 none).1 0 h kr)
                (λ t kt. runs (keep-WellTyped w _ refl refl refl refl k, kt)))
      ]
