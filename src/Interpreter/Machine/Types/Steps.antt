-- ===== src/Interpreter/Machine/Types/Steps.antt =====
-- src/core/WorkItem.cpp: a step of well-typed code keeps a work-item well-typed, and ends in no type error.
use native.Mathlib.Nat.{mul_comm}
use oclgrind.Base.{
  ℕ, zero, suc, ◌*◌, ◌≡◌, refl, sym, ap, subst, ◌∙◌, true, ◌==◌, if◌then◌else◌, Bool-cases, inl,
  inr, List, [], none, some, Option-cases, Result, ok, ◌>>=◌, length, arith,
}
use oclgrind.Interpreter.Values.{Fatal, TypedValue}
use oclgrind.Interpreter.Code.{Operand, Instruction, Code, is_phi}
use oclgrind.Interpreter.WorkItem.{WorkItem, Position, flush}
use oclgrind.Interpreter.Machine.{
  inst_at, is_ready, dispatch, blank, store_result, execute, advance, step,
}
use oclgrind.Interpreter.Machine.Types.{
  HasType, Safe, stops, runs, bind-Safe, Typing, OkOperands, OkAction, OkInstruction, OkCode,
  OkStack, WellTyped,
}
use oclgrind.Interpreter.Machine.Types.State.{
  set_value-WellTyped, flush-WellTyped, set_temps-position, put_temp-All, keep-WellTyped, Pair,
}
use oclgrind.Interpreter.Machine.Types.Dispatch.{dispatch-Safe}

module _ (types : Typing) (code : Code) where
  module _ (alloc : ℕ → List ℕ) (alloc_lem : (n : ℕ) → length (alloc n) ≡ n)
      (builtin : ℕ → WorkItem → List Operand → TypedValue → Result Fatal (WorkItem × TypedValue))
      (builtin-Safe : (f : ℕ) (w : WorkItem) (arguments : List Operand) (r : TypedValue)
        → WellTyped types code w
        → OkOperands types (types.parameters f) arguments
        → HasType (types.result f) r
        → Safe (Pair types code (types.result f)) (builtin f w arguments r)) where
    blank-HasType : (i : Instruction) → HasType (i.size, i.num) (blank alloc builtin code i)
    unfolding blank
    blank-HasType i = record {
      the_size = refl;
      the_num = refl;
      the_bytes = blank_length i.size i.num;
    }
      where
        filled : (s n : ℕ) → (if suc s == 0 then [] else alloc (suc s * n)) ≡ alloc (suc s * n)
        filled s n = ground arith

        blank_length : (s n : ℕ) → length (if s == 0 then [] else alloc (s * n)) ≡ n * s
        blank_length zero n = omega arith
        blank_length (suc s) n = ap length (filled s n) ∙ alloc_lem (suc s * n) ∙ mul_comm (suc s) n

    store_result-WellTyped :
        (i : Instruction) (w : WorkItem) (v : TypedValue)
        → types.type_of i.id ≡ (i.size, i.num)
        → WellTyped types code w
        → HasType (i.size, i.num) v
        → WellTyped types code (store_result alloc builtin code i (w, v))
    unfolding store_result
    store_result-WellTyped i w v e k kv = elim (Bool-cases (i.size == 0)) [
      | inl p ↦ rw (p, store_result) k
      | inr p ↦ elim (Bool-cases (is_phi i.action)) [
        | inl q ↦
            rw (p, q, store_result)
              (record {
                ok_values = k.ok_values;
                ok_temps =
                    put_temp-All types code w.phi_temps i.id v k.ok_temps
                      (subst (λ t. HasType t v) (sym e) kv);
                ok_stack = k.ok_stack;
              })
        | inr q ↦
            rw (p, q, store_result)
              (set_value-WellTyped types code w i.id v k (subst (λ t. HasType t v) (sym e) kv))
      ]
    ]

    -- The instruction from a state at its position.
    execute_at-Safe :
        (w : WorkItem) (p : Position) (i : Instruction)
        → WellTyped types code w
        → p ≡ w.position
        → inst_at code p.curr_block p.curr_inst ≡ some i
        → p.next_block ≡ none
        → OkInstruction types code p.curr_block i
        → Safe (WellTyped types code) (
            dispatch alloc builtin code w i.action (blank alloc builtin code i) >>= λ o.
            ok (store_result alloc builtin code i o))
    execute_at-Safe w p i k q here e h =
        bind-Safe
          (dispatch-Safe types code alloc alloc_lem builtin builtin-Safe w i (i.size, i.num)
            i.action (blank alloc builtin code i) k (blank-HasType i)
            (subst (λ p. inst_at code p.curr_block p.curr_inst ≡ some i) q here)
            (subst (λ p. p.next_block ≡ none) q e)
            (subst (λ p. OkAction types code p.curr_block i.id (i.size, i.num) i.action) q
              h.ok_action))
          (λ o ko. runs (store_result-WellTyped i o.0 o.1 h.ok_type ko.0 ko.1))

    execute-Safe :
        (w : WorkItem) (i : Instruction)
        → WellTyped types code w
        → inst_at code w.position.curr_block w.position.curr_inst ≡ some i
        → w.position.next_block ≡ none
        → OkInstruction types code w.position.curr_block i
        → Safe (WellTyped types code) (execute alloc builtin code w i)
    unfolding execute flush
    execute-Safe w i k here e h = elim (Bool-cases (is_phi i.action)) [
      | inl p ↦ rw (p, execute) (execute_at-Safe w w.position i k refl here e h)
      | inr p ↦
          rw (p, execute)
            (execute_at-Safe (flush w) w.position i (flush-WellTyped types code w k)
              (sym (set_temps-position types code w.phi_temps w)) here e h)
    ]

    -- After the move there is no next block.
    AtStep : WorkItem → Type 0
    AtStep w = WellTyped types code w × (w.position.next_block ≡ none)

    advance-AtStep : (w : WorkItem) → WellTyped types code w → AtStep (advance alloc builtin code w)
    unfolding advance AtStep
    advance-AtStep w k = elim (Option-cases w.position.next_block) [
      | inl e ↦
          rw (e, advance)
            (record { ok_values = k.ok_values; ok_temps = k.ok_temps; ok_stack = k.ok_stack }, e)
      | inr (block, e) ↦
          rw (e, advance)
            (
              record {
                ok_values = k.ok_values;
                ok_temps = k.ok_temps;
                ok_stack =
                    subst
                      (λ n.
                        OkStack types code
                          (types.owner (elim n [ none ↦ w.position.curr_block | some b ↦ b ]))
                          w.position.call_stack)
                      e k.ok_stack;
              },
              refl,
            )
    ]

    -- A step of code whose instructions obey the type rules, from a well-typed state that has no
    -- next block yet, gives such a state, or an error that is none of the types: a value that is
    -- not set, a lack of private memory, an unreachable instruction, no instruction, or a failed
    -- assertion. A call of a builtin function that `Builtin` names is one of
    -- the function's model. The pool gives
    -- blocks of the size asked for, and the other builtin functions, called on operands of the types
    -- of their parameters, keep the state well-typed and give a result of their type, or such an
    -- error.
    pub step-Safe :
        (w : WorkItem)
        → OkCode types code
        → WellTyped types code w
        → w.position.next_block ≡ none
        → Safe
            (λ w'. WellTyped types code w' × (w'.position.next_block ≡ none))
            (step alloc builtin code w)
    unfolding step AtStep
    step-Safe w oks k e = elim (Bool-cases (is_ready w.state)) [
      | inr n ↦ rw (n, step) (stops refl)
      | inl y ↦ elim (Option-cases (inst_at code w.position.curr_block w.position.curr_inst)) [
        | inl p ↦ rw (y, p, step) (stops refl)
        | inr (i, p) ↦
            rw (y, p, step)
              (bind-Safe
                (execute-Safe (record w { position = record (w.position) { has_begun = true } }) i
                  (keep-WellTyped types code w _ refl refl refl refl k) p e
                  (oks w.position.curr_block w.position.curr_inst i p))
                (λ w' k'. runs (advance-AtStep w' k')))
      ]
    ]
