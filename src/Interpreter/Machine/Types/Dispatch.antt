-- ===== src/Interpreter/Machine/Types/Dispatch.antt =====
-- src/core/WorkItem.cpp: an instruction of well-typed code keeps a work-item well-typed, and ends in no type error.
use oclgrind.Base.{
  ℕ, ◌≡◌, refl, sym, ap, subst, ◌∙◌, Bool, true, false, ◌==◌, if◌then◌else◌, Bool-cases, inl, inr,
  List, [], ◌∷◌, Option, none, some, Option-cases, Result, length, All, get_elem?,
}
use oclgrind.Interpreter.Values.{Fatal, TypedValue}
use oclgrind.Interpreter.Code.{
  Operand, Action, arithmetic, comparison, conversion, extract, insert, choice, shuffling, alloca,
  loading, storing, phi, branch, branch_if, switching, calling, calling_builtin, returning,
  unreachable, unsupported, Instruction, Function, Code,
}
use oclgrind.Interpreter.WorkItem.{WorkItem, go_to, successor}
use oclgrind.Interpreter.Machine.{enter, inst_at, dispatch}
use oclgrind.Interpreter.Machine.Types.{
  ValueType, HasType, Safe, stops, runs, bind-Safe, Typing, OkOperands, OkAction, OkCall, OkStack,
  target, WellTyped,
}
use oclgrind.Interpreter.Machine.Types.Operations.{
  get_uint-Returns, int_op-HasType, icmp-HasType, convert-HasType, select-HasType, shuffle-HasType,
  copy_value-HasType, extractelem-HasType, insertelem-HasType,
}
use oclgrind.Interpreter.Machine.Types.State.{
  get_operand-HasType, not_true, Pair, exec_load-Safe, exec_store-Safe, exec_alloca-Safe,
}
use oclgrind.Interpreter.Machine.Types.Calls.{incoming_value-HasType, pass_all-Safe, exec_ret-Safe}
use oclgrind.Interpreter.Machine.Types.Library.{call_builtin-Safe}

module _ (types : Typing) (code : Code) where
  go_to-WellTyped :
      (w : WorkItem) (block : ℕ)
      → WellTyped types code w
      → types.owner block ≡ types.owner (target types w.position)
      → WellTyped types code (go_to w block)
  go_to-WellTyped w block k e = record {
    ok_values = k.ok_values;
    ok_temps = k.ok_temps;
    ok_stack = subst (λ f. OkStack types code f w.position.call_stack) (sym e) k.ok_stack;
  }

  owner_target :
      (w : WorkItem)
      → w.position.next_block ≡ none
      → types.owner w.position.curr_block ≡ types.owner (target types w.position)
  owner_target w e =
      ap (λ n. types.owner (elim n [ none ↦ w.position.curr_block | some block ↦ block ])) (sym e)

  successor-All :
      (P : ℕ → Type 0) (cases : List (ℕ × ℕ)) (default x : ℕ)
      → All (λ (c : ℕ × ℕ). P c.1) cases
      → P default
      → P (successor cases default x)
  unfolding successor
  successor-All P [] default x h p = p
  successor-All P ((c, block) ∷ cases) default x h p = elim (Bool-cases (c == x)) [
    | inl e ↦ rw (e, successor) h.0
    | inr e ↦ rw (e, successor) (successor-All P cases default x h.1 p)
  ]

  enter-WellTyped :
      (w : WorkItem) (i : Instruction) (f : ℕ) (function : Function)
      → WellTyped types code w
      → inst_at code w.position.curr_block w.position.curr_inst ≡ some i
      → w.position.next_block ≡ none
      → types.type_of i.id ≡ types.returned f
      → types.owner function.begin ≡ f
      → WellTyped types code (enter w function)
  enter-WellTyped w i f function k here e h o = record {
    ok_values = k.ok_values;
    ok_temps = k.ok_temps;
    ok_stack = (
      (λ j q.
          subst (λ g. types.type_of j.id ≡ types.returned g) (sym o)
            (subst (Awaits f) (sym here ∙ q) h)),
      subst (λ g. OkStack types code g w.position.call_stack) (sym (owner_target w e)) k.ok_stack,
    );
  }
    where
      Awaits : ℕ → Option Instruction → Type 0
      Awaits f none = Unit
      Awaits f (some i) = types.type_of i.id ≡ types.returned f

  module _ (alloc : ℕ → List ℕ) (alloc_lem : (n : ℕ) → length (alloc n) ≡ n)
      (builtin : ℕ → WorkItem → List Operand → TypedValue → Result Fatal (WorkItem × TypedValue))
      (builtin-Safe : (f : ℕ) (w : WorkItem) (arguments : List Operand) (r : TypedValue)
        → WellTyped types code w
        → OkOperands types (types.parameters f) arguments
        → HasType (types.result f) r
        → Safe (Pair types code (types.result f)) (builtin f w arguments r)) where
    pub dispatch-Safe :
        (w : WorkItem) (i : Instruction) (t : ValueType) (a : Action) (r : TypedValue)
        → WellTyped types code w
        → HasType t r
        → inst_at code w.position.curr_block w.position.curr_inst ≡ some i
        → w.position.next_block ≡ none
        → OkAction types code w.position.curr_block i.id t a
        → Safe (Pair types code t) (dispatch alloc builtin code w a r)
    unfolding dispatch
    dispatch-Safe w i t (arithmetic op a b) r k kr here e h =
        bind-Safe (get_operand-HasType types code w a k h.1) (λ x kx.
          bind-Safe (get_operand-HasType types code w b k h.2)
            (λ y ky. bind-Safe (int_op-HasType op h.0 h.0 h.0 kx ky kr) (λ u ku. runs (k, ku))))
    dispatch-Safe w i t (comparison p a b) r k kr here e h =
        bind-Safe (get_operand-HasType types code w a k h.2.2) (λ x kx.
          bind-Safe (get_operand-HasType types code w b k h.3.2) (λ y ky.
            bind-Safe (icmp-HasType p h.0 h.1 h.2.1 h.3.1 kx ky kr) (λ u ku. runs (k, ku))))
    dispatch-Safe w i t (conversion c a) r k kr here e h =
        bind-Safe (get_operand-HasType types code w a k h.2)
          (λ x kx. bind-Safe (convert-HasType c x r h.1 kx kr) (λ u ku. runs (k, ku)))
    dispatch-Safe w i t (extract v index) r k kr here e h =
        bind-Safe (get_operand-HasType types code w index k h.1.2) (λ x kx.
          bind-Safe (get_operand-HasType types code w v k h.0.1)
            (λ y ky. bind-Safe (extractelem-HasType y x r h.1.1 kx kr) (λ u ku. runs (k, ku))))
    dispatch-Safe w i t (insert v new index) r k kr here e h =
        bind-Safe (get_operand-HasType types code w v k h.0.1) (λ x kx.
          bind-Safe (get_operand-HasType types code w new k h.1.1) (λ y ky.
            bind-Safe (get_operand-HasType types code w index k h.2.2)
              (λ z kz. bind-Safe (insertelem-HasType x y z r h.2.1 kz kr) (λ u ku. runs (k, ku)))))
    dispatch-Safe w i t (choice is_vector c a b) r k kr here e h =
        bind-Safe (get_operand-HasType types code w c k h.0.2) (λ z kz.
          bind-Safe (get_operand-HasType types code w a k h.1) (λ x kx.
            bind-Safe (get_operand-HasType types code w b k h.2) (λ y ky.
              bind-Safe (select-HasType is_vector z x y r.num 0 r h.0.1 kz kr)
                (λ u ku. runs (k, ku)))))
    dispatch-Safe w i t (shuffling mask num a b) r k kr here e h =
        bind-Safe (get_operand-HasType types code w a k h.0.1) (λ x kx.
          bind-Safe (get_operand-HasType types code w b k h.1.1)
            (λ y ky. runs (k, shuffle-HasType mask 0 x y num r kr)))
    dispatch-Safe w i t (alloca size) r k kr here e h = exec_alloca-Safe types code w size r k h kr
    dispatch-Safe w i t (loading space n p) r k kr here e h =
        exec_load-Safe types code w space n p r k h kr
    dispatch-Safe w i t (storing space n p v) r k kr here e h =
        bind-Safe (exec_store-Safe types code w space n p v k h.0 h.1) (λ w' k'. runs (k', kr))
    dispatch-Safe w i t (phi incoming) r k kr here e h =
        bind-Safe (incoming_value-HasType types code w incoming w.position.prev_block k h)
          (λ v kv. runs (k, copy_value-HasType v r kr))
    dispatch-Safe w i t (branch block) r k kr here e h =
        runs (go_to-WellTyped w block k (h ∙ owner_target w e), kr)
    dispatch-Safe w i t (branch_if c yes_block no_block) r k kr here e h =
        bind-Safe (get_operand-HasType types code w c k h.0.2) (λ x kx.
          bind-Safe (get_uint-Returns 0 h.0.1 kx)
            (λ v u. runs (go_to-WellTyped w _ k (chosen (v == 0) h.1 h.2 ∙ owner_target w e), kr)))
      where
        chosen :
            (b : Bool) {here : ℕ}
            → types.owner yes_block ≡ here
            → types.owner no_block ≡ here
            → types.owner (if b then no_block else yes_block) ≡ here
        chosen true y n = n
        chosen false y n = y
    dispatch-Safe w i t (switching c cases default) r k kr here e h =
        bind-Safe (get_operand-HasType types code w c k h.0.2) (λ x kx.
          bind-Safe (get_uint-Returns 0 h.0.1 kx) (λ v u. runs (
            go_to-WellTyped w _ k (
                successor-All (λ b. types.owner b ≡ types.owner w.position.curr_block) cases default
                  v h.1 h.2
                ∙ owner_target w e),
            kr,
          )))
    dispatch-Safe w i t (calling f arguments) r k kr here e h =
        elim (Option-cases (get_elem? code.functions f)) [
          | inl p ↦ rw (p, dispatch) (stops refl)
          | inr (function, p) ↦
              rw (p, dispatch)
                (let o = subst (OkCall types f arguments) p h.1 in
                  bind-Safe
                    (pass_all-Safe types code alloc alloc_lem (enter w function) function.params
                      arguments (enter-WellTyped w i f function k here e h.0 o.0) o.1)
                    (λ w' k'. runs (k', kr)))
        ]
    dispatch-Safe w i t (calling_builtin f arguments) r k kr here e h =
        call_builtin-Safe types code builtin builtin-Safe w t f arguments r k kr h
    dispatch-Safe w i t (returning none) r k kr here e h =
        bind-Safe (exec_ret-Safe types code w none k e tt) (λ w' k'. runs (k', kr))
    dispatch-Safe w i t (returning (some v)) r k kr here e h =
        bind-Safe (exec_ret-Safe types code w (some v) k e h) (λ w' k'. runs (k', kr))
    dispatch-Safe w i t unreachable r k kr here e h = stops refl
    dispatch-Safe w i t unsupported r k kr here e h = not_true h
