-- ===== src/Interpreter/Machine/Types/Calls.antt =====
-- src/core/WorkItem.cpp: calls and returns of well-typed code keep a work-item well-typed.
use oclgrind.Base.{
  ℕ, ◌≡◌, refl, sym, ap, subst, true, ◌==◌, Bool-cases, Option-cases, List-cases, inl, inr, List,
  [], ◌∷◌, Option, none, some, Result, ok, err, ◌>>=◌, length, All,
}
use oclgrind.Memory.{Memory, deallocate_buffer}
use oclgrind.Interpreter.Values.{Fatal, failed_assertion, no_instruction}
use oclgrind.Interpreter.Code.{Operand, Instruction, Param, Code}
use oclgrind.Interpreter.WorkItem.{
  WorkItem, finished, Position, get_operand, set_value, incoming_value, track,
}
use oclgrind.Interpreter.Machine.{pass, pass_all, free_all, inst_at, give_back, leave, exec_ret}
use oclgrind.Interpreter.Machine.Types.{
  ValueType, pointer_type, HasType, Safe, stops, runs, bind-Safe, Typing, OkOperand, OkArgument,
  OkArguments, OkStack, target, WellTyped,
}
use oclgrind.Interpreter.Machine.Types.Operations.{get_pointer-Returns, set_pointer-HasType}
use oclgrind.Interpreter.Machine.Types.State.{
  get_operand-HasType, set_value-WellTyped, keep-WellTyped, not_true,
}

-- A check of two calls in turn is one of the rest after them.
bind-both :
    {A B C : Type 0} {P : B → Type 0} {Q : C → Type 0} (r : Result Fatal A) (f : A → Result Fatal B)
    {g : B → Result Fatal C}
    → Safe P (r >>= f)
    → ((b : B) → P b → Safe Q (g b))
    → Safe Q (r >>= λ a. f a >>= g)
bind-both (err code) f (stops e) k = stops e
bind-both (ok a) f h k = bind-Safe h k

module _ (types : Typing) (code : Code) where
  pub incoming_value-HasType :
      (w : WorkItem) (incoming : List (ℕ × Operand)) (prev : Option ℕ) {t : ValueType}
      → WellTyped types code w
      → All (λ (c : ℕ × Operand). OkOperand types t c.1) incoming
      → Safe (HasType t) (incoming_value w incoming prev)
  unfolding incoming_value
  incoming_value-HasType w incoming none k h = stops refl
  incoming_value-HasType w [] (some block) k h = stops refl
  incoming_value-HasType w ((b, v) ∷ incoming) (some block) k h = elim (Bool-cases (b == block)) [
    | inl e ↦ rw (e, incoming_value) (get_operand-HasType types code w v k h.0)
    | inr e ↦ rw (e, incoming_value) (incoming_value-HasType w incoming (some block) k h.1)
  ]

  module _ (alloc : ℕ → List ℕ) (alloc_lem : (n : ℕ) → length (alloc n) ≡ n) where
    pass-Safe :
        (w : WorkItem) (id : ℕ) (by_val : Option ℕ) (a : Operand)
        → WellTyped types code w
        → OkArgument types id by_val a
        → Safe (WellTyped types code) (get_operand w a >>= λ v. pass alloc w id by_val v)
    unfolding pass track
    pass-Safe w id none a k h =
        bind-Safe (get_operand-HasType types code w a k h)
          (λ v kv. runs (set_value-WellTyped types code w id v k kv))
    pass-Safe w id (some size) a k h = bind-Safe (get_operand-HasType types code w a k h.0) (λ v kv.
        bind-Safe (get_pointer-Returns 0 refl kv) (λ address u.
          bind-Safe
            (set_pointer-HasType {t = pointer_type} _ 0 refl
              (record { the_size = refl; the_num = refl; the_bytes = alloc_lem 8 }))
            (λ t kt. runs (
              set_value-WellTyped types code _ id t
                (keep-WellTyped types code w _ refl refl refl refl k)
                (subst (λ s. HasType s t) (sym h.1) kt)))))

    pub pass_all-Safe :
        (w : WorkItem) (params : List Param) (arguments : List Operand)
        → WellTyped types code w
        → OkArguments types params arguments
        → Safe (WellTyped types code) (pass_all alloc w params arguments)
    unfolding pass_all
    pass_all-Safe w [] arguments k h = runs k
    pass_all-Safe w (p ∷ params) [] k h = not_true h
    pass_all-Safe w (p ∷ params) (a ∷ arguments) k h =
        bind-both (get_operand w a) (λ v. pass alloc w p.param_id p.by_val v)
          (pass-Safe w p.param_id p.by_val a k h.0)
          (λ w' k'. pass_all-Safe w' params arguments k' h.1)

  free_all-Safe : (m : Memory) (addresses : List ℕ) → Safe (λ m. Unit) (free_all m addresses)
  unfolding free_all
  free_all-Safe m [] = runs tt
  free_all-Safe m (a ∷ addresses) = elim (Option-cases (deallocate_buffer m a)) [
    | inl e ↦ rw (e, free_all) (stops refl)
    | inr (m', e) ↦ rw (e, free_all) (free_all-Safe m' addresses)
  ]

  leave-Safe : (w : WorkItem) → WellTyped types code w → Safe (WellTyped types code) (leave w)
  unfolding leave
  leave-Safe w k = go w.position.allocations
    where
      go :
          (frames : List (List ℕ))
          → Safe (WellTyped types code) (elim frames [
            | [] ↦ err failed_assertion
            | top ∷ frames ↦ free_all w.private top >>= λ m.
                ok (record w {
                  private = m;
                  position = record (w.position) { allocations = frames };
                })
          ])
      go [] = stops refl
      go (top ∷ frames) =
          bind-Safe (free_all-Safe w.private top)
            (λ m u. runs (keep-WellTyped types code w _ refl refl refl refl k))

  abbrev OkReturned : ℕ → Option Operand → Type 0
  OkReturned f none = Unit
  OkReturned f (some v) = OkOperand types (types.returned f) v

  give_back-Safe :
      (w : WorkItem) (f : ℕ) (v : Option Operand)
      → WellTyped types code w
      → ((i : Instruction)
          → inst_at code w.position.curr_block w.position.curr_inst ≡ some i
          → types.type_of i.id ≡ types.returned f)
      → OkReturned f v
      → Safe (WellTyped types code) (give_back code w v)
  unfolding give_back
  give_back-Safe w f none k awaits h = runs k
  give_back-Safe w f (some v) k awaits h =
      go (inst_at code w.position.curr_block w.position.curr_inst) refl
    where
      go :
          (o : Option Instruction)
          → inst_at code w.position.curr_block w.position.curr_inst ≡ o
          → Safe (WellTyped types code) (elim o [
            | none ↦ err no_instruction
            | some i ↦ get_operand w v >>= λ r. ok (set_value w i.id r)
          ])
      go none e = stops refl
      go (some i) e = bind-Safe (get_operand-HasType types code w v k h) (λ r kr. runs (
          set_value-WellTyped types code w i.id r k
            (subst (λ t. HasType t r) (sym (awaits i e)) kr)))

  pub exec_ret-Safe :
      (w : WorkItem) (v : Option Operand)
      → WellTyped types code w
      → w.position.next_block ≡ none
      → OkReturned (types.owner w.position.curr_block) v
      → Safe (WellTyped types code) (exec_ret code w v)
  unfolding exec_ret
  exec_ret-Safe w v k e h = elim (List-cases w.position.call_stack) [
    | inl p ↦ rw (p, exec_ret) (runs (finish p))
    | inr ((block, index), calls, p) ↦
        rw (p, exec_ret)
          (bind-Safe
            (give_back-Safe (popped block index calls) (types.owner w.position.curr_block) v
              (popped-WellTyped block index calls p) (stack block index calls p).0 h)
            (λ w' k'. leave-Safe w' k'))
  ]
    where
      target_of : (p : Position) → p.next_block ≡ none → target types p ≡ p.curr_block
      target_of p e = ap (λ n. elim n [ none ↦ p.curr_block | some block ↦ block ]) e

      stack :
          (block index : ℕ) (calls : List (ℕ × ℕ))
          → w.position.call_stack ≡ (block, index) ∷ calls
          → OkStack types code (types.owner w.position.curr_block) ((block, index) ∷ calls)
      stack block index calls p = subst (OkStack types code (types.owner w.position.curr_block)) p (
          subst (λ b. OkStack types code (types.owner b) w.position.call_stack)
            (target_of w.position e) k.ok_stack)

      popped : (block index : ℕ) → List (ℕ × ℕ) → WorkItem
      popped block index calls = record w {
        position = record (w.position) {
          curr_inst = index;
          curr_block = block;
          call_stack = calls;
        };
      }

      popped-WellTyped :
          (block index : ℕ) (calls : List (ℕ × ℕ))
          → w.position.call_stack ≡ (block, index) ∷ calls
          → WellTyped types code (popped block index calls)
      popped-WellTyped block index calls p = record {
        ok_values = k.ok_values;
        ok_temps = k.ok_temps;
        ok_stack =
            subst (λ b. OkStack types code (types.owner b) calls)
              (sym (target_of (popped block index calls).position e)) (stack block index calls p).1;
      }

      finish :
          w.position.call_stack ≡ []
          → WellTyped types code (record w {
            state = finished;
            notified = true;
            position = record (w.position) { next_block = none };
          })
      finish p = record {
        ok_values = k.ok_values;
        ok_temps = k.ok_temps;
        ok_stack = subst (OkStack types code (types.owner w.position.curr_block)) (sym p) tt;
      }
