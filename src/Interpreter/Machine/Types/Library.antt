-- ===== src/Interpreter/Machine/Types/Library.antt =====
-- src/core/WorkItemBuiltins.cpp: the builtin functions on integers give a value of the type of the result, for
-- arguments of integer types; and src/core/WorkItem.cpp: their calls keep a work-item well-typed.
use oclgrind.Base.{
  ℕ, zero, suc, ◌≡◌, Bool, true, false, if◌then◌else◌, List, [], ◌∷◌, Result, ok, err, sym, subst,
}
use oclgrind.Interpreter.Values.{
  Fatal, unsupported_argument_type, set_uint, TypedValue, get_sint, set_sint,
}
use oclgrind.Interpreter.Builtins.{
  ArgType, uchar, ushort, uint, ulong, char, short, int, long, other_type, by_type, mul_hi, hadd,
  rhadd, abs_diff, rotate, clz, popcount, upsample, saturating, add_sat_element, sub_sat_element,
  signedness, unknown,
}
use oclgrind.Interpreter.Builtins.Relational.{
  all_from, any_from, all, any, select_builtin, is_negative,
}
use oclgrind.Interpreter.Builtins.Calls.{
  TwoArguments, two_abs_diff, two_add_sat, two_sub_sat, two_hadd, two_rhadd, two_mul_hi, two_rotate,
  two_upsample, OneArgument, one_clz, one_popcount, one_all, one_any, Builtin, of_two, of_one,
  of_select, other, call_two, call_one, is_integer,
}
use oclgrind.Interpreter.Code.{Operand, Code}
use oclgrind.Interpreter.WorkItem.{WorkItem}
use oclgrind.Interpreter.Machine.{call_builtin}
use oclgrind.Interpreter.Machine.Types.{
  ValueType, HasType, Safe, runs, bind-Safe, IsInt, Typing, OkOperands, OkBuiltin, WellTyped,
}
use oclgrind.Interpreter.Machine.Types.Operations.{
  Returns, get_uint-Returns, get_sint-Returns, set_uint-HasType, each-HasType, binary-HasType,
  binary_signed-HasType, unary-HasType,
}
use oclgrind.Interpreter.Machine.Types.State.{get_operand-HasType, not_true, Pair}

ok_if-Returns : (b : Bool) (x y : ℕ) → Returns (if b then ok x else ok y)
ok_if-Returns true x y = runs tt
ok_if-Returns false x y = runs tt

add_sat_element-Returns :
    (t : ArgType) (ua ub sa sb : ℕ) → is_integer t ≡ true → Returns (add_sat_element t ua ub sa sb)
unfolding add_sat_element
add_sat_element-Returns uchar ua ub sa sb h = runs tt
add_sat_element-Returns ushort ua ub sa sb h = runs tt
add_sat_element-Returns uint ua ub sa sb h = runs tt
add_sat_element-Returns ulong ua ub sa sb h = runs tt
add_sat_element-Returns char ua ub sa sb h = runs tt
add_sat_element-Returns short ua ub sa sb h = runs tt
add_sat_element-Returns int ua ub sa sb h = runs tt
add_sat_element-Returns long ua ub sa sb h = runs tt
add_sat_element-Returns other_type ua ub sa sb h = not_true h

sub_sat_element-Returns :
    (t : ArgType) (ua ub sa sb : ℕ) → is_integer t ≡ true → Returns (sub_sat_element t ua ub sa sb)
unfolding sub_sat_element
sub_sat_element-Returns uchar ua ub sa sb h = runs tt
sub_sat_element-Returns ushort ua ub sa sb h = runs tt
sub_sat_element-Returns uint ua ub sa sb h = runs tt
sub_sat_element-Returns ulong ua ub sa sb h = runs tt
sub_sat_element-Returns char ua ub sa sb h = runs tt
sub_sat_element-Returns short ua ub sa sb h = runs tt
sub_sat_element-Returns int ua ub sa sb h = runs tt
sub_sat_element-Returns long ua ub sa sb h = runs tt
sub_sat_element-Returns other_type ua ub sa sb h = not_true h

module _ {s s' t : ValueType} {a b r : TypedValue} (hs : IsInt s) (hs' : IsInt s') (ht : IsInt t)
    (ka : HasType s a) (kb : HasType s' b) (kr : HasType t r) where
  by_type-HasType :
      (o : ArgType) (f g : ℕ → ℕ → ℕ) → is_integer o ≡ true → Safe (HasType t) (by_type o f g a b r)
  unfolding by_type
  by_type-HasType uchar f g h = binary-HasType f ht hs hs' ka kb kr
  by_type-HasType ushort f g h = binary-HasType f ht hs hs' ka kb kr
  by_type-HasType uint f g h = binary-HasType f ht hs hs' ka kb kr
  by_type-HasType ulong f g h = binary-HasType f ht hs hs' ka kb kr
  by_type-HasType char f g h = binary_signed-HasType g ht hs hs' ka kb kr
  by_type-HasType short f g h = binary_signed-HasType g ht hs hs' ka kb kr
  by_type-HasType int f g h = binary_signed-HasType g ht hs hs' ka kb kr
  by_type-HasType long f g h = binary_signed-HasType g ht hs hs' ka kb kr
  by_type-HasType other_type f g h = not_true h

  saturating-HasType :
      (f : (ua ub sa sb : ℕ) → Result Fatal ℕ)
      → ((ua ub sa sb : ℕ) → Returns (f ua ub sa sb))
      → Safe (HasType t) (saturating f a b r)
  unfolding saturating
  saturating-HasType f h =
      each-HasType _ r.num 0 r ht
        (λ i. bind-Safe (get_uint-Returns i hs ka) (λ ua u.
          bind-Safe (get_uint-Returns i hs' kb) (λ ub u.
            bind-Safe (get_sint-Returns i hs ka)
              (λ sa u. bind-Safe (get_sint-Returns i hs' kb) (λ sb u. h ua ub sa sb)))))
        kr

  call_two-HasType :
      (f : TwoArguments) (o : ArgType) → is_integer o ≡ true → Safe (HasType t) (call_two f o a b r)
  unfolding call_two mul_hi hadd rhadd abs_diff rotate upsample
  call_two-HasType two_abs_diff o h = by_type-HasType o _ _ h
  call_two-HasType two_add_sat o h =
      saturating-HasType _ (λ ua ub sa sb. add_sat_element-Returns o ua ub sa sb h)
  call_two-HasType two_sub_sat o h =
      saturating-HasType _ (λ ua ub sa sb. sub_sat_element-Returns o ua ub sa sb h)
  call_two-HasType two_hadd o h = by_type-HasType o _ _ h
  call_two-HasType two_rhadd o h = by_type-HasType o _ _ h
  call_two-HasType two_mul_hi o h = by_type-HasType o _ _ h
  call_two-HasType two_rotate o h = binary-HasType _ ht hs hs' ka kb kr
  call_two-HasType two_upsample o h = binary-HasType _ ht hs hs' ka kb kr

  select_builtin-HasType :
      {s'' : ValueType} {c : TypedValue} (o : ArgType)
      → is_integer o ≡ true
      → IsInt s''
      → HasType s'' c
      → Safe (HasType t) (select_builtin o a b c r)
  unfolding select_builtin
  select_builtin-HasType {s''} {c} o h hc kc =
      each-HasType _ r.num 0 r ht
        (λ i. bind-Safe (get_sint-Returns i hc kc) (λ v u. chosen o h i _)) kr
    where
      either : (b' : Bool) (i : ℕ) → Returns (if b' then get_sint b i else get_sint a i)
      either true i = get_sint-Returns i hs' kb
      either false i = get_sint-Returns i hs ka

      chosen :
          (o : ArgType)
          → is_integer o ≡ true
          → (i : ℕ) (b' : Bool)
          → Returns (elim (signedness o) [
            | unknown ↦ err unsupported_argument_type
            | s ↦ if b' then get_sint b i else get_sint a i
          ])
      chosen other_type h i b' = not_true h
      chosen uchar h i b' = either b' i
      chosen ushort h i b' = either b' i
      chosen uint h i b' = either b' i
      chosen ulong h i b' = either b' i
      chosen char h i b' = either b' i
      chosen short h i b' = either b' i
      chosen int h i b' = either b' i
      chosen long h i b' = either b' i

go_on-Safe :
    (b : Bool) {x : Result Fatal Bool} (c : Bool)
    → Safe (λ c. Unit) x
    → Safe (λ c. Unit) (if b then x else ok c)
go_on-Safe true c h = h
go_on-Safe false c h = runs tt

stop-Safe :
    (b : Bool) {x : Result Fatal Bool} (c : Bool)
    → Safe (λ c. Unit) x
    → Safe (λ c. Unit) (if b then ok c else x)
stop-Safe true c h = runs tt
stop-Safe false c h = h

module _ {s : ValueType} {a : TypedValue} (hs : IsInt s) (ka : HasType s a) where
  all_from-Safe : (n i : ℕ) → Safe (λ c. Unit) (all_from n i a)
  unfolding all_from
  all_from-Safe zero i = runs tt
  all_from-Safe (suc n) i =
      bind-Safe (get_sint-Returns i hs ka)
        (λ c u. go_on-Safe (is_negative c) false (all_from-Safe n (suc i)))

  any_from-Safe : (n i : ℕ) → Safe (λ c. Unit) (any_from n i a)
  unfolding any_from
  any_from-Safe zero i = runs tt
  any_from-Safe (suc n) i =
      bind-Safe (get_sint-Returns i hs ka)
        (λ c u. stop-Safe (is_negative c) true (any_from-Safe n (suc i)))

set_sint-HasType :
    {t : ValueType} {r : TypedValue} (x i : ℕ)
    → IsInt t
    → HasType t r
    → Safe (HasType t) (set_sint r x i)
unfolding set_sint set_uint
set_sint-HasType x i h k = set_uint-HasType x i h k

call_one-HasType :
    {s t : ValueType} {a r : TypedValue} (f : OneArgument)
    → IsInt s
    → HasType s a
    → IsInt t
    → HasType t r
    → Safe (HasType t) (call_one f a r)
unfolding call_one clz popcount all any
call_one-HasType one_clz hs ka ht kr = unary-HasType _ hs ht ka kr
call_one-HasType one_popcount hs ka ht kr = unary-HasType _ hs ht ka kr
call_one-HasType (one_all num) hs ka ht kr =
    bind-Safe (all_from-Safe hs ka num 0) (λ c u. set_sint-HasType _ 0 ht kr)
call_one-HasType (one_any num) hs ka ht kr =
    bind-Safe (any_from-Safe hs ka num 0) (λ c u. set_sint-HasType _ 0 ht kr)

module _ (types : Typing) (code : Code)
    (builtin : ℕ → WorkItem → List Operand → TypedValue → Result Fatal (WorkItem × TypedValue))
    (builtin-Safe : (f : ℕ) (w : WorkItem) (arguments : List Operand) (r : TypedValue)
      → WellTyped types code w
      → OkOperands types (types.parameters f) arguments
      → HasType (types.result f) r
      → Safe (Pair types code (types.result f)) (builtin f w arguments r)) where
  pub call_builtin-Safe :
      (w : WorkItem) (t : ValueType) (f : Builtin) (arguments : List Operand) (r : TypedValue)
      → WellTyped types code w
      → HasType t r
      → OkBuiltin types t f arguments
      → Safe (Pair types code t) (call_builtin builtin f w arguments r)
  unfolding call_builtin
  call_builtin-Safe w t (of_two f o) (a ∷ b ∷ []) r k kr h =
      bind-Safe (get_operand-HasType types code w a k h.2.2) (λ x kx.
        bind-Safe (get_operand-HasType types code w b k h.3.2) (λ y ky.
          bind-Safe (call_two-HasType h.2.1 h.3.1 h.1 kx ky kr f o h.0) (λ u ku. runs (k, ku))))
  call_builtin-Safe w t (of_one f) (a ∷ []) r k kr h =
      bind-Safe (get_operand-HasType types code w a k h.1.2)
        (λ x kx. bind-Safe (call_one-HasType f h.1.1 kx h.0 kr) (λ u ku. runs (k, ku)))
  call_builtin-Safe w t (of_select o) (a ∷ b ∷ c ∷ []) r k kr h =
      bind-Safe (get_operand-HasType types code w a k h.2.2) (λ x kx.
        bind-Safe (get_operand-HasType types code w b k h.3.2) (λ y ky.
          bind-Safe (get_operand-HasType types code w c k h.4.2) (λ z kz.
            bind-Safe (select_builtin-HasType h.2.1 h.3.1 h.1 kx ky kr o h.0 h.4.1 kz)
              (λ u ku. runs (k, ku)))))
  call_builtin-Safe w t (other f) arguments r k kr h =
      subst (λ s. Safe (Pair types code s) (builtin f w arguments r)) (sym h.1)
        (builtin-Safe f w arguments r k h.0 (subst (λ s. HasType s r) h.1 kr))
  call_builtin-Safe w t (of_two f o) [] r k kr h = not_true h
  call_builtin-Safe w t (of_two f o) (a ∷ []) r k kr h = not_true h
  call_builtin-Safe w t (of_two f o) (a ∷ b ∷ c ∷ arguments) r k kr h = not_true h
  call_builtin-Safe w t (of_one f) [] r k kr h = not_true h
  call_builtin-Safe w t (of_one f) (a ∷ b ∷ arguments) r k kr h = not_true h
  call_builtin-Safe w t (of_select o) [] r k kr h = not_true h
  call_builtin-Safe w t (of_select o) (a ∷ []) r k kr h = not_true h
  call_builtin-Safe w t (of_select o) (a ∷ b ∷ []) r k kr h = not_true h
  call_builtin-Safe w t (of_select o) (a ∷ b ∷ c ∷ d ∷ arguments) r k kr h = not_true h
