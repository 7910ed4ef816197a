-- ===== src/Interpreter/Machine/Types/Operations.antt =====
-- src/core/WorkItem.cpp: the operations on values of the right types give values of the type of their result.
use oclgrind.Base.{
  ℕ, zero, suc, ◌*◌, ◌%◌, ◌≡◌, ◌∙◌, ap, Bool, true, ◌==◌, if◌then◌else◌, List, [], ◌∷◌, Option,
  none, some, Result, length-overwrite, to_bytes, unsigned_mod,
}
use oclgrind.Interpreter.Values.{
  Fatal, TypedValue, is_int_size, get_uint, get_sint, get_pointer, set_uint, set_pointer, each,
}
use oclgrind.Interpreter.Integers.{
  binary, binary_signed, unary, shl, lshr, ashr, sdiv, srem, sext, ptrtoint, inttoptr, icmp,
  is_int_predicate, Predicate,
}
use oclgrind.Interpreter.Vectors.{fill, copy_value, extractelem, insertelem, select, shuffle}
use oclgrind.Interpreter.Code.{
  IntOp, op_add, op_sub, op_mul, op_and, op_or, op_xor, op_udiv, op_urem, op_sdiv, op_srem, op_shl,
  op_lshr, op_ashr, int_op, Conversion, to_trunc, to_zext, to_pointer, of_pointer, to_copy, to_sext,
}
use oclgrind.Interpreter.Machine.{convert}
use oclgrind.Interpreter.Machine.Types.{ValueType, HasType, Safe, runs, bind-Safe, IsInt, Converts}

-- An operation that does not fail.
abbrev pub Returns : Result Fatal ℕ → Type 0
Returns = Safe (λ x. Unit)

module _ {s : ValueType} {v : TypedValue} where
  pub get_uint-Returns : (i : ℕ) → IsInt s → HasType s v → Returns (get_uint v i)
  unfolding get_uint
  get_uint-Returns i h k = rw (ap is_int_size k.the_size ∙ h, get_uint) (runs tt)

  pub get_sint-Returns : (i : ℕ) → IsInt s → HasType s v → Returns (get_sint v i)
  unfolding get_sint
  get_sint-Returns i h k = rw (ap is_int_size k.the_size ∙ h, get_sint) (runs tt)

  pub get_pointer-Returns : (i : ℕ) → s.0 ≡ 8 → HasType s v → Returns (get_pointer v i)
  unfolding get_pointer
  get_pointer-Returns i h k = rw (k.the_size ∙ h, get_pointer) (runs tt)

module _ {t : ValueType} {r : TypedValue} where
  pub fill-HasType : (offset : ℕ) (source : List ℕ) → HasType t r → HasType t (fill r offset source)
  fill-HasType offset source k = record {
    the_size = k.the_size;
    the_num = k.the_num;
    the_bytes = length-overwrite r.bytes offset source ∙ k.the_bytes;
  }

  pub set_uint-HasType : (x i : ℕ) → IsInt t → HasType t r → Safe (HasType t) (set_uint r x i)
  unfolding set_uint
  set_uint-HasType x i h k =
      rw (ap is_int_size k.the_size ∙ h, set_uint)
        (runs (fill-HasType (i * r.size) (to_bytes r.size x) k))

  pub set_pointer-HasType : (x i : ℕ) → t.0 ≡ 8 → HasType t r → Safe (HasType t) (set_pointer r x i)
  unfolding set_pointer
  set_pointer-HasType x i h k =
      rw (ap (λ n. n == 8) (k.the_size ∙ h), set_pointer)
        (runs (fill-HasType (i * r.size) (to_bytes r.size x) k))

pub each-HasType :
    {t : ValueType} (f : ℕ → Result Fatal ℕ) (n i : ℕ) (r : TypedValue)
    → IsInt t
    → ((j : ℕ) → Returns (f j))
    → HasType t r
    → Safe (HasType t) (each f n i r)
unfolding each
each-HasType f zero i r h g k = runs k
each-HasType f (suc n) i r h g k =
    bind-Safe (g i)
      (λ x u. bind-Safe (set_uint-HasType x i h k) (λ r' k'. each-HasType f n (suc i) r' h g k'))

module _ {t s s' : ValueType} {a b r : TypedValue} where
  pub binary-HasType :
      (f : ℕ → ℕ → ℕ)
      → IsInt t
      → IsInt s
      → IsInt s'
      → HasType s a
      → HasType s' b
      → HasType t r
      → Safe (HasType t) (binary f a b r)
  unfolding binary
  binary-HasType f h ha hb ka kb k =
      each-HasType _ r.num 0 r h
        (λ j.
          bind-Safe (get_uint-Returns j ha ka)
            (λ x u. bind-Safe (get_uint-Returns j hb kb) (λ y u. runs tt)))
        k

  pub binary_signed-HasType :
      (f : ℕ → ℕ → ℕ)
      → IsInt t
      → IsInt s
      → IsInt s'
      → HasType s a
      → HasType s' b
      → HasType t r
      → Safe (HasType t) (binary_signed f a b r)
  unfolding binary_signed
  binary_signed-HasType f h ha hb ka kb k =
      each-HasType _ r.num 0 r h
        (λ j.
          bind-Safe (get_sint-Returns j ha ka)
            (λ x u. bind-Safe (get_sint-Returns j hb kb) (λ y u. runs tt)))
        k

  ashr-HasType :
      IsInt t
      → IsInt s
      → IsInt s'
      → HasType s a
      → HasType s' b
      → HasType t r
      → Safe (HasType t) (ashr a b r)
  unfolding ashr
  ashr-HasType h ha hb ka kb k =
      each-HasType _ r.num 0 r h
        (λ j.
          bind-Safe (get_sint-Returns j ha ka)
            (λ x u. bind-Safe (get_uint-Returns j hb kb) (λ y u. runs tt)))
        k

  pub icmp-HasType :
      (p : Predicate)
      → is_int_predicate p ≡ true
      → IsInt t
      → IsInt s
      → IsInt s'
      → HasType s a
      → HasType s' b
      → HasType t r
      → Safe (HasType t) (icmp p a b r)
  unfolding icmp
  icmp-HasType p d h ha hb ka kb k =
      each-HasType _ r.num 0 r h
        (λ j. bind-Safe (get_uint-Returns j ha ka) (λ ua u.
          bind-Safe (get_uint-Returns j hb kb) (λ ub u.
            bind-Safe (get_sint-Returns j ha ka)
              (λ sa u. bind-Safe (get_sint-Returns j hb kb) (λ sb u. rw d (runs tt))))))
        k

  pub int_op-HasType :
      (op : IntOp)
      → IsInt t
      → IsInt s
      → IsInt s'
      → HasType s a
      → HasType s' b
      → HasType t r
      → Safe (HasType t) (int_op op a b r)
  unfolding int_op shl lshr sdiv srem
  int_op-HasType op_add = binary-HasType _
  int_op-HasType op_sub = binary-HasType _
  int_op-HasType op_mul = binary-HasType _
  int_op-HasType op_and = binary-HasType _
  int_op-HasType op_or = binary-HasType _
  int_op-HasType op_xor = binary-HasType _
  int_op-HasType op_udiv = binary-HasType _
  int_op-HasType op_urem = binary-HasType _
  int_op-HasType op_sdiv = binary_signed-HasType _
  int_op-HasType op_srem = binary_signed-HasType _
  int_op-HasType op_shl = binary-HasType _
  int_op-HasType op_lshr = binary-HasType _
  int_op-HasType op_ashr = ashr-HasType

inttoptr-HasType :
    {t s : ValueType} (n i : ℕ) (a r : TypedValue)
    → t.0 ≡ 8
    → IsInt s
    → HasType s a
    → HasType t r
    → Safe (HasType t) (inttoptr n i a r)
unfolding inttoptr
inttoptr-HasType zero i a r h ha ka k = runs k
inttoptr-HasType (suc n) i a r h ha ka k = bind-Safe (get_uint-Returns i ha ka) (λ x u.
    bind-Safe (set_pointer-HasType x i h k) (λ r' k'. inttoptr-HasType n (suc i) a r' h ha ka k'))

pub copy_value-HasType :
    {t : ValueType} (a r : TypedValue) → HasType t r → HasType t (copy_value a r)
unfolding copy_value
copy_value-HasType a r k = fill-HasType 0 _ k

pub unary-HasType :
    {s t : ValueType} {a r : TypedValue} (f : ℕ → ℕ)
    → IsInt s
    → IsInt t
    → HasType s a
    → HasType t r
    → Safe (HasType t) (unary f a r)
unfolding unary
unary-HasType {r = r} f ha h ka k =
    each-HasType _ r.num 0 r h (λ j. bind-Safe (get_uint-Returns j ha ka) (λ x u. runs tt)) k

pub convert-HasType :
    {s t : ValueType} (c : Conversion) (a r : TypedValue)
    → Converts c s t
    → HasType s a
    → HasType t r
    → Safe (HasType t) (convert c a r)
unfolding convert ptrtoint sext
convert-HasType to_trunc a r h ka k = unary-HasType (λ x. x) h.0 h.1 ka k
convert-HasType to_zext a r h ka k = unary-HasType (λ x. x) h.0 h.1 ka k
convert-HasType to_pointer a r h ka k = inttoptr-HasType r.num 0 a r h.1 h.0 ka k
convert-HasType of_pointer a r h ka k =
    each-HasType _ r.num 0 r h.1 (λ j. get_pointer-Returns j h.0 ka) k
convert-HasType to_copy a r h ka k = runs (copy_value-HasType a r k)
convert-HasType (to_sext is_bit) a r h ka k =
    each-HasType _ r.num 0 r h.1 (λ j. bind-Safe (get_sint-Returns j h.0 ka) (λ x u. runs tt)) k

pub select-HasType :
    {t s : ValueType} (is_vector : Bool) (c x y : TypedValue) (n i : ℕ) (r : TypedValue)
    → IsInt s
    → HasType s c
    → HasType t r
    → Safe (HasType t) (select is_vector c x y n i r)
unfolding select
select-HasType is_vector c x y zero i r h kc k = runs k
select-HasType is_vector c x y (suc n) i r h kc k =
    bind-Safe (get_uint-Returns (if is_vector then i else 0) h kc)
      (λ v u. select-HasType is_vector c x y n (suc i) _ h kc (fill-HasType (i * r.size) _ k))

pub shuffle-HasType :
    {t : ValueType} (mask : List (Option ℕ)) (i : ℕ) (a b : TypedValue) (num : ℕ) (r : TypedValue)
    → HasType t r
    → HasType t (shuffle mask i a b num r)
unfolding shuffle
shuffle-HasType [] i a b num r k = k
shuffle-HasType (none ∷ mask) i a b num r k = shuffle-HasType mask (suc i) a b num r k
shuffle-HasType (some index ∷ mask) i a b num r k =
    shuffle-HasType mask (suc i) a b num _ (fill-HasType (i * r.size) _ k)

pub extractelem-HasType :
    {t s : ValueType} (v i r : TypedValue)
    → IsInt s
    → HasType s i
    → HasType t r
    → Safe (HasType t) (extractelem v i r)
unfolding extractelem
extractelem-HasType v i r h ki k =
    bind-Safe (get_uint-Returns 0 h ki) (λ x u. runs (fill-HasType 0 _ k))

pub insertelem-HasType :
    {t s : ValueType} (v new i r : TypedValue)
    → IsInt s
    → HasType s i
    → HasType t r
    → Safe (HasType t) (insertelem v new i r)
unfolding insertelem
insertelem-HasType v new i r h ki k =
    bind-Safe (get_uint-Returns 0 h ki)
      (λ x u. runs (fill-HasType (x % unsigned_mod * r.size) _ (copy_value-HasType v r k)))
