-- ===== src/Interpreter/Builtins/Saturation.antt =====
-- src/core/WorkItemBuiltins.cpp: add_sat gives the sum, or the bound of the type that it passes.
use Prim.Native.Nat.{min}
use oclgrind.Base.{
  ℕ, ◌+◌, ◌-◌, ◌/◌, ◌%◌, ◌<◌, ◌≡◌, ◌≢◌, ◌⊎◌, refl, sym, ap, subst, ◌∙◌, arith, Result, ok, err,
  size_mod, ℤ, pos, negsuc, ◌+ℤ◌,
}
use oclgrind.Interpreter.Values.{Fatal, TypedValue, range, sign_extend}
use oclgrind.Interpreter.Values.Laws.{IsFull, at, each-Done, get_uint_full, get_sint_full}
use oclgrind.Interpreter.Integers.Elements.{IsLike, at-lt_like}
use oclgrind.Interpreter.Integers.Signed.{signed}
use oclgrind.Interpreter.Builtins.{
  ArgType, uchar, ushort, uint, ulong, char, short, int, long, other_type, type_size, is_unsigned,
  is_signed, unknown, signedness, add_sat, add_sat_element, add_sat_long, saturating,
}

-- The nearest number of the signed type of `n` bytes.
abbrev pub nearest : ℕ → ℤ → ℤ
nearest n (pos k) = pos (min k (range n / 2 - 1))
nearest n (negsuc k) = negsuc (min k (range n / 2 - 1))

-- `v` is the saturated sum of `u` and `w`.
abbrev pub Saturates : ArgType → ℕ → ℕ → ℕ → Type 0
Saturates t u w v = elim (signedness t) [
  | is_unsigned ↦ v ≡ min (u + w) (range (type_size t) - 1)
  | is_signed ↦
      signed (type_size t) v
      ≡ nearest (type_size t) (signed (type_size t) u +ℤ signed (type_size t) w)
  | unknown ↦ Unit
]

-- Not the sum of the least number of 64 bits with itself.
abbrev pub IsNotLeast : ArgType → ℕ → ℕ → Type 0
IsNotLeast long u w = (u ≢ size_mod / 2) ⊎ (w ≢ size_mod / 2)
IsNotLeast t u w = Unit

pub add_sat_element-Saturates :
    (t : ArgType) (u w : ℕ)
    → u < range (type_size t)
    → w < range (type_size t)
    → IsNotLeast t u w
    → signedness t ≢ unknown
    → (v : ℕ) × (add_sat_element t u w (sign_extend (type_size t) u) (sign_extend (type_size t) w)
        ≡ ok v)
      × Saturates t u w (v % range (type_size t))
unfolding add_sat_element add_sat_long
add_sat_element-Saturates uchar u w h k ne d = (_, refl, ground arith)
add_sat_element-Saturates ushort u w h k ne d = (_, refl, ground arith)
add_sat_element-Saturates uint u w h k ne d = (_, refl, ground arith)
add_sat_element-Saturates ulong u w h k ne d = (_, refl, ground arith)
add_sat_element-Saturates char u w h k ne d = (_, refl, ground arith)
add_sat_element-Saturates short u w h k ne d = (_, refl, ground arith)
add_sat_element-Saturates int u w h k ne d = (_, refl, ground arith)
add_sat_element-Saturates long u w h k ne d = (_, refl, ground arith)
add_sat_element-Saturates other_type u w h k ne d = absurd (d refl)

value_of : Result Fatal ℕ → ℕ
value_of (ok v) = v
value_of (err code) = 0

value_of_lem : (r : Result Fatal ℕ) {v : ℕ} → r ≡ ok v → r ≡ ok (value_of r)
unfolding value_of
value_of_lem r e = rw e refl

-- For vectors of the type of the overload, in which no two elements are both the least number of
-- 64 bits, add_sat succeeds, and an element is the sum of the two numbers, or the bound of the
-- type that the sum passes.
pub add_sat-Saturates :
    (t : ArgType) (a b r : TypedValue) (i : ℕ)
    → signedness t ≢ unknown
    → type_size t ≡ r.size
    → IsFull r
    → IsLike r a
    → IsLike r b
    → i < r.num
    → ((j : ℕ) → j < r.num → IsNotLeast t (at a j) (at b j))
    → (s : TypedValue) × (add_sat t a b r ≡ ok s) × Saturates t (at a i) (at b i) (at s i)
unfolding saturating value_of
add_sat-Saturates t a b r i d e f ka kb l ne =
    let given = each-Done _ value r.num 0 r f (omega arith) (λ j k.
      rw
        (
          get_uint_full a j ka.is_full,
          get_uint_full b j kb.is_full,
          get_sint_full a j ka.is_full,
          get_sint_full b j kb.is_full,
        )
        (runs j (omega arith))) in
    let element = element_lem i l in
    (
      given.0,
      given.1,
      subst (Saturates t (at a i) (at b i))
          (sym (
            given.2.is_set i (omega arith) (omega arith)
            ∙ ap (λ x. x % range r.size) (ap value_of element.1)
            ∙ ap (λ n. element.0 % range n) (sym e)))
          element.2,
    )
  where
    result : ℕ → Result Fatal ℕ
    result j =
        add_sat_element t (at a j) (at b j) (sign_extend a.size (at a j))
          (sign_extend b.size (at b j))

    value : ℕ → ℕ
    value j = value_of (result j)

    below : (c : TypedValue) → IsLike r c → (j : ℕ) → j < r.num → at c j < range (type_size t)
    below c k j l = subst (λ n. at c j < range n) (sym e) (at-lt_like r c j k l)

    Element : ℕ → Result Fatal ℕ → Type 0
    Element j o = (v : ℕ) × (o ≡ ok v) × Saturates t (at a j) (at b j) (v % range (type_size t))

    element_lem : (j : ℕ) → j < r.num → Element j (result j)
    element_lem j l =
        subst
          (λ n. Element j (
            add_sat_element t (at a j) (at b j) (sign_extend n (at a j))
              (sign_extend b.size (at b j))))
          (e ∙ sym ka.like_size)
          (subst
            (λ n. Element j (
              add_sat_element t (at a j) (at b j) (sign_extend (type_size t) (at a j))
                (sign_extend n (at b j))))
            (e ∙ sym kb.like_size)
            (add_sat_element-Saturates t (at a j) (at b j) (below a ka j l) (below b kb j l)
              (ne j l) d))

    runs : (j : ℕ) → j < r.num → result j ≡ ok (value j)
    runs j l = value_of_lem (result j) (element_lem j l).1
