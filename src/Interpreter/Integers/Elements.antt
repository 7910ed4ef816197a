-- ===== src/Interpreter/Integers/Elements.antt =====
-- src/core/WorkItem.cpp: the loops of the integer instructions do not fail on vectors of integers, and set each element.
use oclgrind.Base.{ℕ, ◌<◌, ◌≡◌, ◌∙◌, refl, sym, subst, Result, ok, ◌%◌, arith}
use oclgrind.Interpreter.Values.{Fatal, TypedValue, range, sign_extend}
use oclgrind.Interpreter.Values.Laws.{
  IsFull, at, Done, each-Done, get_uint_full, get_sint_full, at-lt,
}
use oclgrind.Interpreter.Integers.{binary, binary_signed, unary}

-- The instruction gives a vector with the elements `f 0`, `f 1`, ..., cut to their size.
abbrev pub Gives : Result Fatal TypedValue → TypedValue → (ℕ → ℕ) → Type 0
Gives result r f = (t : TypedValue) × (result ≡ ok t) × Done f 0 r.num r t

-- The instruction gives a vector with `v` as its element `i`.
abbrev pub Sets : Result Fatal TypedValue → ℕ → ℕ → Type 0
Sets result i v = (t : TypedValue) × (result ≡ ok t) × (at t i ≡ v)

pub Gives-Sets :
    (result : Result Fatal TypedValue) (r : TypedValue) (f : ℕ → ℕ) (i : ℕ)
    → Gives result r f
    → i < r.num
    → Sets result i (f i % range r.size)
Gives-Sets result r f i given l = (given.0, given.1, given.2.is_set i (omega arith) (omega arith))

module _ (f : ℕ → ℕ → ℕ) (a b r : TypedValue) where
  pub binary-Gives :
      IsFull a → IsFull b → IsFull r → Gives (binary f a b r) r (λ i. f (at a i) (at b i))
  unfolding binary
  binary-Gives fa fb fr =
      each-Done _ (λ i. f (at a i) (at b i)) r.num 0 r fr (omega arith)
        (λ j l. rw (get_uint_full a j fa, get_uint_full b j fb) refl)

  pub binary_signed-Gives :
      IsFull a
      → IsFull b
      → IsFull r
      → Gives
          (binary_signed f a b r)
          r
          (λ i. f (sign_extend a.size (at a i)) (sign_extend b.size (at b i)))
  unfolding binary_signed
  binary_signed-Gives fa fb fr =
      each-Done _ (λ i. f (sign_extend a.size (at a i)) (sign_extend b.size (at b i))) r.num 0 r fr
        (omega arith) (λ j l. rw (get_sint_full a j fa, get_sint_full b j fb) refl)

pub unary-Gives :
    (f : ℕ → ℕ) (a r : TypedValue) → IsFull a → IsFull r → Gives (unary f a r) r (λ i. f (at a i))
unfolding unary
unary-Gives f a r fa fr =
    each-Done _ (λ i. f (at a i)) r.num 0 r fr (omega arith) (λ j l. rw (get_uint_full a j fa) refl)

pub Gives-ap :
    (result : Result Fatal TypedValue) (r : TypedValue) (f g : ℕ → ℕ)
    → ((i : ℕ) → i < r.num → f i % range r.size ≡ g i % range r.size)
    → Gives result r f
    → Gives result r g
Gives-ap result r f g same given = (
  given.0,
  given.1,
  record {
    same_size = given.2.same_size;
    same_num = given.2.same_num;
    still_full = given.2.still_full;
    is_set = λ j a b. given.2.is_set j a b ∙ same j (omega arith);
    is_kept = λ j l. given.2.is_kept j l;
  },
)

-- A vector of integers with the elements of another's type, as many.
pub record IsLike (r a : TypedValue) : Type 0 where
  pub is_full : IsFull a
  pub like_size : a.size ≡ r.size
  pub like_num : a.num ≡ r.num

pub at-lt_like : (r a : TypedValue) (i : ℕ) → IsLike r a → i < r.num → at a i < range r.size
at-lt_like r a i k l =
    subst (λ n. at a i < range n) k.like_size
      (at-lt a i k.is_full (subst (λ n. i < n) (sym k.like_num) l))
