-- ===== src/Interpreter/Values/Laws.antt =====
-- src/core/common.cpp: what is set in a TypedValue is read from it, and a loop over its elements sets each of them.
use native.Mathlib.Nat.{
  pow-suc, mod-eq_of_lt, mod-lt, mod-add-div, add-mul-mod_self_left, mul_assoc,
}
use oclgrind.Base.{
  ℕ, zero, suc, ◌+◌, ◌*◌, ◌/◌, ◌%◌, ◌^◌, ◌≡◌, ◌≢◌, ◌≤◌, ◌<◌, ◌⊎◌, inl, inr, refl, sym, ap, ◌∙◌,
  subst, arith, true, List, [], ◌∷◌, All, Result, ok, length, slice, take, overwrite, length-slice,
  to_bytes, of_bytes, length-to_bytes, of_bytes-lt, length-overwrite, slice-overwrite,
  slice-overwrite_below, slice-overwrite_above, size_mod,
}
use oclgrind.Interpreter.Values.{
  Fatal, TypedValue, is_int_size, range, element, put_element, get_uint, get_sint, sign_extend,
  set_uint, each,
}

-- A vector of integers with an array of the size that it says.
pub record IsFull (v : TypedValue) : Type 0 where
  pub int_size : is_int_size v.size ≡ true
  pub full : length v.bytes ≡ v.num * v.size
  pub are_bytes : All (λ b. b < 256) v.bytes

-- The number in an element.
abbrev pub at : TypedValue → ℕ → ℕ
at v i = of_bytes (element v i)

pub get_uint_full : (v : TypedValue) (i : ℕ) → IsFull v → get_uint v i ≡ ok (at v i)
unfolding get_uint
get_uint_full v i f = rw (f.int_size, get_uint) refl

pub pow-lt : (n : ℕ) → 0 < 256 ^ n
pow-lt zero = omega arith
pow-lt (suc n) = omega (arith, pow-suc 256 n, pow-lt n)

pub get_sint_full :
    (v : TypedValue) (i : ℕ) → IsFull v → get_sint v i ≡ ok (sign_extend v.size (at v i))
unfolding get_sint
get_sint_full v i f = rw (f.int_size, get_sint) refl

-- The low bytes of a number are its remainder.
module _ (v n : ℕ) where
  abbrev low : ℕ
  low = v % 256 + 256 * (v / 256 % 256 ^ n)

  split : v ≡ low + 256 ^ suc n * (v / 256 / 256 ^ n)
  split =
      grind (arith, pow-suc 256 n, mod-add-div v 256, mod-add-div (v / 256) (256 ^ n), mul_assoc)

  low-lt : low < 256 ^ suc n
  low-lt = omega (arith, pow-suc 256 n, mod-lt (v / 256) (pow-lt n))

  low_lem : low ≡ v % 256 ^ suc n
  low_lem = sym (
      ap (λ x. x % 256 ^ suc n) split
      ∙ add-mul-mod_self_left low (256 ^ suc n) (v / 256 / 256 ^ n)
      ∙ mod-eq_of_lt low-lt)

pub of_bytes-to_bytes_mod : (n v : ℕ) → of_bytes (to_bytes n v) ≡ v % 256 ^ n
of_bytes-to_bytes_mod zero v = omega arith
of_bytes-to_bytes_mod (suc n) v =
    ap (λ x. v % 256 + 256 * x) (of_bytes-to_bytes_mod n (v / 256)) ∙ low_lem v n

ends : (i n s : ℕ) → i < n → i * s + s ≤ n * s
ends i n s h = grind arith

apart : (i j s : ℕ) → i < j → i * s + s ≤ j * s
apart i j s h = grind arith

-- What an element is set to is read back, cut to the size of the element.
pub at-put :
    (v : TypedValue) (x i : ℕ)
    → IsFull v
    → i < v.num
    → at (put_element v i (to_bytes v.size x)) i ≡ x % range v.size
at-put v x i f h =
    ap of_bytes (
      ap (λ n. slice (i * v.size) n (overwrite v.bytes (i * v.size) (to_bytes v.size x)))
        (sym (length-to_bytes v.size x))
      ∙ slice-overwrite v.bytes (i * v.size) (to_bytes v.size x)
          (omega (arith, length-to_bytes v.size x, f.full, ends i v.num v.size h)))
    ∙ of_bytes-to_bytes_mod v.size x

lt-or_gt : (i j : ℕ) → i ≢ j → (i < j) ⊎ (j < i)
lt-or_gt i j ne = ground arith

-- The other elements stay.
pub at-put_ne :
    (v : TypedValue) (x i j : ℕ)
    → IsFull v
    → i < v.num
    → j < v.num
    → i ≢ j
    → at (put_element v i (to_bytes v.size x)) j ≡ at v j
at-put_ne v x i j f h k ne = ap of_bytes (elim (lt-or_gt i j ne) [
  | inl l ↦
      slice-overwrite_above v.bytes (i * v.size) (j * v.size) v.size (to_bytes v.size x)
        (omega (arith, length-to_bytes v.size x, apart i j v.size l))
  | inr g ↦
      slice-overwrite_below v.bytes (i * v.size) (j * v.size) v.size (to_bytes v.size x)
        (apart j i v.size g)
])

abbrev pub AreBytes : List ℕ → Type 0
AreBytes = All (λ b. b < 256)

AreBytes-take : (n : ℕ) (xs : List ℕ) → AreBytes xs → AreBytes (take n xs)
AreBytes-take zero xs h = tt
AreBytes-take (suc n) [] h = tt
AreBytes-take (suc n) (x ∷ xs) h = (h.0, AreBytes-take n xs h.1)

AreBytes-slice : (i n : ℕ) (xs : List ℕ) → AreBytes xs → AreBytes (slice i n xs)
AreBytes-slice i n [] h = tt
AreBytes-slice zero n (x ∷ xs) h = AreBytes-take n (x ∷ xs) h
AreBytes-slice (suc i) n (x ∷ xs) h = AreBytes-slice i n xs h.1

AreBytes-overwrite :
    (xs : List ℕ) (i : ℕ) (src : List ℕ)
    → AreBytes xs
    → AreBytes src
    → AreBytes (overwrite xs i src)
AreBytes-overwrite [] i src h k = tt
AreBytes-overwrite (x ∷ xs) zero [] h k = h
AreBytes-overwrite (x ∷ xs) zero (s ∷ src) h k = (k.0, AreBytes-overwrite xs zero src h.1 k.1)
AreBytes-overwrite (x ∷ xs) (suc i) src h k = (h.0, AreBytes-overwrite xs i src h.1 k)

to_bytes-All : (n v : ℕ) → All (λ b. b < 256) (to_bytes n v)
to_bytes-All zero v = tt
to_bytes-All (suc n) v = (omega arith, to_bytes-All n (v / 256))

pub put-IsFull :
    (v : TypedValue) (x i : ℕ) → IsFull v → IsFull (put_element v i (to_bytes v.size x))
put-IsFull v x i f = record {
  int_size = f.int_size;
  full = length-overwrite v.bytes (i * v.size) (to_bytes v.size x) ∙ f.full;
  are_bytes =
      AreBytes-overwrite v.bytes (i * v.size) (to_bytes v.size x) f.are_bytes
        (to_bytes-All v.size x);
}

-- The number in an element is one of its size.
pub at-lt : (v : TypedValue) (i : ℕ) → IsFull v → i < v.num → at v i < range v.size
at-lt v i f h =
    subst (λ n. at v i < 256 ^ n)
      (length-slice (i * v.size) v.size v.bytes (omega (arith, f.full, ends i v.num v.size h)))
      (of_bytes-lt (element v i) (AreBytes-slice (i * v.size) v.size v.bytes f.are_bytes))

-- Arithmetic on 64 bits keeps the remainder at the size of an element.
pub int_size-cases : (n : ℕ) → is_int_size n ≡ true → (n ≡ 1) ⊎ ((n ≡ 2) ⊎ ((n ≡ 4) ⊎ (n ≡ 8)))
int_size-cases n h = ground arith

pub mod-size_mod : (n x : ℕ) → is_int_size n ≡ true → x % size_mod % range n ≡ x % range n
mod-size_mod n x h = elim (int_size-cases n h) [
  | inl e ↦ rw e (omega arith)
  | inr (inl e) ↦ rw e (omega arith)
  | inr (inr (inl e)) ↦ rw e (omega arith)
  | inr (inr (inr e)) ↦ rw e (omega arith)
]

-- A loop over the elements does not fail where its body does not, and sets each of them.
-- `Done f i n r t`: the loop set the elements from `i` to `i + n` of `r`, which gave `t`.
pub record Done (f : ℕ → ℕ) (i n : ℕ) (r t : TypedValue) : Type 0 where
  pub same_size : t.size ≡ r.size
  pub same_num : t.num ≡ r.num
  pub still_full : IsFull t
  pub is_set : (j : ℕ) → i ≤ j → j < i + n → at t j ≡ f j % range r.size
  pub is_kept : (j : ℕ) → j < i → at t j ≡ at r j

pub set_uint_full :
    (v : TypedValue) (x i : ℕ)
    → IsFull v
    → set_uint v x i ≡ ok (put_element v i (to_bytes v.size x))
unfolding set_uint
set_uint_full v x i f = rw (f.int_size, set_uint) refl

Done-suc :
    (f : ℕ → ℕ) (n i : ℕ) (r t : TypedValue)
    → IsFull r
    → i + suc n ≤ r.num
    → Done f (suc i) n (put_element r i (to_bytes r.size (f i))) t
    → Done f i (suc n) r t
Done-suc f n i r t full h d = record {
  same_size = d.same_size;
  same_num = d.same_num;
  still_full = d.still_full;
  is_set = λ j a b. elim (eq-or_lt i j a) [
    | inl e ↦
        subst (λ k. at t k ≡ f k % range r.size) e
          (d.is_kept i (omega arith) ∙ at-put r (f i) i full (omega arith))
    | inr l ↦ d.is_set j l (omega arith)
  ];
  is_kept = λ j a.
      d.is_kept j (omega arith)
      ∙ at-put_ne r (f i) i j full (omega arith) (omega arith) (λ e. absurd (omega arith));
}
  where
    eq-or_lt : (i j : ℕ) → i ≤ j → (i ≡ j) ⊎ (i < j)
    eq-or_lt i j h = ground arith

pub each-Done :
    (g : ℕ → Result Fatal ℕ) (f : ℕ → ℕ) (n i : ℕ) (r : TypedValue)
    → IsFull r
    → i + n ≤ r.num
    → ((j : ℕ) → j < i + n → g j ≡ ok (f j))
    → (t : TypedValue) × (each g n i r ≡ ok t) × Done f i n r t
unfolding each
each-Done g f zero i r full h ok_at = (
  r,
  refl,
  record {
    same_size = refl;
    same_num = refl;
    still_full = full;
    is_set = λ j a b. absurd (omega arith);
    is_kept = λ j a. refl;
  },
)
each-Done g f (suc n) i r full h ok_at =
    let u = put_element r i (to_bytes r.size (f i)) in
    let rest =
      each-Done g f n (suc i) u (put-IsFull r (f i) i full) (omega arith)
        (λ j l. ok_at j (omega arith)) in
    (
      rest.0,
      rw (ok_at i (omega arith), set_uint_full r (f i) i full) rest.1,
      Done-suc f n i r rest.0 full h rest.2,
    )
