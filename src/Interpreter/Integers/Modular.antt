-- ===== src/Interpreter/Integers/Modular.antt =====
-- src/core/WorkItem.cpp: add, sub and mul are the operations of the integers modulo 2^w, though the code computes in
-- 64 bits; udiv and urem are those of the numbers.
use native.Mathlib.Nat.{mod-eq_of_lt, mod-lt, mod-le, div-le_self, div-add-mod}
use oclgrind.Base.{
  ℕ, ◌+◌, ◌-◌, ◌*◌, ◌/◌, ◌%◌, ◌<◌, ◌≡◌, ◌≢◌, inl, inr, ◌⊎◌, sym, subst, ◌∙◌, arith, true, ◌==◌,
  if◌then◌else◌, ok, size_mod,
}
use oclgrind.Interpreter.Values.{TypedValue, range, is_int_size}
use oclgrind.Interpreter.Values.Laws.{IsFull, at, mod-size_mod, int_size-cases}
use oclgrind.Interpreter.Integers.{binary, add, sub, mul, udiv, urem}
use oclgrind.Interpreter.Integers.Elements.{Sets, Gives-Sets, binary-Gives, IsLike, at-lt_like}

sub-mod :
    (n x y : ℕ)
    → is_int_size n ≡ true
    → y < range n
    → (x + size_mod - y) % size_mod % range n ≡ (x + (range n - y)) % range n
sub-mod n x y h l = mod-size_mod n (x + size_mod - y) h ∙ elim (int_size-cases n h) [
  | inl e ↦ cut 1 e (λ k. omega arith)
  | inr (inl e) ↦ cut 2 e (λ k. omega arith)
  | inr (inr (inl e)) ↦ cut 4 e (λ k. omega arith)
  | inr (inr (inr e)) ↦ cut 8 e (λ k. omega arith)
]
  where
    cut :
        (m : ℕ)
        → n ≡ m
        → (y < range m → (x + size_mod - y) % range m ≡ (x + (range m - y)) % range m)
        → (x + size_mod - y) % range n ≡ (x + (range n - y)) % range n
    cut m e k =
        subst (λ m. (x + size_mod - y) % range m ≡ (x + (range m - y)) % range m) (sym e)
          (k (subst (λ m. y < range m) e l))

-- For vectors of one integer type, add, sub and mul succeed, and their elements are the sum, the
-- difference and the product modulo 2^w, for the width w of the type.
pub arithmetic_mod :
    (a b r : TypedValue) (i : ℕ)
    → IsFull r
    → IsLike r a
    → IsLike r b
    → i < r.num
    → Sets (add a b r) i ((at a i + at b i) % range r.size)
      × Sets (sub a b r) i ((at a i + (range r.size - at b i)) % range r.size)
      × Sets (mul a b r) i (at a i * at b i % range r.size)
arithmetic_mod a b r i f ka kb l = (
  cut (λ x y. (x + y) % size_mod) (mod-size_mod r.size (at a i + at b i) f.int_size),
  cut (λ x y. (x + size_mod - y) % size_mod)
      (sub-mod r.size (at a i) (at b i) f.int_size (at-lt_like r b i kb l)),
  cut (λ x y. x * y % size_mod) (mod-size_mod r.size (at a i * at b i) f.int_size),
)
  where
    cut :
        (g : ℕ → ℕ → ℕ) {v : ℕ} → g (at a i) (at b i) % range r.size ≡ v → Sets (binary g a b r) i v
    cut g e =
        let given = Gives-Sets _ r _ i (binary-Gives g a b r ka.is_full kb.is_full f) l in
        (given.0, given.1, given.2 ∙ e)

guarded : (v y n : ℕ) → v < n → y ≢ 0 → (if y == 0 then 0 else v) % n ≡ v
guarded v y n l ne = if_else ∙ mod-eq_of_lt l
  where
    if_else : (if y == 0 then 0 else v) % n ≡ v % n
    if_else = ground arith

nothing : (y v n : ℕ) → 0 < n → y ≡ 0 → (if y == 0 then 0 else v) % n ≡ 0
nothing y v n l e = if_then ∙ mod-eq_of_lt l
  where
    if_then : (if y == 0 then 0 else v) % n ≡ 0 % n
    if_then = ground arith

-- What division by `y` gives in an element, and what a division by zero gives.
abbrev pub Divides : ℕ → ℕ → ℕ → ℕ → Type 0
Divides x y q m = ((y ≢ 0) × (y * q + m ≡ x) × (m < y)) ⊎ ((y ≡ 0) × (q ≡ 0) × (m ≡ 0))

Divides_lem :
    (x y n q m : ℕ)
    → x < n
    → q ≡ (if y == 0 then 0 else x / y) % n
    → m ≡ (if y == 0 then 0 else x % y) % n
    → Divides x y q m
Divides_lem x y n q m l eq em = elim (zero-cases y) [
  | inl e ↦
      inr (e, eq ∙ nothing y (x / y) n (omega arith) e, em ∙ nothing y (x % y) n (omega arith) e)
  | inr ne ↦
      let eq' = eq ∙ guarded (x / y) y n (omega (arith, div-le_self x y)) ne in
      let em' = em ∙ guarded (x % y) y n (omega (arith, mod-le x y)) ne in
      inl (ne, rw (eq', em') (div-add-mod x y), rw em' (mod-lt x (pos_of_ne ne)))
]
  where
    zero-cases : (y : ℕ) → (y ≡ 0) ⊎ (y ≢ 0)
    zero-cases y = ground arith

    pos_of_ne : {y : ℕ} → y ≢ 0 → 0 < y
    pos_of_ne ne = ground arith

-- For vectors of one integer type, udiv and urem succeed: their elements are the quotient and the
-- remainder, and both are 0 where the divisor is.
pub udiv-urem :
    (a b r : TypedValue) (i : ℕ)
    → IsFull r
    → IsLike r a
    → IsLike r b
    → i < r.num
    → (q m : TypedValue) × (udiv a b r ≡ ok q)
      × (urem a b r ≡ ok m)
      × Divides (at a i) (at b i) (at q i) (at m i)
udiv-urem a b r i f ka kb l =
    let q =
      Gives-Sets _ r _ i
        (binary-Gives (λ x y. if y == 0 then 0 else x / y) a b r ka.is_full kb.is_full f) l in
    let m =
      Gives-Sets _ r _ i
        (binary-Gives (λ x y. if y == 0 then 0 else x % y) a b r ka.is_full kb.is_full f) l in
    (
      q.0,
      m.0,
      q.1,
      m.1,
      Divides_lem (at a i) (at b i) (range r.size) (at q.0 i) (at m.0 i) (at-lt_like r a i ka l) q.2
          m.2,
    )
