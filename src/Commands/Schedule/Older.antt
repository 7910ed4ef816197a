-- ===== src/Commands/Schedule/Older.antt =====
-- src/core/Queue.cpp: the command that stands before another in a queue, where a queue holds commands in
-- the order of their numbers.
use oclgrind.Base.{
  ℕ, ◌≡◌, ◌≢◌, ◌≤◌, ◌<◌, ◌⊎◌, inl, inr, refl, sym, ◌∙◌, subst, arith, true, ◌==◌, ==_iff,
  Bool-cases, List, [], ◌∷◌, none, some, All,
}
use oclgrind.Commands.Schedule.{preceding, erase}

abbrev pub In : ℕ → List ℕ → Type 0
In c [] = ⊥
In c (x ∷ xs) = (x ≡ c) ⊎ In c xs

abbrev pub Ascending : List ℕ → Type 0
Ascending [] = Unit
Ascending (x ∷ xs) = All (λ y. x < y) xs × Ascending xs

pub All-In : (P : ℕ → Type 0) (xs : List ℕ) (c : ℕ) → All P xs → In c xs → P c
All-In P [] c a i = absurd i
All-In P (x ∷ xs) c a (inl e) = subst P e a.0
All-In P (x ∷ xs) c a (inr i) = All-In P xs c a.1 i

eqb_refl : (c : ℕ) → (c == c) ≡ true
eqb_refl c = ground arith

module _ (c : ℕ) where
  pub All-erase : (P : ℕ → Type 0) (xs : List ℕ) → All P xs → All P (erase c xs)
  unfolding erase
  All-erase P [] a = tt
  All-erase P (x ∷ xs) a = elim (Bool-cases (x == c)) [
    | inl e ↦ rw e a.1
    | inr n ↦ rw n ((a.0, All-erase P xs a.1))
  ]

  pub Ascending-erase : (xs : List ℕ) → Ascending xs → Ascending (erase c xs)
  unfolding erase
  Ascending-erase [] a = tt
  Ascending-erase (x ∷ xs) a = elim (Bool-cases (x == c)) [
    | inl e ↦ rw e a.1
    | inr n ↦ rw n ((All-erase (λ y. x < y) xs a.0, Ascending-erase xs a.1))
  ]

  pub erase-ne : (xs : List ℕ) → Ascending xs → All (λ d. d ≢ c) (erase c xs)
  unfolding erase
  erase-ne [] a = tt
  erase-ne (x ∷ xs) a = elim (Bool-cases (x == c)) [
    | inl e ↦ rw e (later xs a.0 ((==_iff x c).0 e))
    | inr n ↦ rw n ((λ e. cc ((==_iff x c).1 e, n), erase-ne xs a.1))
  ]
    where
      later : (ys : List ℕ) → All (λ y. x < y) ys → x ≡ c → All (λ d. d ≢ c) ys
      later [] a e = tt
      later (y ∷ ys) a e = (λ z. omega (arith, a.0, e, z), later ys a.1 e)

  pub In-erase : (xs : List ℕ) (d : ℕ) → In d xs → d ≢ c → In d (erase c xs)
  unfolding erase
  In-erase [] d i ne = absurd i
  In-erase (x ∷ xs) d i ne = elim (Bool-cases (x == c)) [
    | inl e ↦ elim i [ inl f ↦ absurd (ne (sym f ∙ (==_iff x c).0 e)) | inr j ↦ rw e j ]
    | inr n ↦ elim i [ inl f ↦ rw n (inl f) | inr j ↦ rw n (inr (In-erase xs d j ne)) ]
  ]

-- `p` is the greatest element below `c`.
pub record Before (c p : ℕ) (xs : List ℕ) : Type 0 where
  pub inside : In p xs
  pub below : p < c
  pub greatest : (d : ℕ) → In d xs → d < c → d ≤ p

preceding-some :
    (x c : ℕ) (xs : List ℕ)
    → Ascending (x ∷ xs)
    → In c xs
    → (p : ℕ) × (preceding (some x) c xs ≡ some p) × Before c p (x ∷ xs)
unfolding preceding
preceding-some x c [] a i = absurd i
preceding-some x c (y ∷ ys) a i = elim (Bool-cases (y == c)) [
  | inl e ↦
      let f = (==_iff y c).0 e in
      (
        x,
        rw e refl,
        record { inside = inl refl; below = omega (arith, a.0.0, f); greatest = first f },
      )
  | inr n ↦
      let j : In c ys = elim i [ inl f ↦ absurd (cc ((==_iff y c).1 f, n)) | inr j ↦ j ] in
      let (p, e, b) = preceding-some y c ys a.1 j in
      (p, rw n e, record { inside = inr b.inside; below = b.below; greatest = rest p b j })
]
  where
    first : y ≡ c → (d : ℕ) → In d (x ∷ y ∷ ys) → d < c → d ≤ x
    first f d (inl e) lt = omega (arith, e)
    first f d (inr (inl e)) lt = absurd (omega (arith, e, f))
    first f d (inr (inr k)) lt = absurd (omega (arith, f, All-In (λ z. y < z) ys d a.1.0 k))

    rest : (p : ℕ) → Before c p (y ∷ ys) → In c ys → (d : ℕ) → In d (x ∷ y ∷ ys) → d < c → d ≤ p
    rest p b j d (inl e) lt =
        omega (arith, e, a.0.0, b.greatest y (inl refl) (All-In (λ z. y < z) ys c a.1.0 j))
    rest p b j d (inr k) lt = b.greatest d k lt

-- What std::prev finds for an element of a queue.
pub preceding_lem :
    (c : ℕ) (xs : List ℕ)
    → Ascending xs
    → In c xs
    → ((preceding none c xs ≡ none) × ((d : ℕ) → In d xs → d < c → ⊥))
      ⊎ ((p : ℕ) × (preceding none c xs ≡ some p) × Before c p xs)
unfolding preceding
preceding_lem c [] a i = absurd i
preceding_lem c (x ∷ xs) a i = elim (Bool-cases (x == c)) [
  | inl e ↦ inl (rw e refl, none_below ((==_iff x c).0 e))
  | inr n ↦
      let j : In c xs = elim i [ inl f ↦ absurd (cc ((==_iff x c).1 f, n)) | inr j ↦ j ] in
      let (p, e, b) = preceding-some x c xs a j in inr (p, rw n e, b)
]
  where
    none_below : x ≡ c → (d : ℕ) → In d (x ∷ xs) → d < c → ⊥
    none_below f d (inl e) lt = omega (arith, e, f)
    none_below f d (inr k) lt = omega (arith, f, All-In (λ z. x < z) xs d a.0 k)
