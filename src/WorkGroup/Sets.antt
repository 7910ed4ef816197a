-- ===== src/WorkGroup/Sets.antt =====
-- src/core/WorkGroup.cpp: sets of work-items in the order of WorkItemCmp.
use oclgrind.Base.{
  ◌≡◌, ◌≢◌, ◌⊎◌, ◌↔◌, inl, inr, sym, ap, ◌∙◌, arith, Bool, true, false, not, ◌||◌, ◌==◌,
  if◌then◌else◌, ltb, Bool-cases, List, [], ◌∷◌,
}
use oclgrind.NdRange.{Size3}

-- WorkItemCmp, on the global identifiers of two work-items.
unfoldable pub precedes : Size3 → Size3 → Bool
precedes a b =
    if not (a.z == b.z) then ltb a.z b.z else if not (a.y == b.y) then ltb a.y b.y else ltb a.x b.x

-- A std::set of work-items, ordered by that: a work-item stands for its identifier.
unfoldable pub insert_item : Size3 → List Size3 → List Size3
insert_item i [] = i ∷ []
insert_item i (x ∷ xs) =
    let rest = insert_item i xs in
    if precedes i x then i ∷ x ∷ xs else if precedes x i then x ∷ rest else x ∷ xs

-- `erase` of a key: the elements that are neither before nor after it.
pub erase_item : Size3 → List Size3 → List Size3
erase_item i [] = []
erase_item i (x ∷ xs) =
    let rest = erase_item i xs in if precedes i x || precedes x i then x ∷ rest else rest

-- `count`
pub has_item : Size3 → List Size3 → Bool
has_item i [] = false
has_item i (x ∷ xs) =
    let rest = has_item i xs in if precedes i x || precedes x i then rest else true

-- The work-item is an element.
abbrev pub In : Size3 → List Size3 → Type 0
In i [] = ⊥
In i (x ∷ xs) = (i ≡ x) ⊎ In i xs

equal_coordinates :
    (a b : Size3)
    → precedes a b ≡ false
    → precedes b a ≡ false
    → (a.x ≡ b.x) × (a.y ≡ b.y) × (a.z ≡ b.z)
unfolding precedes
equal_coordinates a b h k = (ground arith, ground arith, ground arith)

same_item : (a b : Size3) → precedes a b ≡ false → precedes b a ≡ false → a ≡ b
same_item a b h k =
    let (ex, ey, ez) = equal_coordinates a b h k in λ i. record { x = ex i; y = ey i; z = ez i }

precedes_irrefl : (i x : Size3) → i ≡ x → (precedes i x || precedes x i) ≡ false
unfolding precedes
precedes_irrefl i x e = ground (arith, ap (λ p. p.x) e, ap (λ p. p.y) e, ap (λ p. p.z) e)

swap : {A B C : Type 0} (X : Type 0) → (A ↔ (B ⊎ C)) → ((X ⊎ A) ↔ (B ⊎ (X ⊎ C)))
swap {A} {B} {C} X (to, from) = (there, back)
  where
    there : X ⊎ A → B ⊎ (X ⊎ C)
    there (inl x) = inr (inl x)
    there (inr a) = elim (to a) [ inl b ↦ inl b | inr c ↦ inr (inr c) ]

    back : B ⊎ (X ⊎ C) → X ⊎ A
    back (inl b) = inr (from (inl b))
    back (inr (inl x)) = inl x
    back (inr (inr c)) = inr (from (inr c))

absorbed : {i j x : Size3} {C : Type 0} → i ≡ x → ((j ≡ x) ⊎ C) ↔ ((j ≡ i) ⊎ ((j ≡ x) ⊎ C))
absorbed {i} {j} {x} {C} e = (inr, back)
  where
    back : (j ≡ i) ⊎ ((j ≡ x) ⊎ C) → (j ≡ x) ⊎ C
    back (inl f) = inl (f ∙ e)
    back (inr h) = h

kept :
    {i j x : Size3} {A C : Type 0}
    → i ≢ x
    → (A ↔ ((j ≢ i) × C))
    → ((j ≡ x) ⊎ A) ↔ ((j ≢ i) × ((j ≡ x) ⊎ C))
kept {i} {j} {x} {A} {C} ne (to, from) = (there, back)
  where
    there : (j ≡ x) ⊎ A → (j ≢ i) × ((j ≡ x) ⊎ C)
    there (inl e) = (λ f. ne (sym f ∙ e), inl e)
    there (inr a) = ((to a).0, inr (to a).1)

    back : (j ≢ i) × ((j ≡ x) ⊎ C) → (j ≡ x) ⊎ A
    back (n, inl e) = inl e
    back (n, inr c) = inr (from (n, c))

dropped :
    {i j x : Size3} {A C : Type 0} → i ≡ x → (A ↔ ((j ≢ i) × C)) → A ↔ ((j ≢ i) × ((j ≡ x) ⊎ C))
dropped {i} {j} {x} {A} {C} e (to, from) = (λ a. ((to a).0, inr (to a).1), back)
  where
    back : (j ≢ i) × ((j ≡ x) ⊎ C) → A
    back (n, inl f) = absurd (n (f ∙ sym e))
    back (n, inr c) = from (n, c)

pub In-insert_item : (i j : Size3) (xs : List Size3) → In j (insert_item i xs) ↔ ((j ≡ i) ⊎ In j xs)
unfolding insert_item
In-insert_item i j [] = (λ h. h, λ h. h)
In-insert_item i j (x ∷ xs) = elim (Bool-cases (precedes i x)) [
  | inl e ↦ rw e ((λ h. h, λ h. h))
  | inr n ↦ elim (Bool-cases (precedes x i)) [
    | inl e ↦ rw (n, e) (swap (j ≡ x) (In-insert_item i j xs))
    | inr m ↦ rw (n, m) (absorbed (same_item i x n m))
  ]
]

pub In-erase_item : (i j : Size3) (xs : List Size3) → In j (erase_item i xs) ↔ ((j ≢ i) × In j xs)
unfolding erase_item
In-erase_item i j [] = (λ h. absurd h, λ h. h.1)
In-erase_item i j (x ∷ xs) = elim (Bool-cases (precedes i x || precedes x i)) [
  | inl e ↦ rw e (kept (λ s. cc (precedes_irrefl i x s, e)) (In-erase_item i j xs))
  | inr n ↦ rw n (dropped (same_item i x (ground arith) (ground arith)) (In-erase_item i j xs))
]

pub equal_or_not :
    (i j : Size3)
    → ((i ≡ j) × ((precedes i j || precedes j i) ≡ false))
      ⊎ ((i ≢ j) × ((precedes i j || precedes j i) ≡ true))
equal_or_not i j = elim (Bool-cases (precedes i j || precedes j i)) [
  | inl e ↦ inr ((λ s. cc (precedes_irrefl i j s, e), e))
  | inr n ↦ inl ((same_item i j (ground arith) (ground arith), n))
]
