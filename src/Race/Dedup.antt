-- ===== src/Race/Dedup.antt =====
-- src/plugins/RaceDetector.cpp: `insertRace` keeps one race of each kind, at the lowest address.
use oclgrind.Base.{
  ℕ, ◌≤◌, ◌≡◌, ◌↔◌, ◌⊎◌, inl, inr, refl, sym, ◌∙◌, arith, true, false, ◌&&◌, ltb, Bool-cases,
  ltb→lt, List, [], ◌∷◌, ◌++◌, All, All-append,
}
use oclgrind.Race.{MemoryAccess, Race, equal, same_race, insert_race}

-- What `operator==` compares.
abbrev Key : Type 0
Key = ℕ × ℕ × ℕ

abbrev key : MemoryAccess → Key
key a = (a.entity, a.instruction, a.info)

equal_iff : (a b : MemoryAccess) → (equal a b ≡ true) ↔ (key a ≡ key b)
unfolding equal
equal_iff a b = ground arith

abbrev SameKeys : Race → Race → Type 0
SameKeys r x =
    ((key r.a ≡ key x.a) × (key r.b ≡ key x.b)) ⊎ ((key r.a ≡ key x.b) × (key r.b ≡ key x.a))

same_race→keys : (r x : Race) → same_race r x ≡ true → SameKeys r x
unfolding same_race
same_race→keys r x h = elim (Bool-cases (equal r.a x.a && equal r.b x.b)) [
  | inl e ↦ inl ((equal_iff r.a x.a).0 (ground arith), (equal_iff r.b x.b).0 (ground arith))
  | inr n ↦ inr ((equal_iff r.a x.b).0 (ground arith), (equal_iff r.b x.a).0 (ground arith))
]

keys→same_race : (r x : Race) → SameKeys r x → same_race r x ≡ true
unfolding same_race
keys→same_race r x (inl (e, f)) = rw ((equal_iff r.a x.a).1 e, (equal_iff r.b x.b).1 f)
keys→same_race r x (inr (e, f)) = ground (arith, (equal_iff r.a x.b).1 e, (equal_iff r.b x.a).1 f)

SameKeys-trans : (r x y : Race) → SameKeys r x → SameKeys x y → SameKeys r y
SameKeys-trans r x y (inl (e, f)) (inl (g, h)) = inl (e ∙ g, f ∙ h)
SameKeys-trans r x y (inl (e, f)) (inr (g, h)) = inr (e ∙ g, f ∙ h)
SameKeys-trans r x y (inr (e, f)) (inl (g, h)) = inr (e ∙ h, f ∙ g)
SameKeys-trans r x y (inr (e, f)) (inr (g, h)) = inl (e ∙ h, f ∙ g)

SameKeys-symm : (r x : Race) → SameKeys r x → SameKeys x r
SameKeys-symm r x (inl (e, f)) = inl (sym e, sym f)
SameKeys-symm r x (inr (e, f)) = inr (sym f, sym e)

same_race_trans :
    (r x y : Race) → same_race r x ≡ true → same_race x y ≡ true → same_race r y ≡ true
same_race_trans r x y h k =
    keys→same_race r y (SameKeys-trans r x y (same_race→keys r x h) (same_race→keys x y k))

same_race_symm : (r x : Race) → same_race r x ≡ true → same_race x r ≡ true
same_race_symm r x h = keys→same_race x r (SameKeys-symm r x (same_race→keys r x h))

pub same_race_self : (r : Race) → same_race r r ≡ true
same_race_self r = keys→same_race r r (inl (refl, refl))

-- No two races of the list are equal modulo address.
abbrev pub Unequal : List Race → Type 0
Unequal [] = Unit
Unequal (x ∷ xs) = All (λ y. same_race x y ≡ false) xs × Unequal xs

-- The list has a race equal to `r` modulo address, at an address that is not higher.
abbrev pub Has : List Race → Race → Type 0
Has [] r = ⊥
Has (x ∷ xs) r = ((same_race r x ≡ true) × (x.address ≤ r.address)) ⊎ Has xs r

pub Has-append_left : (xs ys : List Race) (r : Race) → Has xs r → Has (xs ++ ys) r
Has-append_left (x ∷ xs) ys r (inl h) = inl h
Has-append_left (x ∷ xs) ys r (inr h) = inr (Has-append_left xs ys r h)
Has-append_left [] ys r h = absurd h

pub Has-append_right : (xs ys : List Race) (r : Race) → Has ys r → Has (xs ++ ys) r
Has-append_right [] ys r h = h
Has-append_right (x ∷ xs) ys r h = inr (Has-append_right xs ys r h)

pub insert_race-Has_self : (xs : List Race) (r : Race) → Has (insert_race xs r) r
unfolding insert_race
insert_race-Has_self [] r = inl (same_race_self r, omega arith)
insert_race-Has_self (x ∷ xs) r = elim (Bool-cases (same_race r x)) [
  | inl e ↦ elim (Bool-cases (ltb r.address x.address)) [
    | inl lower ↦
        rw (e, lower) (Has-append_right xs (r ∷ []) r (inl (same_race_self r, omega arith)))
    | inr higher ↦ rw (e, higher) (inl (e, ground arith))
  ]
  | inr n ↦ rw n (inr (insert_race-Has_self xs r))
]

pub insert_race-Has : (xs : List Race) (r z : Race) → Has xs z → Has (insert_race xs r) z
unfolding insert_race
insert_race-Has [] r z h = absurd h
insert_race-Has (x ∷ xs) r z (inl h) = elim (Bool-cases (same_race r x)) [
  | inl e ↦ elim (Bool-cases (ltb r.address x.address)) [
    | inl lower ↦
        rw (e, lower)
          (Has-append_right xs (r ∷ []) z (
            inl (
              same_race_trans z x r h.0 (same_race_symm r x e),
              omega (arith, ltb→lt _ _ lower, h.1),
            )))
    | inr higher ↦ rw (e, higher) (inl h)
  ]
  | inr n ↦ rw n (inl h)
]
insert_race-Has (x ∷ xs) r z (inr h) = elim (Bool-cases (same_race r x)) [
  | inl e ↦ elim (Bool-cases (ltb r.address x.address)) [
    | inl lower ↦ rw (e, lower) (Has-append_left xs (r ∷ []) z h)
    | inr higher ↦ rw (e, higher) (inr h)
  ]
  | inr n ↦ rw n (inr (insert_race-Has xs r z h))
]

not_same : (x r y : Race) → same_race r x ≡ true → same_race x y ≡ false → same_race y r ≡ false
not_same x r y e n = elim (Bool-cases (same_race y r)) [
  | inl s ↦ cc (n, same_race_symm y x (same_race_trans y r x s e))
  | inr other ↦ other
]

Unequal-append :
    (xs : List Race) (r : Race)
    → Unequal xs
    → All (λ y. same_race y r ≡ false) xs
    → Unequal (xs ++ r ∷ [])
Unequal-append [] r d h = (tt, tt)
Unequal-append (x ∷ xs) r d h =
    (All-append _ xs (r ∷ []) d.0 (h.0, tt), Unequal-append xs r d.1 h.1)

apart_from :
    (x r : Race) (ys : List Race)
    → same_race r x ≡ true
    → All (λ y. same_race x y ≡ false) ys
    → All (λ y. same_race y r ≡ false) ys
apart_from x r [] e h = tt
apart_from x r (y ∷ ys) e h = (not_same x r y e h.0, apart_from x r ys e h.1)

symm_false : (r x : Race) → same_race r x ≡ false → same_race x r ≡ false
symm_false r x n = elim (Bool-cases (same_race x r)) [
  | inl s ↦ cc (n, same_race_symm x r s)
  | inr other ↦ other
]

-- What an earlier element is apart from stays apart from the result.
insert_race-apart :
    (x : Race) (xs : List Race) (r : Race)
    → same_race r x ≡ false
    → All (λ y. same_race x y ≡ false) xs
    → All (λ y. same_race x y ≡ false) (insert_race xs r)
unfolding insert_race
insert_race-apart x [] r n h = (symm_false r x n, tt)
insert_race-apart x (y ∷ ys) r n h = elim (Bool-cases (same_race r y)) [
  | inl e ↦ elim (Bool-cases (ltb r.address y.address)) [
    | inl lower ↦ rw (e, lower) (All-append _ ys (r ∷ []) h.1 (symm_false r x n, tt))
    | inr higher ↦ rw (e, higher) h
  ]
  | inr other ↦ rw other ((h.0, insert_race-apart x ys r n h.1))
]

pub insert_race-Unequal : (xs : List Race) (r : Race) → Unequal xs → Unequal (insert_race xs r)
unfolding insert_race
insert_race-Unequal [] r d = (tt, tt)
insert_race-Unequal (x ∷ xs) r d = elim (Bool-cases (same_race r x)) [
  | inl e ↦ elim (Bool-cases (ltb r.address x.address)) [
    | inl lower ↦ rw (e, lower) (Unequal-append xs r d.1 (apart_from x r xs e d.0))
    | inr higher ↦ rw (e, higher) d
  ]
  | inr n ↦ rw n ((insert_race-apart x xs r n d.0, insert_race-Unequal xs r d.1))
]

-- Inserted into a list without two races that are equal modulo address, a race leaves it so; the new race and
-- every race that the list had are still in it, modulo address, at an address that is not higher.
pub insert_race_lem :
    (xs : List Race) (r z : Race)
    → Unequal xs
    → Has xs z
    → Unequal (insert_race xs r) × Has (insert_race xs r) r × Has (insert_race xs r) z
insert_race_lem xs r z d h =
    (insert_race-Unequal xs r d, insert_race-Has_self xs r, insert_race-Has xs r z h)
