-- ===== src/Commands/Schedule/Invariant.antt =====
-- src/core/Queue.cpp: what holds of events and queues between calls.
use oclgrind.Base.{
  ℕ, ◌≡◌, ◌≢◌, ◌≤◌, ◌<◌, inl, inr, refl, sym, ap, ◌∙◌, subst, true, false, ◌==◌, ==_iff, Bool-cases,
  if◌then◌else◌, List, [], ◌∷◌, All, length,
}
use oclgrind.Commands.Schedule.{Status, is_pending, Fixed, update, erase}
use oclgrind.Commands.Schedule.Older.{In, Ascending, All-erase, Ascending-erase, erase-ne, In-erase}

abbrev pub Member : Fixed → (ℕ → Status) → ℕ → ℕ → Type 0
Member l status q c = (l.is_command c ≡ true) × (is_pending (status c) ≡ true) × (l.queue_of c ≡ q)

-- What holds between calls: a command waits for older events, a queue holds its pending commands in the
-- order of their creation, and the application has set the state of each of its user events.
pub record Good (l : Fixed) (status : ℕ → Status) (waits queue : ℕ → List ℕ) : Type 0 where
  pub settled : (e : ℕ) → l.is_command e ≡ false → is_pending (status e) ≡ false
  pub older : (c : ℕ) → is_pending (status c) ≡ true → All (λ e. e < c) (waits c)
  pub inside :
      (c : ℕ) → l.is_command c ≡ true → is_pending (status c) ≡ true → In c (queue (l.queue_of c))
  pub members : (q : ℕ) → All (Member l status q) (queue q)
  pub sorted : (q : ℕ) → Ascending (queue q)

-- The wait lists of the pending commands below `b` have at most `n` events.
abbrev pub Short : ℕ → ℕ → (ℕ → Status) → (ℕ → List ℕ) → Type 0
Short n b status waits = (e : ℕ) → e < b → is_pending (status e) ≡ true → length (waits e) ≤ n

pub update_self {ℓ} : {A : Type ℓ} (i : ℕ) (a : A) (f : ℕ → A) → update i a f i ≡ a
update_self i a f = rw ((==_iff i i).1 refl) refl

pub update_ne {ℓ} : {A : Type ℓ} (i : ℕ) (a : A) (f : ℕ → A) (j : ℕ) → i ≢ j → update i a f j ≡ f j
update_ne i a f j ne = elim (Bool-cases (i == j)) [
  | inl e ↦ absurd (ne ((==_iff i j).0 e))
  | inr n ↦ rw n refl
]

pub update-cases {ℓ κ} :
    {A : Type ℓ} (P : A → Type κ) (i : ℕ) (a : A) (f : ℕ → A) (j : ℕ)
    → (i ≡ j → P a)
    → (i ≢ j → P (f j))
    → P (update i a f j)
update-cases P i a f j at apart = elim (Bool-cases (i == j)) [
  | inl e ↦ rw e (at ((==_iff i j).0 e))
  | inr n ↦ rw n (apart λ e. cc ((==_iff i j).1 e, n))
]

module _ (l : Fixed) where
  pub Good-set_waits :
      (status : ℕ → Status) (waits queue : ℕ → List ℕ) (c : ℕ) (es : List ℕ)
      → Good l status waits queue
      → All (λ e. e < c) es
      → Good l status (update c es waits) queue
  Good-set_waits status waits queue c es g below = record {
    settled = g.settled;
    older = λ d p.
        update-cases (λ xs. All (λ e. e < d) xs) c es waits d
          (λ e. subst (λ k. All (λ e. e < k) es) e below) λ n. g.older d p;
    inside = g.inside;
    members = g.members;
    sorted = g.sorted;
  }

  -- A pending command of the new state was pending, and is not the one that is removed.
  still :
      (status : ℕ → Status) (c : ℕ) (st : Status) (d : ℕ)
      → is_pending st ≡ false
      → is_pending (update c st status d) ≡ true
      → (c ≢ d) × (is_pending (status d) ≡ true)
  still status c st d done p = elim (Bool-cases (c == d)) [
    | inl e ↦ absurd (bad e)
    | inr n ↦ (λ e. cc ((==_iff c d).1 e, n), subst (λ t. is_pending t ≡ true) (rw n refl) p)
  ]
    where
      bad : (c == d) ≡ true → ⊥
      bad e = cc (subst (λ b. is_pending (if b then st else status d) ≡ true) e p, done)

  pub keep :
      (status : ℕ → Status) (c : ℕ) (st : Status) (q : ℕ) (xs : List ℕ)
      → All (Member l status q) xs
      → All (λ d. d ≢ c) xs
      → All (Member l (update c st status) q) xs
  keep status c st q [] a b = tt
  keep status c st q (x ∷ xs) a b = (
    (
      a.0.0,
      subst (λ t. is_pending t ≡ true) (sym (update_ne c st status x λ e. b.0 (sym e))) a.0.1,
      a.0.2,
    ),
    keep status c st q xs a.1 b.1,
  )

  apart :
      (status : ℕ → Status) (c q : ℕ) (xs : List ℕ)
      → l.queue_of c ≢ q
      → All (Member l status q) xs
      → All (λ d. d ≢ c) xs
  apart status c q [] ne a = tt
  apart status c q (x ∷ xs) ne a =
      (λ e. ne (sym (ap l.queue_of e) ∙ a.0.2), apart status c q xs ne a.1)

  pub Good-remove :
      (status : ℕ → Status) (waits queue : ℕ → List ℕ) (c : ℕ) (st : Status)
      → Good l status waits queue
      → is_pending st ≡ false
      → Good l
          (update c st status)
          waits
          (update (l.queue_of c) (erase c (queue (l.queue_of c))) queue)
  Good-remove status waits queue c st g done = record {
    settled = λ e n.
        update-cases (λ t. is_pending t ≡ false) c st status e (λ f. done) λ f. g.settled e n;
    older = λ d p. g.older d (still status c st d done p).1;
    inside = λ d b p.
        let (ne, q) = still status c st d done p in
        update-cases (In d) (l.queue_of c) (erase c (queue (l.queue_of c))) queue (l.queue_of d)
          (λ e.
            In-erase c (queue (l.queue_of c)) d
              (subst (λ k. In d (queue k)) (sym e) (g.inside d b q)) λ f. ne (sym f))
          λ e. g.inside d b q;
    members = λ q.
        update-cases (All (Member l (update c st status) q)) (l.queue_of c)
          (erase c (queue (l.queue_of c))) queue q
          (λ e.
            subst (λ k. All (Member l (update c st status) k) (erase c (queue (l.queue_of c)))) e
              (keep status c st (l.queue_of c) (erase c (queue (l.queue_of c)))
                (All-erase c (Member l status (l.queue_of c)) (queue (l.queue_of c))
                  (g.members (l.queue_of c)))
                (erase-ne c (queue (l.queue_of c)) (g.sorted (l.queue_of c)))))
          λ n.
            keep status c st q (queue q) (g.members q) (apart status c q (queue q) n (g.members q));
    sorted = λ q.
        update-cases Ascending (l.queue_of c) (erase c (queue (l.queue_of c))) queue q
          (λ e. Ascending-erase c (queue (l.queue_of c)) (g.sorted (l.queue_of c))) λ e. g.sorted q;
  }
