-- ===== src/Commands/Schedule/Sequential.antt =====
-- src/core/Queue.cpp: finish of a queue runs its commands one after the other, in the order of the queue.
use oclgrind.Base.{
  ℕ, zero, suc, ◌+◌, ◌*◌, ◌≡◌, ◌≤◌, ◌<◌, inl, inr, refl, sym, ap, ◌∙◌, subst, arith, true, ◌==◌,
  ==_iff, Bool-cases, List, [], ◌∷◌, ◌++◌, Option, none, some, All, length,
}
use oclgrind.Commands.Schedule.{
  complete, queued, Fixed, State, update, last, preceding, erase, add_dependency, remove,
  run_command, set_waits, executed, execute, wait, finish,
}
use oclgrind.Commands.Schedule.Older.{In, Ascending, All-In}
use oclgrind.Commands.Schedule.Invariant.{update_self, update_ne}
use oclgrind.Commands.Schedule.Failure.{front_run, last_round}
use oclgrind.Commands.Schedule.Finish.{finish-last}

-- The commands one after the other.
abbrev pub run_all {ℓ} : {S : Type ℓ} → (ℕ → S → S) → List ℕ → S → S
run_all dispatch [] m = m
run_all dispatch (c ∷ cs) m = run_all dispatch cs (dispatch c m)

-- The elements of the first list, from its last to its first, before the second.
abbrev onto : List ℕ → List ℕ → List ℕ
onto [] ws = ws
onto (r ∷ rs) ws = onto rs (r ∷ ws)

abbrev run_back {ℓ} : {S : Type ℓ} → (ℕ → S → S) → List ℕ → S → S
run_back dispatch [] m = m
run_back dispatch (r ∷ rs) m = dispatch r (run_back dispatch rs m)

run_all-onto {ℓ} :
    {S : Type ℓ} (dispatch : ℕ → S → S) (rs ws : List ℕ) (m : S)
    → run_all dispatch (onto rs ws) m ≡ run_all dispatch ws (run_back dispatch rs m)
run_all-onto dispatch [] ws m = refl
run_all-onto dispatch (r ∷ rs) ws m = run_all-onto dispatch rs (r ∷ ws) m

Ascending-onto : (rs ws : List ℕ) → Ascending (onto rs ws) → Ascending ws
Ascending-onto [] ws a = a
Ascending-onto (r ∷ rs) ws a = (Ascending-onto rs (r ∷ ws) a).1

preceding-onto :
    (c r : ℕ) (rs ws : List ℕ)
    → Ascending (onto rs ws)
    → In c ws
    → ((b : Option ℕ) → preceding b c ws ≡ some r)
    → preceding none c (onto rs ws) ≡ some r
unfolding preceding
preceding-onto c r [] ws a i h = h none
preceding-onto c r (x ∷ rs) ws a i h = preceding-onto c r rs (x ∷ ws) a (inr i) later
  where
    later : (b : Option ℕ) → preceding b c (x ∷ ws) ≡ some r
    later b =
        let lt = All-In (λ y. x < y) ws c (Ascending-onto rs (x ∷ ws) a).0 i in
        elim (Bool-cases (x == c)) [
          | inl e ↦ absurd (omega (arith, lt, (==_iff x c).0 e))
          | inr n ↦ rw n (h (some x))
        ]

below-onto : (c : ℕ) (rs ws : List ℕ) → Ascending (onto rs ws) → In c ws → All (λ d. d < c) rs
below-onto c [] ws a i = tt
below-onto c (x ∷ rs) ws a i = (
  All-In (λ y. x < y) ws c (Ascending-onto rs (x ∷ ws) a).0 i,
  below-onto c rs (x ∷ ws) a (inr i),
)

erase_first : (c : ℕ) (zs : List ℕ) → erase c (c ∷ zs) ≡ zs
unfolding erase
erase_first c zs = rw ((==_iff c c).1 refl) refl

preceding_first : (c : ℕ) (zs : List ℕ) → preceding none c (c ∷ zs) ≡ none
unfolding preceding
preceding_first c zs = rw ((==_iff c c).1 refl) refl

-- A command that has nothing in its wait list, in the queue `q`.
abbrev pub Free {ℓ} : {S : Type ℓ} → Fixed → ℕ → State S → ℕ → Type 0
Free l q s c =
    (l.is_command c ≡ true) × (l.queue_of c ≡ q) × (s.status c ≡ queued) × (s.waits c ≡ [])

module _ {ℓ} {S : Type ℓ} (l : Fixed) (dispatch : ℕ → S → S) (q : ℕ) where
  record Sequence (c : ℕ) (rs zs : List ℕ) (s t : State S) : Type ℓ where
    memory : t.memory ≡ dispatch c (run_back dispatch rs s.memory)
    queue : t.queue q ≡ zs
    waits : (d : ℕ) → c < d → t.waits d ≡ s.waits d
    status : (d : ℕ) → c < d → t.status d ≡ s.status d

  run_queue :
      (c : ℕ) (zs : List ℕ) (s : State S)
      → l.queue_of c ≡ q
      → s.queue q ≡ c ∷ zs
      → (run_command l dispatch c s).queue q ≡ zs
  unfolding run_command remove
  run_queue c zs s h e =
      ap (update (l.queue_of c) (erase c (s.queue (l.queue_of c))) s.queue) (sym h)
      ∙ update_self (l.queue_of c) _ s.queue
      ∙ ap (erase c) (ap s.queue h ∙ e)
      ∙ erase_first c zs

  no_dependency :
      (c : ℕ) (zs : List ℕ) (s : State S)
      → l.queue_of c ≡ q
      → s.queue q ≡ c ∷ zs
      → add_dependency l dispatch true c s ≡ s
  unfolding add_dependency
  no_dependency c zs s h e =
      let p : preceding none c (s.queue (l.queue_of c)) ≡ none =
        ap (preceding none c) (ap s.queue h ∙ e) ∙ preceding_first c zs in
      rw (p, add_dependency) refl

  dependency :
      (c r : ℕ) (rs zs : List ℕ) (s : State S)
      → l.queue_of c ≡ q
      → s.queue q ≡ onto (r ∷ rs) (c ∷ zs)
      → Ascending (onto (r ∷ rs) (c ∷ zs))
      → add_dependency l dispatch true c s ≡ set_waits l dispatch c (s.waits c ++ r ∷ []) s
  unfolding add_dependency set_waits preceding
  dependency c r rs zs s h e a =
      let p : preceding none c (s.queue (l.queue_of c)) ≡ some r =
        ap (preceding none c) (ap s.queue h ∙ e)
        ∙ preceding-onto c r rs (r ∷ c ∷ zs) a (inr (inl refl)) (
            found
              (All-In (λ y. r < y) (c ∷ zs) c (Ascending-onto rs (r ∷ c ∷ zs) a).0 (inl refl))) in
      elim (Bool-cases (l.out_of_order (l.queue_of c))) [
        | inl o ↦ rw (p, o, add_dependency) refl
        | inr o ↦ rw (p, o, add_dependency) refl
      ]
    where
      found : r < c → (b : Option ℕ) → preceding b c (r ∷ c ∷ zs) ≡ some r
      found lt b = elim (Bool-cases (r == c)) [
        | inl f ↦ absurd (omega (arith, lt, (==_iff r c).0 f))
        | inr n ↦ rw (n, (==_iff c c).1 refl) refl
      ]

  Free-waits :
      (c : ℕ) (es xs : List ℕ) (s : State S)
      → All (λ d. d < c) xs
      → All (Free l q s) xs
      → All (Free l q (set_waits l dispatch c es s)) xs
  unfolding set_waits
  Free-waits c es [] s b f = tt
  Free-waits c es (x ∷ xs) s b f = (
    (f.0.0, f.0.1, f.0.2, update_ne c es s.waits x (λ h. omega (arith, b.0, h)) ∙ f.0.3),
    Free-waits c es xs s b.1 f.1,
  )

  ran :
      (c : ℕ) (zs : List ℕ) (s : State S)
      → l.queue_of c ≡ q
      → s.queue q ≡ c ∷ zs
      → Sequence c [] zs s (run_command l dispatch c s)
  unfolding run_command remove
  ran c zs s h e = record {
    memory = refl;
    queue = run_queue c zs s h e;
    waits = λ d lt. refl;
    status = λ d lt. update_ne c complete s.status d λ f. omega (arith, lt, f);
  }

  sequence :
      (rs zs : List ℕ) (c k : ℕ) (s : State S)
      → 2 * length rs + 2 ≤ k
      → s.queue q ≡ onto rs (c ∷ zs)
      → Ascending (onto rs (c ∷ zs))
      → All (Free l q s) (c ∷ rs)
      → (t : State S) × (execute l dispatch k true c s ≡ some t) × Sequence c rs zs s t
  unfolding execute set_waits executed run_command remove
  sequence [] zs c zero s h e a f = absurd (omega arith)
  sequence [] zs c (suc zero) s h e a f = absurd (omega arith)
  sequence [] zs c (suc (suc k)) s h e a f = (
    run_command l dispatch c s,
    ap (λ t. wait l dispatch (suc k) true c t) (no_dependency c zs s f.0.1 e)
        ∙ last_round l dispatch true k c s f.0.3,
    ran c zs s f.0.1 e,
  )
  sequence (r ∷ rs) zs c zero s h e a f = absurd (omega arith)
  sequence (r ∷ rs) zs c (suc zero) s h e a f = absurd (omega arith)
  sequence (r ∷ rs) zs c (suc (suc zero)) s h e a f = absurd (omega arith)
  sequence (r ∷ rs) zs c (suc (suc (suc k))) s h e a f =
      let s1 = set_waits l dispatch c (s.waits c ++ r ∷ []) s in
      let s0 = set_waits l dispatch c [] s1 in
      let below = below-onto c (r ∷ rs) (c ∷ zs) a (inl refl) in
      let free =
        Free-waits c [] (r ∷ rs) s1 below
          (Free-waits c (s.waits c ++ r ∷ []) (r ∷ rs) s below f.1) in
      let (u, eu, x) = sequence rs (c ∷ zs) r (suc k) s0 (omega (arith, h)) e a free in
      let v = executed l dispatch c r u in
      (
        run_command l dispatch c v,
        ap (λ t. wait l dispatch (suc (suc k)) true c t) (dependency c r rs zs s f.0.1 e a)
            ∙ front_run l dispatch true (suc k) c r s1 u
                (update_self c _ s.waits ∙ ap (λ ys. ys ++ r ∷ []) f.0.3) f.1.0.2 f.1.0.0 eu
            ∙ last_round l dispatch true k c v (x.waits c below.0 ∙ update_self c [] s1.waits),
        record {
          memory = ap (dispatch c) x.memory;
          queue = run_queue c zs v f.0.1 x.queue;
          waits = λ d lt.
              x.waits d (omega (arith, below.0, lt))
              ∙ update_ne c [] s1.waits d (λ g. omega (arith, lt, g))
              ∙ update_ne c (s.waits c ++ r ∷ []) s.waits d (λ g. omega (arith, lt, g));
          status = λ d lt.
              update_ne c complete u.status d (λ g. omega (arith, lt, g))
              ∙ x.status d (omega (arith, below.0, lt));
        },
      )

-- The last element of a list, and the ones before it from the last to the first.
split :
    (acc : List ℕ) (x : ℕ) (xs : List ℕ)
    → (rs : List ℕ) × (c : ℕ) × (onto acc (x ∷ xs) ≡ onto rs (c ∷ []))
      × (length rs ≡ length acc + length xs)
split acc x [] = (acc, x, refl, omega arith)
split acc x (y ∷ ys) = let (rs, c, e, n) = split (x ∷ acc) y ys in (rs, c, e, omega (arith, n))

All-onto : (P : ℕ → Type 0) (rs ws : List ℕ) → All P (onto rs ws) → All P rs × All P ws
All-onto P [] ws a = (tt, a)
All-onto P (r ∷ rs) ws a = let (b, d) = All-onto P rs (r ∷ ws) a in ((d.0, b), d.1)

last-onto : (rs : List ℕ) (w : ℕ) (ws : List ℕ) → last (onto rs (w ∷ ws)) ≡ last (w ∷ ws)
last-onto [] w ws = refl
last-onto (r ∷ rs) w ws = last-onto rs r (w ∷ ws)

-- finish of a queue of commands that have nothing in their wait lists, given twice as many rounds as there are commands, empties the
-- queue, and the memory is what running the commands one after the other in the order of the queue makes of it, whether the queue is out
-- of order or not.
pub finish-run_all {ℓ} :
    {S : Type ℓ} (l : Fixed) (dispatch : ℕ → S → S) (q k x : ℕ) (xs : List ℕ) (s : State S)
    → s.queue q ≡ x ∷ xs
    → Ascending (x ∷ xs)
    → All (Free l q s) (x ∷ xs)
    → 2 * length (x ∷ xs) ≤ k
    → (c : ℕ) × (t : State S) × (finish l dispatch k q s ≡ some (some c, t))
      × (t.queue q ≡ [])
      × (t.memory ≡ run_all dispatch (x ∷ xs) s.memory)
finish-run_all l dispatch q k x xs s e a f h =
    let (rs, c, w, n) = split [] x xs in
    let g = All-onto (Free l q s) rs (c ∷ []) (subst (All (Free l q s)) w f) in
    let (t, et, r) =
      sequence l dispatch q rs [] c k s (omega (arith, h, n)) (e ∙ w) (subst Ascending w a)
        (g.1.0, g.0) in
    (
      c,
      t,
      finish-last l dispatch k q c s t (ap last (e ∙ w) ∙ last-onto rs c []) et,
      r.queue,
      r.memory
          ∙ sym (run_all-onto dispatch rs (c ∷ []) s.memory)
          ∙ ap (λ ys. run_all dispatch ys s.memory) (sym w),
    )
