-- ===== src/Commands/Schedule/Finish.antt =====
-- src/core/Queue.cpp: what execute and finish promise, and what becomes of a failed event.
use oclgrind.Base.{
  ℕ, suc, ◌+◌, ◌*◌, ◌≡◌, ◌≤◌, ◌<◌, inl, inr, refl, sym, ap, ◌∙◌, subst, arith, Bool, true, false,
  not, ◌||◌, ◌==◌, ==_iff, Bool-cases, List, [], ◌∷◌, some, All, length, ltb, ltb→lt,
}
use oclgrind.Commands.Schedule.{complete, is_pending, Fixed, State, last, execute, finish}
use oclgrind.Commands.Schedule.Older.{In, All-In, Ascending}
use oclgrind.Commands.Schedule.Invariant.{Good, Member}
use oclgrind.Commands.Schedule.Advance.{Unfailed, Ordered, Elder, completed}
use oclgrind.Commands.Schedule.Reached.{Reached, Returns}
use oclgrind.Commands.Schedule.Run.{execute-Returns}

-- What execute needs: `n` bounds the wait lists of pending commands.
pub record Ready {ℓ} {S : Type ℓ} (l : Fixed) (n : ℕ) (s : State S) : Type ℓ where
  pub good : Good l s.status s.waits s.queue
  pub short : (e : ℕ) → is_pending (s.status e) ≡ true → length (s.waits e) ≤ n

module _ {ℓ} {S : Type ℓ} (l : Fixed) (dispatch : ℕ → S → S) (n : ℕ) where
  -- The state that execute gives, with what is known of it.
  reaches :
      (k : ℕ) (flush : Bool) (c : ℕ) (s : State S)
      → suc c * (n + 3) ≤ k
      → Ready l n s
      → l.is_command c ≡ true
      → is_pending (s.status c) ≡ true
      → Returns l dispatch flush n c s (execute l dispatch k flush c s)
  reaches k flush c s h r b p =
      execute-Returns l dispatch flush n k c s h r.good (λ e lt q. r.short e q) b p

  after-Ready :
      (flush : Bool) (c : ℕ) (s t : State S)
      → Ready l n s
      → Reached l dispatch flush n c s t
      → Ready l n t
  after-Ready flush c s t r x = record {
    good = x.good;
    short = λ e p. elim (Bool-cases (ltb e c)) [
      | inl y ↦ x.short e (ltb→lt e c y) p
      | inr y ↦ elim (Bool-cases (c == e)) [
        | inl v ↦
            absurd (cc (subst (λ i. is_pending (t.status i) ≡ false) ((==_iff c e).0 v) x.over, p))
        | inr v ↦
            let above : suc c ≤ e = ground arith in
            subst (λ ys. length ys ≤ n) (sym (x.advance.kept_waits e above))
              (r.short e (subst (λ o. is_pending o ≡ true) (x.advance.kept_status e above) p))
      ]
    ];
  }

-- execute of a pending command returns if it is given (c + 1) * (n + 3) rounds, where wait lists have at
-- most `n` events: the command is over then, it has left a state in which execute can be called again, no
-- event that was over has changed, and if the command is complete then every event that it waited for is over.
pub execute-returns {ℓ} :
    {S : Type ℓ} (l : Fixed) (dispatch : ℕ → S → S) (n k : ℕ) (flush : Bool) (c : ℕ) (s : State S)
    → suc c * (n + 3) ≤ k
    → Ready l n s
    → l.is_command c ≡ true
    → is_pending (s.status c) ≡ true
    → (t : State S) × (execute l dispatch k flush c s ≡ some t)
      × Ready l n t
      × (is_pending (t.status c) ≡ false)
      × ((e : ℕ) → is_pending (s.status e) ≡ false → t.status e ≡ s.status e)
      × (t.status c ≡ complete → All (λ e. is_pending (t.status e) ≡ false) (s.waits c))
execute-returns l dispatch n k flush c s h r b p =
    let (t, e, x) = reaches l dispatch n k flush c s h r b p in
    (t, e, after-Ready l dispatch n flush c s t r x, x.over, x.advance.final, x.waited)

-- If no event has failed, then execute of a pending command in a queue that is in order, or with `flush`, completes it and every
-- command that was enqueued before it in the same queue, and no event fails.
pub execute-in_order {ℓ} :
    {S : Type ℓ} (l : Fixed) (dispatch : ℕ → S → S) (n k : ℕ) (flush : Bool) (c : ℕ) (s t : State S)
    → suc c * (n + 3) ≤ k
    → Ready l n s
    → l.is_command c ≡ true
    → is_pending (s.status c) ≡ true
    → Unfailed s.status
    → Ordered l flush c
    → execute l dispatch k flush c s ≡ some t
    → (t.status c ≡ complete) × Unfailed t.status × ((d : ℕ) → Elder l c d → t.status d ≡ complete)
execute-in_order {S} l dispatch n k flush c s t h r b p u o e =
    let (t', e', x') = reaches l dispatch n k flush c s h r b p in
    let x = subst (Reached l dispatch flush n c s) (the_same t' (sym e' ∙ e)) x' in
    let ut = x.unfailed u in
    let done = completed l flush t.status c ut x.over in
    (done, ut, λ d k. completed l flush t.status d ut (x.advance.cascade c d ut p done o k))
  where
    the_same : (t' : State S) → some t' ≡ some t → t' ≡ t
    the_same t' f = cc f

-- The last command of a queue.
last_lem :
    (x : ℕ) (xs : List ℕ)
    → Ascending (x ∷ xs)
    → (c : ℕ) × (last (x ∷ xs) ≡ some c) × In c (x ∷ xs) × ((d : ℕ) → In d (x ∷ xs) → d ≤ c)
last_lem x [] a = (x, refl, inl refl, λ d i. alone d i)
  where
    alone : (d : ℕ) → In d (x ∷ []) → d ≤ x
    alone d (inl e) = omega (arith, e)
    alone d (inr j) = absurd j
last_lem x (y ∷ ys) a = let (c, e, i, g) = last_lem y ys a.1 in (c, e, inr i, most c i g)
  where
    most :
        (c : ℕ)
        → In c (y ∷ ys)
        → ((d : ℕ) → In d (y ∷ ys) → d ≤ c)
        → (d : ℕ) → In d (x ∷ y ∷ ys)
        → d ≤ c
    most c i g d (inl e) = omega (arith, e, All-In (λ z. x < z) (y ∷ ys) c a.0 i)
    most c i g d (inr j) = g d j

no_members : (xs : List ℕ) → ((d : ℕ) → In d xs → ⊥) → xs ≡ []
no_members [] h = refl
no_members (x ∷ xs) h = absurd (h x (inl refl))

module _ {ℓ} {S : Type ℓ} (l : Fixed) (n q c : ℕ) (xs : List ℕ) (s t : State S) where
  -- The queue after its last command and all older ones have been completed.
  emptied :
      Ready l n s
      → Ready l n t
      → s.queue q ≡ xs
      → In c xs
      → ((d : ℕ) → In d xs → d ≤ c)
      → l.queue_of c ≡ q
      → ((e : ℕ) → is_pending (s.status e) ≡ false → t.status e ≡ s.status e)
      → t.status c ≡ complete
      → ((d : ℕ) → Elder l c d → t.status d ≡ complete)
      → (t.queue q ≡ []) × ((d : ℕ) → In d xs → t.status d ≡ complete)
  emptied r r' e i g h final done before = (no_members (t.queue q) gone, over)
    where
      over : (d : ℕ) → In d xs → t.status d ≡ complete
      over d j = elim (Bool-cases (c == d)) [
        | inl v ↦ subst (λ z. t.status z ≡ complete) ((==_iff c d).0 v) done
        | inr v ↦
            let m =
              All-In (Member l s.status q) xs d
                (subst (All (Member l s.status q)) e (r.good.members q)) j in
            before d
              (record { command = m.0; same_queue = m.2 ∙ sym h; older = ground (arith, g d j) })
      ]

      gone : (d : ℕ) → In d (t.queue q) → ⊥
      gone d j =
          let m = All-In (Member l t.status q) (t.queue q) d (r'.good.members q) j in
          elim (Bool-cases (is_pending (s.status d))) [
            | inr v ↦ cc (subst (λ z. is_pending z ≡ true) (final d v) m.1, v)
            | inl v ↦
                let here = subst (In d) (ap s.queue m.2 ∙ e) (r.good.inside d m.0 v) in
                cc (subst (λ z. is_pending z ≡ true) (over d here) m.1)
          ]

pub finish-last {ℓ} :
    {S : Type ℓ} (l : Fixed) (dispatch : ℕ → S → S) (k q c : ℕ) (s t : State S)
    → last (s.queue q) ≡ some c
    → execute l dispatch k true c s ≡ some t
    → finish l dispatch k q s ≡ some (some c, t)
unfolding finish
finish-last l dispatch k q c s t e et = rw (e, finish, et) refl

All-of : (P : ℕ → Type 0) (xs : List ℕ) → ((d : ℕ) → In d xs → P d) → All P xs
All-of P [] h = tt
All-of P (x ∷ xs) h = (h x (inl refl), All-of P xs λ d i. h d (inr i))

-- If no event has failed, then finish of a queue that has a command, with (c + 1) * (n + 3) rounds for its last command c, returns it,
-- leaves the queue empty, and has completed every command that was in the queue.
pub finish-empties {ℓ} :
    {S : Type ℓ} (l : Fixed) (dispatch : ℕ → S → S) (n k q x : ℕ) (xs : List ℕ) (s : State S)
    → Ready l n s
    → Unfailed s.status
    → s.queue q ≡ x ∷ xs
    → All (λ c. suc c * (n + 3) ≤ k) (x ∷ xs)
    → (c : ℕ) × (t : State S) × (finish l dispatch k q s ≡ some (some c, t))
      × (t.queue q ≡ [])
      × All (λ d. t.status d ≡ complete) (x ∷ xs)
finish-empties {S} l dispatch n k q x xs s r u e fuel =
    let (c, le, i, g) = last_lem x xs (subst Ascending e (r.good.sorted q)) in
    let (b, p, h) =
      All-In (Member l s.status q) (x ∷ xs) c
        (subst (All (Member l s.status q)) e (r.good.members q)) i in
    by_last c le i g b p h (All-In (λ c. suc c * (n + 3) ≤ k) (x ∷ xs) c fuel i)
  where
    in_order : (c : ℕ) → Ordered l true c
    in_order c = or_true (not (l.out_of_order (l.queue_of c)))
      where
        or_true : (b : Bool) → (b || true) ≡ true
        or_true true = refl
        or_true false = refl

    by_last :
        (c : ℕ)
        → last (x ∷ xs) ≡ some c
        → In c (x ∷ xs)
        → ((d : ℕ) → In d (x ∷ xs) → d ≤ c)
        → l.is_command c ≡ true
        → is_pending (s.status c) ≡ true
        → l.queue_of c ≡ q
        → suc c * (n + 3) ≤ k
        → (c : ℕ) × (t : State S) × (finish l dispatch k q s ≡ some (some c, t))
          × (t.queue q ≡ [])
          × All (λ d. t.status d ≡ complete) (x ∷ xs)
    by_last c le i g b p h f =
        let (t, et, ready, over, final, waited) = execute-returns l dispatch n k true c s f r b p in
        let (done, ut, before) =
          execute-in_order l dispatch n k true c s t f r b p u (in_order c) et in
        let (none_left, all) = emptied l n q c (x ∷ xs) s t r ready e i g h final done before in
        (
          c,
          t,
          finish-last l dispatch k q c s t (ap last e ∙ le) et,
          none_left,
          All-of (λ d. t.status d ≡ complete) (x ∷ xs) all,
        )
