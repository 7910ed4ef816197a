-- ===== src/Commands/Schedule/Prepared.antt =====
-- src/core/Queue.cpp: the dependency on the command before in the queue.
use oclgrind.Base.{
  ℕ, suc, ◌+◌, ◌≡◌, ◌≤◌, ◌<◌, ◌⊎◌, inl, inr, refl, sym, ap, ◌∙◌, subst, arith, Bool, true, false,
  not, ◌||◌, ◌==◌, ==_iff, Bool-cases, List, [], ◌∷◌, ◌++◌, length, length-append, All-append,
}
use oclgrind.Commands.Schedule.{is_pending, Fixed, State, update, add_dependency, set_waits}
use oclgrind.Commands.Schedule.Older.{In, Ascending, All-In, Before, preceding_lem}
use oclgrind.Commands.Schedule.Invariant.{
  Good, Short, Member, Good-set_waits, update_self, update_ne,
}
use oclgrind.Commands.Schedule.Advance.{Unfailed, Ordered, Elder, Advance, Advance-waits}
use oclgrind.Commands.Schedule.Reached.{Behind, Linked}

module _ {ℓ} {S : Type ℓ} (l : Fixed) (dispatch : ℕ → S → S) (flush : Bool) (n : ℕ) where
  added :
      (c : ℕ) (s : State S)
      → Ascending (s.queue (l.queue_of c))
      → In c (s.queue (l.queue_of c))
      → ((add_dependency l dispatch flush c s ≡ s)
          × (Ordered l flush c → (d : ℕ) → In d (s.queue (l.queue_of c)) → d < c → ⊥))
        ⊎ ((p : ℕ) × (add_dependency l dispatch flush c s
              ≡ set_waits l dispatch c (s.waits c ++ p ∷ []) s)
            × Before c p (s.queue (l.queue_of c))
            × Ordered l flush c)
  unfolding add_dependency set_waits
  added c s a i = elim (preceding_lem c (s.queue (l.queue_of c)) a i) [
    | inl (e, none_below) ↦ inl (rw (e, add_dependency) refl, λ o. none_below)
    | inr (p, e, before) ↦ elim (Bool-cases (not (l.out_of_order (l.queue_of c)) || flush)) [
      | inr n ↦ inl (rw (e, n, add_dependency) refl, λ o. absurd (cc (o, n)))
      | inl o ↦ inr (p, rw (e, o, add_dependency) refl, before, o)
    ]
  ]

  -- What the loop finds after the dependency has been added.
  pub record Prepared (c : ℕ) (s t : State S) : Type ℓ where
    pub advance : Advance l flush (suc c) s.status s.waits t.status t.waits
    pub good : Good l t.status t.waits t.queue
    pub short : Short n c t.status t.waits
    pub few : length (t.waits c) ≤ n + 1
    pub pending : is_pending (t.status c) ≡ true
    pub sound : Unfailed s.status → Unfailed t.status
    pub linked : Linked l dispatch flush n c t
    pub more : (ys : List ℕ) × (t.waits c ≡ s.waits c ++ ys)

  pub prepared :
      (c : ℕ) (s : State S)
      → Good l s.status s.waits s.queue
      → Short n (suc c) s.status s.waits
      → l.is_command c ≡ true
      → is_pending (s.status c) ≡ true
      → Prepared c s (add_dependency l dispatch flush c s)
  unfolding set_waits
  prepared c s g sh b q = elim (added c s (g.sorted (l.queue_of c)) (g.inside c b q)) [
    | inl (e, alone) ↦ subst (Prepared c s) (sym e) (record {
      advance = same;
      good = g;
      short = λ e lt. sh e (omega (arith, lt));
      few = omega (arith, sh c (omega arith) q);
      pending = q;
      sound = λ u. u;
      linked = λ u o d k. over d k (alone o);
      more = ([], append_nil (s.waits c));
    })
    | inr (p, e, before, o) ↦ subst (Prepared c s) (sym e) (record {
      advance = Advance-waits l flush c (s.waits c ++ p ∷ []) s.status s.waits;
      good =
          Good-set_waits l s.status s.waits s.queue c (s.waits c ++ p ∷ []) g
            (All-append (λ z. z < c) (s.waits c) (p ∷ []) (g.older c q) (before.below, tt));
      short = λ e lt r.
          subst (λ es. length es ≤ n)
            (sym (update_ne c (s.waits c ++ p ∷ []) s.waits e λ f. omega (arith, lt, f)))
            (sh e (omega (arith, lt)) r);
      few =
          subst (λ es. length es ≤ n + 1) (sym (update_self c (s.waits c ++ p ∷ []) s.waits))
            (omega (arith, length-append (s.waits c) (p ∷ []), sh c (omega arith) q));
      pending = q;
      sound = λ u. u;
      linked = λ u o' d k. link p before o d k;
      more = (p ∷ [], update_self c (s.waits c ++ p ∷ []) s.waits);
    })
  ]
    where
      same : Advance l flush (suc c) s.status s.waits s.status s.waits
      same = record {
        kept_status = λ e h. refl;
        kept_waits = λ e h. refl;
        final = λ e p. refl;
        cascade = λ e d u p f o k. absurd (cc (subst (λ t. is_pending t ≡ true) f p));
      }

      append_nil : (xs : List ℕ) → xs ≡ xs ++ []
      append_nil [] = refl
      append_nil (x ∷ xs) = ap (λ ys. x ∷ ys) (append_nil xs)

      in_queue :
          (d : ℕ) → Elder l c d → is_pending (s.status d) ≡ true → In d (s.queue (l.queue_of c))
      in_queue d k r = subst (λ x. In d (s.queue x)) k.same_queue (g.inside d k.command r)

      over :
          {B : Type 0} (d : ℕ)
          → Elder l c d
          → ((d : ℕ) → In d (s.queue (l.queue_of c)) → d < c → ⊥)
          → (is_pending (s.status d) ≡ false) ⊎ B
      over d k none_below = elim (Bool-cases (is_pending (s.status d))) [
        | inr r ↦ inl r
        | inl r ↦ absurd (none_below d (in_queue d k r) k.older)
      ]

      last_in : (xs : List ℕ) (p : ℕ) → In p (xs ++ p ∷ [])
      last_in [] p = inl refl
      last_in (x ∷ xs) p = inr (last_in xs p)

      link :
          (p : ℕ)
          → Before c p (s.queue (l.queue_of c))
          → Ordered l flush c
          → (d : ℕ) → Elder l c d
          → (is_pending (s.status d) ≡ false)
            ⊎ ((x : ℕ) × In x (update c (s.waits c ++ p ∷ []) s.waits c)
                × Behind l dispatch flush n s.status d x)
      link p before o d k = elim (Bool-cases (is_pending (s.status d))) [
        | inr r ↦ inl r
        | inl r ↦ inr (
          p,
          subst (In p) (sym (update_self c (s.waits c ++ p ∷ []) s.waits)) (last_in (s.waits c) p),
          closer p before o d k (before.greatest d (in_queue d k r) k.older),
        )
      ]
        where
          closer :
              (p : ℕ)
              → Before c p (s.queue (l.queue_of c))
              → Ordered l flush c
              → (d : ℕ) → Elder l c d
              → d ≤ p
              → Behind l dispatch flush n s.status d p
          closer p before o d k le =
              let m =
                All-In (Member l s.status (l.queue_of c)) (s.queue (l.queue_of c)) p
                  (g.members (l.queue_of c)) before.inside in
              elim (Bool-cases (p == d)) [
                | inl e ↦ inl ((==_iff p d).0 e)
                | inr ne ↦ inr (
                  m.1,
                  record {
                    command = k.command;
                    same_queue = k.same_queue ∙ sym m.2;
                    older = ground arith;
                  },
                  subst (λ x. (not (l.out_of_order x) || flush) ≡ true) (sym m.2) o,
                )
              ]
