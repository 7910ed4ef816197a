-- ===== src/Commands/Schedule/Reached.antt =====
-- src/core/Queue.cpp: what execute of a command leads to, and the steps that lead there.
use oclgrind.Base.{
  ℕ, suc, ◌≡◌, ◌≢◌, ◌⊎◌, inl, inr, sym, ◌∙◌, subst, arith, Bool, true, false, Bool-cases, List, [],
  ◌∷◌, Option, some, All,
}
use oclgrind.Commands.Schedule.{Status, complete, failed, is_pending, Fixed, State, update, remove}
use oclgrind.Commands.Schedule.Older.{In}
use oclgrind.Commands.Schedule.Invariant.{
  Good, Short, Good-remove, update_self, update_ne, update-cases,
}
use oclgrind.Commands.Schedule.Advance.{
  Unfailed, Ordered, Elder, Advance, Unfailed-before, ended, completed, Advance-trans, Advance-end,
}

module _ {ℓ} {S : Type ℓ} (l : Fixed) (dispatch : ℕ → S → S) (flush : Bool) (n : ℕ) where
  -- What execute of `c` leads to; wait lists had at most `n` events.
  pub record Reached (c : ℕ) (s t : State S) : Type ℓ where
    pub advance : Advance l flush (suc c) s.status s.waits t.status t.waits
    pub good : Good l t.status t.waits t.queue
    pub short : Short n c t.status t.waits
    pub over : is_pending (t.status c) ≡ false
    pub unfailed : Unfailed s.status → Unfailed t.status
    pub waited : t.status c ≡ complete → All (λ e. is_pending (t.status e) ≡ false) (s.waits c)

  abbrev pub Returns : ℕ → State S → Option (State S) → Type ℓ
  Returns c s r = (t : State S) × (r ≡ some t) × Reached c s t

  abbrev pub Behind : (ℕ → Status) → ℕ → ℕ → Type 0
  Behind status d p = (p ≡ d) ⊎ ((is_pending (status p) ≡ true) × Elder l p d × Ordered l flush p)

  -- An older command of the queue is over, or the wait list has it or one behind it.
  abbrev pub Linked : ℕ → State S → Type 0
  Linked c s =
      Unfailed s.status
      → Ordered l flush c
      → (d : ℕ) → Elder l c d
      → (is_pending (s.status d) ≡ false) ⊎ ((p : ℕ) × In p (s.waits c) × Behind s.status d p)

  -- The command ends with nothing left to wait for, or because of a failed event.
  pub end :
      (c : ℕ) (t : Status) (s : State S) (m : S)
      → Good l s.status s.waits s.queue
      → Short n c s.status s.waits
      → is_pending (s.status c) ≡ true
      → is_pending t ≡ false
      → (t ≡ complete → (s.waits c ≡ []) × Linked c s)
      → (Unfailed s.status → (k : ℕ) → t ≢ failed k)
      → Reached c s (remove l dispatch c t (record s { memory = m }))
  unfolding remove
  end c t s m g sh p done nothing_left sound = record {
    advance =
        Advance-end l flush c t s.status s.waits p
          λ f u o d k. none_left d (nothing_left f).0 ((nothing_left f).1 u o d k);
    good = Good-remove l s.status s.waits s.queue c t g done;
    short = λ e lt q.
        sh e lt
          (subst (λ r. is_pending r ≡ true) (update_ne c t s.status e λ f. omega (arith, lt, f)) q);
    over = subst (λ r. is_pending r ≡ false) (sym (update_self c t s.status)) done;
    unfailed = λ u e k. update-cases (λ r. r ≢ failed k) c t s.status e (λ f. sound u k) λ f. u e k;
    waited = λ f.
        subst (All λ e. is_pending (update c t s.status e) ≡ false)
          (sym (nothing_left (sym (update_self c t s.status) ∙ f)).0) tt;
  }
    where
      none_left :
          (d : ℕ)
          → s.waits c ≡ []
          → (is_pending (s.status d) ≡ false) ⊎ ((p : ℕ) × In p (s.waits c) × Behind s.status d p)
          → is_pending (s.status d) ≡ false
      none_left d e (inl q) = q
      none_left d e (inr (p, i, r)) = absurd (subst (In p) e i)

  -- What the rest of the loop leads to, after the front of the wait list has been dealt with.
  pub step :
      (c e : ℕ) (es : List ℕ) (s s1 t : State S)
      → s.waits c ≡ e ∷ es
      → s1.waits c ≡ es
      → Advance l flush (suc c) s.status s.waits s1.status s1.waits
      → is_pending (s1.status e) ≡ false
      → (Unfailed s.status → Unfailed s1.status)
      → Reached c s1 t
      → Reached c s t
  step c e es s s1 t w w1 a done sound r = record {
    advance =
        Advance-trans l flush (suc c) s.status s1.status t.status s.waits s1.waits t.waits a
          r.advance;
    good = r.good;
    short = r.short;
    over = r.over;
    unfailed = λ u. r.unfailed (sound u);
    waited = λ f. subst (All λ e. is_pending (t.status e) ≡ false) (sym w) (
      ended l flush (suc c) s1.status t.status s1.waits t.waits e r.advance done,
      subst (All λ e. is_pending (t.status e) ≡ false) w1 (r.waited f),
    );
  }

  pub Linked-step :
      (c e : ℕ) (es : List ℕ) (s s1 : State S)
      → s.waits c ≡ e ∷ es
      → s1.waits c ≡ es
      → Advance l flush (suc c) s.status s.waits s1.status s1.waits
      → is_pending (s1.status e) ≡ false
      → Linked c s
      → Linked c s1
  Linked-step c e es s s1 w w1 a done k u o d el =
      go (k (Unfailed-before l flush (suc c) s.status s1.status s.waits s1.waits a u) o d el)
    where
      over : (d : ℕ) → is_pending (s.status d) ≡ false → is_pending (s1.status d) ≡ false
      over d q = ended l flush (suc c) s.status s1.status s.waits s1.waits d a q

      Goal : Type 0
      Goal =
          (is_pending (s1.status d) ≡ false) ⊎ ((p : ℕ) × In p (s1.waits c) × Behind s1.status d p)

      behind :
          (p : ℕ)
          → is_pending (s1.status p) ≡ false
          → is_pending (s.status p) ≡ true
          → Elder l p d
          → Ordered l flush p
          → Goal
      behind p q b x y = inl (a.cascade p d u b (completed l flush s1.status p u q) y x)

      here : (p : ℕ) → e ≡ p → Behind s.status d p → Goal
      here p f (inl g) = inl (subst (λ z. is_pending (s1.status z) ≡ false) (f ∙ g) done)
      here p f (inr (b, x, y)) =
          behind p (subst (λ z. is_pending (s1.status z) ≡ false) f done) b x y

      there : (p : ℕ) → In p es → Behind s.status d p → Goal
      there p i (inl g) = inr (p, subst (In p) (sym w1) i, inl g)
      there p i (inr (b, x, y)) = elim (Bool-cases (is_pending (s1.status p))) [
        | inl q ↦ inr (p, subst (In p) (sym w1) i, inr (q, x, y))
        | inr q ↦ behind p q b x y
      ]

      go :
          (is_pending (s.status d) ≡ false) ⊎ ((p : ℕ) × In p (s.waits c) × Behind s.status d p)
          → Goal
      go (inl q) = inl (over d q)
      go (inr (p, i, r)) = elim (subst (In p) w i) [ inl f ↦ here p f r | inr j ↦ there p j r ]
