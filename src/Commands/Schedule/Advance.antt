-- ===== src/Commands/Schedule/Advance.antt =====
-- src/core/Queue.cpp: how the states of events and the wait lists change while commands are executed.
use oclgrind.Base.{
  ℕ, suc, ◌≡◌, ◌≢◌, ◌≤◌, ◌<◌, inl, inr, refl, sym, ap, ◌∙◌, subst, arith, Bool, true, false, not,
  ◌||◌, ◌==◌, ==_iff, Bool-cases, List,
}
use oclgrind.Commands.Schedule.{
  Status, complete, running, submitted, queued, failed, is_pending, Fixed, update,
}
use oclgrind.Commands.Schedule.Invariant.{update_self, update_ne}

-- No event has failed.
abbrev pub Unfailed : (ℕ → Status) → Type 0
Unfailed status = (e k : ℕ) → status e ≢ failed k

-- The commands of the queue of `c` are executed in order.
abbrev pub Ordered : Fixed → Bool → ℕ → Type 0
Ordered l flush c = (not (l.out_of_order (l.queue_of c)) || flush) ≡ true

-- Another command of the same queue that was enqueued before.
pub record Elder (l : Fixed) (c d : ℕ) : Type 0 where
  pub command : l.is_command d ≡ true
  pub same_queue : l.queue_of d ≡ l.queue_of c
  pub older : d < c

-- Nothing changes of the events from `b` on, an event that has ended keeps its state, and if nothing fails
-- then a command that is completed in order has left no older command of its queue.
pub record Advance (l : Fixed) (flush : Bool) (b : ℕ) (status : ℕ → Status) (waits : ℕ → List ℕ)
    (status' : ℕ → Status) (waits' : ℕ → List ℕ) : Type 0 where
  pub kept_status : (e : ℕ) → b ≤ e → status' e ≡ status e
  pub kept_waits : (e : ℕ) → b ≤ e → waits' e ≡ waits e
  pub final : (e : ℕ) → is_pending (status e) ≡ false → status' e ≡ status e
  pub cascade :
      (e d : ℕ)
      → Unfailed status'
      → is_pending (status e) ≡ true
      → status' e ≡ complete
      → Ordered l flush e
      → Elder l e d
      → is_pending (status' d) ≡ false

module _ (l : Fixed) (flush : Bool) where
  pub Unfailed-before :
      (b : ℕ) (status status' : ℕ → Status) (waits waits' : ℕ → List ℕ)
      → Advance l flush b status waits status' waits'
      → Unfailed status'
      → Unfailed status
  Unfailed-before b status status' waits waits' a u e k f =
      u e k (a.final e (subst (λ t. is_pending t ≡ false) (sym f) refl) ∙ f)

  pub ended :
      (b : ℕ) (status status' : ℕ → Status) (waits waits' : ℕ → List ℕ) (e : ℕ)
      → Advance l flush b status waits status' waits'
      → is_pending (status e) ≡ false
      → is_pending (status' e) ≡ false
  ended b status status' waits waits' e a p =
      subst (λ t. is_pending t ≡ false) (sym (a.final e p)) p

  -- An event that is not pending has failed or is complete.
  pub completed :
      (status : ℕ → Status) (e : ℕ)
      → Unfailed status
      → is_pending (status e) ≡ false
      → status e ≡ complete
  completed status e u p = go (status e) refl p
    where
      go : (t : Status) → status e ≡ t → is_pending t ≡ false → t ≡ complete
      go complete f q = refl
      go (failed k) f q = absurd (u e k f)
      go running f q = cc
      go submitted f q = cc
      go queued f q = cc

  pub Advance-waits :
      (c : ℕ) (es : List ℕ) (status : ℕ → Status) (waits : ℕ → List ℕ)
      → Advance l flush (suc c) status waits status (update c es waits)
  Advance-waits c es status waits = record {
    kept_status = λ e h. refl;
    kept_waits = λ e h. update_ne c es waits e λ f. omega (arith, f, h);
    final = λ e p. refl;
    cascade = λ e d u p f o k. absurd (cc (subst (λ t. is_pending t ≡ true) f p));
  }

  pub Advance-trans :
      (b : ℕ) (st st1 st2 : ℕ → Status) (w w1 w2 : ℕ → List ℕ)
      → Advance l flush b st w st1 w1
      → Advance l flush b st1 w1 st2 w2
      → Advance l flush b st w st2 w2
  Advance-trans b st st1 st2 w w1 w2 a a' = record {
    kept_status = λ e h. a'.kept_status e h ∙ a.kept_status e h;
    kept_waits = λ e h. a'.kept_waits e h ∙ a.kept_waits e h;
    final = λ e p. a'.final e (ended b st st1 w w1 e a p) ∙ a.final e p;
    cascade = λ e d u p f o k. elim (Bool-cases (is_pending (st1 e))) [
      | inl q ↦ a'.cascade e d u q f o k
      | inr q ↦
          let u1 = Unfailed-before b st1 st2 w1 w2 a' u in
          ended b st1 st2 w1 w2 d a' (a.cascade e d u1 p (completed st1 e u1 q) o k)
    ];
  }

  pub Advance-weaken :
      (b b' : ℕ) (st st' : ℕ → Status) (w w' : ℕ → List ℕ)
      → b ≤ b'
      → Advance l flush b st w st' w'
      → Advance l flush b' st w st' w'
  Advance-weaken b b' st st' w w' le a = record {
    kept_status = λ e h. a.kept_status e (omega (arith, le, h));
    kept_waits = λ e h. a.kept_waits e (omega (arith, le, h));
    final = a.final;
    cascade = a.cascade;
  }

  -- The one command `c` ends.
  pub Advance-end :
      (c : ℕ) (t : Status) (status : ℕ → Status) (waits : ℕ → List ℕ)
      → is_pending (status c) ≡ true
      → (t ≡ complete
          → Unfailed status
          → Ordered l flush c
          → (d : ℕ) → Elder l c d
          → is_pending (status d) ≡ false)
      → Advance l flush (suc c) status waits (update c t status) waits
  Advance-end c t status waits p older = record {
    kept_status = λ e h. update_ne c t status e λ f. omega (arith, f, h);
    kept_waits = λ e h. refl;
    final = λ e q. update_ne c t status e λ f. cc (p, q, ap status f);
    cascade = λ e d u q f o k. elim (Bool-cases (c == e)) [
      | inl h ↦ at e d ((==_iff c e).0 h) u f o k
      | inr n ↦ absurd (
          cc (
            subst (λ r. is_pending r ≡ true)
              (sym (update_ne c t status e λ h. cc ((==_iff c e).1 h, n)) ∙ f) q))
    ];
  }
    where
      before : Unfailed (update c t status) → Unfailed status
      before u e k f = elim (Bool-cases (c == e)) [
        | inl h ↦ cc (subst (λ r. is_pending r ≡ true) (ap status ((==_iff c e).0 h) ∙ f) p)
        | inr n ↦ u e k (update_ne c t status e (λ h. cc ((==_iff c e).1 h, n)) ∙ f)
      ]

      at :
          (e d : ℕ)
          → c ≡ e
          → Unfailed (update c t status)
          → update c t status e ≡ complete
          → Ordered l flush e
          → Elder l e d
          → is_pending (update c t status d) ≡ false
      at e d h u f o k =
          let f' : t ≡ complete = sym (update_self c t status) ∙ ap (update c t status) h ∙ f in
          let o' = subst (Ordered l flush) (sym h) o in
          let k' = subst (λ x. Elder l x d) (sym h) k in
          subst (λ r. is_pending r ≡ false)
            (sym (update_ne c t status d λ z. omega (arith, z, k'.older)))
            (older f' (before u) o' d k')
