-- ===== src/Commands/Schedule/Enqueue.antt =====
-- src/core/Queue.cpp: a command that is put in a queue.
use oclgrind.Base.{
  ℕ, ◌≡◌, ◌≢◌, ◌≤◌, ◌<◌, inl, inr, refl, sym, ap, subst, arith, true, false, ◌==◌, ==_iff,
  Bool-cases, List, [], ◌∷◌, ◌++◌, All, All-append, length,
}
use oclgrind.Commands.Schedule.{queued, is_pending, Fixed, State, update, enqueue}
use oclgrind.Commands.Schedule.Older.{In, Ascending}
use oclgrind.Commands.Schedule.Invariant.{Member, update_self, update_ne, update-cases, keep}
use oclgrind.Commands.Schedule.Finish.{Ready}

In-append_left : (c : ℕ) (xs ys : List ℕ) → In c xs → In c (xs ++ ys)
In-append_left c [] ys i = absurd i
In-append_left c (x ∷ xs) ys (inl e) = inl e
In-append_left c (x ∷ xs) ys (inr i) = inr (In-append_left c xs ys i)

In-last : (c : ℕ) (xs : List ℕ) → In c (xs ++ c ∷ [])
In-last c [] = inl refl
In-last c (x ∷ xs) = inr (In-last c xs)

Ascending-append :
    (c : ℕ) (xs : List ℕ) → Ascending xs → All (λ d. d < c) xs → Ascending (xs ++ c ∷ [])
Ascending-append c [] a b = (tt, tt)
Ascending-append c (x ∷ xs) a b =
    (All-append (λ y. x < y) xs (c ∷ []) a.0 (b.0, tt), Ascending-append c xs a.1 b.1)

-- A command with a new number, the greatest one, whose wait list has at most `n` older events, can be enqueued:
-- execute can be called of the state that it gives.
pub enqueue-Ready {ℓ} :
    {S : Type ℓ} (l : Fixed) (dispatch : ℕ → S → S) (n c : ℕ) (wait_list : List ℕ) (s : State S)
    → Ready l n s
    → l.is_command c ≡ true
    → ((d : ℕ) → is_pending (s.status d) ≡ true → d < c)
    → All (λ e. e < c) wait_list
    → length wait_list ≤ n
    → Ready l n (enqueue l dispatch c wait_list s)
unfolding enqueue
enqueue-Ready l dispatch n c ws s r b fresh below few = record {
  good = record {
    settled = λ e f.
        update-cases (λ t. is_pending t ≡ false) c queued s.status e
          (λ h. absurd (cc (ap l.is_command h, b, f))) λ h. r.good.settled e f;
    older = λ d p.
        update-cases (All λ e. e < d) c ws s.waits d (λ h. subst (λ z. All (λ e. e < z) ws) h below)
          λ h. r.good.older d (was d p h);
    inside = λ d i p.
        update-cases (In d) q (s.queue q ++ c ∷ []) s.queue (l.queue_of d) (λ h. new_inside d i p h)
          λ h. r.good.inside d i (was d p λ v. h (ap l.queue_of v));
    members = λ k.
        update-cases (All (Member l (update c queued s.status) k)) q (s.queue q ++ c ∷ []) s.queue k
          (λ h.
            subst (λ z. All (Member l (update c queued s.status) z) (s.queue q ++ c ∷ [])) h
              (All-append (Member l (update c queued s.status) q) (s.queue q) (c ∷ []) (kept q) (
                (
                  b,
                  subst (λ t. is_pending t ≡ true) (sym (update_self c queued s.status)) refl,
                  refl,
                ),
                tt,
              )))
          λ h. kept k;
    sorted = λ k.
        update-cases Ascending q (s.queue q ++ c ∷ []) s.queue k
          (λ h. Ascending-append c (s.queue q) (r.good.sorted q) (all_below q))
          λ h. r.good.sorted k;
  };
  short = λ e p.
      update-cases (λ es. length es ≤ n) c ws s.waits e (λ h. few) λ h. r.short e (was e p h);
}
  where
    q : ℕ
    q = l.queue_of c

    was :
        (d : ℕ)
        → is_pending (update c queued s.status d) ≡ true
        → c ≢ d
        → is_pending (s.status d) ≡ true
    was d p h = subst (λ t. is_pending t ≡ true) (update_ne c queued s.status d h) p

    members_below : (k : ℕ) (xs : List ℕ) → All (Member l s.status k) xs → All (λ d. d < c) xs
    members_below k [] a = tt
    members_below k (x ∷ xs) a = (fresh x a.0.1, members_below k xs a.1)

    all_below : (k : ℕ) → All (λ d. d < c) (s.queue k)
    all_below k = members_below k (s.queue k) (r.good.members k)

    others : (xs : List ℕ) → All (λ d. d < c) xs → All (λ d. d ≢ c) xs
    others [] a = tt
    others (x ∷ xs) a = (λ e. omega (arith, a.0, e), others xs a.1)

    kept : (k : ℕ) → All (Member l (update c queued s.status) k) (s.queue k)
    kept k =
        keep l s.status c queued k (s.queue k) (r.good.members k) (others (s.queue k) (all_below k))

    new_inside :
        (d : ℕ)
        → l.is_command d ≡ true
        → is_pending (update c queued s.status d) ≡ true
        → q ≡ l.queue_of d
        → In d (s.queue q ++ c ∷ [])
    new_inside d i p h = elim (Bool-cases (c == d)) [
      | inl v ↦ subst (λ z. In z (s.queue q ++ c ∷ [])) ((==_iff c d).0 v) (In-last c (s.queue q))
      | inr v ↦ In-append_left d (s.queue q) (c ∷ []) (
          subst (λ z. In d (s.queue z)) (sym h)
            (r.good.inside d i (was d p λ e. cc ((==_iff c d).1 e, v))))
    ]
