-- ===== src/Commands/Schedule/Failure.antt =====
-- src/core/Queue.cpp: what becomes of a command that waits for an event that has failed.
use mathlib.Core.List.{append_assoc}
use oclgrind.Base.{
  ℕ, zero, suc, ◌<◌, All, length, arith, ◌≡◌, ◌≢◌, ◌⊎◌, inl, inr, refl, sym, ap, ◌∙◌, Bool, true,
  false, not, ◌||◌, Bool-cases, List, [], ◌∷◌, ◌++◌, none, some, Option-cases,
}
use oclgrind.Commands.Schedule.{
  complete, queued, failed, Fixed, State, update, preceding, erase, add_dependency, remove,
  run_command, set_waits, executed, check, round, execute, wait,
}
use oclgrind.Commands.Schedule.Invariant.{update_self, update_ne}

module _ {ℓ} {S : Type ℓ} (l : Fixed) (dispatch : ℕ → S → S) where
  -- The state that a failed front of the wait list leads to.
  record Fails (c k : ℕ) (s t : State S) : Type ℓ where
    memory : t.memory ≡ s.memory
    status : t.status ≡ update c (failed k) s.status
    queue : t.queue ≡ update (l.queue_of c) (erase c (s.queue (l.queue_of c))) s.queue
    waits : (d : ℕ) → c ≢ d → t.waits d ≡ s.waits d

  wait_failed :
      (m : ℕ) (flush : Bool) (c e k : ℕ) (es : List ℕ) (s : State S)
      → s.waits c ≡ e ∷ es
      → s.status e ≡ failed k
      → (t : State S) × (wait l dispatch (suc m) flush c s ≡ some t) × Fails c k s t
  unfolding wait round check remove set_waits
  wait_failed m flush c e k es s w f = (
    remove l dispatch c (failed k) (set_waits l dispatch c es s),
    rw (w, f, wait, round, check) refl,
    record {
      memory = refl;
      status = refl;
      queue = refl;
      waits = λ d n. update_ne c es s.waits d n;
    },
  )

  -- The same behind events that are complete: each of them takes a round.
  wait_failed_behind :
      (ds : List ℕ) (m : ℕ) (flush : Bool) (c e k : ℕ) (es : List ℕ) (s : State S)
      → s.waits c ≡ ds ++ e ∷ es
      → All (λ d. s.status d ≡ complete) ds
      → s.status e ≡ failed k
      → length ds < m
      → (t : State S) × (wait l dispatch m flush c s ≡ some t) × Fails c k s t
  unfolding wait round check set_waits
  wait_failed_behind ds zero flush c e k es s w h f lt = absurd (omega arith)
  wait_failed_behind [] (suc m) flush c e k es s w h f lt = wait_failed m flush c e k es s w f
  wait_failed_behind (d ∷ ds) (suc m) flush c e k es s w h f lt =
      let s' = set_waits l dispatch c (ds ++ e ∷ es) s in
      let (t, et, x) =
        wait_failed_behind ds m flush c e k es s' (update_self c (ds ++ e ∷ es) s.waits) h.1 f
          (omega arith) in
      (
        t,
        rw (w, h.0, wait, round, check) et,
        record {
          memory = x.memory;
          status = x.status;
          queue = x.queue;
          waits = λ i n. x.waits i n ∙ update_ne c (ds ++ e ∷ es) s.waits i n;
        },
      )

  add_dependency-cases :
      (flush : Bool) (c : ℕ) (s : State S)
      → (add_dependency l dispatch flush c s ≡ s)
        ⊎ ((p : ℕ) × (add_dependency l dispatch flush c s
              ≡ set_waits l dispatch c (s.waits c ++ p ∷ []) s))
  unfolding add_dependency set_waits
  add_dependency-cases flush c s = elim (Option-cases (preceding none c (s.queue (l.queue_of c)))) [
    | inl e ↦ inl (rw (e, add_dependency) refl)
    | inr (p, e) ↦ elim (Bool-cases (not (l.out_of_order (l.queue_of c)) || flush)) [
      | inl o ↦ inr (p, rw (e, o, add_dependency) refl)
      | inr n ↦ inl (rw (e, n, add_dependency) refl)
    ]
  ]

  execute_failed :
      (ds : List ℕ) (m : ℕ) (flush : Bool) (c e k : ℕ) (es : List ℕ) (s : State S)
      → s.waits c ≡ ds ++ e ∷ es
      → All (λ d. s.status d ≡ complete) ds
      → s.status e ≡ failed k
      → length ds < m
      → (t : State S) × (execute l dispatch (suc m) flush c s ≡ some t) × Fails c k s t
  unfolding execute set_waits
  execute_failed ds m flush c e k es s w h f lt = elim (add_dependency-cases flush c s) [
    | inl a ↦
        let (t, et, x) = wait_failed_behind ds m flush c e k es s w h f lt in
        (t, ap (λ u. wait l dispatch m flush c u) a ∙ et, x)
    | inr (p, a) ↦
        let s' = set_waits l dispatch c (s.waits c ++ p ∷ []) s in
        let (t, et, x) =
          wait_failed_behind ds m flush c e k (es ++ p ∷ []) s'
            (update_self c (s.waits c ++ p ∷ []) s.waits
              ∙ ap (λ ys. ys ++ p ∷ []) w
              ∙ append_assoc ds (e ∷ es) (p ∷ []))
            h f lt in
        (
          t,
          ap (λ u. wait l dispatch m flush c u) a ∙ et,
          record {
            memory = x.memory;
            status = x.status;
            queue = x.queue;
            waits = λ d n. x.waits d n ∙ update_ne c (s.waits c ++ p ∷ []) s.waits d n;
          },
        )
  ]

module _ {ℓ} {S : Type ℓ} (l : Fixed) (dispatch : ℕ → S → S) where
  -- No dependency is added in a queue that is out of order.
  nothing_added :
      (c : ℕ) (s : State S)
      → l.out_of_order (l.queue_of c) ≡ true
      → add_dependency l dispatch false c s ≡ s
  unfolding add_dependency
  nothing_added c s o = elim (Option-cases (preceding none c (s.queue (l.queue_of c)))) [
    | inl e ↦ rw (e, add_dependency) refl
    | inr (p, e) ↦ rw (e, o, add_dependency) refl
  ]

  -- A round that executes the only command that is waited for.
  pub front_run :
      (flush : Bool) (m c e : ℕ) (s u : State S)
      → s.waits c ≡ e ∷ []
      → s.status e ≡ queued
      → l.is_command e ≡ true
      → execute l dispatch m flush e (set_waits l dispatch c [] s) ≡ some u
      → wait l dispatch (suc m) flush c s ≡ wait l dispatch m flush c (executed l dispatch c e u)
  unfolding wait round check
  front_run flush m c e s u w p b eu = rw (wait, w, round, p, b, check, eu) refl

  pub last_round :
      (flush : Bool) (m c : ℕ) (s : State S)
      → s.waits c ≡ []
      → wait l dispatch (suc m) flush c s ≡ some (run_command l dispatch c s)
  unfolding wait round
  last_round flush m c s w = rw (wait, w, round) refl

-- execute of a command whose wait list has an event that has failed, behind any number of events that are
-- complete, gives the command the state of that event and removes it from its queue, on fuel for the events
-- in front of it and two more rounds, with `flush` or without: no command runs, not the one itself nor those
-- of the events that follow, and no other event changes.
pub execute-first_failed {ℓ} :
    {S : Type ℓ} (l : Fixed) (dispatch : ℕ → S → S) (ds : List ℕ) (m : ℕ) (flush : Bool) (c e k : ℕ)
    (es : List ℕ) (s : State S)
    → s.waits c ≡ ds ++ e ∷ es
    → All (λ d. s.status d ≡ complete) ds
    → s.status e ≡ failed k
    → length ds < m
    → (t : State S) × (execute l dispatch (suc m) flush c s ≡ some t)
      × (t.memory ≡ s.memory)
      × (t.status c ≡ failed k)
      × ((d : ℕ) → c ≢ d → t.status d ≡ s.status d)
      × (t.queue (l.queue_of c) ≡ erase c (s.queue (l.queue_of c)))
execute-first_failed l dispatch ds m flush c e k es s w h f lt =
    let (t, et, x) = execute_failed l dispatch ds m flush c e k es s w h f lt in
    (
      t,
      et,
      x.memory,
      ap (λ g. g c) x.status ∙ update_self c (failed k) s.status,
      λ d n. ap (λ g. g d) x.status ∙ update_ne c (failed k) s.status d n,
      ap (λ g. g (l.queue_of c)) x.queue ∙ update_self (l.queue_of c) _ s.queue,
    )

-- A command of an out-of-order queue that waits only for a command that is queued is completed by execute
-- without `flush`, even if that command fails since the first event it waits for has failed.
pub execute-unnoticed_failure {ℓ} :
    {S : Type ℓ} (l : Fixed) (dispatch : ℕ → S → S) (m : ℕ) (c e f k : ℕ) (fs : List ℕ)
    (s : State S)
    → l.out_of_order (l.queue_of c) ≡ true
    → l.is_command e ≡ true
    → s.waits c ≡ e ∷ []
    → s.status e ≡ queued
    → s.waits e ≡ f ∷ fs
    → s.status f ≡ failed k
    → c ≢ e
    → (t : State S) × (execute l dispatch (suc (suc (suc (suc m)))) false c s ≡ some t)
      × (t.status e ≡ failed k)
      × (t.status c ≡ complete)
      × (t.memory ≡ dispatch c s.memory)
unfolding execute set_waits executed run_command remove
execute-unnoticed_failure l dispatch m c e f k fs s o b w p w' p' ne =
    let s0 = set_waits l dispatch c [] s in
    let (u, eu, x) =
      execute_failed l dispatch [] (suc m) false e f k fs s0 (waits_of_e ∙ w') tt p'
        (omega arith) in
    let v = executed l dispatch c e u in
    let none_left : v.waits c ≡ [] = x.waits c (λ h. ne (sym h)) ∙ update_self c [] s.waits in
    (
      run_command l dispatch c v,
      ap (λ t. wait l dispatch (suc (suc (suc m))) false c t) (nothing_added l dispatch c s o)
          ∙ front_run l dispatch false (suc (suc m)) c e s u w p b eu
          ∙ last_round l dispatch false (suc m) c v none_left,
      update_ne c complete v.status e ne
          ∙ ap (λ g. g e) x.status
          ∙ update_self e (failed k) s.status,
      update_self c complete v.status,
      ap (dispatch c) x.memory,
    )
  where
    waits_of_e : update c [] s.waits e ≡ s.waits e
    waits_of_e = update_ne c [] s.waits e ne
