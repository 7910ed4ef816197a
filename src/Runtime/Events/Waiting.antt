-- ===== src/Runtime/Events/Waiting.antt =====
-- src/runtime/runtime.cpp and src/core/Queue.cpp: clWaitForEvents returns.
use oclgrind.Base.{
  ℕ, suc, ◌+◌, ◌*◌, ◌≡◌, ◌≤◌, inl, inr, refl, sym, ◌∙◌, subst, Bool, true, false, ◌||◌, Bool-cases,
  List, [], ◌∷◌, some, All, Result, ok,
}
use oclgrind.Commands.Schedule.{
  Status, complete, running, submitted, queued, failed, is_pending, Fixed, State,
}
use oclgrind.Commands.Schedule.Finish.{Ready, execute-returns}
use oclgrind.Runtime.{Code, exec_status_error, reject_if}
use oclgrind.Runtime.Events.{wait_one, wait_pass, wait_loop, any_failed, is_failed, wait_for_events}

module _ {ℓ} {S : Type ℓ} (l : Fixed) (dispatch : ℕ → S → S) (n fuel : ℕ) where
  -- What an event, or a list of events, has been waited for.
  record Waited (s t : State S) : Type ℓ where
    ready : Ready l n t
    final : (e : ℕ) → is_pending (s.status e) ≡ false → t.status e ≡ s.status e

  one_lem :
      (e : ℕ) (s : State S)
      → Ready l n s
      → suc e * (n + 3) ≤ fuel
      → (t : State S) × (wait_one l dispatch fuel e s ≡ some (true, t))
        × Waited s t
        × (is_pending (t.status e) ≡ false)
  unfolding wait_one
  one_lem e s r h = elim (Bool-cases (is_pending (s.status e))) [
    | inr p ↦ (s, rw (p, wait_one) refl, record { ready = r; final = λ d q. refl }, p)
    | inl p ↦ elim (Bool-cases (l.is_command e)) [
      | inr b ↦ absurd (cc (r.good.settled e b, p))
      | inl b ↦
          let (t, et, ready, over, final, waited) =
            execute-returns l dispatch n fuel false e s h r b p in
          (t, rw (p, b, et, over, wait_one) refl, record { ready = ready; final = final }, over)
    ]
  ]

  pass_lem :
      (es : List ℕ) (s : State S)
      → Ready l n s
      → All (λ e. suc e * (n + 3) ≤ fuel) es
      → (t : State S) × (wait_pass l dispatch fuel es s ≡ some (true, t))
        × Waited s t
        × All (λ e. is_pending (t.status e) ≡ false) es
  unfolding wait_pass
  pass_lem [] s r h = (s, refl, record { ready = r; final = λ d q. refl }, tt)
  pass_lem (e ∷ es) s r h =
      let (t, et, w, over) = one_lem e s r h.0 in
      let (u, eu, w', all) = pass_lem es t w.ready h.1 in
      (
        u,
        rw (et, wait_pass, eu) refl,
        record {
          ready = w'.ready;
          final = λ d q.
              w'.final d (subst (λ z. is_pending z ≡ false) (sym (w.final d q)) q) ∙ w.final d q;
        },
        (subst (λ z. is_pending z ≡ false) (sym (w'.final e over)) over, all),
      )

-- Events that are over and of which none has failed are complete.
any_failed_lem :
    (status : ℕ → Status) (es : List ℕ)
    → All (λ e. is_pending (status e) ≡ false) es
    → any_failed status es ≡ false
    → All (λ e. status e ≡ complete) es
unfolding any_failed
any_failed_lem status [] over f = tt
any_failed_lem status (e ∷ es) over f =
    (one (status e) over.0 (neither _ _ f).0, any_failed_lem status es over.1 (neither _ _ f).1)
  where
    neither : (a b : Bool) → (a || b) ≡ false → (a ≡ false) × (b ≡ false)
    neither true b g = absurd (cc g)
    neither false b g = (refl, g)

    one : (t : Status) → is_pending t ≡ false → is_failed t ≡ false → t ≡ complete
    one complete p g = refl
    one (failed k) p g = absurd (cc g)
    one running p g = absurd (cc p)
    one submitted p g = absurd (cc p)
    one queued p g = absurd (cc p)

passed : (b : Bool) (c : Code) → reject_if b c ≡ ok tt → b ≡ false
unfolding reject_if
passed true c e = absurd (cc e)
passed false c e = refl

-- clWaitForEvents of at least one event returns after one pass of its loop, where (e + 1) * (n + 3) rounds are given for each event e and wait
-- lists have at most `n` events, if the application has set its user events: every event is over then, execute can be
-- called again, and if it returns CL_SUCCESS then every event is complete.
pub wait_for_events-returns {ℓ} :
    {S : Type ℓ} (l : Fixed) (dispatch : ℕ → S → S) (n fuel rounds number : ℕ) (es : List ℕ)
    (s : State S)
    → Ready l n s
    → All (λ e. suc e * (n + 3) ≤ fuel) es
    → (t : State S) × (r : Result Code (Unit {0})) × (wait_for_events l dispatch
          (suc rounds)
          fuel
          (suc number)
          (some es)
          s
        ≡ some (t, r))
      × Ready l n t
      × All (λ e. is_pending (t.status e) ≡ false) es
      × (r ≡ ok tt → All (λ e. t.status e ≡ complete) es)
unfolding wait_for_events wait_loop
wait_for_events-returns l dispatch n fuel rounds number es s r h =
    let (t, et, w, over) = pass_lem l dispatch n fuel es s r h in
    (
      t,
      reject_if (any_failed t.status es) exec_status_error,
      rw (et, wait_for_events, wait_loop) refl,
      w.ready,
      over,
      λ g. any_failed_lem t.status es over (passed (any_failed t.status es) exec_status_error g),
    )
