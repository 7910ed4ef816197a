-- ===== src/Commands/Schedule/Run.antt =====
-- src/core/Queue.cpp: execute of a command returns, and what has become of the events then.
use oclgrind.Base.{
  ℕ, zero, suc, ◌+◌, ◌*◌, ◌≡◌, ◌≤◌, ◌<◌, inl, inr, refl, sym, ap, ◌∙◌, subst, arith, Bool, true,
  false, ◌==◌, ==_iff, Bool-cases, List, [], ◌∷◌, ◌++◌, Option, none, some, All, length, ltb,
  ltb→lt,
}
use oclgrind.Commands.Schedule.{
  Status, complete, running, submitted, queued, failed, is_pending, Fixed, State, update,
  add_dependency, run_command, set_waits, executed, check, round, execute, wait,
}
use oclgrind.Commands.Schedule.Invariant.{Good, Short, Good-set_waits, update_self, update_ne}
use oclgrind.Commands.Schedule.Advance.{Advance-waits, Advance-trans, Advance-weaken}
use oclgrind.Commands.Schedule.Reached.{Reached, Returns, Linked, Linked-step, end, step}
use oclgrind.Commands.Schedule.Prepared.{prepared}

module _ {ℓ} {S : Type ℓ} (l : Fixed) (dispatch : ℕ → S → S) (flush : Bool) (n : ℕ) where
  mul_mono : (a b d : ℕ) → a ≤ b → a * d ≤ b * d
  mul_mono a b d le = grind arith

  -- Enough fuel for execute, and for the rest of its loop.
  abbrev Waits : ℕ → Type ℓ
  Waits k =
      (c : ℕ) (s : State S)
      → c * (n + 3) + length (s.waits c) + 1 ≤ k
      → Good l s.status s.waits s.queue
      → Short n c s.status s.waits
      → l.is_command c ≡ true
      → is_pending (s.status c) ≡ true
      → Linked l dispatch flush n c s
      → Returns l dispatch flush n c s (wait l dispatch k flush c s)

  abbrev Executes : ℕ → Type ℓ
  Executes k =
      (c : ℕ) (s : State S)
      → suc c * (n + 3) ≤ k
      → Good l s.status s.waits s.queue
      → Short n (suc c) s.status s.waits
      → l.is_command c ≡ true
      → is_pending (s.status c) ≡ true
      → Returns l dispatch flush n c s (execute l dispatch k flush c s)

  All-prefix : (P : ℕ → Type 0) (xs ys : List ℕ) → All P (xs ++ ys) → All P xs
  All-prefix P [] ys a = tt
  All-prefix P (x ∷ xs) ys a = (a.0, All-prefix P xs ys a.1)

  executes : (k : ℕ) → Waits k → Executes (suc k)
  unfolding execute
  executes k w c s h g sh b q =
      let r = prepared l dispatch flush n c s g sh b q in
      let (t, e, x) =
        w c (add_dependency l dispatch flush c s) (omega (arith, h, r.few)) r.good r.short b
          r.pending r.linked in
      (
        t,
        e,
        record {
          advance =
              Advance-trans l flush (suc c) s.status _ t.status s.waits _ t.waits r.advance
                x.advance;
          good = x.good;
          short = x.short;
          over = x.over;
          unfailed = λ u. x.unfailed (r.sound u);
          waited = λ f.
              All-prefix (λ z. is_pending (t.status z) ≡ false) (s.waits c) r.more.0
                (subst (All (λ z. is_pending (t.status z) ≡ false)) r.more.1 (x.waited f));
        },
      )

  -- One round of the loop of `c`, where execute and what is left of the loop do what they should.
  module _ (k : ℕ) (w : Waits k) (x : Executes k) (c : ℕ) (s : State S)
      (h : c * (n + 3) + length (s.waits c) + 1 ≤ suc k) (g : Good l s.status s.waits s.queue)
      (sh : Short n c s.status s.waits) (b : l.is_command c ≡ true)
      (q : is_pending (s.status c) ≡ true) (linked : Linked l dispatch flush n c s) where
    abbrev execute_one : ℕ → State S → Option (State S)
    execute_one e t = execute l dispatch k flush e t

    abbrev again : State S → Option (State S)
    again t = wait l dispatch k flush c t

    fuel : (e : ℕ) (es : List ℕ) → s.waits c ≡ e ∷ es → c * (n + 3) + length es + 1 ≤ k
    unfolding wait round check set_waits executed run_command
    fuel e es f = omega (arith, h, ap length f)

    deeper : (e : ℕ) → e < c → suc e * (n + 3) ≤ k
    unfolding wait round check set_waits executed run_command
    deeper e lt = omega (arith, h, mul_mono (suc e) c (n + 3) lt)

    short0 : (es : List ℕ) → Short n c s.status (update c es s.waits)
    unfolding wait round check set_waits executed run_command
    short0 es z lt r =
        subst (λ ys. length ys ≤ n) (sym (update_ne c es s.waits z λ f. omega (arith, lt, f)))
          (sh z lt r)

    good0 :
        (e : ℕ) (es : List ℕ) → s.waits c ≡ e ∷ es → Good l s.status (update c es s.waits) s.queue
    unfolding wait round check set_waits executed run_command
    good0 e es f =
        Good-set_waits l s.status s.waits s.queue c es g (subst (All λ z. z < c) f (g.older c q)).1

    front_below : (e : ℕ) (es : List ℕ) → s.waits c ≡ e ∷ es → e < c
    unfolding wait round check set_waits executed run_command
    front_below e es f = (subst (All λ z. z < c) f (g.older c q)).0

    linked0 :
        (e : ℕ) (es : List ℕ)
        → s.waits c ≡ e ∷ es
        → is_pending (s.status e) ≡ false
        → Linked l dispatch flush n c (set_waits l dispatch c es s)
    unfolding wait round check set_waits executed run_command
    linked0 e es f o =
        Linked-step l dispatch flush n c e es s (set_waits l dispatch c es s) f
          (update_self c es s.waits) (Advance-waits l flush c es s.status s.waits) o linked

    -- The front event has ended before.
    passed :
        (e : ℕ) (es : List ℕ) (t : State S)
        → s.waits c ≡ e ∷ es
        → is_pending (s.status e) ≡ false
        → Reached l dispatch flush n c (set_waits l dispatch c es s) t
        → Reached l dispatch flush n c s t
    unfolding wait round check set_waits executed run_command
    passed e es t f o r =
        step l dispatch flush n c e es s (set_waits l dispatch c es s) t f
          (update_self c es s.waits) (Advance-waits l flush c es s.status s.waits) o (λ u. u) r

    short1 :
        (e : ℕ) (es : List ℕ) (u : State S)
        → Reached l dispatch flush n e (set_waits l dispatch c es s) u
        → Short n c u.status u.waits
    unfolding wait round check set_waits executed run_command
    short1 e es u r z lt pz = elim (Bool-cases (ltb z e)) [
      | inl y ↦ r.short z (ltb→lt z e y) pz
      | inr y ↦ elim (Bool-cases (e == z)) [
        | inl v ↦
            absurd (cc (subst (λ i. is_pending (u.status i) ≡ false) ((==_iff e z).0 v) r.over, pz))
        | inr v ↦
            let above : suc e ≤ z = ground arith in
            subst (λ ys. length ys ≤ n) (sym (r.advance.kept_waits z above))
              (short0 es z lt (subst (λ o. is_pending o ≡ true) (r.advance.kept_status z above) pz))
      ]
    ]

    pending_front :
        (e : ℕ) (es : List ℕ)
        → s.waits c ≡ e ∷ es
        → is_pending (s.status e) ≡ true
        → l.is_command e ≡ true
        → (t : State S) × ((u : State S) × (execute_one e (set_waits l dispatch c es s) ≡ some u)
            × (again (executed l dispatch c e u) ≡ some t))
          × Reached l dispatch flush n c s t
    unfolding wait round check set_waits executed run_command
    pending_front e es f p be =
        let lt = front_below e es f in
        let s0 = set_waits l dispatch c es s in
        let (u, eu, ru) =
          x e s0 (deeper e lt) (good0 e es f) (λ z zl r. short0 es z (omega (arith, lt, zl)) r) be
            p in
        let w1 : u.waits c ≡ es =
          ru.advance.kept_waits c (omega (arith, lt)) ∙ update_self c es s.waits in
        let all =
          Advance-trans l flush (suc c) s.status s.status u.status s.waits s0.waits u.waits
            (Advance-waits l flush c es s.status s.waits)
            (Advance-weaken l flush (suc e) (suc c) s.status u.status s0.waits u.waits
              (omega (arith, lt)) ru.advance) in
        let (t, et, rt) =
          w c (executed l dispatch c e u) (omega (arith, fuel e es f, ap length w1)) ru.good
            (short1 e es u ru) b
            (subst (λ r. is_pending r ≡ true) (sym (ru.advance.kept_status c (omega (arith, lt))))
              q)
            (Linked-step l dispatch flush n c e es s (executed l dispatch c e u) f w1 all ru.over
              linked) in
        (
          t,
          (u, eu, et),
          step l dispatch flush n c e es s (executed l dispatch c e u) t f w1 all ru.over
              ru.unfailed rt,
        )

    unsettled : (e : ℕ) → l.is_command e ≡ false → is_pending (s.status e) ≡ true → ⊥
    unfolding wait round check set_waits executed run_command
    unsettled e i p = cc (g.settled e i, p)

    execute_first :
        (e : ℕ) (es : List ℕ)
        → s.waits c ≡ e ∷ es
        → is_pending (s.status e) ≡ true
        → l.is_command e ≡ true
        → Returns l dispatch flush n c s (elim (execute_one e (set_waits l dispatch c es s)) [
          | none ↦ none
          | some u ↦ again (executed l dispatch c e u)
        ])
    unfolding wait round check set_waits executed run_command
    execute_first e es f p be =
        let (t, (u, eu, et), r) = pending_front e es f p be in
        (
          t,
          subst
              (λ o.
                elim o as (λ o. Option (State S)) [
                  | none ↦ none
                  | some u ↦ again (executed l dispatch c e u)
                ]
                ≡ some t)
              (sym eu) et,
          r,
        )

    checks :
        (e : ℕ) (es : List ℕ) (st : Status) (be : Bool)
        → s.waits c ≡ e ∷ es
        → s.status e ≡ st
        → l.is_command e ≡ be
        → Returns l dispatch flush n c s
            (check l dispatch (execute_one e) again c (set_waits l dispatch c es s) e es st be)
    unfolding wait round check set_waits executed run_command
    checks e es (failed j) be f p i = (
      _,
      refl,
      passed e es _ f (subst (λ o. is_pending o ≡ false) (sym p) refl) (
          end l dispatch flush n c (failed j) (set_waits l dispatch c es s) s.memory (good0 e es f)
            (short0 es) q refl (λ z. cc z) λ u m z. u e j p),
    )
    checks e es complete be f p i =
        let o : is_pending (s.status e) ≡ false = subst (λ o. is_pending o ≡ false) (sym p) refl in
        let (t, et, r) =
          w c (set_waits l dispatch c es s)
            (omega (arith, fuel e es f, ap length (update_self c es s.waits))) (good0 e es f)
            (short0 es) b q (linked0 e es f o) in
        (t, et, passed e es t f o r)
    checks e es running true f p i =
        execute_first e es f (subst (λ o. is_pending o ≡ true) (sym p) refl) i
    checks e es submitted true f p i =
        execute_first e es f (subst (λ o. is_pending o ≡ true) (sym p) refl) i
    checks e es queued true f p i =
        execute_first e es f (subst (λ o. is_pending o ≡ true) (sym p) refl) i
    checks e es running false f p i =
        absurd (unsettled e i (subst (λ o. is_pending o ≡ true) (sym p) refl))
    checks e es submitted false f p i =
        absurd (unsettled e i (subst (λ o. is_pending o ≡ true) (sym p) refl))
    checks e es queued false f p i =
        absurd (unsettled e i (subst (λ o. is_pending o ≡ true) (sym p) refl))

    rounds :
        (ws : List ℕ)
        → s.waits c ≡ ws
        → Returns l dispatch flush n c s (round l dispatch execute_one again c s ws)
    unfolding wait round check set_waits executed run_command
    rounds [] f = (
      _,
      refl,
      end l dispatch flush n c complete s (dispatch c s.memory) g sh q refl (λ z. (f, linked))
          λ u m z. cc z,
    )
    rounds (e ∷ es) f = checks e es (s.status e) (l.is_command e) f refl refl

  waits : (k : ℕ) → Waits k → Executes k → Waits (suc k)
  unfolding wait
  waits k w x c s h g sh b q linked = rounds k w x c s h g sh b q linked (s.waits c) refl

  both : (k : ℕ) → Waits k × Executes k
  both zero = (λ c s h g sh b p k. absurd (omega arith), λ c s h g sh b p. absurd (zero_fuel c h))
    where
      zero_fuel : (c : ℕ) → suc c * (n + 3) ≤ 0 → ⊥
      zero_fuel c h = omega arith
  both (suc k) = (waits k (both k).0 (both k).1, executes k (both k).0)

  pub execute-Returns : (k : ℕ) → Executes k
  execute-Returns k = (both k).1
