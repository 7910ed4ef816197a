-- ===== src/WorkGroup/Parts.antt =====
-- src/core/KernelInvocation.cpp, runWorker, and src/core/WorkGroup.cpp: where each work-item of a group is,
-- and that the loop over them does not get stuck.
use oclgrind.Base.{
  ◌≡◌, ◌≢◌, ◌⊎◌, ◌↔◌, inl, inr, sym, ap, ◌∙◌, subst, List, [], ◌∷◌, Option, none, some,
}
use oclgrind.NdRange.{Size3}
use oclgrind.WorkGroup.{Barrier, insert_items}
use oclgrind.WorkGroup.Sets.{
  In, In-insert_item, In-erase_item, insert_item, erase_item, equal_or_not,
}
use oclgrind.WorkGroup.Schedule.{
  ItemState, with_state_self, with_state_ne, ready, at_barrier, finished, Run, with_state,
}

abbrev pub waiting_of : Option Barrier → List Size3
waiting_of none = []
waiting_of (some b) = b.work_items

-- The ready work-items of the group are those that are running, and those at a barrier those that the
-- group's barrier has.
pub record Parts (items running waiting : List Size3) (state : Size3 → ItemState) : Type 0 where
  pub running_iff : (j : Size3) → In j running ↔ (In j items × (state j ≡ ready))
  pub waiting_iff : (j : Size3) → In j waiting ↔ (In j items × (state j ≡ at_barrier))

abbrev pub Sound : Run → Type 0
Sound r = Parts r.group.work_items r.group.running (waiting_of r.group.barrier) r.state

pub along :
    {items items' running running' waiting waiting' : List Size3} {f : Size3 → ItemState}
    → items' ≡ items
    → running' ≡ running
    → waiting' ≡ waiting
    → Parts items running waiting f
    → Parts items' running' waiting' f
along {items} {items'} {running} {running'} {waiting} {waiting'} {f} a b c p =
    subst (λ x. Parts x running' waiting' f) (sym a)
      (subst (λ x. Parts items x waiting' f) (sym b)
        (subst (λ x. Parts items running x f) (sym c) p))

pub In-insert_items :
    (is set : List Size3) (j : Size3) → In j (insert_items is set) ↔ (In j is ⊎ In j set)
unfolding insert_items
In-insert_items [] set j = (inr, λ h. elim h [ inl k ↦ absurd k | inr k ↦ k ])
In-insert_items (i ∷ is) set j =
    regroup (In-insert_items is (insert_item i set) j) (In-insert_item i j set)
  where
    regroup : {A B C D E : Type 0} → (A ↔ (B ⊎ C)) → (C ↔ (D ⊎ E)) → A ↔ ((D ⊎ B) ⊎ E)
    regroup {A} {B} {C} {D} {E} (to, from) (split, merge) = (there, back)
      where
        there : A → (D ⊎ B) ⊎ E
        there h = elim (to h) [
          | inl k ↦ inl (inr k)
          | inr k ↦ elim (split k) [ inl d ↦ inl (inl d) | inr e ↦ inr e ]
        ]

        back : (D ⊎ B) ⊎ E → A
        back (inl (inl d)) = from (inr (merge (inl d)))
        back (inl (inr k)) = from (inl k)
        back (inr e) = from (inr (merge (inr e)))

-- A work-item leaves the running ones when its state is no longer ready.
pub leave :
    (items running : List Size3) (f : Size3 → ItemState) (i : Size3) (v : ItemState)
    → v ≢ ready
    → ((j : Size3) → In j running ↔ (In j items × (f j ≡ ready)))
    → (j : Size3) → In j (erase_item i running) ↔ (In j items × (with_state f i v j ≡ ready))
leave items running f i v nr h j = (there, back)
  where
    there : In j (erase_item i running) → In j items × (with_state f i v j ≡ ready)
    there k =
        let (ne, run) = (In-erase_item i j running).0 k in
        let (mem, st) = (h j).0 run in (mem, with_state_ne f i j v ne ∙ st)

    back : In j items × (with_state f i v j ≡ ready) → In j (erase_item i running)
    back (mem, st) =
        let ne : j ≢ i = λ e. nr (sym (with_state_self f i j v e) ∙ st) in
        (In-erase_item i j running).1 (ne, (h j).1 (mem, sym (with_state_ne f i j v ne) ∙ st))

ready_not_waiting : ready ≢ at_barrier
ready_not_waiting e = cc e

-- It joins those at the barrier, or not.
pub join :
    (items waiting : List Size3) (f : Size3 → ItemState) (i : Size3)
    → In i items
    → f i ≡ ready
    → ((j : Size3) → In j waiting ↔ (In j items × (f j ≡ at_barrier)))
    → (j : Size3)
    → In j (insert_item i waiting) ↔ (In j items × (with_state f i at_barrier j ≡ at_barrier))
join items waiting f i member r h j = (there, back)
  where
    there : In j (insert_item i waiting) → In j items × (with_state f i at_barrier j ≡ at_barrier)
    there k = elim ((In-insert_item i j waiting).0 k) [
      | inl e ↦ (subst (λ x. In x items) (sym e) member, with_state_self f i j at_barrier e)
      | inr w ↦
          let (mem, st) = (h j).0 w in
          (
            mem,
            with_state_ne f i j at_barrier (λ e. ready_not_waiting (sym r ∙ ap f (sym e) ∙ st))
                ∙ st,
          )
    ]

    back : In j items × (with_state f i at_barrier j ≡ at_barrier) → In j (insert_item i waiting)
    back (mem, st) = elim (equal_or_not i j) [
      | inl (e, t) ↦ (In-insert_item i j waiting).1 (inl (sym e))
      | inr (ne, t) ↦
          (In-insert_item i j waiting).1
            (inr ((h j).1 (mem, sym (with_state_ne f i j at_barrier (λ e. ne (sym e))) ∙ st)))
    ]

pub stay :
    (items waiting : List Size3) (f : Size3 → ItemState) (i : Size3)
    → f i ≡ ready
    → ((j : Size3) → In j waiting ↔ (In j items × (f j ≡ at_barrier)))
    → (j : Size3) → In j waiting ↔ (In j items × (with_state f i finished j ≡ at_barrier))
stay items waiting f i r h j = (there, back)
  where
    there : In j waiting → In j items × (with_state f i finished j ≡ at_barrier)
    there w =
        let (mem, st) = (h j).0 w in
        (
          mem,
          with_state_ne f i j finished (λ e. ready_not_waiting (sym r ∙ ap f (sym e) ∙ st)) ∙ st,
        )

    back : In j items × (with_state f i finished j ≡ at_barrier) → In j waiting
    back (mem, st) = elim (equal_or_not i j) [
      | inl (e, t) ↦ cc (with_state_self f i j finished (sym e), st)
      | inr (ne, t) ↦ (h j).1 (mem, sym (with_state_ne f i j finished (λ e. ne (sym e))) ∙ st)
    ]
