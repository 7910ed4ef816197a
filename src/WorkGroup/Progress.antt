-- ===== src/WorkGroup/Progress.antt =====
-- src/core/KernelInvocation.cpp, runWorker, and src/core/WorkGroup.cpp: the loop over the work-items of a
-- group does not get stuck.
use oclgrind.Base.{
  ℕ, ◌≡◌, ◌⊎◌, inl, inr, refl, sym, ap, ◌∙◌, subst, Option-cases, List, [], ◌∷◌, none, some,
}
use oclgrind.NdRange.{Size3}
use oclgrind.WorkGroup.{
  WorkGroup, Barrier, AsyncCopy, Memories, insert_items, begin, async_copy, register_copy,
  join_copy, notify_barrier, notify_finished, get_next_work_item, begin_of,
}
use oclgrind.WorkGroup.Sets.{In, insert_item, erase_item}
use oclgrind.WorkGroup.Events.{clear_barrier_lem}
use oclgrind.WorkGroup.Parts.{Parts, Sound, waiting_of, along, In-insert_items, leave, join, stay}
use oclgrind.WorkGroup.Schedule.{
  ItemState, ready, at_barrier, finished, Run, clear_states, finish, Step, copy, wait, return,
  resume, clear_states_finished, clear_states_ready,
}

async_copy-kept :
    (debug_loc : ℕ → ℕ) (i : Size3) (c : AsyncCopy) (s : WorkGroup)
    → ((async_copy debug_loc i c s).0.work_items ≡ s.work_items)
      × ((async_copy debug_loc i c s).0.running ≡ s.running)
      × ((async_copy debug_loc i c s).0.barrier ≡ s.barrier)
unfolding async_copy register_copy
async_copy-kept debug_loc i c s = elim (Option-cases (join_copy debug_loc i c s.async_copies)) [
  | inl e ↦ rw (e, async_copy) ((refl, refl, refl))
  | inr (r, e) ↦ rw (e, async_copy) ((refl, refl, refl))
]

notify_barrier-parts :
    (debug_loc : ℕ → ℕ) (i : Size3) (instruction fence : ℕ) (events : List ℕ) (s : WorkGroup)
    → ((notify_barrier debug_loc i instruction fence events s).work_items ≡ s.work_items)
      × ((notify_barrier debug_loc i instruction fence events s).running ≡ erase_item i s.running)
      × (waiting_of (notify_barrier debug_loc i instruction fence events s).barrier
          ≡ insert_item i (waiting_of s.barrier))
unfolding notify_barrier
notify_barrier-parts debug_loc i instruction fence events s = elim (Option-cases s.barrier) [
  | inl e ↦ rw (e, notify_barrier) ((refl, refl, refl))
  | inr (b, e) ↦ rw (e, notify_barrier) ((refl, refl, refl))
]

next-In : (s : WorkGroup) (i : Size3) → get_next_work_item s ≡ some i → In i s.running
unfolding get_next_work_item
next-In s i h = head s.running h
  where
    head : (xs : List Size3) → begin_of xs ≡ some i → In i xs
    head [] e = cc e
    head (x ∷ xs) e = inl (cc e)

nothing_running : (s : WorkGroup) (j : Size3) → get_next_work_item s ≡ none → In j s.running → ⊥
unfolding get_next_work_item
nothing_running s j h m = empty s.running h m
  where
    empty : (xs : List Size3) → begin_of xs ≡ none → In j xs → ⊥
    empty [] e k = k
    empty (x ∷ xs) e k = cc e

some_eq : {a b : WorkGroup} → some a ≡ some b → a ≡ b
some_eq e = cc e

ItemState-cases : (v : ItemState) → (v ≡ ready) ⊎ ((v ≡ at_barrier) ⊎ (v ≡ finished))
ItemState-cases ready = inl refl
ItemState-cases at_barrier = inr (inl refl)
ItemState-cases finished = inr (inr refl)

-- The state of a work-item decides where it goes when a barrier lets go.
resumed-Parts :
    (r : Run) (b : Barrier)
    → Sound r
    → get_next_work_item r.group ≡ none
    → r.group.barrier ≡ some b
    → Parts r.group.work_items
        (insert_items b.work_items r.group.running)
        []
        (clear_states b.work_items r.state)
resumed-Parts r b p n h = record {
  running_iff = λ j. (there j, back j);
  waiting_iff = λ j. (λ k. absurd k, none_waits j);
}
  where
    waits : (j : Size3) → In j r.group.work_items → r.state j ≡ at_barrier → In j b.work_items
    waits j mem st = subst (λ x. In j (waiting_of x)) h ((p.waiting_iff j).1 (mem, st))

    there :
        (j : Size3)
        → In j (insert_items b.work_items r.group.running)
        → In j r.group.work_items × (clear_states b.work_items r.state j ≡ ready)
    there j k = elim ((In-insert_items b.work_items r.group.running j).0 k) [
      | inl w ↦
          let (mem, st) = (p.waiting_iff j).0 (subst (λ x. In j (waiting_of x)) (sym h) w) in
          (mem, clear_states_ready b.work_items r.state j w st)
      | inr run ↦ absurd (nothing_running r.group j n run)
    ]

    back :
        (j : Size3)
        → In j r.group.work_items × (clear_states b.work_items r.state j ≡ ready)
        → In j (insert_items b.work_items r.group.running)
    back j (mem, st) = elim (ItemState-cases (r.state j)) [
      | inl e ↦ absurd (nothing_running r.group j n ((p.running_iff j).1 (mem, e)))
      | inr (inl e) ↦ (In-insert_items b.work_items r.group.running j).1 (inl (waits j mem e))
      | inr (inr e) ↦ cc (clear_states_finished b.work_items r.state j e, st)
    ]

    none_waits :
        (j : Size3)
        → In j r.group.work_items × (clear_states b.work_items r.state j ≡ at_barrier)
        → ⊥
    none_waits j (mem, st) = elim (ItemState-cases (r.state j)) [
      | inl e ↦ absurd (nothing_running r.group j n ((p.running_iff j).1 (mem, e)))
      | inr (inl e) ↦ cc (clear_states_ready b.work_items r.state j (waits j mem e) e, st)
      | inr (inr e) ↦ cc (clear_states_finished b.work_items r.state j e, st)
    ]

module _ (fresh : ℕ → List ℕ) (debug_loc : ℕ → ℕ) where
  -- The states that a group reaches whose work-items are `items`.
  pub data Reach (items : List Size3) (m : Memories) : Run → Type 0 where
    start : Reach items m (record { group = begin items m; state = λ i. ready })
    next : {r r' : Run} → Reach items m r → Step fresh debug_loc r r' → Reach items m r'

  start-Sound :
      (items : List Size3) (m : Memories)
      → Sound (record { group = begin items m; state = λ i. ready })
  unfolding begin
  start-Sound items m = record {
    running_iff = λ j. (
      λ h. (elim ((In-insert_items items [] j).0 h) [ inl k ↦ k | inr k ↦ absurd k ], refl),
      λ h. (In-insert_items items [] j).1 (inl h.0),
    );
    waiting_iff = λ j. (λ h. absurd h, λ h. cc h.1);
  }

  step-Sound : {r r' : Run} → Sound r → Step fresh debug_loc r r' → Sound r'
  unfolding notify_finished
  step-Sound {r} p (copy i c n e) =
      let (a, b, d) = async_copy-kept debug_loc i c r.group in along a b (ap waiting_of d) p
  step-Sound {r} p (wait i instruction fence events n e) =
      let (a, b, d) = notify_barrier-parts debug_loc i instruction fence events r.group in
      let member = ((p.running_iff i).0 (next-In r.group i n)).0 in
      along a b d (record {
        running_iff = leave _ _ r.state i at_barrier (λ q. cc q) p.running_iff;
        waiting_iff = join _ _ r.state i member e p.waiting_iff;
      })
  step-Sound {r} p (return i n e) = record {
    running_iff = leave _ _ r.state i finished (λ q. cc q) p.running_iff;
    waiting_iff = stay _ _ r.state i e p.waiting_iff;
  }
  step-Sound {r} p (resume b g n h e) =
      let (g', made, none_left, items, run, gone) = clear_barrier_lem fresh r.group b h in
      subst (λ x. Sound (record { group = x; state = clear_states b.work_items r.state }))
        (some_eq (sym made ∙ e))
        (along items run (ap waiting_of none_left) (resumed-Parts r b p n h))

  -- The group of every reachable state has its work-items where their states say.
  pub Reach-Sound : (items : List Size3) (m : Memories) {r : Run} → Reach items m r → Sound r
  Reach-Sound items m start = start-Sound items m
  Reach-Sound items m (next h k) = step-Sound (Reach-Sound items m h) k

  step-items : {r r' : Run} → Step fresh debug_loc r r' → r'.group.work_items ≡ r.group.work_items
  unfolding notify_finished
  step-items {r} (copy i c n e) = (async_copy-kept debug_loc i c r.group).0
  step-items {r} (wait i instruction fence events n e) =
      (notify_barrier-parts debug_loc i instruction fence events r.group).0
  step-items (return i n e) = refl
  step-items {r} (resume b g n h e) =
      let (g', made, none_left, items, run, gone) = clear_barrier_lem fresh r.group b h in
      ap (λ x. x.work_items) (some_eq (sym e ∙ made)) ∙ items

  Reach-items :
      (items : List Size3) (m : Memories) {r : Run} → Reach items m r → r.group.work_items ≡ items
  unfolding begin
  Reach-items items m start = refl
  Reach-items items m (next h k) = step-items k ∙ Reach-items items m h

  -- In every state that a group reaches, either all of its work-items have finished, or runWorker can make
  -- another step: the next work-item is ready, or there is none and a barrier can be cleared.
  pub progress :
      (items : List Size3) (m : Memories) (r : Run)
      → Reach items m r
      → ((i : Size3) → In i items → r.state i ≡ finished) ⊎ ((r' : Run) × Step fresh debug_loc r r')
  progress items m r h =
      let p = Reach-Sound items m h in
      elim (Option-cases (get_next_work_item r.group)) [
        | inr (i, e) ↦ inr (finish i r, return i e ((p.running_iff i).0 (next-In r.group i e)).1)
        | inl n ↦ elim (Option-cases r.group.barrier) [
          | inr (b, e) ↦
              let (g, made, _, _, _, _) = clear_barrier_lem fresh r.group b e in
              inr (
                record { group = g; state = clear_states b.work_items r.state },
                resume b g n e made,
              )
          | inl none_there ↦ inl λ i mem.
              let member = subst (λ x. In i x) (sym (Reach-items items m h)) mem in
              elim (ItemState-cases (r.state i)) [
                | inl e ↦ absurd (nothing_running r.group i n ((p.running_iff i).1 (member, e)))
                | inr (inl e) ↦
                    absurd (
                      subst (λ x. In i (waiting_of x)) none_there ((p.waiting_iff i).1 (member, e)))
                | inr (inr e) ↦ e
              ]
        ]
      ]
