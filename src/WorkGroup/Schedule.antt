-- ===== src/WorkGroup/Schedule.antt =====
-- src/core/KernelInvocation.cpp, runWorker: the work-items of a group are run in turn, each until it is
-- at a barrier or finished, and a barrier is cleared when none is ready.
use oclgrind.Base.{
  ℕ, ◌≡◌, ◌≢◌, inl, inr, refl, sym, ap, ◌∙◌, ◌||◌, if◌then◌else◌, List, [], ◌∷◌, none, some,
}
use oclgrind.NdRange.{Size3}
use oclgrind.WorkGroup.{
  WorkGroup, Barrier, AsyncCopy, async_copy, notify_barrier, notify_finished, clear_barrier,
  get_next_work_item,
}
use oclgrind.WorkGroup.Sets.{precedes, In, equal_or_not}

-- WorkItem::State
pub data ItemState : Type 0 where
  ready : ItemState
  at_barrier : ItemState
  finished : ItemState

-- The group that is run, and the states of its work-items.
pub record Run : Type 0 where
  pub group : WorkGroup
  pub state : Size3 → ItemState

-- `m_state = v` in one work-item.
pub with_state : (Size3 → ItemState) → Size3 → ItemState → Size3 → ItemState
with_state f i v j = if precedes i j || precedes j i then f j else v

-- WorkItem::clearBarrier
pub cleared_state : ItemState → ItemState
cleared_state at_barrier = ready
cleared_state s = s

-- The work-items that a barrier has let go are those that were at it.
pub clear_states : List Size3 → (Size3 → ItemState) → Size3 → ItemState
clear_states [] f j = f j
clear_states (i ∷ is) f j = clear_states is (with_state f i (cleared_state (f i))) j

-- The instruction is a barrier or waits for events.
abbrev pub reach_barrier : (ℕ → ℕ) → Size3 → ℕ → ℕ → List ℕ → Run → Run
reach_barrier debug_loc i instruction fence events r = record {
  group = notify_barrier debug_loc i instruction fence events r.group;
  state = with_state r.state i at_barrier;
}

-- The instruction returns from the kernel.
abbrev pub finish : Size3 → Run → Run
finish i r = record { group = notify_finished i r.group; state = with_state r.state i finished }

-- A step of runWorker, in a group whose next work-item is ready: its next instruction has an effect on
-- the group; or, with no next work-item, the barrier is cleared.
pub data Step (fresh : ℕ → List ℕ) (debug_loc : ℕ → ℕ) : Run → Run → Type 0 where
  copy :
      {r : Run} (i : Size3) (c : AsyncCopy)
      → get_next_work_item r.group ≡ some i
      → r.state i ≡ ready
      → Step fresh debug_loc r (record r { group = (async_copy debug_loc i c r.group).0 })
  wait :
      {r : Run} (i : Size3) (instruction fence : ℕ) (events : List ℕ)
      → get_next_work_item r.group ≡ some i
      → r.state i ≡ ready
      → Step fresh debug_loc r (reach_barrier debug_loc i instruction fence events r)
  return :
      {r : Run} (i : Size3)
      → get_next_work_item r.group ≡ some i
      → r.state i ≡ ready
      → Step fresh debug_loc r (finish i r)
  resume :
      {r : Run} (b : Barrier) (g : WorkGroup)
      → get_next_work_item r.group ≡ none
      → r.group.barrier ≡ some b
      → clear_barrier fresh r.group ≡ some g
      → Step fresh debug_loc r (record { group = g; state = clear_states b.work_items r.state })

pub with_state_self :
    (f : Size3 → ItemState) (i j : Size3) (v : ItemState) → j ≡ i → with_state f i v j ≡ v
unfolding with_state
with_state_self f i j v e = elim (equal_or_not i j) [
  | inl (s, n) ↦ rw n
  | inr (ne, t) ↦ absurd (ne (sym e))
]

pub with_state_ne :
    (f : Size3 → ItemState) (i j : Size3) (v : ItemState) → j ≢ i → with_state f i v j ≡ f j
unfolding with_state
with_state_ne f i j v ne = elim (equal_or_not i j) [
  | inl (s, n) ↦ absurd (ne (sym s))
  | inr (m, t) ↦ rw t
]

-- Work-items that were not at a barrier keep their states, and those that it lets go are ready.
pub clear_states_kept :
    (is : List Size3) (f : Size3 → ItemState) (j : Size3) (v : ItemState)
    → cleared_state v ≡ v
    → f j ≡ v
    → clear_states is f j ≡ v
unfolding clear_states
clear_states_kept [] f j v c h = h
clear_states_kept (i ∷ is) f j v c h = elim (equal_or_not i j) [
  | inl (e, t) ↦
      clear_states_kept is _ j v c
        (with_state_self f i j _ (sym e) ∙ ap cleared_state (ap f e ∙ h) ∙ c)
  | inr (ne, t) ↦ clear_states_kept is _ j v c (with_state_ne f i j _ (λ e. ne (sym e)) ∙ h)
]

pub clear_states_ready :
    (is : List Size3) (f : Size3 → ItemState) (j : Size3)
    → In j is
    → f j ≡ at_barrier
    → clear_states is f j ≡ ready
unfolding clear_states
clear_states_ready [] f j m h = absurd m
clear_states_ready (i ∷ is) f j m h = elim (equal_or_not i j) [
  | inl (e, t) ↦ clear_states_kept is _ j ready (unfold cleared_state in refl) (
      with_state_self f i j _ (sym e)
      ∙ ap cleared_state (ap f e ∙ h)
      ∙ unfold cleared_state in refl)
  | inr (ne, t) ↦
      clear_states_ready is _ j (elim m [ inl e ↦ absurd (ne (sym e)) | inr k ↦ k ])
        (with_state_ne f i j _ (λ e. ne (sym e)) ∙ h)
]

pub clear_states_finished :
    (is : List Size3) (f : Size3 → ItemState) (j : Size3)
    → f j ≡ finished
    → clear_states is f j ≡ finished
unfolding cleared_state
clear_states_finished is f j h = clear_states_kept is f j finished refl h
