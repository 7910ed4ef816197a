-- ===== src/WorkGroup/Events.antt =====
-- src/core/WorkGroup.cpp: what clearBarrier does with the work-items and the awaited events.
use oclgrind.Base.{
  ℕ, zero, suc, ◌≤◌, ◌≡◌, ◌≢◌, ◌⊎◌, inl, inr, refl, ◌∙◌, subst, arith, false, ◌==◌, ==_iff,
  Bool-cases, List, [], ◌∷◌, ◌++◌, none, some, length, All,
}
use oclgrind.NdRange.{Size3}
use oclgrind.WorkGroup.{
  WorkGroup, Barrier, AsyncCopy, has_event, erase_event, finish_copies, finish_event, finish_events,
  remove, release, say, insert_items, clear_barrier, barrier_passed,
}

-- The members of a list of numbers.
abbrev pub Member : ℕ → List ℕ → Type 0
Member e [] = ⊥
Member e (x ∷ xs) = (e ≡ x) ⊎ Member e xs

-- Nothing of the event is left: neither itself nor a copy that waits for it.
abbrev pub Gone : ℕ → WorkGroup → Type 0
Gone e s = (has_event e s.events ≡ false) × All (λ c. c.0.event ≢ e) s.async_copies

has_event-erase_self :
    (e : ℕ) (m : List (ℕ × List AsyncCopy)) → has_event e (erase_event e m) ≡ false
unfolding has_event erase_event
has_event-erase_self e [] = refl
has_event-erase_self e ((k, cs) ∷ m) = elim (Bool-cases (k == e)) [
  | inl same ↦ rw same (has_event-erase_self e m)
  | inr other ↦ rw other (ground (arith, has_event-erase_self e m))
]

has_event-erase_other :
    (e f : ℕ) (m : List (ℕ × List AsyncCopy))
    → has_event e m ≡ false
    → has_event e (erase_event f m) ≡ false
unfolding has_event erase_event
has_event-erase_other e f [] h = refl
has_event-erase_other e f ((k, cs) ∷ m) h = elim (Bool-cases (k == f)) [
  | inl same ↦ rw same (has_event-erase_other e f m (ground arith))
  | inr other ↦ rw other (ground (arith, has_event-erase_other e f m (ground arith)))
]

finish_copies-gone :
    (e n : ℕ) (cs : List (AsyncCopy × List Size3))
    → All (λ c. c.0.event ≢ e) (finish_copies e n cs).0
unfolding finish_copies
finish_copies-gone e n [] = tt
finish_copies-gone e n ((c, who) ∷ cs) = elim (Bool-cases (c.event == e)) [
  | inl same ↦ elim (Bool-cases (length who == n)) [
    | inl all ↦ rw (same, all) (finish_copies-gone e n cs)
    | inr few ↦ rw (same, few) (finish_copies-gone e n cs)
  ]
  | inr other ↦ rw other ((ground arith, finish_copies-gone e n cs))
]

finish_copies-keeps :
    (P : AsyncCopy × List Size3 → Type 0) (e n : ℕ) (cs : List (AsyncCopy × List Size3))
    → All P cs
    → All P (finish_copies e n cs).0
unfolding finish_copies
finish_copies-keeps P e n [] h = tt
finish_copies-keeps P e n ((c, who) ∷ cs) h = elim (Bool-cases (c.event == e)) [
  | inl same ↦ elim (Bool-cases (length who == n)) [
    | inl all ↦ rw (same, all) (finish_copies-keeps P e n cs h.1)
    | inr few ↦ rw (same, few) (finish_copies-keeps P e n cs h.1)
  ]
  | inr other ↦ rw other ((h.0, finish_copies-keeps P e n cs h.1))
]

finish_event-Gone_self :
    (fresh : ℕ → List ℕ) (e : ℕ) (s : WorkGroup) → Gone e (finish_event fresh e s)
unfolding finish_event
finish_event-Gone_self fresh e s =
    (has_event-erase_self e s.events, finish_copies-gone e (length s.work_items) s.async_copies)

finish_event-Gone :
    (fresh : ℕ → List ℕ) (e f : ℕ) (s : WorkGroup) → Gone e s → Gone e (finish_event fresh f s)
unfolding finish_event
finish_event-Gone fresh e f s h = (
  has_event-erase_other e f s.events h.0,
  finish_copies-keeps (λ c. c.0.event ≢ e) f (length s.work_items) s.async_copies h.1,
)

-- The loop keeps the events gone that are.
finish_events-Gone :
    (n : ℕ) (fresh : ℕ → List ℕ) (e : ℕ) (es : List ℕ) (s : WorkGroup)
    → Gone e s
    → Gone e (finish_events n fresh es s).1
unfolding finish_events
finish_events-Gone n fresh e [] s h = h
finish_events-Gone zero fresh e (f ∷ es) s h = h
finish_events-Gone (suc n) fresh e (f ∷ es) s h =
    finish_events-Gone n fresh e (remove f es) (finish_event fresh f s)
      (finish_event-Gone fresh e f s h)

length-remove : (e : ℕ) (es : List ℕ) → length (remove e es) ≤ length es
unfolding remove
length-remove e [] = omega arith
length-remove e (x ∷ xs) = elim (Bool-cases (x == e)) [
  | inl same ↦ rw same (omega (arith, length-remove e xs))
  | inr other ↦ rw other (omega (arith, length-remove e xs))
]

Member-remove : (e f : ℕ) (es : List ℕ) → Member e es → e ≢ f → Member e (remove f es)
unfolding remove
Member-remove e f (x ∷ xs) (inl same) ne = rw (unequal x f (λ k. ne (same ∙ k))) (inl same)
  where
    unequal : (a b : ℕ) → a ≢ b → (a == b) ≡ false
    unequal a b n = ground arith
Member-remove e f (x ∷ xs) (inr h) ne = elim (Bool-cases (x == f)) [
  | inl same ↦ rw same (Member-remove e f xs h ne)
  | inr other ↦ rw other (inr (Member-remove e f xs h ne))
]
Member-remove e f [] h ne = absurd h

-- The fuel is enough: as much as there are events.
finish_events-all :
    (n : ℕ) (fresh : ℕ → List ℕ) (e : ℕ) (es : List ℕ) (s : WorkGroup)
    → length es ≤ n
    → Member e es
    → Gone e (finish_events n fresh es s).1
unfolding finish_events
finish_events-all n fresh e [] s h k = absurd k
finish_events-all zero fresh e (f ∷ es) s h k = absurd (omega arith)
finish_events-all (suc n) fresh e (f ∷ es) s h (inl same) =
    finish_events-Gone n fresh e (remove f es) (finish_event fresh f s)
      (subst (λ g. Gone e (finish_event fresh g s)) same (finish_event-Gone_self fresh e s))
finish_events-all (suc n) fresh e (f ∷ es) s h (inr k) = elim (Bool-cases (e == f)) [
  | inl same ↦ finish_events-Gone n fresh e (remove f es) (finish_event fresh f s) (
      subst (λ g. Gone e (finish_event fresh g s)) ((==_iff e f).0 same)
        (finish_event-Gone_self fresh e s))
  | inr other ↦
      finish_events-all n fresh e (remove f es) (finish_event fresh f s)
        (omega (arith, length-remove f es)) (Member-remove e f es k (ground arith))
]

pub finish_events-kept :
    (n : ℕ) (fresh : ℕ → List ℕ) (es : List ℕ) (s : WorkGroup)
    → ((finish_events n fresh es s).1.running ≡ s.running)
      × ((finish_events n fresh es s).1.work_items ≡ s.work_items)
unfolding finish_events finish_event
finish_events-kept n fresh [] s = (refl, refl)
finish_events-kept zero fresh (e ∷ es) s = (refl, refl)
finish_events-kept (suc n) fresh (e ∷ es) s =
    finish_events-kept n fresh (remove e es) (finish_event fresh e s)

pub release-running :
    (b : Barrier) (s : WorkGroup)
    → ((release b s).running ≡ insert_items b.work_items s.running)
      × ((release b s).work_items ≡ s.work_items)
unfolding release say
release-running b s = elim (Bool-cases (length b.work_items == length s.work_items)) [
  | inl all ↦ rw all ((refl, refl))
  | inr few ↦ rw few ((refl, refl))
]

-- A barrier is cleared whenever there is one: then there is none, its work-items are running with those
-- that were, and of each event that it waited for nothing is left.
pub clear_barrier_lem :
    (fresh : ℕ → List ℕ) (s : WorkGroup) (b : Barrier)
    → s.barrier ≡ some b
    → (s' : WorkGroup) × (clear_barrier fresh s ≡ some s')
      × (s'.barrier ≡ none)
      × (s'.work_items ≡ s.work_items)
      × (s'.running ≡ insert_items b.work_items s.running)
      × ((e : ℕ) → Member e b.events → Gone e s')
clear_barrier_lem fresh s b h =
    let r = (finish_events (length b.events) fresh b.events (release b s)).1 in
    let kept = finish_events-kept (length b.events) fresh b.events (release b s) in
    let released = release-running b s in
    (
      record r { log = r.log ++ barrier_passed b.fence ∷ []; barrier = none },
      unfold clear_barrier in rw h,
      refl,
      kept.1 ∙ released.1,
      kept.0 ∙ released.0,
      λ e m. finish_events-all (length b.events) fresh e b.events (release b s) (omega arith) m,
    )
