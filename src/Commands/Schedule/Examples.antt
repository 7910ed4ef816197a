-- ===== src/Commands/Schedule/Examples.antt =====
-- Witnesses and tests for the execution of queues.
use oclgrind.Base.{
  ℕ, zero, suc, ◌≡◌, ◌≢◌, ◌<◌, refl, arith, Bool, true, false, List, [], ◌∷◌, ◌++◌, Option, none,
  some, All,
}
use oclgrind.Commands.Schedule.{
  Status, complete, queued, failed, is_pending, Fixed, State, enqueue, erase, execute, finish,
  round, add_dependency, preceding, check, set_waits, executed, run_command, remove,
}
use oclgrind.Commands.Schedule.Invariant.{update-cases}
use oclgrind.Commands.Schedule.Advance.{Unfailed, Elder}
use oclgrind.Commands.Schedule.Finish.{Ready, execute-returns, execute-in_order, finish-empties}
use oclgrind.Commands.Schedule.Failure.{execute-first_failed, execute-unnoticed_failure}
use oclgrind.Commands.Schedule.Sequential.{Free, run_all, finish-run_all}
use oclgrind.Commands.Schedule.Enqueue.{enqueue-Ready}

-- Event 0 is that of the user; there is one queue.
abbrev pub one_queue : Bool → Fixed
one_queue out_of_order = record {
  is_command = λ e. elim e [ zero ↦ false | suc k ↦ true ];
  queue_of = λ e. 0;
  out_of_order = λ q. out_of_order;
}

abbrev pub in_order : Fixed
in_order = one_queue false

-- A command leaves its number.
abbrev pub log : ℕ → List ℕ → List ℕ
log c m = m ++ c ∷ []

abbrev pub idle : Status → State (List ℕ)
idle user = record {
  waits = λ e. [];
  status = λ e. elim e [ zero ↦ user | suc k ↦ complete ];
  queue = λ q. [];
  exec_before = λ c. [];
  memory = [];
}

abbrev pub one_queued : State (List ℕ)
one_queued = enqueue in_order log 1 (0 ∷ []) (idle complete)

abbrev pub two_queued : State (List ℕ)
two_queued = enqueue in_order log 2 (1 ∷ []) one_queued

idle-over : (e : ℕ) → is_pending ((idle complete).status e) ≡ false
idle-over zero = refl
idle-over (suc e) = refl

idle-Ready : Ready in_order 1 (idle complete)
idle-Ready = record {
  good = record {
    settled = λ e f. idle-over e;
    older = λ c p. tt;
    inside = λ c b p. absurd (cc (idle-over c, p));
    members = λ q. tt;
    sorted = λ q. tt;
  };
  short = λ e p. omega arith;
}

one_pending : (d : ℕ) → is_pending (one_queued.status d) ≡ true → d < 2
unfolding enqueue
one_pending d p =
    update-cases (λ t. is_pending t ≡ true → d < 2) 1 queued (idle complete).status d
      (λ e f. omega (arith, e)) (λ n f. cc (idle-over d, f)) p

none_pending : (d : ℕ) → is_pending ((idle complete).status d) ≡ true → d < 1
none_pending zero p = cc p
none_pending (suc d) p = cc p

one-Ready : Ready in_order 1 (enqueue in_order log 1 (0 ∷ []) (idle complete))
one-Ready =
    enqueue-Ready in_order log 1 1 (0 ∷ []) (idle complete) idle-Ready refl none_pending
      (omega arith, tt) (omega arith)

pub two-Ready : Ready in_order 1 two_queued
two-Ready =
    enqueue-Ready in_order log 1 2 (1 ∷ []) one_queued one-Ready refl one_pending (omega arith, tt)
      (omega arith)

two-Unfailed : Unfailed two_queued.status
unfolding enqueue
two-Unfailed d k =
    update-cases (λ t. t ≢ failed k) 2 queued one_queued.status d (λ f g. cc g)
      λ f.
        update-cases (λ t. t ≢ failed k) 1 queued (idle complete).status d (λ h g. cc g)
          λ h. unfailed d
  where
    unfailed : (d : ℕ) → (idle complete).status d ≢ failed k
    unfailed zero g = cc g
    unfailed (suc d) g = cc g

two-pending : is_pending (two_queued.status 2) ≡ true
unfolding enqueue
two-pending = refl

two-queue : two_queued.queue 0 ≡ 1 ∷ 2 ∷ []
unfolding enqueue
two-queue = refl

abbrev memory_of : Option (State (List ℕ)) → Option (List ℕ)
memory_of none = none
memory_of (some t) = some t.memory

two_run_test : memory_of (execute in_order log 12 true 2 two_queued) ≡ some (1 ∷ 2 ∷ [])
unfolding enqueue execute round add_dependency preceding check set_waits executed run_command remove
two_run_test = refl

execute-returns_example :
    (t : State (List ℕ)) × (execute in_order log 12 true 2 two_queued ≡ some t)
    × Ready in_order 1 t
    × (is_pending (t.status 2) ≡ false)
    × ((e : ℕ) → is_pending (two_queued.status e) ≡ false → t.status e ≡ two_queued.status e)
    × (t.status 2 ≡ complete → All (λ e. is_pending (t.status e) ≡ false) (two_queued.waits 2))
execute-returns_example =
    execute-returns in_order log 1 12 true 2 two_queued (omega arith) two-Ready refl two-pending

abbrev two_done : State (List ℕ)
two_done = elim (execute in_order log 12 true 2 two_queued) [ none ↦ two_queued | some t ↦ t ]

two-runs : execute in_order log 12 true 2 two_queued ≡ some two_done
unfolding enqueue execute round add_dependency preceding check set_waits executed run_command remove
two-runs = refl

execute-in_order_example :
    (two_done.status 2 ≡ complete)
    × Unfailed two_done.status
    × ((d : ℕ) → Elder in_order 2 d → two_done.status d ≡ complete)
execute-in_order_example =
    execute-in_order in_order log 1 12 true 2 two_queued two_done (omega arith) two-Ready refl
      two-pending two-Unfailed refl two-runs

finish-empties_example :
    (c : ℕ) × (t : State (List ℕ)) × (finish in_order log 12 0 two_queued ≡ some (some c, t))
    × (t.queue 0 ≡ [])
    × All (λ d. t.status d ≡ complete) (1 ∷ 2 ∷ [])
finish-empties_example =
    finish-empties in_order log 1 12 0 1 (2 ∷ []) two_queued two-Ready two-Unfailed two-queue
      (omega arith, (omega arith, tt))

-- The user's event has failed; command 1 waits for it, and command 2 for command 1.
abbrev doomed : State (List ℕ)
doomed =
    enqueue (one_queue true) log 2 (1 ∷ [])
      (enqueue (one_queue true) log 1 (0 ∷ []) (idle (failed 5)))

waits_one : doomed.waits 1 ≡ 0 ∷ []
unfolding enqueue
waits_one = refl

waits_two : doomed.waits 2 ≡ 1 ∷ []
unfolding enqueue
waits_two = refl

one_is_queued : doomed.status 1 ≡ queued
unfolding enqueue
one_is_queued = refl

user_failed : doomed.status 0 ≡ failed 5
unfolding enqueue
user_failed = refl

-- Command 4 waits for command 3, which is complete, for the event of the user and for command 2.
abbrev doomed_later : State (List ℕ)
doomed_later = enqueue (one_queue true) log 4 (3 ∷ 0 ∷ 2 ∷ []) doomed

waits_four : doomed_later.waits 4 ≡ 3 ∷ 0 ∷ 2 ∷ []
unfolding enqueue
waits_four = refl

three_is_complete : doomed_later.status 3 ≡ complete
unfolding enqueue
three_is_complete = refl

still_failed : doomed_later.status 0 ≡ failed 5
unfolding enqueue
still_failed = refl

execute-first_failed_example :
    (t : State (List ℕ)) × (execute (one_queue true) log 3 false 4 doomed_later ≡ some t)
    × (t.memory ≡ doomed_later.memory)
    × (t.status 4 ≡ failed 5)
    × ((d : ℕ) → 4 ≢ d → t.status d ≡ doomed_later.status d)
    × (t.queue 0 ≡ erase 4 (doomed_later.queue 0))
execute-first_failed_example =
    execute-first_failed (one_queue true) log (3 ∷ []) 2 false 4 0 5 (2 ∷ []) doomed_later
      waits_four (three_is_complete, tt) still_failed (omega arith)

execute-unnoticed_failure_example :
    (t : State (List ℕ)) × (execute (one_queue true) log 4 false 2 doomed ≡ some t)
    × (t.status 1 ≡ failed 5)
    × (t.status 2 ≡ complete)
    × (t.memory ≡ log 2 doomed.memory)
execute-unnoticed_failure_example =
    execute-unnoticed_failure (one_queue true) log 0 2 1 0 5 [] doomed refl refl waits_two
      one_is_queued waits_one user_failed (omega arith)

-- Two commands that wait for nothing.
abbrev two_free : State (List ℕ)
two_free = enqueue in_order log 2 [] (enqueue in_order log 1 [] (idle complete))

two_free-queue : two_free.queue 0 ≡ 1 ∷ 2 ∷ []
unfolding enqueue
two_free-queue = refl

two_free-Free : All (Free in_order 0 two_free) (1 ∷ 2 ∷ [])
unfolding enqueue
two_free-Free = ((refl, refl, refl, refl), ((refl, refl, refl, refl), tt))

finish-run_all_example :
    (c : ℕ) × (t : State (List ℕ)) × (finish in_order log 4 0 two_free ≡ some (some c, t))
    × (t.queue 0 ≡ [])
    × (t.memory ≡ run_all log (1 ∷ 2 ∷ []) two_free.memory)
finish-run_all_example =
    finish-run_all in_order log 0 4 1 (2 ∷ []) two_free two_free-queue ((omega arith, tt), (tt, tt))
      two_free-Free (omega arith)
