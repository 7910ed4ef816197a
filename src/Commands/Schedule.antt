-- ===== src/Commands/Schedule.antt =====
-- src/core/Queue.cpp: Queue::enqueue, execute and finish, and Queue.h (Event). A command and its event have the same number;
-- events are numbered in the order of their creation. The times of events are left out.
pub mod Older
pub mod Invariant
pub mod Advance
mod Reached
mod Prepared
mod Run
pub mod Finish
pub mod Failure
pub mod Enqueue
pub mod Sequential
pub mod Examples
use oclgrind.Base.{
  ℕ, zero, suc, ◌+◌, ◌≡◌, Bool, true, false, not, ◌||◌, ◌&&◌, ◌==◌, if◌then◌else◌, List, [], ◌∷◌,
  ◌++◌, Option, none, some,
}

-- Event::state; a negative state is failed.
pub data Status : Type 0 where
  complete : Status
  running : Status
  submitted : Status
  queued : Status
  failed : ℕ → Status

-- Neither complete nor negative.
abbrev pub is_pending : Status → Bool
is_pending complete = false
is_pending running = true
is_pending submitted = true
is_pending queued = true
is_pending (failed k) = false

-- What is fixed when an event is created: whether it is that of a command (Event::command is not NULL),
-- its queue, and whether a queue is out of order.
pub record Fixed : Type 0 where
  pub is_command : ℕ → Bool
  pub queue_of : ℕ → ℕ
  pub out_of_order : ℕ → Bool

-- The wait lists and the states of events, the queues, Command::execBefore, and what the commands act on.
pub record State {ℓ} (S : Type ℓ) : Type ℓ where
  pub waits : ℕ → List ℕ
  pub status : ℕ → Status
  pub queue : ℕ → List ℕ
  pub exec_before : ℕ → List ℕ
  pub memory : S

abbrev pub update {ℓ} : {A : Type ℓ} → ℕ → A → (ℕ → A) → ℕ → A
update i a f j = if i == j then a else f j

-- std::find and std::prev, where `before` is the last element that has been passed.
unfoldable pub preceding : Option ℕ → ℕ → List ℕ → Option ℕ
preceding before c [] = before
preceding before c (x ∷ xs) = if x == c then before else preceding (some x) c xs

abbrev pub last : List ℕ → Option ℕ
last [] = none
last (x ∷ xs) = elim xs [ [] ↦ some x | y ∷ ys ↦ last xs ]

pub erase : ℕ → List ℕ → List ℕ
erase c [] = []
erase c (x ∷ xs) = if x == c then xs else x ∷ erase c xs

module _ {ℓ} {S : Type ℓ} (l : Fixed) (dispatch : ℕ → S → S) where
  -- Queue::enqueue of a command that has the number c, with its wait list.
  pub enqueue : ℕ → List ℕ → State S → State S
  enqueue c wait_list s = record s {
    waits = update c wait_list s.waits;
    status = update c queued s.status;
    queue = update (l.queue_of c) (s.queue (l.queue_of c) ++ c ∷ []) s.queue;
  }

  -- The dependency on the command before in the queue.
  pub add_dependency : Bool → ℕ → State S → State S
  add_dependency flush c s = elim (preceding none c (s.queue (l.queue_of c))) [
    | none ↦ s
    | some p ↦
        if not (l.out_of_order (l.queue_of c)) || flush
        then record s { waits = update c (s.waits c ++ p ∷ []) s.waits }
        else s
  ]

  pub remove : ℕ → Status → State S → State S
  remove c st s = record s {
    status = update c st s.status;
    queue = update (l.queue_of c) (erase c (s.queue (l.queue_of c))) s.queue;
  }

  -- The dispatch, between the states CL_RUNNING and CL_COMPLETE.
  pub run_command : ℕ → State S → State S
  run_command c s = remove c complete (record s { memory = dispatch c s.memory })

  pub set_waits : ℕ → List ℕ → State S → State S
  set_waits c es s = record s { waits = update c es s.waits }

  pub executed : ℕ → ℕ → State S → State S
  executed c e s = record s { exec_before = update c (e ∷ s.exec_before c) s.exec_before }

  -- The event at the front of the wait list, with the events behind it, its state, and whether it is that
  -- of a command. `execute_it` executes its command, `again` is the next round of the loop.
  pub check :
      (State S → Option (State S))
      → (State S → Option (State S))
      → ℕ
      → State S
      → ℕ
      → List ℕ
      → Status
      → Bool
      → Option (State S)
  check execute_it again c s e es (failed k) command = some (remove c (failed k) s)
  check execute_it again c s e es complete command = again s
  check execute_it again c s e es st true = elim (execute_it s) [
    | none ↦ none
    | some t ↦ again (executed c e t)
  ]
  check execute_it again c s e es st false = again (set_waits c (es ++ e ∷ []) s)

  -- A round of the loop over the wait list, or the dispatch.
  pub round :
      (ℕ → State S → Option (State S))
      → (State S → Option (State S))
      → ℕ
      → State S
      → List ℕ
      → Option (State S)
  round execute_one again c s [] = some (run_command c s)
  round execute_one again c s (e ∷ es) =
      check (execute_one e) again c (set_waits c es s) e es (s.status e) (l.is_command e)

  mutual
    -- Queue::execute; `none` is out of fuel.
    pub execute : ℕ → Bool → ℕ → State S → Option (State S)
    execute zero flush c s = none
    execute (suc n) flush c s = wait n flush c (add_dependency flush c s)

    -- The loop over the wait list, and what follows it.
    pub wait : ℕ → Bool → ℕ → State S → Option (State S)
    wait zero flush c s = none
    wait (suc n) flush c s =
        round (λ e t. execute n flush e t) (λ t. wait n flush c t) c s (s.waits c)

  -- Queue::finish, with the command.
  pub finish : ℕ → ℕ → State S → Option (Option ℕ × State S)
  finish fuel q s = elim (last (s.queue q)) [
    | none ↦ some (none, s)
    | some c ↦ elim (execute fuel true c s) [ none ↦ none | some t ↦ some (some c, t) ]
  ]
