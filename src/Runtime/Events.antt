-- ===== src/Runtime/Events.antt =====
-- src/runtime/runtime.cpp: clCreateUserEvent, clSetUserEventStatus and clWaitForEvents, on the events of src/core/Queue.cpp. The
-- callbacks of an event and the release of its command are left out.
pub mod Waiting
use oclgrind.Base.{
  ℕ, zero, suc, Bool, true, false, not, ◌&&◌, ◌||◌, ◌==◌, if◌then◌else◌, List, [], ◌∷◌, Option,
  none, some, Result, ok, err, ◌>>=◌, ◌>>◌,
}
use oclgrind.Commands.Schedule.{
  Status, complete, running, submitted, queued, failed, is_pending, Fixed, State, update, execute,
}
use oclgrind.Runtime.{
  Code, invalid_event, invalid_value, invalid_operation, exec_status_error, given, reject_if,
}

-- A cl_int: a number, or its successor with the sign changed.
pub data CInt : Type 0 where
  nonneg : ℕ → CInt
  negative : ℕ → CInt

abbrev is_positive : CInt → Bool
is_positive (nonneg n) = not (n == 0)
is_positive (negative n) = false

abbrev to_status : CInt → Status
to_status (nonneg n) = complete
to_status (negative n) = failed n

abbrev pub is_failed : Status → Bool
is_failed (failed k) = true
is_failed complete = false
is_failed running = false
is_failed submitted = false
is_failed queued = false

-- Whether the last loop of clWaitForEvents finds an error.
pub any_failed : (ℕ → Status) → List ℕ → Bool
any_failed status [] = false
any_failed status (e ∷ es) = is_failed (status e) || any_failed status es

module _ {ℓ} {S : Type ℓ} (l : Fixed) (dispatch : ℕ → S → S) where
  unfoldable pub create_user_event : ℕ → State S → State S
  create_user_event e s = record s { status = update e submitted s.status }

  unfoldable pub set_user_event_status : Option ℕ → CInt → State S → Result Code (State S)
  set_user_event_status event execution_status s = do
    e ← given event invalid_event
    reject_if (l.is_command e) invalid_event
    reject_if (is_positive execution_status) invalid_value
    reject_if (not (is_pending (s.status e))) invalid_operation
    ok (record s { status = update e (to_status execution_status) s.status })

  -- One event of the loop, with whether it is complete after it.
  pub wait_one : ℕ → ℕ → State S → Option (Bool × State S)
  wait_one fuel e s =
      if not (is_pending (s.status e))
      then some (true, s)
      else if l.is_command e
      then (elim (execute l dispatch fuel false e s) [
        | none ↦ none
        | some t ↦ some (not (is_pending (t.status e)), t)
      ])
      else some (false, s)

  -- One pass over the events, with whether all are complete.
  pub wait_pass : ℕ → List ℕ → State S → Option (Bool × State S)
  wait_pass fuel [] s = some (true, s)
  wait_pass fuel (e ∷ es) s = elim (wait_one fuel e s) [
    | none ↦ none
    | some r ↦ elim (wait_pass fuel es r.1) [ none ↦ none | some u ↦ some (r.0 && u.0, u.1) ]
  ]

  -- `while (!complete)`; `none` is out of fuel.
  pub wait_loop : ℕ → ℕ → List ℕ → State S → Option (State S)
  wait_loop zero fuel es s = none
  wait_loop (suc n) fuel es s = elim (wait_pass fuel es s) [
    | none ↦ none
    | some r ↦ elim r.0 [ true ↦ some r.1 | false ↦ wait_loop n fuel es r.1 ]
  ]

  -- clWaitForEvents, where the list has as many events as it says; each pass executes commands with `fuel`.
  pub wait_for_events :
      ℕ → ℕ → ℕ → Option (List ℕ) → State S → Option (State S × Result Code (Unit {0}))
  wait_for_events rounds fuel zero events s = some (s, err invalid_value)
  wait_for_events rounds fuel (suc n) none s = some (s, err invalid_value)
  wait_for_events rounds fuel (suc n) (some es) s = elim (wait_loop rounds fuel es s) [
    | none ↦ none
    | some t ↦ some (t, reject_if (any_failed t.status es) exec_status_error)
  ]
