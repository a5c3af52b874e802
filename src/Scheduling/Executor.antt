-- ===== src/Scheduling/Executor.antt =====
-- `_OwnedBoundedExecutor` of app/analytics/scheduling.py: a pool of threads with a bound on the
-- calls it holds. The pool itself is concurrent.futures': whether it takes a call is a parameter.
-- A future is a number.
use onlyfans_conversational.Prelude.{
  ℕ, ◌+◌, ◌-◌, Bool, true, false, List, [], ◌∷◌, if◌then◌else◌, leb, filter, not, holds, ℕ_discrete,
  Result, ok, err,
}
use onlyfans_conversational.Prelude.Membership.{elem}

pub data SubmitError : Type 0 where
  executor_saturated coordinator_closed pool_error : SubmitError

pub record Executor : Type 0 where
  pub slots : ℕ
  pub futures : List ℕ
  pub shutdown : Bool

abbrev pub new_executor : ℕ → Executor
new_executor max_tasks = record { slots = max_tasks; futures = []; shutdown = false }

-- `self._slots.acquire(blocking=False)`, the first step of `submit`, outside its lock
unfoldable pub acquire : Executor → Result SubmitError Unit × Executor
acquire e =
    if leb e.slots 0
    then (err SubmitError.executor_saturated, e)
    else (ok tt, record e { slots = e.slots - 1 })

-- The rest of `submit`, under its lock, for the call that becomes `future`: the semaphore's slot is
-- given back on every error.
unfoldable pub submit_locked : Bool → ℕ → Executor → Result SubmitError ℕ × Executor
submit_locked pool_takes future e =
    if e.shutdown
    then (err SubmitError.coordinator_closed, record e { slots = e.slots + 1 })
    else if pool_takes
    then (ok future, record e { futures = future ∷ e.futures })
    else (err SubmitError.pool_error, record e { slots = e.slots + 1 })

-- `_completed`, which a future calls once it is done
unfoldable pub completed : ℕ → Executor → Executor
completed future e =
    if elem ℕ_discrete future e.futures
    then record e {
      futures = filter (λ f. not (holds (ℕ_discrete f future))) e.futures;
      slots = e.slots + 1;
    }
    else e

unfoldable pub begin_shutdown : Executor → List ℕ × Executor
begin_shutdown e = (e.futures, record e { shutdown = true })
