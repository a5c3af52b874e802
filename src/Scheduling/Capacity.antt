-- ===== src/Scheduling/Capacity.antt =====
-- The footprint of the scheduler (app/analytics/scheduling.py).
use onlyfans_conversational.Prelude.{◌+◌, ◌≤◌, arith, length, Bool-cases, inl, inr}
use onlyfans_conversational.Prelude.Totals.{total-le_length}
use onlyfans_conversational.Scheduling.Types.{Place, Limits, Scheduler}
use onlyfans_conversational.Scheduling.Closing.{retained_account_count}
use onlyfans_conversational.Scheduling.Ownership.{is_holding}
use onlyfans_conversational.Scheduling.Steps.{IsSound, Reach}
use onlyfans_conversational.Scheduling.Soundness.{Reach-IsSound}

is_holding-le : (p : Place) → is_holding p ≤ 1
unfolding is_holding
is_holding-le Place.idle = omega arith
is_holding-le (Place.draining a id) = omega arith
is_holding-le (Place.attempting a id attempted token) = omega arith
is_holding-le (Place.publishing a id attempted c) = omega arith
is_holding-le (Place.discarding a id attempt) = omega arith
is_holding-le (Place.settling a id attempt) = omega arith
is_holding-le Place.done = omega arith

work-bound :
    (limits : Limits) (s : Scheduler)
    → IsSound limits s
    → length s.work ≤ limits.queue_capacity + limits.worker_count + length s.stranded
work-bound limits s h = elim (Bool-cases s.closed) [
  | inl shut ↦ let rest = h.sealed shut in let empty = rest.1 in rw empty (omega arith)
  | inr is_open ↦ omega (
    arith,
    (h.owned is_open).sizes,
    h.queue_bound,
    h.worker_bound,
    total-le_length is_holding s.workers is_holding-le,
  )
]

-- In every reachable state the accounts that the scheduler retains are at most the capacity of the
-- queue, one for each worker, the capacity of the failures, and one for each time that a discard has
-- ended a worker with an error; the available revisions it caches
-- are at most the latter.
pub retained_account_count-bound :
    (limits : Limits) (s : Scheduler)
    → Reach limits s
    → (retained_account_count s
        ≤ limits.queue_capacity
          + limits.worker_count
          + limits.failure_state_capacity
          + length s.stranded)
      × (length s.available ≤ limits.failure_state_capacity)
unfolding retained_account_count
retained_account_count-bound limits s reach =
    let h = Reach-IsSound limits s reach in
    (omega (arith, work-bound limits s h, h.failure_bound), h.available_bound)
