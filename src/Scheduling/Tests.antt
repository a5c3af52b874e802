-- ===== src/Scheduling/Tests.antt =====
-- Runs of the scheduler, and an instance of each of its theorems.
use onlyfans_conversational.Prelude.{
  ◌≤◌, ◌+◌, String-discrete, ℕ_discrete, true, false, none, some, ◌≡◌, ◌⊎◌, refl, ok, err, arith,
  length,
}
use onlyfans_conversational.Prelude.Dict
use onlyfans_conversational.Prelude.Membership.{elem}
use onlyfans_conversational.Scheduling.Types.{
  AccountWork, Attempt, Place, Limits, Scheduler, ProjectionCandidate, new_scheduler,
}
use onlyfans_conversational.Scheduling.Executor.{Executor, new_executor, acquire, submit_locked}
use onlyfans_conversational.Scheduling.Slots.{
  ExecutorReach, IsAccounted, ExecutorReach-IsAccounted, acquiring, submitting,
}
use onlyfans_conversational.Scheduling.Admission.{
  schedule_admit, schedule, launch_workers, spawn, enqueue, running_workers,
}
use onlyfans_conversational.Scheduling.Drain.{take, begin, built, own_work, settle, discard_raised}
use onlyfans_conversational.Scheduling.Closing.{seal, retained_account_count}
use onlyfans_conversational.Scheduling.Ownership.{find_work, find_worker}
use onlyfans_conversational.Scheduling.Steps.{
  Advance, placed, IsSound, Reach, takes, begins, builds, admits, works, seals,
}
use onlyfans_conversational.Scheduling.Soundness.{Reach-IsSound}
use onlyfans_conversational.Scheduling.Capacity.{retained_account_count-bound}
use onlyfans_conversational.Scheduling.Admissions.{IsAnswer, schedule-IsAnswer}
use onlyfans_conversational.Scheduling.Settlement.{IsSettled, settle-outcome}
use onlyfans_conversational.Scheduling.Closure.{Follows, IsRefusing, Follows-IsRefusing, later}
use onlyfans_conversational.Scheduling.Progress.{IsServed, Reach-IsServed}
use onlyfans_conversational.Scheduling.Stranded.{IsStranded, discard_raised-IsStranded}

abbrev small : Limits
small = record { worker_count = 1; queue_capacity = 2; failure_state_capacity = 3 }

abbrev admitted : Scheduler
admitted = (schedule_admit small "acct" 4 false new_scheduler).1

admitted-Reach : Reach small admitted
admitted-Reach = Reach.next Reach.new (admits "acct" 4 false)

abbrev started : Scheduler
started = placed 0 (take admitted)

found_idle : find_worker 0 admitted.workers ≡ some Place.idle
unfolding schedule_admit launch_workers spawn enqueue running_workers Dict.lookup Dict.insert
    Dict.erase String-discrete ℕ_discrete
found_idle = refl

started-Reach : Reach small started
started-Reach = Reach.next admitted-Reach (works 0 Place.idle (take admitted) found_idle takes)

found_draining : find_worker 0 started.workers ≡ some (Place.draining "acct" 0)
unfolding schedule_admit launch_workers spawn enqueue running_workers take Dict.lookup Dict.insert
    Dict.erase String-discrete ℕ_discrete
found_draining = refl

abbrev begun : Scheduler
begun = placed 0 (begin "acct" 0 started)

begun-Reach : Reach small begun
begun-Reach =
    Reach.next started-Reach
      (works 0 (Place.draining "acct" 0) (begin "acct" 0 started) found_draining begins)

found_attempting : find_worker 0 begun.workers ≡ some (Place.attempting "acct" 0 4 0)
unfolding schedule_admit launch_workers spawn enqueue running_workers take begin own_work
    Dict.lookup Dict.insert Dict.erase String-discrete ℕ_discrete
found_attempting = refl

-- The build fails.
abbrev failing : Attempt
failing = record {
  attempted_revision = 4;
  candidate = none;
  published = false;
  reason_code = some "canonical_state_invalid";
}

abbrev broken : Scheduler
broken = placed 0 (built "acct" 0 4 (err "canonical_state_invalid") begun)

broken-Reach : Reach small broken
broken-Reach = Reach.next begun-Reach (
    works 0 (Place.attempting "acct" 0 4 0) (built "acct" 0 4 (err "canonical_state_invalid") begun)
      found_attempting (builds (err "canonical_state_invalid")))

found_settling : find_worker 0 broken.workers ≡ some (Place.settling "acct" 0 failing)
unfolding schedule_admit launch_workers spawn enqueue running_workers take begin own_work built
    Dict.lookup Dict.insert Dict.erase String-discrete ℕ_discrete
found_settling = refl

-- The build reads a revision that is older than the one asked for.
abbrev candidate : ProjectionCandidate
candidate = record {
  creator_account_id = "acct";
  source_revision = 3;
  publication_epoch = some "e1";
}

abbrev stale : Attempt
stale = record {
  attempted_revision = 4;
  candidate = some candidate;
  published = false;
  reason_code = none;
}

abbrev outdated : Scheduler
outdated = placed 0 (built "acct" 0 4 (ok candidate) begun)

outdated-Reach : Reach small outdated
outdated-Reach = Reach.next begun-Reach (
    works 0 (Place.attempting "acct" 0 4 0) (built "acct" 0 4 (ok candidate) begun) found_attempting
      (builds (ok candidate)))

found_discarding : find_worker 0 outdated.workers ≡ some (Place.discarding "acct" 0 stale)
unfolding schedule_admit launch_workers spawn enqueue running_workers take begin own_work built
    Dict.lookup Dict.insert Dict.erase String-discrete ℕ_discrete
found_discarding = refl

abbrev finished : Scheduler
finished = seal begun

finished-Reach : Reach small finished
finished-Reach = Reach.next begun-Reach seals

finished-closed : finished.closed ≡ true
unfolding seal
finished-closed = refl

finished-attempting : find_worker 0 finished.workers ≡ some (Place.attempting "acct" 0 4 0)
unfolding schedule_admit launch_workers spawn enqueue running_workers take begin own_work seal
    Dict.lookup Dict.insert Dict.erase String-discrete ℕ_discrete
finished-attempting = refl

Reach-IsSound_example : IsSound small broken
Reach-IsSound_example = Reach-IsSound small broken broken-Reach

retained_account_count-bound_example :
    (retained_account_count broken ≤ 2 + 1 + 3 + length broken.stranded)
    × (length broken.available ≤ 3)
retained_account_count-bound_example = retained_account_count-bound small broken broken-Reach

settle-outcome_example :
    (broken.closed ≡ true)
    ⊎ ((w : AccountWork) × (find_work "acct" broken.work ≡ some w)
        × IsSettled "acct" 0 w failing (settle small "acct" 0 failing broken))
settle-outcome_example =
    settle-outcome small broken 0 "acct" 0 failing broken-Reach found_settling (omega arith)

schedule-IsAnswer_example :
    IsAnswer small "acct" 4 false new_scheduler (schedule small "acct" 4 false new_scheduler)
schedule-IsAnswer_example = schedule-IsAnswer small "acct" 4 false new_scheduler

Follows-IsRefusing_example : IsRefusing small (placed 0 (Place.done, finished))
Follows-IsRefusing_example =
    Follows-IsRefusing small finished (placed 0 (Place.done, finished)) finished-Reach
      finished-closed
      (later Follows.same (
        works 0 (Place.attempting "acct" 0 4 0) (Place.done, finished) finished-attempting
          (Advance.stops finished-closed)))

Reach-IsServed_example : IsServed admitted
Reach-IsServed_example = Reach-IsServed small admitted admitted-Reach (omega arith)

-- The discard raises, and then the account's next revision is scheduled.
abbrev abandoned : Scheduler
abandoned = placed 0 (discard_raised "acct" 0 stale outdated)

abbrev asked_again : Scheduler
asked_again = (schedule_admit small "acct" 5 true abandoned).1

discard_raised-IsStranded_example :
    (asked_again.closed ≡ true) ⊎ IsStranded small "acct" asked_again
discard_raised-IsStranded_example =
    discard_raised-IsStranded small outdated asked_again 0 "acct" 0 stale outdated-Reach
      found_discarding (later Follows.same (admits "acct" 5 true))

-- One call is submitted.
abbrev one_call : Executor
one_call = (submit_locked true 5 (acquire (new_executor 2)).1).1

acquired : ExecutorReach 2 ((acquire (new_executor 2)).1, 1)
unfolding acquire
acquired = ExecutorReach.next ExecutorReach.new acquiring

ExecutorReach-IsAccounted_example : IsAccounted 2 (one_call, 0)
unfolding elem acquire
ExecutorReach-IsAccounted_example =
    ExecutorReach-IsAccounted 2 (one_call, 0) (ExecutorReach.next acquired (submitting true 5 refl))
