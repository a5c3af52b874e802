-- ===== src/Scheduling/Admission.antt =====
-- `schedule`, `_launch_workers_locked`, `_worker_finished` and `_record_available_locked` of
-- app/analytics/scheduling.py, each block under the state lock a function. A revision is a natural
-- number: the refusal of a negative one is left out.
use onlyfans_conversational.Prelude.{
  ℕ, zero, suc, ◌+◌, ◌-◌, String, String-discrete, ℕ_discrete, Bool, true, false, List, [], ◌∷◌,
  ◌++◌, Option, none, some, ◌||◌, ◌&&◌, not, if◌then◌else◌, leb, ltb, holds, length, filter, Result,
  ok, err,
}
use onlyfans_conversational.Prelude.Dict
use onlyfans_conversational.Prelude.Dict.{Dict}
use onlyfans_conversational.Scheduling.Types.{
  AccountWork, Place, Limits, Scheduler, ScheduleError, ProjectionScheduleState, backpressure,
}

abbrev pub max : ℕ → ℕ → ℕ
max a b = if leb a b then b else a

abbrev pub min : ℕ → ℕ → ℕ
min a b = if leb a b then a else b

-- `while len(d) > capacity: d.popitem(last=False)`
abbrev pub drop_oldest {ℓ} : {A : Type ℓ} → ℕ → List A → List A
drop_oldest capacity [] = []
drop_oldest capacity (x ∷ xs) =
    let rest = drop_oldest capacity xs in if ltb capacity (length (x ∷ xs)) then rest else x ∷ xs

-- `d[k] = v` and `d.move_to_end(k)`
abbrev pub put_last : {V : Type 0} → String → V → Dict String V → Dict String V
put_last k v d = Dict.erase String-discrete k d ++ (k, v) ∷ []

unfoldable pub record_available : Limits → String → ℕ → Scheduler → Scheduler
record_available limits a revision s = record s {
  available = drop_oldest limits.failure_state_capacity (put_last a revision s.available);
}

abbrev pub is_done : Place → Bool
is_done Place.done = true
is_done _ = false

-- The dict's part of `{task for task in self._workers if not task.done()}`.
unfoldable pub running_workers : Dict ℕ Place → Dict ℕ Place
running_workers workers = filter (λ e. not (is_done e.1)) workers

unfoldable pub spawn : ℕ → Scheduler → Scheduler
spawn zero s = s
spawn (suc n) s = spawn n (record s {
  workers = Dict.insert ℕ_discrete s.next_task Place.idle s.workers;
  next_task = s.next_task + 1;
})

unfoldable pub launch_workers : Limits → Scheduler → Scheduler
launch_workers limits s =
    let live = running_workers s.workers in
    spawn (min (limits.worker_count - length live) (length s.pending)) (record s { workers = live })

-- `_worker_finished`, on a loop that runs
unfoldable pub worker_finished : Limits → ℕ → Scheduler → Scheduler
worker_finished limits task s =
    let discarded : Scheduler = record s { workers = Dict.erase ℕ_discrete task s.workers } in
    if s.accepting && ltb 0 (length s.pending) then launch_workers limits discarded else discarded

abbrev pub is_shut : Scheduler → Bool
is_shut s = not s.accepting || s.closed

unfoldable pub coalesce : String → AccountWork → ℕ → Scheduler → Scheduler
coalesce a w revision s = record s {
  work =
      Dict.insert String-discrete a
        (record w { requested_revision = max w.requested_revision revision }) s.work;
}

-- The account's last attempt failed at this very revision, and no retry is asked for.
abbrev pub is_known_failure : Option ProjectionScheduleState → ℕ → Bool → Bool
is_known_failure none revision retry_failed = false
is_known_failure (some failure) revision retry_failed = elim failure.attempted_revision [
  | none ↦ false
  | some attempted ↦ holds (ℕ_discrete attempted revision) && not retry_failed
]

abbrev pub is_covered : Option ℕ → ℕ → Bool
is_covered none revision = false
is_covered (some available) revision = leb revision available

-- The first block of `schedule`: `true` where it returns.
abbrev pub check_known : Option AccountWork → String → ℕ → Bool → Scheduler → Bool × Scheduler
check_known (some w) a revision retry_failed s = (true, coalesce a w revision s)
check_known none a revision retry_failed s = (
  is_known_failure (Dict.lookup String-discrete a s.failures) revision retry_failed
      || is_covered (Dict.lookup String-discrete a s.available) revision,
  s,
)

unfoldable pub schedule_check :
    String → ℕ → Bool → Scheduler → Result ScheduleError Bool × Scheduler
schedule_check a revision retry_failed s =
    if is_shut s
    then (err ScheduleError.coordinator_closed, s)
    else let checked =
        check_known (Dict.lookup String-discrete a s.work) a revision retry_failed s in
      (ok checked.0, checked.1)

unfoldable pub enqueue : String → ℕ → Scheduler → Scheduler
enqueue a revision s = record s {
  failures = Dict.erase String-discrete a s.failures;
  available = Dict.erase String-discrete a s.available;
  work =
      Dict.insert String-discrete a
        (record {
          work_id = s.next_work;
          requested_revision = revision;
          attempted_revision = none;
          cancellation = none;
        })
        s.work;
  pending = s.pending ++ a ∷ [];
  next_work = s.next_work + 1;
}

-- The second block of `schedule`.
abbrev pub admit_known :
    Option AccountWork
    → Limits
    → String
    → ℕ
    → Bool
    → Scheduler
    → Result ScheduleError Unit × Scheduler
admit_known (some w) limits a revision retry_failed s = (ok tt, coalesce a w revision s)
admit_known none limits a revision retry_failed s =
    if is_known_failure (Dict.lookup String-discrete a s.failures) revision retry_failed
    then (ok tt, s)
    else if leb limits.queue_capacity (length s.pending)
    then (err backpressure, s)
    else (ok tt, launch_workers limits (enqueue a revision s))

unfoldable pub schedule_admit :
    Limits → String → ℕ → Bool → Scheduler → Result ScheduleError Unit × Scheduler
schedule_admit limits a revision retry_failed s =
    if is_shut s
    then (err ScheduleError.coordinator_closed, s)
    else admit_known (Dict.lookup String-discrete a s.work) limits a revision retry_failed s

abbrev pub schedule_rest :
    Result ScheduleError Bool × Scheduler
    → Limits
    → String
    → ℕ
    → Bool
    → Result ScheduleError Unit × Scheduler
schedule_rest (err e, s) limits a revision retry_failed = (err e, s)
schedule_rest (ok true, s) limits a revision retry_failed = (ok tt, s)
schedule_rest (ok false, s) limits a revision retry_failed =
    schedule_admit limits a revision retry_failed s

-- `schedule`, when nothing runs between its two blocks
unfoldable pub schedule :
    Limits → String → ℕ → Bool → Scheduler → Result ScheduleError Unit × Scheduler
schedule limits a revision retry_failed s =
    schedule_rest (schedule_check a revision retry_failed s) limits a revision retry_failed
