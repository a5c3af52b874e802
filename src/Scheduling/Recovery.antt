-- ===== src/Scheduling/Recovery.antt =====
-- `request_recovery`, `_recovery_worker` and `start` of app/analytics/scheduling.py, each block
-- under the state lock a function.
use onlyfans_conversational.Prelude.{
  ℕ, String, String-discrete, ℕ_discrete, Bool, true, false, [], ◌∷◌, Option, none, some, ◌||◌, not,
  holds, if◌then◌else◌, ltb, length, Result, ok, err, ◌*◌,
}
use onlyfans_conversational.Prelude.Dict
use onlyfans_conversational.Prelude.Dict.{Dict}
use onlyfans_conversational.Scheduling.Types.{
  Limits, Scheduler, ScheduleError, coordinator_closed, backpressure,
}
use onlyfans_conversational.Scheduling.Admission.{max, min, record_available, schedule, is_shut}

-- `max(revision, self._recovery_requests.get(a, revision))`
abbrev pub merged : Option ℕ → ℕ → ℕ
merged none revision = revision
merged (some before) revision = max revision before

unfoldable pub add_request : String → ℕ → Dict String ℕ → Dict String ℕ
add_request a revision requests =
    Dict.insert String-discrete a (merged (Dict.lookup String-discrete a requests) revision)
      requests

-- `request_recovery`; a recovery task runs afterwards unless the scheduler is closed
unfoldable pub request_recovery : String → ℕ → Scheduler → Scheduler
request_recovery a revision s = if s.closed || not s.accepting then s else record s {
  available = Dict.erase String-discrete a s.available;
  failures = Dict.erase String-discrete a s.failures;
  recovery_requests = add_request a revision s.recovery_requests;
  recovery_running = true;
}

-- The head of the loop of `_recovery_worker`: the requests it works on, or its return.
unfoldable pub recovery_head : Scheduler → Option (Dict String ℕ) × Scheduler
recovery_head s =
    if s.closed
    then (none, record s { recovery_requests = []; recovery_running = false })
    else if ltb 0 (length s.recovery_requests)
    then (some s.recovery_requests, s)
    else (none, record s { recovery_running = false })

-- One account of the claim: a request that was raised since stays.
abbrev pub claim_found : Option ℕ → String × ℕ → Dict String ℕ → Dict String ℕ
claim_found none e requests = requests
claim_found (some revision) e requests =
    if holds (ℕ_discrete revision e.1) then Dict.erase String-discrete e.0 requests else requests

unfoldable pub claim_one : String × ℕ → Dict String ℕ → Dict String ℕ
claim_one e requests = claim_found (Dict.lookup String-discrete e.0 requests) e requests

unfoldable pub claim : Dict String ℕ → Dict String ℕ → Dict String ℕ
claim [] requests = requests
claim (e ∷ claimed) requests = claim claimed (claim_one e requests)

-- Its block once the storage and an epoch are there.
unfoldable pub recovery_claim : Dict String ℕ → Scheduler → Scheduler
recovery_claim claimed s = record s { recovery_requests = claim claimed s.recovery_requests }

-- `except ProjectionBackpressure`
unfoldable pub recovery_requeue : String → ℕ → Scheduler → Scheduler
recovery_requeue a revision s = record s {
  recovery_requests = add_request a revision s.recovery_requests;
}

-- `except ProjectionCoordinatorClosed: return`, and a task that such an error ends
unfoldable pub recovery_stopped : Scheduler → Scheduler
recovery_stopped s = record s { recovery_running = false }

abbrev pub recovery_answer :
    Result ScheduleError Unit × Scheduler → String → ℕ → Result ScheduleError Unit × Scheduler
recovery_answer (ok done, s) a revision = (ok tt, s)
recovery_answer (err backpressure, s) a revision = (ok tt, recovery_requeue a revision s)
recovery_answer (err coordinator_closed, s) a revision =
    (err ScheduleError.coordinator_closed, recovery_stopped s)

-- The loop that schedules what was claimed.
unfoldable pub recovery_schedule :
    Limits → Dict String ℕ → Scheduler → Result ScheduleError Unit × Scheduler
recovery_schedule limits [] s = (ok tt, s)
recovery_schedule limits (e ∷ claimed) s =
    let answer = recovery_answer (schedule limits e.0 e.1 true s) e.0 e.1 in
    elim answer.0 [
      | ok _ ↦ recovery_schedule limits claimed answer.1
      | err stop ↦ (err stop, answer.1)
    ]

-- The delay in milliseconds after a failed try: `min(delay * 2, 2.0)`.
abbrev pub next_delay : ℕ → ℕ
next_delay delay = min (delay * 2) 2000

-- The first block of `start`.
unfoldable pub start_check : Scheduler → Result ScheduleError Unit
start_check s = if is_shut s then err ScheduleError.coordinator_closed else ok tt

-- One account of `start`'s loop, and one try of it where it has to be scheduled.
unfoldable pub start_account :
    Limits → Bool → String → ℕ → Scheduler → Result ScheduleError Unit × Scheduler
start_account limits is_current a revision s =
    if is_current
    then (ok tt, record_available limits a revision s)
    else schedule limits a revision true s
