-- ===== src/Scheduling/Drain.antt =====
-- `_worker`, `_drain_account` and `_remove_work` of app/analytics/scheduling.py, each block under
-- the state lock a function from the worker's place to its next one. The answers of the pipeline
-- are parameters.
use onlyfans_conversational.Prelude.{
  ℕ, ◌+◌, String, String-discrete, ℕ_discrete, Bool, true, false, List, [], ◌∷◌, Option, none, some,
  ◌&&◌, not, if◌then◌else◌, leb, ltb, holds, Result, ok, err,
}
use onlyfans_conversational.Prelude.Dict
use onlyfans_conversational.Scheduling.Types.{
  AccountWork, Attempt, Place, Limits, Scheduler, ProjectionCandidate, ProjectionScheduleState,
  AvailabilityStatus,
}
use onlyfans_conversational.Scheduling.Admission.{drop_oldest, put_last, record_available}

abbrev pub drain_place : Option AccountWork → String → Place
drain_place none a = Place.idle
drain_place (some w) a = Place.draining a w.work_id

-- `creator_account_id = self._pending.popleft()` and what follows up to the drain
abbrev pub take_first : List String → Scheduler → Place × Scheduler
take_first [] s = (Place.done, s)
take_first (a ∷ rest) s =
    (drain_place (Dict.lookup String-discrete a s.work) a, record s { pending = rest })

-- A round of `_worker`'s loop.
unfoldable pub take : Scheduler → Place × Scheduler
take s = if s.closed then (Place.done, s) else take_first s.pending s

-- The account's work, if it is the worker's own: `self._work.get(a) is work`.
abbrev pub same_work : Option AccountWork → ℕ → Option AccountWork
same_work none id = none
same_work (some w) id = if holds (ℕ_discrete w.work_id id) then some w else none

unfoldable pub own_work : String → ℕ → Scheduler → Option AccountWork
own_work a id s = if s.closed then none else same_work (Dict.lookup String-discrete a s.work) id

-- `self._work.pop(a, None)`
abbrev pub drop_work : String → Scheduler → Scheduler
drop_work a s = record s { work = Dict.erase String-discrete a s.work }

abbrev pub begin_own : Option AccountWork → String → ℕ → Scheduler → Place × Scheduler
begin_own none a id s = (Place.idle, drop_work a s)
begin_own (some w) a id s = (
  Place.attempting a id w.requested_revision s.next_token,
  record s {
    work =
        Dict.insert String-discrete a
          (record w {
            attempted_revision = some w.requested_revision;
            cancellation = some s.next_token;
          })
          s.work;
    next_token = s.next_token + 1;
  },
)

-- The head of the loop of `_drain_account`.
unfoldable pub begin : String → ℕ → Scheduler → Place × Scheduler
begin a id s = begin_own (own_work a id s) a id s

abbrev pub is_eligible : Option AccountWork → ProjectionCandidate → Bool
is_eligible none c = false
is_eligible (some w) c = leb w.requested_revision c.source_revision

-- The build has answered: a candidate, or the code of its error.
unfoldable pub built :
    String → ℕ → ℕ → Result String ProjectionCandidate → Scheduler → Place × Scheduler
built a id attempted (ok c) s = (
  if is_eligible (own_work a id s) c
      then Place.publishing a id attempted c
      else Place.discarding a id (record {
        attempted_revision = attempted;
        candidate = some c;
        published = false;
        reason_code = none;
      }),
  s,
)
built a id attempted (err code) s = (
  Place.settling a id (record {
    attempted_revision = attempted;
    candidate = none;
    published = false;
    reason_code = some code;
  }),
  s,
)

abbrev pub remove_own : Option AccountWork → String → Scheduler → Scheduler
remove_own none a s = s
remove_own (some w) a s = drop_work a s

-- `_remove_work`
unfoldable pub remove_work : String → ℕ → Scheduler → Scheduler
remove_work a id s = remove_own (same_work (Dict.lookup String-discrete a s.work) id) a s

-- `except asyncio.CancelledError` around the build: the task ends.
unfoldable pub build_cancelled : String → ℕ → ℕ → Scheduler → Place × Scheduler
build_cancelled a id token s =
    (Place.done, remove_work a id (record s { cancelled_tokens = token ∷ s.cancelled_tokens }))

-- The publication has answered: done, or the code of its error.
unfoldable pub publication_answered :
    String → ℕ → ℕ → ProjectionCandidate → Result String Unit → Scheduler → Place × Scheduler
publication_answered a id attempted c (ok done) s = (
  Place.settling a id (record {
    attempted_revision = attempted;
    candidate = some c;
    published = true;
    reason_code = none;
  }),
  s,
)
publication_answered a id attempted c (err code) s = (
  Place.discarding a id (record {
    attempted_revision = attempted;
    candidate = some c;
    published = false;
    reason_code = some code;
  }),
  s,
)

-- The discard has returned, or was refused by the executor.
abbrev pub discarded : String → ℕ → Attempt → Scheduler → Place × Scheduler
discarded a id attempt s = (Place.settling a id attempt, s)

-- The discard has raised any other error: it ends the task, and only the ghost changes.
abbrev pub discard_raised : String → ℕ → Attempt → Scheduler → Place × Scheduler
discard_raised a id attempt s = (Place.done, record s { stranded = a ∷ s.stranded })

abbrev pub reason_or : Option String → String → String
reason_or none default = default
reason_or (some code) default = code

abbrev pub failed_state : AccountWork → Attempt → ProjectionScheduleState
failed_state w attempt = record {
  availability = AvailabilityStatus.error;
  requested_revision = some w.requested_revision;
  attempted_revision = some attempt.attempted_revision;
  reason_code = some (reason_or attempt.reason_code "analytics_projection_incomplete");
}

unfoldable pub record_failure : Limits → String → AccountWork → Attempt → Scheduler → Scheduler
record_failure limits a w attempt s = record s {
  work = Dict.erase String-discrete a s.work;
  failures =
      drop_oldest limits.failure_state_capacity (put_last a (failed_state w attempt) s.failures);
}

abbrev pub is_reason : Option String → Bool
is_reason none = false
is_reason (some code) = true

-- The candidate's revision where the attempt has published what the work asks for.
abbrev pub published_revision : Attempt → AccountWork → Option ℕ
published_revision attempt w = elim attempt.candidate [
  | none ↦ none
  | some c ↦
      if not (is_reason attempt.reason_code)
        && attempt.published
        && leb w.requested_revision c.source_revision
      then some c.source_revision
      else none
]

unfoldable pub record_success : Limits → String → ℕ → Scheduler → Scheduler
record_success limits a revision s = record_available limits a revision (record s {
  work = Dict.erase String-discrete a s.work;
  failures = Dict.erase String-discrete a s.failures;
})

-- The block's three ends: published, asked for more meanwhile, failed.
abbrev pub settle_work :
    Option ℕ → AccountWork → Limits → String → ℕ → Attempt → Scheduler → Place × Scheduler
settle_work (some revision) w limits a id attempt s =
    (Place.idle, record_success limits a revision s)
settle_work none w limits a id attempt s =
    if ltb attempt.attempted_revision w.requested_revision
    then (
      Place.draining a id,
      record s { work = Dict.insert String-discrete a (record w { cancellation = none }) s.work },
    )
    else (Place.idle, record_failure limits a w attempt s)

abbrev pub settle_own :
    Option AccountWork → Limits → String → ℕ → Attempt → Scheduler → Place × Scheduler
settle_own none limits a id attempt s = (Place.idle, drop_work a s)
settle_own (some w) limits a id attempt s =
    settle_work (published_revision attempt w) w limits a id attempt s

-- The last block of the loop of `_drain_account`.
unfoldable pub settle : Limits → String → ℕ → Attempt → Scheduler → Place × Scheduler
settle limits a id attempt s = settle_own (own_work a id s) limits a id attempt s
