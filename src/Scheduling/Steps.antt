-- ===== src/Scheduling/Steps.antt =====
-- The interleavings of app/analytics/scheduling.py: its blocks under the state lock, in any order
-- that its tasks, its threads and its callers bring them in.
use onlyfans_conversational.Prelude.{
  ℕ, ◌≤◌, ◌<◌, String, ℕ_discrete, Bool, true, false, [], Option, none, some, ◌≡◌, length, Result,
}
use onlyfans_conversational.Prelude.Dict
use onlyfans_conversational.Prelude.Dict.{Dict}
use onlyfans_conversational.Scheduling.Types.{
  Attempt, Place, Limits, Scheduler, ProjectionCandidate, new_scheduler,
}
use onlyfans_conversational.Scheduling.Admission.{
  schedule_check, schedule_admit, record_available, worker_finished,
}
use onlyfans_conversational.Scheduling.Publication.{
  publish_begin, publish_end, epoch_install, projection_storage_failed,
}
use onlyfans_conversational.Scheduling.Recovery.{
  request_recovery, recovery_head, recovery_claim, recovery_requeue, recovery_stopped,
}
use onlyfans_conversational.Scheduling.Drain.{
  take, begin, built, build_cancelled, publication_answered, discarded, discard_raised, settle,
}
use onlyfans_conversational.Scheduling.Closing.{seal, close_finish}
use onlyfans_conversational.Scheduling.Ownership.{IsOwned, find_worker}

-- What a worker at its place does next, for any answer of the pipeline: a discard may raise one of the
-- two errors that its caller expects, or any other. A task is cancelled in its build by anyone,
-- elsewhere by `close` and `abort`.
pub data Advance (limits : Limits) (s : Scheduler) : Place → Place × Scheduler → Type 0 where
  takes : Advance limits s Place.idle (take s)
  begins : {a : String} {id : ℕ} → Advance limits s (Place.draining a id) (begin a id s)
  builds :
      {a : String} {id attempted token : ℕ} (answer : Result String ProjectionCandidate)
      → Advance limits s (Place.attempting a id attempted token) (built a id attempted answer s)
  build_ends :
      {a : String} {id attempted token : ℕ}
      → Advance limits s (Place.attempting a id attempted token) (build_cancelled a id token s)
  publishes :
      {a : String} {id attempted : ℕ} {c : ProjectionCandidate} (answer : Result String Unit)
      → Advance limits s
          (Place.publishing a id attempted c)
          (publication_answered a id attempted c answer s)
  discards :
      {a : String} {id : ℕ} {attempt : Attempt}
      → Advance limits s (Place.discarding a id attempt) (discarded a id attempt s)
  raises :
      {a : String} {id : ℕ} {attempt : Attempt}
      → Advance limits s (Place.discarding a id attempt) (discard_raised a id attempt s)
  settles :
      {a : String} {id : ℕ} {attempt : Attempt}
      → Advance limits s (Place.settling a id attempt) (settle limits a id attempt s)
  stops : {p : Place} → s.closed ≡ true → Advance limits s p (Place.done, s)

abbrev pub placed : ℕ → Place × Scheduler → Scheduler
placed t r = record r.1 { workers = Dict.insert ℕ_discrete t r.0 (r.1).workers }

pub data Step (limits : Limits) (s : Scheduler) : Scheduler → Type 0 where
  checks :
      (a : String) (revision : ℕ) (retry_failed : Bool)
      → Step limits s (schedule_check a revision retry_failed s).1
  admits :
      (a : String) (revision : ℕ) (retry_failed : Bool)
      → Step limits s (schedule_admit limits a revision retry_failed s).1
  works :
      (t : ℕ) (p : Place) (r : Place × Scheduler)
      → find_worker t s.workers ≡ some p
      → Advance limits s p r
      → Step limits s (placed t r)
  -- A task that `close` no longer waits for.
  works_detached :
      (p : Place) (r : Place × Scheduler)
      → s.closed ≡ true
      → Advance limits s p r
      → Step limits s r.1
  finishes :
      (t : ℕ)
      → find_worker t s.workers ≡ some Place.done
      → Step limits s (worker_finished limits t s)
  publication_begins : (c : ProjectionCandidate) → Step limits s (publish_begin c s).1
  publication_ends : Step limits s (publish_end s)
  installs : (serial : ℕ) (opened : String) → Step limits s (epoch_install serial opened s).1
  storage_fails : (account : Option String) → Step limits s (projection_storage_failed account s)
  requests : (a : String) (revision : ℕ) → Step limits s (request_recovery a revision s)
  recovers : Step limits s (recovery_head s).1
  claims : (claimed : Dict String ℕ) → Step limits s (recovery_claim claimed s)
  requeues : (a : String) (revision : ℕ) → Step limits s (recovery_requeue a revision s)
  recovery_ends : Step limits s (recovery_stopped s)
  records : (a : String) (revision : ℕ) → Step limits s (record_available limits a revision s)
  seals : Step limits s (seal s)
  closes :
      (detached : ℕ) (result : Bool)
      → s.closed ≡ true
      → Step limits s (close_finish detached result s)

pub data Reach (limits : Limits) : Scheduler → Type 0 where
  new : Reach limits new_scheduler
  next : {s s' : Scheduler} → Reach limits s → Step limits s s' → Reach limits s'

-- What every state keeps: ownership while it is open, the bounds, and what closing cleared.
pub record IsSound (limits : Limits) (s : Scheduler) : Type 0 where
  pub owned : s.closed ≡ false → IsOwned s.stranded s.pending s.work s.workers
  pub opened : s.closed ≡ false → (s.accepting ≡ true) × (s.publication_closed ≡ false)
  pub sealed :
      s.closed ≡ true
      → (s.pending ≡ [])
        × (s.work ≡ [])
        × (s.failures ≡ [])
        × (s.publication_epoch ≡ none)
        × (s.publication_closed ≡ true)
        × (s.accepting ≡ false)
  pub queue_bound : length s.pending ≤ limits.queue_capacity
  pub worker_bound : length s.workers ≤ limits.worker_count
  pub failure_bound : length s.failures ≤ limits.failure_state_capacity
  pub available_bound : length s.available ≤ limits.failure_state_capacity
  pub fresh : (t : ℕ) (p : Place) → find_worker t s.workers ≡ some p → t < s.next_task
  pub epoch_current :
      (e : String)
      → s.publication_epoch ≡ some e
      → s.publication_epoch_storage_serial ≡ some s.projection_storage_failure_serial
