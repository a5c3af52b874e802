-- ===== src/Scheduling/Closure.antt =====
-- After `close` or `abort` (app/analytics/scheduling.py) nothing is admitted or published any more.
use onlyfans_conversational.Prelude.{
  ℕ, zero, suc, String, ℕ_discrete, Bool, true, [], none, ◌≡◌, refl, arith, ◌||◌, ◌&&◌, ◌∷◌, not,
  holds, ltb, length, if-cases, Option-cases, inl, inr, ok, err,
}
use onlyfans_conversational.Scheduling.Types.{
  Place, Limits, Scheduler, ProjectionCandidate, ScheduleError,
}
use onlyfans_conversational.Scheduling.Admission.{
  is_shut, spawn, launch_workers, worker_finished, schedule, schedule_check, schedule_admit,
  record_available,
}
use onlyfans_conversational.Scheduling.Publication.{
  publish_begin, publish_end, is_epoch, EpochCheck, epoch_check, epoch_install,
  projection_storage_failed,
}
use onlyfans_conversational.Scheduling.Recovery.{
  request_recovery, recovery_head, recovery_claim, recovery_requeue, recovery_stopped,
}
use onlyfans_conversational.Scheduling.Drain.{
  take, take_first, same_work, begin, own_work, built, build_cancelled, remove_work,
  publication_answered, settle,
}
use onlyfans_conversational.Scheduling.Closing.{seal, close_finish}
use onlyfans_conversational.Scheduling.Ownership.{find_work}
use onlyfans_conversational.Scheduling.Steps.{
  Advance, Step, Reach, takes, begins, builds, build_ends, publishes, discards, raises, settles,
  stops, checks, admits, works, works_detached, finishes, publication_begins, publication_ends,
  installs, storage_fails, requests, recovers, claims, requeues, recovery_ends, records, seals,
  closes, next,
}
use onlyfans_conversational.Scheduling.Soundness.{Reach-IsSound}

abbrev IsClosed : Scheduler → Type 0
IsClosed s = s.closed ≡ true

abbrev IsClosedAfter : {B : Type 0} → B × Scheduler → Type 0
IsClosedAfter r = (r.1).closed ≡ true

spawn-IsClosed : (n : ℕ) (s : Scheduler) → IsClosed s → IsClosed (spawn n s)
unfolding spawn
spawn-IsClosed zero s h = h
spawn-IsClosed (suc n) s h = spawn-IsClosed n _ h

finished-IsClosed :
    (limits : Limits) (t : ℕ) (s : Scheduler) → IsClosed s → IsClosed (worker_finished limits t s)
unfolding worker_finished launch_workers
finished-IsClosed limits t s h =
    if-cases IsClosed (s.accepting && ltb 0 (length s.pending)) _ _ (λ more. spawn-IsClosed _ _ h)
      (λ nothing. h)

remove_work-IsClosed :
    (a : String) (id : ℕ) (s : Scheduler) → IsClosed s → IsClosed (remove_work a id s)
unfolding remove_work
remove_work-IsClosed a id s h = elim (Option-cases (same_work (find_work a s.work) id)) [
  | inl e ↦ rw e h
  | inr (w, e) ↦ rw e h
]

Advance-IsClosed :
    (limits : Limits) (s : Scheduler) (p : Place) (r : Place × Scheduler)
    → IsClosed s
    → Advance limits s p r
    → IsClosedAfter r
unfolding take begin built build_cancelled publication_answered settle own_work
Advance-IsClosed limits s p r h takes =
    if-cases IsClosedAfter s.closed (Place.done, s) (take_first s.pending s) (λ c. h)
      (λ o. absurd (cc))
Advance-IsClosed limits s p r h (begins {a = a} {id = id}) =
    let lost : own_work a id s ≡ none = ground (arith, h) in rw lost h
Advance-IsClosed limits s p r h (builds (ok c)) = h
Advance-IsClosed limits s p r h (builds (err code)) = h
Advance-IsClosed limits s p r h (build_ends {a = a} {id = id} {token = token}) =
    remove_work-IsClosed a id (record s { cancelled_tokens = token ∷ s.cancelled_tokens }) h
Advance-IsClosed limits s p r h (publishes (ok done)) = h
Advance-IsClosed limits s p r h (publishes (err code)) = h
Advance-IsClosed limits s p r h discards = h
Advance-IsClosed limits s p r h raises = h
Advance-IsClosed limits s p r h (settles {a = a} {id = id}) =
    let lost : own_work a id s ≡ none = ground (arith, h) in rw lost h
Advance-IsClosed limits s p r h (stops e) = h

is_shut-closed : (s : Scheduler) → IsClosed s → is_shut s ≡ true
is_shut-closed s h = ground (arith, h)

pub Step-IsClosed :
    (limits : Limits) (s s' : Scheduler) → IsClosed s → Step limits s s' → IsClosed s'
unfolding publish_begin publish_end epoch_install projection_storage_failed request_recovery
    recovery_head recovery_claim recovery_requeue recovery_stopped record_available seal
    close_finish schedule_check schedule_admit
Step-IsClosed limits s s' h (checks a revision retry_failed) =
    if-cases IsClosedAfter (is_shut s) _ _ (λ c. h) (λ o. absurd (ground (arith, h, o)))
Step-IsClosed limits s s' h (admits a revision retry_failed) =
    if-cases IsClosedAfter (is_shut s) _ _ (λ c. h) (λ o. absurd (ground (arith, h, o)))
Step-IsClosed limits s s' h (works t p r at advance) = Advance-IsClosed limits s p r h advance
Step-IsClosed limits s s' h (works_detached p r shut advance) =
    Advance-IsClosed limits s p r h advance
Step-IsClosed limits s s' h (finishes t at) = finished-IsClosed limits t s h
Step-IsClosed limits s s' h (publication_begins c) =
    if-cases IsClosedAfter
      (s.publication_closed || not (is_epoch c.publication_epoch s.publication_epoch)) _ _ (λ c. h)
      (λ o. h)
Step-IsClosed limits s s' h publication_ends = h
Step-IsClosed limits s s' h (installs serial opened) =
    if-cases IsClosedAfter s.publication_closed _ _ (λ c. h)
      (λ o.
        if-cases IsClosedAfter (not (holds (ℕ_discrete serial s.projection_storage_failure_serial)))
          _ _ (λ c. h) (λ e. h))
Step-IsClosed limits s s' h (storage_fails account) = h
Step-IsClosed limits s s' h (requests a revision) =
    if-cases IsClosed (s.closed || not s.accepting) s _ (λ c. h) (λ o. h)
Step-IsClosed limits s s' h recovers =
    if-cases IsClosedAfter s.closed _ _ (λ c. h)
      (λ o. if-cases IsClosedAfter (ltb 0 (length s.recovery_requests)) _ _ (λ c. h) (λ e. h))
Step-IsClosed limits s s' h (claims claimed) = h
Step-IsClosed limits s s' h (requeues a revision) = h
Step-IsClosed limits s s' h recovery_ends = h
Step-IsClosed limits s s' h (records a revision) = h
Step-IsClosed limits s s' h seals = refl
Step-IsClosed limits s s' h (closes detached result shut) = h

-- The states that follow one.
pub data Follows (limits : Limits) (s : Scheduler) : Scheduler → Type 0 where
  same : Follows limits s s
  later : {m s' : Scheduler} → Follows limits s m → Step limits m s' → Follows limits s s'

pub follows-Reach :
    (limits : Limits) (s s' : Scheduler) → Reach limits s → Follows limits s s' → Reach limits s'
follows-Reach limits s s' reach same = reach
follows-Reach limits s s' reach (later {m = m} before step) =
    next (follows-Reach limits s m reach before) step

Follows-IsClosed :
    (limits : Limits) (s s' : Scheduler) → IsClosed s → Follows limits s s' → IsClosed s'
Follows-IsClosed limits s s' h same = h
Follows-IsClosed limits s s' h (later {m = m} before step) =
    Step-IsClosed limits m s' (Follows-IsClosed limits s m h before) step

-- Every operation that admits or publishes is refused, and nothing is left to do.
pub record IsRefusing (limits : Limits) (s : Scheduler) : Type 0 where
  pub admission :
      (a : String) (revision : ℕ) (retry_failed : Bool)
      → (schedule limits a revision retry_failed s).0 ≡ err ScheduleError.coordinator_closed
  pub publication :
      (c : ProjectionCandidate) → (publish_begin c s).0 ≡ err ScheduleError.coordinator_closed
  pub epoch : epoch_check s ≡ EpochCheck.refused
  pub installation :
      (serial : ℕ) (opened : String)
      → (epoch_install serial opened s).0 ≡ err ScheduleError.coordinator_closed
  pub queue : s.pending ≡ []
  pub work : s.work ≡ []

-- Once a reachable state is closed, every state that follows it refuses to schedule, to begin a
-- publication and to hand out or install a publication epoch, and has neither queued accounts nor
-- work, whatever the detached tasks still do.
pub Follows-IsRefusing :
    (limits : Limits) (s s' : Scheduler)
    → Reach limits s
    → s.closed ≡ true
    → Follows limits s s'
    → IsRefusing limits s'
unfolding schedule schedule_check publish_begin epoch_check epoch_install
Follows-IsRefusing limits s s' reach shut follows =
    let closed = Follows-IsClosed limits s s' shut follows in
    let rest = (Reach-IsSound limits s' (follows-Reach limits s s' reach follows)).sealed closed in
    record {
      admission = λ a revision retry_failed. rw (is_shut-closed s' closed) refl;
      publication = λ c. rw (rest.4) refl;
      epoch = rw (rest.3, rest.4) refl;
      installation = λ serial opened. rw (rest.4) refl;
      queue = rest.0;
      work = rest.1;
    }
