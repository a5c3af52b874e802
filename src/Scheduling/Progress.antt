-- ===== src/Scheduling/Progress.antt =====
-- The queue of the scheduler (app/analytics/scheduling.py) is always served.
use onlyfans_conversational.Prelude.{
  ℕ, zero, suc, ◌≤◌, ◌-◌, String, String-discrete, ℕ_discrete, Bool, false, [], ◌∷◌, ◌≡◌, refl,
  arith, ◌||◌, ◌&&◌, not, holds, leb, ltb, length, if-cases, Bool-cases, Option-cases, inl, inr,
  ◌⊎◌,
}
use onlyfans_conversational.Prelude.Dict
use onlyfans_conversational.Prelude.Dict.{Dict}
use onlyfans_conversational.Scheduling.Types.{Place, Limits, Scheduler}
use onlyfans_conversational.Scheduling.Admission.{
  min, is_shut, running_workers, spawn, launch_workers, worker_finished, schedule_check,
  schedule_admit, record_available, coalesce, enqueue, is_known_failure,
}
use onlyfans_conversational.Scheduling.Publication.{
  publish_begin, publish_end, is_epoch, epoch_install, projection_storage_failed,
}
use onlyfans_conversational.Scheduling.Recovery.{
  request_recovery, recovery_head, recovery_claim, recovery_requeue, recovery_stopped,
}
use onlyfans_conversational.Scheduling.Closing.{seal, close_finish}
use onlyfans_conversational.Scheduling.Ownership.{find_work}
use onlyfans_conversational.Scheduling.Steps.{
  IsSound, Step, Reach, checks, admits, works, works_detached, finishes, publication_begins,
  publication_ends, installs, storage_fails, requests, recovers, claims, requeues, recovery_ends,
  records, seals, closes, new, next,
}
use onlyfans_conversational.Scheduling.Soundness.{Reach-IsSound}
use onlyfans_conversational.Scheduling.Closure.{Step-IsClosed}

-- Where accounts are queued, there is a worker task: one that runs, or one that has returned and
-- whose callback launches the next.
abbrev pub IsServed : Scheduler → Type 0
IsServed s = s.closed ≡ false → 1 ≤ length s.pending → 1 ≤ length s.workers

abbrev IsServedAfter : {B : Type 0} → B × Scheduler → Type 0
IsServedAfter r = IsServed r.1

length-insert_pos :
    {K V : Type 0} (dec : Discrete K) (k : K) (v : V) (d : Dict K V)
    → 1 ≤ length (Dict.insert dec k v d)
unfolding Dict.insert
length-insert_pos dec k v [] = omega arith
length-insert_pos dec k v (e ∷ d) = ground arith

spawn-pending : (n : ℕ) (s : Scheduler) → (spawn n s).pending ≡ s.pending
unfolding spawn
spawn-pending zero s = refl
spawn-pending (suc n) s = spawn-pending n _

spawn-pos :
    (n : ℕ) (s : Scheduler) → (1 ≤ length s.workers) ⊎ (1 ≤ n) → 1 ≤ length (spawn n s).workers
unfolding spawn
spawn-pos zero s (inl h) = h
spawn-pos zero s (inr h) = absurd (omega (arith, h))
spawn-pos (suc n) s h =
    spawn-pos n _ (inl (length-insert_pos ℕ_discrete s.next_task Place.idle s.workers))

launch_workers-IsServed :
    (limits : Limits) (s : Scheduler) → 1 ≤ limits.worker_count → IsServed (launch_workers limits s)
unfolding launch_workers
launch_workers-IsServed limits s some_worker is_open queued =
    let live = running_workers s.workers in
    let n = min (limits.worker_count - length live) (length s.pending) in
    let waiting : 1 ≤ length s.pending =
      rw (← spawn-pending n (record s { workers = live })) queued in
    spawn-pos n (record s { workers = live })
      (elim (Bool-cases (leb 1 (length live))) [
        | inl served ↦ inl (ground (arith, served))
        | inr idle ↦ inr (ground (arith, idle, waiting, some_worker))
      ])

module _ (limits : Limits) (s : Scheduler) (some_worker : 1 ≤ limits.worker_count)
    (sound : IsSound limits s) (h : IsServed s) where
  finished-IsServed : (t : ℕ) → IsServed (worker_finished limits t s)
  unfolding worker_finished
  finished-IsServed t =
      let discarded : Scheduler = record s { workers = Dict.erase ℕ_discrete t s.workers } in
      if-cases IsServed (s.accepting && ltb 0 (length s.pending)) (launch_workers limits discarded)
        discarded (λ more. launch_workers-IsServed limits discarded some_worker)
        (λ nothing is_open queued.
          let (accepting, _) = sound.opened is_open in
          absurd (ground (arith, nothing, accepting, queued)))

  admit-IsServed :
      (a : String) (revision : ℕ) (retry_failed : Bool)
      → IsServed (schedule_admit limits a revision retry_failed s).1
  unfolding schedule_admit coalesce
  admit-IsServed a revision retry_failed =
      if-cases IsServedAfter (is_shut s) _ _ (λ shut. h)
        (λ is_open. elim (Option-cases (find_work a s.work)) [
          | inr (w, found) ↦ rw found h
          | inl missing ↦ rw missing (
              if-cases IsServedAfter
                (is_known_failure (Dict.lookup String-discrete a s.failures) revision retry_failed)
                _ _ (λ known. h)
                (λ unknown.
                  if-cases IsServedAfter (leb limits.queue_capacity (length s.pending)) _ _
                    (λ full. h)
                    (λ room. launch_workers-IsServed limits (enqueue a revision s) some_worker)))
        ])

  check-IsServed :
      (a : String) (revision : ℕ) (retry_failed : Bool)
      → IsServed (schedule_check a revision retry_failed s).1
  unfolding schedule_check coalesce
  check-IsServed a revision retry_failed =
      if-cases IsServedAfter (is_shut s) _ _ (λ shut. h)
        (λ is_open. elim (Option-cases (find_work a s.work)) [
          | inr (w, found) ↦ rw found h
          | inl missing ↦ rw missing h
        ])

  Step-IsServed : (s' : Scheduler) → Step limits s s' → IsServed s'
  unfolding publish_begin publish_end epoch_install projection_storage_failed request_recovery
      recovery_head recovery_claim recovery_requeue recovery_stopped record_available seal
      close_finish
  Step-IsServed s' (checks a revision retry_failed) = check-IsServed a revision retry_failed
  Step-IsServed s' (admits a revision retry_failed) = admit-IsServed a revision retry_failed
  Step-IsServed s' (works t p r at advance) =
      λ is_open queued. length-insert_pos ℕ_discrete t r.0 (r.1).workers
  Step-IsServed s' (works_detached p r shut advance) = λ is_open queued.
      let closed = Step-IsClosed limits s s' shut (works_detached p r shut advance) in absurd (cc)
  Step-IsServed s' (finishes t at) = finished-IsServed t
  Step-IsServed s' (publication_begins c) =
      if-cases IsServedAfter
        (s.publication_closed || not (is_epoch c.publication_epoch s.publication_epoch)) _ _
        (λ c. h) (λ o. h)
  Step-IsServed s' publication_ends = h
  Step-IsServed s' (installs serial opened) =
      if-cases IsServedAfter s.publication_closed _ _ (λ c. h)
        (λ o.
          if-cases IsServedAfter
            (not (holds (ℕ_discrete serial s.projection_storage_failure_serial))) _ _ (λ c. h)
            (λ e. h))
  Step-IsServed s' (storage_fails account) = h
  Step-IsServed s' (requests a revision) =
      if-cases IsServed (s.closed || not s.accepting) s _ (λ c. h) (λ o. h)
  Step-IsServed s' recovers =
      if-cases IsServedAfter s.closed _ _ (λ c. h)
        (λ o. if-cases IsServedAfter (ltb 0 (length s.recovery_requests)) _ _ (λ c. h) (λ e. h))
  Step-IsServed s' (claims claimed) = h
  Step-IsServed s' (requeues a revision) = h
  Step-IsServed s' recovery_ends = h
  Step-IsServed s' (records a revision) = h
  Step-IsServed s' seals = λ is_open queued. absurd (cc)
  Step-IsServed s' (closes detached result shut) = λ is_open queued. absurd (cc)

-- With one worker at least, a reachable open scheduler that has accounts queued has a worker task
-- that will take them: no interleaving leaves the queue without one.
pub Reach-IsServed :
    (limits : Limits) (s : Scheduler) → Reach limits s → 1 ≤ limits.worker_count → IsServed s
Reach-IsServed limits s new some_worker = λ is_open queued. absurd (omega (arith, queued))
Reach-IsServed limits s (next {s = before} reach step) some_worker =
    Step-IsServed limits before some_worker (Reach-IsSound limits before reach)
      (Reach-IsServed limits before reach some_worker) s step
