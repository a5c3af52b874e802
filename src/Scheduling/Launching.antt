-- ===== src/Scheduling/Launching.antt =====
-- Admission and the launch of workers (app/analytics/scheduling.py) keep what every state keeps.
use onlyfans_conversational.Prelude.{
  ℕ, zero, suc, ◌+◌, ◌-◌, ◌≤◌, String, String-discrete, ℕ_discrete, Bool, true, false, [], ◌∷◌,
  none, some, ◌≡◌, refl, arith, length, length-append, ◌&&◌, ltb, leb, not, Bool-cases,
  Option-cases, inl, inr,
}
use onlyfans_conversational.Prelude.Dict
use onlyfans_conversational.Prelude.Dict.{Dict, lookup-insert, lookup-erase}
use onlyfans_conversational.Prelude.Membership.{length-erase}
use onlyfans_conversational.Prelude.Totals.{length-insert_new, lookup-filter-some}
use onlyfans_conversational.Scheduling.Types.{AccountWork, Place, Limits, Scheduler}
use onlyfans_conversational.Scheduling.Admission.{
  min, max, is_done, is_shut, running_workers, spawn, launch_workers, worker_finished, coalesce,
  is_known_failure, schedule_check, schedule_admit, enqueue, record_available, put_last,
}
use onlyfans_conversational.Scheduling.Ownership.{find_work, find_worker, Workers}
use onlyfans_conversational.Scheduling.Transfers.{
  IsOwned-spawned, IsOwned-forgotten, IsOwned-running, IsOwned-updated, IsOwned-queued,
}
use onlyfans_conversational.Scheduling.Steps.{IsSound}
use onlyfans_conversational.Scheduling.Eviction.{length-drop_oldest}

absent-fresh :
    (limits : Limits) (s : Scheduler) → IsSound limits s → find_worker s.next_task s.workers ≡ none
absent-fresh limits s h = elim (Option-cases (find_worker s.next_task s.workers)) [
  | inl e ↦ e
  | inr (p, e) ↦ absurd (omega (arith, h.fresh s.next_task p e))
]

spawned : Scheduler → Scheduler
unfolding spawn
spawned s = spawn 1 s

spawned-IsSound :
    (limits : Limits) (s : Scheduler)
    → IsSound limits s
    → length s.workers + 1 ≤ limits.worker_count
    → IsSound limits (spawned s)
unfolding spawned spawn
spawned-IsSound limits s h room =
    let absent = absent-fresh limits s h in
    record {
      owned = λ o. IsOwned-spawned s.next_task Place.idle (h.owned o) absent refl;
      opened = h.opened;
      sealed = h.sealed;
      queue_bound = h.queue_bound;
      worker_bound =
          omega (arith, room, length-insert_new ℕ_discrete s.next_task Place.idle s.workers absent);
      failure_bound = h.failure_bound;
      available_bound = h.available_bound;
      fresh = λ t p found.
          ground (
            arith,
            lookup-insert ℕ_discrete t s.next_task Place.idle s.workers,
            found,
            h.fresh t p,
          );
      epoch_current = h.epoch_current;
    }

spawn-IsSound :
    (n : ℕ) (limits : Limits) (s : Scheduler)
    → IsSound limits s
    → length s.workers + n ≤ limits.worker_count
    → IsSound limits (spawn n s)
unfolding spawn spawned
spawn-IsSound zero limits s h room = h
spawn-IsSound (suc n) limits s h room =
    let absent = absent-fresh limits s h in
    spawn-IsSound n limits (spawned s) (spawned-IsSound limits s h (omega (arith, room)))
      (omega (arith, room, length-insert_new ℕ_discrete s.next_task Place.idle s.workers absent))

length-running : (workers : Workers) → length (running_workers workers) ≤ length workers
unfolding running_workers
length-running [] = omega arith
length-running (e ∷ workers) = ground (arith, length-running workers)

launch_workers-IsSound :
    (limits : Limits) (s : Scheduler)
    → IsSound limits s
    → s.closed ≡ false
    → IsSound limits (launch_workers limits s)
unfolding launch_workers running_workers
launch_workers-IsSound limits s h is_open =
    let shorter = length-running s.workers in
    let live : Scheduler = record s { workers = running_workers s.workers } in
    let live-IsSound : IsSound limits live = record {
      owned = λ o. IsOwned-running (h.owned o);
      opened = h.opened;
      sealed = h.sealed;
      queue_bound = h.queue_bound;
      worker_bound = omega (arith, h.worker_bound, shorter);
      failure_bound = h.failure_bound;
      available_bound = h.available_bound;
      fresh = λ t p found. h.fresh t p (
          lookup-filter-some ℕ_discrete (λ e. not (is_done e.1)) t p s.workers
            (h.owned is_open).workers_distinct found);
      epoch_current = h.epoch_current;
    } in
    spawn-IsSound
      (min (limits.worker_count - length (running_workers s.workers)) (length s.pending)) limits
      live live-IsSound (ground (arith, h.worker_bound, shorter))

accepting-open :
    (limits : Limits) (s : Scheduler) → IsSound limits s → s.accepting ≡ true → s.closed ≡ false
accepting-open limits s h e = elim (Bool-cases s.closed) [
  | inl shut ↦ let (p, w, f, n, c, refused) = h.sealed shut in cc
  | inr is_open ↦ is_open
]

pub worker_finished-IsSound :
    (limits : Limits) (t : ℕ) (s : Scheduler)
    → IsSound limits s
    → find_worker t s.workers ≡ some Place.done
    → IsSound limits (worker_finished limits t s)
unfolding worker_finished
worker_finished-IsSound limits t s h at =
    let discarded : Scheduler = record s { workers = Dict.erase ℕ_discrete t s.workers } in
    let discarded-IsSound : IsSound limits discarded = record {
      owned = λ o. IsOwned-forgotten t Place.done (h.owned o) at refl;
      opened = h.opened;
      sealed = h.sealed;
      queue_bound = h.queue_bound;
      worker_bound = omega (arith, h.worker_bound, length-erase ℕ_discrete t s.workers);
      failure_bound = h.failure_bound;
      available_bound = h.available_bound;
      fresh =
          λ u p found. h.fresh u p (ground (arith, lookup-erase ℕ_discrete u t s.workers, found));
      epoch_current = h.epoch_current;
    } in
    elim (Bool-cases (s.accepting && ltb 0 (length s.pending))) [
      | inl more ↦ rw more (
          launch_workers-IsSound limits discarded discarded-IsSound
            (accepting-open limits s h (ground (arith, more))))
      | inr nothing ↦ rw nothing discarded-IsSound
    ]

pub record_available-IsSound :
    (limits : Limits) (a : String) (revision : ℕ) (s : Scheduler)
    → IsSound limits s
    → IsSound limits (record_available limits a revision s)
unfolding record_available
record_available-IsSound limits a revision s h = record {
  owned = h.owned;
  opened = h.opened;
  sealed = h.sealed;
  queue_bound = h.queue_bound;
  worker_bound = h.worker_bound;
  failure_bound = h.failure_bound;
  available_bound =
      length-drop_oldest limits.failure_state_capacity (put_last a revision s.available);
  fresh = h.fresh;
  epoch_current = h.epoch_current;
}

coalesce-IsSound :
    (limits : Limits) (a : String) (w : AccountWork) (revision : ℕ) (s : Scheduler)
    → IsSound limits s
    → s.closed ≡ false
    → find_work a s.work ≡ some w
    → IsSound limits (coalesce a w revision s)
unfolding coalesce
coalesce-IsSound limits a w revision s h is_open at =
    let new : AccountWork = record w { requested_revision = max w.requested_revision revision } in
    record {
      owned = λ o. IsOwned-updated a w new (h.owned o) at refl (ground arith);
      opened = h.opened;
      sealed = λ shut. absurd (cc);
      queue_bound = h.queue_bound;
      worker_bound = h.worker_bound;
      failure_bound = h.failure_bound;
      available_bound = h.available_bound;
      fresh = h.fresh;
      epoch_current = h.epoch_current;
    }

enqueue-IsSound :
    (limits : Limits) (a : String) (revision : ℕ) (s : Scheduler)
    → IsSound limits s
    → s.closed ≡ false
    → find_work a s.work ≡ none
    → length s.pending + 1 ≤ limits.queue_capacity
    → IsSound limits (enqueue a revision s)
unfolding enqueue
enqueue-IsSound limits a revision s h is_open at room =
    let new : AccountWork = record {
      work_id = s.next_work;
      requested_revision = revision;
      attempted_revision = none;
      cancellation = none;
    } in
    record {
      owned = λ o. IsOwned-queued a new (h.owned o) at;
      opened = h.opened;
      sealed = λ shut. absurd (cc);
      queue_bound = omega (arith, room, length-append s.pending (a ∷ []));
      worker_bound = h.worker_bound;
      failure_bound = omega (arith, h.failure_bound, length-erase String-discrete a s.failures);
      available_bound =
          omega (arith, h.available_bound, length-erase String-discrete a s.available);
      fresh = h.fresh;
      epoch_current = h.epoch_current;
    }

enqueue-open :
    (a : String) (revision : ℕ) (s : Scheduler)
    → s.closed ≡ false
    → (enqueue a revision s).closed ≡ false
unfolding enqueue
enqueue-open a revision s e = e

pub schedule_check-IsSound :
    (limits : Limits) (a : String) (revision : ℕ) (retry_failed : Bool) (s : Scheduler)
    → IsSound limits s
    → IsSound limits (schedule_check a revision retry_failed s).1
unfolding schedule_check
schedule_check-IsSound limits a revision retry_failed s h = elim (Bool-cases (is_shut s)) [
  | inl shut ↦ rw shut h
  | inr is_open ↦ elim (Option-cases (find_work a s.work)) [
    | inl missing ↦ rw (is_open, missing) h
    | inr (w, found) ↦
        rw (is_open, found)
          (coalesce-IsSound limits a w revision s h (ground (arith, is_open)) found)
  ]
]

pub schedule_admit-IsSound :
    (limits : Limits) (a : String) (revision : ℕ) (retry_failed : Bool) (s : Scheduler)
    → IsSound limits s
    → IsSound limits (schedule_admit limits a revision retry_failed s).1
unfolding schedule_admit
schedule_admit-IsSound limits a revision retry_failed s h = elim (Bool-cases (is_shut s)) [
  | inl shut ↦ rw shut h
  | inr is_open ↦
      let unclosed : s.closed ≡ false = ground (arith, is_open) in
      elim (Option-cases (find_work a s.work)) [
        | inr (w, found) ↦
            rw (is_open, found) (coalesce-IsSound limits a w revision s h unclosed found)
        | inl missing ↦
            let failure = Dict.lookup String-discrete a s.failures in
            elim (Bool-cases (is_known_failure failure revision retry_failed)) [
              | inl known ↦ rw (is_open, missing, known) h
              | inr unknown ↦ elim (Bool-cases (leb limits.queue_capacity (length s.pending))) [
                | inl full ↦ rw (is_open, missing, unknown, full) h
                | inr room ↦
                    rw (is_open, missing, unknown, room)
                      (launch_workers-IsSound limits (enqueue a revision s)
                        (enqueue-IsSound limits a revision s h unclosed missing
                          (ground (arith, room)))
                        (enqueue-open a revision s unclosed))
              ]
            ]
      ]
]
