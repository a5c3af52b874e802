-- ===== src/Scheduling/Losses.antt =====
-- An account that was stranded stays so: no block of app/analytics/scheduling.py takes it back.
use onlyfans_conversational.Prelude.{
  ℕ, zero, suc, ◌≤◌, String, String-discrete, ℕ_discrete, List, [], ◌∷◌, Option, none, some, arith,
  ◌||◌, ◌&&◌, not, holds, Bool, leb, ltb, length, if-cases, Option-cases, inl, inr, ok, err,
}
use onlyfans_conversational.Prelude.Dict
use onlyfans_conversational.Scheduling.Types.{AccountWork, Attempt, Place, Limits, Scheduler}
use onlyfans_conversational.Scheduling.Admission.{
  is_shut, spawn, launch_workers, worker_finished, schedule_check, schedule_admit, record_available,
  coalesce, enqueue, is_known_failure,
}
use onlyfans_conversational.Scheduling.Publication.{
  publish_begin, publish_end, is_epoch, epoch_install, projection_storage_failed,
}
use onlyfans_conversational.Scheduling.Recovery.{
  request_recovery, recovery_head, recovery_claim, recovery_requeue, recovery_stopped,
}
use onlyfans_conversational.Scheduling.Drain.{
  take, take_first, same_work, begin, begin_own, own_work, built, build_cancelled, remove_work,
  publication_answered, settle, settle_own, settle_work, published_revision, record_success,
  record_failure,
}
use onlyfans_conversational.Scheduling.Closing.{seal, close_finish}
use onlyfans_conversational.Scheduling.Ownership.{count, find_work}
use onlyfans_conversational.Scheduling.Steps.{
  Advance, Step, takes, begins, builds, build_ends, publishes, discards, raises, settles, stops,
  checks, admits, works, works_detached, finishes, publication_begins, publication_ends, installs,
  storage_fails, requests, recovers, claims, requeues, recovery_ends, records, seals, closes,
}
use onlyfans_conversational.Scheduling.Closure.{Follows, same, later}

-- The account was stranded `n` times at least.
abbrev pub HasLost : String → ℕ → Scheduler → Type 0
HasLost a n s = n ≤ count a s.stranded

module _ (a : String) (n : ℕ) where
  abbrev HasLostAfter : {B : Type 0} → B × Scheduler → Type 0
  HasLostAfter r = n ≤ count a (r.1).stranded

  spawn-HasLost : (m : ℕ) (s : Scheduler) → HasLost a n s → HasLost a n (spawn m s)
  unfolding spawn
  spawn-HasLost zero s h = h
  spawn-HasLost (suc m) s h = spawn-HasLost m _ h

  launched-HasLost :
      (limits : Limits) (s : Scheduler) → HasLost a n s → HasLost a n (launch_workers limits s)
  unfolding launch_workers
  launched-HasLost limits s h = spawn-HasLost _ _ h

  module _ (limits : Limits) (s : Scheduler) (h : HasLost a n s) where
    finished-HasLost : (t : ℕ) → HasLost a n (worker_finished limits t s)
    unfolding worker_finished
    finished-HasLost t =
        if-cases (HasLost a n) (s.accepting && ltb 0 (length s.pending)) _ _
          (λ more. launched-HasLost limits _ h) (λ nothing. h)

    take_first-HasLost : (pending : List String) → HasLostAfter (take_first pending s)
    take_first-HasLost [] = h
    take_first-HasLost (b ∷ rest) = h

    begin_own-HasLost :
        (o : Option AccountWork) (b : String) (id : ℕ) → HasLostAfter (begin_own o b id s)
    begin_own-HasLost none b id = h
    begin_own-HasLost (some w) b id = h

    remove_work-HasLost :
        (b : String) (id : ℕ) (tokens : List ℕ)
        → HasLost a n (remove_work b id (record s { cancelled_tokens = tokens }))
    unfolding remove_work
    remove_work-HasLost b id tokens = elim (Option-cases (same_work (find_work b s.work) id)) [
      | inl e ↦ rw e h
      | inr (w, e) ↦ rw e h
    ]

    settle_work-HasLost :
        (o : Option ℕ) (w : AccountWork) (b : String) (id : ℕ) (attempt : Attempt)
        → HasLostAfter (settle_work o w limits b id attempt s)
    unfolding record_success record_failure record_available
    settle_work-HasLost (some revision) w b id attempt = h
    settle_work-HasLost none w b id attempt =
        if-cases HasLostAfter (ltb attempt.attempted_revision w.requested_revision) _ _ (λ more. h)
          (λ last. h)

    settle_own-HasLost :
        (o : Option AccountWork) (b : String) (id : ℕ) (attempt : Attempt)
        → HasLostAfter (settle_own o limits b id attempt s)
    settle_own-HasLost none b id attempt = h
    settle_own-HasLost (some w) b id attempt =
        settle_work-HasLost (published_revision attempt w) w b id attempt

    Advance-HasLost : (p : Place) (r : Place × Scheduler) → Advance limits s p r → HasLostAfter r
    unfolding take begin built build_cancelled publication_answered settle count
    Advance-HasLost p r takes =
        if-cases HasLostAfter s.closed (Place.done, s) (take_first s.pending s) (λ c. h)
          (λ o. take_first-HasLost s.pending)
    Advance-HasLost p r (begins {a = b} {id = id}) = begin_own-HasLost (own_work b id s) b id
    Advance-HasLost p r (builds (ok c)) = h
    Advance-HasLost p r (builds (err code)) = h
    Advance-HasLost p r (build_ends {a = b} {id = id} {token = token}) =
        remove_work-HasLost b id (token ∷ s.cancelled_tokens)
    Advance-HasLost p r (publishes (ok done)) = h
    Advance-HasLost p r (publishes (err code)) = h
    Advance-HasLost p r discards = h
    Advance-HasLost p r (raises {a = b}) = omega (arith, h)
    Advance-HasLost p r (settles {a = b} {id = id} {attempt = attempt}) =
        settle_own-HasLost (own_work b id s) b id attempt
    Advance-HasLost p r (stops e) = h

    check-HasLost :
        (b : String) (revision : ℕ) (retry_failed : Bool)
        → HasLostAfter (schedule_check b revision retry_failed s)
    unfolding schedule_check coalesce
    check-HasLost b revision retry_failed =
        if-cases HasLostAfter (is_shut s) _ _ (λ c. h)
          (λ o. elim (Option-cases (find_work b s.work)) [
            | inl missing ↦ rw missing h
            | inr (w, found) ↦ rw found h
          ])

    admit-HasLost :
        (b : String) (revision : ℕ) (retry_failed : Bool)
        → HasLostAfter (schedule_admit limits b revision retry_failed s)
    unfolding schedule_admit coalesce enqueue
    admit-HasLost b revision retry_failed =
        if-cases HasLostAfter (is_shut s) _ _ (λ c. h)
          (λ o. elim (Option-cases (find_work b s.work)) [
            | inr (w, found) ↦ rw found h
            | inl missing ↦ rw missing (
                if-cases HasLostAfter
                  (is_known_failure (Dict.lookup String-discrete b s.failures) revision
                    retry_failed)
                  _ _ (λ known. h)
                  (λ unknown.
                    if-cases HasLostAfter (leb limits.queue_capacity (length s.pending)) _ _
                      (λ full. h) (λ room. launched-HasLost limits (enqueue b revision s) h)))
          ])

    Step-HasLost : (s' : Scheduler) → Step limits s s' → HasLost a n s'
    unfolding publish_begin publish_end epoch_install projection_storage_failed request_recovery
        recovery_head recovery_claim recovery_requeue recovery_stopped record_available seal
        close_finish
    Step-HasLost s' (checks b revision retry_failed) = check-HasLost b revision retry_failed
    Step-HasLost s' (admits b revision retry_failed) = admit-HasLost b revision retry_failed
    Step-HasLost s' (works t p r at advance) = Advance-HasLost p r advance
    Step-HasLost s' (works_detached p r shut advance) = Advance-HasLost p r advance
    Step-HasLost s' (finishes t at) = finished-HasLost t
    Step-HasLost s' (publication_begins c) =
        if-cases HasLostAfter
          (s.publication_closed || not (is_epoch c.publication_epoch s.publication_epoch)) _ _
          (λ c. h) (λ o. h)
    Step-HasLost s' publication_ends = h
    Step-HasLost s' (installs serial opened) =
        if-cases HasLostAfter s.publication_closed _ _ (λ c. h)
          (λ o.
            if-cases HasLostAfter
              (not (holds (ℕ_discrete serial s.projection_storage_failure_serial))) _ _ (λ c. h)
              (λ e. h))
    Step-HasLost s' (storage_fails account) = h
    Step-HasLost s' (requests b revision) =
        if-cases (HasLost a n) (s.closed || not s.accepting) s _ (λ c. h) (λ o. h)
    Step-HasLost s' recovers =
        if-cases HasLostAfter s.closed _ _ (λ c. h)
          (λ o. if-cases HasLostAfter (ltb 0 (length s.recovery_requests)) _ _ (λ c. h) (λ e. h))
    Step-HasLost s' (claims claimed) = h
    Step-HasLost s' (requeues b revision) = h
    Step-HasLost s' recovery_ends = h
    Step-HasLost s' (records b revision) = h
    Step-HasLost s' seals = h
    Step-HasLost s' (closes detached result shut) = h

  pub Follows-HasLost :
      (limits : Limits) (s s' : Scheduler) → HasLost a n s → Follows limits s s' → HasLost a n s'
  Follows-HasLost limits s s' h same = h
  Follows-HasLost limits s s' h (later {m = m} before step) =
      Step-HasLost limits m (Follows-HasLost limits s m h before) s' step
