-- ===== src/Scheduling/Soundness.antt =====
-- Every interleaving of the blocks of app/analytics/scheduling.py keeps what every state keeps.
use onlyfans_conversational.Prelude.{
  ℕ, ◌+◌, ◌-◌, String, String-discrete, ℕ_discrete, Bool, true, false, List, [], ◌∷◌, Option, none,
  ◌≡◌, refl, arith, length, ltb, not, ◌||◌, holds, Option-cases, inl, inr, ok, err, if-cases,
}
use onlyfans_conversational.Prelude.Dict
use onlyfans_conversational.Prelude.Dict.{Dict}
use onlyfans_conversational.Prelude.Membership.{length-erase}
use onlyfans_conversational.Prelude.Totals.{total}
use onlyfans_conversational.Scheduling.Types.{
  Place, Limits, Scheduler, ProjectionCandidate, ScheduleError, new_scheduler,
}
use onlyfans_conversational.Scheduling.Publication.{
  is_epoch, publish_begin, publish_end, epoch_install, projection_storage_failed,
}
use onlyfans_conversational.Scheduling.Recovery.{
  add_request, claim, request_recovery, recovery_head, recovery_claim, recovery_requeue,
  recovery_stopped,
}
use onlyfans_conversational.Scheduling.Drain.{
  take, take_first, own_work, begin, built, remove_work, build_cancelled, publication_answered,
  settle, same_work,
}
use onlyfans_conversational.Scheduling.Closing.{seal, close_finish}
use onlyfans_conversational.Scheduling.Ownership.{find_work, count, weight, is_holding}
use onlyfans_conversational.Scheduling.Steps.{
  Advance, IsSound, Step, Reach, takes, begins, builds, build_ends, publishes, discards, raises,
  settles, stops, checks, admits, works, works_detached, finishes, publication_begins,
  publication_ends, installs, storage_fails, requests, recovers, claims, requeues, recovery_ends,
  records, seals, closes, new, next,
}
use onlyfans_conversational.Scheduling.Launching.{
  schedule_check-IsSound, schedule_admit-IsSound, worker_finished-IsSound, record_available-IsSound,
}
use onlyfans_conversational.Scheduling.Advances.{Advance-IsSound}

abbrev IsSoundAfter : Limits → {B : Type 0} → B × Scheduler → Type 0
IsSoundAfter limits r = IsSound limits r.1

module _ (limits : Limits) (s : Scheduler) (sound : IsSound limits s) where
  -- A closed scheduler has no work to drop.
  emptied-IsSound :
      s.closed ≡ true
      → (a : String) (tokens : List ℕ)
      → IsSound limits
          (record s { work = Dict.erase String-discrete a s.work; cancelled_tokens = tokens })
  unfolding Dict.erase
  emptied-IsSound shut a tokens = record {
    owned = λ o. absurd (cc);
    opened = λ o. absurd (cc);
    sealed =
        λ c. let rest = sound.sealed c in (rest.0, rw rest.1 refl, rest.2, rest.3, rest.4, rest.5);
    queue_bound = sound.queue_bound;
    worker_bound = sound.worker_bound;
    failure_bound = sound.failure_bound;
    available_bound = sound.available_bound;
    fresh = sound.fresh;
    epoch_current = sound.epoch_current;
  }

  -- Only the ghost of a closed scheduler changes.
  stranded-IsSound :
      (lost : List String) → s.closed ≡ true → IsSound limits (record s { stranded = lost })
  stranded-IsSound lost shut = record {
    owned = λ o. absurd (cc);
    opened = sound.opened;
    sealed = sound.sealed;
    queue_bound = sound.queue_bound;
    worker_bound = sound.worker_bound;
    failure_bound = sound.failure_bound;
    available_bound = sound.available_bound;
    fresh = sound.fresh;
    epoch_current = sound.epoch_current;
  }

  -- Only tokens change.
  tokens-IsSound : (tokens : List ℕ) → IsSound limits (record s { cancelled_tokens = tokens })
  tokens-IsSound tokens = record {
    owned = sound.owned;
    opened = sound.opened;
    sealed = sound.sealed;
    queue_bound = sound.queue_bound;
    worker_bound = sound.worker_bound;
    failure_bound = sound.failure_bound;
    available_bound = sound.available_bound;
    fresh = sound.fresh;
    epoch_current = sound.epoch_current;
  }

  Advance-IsSound_detached :
      (p : Place) (r : Place × Scheduler)
      → s.closed ≡ true
      → Advance limits s p r
      → IsSound limits r.1
  unfolding take begin built build_cancelled remove_work publication_answered settle own_work
      Dict.lookup
  Advance-IsSound_detached p r shut takes =
      if-cases (IsSoundAfter limits) s.closed (Place.done, s) (take_first s.pending s) (λ c. sound)
        (λ o. absurd (cc))
  Advance-IsSound_detached p r shut (begins {a = a} {id = id}) =
      let lost : own_work a id s ≡ none = ground (arith, shut) in
      rw lost (emptied-IsSound shut a s.cancelled_tokens)
  Advance-IsSound_detached p r shut (builds (ok c)) = sound
  Advance-IsSound_detached p r shut (builds (err code)) = sound
  Advance-IsSound_detached p r shut (build_ends {a = a} {id = id} {token = token}) =
      let unknown : same_work (find_work a s.work) id ≡ none =
        (let rest = sound.sealed shut in rw rest.1 refl) in
      rw unknown (tokens-IsSound (token ∷ s.cancelled_tokens))
  Advance-IsSound_detached p r shut (publishes (ok done)) = sound
  Advance-IsSound_detached p r shut (publishes (err code)) = sound
  Advance-IsSound_detached p r shut discards = sound
  Advance-IsSound_detached p r shut (raises {a = a}) = stranded-IsSound (a ∷ s.stranded) shut
  Advance-IsSound_detached p r shut (settles {a = a} {id = id}) =
      let lost : own_work a id s ≡ none = ground (arith, shut) in
      rw lost (emptied-IsSound shut a s.cancelled_tokens)
  Advance-IsSound_detached p r shut (stops e) = sound

  -- The counts, the requests and the result of closing are not looked at.
  counted-IsSound :
      (active : ℕ) (asked : Dict String ℕ) (running : Bool)
      → IsSound limits (record s {
        active_publications = active;
        recovery_requests = asked;
        recovery_running = running;
      })
  counted-IsSound active asked running = record {
    owned = sound.owned;
    opened = sound.opened;
    sealed = sound.sealed;
    queue_bound = sound.queue_bound;
    worker_bound = sound.worker_bound;
    failure_bound = sound.failure_bound;
    available_bound = sound.available_bound;
    fresh = sound.fresh;
    epoch_current = sound.epoch_current;
  }

  publish_begin-IsSound : (c : ProjectionCandidate) → IsSound limits (publish_begin c s).1
  unfolding publish_begin
  publish_begin-IsSound c =
      if-cases (IsSoundAfter limits)
        (s.publication_closed || not (is_epoch c.publication_epoch s.publication_epoch))
        (err ScheduleError.coordinator_closed, s)
        (ok tt, record s { active_publications = s.active_publications + 1 }) (λ refused. sound)
        (λ passed.
          counted-IsSound (s.active_publications + 1) s.recovery_requests s.recovery_running)

  request_recovery-IsSound :
      (a : String) (revision : ℕ) → IsSound limits (request_recovery a revision s)
  unfolding request_recovery
  request_recovery-IsSound a revision =
      if-cases (IsSound limits) (s.closed || not s.accepting) s _ (λ refused. sound)
        (λ passed. record {
          owned = sound.owned;
          opened = sound.opened;
          sealed = λ c. absurd (ground (arith, passed, c));
          queue_bound = sound.queue_bound;
          worker_bound = sound.worker_bound;
          failure_bound =
              omega (arith, sound.failure_bound, length-erase String-discrete a s.failures);
          available_bound =
              omega (arith, sound.available_bound, length-erase String-discrete a s.available);
          fresh = sound.fresh;
          epoch_current = sound.epoch_current;
        })

  recovery_head-IsSound : IsSound limits (recovery_head s).1
  unfolding recovery_head
  recovery_head-IsSound =
      if-cases (IsSoundAfter limits) s.closed _ _
        (λ shut. counted-IsSound s.active_publications [] false)
        (λ is_open.
          if-cases (IsSoundAfter limits) (ltb 0 (length s.recovery_requests)) _ _ (λ more. sound)
            (λ nothing. counted-IsSound s.active_publications s.recovery_requests false))

  epoch_install-IsSound :
      (serial : ℕ) (opened : String) → IsSound limits (epoch_install serial opened s).1
  unfolding epoch_install
  epoch_install-IsSound serial opened =
      if-cases (IsSoundAfter limits) s.publication_closed _ _ (λ shut. sound)
        (λ is_open.
          let current = holds (ℕ_discrete serial s.projection_storage_failure_serial) in
          if-cases (IsSoundAfter limits) (not current) _ _ (λ stale. sound)
            (λ same. record {
              owned = sound.owned;
              opened = sound.opened;
              sealed = λ c. let rest = sound.sealed c in absurd (ground (arith, rest.4, is_open));
              queue_bound = sound.queue_bound;
              worker_bound = sound.worker_bound;
              failure_bound = sound.failure_bound;
              available_bound = sound.available_bound;
              fresh = sound.fresh;
              epoch_current = λ e _. ground (arith, same);
            }))

  storage_failed-IsSound :
      (account : Option String) → IsSound limits (projection_storage_failed account s)
  unfolding projection_storage_failed
  storage_failed-IsSound account = record {
    owned = sound.owned;
    opened = sound.opened;
    sealed = λ c. let rest = sound.sealed c in (rest.0, rest.1, rest.2, refl, rest.4, rest.5);
    queue_bound = sound.queue_bound;
    worker_bound = sound.worker_bound;
    failure_bound = sound.failure_bound;
    available_bound = elim (Option-cases account) [
      | inl e ↦ rw e (omega arith)
      | inr (a, e) ↦
          rw e (omega (arith, sound.available_bound, length-erase String-discrete a s.available))
    ];
    fresh = sound.fresh;
    epoch_current = λ e h. cc;
  }

  seal-IsSound : IsSound limits (seal s)
  unfolding seal
  seal-IsSound = record {
    owned = λ o. absurd (cc);
    opened = λ o. absurd (cc);
    sealed = λ c. (refl, refl, refl, refl, refl, refl);
    queue_bound = omega arith;
    worker_bound = sound.worker_bound;
    failure_bound = omega arith;
    available_bound = omega arith;
    fresh = sound.fresh;
    epoch_current = λ e h. cc;
  }

  close_finish-IsSound :
      (detached : ℕ) (result : Bool)
      → s.closed ≡ true
      → IsSound limits (close_finish detached result s)
  unfolding close_finish Dict.lookup
  close_finish-IsSound detached result shut = record {
    owned = λ o. absurd (cc);
    opened = sound.opened;
    sealed = sound.sealed;
    queue_bound = sound.queue_bound;
    worker_bound = omega arith;
    failure_bound = sound.failure_bound;
    available_bound = sound.available_bound;
    fresh = λ t p found. cc;
    epoch_current = sound.epoch_current;
  }

Step-IsSound :
    (limits : Limits) (s s' : Scheduler) → IsSound limits s → Step limits s s' → IsSound limits s'
unfolding publish_end recovery_claim recovery_requeue recovery_stopped
Step-IsSound limits s s' sound (checks a revision retry_failed) =
    schedule_check-IsSound limits a revision retry_failed s sound
Step-IsSound limits s s' sound (admits a revision retry_failed) =
    schedule_admit-IsSound limits a revision retry_failed s sound
Step-IsSound limits s s' sound (works t p r at advance) =
    Advance-IsSound limits s t sound p r at advance
Step-IsSound limits s s' sound (works_detached p r shut advance) =
    Advance-IsSound_detached limits s sound p r shut advance
Step-IsSound limits s s' sound (finishes t at) = worker_finished-IsSound limits t s sound at
Step-IsSound limits s s' sound (publication_begins c) = publish_begin-IsSound limits s sound c
Step-IsSound limits s s' sound publication_ends =
    counted-IsSound limits s sound (s.active_publications - 1) s.recovery_requests
      s.recovery_running
Step-IsSound limits s s' sound (installs serial opened) =
    epoch_install-IsSound limits s sound serial opened
Step-IsSound limits s s' sound (storage_fails account) =
    storage_failed-IsSound limits s sound account
Step-IsSound limits s s' sound (requests a revision) =
    request_recovery-IsSound limits s sound a revision
Step-IsSound limits s s' sound recovers = recovery_head-IsSound limits s sound
Step-IsSound limits s s' sound (claims claimed) =
    counted-IsSound limits s sound s.active_publications (claim claimed s.recovery_requests)
      s.recovery_running
Step-IsSound limits s s' sound (requeues a revision) =
    counted-IsSound limits s sound s.active_publications
      (add_request a revision s.recovery_requests) s.recovery_running
Step-IsSound limits s s' sound recovery_ends =
    counted-IsSound limits s sound s.active_publications s.recovery_requests false
Step-IsSound limits s s' sound (records a revision) =
    record_available-IsSound limits a revision s sound
Step-IsSound limits s s' sound seals = seal-IsSound limits s sound
Step-IsSound limits s s' sound (closes detached result shut) =
    close_finish-IsSound limits s sound detached result shut

new-IsSound : (limits : Limits) → IsSound limits new_scheduler
unfolding count weight is_holding Dict.lookup total
new-IsSound limits = record {
  owned = λ o. record {
    balanced = λ a. refl;
    coherent = λ t p h found hp. cc;
    sizes = refl;
    work_distinct = tt;
    workers_distinct = tt;
  };
  opened = λ o. (refl, refl);
  sealed = λ c. absurd (cc);
  queue_bound = omega arith;
  worker_bound = omega arith;
  failure_bound = omega arith;
  available_bound = omega arith;
  fresh = λ t p found. cc;
  epoch_current = λ e h. cc;
}

-- Every state that the scheduler reaches from its start, in whatever order its blocks run, is
-- sound: while it is open, each account with work is queued exactly once, or held by exactly one
-- worker, whose work is the one stored, or was stranded once by a discard that raised an error; the queue, the workers and the two caches keep their
-- capacities; an installed publication epoch belongs to the current storage; and once it is
-- closed, nothing is queued, no work is left and no epoch is installed.
pub Reach-IsSound : (limits : Limits) (s : Scheduler) → Reach limits s → IsSound limits s
Reach-IsSound limits s new = new-IsSound limits
Reach-IsSound limits s (next {s = before} reach step) =
    Step-IsSound limits before s (Reach-IsSound limits before reach) step
