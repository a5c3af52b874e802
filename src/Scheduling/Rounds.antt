-- ===== src/Scheduling/Rounds.antt =====
-- A worker's blocks (app/analytics/scheduling.py) keep what every state keeps.
use onlyfans_conversational.Prelude.{
  ℕ, ◌+◌, ◌≤◌, String, String-discrete, ℕ_discrete, Bool, true, false, List, [], ◌∷◌, Option, none,
  some, ◌≡◌, refl, arith, length, if◌then◌else◌, ◌⊎◌, inl, inr, ltb, Bool-cases, Option-cases,
}
use onlyfans_conversational.Prelude.Dict
use onlyfans_conversational.Prelude.Dict.{Dict, lookup-insert}
use onlyfans_conversational.Prelude.Membership.{length-erase}
use onlyfans_conversational.Prelude.Totals.{length-insert_known}
use onlyfans_conversational.Scheduling.Types.{
  AccountWork, Attempt, Place, Limits, Scheduler, ProjectionScheduleState,
}
use onlyfans_conversational.Scheduling.Admission.{drop_oldest, put_last, record_available}
use onlyfans_conversational.Scheduling.Drain.{
  take, take_first, own_work, begin, published_revision, record_failure, record_success, settle,
  settle_own, failed_state,
}
use onlyfans_conversational.Scheduling.Ownership.{
  Holding, held, Work, find_work, find_worker, IsOwned, IsOwned-move, IsOwned-first, IsOwned-taken,
}
use onlyfans_conversational.Scheduling.Transfers.{IsOwned-idle, IsOwned-updated, IsOwned-dropped}
use onlyfans_conversational.Scheduling.Steps.{placed, IsSound}
use onlyfans_conversational.Scheduling.Eviction.{length-drop_oldest}

-- While the scheduler is open, a worker finds its own work, as it left it.
abbrev IsOwn : Holding → Option AccountWork → Scheduler → Type 0
IsOwn h found s =
    (w : AccountWork) × (found ≡ some w)
    × (find_work h.0 s.work ≡ some w)
    × (w.work_id ≡ h.1)
    × (h.2 ≤ w.requested_revision)
    × (s.closed ≡ false)

pub own_work-held :
    (limits : Limits) (s : Scheduler) (t : ℕ) (p : Place) (h : Holding)
    → IsSound limits s
    → find_worker t s.workers ≡ some p
    → held p ≡ some h
    → ((own_work h.0 h.1 s ≡ none) × (s.closed ≡ true)) ⊎ IsOwn h (own_work h.0 h.1 s) s
unfolding own_work
own_work-held limits s t p h sound at hp = elim (Bool-cases s.closed) [
  | inl shut ↦ inl (ground arith, shut)
  | inr is_open ↦
      let (w, found, same, floor) = (sound.owned is_open).coherent t p h at hp in
      inr (w, ground (arith, found, same), found, same, floor, is_open)
]

module _ (limits : Limits) (s : Scheduler) (t : ℕ) (p : Place) (sound : IsSound limits s)
    (at : find_worker t s.workers ≡ some p) where
  -- The state with the parts that a worker's block may change.
  abbrev pub after :
      Place
      → List String
      → Work
      → Dict String ProjectionScheduleState
      → Dict String ℕ
      → ℕ
      → List ℕ
      → Scheduler
  after q pending work failures available next_token cancelled_tokens = record s {
    pending = pending;
    work = work;
    failures = failures;
    available = available;
    next_token = next_token;
    cancelled_tokens = cancelled_tokens;
    workers = Dict.insert ℕ_discrete t q s.workers;
  }

  after-IsSound :
      (q : Place) (pending : List String) (work : Work)
      (failures : Dict String ProjectionScheduleState) (available : Dict String ℕ) (next_token : ℕ)
      (cancelled_tokens : List ℕ)
      → (s.closed ≡ false → IsOwned s.stranded pending work (Dict.insert ℕ_discrete t q s.workers))
      → (s.closed ≡ true → (pending ≡ []) × (work ≡ []) × (failures ≡ []))
      → length pending ≤ limits.queue_capacity
      → length failures ≤ limits.failure_state_capacity
      → length available ≤ limits.failure_state_capacity
      → IsSound limits (after q pending work failures available next_token cancelled_tokens)
  after-IsSound q pending work failures available next_token tokens owned empty queue failed avail =
      record {
        owned = owned;
        opened = sound.opened;
        sealed = λ shut.
            let (no_pending, no_work, no_failures) = empty shut in
            let rest = sound.sealed shut in
            (no_pending, no_work, no_failures, rest.3, rest.4, rest.5);
        queue_bound = queue;
        worker_bound =
            omega (arith, sound.worker_bound, length-insert_known ℕ_discrete t p q s.workers at);
        failure_bound = failed;
        available_bound = avail;
        fresh = λ u r found. elim (ℕ_discrete u t) [
          | yes e ↦ omega (arith, e, sound.fresh t p at)
          | no e ↦ sound.fresh u r (ground (arith, lookup-insert ℕ_discrete u t q s.workers, found))
        ];
        epoch_current = sound.epoch_current;
      }

  -- Only the worker's place and the tokens change.
  pub replaced-IsSound :
      (q : Place) (tokens : List ℕ)
      → (s.closed ≡ false
          → IsOwned s.stranded s.pending s.work (Dict.insert ℕ_discrete t q s.workers))
      → IsSound limits (after q s.pending s.work s.failures s.available s.next_token tokens)
  replaced-IsSound q tokens owned =
      after-IsSound q s.pending s.work s.failures s.available s.next_token tokens owned
        (λ shut. let rest = sound.sealed shut in (rest.0, rest.1, rest.2)) sound.queue_bound
        sound.failure_bound sound.available_bound

  pub idled-IsSound : (q : Place) → held p ≡ none → held q ≡ none → IsSound limits (placed t (q, s))
  idled-IsSound q hp hq =
      replaced-IsSound q s.cancelled_tokens (λ o. IsOwned-idle t p q (sound.owned o) at hp hq)

  -- The worker keeps what it holds.
  pub moved-IsSound :
      (q : Place) (h : Holding)
      → held p ≡ some h
      → held q ≡ some h
      → IsSound limits (placed t (q, s))
  moved-IsSound q h hp hq = replaced-IsSound q s.cancelled_tokens (λ o.
      IsOwned-move t p q h h.2 (sound.owned o) at hp hq ((sound.owned o).coherent t p h at hp))

  -- The worker gives up what it holds; its account's work goes.
  pub dropped-IsSound :
      (q : Place) (h : Holding) (failures : Dict String ProjectionScheduleState)
      (available : Dict String ℕ) (tokens : List ℕ)
      → held p ≡ some h
      → held q ≡ none
      → (s.closed ≡ true → failures ≡ [])
      → length failures ≤ limits.failure_state_capacity
      → length available ≤ limits.failure_state_capacity
      → IsSound limits (
          after q s.pending
            (Dict.erase String-discrete h.0 s.work)
            failures
            available
            s.next_token
            tokens)
  unfolding Dict.erase
  dropped-IsSound q h failures available tokens hp hq empty failed avail =
      after-IsSound q s.pending (Dict.erase String-discrete h.0 s.work) failures available
        s.next_token tokens (λ o. IsOwned-dropped t p q h (sound.owned o) at hp hq)
        (λ shut. let rest = sound.sealed shut in (rest.0, rw rest.1 refl, empty shut))
        sound.queue_bound failed avail

  -- The worker keeps what it holds and changes it.
  changed-IsSound :
      (q : Place) (h : Holding) (floor : ℕ) (old new : AccountWork) (next_token : ℕ)
      → held p ≡ some h
      → held q ≡ some (h.0, h.1, floor)
      → find_work h.0 s.work ≡ some old
      → old.work_id ≡ h.1
      → floor ≤ old.requested_revision
      → new.work_id ≡ old.work_id
      → new.requested_revision ≡ old.requested_revision
      → s.closed ≡ false
      → IsSound limits (
          after q s.pending
            (Dict.insert String-discrete h.0 new s.work)
            s.failures
            s.available
            next_token
            s.cancelled_tokens)
  changed-IsSound q h floor old new next_token hp hq found own low same equal is_open =
      after-IsSound q s.pending (Dict.insert String-discrete h.0 new s.work) s.failures s.available
        next_token s.cancelled_tokens
        (λ o.
          IsOwned-updated h.0 old new
            (IsOwned-move t p q h floor (sound.owned o) at hp hq (old, found, own, low)) found same
            (omega (arith, equal)))
        (λ shut. absurd (cc)) sound.queue_bound sound.failure_bound sound.available_bound

  taken-IsSound :
      s.closed ≡ false
      → held p ≡ none
      → (pending : List String) → s.pending ≡ pending
      → IsSound limits (placed t (take_first pending s))
  taken-IsSound is_open none_held [] e = idled-IsSound Place.done none_held refl
  taken-IsSound is_open none_held (a ∷ rest) e =
      let o : IsOwned s.stranded (a ∷ rest) s.work s.workers = rw (← e) (sound.owned is_open) in
      let (w, found) = IsOwned-first a rest s.work s.workers o in
      rw (found, take_first)
        (after-IsSound (Place.draining a w.work_id) rest s.work s.failures s.available s.next_token
          s.cancelled_tokens (λ _. IsOwned-taken a rest s.work s.workers t p w o at none_held found)
          (λ shut. absurd (cc)) (let bound = sound.queue_bound in ground (arith, bound, e))
          sound.failure_bound sound.available_bound)

  pub takes-IsSound : held p ≡ none → IsSound limits (placed t (take s))
  unfolding take
  takes-IsSound none_held = in_either s.closed refl
    where
      in_either :
          (closed : Bool)
          → s.closed ≡ closed
          → IsSound limits (placed t (if closed then (Place.done, s) else take_first s.pending s))
      in_either true shut = idled-IsSound Place.done none_held refl
      in_either false is_open = taken-IsSound is_open none_held s.pending refl

  pub begins-IsSound :
      (a : String) (id : ℕ) → held p ≡ some (a, id, 0) → IsSound limits (placed t (begin a id s))
  unfolding begin
  begins-IsSound a id hp = elim (own_work-held limits s t p (a, id, 0) sound at hp) [
    | inl (lost, shut) ↦ rw lost (
        dropped-IsSound Place.idle (a, id, 0) s.failures s.available s.cancelled_tokens hp refl
          (λ c. (sound.sealed c).2) sound.failure_bound sound.available_bound)
    | inr (w, own, found, same, floor, is_open) ↦
        let new : AccountWork = record w {
          attempted_revision = some w.requested_revision;
          cancellation = some s.next_token;
        } in
        rw own (
          changed-IsSound (Place.attempting a id w.requested_revision s.next_token) (a, id, 0)
            w.requested_revision w new (s.next_token + 1) hp refl found same (omega arith) refl refl
            is_open)
  ]

  pub settles-IsSound :
      (a : String) (id : ℕ) (attempt : Attempt)
      → held p ≡ some (a, id, attempt.attempted_revision)
      → IsSound limits (placed t (settle limits a id attempt s))
  unfolding settle record_success record_available record_failure
  settles-IsSound a id attempt hp =
      let h : Holding = (a, id, attempt.attempted_revision) in
      elim (own_work-held limits s t p h sound at hp) [
        | inl (lost, shut) ↦ rw lost (
            dropped-IsSound Place.idle h s.failures s.available s.cancelled_tokens hp refl
              (λ c. (sound.sealed c).2) sound.failure_bound sound.available_bound)
        | inr (w, own, found, same, floor, is_open) ↦
            elim (Option-cases (published_revision attempt w)) [
              | inr (revision, done) ↦
                  rw (own, done, settle_own)
                    (dropped-IsSound Place.idle h (Dict.erase String-discrete a s.failures)
                      (drop_oldest limits.failure_state_capacity (put_last a revision s.available))
                      s.cancelled_tokens hp refl (λ c. absurd (cc))
                      (omega
                        (arith, sound.failure_bound, length-erase String-discrete a s.failures))
                      (length-drop_oldest limits.failure_state_capacity
                        (put_last a revision s.available)))
              | inl undone ↦
                  elim (Bool-cases (ltb attempt.attempted_revision w.requested_revision)) [
                    | inl more ↦
                        rw (own, undone, settle_own, more)
                          (changed-IsSound (Place.draining a id) h 0 w
                            (record w { cancellation = none }) s.next_token hp refl found same
                            (omega arith) refl refl is_open)
                    | inr last ↦
                        rw (own, undone, settle_own, last)
                          (dropped-IsSound Place.idle h
                            (drop_oldest limits.failure_state_capacity
                              (put_last a (failed_state w attempt) s.failures))
                            s.available s.cancelled_tokens hp refl (λ c. absurd (cc))
                            (length-drop_oldest limits.failure_state_capacity
                              (put_last a (failed_state w attempt) s.failures))
                            sound.available_bound)
                  ]
            ]
      ]
