-- ===== src/Scheduling/Admissions.antt =====
-- What `schedule` answers, and which recovery requests stay (app/analytics/scheduling.py).
use onlyfans_conversational.Prelude.{
  ℕ, ◌≤◌, String, String-discrete, ℕ_discrete, Bool, true, false, [], ◌∷◌, Option, none, some, ◌≡◌,
  refl, arith, ◌⊎◌, inl, inr, ◌||◌, leb, ite, length, Bool-cases, Option-cases, Result, ok, err,
  zero, suc, holds, if◌then◌else◌,
}
use onlyfans_conversational.Prelude.Dict
use onlyfans_conversational.Prelude.Dict.{Dict, lookup-insert, lookup-erase}
use onlyfans_conversational.Scheduling.Types.{
  AccountWork, Limits, Scheduler, ProjectionScheduleState, ScheduleError, coordinator_closed,
  backpressure,
}
use onlyfans_conversational.Scheduling.Admission.{
  max, is_shut, is_known_failure, is_covered, coalesce, enqueue, spawn, launch_workers,
  schedule_check, check_known, schedule_admit, schedule,
}
use onlyfans_conversational.Scheduling.Recovery.{claim, claim_one, claim_found}
use onlyfans_conversational.Scheduling.Ownership.{find_work}

spawn-work : (n : ℕ) (s : Scheduler) → (spawn n s).work ≡ s.work
unfolding spawn
spawn-work zero s = refl
spawn-work (suc n) s = spawn-work n _

launch_workers-work : (limits : Limits) (s : Scheduler) → (launch_workers limits s).work ≡ s.work
unfolding launch_workers
launch_workers-work limits s = spawn-work _ _

-- The account has work that asks for the revision at least.
abbrev pub IsRequested : String → ℕ → Scheduler → Type 0
IsRequested a revision s =
    (w : AccountWork) × (find_work a s.work ≡ some w) × (revision ≤ w.requested_revision)

-- Nothing has to be done for the revision: the account's last attempt was at this very revision and
-- failed, and no retry is asked for; or this revision or a later one is available.
abbrev pub IsMoot : String → ℕ → Bool → Scheduler → Type 0
IsMoot a revision retry_failed s =
    ((f : ProjectionScheduleState) × (Dict.lookup String-discrete a s.failures ≡ some f)
      × (f.attempted_revision ≡ some revision)
      × (retry_failed ≡ false))
    ⊎ ((available : ℕ) × (Dict.lookup String-discrete a s.available ≡ some available)
        × (revision ≤ available))

is_known_failure-attempted :
    (o : Option ProjectionScheduleState) (revision : ℕ) (retry_failed : Bool)
    → is_known_failure o revision retry_failed ≡ true
    → (f : ProjectionScheduleState) × (o ≡ some f)
      × (f.attempted_revision ≡ some revision)
      × (retry_failed ≡ false)
is_known_failure-attempted none revision retry_failed h = absurd (ground (arith, h))
is_known_failure-attempted (some f) revision retry_failed h =
    elim (Option-cases f.attempted_revision) [
      | inl e ↦ absurd (ground (arith, h, e))
      | inr (n, e) ↦ (f, refl, ground (arith, h, e), ground (arith, h, e))
    ]

is_covered-available :
    (o : Option ℕ) (revision : ℕ)
    → is_covered o revision ≡ true
    → (available : ℕ) × (o ≡ some available) × (revision ≤ available)
is_covered-available none revision h = absurd (ground (arith, h))
is_covered-available (some available) revision h = (available, refl, ground (arith, h))

known-IsMoot :
    (a : String) (revision : ℕ) (retry_failed : Bool) (s : Scheduler)
    → (is_known_failure (Dict.lookup String-discrete a s.failures) revision retry_failed
        || is_covered (Dict.lookup String-discrete a s.available) revision)
      ≡ true
    → IsMoot a revision retry_failed s
known-IsMoot a revision retry_failed s h =
    let failure = Dict.lookup String-discrete a s.failures in
    elim (Bool-cases (is_known_failure failure revision retry_failed)) [
      | inl known ↦ inl (is_known_failure-attempted failure revision retry_failed known)
      | inr new ↦ inr (
          is_covered-available (Dict.lookup String-discrete a s.available) revision
            (ground (arith, h, new)))
    ]

shut-IsShut : (s : Scheduler) → is_shut s ≡ true → (s.accepting ≡ false) ⊎ (s.closed ≡ true)
shut-IsShut s h = elim (Bool-cases s.closed) [
  | inl closed ↦ inr closed
  | inr unclosed ↦ inl (ground (arith, h, unclosed))
]

-- How a call of `schedule` on `s` may end.
abbrev pub IsAnswer :
    Limits → String → ℕ → Bool → Scheduler → Result ScheduleError Unit × Scheduler → Type 0
IsAnswer limits a revision retry_failed s (ok done, s') =
    IsRequested a revision s' ⊎ ((s' ≡ s) × IsMoot a revision retry_failed s)
IsAnswer limits a revision retry_failed s (err backpressure, s') =
    (s' ≡ s) × (find_work a s.work ≡ none) × (limits.queue_capacity ≤ length s.pending)
IsAnswer limits a revision retry_failed s (err coordinator_closed, s') =
    (s' ≡ s) × ((s.accepting ≡ false) ⊎ (s.closed ≡ true))

coalesce-IsRequested :
    (a : String) (w : AccountWork) (revision : ℕ) (s : Scheduler)
    → IsRequested a revision (coalesce a w revision s)
unfolding coalesce
coalesce-IsRequested a w revision s = (
  record w { requested_revision = max w.requested_revision revision },
  Dict.lookup-insert_self String-discrete a _ s.work,
  ground arith,
)

launched-IsRequested :
    (limits : Limits) (a : String) (revision : ℕ) (s : Scheduler)
    → IsRequested a revision (launch_workers limits (enqueue a revision s))
unfolding enqueue
launched-IsRequested limits a revision s = (
  record {
    work_id = s.next_work;
    requested_revision = revision;
    attempted_revision = none;
    cancellation = none;
  },
  rw (launch_workers-work limits (enqueue a revision s))
      (Dict.lookup-insert_self String-discrete a _ s.work),
  omega arith,
)

-- `schedule` either raises that the scheduler is closed, where it is or accepts no more, or that its
-- queue is full while the account has no work, and changes nothing then; or it returns with the
-- account's work asking for the revision at least; or it returns without a change, because the last
-- attempt failed at this very revision and no retry is asked for, or because this revision or a
-- later one is available.
pub schedule-IsAnswer :
    (limits : Limits) (a : String) (revision : ℕ) (retry_failed : Bool) (s : Scheduler)
    → IsAnswer limits a revision retry_failed s (schedule limits a revision retry_failed s)
unfolding schedule schedule_check schedule_admit
schedule-IsAnswer limits a revision retry_failed s = elim (Bool-cases (is_shut s)) [
  | inl shut ↦ rw shut (refl, shut-IsShut s shut)
  | inr is_open ↦ elim (Option-cases (find_work a s.work)) [
    | inr (w, found) ↦ rw (is_open, found) (inl (coalesce-IsRequested a w revision s))
    | inl missing ↦
        let failed =
          is_known_failure (Dict.lookup String-discrete a s.failures) revision retry_failed in
        let covered = is_covered (Dict.lookup String-discrete a s.available) revision in
        elim (Bool-cases (failed || covered)) [
          | inl moot ↦
              rw (is_open, missing, check_known, moot)
                (inr (refl, known-IsMoot a revision retry_failed s moot))
          | inr needed ↦
              let unknown : failed ≡ false = ground (arith, needed) in
              elim (Bool-cases (leb limits.queue_capacity (length s.pending))) [
                | inl full ↦
                    rw (is_open, missing, check_known, needed, is_open, missing, unknown, full)
                      (refl, missing, ground (arith, full))
                | inr room ↦
                    rw (is_open, missing, check_known, needed, is_open, missing, unknown, room)
                      (inl (launched-IsRequested limits a revision s))
              ]
        ]
  ]
]

-- A request that the recovery worker has claimed leaves the requests unless it was raised since.
abbrev pub unclaimed : Option ℕ → Option ℕ → Option ℕ
unclaimed none revision = revision
unclaimed (some claimed) none = none
unclaimed (some claimed) (some revision) =
    if holds (ℕ_discrete revision claimed) then none else some revision

lookup-claim_one :
    (a : String) (e : String × ℕ) (requests : Dict String ℕ)
    → Dict.lookup String-discrete a (claim_one e requests)
      ≡ ite
          (String-discrete a e.0)
          (unclaimed (some e.1) (Dict.lookup String-discrete a requests))
          (Dict.lookup String-discrete a requests)
unfolding claim_one
lookup-claim_one a e requests =
    let without = lookup-erase String-discrete a e.0 requests in
    elim (Option-cases (Dict.lookup String-discrete e.0 requests)) [
      | inl missing ↦ rw missing (ground (arith, missing))
      | inr (revision, found) ↦ elim (Bool-cases (holds (ℕ_discrete revision e.1))) [
        | inl same ↦ rw (found, claim_found, same) (ground (arith, without, found, same))
        | inr raised ↦ rw (found, claim_found, raised) (ground (arith, found, raised))
      ]
    ]

-- For each account, the recovery worker's claim takes away the request that it had read, and leaves
-- one for any other revision that was raised since then: no later recovery request is lost.
pub lookup-claim :
    (a : String) (claimed requests : Dict String ℕ)
    → Dict.IsDistinct String-discrete claimed
    → Dict.lookup String-discrete a (claim claimed requests)
      ≡ unclaimed (Dict.lookup String-discrete a claimed) (Dict.lookup String-discrete a requests)
unfolding claim Dict.lookup
lookup-claim a [] requests d = refl
lookup-claim a (e ∷ claimed) requests d =
    let one = lookup-claim_one a e requests in
    let later = lookup-claim a claimed (claim_one e requests) d.1 in
    elim (String-discrete a e.0) [
      | yes same ↦
          let absent : Dict.lookup String-discrete a claimed ≡ none = rw same d.0 in
          ground (arith, one, later, absent)
      | no other ↦ ground (arith, one, later)
    ]
